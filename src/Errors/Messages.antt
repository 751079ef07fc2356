-- ===== src/Errors/Messages.antt =====
-- pkg/common/error/error_typed.go, `globalTypedErrorMessages`: the map of typed messages, in the
-- order of the source. A message's text is a format for `fmt.Sprintf`.
use goapp.Base.{String, List, [], ◌∷◌}
use goapp.Errors.Keys.{
  ErrKey, key_string, message_not_found, incorrect_call_error, incorrect_type_error,
  incorrect_log_level, json_marshal_error, json_unmarshal_error, xml_marshal_error,
  xml_unmarshal_error, yaml_marshal_error, yaml_unmarshal_error, http_listener_create_error,
  http_server_shutdown_error, http_dump_request_error, http_body_read_error,
  http_request_write_error, http_method_not_allowed_error, http_handler_method_not_found,
  http_auth_basic_not_set_error, http_auth_basic_error, http_auth_jwt_not_set_error,
  http_auth_jwt_invalid_error, http_auth_jwt_expired_error, http_auth_msad_invalid_error,
  http_auth_msad_error, http_header_incorrect_bool, http_call_empty_url,
  http_call_create_context_error, http_call_timeout_error, http_call_other_error,
  http_call_other_neturl_error, http_call_read_body_error, http_call_url_not_found_error,
  http_call_method_not_allowed_error, db_connection_error, db_close_error, db_tx_not_defined_error,
  db_sql_stm_not_defined_error, db_sql_stm_prepare_error, db_tx_commit_error, db_tx_rollbak_error,
  db_tx_create_error, db_select_error, db_get_error, db_exec_error, db_queryrowx_error,
  db_exec_row_count_error, db_too_many_rows_error, panic_recover_error, worker_pool_timeout_error,
  worker_pool_worker_error, worker_pool_task_count_error, worker_pool_is_shutting_down,
  worker_pool_task_channel_closed, worker_pool_add_task_incorrect_state,
  worker_pool_run_incorrect_state, worker_pool_task_incorrect_state, worker_pool_incomplete_done,
  worker_pool_context_closed, worker_pool_stop_signal, worker_pool_task_already_locked,
  worker_pool_already_locked, timeout_error, incorrect_arg_num_error, common_error, error_key,
  reflect_incorrect_type, context_closed_error, validator_common_error, validator_struct_error,
  validator_mdg_error, file_open_error, file_sync_error, xlsx_common_error, time_format_error,
  int_parse_error, incorrect_entity_source, incorrect_auth_type, empty_jwt_key, empty_http_user,
  empty_config_file, config_file_not_exists, config_file_load_error,
}

-- `ErrorMessage`: its fields `Code` and `Text`.
pub record ErrorMessage : Type 0 where
  pub code : String
  pub text : String

entry : ErrKey → String → String × ErrorMessage
unfolding key_string
entry k text = (key_string k, record { code = key_string k; text = text })

unfoldable pub global_typed_error_messages : List (String × ErrorMessage)
unfolding entry
global_typed_error_messages =
    entry message_not_found "Error with code '%s' was not found: ['args=[%s]']"
    ∷ entry json_marshal_error "Error marshal JSON"
    ∷ entry json_unmarshal_error "Error unmarshal JSON"
    ∷ entry xml_marshal_error "Error marshal XMl"
    ∷ entry xml_unmarshal_error "Error unmarshal XML"
    ∷ entry yaml_marshal_error "Error marshal YAML"
    ∷ entry yaml_unmarshal_error "Error unmarshal YAML"
    ∷ entry http_listener_create_error
        "Failed to create new TCP listener: ['network=['tcp']', 'address=[%s]']"
    ∷ entry db_connection_error
        "Failed to connect DB server: ['host=[%s]', 'port=[%s]', 'dbname=[%s]', 'sslmode=[%s]', 'user=[%s]']"
    ∷ entry db_close_error
        "Failed to close DB server: ['host=[%s]', 'port=[%s]', 'dbname=[%s]', 'sslmode=[%s]', 'user=[%s]']"
    ∷ entry db_tx_not_defined_error "Transaction was not defined"
    ∷ entry db_sql_stm_not_defined_error "SQL statement was not defined: ['sql=[%s]']"
    ∷ entry db_sql_stm_prepare_error "Error prepare SQL statement: ['sql=[%s]']"
    ∷ entry db_tx_commit_error "Error commit transaction"
    ∷ entry db_tx_rollbak_error "Error rollback transaction"
    ∷ entry db_tx_create_error "Error create new transaction"
    ∷ entry db_select_error "Error Select SQL statement: ['sqlID=[%v]', 'sql=[%s]', 'args=[%s]']"
    ∷ entry db_get_error "Error Get SQL statement: ['sqlID=[%v]', 'sql=[%s]', 'args=[%s]']"
    ∷ entry db_exec_error "Error Exec SQL statement: ['sqlID=[%v]', 'sql=[%s]', 'args=[%s]']"
    ∷ entry db_queryrowx_error "Error Exec SQL statement: ['sqlID=[%v]', 'sql=[%s]', 'args=[%s]']"
    ∷ entry db_exec_row_count_error
        "Error count exec affected rows: ['sqlID=[%v]', 'sql=[%s]', 'args=[%s]']"
    ∷ entry db_too_many_rows_error "Too many rows found: ['args=[%s]']"
    ∷ entry panic_recover_error "Recover from panic: ['caller=[%s]', 'mes=[%s]', 'args=[%s]']"
    ∷ entry worker_pool_timeout_error
        "Worker pool - time for task process exceeded: ['taskID=[%v]', 'timeout=[%s]']"
    ∷ entry worker_pool_worker_error "Worker pool - worker error: ['message=[%s]']"
    ∷ entry worker_pool_task_count_error
        "Worker pool service - exceeded number of Task Count: ['taskName=[%s]', 'planTaskCount=[%v]', doneChTaskCount=[%v]']"
    ∷ entry worker_pool_is_shutting_down
        "Worker pool shutting down in process - it is forbidden to add new tasks"
    ∷ entry worker_pool_task_channel_closed
        "Worker pool task channel was closed - it is forbidden to add new tasks"
    ∷ entry worker_pool_add_task_incorrect_state
        "Worker pool has incorrect state to add new task: ['current_state=[%v]', 'required_state=[%s]']"
    ∷ entry worker_pool_run_incorrect_state
        "Worker pool has incorrect state to run: ['name=[%s]', 'current_state=[%v]', 'required_state=[%s]']"
    ∷ entry worker_pool_task_incorrect_state
        "Worker pool - task has incorrect state to run: ['name=[%s]', 'current_state=[%v]', 'prev_state=[%v]', 'required_state=[%s]']"
    ∷ entry worker_pool_incomplete_done
        "Worker pool incomplete done of task queue: ['pool_name=[%s]']"
    ∷ entry worker_pool_context_closed "Worker pool - context was closed: ['message=[%s]']"
    ∷ entry worker_pool_stop_signal "Worker pool - got stop signal: ['message=[%s]']"
    ∷ entry worker_pool_task_already_locked
        "Worker pool - task already locked for process: ['name=[%s]', 'current_state=[%v]', 'prev_state=[%v]']"
    ∷ entry worker_pool_already_locked
        "Worker pool - already locked for process: ['name=[%s]', 'current_state=[%v]']"
    ∷ entry timeout_error "Time for process exceeded: ['timeout=[%s]', 'mes=[%s]']"
    ∷ entry incorrect_arg_num_error
        "Incorrect number of arguments: ['expectedArgsNum=[%v]', 'args=[%s]']"
    ∷ entry http_server_shutdown_error "Failed to shutdown HTTP server: ['errors=[%s]']"
    ∷ entry http_dump_request_error "Failed to dump HTTP Request"
    ∷ entry http_body_read_error "Failed to read HTTP body"
    ∷ entry http_request_write_error "Failed to write HTTP response"
    ∷ entry http_method_not_allowed_error "HTTP method '%s' is not allowed: ['expectedMethod=[%s]']"
    ∷ entry http_auth_basic_not_set_error "Header 'Authorization' is not set"
    ∷ entry http_auth_basic_error
        "HTTP Basic authentication error - invalid user or password: ['user=[%s]']"
    ∷ entry http_auth_jwt_not_set_error
        "JWT token does not present in Cookie. You have to authorize first"
    ∷ entry http_auth_jwt_invalid_error "JWT token signature is invalid"
    ∷ entry http_auth_jwt_expired_error "JWT token expired or invalid. You have to authorize"
    ∷ entry http_auth_msad_invalid_error
        "Error MS AD authentication: ['server=[%s]', 'port=[%s]', 'baseDN=[%s]', 'security=[%s]', 'username=[%s]'"
    ∷ entry http_auth_msad_error
        "MS AD authentication - invalid user or password: ['server=[%s]', 'port=[%s]', 'baseDN=[%s]', 'security=[%s]', 'username=[%s]'"
    ∷ entry http_header_incorrect_bool "Incorrect boolean val '%s' for header '%s'"
    ∷ entry incorrect_log_level "Incorrect log level '%s'. Allowed only 'DEBUG', 'INFO', 'ERROR'"
    ∷ entry http_handler_method_not_found "HTTP handler method with name '%s' was not found"
    ∷ entry http_call_empty_url "Empty DirectURL for HTTP client call"
    ∷ entry http_call_create_context_error "Failed to create new HTTP request"
    ∷ entry http_call_timeout_error "Failed to do HTTP request - timeout exceeded '%v'"
    ∷ entry http_call_other_error "Failed to do HTTP request - unknown error: ['errors=[%s]']"
    ∷ entry http_call_other_neturl_error
        "Failed to do HTTP request - unknown neturl.Error error: ['errors=[%s]']"
    ∷ entry http_call_read_body_error "Failed to read HTTP body from client response"
    ∷ entry http_call_url_not_found_error
        "URL was not found. Exceeded limit of attempts to call '%v': ['url=[%s]', 'args=[%s]']"
    ∷ entry http_call_method_not_allowed_error "HTTP method '%s' is not allowed"
    ∷ entry xlsx_common_error "XLSX set cell error: ['message=[%s]', 'errors=[%s]']"
    ∷ entry incorrect_call_error "Internal error - incorrect call: ['message=[%s]', 'args=[%s]']"
    ∷ entry incorrect_type_error
        "Function '%s' got incorrect type argument '%s': ['gotType=[%s]', 'expectedType=[%s]']"
    ∷ entry common_error "Common error: ['errors=[%s]']"
    ∷ entry error_key "%s"
    ∷ entry reflect_incorrect_type
        "Incorrect EntityMeta.Fields.Type: ['entity=[%s]', 'field=[%s]', 'type=[%s]']"
    ∷ entry context_closed_error "Context was closed: ['message=[%s]', 'data=[%v]']"
    ∷ entry validator_common_error "Validator error: ['errors=[%s]']"
    ∷ entry validator_struct_error "Error validate data: ['errors=[%s]', val=[%s]]"
    ∷ entry validator_mdg_error
        "Error validate object '%s' with code '%s': [val=[%s], 'errors=[%s]]"
    ∷ entry file_open_error "Error open file '%s': ['errors=[%s]']"
    ∷ entry file_sync_error "Error sync file '%s': ['errors=[%s]']"
    ∷ entry time_format_error
        "'%s' has incorrect or empty date/time format '%s': ['expectedFormat=[%s]', 'errors=[%s]']"
    ∷ entry int_parse_error "'%s' has incorrect integer format '%s'"
    ∷ entry incorrect_auth_type
        "Incorrect YAML parameter 'http_service'.'auth_type' '%s'. Allowed only 'NONE', 'INTERNAL', 'MSAD'"
    ∷ entry incorrect_entity_source
        "Incorrect YAML parameter 'cache_service'.'entity_source' '%s' for entity '%s'. Allowed only 'DB', 'MDG', 'XLSX', 'UMDAP'"
    ∷ entry empty_jwt_key "JSON web token secret key is null"
    ∷ entry empty_http_user "HTTP User is null for internal authentication"
    ∷ entry empty_config_file "Config file is null"
    ∷ entry config_file_not_exists "Config file '%s' does not exist"
    ∷ entry config_file_load_error "Error load config file '%s'"
    ∷ []
