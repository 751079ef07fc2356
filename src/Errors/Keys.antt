-- ===== src/Errors/Keys.antt =====
-- pkg/common/error/error_typed.go, the constants: one constructor for each `ERR_...` constant, and
-- the string that it stands for.
use goapp.Base.{String}

pub data ErrKey : Type 0 where
  message_not_found incorrect_call_error incorrect_type_error incorrect_log_level : ErrKey
  json_marshal_error json_unmarshal_error xml_marshal_error xml_unmarshal_error : ErrKey
  yaml_marshal_error yaml_unmarshal_error http_listener_create_error : ErrKey
  http_server_shutdown_error http_dump_request_error http_body_read_error : ErrKey
  http_request_write_error http_method_not_allowed_error http_handler_method_not_found : ErrKey
  http_auth_basic_not_set_error http_auth_basic_error http_auth_jwt_not_set_error : ErrKey
  http_auth_jwt_invalid_error http_auth_jwt_expired_error http_auth_msad_invalid_error : ErrKey
  http_auth_msad_error http_header_incorrect_bool http_call_empty_url : ErrKey
  http_call_create_context_error http_call_timeout_error http_call_other_error : ErrKey
  http_call_other_neturl_error http_call_read_body_error http_call_url_not_found_error : ErrKey
  http_call_method_not_allowed_error db_connection_error db_close_error : ErrKey
  db_tx_not_defined_error db_sql_stm_not_defined_error db_sql_stm_prepare_error : ErrKey
  db_tx_commit_error db_tx_rollbak_error db_tx_create_error db_select_error db_get_error : ErrKey
  db_exec_error db_queryrowx_error db_exec_row_count_error db_too_many_rows_error : ErrKey
  panic_recover_error worker_pool_timeout_error worker_pool_worker_error : ErrKey
  worker_pool_task_count_error worker_pool_is_shutting_down worker_pool_task_channel_closed : ErrKey
  worker_pool_add_task_incorrect_state worker_pool_run_incorrect_state : ErrKey
  worker_pool_task_incorrect_state worker_pool_incomplete_done worker_pool_context_closed : ErrKey
  worker_pool_stop_signal worker_pool_task_already_locked worker_pool_already_locked : ErrKey
  timeout_error incorrect_arg_num_error common_error error_key reflect_incorrect_type : ErrKey
  context_closed_error validator_common_error validator_struct_error validator_mdg_error : ErrKey
  file_open_error file_sync_error xlsx_common_error time_format_error int_parse_error : ErrKey
  incorrect_entity_source incorrect_auth_type empty_jwt_key empty_http_user : ErrKey
  empty_config_file config_file_not_exists config_file_load_error : ErrKey

unfoldable pub key_string : ErrKey → String
key_string message_not_found = "MESSAGE_NOT_FOUND"
key_string incorrect_call_error = "INCORRECT_CALL_ERROR"
key_string incorrect_type_error = "INCORRECT_TYPE_ERROR"
key_string incorrect_log_level = "INCORRECT_LOG_LEVEL"
key_string json_marshal_error = "JSON_MARSHAL_ERROR"
key_string json_unmarshal_error = "JSON_UNMARSHAL_ERROR"
key_string xml_marshal_error = "XML_MARSHAL_ERROR"
key_string xml_unmarshal_error = "XML_UNMARSHAL_ERROR"
key_string yaml_marshal_error = "YAML_MARSHAL_ERROR"
key_string yaml_unmarshal_error = "YAML_UNMARSHAL_ERROR"
key_string http_listener_create_error = "HTTP_LISTENER_CREATE_ERROR"
key_string http_server_shutdown_error = "HTTP_SERVER_SHUTDOWN_ERROR"
key_string http_dump_request_error = "HTTP_DUMP_REQUEST_ERROR"
key_string http_body_read_error = "HTTP_BODY_READ_ERROR"
key_string http_request_write_error = "HTTP_REQUEST_WRITE_ERROR"
key_string http_method_not_allowed_error = "HTTP_METHOD_NOT_ALLOWED_ERROR"
key_string http_handler_method_not_found = "HTTP_HANDLER_METHOD_NOT_FOUND"
key_string http_auth_basic_not_set_error = "HTTP_AUTH_BASIC_NOT_SET_ERROR"
key_string http_auth_basic_error = "HTTP_AUTH_BASIC_ERROR"
key_string http_auth_jwt_not_set_error = "HTTP_AUTH_JWT_NOT_SET_ERROR"
key_string http_auth_jwt_invalid_error = "HTTP_AUTH_JWT_INVALID_ERROR"
key_string http_auth_jwt_expired_error = "HTTP_AUTH_JWT_EXPIRED_ERROR"
key_string http_auth_msad_invalid_error = "HTTP_AUTH_MSAD_INVALID_ERROR"
key_string http_auth_msad_error = "HTTP_AUTH_MSAD_ERROR"
key_string http_header_incorrect_bool = "HTTP_HEADER_INCORRECT_BOOL"
key_string http_call_empty_url = "HTTP_CALL_EMPTY_URL"
key_string http_call_create_context_error = "HTTP_CALL_CREATE_CONTEXT_ERROR"
key_string http_call_timeout_error = "HTTP_CALL_TIMEOUT_ERROR"
key_string http_call_other_error = "HTTP_CALL_OTHER_ERROR"
key_string http_call_other_neturl_error = "HTTP_CALL_OTHER_NETURL_ERROR"
key_string http_call_read_body_error = "HTTP_CALL_READ_BODY_ERROR"
key_string http_call_url_not_found_error = "HTTP_CALL_URL_NOT_FOUND_ERROR"
key_string http_call_method_not_allowed_error = "HTTP_CALL_METHOD_NOT_ALLOWED_ERROR"
key_string db_connection_error = "DB_CONNECTION_ERROR"
key_string db_close_error = "DB_CLOSE_ERROR"
key_string db_tx_not_defined_error = "DB_TX_NOT_DEFINED_ERROR"
key_string db_sql_stm_not_defined_error = "DB_SQL_STM_NOT_DEFINED_ERROR"
key_string db_sql_stm_prepare_error = "DB_SQL_STM_PREPARE_ERROR"
key_string db_tx_commit_error = "DB_TX_COMMIT_ERROR"
key_string db_tx_rollbak_error = "DB_TX_ROLLBAK_ERROR"
key_string db_tx_create_error = "DB_TX_CREATE_ERROR"
key_string db_select_error = "DB_SELECT_ERROR"
key_string db_get_error = "DB_GET_ERROR"
key_string db_exec_error = "DB_EXEC_ERROR"
key_string db_queryrowx_error = "DB_QUERYROWX_ERROR"
key_string db_exec_row_count_error = "DB_EXEC_ROW_COUNT_ERROR"
key_string db_too_many_rows_error = "DB_TOO_MANY_ROWS_ERROR"
key_string panic_recover_error = "PANIC_RECOVER_ERROR"
key_string worker_pool_timeout_error = "WORKER_POOL_TIMEOUT_ERROR"
key_string worker_pool_worker_error = "WORKER_POOL_WORKER_ERROR"
key_string worker_pool_task_count_error = "WORKER_POOL_TASK_COUNT_ERROR"
key_string worker_pool_is_shutting_down = "WORKER_POOL_IS_SHUTTING_DOWN"
key_string worker_pool_task_channel_closed = "WORKER_POOL_TASK_CHANNEL_CLOSED"
key_string worker_pool_add_task_incorrect_state = "WORKER_POOL_ADD_TASK_INCORRECT_STATE"
key_string worker_pool_run_incorrect_state = "WORKER_POOL_RUN_INCORRECT_STATE"
key_string worker_pool_task_incorrect_state = "WORKER_POOL_TASK_INCORRECT_STATE"
key_string worker_pool_incomplete_done = "WORKER_POOL_INCOMPLETE_DONE"
key_string worker_pool_context_closed = "WORKER_POOL_CONTEXT_CLOSED"
key_string worker_pool_stop_signal = "WORKER_POOL_STOP_SIGNAL"
key_string worker_pool_task_already_locked = "WORKER_POOL_TASK_ALREADY_LOCKED"
key_string worker_pool_already_locked = "WORKER_POOL_ALREADY_LOCKED"
key_string timeout_error = "TIMEOUT_ERROR"
key_string incorrect_arg_num_error = "INCORRECT_ARG_NUM_ERROR"
key_string common_error = "COMMON_ERROR"
key_string error_key = "ERROR"
key_string reflect_incorrect_type = "REFLECT_INCORRECT_TYPE"
key_string context_closed_error = "CONTEXT_CLOSED_ERROR"
key_string validator_common_error = "VALIDATOR_COMMON_ERROR"
key_string validator_struct_error = "VALIDATOR_STRUCT_ERROR"
key_string validator_mdg_error = "VALIDATOR_MDG_ERROR"
key_string file_open_error = "FILE_OPEN_ERROR"
key_string file_sync_error = "FILE_SYNC_ERROR"
key_string xlsx_common_error = "XLSX_COMMON_ERROR"
key_string time_format_error = "TIME_FORMAT_ERROR"
key_string int_parse_error = "INT_PARSE_ERROR"
key_string incorrect_entity_source = "INCORRECT_ENTITY_SOURCE"
key_string incorrect_auth_type = "INCORRECT_AUTH_TYPE"
key_string empty_jwt_key = "EMPTY_JWT_KEY"
key_string empty_http_user = "EMPTY_HTTP_USER"
key_string empty_config_file = "EMPTY_CONFIG_FILE"
key_string config_file_not_exists = "CONFIG_FILE_NOT_EXISTS"
key_string config_file_load_error = "CONFIG_FILE_LOAD_ERROR"
