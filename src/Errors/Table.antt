-- ===== src/Errors/Table.antt =====
-- The table of typed messages: what a key finds in it.
use goapp.Base.{◌≡◌, refl, Option, none, some, String}
use goapp.Errors.Keys.{
  ErrKey, key_string, message_not_found, incorrect_call_error, incorrect_type_error,
  incorrect_log_level, json_marshal_error, json_unmarshal_error, xml_marshal_error,
  xml_unmarshal_error, yaml_marshal_error, yaml_unmarshal_error, http_listener_create_error,
  http_server_shutdown_error, http_dump_request_error, http_body_read_error,
  http_request_write_error, http_method_not_allowed_error, http_handler_method_not_found,
  http_auth_basic_not_set_error, http_auth_basic_error, http_auth_jwt_not_set_error,
  http_auth_jwt_invalid_error, http_auth_jwt_expired_error, http_auth_msad_invalid_error,
  http_auth_msad_error, http_header_incorrect_bool, http_call_empty_url,
  http_call_create_context_error, http_call_timeout_error, http_call_other_error,
  http_call_other_neturl_error, http_call_read_body_error, http_call_url_not_found_error,
  http_call_method_not_allowed_error, db_connection_error, db_close_error, db_tx_not_defined_error,
  db_sql_stm_not_defined_error, db_sql_stm_prepare_error, db_tx_commit_error, db_tx_rollbak_error,
  db_tx_create_error, db_select_error, db_get_error, db_exec_error, db_queryrowx_error,
  db_exec_row_count_error, db_too_many_rows_error, panic_recover_error, worker_pool_timeout_error,
  worker_pool_worker_error, worker_pool_task_count_error, worker_pool_is_shutting_down,
  worker_pool_task_channel_closed, worker_pool_add_task_incorrect_state,
  worker_pool_run_incorrect_state, worker_pool_task_incorrect_state, worker_pool_incomplete_done,
  worker_pool_context_closed, worker_pool_stop_signal, worker_pool_task_already_locked,
  worker_pool_already_locked, timeout_error, incorrect_arg_num_error, common_error, error_key,
  reflect_incorrect_type, context_closed_error, validator_common_error, validator_struct_error,
  validator_mdg_error, file_open_error, file_sync_error, xlsx_common_error, time_format_error,
  int_parse_error, incorrect_entity_source, incorrect_auth_type, empty_jwt_key, empty_http_user,
  empty_config_file, config_file_not_exists, config_file_load_error,
}
use goapp.Errors.Messages.{ErrorMessage, global_typed_error_messages}
use goapp.Errors.Construct.{lookup}

abbrev pub code_of : Option ErrorMessage → Option String
code_of none = none
code_of (some m) = some m.code

-- Each constant is found in the table, under its own code.
pub code_of-lookup :
    (k : ErrKey) → code_of (lookup (key_string k) global_typed_error_messages) ≡ some (key_string k)
unfolding lookup key_string global_typed_error_messages
code_of-lookup message_not_found = refl
code_of-lookup incorrect_call_error = refl
code_of-lookup incorrect_type_error = refl
code_of-lookup incorrect_log_level = refl
code_of-lookup json_marshal_error = refl
code_of-lookup json_unmarshal_error = refl
code_of-lookup xml_marshal_error = refl
code_of-lookup xml_unmarshal_error = refl
code_of-lookup yaml_marshal_error = refl
code_of-lookup yaml_unmarshal_error = refl
code_of-lookup http_listener_create_error = refl
code_of-lookup http_server_shutdown_error = refl
code_of-lookup http_dump_request_error = refl
code_of-lookup http_body_read_error = refl
code_of-lookup http_request_write_error = refl
code_of-lookup http_method_not_allowed_error = refl
code_of-lookup http_handler_method_not_found = refl
code_of-lookup http_auth_basic_not_set_error = refl
code_of-lookup http_auth_basic_error = refl
code_of-lookup http_auth_jwt_not_set_error = refl
code_of-lookup http_auth_jwt_invalid_error = refl
code_of-lookup http_auth_jwt_expired_error = refl
code_of-lookup http_auth_msad_invalid_error = refl
code_of-lookup http_auth_msad_error = refl
code_of-lookup http_header_incorrect_bool = refl
code_of-lookup http_call_empty_url = refl
code_of-lookup http_call_create_context_error = refl
code_of-lookup http_call_timeout_error = refl
code_of-lookup http_call_other_error = refl
code_of-lookup http_call_other_neturl_error = refl
code_of-lookup http_call_read_body_error = refl
code_of-lookup http_call_url_not_found_error = refl
code_of-lookup http_call_method_not_allowed_error = refl
code_of-lookup db_connection_error = refl
code_of-lookup db_close_error = refl
code_of-lookup db_tx_not_defined_error = refl
code_of-lookup db_sql_stm_not_defined_error = refl
code_of-lookup db_sql_stm_prepare_error = refl
code_of-lookup db_tx_commit_error = refl
code_of-lookup db_tx_rollbak_error = refl
code_of-lookup db_tx_create_error = refl
code_of-lookup db_select_error = refl
code_of-lookup db_get_error = refl
code_of-lookup db_exec_error = refl
code_of-lookup db_queryrowx_error = refl
code_of-lookup db_exec_row_count_error = refl
code_of-lookup db_too_many_rows_error = refl
code_of-lookup panic_recover_error = refl
code_of-lookup worker_pool_timeout_error = refl
code_of-lookup worker_pool_worker_error = refl
code_of-lookup worker_pool_task_count_error = refl
code_of-lookup worker_pool_is_shutting_down = refl
code_of-lookup worker_pool_task_channel_closed = refl
code_of-lookup worker_pool_add_task_incorrect_state = refl
code_of-lookup worker_pool_run_incorrect_state = refl
code_of-lookup worker_pool_task_incorrect_state = refl
code_of-lookup worker_pool_incomplete_done = refl
code_of-lookup worker_pool_context_closed = refl
code_of-lookup worker_pool_stop_signal = refl
code_of-lookup worker_pool_task_already_locked = refl
code_of-lookup worker_pool_already_locked = refl
code_of-lookup timeout_error = refl
code_of-lookup incorrect_arg_num_error = refl
code_of-lookup common_error = refl
code_of-lookup error_key = refl
code_of-lookup reflect_incorrect_type = refl
code_of-lookup context_closed_error = refl
code_of-lookup validator_common_error = refl
code_of-lookup validator_struct_error = refl
code_of-lookup validator_mdg_error = refl
code_of-lookup file_open_error = refl
code_of-lookup file_sync_error = refl
code_of-lookup xlsx_common_error = refl
code_of-lookup time_format_error = refl
code_of-lookup int_parse_error = refl
code_of-lookup incorrect_entity_source = refl
code_of-lookup incorrect_auth_type = refl
code_of-lookup empty_jwt_key = refl
code_of-lookup empty_http_user = refl
code_of-lookup empty_config_file = refl
code_of-lookup config_file_not_exists = refl
code_of-lookup config_file_load_error = refl
