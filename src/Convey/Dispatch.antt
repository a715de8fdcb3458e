-- ===== src/Convey/Dispatch.antt =====
-- The `match` in the loop of `go`, and that of `process_backend_authentication`, of src/convey.rs.
use postgread.Prelude.{Result, ok, err}
use postgread.Msg.TypeByte.{TypeByte}
use postgread.Msg.Body.Authentication.{Authentication}
use postgread.Convey.State.{
  Side, backend, frontend, State, ConveyError, unexpected_type, todo, unsupported,
}

-- The types that the arms give to `read_backend_through!` and `read_frontend_through!`.
pub data BackendType : Type 0 where
  backend_key_data bind_complete command_complete data_row empty_query_response : BackendType
  error_response negotiate_protocol_version notice_response parameter_status : BackendType
  parse_complete portal_suspended ready_for_query row_description : BackendType

pub data FrontendType : Type 0 where
  bind execute gss_response parse password query : FrontendType
  sasl_initial_response sasl_response sync terminate : FrontendType

-- An arm of the match: what it reads through, and what it makes of the state. `last_...` are the
-- arms that return from `go`.
pub data Arm : Type 0 where
  process_authentication : Arm
  backend_through : BackendType → State → Arm
  frontend_through : FrontendType → State → Arm
  last_backend : BackendType → Arm
  last_frontend : FrontendType → Arm
  unexpected : Arm

unfoldable pub dispatch : Side → TypeByte → State → Arm
dispatch backend TypeByte.authentication state = process_authentication
dispatch backend TypeByte.backend_key_data State.authenticated =
    backend_through backend_key_data State.sent_all_backend_params
dispatch frontend TypeByte.bind State.ready_for_query = frontend_through bind State.got_binding
dispatch backend TypeByte.bind_complete State.got_binding =
    backend_through bind_complete State.ready_for_query
dispatch backend TypeByte.command_complete State.answering_to_simple_query =
    backend_through command_complete State.completed_simple_command
dispatch backend TypeByte.command_complete State.completed_simple_command =
    backend_through command_complete State.completed_simple_command
dispatch backend TypeByte.command_complete State.got_simple_query =
    backend_through command_complete State.completed_simple_command
dispatch backend TypeByte.command_complete State.answering_to_extended_query =
    backend_through command_complete State.completed_extended_query
dispatch backend TypeByte.command_complete State.executing_extended_query =
    backend_through command_complete State.completed_extended_query
dispatch backend TypeByte.data_row State.answering_to_simple_query =
    backend_through data_row State.answering_to_simple_query
dispatch backend TypeByte.data_row State.answering_to_extended_query =
    backend_through data_row State.answering_to_extended_query
dispatch backend TypeByte.data_row State.executing_extended_query =
    backend_through data_row State.answering_to_extended_query
dispatch backend TypeByte.empty_query_response State.executing_extended_query =
    backend_through empty_query_response State.seen_empty_extended_query
dispatch backend TypeByte.empty_query_response State.got_simple_query =
    backend_through empty_query_response State.seen_empty_simple_query
dispatch backend TypeByte.execute_or_error_response State.aborted_simple_query =
    backend_through error_response State.aborted_simple_query
dispatch backend TypeByte.execute_or_error_response State.answering_to_simple_query =
    backend_through error_response State.aborted_simple_query
dispatch backend TypeByte.execute_or_error_response State.completed_simple_command =
    backend_through error_response State.aborted_simple_query
dispatch backend TypeByte.execute_or_error_response State.got_simple_query =
    backend_through error_response State.aborted_simple_query
dispatch backend TypeByte.execute_or_error_response State.seen_empty_simple_query =
    backend_through error_response State.aborted_simple_query
dispatch backend TypeByte.execute_or_error_response State.got_binding =
    backend_through error_response State.aborted_parsing_or_binding
dispatch backend TypeByte.execute_or_error_response State.got_prepared_statement =
    backend_through error_response State.aborted_parsing_or_binding
dispatch backend TypeByte.execute_or_error_response State.aborted_extended_query =
    backend_through error_response State.aborted_extended_query
dispatch backend TypeByte.execute_or_error_response State.answering_to_extended_query =
    backend_through error_response State.aborted_extended_query
dispatch backend TypeByte.execute_or_error_response State.completed_extended_query =
    backend_through error_response State.aborted_extended_query
dispatch backend TypeByte.execute_or_error_response State.executing_extended_query =
    backend_through error_response State.aborted_extended_query
dispatch backend TypeByte.execute_or_error_response State.seen_empty_extended_query =
    backend_through error_response State.aborted_extended_query
dispatch backend TypeByte.execute_or_error_response state = last_backend error_response
dispatch frontend TypeByte.execute_or_error_response State.ready_for_query =
    frontend_through execute State.executing_extended_query
dispatch frontend TypeByte.execute_or_error_response State.suspended_extended_query =
    frontend_through execute State.executing_extended_query
dispatch frontend TypeByte.gss_response_or_password_or_sasl_responses
      State.asked_cleartext_password =
    frontend_through password State.got_cleartext_password
dispatch frontend TypeByte.gss_response_or_password_or_sasl_responses State.asked_gss_response =
    frontend_through gss_response State.got_gss_response
dispatch frontend TypeByte.gss_response_or_password_or_sasl_responses State.asked_md5_password =
    frontend_through password State.got_md5_password
dispatch frontend TypeByte.gss_response_or_password_or_sasl_responses
      State.asked_sasl_initial_response =
    frontend_through sasl_initial_response State.got_any_sasl_response
dispatch frontend TypeByte.gss_response_or_password_or_sasl_responses State.asked_sasl_response =
    frontend_through sasl_response State.got_any_sasl_response
dispatch backend TypeByte.negotiate_protocol_version State.got_startup =
    backend_through negotiate_protocol_version State.got_startup
dispatch backend TypeByte.negotiate_protocol_version State.authenticated =
    backend_through negotiate_protocol_version State.authenticated
dispatch backend TypeByte.notice_response state = backend_through notice_response state
dispatch backend TypeByte.parameter_status_or_sync State.authenticated =
    backend_through parameter_status State.authenticated
dispatch frontend TypeByte.parameter_status_or_sync State.aborted_extended_query =
    frontend_through sync State.got_sync
dispatch frontend TypeByte.parameter_status_or_sync State.completed_extended_query =
    frontend_through sync State.got_sync
dispatch frontend TypeByte.parameter_status_or_sync State.seen_empty_extended_query =
    frontend_through sync State.got_sync
dispatch frontend TypeByte.parameter_status_or_sync State.suspended_extended_query =
    frontend_through sync State.got_sync
dispatch frontend TypeByte.parse State.ready_for_query =
    frontend_through parse State.got_prepared_statement
dispatch backend TypeByte.parse_complete State.got_prepared_statement =
    backend_through parse_complete State.ready_for_query
dispatch backend TypeByte.portal_suspended State.answering_to_extended_query =
    backend_through portal_suspended State.suspended_extended_query
dispatch frontend TypeByte.query State.ready_for_query =
    frontend_through query State.got_simple_query
dispatch backend TypeByte.ready_for_query State.aborted_parsing_or_binding =
    backend_through ready_for_query State.ready_for_query
dispatch backend TypeByte.ready_for_query State.aborted_simple_query =
    backend_through ready_for_query State.ready_for_query
dispatch backend TypeByte.ready_for_query State.completed_simple_command =
    backend_through ready_for_query State.ready_for_query
dispatch backend TypeByte.ready_for_query State.sent_all_backend_params =
    backend_through ready_for_query State.ready_for_query
dispatch backend TypeByte.ready_for_query State.got_sync =
    backend_through ready_for_query State.ready_for_query
dispatch backend TypeByte.ready_for_query State.seen_empty_simple_query =
    backend_through ready_for_query State.ready_for_query
dispatch backend TypeByte.row_description State.got_simple_query =
    backend_through row_description State.answering_to_simple_query
dispatch backend TypeByte.row_description State.completed_simple_command =
    backend_through row_description State.answering_to_simple_query
dispatch frontend TypeByte.terminate State.ready_for_query = last_frontend terminate
dispatch side type_byte state = unexpected

-- The match of `process_backend_authentication` on the message and the state.
unfoldable pub authenticate : Authentication → State → Result ConveyError State
authenticate Authentication.cleartext_password State.got_startup = ok State.asked_cleartext_password
authenticate Authentication.gss State.got_startup = ok State.asked_gss_response
authenticate Authentication.sspi State.got_startup = ok State.asked_gss_response
authenticate (Authentication.gss_continue auth_data) State.got_gss_response =
    ok State.asked_gss_response
authenticate (Authentication.md5_password salt) State.got_startup = ok State.asked_md5_password
authenticate Authentication.ok State.finished_sasl = ok State.authenticated
authenticate Authentication.ok State.got_cleartext_password = ok State.authenticated
authenticate Authentication.ok State.got_gss_response = ok State.authenticated
authenticate Authentication.ok State.got_md5_password = ok State.authenticated
authenticate Authentication.ok State.got_startup = ok State.authenticated
authenticate Authentication.kerberos_v5 State.got_startup = err (
    unsupported
      "AuthenticationKerberosV5 is unsupported after PostgreSQL 9.3 which in turn is unsupported by PostgreSQL maintainers")
authenticate (Authentication.sasl auth_mechanisms) State.got_startup =
    ok State.asked_sasl_initial_response
authenticate (Authentication.sasl_continue challenge_data) State.got_any_sasl_response =
    ok State.asked_sasl_response
authenticate (Authentication.sasl_final additional_data) State.got_any_sasl_response =
    ok State.finished_sasl
authenticate Authentication.scm_credential State.got_startup = err (
    unsupported
      "This message type is only issued by pre-9.1 servers. It may eventually be removed from the protocol specification.")
authenticate message State.got_startup = err (todo "Authentication::* is not fully implemented yet")
authenticate message state = err (unexpected_type state backend TypeByte.authentication)
