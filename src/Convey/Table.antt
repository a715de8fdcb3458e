-- ===== src/Convey/Table.antt =====
-- The match in the loop of `go` of src/convey.rs reads each message as the type that its first byte
-- and its side say.
use postgread.Prelude.{◌≡◌, arith}
use postgread.Msg.TypeByte.{TypeByte}
use postgread.Convey.State.{Side, backend, frontend, State}
use postgread.Convey.Dispatch.{
  BackendType, FrontendType, Arm, process_authentication, backend_through, frontend_through,
  last_backend, last_frontend, unexpected, dispatch,
}

abbrev pub backend_type_byte : BackendType → TypeByte
backend_type_byte BackendType.backend_key_data = TypeByte.backend_key_data
backend_type_byte BackendType.bind_complete = TypeByte.bind_complete
backend_type_byte BackendType.command_complete = TypeByte.command_complete
backend_type_byte BackendType.data_row = TypeByte.data_row
backend_type_byte BackendType.empty_query_response = TypeByte.empty_query_response
backend_type_byte BackendType.error_response = TypeByte.execute_or_error_response
backend_type_byte BackendType.negotiate_protocol_version = TypeByte.negotiate_protocol_version
backend_type_byte BackendType.notice_response = TypeByte.notice_response
backend_type_byte BackendType.parameter_status = TypeByte.parameter_status_or_sync
backend_type_byte BackendType.parse_complete = TypeByte.parse_complete
backend_type_byte BackendType.portal_suspended = TypeByte.portal_suspended
backend_type_byte BackendType.ready_for_query = TypeByte.ready_for_query
backend_type_byte BackendType.row_description = TypeByte.row_description

abbrev pub frontend_type_byte : FrontendType → TypeByte
frontend_type_byte FrontendType.bind = TypeByte.bind
frontend_type_byte FrontendType.execute = TypeByte.execute_or_error_response
frontend_type_byte FrontendType.gss_response = TypeByte.gss_response_or_password_or_sasl_responses
frontend_type_byte FrontendType.parse = TypeByte.parse
frontend_type_byte FrontendType.password = TypeByte.gss_response_or_password_or_sasl_responses
frontend_type_byte FrontendType.query = TypeByte.query
frontend_type_byte FrontendType.sasl_initial_response =
    TypeByte.gss_response_or_password_or_sasl_responses
frontend_type_byte FrontendType.sasl_response = TypeByte.gss_response_or_password_or_sasl_responses
frontend_type_byte FrontendType.sync = TypeByte.parameter_status_or_sync
frontend_type_byte FrontendType.terminate = TypeByte.terminate

-- What an arm that is taken has to do with the side and the byte.
abbrev pub Agrees : Side → TypeByte → Arm → Type 0
Agrees side type_byte process_authentication =
    (side ≡ backend) × (TypeByte.authentication ≡ type_byte)
Agrees side type_byte (backend_through t state) =
    (side ≡ backend) × (backend_type_byte t ≡ type_byte)
Agrees side type_byte (frontend_through t state) =
    (side ≡ frontend) × (frontend_type_byte t ≡ type_byte)
Agrees side type_byte (last_backend t) = (side ≡ backend) × (backend_type_byte t ≡ type_byte)
Agrees side type_byte (last_frontend t) = (side ≡ frontend) × (frontend_type_byte t ≡ type_byte)
Agrees side type_byte unexpected = Unit

pub dispatch-Agrees :
    (side : Side) (type_byte : TypeByte) (state : State)
    → Agrees side type_byte (dispatch side type_byte state)
unfolding dispatch
dispatch-Agrees side type_byte state = ground arith
