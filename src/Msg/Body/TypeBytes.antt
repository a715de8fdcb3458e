-- ===== src/Msg/Body/TypeBytes.antt =====
-- The type bytes of src/msg: the constants `TYPE_BYTE` of src/msg/body, the discriminants of
-- src/msg/type_byte.rs, and the bytes of the protocol.
use postgread.Prelude.{ℕ, ◌≡◌, refl, ◌⊎◌, inl, inr, Option, none, some}
use postgread.Msg.TypeByte.{TypeByte, into, try_from}
use postgread.Msg.Body.Types.{MsgType, msg_decode}
use postgread.Msg.Body.Authentication.{authentication_msg, authentication_type_byte}
use postgread.Msg.Body.Status.{
  backend_key_data_msg, negotiate_protocol_version_msg, parameter_status_msg, ready_for_query_msg,
  backend_key_data_type_byte, negotiate_protocol_version_type_byte, parameter_status_type_byte,
  ready_for_query_type_byte,
}
use postgread.Msg.Body.Rows.{
  command_complete_msg, data_row_msg, row_description_msg, command_complete_type_byte,
  data_row_type_byte, row_description_type_byte,
}
use postgread.Msg.Body.Signals.{
  empty_query_response_msg, terminate_msg, bind_complete_msg, parse_complete_msg,
  portal_suspended_msg, sync_msg, empty_query_response_type_byte, terminate_type_byte,
}
use postgread.Msg.Body.ErrorAndNotice.{
  error_response_msg, notice_response_msg, error_response_type_byte, notice_response_type_byte,
}
use postgread.Msg.Body.Credentials.{
  gss_response_msg, password_msg, sasl_initial_response_msg, sasl_response_msg,
  gss_response_type_byte, password_type_byte,
}
use postgread.Msg.Body.Statements.{query_msg, bind_msg, execute_msg, parse_msg, query_type_byte}
use postgread.Msg.Body.Initial.{initial_msg}

-- "Message Formats" of the documentation of PostgreSQL: the byte in front of each message, but for
-- the first ones.
abbrev pub protocol_byte : MsgType → Option ℕ
protocol_byte MsgType.authentication = some b'R'
protocol_byte MsgType.backend_key_data = some b'K'
protocol_byte MsgType.bind = some b'B'
protocol_byte MsgType.bind_complete = some b'2'
protocol_byte MsgType.command_complete = some b'C'
protocol_byte MsgType.data_row = some b'D'
protocol_byte MsgType.error_response = some b'E'
protocol_byte MsgType.notice_response = some b'N'
protocol_byte MsgType.execute = some b'E'
protocol_byte MsgType.gss_response = some b'p'
protocol_byte MsgType.initial = none
protocol_byte MsgType.empty_query_response = some b'I'
protocol_byte MsgType.negotiate_protocol_version = some b'v'
protocol_byte MsgType.parameter_status = some b'S'
protocol_byte MsgType.password = some b'p'
protocol_byte MsgType.parse = some b'P'
protocol_byte MsgType.parse_complete = some b'1'
protocol_byte MsgType.portal_suspended = some b's'
protocol_byte MsgType.query = some b'Q'
protocol_byte MsgType.ready_for_query = some b'Z'
protocol_byte MsgType.row_description = some b'T'
protocol_byte MsgType.sasl_initial_response = some b'p'
protocol_byte MsgType.sasl_response = some b'p'
protocol_byte MsgType.sync = some b'S'
protocol_byte MsgType.terminate = some b'X'

-- The constant `TYPE_BYTE` of a message, where it has one.
abbrev pub type_byte : MsgType → Option ℕ
type_byte MsgType.authentication = some authentication_type_byte
type_byte MsgType.backend_key_data = some backend_key_data_type_byte
type_byte MsgType.command_complete = some command_complete_type_byte
type_byte MsgType.data_row = some data_row_type_byte
type_byte MsgType.empty_query_response = some empty_query_response_type_byte
type_byte MsgType.error_response = some error_response_type_byte
type_byte MsgType.notice_response = some notice_response_type_byte
type_byte MsgType.gss_response = some gss_response_type_byte
type_byte MsgType.negotiate_protocol_version = some negotiate_protocol_version_type_byte
type_byte MsgType.parameter_status = some parameter_status_type_byte
type_byte MsgType.password = some password_type_byte
type_byte MsgType.query = some query_type_byte
type_byte MsgType.ready_for_query = some ready_for_query_type_byte
type_byte MsgType.row_description = some row_description_type_byte
type_byte MsgType.terminate = some terminate_type_byte
type_byte _ = none

-- A variant goes with a byte: the byte is the variant's, and is read as it.
abbrev pub Goes : Option TypeByte → Option ℕ → Type 0
Goes none none = Unit {0}
Goes (some t) (some byte) = (into t ≡ byte) × (try_from byte ≡ some t)
Goes _ _ = ⊥

-- Every type of message is written with the byte that the protocol gives it, and that byte is read
-- as its variant; the messages before the start have neither. Where a message has a constant for its
-- byte, that is the same byte.
pub msg_decode-protocol_byte :
    (t : MsgType)
    → Goes (msg_decode t).type_byte_opt (protocol_byte t)
      × ((type_byte t ≡ none) ⊎ (type_byte t ≡ protocol_byte t))
unfolding into try_from authentication_msg backend_key_data_msg bind_msg bind_complete_msg
    command_complete_msg data_row_msg error_response_msg notice_response_msg execute_msg
    gss_response_msg initial_msg empty_query_response_msg negotiate_protocol_version_msg
    parameter_status_msg password_msg parse_msg parse_complete_msg portal_suspended_msg query_msg
    ready_for_query_msg row_description_msg sasl_initial_response_msg sasl_response_msg sync_msg
    terminate_msg
msg_decode-protocol_byte MsgType.authentication = ((refl, refl), inr refl)
msg_decode-protocol_byte MsgType.backend_key_data = ((refl, refl), inr refl)
msg_decode-protocol_byte MsgType.bind = ((refl, refl), inl refl)
msg_decode-protocol_byte MsgType.bind_complete = ((refl, refl), inl refl)
msg_decode-protocol_byte MsgType.command_complete = ((refl, refl), inr refl)
msg_decode-protocol_byte MsgType.data_row = ((refl, refl), inr refl)
msg_decode-protocol_byte MsgType.error_response = ((refl, refl), inr refl)
msg_decode-protocol_byte MsgType.notice_response = ((refl, refl), inr refl)
msg_decode-protocol_byte MsgType.execute = ((refl, refl), inl refl)
msg_decode-protocol_byte MsgType.gss_response = ((refl, refl), inr refl)
msg_decode-protocol_byte MsgType.initial = (tt, inl refl)
msg_decode-protocol_byte MsgType.empty_query_response = ((refl, refl), inr refl)
msg_decode-protocol_byte MsgType.negotiate_protocol_version = ((refl, refl), inr refl)
msg_decode-protocol_byte MsgType.parameter_status = ((refl, refl), inr refl)
msg_decode-protocol_byte MsgType.password = ((refl, refl), inr refl)
msg_decode-protocol_byte MsgType.parse = ((refl, refl), inl refl)
msg_decode-protocol_byte MsgType.parse_complete = ((refl, refl), inl refl)
msg_decode-protocol_byte MsgType.portal_suspended = ((refl, refl), inl refl)
msg_decode-protocol_byte MsgType.query = ((refl, refl), inr refl)
msg_decode-protocol_byte MsgType.ready_for_query = ((refl, refl), inr refl)
msg_decode-protocol_byte MsgType.row_description = ((refl, refl), inr refl)
msg_decode-protocol_byte MsgType.sasl_initial_response = ((refl, refl), inl refl)
msg_decode-protocol_byte MsgType.sasl_response = ((refl, refl), inl refl)
msg_decode-protocol_byte MsgType.sync = ((refl, refl), inl refl)
msg_decode-protocol_byte MsgType.terminate = ((refl, refl), inr refl)
