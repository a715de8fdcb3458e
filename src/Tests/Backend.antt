-- ===== src/Tests/Backend.antt =====
-- The bodies of the messages of one side, one of each kind, against what their bytes are.
use postgread.Prelude.{ℕ, ◌≡◌, List, [], ◌∷◌, Result, ◌↔◌, All, arith}
use postgread.Prelude.Int.{pos, negsuc}
use postgread.Msg.Decode.Reads.{text_bytes}
use postgread.Msg.Decode.Sound.{IsText}
use postgread.Msg.Read.{decode_msg}
use postgread.Msg.Parts.{Format, Value}
use postgread.Msg.Parts.Exact.{Any}
use postgread.Msg.Body.Status.{
  BackendKeyData, IsBackendKeyData, backend_key_data_bytes, backend_key_data_msg,
  decode_backend_key_data_iff, ParameterStatus, IsParameterStatus, parameter_status_bytes,
  parameter_status_msg, decode_parameter_status_iff, NegotiateProtocolVersion,
  IsNegotiateProtocolVersion, negotiate_protocol_version_bytes, negotiate_protocol_version_msg,
  decode_negotiate_protocol_version_iff, ReadyForQuery, status_bytes, ready_for_query_msg, idle,
  decode_ready_for_query_iff,
}
use postgread.Msg.Body.Rows.{
  DataRow, IsDataRow, data_row_bytes, data_row_msg, decode_data_row_iff, RowDescription,
  IsRowDescription, row_description_bytes, row_description_msg, decode_row_description_iff,
  CommandComplete, command_complete_msg, decode_command_complete_iff,
}
use postgread.Msg.Body.Authentication.{
  Authentication, IsAuthentication, authentication_bytes, authentication_msg,
  decode_authentication_iff,
}
use postgread.Msg.Body.ErrorAndNotice.{
  ErrorResponse, error_response_msg, default, set_field, code, message, NoticeResponse,
  notice_response_msg,
}
use postgread.Msg.Body.ErrorAndNotice.Last.{
  HoldsLast, decode_error_response_iff, decode_notice_response_iff,
}
use postgread.Msg.Body.ErrorAndNotice.Entries.{Entry, IsEntry, entries_bytes}

abbrev backend_key_data_input : List ℕ
backend_key_data_input = 0 ∷ 0 ∷ 1 ∷ 2 ∷ 0 ∷ 0 ∷ 3 ∷ 4 ∷ []

abbrev backend_key_data_value : BackendKeyData
backend_key_data_value = record { process_id = 258; secret_key = 772 }

decode_backend_key_data_iff_example :
    (decode_msg backend_key_data_msg backend_key_data_input ≡ Result.ok backend_key_data_value) ↔ (
      IsBackendKeyData backend_key_data_value
      × (backend_key_data_input ≡ backend_key_data_bytes backend_key_data_value))
decode_backend_key_data_iff_example =
    decode_backend_key_data_iff backend_key_data_input backend_key_data_value (ground arith)

abbrev parameter_status_input : List ℕ
parameter_status_input = b'a' ∷ 0 ∷ b'b' ∷ 0 ∷ []

abbrev parameter_status_value : ParameterStatus
parameter_status_value = record { name = b'a' ∷ []; value = b'b' ∷ [] }

decode_parameter_status_iff_example :
    (decode_msg parameter_status_msg parameter_status_input ≡ Result.ok parameter_status_value) ↔ (
      IsParameterStatus parameter_status_value
      × (parameter_status_input ≡ parameter_status_bytes parameter_status_value))
decode_parameter_status_iff_example =
    decode_parameter_status_iff parameter_status_input parameter_status_value (ground arith)

abbrev negotiate_protocol_version_input : List ℕ
negotiate_protocol_version_input = 0 ∷ 0 ∷ 0 ∷ 1 ∷ 0 ∷ 0 ∷ 0 ∷ 1 ∷ b'x' ∷ 0 ∷ []

abbrev negotiate_protocol_version_value : NegotiateProtocolVersion
negotiate_protocol_version_value = record {
  newest_backend_minor = 1;
  unrecognized_options = (b'x' ∷ []) ∷ [];
}

decode_negotiate_protocol_version_iff_example :
    (decode_msg negotiate_protocol_version_msg negotiate_protocol_version_input
      ≡ Result.ok negotiate_protocol_version_value)
    ↔ (IsNegotiateProtocolVersion negotiate_protocol_version_value
        × (negotiate_protocol_version_input
            ≡ negotiate_protocol_version_bytes negotiate_protocol_version_value))
decode_negotiate_protocol_version_iff_example =
    decode_negotiate_protocol_version_iff negotiate_protocol_version_input
      negotiate_protocol_version_value (ground arith)

abbrev ready_for_query_input : List ℕ
ready_for_query_input = b'I' ∷ []

abbrev ready_for_query_value : ReadyForQuery
ready_for_query_value = record { status = idle }

decode_ready_for_query_iff_example :
    (decode_msg ready_for_query_msg ready_for_query_input ≡ Result.ok ready_for_query_value) ↔ (
      Any ready_for_query_value
      × (ready_for_query_input ≡ status_bytes ready_for_query_value.status))
decode_ready_for_query_iff_example =
    decode_ready_for_query_iff ready_for_query_input ready_for_query_value (ground arith)

abbrev data_row_input : List ℕ
data_row_input = 0 ∷ 1 ∷ 0 ∷ 0 ∷ 0 ∷ 1 ∷ b'7' ∷ []

abbrev data_row_value : DataRow
data_row_value = record { columns = Value.bytes (b'7' ∷ []) ∷ [] }

decode_data_row_iff_example :
    (decode_msg data_row_msg data_row_input ≡ Result.ok data_row_value)
    ↔ (IsDataRow data_row_value × (data_row_input ≡ data_row_bytes data_row_value))
decode_data_row_iff_example = decode_data_row_iff data_row_input data_row_value (ground arith)

abbrev row_description_input : List ℕ
row_description_input =
    0 ∷ 1 ∷ b'c' ∷ 0 ∷ 0 ∷ 0 ∷ 0 ∷ 1 ∷ 0 ∷ 2 ∷ 0 ∷ 0 ∷ 0 ∷ 23 ∷ 0 ∷ 4 ∷ 255 ∷ 255 ∷ 255 ∷ 255 ∷ 0
    ∷ 0 ∷ []

abbrev row_description_value : RowDescription
row_description_value = record {
  fields =
      record {
        name = b'c' ∷ [];
        column_oid = 1;
        column_attr_num = 2;
        type_oid = 23;
        type_size = pos 4;
        type_modifier = negsuc 0;
        format = Format.text;
      }
      ∷ [];
}

decode_row_description_iff_example :
    (decode_msg row_description_msg row_description_input ≡ Result.ok row_description_value) ↔ (
      IsRowDescription row_description_value
      × (row_description_input ≡ row_description_bytes row_description_value))
decode_row_description_iff_example =
    decode_row_description_iff row_description_input row_description_value (ground arith)

abbrev command_complete_input : List ℕ
command_complete_input = b'S' ∷ 0 ∷ []

abbrev command_complete_value : CommandComplete
command_complete_value = record { tag = b'S' ∷ [] }

decode_command_complete_iff_example :
    (decode_msg command_complete_msg command_complete_input ≡ Result.ok command_complete_value) ↔ (
      IsText command_complete_value.tag
      × (command_complete_input ≡ text_bytes command_complete_value.tag))
decode_command_complete_iff_example =
    decode_command_complete_iff command_complete_input command_complete_value (ground arith)

abbrev authentication_input : List ℕ
authentication_input = 0 ∷ 0 ∷ 0 ∷ 10 ∷ b'm' ∷ 0 ∷ 0 ∷ []

abbrev authentication_value : Authentication
authentication_value = Authentication.sasl ((b'm' ∷ []) ∷ [])

decode_authentication_iff_example :
    (decode_msg authentication_msg authentication_input ≡ Result.ok authentication_value) ↔ (
      IsAuthentication authentication_value
      × (authentication_input ≡ authentication_bytes authentication_value))
decode_authentication_iff_example =
    decode_authentication_iff authentication_input authentication_value (ground arith)

abbrev error_response_input : List ℕ
error_response_input = b'C' ∷ 1 ∷ 0 ∷ b'M' ∷ 2 ∷ 0 ∷ 0 ∷ []

abbrev error_response_value : ErrorResponse
error_response_value = record {
  fields = set_field message (2 ∷ []) (set_field code (1 ∷ []) default);
}

decode_error_response_iff_example :
    (decode_msg error_response_msg error_response_input ≡ Result.ok error_response_value) ↔ (
      (es : List Entry) × All IsEntry es
      × HoldsLast error_response_value.fields es
      × (error_response_input ≡ entries_bytes es))
decode_error_response_iff_example =
    decode_error_response_iff error_response_input error_response_value (ground arith)

abbrev notice_response_input : List ℕ
notice_response_input = b'C' ∷ 1 ∷ 0 ∷ b'M' ∷ 2 ∷ 0 ∷ 0 ∷ []

abbrev notice_response_value : NoticeResponse
notice_response_value = record {
  fields = set_field message (2 ∷ []) (set_field code (1 ∷ []) default);
}

decode_notice_response_iff_example :
    (decode_msg notice_response_msg notice_response_input ≡ Result.ok notice_response_value) ↔ (
      (es : List Entry) × All IsEntry es
      × HoldsLast notice_response_value.fields es
      × (notice_response_input ≡ entries_bytes es))
decode_notice_response_iff_example =
    decode_notice_response_iff notice_response_input notice_response_value (ground arith)
