-- ===== src/Tests/Bytes.antt =====
-- The type bytes and the table of the loop at concrete inputs.
use postgread.Prelude.{◌⊎◌, none, ◌≡◌}
use postgread.Msg.TypeByte.{TypeByte}
use postgread.Msg.Body.Types.{MsgType, msg_decode}
use postgread.Msg.Body.TypeBytes.{Goes, protocol_byte, type_byte, msg_decode-protocol_byte}
use postgread.Convey.State.{frontend, State}
use postgread.Convey.Dispatch.{dispatch}
use postgread.Convey.Table.{Agrees, dispatch-Agrees}

dispatch-Agrees_example :
    Agrees frontend TypeByte.query (dispatch frontend TypeByte.query State.ready_for_query)
dispatch-Agrees_example = dispatch-Agrees frontend TypeByte.query State.ready_for_query

msg_decode-protocol_byte_example :
    Goes (msg_decode MsgType.gss_response).type_byte_opt (protocol_byte MsgType.gss_response)
    × ((type_byte MsgType.gss_response ≡ none)
        ⊎ (type_byte MsgType.gss_response ≡ protocol_byte MsgType.gss_response))
msg_decode-protocol_byte_example = msg_decode-protocol_byte MsgType.gss_response
