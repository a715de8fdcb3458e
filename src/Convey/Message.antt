-- ===== src/Convey/Message.antt =====
-- The messages that src/convey.rs hands to its callback.
use postgread.Msg.Body.Authentication.{Authentication}
use postgread.Msg.Body.Credentials.{GssResponse, Password, SaslInitialResponse, SaslResponse}
use postgread.Msg.Body.ErrorAndNotice.{ErrorResponse, NoticeResponse}
use postgread.Msg.Body.Initial.{Initial}
use postgread.Msg.Body.Rows.{CommandComplete, DataRow, RowDescription}
use postgread.Msg.Body.Signals.{
  BindComplete, EmptyQueryResponse, ParseComplete, PortalSuspended, Sync, Terminate,
}
use postgread.Msg.Body.Statements.{Bind, Execute, Parse, Query}
use postgread.Msg.Body.Status.{
  BackendKeyData, NegotiateProtocolVersion, ParameterStatus, ReadyForQuery,
}

pub data BackendMsg : Type 0 where
  authentication : Authentication → BackendMsg
  backend_key_data : BackendKeyData → BackendMsg
  bind_complete : BindComplete → BackendMsg
  command_complete : CommandComplete → BackendMsg
  data_row : DataRow → BackendMsg
  empty_query_response : EmptyQueryResponse → BackendMsg
  error_response : ErrorResponse → BackendMsg
  negotiate_protocol_version : NegotiateProtocolVersion → BackendMsg
  notice_response : NoticeResponse → BackendMsg
  parameter_status : ParameterStatus → BackendMsg
  parse_complete : ParseComplete → BackendMsg
  portal_suspended : PortalSuspended → BackendMsg
  ready_for_query : ReadyForQuery → BackendMsg
  row_description : RowDescription → BackendMsg

pub data FrontendMsg : Type 0 where
  bind : Bind → FrontendMsg
  execute : Execute → FrontendMsg
  gss_response : GssResponse → FrontendMsg
  initial : Initial → FrontendMsg
  parse : Parse → FrontendMsg
  password : Password → FrontendMsg
  query : Query → FrontendMsg
  sasl_initial_response : SaslInitialResponse → FrontendMsg
  sasl_response : SaslResponse → FrontendMsg
  sync : Sync → FrontendMsg
  terminate : Terminate → FrontendMsg

pub data Message : Type 0 where
  backend : BackendMsg → Message
  frontend : FrontendMsg → Message
