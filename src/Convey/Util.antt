-- ===== src/Convey/Util.antt =====
-- src/convey/util.rs: copies of the messages that the callback is called with. The values of the model
-- are their own copies.
use postgread.Msg.Body.Authentication.{Authentication}
use postgread.Msg.Body.Credentials.{GssResponse, Password, SaslInitialResponse, SaslResponse}
use postgread.Msg.Body.ErrorAndNotice.{ErrorResponse, NoticeResponse}
use postgread.Msg.Body.Initial.{Initial}
use postgread.Msg.Body.Rows.{CommandComplete, DataRow, RowDescription}
use postgread.Msg.Body.Signals.{
  BindComplete, EmptyQueryResponse, ParseComplete, PortalSuspended, Sync, Terminate,
}
use postgread.Msg.Body.Statements.{Bind, Execute, Parse, Query}
use postgread.Msg.Body.Status.{
  BackendKeyData, NegotiateProtocolVersion, ParameterStatus, ReadyForQuery,
}
use postgread.Convey.Message.{BackendMsg, FrontendMsg, Message}

pub data BackendMsgClone : Type 0 where
  authentication : Authentication → BackendMsgClone
  backend_key_data : BackendKeyData → BackendMsgClone
  bind_complete : BindComplete → BackendMsgClone
  command_complete : CommandComplete → BackendMsgClone
  data_row : DataRow → BackendMsgClone
  empty_query_response : EmptyQueryResponse → BackendMsgClone
  error_response : ErrorResponse → BackendMsgClone
  negotiate_protocol_version : NegotiateProtocolVersion → BackendMsgClone
  notice_response : NoticeResponse → BackendMsgClone
  parameter_status : ParameterStatus → BackendMsgClone
  parse_complete : ParseComplete → BackendMsgClone
  portal_suspended : PortalSuspended → BackendMsgClone
  ready_for_query : ReadyForQuery → BackendMsgClone
  row_description : RowDescription → BackendMsgClone

pub data FrontendMsgClone : Type 0 where
  bind : Bind → FrontendMsgClone
  execute : Execute → FrontendMsgClone
  gss_response : GssResponse → FrontendMsgClone
  initial : Initial → FrontendMsgClone
  parse : Parse → FrontendMsgClone
  password : Password → FrontendMsgClone
  query : Query → FrontendMsgClone
  sasl_initial_response : SaslInitialResponse → FrontendMsgClone
  sasl_response : SaslResponse → FrontendMsgClone
  sync : Sync → FrontendMsgClone
  terminate : Terminate → FrontendMsgClone

pub data MessageClone : Type 0 where
  backend : BackendMsgClone → MessageClone
  frontend : FrontendMsgClone → MessageClone

-- `BackendMsgClone::make`
unfoldable pub backend_make : BackendMsg → BackendMsgClone
backend_make (BackendMsg.authentication refer) = BackendMsgClone.authentication refer
backend_make (BackendMsg.backend_key_data refer) = BackendMsgClone.backend_key_data refer
backend_make (BackendMsg.bind_complete refer) = BackendMsgClone.bind_complete refer
backend_make (BackendMsg.command_complete refer) = BackendMsgClone.command_complete refer
backend_make (BackendMsg.data_row refer) = BackendMsgClone.data_row refer
backend_make (BackendMsg.empty_query_response refer) = BackendMsgClone.empty_query_response refer
backend_make (BackendMsg.error_response refer) = BackendMsgClone.error_response refer
backend_make (BackendMsg.negotiate_protocol_version refer) =
    BackendMsgClone.negotiate_protocol_version refer
backend_make (BackendMsg.notice_response refer) = BackendMsgClone.notice_response refer
backend_make (BackendMsg.parameter_status refer) = BackendMsgClone.parameter_status refer
backend_make (BackendMsg.parse_complete refer) = BackendMsgClone.parse_complete refer
backend_make (BackendMsg.portal_suspended refer) = BackendMsgClone.portal_suspended refer
backend_make (BackendMsg.ready_for_query refer) = BackendMsgClone.ready_for_query refer
backend_make (BackendMsg.row_description refer) = BackendMsgClone.row_description refer

-- `FrontendMsgClone::make`
unfoldable pub frontend_make : FrontendMsg → FrontendMsgClone
frontend_make (FrontendMsg.bind refer) = FrontendMsgClone.bind refer
frontend_make (FrontendMsg.execute refer) = FrontendMsgClone.execute refer
frontend_make (FrontendMsg.gss_response refer) = FrontendMsgClone.gss_response refer
frontend_make (FrontendMsg.initial refer) = FrontendMsgClone.initial refer
frontend_make (FrontendMsg.parse refer) = FrontendMsgClone.parse refer
frontend_make (FrontendMsg.password refer) = FrontendMsgClone.password refer
frontend_make (FrontendMsg.query refer) = FrontendMsgClone.query refer
frontend_make (FrontendMsg.sasl_initial_response refer) =
    FrontendMsgClone.sasl_initial_response refer
frontend_make (FrontendMsg.sasl_response refer) = FrontendMsgClone.sasl_response refer
frontend_make (FrontendMsg.sync refer) = FrontendMsgClone.sync refer
frontend_make (FrontendMsg.terminate refer) = FrontendMsgClone.terminate refer

-- `MessageClone::make`
unfoldable pub make : Message → MessageClone
make (Message.backend refer) = backend (backend_make refer)
make (Message.frontend refer) = frontend (frontend_make refer)
