-- ===== src/Convey/Protocol.antt =====
-- The protocol as the two sides have agreed on it: what either may say in each phase of their
-- conversation. The states of src/convey.rs are finer; what they do follows these rules.
use postgread.Prelude.{◌≡◌, List, [], ◌∷◌, Option, none, some, ok, arith}
use postgread.Msg.Body.Authentication.{Authentication}
use postgread.Msg.Body.Initial.{Initial}
use postgread.Convey.State.{Side, State}
use postgread.Convey.Message.{BackendMsg, FrontendMsg, Message}
use postgread.Msg.TypeByte.{TypeByte}
use postgread.Convey.Dispatch.{
  BackendType, FrontendType, Arm, process_authentication, backend_through, frontend_through,
  last_backend, last_frontend, unexpected, dispatch, authenticate,
}

-- A message, as far as the rules look at it.
pub data Kind : Type 0 where
  asks : Authentication → Kind
  says : BackendType → Kind
  hears : FrontendType → Kind
  opens : Initial → Kind

abbrev pub kind_of : Message → Kind
kind_of (Message.backend (BackendMsg.authentication x)) = asks x
kind_of (Message.backend (BackendMsg.backend_key_data x)) = says BackendType.backend_key_data
kind_of (Message.backend (BackendMsg.bind_complete x)) = says BackendType.bind_complete
kind_of (Message.backend (BackendMsg.command_complete x)) = says BackendType.command_complete
kind_of (Message.backend (BackendMsg.data_row x)) = says BackendType.data_row
kind_of (Message.backend (BackendMsg.empty_query_response x)) =
    says BackendType.empty_query_response
kind_of (Message.backend (BackendMsg.error_response x)) = says BackendType.error_response
kind_of (Message.backend (BackendMsg.negotiate_protocol_version x)) =
    says BackendType.negotiate_protocol_version
kind_of (Message.backend (BackendMsg.notice_response x)) = says BackendType.notice_response
kind_of (Message.backend (BackendMsg.parameter_status x)) = says BackendType.parameter_status
kind_of (Message.backend (BackendMsg.parse_complete x)) = says BackendType.parse_complete
kind_of (Message.backend (BackendMsg.portal_suspended x)) = says BackendType.portal_suspended
kind_of (Message.backend (BackendMsg.ready_for_query x)) = says BackendType.ready_for_query
kind_of (Message.backend (BackendMsg.row_description x)) = says BackendType.row_description
kind_of (Message.frontend (FrontendMsg.initial x)) = opens x
kind_of (Message.frontend (FrontendMsg.bind x)) = hears FrontendType.bind
kind_of (Message.frontend (FrontendMsg.execute x)) = hears FrontendType.execute
kind_of (Message.frontend (FrontendMsg.gss_response x)) = hears FrontendType.gss_response
kind_of (Message.frontend (FrontendMsg.parse x)) = hears FrontendType.parse
kind_of (Message.frontend (FrontendMsg.password x)) = hears FrontendType.password
kind_of (Message.frontend (FrontendMsg.query x)) = hears FrontendType.query
kind_of (Message.frontend (FrontendMsg.sasl_initial_response x)) =
    hears FrontendType.sasl_initial_response
kind_of (Message.frontend (FrontendMsg.sasl_response x)) = hears FrontendType.sasl_response
kind_of (Message.frontend (FrontendMsg.sync x)) = hears FrontendType.sync
kind_of (Message.frontend (FrontendMsg.terminate x)) = hears FrontendType.terminate

-- The frontend's turn: it is `challenged` for its credentials, the session is `idle`, an extended
-- query is `executed` or `suspended`. In the other phases it is the backend's.
pub data Phase : Type 0 where
  authenticating challenged starting idle simple preparing recovering : Phase
  executing executed suspended syncing ended : Phase

abbrev pub ask : Phase → Authentication → Option Phase
ask authenticating Authentication.ok = some starting
ask authenticating Authentication.cleartext_password = some challenged
ask authenticating (Authentication.md5_password salt) = some challenged
ask authenticating Authentication.gss = some challenged
ask authenticating Authentication.sspi = some challenged
ask authenticating (Authentication.gss_continue x) = some challenged
ask authenticating (Authentication.sasl x) = some challenged
ask authenticating (Authentication.sasl_continue x) = some challenged
ask authenticating (Authentication.sasl_final x) = some authenticating
ask phase x = none

abbrev pub say : Phase → BackendType → Option Phase
say ended t = none
say phase BackendType.notice_response = some phase
say simple BackendType.error_response = some simple
say preparing BackendType.error_response = some recovering
say executing BackendType.error_response = some executed
say executed BackendType.error_response = some executed
say phase BackendType.error_response = some ended
say authenticating BackendType.negotiate_protocol_version = some authenticating
say starting BackendType.negotiate_protocol_version = some starting
say starting BackendType.parameter_status = some starting
say starting BackendType.backend_key_data = some starting
say starting BackendType.ready_for_query = some idle
say simple BackendType.row_description = some simple
say simple BackendType.data_row = some simple
say simple BackendType.command_complete = some simple
say simple BackendType.empty_query_response = some simple
say simple BackendType.ready_for_query = some idle
say preparing BackendType.parse_complete = some idle
say preparing BackendType.bind_complete = some idle
say recovering BackendType.ready_for_query = some idle
say executing BackendType.data_row = some executing
say executing BackendType.command_complete = some executed
say executing BackendType.empty_query_response = some executed
say executing BackendType.portal_suspended = some suspended
say syncing BackendType.ready_for_query = some idle
say phase t = none

abbrev pub hear : Phase → FrontendType → Option Phase
hear challenged FrontendType.password = some authenticating
hear challenged FrontendType.gss_response = some authenticating
hear challenged FrontendType.sasl_initial_response = some authenticating
hear challenged FrontendType.sasl_response = some authenticating
hear idle FrontendType.query = some simple
hear idle FrontendType.parse = some preparing
hear idle FrontendType.bind = some preparing
hear idle FrontendType.execute = some executing
hear idle FrontendType.terminate = some ended
hear suspended FrontendType.execute = some executing
hear suspended FrontendType.sync = some syncing
hear executed FrontendType.sync = some syncing
hear phase t = none

abbrev pub follow : Phase → Kind → Option Phase
follow phase (asks x) = ask phase x
follow phase (says t) = say phase t
follow phase (hears t) = hear phase t
follow phase (opens x) = none

-- The phase that a sequence of messages leads to, `none` where a message breaks the rules.
abbrev pub follow_all : Option Phase → List Message → Option Phase
follow_all none messages = none
follow_all (some phase) [] = some phase
follow_all (some phase) (message ∷ messages) = follow_all (follow phase (kind_of message)) messages

-- No transition of the program leads to the state `bound`.
abbrev pub phase_of : State → Phase
phase_of State.aborted_extended_query = executed
phase_of State.aborted_parsing_or_binding = recovering
phase_of State.aborted_simple_query = simple
phase_of State.answering_to_extended_query = executing
phase_of State.answering_to_simple_query = simple
phase_of State.asked_cleartext_password = challenged
phase_of State.asked_gss_response = challenged
phase_of State.asked_md5_password = challenged
phase_of State.asked_sasl_initial_response = challenged
phase_of State.asked_sasl_response = challenged
phase_of State.authenticated = starting
phase_of State.bound = idle
phase_of State.completed_extended_query = executed
phase_of State.completed_simple_command = simple
phase_of State.executing_extended_query = executing
phase_of State.finished_sasl = authenticating
phase_of State.got_any_sasl_response = authenticating
phase_of State.got_binding = preparing
phase_of State.got_cleartext_password = authenticating
phase_of State.got_gss_response = authenticating
phase_of State.got_md5_password = authenticating
phase_of State.got_prepared_statement = preparing
phase_of State.got_simple_query = simple
phase_of State.got_startup = authenticating
phase_of State.got_sync = syncing
phase_of State.ready_for_query = idle
phase_of State.seen_empty_extended_query = executed
phase_of State.seen_empty_simple_query = simple
phase_of State.sent_all_backend_params = starting
phase_of State.suspended_extended_query = suspended

-- `none` is a loop that has returned.
abbrev pub phase_after : Option State → Phase
phase_after (some state) = phase_of state
phase_after none = ended

-- What an arm makes of the state follows the rules.
abbrev pub Simulates : State → Arm → Type 0
Simulates state process_authentication = Unit
Simulates state (backend_through t state') = say (phase_of state) t ≡ some (phase_of state')
Simulates state (frontend_through t state') = hear (phase_of state) t ≡ some (phase_of state')
Simulates state (last_backend t) = say (phase_of state) t ≡ some ended
Simulates state (last_frontend t) = hear (phase_of state) t ≡ some ended
Simulates state unexpected = Unit

-- In every state, whatever comes from either side.
pub dispatch-Simulates :
    (side : Side) (type_byte : TypeByte) (state : State)
    → Simulates state (dispatch side type_byte state)
unfolding dispatch
dispatch-Simulates side type_byte state = ground arith

pub authenticate-ask :
    (x : Authentication) (state state' : State)
    → authenticate x state ≡ ok state'
    → ask (phase_of state) x ≡ some (phase_of state')
unfolding authenticate
authenticate-ask x state state' h = ground arith
