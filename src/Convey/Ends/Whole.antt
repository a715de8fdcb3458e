-- ===== src/Convey/Ends/Whole.antt =====
-- The fuel of the decoders' loops, in the negotiation and the loop of `go` of src/convey.rs.
use postgread.Prelude.Outcome.{pure}
use postgread.Prelude.{
  ℕ, ◌≢◌, List, [], ◌∷◌, Option, none, some, Result, ok, err, Bool, true, false, if◌then◌else◌,
  ◌==◌,
}
use postgread.Msg.Body.ErrorAndNotice.{error_response_type_byte}
use postgread.Msg.TypeByte.{TypeByte, try_from}
use postgread.Msg.Body.Authentication.{authentication_msg}
use postgread.Msg.Body.Credentials.{
  gss_response_msg, password_msg, sasl_initial_response_msg, sasl_response_msg,
}
use postgread.Msg.Body.ErrorAndNotice.{error_response_msg, notice_response_msg}
use postgread.Msg.Body.Initial.{Initial, initial_msg}
use postgread.Msg.Body.Rows.{command_complete_msg, data_row_msg, row_description_msg}
use postgread.Msg.Body.Signals.{
  bind_complete_msg, empty_query_response_msg, parse_complete_msg, portal_suspended_msg, sync_msg,
  terminate_msg,
}
use postgread.Msg.Body.Statements.{bind_msg, execute_msg, parse_msg, query_msg}
use postgread.Msg.Body.Status.{
  backend_key_data_msg, negotiate_protocol_version_msg, parameter_status_msg, ready_for_query_msg,
}
use postgread.Msg.Body.Types.{MsgType, msg_decode-IsTotal}
use postgread.Convey.State.{Side, failed, State, undecided}
use postgread.Convey.Message.{BackendMsg, FrontendMsg}
use postgread.Convey.Stream.{Channel, switch_to_tls}
use postgread.Convey.Dispatch.{
  BackendType, FrontendType, Arm, process_authentication, backend_through, frontend_through,
  last_backend, last_frontend, unexpected, dispatch, authenticate,
}
use postgread.Convey.Conveyor.{
  Conveyor, on_frontend, on_backend, write_bytes, write_frontend, read_frontend_through,
}
use postgread.Convey.Go.{
  ConveyResult, relay_backend, relay_frontend, of_result, process_backend_authentication,
  read_side_type_byte, known_type, read_type_byte_from_both, run_arm, round, conveying,
  initial_inside_tls, enter_tls, after_tls_response, first_initial, negotiate, tls_supported,
  tls_not_supported, dropping,
}
use postgread.Convey.Ends.{
  Ends, Ends-bind, authenticate-known, frontend-Ends, write_bytes-Ends, read_side_type_byte-Ends,
  read_backend_through-Ends, read_frontend_through-Ends, switch_to_tls-Ends,
}

module _ {front back : Channel} where
  dropping-Ends : {A : Type 0} (d : ConveyResult front back A) → Ends d → Ends (dropping d)
  dropping-Ends d h = Ends-bind d (λ _. pure tt) h (λ a c k. cc)

  relay_backend-Ends : (t : BackendType) → Ends (relay_backend {front = front} {back = back} t)
  unfolding relay_backend
  relay_backend-Ends BackendType.backend_key_data = dropping-Ends _ (
      read_backend_through-Ends backend_key_data_msg BackendMsg.backend_key_data
        (msg_decode-IsTotal MsgType.backend_key_data))
  relay_backend-Ends BackendType.bind_complete = dropping-Ends _ (
      read_backend_through-Ends bind_complete_msg BackendMsg.bind_complete
        (msg_decode-IsTotal MsgType.bind_complete))
  relay_backend-Ends BackendType.command_complete = dropping-Ends _ (
      read_backend_through-Ends command_complete_msg BackendMsg.command_complete
        (msg_decode-IsTotal MsgType.command_complete))
  relay_backend-Ends BackendType.data_row = dropping-Ends _ (
      read_backend_through-Ends data_row_msg BackendMsg.data_row
        (msg_decode-IsTotal MsgType.data_row))
  relay_backend-Ends BackendType.empty_query_response = dropping-Ends _ (
      read_backend_through-Ends empty_query_response_msg BackendMsg.empty_query_response
        (msg_decode-IsTotal MsgType.empty_query_response))
  relay_backend-Ends BackendType.error_response = dropping-Ends _ (
      read_backend_through-Ends error_response_msg BackendMsg.error_response
        (msg_decode-IsTotal MsgType.error_response))
  relay_backend-Ends BackendType.negotiate_protocol_version = dropping-Ends _ (
      read_backend_through-Ends negotiate_protocol_version_msg BackendMsg.negotiate_protocol_version
        (msg_decode-IsTotal MsgType.negotiate_protocol_version))
  relay_backend-Ends BackendType.notice_response = dropping-Ends _ (
      read_backend_through-Ends notice_response_msg BackendMsg.notice_response
        (msg_decode-IsTotal MsgType.notice_response))
  relay_backend-Ends BackendType.parameter_status = dropping-Ends _ (
      read_backend_through-Ends parameter_status_msg BackendMsg.parameter_status
        (msg_decode-IsTotal MsgType.parameter_status))
  relay_backend-Ends BackendType.parse_complete = dropping-Ends _ (
      read_backend_through-Ends parse_complete_msg BackendMsg.parse_complete
        (msg_decode-IsTotal MsgType.parse_complete))
  relay_backend-Ends BackendType.portal_suspended = dropping-Ends _ (
      read_backend_through-Ends portal_suspended_msg BackendMsg.portal_suspended
        (msg_decode-IsTotal MsgType.portal_suspended))
  relay_backend-Ends BackendType.ready_for_query = dropping-Ends _ (
      read_backend_through-Ends ready_for_query_msg BackendMsg.ready_for_query
        (msg_decode-IsTotal MsgType.ready_for_query))
  relay_backend-Ends BackendType.row_description = dropping-Ends _ (
      read_backend_through-Ends row_description_msg BackendMsg.row_description
        (msg_decode-IsTotal MsgType.row_description))

  relay_frontend-Ends : (t : FrontendType) → Ends (relay_frontend {front = front} {back = back} t)
  unfolding relay_frontend
  relay_frontend-Ends FrontendType.bind =
      dropping-Ends _
        (read_frontend_through-Ends bind_msg FrontendMsg.bind (msg_decode-IsTotal MsgType.bind))
  relay_frontend-Ends FrontendType.execute = dropping-Ends _ (
      read_frontend_through-Ends execute_msg FrontendMsg.execute
        (msg_decode-IsTotal MsgType.execute))
  relay_frontend-Ends FrontendType.gss_response = dropping-Ends _ (
      read_frontend_through-Ends gss_response_msg FrontendMsg.gss_response
        (msg_decode-IsTotal MsgType.gss_response))
  relay_frontend-Ends FrontendType.parse =
      dropping-Ends _
        (read_frontend_through-Ends parse_msg FrontendMsg.parse (msg_decode-IsTotal MsgType.parse))
  relay_frontend-Ends FrontendType.password = dropping-Ends _ (
      read_frontend_through-Ends password_msg FrontendMsg.password
        (msg_decode-IsTotal MsgType.password))
  relay_frontend-Ends FrontendType.query =
      dropping-Ends _
        (read_frontend_through-Ends query_msg FrontendMsg.query (msg_decode-IsTotal MsgType.query))
  relay_frontend-Ends FrontendType.sasl_initial_response = dropping-Ends _ (
      read_frontend_through-Ends sasl_initial_response_msg FrontendMsg.sasl_initial_response
        (msg_decode-IsTotal MsgType.sasl_initial_response))
  relay_frontend-Ends FrontendType.sasl_response = dropping-Ends _ (
      read_frontend_through-Ends sasl_response_msg FrontendMsg.sasl_response
        (msg_decode-IsTotal MsgType.sasl_response))
  relay_frontend-Ends FrontendType.sync =
      dropping-Ends _
        (read_frontend_through-Ends sync_msg FrontendMsg.sync (msg_decode-IsTotal MsgType.sync))
  relay_frontend-Ends FrontendType.terminate = dropping-Ends _ (
      read_frontend_through-Ends terminate_msg FrontendMsg.terminate
        (msg_decode-IsTotal MsgType.terminate))

  process_backend_authentication-Ends :
      (state : State) → Ends (process_backend_authentication {front = front} {back = back} state)
  unfolding process_backend_authentication of_result
  process_backend_authentication-Ends state =
      Ends-bind _ _
        (read_backend_through-Ends authentication_msg BackendMsg.authentication
          (msg_decode-IsTotal MsgType.authentication))
        (λ message c. by (authenticate message state) c (authenticate-known message state))
    where
      by :
          (r : Result _ State) (c : Conveyor front back)
          → r ≢ err undecided
          → (of_result failed r c).0 ≢ err (failed undecided)
      by (ok a) c h k = cc
      by (err e) c h k = h cc

  known_type-Ends :
      (side : Side) (byte : ℕ) (o : Option TypeByte)
      → Ends (known_type {front = front} {back = back} side byte o)
  unfolding known_type
  known_type-Ends side byte (some t) c h = cc
  known_type-Ends side byte none c h = cc

  run_arm-Ends :
      (side : Side) (t : TypeByte) (state : State) (arm : Arm)
      → Ends (run_arm {front = front} {back = back} side t state arm)
  unfolding run_arm
  run_arm-Ends side t state process_authentication =
      Ends-bind _ _ (process_backend_authentication-Ends state) (λ a c k. cc)
  run_arm-Ends side t state (backend_through b state') =
      Ends-bind _ _ (relay_backend-Ends b) (λ a c k. cc)
  run_arm-Ends side t state (frontend_through f state') =
      Ends-bind _ _ (relay_frontend-Ends f) (λ a c k. cc)
  run_arm-Ends side t state (last_backend b) = Ends-bind _ _ (relay_backend-Ends b) (λ a c k. cc)
  run_arm-Ends side t state (last_frontend f) = Ends-bind _ _ (relay_frontend-Ends f) (λ a c k. cc)
  run_arm-Ends side t state unexpected = λ c k. cc

  round-Ends : (side : Side) (state : State) → Ends (round {front = front} {back = back} side state)
  unfolding round read_type_byte_from_both
  round-Ends side state =
      Ends-bind _ _
        (Ends-bind _ _ (read_side_type_byte-Ends side)
          (λ byte. known_type-Ends side byte (try_from byte)))
        (λ t. run_arm-Ends side t state (dispatch side t state))

  pub conveying-Ends :
      (ready : List Side) (o : Option State)
      → Ends (conveying {front = front} {back = back} ready o)
  unfolding conveying
  conveying-Ends ready none c h = cc
  conveying-Ends [] (some state) c h = cc
  conveying-Ends (side ∷ ready) (some state) c h =
      Ends-bind (round side state) (conveying ready) (round-Ends side state)
        (λ o. conveying-Ends ready o) c h

  initial_inside_tls-Ends :
      (x : Initial) → Ends (initial_inside_tls {front = front} {back = back} x)
  unfolding initial_inside_tls
  initial_inside_tls-Ends (Initial.startup s) c h = cc
  initial_inside_tls-Ends (Initial.cancel s) c h = cc
  initial_inside_tls-Ends Initial.tls c h = cc

  read_initial-Ends :
      Ends (read_frontend_through {front = front} {back = back} initial_msg FrontendMsg.initial)
  read_initial-Ends =
      read_frontend_through-Ends initial_msg FrontendMsg.initial
        (msg_decode-IsTotal MsgType.initial)

  enter_tls-Ends : Ends (enter_tls {front = front} {back = back})
  unfolding enter_tls write_frontend
  enter_tls-Ends =
      Ends-bind _ _
        (frontend-Ends (write_bytes (tls_supported ∷ [])) (write_bytes-Ends (tls_supported ∷ [])))
        (λ _.
          Ends-bind (on_frontend (switch_to_tls front)) _ (λ c. switch_to_tls-Ends c.frontend)
            (λ _. Ends-bind _ _ read_initial-Ends initial_inside_tls-Ends))

  if-Ends :
      {A : Type 0} (b : Bool) (d e : ConveyResult front back A)
      → Ends d
      → Ends e
      → Ends (if b then d else e)
  if-Ends true d e hd he = hd
  if-Ends false d e hd he = he

  after_tls_response-Ends : (n : ℕ) → Ends (after_tls_response {front = front} {back = back} n)
  unfolding after_tls_response
  after_tls_response-Ends n = if-Ends (n == tls_not_supported) _ _ enter_tls-Ends (
      if-Ends (n == tls_supported) _ _
        (Ends-bind (on_backend (switch_to_tls back)) _ (λ c. switch_to_tls-Ends c.backend)
          (λ _. enter_tls-Ends))
        (if-Ends (n == error_response_type_byte) _ _
          (Ends-bind _ _ (relay_backend-Ends BackendType.error_response) (λ a c k. cc))
          (λ c k. cc)))

  first_initial-Ends : (x : Initial) → Ends (first_initial {front = front} {back = back} x)
  unfolding first_initial read_side_type_byte
  first_initial-Ends (Initial.startup s) = λ c k. cc
  first_initial-Ends (Initial.cancel s) = λ c k. cc
  first_initial-Ends Initial.tls =
      Ends-bind _ _ (read_side_type_byte-Ends Side.backend) after_tls_response-Ends

  pub negotiate-Ends : Ends (negotiate {front = front} {back = back})
  unfolding negotiate
  negotiate-Ends = Ends-bind _ _ read_initial-Ends first_initial-Ends
