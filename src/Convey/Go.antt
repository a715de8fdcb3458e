-- ===== src/Convey/Go.antt =====
-- `Conveyor::go` of src/convey.rs: the negotiation, and the loop. Which of the two streams
-- `future::select` finds ready is an input of the loop: one side for each round.
use postgread.Prelude.Outcome.{◌>>=◌, ◌>>◌, pure, fail}
use postgread.Prelude.{
  ℕ, List, [], ◌∷◌, Result, ok, err, Stateful, Option, none, some, ◌==◌, if◌then◌else◌,
}
use postgread.Msg.Body.ErrorAndNotice.{error_response_type_byte}
use postgread.Msg.TypeByte.{TypeByte, try_from}
use postgread.Msg.Body.Authentication.{authentication_msg}
use postgread.Msg.Body.Credentials.{
  gss_response_msg, password_msg, sasl_initial_response_msg, sasl_response_msg,
}
use postgread.Msg.Body.ErrorAndNotice.{error_response_msg, notice_response_msg}
use postgread.Msg.Body.Initial.{Initial, initial_msg}
use postgread.Msg.Body.Rows.{command_complete_msg, data_row_msg, row_description_msg}
use postgread.Msg.Body.Signals.{
  bind_complete_msg, empty_query_response_msg, parse_complete_msg, portal_suspended_msg, sync_msg,
  terminate_msg,
}
use postgread.Msg.Body.Statements.{bind_msg, execute_msg, parse_msg, query_msg}
use postgread.Msg.Body.Status.{
  backend_key_data_msg, negotiate_protocol_version_msg, parameter_status_msg, ready_for_query_msg,
}
use postgread.Convey.State.{
  Side, backend, frontend, State, Exit, failed, tls_error, tls_requested_inside_tls, unknown_type,
  unexpected_type,
}
use postgread.Convey.Message.{BackendMsg, FrontendMsg}
use postgread.Convey.Stream.{Channel, switch_to_tls}
use postgread.Convey.Dispatch.{
  BackendType, FrontendType, Arm, process_authentication, backend_through, frontend_through,
  last_backend, last_frontend, unexpected, dispatch, authenticate,
}
use postgread.Convey.Conveyor.{
  Conveyor, new, on_frontend, on_backend, read_backend_type_byte, read_frontend_type_byte,
  write_frontend, read_backend_through, read_frontend_through,
}

abbrev pub tls_supported : ℕ
tls_supported = b'S'

abbrev pub tls_not_supported : ℕ
tls_not_supported = b'N'

-- What a method of the conveyor returns.
abbrev pub ConveyResult : Channel → Channel → Type 0 → Type 0
ConveyResult front back A = Stateful (Conveyor front back) Exit A

module _ {front back : Channel} where
  -- A call whose result is dropped.
  abbrev pub dropping :
      {A : Type 0} → ConveyResult front back A → ConveyResult front back (Unit {0})
  dropping d = do _ ← d; pure tt

  unfoldable pub relay_backend : BackendType → ConveyResult front back (Unit {0})
  relay_backend BackendType.backend_key_data =
      dropping (read_backend_through backend_key_data_msg BackendMsg.backend_key_data)
  relay_backend BackendType.bind_complete =
      dropping (read_backend_through bind_complete_msg BackendMsg.bind_complete)
  relay_backend BackendType.command_complete =
      dropping (read_backend_through command_complete_msg BackendMsg.command_complete)
  relay_backend BackendType.data_row =
      dropping (read_backend_through data_row_msg BackendMsg.data_row)
  relay_backend BackendType.empty_query_response =
      dropping (read_backend_through empty_query_response_msg BackendMsg.empty_query_response)
  relay_backend BackendType.error_response =
      dropping (read_backend_through error_response_msg BackendMsg.error_response)
  relay_backend BackendType.negotiate_protocol_version =
      dropping
        (read_backend_through negotiate_protocol_version_msg BackendMsg.negotiate_protocol_version)
  relay_backend BackendType.notice_response =
      dropping (read_backend_through notice_response_msg BackendMsg.notice_response)
  relay_backend BackendType.parameter_status =
      dropping (read_backend_through parameter_status_msg BackendMsg.parameter_status)
  relay_backend BackendType.parse_complete =
      dropping (read_backend_through parse_complete_msg BackendMsg.parse_complete)
  relay_backend BackendType.portal_suspended =
      dropping (read_backend_through portal_suspended_msg BackendMsg.portal_suspended)
  relay_backend BackendType.ready_for_query =
      dropping (read_backend_through ready_for_query_msg BackendMsg.ready_for_query)
  relay_backend BackendType.row_description =
      dropping (read_backend_through row_description_msg BackendMsg.row_description)

  unfoldable pub relay_frontend : FrontendType → ConveyResult front back (Unit {0})
  relay_frontend FrontendType.bind = dropping (read_frontend_through bind_msg FrontendMsg.bind)
  relay_frontend FrontendType.execute =
      dropping (read_frontend_through execute_msg FrontendMsg.execute)
  relay_frontend FrontendType.gss_response =
      dropping (read_frontend_through gss_response_msg FrontendMsg.gss_response)
  relay_frontend FrontendType.parse = dropping (read_frontend_through parse_msg FrontendMsg.parse)
  relay_frontend FrontendType.password =
      dropping (read_frontend_through password_msg FrontendMsg.password)
  relay_frontend FrontendType.query = dropping (read_frontend_through query_msg FrontendMsg.query)
  relay_frontend FrontendType.sasl_initial_response =
      dropping (read_frontend_through sasl_initial_response_msg FrontendMsg.sasl_initial_response)
  relay_frontend FrontendType.sasl_response =
      dropping (read_frontend_through sasl_response_msg FrontendMsg.sasl_response)
  relay_frontend FrontendType.sync = dropping (read_frontend_through sync_msg FrontendMsg.sync)
  relay_frontend FrontendType.terminate =
      dropping (read_frontend_through terminate_msg FrontendMsg.terminate)

  -- A result that is at hand, with the conveyor as it is.
  unfoldable pub of_result : {A E : Type 0} → (E → Exit) → Result E A → ConveyResult front back A
  of_result f (ok a) c = (ok a, c)
  of_result f (err e) c = (err (f e), c)

  unfoldable pub process_backend_authentication : State → ConveyResult front back State
  process_backend_authentication state = do
    message ← read_backend_through authentication_msg BackendMsg.authentication
    of_result failed (authenticate message state)

  unfoldable pub read_side_type_byte : Side → ConveyResult front back ℕ
  read_side_type_byte backend = read_backend_type_byte
  read_side_type_byte frontend = read_frontend_type_byte

  unfoldable pub known_type : Side → ℕ → Option TypeByte → ConveyResult front back TypeByte
  known_type side byte (some type_byte) c = (ok type_byte, c)
  known_type side byte none c = (err (failed (unknown_type side byte)), c)

  -- `read_type_byte_from_both`, where `side` is the one that is ready first.
  unfoldable pub read_type_byte_from_both : Side → ConveyResult front back TypeByte
  read_type_byte_from_both side = do
    byte ← read_side_type_byte side
    known_type side byte (try_from byte)

  -- The body of an arm. `none` is `return Ok(())`.
  unfoldable pub run_arm : Side → TypeByte → State → Arm → ConveyResult front back (Option State)
  run_arm side type_byte state process_authentication = do
    state' ← process_backend_authentication state
    pure (some state')
  run_arm side type_byte state (backend_through t state') = do relay_backend t; pure (some state')
  run_arm side type_byte state (frontend_through t state') = do relay_frontend t; pure (some state')
  run_arm side type_byte state (last_backend t) = do relay_backend t; pure none
  run_arm side type_byte state (last_frontend t) = do relay_frontend t; pure none
  run_arm side type_byte state unexpected = fail (failed (unexpected_type state side type_byte))

  -- One round of the loop.
  unfoldable pub round : Side → State → ConveyResult front back (Option State)
  round side state = do
    type_byte ← read_type_byte_from_both side
    run_arm side type_byte state (dispatch side type_byte state)

  -- The rounds for which `ready` says which side comes first. `none` is a loop that has returned;
  -- `some` state is what the rounds have led to where it has not.
  unfoldable pub conveying : List Side → Option State → ConveyResult front back (Option State)
  conveying ready none c = (ok none, c)
  conveying [] (some state) c = (ok (some state), c)
  conveying (side ∷ ready) (some state) c = (round side state >>= conveying ready) c

  -- The second `Initial`, inside TLS.
  unfoldable pub initial_inside_tls : Initial → ConveyResult front back (Option State)
  initial_inside_tls (Initial.startup s) = pure (some State.got_startup)
  initial_inside_tls (Initial.cancel c) = pure none
  initial_inside_tls Initial.tls = fail (failed (tls_error tls_requested_inside_tls))

  -- What follows the backend's answer where it did not refuse.
  unfoldable pub enter_tls : ConveyResult front back (Option State)
  enter_tls = do
    write_frontend (tls_supported ∷ [])
    on_frontend (switch_to_tls front)
    initial ← read_frontend_through initial_msg FrontendMsg.initial
    initial_inside_tls initial

  -- The match on `tls_response`, and what follows it.
  unfoldable pub after_tls_response : ℕ → ConveyResult front back (Option State)
  after_tls_response tls_response =
      if tls_response == tls_not_supported
      then enter_tls
      else if tls_response == tls_supported
      then (on_backend (switch_to_tls back) >> enter_tls)
      else if tls_response == error_response_type_byte
      then (do relay_backend BackendType.error_response; pure none)
      else fail (failed (unknown_type backend tls_response))

  unfoldable pub first_initial : Initial → ConveyResult front back (Option State)
  first_initial (Initial.startup s) = pure (some State.got_startup)
  first_initial (Initial.cancel c) = pure none
  first_initial Initial.tls = do
    tls_response ← read_backend_type_byte
    after_tls_response tls_response

  -- What comes before the loop. `none` is `return Ok(())`.
  unfoldable pub negotiate : ConveyResult front back (Option State)
  negotiate = do
    initial ← read_frontend_through initial_msg FrontendMsg.initial
    first_initial initial

  unfoldable pub go : List Side → ConveyResult front back (Option State)
  go ready = negotiate >>= conveying ready

  unfoldable pub convey :
      front.Plain → back.Plain → List Side → Result Exit (Option State) × Conveyor front back
  convey f b ready = go ready (new f b)
