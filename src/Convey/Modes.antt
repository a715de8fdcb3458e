-- ===== src/Convey/Modes.antt =====
-- Which stream of a side of src/convey.rs is in place, plain or encrypted.
pub mod Secure
use postgread.Prelude.Outcome.{◌>>=◌, ◌>>◌, pure, fail, continue}
use postgread.Prelude.{
  ℕ, ◌≡◌, refl, sym, ◌∙◌, List, [], ◌∷◌, Option, none, some, Result, ok, err, Stateful,
}
use postgread.Msg.TypeByte.{TypeByte, try_from}
use postgread.Msg.Decode.{MsgDecode}
use postgread.Msg.AsyncIo.{ByteStream}
use postgread.Msg.Body.Authentication.{authentication_msg}
use postgread.Msg.Body.Credentials.{
  gss_response_msg, password_msg, sasl_initial_response_msg, sasl_response_msg,
}
use postgread.Msg.Body.ErrorAndNotice.{error_response_msg, notice_response_msg}
use postgread.Msg.Body.Initial.{Initial, initial_msg}
use postgread.Msg.Body.Rows.{command_complete_msg, data_row_msg, row_description_msg}
use postgread.Msg.Body.Signals.{
  bind_complete_msg, empty_query_response_msg, parse_complete_msg, portal_suspended_msg, sync_msg,
  terminate_msg,
}
use postgread.Msg.Body.Statements.{bind_msg, execute_msg, parse_msg, query_msg}
use postgread.Msg.Body.Status.{
  backend_key_data_msg, negotiate_protocol_version_msg, parameter_status_msg, ready_for_query_msg,
}
use postgread.Convey.State.{Side, backend, frontend, State, Exit, failed}
use postgread.Convey.Message.{BackendMsg, FrontendMsg, Message}
use postgread.Convey.Stream.{Channel, StreamWrap, plain, tls_handshake, tls, unwrap_stream}
use postgread.Convey.Dispatch.{
  BackendType, FrontendType, Arm, process_authentication, backend_through, frontend_through,
  last_backend, last_frontend, unexpected, dispatch, authenticate,
}
use postgread.Convey.Conveyor.{
  Conveyor, on_frontend, on_backend, callback, read_msg_mapping_err, read_type_byte, write_bytes,
  read_backend, read_frontend, read_backend_type_byte, read_frontend_type_byte, write_backend,
  write_frontend, read_through, read_backend_through, read_frontend_through,
}
use postgread.Convey.Go.{
  ConveyResult, relay_backend, relay_frontend, of_result, process_backend_authentication,
  read_side_type_byte, known_type, read_type_byte_from_both, run_arm, round, conveying, dropping,
}

pub data Mode : Type 0 where
  in_plain in_handshake in_tls : Mode

unfoldable pub mode : {c : Channel} → StreamWrap c → Mode
mode (plain s) = in_plain
mode tls_handshake = in_handshake
mode (tls s) = in_tls

unwrap-mode :
    {c : Channel} {A : Type 0} (fn : (S : Type 0) → ByteStream S → Stateful S Exit A)
    (w : StreamWrap c)
    → mode (unwrap_stream c fn w).1 ≡ mode w
unfolding unwrap_stream mode
unwrap-mode fn (plain s) = refl
unwrap-mode fn tls_handshake = refl
unwrap-mode fn (tls s) = refl

module _ {front back : Channel} where
  -- The call leaves the streams of both sides in place, whether it succeeds or not.
  abbrev pub Keeps : {A : Type 0} → ConveyResult front back A → Type 0
  Keeps d =
      (c : Conveyor front back)
      → (mode (d c).1.frontend ≡ mode c.frontend) × (mode (d c).1.backend ≡ mode c.backend)

  pub Keeps-bind :
      {A B : Type 0} (d : ConveyResult front back A) (f : A → ConveyResult front back B)
      → Keeps d
      → ((a : A) → Keeps (f a))
      → Keeps (d >>= f)
  Keeps-bind {A} {B} d f kd kf c = by (d c).0
    where
      by :
          (r : Result Exit A)
          → (mode (continue f r (d c).1).1.frontend ≡ mode c.frontend)
            × (mode (continue f r (d c).1).1.backend ≡ mode c.backend)
      by (ok a) = ((kf a (d c).1).0 ∙ (kd c).0, (kf a (d c).1).1 ∙ (kd c).1)
      by (err e) = kd c

  pub on_frontend-Keeps :
      {A : Type 0} (fn : (S : Type 0) → ByteStream S → Stateful S Exit A)
      → Keeps (on_frontend {front = front} {back = back} (unwrap_stream front fn))
  on_frontend-Keeps fn c = (unwrap-mode fn c.frontend, refl)

  on_backend-Keeps :
      {A : Type 0} (fn : (S : Type 0) → ByteStream S → Stateful S Exit A)
      → Keeps (on_backend {front = front} {back = back} (unwrap_stream back fn))
  on_backend-Keeps fn c = (refl, unwrap-mode fn c.backend)

  pub read_backend_type_byte-Keeps : Keeps (read_backend_type_byte {front = front} {back = back})
  unfolding read_backend_type_byte
  read_backend_type_byte-Keeps = on_backend-Keeps read_type_byte

  read_side_type_byte-Keeps : (side : Side) → Keeps (read_side_type_byte side)
  unfolding read_side_type_byte read_frontend_type_byte
  read_side_type_byte-Keeps backend = read_backend_type_byte-Keeps
  read_side_type_byte-Keeps frontend = on_frontend-Keeps read_type_byte

  through-Keeps :
      {Msg : Type 0} (read : ConveyResult front back (List ℕ × Msg)) (wrap : Msg → Message)
      (write : List ℕ → ConveyResult front back (Unit {0}))
      → Keeps read
      → ((bytes : List ℕ) → Keeps (write bytes))
      → Keeps (read_through read wrap write)
  unfolding read_through callback
  through-Keeps read wrap write kr kw = Keeps-bind read _ kr (λ got c.
      Keeps-bind (write got.0) (λ _. pure got.1) (kw got.0) (λ u c. (refl, refl))
        (callback (wrap got.1) c).1)

  pub read_backend_through-Keeps :
      {Msg : Type 0} (m : MsgDecode Msg) (wrap : Msg → BackendMsg)
      → Keeps (read_backend_through {front = front} {back = back} m wrap)
  unfolding read_backend_through read_backend write_frontend
  read_backend_through-Keeps m wrap =
      through-Keeps _ _ _ (on_backend-Keeps (read_msg_mapping_err m))
        (λ bytes. on_frontend-Keeps (write_bytes bytes))

  pub read_frontend_through-Keeps :
      {Msg : Type 0} (m : MsgDecode Msg) (wrap : Msg → FrontendMsg)
      → Keeps (read_frontend_through {front = front} {back = back} m wrap)
  unfolding read_frontend_through read_frontend write_backend
  read_frontend_through-Keeps m wrap =
      through-Keeps _ _ _ (on_frontend-Keeps (read_msg_mapping_err m))
        (λ bytes. on_backend-Keeps (write_bytes bytes))

  backend_dropped :
      {Msg : Type 0} (m : MsgDecode Msg) (wrap : Msg → BackendMsg)
      → Keeps (dropping {front = front} {back = back} (read_backend_through m wrap))
  backend_dropped m wrap =
      Keeps-bind (read_backend_through m wrap) (λ _. pure tt) (read_backend_through-Keeps m wrap)
        (λ a c. (refl, refl))

  frontend_dropped :
      {Msg : Type 0} (m : MsgDecode Msg) (wrap : Msg → FrontendMsg)
      → Keeps (dropping {front = front} {back = back} (read_frontend_through m wrap))
  frontend_dropped m wrap =
      Keeps-bind (read_frontend_through m wrap) (λ _. pure tt) (read_frontend_through-Keeps m wrap)
        (λ a c. (refl, refl))

  pub relay_backend-Keeps :
      (t : BackendType) → Keeps (relay_backend {front = front} {back = back} t)
  unfolding relay_backend
  relay_backend-Keeps BackendType.backend_key_data =
      backend_dropped backend_key_data_msg BackendMsg.backend_key_data
  relay_backend-Keeps BackendType.bind_complete =
      backend_dropped bind_complete_msg BackendMsg.bind_complete
  relay_backend-Keeps BackendType.command_complete =
      backend_dropped command_complete_msg BackendMsg.command_complete
  relay_backend-Keeps BackendType.data_row = backend_dropped data_row_msg BackendMsg.data_row
  relay_backend-Keeps BackendType.empty_query_response =
      backend_dropped empty_query_response_msg BackendMsg.empty_query_response
  relay_backend-Keeps BackendType.error_response =
      backend_dropped error_response_msg BackendMsg.error_response
  relay_backend-Keeps BackendType.negotiate_protocol_version =
      backend_dropped negotiate_protocol_version_msg BackendMsg.negotiate_protocol_version
  relay_backend-Keeps BackendType.notice_response =
      backend_dropped notice_response_msg BackendMsg.notice_response
  relay_backend-Keeps BackendType.parameter_status =
      backend_dropped parameter_status_msg BackendMsg.parameter_status
  relay_backend-Keeps BackendType.parse_complete =
      backend_dropped parse_complete_msg BackendMsg.parse_complete
  relay_backend-Keeps BackendType.portal_suspended =
      backend_dropped portal_suspended_msg BackendMsg.portal_suspended
  relay_backend-Keeps BackendType.ready_for_query =
      backend_dropped ready_for_query_msg BackendMsg.ready_for_query
  relay_backend-Keeps BackendType.row_description =
      backend_dropped row_description_msg BackendMsg.row_description

  relay_frontend-Keeps : (t : FrontendType) → Keeps (relay_frontend {front = front} {back = back} t)
  unfolding relay_frontend
  relay_frontend-Keeps FrontendType.bind = frontend_dropped bind_msg FrontendMsg.bind
  relay_frontend-Keeps FrontendType.execute = frontend_dropped execute_msg FrontendMsg.execute
  relay_frontend-Keeps FrontendType.gss_response =
      frontend_dropped gss_response_msg FrontendMsg.gss_response
  relay_frontend-Keeps FrontendType.parse = frontend_dropped parse_msg FrontendMsg.parse
  relay_frontend-Keeps FrontendType.password = frontend_dropped password_msg FrontendMsg.password
  relay_frontend-Keeps FrontendType.query = frontend_dropped query_msg FrontendMsg.query
  relay_frontend-Keeps FrontendType.sasl_initial_response =
      frontend_dropped sasl_initial_response_msg FrontendMsg.sasl_initial_response
  relay_frontend-Keeps FrontendType.sasl_response =
      frontend_dropped sasl_response_msg FrontendMsg.sasl_response
  relay_frontend-Keeps FrontendType.sync = frontend_dropped sync_msg FrontendMsg.sync
  relay_frontend-Keeps FrontendType.terminate = frontend_dropped terminate_msg FrontendMsg.terminate

  of_result-Keeps :
      {A E : Type 0} (f : E → Exit) (r : Result E A)
      → Keeps (of_result {front = front} {back = back} f r)
  unfolding of_result
  of_result-Keeps f (ok a) c = (refl, refl)
  of_result-Keeps f (err e) c = (refl, refl)

  known_type-Keeps :
      (side : Side) (byte : ℕ) (o : Option TypeByte)
      → Keeps (known_type {front = front} {back = back} side byte o)
  unfolding known_type
  known_type-Keeps side byte (some t) c = (refl, refl)
  known_type-Keeps side byte none c = (refl, refl)

  run_arm-Keeps :
      (side : Side) (t : TypeByte) (state : State) (arm : Arm)
      → Keeps (run_arm {front = front} {back = back} side t state arm)
  unfolding run_arm process_backend_authentication
  run_arm-Keeps side t state process_authentication =
      Keeps-bind _ _
        (Keeps-bind _ _ (read_backend_through-Keeps authentication_msg BackendMsg.authentication)
          (λ message. of_result-Keeps failed (authenticate message state)))
        (λ a c. (refl, refl))
  run_arm-Keeps side t state (backend_through b state') =
      Keeps-bind _ _ (relay_backend-Keeps b) (λ a c. (refl, refl))
  run_arm-Keeps side t state (frontend_through f state') =
      Keeps-bind _ _ (relay_frontend-Keeps f) (λ a c. (refl, refl))
  run_arm-Keeps side t state (last_backend b) =
      Keeps-bind _ _ (relay_backend-Keeps b) (λ a c. (refl, refl))
  run_arm-Keeps side t state (last_frontend f) =
      Keeps-bind _ _ (relay_frontend-Keeps f) (λ a c. (refl, refl))
  run_arm-Keeps side t state unexpected = λ c. (refl, refl)

  round-Keeps :
      (side : Side) (state : State) → Keeps (round {front = front} {back = back} side state)
  unfolding round read_type_byte_from_both
  round-Keeps side state =
      Keeps-bind _ _
        (Keeps-bind _ _ (read_side_type_byte-Keeps side)
          (λ byte. known_type-Keeps side byte (try_from byte)))
        (λ t. run_arm-Keeps side t state (dispatch side t state))

  pub conveying-Keeps :
      (ready : List Side) (o : Option State)
      → Keeps (conveying {front = front} {back = back} ready o)
  unfolding conveying
  conveying-Keeps ready none c = (refl, refl)
  conveying-Keeps [] (some state) c = (refl, refl)
  conveying-Keeps (side ∷ ready) (some state) c =
      Keeps-bind (round side state) (conveying ready) (round-Keeps side state)
        (λ o. conveying-Keeps ready o) c
