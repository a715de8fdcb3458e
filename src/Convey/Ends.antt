-- ===== src/Convey/Ends.antt =====
-- The fuel of the decoders' loops, in the calls of src/convey.rs.
pub mod Whole
pub mod Turns
use postgread.Prelude.Outcome.{
  ◌>>=◌, ◌>>◌, pure, fail, map_err, Result_map_err, lift, continue, map_err-eq-ok,
}
use postgread.Prelude.{
  ℕ, ◌≡◌, refl, ◌≢◌, ◌∙◌, List, [], ◌∷◌, Option, none, some, Result, ok, err, Stateful, AllBytes,
  Bool, true, false, if◌then◌else◌, ◌==◌,
}
use postgread.Msg.TypeByte.{TypeByte, into, try_from}
use postgread.Msg.Decode.{MsgDecode}
use postgread.Msg.AsyncIo.{ByteStream, read_u8}
use postgread.Msg.Read
use postgread.Msg.Read.{ReadError, ReadData, MsgError, decode_msg, read_msg}
use postgread.Msg.Read.Body.{Sound-decided}
use postgread.Msg.Read.Frame.{read_msg_framed}
use postgread.Msg.Body.Types.{IsTotal, MsgType, msg_decode-IsTotal}
use postgread.Msg.Body.Authentication.{Authentication}
use postgread.Msg.Body.Initial.{Initial}
use postgread.Convey.State
use postgread.Convey.State.{
  Side, backend, frontend, Exit, failed, panicked, State, ConveyError, undecided,
}
use postgread.Convey.Message.{Message, BackendMsg, FrontendMsg}
use postgread.Convey.Stream.{
  Channel, StreamWrap, plain, tls_handshake, tls, unwrap_stream, replace_plain_with, put_tls,
  finish_handshake, start_handshake, switch_to_tls,
}
use postgread.Convey.Dispatch.{
  BackendType, FrontendType, Arm, process_authentication, backend_through, frontend_through,
  last_backend, last_frontend, unexpected, dispatch, authenticate,
}
use postgread.Convey.Conveyor.{
  Conveyor, of_read_error, of_msg_error, read_msg_mapping_err, read_type_byte, write_bytes,
  callback, read_backend, read_frontend, read_backend_type_byte, read_frontend_type_byte,
  write_backend, write_frontend, read_through, read_backend_through, read_frontend_through,
  on_frontend, on_backend,
}
use postgread.Convey.Go.{
  ConveyResult, relay_backend, relay_frontend, of_result, process_backend_authentication,
  read_side_type_byte, known_type, read_type_byte_from_both, run_arm, round, conveying,
  initial_inside_tls, enter_tls, after_tls_response, first_initial, negotiate, go, tls_supported,
  tls_not_supported, dropping,
}

-- The call ends with a value of the program.
abbrev pub Ends : {S A : Type 0} → Stateful S Exit A → Type 0
Ends {S} d = (s : S) → (d s).0 ≢ err (failed undecided)

module _ {S A : Type 0} where
  map_err-Ends :
      {E : Type 0} (f : E → Exit) (d : Stateful S E A)
      → ((e : E) → f e ≢ failed undecided)
      → Ends (map_err f d)
  map_err-Ends {E} f d k s = by (d s).0
    where
      by : (r : Result E A) → Result_map_err f r ≢ err (failed undecided)
      by (ok a) h = cc
      by (err e) h = k e cc

  bind-known :
      {B : Type 0} (d : Stateful S Exit A) (f : A → Stateful S Exit B) (s : S)
      → (d s).0 ≢ err (failed undecided)
      → ((a : A) → (d s).0 ≡ ok a → (f a (d s).1).0 ≢ err (failed undecided))
      → ((d >>= f) s).0 ≢ err (failed undecided)
  bind-known {B} d f s hd hf = by (d s).0 refl
    where
      by : (r : Result Exit A) → (d s).0 ≡ r → (continue f r (d s).1).0 ≢ err (failed undecided)
      by (ok a) e h = hf a e h
      by (err x) e h = hd (let same : err x ≡ err (failed undecided) = h in e ∙ cc)

  pub Ends-bind :
      {B : Type 0} (d : Stateful S Exit A) (f : A → Stateful S Exit B)
      → Ends d
      → ((a : A) → Ends (f a))
      → Ends (d >>= f)
  Ends-bind d f hd hf s = bind-known d f s (hd s) (λ a e. hf a (d s).1)

of_read_error-known : (e : ReadError) → failed (of_read_error e) ≢ failed undecided
unfolding of_read_error
of_read_error-known (Read.io_error e) h = cc
of_read_error-known (Read.encode_error p) h = cc

msg_result-known :
    {Msg : Type 0} (r : Result MsgError Msg)
    → r ≢ err Read.undecided
    → Result_map_err (λ e. failed (of_msg_error e)) r ≢ err (failed undecided)
unfolding of_msg_error
msg_result-known (ok msg) h k = cc
msg_result-known (err (Read.decode_error p)) h k = cc
msg_result-known (err (Read.left_undecoded n)) h k = cc
msg_result-known (err Read.undecided) h k = h refl

module _ {Msg : Type 0} (m : MsgDecode Msg) (total : IsTotal m.decode_body) where
  read_msg_mapping_err-Ends : (S : Type 0) (io : ByteStream S) → Ends (read_msg_mapping_err m S io)
  unfolding read_msg_mapping_err
  read_msg_mapping_err-Ends S io s =
      bind-known (map_err (λ e. failed (of_read_error e)) (read_msg io m)) _ s
        (map_err-Ends (λ e. failed (of_read_error e)) (read_msg io m) of_read_error-known s)
        (λ data_read e.
          let (body, same, all, came, quiet) =
            read_msg_framed io m s (map_err-eq-ok _ (read_msg io m s).0 e) in
          rw same (
            Ends-bind (lift (Result_map_err (λ e. failed (of_msg_error e)) (decode_msg m body)))
              (λ message. pure (_, message))
              (λ t. msg_result-known (decode_msg m body) (Sound-decided m total body all))
              (λ message t k. cc) (read_msg io m s).1))

module _ {c : Channel} where
  unwrap-Ends :
      {A : Type 0} (fn : (S : Type 0) → ByteStream S → Stateful S Exit A)
      → ((S : Type 0) (io : ByteStream S) → Ends (fn S io))
      → Ends (unwrap_stream c fn)
  unfolding unwrap_stream
  unwrap-Ends fn h (plain s) k = h c.Plain c.plain_io s k
  unwrap-Ends fn h tls_handshake k = cc
  unwrap-Ends fn h (tls s) k = h c.Tls c.tls_io s k

  put_tls-Ends : (stream : c.Tls) → Ends (put_tls c stream)
  unfolding put_tls
  put_tls-Ends stream tls_handshake h = cc
  put_tls-Ends stream (plain s) h = cc
  put_tls-Ends stream (tls s) h = cc

  pub switch_to_tls-Ends : Ends (switch_to_tls c)
  unfolding switch_to_tls replace_plain_with start_handshake finish_handshake
  switch_to_tls-Ends (plain s) = finished (c.handshake s)
    where
      finished :
          (r : Result c.Failure c.Tls)
          → (finish_handshake c r tls_handshake).0 ≢ err (failed undecided)
      finished (ok stream) h = put_tls-Ends stream tls_handshake h
      finished (err e) h = cc
  switch_to_tls-Ends tls_handshake = λ h. cc
  switch_to_tls-Ends (tls s) = λ h. cc

pub authenticate-known : (x : Authentication) (state : State) → authenticate x state ≢ err undecided
unfolding authenticate
authenticate-known Authentication.cleartext_password State.got_startup e = cc
authenticate-known Authentication.gss State.got_startup e = cc
authenticate-known Authentication.sspi State.got_startup e = cc
authenticate-known (Authentication.gss_continue auth_data) State.got_gss_response e = cc
authenticate-known (Authentication.md5_password salt) State.got_startup e = cc
authenticate-known Authentication.ok State.finished_sasl e = cc
authenticate-known Authentication.ok State.got_cleartext_password e = cc
authenticate-known Authentication.ok State.got_gss_response e = cc
authenticate-known Authentication.ok State.got_md5_password e = cc
authenticate-known Authentication.ok State.got_startup e = cc
authenticate-known Authentication.kerberos_v5 State.got_startup e = cc
authenticate-known (Authentication.sasl auth_mechanisms) State.got_startup e = cc
authenticate-known (Authentication.sasl_continue challenge_data) State.got_any_sasl_response e = cc
authenticate-known (Authentication.sasl_final additional_data) State.got_any_sasl_response e = cc
authenticate-known Authentication.scm_credential State.got_startup e = cc
authenticate-known message State.got_startup e = cc
authenticate-known message state e = cc

pub write_bytes-Ends :
    (bytes : List ℕ) (S : Type 0) (io : ByteStream S) → Ends (write_bytes bytes S io)
unfolding write_bytes
write_bytes-Ends bytes S io =
    map_err-Ends (λ e. failed (State.io_error e)) (io.write_all bytes) (λ e h. cc)

read_type_byte-Ends : (S : Type 0) (io : ByteStream S) → Ends (read_type_byte S io)
unfolding read_type_byte
read_type_byte-Ends S io = map_err-Ends (λ e. failed (State.io_error e)) (read_u8 io) (λ e h. cc)

module _ {front back : Channel} where
  pub frontend-Ends :
      {A : Type 0} (fn : (S : Type 0) → ByteStream S → Stateful S Exit A)
      → ((S : Type 0) (io : ByteStream S) → Ends (fn S io))
      → Ends (on_frontend {front = front} {back = back} (unwrap_stream front fn))
  frontend-Ends fn h c = unwrap-Ends fn h c.frontend

  pub backend-Ends :
      {A : Type 0} (fn : (S : Type 0) → ByteStream S → Stateful S Exit A)
      → ((S : Type 0) (io : ByteStream S) → Ends (fn S io))
      → Ends (on_backend {front = front} {back = back} (unwrap_stream back fn))
  backend-Ends fn h c = unwrap-Ends fn h c.backend

  pub read_side_type_byte-Ends :
      (side : Side) → Ends (read_side_type_byte {front = front} {back = back} side)
  unfolding read_side_type_byte read_backend_type_byte read_frontend_type_byte
  read_side_type_byte-Ends backend = backend-Ends read_type_byte read_type_byte-Ends
  read_side_type_byte-Ends frontend = frontend-Ends read_type_byte read_type_byte-Ends

  through-Ends :
      {Msg : Type 0} (read : ConveyResult front back (List ℕ × Msg)) (wrap : Msg → Message)
      (write : List ℕ → ConveyResult front back (Unit {0}))
      → Ends read
      → ((bytes : List ℕ) → Ends (write bytes))
      → Ends (read_through read wrap write)
  unfolding read_through callback
  through-Ends read wrap write hr hw = Ends-bind read _ hr (λ got c.
      Ends-bind (write got.0) (λ _. pure got.1) (hw got.0) (λ u c k. cc)
        (callback (wrap got.1) c).1)

  pub read_backend_through-Ends :
      {Msg : Type 0} (m : MsgDecode Msg) (wrap : Msg → BackendMsg)
      → IsTotal m.decode_body
      → Ends (read_backend_through {front = front} {back = back} m wrap)
  unfolding read_backend_through read_backend write_frontend
  read_backend_through-Ends m wrap total =
      through-Ends _ _ _ (backend-Ends (read_msg_mapping_err m) (read_msg_mapping_err-Ends m total))
        (λ bytes. frontend-Ends (write_bytes bytes) (write_bytes-Ends bytes))

  pub read_frontend_through-Ends :
      {Msg : Type 0} (m : MsgDecode Msg) (wrap : Msg → FrontendMsg)
      → IsTotal m.decode_body
      → Ends (read_frontend_through {front = front} {back = back} m wrap)
  unfolding read_frontend_through read_frontend write_backend
  read_frontend_through-Ends m wrap total =
      through-Ends _ _ _
        (frontend-Ends (read_msg_mapping_err m) (read_msg_mapping_err-Ends m total))
        (λ bytes. backend-Ends (write_bytes bytes) (write_bytes-Ends bytes))
