-- ===== src/Convey/Flow.antt =====
-- What the calls of src/convey.rs get where both streams are up and the bytes have arrived.
pub mod Calls
pub mod Relay
pub mod Arms
pub mod Rounds
use postgread.Prelude.Outcome.{◌>>=◌, ◌>>◌, pure, map_err, Result_map_err, lift}
use postgread.Prelude.{
  ℕ, ◌+◌, ◌<◌, ◌≡◌, refl, sym, ap, ◌∙◌, List, [], ◌∷◌, ◌++◌, Result, ok, Stateful, length, u8_bytes,
  u32_bytes, AllBytes, append-nil, append_assoc,
}
use postgread.Msg.Decode.{MsgDecode}
use postgread.Msg.AsyncIo.{ByteStream, read_u8}
use postgread.Msg.AsyncIo.Delivery.{Delivers, Gets, Gets-bind, Gets-map_err, read_u8-Gets}
use postgread.Msg.Read.{decode_msg, read_msg}
use postgread.Msg.Read.Header.{type_bytes, Fits}
use postgread.Msg.Read.Delivery.{data_of, read_msg-Gets}
use postgread.Convey.State
use postgread.Convey.State.{Side, backend, frontend, Exit, failed}
use postgread.Convey.Message.{BackendMsg, FrontendMsg, Message}
use postgread.Convey.Stream.{Channel, StreamWrap, plain, tls_handshake, tls, unwrap_stream}
use postgread.Convey.Conveyor.{
  Conveyor, of_read_error, of_msg_error, read_msg_mapping_err, read_type_byte, write_bytes,
  callback, read_backend, read_frontend, read_backend_type_byte, read_frontend_type_byte,
  write_backend, write_frontend, read_through, read_backend_through, read_frontend_through,
}
use postgread.Convey.Moves.{length_and_body, other}

-- The fields of `read_msg_mapping_err` on a body that decodes.
module _ {S Msg : Type 0} {io : ByteStream S} (up : Delivers io) (m : MsgDecode Msg) where
  pub mapped-Gets :
      (body : List ℕ) (msg : Msg)
      → AllBytes body
      → Fits m.type_byte_opt (4 + length body)
      → decode_msg m body ≡ ok msg
      → Gets up.waiting
          (read_msg_mapping_err m S io)
          (length_and_body body)
          ((data_of m body).bytes, msg)
  unfolding read_msg_mapping_err
  mapped-Gets body msg all fits decoded rest s e =
      let (got, left) =
        Gets-map_err up.waiting (λ e. failed (of_read_error e)) (read_msg io m)
          (length_and_body body) (data_of m body) (read_msg-Gets up m body all fits) rest s e in
      rw got (rw decoded (refl, left))

module _ {S : Type 0} {io : ByteStream S} (up : Delivers io) where
  pub type_byte-Gets : (n : ℕ) → n < 256 → Gets up.waiting (read_type_byte S io) (u8_bytes n) n
  unfolding read_type_byte
  type_byte-Gets n h =
      Gets-map_err up.waiting (λ e. failed (State.io_error e)) (read_u8 io) (u8_bytes n) n
        (read_u8-Gets up n h)

  pub write_bytes-Gets : (bytes : List ℕ) → Gets up.waiting (write_bytes bytes S io) [] tt
  unfolding write_bytes
  write_bytes-Gets bytes rest s e =
      let (went, left) = up.write_all-waiting bytes s in (rw went refl, left ∙ e)

-- A side whose streams are up, before and after the handshake.
pub record Up (c : Channel) : Type 0 where
  pub plain_up : Delivers c.plain_io
  pub tls_up : Delivers c.tls_io

abbrev pub IsOpen : {c : Channel} → StreamWrap c → Type 0
IsOpen (plain s) = Unit
IsOpen tls_handshake = ⊥
IsOpen (tls s) = Unit

module _ {c : Channel} (up : Up c) where
  abbrev pub waiting : StreamWrap c → List ℕ
  waiting (plain s) = up.plain_up.waiting s
  waiting tls_handshake = []
  waiting (tls s) = up.tls_up.waiting s

  pub unwrap-Gets :
      {A : Type 0} (fn : (S : Type 0) → ByteStream S → Stateful S Exit A) (bytes : List ℕ) (a : A)
      → ((S : Type 0) (io : ByteStream S) (u : Delivers io) → Gets u.waiting (fn S io) bytes a)
      → (rest : List ℕ) (w : StreamWrap c) → IsOpen w
      → waiting w ≡ bytes ++ rest
      → ((unwrap_stream c fn w).0 ≡ ok a)
        × (waiting (unwrap_stream c fn w).1 ≡ rest)
        × IsOpen (unwrap_stream c fn w).1
  unfolding unwrap_stream
  unwrap-Gets fn bytes a g rest (plain s) o h =
      let (got, left) = g c.Plain c.plain_io up.plain_up rest s h in (got, left, tt)
  unwrap-Gets fn bytes a g rest tls_handshake o h = absurd o
  unwrap-Gets fn bytes a g rest (tls s) o h =
      let (got, left) = g c.Tls c.tls_io up.tls_up rest s h in (got, left, tt)
