-- ===== src/Convey/Conveyor.antt =====
-- `Conveyor` of src/convey.rs and the helpers of its `impl`. The callback is a log of what it was
-- called with; each `&mut self` is the conveyor before and after.
use postgread.Prelude.Outcome.{◌>>=◌, ◌>>◌, pure, map_err, Result_map_err, lift}
use postgread.Prelude.{ℕ, List, [], ◌∷◌, ◌++◌, ok, Stateful}
use postgread.Msg.Decode.{MsgDecode}
use postgread.Msg.AsyncIo.{ByteStream, read_u8}
use postgread.Msg.Read
use postgread.Msg.Read.{ReadError, MsgError, read_msg}
use postgread.Convey.State
use postgread.Convey.State.{Side, State, ConveyError, Exit, failed}
use postgread.Convey.Message.{BackendMsg, FrontendMsg, Message}
use postgread.Convey.Stream.{Channel, StreamWrap, plain, unwrap_stream}

pub record Conveyor (front back : Channel) : Type 0 where
  pub frontend : StreamWrap front
  pub backend : StreamWrap back
  pub log : List Message

-- `read_err` and `msg_error` as errors of the conveyor.
unfoldable pub of_read_error : ReadError → ConveyError
of_read_error (Read.io_error e) = State.io_error e
of_read_error (Read.encode_error p) = State.encode_error p

unfoldable pub of_msg_error : MsgError → ConveyError
of_msg_error (Read.decode_error p) = State.decode_error p
of_msg_error (Read.left_undecoded n) = State.left_undecoded n
of_msg_error Read.undecided = State.undecided

unfoldable pub read_msg_mapping_err :
    {Msg : Type 0} → MsgDecode Msg → (S : Type 0) → ByteStream S → Stateful S Exit (List ℕ × Msg)
read_msg_mapping_err m S io = do
  data_read ← map_err (λ e. failed (of_read_error e)) (read_msg io m)
  message ← lift (Result_map_err (λ e. failed (of_msg_error e)) data_read.msg_result)
  pure (data_read.bytes, message)

unfoldable pub read_type_byte : (S : Type 0) → ByteStream S → Stateful S Exit ℕ
read_type_byte S io = map_err (λ e. failed (State.io_error e)) (read_u8 io)

unfoldable pub write_bytes : List ℕ → (S : Type 0) → ByteStream S → Stateful S Exit (Unit {0})
write_bytes bytes S io = map_err (λ e. failed (State.io_error e)) (io.write_all bytes)

module _ {front back : Channel} where
  unfoldable pub new : front.Plain → back.Plain → Conveyor front back
  new frontend backend = record { frontend = plain frontend; backend = plain backend; log = [] }

  -- `&mut self.frontend` and `&mut self.backend`.
  abbrev pub on_frontend :
      {A : Type 0} → Stateful (StreamWrap front) Exit A → Stateful (Conveyor front back) Exit A
  on_frontend act c =
      let r = act c.frontend in (r.0, record { frontend = r.1; backend = c.backend; log = c.log })

  abbrev pub on_backend :
      {A : Type 0} → Stateful (StreamWrap back) Exit A → Stateful (Conveyor front back) Exit A
  on_backend act c =
      let r = act c.backend in (r.0, record { frontend = c.frontend; backend = r.1; log = c.log })

  unfoldable pub callback : Message → Stateful (Conveyor front back) Exit (Unit {0})
  callback message c =
      (ok tt, record { frontend = c.frontend; backend = c.backend; log = c.log ++ message ∷ [] })

  unfoldable pub read_backend :
      {Msg : Type 0} → MsgDecode Msg → Stateful (Conveyor front back) Exit (List ℕ × Msg)
  read_backend m = on_backend (unwrap_stream back (read_msg_mapping_err m))

  unfoldable pub read_frontend :
      {Msg : Type 0} → MsgDecode Msg → Stateful (Conveyor front back) Exit (List ℕ × Msg)
  read_frontend m = on_frontend (unwrap_stream front (read_msg_mapping_err m))

  unfoldable pub read_backend_type_byte : Stateful (Conveyor front back) Exit ℕ
  read_backend_type_byte = on_backend (unwrap_stream back read_type_byte)

  unfoldable pub read_frontend_type_byte : Stateful (Conveyor front back) Exit ℕ
  read_frontend_type_byte = on_frontend (unwrap_stream front read_type_byte)

  unfoldable pub write_backend : List ℕ → Stateful (Conveyor front back) Exit (Unit {0})
  write_backend bytes = on_backend (unwrap_stream back (write_bytes bytes))

  unfoldable pub write_frontend : List ℕ → Stateful (Conveyor front back) Exit (Unit {0})
  write_frontend bytes = on_frontend (unwrap_stream front (write_bytes bytes))

  -- The macro `read_through!` and the two that call it.
  unfoldable pub read_through :
      {Msg : Type 0}
      → Stateful (Conveyor front back) Exit (List ℕ × Msg)
      → (Msg → Message)
      → (List ℕ → Stateful (Conveyor front back) Exit (Unit {0}))
      → Stateful (Conveyor front back) Exit Msg
  read_through read wrap write = do got ← read; callback (wrap got.1); write got.0; pure got.1

  unfoldable pub read_backend_through :
      {Msg : Type 0} → MsgDecode Msg → (Msg → BackendMsg) → Stateful (Conveyor front back) Exit Msg
  read_backend_through m wrap =
      read_through (read_backend m) (λ msg. Message.backend (wrap msg)) write_frontend

  unfoldable pub read_frontend_through :
      {Msg : Type 0} → MsgDecode Msg → (Msg → FrontendMsg) → Stateful (Conveyor front back) Exit Msg
  read_frontend_through m wrap =
      read_through (read_frontend m) (λ msg. Message.frontend (wrap msg)) write_backend
