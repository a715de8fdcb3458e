-- ===== src/Convey/Moves.antt =====
-- What the calls of src/convey.rs move between the two streams where they succeed.
use postgread.Prelude.Outcome.{
  ◌>>=◌, ◌>>◌, >>=-eq-ok, map_err-eq-ok, pure, lift, map_err, Result_map_err,
}
use postgread.Prelude.{
  ℕ, ◌+◌, ◌<◌, ◌≡◌, refl, ap, ◌∙◌, List, [], ◌∷◌, ◌++◌, ok, Stateful, length, u8_bytes, u32_bytes,
  append-nil, sym,
}
use postgread.Msg.Decode.{MsgDecode}
use postgread.Msg.AsyncIo.{ByteStream}
use postgread.Msg.AsyncIo.Received.{read_u8_lem}
use postgread.Msg.Read.{ReadData, decode_msg, read_msg}
use postgread.Msg.Read.Header.{type_bytes}
use postgread.Msg.Read.Frame.{read_msg_framed}
use postgread.Convey.State.{Side, backend, frontend, Exit, failed}
use postgread.Convey.Message.{BackendMsg, FrontendMsg, Message}
use postgread.Convey.Stream.{
  Channel, StreamWrap, plain, tls_handshake, tls, unwrap_stream, received, sent,
}
use postgread.Convey.Conveyor.{
  Conveyor, of_read_error, of_msg_error, read_msg_mapping_err, read_type_byte, write_bytes,
  callback, read_backend, read_frontend, read_backend_type_byte, read_frontend_type_byte,
  write_backend, write_frontend, read_through, read_backend_through, read_frontend_through,
}

-- A body that decodes to a message, and the bytes that it stands in on the wire.
abbrev pub length_and_body : List ℕ → List ℕ
length_and_body body = u32_bytes (4 + length body) ++ body

module _ {Msg : Type 0} (m : MsgDecode Msg) where
  abbrev lifted : (S : Type 0) → ReadData Msg → Stateful S Exit Msg
  lifted S data_read = lift (Result_map_err (λ e. failed (of_msg_error e)) data_read.msg_result)

  abbrev after_read : (S : Type 0) → ReadData Msg → Stateful S Exit (List ℕ × Msg)
  after_read S data_read = do message ← lifted S data_read; pure (data_read.bytes, message)

  -- One message, as `read_msg_mapping_err` returns it.
  pub mapped_framed :
      (S : Type 0) (io : ByteStream S) (s : S) {got : List ℕ × Msg}
      → (read_msg_mapping_err m S io s).0 ≡ ok got
      → (body : List ℕ) × (got.0 ≡ type_bytes m.type_byte_opt ++ length_and_body body)
        × (decode_msg m body ≡ ok got.1)
        × (io.received (read_msg_mapping_err m S io s).1 ≡ io.received s ++ length_and_body body)
        × (io.sent (read_msg_mapping_err m S io s).1 ≡ io.sent s)
  unfolding read_msg_mapping_err
  mapped_framed S io s {got} h =
      let read = map_err (λ e. failed (of_read_error e)) (read_msg io m) in
      let (data_read, e, k) = >>=-eq-ok read (after_read S) s h in
      let (body, framed, all, came, quiet) = read_msg_framed io m s (map_err-eq-ok _ _ e) in
      let (x, e', k') =
        >>=-eq-ok (lifted S data_read) (λ x. pure (data_read.bytes, x)) (read s).1 (rw k at h) in
      let decoded = map_err-eq-ok (λ e. failed (of_msg_error e)) data_read.msg_result e' in
      let same : (data_read.bytes, x) ≡ got = cc (rw (k, k') at h) in
      rw (k, k', ← same)
        (body, ap (λ r. r.bytes) framed, sym (ap (λ r. r.msg_result) framed) ∙ decoded, came, quiet)

module _ (c : Channel) where
  type_byte_wrapped :
      (w : StreamWrap c) {n : ℕ}
      → (unwrap_stream c read_type_byte w).0 ≡ ok n
      → (n < 256)
        × (received c (unwrap_stream c read_type_byte w).1 ≡ received c w ++ u8_bytes n)
        × (sent c (unwrap_stream c read_type_byte w).1 ≡ sent c w)
  unfolding unwrap_stream read_type_byte received sent
  type_byte_wrapped (plain s) h = read_u8_lem c.plain_io s (map_err-eq-ok _ _ h)
  type_byte_wrapped tls_handshake h = cc
  type_byte_wrapped (tls s) h = read_u8_lem c.tls_io s (map_err-eq-ok _ _ h)

  write_wrapped :
      (bytes : List ℕ) (w : StreamWrap c)
      → (unwrap_stream c (write_bytes bytes) w).0 ≡ ok tt
      → (sent c (unwrap_stream c (write_bytes bytes) w).1 ≡ sent c w ++ bytes)
        × (received c (unwrap_stream c (write_bytes bytes) w).1 ≡ received c w)
  unfolding unwrap_stream write_bytes received sent
  write_wrapped bytes (plain s) h = (
    c.plain_io.write_all-sent bytes s (map_err-eq-ok _ _ h),
    c.plain_io.write_all-received bytes s,
  )
  write_wrapped bytes tls_handshake h = cc
  write_wrapped bytes (tls s) h =
      (c.tls_io.write_all-sent bytes s (map_err-eq-ok _ _ h), c.tls_io.write_all-received bytes s)

  msg_wrapped :
      {Msg : Type 0} (m : MsgDecode Msg) (w : StreamWrap c) {got : List ℕ × Msg}
      → (unwrap_stream c (read_msg_mapping_err m) w).0 ≡ ok got
      → (body : List ℕ) × (got.0 ≡ type_bytes m.type_byte_opt ++ length_and_body body)
        × (decode_msg m body ≡ ok got.1)
        × (received c (unwrap_stream c (read_msg_mapping_err m) w).1
            ≡ received c w ++ length_and_body body)
        × (sent c (unwrap_stream c (read_msg_mapping_err m) w).1 ≡ sent c w)
  unfolding unwrap_stream received sent
  msg_wrapped m (plain s) h = mapped_framed m c.Plain c.plain_io s h
  msg_wrapped m tls_handshake h = cc
  msg_wrapped m (tls s) h = mapped_framed m c.Tls c.tls_io s h

-- The two directions of a conversation.
abbrev pub other : Side → Side
other backend = frontend
other frontend = backend

module _ {front back : Channel} where
  -- What has come from a side, and what has gone to it, through the stream that is in place.
  abbrev pub received_from : Side → Conveyor front back → List ℕ
  received_from backend c = received back c.backend
  received_from frontend c = received front c.frontend

  abbrev pub sent_to : Side → Conveyor front back → List ℕ
  sent_to backend c = sent back c.backend
  sent_to frontend c = sent front c.frontend

  -- From `c` to `c'`, `ins` has come from the side, `outs` has gone to the other side, the callback
  -- was called with `messages`, and nothing has moved in the other direction.
  abbrev pub Moved :
      Side → List ℕ → List ℕ → List Message → Conveyor front back → Conveyor front back → Type 0
  Moved side ins outs messages c c' =
      (received_from side c' ≡ received_from side c ++ ins)
      × (sent_to (other side) c' ≡ sent_to (other side) c ++ outs)
      × (c'.log ≡ c.log ++ messages)
      × (received_from (other side) c' ≡ received_from (other side) c)
      × (sent_to side c' ≡ sent_to side c)

  -- The bytes with which a message of type `m` was received.
  abbrev pub Relayed :
      {Msg : Type 0}
      → MsgDecode Msg
      → Side
      → (Msg → Message)
      → Msg
      → Conveyor front back
      → Conveyor front back
      → Type 0
  Relayed m side wrap msg c c' =
      (body : List ℕ) × (decode_msg m body ≡ ok msg)
      × Moved side (length_and_body body) (type_bytes m.type_byte_opt ++ length_and_body body)
          (wrap msg ∷ []) c c'

  -- A message that goes through is decoded, logged, and sent on as it came.
  pub read_backend_through_lem :
      {Msg : Type 0} (m : MsgDecode Msg) (wrap : Msg → BackendMsg) (c : Conveyor front back)
      {msg : Msg}
      → (read_backend_through m wrap c).0 ≡ ok msg
      → Relayed m backend
          (λ msg. Message.backend (wrap msg))
          msg
          c
          (read_backend_through m wrap c).1
  unfolding read_backend_through read_through callback read_backend write_frontend
  read_backend_through_lem {Msg} m wrap c {msg} h =
      let sending = λ (got : List ℕ × Msg).
        write_frontend {front = front} {back = back} got.0 >>= λ _. pure got.1 in
      let (got, e, k) =
        >>=-eq-ok (read_backend m) (λ got. callback (Message.backend (wrap got.1)) >> sending got) c
          h in
      let c' = (callback (Message.backend (wrap got.1)) (read_backend m c).1).1 in
      let (u, e', k') =
        >>=-eq-ok (write_frontend {front = front} {back = back} got.0) (λ _. pure got.1) c'
          (rw k at h) in
      let (body, framed, decoded, came, quiet) = msg_wrapped back m c.backend e in
      let (went, still) = write_wrapped front got.0 c.frontend e' in
      let same : got.1 ≡ msg = cc (rw (k, k') at h) in
      rw (k, k')
        (
          body,
          decoded ∙ ap ok same,
          (
            came,
            went ∙ ap (λ bytes. sent front c.frontend ++ bytes) framed,
            ap (λ x. c.log ++ Message.backend (wrap x) ∷ []) same,
            still,
            quiet,
          ),
        )

  pub read_frontend_through_lem :
      {Msg : Type 0} (m : MsgDecode Msg) (wrap : Msg → FrontendMsg) (c : Conveyor front back)
      {msg : Msg}
      → (read_frontend_through m wrap c).0 ≡ ok msg
      → Relayed m frontend
          (λ msg. Message.frontend (wrap msg))
          msg
          c
          (read_frontend_through m wrap c).1
  unfolding read_frontend_through read_through callback read_frontend write_backend
  read_frontend_through_lem {Msg} m wrap c {msg} h =
      let sending = λ (got : List ℕ × Msg).
        write_backend {front = front} {back = back} got.0 >>= λ _. pure got.1 in
      let (got, e, k) =
        >>=-eq-ok (read_frontend m) (λ got. callback (Message.frontend (wrap got.1)) >> sending got)
          c h in
      let c' = (callback (Message.frontend (wrap got.1)) (read_frontend m c).1).1 in
      let (u, e', k') =
        >>=-eq-ok (write_backend {front = front} {back = back} got.0) (λ _. pure got.1) c'
          (rw k at h) in
      let (body, framed, decoded, came, quiet) = msg_wrapped front m c.frontend e in
      let (went, still) = write_wrapped back got.0 c.backend e' in
      let same : got.1 ≡ msg = cc (rw (k, k') at h) in
      rw (k, k')
        (
          body,
          decoded ∙ ap ok same,
          (
            came,
            went ∙ ap (λ bytes. sent back c.backend ++ bytes) framed,
            ap (λ x. c.log ++ Message.frontend (wrap x) ∷ []) same,
            still,
            quiet,
          ),
        )

  pub read_backend_type_byte_lem :
      (c : Conveyor front back) {n : ℕ}
      → (read_backend_type_byte c).0 ≡ ok n
      → Moved backend (u8_bytes n) [] [] c (read_backend_type_byte c).1
  unfolding read_backend_type_byte
  read_backend_type_byte_lem c h =
      let (bound, came, quiet) = type_byte_wrapped back c.backend h in
      (came, sym (append-nil _), sym (append-nil _), refl, quiet)

  pub read_frontend_type_byte_lem :
      (c : Conveyor front back) {n : ℕ}
      → (read_frontend_type_byte c).0 ≡ ok n
      → Moved frontend (u8_bytes n) [] [] c (read_frontend_type_byte c).1
  unfolding read_frontend_type_byte
  read_frontend_type_byte_lem c h =
      let (bound, came, quiet) = type_byte_wrapped front c.frontend h in
      (came, sym (append-nil _), sym (append-nil _), refl, quiet)
