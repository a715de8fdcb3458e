-- ===== src/Convey/Flow/Calls.antt =====
-- The methods of the conveyor of src/convey.rs where both streams are up.
use postgread.Prelude.Outcome.{◌>>=◌, ◌>>◌, pure}
use postgread.Prelude.{
  ℕ, ◌+◌, ◌<◌, ◌≡◌, refl, sym, ap, ◌∙◌, List, [], ◌∷◌, ◌++◌, ok, Stateful, length, u8_bytes,
  AllBytes, append-nil, append_assoc,
}
use postgread.Msg.Decode.{MsgDecode}
use postgread.Msg.Read.{decode_msg}
use postgread.Msg.Read.Header.{Fits}
use postgread.Msg.Read.Delivery.{data_of}
use postgread.Convey.State.{Side, backend, frontend, Exit}
use postgread.Convey.Message.{BackendMsg, FrontendMsg, Message}
use postgread.Convey.Stream.{Channel}
use postgread.Convey.Conveyor.{
  Conveyor, read_msg_mapping_err, read_type_byte, write_bytes, callback, read_backend,
  read_frontend, read_backend_type_byte, read_frontend_type_byte, write_backend, write_frontend,
  read_through, read_backend_through, read_frontend_through,
}
use postgread.Convey.Moves.{length_and_body, other}
use postgread.Convey.Flow.{
  Up, IsOpen, waiting, unwrap-Gets, mapped-Gets, type_byte-Gets, write_bytes-Gets,
}

module _ {front back : Channel} (fu : Up front) (bu : Up back) where
  abbrev pub waiting_from : Side → Conveyor front back → List ℕ
  waiting_from backend c = waiting bu c.backend
  waiting_from frontend c = waiting fu c.frontend

  abbrev pub AreOpen : Conveyor front back → Type 0
  AreOpen c = IsOpen c.frontend × IsOpen c.backend

  -- The result of a step that takes `bytes` of what waits from a side, leaves `rest`, takes nothing
  -- from the other side, and logs `messages`.
  abbrev pub Flowed :
      {A : Type 0}
      → Side
      → Stateful (Conveyor front back) Exit A
      → A
      → List Message
      → List ℕ
      → Conveyor front back
      → Type 0
  Flowed side d a messages rest c =
      ((d c).0 ≡ ok a)
      × (waiting_from side (d c).1 ≡ rest)
      × (waiting_from (other side) (d c).1 ≡ waiting_from (other side) c)
      × ((d c).1.log ≡ c.log ++ messages)
      × AreOpen (d c).1

  abbrev pub Flows :
      {A : Type 0}
      → Side
      → Stateful (Conveyor front back) Exit A
      → List ℕ
      → A
      → List Message
      → Type 0
  Flows side d bytes a messages =
      (rest : List ℕ) (c : Conveyor front back)
      → AreOpen c
      → waiting_from side c ≡ bytes ++ rest
      → Flowed side d a messages rest c

  pub Flows-pure : {A : Type 0} (side : Side) (a : A) → Flows side (pure a) [] a []
  Flows-pure side a rest c o h = (refl, h, refl, sym (append-nil c.log), o)

  pub Flows-bind :
      {A B : Type 0} (side : Side) (d : Stateful (Conveyor front back) Exit A)
      (f : A → Stateful (Conveyor front back) Exit B) (u v : List ℕ) (a : A) (b : B)
      (xs ys : List Message)
      → Flows side d u a xs
      → Flows side (f a) v b ys
      → Flows side (d >>= f) (u ++ v) b (xs ++ ys)
  Flows-bind side d f u v a b xs ys gd gf rest c o h =
      let (e, left, still, logged, o') = gd (v ++ rest) c o (h ∙ append_assoc u v rest) in
      let (e', left', still', logged', o'') = gf rest (d c).1 o' left in
      rw e (e', left', still' ∙ still, rw (logged', logged, append_assoc) refl, o'')

  -- A step, and a value for its result.
  pub Flows-map :
      {A B : Type 0} (side : Side) (d : Stateful (Conveyor front back) Exit A) (bytes : List ℕ)
      (a : A) (b : B) (messages : List Message)
      → Flows side d bytes a messages
      → Flows side (d >>= λ _. pure b) bytes b messages
  Flows-map side d bytes a b messages g rest c o h =
      let (e, left, still, logged, o') = g rest c o h in rw e (refl, left, still, logged, o')

  callback-Flows :
      (side : Side) (message : Message) → Flows side (callback message) [] tt (message ∷ [])
  unfolding callback
  callback-Flows backend message rest c o h = (refl, h, refl, refl, o)
  callback-Flows frontend message rest c o h = (refl, h, refl, refl, o)

  read_backend-Flows :
      {Msg : Type 0} (m : MsgDecode Msg) (body : List ℕ) (msg : Msg)
      → AllBytes body
      → Fits m.type_byte_opt (4 + length body)
      → decode_msg m body ≡ ok msg
      → Flows backend (read_backend m) (length_and_body body) ((data_of m body).bytes, msg) []
  unfolding read_backend
  read_backend-Flows m body msg all fits decoded rest c o h =
      let (got, left, o') =
        unwrap-Gets bu (read_msg_mapping_err m) (length_and_body body) ((data_of m body).bytes, msg)
          (λ S io u. mapped-Gets u m body msg all fits decoded) rest c.backend o.1 h in
      (got, left, refl, sym (append-nil c.log), (o.0, o'))

  read_frontend-Flows :
      {Msg : Type 0} (m : MsgDecode Msg) (body : List ℕ) (msg : Msg)
      → AllBytes body
      → Fits m.type_byte_opt (4 + length body)
      → decode_msg m body ≡ ok msg
      → Flows frontend (read_frontend m) (length_and_body body) ((data_of m body).bytes, msg) []
  unfolding read_frontend
  read_frontend-Flows m body msg all fits decoded rest c o h =
      let (got, left, o') =
        unwrap-Gets fu (read_msg_mapping_err m) (length_and_body body) ((data_of m body).bytes, msg)
          (λ S io u. mapped-Gets u m body msg all fits decoded) rest c.frontend o.0 h in
      (got, left, refl, sym (append-nil c.log), (o', o.1))

  pub read_backend_type_byte-Flows :
      (n : ℕ) → n < 256 → Flows backend read_backend_type_byte (u8_bytes n) n []
  unfolding read_backend_type_byte
  read_backend_type_byte-Flows n l rest c o h =
      let (got, left, o') =
        unwrap-Gets bu read_type_byte (u8_bytes n) n (λ S io u. type_byte-Gets u n l) rest c.backend
          o.1 h in
      (got, left, refl, sym (append-nil c.log), (o.0, o'))

  pub read_frontend_type_byte-Flows :
      (n : ℕ) → n < 256 → Flows frontend read_frontend_type_byte (u8_bytes n) n []
  unfolding read_frontend_type_byte
  read_frontend_type_byte-Flows n l rest c o h =
      let (got, left, o') =
        unwrap-Gets fu read_type_byte (u8_bytes n) n (λ S io u. type_byte-Gets u n l) rest
          c.frontend o.0 h in
      (got, left, refl, sym (append-nil c.log), (o', o.1))

  -- A write of one side's bytes goes out on the other.
  write_frontend-Flows : (bytes : List ℕ) → Flows backend (write_frontend bytes) [] tt []
  unfolding write_frontend
  write_frontend-Flows bytes rest c o h =
      let (went, left, o') =
        unwrap-Gets fu (write_bytes bytes) [] tt (λ S io u. write_bytes-Gets u bytes)
          (waiting fu c.frontend) c.frontend o.0 refl in
      (went, h, left, sym (append-nil c.log), (o', o.1))

  write_backend-Flows : (bytes : List ℕ) → Flows frontend (write_backend bytes) [] tt []
  unfolding write_backend
  write_backend-Flows bytes rest c o h =
      let (went, left, o') =
        unwrap-Gets bu (write_bytes bytes) [] tt (λ S io u. write_bytes-Gets u bytes)
          (waiting bu c.backend) c.backend o.1 refl in
      (went, h, left, sym (append-nil c.log), (o.0, o'))

  -- The three steps of `read_through!`.
  read_through-Flows :
      {Msg : Type 0} (side : Side) (read : Stateful (Conveyor front back) Exit (List ℕ × Msg))
      (wrap : Msg → Message) (write : List ℕ → Stateful (Conveyor front back) Exit (Unit {0}))
      (bytes sent : List ℕ) (msg : Msg)
      → Flows side read bytes (sent, msg) []
      → ((b : List ℕ) → Flows side (write b) [] tt [])
      → Flows side (read_through read wrap write) bytes msg (wrap msg ∷ [])
  unfolding read_through
  read_through-Flows {Msg} side read wrap write bytes sent msg r w rest c o h =
      let finish = λ (got : List ℕ × Msg). write got.0 >>= λ _. pure got.1 in
      Flows-bind side read (λ got. callback (wrap got.1) >> finish got) bytes [] (sent, msg) msg []
        (wrap msg ∷ []) r
        (Flows-bind side (callback (wrap msg)) (λ _. finish (sent, msg)) [] [] tt msg
          (wrap msg ∷ []) [] (callback-Flows side (wrap msg))
          (Flows-bind side (write sent) (λ _. pure msg) [] [] tt msg [] [] (w sent)
            (Flows-pure side msg)))
        rest c o (h ∙ ap (λ b. b ++ rest) (sym (append-nil bytes)))

  pub read_backend_through-Flows :
      {Msg : Type 0} (m : MsgDecode Msg) (wrap : Msg → BackendMsg) (body : List ℕ) (msg : Msg)
      → AllBytes body
      → Fits m.type_byte_opt (4 + length body)
      → decode_msg m body ≡ ok msg
      → Flows backend
          (read_backend_through m wrap)
          (length_and_body body)
          msg
          (Message.backend (wrap msg) ∷ [])
  unfolding read_backend_through
  read_backend_through-Flows m wrap body msg all fits decoded =
      read_through-Flows backend (read_backend m) (λ msg. Message.backend (wrap msg)) write_frontend
        (length_and_body body) (data_of m body).bytes msg
        (read_backend-Flows m body msg all fits decoded) write_frontend-Flows

  pub read_frontend_through-Flows :
      {Msg : Type 0} (m : MsgDecode Msg) (wrap : Msg → FrontendMsg) (body : List ℕ) (msg : Msg)
      → AllBytes body
      → Fits m.type_byte_opt (4 + length body)
      → decode_msg m body ≡ ok msg
      → Flows frontend
          (read_frontend_through m wrap)
          (length_and_body body)
          msg
          (Message.frontend (wrap msg) ∷ [])
  unfolding read_frontend_through
  read_frontend_through-Flows m wrap body msg all fits decoded =
      read_through-Flows frontend (read_frontend m) (λ msg. Message.frontend (wrap msg))
        write_backend (length_and_body body) (data_of m body).bytes msg
        (read_frontend-Flows m body msg all fits decoded) write_backend-Flows
