-- ===== src/Convey/Mirror.antt =====
-- The loop of `go` of src/convey.rs passes on every message as it came.
use postgread.Prelude.Outcome.{>>=-eq-ok, pure}
use postgread.Prelude.{
  ℕ, ◌≡◌, refl, ap, ◌∙◌, List, [], ◌∷◌, ◌++◌, Option, none, some, Result, ok, err, u8_bytes,
  append-nil, append_assoc,
}
use postgread.Msg.TypeByte.{TypeByte, into, try_from, into-try_from}
use postgread.Msg.Read.Header.{type_bytes}
use postgread.Msg.Body.Authentication.{authentication_msg}
use postgread.Convey.State.{Side, backend, frontend, State, Exit, failed}
use postgread.Convey.Message.{BackendMsg, Message}
use postgread.Convey.Stream.{Channel}
use postgread.Convey.Dispatch.{
  Arm, process_authentication, backend_through, frontend_through, last_backend, last_frontend,
  unexpected, dispatch, authenticate,
}
use postgread.Convey.Conveyor.{Conveyor, read_backend_through}
use postgread.Convey.Moves.{
  Moved, length_and_body, read_backend_type_byte_lem, read_frontend_type_byte_lem,
}
use postgread.Convey.Go.{
  of_result, relay_backend, relay_frontend, process_backend_authentication, read_side_type_byte,
  known_type, read_type_byte_from_both, run_arm, round, conveying,
}
use postgread.Convey.Protocol.{
  kind_of, follow, follow_all, phase_of, phase_after, Simulates, dispatch-Simulates,
  authenticate-ask,
}
use postgread.Convey.Table.{Agrees, dispatch-Agrees}
use postgread.Convey.Frames.{Frame, messages_of, Passed, Passed-none, Passed-append, Passed-one}
use postgread.Convey.Relay.{Relays, backend-Relays, relay_backend_lem, relay_frontend_lem}

module _ {front back : Channel} where
  read_side_type_byte_lem :
      (side : Side) (c : Conveyor front back) {n : ℕ}
      → (read_side_type_byte side c).0 ≡ ok n
      → Moved side (u8_bytes n) [] [] c (read_side_type_byte side c).1
  unfolding read_side_type_byte
  read_side_type_byte_lem backend c h = read_backend_type_byte_lem c h
  read_side_type_byte_lem frontend c h = read_frontend_type_byte_lem c h

  known_type_lem :
      (side : Side) (byte : ℕ) (o : Option TypeByte) (c : Conveyor front back)
      {type_byte : TypeByte}
      → (known_type side byte o c).0 ≡ ok type_byte
      → (o ≡ some type_byte) × ((known_type side byte o c).1 ≡ c)
  unfolding known_type
  known_type_lem side byte (some t) c h = (cc, refl)
  known_type_lem side byte none c h = cc

  type_byte_lem :
      (side : Side) (c : Conveyor front back) {type_byte : TypeByte}
      → (read_type_byte_from_both side c).0 ≡ ok type_byte
      → Moved side (u8_bytes (into type_byte)) [] [] c (read_type_byte_from_both side c).1
  unfolding read_type_byte_from_both
  type_byte_lem side c {type_byte} h =
      let (n, e, k) =
        >>=-eq-ok (read_side_type_byte side) (λ byte. known_type side byte (try_from byte)) c h in
      let c' = (read_side_type_byte side c).1 in
      let (known, same) = known_type_lem side n (try_from n) c' (rw k at h) in
      rw (k, same, into-try_from n type_byte known) (read_side_type_byte_lem side c e)

  -- The type byte, and then the rest of the frame.
  Passed-relayed :
      (side : Side) (type_byte : TypeByte) (message : Message) (c c' c'' : Conveyor front back)
      → Moved side (u8_bytes (into type_byte)) [] [] c c'
      → Relays side type_byte message c' c''
      → (bytes : List ℕ) × Passed ((message, bytes) ∷ []) c c''
  Passed-relayed side type_byte message c c' c'' (came, went, logged, still, quiet)
        (body, from, framed, (came', went', logged', still', quiet')) =
      let bytes = u8_bytes (into type_byte) ++ length_and_body body in
      (
        bytes,
        Passed-one (message, bytes) c c'' framed
            (rw from (
              rw (came', came, append_assoc),
              rw (went', went, append-nil),
              rw (logged', logged, append-nil),
              still' ∙ still,
              quiet' ∙ quiet,
            )),
      )

  of_result_lem :
      {A E : Type 0} (f : E → Exit) (r : Result E A) (c : Conveyor front back) {a : A}
      → (of_result f r c).0 ≡ ok a
      → (r ≡ ok a) × ((of_result f r c).1 ≡ c)
  unfolding of_result
  of_result_lem f (ok a) c h = (cc, refl)
  of_result_lem f (err e) c h = cc

  process_lem :
      (state : State) (c : Conveyor front back) {state' : State}
      → (process_backend_authentication state c).0 ≡ ok state'
      → (message : Message) × (follow (phase_of state) (kind_of message) ≡ some (phase_of state'))
        × Relays backend TypeByte.authentication message c
            (process_backend_authentication state c).1
  unfolding process_backend_authentication authentication_msg type_bytes
  process_lem state c {state'} h =
      let reading =
        read_backend_through {front = front} {back = back} authentication_msg
          BackendMsg.authentication in
      let (x, e, k) = >>=-eq-ok reading (λ x. of_result failed (authenticate x state)) c h in
      let (came, same) = of_result_lem failed (authenticate x state) (reading c).1 (rw k at h) in
      rw (k, same)
        (
          Message.backend (BackendMsg.authentication x),
          authenticate-ask x state state' came,
          backend-Relays authentication_msg BackendMsg.authentication TypeByte.authentication refl
              (λ msg bytes k. k) c e,
        )

  run_arm_lem :
      (side : Side) (type_byte : TypeByte) (state : State) (arm : Arm) (c : Conveyor front back)
      {next : Option State}
      → Agrees side type_byte arm
      → Simulates state arm
      → (run_arm side type_byte state arm c).0 ≡ ok next
      → (message : Message) × (follow (phase_of state) (kind_of message) ≡ some (phase_after next))
        × Relays side type_byte message c (run_arm side type_byte state arm c).1
  unfolding run_arm
  run_arm_lem side type_byte state process_authentication c {next} (s, t) v h =
      let (x, e, k) =
        >>=-eq-ok (process_backend_authentication state) (λ state'. pure (some state')) c h in
      let same : some x ≡ next = cc (rw k at h) in
      let (message, f, relayed) = process_lem state c e in
      rw (k, s, ← t) (message, f ∙ ap (λ o. some (phase_after o)) same, relayed)
  run_arm_lem side type_byte state (backend_through t state') c {next} (s, b) v h =
      let (u, e, k) = >>=-eq-ok (relay_backend t) (λ _. pure (some state')) c h in
      let same : some state' ≡ next = cc (rw k at h) in
      let (message, kind, relayed) = relay_backend_lem t c e in
      rw (k, s, ← b) (message, rw kind (v ∙ ap (λ o. some (phase_after o)) same), relayed)
  run_arm_lem side type_byte state (frontend_through t state') c {next} (s, b) v h =
      let (u, e, k) = >>=-eq-ok (relay_frontend t) (λ _. pure (some state')) c h in
      let same : some state' ≡ next = cc (rw k at h) in
      let (message, kind, relayed) = relay_frontend_lem t c e in
      rw (k, s, ← b) (message, rw kind (v ∙ ap (λ o. some (phase_after o)) same), relayed)
  run_arm_lem side type_byte state (last_backend t) c {next} (s, b) v h =
      let (u, e, k) = >>=-eq-ok (relay_backend t) (λ _. pure none) c h in
      let same : none ≡ next = cc (rw k at h) in
      let (message, kind, relayed) = relay_backend_lem t c e in
      rw (k, s, ← b) (message, rw kind (v ∙ ap (λ o. some (phase_after o)) same), relayed)
  run_arm_lem side type_byte state (last_frontend t) c {next} (s, b) v h =
      let (u, e, k) = >>=-eq-ok (relay_frontend t) (λ _. pure none) c h in
      let same : none ≡ next = cc (rw k at h) in
      let (message, kind, relayed) = relay_frontend_lem t c e in
      rw (k, s, ← b) (message, rw kind (v ∙ ap (λ o. some (phase_after o)) same), relayed)
  run_arm_lem side type_byte state unexpected c a v h = cc

  -- A round that succeeds passes one message on, which follows the rules of the protocol.
  pub round_lem :
      (side : Side) (state : State) (c : Conveyor front back) {next : Option State}
      → (round side state c).0 ≡ ok next
      → (frame : Frame) × (follow (phase_of state) (kind_of frame.0) ≡ some (phase_after next))
        × Passed (frame ∷ []) c (round side state c).1
  unfolding round
  round_lem side state c h =
      let run = λ (t : TypeByte).
        run_arm {front = front} {back = back} side t state (dispatch side t state) in
      let (t, e, k) = >>=-eq-ok (read_type_byte_from_both side) run c h in
      let c' = (read_type_byte_from_both side c).1 in
      let (message, rules, relayed) =
        run_arm_lem side t state (dispatch side t state) c' (dispatch-Agrees side t state)
          (dispatch-Simulates side t state) (rw k at h) in
      let (bytes, passed) =
        Passed-relayed side t message c c' (run t c').1 (type_byte_lem side c e) relayed in
      rw k ((message, bytes), rules, passed)

  conveying_lem :
      (ready : List Side) (state : Option State) (c : Conveyor front back) {next : Option State}
      → (conveying ready state c).0 ≡ ok next
      → (frames : List Frame) × (follow_all (some (phase_after state)) (messages_of frames)
          ≡ some (phase_after next))
        × Passed frames c (conveying ready state c).1
  unfolding conveying
  conveying_lem ready none c {next} h =
      let same : none ≡ next = cc in ([], ap (λ o. some (phase_after o)) same, Passed-none c)
  conveying_lem [] (some state) c {next} h =
      let same : some state ≡ next = cc in ([], ap (λ o. some (phase_after o)) same, Passed-none c)
  conveying_lem (side ∷ ready) (some state) c h =
      let (next, e, k) = >>=-eq-ok (round side state) (conveying ready) c h in
      let c' = (round side state c).1 in
      let (frame, rule, first) = round_lem side state c e in
      let (frames, rules, others) = conveying_lem ready next c' (rw k at h) in
      rw k (
        frame ∷ frames,
        ap (λ o. follow_all o (messages_of frames)) rule ∙ rules,
        Passed-append (frame ∷ []) frames c c' (conveying ready next c').1 first others,
      )

  -- However the two sides take turns, as long as the loop reports no error, each side has been sent
  -- just what has come from the other: whole messages, in their order, with the bytes they came with.
  -- The callback was called with just what these bytes decode to, in the order of the conversation.
  pub conveying-Passed :
      (ready : List Side) (state : Option State) (c : Conveyor front back) {next : Option State}
      → (conveying ready state c).0 ≡ ok next
      → (frames : List Frame) × Passed frames c (conveying ready state c).1
  conveying-Passed ready state c h =
      let (frames, rules, passed) = conveying_lem ready state c h in (frames, passed)

  -- However the two sides take turns, as long as the loop reports no error, the messages that the
  -- callback was called with are a conversation that follows the rules of the protocol, from the phase
  -- of the state before to the phase of the state after.
  pub conveying-follow_all :
      (ready : List Side) (state : Option State) (c : Conveyor front back) {next : Option State}
      → (conveying ready state c).0 ≡ ok next
      → (messages : List Message) × ((conveying ready state c).1.log ≡ c.log ++ messages)
        × (follow_all (some (phase_after state)) messages ≡ some (phase_after next))
  conveying-follow_all ready state c h =
      let (frames, rules, (framed, logged, came, went)) = conveying_lem ready state c h in
      (messages_of frames, logged, rules)
