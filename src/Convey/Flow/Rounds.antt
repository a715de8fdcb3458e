-- ===== src/Convey/Flow/Rounds.antt =====
-- A conversation that the states of src/convey.rs allow is conveyed to its end.
use postgread.Prelude.{
  ℕ, ◌<◌, ◌≡◌, refl, sym, ap, ◌∙◌, List, [], ◌∷◌, ◌++◌, Option, none, some, ok, u8_bytes, arith,
  All, append-nil, append_assoc,
}
use postgread.Msg.TypeByte.{TypeByte, into, try_from, try_from-into}
use postgread.Convey.State.{Side, backend, frontend, State}
use postgread.Convey.Message.{Message}
use postgread.Convey.Stream.{Channel}
use postgread.Convey.Dispatch.{dispatch}
use postgread.Convey.Conveyor.{Conveyor}
use postgread.Convey.Moves.{length_and_body}
use postgread.Convey.Go.{
  read_side_type_byte, known_type, read_type_byte_from_both, run_arm, round, conveying,
}
use postgread.Convey.Protocol.{kind_of}
use postgread.Convey.Frames.{Frame, IsFrame, side_of, bytes_from, messages_of}
use postgread.Convey.Flow.{Up}
use postgread.Convey.Flow.Calls.{
  waiting_from, AreOpen, Flows, Flows-bind, read_backend_type_byte-Flows,
  read_frontend_type_byte-Flows,
}
use postgread.Convey.Flow.Relay.{IsSendable}
use postgread.Convey.Converse.{type_byte_of, Advances, Converses, sides_of}
use postgread.Convey.Flow.Arms.{answered-Flows}

pub into_bound : (t : TypeByte) → into t < 256
unfolding into
into_bound t = ground arith

module _ {front back : Channel} (fu : Up front) (bu : Up back) where
  read_side_type_byte-Flows :
      (side : Side) (n : ℕ)
      → n < 256
      → Flows fu bu side (read_side_type_byte side) (u8_bytes n) n []
  unfolding read_side_type_byte
  read_side_type_byte-Flows backend n h = read_backend_type_byte-Flows fu bu n h
  read_side_type_byte-Flows frontend n h = read_frontend_type_byte-Flows fu bu n h

  known_type-Flows :
      (side : Side) (t : TypeByte)
      → Flows fu bu side (known_type side (into t) (try_from (into t))) [] t []
  unfolding known_type
  known_type-Flows side t rest c o h =
      rw (try_from-into t) (refl, h, refl, sym (append-nil c.log), o)

  type_byte-Flows :
      (side : Side) (t : TypeByte)
      → Flows fu bu side (read_type_byte_from_both side) (u8_bytes (into t)) t []
  unfolding read_type_byte_from_both
  type_byte-Flows side t rest c o h =
      Flows-bind fu bu side (read_side_type_byte side)
        (λ byte. known_type side byte (try_from byte)) (u8_bytes (into t)) [] (into t) t [] []
        (read_side_type_byte-Flows side (into t) (into_bound t)) (known_type-Flows side t) rest c o
        (h ∙ ap (λ b. b ++ rest) (sym (append-nil (u8_bytes (into t)))))

  -- A message that the state allows is relayed by one round.
  pub round-Flows :
      (message : Message) (bytes : List ℕ) (state : State) (next : Option State)
      → IsFrame (message, bytes)
      → IsSendable bytes
      → Advances state message next
      → Flows fu bu (side_of message) (round (side_of message) state) bytes next (message ∷ [])
  unfolding round
  round-Flows message bytes state next carried sendable advances rest c o h =
      let side = side_of message in
      let (t, (body, framed, flows)) =
        answered-Flows fu bu (kind_of message) (type_byte_of (kind_of message)) message bytes state
          next refl refl carried sendable advances in
      Flows-bind fu bu side (read_type_byte_from_both side)
        (λ t. run_arm side t state (dispatch side t state)) (u8_bytes (into t))
        (length_and_body body) t next [] (message ∷ []) (type_byte-Flows side t) flows rest c o
        (h ∙ ap (λ b. b ++ rest) framed)

  -- The round of the first frame, where frames have arrived from both sides.
  round-arrived :
      (message : Message) (bytes : List ℕ) (frames : List Frame) (state : State)
      (next : Option State) (c : Conveyor front back) (rest : Side → List ℕ)
      → IsFrame (message, bytes)
      → IsSendable bytes
      → Advances state message next
      → AreOpen fu bu c
      → ((side : Side)
          → waiting_from fu bu side c ≡ bytes_from side ((message, bytes) ∷ frames) ++ rest side)
      → let c' = (round (side_of message) state c).1 in
        ((round (side_of message) state c).0 ≡ ok next)
        × (c'.log ≡ c.log ++ message ∷ [])
        × AreOpen fu bu c'
        × ((side : Side) → waiting_from fu bu side c' ≡ bytes_from side frames ++ rest side)
  round-arrived (Message.backend x) bytes frames state next c rest f s a o w =
      let (got, left, still, logged, o') =
        round-Flows (Message.backend x) bytes state next f s a
          (bytes_from backend frames ++ rest backend) c o
          (w backend ∙ append_assoc bytes (bytes_from backend frames) (rest backend)) in
      (
        got,
        logged,
        o',
        λ side.
            elim side
              as (λ k.
                waiting_from fu bu k (round backend state c).1 ≡ bytes_from k frames ++ rest k) [
                  | backend ↦ left
                  | frontend ↦ still ∙ w frontend
                ],
      )
  round-arrived (Message.frontend x) bytes frames state next c rest f s a o w =
      let (got, left, still, logged, o') =
        round-Flows (Message.frontend x) bytes state next f s a
          (bytes_from frontend frames ++ rest frontend) c o
          (w frontend ∙ append_assoc bytes (bytes_from frontend frames) (rest frontend)) in
      (
        got,
        logged,
        o',
        λ side.
            elim side
              as (λ k.
                waiting_from fu bu k (round frontend state c).1 ≡ bytes_from k frames ++ rest k) [
                  | backend ↦ still ∙ w backend
                  | frontend ↦ left
                ],
      )

  -- Both streams are up, and a conversation of whole messages that the table of states allows has
  -- arrived on them: in the turns of that conversation the loop conveys it to its end, with no error.
  -- It takes just these messages, leaves what is behind them, and calls the callback with each.
  pub conveying-Converses :
      (frames : List Frame) (state next : Option State) (c : Conveyor front back)
      (rest : Side → List ℕ)
      → All IsFrame frames
      → All (λ frame. IsSendable frame.1) frames
      → Converses state frames next
      → AreOpen fu bu c
      → ((side : Side) → waiting_from fu bu side c ≡ bytes_from side frames ++ rest side)
      → ((conveying (sides_of frames) state c).0 ≡ ok next)
        × ((conveying (sides_of frames) state c).1.log ≡ c.log ++ messages_of frames)
        × ((side : Side)
            → waiting_from fu bu side (conveying (sides_of frames) state c).1 ≡ rest side)
  unfolding conveying
  conveying-Converses [] none next c rest framed sendable e o w =
      (ap ok e, sym (append-nil c.log), w)
  conveying-Converses [] (some state) next c rest framed sendable e o w =
      (ap ok e, sym (append-nil c.log), w)
  conveying-Converses (frame ∷ frames) none next c rest framed sendable e o w = absurd e
  conveying-Converses ((message, bytes) ∷ frames) (some state) next c rest (f, framed) (s, sendable)
        (mid, a, more) o w =
      let side = side_of message in
      let (got, logged, o', w') = round-arrived message bytes frames state mid c rest f s a o w in
      let (got', logged', w'') =
        conveying-Converses frames mid next (round side state c).1 rest framed sendable more o'
          w' in
      rw got (got', rw (logged', logged, append_assoc) refl, w'')
