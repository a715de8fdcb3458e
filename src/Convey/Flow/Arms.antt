-- ===== src/Convey/Flow/Arms.antt =====
-- A message that the state allows goes through an arm of the match in `go` of src/convey.rs.
use postgread.Prelude.{
  ℕ, ◌≡◌, ◌≢◌, refl, List, [], ◌∷◌, ◌++◌, Option, none, some, ok, u8_bytes, arith,
}
use postgread.Msg.TypeByte.{TypeByte, into}
use postgread.Msg.Body.Authentication.{Authentication, authentication_msg}
use postgread.Convey.State.{backend, frontend, State}
use postgread.Convey.Message.{BackendMsg, FrontendMsg, Message}
use postgread.Convey.Stream.{Channel}
use postgread.Convey.Dispatch.{
  BackendType, FrontendType, Arm, process_authentication, backend_through, frontend_through,
  last_backend, last_frontend, unexpected, dispatch, authenticate,
}
use postgread.Convey.Conveyor.{read_backend_through}
use postgread.Convey.Moves.{length_and_body}
use postgread.Convey.Go.{
  relay_backend, relay_frontend, of_result, process_backend_authentication, run_arm,
}
use postgread.Convey.Protocol.{Kind, asks, says, hears, opens, kind_of}
use postgread.Convey.Table.{backend_type_byte, frontend_type_byte}
use postgread.Convey.Frames.{IsFrame, side_of}
use postgread.Convey.Flow.{Up}
use postgread.Convey.Flow.Calls.{Flows, Flows-map, read_backend_through-Flows}
use postgread.Convey.Flow.Relay.{IsSendable, frame_body, relay_backend-Flows, relay_frontend-Flows}
use postgread.Convey.Converse.{Takes, type_byte_of, Answers}

asks_message :
    (message : Message) (x : Authentication)
    → kind_of message ≡ asks x
    → message ≡ Message.backend (BackendMsg.authentication x)
asks_message message x h = ground arith

not_says : (x : FrontendMsg) (t : BackendType) → kind_of (Message.frontend x) ≢ says t
not_says x t h = ground arith

not_hears : (x : BackendMsg) (t : FrontendType) → kind_of (Message.backend x) ≢ hears t
not_hears x t h = ground arith

module _ {front back : Channel} (fu : Up front) (bu : Up back) where
  -- A frame behind its type byte, through an arm.
  abbrev pub ArmFlows : State → Arm → Message → List ℕ → TypeByte → Option State → Type 0
  ArmFlows state arm message bytes t next =
      (body : List ℕ) × (bytes ≡ u8_bytes (into t) ++ length_and_body body)
      × Flows fu bu (side_of message) (run_arm (side_of message) t state arm) (length_and_body body)
          next (message ∷ [])

  process-Flows :
      (x : Authentication) (bytes : List ℕ) (state state' : State)
      → IsFrame (Message.backend (BackendMsg.authentication x), bytes)
      → IsSendable bytes
      → authenticate x state ≡ ok state'
      → ArmFlows state process_authentication
          (Message.backend (BackendMsg.authentication x))
          bytes
          TypeByte.authentication
          (some state')
  unfolding run_arm process_backend_authentication authentication_msg of_result
  process-Flows x bytes state state' carried sendable a =
      let (body, framed, decoded, all, fits) =
        frame_body authentication_msg x TypeByte.authentication bytes refl carried sendable in
      (
        body,
        framed,
        λ rest c o h.
            let reading =
              read_backend_through {front = front} {back = back} authentication_msg
                BackendMsg.authentication in
            let (got, left, still, logged, o') =
              read_backend_through-Flows fu bu authentication_msg BackendMsg.authentication body x
                all fits decoded rest c o h in
            rw got (rw a (refl, left, still, logged, o')),
      )

  said-Flows :
      (t : BackendType) (message : Message) (bytes : List ℕ) (state : State) (arm : Arm)
      (next : Option State)
      → kind_of message ≡ says t
      → IsFrame (message, bytes)
      → IsSendable bytes
      → Takes state (says t) arm next
      → ArmFlows state arm message bytes (backend_type_byte t) next
  unfolding run_arm
  said-Flows t (Message.frontend x) bytes state arm next k carried sendable takes =
      absurd (not_says x t k)
  said-Flows t (Message.backend x) bytes state (backend_through t' state') next k carried sendable
        (e, e') =
      let (body, framed, flows) = relay_backend-Flows fu bu t x bytes k carried sendable in
      rw (← e, ← e')
        (
          body,
          framed,
          Flows-map fu bu backend (relay_backend t) (length_and_body body) tt (some state')
              (Message.backend x ∷ []) flows,
        )
  said-Flows t (Message.backend x) bytes state (last_backend t') next k carried sendable (e, e') =
      let (body, framed, flows) = relay_backend-Flows fu bu t x bytes k carried sendable in
      rw (← e, ← e')
        (
          body,
          framed,
          Flows-map fu bu backend (relay_backend t) (length_and_body body) tt none
              (Message.backend x ∷ []) flows,
        )
  said-Flows t (Message.backend x) bytes state process_authentication next k carried sendable
        takes =
      absurd takes
  said-Flows t (Message.backend x) bytes state (frontend_through t' s') next k carried sendable
        takes =
      absurd takes
  said-Flows t (Message.backend x) bytes state (last_frontend t') next k carried sendable takes =
      absurd takes
  said-Flows t (Message.backend x) bytes state unexpected next k carried sendable takes =
      absurd takes

  heard-Flows :
      (t : FrontendType) (message : Message) (bytes : List ℕ) (state : State) (arm : Arm)
      (next : Option State)
      → kind_of message ≡ hears t
      → IsFrame (message, bytes)
      → IsSendable bytes
      → Takes state (hears t) arm next
      → ArmFlows state arm message bytes (frontend_type_byte t) next
  unfolding run_arm
  heard-Flows t (Message.backend x) bytes state arm next k carried sendable takes =
      absurd (not_hears x t k)
  heard-Flows t (Message.frontend x) bytes state (frontend_through t' state') next k carried
        sendable (e, e') =
      let (body, framed, flows) = relay_frontend-Flows fu bu t x bytes k carried sendable in
      rw (← e, ← e')
        (
          body,
          framed,
          Flows-map fu bu frontend (relay_frontend t) (length_and_body body) tt (some state')
              (Message.frontend x ∷ []) flows,
        )
  heard-Flows t (Message.frontend x) bytes state (last_frontend t') next k carried sendable
        (e, e') =
      let (body, framed, flows) = relay_frontend-Flows fu bu t x bytes k carried sendable in
      rw (← e, ← e')
        (
          body,
          framed,
          Flows-map fu bu frontend (relay_frontend t) (length_and_body body) tt none
              (Message.frontend x ∷ []) flows,
        )
  heard-Flows t (Message.frontend x) bytes state process_authentication next k carried sendable
        takes =
      absurd takes
  heard-Flows t (Message.frontend x) bytes state (backend_through t' s') next k carried sendable
        takes =
      absurd takes
  heard-Flows t (Message.frontend x) bytes state (last_backend t') next k carried sendable takes =
      absurd takes
  heard-Flows t (Message.frontend x) bytes state unexpected next k carried sendable takes =
      absurd takes

  asked-Flows :
      (x : Authentication) (message : Message) (bytes : List ℕ) (state : State) (arm : Arm)
      (next : Option State)
      → kind_of message ≡ asks x
      → IsFrame (message, bytes)
      → IsSendable bytes
      → Takes state (asks x) arm next
      → ArmFlows state arm message bytes TypeByte.authentication next
  asked-Flows x message bytes state process_authentication next k carried sendable (state', a, e) =
      let same = asks_message message x k in
      rw (same, ← e) (process-Flows x bytes state state' (rw same at carried) sendable a)
  asked-Flows x message bytes state (backend_through t' s') next k carried sendable takes =
      absurd takes
  asked-Flows x message bytes state (frontend_through t' s') next k carried sendable takes =
      absurd takes
  asked-Flows x message bytes state (last_backend t') next k carried sendable takes = absurd takes
  asked-Flows x message bytes state (last_frontend t') next k carried sendable takes = absurd takes
  asked-Flows x message bytes state unexpected next k carried sendable takes = absurd takes

  pub answered-Flows :
      (kind : Kind) (o : Option TypeByte) (message : Message) (bytes : List ℕ) (state : State)
      (next : Option State)
      → kind_of message ≡ kind
      → type_byte_of kind ≡ o
      → IsFrame (message, bytes)
      → IsSendable bytes
      → Answers state (side_of message) kind o next
      → (t : TypeByte) × ArmFlows state (dispatch (side_of message) t state) message bytes t next
  answered-Flows (asks x) (some t) message bytes state next k e carried sendable takes =
      let same : TypeByte.authentication ≡ t = cc in
      (
        t,
        rw (← same) (
            asked-Flows x message bytes state
              (dispatch (side_of message) TypeByte.authentication state) next k carried sendable
              (rw (← same) at takes)),
      )
  answered-Flows (says y) (some t) message bytes state next k e carried sendable takes =
      let same : backend_type_byte y ≡ t = cc in
      (
        t,
        rw (← same) (
            said-Flows y message bytes state
              (dispatch (side_of message) (backend_type_byte y) state) next k carried sendable
              (rw (← same) at takes)),
      )
  answered-Flows (hears y) (some t) message bytes state next k e carried sendable takes =
      let same : frontend_type_byte y ≡ t = cc in
      (
        t,
        rw (← same) (
            heard-Flows y message bytes state
              (dispatch (side_of message) (frontend_type_byte y) state) next k carried sendable
              (rw (← same) at takes)),
      )
  answered-Flows (opens x) (some t) message bytes state next k e carried sendable takes = cc
  answered-Flows kind none message bytes state next k e carried sendable takes = absurd takes
