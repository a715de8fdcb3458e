-- ===== src/Convey/Converse.antt =====
-- The conversations that the table of states of src/convey.rs allows, message by message.
use postgread.Prelude.{◌≡◌, List, [], ◌∷◌, Option, none, some, ok}
use postgread.Msg.TypeByte.{TypeByte}
use postgread.Convey.State.{Side, State}
use postgread.Convey.Message.{Message}
use postgread.Convey.Dispatch.{
  Arm, process_authentication, backend_through, frontend_through, last_backend, last_frontend,
  dispatch, authenticate,
}
use postgread.Convey.Protocol.{Kind, asks, says, hears, opens, kind_of}
use postgread.Convey.Table.{backend_type_byte, frontend_type_byte}
use postgread.Convey.Frames.{Frame, side_of}

-- The arm takes a message of that kind, and leads on to `next`.
abbrev pub Takes : State → Kind → Arm → Option State → Type 0
Takes state (asks x) process_authentication next =
    (state' : State) × (authenticate x state ≡ ok state') × (some state' ≡ next)
Takes state (says t) (backend_through t' state') next = (t ≡ t') × (some state' ≡ next)
Takes state (says t) (last_backend t') next = (t ≡ t') × (none ≡ next)
Takes state (hears t) (frontend_through t' state') next = (t ≡ t') × (some state' ≡ next)
Takes state (hears t) (last_frontend t') next = (t ≡ t') × (none ≡ next)
Takes state kind arm next = ⊥

-- The type with which a message of that kind begins.
abbrev pub type_byte_of : Kind → Option TypeByte
type_byte_of (asks x) = some TypeByte.authentication
type_byte_of (says t) = some (backend_type_byte t)
type_byte_of (hears t) = some (frontend_type_byte t)
type_byte_of (opens x) = none

abbrev pub Answers : State → Side → Kind → Option TypeByte → Option State → Type 0
Answers state side kind (some type_byte) next =
    Takes state kind (dispatch side type_byte state) next
Answers state side kind none next = ⊥

-- The table of states has an arm for the message.
abbrev pub Advances : State → Message → Option State → Type 0
Advances state message next =
    Answers state (side_of message) (kind_of message) (type_byte_of (kind_of message)) next

-- The messages of the frames lead from state to state.
abbrev pub Converses : Option State → List Frame → Option State → Type 0
Converses state [] next = state ≡ next
Converses none (frame ∷ frames) next = ⊥
Converses (some state) ((message, bytes) ∷ frames) next =
    (state' : Option State) × Advances state message state' × Converses state' frames next

abbrev pub sides_of : List Frame → List Side
sides_of [] = []
sides_of ((message, bytes) ∷ frames) = side_of message ∷ sides_of frames
