-- ===== src/Convey/Frames.antt =====
-- What stands on the wire for each message of src/convey.rs.
use postgread.Prelude.{ℕ, ◌≡◌, refl, sym, List, [], ◌∷◌, ◌++◌, ok, All, append-nil, append_assoc}
use postgread.Msg.Decode.{MsgDecode}
use postgread.Msg.Read.{decode_msg}
use postgread.Msg.Read.Header.{type_bytes}
use postgread.Msg.Body.Authentication.{authentication_msg}
use postgread.Msg.Body.Credentials.{
  gss_response_msg, password_msg, sasl_initial_response_msg, sasl_response_msg,
}
use postgread.Msg.Body.ErrorAndNotice.{error_response_msg, notice_response_msg}
use postgread.Msg.Body.Initial.{initial_msg}
use postgread.Msg.Body.Rows.{command_complete_msg, data_row_msg, row_description_msg}
use postgread.Msg.Body.Signals.{
  bind_complete_msg, empty_query_response_msg, parse_complete_msg, portal_suspended_msg, sync_msg,
  terminate_msg,
}
use postgread.Msg.Body.Statements.{bind_msg, execute_msg, parse_msg, query_msg}
use postgread.Msg.Body.Status.{
  backend_key_data_msg, negotiate_protocol_version_msg, parameter_status_msg, ready_for_query_msg,
}
use postgread.Convey.State.{Side, backend, frontend}
use postgread.Convey.Message.{BackendMsg, FrontendMsg, Message}
use postgread.Convey.Stream.{Channel}
use postgread.Convey.Conveyor.{Conveyor}
use postgread.Convey.Moves.{Moved, length_and_body, other, received_from, sent_to}

-- The type, the length, and a body that decodes to the message.
abbrev pub Carries : {Msg : Type 0} → MsgDecode Msg → Msg → List ℕ → Type 0
Carries m msg bytes =
    (body : List ℕ) × (bytes ≡ type_bytes m.type_byte_opt ++ length_and_body body)
    × (decode_msg m body ≡ ok msg)

abbrev pub IsBackendFrame : BackendMsg → List ℕ → Type 0
IsBackendFrame (BackendMsg.authentication x) = Carries authentication_msg x
IsBackendFrame (BackendMsg.backend_key_data x) = Carries backend_key_data_msg x
IsBackendFrame (BackendMsg.bind_complete x) = Carries bind_complete_msg x
IsBackendFrame (BackendMsg.command_complete x) = Carries command_complete_msg x
IsBackendFrame (BackendMsg.data_row x) = Carries data_row_msg x
IsBackendFrame (BackendMsg.empty_query_response x) = Carries empty_query_response_msg x
IsBackendFrame (BackendMsg.error_response x) = Carries error_response_msg x
IsBackendFrame (BackendMsg.negotiate_protocol_version x) = Carries negotiate_protocol_version_msg x
IsBackendFrame (BackendMsg.notice_response x) = Carries notice_response_msg x
IsBackendFrame (BackendMsg.parameter_status x) = Carries parameter_status_msg x
IsBackendFrame (BackendMsg.parse_complete x) = Carries parse_complete_msg x
IsBackendFrame (BackendMsg.portal_suspended x) = Carries portal_suspended_msg x
IsBackendFrame (BackendMsg.ready_for_query x) = Carries ready_for_query_msg x
IsBackendFrame (BackendMsg.row_description x) = Carries row_description_msg x

abbrev pub IsFrontendFrame : FrontendMsg → List ℕ → Type 0
IsFrontendFrame (FrontendMsg.bind x) = Carries bind_msg x
IsFrontendFrame (FrontendMsg.execute x) = Carries execute_msg x
IsFrontendFrame (FrontendMsg.gss_response x) = Carries gss_response_msg x
IsFrontendFrame (FrontendMsg.initial x) = Carries initial_msg x
IsFrontendFrame (FrontendMsg.parse x) = Carries parse_msg x
IsFrontendFrame (FrontendMsg.password x) = Carries password_msg x
IsFrontendFrame (FrontendMsg.query x) = Carries query_msg x
IsFrontendFrame (FrontendMsg.sasl_initial_response x) = Carries sasl_initial_response_msg x
IsFrontendFrame (FrontendMsg.sasl_response x) = Carries sasl_response_msg x
IsFrontendFrame (FrontendMsg.sync x) = Carries sync_msg x
IsFrontendFrame (FrontendMsg.terminate x) = Carries terminate_msg x

-- A message and the bytes that it stands in.
abbrev pub Frame : Type 0
Frame = Message × List ℕ

abbrev pub IsFrame : Frame → Type 0
IsFrame (Message.backend x, bytes) = IsBackendFrame x bytes
IsFrame (Message.frontend x, bytes) = IsFrontendFrame x bytes

abbrev pub side_of : Message → Side
side_of (Message.backend x) = backend
side_of (Message.frontend x) = frontend

abbrev pub bytes_if : Side → Side → List ℕ → List ℕ
bytes_if backend backend bytes = bytes
bytes_if frontend frontend bytes = bytes
bytes_if backend frontend bytes = []
bytes_if frontend backend bytes = []

-- The bytes of those frames that come from a side, in their order.
abbrev pub bytes_from : Side → List Frame → List ℕ
bytes_from side [] = []
bytes_from side ((message, bytes) ∷ frames) =
    bytes_if side (side_of message) bytes ++ bytes_from side frames

abbrev pub messages_of : List Frame → List Message
messages_of [] = []
messages_of ((message, bytes) ∷ frames) = message ∷ messages_of frames

bytes_from-append :
    (side : Side) (xs ys : List Frame)
    → bytes_from side (xs ++ ys) ≡ bytes_from side xs ++ bytes_from side ys
bytes_from-append side [] ys = refl
bytes_from-append side ((message, bytes) ∷ xs) ys = rw (bytes_from-append side xs ys, append_assoc)

messages_of-append :
    (xs ys : List Frame) → messages_of (xs ++ ys) ≡ messages_of xs ++ messages_of ys
messages_of-append [] ys = refl
messages_of-append ((message, bytes) ∷ xs) ys = rw (messages_of-append xs ys)

All-append : (xs ys : List Frame) → All IsFrame xs → All IsFrame ys → All IsFrame (xs ++ ys)
All-append [] ys h k = k
All-append (x ∷ xs) ys (a, h) k = (a, All-append xs ys h k)

module _ {front back : Channel} where
  -- Just those frames have gone from each side to the other, and the callback was called with just
  -- their messages.
  abbrev pub Passed : List Frame → Conveyor front back → Conveyor front back → Type 0
  Passed frames c c' =
      All IsFrame frames
      × (c'.log ≡ c.log ++ messages_of frames)
      × ((side : Side) → received_from side c' ≡ received_from side c ++ bytes_from side frames)
      × ((side : Side) → sent_to (other side) c' ≡ sent_to (other side) c ++ bytes_from side frames)

  pub Passed-none : (c : Conveyor front back) → Passed [] c c
  Passed-none c = (tt, sym (append-nil _), λ side. sym (append-nil _), λ side. sym (append-nil _))

  pub Passed-append :
      (xs ys : List Frame) (c c' c'' : Conveyor front back)
      → Passed xs c c'
      → Passed ys c' c''
      → Passed (xs ++ ys) c c''
  Passed-append xs ys c c' c'' (h, l, r, s) (h', l', r', s') = (
    All-append xs ys h h',
    rw (l', l, messages_of-append xs ys, append_assoc),
    λ side. rw (r' side, r side, bytes_from-append side xs ys, append_assoc),
    λ side. rw (s' side, s side, bytes_from-append side xs ys, append_assoc),
  )

  -- One frame, where nothing has moved in the other direction.
  pub Passed-one :
      (frame : Frame) (c c' : Conveyor front back)
      → IsFrame frame
      → Moved (side_of frame.0) frame.1 frame.1 (frame.0 ∷ []) c c'
      → Passed (frame ∷ []) c c'
  Passed-one (Message.backend x, bytes) c c' h (came, went, logged, still, quiet) =
      ((h, tt), logged, received, sent)
    where
      received :
          (side : Side)
          → received_from side c'
            ≡ received_from side c ++ bytes_from side ((Message.backend x, bytes) ∷ [])
      received backend = rw (append-nil bytes) came
      received frontend = rw (append-nil (received_from frontend c)) still

      sent :
          (side : Side)
          → sent_to (other side) c'
            ≡ sent_to (other side) c ++ bytes_from side ((Message.backend x, bytes) ∷ [])
      sent backend = rw (append-nil bytes) went
      sent frontend = rw (append-nil (sent_to backend c)) quiet
  Passed-one (Message.frontend x, bytes) c c' h (came, went, logged, still, quiet) =
      ((h, tt), logged, received, sent)
    where
      received :
          (side : Side)
          → received_from side c'
            ≡ received_from side c ++ bytes_from side ((Message.frontend x, bytes) ∷ [])
      received frontend = rw (append-nil bytes) came
      received backend = rw (append-nil (received_from backend c)) still

      sent :
          (side : Side)
          → sent_to (other side) c'
            ≡ sent_to (other side) c ++ bytes_from side ((Message.frontend x, bytes) ∷ [])
      sent frontend = rw (append-nil bytes) went
      sent backend = rw (append-nil (sent_to frontend c)) quiet
