-- ===== src/Tests/Liveness.antt =====
-- A conversation that arrives on streams in memory.
use postgread.Prelude.{ℕ, ◌≡◌, refl, List, [], ◌∷◌, ◌++◌, some, ok, All, arith, u8_bytes, u32_bytes}
use postgread.Msg.TypeByte.{into}
use postgread.Msg.Decode
use postgread.Msg.Decode.{take_bounded, take_u8, until_null, take_until_null, null_loop, left}
use postgread.Msg.Read.{check_left, check_body, decode_msg}
use postgread.Msg.Read.Header.{type_bytes}
use postgread.Msg.Body.Statements.{query_msg}
use postgread.Msg.Body.Signals.{EmptyQueryResponse, empty_query_response_msg}
use postgread.Msg.Body.Status.{ready_for_query_msg, decode_status, status_of, idle}
use postgread.Convey.State.{Side, backend, frontend, State}
use postgread.Convey.Message.{BackendMsg, FrontendMsg, Message}
use postgread.Convey.Dispatch.{dispatch}
use postgread.Convey.Conveyor.{Conveyor, new}
use postgread.Convey.Go.{conveying}
use postgread.Convey.Frames.{Frame, IsFrame, bytes_from, messages_of}
use postgread.Convey.Converse.{Converses, sides_of}
use postgread.Convey.Flow.Calls.{waiting_from}
use postgread.Convey.Flow.Relay.{IsSendable}
use postgread.Convey.Flow.Rounds.{conveying-Converses}
use postgread.Tests.ListStream.{list_channel, list_channel_up, coming}

abbrev query_frame : Frame
query_frame =
    (Message.frontend (FrontendMsg.query (record { query = [] })), b'Q' ∷ 0 ∷ 0 ∷ 0 ∷ 5 ∷ 0 ∷ [])

abbrev empty_frame : Frame
empty_frame = (
  Message.backend (BackendMsg.empty_query_response EmptyQueryResponse.empty_query_response),
  b'I' ∷ 0 ∷ 0 ∷ 0 ∷ 4 ∷ [],
)

abbrev ready_frame : Frame
ready_frame = (
  Message.backend (BackendMsg.ready_for_query (record { status = idle })),
  b'Z' ∷ 0 ∷ 0 ∷ 0 ∷ 5 ∷ b'I' ∷ [],
)

abbrev conversation : List Frame
conversation = query_frame ∷ empty_frame ∷ ready_frame ∷ []

conversation_framed : All IsFrame conversation
unfolding type_bytes u8_bytes u32_bytes into decode_msg check_body check_left Decode.new query_msg
    empty_query_response_msg ready_for_query_msg decode_status status_of take_bounded take_u8
    take_until_null until_null null_loop left
conversation_framed = ((0 ∷ [], refl, refl), (([], refl, refl), ((b'I' ∷ [], refl, refl), tt)))

conversation-IsSendable : All (λ frame. IsSendable frame.1) conversation
conversation-IsSendable = ground arith

conversation_allowed :
    Converses (some State.ready_for_query) conversation (some State.ready_for_query)
unfolding dispatch
conversation_allowed = (
  some State.got_simple_query,
  (refl, refl),
  (
    some State.seen_empty_simple_query,
    (refl, refl),
    (some State.ready_for_query, (refl, refl), refl),
  ),
)

-- Where it has arrived, with the start of another query behind it.
abbrev arrived : Conveyor list_channel list_channel
arrived =
    new (coming (bytes_from frontend conversation ++ b'Q' ∷ []))
      (coming (bytes_from backend conversation))

abbrev behind : Side → List ℕ
behind backend = []
behind frontend = b'Q' ∷ []

arrived_waits :
    (side : Side)
    → waiting_from list_channel_up list_channel_up side arrived
      ≡ bytes_from side conversation ++ behind side
unfolding new
arrived_waits backend = refl
arrived_waits frontend = refl

conveying-Converses_example :
    ((conveying (sides_of conversation) (some State.ready_for_query) arrived).0
      ≡ ok (some State.ready_for_query))
    × ((conveying (sides_of conversation) (some State.ready_for_query) arrived).1.log
        ≡ arrived.log ++ messages_of conversation)
    × ((side : Side)
        → waiting_from list_channel_up list_channel_up side
            (conveying (sides_of conversation) (some State.ready_for_query) arrived).1
          ≡ behind side)
unfolding new
conveying-Converses_example =
    conveying-Converses list_channel_up list_channel_up conversation (some State.ready_for_query)
      (some State.ready_for_query) arrived behind conversation_framed conversation-IsSendable
      conversation_allowed (tt, tt) arrived_waits
