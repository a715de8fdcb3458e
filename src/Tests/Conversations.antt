-- ===== src/Tests/Conversations.antt =====
-- Conversations of src/convey.rs over streams in memory.
use postgread.Prelude.{
  ℕ, ◌≡◌, refl, List, [], ◌∷◌, ◌++◌, ◌+◌, length, AllBytes, some, ok, err, u8_bytes, u32_bytes,
  arith,
}
use postgread.Msg.TypeByte.{TypeByte, into, try_from}
use postgread.Msg.Decode
use postgread.Msg.Decode.{take_bounded, take_u8, until_null, take_until_null, null_loop, left}
use postgread.Msg.Encode
use postgread.Msg.Encode.{put_bounded, put_u8, put_u32, rest, set, put_loop}
use postgread.Msg.AsyncIo.{read_u8, read_u32, read_and_drop, drop_loop}
use postgread.Msg.AsyncIo.Received.{read_and_drop_lem}
use postgread.Msg.Read
use postgread.Msg.Read.{
  read_msg, check_left, check_body, decode_msg, alloc_vec, put_header, ReadData, ReadError,
}
use postgread.Msg.Read.Frame.{read_msg_framed, read_msg_short, read_msg_wraps}
use postgread.Msg.Read.Header.{type_bytes}
use postgread.Msg.Body.Statements.{query_msg}
use postgread.Msg.Body.Signals.{empty_query_response_msg}
use postgread.Msg.Body.Status.{ReadyForQuery, ready_for_query_msg, decode_status, status_of}
use postgread.Convey.Message.{Message}
use postgread.Convey.State.{Side, backend, frontend, State, failed, unexpected_type}
use postgread.Convey.Stream.{unwrap_stream}
use postgread.Convey.Dispatch.{dispatch}
use postgread.Convey.Conveyor.{
  Conveyor, new, callback, read_msg_mapping_err, read_type_byte, write_bytes, read_backend,
  read_frontend, read_backend_type_byte, read_frontend_type_byte, write_backend, write_frontend,
  read_through, read_backend_through, read_frontend_through,
}
use postgread.Convey.Go.{
  relay_backend, relay_frontend, read_side_type_byte, known_type, read_type_byte_from_both, run_arm,
  round, conveying,
}
use postgread.Convey.Frames.{Frame, Passed}
use postgread.Convey.Protocol.{follow_all, phase_of}
use postgread.Convey.Gate.{round_out_of_turn}
use postgread.Convey.Mirror.{conveying-Passed, conveying-follow_all}
use postgread.Tests.ListStream.{ListStream, list_io, list_channel, coming}

-- The frontend sends an empty query, and the backend has its answer at hand.
abbrev start : Conveyor list_channel list_channel
start =
    new (coming (b'Q' ∷ 0 ∷ 0 ∷ 0 ∷ 5 ∷ 0 ∷ []))
      (coming (b'I' ∷ 0 ∷ 0 ∷ 0 ∷ 4 ∷ b'Z' ∷ 0 ∷ 0 ∷ 0 ∷ 5 ∷ b'I' ∷ []))

abbrev turns : List Side
turns = frontend ∷ backend ∷ backend ∷ []

turns_run : (conveying turns (some State.ready_for_query) start).0 ≡ ok (some State.ready_for_query)
unfolding conveying round read_type_byte_from_both read_side_type_byte known_type run_arm
    relay_backend relay_frontend read_backend_type_byte read_frontend_type_byte read_through
    read_backend_through read_frontend_through read_backend read_frontend write_backend
    write_frontend callback read_msg_mapping_err read_type_byte write_bytes unwrap_stream dispatch
    try_from read_msg read_u8 read_u32 alloc_vec put_header put_u8 put_u32 put_bounded put_loop set
    rest decode_msg check_left check_body Decode.new Encode.new query_msg empty_query_response_msg
    ready_for_query_msg decode_status status_of take_bounded take_u8 take_until_null until_null
    null_loop left into new u8_bytes u32_bytes
turns_run = refl

conveying-Passed_example :
    (frames : List Frame) × Passed frames start
      (conveying turns (some State.ready_for_query) start).1
conveying-Passed_example = conveying-Passed turns (some State.ready_for_query) start turns_run

conveying-follow_all_example :
    (messages : List Message) × ((conveying turns (some State.ready_for_query) start).1.log
      ≡ start.log ++ messages)
    × (follow_all (some (phase_of State.ready_for_query)) messages
        ≡ some (phase_of State.ready_for_query))
conveying-follow_all_example =
    conveying-follow_all turns (some State.ready_for_query) start turns_run

-- The frontend speaks while the backend answers.
out_of_turn_read : (read_type_byte_from_both frontend start).0 ≡ ok TypeByte.query
unfolding read_type_byte_from_both read_side_type_byte known_type read_frontend_type_byte
    read_type_byte unwrap_stream read_u8 try_from new
out_of_turn_read = refl

round_out_of_turn_example : round frontend State.got_simple_query start ≡ (
  err (failed (unexpected_type State.got_simple_query frontend TypeByte.query)),
  (read_type_byte_from_both frontend start).1,
)
round_out_of_turn_example = round_out_of_turn State.got_simple_query start refl out_of_turn_read

-- A stream that has one message on it, and one whose length does not count itself.
abbrev status_stream : ListStream
status_stream = coming (0 ∷ 0 ∷ 0 ∷ 5 ∷ b'I' ∷ [])

abbrev status_data : ReadData ReadyForQuery
status_data = record {
  bytes = b'Z' ∷ 0 ∷ 0 ∷ 0 ∷ 5 ∷ b'I' ∷ [];
  msg_result = decode_msg ready_for_query_msg (b'I' ∷ []);
}

status_run : (read_msg list_io ready_for_query_msg status_stream).0 ≡ ok status_data
unfolding read_msg read_u32 alloc_vec put_header put_u8 put_u32 put_bounded put_loop set rest
    Encode.new ready_for_query_msg into u8_bytes u32_bytes
status_run = refl

read_msg_framed_example :
    (body : List ℕ) × (status_data ≡ record {
      bytes = type_bytes ready_for_query_msg.type_byte_opt ++ (u32_bytes (4 + length body) ++ body);
      msg_result = decode_msg ready_for_query_msg body;
    })
    × AllBytes body
    × (list_io.received (read_msg list_io ready_for_query_msg status_stream).1
        ≡ list_io.received status_stream ++ (u32_bytes (4 + length body) ++ body))
    × (list_io.sent (read_msg list_io ready_for_query_msg status_stream).1
        ≡ list_io.sent status_stream)
read_msg_framed_example = read_msg_framed list_io ready_for_query_msg status_stream status_run

abbrev short_stream : ListStream
short_stream = coming (0 ∷ 0 ∷ 0 ∷ 3 ∷ [])

short_run : (read_u32 list_io short_stream).0 ≡ ok 3
unfolding read_u32
short_run = refl

read_msg_short_example :
    read_msg list_io ready_for_query_msg short_stream
    ≡ (err (Read.encode_error (Encode.out_of_space 1)), (read_u32 list_io short_stream).1)
read_msg_short_example =
    read_msg_short list_io ready_for_query_msg short_stream short_run (omega arith)

drop_run : (read_and_drop list_io 3 status_stream).0 ≡ ok tt
unfolding read_and_drop drop_loop
drop_run = refl

read_and_drop_lem_example :
    (bytes : List ℕ) × (list_io.received (read_and_drop list_io 3 status_stream).1
      ≡ list_io.received status_stream ++ bytes)
    × (length bytes ≡ 3)
read_and_drop_lem_example = read_and_drop_lem list_io 3 status_stream drop_run

abbrev endless_stream : ListStream
endless_stream = coming (255 ∷ 255 ∷ 255 ∷ 255 ∷ [])

endless_run : (read_u32 list_io endless_stream).0 ≡ ok 4294967295
unfolding read_u32
endless_run = refl

ready_for_query_typed : ready_for_query_msg.type_byte_opt ≡ some TypeByte.ready_for_query
unfolding ready_for_query_msg
ready_for_query_typed = refl

read_msg_wraps_example :
    read_msg list_io ready_for_query_msg endless_stream
    ≡ (err (Read.encode_error (Encode.out_of_space 1)), (read_u32 list_io endless_stream).1)
read_msg_wraps_example =
    read_msg_wraps list_io ready_for_query_msg TypeByte.ready_for_query endless_stream
      ready_for_query_typed endless_run
