-- ===== src/Tests/Runs.antt =====
-- A whole run of `go` of src/convey.rs over streams in memory.
use postgread.Msg.Body.Initial.{Initial}
use postgread.Convey.Message.{FrontendMsg}
use postgread.Convey.Stream.{
  switch_to_tls, start_handshake, finish_handshake, put_tls, replace_plain_with,
}
use postgread.Convey.Go.{after_tls_response, enter_tls, initial_inside_tls, convey}
use postgread.Convey.Modes.Secure.{IsSecured, convey-IsSecured}
use postgread.Tests.ListStream.{ListStream}
use postgread.Prelude.{◌≡◌, refl, List, [], ◌∷◌, ◌++◌, some, ok, true, u8_bytes, u32_bytes}
use postgread.Msg.TypeByte.{into, try_from}
use postgread.Msg.Decode
use postgread.Msg.Decode.{take_bounded, take_u8, until_null, take_until_null, null_loop, left}
use postgread.Msg.Encode
use postgread.Msg.Encode.{put_bounded, put_u8, put_u32, rest, set, put_loop}
use postgread.Msg.AsyncIo.{read_u8, read_u32}
use postgread.Msg.Read.{read_msg, check_left, check_body, decode_msg, alloc_vec, put_header}
use postgread.Msg.Body.Statements.{query_msg}
use postgread.Msg.Body.Signals.{empty_query_response_msg}
use postgread.Msg.Body.Status.{ready_for_query_msg, decode_status, status_of}
use postgread.Convey.State.{Side, backend, frontend, State}
use postgread.Convey.Message.{Message}
use postgread.Convey.Stream.{unwrap_stream}
use postgread.Convey.Dispatch.{dispatch, authenticate}
use postgread.Convey.Conveyor.{
  Conveyor, new, callback, read_msg_mapping_err, read_type_byte, write_bytes, read_backend,
  read_frontend, read_backend_type_byte, read_frontend_type_byte, write_backend, write_frontend,
  read_through, read_backend_through, read_frontend_through,
}
use postgread.Convey.Go.{
  relay_backend, relay_frontend, read_side_type_byte, known_type, read_type_byte_from_both, run_arm,
  round, conveying,
}
use postgread.Tests.ListStream.{list_channel, coming}
use postgread.Convey.Go.{go, negotiate, first_initial, process_backend_authentication, of_result}
use postgread.Convey.Gate.{is_gated}
use postgread.Convey.Opening.{go-is_gated}
use postgread.Msg.Body.Initial.{
  initial_msg, initial_of, decode_version, decode_many, decode_param, param_of,
}
use postgread.Msg.Body.Authentication.{authentication_msg, authentication_of}
use postgread.Msg.Body.Status.{backend_key_data_msg}
use postgread.Msg.Decode.{take_u16, take_u32, collect_all, collect, after_round}

-- The frontend starts up and sends a query; the backend trusts it.
abbrev start : Conveyor list_channel list_channel
start = new (coming (0 ∷ 0 ∷ 0 ∷ 9 ∷ 0 ∷ 3 ∷ 0 ∷ 0 ∷ 0 ∷ b'Q' ∷ 0 ∷ 0 ∷ 0 ∷ 5 ∷ 0 ∷ [])) (
    coming (
      b'R' ∷ 0 ∷ 0 ∷ 0 ∷ 8 ∷ 0 ∷ 0 ∷ 0 ∷ 0 ∷ b'K' ∷ 0 ∷ 0 ∷ 0 ∷ 12 ∷ 0 ∷ 0 ∷ 0 ∷ 1 ∷ 0 ∷ 0 ∷ 0 ∷ 2
      ∷ b'Z' ∷ 0 ∷ 0 ∷ 0 ∷ 5 ∷ b'I' ∷ []))

abbrev turns : List Side
turns = backend ∷ backend ∷ backend ∷ frontend ∷ []

go_run : (go turns start).0 ≡ ok (some State.got_simple_query)
unfolding go negotiate first_initial initial_msg initial_of decode_version decode_many decode_param
    param_of authentication_msg authentication_of backend_key_data_msg take_u16 take_u32 collect_all
    collect after_round process_backend_authentication of_result authenticate conveying round
    read_type_byte_from_both read_side_type_byte known_type run_arm relay_backend relay_frontend
    read_backend_type_byte read_frontend_type_byte read_through read_backend_through
    read_frontend_through read_backend read_frontend write_backend write_frontend callback
    read_msg_mapping_err read_type_byte write_bytes unwrap_stream dispatch try_from read_msg read_u8
    read_u32 alloc_vec put_header put_u8 put_u32 put_bounded put_loop set rest decode_msg check_left
    check_body Decode.new Encode.new query_msg empty_query_response_msg ready_for_query_msg
    decode_status status_of take_bounded take_u8 take_until_null until_null null_loop left into new
    u8_bytes u32_bytes
go_run = refl

go-is_gated_example :
    (messages : List Message) × ((go turns start).1.log ≡ start.log ++ messages)
    × (is_gated messages ≡ true)
go-is_gated_example = go-is_gated turns start go_run

-- More turns than there are messages.
abbrev many_turns : List Side
many_turns =
    backend ∷ backend ∷ backend ∷ frontend ∷ backend ∷ backend ∷ backend ∷ backend ∷ backend ∷ []

-- The frontend asks for TLS, the backend agrees, and the frontend starts up inside it.
abbrev asking : ListStream
asking = coming (0 ∷ 0 ∷ 0 ∷ 8 ∷ 4 ∷ 210 ∷ 22 ∷ 47 ∷ 0 ∷ 0 ∷ 0 ∷ 9 ∷ 0 ∷ 3 ∷ 0 ∷ 0 ∷ 0 ∷ [])

secure_run :
    (convey {front = list_channel} {back = list_channel} asking (coming (b'S' ∷ [])) []).0
    ≡ ok (some State.got_startup)
unfolding convey go negotiate first_initial after_tls_response enter_tls initial_inside_tls
    switch_to_tls start_handshake finish_handshake put_tls replace_plain_with initial_msg initial_of
    decode_version decode_many decode_param param_of take_u16 take_u32 collect_all collect
    after_round conveying read_backend_type_byte read_through read_frontend_through read_frontend
    write_backend write_frontend callback read_msg_mapping_err read_type_byte write_bytes
    unwrap_stream read_msg read_u8 read_u32 alloc_vec put_header put_u8 put_u32 put_bounded put_loop
    set rest decode_msg check_left check_body Decode.new Encode.new take_bounded take_u8
    take_until_null until_null null_loop left into new u8_bytes u32_bytes
secure_run = refl

convey-IsSecured_example :
    (x : Initial) × (messages : List Message) × ((convey {front = list_channel}
        {back = list_channel} asking
        (coming (b'S' ∷ []))
        []).1.log
      ≡ Message.frontend (FrontendMsg.initial x) ∷ messages)
    × IsSecured x messages
        (convey {front = list_channel} {back = list_channel} asking (coming (b'S' ∷ [])) []).1
convey-IsSecured_example =
    convey-IsSecured list_channel list_channel asking (coming (b'S' ∷ [])) [] secure_run
