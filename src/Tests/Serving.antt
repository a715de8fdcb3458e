-- ===== src/Tests/Serving.antt =====
-- A server on streams in memory, with two clients that take turns.
use mathlib.Core.List.{Mem}
use postgread.Prelude.{
  ℕ, ◌≤◌, ◌<◌, ◌≡◌, ◌≢◌, refl, List, [], ◌∷◌, none, some, ok, err, length, get_elem?, update, arith,
}
use postgread.Msg.Decode
use postgread.Msg.Decode.{out_of_fuel}
use postgread.Msg.Body.Types.{MsgType, msg_decode, decode_body-bounds}
use postgread.Server.Platform.{Platform, SocketAddr}
use postgread.Server.Setup.{Server, listen, new_tls_acceptor}
use postgread.Server.Client.{
  Client, dump_msg, Answers, turn, fetch_add, announce, handle, target, on_connect, port_of,
}
use postgread.Server.Accepting.{
  Accepting, Event, incoming, goes_on, Running, start, accept, put_back, go_on, step,
  loop_accepting,
}
use postgread.Server.Ids.{id_at}
use postgread.Server.Counter.{loop_accepting-unique_ids}
use postgread.Server.Progress.{answers_of, IsSettled, loop_accepting-IsSettled}
use postgread.Server.Story.{told, IsStory}
use postgread.Server.Story.Runs.{loop_accepting-IsStory}
use postgread.Tests.ListStream.{ListStream, list_io, coming, eof}

abbrev local : SocketAddr ℕ
local = record { ip = 1; port = 5432 }

-- Addresses are numbers, and every call succeeds.
abbrev in_memory : Platform
in_memory = record {
  IpAddr = ℕ;
  TcpListener = SocketAddr ℕ;
  TcpStream = ListStream;
  Identity = List ℕ;
  TlsAcceptorImpl = List ℕ;
  TlsAcceptor = List ℕ;
  TlsConnector = Unit {0};
  TlsStream = λ Plain. Plain;
  NativeTlsError = List ℕ;
  parse_ip = λ text. ok (length text);
  read_file = λ name. ok name;
  to_string = λ e. e;
  from_pkcs12 = λ bytes password. ok bytes;
  new_acceptor_impl = λ identity. ok identity;
  acceptor_from = λ impl. impl;
  new_connector = tt;
  danger_accept_invalid_certs = λ connector accepts. connector;
  connector_connect = λ connector hostname stream. ok stream;
  acceptor_accept = λ acceptor stream. ok stream;
  bind = λ addr. ok addr;
  listener_local_addr = λ addr. ok addr;
  local_addr = λ stream. ok local;
  peer_addr = λ stream. ok local;
  tcp_io = list_io;
  tls_io = list_io;
}

abbrev serving : Server in_memory
serving = record {
  tls_acceptor = [];
  tcp_listener = local;
  config = record {
    listen_addr = 1;
    listen_port = 5432;
    target_host = [];
    target_port = 5432;
    cert_p12_file = [];
    cert_p12_password = [];
  };
}

listen_serves : listen in_memory serving.config ≡ ok serving
unfolding listen new_tls_acceptor
listen_serves = refl

-- Nobody listens on the target.
abbrev silence : Answers in_memory
silence = record { now = []; connect = λ addr. err eof; ready = [] }

-- The second client gets the first number, and the first client comes to its end.
abbrev events : List (Event in_memory)
events =
    incoming (some (ok (coming [])))
    ∷ incoming (some (ok (coming [])))
    ∷ goes_on 1 silence
    ∷ goes_on 0 silence
    ∷ goes_on 0 silence
    ∷ goes_on 1 silence
    ∷ goes_on 0 silence
    ∷ goes_on 0 silence
    ∷ []

two_clients : length (loop_accepting serving dump_msg events start).clients ≡ 2
unfolding loop_accepting step accept go_on put_back get_elem? update turn fetch_add announce handle
    target on_connect port_of
two_clients = refl

second_is_first : id_at (loop_accepting serving dump_msg events start).clients 1 ≡ some 1
unfolding loop_accepting step accept go_on put_back get_elem? update turn fetch_add announce handle
    target on_connect port_of
second_is_first = refl

loop_accepting-unique_ids_example :
    (0 < 1)
    × (1 ≤ length (loop_accepting serving dump_msg events start).clients)
    × ((j : ℕ) → id_at (loop_accepting serving dump_msg events start).clients j ≡ some 1 → 1 ≡ j)
loop_accepting-unique_ids_example =
    loop_accepting-unique_ids serving dump_msg events (omega (arith, two_clients)) 1 1
      second_is_first

loop_accepting-IsStory_example :
    IsStory 2 (told 2 (loop_accepting serving dump_msg events start).printed)
loop_accepting-IsStory_example =
    loop_accepting-IsStory serving events 2 (omega (arith, two_clients))

-- Both clients have been accepted.
abbrev accepting_two : Running in_memory
accepting_two = record {
  accepting = Accepting.looping;
  next_client_id = 1;
  clients = Client.accepted (coming []) ∷ Client.accepted (coming []) ∷ [];
  printed = [];
}

abbrev turns : List (Event in_memory)
turns =
    goes_on 1 silence
    ∷ goes_on 0 silence
    ∷ goes_on 0 silence
    ∷ incoming none
    ∷ goes_on 0 silence
    ∷ goes_on 0 silence
    ∷ []

loop_accepting-IsSettled_example :
    IsSettled serving
      (λ a. Mem a (answers_of 0 turns))
      (coming [])
      (get_elem? (loop_accepting serving dump_msg turns accepting_two).clients 0)
unfolding get_elem?
loop_accepting-IsSettled_example =
    loop_accepting-IsSettled serving dump_msg turns accepting_two 0 (coming []) refl (omega arith)

-- A Parse that breaks off.
abbrev broken_parse : List ℕ
broken_parse = b'x' ∷ 0 ∷ 0 ∷ []

decode_body-bounds_example :
    (((msg_decode MsgType.parse).decode_body (Decode.new broken_parse)).0 ≢ out_of_fuel)
    × (((msg_decode MsgType.parse).decode_body (Decode.new broken_parse)).1.slice ≡ broken_parse)
    × (((msg_decode MsgType.parse).decode_body (Decode.new broken_parse)).1.pos
        ≤ length broken_parse)
decode_body-bounds_example =
    decode_body-bounds MsgType.parse broken_parse (omega arith, (omega arith, (omega arith, tt)))
