-- ===== src/Server/Client.antt =====
-- `handle_client` of src/server.rs, the two tasks that carry one client, and `dump_msg` of
-- src/main.rs. A client stands between two points at which other tasks may run.
use postgread.Prelude.Outcome.{Result_map, Result_map_err, unwrap_or}
use postgread.Prelude.{
  ℕ, ◌+◌, ◌%◌, ◌^◌, List, [], ◌∷◌, ◌++◌, map, Option, none, some, length, drop, Result, ok, err,
}
use postgread.Msg.AsyncIo.{IoError, IoResult, not_connected}
use postgread.Convey.State.{State, Side, ConveyError, Exit, failed, panicked}
use postgread.Convey.Message.{BackendMsg, FrontendMsg, Message}
use postgread.Convey.Conveyor.{Conveyor}
use postgread.Convey.Go.{convey}
use postgread.Tls.{frontend_channel, backend_channel}
use postgread.Server.Platform.{Platform, SocketAddr}
use postgread.Server.Setup.{Server, new_tls_connector}

-- What is printed: one constructor for each `println!`, with what it is given. A time is the text
-- that `format_now` returned.
pub data Line (p : Platform) : Type 0 where
  new_connection : (listen_port client_id : ℕ) → SocketAddr p.IpAddr → Line p
  connected : (now : List ℕ) (listen_port client_id : ℕ) → SocketAddr p.IpAddr → Line p
  stopped_conveying :
      (now : List ℕ) (listen_port client_id : ℕ) → Result ConveyError (Unit {0}) → Line p
  could_not_connect : (now : List ℕ) (listen_port client_id : ℕ) → IoError → Line p
  could_not_be_handled : (now : List ℕ) (local_port client_id : ℕ) → IoError → Line p
  got_from_server : BackendMsg → Line p
  got_from_client : FrontendMsg → Line p

unfoldable pub dump_msg : {p : Platform} → Message → Line p
dump_msg (Message.backend backend_msg) = got_from_server backend_msg
dump_msg (Message.frontend frontend_msg) = got_from_client frontend_msg

-- Where a client stands: accepted, behind `fetch_add`, behind the first line, in the task that
-- connects, in `convey`, or at the end of its tasks, be it by a panic. In `convey` it has the rounds
-- of the conversation so far, and how many calls of the callback these have made.
pub data Client (p : Platform) : Type 0 where
  accepted : p.TcpStream → Client p
  numbered : (client_id : ℕ) → p.TcpStream → Client p
  announced : (listen_port client_id : ℕ) → p.TcpStream → Client p
  connecting : (listen_port client_id : ℕ) → SocketAddr p.IpAddr → p.TcpStream → Client p
  conveying :
      (listen_port client_id : ℕ) (client server : p.TcpStream) (rounds : List Side) (calls : ℕ)
      → Client p
  ended : (client_id : ℕ) → Client p

-- What the world answers to a client: the time, the connection to the target, and the side that is
-- ready first in each further round of `convey`.
pub record Answers (p : Platform) : Type 0 where
  pub now : List ℕ
  pub connect : SocketAddr p.IpAddr → IoResult p.TcpStream
  pub ready : List Side

-- A client that has gone on, the counter, and what was printed.
pub record Turned (p : Platform) : Type 0 where
  pub client : Client p
  pub next_client_id : ℕ
  pub printed : List (Line p)

-- `fetch_add(1)` on an `AtomicUsize`: the value before, and the one after, which wraps around.
unfoldable pub fetch_add : ℕ → ℕ × ℕ
fetch_add n = (n, (n + 1) % 2 ^ 64)

abbrev pub localhost : List ℕ
localhost = b'l' ∷ b'o' ∷ b'c' ∷ b'a' ∷ b'l' ∷ b'h' ∷ b'o' ∷ b's' ∷ b't' ∷ []

unfoldable pub port_of : (p : Platform) → p.TcpStream → ℕ
port_of p stream = unwrap_or 0 (Result_map (λ addr. addr.port) (p.local_addr stream))

module _ (p : Platform) where
  -- The first two statements of `handle_client`; `unwrap` panics on an error.
  unfoldable pub announce :
      ℕ → p.TcpStream → IoResult (SocketAddr p.IpAddr) → Client p × List (Line p)
  announce client_id client (ok peer_addr) = (
    announced (port_of p client) client_id client,
    new_connection (port_of p client) client_id peer_addr ∷ [],
  )
  announce client_id client (err e) = (ended client_id, [])

  -- The rest of it, and the `unwrap_or_else` of its caller.
  unfoldable pub target : Server p → IoResult (SocketAddr p.IpAddr)
  target server =
      Result_map (λ target_ip. record { ip = target_ip; port = server.config.target_port })
        (Result_map_err (λ text. record { error_kind = not_connected; text = text })
          (p.parse_ip server.config.target_host))

  unfoldable pub handle :
      List ℕ
      → (listen_port client_id : ℕ) → p.TcpStream
      → IoResult (SocketAddr p.IpAddr)
      → Client p × List (Line p)
  handle now listen_port client_id client (ok server_endpoint) =
      (connecting listen_port client_id server_endpoint client, [])
  handle now listen_port client_id client (err e) =
      (ended client_id, could_not_be_handled now (port_of p client) client_id e ∷ [])

  unfoldable pub greet :
      List ℕ
      → (listen_port client_id : ℕ) → (client server : p.TcpStream) → IoResult (SocketAddr p.IpAddr)
      → Client p × List (Line p)
  greet now listen_port client_id client server (ok local_addr) = (
    conveying listen_port client_id client server [] 0,
    connected now listen_port client_id local_addr ∷ [],
  )
  greet now listen_port client_id client server (err e) = (ended client_id, [])

  unfoldable pub on_connect :
      List ℕ
      → (listen_port client_id : ℕ) → p.TcpStream
      → IoResult p.TcpStream
      → Client p × List (Line p)
  on_connect now listen_port client_id client (ok server) =
      greet now listen_port client_id client server (p.local_addr server)
  on_connect now listen_port client_id client (err e) =
      (ended client_id, could_not_connect now listen_port client_id e ∷ [])

  -- `ok (some state)` is a conversation that goes on.
  unfoldable pub on_stopped :
      {A : Type 0}
      → List ℕ
      → (listen_port client_id : ℕ) → (client server : p.TcpStream) → (rounds : List Side)
      → (calls : ℕ) → (printed : List (Line p)) → Result Exit (Option A)
      → Client p × List (Line p)
  on_stopped now listen_port client_id client server rounds calls printed (ok none) =
      (ended client_id, printed ++ stopped_conveying now listen_port client_id (ok tt) ∷ [])
  on_stopped now listen_port client_id client server rounds calls printed (ok (some state)) =
      (conveying listen_port client_id client server rounds calls, printed)
  on_stopped now listen_port client_id client server rounds calls printed (err (failed e)) =
      (ended client_id, printed ++ stopped_conveying now listen_port client_id (err e) ∷ [])
  on_stopped now listen_port client_id client server rounds calls printed (err panicked) =
      (ended client_id, printed)

module _ {p : Platform} (server : Server p) where
  -- The conversation of a client with its target, for the rounds that are given.
  unfoldable pub conversation :
      (client target : p.TcpStream)
      → List Side
      → Result Exit (Option State)
        × Conveyor
            (frontend_channel p (record { acceptor = server.tls_acceptor }))
            (backend_channel p (record { connector = new_tls_connector p; hostname = localhost }))
  conversation client target rounds = convey client target rounds

module _ {p : Platform} (server : Server p) (callback : Message → Line p) where
  -- The rounds so far led to where the conversation stands. What the callback prints in the further
  -- ones comes behind them.
  unfoldable pub convey_client :
      List ℕ
      → (listen_port client_id : ℕ) → (client target : p.TcpStream) → (rounds : List Side)
      → (calls : ℕ) → List Side
      → Client p × List (Line p)
  convey_client now listen_port client_id client target rounds calls ready =
      let r = conversation server client target (rounds ++ ready) in
      on_stopped p now listen_port client_id client target (rounds ++ ready) (length r.1.log)
        (map callback (drop calls r.1.log)) r.0

  -- A client goes on up to the next point.
  unfoldable pub turn : Answers p → Client p → ℕ → Turned p
  turn a (accepted stream) counter =
      let got = fetch_add counter in
      record { client = numbered got.0 stream; next_client_id = got.1; printed = [] }
  turn a (numbered client_id stream) counter =
      let r = announce p client_id stream (p.peer_addr stream) in
      record { client = r.0; next_client_id = counter; printed = r.1 }
  turn a (announced listen_port client_id stream) counter =
      let r = handle p a.now listen_port client_id stream (target p server) in
      record { client = r.0; next_client_id = counter; printed = r.1 }
  turn a (connecting listen_port client_id server_endpoint stream) counter =
      let r = on_connect p a.now listen_port client_id stream (a.connect server_endpoint) in
      record { client = r.0; next_client_id = counter; printed = r.1 }
  turn a (conveying listen_port client_id stream target rounds calls) counter =
      let r = convey_client a.now listen_port client_id stream target rounds calls a.ready in
      record { client = r.0; next_client_id = counter; printed = r.1 }
  turn a (ended client_id) counter = record {
    client = ended client_id;
    next_client_id = counter;
    printed = [];
  }
