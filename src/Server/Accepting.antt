-- ===== src/Server/Accepting.antt =====
-- `loop_accepting` of src/server.rs and the tasks that it spawns, in any order.
use postgread.Prelude.{ℕ, List, [], ◌∷◌, ◌++◌, Option, none, some, ok, err, get_elem?, update}
use postgread.Msg.AsyncIo.{IoResult}
use postgread.Convey.Message.{Message}
use postgread.Server.Platform.{Platform}
use postgread.Server.Setup.{Server}
use postgread.Server.Client.{Line, Client, accepted, Answers, Turned, turn}

-- The `while let`: it goes on, or the function has returned.
pub data Accepting : Type 0 where
  looping : Accepting
  returned : IoResult (Unit {0}) → Accepting

-- The clients stand in the order in which they were accepted.
pub record Running (p : Platform) : Type 0 where
  pub accepting : Accepting
  pub next_client_id : ℕ
  pub clients : List (Client p)
  pub printed : List (Line p)

-- What happens next: `incoming.next()` returns, or a client goes on.
pub data Event (p : Platform) : Type 0 where
  incoming : Option (IoResult p.TcpStream) → Event p
  goes_on : ℕ → Answers p → Event p

module _ {p : Platform} where
  abbrev pub start : Running p
  start = record { accepting = looping; next_client_id = 1; clients = []; printed = [] }

  unfoldable pub accept : Accepting → Option (IoResult p.TcpStream) → Running p → Running p
  accept looping (some (ok stream)) s = record s { clients = s.clients ++ accepted stream ∷ [] }
  accept looping (some (err e)) s = record s { accepting = returned (err e) }
  accept looping none s = record s { accepting = returned (ok tt) }
  accept (returned r) next s = s

  module _ (server : Server p) (callback : Message → Line p) where
    unfoldable pub put_back : ℕ → Turned p → Running p → Running p
    put_back i t s = record {
      accepting = s.accepting;
      next_client_id = t.next_client_id;
      clients = update s.clients i t.client;
      printed = s.printed ++ t.printed;
    }

    unfoldable pub go_on : ℕ → Answers p → Option (Client p) → Running p → Running p
    go_on i a none s = s
    go_on i a (some client) s = put_back i (turn server callback a client s.next_client_id) s

    unfoldable pub step : Event p → Running p → Running p
    step (incoming next) s = accept s.accepting next s
    step (goes_on i a) s = go_on i a (get_elem? s.clients i) s

    -- The events one after another.
    unfoldable pub loop_accepting : List (Event p) → Running p → Running p
    loop_accepting [] s = s
    loop_accepting (e ∷ es) s = loop_accepting es (step e s)
