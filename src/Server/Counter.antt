-- ===== src/Server/Counter.antt =====
-- The counter of src/server.rs, and the numbers that `fetch_add` takes from it.
use postgread.Prelude.{
  ℕ, suc, ◌+◌, ◌%◌, ◌^◌, ◌≤◌, ◌<◌, ◌≡◌, refl, ◌⊎◌, inl, inr, List, [], ◌∷◌, Option, none, some,
  Result, ok, err, length, get_elem?, update, arith, length-append, length-update,
}
use postgread.Msg.AsyncIo.{IoResult}
use postgread.Convey.State.{Side, Exit, failed, panicked}
use postgread.Convey.Message.{Message}
use postgread.Server.Platform.{Platform, SocketAddr}
use postgread.Server.Setup.{Server}
use postgread.Server.Client.{
  Line, Client, accepted, numbered, announced, connecting, conveying, ended, Answers, turn,
  fetch_add, announce, handle, greet, on_connect, on_stopped, convey_client, target,
}
use postgread.Server.Accepting.{
  Accepting, looping, returned, Running, Event, incoming, goes_on, start, accept, go_on, put_back,
  step, loop_accepting,
}
use postgread.Server.Ids.{
  id_of, id_at, given_le, id_at-accepted, given-accepted, id_at-kept, given-kept, IsNumbered,
  IsNumbered-same, IsNumbered-new,
}

module _ (p : Platform) where
  announce-id :
      (n : ℕ) (s : p.TcpStream) (r : IoResult (SocketAddr p.IpAddr))
      → id_of (announce p n s r).0 ≡ some n
  unfolding announce
  announce-id n s (ok addr) = refl
  announce-id n s (err e) = refl

  handle-id :
      (now : List ℕ) (port n : ℕ) (s : p.TcpStream) (r : IoResult (SocketAddr p.IpAddr))
      → id_of (handle p now port n s r).0 ≡ some n
  unfolding handle
  handle-id now port n s (ok addr) = refl
  handle-id now port n s (err e) = refl

  greet-id :
      (now : List ℕ) (port n : ℕ) (s t : p.TcpStream) (r : IoResult (SocketAddr p.IpAddr))
      → id_of (greet p now port n s t r).0 ≡ some n
  unfolding greet
  greet-id now port n s t (ok addr) = refl
  greet-id now port n s t (err e) = refl

  on_connect-id :
      (now : List ℕ) (port n : ℕ) (s : p.TcpStream) (r : IoResult p.TcpStream)
      → id_of (on_connect p now port n s r).0 ≡ some n
  unfolding on_connect
  on_connect-id now port n s (ok t) = greet-id now port n s t (p.local_addr t)
  on_connect-id now port n s (err e) = refl

  on_stopped-id :
      {A : Type 0} (now : List ℕ) (port n : ℕ) (s t : p.TcpStream) (rounds : List Side) (calls : ℕ)
      (printed : List (Line p)) (r : Result Exit (Option A))
      → id_of (on_stopped p now port n s t rounds calls printed r).0 ≡ some n
  unfolding on_stopped
  on_stopped-id now port n s t rounds calls printed (ok none) = refl
  on_stopped-id now port n s t rounds calls printed (ok (some state)) = refl
  on_stopped-id now port n s t rounds calls printed (err (failed e)) = refl
  on_stopped-id now port n s t rounds calls printed (err panicked) = refl

module _ {p : Platform} (server : Server p) (callback : Message → Line p) where
  -- A turn gives the next number to a client that has none, and leaves all else as it is.
  pub turn-id :
      (a : Answers p) (c : Client p) (n : ℕ)
      → let t = turn server callback a c n in
        ((id_of c ≡ none) × (id_of t.client ≡ some n) × (t.next_client_id ≡ (n + 1) % 2 ^ 64))
        ⊎ ((id_of t.client ≡ id_of c) × (t.next_client_id ≡ n))
  unfolding turn fetch_add convey_client
  turn-id a (accepted s) n = inl (refl, refl, refl)
  turn-id a (numbered k s) n = inr (announce-id p k s (p.peer_addr s), refl)
  turn-id a (announced port k s) n = inr (handle-id p a.now port k s (target p server), refl)
  turn-id a (connecting port k addr s) n =
      inr (on_connect-id p a.now port k s (a.connect addr), refl)
  turn-id a (conveying port k s t rounds calls) n =
      inr (on_stopped-id p a.now port k s t _ _ _ _, refl)
  turn-id a (ended k) n = inr (refl, refl)

  -- The clients and the counter of a run that has room for more numbers.
  abbrev pub IsRunning : Running p → Type 0
  IsRunning s = length s.clients + 1 < 2 ^ 64 → IsNumbered s.next_client_id s.clients

  pub go_on-IsRunning :
      (i : ℕ) (a : Answers p) (o : Option (Client p)) (s : Running p)
      → get_elem? s.clients i ≡ o
      → IsRunning s
      → IsRunning (go_on server callback i a o s)
  unfolding go_on put_back
  go_on-IsRunning i a none s e h l = h l
  go_on-IsRunning i a (some c) s e h l =
      let few = length-update s.clients i (turn server callback a c s.next_client_id).client in
      let inv = h (omega (arith, l, few)) in
      elim (turn-id a c s.next_client_id) [
        | inl (old, new, counter) ↦
            let more = IsNumbered-new s.next_client_id s.clients i c _ e old new inv in
            let small =
              given_le (update s.clients i (turn server callback a c s.next_client_id).client) in
            let plus : (s.next_client_id + 1) % 2 ^ 64 ≡ suc s.next_client_id =
              omega (arith, small, more.counted, few, l) in
            rw (counter, plus) more
        | inr (same, counter) ↦ rw counter (
            IsNumbered-same s.next_client_id s.clients _ (given-kept s.clients i c _ e same)
              (id_at-kept s.clients i c _ e same) inv)
      ]

  pub accept-IsRunning :
      (l : Accepting) (next : Option (IoResult p.TcpStream)) (s : Running p)
      → IsRunning s
      → IsRunning (accept l next s)
  unfolding accept
  accept-IsRunning looping (some (ok stream)) s h l =
      IsNumbered-same s.next_client_id s.clients _ (given-accepted s.clients stream)
        (id_at-accepted s.clients stream)
        (h (omega (arith, l, length-append s.clients (accepted stream ∷ []))))
  accept-IsRunning looping (some (err e)) s h l = h l
  accept-IsRunning looping none s h l = h l
  accept-IsRunning (returned r) next s h l = h l

  loop-IsRunning :
      (es : List (Event p)) (s : Running p)
      → IsRunning s
      → IsRunning (loop_accepting server callback es s)
  unfolding loop_accepting step
  loop-IsRunning [] s h = h
  loop-IsRunning (incoming next ∷ es) s h =
      loop-IsRunning es _ (accept-IsRunning s.accepting next s h)
  loop-IsRunning (goes_on i a ∷ es) s h =
      loop-IsRunning es _ (go_on-IsRunning i a (get_elem? s.clients i) s refl h)

  pub start-IsRunning : IsRunning start
  start-IsRunning l = record { counted = refl; below = λ i k e. cc; unique = λ i j k e f. cc }

  -- However connections come in and the tasks of the clients take turns, as long as fewer than
  -- 2 ^ 64 - 1 connections have been accepted, a client's number is between 1 and the number of
  -- the accepted connections, and no two clients have the same one.
  pub loop_accepting-unique_ids :
      (es : List (Event p))
      → length (loop_accepting server callback es start).clients + 1 < 2 ^ 64
      → (i k : ℕ) → id_at (loop_accepting server callback es start).clients i ≡ some k
      → (0 < k)
        × (k ≤ length (loop_accepting server callback es start).clients)
        × ((j : ℕ) → id_at (loop_accepting server callback es start).clients j ≡ some k → i ≡ j)
  loop_accepting-unique_ids es l i k e =
      let inv = loop-IsRunning es start start-IsRunning l in
      let (pos, small) = inv.below i k e in
      (
        pos,
        omega
            (arith, small, inv.counted, given_le (loop_accepting server callback es start).clients),
        λ j f. inv.unique i j k e f,
      )
