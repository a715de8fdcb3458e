-- ===== src/Server/Story/Turns.antt =====
-- What a turn of a client of src/server.rs prints.
use postgread.Prelude.{
  ℕ, ◌≡◌, refl, ap, ◌≢◌, true, false, ◌==◌, List, [], ◌∷◌, ◌++◌, Option, none, some, Result, ok,
  err, arith, append-nil,
}
use postgread.Msg.AsyncIo.{IoResult}
use postgread.Convey.State.{Side, Exit, failed, panicked}
use postgread.Server.Platform.{Platform, SocketAddr}
use postgread.Server.Setup.{Server}
use postgread.Server.Client.{
  Line, new_connection, connected, stopped_conveying, dump_msg, Client, accepted, numbered,
  announced, connecting, conveying, ended, port_of, Answers, turn, announce, handle, greet,
  on_connect, on_stopped, convey_client, target,
}
use postgread.Server.Ids.{id_of}
use postgread.Server.Story.{
  told, told-append, told-one, told-none, told-dump_msg, silent, greeted, refused, unreachable,
  conveyed, stopped, Tells,
}

same : (k : ℕ) → (k == k) ≡ true
same k = ground arith

other : (n k : ℕ) → n ≢ k → (n == k) ≡ false
other n k h = ground arith

-- Another's number is in none of the lines.
module _ (p : Platform) (n k : ℕ) (h : n ≢ k) where
  announce-other :
      (s : p.TcpStream) (r : IoResult (SocketAddr p.IpAddr)) → told k (announce p n s r).1 ≡ []
  unfolding announce told
  announce-other s (ok addr) = rw (other n k h) refl
  announce-other s (err e) = refl

  handle-other :
      (now : List ℕ) (port : ℕ) (s : p.TcpStream) (r : IoResult (SocketAddr p.IpAddr))
      → told k (handle p now port n s r).1 ≡ []
  unfolding handle told
  handle-other now port s (ok addr) = refl
  handle-other now port s (err e) = rw (other n k h) refl

  greet-other :
      (now : List ℕ) (port : ℕ) (s t : p.TcpStream) (r : IoResult (SocketAddr p.IpAddr))
      → told k (greet p now port n s t r).1 ≡ []
  unfolding greet told
  greet-other now port s t (ok addr) = rw (other n k h) refl
  greet-other now port s t (err e) = refl

  on_connect-other :
      (now : List ℕ) (port : ℕ) (s : p.TcpStream) (r : IoResult p.TcpStream)
      → told k (on_connect p now port n s r).1 ≡ []
  unfolding on_connect told
  on_connect-other now port s (ok t) = greet-other now port s t (p.local_addr t)
  on_connect-other now port s (err e) = rw (other n k h) refl

  on_stopped-other :
      {A : Type 0} (printed : List (Line p))
      → told k printed ≡ []
      → (now : List ℕ) (port : ℕ) (s t : p.TcpStream) (rounds : List Side) (calls : ℕ)
        (r : Result Exit (Option A))
      → told k (on_stopped p now port n s t rounds calls printed r).1 ≡ []
  unfolding on_stopped
  on_stopped-other printed quiet now port s t rounds calls (ok none) =
      rw
        (
          told-append k printed (stopped_conveying now port n (ok tt) ∷ []),
          quiet,
          told-none k (stopped_conveying now port n (ok tt)) (other n k h),
        )
        refl
  on_stopped-other printed quiet now port s t rounds calls (ok (some state)) = quiet
  on_stopped-other printed quiet now port s t rounds calls (err (failed e)) =
      rw
        (
          told-append k printed (stopped_conveying now port n (err e) ∷ []),
          quiet,
          told-none k (stopped_conveying now port n (err e)) (other n k h),
        )
        refl
  on_stopped-other printed quiet now port s t rounds calls (err panicked) = quiet

-- The client's own lines.
module _ (p : Platform) (n : ℕ) where
  announce-Tells :
      (s : p.TcpStream) (r : IoResult (SocketAddr p.IpAddr))
      → Tells (announce p n s r).0 (told n (announce p n s r).1)
  unfolding announce told
  announce-Tells s (ok addr) = rw (same n) (refl, (addr, refl))
  announce-Tells s (err e) = silent

  handle-Tells :
      (now : List ℕ) (port : ℕ) (s : p.TcpStream) (r : IoResult (SocketAddr p.IpAddr))
      (addr : SocketAddr p.IpAddr)
      → port ≡ port_of p s
      → Tells
          (handle p now port n s r).0
          (new_connection port n addr ∷ told n (handle p now port n s r).1)
  unfolding handle told
  handle-Tells now port s (ok endpoint) addr e = (addr, refl)
  handle-Tells now port s (err x) addr e = rw (same n, ← e) (refused port addr now x)

  greet-Tells :
      (now : List ℕ) (port : ℕ) (s t : p.TcpStream) (r : IoResult (SocketAddr p.IpAddr))
      (addr : SocketAddr p.IpAddr)
      → Tells
          (greet p now port n s t r).0
          (new_connection port n addr ∷ told n (greet p now port n s t r).1)
  unfolding greet told
  greet-Tells now port s t (ok local) addr = (addr, now, local, rw (same n) refl)
  greet-Tells now port s t (err e) addr = greeted port addr

  on_connect-Tells :
      (now : List ℕ) (port : ℕ) (s : p.TcpStream) (r : IoResult p.TcpStream)
      (addr : SocketAddr p.IpAddr)
      → Tells
          (on_connect p now port n s r).0
          (new_connection port n addr ∷ told n (on_connect p now port n s r).1)
  unfolding on_connect told
  on_connect-Tells now port s (ok t) addr = greet-Tells now port s t (p.local_addr t) addr
  on_connect-Tells now port s (err e) addr = rw (same n) (unreachable port addr now e)

  on_stopped-Tells :
      {A : Type 0} (printed : List (Line p))
      → told n printed ≡ []
      → (now : List ℕ) (port : ℕ) (s t : p.TcpStream) (rounds : List Side) (calls : ℕ)
        (r : Result Exit (Option A)) (addr : SocketAddr p.IpAddr) (before : List ℕ)
        (local : SocketAddr p.IpAddr)
      → Tells (on_stopped p now port n s t rounds calls printed r).0 (
          new_connection port n addr
          ∷ connected before port n local
          ∷ told n (on_stopped p now port n s t rounds calls printed r).1)
  unfolding on_stopped
  on_stopped-Tells printed quiet now port s t rounds calls (ok none) addr before local =
      rw
        (
          told-append n printed (stopped_conveying now port n (ok tt) ∷ []),
          quiet,
          told-one n (stopped_conveying now port n (ok tt)) (same n),
        )
        (stopped port addr before local now (ok tt))
  on_stopped-Tells printed quiet now port s t rounds calls (ok (some state)) addr before local =
      (addr, before, local, rw quiet refl)
  on_stopped-Tells printed quiet now port s t rounds calls (err (failed e)) addr before local =
      rw
        (
          told-append n printed (stopped_conveying now port n (err e) ∷ []),
          quiet,
          told-one n (stopped_conveying now port n (err e)) (same n),
        )
        (stopped port addr before local now (err e))
  on_stopped-Tells printed quiet now port s t rounds calls (err panicked) addr before local =
      rw quiet (conveyed port addr before local)

module _ {p : Platform} (server : Server p) (a : Answers p) where
  pub turn-other :
      (c : Client p) (counter k : ℕ)
      → id_of c ≢ some k
      → told k (turn server dump_msg a c counter).printed ≡ []
  unfolding turn convey_client told
  turn-other (accepted s) counter k h = refl
  turn-other (numbered n s) counter k h =
      announce-other p n k (λ e. h (ap some e)) s (p.peer_addr s)
  turn-other (announced port n s) counter k h =
      handle-other p n k (λ e. h (ap some e)) a.now port s (target p server)
  turn-other (connecting port n endpoint s) counter k h =
      on_connect-other p n k (λ e. h (ap some e)) a.now port s (a.connect endpoint)
  turn-other (conveying port n s t rounds calls) counter k h =
      on_stopped-other p n k (λ e. h (ap some e)) _ (told-dump_msg k _) a.now port s t _ _ _
  turn-other (ended n) counter k h = refl

  pub turn-Tells :
      (c : Client p) (counter k : ℕ) (lines : List (Line p))
      → ((n : ℕ) → id_of c ≡ some n → n ≡ k)
      → Tells c lines
      → Tells
          (turn server dump_msg a c counter).client
          (lines ++ told k (turn server dump_msg a c counter).printed)
  unfolding turn convey_client
  turn-Tells (accepted s) counter k lines h e = unfold told in rw e refl
  turn-Tells (numbered n s) counter k lines h e =
      rw (e, ← h n refl) (announce-Tells p n s (p.peer_addr s))
  turn-Tells (announced port n s) counter k lines h (same_port, (addr, e)) =
      rw (e, ← h n refl) (handle-Tells p n a.now port s (target p server) addr same_port)
  turn-Tells (connecting port n endpoint s) counter k lines h (addr, e) =
      rw (e, ← h n refl) (on_connect-Tells p n a.now port s (a.connect endpoint) addr)
  turn-Tells (conveying port n s t rounds calls) counter k lines h (addr, before, local, e) =
      rw (e, ← h n refl)
        (on_stopped-Tells p n _ (told-dump_msg n _) a.now port s t _ _ _ addr before local)
  turn-Tells (ended n) counter k lines h e = unfold told in rw append-nil e
