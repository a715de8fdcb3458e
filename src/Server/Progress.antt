-- ===== src/Server/Progress.antt =====
-- How far the clients of src/server.rs get, and for what they end.
use mathlib.Core.List.{Mem, mem-cons_self, mem-cons_of_mem}
use postgread.Prelude.{
  ℕ, suc, ◌+◌, ◌≤◌, ◌≡◌, refl, ap, ◌∙◌, true, false, ◌≢◌, ◌⊎◌, inl, inr, List, [], ◌∷◌, ◌++◌,
  Option, none, some, Result, ok, err, length, get_elem?, arith, get_elem-lt, get_elem-update,
  get_elem-update_other, get_elem-append, All, ◌==◌, Bool-cases, if◌then◌else◌, subst,
}
use postgread.Msg.AsyncIo.{IoError, IoResult}
use postgread.Convey.State.{Side, State, Exit, failed, panicked}
use postgread.Convey.Message.{Message}
use postgread.Server.Platform.{Platform, SocketAddr}
use postgread.Server.Setup.{Server}
use postgread.Server.Client.{
  Line, Client, accepted, numbered, announced, connecting, conveying, ended, Answers, turn,
  fetch_add, announce, handle, greet, on_connect, on_stopped, conversation, convey_client, target,
}
use postgread.Server.Accepting.{
  Accepting, looping, returned, Running, Event, incoming, goes_on, accept, go_on, put_back, step,
  loop_accepting,
}

-- What the client at `i` was answered in its turns.
abbrev pub answers_of : {p : Platform} → ℕ → List (Event p) → List (Answers p)
answers_of i [] = []
answers_of i (incoming next ∷ es) = answers_of i es
answers_of i (goes_on j a ∷ es) = let rest = answers_of i es in if i == j then a ∷ rest else rest

own_answers :
    {p : Platform} (i j : ℕ) (a : Answers p) (es : List (Event p))
    → (i == j) ≡ true
    → answers_of i (goes_on j a ∷ es) ≡ a ∷ answers_of i es
own_answers i j a es e = rw e refl

other_answers :
    {p : Platform} (i j : ℕ) (a : Answers p) (es : List (Event p))
    → (i == j) ≡ false
    → answers_of i (goes_on j a ∷ es) ≡ answers_of i es
other_answers i j a es e = rw e refl

-- The conversation goes on.
abbrev pub GoesOn : Result Exit (Option State) → Type 0
GoesOn (ok (some state)) = Unit {0}
GoesOn (ok none) = ⊥
GoesOn (err e) = ⊥

-- What follows for a client that came with `stream`, from what the calls of its tasks returned;
-- `Given` are the answers that it may have had.
module _ {p : Platform} (server : Server p) (Given : Answers p → Type 0)
    (stream : p.TcpStream) where
  -- It has an address, and the target's host is one.
  abbrev IsAnnounced : Type 0
  IsAnnounced = (addr : SocketAddr p.IpAddr) × (p.peer_addr stream ≡ ok addr)

  abbrev Targets : SocketAddr p.IpAddr → Type 0
  Targets endpoint = IsAnnounced × (target p server ≡ ok endpoint)

  -- One of the answers was a connection to the target, which has an address.
  abbrev Connects : p.TcpStream → Type 0
  Connects there =
      (endpoint : SocketAddr p.IpAddr) × Targets endpoint
      × ((a : Answers p) × Given a × (a.connect endpoint ≡ ok there))

  abbrev IsGreeted : p.TcpStream → Type 0
  IsGreeted there = Connects there × ((addr : SocketAddr p.IpAddr) × (p.local_addr there ≡ ok addr))

  -- Rounds for which the answers said which side is ready.
  pub data IsGiven : List Side → Type 0 where
    nothing : IsGiven []
    further :
        {rounds : List Side} (a : Answers p)
        → Given a
        → IsGiven rounds
        → IsGiven (rounds ++ a.ready)

  -- The causes for an end.
  pub data EndsBy : Type 0 where
    has_gone : {e : IoError} → p.peer_addr stream ≡ err e → EndsBy
    no_address : {e : IoError} → IsAnnounced → target p server ≡ err e → EndsBy
    unreachable :
        (endpoint : SocketAddr p.IpAddr) (a : Answers p) {e : IoError}
        → Targets endpoint
        → Given a
        → a.connect endpoint ≡ err e
        → EndsBy
    nowhere :
        (there : p.TcpStream) {e : IoError} → Connects there → p.local_addr there ≡ err e → EndsBy
    stopped :
        (there : p.TcpStream) (rounds : List Side)
        → IsGreeted there
        → IsGiven rounds
        → ¬ GoesOn (conversation server stream there rounds).0
        → EndsBy

  -- What is known of a client, by where it stands.
  abbrev Stands : Client p → Type 0
  Stands (accepted s) = s ≡ stream
  Stands (numbered n s) = s ≡ stream
  Stands (announced port n s) = (s ≡ stream) × IsAnnounced
  Stands (connecting port n endpoint s) = (s ≡ stream) × Targets endpoint
  Stands (conveying port n s there rounds calls) = (s ≡ stream) × IsGreeted there × IsGiven rounds
  Stands (ended n) = EndsBy

  -- A client that is conveying with the target or at its end, with what is known of it.
  abbrev pub IsSettled : Option (Client p) → Type 0
  IsSettled (some (conveying port n s there rounds calls)) =
      (s ≡ stream) × IsGreeted there × IsGiven rounds
  IsSettled (some (ended n)) = EndsBy
  IsSettled _ = ⊥

  abbrev rank : Client p → ℕ
  rank (accepted s) = 5
  rank (numbered n s) = 4
  rank (announced port n s) = 3
  rank (connecting port n endpoint s) = 2
  rank (conveying port n s there rounds calls) = 1
  rank (ended n) = 0

  -- After `turns` turns.
  abbrev Stood : ℕ → Client p → Type 0
  Stood turns c = Stands c × ((rank c + turns ≤ 5) ⊎ (rank c ≤ 1))

  Stood-IsSettled : (turns : ℕ) (c : Client p) → 4 ≤ turns → Stood turns c → IsSettled (some c)
  Stood-IsSettled turns (accepted s) l (known, low) = absurd (grind arith)
  Stood-IsSettled turns (numbered n s) l (known, low) = absurd (grind arith)
  Stood-IsSettled turns (announced port n s) l (known, low) = absurd (grind arith)
  Stood-IsSettled turns (connecting port n endpoint s) l (known, low) = absurd (grind arith)
  Stood-IsSettled turns (conveying port n s there rounds calls) l (known, low) = known
  Stood-IsSettled turns (ended n) l (known, low) = known

  announce-Stood :
      (turns n : ℕ) (r : IoResult (SocketAddr p.IpAddr))
      → p.peer_addr stream ≡ r
      → 3 + turns ≤ 5
      → Stood turns (announce p n stream r).0
  unfolding announce
  announce-Stood turns n (ok addr) e l = ((refl, (addr, e)), inl l)
  announce-Stood turns n (err x) e l = (has_gone e, inr (omega arith))

  handle-Stood :
      (turns : ℕ) (now : List ℕ) (port n : ℕ) (r : IoResult (SocketAddr p.IpAddr))
      → IsAnnounced
      → target p server ≡ r
      → 2 + turns ≤ 5
      → Stood turns (handle p now port n stream r).0
  unfolding handle
  handle-Stood turns now port n (ok endpoint) known e l = ((refl, (known, e)), inl l)
  handle-Stood turns now port n (err x) known e l = (no_address known e, inr (omega arith))

  greet-Stood :
      (turns : ℕ) (now : List ℕ) (port n : ℕ) (there : p.TcpStream)
      (r : IoResult (SocketAddr p.IpAddr))
      → Connects there
      → p.local_addr there ≡ r
      → Stood turns (greet p now port n stream there r).0
  unfolding greet
  greet-Stood turns now port n there (ok addr) known e =
      ((refl, (known, (addr, e)), nothing), inr (omega arith))
  greet-Stood turns now port n there (err x) known e = (nowhere there known e, inr (omega arith))

  on_connect-Stood :
      (turns : ℕ) (a : Answers p) (port n : ℕ) (endpoint : SocketAddr p.IpAddr)
      (r : IoResult p.TcpStream)
      → Targets endpoint
      → Given a
      → a.connect endpoint ≡ r
      → Stood turns (on_connect p a.now port n stream r).0
  unfolding on_connect
  on_connect-Stood turns a port n endpoint (ok there) known g e =
      greet-Stood turns a.now port n there (p.local_addr there) (endpoint, known, (a, g, e)) refl
  on_connect-Stood turns a port n endpoint (err x) known g e =
      (unreachable endpoint a known g e, inr (omega arith))

  on_stopped-Stood :
      (turns : ℕ) (now : List ℕ) (port n : ℕ) (there : p.TcpStream) (rounds : List Side) (calls : ℕ)
      (printed : List (Line p)) (r : Result Exit (Option State))
      → IsGreeted there
      → IsGiven rounds
      → (conversation server stream there rounds).0 ≡ r
      → Stood turns (on_stopped p now port n stream there rounds calls printed r).0
  unfolding on_stopped
  on_stopped-Stood turns now port n there rounds calls printed (ok none) known given e =
      (stopped there rounds known given (λ h. subst GoesOn e h), inr (omega arith))
  on_stopped-Stood turns now port n there rounds calls printed (ok (some state)) known given e =
      ((refl, known, given), inr (omega arith))
  on_stopped-Stood turns now port n there rounds calls printed (err (failed x)) known given e =
      (stopped there rounds known given (λ h. subst GoesOn e h), inr (omega arith))
  on_stopped-Stood turns now port n there rounds calls printed (err panicked) known given e =
      (stopped there rounds known given (λ h. subst GoesOn e h), inr (omega arith))

  turn-Stood :
      (callback : Message → Line p) (turns : ℕ) (a : Answers p) (c : Client p) (counter : ℕ)
      → Given a
      → Stood turns c
      → Stood (suc turns) (turn server callback a c counter).client
  unfolding turn fetch_add convey_client
  turn-Stood callback turns a (accepted s) counter g (e, low) = (e, inl (grind arith))
  turn-Stood callback turns a (numbered n s) counter g (e, low) =
      rw e (announce-Stood (suc turns) n (p.peer_addr stream) refl (grind arith))
  turn-Stood callback turns a (announced port n s) counter g ((e, known), low) =
      rw e (handle-Stood (suc turns) a.now port n (target p server) known refl (grind arith))
  turn-Stood callback turns a (connecting port n endpoint s) counter g ((e, known), low) =
      rw e (on_connect-Stood (suc turns) a port n endpoint (a.connect endpoint) known g refl)
  turn-Stood callback turns a (conveying port n s there rounds calls) counter g
        ((e, known, given), low) =
      rw e (
        on_stopped-Stood (suc turns) a.now port n there (rounds ++ a.ready) _ _ _ known
          (further a g given) refl)
  turn-Stood callback turns a (ended n) counter g (known, low) = (known, inr (omega arith))

  module _ (callback : Message → Line p) (i : ℕ) where
    -- Where the client at `i` stands after `turns` turns.
    abbrev Has : ℕ → Running p → Type 0
    Has turns s = (c : Client p) × (get_elem? s.clients i ≡ some c) × Stood turns c

    accept-Has :
        (turns : ℕ) (l : Accepting) (next : Option (IoResult p.TcpStream)) (s : Running p)
        → Has turns s
        → Has turns (accept l next s)
    unfolding accept
    accept-Has turns looping (some (ok new)) s (c, e, h) =
        (c, get_elem-append s.clients _ i (get_elem-lt s.clients i e) ∙ e, h)
    accept-Has turns looping (some (err x)) s h = h
    accept-Has turns looping none s h = h
    accept-Has turns (returned r) next s h = h

    own-Has :
        (turns : ℕ) (a : Answers p) (s : Running p)
        → Given a
        → Has turns s
        → Has (suc turns) (go_on server callback i a (get_elem? s.clients i) s)
    unfolding go_on put_back
    own-Has turns a s g (c, e, h) = rw e (
      (turn server callback a c s.next_client_id).client,
      get_elem-update s.clients i _ (get_elem-lt s.clients i e),
      turn-Stood callback turns a c s.next_client_id g h,
    )

    other-Has :
        (turns j : ℕ) (a : Answers p) (o : Option (Client p)) (s : Running p)
        → j ≢ i
        → Has turns s
        → Has turns (go_on server callback j a o s)
    unfolding go_on put_back
    other-Has turns j a none s ne h = h
    other-Has turns j a (some d) s ne (c, e, h) =
        (c, get_elem-update_other s.clients j i _ ne ∙ e, h)

    loop-Has :
        (es : List (Event p)) (s : Running p) (turns all : ℕ)
        → all ≡ length (answers_of i es) + turns
        → All Given (answers_of i es)
        → Has turns s
        → Has all (loop_accepting server callback es s)
    unfolding loop_accepting step
    loop-Has [] s turns all sum g h = let same : all ≡ turns = omega arith in rw same h
    loop-Has (incoming next ∷ es) s turns all sum g h =
        loop-Has es _ turns all sum g (accept-Has turns s.accepting next s h)
    loop-Has (goes_on j a ∷ es) s turns all sum g h = elim (Bool-cases (i == j)) [
      | inl own ↦
          let same : j ≡ i = ground arith in
          let eq = own_answers i j a es own in
          let (now, later) : Given a × All Given (answers_of i es) = subst (All Given) eq g in
          loop-Has es _ (suc turns) all (omega (arith, sum, ap length eq)) later
            (rw same (own-Has turns a s now h))
      | inr other ↦
          let ne : j ≢ i = λ e. ground arith in
          let eq = other_answers i j a es other in
          loop-Has es _ turns all (omega (arith, sum, ap length eq)) (subst (All Given) eq g)
            (other-Has turns j a (get_elem? s.clients j) s ne h)
    ]

All-Mem : {A : Type 0} (xs : List A) → All (λ x. Mem x xs) xs
All-Mem xs = go xs (λ x m. m)
  where
    go : (ys : List _) → ((x : _) → Mem x ys → Mem x xs) → All (λ x. Mem x xs) ys
    go [] h = tt
    go (y ∷ ys) h = (h y mem-cons_self, go ys (λ x m. h x (mem-cons_of_mem y m)))

module _ {p : Platform} (server : Server p) (callback : Message → Line p) where
  -- However connections come in and the tasks of the clients take turns, a client that has been
  -- accepted and then goes on four times, each time behind a call that has returned, is conveying or
  -- has ended. When it is conveying, its address is known, the target's host is an address, the
  -- connection to that endpoint was answered by the stream that it has for the target, and this
  -- stream has a local address. When it has ended, it was for one of these causes: its own address
  -- is not known; the target's host is no address; that connection was refused; its stream has no
  -- local address; or the conversation on the two streams does not go on.
  pub loop_accepting-IsSettled :
      (es : List (Event p)) (s : Running p) (i : ℕ) (stream : p.TcpStream)
      → get_elem? s.clients i ≡ some (accepted stream)
      → 4 ≤ length (answers_of i es)
      → IsSettled server
          (λ a. Mem a (answers_of i es))
          stream
          (get_elem? (loop_accepting server callback es s).clients i)
  loop_accepting-IsSettled es s i stream e l =
      let answers = answers_of i es in
      let (c, at, h) =
        loop-Has server (λ a. Mem a answers) stream callback i es s 0 (length answers) (omega arith)
          (All-Mem answers) (accepted stream, e, (refl, inl (omega arith))) in
      rw at (Stood-IsSettled server (λ a. Mem a answers) stream (length answers) c l h)
