-- ===== src/Server/Story/Runs.antt =====
-- What a run of src/server.rs prints about each client.
use postgread.Prelude.{
  ℕ, ◌+◌, ◌^◌, ◌<◌, ◌≡◌, refl, inl, inr, List, [], ◌∷◌, Option, none, some, ok, err, length,
  get_elem?, arith, length-append, length-update, get_elem-lt,
}
use postgread.Msg.AsyncIo.{IoResult}
use postgread.Server.Platform.{Platform}
use postgread.Server.Setup.{Server}
use postgread.Server.Client.{dump_msg, Client, accepted, Answers, turn}
use postgread.Server.Accepting.{
  Accepting, looping, returned, Running, Event, incoming, goes_on, start, accept, go_on, put_back,
  step, loop_accepting,
}
use postgread.Server.Ids.{IsNumbered}
use postgread.Server.Counter.{go_on-IsRunning, accept-IsRunning, start-IsRunning}
use postgread.Server.Story.{told, IsStory, silent}
use postgread.Server.Story.Steps.{find, Tells-IsStory, Told, accept-Told, turn-Told}

module _ {p : Platform} (server : Server p) where
  -- The numbers and the lines of a run that has room for more numbers.
  abbrev IsTelling : Running p → Type 0
  IsTelling s =
      length s.clients + 1 < 2 ^ 64
      → IsNumbered s.next_client_id s.clients × Told s.clients s.printed

  go_on-IsTelling :
      (i : ℕ) (a : Answers p) (o : Option (Client p)) (s : Running p)
      → get_elem? s.clients i ≡ o
      → IsTelling s
      → IsTelling (go_on server dump_msg i a o s)
  unfolding go_on put_back
  go_on-IsTelling i a none s e h l = h l
  go_on-IsTelling i a (some c) s e h l =
      let few = length-update s.clients i (turn server dump_msg a c s.next_client_id).client in
      let (inv, t) = h (omega (arith, l, few)) in
      (
        go_on-IsRunning server dump_msg i a (some c) s e (λ _. inv) l,
        turn-Told server a s.clients s.printed s.next_client_id i c e inv t
            (get_elem-lt s.clients i e),
      )

  accept-IsTelling :
      (l : Accepting) (next : Option (IoResult p.TcpStream)) (s : Running p)
      → IsTelling s
      → IsTelling (accept l next s)
  unfolding accept
  accept-IsTelling looping (some (ok stream)) s h l =
      let (inv, t) = h (omega (arith, l, length-append s.clients (accepted stream ∷ []))) in
      (
        accept-IsRunning server dump_msg looping (some (ok stream)) s (λ _. inv) l,
        accept-Told s.clients stream s.printed t,
      )
  accept-IsTelling looping (some (err e)) s h l = h l
  accept-IsTelling looping none s h l = h l
  accept-IsTelling (returned r) next s h l = h l

  loop-IsTelling :
      (es : List (Event p)) (s : Running p)
      → IsTelling s
      → IsTelling (loop_accepting server dump_msg es s)
  unfolding loop_accepting step
  loop-IsTelling [] s h = h
  loop-IsTelling (incoming next ∷ es) s h =
      loop-IsTelling es _ (accept-IsTelling s.accepting next s h)
  loop-IsTelling (goes_on i a ∷ es) s h =
      loop-IsTelling es _ (go_on-IsTelling i a (get_elem? s.clients i) s refl h)

  start-IsTelling : IsTelling start
  unfolding told get_elem?
  start-IsTelling l =
      (start-IsRunning server dump_msg l, record { holds = λ i c k e f. cc; free = λ k h. refl })

  -- With the callback of `main`, however connections come in and the tasks of the clients take
  -- turns, as long as fewer than 2 ^ 64 - 1 connections have been accepted, the lines about any
  -- number are, in their order, the start of one story of one client: it is announced, and either
  -- refused, or found unreachable, or connected and then stopped, always under the same port.
  pub loop_accepting-IsStory :
      (es : List (Event p)) (k : ℕ)
      → length (loop_accepting server dump_msg es start).clients + 1 < 2 ^ 64
      → IsStory k (told k (loop_accepting server dump_msg es start).printed)
  loop_accepting-IsStory es k l =
      let s = loop_accepting server dump_msg es start in
      let (inv, t) = loop-IsTelling es start start-IsTelling l in
      elim (find s.clients k) [
        | inl (i, c, e, f) ↦ Tells-IsStory c k (told k s.printed) f (t.holds i c k e f)
        | inr others ↦ rw (t.free k others) silent
      ]
