-- ===== src/Convey/Ends/Turns.antt =====
-- How many turns the loop of `go` of src/convey.rs takes, against the bytes that come.
use postgread.Prelude.{ℕ, ◌+◌, ◌≢◌, Option, none, some, Result, ok, err, length}
use postgread.Convey.State.{backend, frontend, Exit, failed, State, undecided}
use postgread.Convey.Message.{Message}
use postgread.Convey.Stream.{Channel}
use postgread.Convey.Conveyor.{Conveyor}
use postgread.Convey.Moves.{received_from}

-- What `go` returns: nothing, or an error of the program. A loop that goes on has not returned.
abbrev pub HasReturned : Result Exit (Option State) → Type 0
HasReturned (ok none) = Unit {0}
HasReturned (ok (some state)) = ⊥
HasReturned (err e) = e ≢ failed undecided

module _ {front back : Channel} where
  -- How many bytes have come, from both sides.
  abbrev pub total : Conveyor front back → ℕ
  total c = length (received_from frontend c) + length (received_from backend c)
