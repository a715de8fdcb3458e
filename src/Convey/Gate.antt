-- ===== src/Convey/Gate.antt =====
-- What the rules of the protocol mean for the loop of `go` of src/convey.rs: no statement before the
-- authentication, and no message of the frontend out of its turn.
use postgread.Prelude.{
  ◌≡◌, refl, sym, ◌∙◌, ap, List, [], ◌∷◌, ◌++◌, Option, none, some, ok, err, Bool, true, false,
  if◌then◌else◌, Bool-cases, inl, inr, arith,
}
use postgread.Msg.TypeByte.{TypeByte}
use postgread.Msg.Body.Authentication.{Authentication}
use postgread.Convey.State.{Side, frontend, State, failed, unexpected_type}
use postgread.Convey.Message.{Message}
use postgread.Convey.Stream.{Channel}
use postgread.Convey.Dispatch.{FrontendType, unexpected, dispatch}
use postgread.Convey.Conveyor.{Conveyor}
use postgread.Convey.Go.{read_type_byte_from_both, run_arm, round, conveying}
use postgread.Convey.Protocol.{
  Kind, asks, hears, kind_of, Phase, authenticating, challenged, idle, executed, suspended, ended,
  follow, follow_all, phase_of,
}
use postgread.Convey.Mirror.{conveying-follow_all}

abbrev pub is_success : Kind → Bool
is_success (asks Authentication.ok) = true
is_success _ = false

abbrev pub is_credentials : FrontendType → Bool
is_credentials FrontendType.password = true
is_credentials FrontendType.gss_response = true
is_credentials FrontendType.sasl_initial_response = true
is_credentials FrontendType.sasl_response = true
is_credentials _ = false

-- A message that the frontend may send in a session only.
abbrev pub is_statement : Kind → Bool
is_statement (hears t) = if is_credentials t then false else true
is_statement _ = false

-- No statement comes before a success of the authentication.
abbrev pub is_gated : List Message → Bool
is_gated [] = true
is_gated (message ∷ messages) =
    if is_success (kind_of message)
    then true
    else if is_statement (kind_of message)
    then false
    else is_gated messages

abbrev is_early : Phase → Bool
is_early authenticating = true
is_early challenged = true
is_early ended = true
is_early _ = false

follow-early :
    (phase phase' : Phase) (kind : Kind)
    → is_early phase ≡ true
    → is_success kind ≡ false
    → follow phase kind ≡ some phase'
    → (is_statement kind ≡ false) × (is_early phase' ≡ true)
follow-early phase phase' kind early fails h = ground arith

-- One message more in front, by what it makes of the phase.
cons-is_gated :
    (phase end : Phase) (o : Option Phase) (message : Message) (messages : List Message)
    → is_early phase ≡ true
    → follow phase (kind_of message) ≡ o
    → follow_all o messages ≡ some end
    → ((phase' : Phase) → is_early phase' ≡ true → o ≡ some phase' → is_gated messages ≡ true)
    → is_gated (message ∷ messages) ≡ true
cons-is_gated phase end none message messages early e h more = absurd (cc h)
cons-is_gated phase end (some phase') message messages early e h more =
    elim (Bool-cases (is_success (kind_of message))) [
      | inl success ↦ rw success refl
      | inr fails ↦
          let (silent, early') = follow-early phase phase' (kind_of message) early fails e in
          rw (fails, silent) (more phase' early' refl)
    ]

follow_all-is_gated :
    (phase end : Phase) (messages : List Message)
    → is_early phase ≡ true
    → follow_all (some phase) messages ≡ some end
    → is_gated messages ≡ true
follow_all-is_gated phase end [] early h = refl
follow_all-is_gated phase end (message ∷ messages) early h =
    cons-is_gated phase end (follow phase (kind_of message)) message messages early refl h
      (λ phase' early' e.
        follow_all-is_gated phase' end messages early'
          (ap (λ o. follow_all o messages) (sym e) ∙ h))

-- The frontend's turn.
abbrev pub is_turn : Phase → Bool
is_turn challenged = true
is_turn idle = true
is_turn executed = true
is_turn suspended = true
is_turn _ = false

dispatch-unexpected :
    (t : TypeByte) (state : State)
    → is_turn (phase_of state) ≡ false
    → dispatch frontend t state ≡ unexpected
unfolding dispatch
dispatch-unexpected t state h = ground arith

module _ {front back : Channel} where
  -- From the state after the startup, however the two sides take turns, as long as the loop reports
  -- no error, the callback is called with no statement, sync or termination of the frontend before
  -- the backend's message that the authentication has succeeded.
  pub conveying-is_gated :
      (ready : List Side) (c : Conveyor front back) {next : Option State}
      → (conveying ready (some State.got_startup) c).0 ≡ ok next
      → (messages : List Message) × ((conveying ready (some State.got_startup) c).1.log
          ≡ c.log ++ messages)
        × (is_gated messages ≡ true)
  conveying-is_gated ready c h =
      let (messages, logged, rules) = conveying-follow_all ready (some State.got_startup) c h in
      (messages, logged, follow_all-is_gated authenticating _ messages refl rules)

  -- In a state where it is not the frontend's turn, a round that reads a type byte of the frontend ends
  -- with the error that names the state and the type, and moves nothing but that byte.
  pub round_out_of_turn :
      (state : State) (c : Conveyor front back) {type_byte : TypeByte}
      → is_turn (phase_of state) ≡ false
      → (read_type_byte_from_both frontend c).0 ≡ ok type_byte
      → round frontend state c ≡ (
        err (failed (unexpected_type state frontend type_byte)),
        (read_type_byte_from_both frontend c).1,
      )
  unfolding round run_arm
  round_out_of_turn state c {type_byte} h e = rw (e, dispatch-unexpected type_byte state h) refl
