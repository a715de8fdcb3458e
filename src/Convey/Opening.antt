-- ===== src/Convey/Opening.antt =====
-- What comes before the loop of `go` of src/convey.rs, and the whole of `go`.
use postgread.Prelude.Outcome.{◌>>=◌, ◌>>◌, >>=-eq-ok, pure}
use postgread.Prelude.{
  ℕ, ◌≡◌, refl, sym, ◌∙◌, List, [], ◌∷◌, ◌++◌, Option, none, some, ok, true, false, ◌==◌,
  Bool-cases, inl, inr, All, append-nil, append_assoc,
}
use postgread.Msg.Body.ErrorAndNotice.{error_response_type_byte}
use postgread.Msg.Body.Initial.{Initial, initial_msg}
use postgread.Convey.State.{Side, State}
use postgread.Convey.Message.{FrontendMsg, Message}
use postgread.Convey.Stream.{Channel, switch_to_tls}
use postgread.Convey.Dispatch.{BackendType}
use postgread.Convey.Conveyor.{
  Conveyor, on_frontend, on_backend, read_backend_type_byte, write_frontend, read_frontend_through,
}
use postgread.Convey.Moves.{read_frontend_through_lem}
use postgread.Convey.Go.{
  relay_backend, tls_supported, tls_not_supported, initial_inside_tls, enter_tls,
  after_tls_response, first_initial, negotiate, conveying, go, ConveyResult,
}
use postgread.Convey.Protocol.{kind_of}
use postgread.Convey.Relay.{relay_backend_lem}
use postgread.Convey.Gate.{is_success, is_statement, is_gated, conveying-is_gated}

abbrev IsQuiet : Message → Type 0
IsQuiet message = (is_success (kind_of message) ≡ false) × (is_statement (kind_of message) ≡ false)

append-is_gated :
    (xs ys : List Message) → All IsQuiet xs → is_gated ys ≡ true → is_gated (xs ++ ys) ≡ true
append-is_gated [] ys q h = h
append-is_gated (x ∷ xs) ys ((fails, silent), q) h = rw (fails, silent) (append-is_gated xs ys q h)

abbrev IsStart : Option State → Type 0
IsStart none = Unit
IsStart (some state) = state ≡ State.got_startup

module _ {front back : Channel} where
  -- What has been logged, and where the conversation starts if it does.
  abbrev Opens : Conveyor front back → Conveyor front back → Option State → Type 0
  Opens c c' next =
      (messages : List Message) × (c'.log ≡ c.log ++ messages) × All IsQuiet messages × IsStart next

  initial_inside_tls_lem :
      (x : Initial) (c : Conveyor front back) {next : Option State}
      → (initial_inside_tls x c).0 ≡ ok next
      → ((initial_inside_tls x c).1.log ≡ c.log) × IsStart next
  unfolding initial_inside_tls
  initial_inside_tls_lem (Initial.startup s) c {next} h =
      let same : some State.got_startup ≡ next = cc in (refl, rw (← same) refl)
  initial_inside_tls_lem (Initial.cancel s) c {next} h =
      let same : none ≡ next = cc in (refl, rw (← same) tt)
  initial_inside_tls_lem Initial.tls c h = cc

  enter_tls_lem :
      (c : Conveyor front back) {next : Option State}
      → (enter_tls c).0 ≡ ok next
      → Opens c (enter_tls c).1 next
  unfolding enter_tls write_frontend
  enter_tls_lem c h =
      let reading =
        read_frontend_through {front = front} {back = back} initial_msg FrontendMsg.initial in
      let switching = on_frontend {front = front} {back = back} (switch_to_tls front) in
      let writing = write_frontend {front = front} {back = back} (tls_supported ∷ []) in
      let (u, e, k) = >>=-eq-ok writing (λ _. switching >> (reading >>= initial_inside_tls)) c h in
      let c1 = (writing c).1 in
      let (u', e', k') = >>=-eq-ok switching (λ _. reading >>= initial_inside_tls) c1 (rw k at h) in
      let c2 = (switching c1).1 in
      let (x, e'', k'') = >>=-eq-ok reading initial_inside_tls c2 (rw (k, k') at h) in
      let (body, decoded, (came, went, logged, still, quiet)) =
        read_frontend_through_lem initial_msg FrontendMsg.initial c2 e'' in
      let (same, starts) = initial_inside_tls_lem x (reading c2).1 (rw (k, k', k'') at h) in
      rw (k, k', k'')
        (Message.frontend (FrontendMsg.initial x) ∷ [], same ∙ logged, ((refl, refl), tt), starts)

  -- The arm of a backend that knows no TLS.
  abbrev refused : ConveyResult front back (Option State)
  refused = do relay_backend BackendType.error_response; pure none

  refused_lem :
      (c : Conveyor front back) {next : Option State}
      → (refused c).0 ≡ ok next
      → Opens c (refused c).1 next
  refused_lem c {next} h =
      let relaying = relay_backend {front = front} {back = back} BackendType.error_response in
      let (u, e, k) = >>=-eq-ok relaying (λ _. pure none) c h in
      let same : none ≡ next = cc (rw k at h) in
      let (message, kind, (body, from, framed, (came, went, logged, still, quiet))) =
        relay_backend_lem BackendType.error_response c e in
      rw (k, ← same) (message ∷ [], logged, ((rw kind refl, rw kind refl), tt), tt)

  after_tls_response_lem :
      (n : ℕ) (c : Conveyor front back) {next : Option State}
      → (after_tls_response n c).0 ≡ ok next
      → Opens c (after_tls_response n c).1 next
  unfolding after_tls_response
  after_tls_response_lem n c h = elim (Bool-cases (n == tls_not_supported)) [
    | inl plain ↦ rw plain (enter_tls_lem c (rw plain at h))
    | inr more ↦ elim (Bool-cases (n == tls_supported)) [
      | inl secure ↦
          let switching = on_backend {front = front} {back = back} (switch_to_tls back) in
          let (u, e, k) = >>=-eq-ok switching (λ _. enter_tls) c (rw (more, secure) at h) in
          rw (more, secure, k) (enter_tls_lem (switching c).1 (rw (more, secure, k) at h))
      | inr other ↦ elim (Bool-cases (n == error_response_type_byte)) [
        | inl old ↦ rw (more, other, old) (refused_lem c (rw (more, other, old) at h))
        | inr unknown ↦ cc (rw (more, other, unknown) at h)
      ]
    ]
  ]

  pub first_initial_lem :
      (x : Initial) (c : Conveyor front back) {next : Option State}
      → (first_initial x c).0 ≡ ok next
      → Opens c (first_initial x c).1 next
  unfolding first_initial read_backend_type_byte
  first_initial_lem (Initial.startup s) c {next} h =
      let same : some State.got_startup ≡ next = cc in
      ([], sym (append-nil c.log), tt, rw (← same) refl)
  first_initial_lem (Initial.cancel s) c {next} h =
      let same : none ≡ next = cc in ([], sym (append-nil c.log), tt, rw (← same) tt)
  first_initial_lem Initial.tls c h =
      let (n, e, k) =
        >>=-eq-ok (read_backend_type_byte {front = front} {back = back}) after_tls_response c h in
      rw k (after_tls_response_lem n (read_backend_type_byte c).1 (rw k at h))

  negotiate_lem :
      (c : Conveyor front back) {next : Option State}
      → (negotiate c).0 ≡ ok next
      → Opens c (negotiate c).1 next
  unfolding negotiate
  negotiate_lem c h =
      let reading =
        read_frontend_through {front = front} {back = back} initial_msg FrontendMsg.initial in
      let (x, e, k) = >>=-eq-ok reading first_initial c h in
      let (body, decoded, (came, went, logged, still, quiet)) =
        read_frontend_through_lem initial_msg FrontendMsg.initial c e in
      let (messages, same, silent, starts) = first_initial_lem x (reading c).1 (rw k at h) in
      rw k (
        Message.frontend (FrontendMsg.initial x) ∷ messages,
        rw (same, logged, append_assoc) refl,
        ((refl, refl), silent),
        starts,
      )

  conveying-Gated :
      (ready : List Side) (state : Option State) (c : Conveyor front back) {next : Option State}
      → IsStart state
      → (conveying ready state c).0 ≡ ok next
      → (messages : List Message) × ((conveying ready state c).1.log ≡ c.log ++ messages)
        × (is_gated messages ≡ true)
  unfolding conveying
  conveying-Gated ready none c s h = ([], sym (append-nil c.log), refl)
  conveying-Gated ready (some state) c s h = rw s (conveying-is_gated ready c (rw s at h))

  -- A whole run of `go`, TLS or not, however the two sides take turns: as long as it reports no error,
  -- the callback is called with no statement, sync or termination of the frontend before the backend's
  -- message that the authentication has succeeded.
  pub go-is_gated :
      (ready : List Side) (c : Conveyor front back) {next : Option State}
      → (go ready c).0 ≡ ok next
      → (messages : List Message) × ((go ready c).1.log ≡ c.log ++ messages)
        × (is_gated messages ≡ true)
  unfolding go
  go-is_gated ready c h =
      let (start, e, k) = >>=-eq-ok negotiate (conveying ready) c h in
      let (xs, logged, silent, starts) = negotiate_lem c e in
      let (ys, logged', gated) = conveying-Gated ready start (negotiate c).1 starts (rw k at h) in
      rw k (xs ++ ys, rw (logged', logged, append_assoc) refl, append-is_gated xs ys silent gated)
