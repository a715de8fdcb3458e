-- ===== src/Convey/Modes/Secure.antt =====
-- What the negotiation of src/convey.rs makes of the two streams.
use postgread.Prelude.Outcome.{continue, ◌>>=◌, ◌>>◌, >>=-eq-ok, pure}
use postgread.Prelude.{
  ℕ, ◌≡◌, refl, sym, ap, ◌∙◌, ◌⊎◌, inl, inr, List, [], ◌∷◌, ◌++◌, Option, none, some, Result, ok,
  err, Bool-cases, ◌==◌, append_assoc, append-nil,
}
use postgread.Msg.Body.ErrorAndNotice.{error_response_type_byte}
use postgread.Msg.Body.Initial.{Initial, initial_msg}
use postgread.Convey.State.{Side, State, Exit}
use postgread.Convey.Message.{FrontendMsg, Message}
use postgread.Convey.Stream.{
  Channel, StreamWrap, plain, tls_handshake, tls, replace_plain_with, put_tls, finish_handshake,
  start_handshake, switch_to_tls,
}
use postgread.Convey.Dispatch.{BackendType}
use postgread.Convey.Conveyor.{
  Conveyor, new, on_frontend, on_backend, read_backend_type_byte, write_bytes, write_frontend,
  read_frontend_through,
}
use postgread.Convey.Moves.{read_frontend_through_lem, read_backend_type_byte_lem}
use postgread.Convey.Go.{
  relay_backend, tls_supported, tls_not_supported, initial_inside_tls, enter_tls,
  after_tls_response, first_initial, negotiate, conveying, go, convey,
}
use postgread.Convey.Protocol.{kind_of, says}
use postgread.Convey.Relay.{relay_backend_lem}
use postgread.Convey.Mirror.{conveying-follow_all}
use postgread.Convey.Opening.{first_initial_lem}
use postgread.Convey.Modes.{
  Mode, in_plain, in_tls, mode, Keeps, Keeps-bind, on_frontend-Keeps, read_backend_type_byte-Keeps,
  read_frontend_through-Keeps, relay_backend-Keeps, conveying-Keeps,
}

put_tls-mode : (c : Channel) (s : c.Tls) (w : StreamWrap c) → mode (put_tls c s w).1 ≡ in_tls
unfolding put_tls mode
put_tls-mode c s (plain x) = refl
put_tls-mode c s tls_handshake = refl
put_tls-mode c s (tls x) = refl

switch_to_tls-mode :
    (c : Channel) (w : StreamWrap c)
    → (switch_to_tls c w).0 ≡ ok tt
    → mode (switch_to_tls c w).1 ≡ in_tls
unfolding switch_to_tls replace_plain_with start_handshake finish_handshake
switch_to_tls-mode c (plain s) h = by (c.handshake s) h
  where
    by :
        (r : Result c.Failure c.Tls)
        → (finish_handshake c r tls_handshake).0 ≡ ok tt
        → mode (finish_handshake c r tls_handshake).1 ≡ in_tls
    by (ok s) e = put_tls-mode c s tls_handshake
    by (err e) k = cc
switch_to_tls-mode c tls_handshake h = cc
switch_to_tls-mode c (tls s) h = cc

module _ {front back : Channel} where
  abbrev front_mode : Conveyor front back → Mode
  front_mode c = mode c.frontend

  abbrev back_mode : Conveyor front back → Mode
  back_mode c = mode c.backend

  initial_inside_tls-Keeps :
      (x : Initial) → Keeps (initial_inside_tls {front = front} {back = back} x)
  unfolding initial_inside_tls
  initial_inside_tls-Keeps (Initial.startup s) c = (refl, refl)
  initial_inside_tls-Keeps (Initial.cancel s) c = (refl, refl)
  initial_inside_tls-Keeps Initial.tls c = (refl, refl)

  enter_tls-mode :
      (c : Conveyor front back) {next : Option State}
      → (enter_tls c).0 ≡ ok next
      → (front_mode (enter_tls c).1 ≡ in_tls) × (back_mode (enter_tls c).1 ≡ back_mode c)
  unfolding enter_tls write_frontend
  enter_tls-mode c h =
      let reading =
        read_frontend_through {front = front} {back = back} initial_msg FrontendMsg.initial in
      let switching = on_frontend {front = front} {back = back} (switch_to_tls front) in
      let writing = write_frontend {front = front} {back = back} (tls_supported ∷ []) in
      let (u, e, k) = >>=-eq-ok writing (λ _. switching >> (reading >>= initial_inside_tls)) c h in
      let c1 = (writing c).1 in
      let (u', e', k') = >>=-eq-ok switching (λ _. reading >>= initial_inside_tls) c1 (rw k at h) in
      let c2 = (switching c1).1 in
      let wrote = on_frontend-Keeps (write_bytes (tls_supported ∷ [])) c in
      let rest =
        Keeps-bind reading initial_inside_tls
          (read_frontend_through-Keeps initial_msg FrontendMsg.initial) initial_inside_tls-Keeps
          c2 in
      rw (k, k') (rest.0 ∙ switch_to_tls-mode front c1.frontend e', rest.1 ∙ wrote.1)

  -- Either the frontend is in TLS, or the backend has refused.
  abbrev Answered : Conveyor front back → Conveyor front back → Option State → Type 0
  Answered c c' start =
      ((front_mode c' ≡ in_tls) × ((back_mode c' ≡ back_mode c) ⊎ (back_mode c' ≡ in_tls)))
      ⊎ ((start ≡ none)
          × (front_mode c' ≡ front_mode c)
          × (back_mode c' ≡ back_mode c)
          × ((m : Message) × (c'.log ≡ c.log ++ m ∷ [])
              × (kind_of m ≡ says BackendType.error_response)))

  after_tls_response-Answered :
      (n : ℕ) (c : Conveyor front back) {start : Option State}
      → (after_tls_response n c).0 ≡ ok start
      → Answered c (after_tls_response n c).1 start
  unfolding after_tls_response
  after_tls_response-Answered n c {start} h = elim (Bool-cases (n == tls_not_supported)) [
    | inl none_there ↦
        let (f, b) = enter_tls-mode c (rw none_there at h) in rw none_there (inl (f, inl b))
    | inr more ↦ elim (Bool-cases (n == tls_supported)) [
      | inl secure ↦
          let switching = on_backend {front = front} {back = back} (switch_to_tls back) in
          let (u, e, k) = >>=-eq-ok switching (λ _. enter_tls) c (rw (more, secure) at h) in
          let (f, b) = enter_tls-mode (switching c).1 (rw (more, secure, k) at h) in
          rw (more, secure, k) (inl (f, inr (b ∙ switch_to_tls-mode back c.backend e)))
      | inr other ↦ elim (Bool-cases (n == error_response_type_byte)) [
        | inl old ↦
            let relaying = relay_backend {front = front} {back = back} BackendType.error_response in
            let (u, e, k) = >>=-eq-ok relaying (λ _. pure none) c (rw (more, other, old) at h) in
            let same : none ≡ start = cc (rw (more, other, old, k) at h) in
            let (message, kind, (body, from, framed, (came, went, logged, still, quiet))) =
              relay_backend_lem BackendType.error_response c e in
            let (f, b) = relay_backend-Keeps BackendType.error_response c in
            rw (more, other, old, k) (inr (sym same, f, b, (message, logged, kind)))
        | inr unknown ↦ cc (rw (more, other, unknown) at h)
      ]
    ]
  ]

  first_initial-Answered :
      (c : Conveyor front back) {start : Option State}
      → (first_initial Initial.tls c).0 ≡ ok start
      → Answered c (first_initial Initial.tls c).1 start
  unfolding first_initial
  first_initial-Answered c h =
      let asking = read_backend_type_byte {front = front} {back = back} in
      let (n, e, k) = >>=-eq-ok asking after_tls_response c h in
      let (came, went, logged, still, quiet) = read_backend_type_byte_lem c e in
      let (f, b) = read_backend_type_byte-Keeps c in
      elim (after_tls_response-Answered n (asking c).1 (rw k at h)) [
        | inl (inside, towards) ↦
            rw k (inl (inside, elim towards [ inl same ↦ inl (same ∙ b) | inr both ↦ inr both ]))
        | inr (over, f', b', (m, logged', kind)) ↦
            rw k (inr (over, f' ∙ f, b' ∙ b, (m, logged' ∙ rw (logged, append-nil) refl, kind)))
      ]

  -- What a run has made of the streams, by the first message: without a request for TLS they are
  -- plain; after one the frontend is in TLS and the backend is plain or in TLS, or both are plain
  -- and the refusal of the backend is all that came.
  abbrev pub IsSecured : Initial → List Message → Conveyor front back → Type 0
  IsSecured Initial.tls messages c =
      ((front_mode c ≡ in_tls) × ((back_mode c ≡ in_plain) ⊎ (back_mode c ≡ in_tls)))
      ⊎ ((front_mode c ≡ in_plain)
          × (back_mode c ≡ in_plain)
          × ((m : Message) × (messages ≡ m ∷ []) × (kind_of m ≡ says BackendType.error_response)))
  IsSecured _ messages c = (front_mode c ≡ in_plain) × (back_mode c ≡ in_plain)

  -- The negotiation behind the first message, and the loop.
  abbrev rest :
      List Side → Initial → Conveyor front back → Result Exit (Option State) × Conveyor front back
  rest ready x = first_initial x >>= conveying ready

  plain_rest :
      (ready : List Side) (start : Option State) (c : Conveyor front back) {next : Option State}
      → (conveying ready start c).0 ≡ ok next
      → (messages : List Message) × ((conveying ready start c).1.log ≡ c.log ++ messages)
        × (front_mode (conveying ready start c).1 ≡ front_mode c)
        × (back_mode (conveying ready start c).1 ≡ back_mode c)
  plain_rest ready start c h =
      let (messages, logged, rules) = conveying-follow_all ready start c h in
      let (f, b) = conveying-Keeps ready start c in (messages, logged, f, b)

  rest-IsSecured :
      (ready : List Side) (x : Initial) (c : Conveyor front back) {next : Option State}
      → (rest ready x c).0 ≡ ok next
      → front_mode c ≡ in_plain
      → back_mode c ≡ in_plain
      → (messages : List Message) × ((rest ready x c).1.log ≡ c.log ++ messages)
        × IsSecured x messages (rest ready x c).1
  unfolding first_initial conveying
  rest-IsSecured ready (Initial.startup s) c h f b =
      let (messages, logged, f', b') = plain_rest ready (some State.got_startup) c h in
      (messages, logged, (f' ∙ f, b' ∙ b))
  rest-IsSecured ready (Initial.cancel s) c h f b =
      let (messages, logged, f', b') = plain_rest ready none c h in
      (messages, logged, (f' ∙ f, b' ∙ b))
  rest-IsSecured ready Initial.tls c h f b =
      let asking = first_initial {front = front} {back = back} Initial.tls in
      let (start, e, k) = >>=-eq-ok asking (conveying ready) c h in
      let (xs, logged, silent, starts) = first_initial_lem Initial.tls c e in
      let (ys, logged', f', b') = plain_rest ready start (asking c).1 (rw k at h) in
      elim (first_initial-Answered c e) [
        | inl (inside, towards) ↦ rw k (
          xs ++ ys,
          rw (logged', logged, append_assoc) refl,
          inl (
            f' ∙ inside,
            elim towards [ inl same ↦ inl (b' ∙ (same ∙ b)) | inr both ↦ inr (b' ∙ both) ],
          ),
        )
        | inr (over, f2, b2, (m, logged2, kind)) ↦
            rw (k, over) (m ∷ [], logged2, inr (f2 ∙ f, b2 ∙ b, (m, refl, kind)))
      ]

-- However the two sides take turns, a run of `convey` that reports no error has read a first message
-- of the frontend. Unless that asked for TLS both sides are plain to the end. If it did, then the
-- frontend is in TLS and the backend plain or in TLS, or both are plain and all that came after it
-- is the backend's error.
pub convey-IsSecured :
    (front back : Channel) (f : front.Plain) (b : back.Plain) (ready : List Side)
    {next : Option State}
    → (convey {front = front} {back = back} f b ready).0 ≡ ok next
    → (x : Initial) × (messages : List Message) × ((convey {front = front} {back = back} f b
          ready).1.log
        ≡ Message.frontend (FrontendMsg.initial x) ∷ messages)
      × IsSecured x messages (convey {front = front} {back = back} f b ready).1
unfolding convey go negotiate new mode
convey-IsSecured front back f b ready h =
    let reading =
      read_frontend_through {front = front} {back = back} initial_msg FrontendMsg.initial in
    let c = new {front = front} {back = back} f b in
    let (start, e, k) = >>=-eq-ok negotiate (conveying ready) c h in
    let (x, e', k') = >>=-eq-ok reading first_initial c e in
    let (body, decoded, (came, went, logged, still, quiet)) =
      read_frontend_through_lem initial_msg FrontendMsg.initial c e' in
    let (f1, b1) = read_frontend_through-Keeps initial_msg FrontendMsg.initial c in
    let whole : go ready c ≡ rest ready x (reading c).1 =
      ap (λ r. continue (conveying ready) r.0 r.1) k' in
    let (messages, logged', secured) = rest-IsSecured ready x (reading c).1 (rw whole at h) f1 b1 in
    rw whole (x, messages, rw (logged', logged) refl, secured)
