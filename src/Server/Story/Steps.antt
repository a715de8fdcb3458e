-- ===== src/Server/Story/Steps.antt =====
-- A step of a run of src/server.rs, and what has been printed about each client by then.
use postgread.Prelude.{
  ℕ, zero, suc, ◌<◌, ◌≡◌, refl, sym, ap, ◌∙◌, ◌≢◌, ◌⊎◌, inl, inr, ◌==◌, Bool-cases, List, [], ◌∷◌,
  ◌++◌, Option, none, some, length, get_elem?, update, arith, append-nil, get_elem-update,
  get_elem-update_other, subst,
}
use postgread.Server.Platform.{Platform}
use postgread.Server.Setup.{Server}
use postgread.Server.Client.{
  Line, dump_msg, Client, accepted, numbered, announced, connecting, conveying, ended, Answers,
  Turned, turn,
}
use postgread.Server.Ids.{id_of, id_at, id_at-accepted, id_at-kept, id_at-new, IsNumbered}
use postgread.Server.Counter.{turn-id}
use postgread.Server.Story.{told, told-append, IsStory, silent, greeted, conveyed, Tells}
use postgread.Server.Story.Turns.{turn-other, turn-Tells}

module _ {p : Platform} where
  id_at-get :
      (cs : List (Client p)) (i : ℕ) (c : Client p) → get_elem? cs i ≡ some c → id_at cs i ≡ id_of c
  unfolding get_elem?
  id_at-get [] i c e = cc
  id_at-get (b ∷ cs) zero c e = let h : b ≡ c = cc in ap id_of h
  id_at-get (b ∷ cs) (suc i) c e = id_at-get cs i c e

  abbrev pub Holds : List (Client p) → ℕ → Type 0
  Holds cs k = (i : ℕ) × (c : Client p) × (get_elem? cs i ≡ some c) × (id_of c ≡ some k)

  id-cases : (c : Client p) (k : ℕ) → (id_of c ≡ some k) ⊎ (id_of c ≢ some k)
  id-cases c k = by (id_of c)
    where
      by : (o : Option ℕ) → (o ≡ some k) ⊎ (o ≢ some k)
      by none = inr (λ e. cc)
      by (some n) = elim (Bool-cases (n == k)) [
        | inl e ↦ inl (ap some (ground arith))
        | inr e ↦ inr (λ h. let q : n ≡ k = cc in ground arith)
      ]

  pub find : (cs : List (Client p)) (k : ℕ) → Holds cs k ⊎ ((i : ℕ) → id_at cs i ≢ some k)
  unfolding get_elem?
  find [] k = inr (λ i e. cc)
  find (c ∷ cs) k = elim (id-cases c k) [
    | inl e ↦ inl (zero, c, refl, e)
    | inr h ↦ elim (find cs k) [
      | inl (i, d, e, f) ↦ inl (suc i, d, e, f)
      | inr others ↦ inr (nowhere h others)
    ]
  ]
    where
      nowhere :
          id_of c ≢ some k → ((i : ℕ) → id_at cs i ≢ some k) → (i : ℕ) → id_at (c ∷ cs) i ≢ some k
      nowhere h others zero = h
      nowhere h others (suc i) = others i

  pub Tells-IsStory :
      (c : Client p) (k : ℕ) (lines : List (Line p))
      → id_of c ≡ some k
      → Tells c lines
      → IsStory k lines
  Tells-IsStory (accepted s) k lines e t = rw t silent
  Tells-IsStory (numbered n s) k lines e t = rw t silent
  Tells-IsStory (announced port n s) k lines e (q, (addr, t)) =
      let same : n ≡ k = cc in rw (t, same) (greeted port addr)
  Tells-IsStory (connecting port n endpoint s) k lines e (addr, t) =
      let same : n ≡ k = cc in rw (t, same) (greeted port addr)
  Tells-IsStory (conveying port n s u rounds calls) k lines e (addr, now, local, t) =
      let same : n ≡ k = cc in rw (t, same) (conveyed port addr now local)
  Tells-IsStory (ended n) k lines e t = let same : n ≡ k = cc in subst (λ j. IsStory j lines) same t

  none-Tells : (c : Client p) (lines : List (Line p)) → id_of c ≡ none → lines ≡ [] → Tells c lines
  none-Tells (accepted s) lines e t = t
  none-Tells (numbered n s) lines e t = cc
  none-Tells (announced port n s) lines e t = cc
  none-Tells (connecting port n endpoint s) lines e t = cc
  none-Tells (conveying port n s u rounds calls) lines e t = cc
  none-Tells (ended n) lines e t = cc

  get-accepted :
      (cs : List (Client p)) (s : p.TcpStream) (i k : ℕ) (c : Client p)
      → get_elem? (cs ++ accepted s ∷ []) i ≡ some c
      → id_of c ≡ some k
      → get_elem? cs i ≡ some c
  unfolding get_elem?
  get-accepted [] s zero k c e f =
      let h : accepted s ≡ c = cc in let q : none ≡ some k = ap id_of h ∙ f in cc
  get-accepted [] s (suc i) k c e f = cc
  get-accepted (b ∷ cs) s zero k c e f = e
  get-accepted (b ∷ cs) s (suc i) k c e f = get-accepted cs s i k c e f

  -- Every client's lines tell where it stands, and no line has a number that is not given.
  pub record Told (cs : List (Client p)) (lines : List (Line p)) : Type 0 where
    pub holds :
        (i : ℕ) (c : Client p) (k : ℕ)
        → get_elem? cs i ≡ some c
        → id_of c ≡ some k
        → Tells c (told k lines)
    pub free : (k : ℕ) → ((i : ℕ) → id_at cs i ≢ some k) → told k lines ≡ []

  pub accept-Told :
      (cs : List (Client p)) (s : p.TcpStream) (lines : List (Line p))
      → Told cs lines
      → Told (cs ++ accepted s ∷ []) lines
  accept-Told cs s lines t = record {
    holds = λ i c k e f. t.holds i c k (get-accepted cs s i k c e f) f;
    free = λ k h. t.free k (λ i e. h i (id_at-accepted cs s i ∙ e));
  }

module _ {p : Platform} (server : Server p) where
  module _ (a : Answers p) (cs : List (Client p)) (lines : List (Line p)) (n i : ℕ) (c : Client p)
      (e : get_elem? cs i ≡ some c) (inv : IsNumbered n cs) (t : Told cs lines) where
    abbrev turned : Turned p
    turned = turn server dump_msg a c n

    -- The client that has its turn.
    own-Tells :
        (k : ℕ)
        → id_of turned.client ≡ some k
        → Tells turned.client (told k (lines ++ turned.printed))
    own-Tells k f = rw (told-append k lines turned.printed) (elim (turn-id server dump_msg a c n) [
      | inl (old, new, counter) ↦
          let q : n ≡ k = cc in
          turn-Tells server a c n k (told k lines) (λ m g. cc)
            (none-Tells c (told k lines) old (
              t.free k
                (λ j g. let small = (inv.below j k g).1 in absurd (omega (arith, small, q)))))
      | inr (same, counter) ↦
          let own : id_of c ≡ some k = sym same ∙ f in
          turn-Tells server a c n k (told k lines) (λ m g. cc) (t.holds i c k e own)
    ])

    -- Another client.
    other-Tells :
        (j : ℕ) (d : Client p) (k : ℕ)
        → i ≢ j
        → get_elem? cs j ≡ some d
        → id_of d ≡ some k
        → Tells d (told k (lines ++ turned.printed))
    other-Tells j d k apart f g =
        rw
          (
            told-append k lines turned.printed,
            turn-other server a c n k
                (λ h. apart (inv.unique i j k (id_at-get cs i c e ∙ h) (id_at-get cs j d f ∙ g))),
            append-nil,
          )
          (t.holds j d k f g)

    -- A number that is free after the turn was free before it.
    stays_free :
        (k : ℕ)
        → ((j : ℕ) → id_at (update cs i turned.client) j ≢ some k)
        → (j : ℕ) → id_at cs j ≢ some k
    stays_free k h j f = elim (turn-id server dump_msg a c n) [
      | inl (old, new, counter) ↦ elim (id_at-new cs i n c turned.client e new j) [
        | inl same ↦ h j (same ∙ f)
        | inr (here, it) ↦
            let q : id_at cs i ≡ some k = subst (λ x. id_at cs x ≡ some k) here f in
            let r : none ≡ some k = sym old ∙ (sym (id_at-get cs i c e) ∙ q) in cc
      ]
      | inr (same, counter) ↦ h j (id_at-kept cs i c turned.client e same j ∙ f)
    ]

    pub turn-Told : i < length cs → Told (update cs i turned.client) (lines ++ turned.printed)
    turn-Told few = record {
      holds = λ j d k f g. elim (Bool-cases (i == j)) [
        | inl here ↦
            let q : i ≡ j = ground arith in
            let now : turned.client ≡ d = cc (
              subst (λ x. get_elem? (update cs i turned.client) x ≡ some d) (sym q) f,
              get_elem-update cs i turned.client few,
            ) in
            subst (λ x. Tells x (told k (lines ++ turned.printed))) now
              (own-Tells k (ap id_of now ∙ g))
        | inr there ↦
            let apart : i ≢ j = ground arith in
            other-Tells j d k apart (sym (get_elem-update_other cs i j turned.client apart) ∙ f) g
      ];
      free = λ k h.
          let before = stays_free k h in
          rw
            (
              told-append k lines turned.printed,
              t.free k before,
              turn-other server a c n k (λ f. before i (id_at-get cs i c e ∙ f)),
            )
            refl;
    }
