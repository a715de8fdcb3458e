-- ===== src/Server/Ids.antt =====
-- The numbers that the clients of src/server.rs get from the counter.
use postgread.Prelude.{
  ℕ, zero, suc, ◌+◌, ◌≤◌, ◌<◌, ◌≡◌, refl, sym, ap, ◌∙◌, ◌⊎◌, inl, inr, List, [], ◌∷◌, ◌++◌, Option,
  none, some, length, get_elem?, update, arith,
}
use postgread.Server.Platform.{Platform}
use postgread.Server.Client.{Client, accepted, numbered, announced, connecting, conveying, ended}

abbrev one_for : Option ℕ → ℕ
one_for none = 0
one_for (some k) = 1

one_for_le : (o : Option ℕ) → one_for o ≤ 1
one_for_le none = omega arith
one_for_le (some k) = omega arith

module _ {p : Platform} where
  abbrev pub id_of : Client p → Option ℕ
  id_of (accepted stream) = none
  id_of (numbered client_id stream) = some client_id
  id_of (announced listen_port client_id stream) = some client_id
  id_of (connecting listen_port client_id server_endpoint stream) = some client_id
  id_of (conveying listen_port client_id client server rounds calls) = some client_id
  id_of (ended client_id) = some client_id

  abbrev pub id_at : List (Client p) → ℕ → Option ℕ
  id_at [] i = none
  id_at (c ∷ cs) zero = id_of c
  id_at (c ∷ cs) (suc i) = id_at cs i

  abbrev pub given : List (Client p) → ℕ
  given [] = 0
  given (c ∷ cs) = one_for (id_of c) + given cs

  pub given_le : (cs : List (Client p)) → given cs ≤ length cs
  given_le [] = omega arith
  given_le (c ∷ cs) = omega (arith, given_le cs, one_for_le (id_of c))

  pub id_at-accepted :
      (cs : List (Client p)) (s : p.TcpStream) (j : ℕ)
      → id_at (cs ++ accepted s ∷ []) j ≡ id_at cs j
  id_at-accepted [] s zero = refl
  id_at-accepted [] s (suc j) = refl
  id_at-accepted (c ∷ cs) s zero = refl
  id_at-accepted (c ∷ cs) s (suc j) = id_at-accepted cs s j

  pub given-accepted :
      (cs : List (Client p)) (s : p.TcpStream) → given (cs ++ accepted s ∷ []) ≡ given cs
  given-accepted [] s = omega arith
  given-accepted (c ∷ cs) s = ap (λ n. one_for (id_of c) + n) (given-accepted cs s)

  -- A client that keeps its number.
  pub id_at-kept :
      (cs : List (Client p)) (i : ℕ) (c d : Client p)
      → get_elem? cs i ≡ some c
      → id_of d ≡ id_of c
      → (j : ℕ) → id_at (update cs i d) j ≡ id_at cs j
  unfolding update get_elem?
  id_at-kept [] i c d e same j = refl
  id_at-kept (b ∷ cs) zero c d e same zero = let h : b ≡ c = cc in same ∙ sym (ap id_of h)
  id_at-kept (b ∷ cs) zero c d e same (suc j) = refl
  id_at-kept (b ∷ cs) (suc i) c d e same zero = refl
  id_at-kept (b ∷ cs) (suc i) c d e same (suc j) = id_at-kept cs i c d e same j

  pub given-kept :
      (cs : List (Client p)) (i : ℕ) (c d : Client p)
      → get_elem? cs i ≡ some c
      → id_of d ≡ id_of c
      → given (update cs i d) ≡ given cs
  unfolding update get_elem?
  given-kept [] i c d e same = refl
  given-kept (b ∷ cs) zero c d e same =
      let h : b ≡ c = cc in ap (λ o. one_for o + given cs) (same ∙ sym (ap id_of h))
  given-kept (b ∷ cs) (suc i) c d e same =
      ap (λ n. one_for (id_of b) + n) (given-kept cs i c d e same)

  -- A client that gets its number.
  pub id_at-new :
      (cs : List (Client p)) (i n : ℕ) (c d : Client p)
      → get_elem? cs i ≡ some c
      → id_of d ≡ some n
      → (j : ℕ)
      → (id_at (update cs i d) j ≡ id_at cs j) ⊎ ((j ≡ i) × (id_at (update cs i d) j ≡ some n))
  unfolding update get_elem?
  id_at-new [] i n c d e new j = inl refl
  id_at-new (b ∷ cs) zero n c d e new zero = inr (refl, new)
  id_at-new (b ∷ cs) zero n c d e new (suc j) = inl refl
  id_at-new (b ∷ cs) (suc i) n c d e new zero = inl refl
  id_at-new (b ∷ cs) (suc i) n c d e new (suc j) = elim (id_at-new cs i n c d e new j) [
    | inl same ↦ inl same
    | inr (here, it) ↦ inr (ap suc here, it)
  ]

  given-new :
      (cs : List (Client p)) (i n : ℕ) (c d : Client p)
      → get_elem? cs i ≡ some c
      → id_of c ≡ none
      → id_of d ≡ some n
      → given (update cs i d) ≡ suc (given cs)
  unfolding update get_elem?
  given-new [] i n c d e old new = cc
  given-new (b ∷ cs) zero n c d e old new =
      let h : b ≡ c = cc in let o : id_of b ≡ none = ap id_of h ∙ old in rw (o, new) (omega arith)
  given-new (b ∷ cs) (suc i) n c d e old new = omega (arith, given-new cs i n c d e old new)

  -- So many numbers have been given, all of them positive and below the next one, and none twice.
  pub record IsNumbered (next_client_id : ℕ) (cs : List (Client p)) : Type 0 where
    pub counted : next_client_id ≡ suc (given cs)
    pub below : (i k : ℕ) → id_at cs i ≡ some k → (0 < k) × (k < next_client_id)
    pub unique : (i j k : ℕ) → id_at cs i ≡ some k → id_at cs j ≡ some k → i ≡ j

  pub IsNumbered-same :
      (n : ℕ) (cs ds : List (Client p))
      → given ds ≡ given cs
      → ((j : ℕ) → id_at ds j ≡ id_at cs j)
      → IsNumbered n cs
      → IsNumbered n ds
  IsNumbered-same n cs ds g same h = record {
    counted = rw (g, h.counted);
    below = λ i k e. h.below i k (sym (same i) ∙ e);
    unique = λ i j k e f. h.unique i j k (sym (same i) ∙ e) (sym (same j) ∙ f);
  }

  pub IsNumbered-new :
      (n : ℕ) (cs : List (Client p)) (i : ℕ) (c d : Client p)
      → get_elem? cs i ≡ some c
      → id_of c ≡ none
      → id_of d ≡ some n
      → IsNumbered n cs
      → IsNumbered (suc n) (update cs i d)
  IsNumbered-new n cs i c d e old new h = record {
    counted = rw (given-new cs i n c d e old new, h.counted);
    below = λ j k f. elim (id_at-new cs i n c d e new j) [
      | inl same ↦ let b = h.below j k (sym same ∙ f) in (b.0, omega (arith, b.1))
      | inr (here, it) ↦ let q : n ≡ k = cc in (omega (arith, h.counted, q), omega (arith, q))
    ];
    unique = λ j l k f g. elim (id_at-new cs i n c d e new j) [
      | inl same ↦ elim (id_at-new cs i n c d e new l) [
        | inl same' ↦ h.unique j l k (sym same ∙ f) (sym same' ∙ g)
        | inr (here, it) ↦
            let q : n ≡ k = cc in absurd (omega (arith, q, (h.below j k (sym same ∙ f)).1))
      ]
      | inr (here, it) ↦ elim (id_at-new cs i n c d e new l) [
        | inl same' ↦
            let q : n ≡ k = cc in absurd (omega (arith, q, (h.below l k (sym same' ∙ g)).1))
        | inr (here', it') ↦ here ∙ sym here'
      ]
    ];
  }
