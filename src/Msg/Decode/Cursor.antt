-- ===== src/Msg/Decode/Cursor.antt =====
-- How the operations of src/msg/util/decode.rs move the cursor, for a source that is split where
-- the cursor stands.
use postgread.Prelude.{
  ℕ, zero, suc, ◌+◌, ◌-◌, ◌<◌, ◌≡◌, refl, sym, ap, List, [], ◌∷◌, ◌++◌, none, some, length, arith,
  append_assoc, length-append, take-length_append, drop-length_append, le→leb, lt→leb, ◌⊎◌, inl,
  inr, NoNull,
}
use native.Mathlib.Nat.{add-sub_cancel_left}
use postgread.Msg.Decode.{
  ok, err, need_more_bytes, no_null_byte, BytesSource, take_bounded, take_until_null, null_loop,
}

-- The source that has taken `front` and has `rest` left.
abbrev pub at : List ℕ → List ℕ → BytesSource
at front rest = record { slice = front ++ rest; pos = length front }

-- A source that failed for want of bytes: its cursor stands at the end.
abbrev pub at_end : List ℕ → List ℕ → BytesSource
at_end front rest = record { slice = front ++ rest; pos = length (front ++ rest) }

pub at-append :
    (front used rest : List ℕ)
    → record { slice = front ++ (used ++ rest); pos = length front + length used }
      ≡ at (front ++ used) rest
at-append front used rest = λ i. record {
  slice = sym (append_assoc front used rest) i;
  pos = sym (length-append front used) i;
}

module _ {ℓ} {A : Type ℓ} (decode : List ℕ → A) where
  pub take_bounded-at :
      (front used rest : List ℕ)
      → take_bounded (length used) decode (at front (used ++ rest))
        ≡ (ok (decode used), at (front ++ used) rest)
  unfolding take_bounded
  take_bounded-at front used rest =
      rw
        (
          le→leb (length front + length used) (length (front ++ (used ++ rest)))
              (omega (arith, length-append front (used ++ rest), length-append used rest)),
          drop-length_append front (used ++ rest),
          take-length_append used rest,
        )
        (ap (λ s. (ok (decode used), s)) (at-append front used rest))

  pub take_bounded_short :
      (n : ℕ) (front rest : List ℕ)
      → length rest < n
      → take_bounded n decode (at front rest)
        ≡ (err (need_more_bytes (n - length rest)), at_end front rest)
  unfolding take_bounded
  take_bounded_short n front rest h =
      let e = length-append front rest in
      rw (
        lt→leb (length front + n) (length (front ++ rest)) (omega (arith, e)),
        (let d : length (front ++ rest) - length front ≡ length rest = omega (arith, e) in d),
      )

null_loop-append :
    (used rest : List ℕ) (i : ℕ)
    → NoNull used
    → null_loop (used ++ 0 ∷ rest) i ≡ some (i + length used)
unfolding null_loop
null_loop-append [] rest i h = ap some (omega arith)
null_loop-append (b ∷ bs) rest i h = ground (arith, null_loop-append bs rest (i + 1) h.1)

null_loop-none : (rest : List ℕ) (i : ℕ) → NoNull rest → null_loop rest i ≡ none
unfolding null_loop
null_loop-none [] i h = refl
null_loop-none (b ∷ bs) i h = ground (arith, null_loop-none bs (i + 1) h.1)

-- A text up to its first null byte.
pub take_until_null-at :
    (front used rest : List ℕ)
    → NoNull used
    → take_until_null (at front (used ++ 0 ∷ rest)) ≡ (ok used, at (front ++ (used ++ 0 ∷ [])) rest)
unfolding take_until_null
take_until_null-at front used rest h =
    rw (drop-length_append front (used ++ 0 ∷ rest), null_loop-append used rest (length front) h)
      (rw
        (
          drop-length_append front (used ++ 0 ∷ rest),
          add-sub_cancel_left (length front) (length used),
          take-length_append used (0 ∷ rest),
        )
        (λ i. (ok used, record { slice = slices i; pos = positions i })))
  where
    slices : front ++ (used ++ 0 ∷ rest) ≡ (front ++ (used ++ 0 ∷ [])) ++ rest
    slices = simp append_assoc

    positions : length front + length used + 1 ≡ length (front ++ (used ++ 0 ∷ []))
    positions = omega (arith, length-append front (used ++ 0 ∷ []), length-append used (0 ∷ []))

pub take_until_null_endless :
    (front rest : List ℕ)
    → NoNull rest
    → take_until_null (at front rest) ≡ (err no_null_byte, at_end front rest)
unfolding take_until_null
take_until_null_endless front rest h =
    rw (drop-length_append front rest) (rw (null_loop-none rest (length front) h))

-- Any bytes hold a first null byte, or none.
pub null-cases :
    (bytes : List ℕ)
    → NoNull bytes ⊎ ((used : List ℕ) × (rest : List ℕ) × NoNull used × (bytes ≡ used ++ 0 ∷ rest))
null-cases [] = inl tt
null-cases (zero ∷ bs) = inr ([], bs, tt, refl)
null-cases (suc b ∷ bs) = elim (null-cases bs) [
  | inl h ↦ inl (omega arith, h)
  | inr (used, rest, h, e) ↦ inr (suc b ∷ used, rest, (omega arith, h), ap (λ t. suc b ∷ t) e)
]

-- Any bytes hold `n` bytes and a rest, or are fewer.
pub split-cases :
    (n : ℕ) (bytes : List ℕ)
    → (length bytes < n)
      ⊎ ((used : List ℕ) × (rest : List ℕ) × (length used ≡ n) × (bytes ≡ used ++ rest))
split-cases zero bytes = inr ([], bytes, refl, refl)
split-cases (suc n) [] = inl (omega arith)
split-cases (suc n) (b ∷ bs) = elim (split-cases n bs) [
  | inl h ↦ inl (omega arith)
  | inr (used, rest, h, e) ↦ inr (b ∷ used, rest, ap suc h, ap (λ t. b ∷ t) e)
]
