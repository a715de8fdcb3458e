-- ===== src/Msg/Read/Header.antt =====
-- `alloc_vec` and `put_header` of src/msg/util/read.rs: when the header fits, and what it is.
use postgread.Prelude.{
  ℕ, suc, ◌+◌, ◌-◌, ◌^◌, ◌≤◌, ◌<◌, ◌≡◌, refl, ap, List, [], ◌∷◌, ◌++◌, Option, none, some, ok, err,
  replicate, u8_bytes, u32_bytes, arith, replicate-add, length-u32_bytes, length-replicate, ◌⊎◌,
  inl, inr,
}
use native.Mathlib.Nat.{mod-eq_of_lt, zero-add}
use native.Mathlib.Decide.{dec_lt}
use postgread.Msg.TypeByte.{TypeByte, into}
use postgread.Msg.Encode.{
  new, out_of_space, put_u8, put_u32, put_bounded, put_bounded-at, put_bounded_full, at,
}
use postgread.Msg.Read.{type_len, alloc_vec, put_header}

-- The bytes in front of a body: the type, where the message has one, and the length.
unfoldable pub type_bytes : Option TypeByte → List ℕ
type_bytes (some t) = u8_bytes (into t)
type_bytes none = []

-- The length counts its own four bytes, and with the type it is a `u32`.
abbrev pub Fits : Option TypeByte → ℕ → Type 0
Fits t n = (4 ≤ n) × (type_len t + n < 4294967296)

put_u8-at :
    (n : ℕ) (done free : List ℕ)
    → put_u8 n (at done (0 ∷ free)) ≡ (ok tt, at (done ++ u8_bytes n) free)
unfolding put_u8 u8_bytes
put_u8-at n done free = put_bounded-at done (0 ∷ []) free (n ∷ []) refl

put_u32-at :
    (n k : ℕ) (done : List ℕ)
    → 4 ≤ k
    → put_u32 n (at done (replicate k 0)) ≡ (ok tt, at (done ++ u32_bytes n) (replicate (k - 4) 0))
unfolding put_u32
put_u32-at n k done h = rw (split) (
    put_bounded-at done (replicate 4 0) (replicate (k - 4) 0) (u32_bytes n)
      (unfold u32_bytes in refl))
  where
    split : replicate {A = ℕ} k 0 ≡ replicate 4 0 ++ replicate (k - 4) 0
    split = rw (← replicate-add {A = ℕ} 4 (k - 4) 0) (ap (λ m. replicate {A = ℕ} m 0) (omega arith))

put_u32_full :
    (n k : ℕ) (done : List ℕ)
    → k < 4
    → (put_u32 n (at done (replicate k 0))).0 ≡ err (out_of_space (4 - k))
unfolding put_u32
put_u32_full n k done h =
    rw
      (put_bounded_full done (replicate k 0) (u32_bytes n)
        (omega (arith, length-replicate {A = ℕ} k 0, length-u32_bytes n)))
      (rw (length-replicate {A = ℕ} k 0, length-u32_bytes n))

pub put_header-Fits :
    (t : Option TypeByte) (n : ℕ)
    → Fits t n
    → put_header t n (new (alloc_vec t n))
      ≡ (ok tt, at (type_bytes t ++ u32_bytes n) (replicate (n - 4) 0))
unfolding put_header alloc_vec new type_bytes
put_header-Fits none n h =
    rw (mod-eq_of_lt (let l : 0 + n < 2 ^ 32 = omega arith in l), zero-add n)
      (put_u32-at n n [] h.0)
put_header-Fits (some t) n h =
    rw
      (
        mod-eq_of_lt (let l : 1 + n < 2 ^ 32 = omega arith in l),
        (let e : 1 + n ≡ suc n = omega arith in e),
        put_u8-at (into t) [] (replicate n 0),
      )
      (put_u32-at n n (u8_bytes (into t)) h.0)

-- A length that does not count its own four bytes is refused: the header does not fit.
pub put_header_short :
    (t : Option TypeByte) (n : ℕ)
    → n < 4
    → (put_header t n (new (alloc_vec t n))).0 ≡ err (out_of_space (4 - n))
unfolding put_header alloc_vec new type_bytes
put_header_short none n h =
    rw (mod-eq_of_lt (let l : 0 + n < 2 ^ 32 = omega arith in l), zero-add n)
      (put_u32_full n n [] h)
put_header_short (some t) n h =
    rw
      (
        mod-eq_of_lt (let l : 1 + n < 2 ^ 32 = omega arith in l),
        (let e : 1 + n ≡ suc n = omega arith in e),
        put_u8-at (into t) [] (replicate n 0),
      )
      (put_u32_full n n (u8_bytes (into t)) h)

-- With a type the greatest length wraps to an empty vector, and there is no room for the type.
pub put_header_wraps :
    (t : TypeByte)
    → (put_header (some t) 4294967295 (new (alloc_vec (some t) 4294967295))).0
      ≡ err (out_of_space 1)
unfolding put_header alloc_vec new put_u8 put_bounded u8_bytes
put_header_wraps t = refl

-- A `u32` fits, or is too short, or wraps.
pub Fits-cases :
    (t : Option TypeByte) (n : ℕ)
    → n < 4294967296
    → Fits t n ⊎ ((n < 4) ⊎ ((k : TypeByte) × (t ≡ some k) × (n ≡ 4294967295)))
Fits-cases none n h = elim (dec_lt n 4) [
  | yes short ↦ inr (inl short)
  | no enough ↦ inl (omega arith, omega arith)
]
Fits-cases (some t) n h = elim (dec_lt n 4) [
  | yes short ↦ inr (inl short)
  | no enough ↦ elim (dec_lt n 4294967295) [
    | yes fits ↦ inl (omega arith, omega arith)
    | no wraps ↦ inr (inr (t, refl, omega arith))
  ]
]
