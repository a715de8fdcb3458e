-- ===== src/Prelude/Int.antt =====
-- Signed machine integers: the `as i16` and `as i32` of a bit pattern.
use Prim.Native.Nat.{ℕ, suc, ◌-◌, ◌^◌, ◌<◌}
use mathlib.Core.Path.{◌≡◌, refl}
use native.Mathlib.Omega.{arith}
use mathlib.Core.Logic.{◌⊎◌, inl, inr}
use postgread.Prelude.Tests.{Bool-cases, ◌==◌, ltb, if◌then◌else◌}

-- `negsuc n` is -(n + 1).
pub data ℤ : Type 0 where
  pos : ℕ → ℤ
  negsuc : ℕ → ℤ

-- The integer that a two's complement pattern of `w` bits stands for.
unfoldable pub as_signed : ℕ → ℕ → ℤ
as_signed w n = if ltb n (2 ^ (w - 1)) then pos n else negsuc (2 ^ w - n - 1)

-- The pattern of `w` bits of an integer.
unfoldable pub to_pattern : ℕ → ℤ → ℕ
to_pattern w (pos n) = n
to_pattern w (negsuc n) = 2 ^ w - n - 1

pub as_signed_nonneg : (n : ℕ) → n < 2147483648 → as_signed 32 n ≡ pos n
unfolding as_signed
as_signed_nonneg n h = ground arith

pub as_signed_minus_one : as_signed 32 4294967295 ≡ negsuc 0
unfolding as_signed
as_signed_minus_one = refl

-- A pattern of 32 bits is a length, or -1, or less.
pub as_signed-cases :
    (n : ℕ)
    → n < 4294967296
    → ((as_signed 32 n ≡ pos n) × (n < 2147483648))
      ⊎ (((as_signed 32 n ≡ negsuc 0) × (n ≡ 4294967295))
          ⊎ ((k : ℕ) × (as_signed 32 n ≡ negsuc (suc k))))
unfolding as_signed
as_signed-cases n h = elim (Bool-cases (ltb n 2147483648)) [
  | inl small ↦ inl (rw small, ground arith)
  | inr large ↦ inr (elim (Bool-cases (n == 4294967295)) [
    | inl one ↦ inl (ground arith, ground arith)
    | inr more ↦ inr (4294967294 - n, ground arith)
  ])
]

-- A two's complement number of `w` bits.
abbrev pub IsSigned : ℕ → ℤ → Type 0
IsSigned w (pos n) = n < 2 ^ (w - 1)
IsSigned w (negsuc n) = n < 2 ^ (w - 1)

pub as_signed16-to_pattern :
    (z : ℤ) → IsSigned 16 z → (as_signed 16 (to_pattern 16 z) ≡ z) × (to_pattern 16 z < 65536)
unfolding as_signed to_pattern
as_signed16-to_pattern (pos n) h = (ground arith, omega arith)
as_signed16-to_pattern (negsuc n) h = (ground arith, omega arith)

pub to_pattern-as_signed16 :
    (n : ℕ) → n < 65536 → IsSigned 16 (as_signed 16 n) × (to_pattern 16 (as_signed 16 n) ≡ n)
unfolding as_signed to_pattern
to_pattern-as_signed16 n h = elim (Bool-cases (ltb n 32768)) [
  | inl small ↦ rw small (ground arith, refl)
  | inr large ↦ rw large (ground arith, ground arith)
]

pub as_signed32-to_pattern :
    (z : ℤ) → IsSigned 32 z → (as_signed 32 (to_pattern 32 z) ≡ z) × (to_pattern 32 z < 4294967296)
unfolding as_signed to_pattern
as_signed32-to_pattern (pos n) h = (ground arith, omega arith)
as_signed32-to_pattern (negsuc n) h = (ground arith, omega arith)

pub to_pattern-as_signed32 :
    (n : ℕ) → n < 4294967296 → IsSigned 32 (as_signed 32 n) × (to_pattern 32 (as_signed 32 n) ≡ n)
unfolding as_signed to_pattern
to_pattern-as_signed32 n h = elim (Bool-cases (ltb n 2147483648)) [
  | inl small ↦ rw small (ground arith, refl)
  | inr large ↦ rw large (ground arith, ground arith)
]
