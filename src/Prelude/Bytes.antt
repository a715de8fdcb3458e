-- ===== src/Prelude/Bytes.antt =====
-- Bytes as numbers, and the standard library's `from_be_bytes` and `to_be_bytes`.
use Prim.Native.Nat.{ℕ, ◌+◌, ◌*◌, ◌/◌, ◌%◌, ◌<◌}
use mathlib.Core.Path.{◌≡◌, refl}
use mathlib.Core.List.{List, [], ◌∷◌, ◌++◌}
use native.Mathlib.Omega.{arith}
use postgread.Prelude.Lists.{length, get_or, All}

abbrev pub IsByte : ℕ → Type 0
IsByte b = b < 256

abbrev pub AllBytes : List ℕ → Type 0
AllBytes = All IsByte

-- No byte of a text is 0.
abbrev pub NoNull : List ℕ → Type 0
NoNull = All (λ b. 0 < b)

abbrev pub u8_of : List ℕ → ℕ
u8_of s = get_or s 0 0

-- `from_be_bytes` on two and on four bytes.
abbrev pub u16_of : List ℕ → ℕ
u16_of s = get_or s 0 0 * 256 + get_or s 1 0

abbrev pub u32_of : List ℕ → ℕ
u32_of s = ((get_or s 0 0 * 256 + get_or s 1 0) * 256 + get_or s 2 0) * 256 + get_or s 3 0

-- `to_be_bytes`.
unfoldable pub u8_bytes : ℕ → List ℕ
u8_bytes n = n ∷ []

unfoldable pub u16_bytes : ℕ → List ℕ
u16_bytes n = (n / 256) ∷ (n % 256) ∷ []

unfoldable pub u32_bytes : ℕ → List ℕ
u32_bytes n = (n / 16777216) ∷ (n / 65536 % 256) ∷ (n / 256 % 256) ∷ (n % 256) ∷ []

pub u16_of-bytes : (n : ℕ) → u16_of (u16_bytes n) ≡ n
unfolding u16_bytes
u16_of-bytes n = omega arith

pub u32_of-bytes : (n : ℕ) → u32_of (u32_bytes n) ≡ n
unfolding u32_bytes
u32_of-bytes n = omega arith

pub length-u8_bytes : (n : ℕ) → length (u8_bytes n) ≡ 1
unfolding u8_bytes
length-u8_bytes n = refl

pub length-u16_bytes : (n : ℕ) → length (u16_bytes n) ≡ 2
unfolding u16_bytes
length-u16_bytes n = refl

pub length-u32_bytes : (n : ℕ) → length (u32_bytes n) ≡ 4
unfolding u32_bytes
length-u32_bytes n = refl

pub u8_bytes-of :
    (s : List ℕ) → length s ≡ 1 → AllBytes s → (u8_of s < 256) × (s ≡ u8_bytes (u8_of s))
unfolding u8_bytes
u8_bytes-of [] e h = absurd (omega arith)
u8_bytes-of (a ∷ []) e h = (h.0, refl)
u8_bytes-of (a ∷ b ∷ s) e h = absurd (omega arith)

pub u16_bytes-of :
    (s : List ℕ) → length s ≡ 2 → AllBytes s → (u16_of s < 65536) × (s ≡ u16_bytes (u16_of s))
unfolding u16_bytes
u16_bytes-of [] e h = absurd (omega arith)
u16_bytes-of (a ∷ []) e h = absurd (omega arith)
u16_bytes-of (a ∷ b ∷ []) e h = (omega arith, ground arith)
u16_bytes-of (a ∷ b ∷ c ∷ s) e h = absurd (omega arith)

pub u32_bytes-of :
    (s : List ℕ) → length s ≡ 4 → AllBytes s → (u32_of s < 4294967296) × (s ≡ u32_bytes (u32_of s))
unfolding u32_bytes
u32_bytes-of [] e h = absurd (omega arith)
u32_bytes-of (a ∷ []) e h = absurd (omega arith)
u32_bytes-of (a ∷ b ∷ []) e h = absurd (omega arith)
u32_bytes-of (a ∷ b ∷ c ∷ []) e h = absurd (omega arith)
u32_bytes-of (a ∷ b ∷ c ∷ d ∷ []) e h = (omega arith, ground arith)
u32_bytes-of (a ∷ b ∷ c ∷ d ∷ x ∷ s) e h = absurd (omega arith)

-- The bytes of the items, one after the other.
unfoldable pub items_bytes : {A : Type 0} → (A → List ℕ) → List A → List ℕ
items_bytes item_bytes [] = []
items_bytes item_bytes (x ∷ xs) = item_bytes x ++ items_bytes item_bytes xs
