-- ===== src/Msg/Decode/Reads.antt =====
-- Completeness of the decoders of src/msg: what a decoder returns on bytes of a given form.
use postgread.Prelude.{
  ℕ, ◌≡◌, refl, List, [], ◌∷◌, ◌++◌, length, append_assoc, append-nil, subst, NoNull, u8_bytes,
  u16_bytes, u32_bytes, u8_of, u16_of, u32_of, u16_of-bytes, u32_of-bytes, length-u16_bytes,
  length-u32_bytes,
}
use postgread.Msg.Decode.{
  ok, Decoder, pure, ◌>>=◌, take_bounded, take_u8, take_u16, take_u32, take_vec, take_slice,
  take_until_null,
}
use postgread.Msg.Decode.Cursor.{at, take_bounded-at, take_until_null-at}

-- The decoder takes just `used`, whatever precedes and follows it, and returns `a`.
abbrev pub Reads {ℓ} : {A : Type ℓ} → Decoder A → List ℕ → A → Type ℓ
Reads d used a =
    (front rest : List ℕ) → d (at front (used ++ rest)) ≡ (ok a, at (front ++ used) rest)

-- The decoder takes all that is left, `used`, and returns `a`.
abbrev pub ReadsAll {ℓ} : {A : Type ℓ} → Decoder A → List ℕ → A → Type ℓ
ReadsAll d used a = (front : List ℕ) → d (at front used) ≡ (ok a, at (front ++ used) [])

module _ {ℓ} {A : Type ℓ} where
  pub Reads-pure : (a : A) → Reads (pure a) [] a
  Reads-pure a front rest = rw append-nil

  pub ReadsAll-of : (d : Decoder A) (used : List ℕ) (a : A) → Reads d used a → ReadsAll d used a
  ReadsAll-of d used a r front =
      subst (λ t. d (at front t) ≡ (ok a, at (front ++ used) [])) (append-nil used) (r front [])

module _ {ℓ κ} {A : Type ℓ} {B : Type κ} (d : Decoder A) (f : A → Decoder B) where
  pub Reads-bind :
      (u v : List ℕ) (a : A) (b : B) → Reads d u a → Reads (f a) v b → Reads (d >>= f) (u ++ v) b
  Reads-bind u v a b r q front rest =
      rw (append_assoc u v rest, r front (v ++ rest), q (front ++ u) rest, append_assoc front u v)

  pub ReadsAll-bind :
      (u v : List ℕ) (a : A) (b : B)
      → Reads d u a
      → ReadsAll (f a) v b
      → ReadsAll (d >>= f) (u ++ v) b
  ReadsAll-bind u v a b r q front = rw (r front v, q (front ++ u), append_assoc front u v)

-- A value made of what a decoder returns.
pub Reads-map :
    {A B : Type 0} (d : Decoder A) (make : A → B) (used : List ℕ) (a : A)
    → Reads d used a
    → Reads (d >>= λ a. pure (make a)) used (make a)
Reads-map d make used a r front rest = rw (r front rest)

pub ReadsAll-map :
    {A B : Type 0} (d : Decoder A) (make : A → B) (used : List ℕ) (a : A)
    → ReadsAll d used a
    → ReadsAll (d >>= λ a. pure (make a)) used (make a)
ReadsAll-map d make used a r front = rw (r front)

pub take_bounded-Reads {ℓ} :
    {A : Type ℓ} (decode : List ℕ → A) (n : ℕ) (used : List ℕ) (a : A)
    → length used ≡ n
    → decode used ≡ a
    → Reads (take_bounded n decode) used a
take_bounded-Reads decode n used a e h front rest =
    rw (← e, ← h) (take_bounded-at decode front used rest)

pub take_u8-Reads : (n : ℕ) → Reads take_u8 (u8_bytes n) n
unfolding take_u8 u8_bytes
take_u8-Reads n = take_bounded-Reads u8_of 1 (u8_bytes n) n refl refl

pub take_u16-Reads : (n : ℕ) → Reads take_u16 (u16_bytes n) n
unfolding take_u16
take_u16-Reads n = take_bounded-Reads u16_of 2 (u16_bytes n) n (length-u16_bytes n) (u16_of-bytes n)

pub take_u32-Reads : (n : ℕ) → Reads take_u32 (u32_bytes n) n
unfolding take_u32
take_u32-Reads n = take_bounded-Reads u32_of 4 (u32_bytes n) n (length-u32_bytes n) (u32_of-bytes n)

pub take_vec-Reads : (bytes : List ℕ) → Reads (take_vec (length bytes)) bytes bytes
unfolding take_vec
take_vec-Reads bytes = take_bounded-Reads (λ s. s) (length bytes) bytes bytes refl refl

pub take_slice-Reads :
    (buffer bytes : List ℕ) → length bytes ≡ length buffer → Reads (take_slice buffer) bytes bytes
unfolding take_slice
take_slice-Reads buffer bytes e = take_bounded-Reads (λ s. s) (length buffer) bytes bytes e refl

-- A text and the null byte that ends it.
unfoldable pub text_bytes : List ℕ → List ℕ
text_bytes text = text ++ 0 ∷ []

pub take_until_null-Reads :
    (text : List ℕ) → NoNull text → Reads take_until_null (text_bytes text) text
unfolding text_bytes
take_until_null-Reads text h front rest =
    rw (append_assoc text (0 ∷ []) rest) (take_until_null-at front text rest h)
