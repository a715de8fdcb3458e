-- ===== src/Msg/Decode/Sound.antt =====
-- Soundness of the decoders of src/msg: what a decoder that succeeds has taken. A decoder that
-- fails leaves the slice as it was and its cursor within it, and none runs out of fuel.
use native.Mathlib.Nat.{le_refl}
use postgread.Prelude.{
  Bool, true, false, if◌then◌else◌, ℕ, ◌-◌, ◌<◌, ◌≤◌, ◌≡◌, refl, ap, ◌∙◌, List, [], ◌∷◌, ◌++◌,
  length, arith, append_assoc, append-nil, subst, NoNull, AllBytes, IsByte, u8_bytes, u16_bytes,
  u32_bytes, u8_of, u16_of, u32_of, u8_bytes-of, u16_bytes-of, u32_bytes-of, All-append_left,
  All-append_right, length-append, inl, inr,
}
use postgread.Msg.Decode.{
  DecodeResult, ok, err, Problem, BytesSource, Decoder, pure, fail, continue, ◌>>=◌, take_bounded,
  take_u8, take_u16, take_u32, take_vec, take_slice, take_until_null,
}
use postgread.Msg.Decode.Cursor.{
  at, take_bounded-at, take_bounded_short, take_until_null-at, take_until_null_endless, split-cases,
  null-cases,
}
use postgread.Msg.Decode.Reads.{text_bytes}

pub data Post {A : Type 0} (P : A → List ℕ → Type 0) (front input : List ℕ)
    : DecodeResult A → BytesSource → Type 0 where
  taken :
      {a : A} {s : BytesSource} (used rest : List ℕ)
      → input ≡ used ++ rest
      → s ≡ at (front ++ used) rest
      → P a used
      → Post P front input (ok a) s
  stopped :
      {p : Problem} {s : BytesSource}
      → s.slice ≡ front ++ input
      → s.pos ≤ length s.slice
      → Post P front input (err p) s

-- On any bytes the decoder stops, or takes some and returns a value that satisfies `P` with them.
abbrev pub Sound : {A : Type 0} → (A → List ℕ → Type 0) → Decoder A → Type 0
Sound P d =
    (front input : List ℕ)
    → AllBytes input
    → Post P front input (d (at front input)).0 (d (at front input)).1

module _ {A : Type 0} where
  pub Sound-pure : (P : A → List ℕ → Type 0) (a : A) → P a [] → Sound P (pure a)
  Sound-pure P a p front input h = taken [] input refl (rw append-nil) p

  pub Sound-fail : (P : A → List ℕ → Type 0) (p : Problem) → Sound P (fail p)
  Sound-fail P p front input h = stopped refl (omega (arith, length-append front input))

  Post-shift :
      (P : A → List ℕ → Type 0) (front used rest : List ℕ) {r : DecodeResult A} {s : BytesSource}
      → Post (λ a v. P a (used ++ v)) (front ++ used) rest r s
      → Post P front (used ++ rest) r s
  Post-shift P front used rest (taken v rest' e es p) =
      taken (used ++ v) rest' (rw (e, append_assoc)) (es ∙ simp append_assoc) p
  Post-shift P front used rest (stopped e h) = stopped (rw (e, append_assoc)) h

  pub Post-weaken :
      (P Q : A → List ℕ → Type 0) (front input : List ℕ) {r : DecodeResult A} {s : BytesSource}
      → ((a : A) (used : List ℕ) → P a used → Q a used)
      → Post P front input r s
      → Post Q front input r s
  Post-weaken P Q front input k (taken {a} used rest e es p) = taken used rest e es (k a used p)
  Post-weaken P Q front input k (stopped e b) = stopped e b

  pub Sound-weaken :
      (P Q : A → List ℕ → Type 0) (d : Decoder A)
      → Sound P d
      → ((a : A) (used : List ℕ) → P a used → Q a used)
      → Sound Q d
  Sound-weaken P Q d sd k front input h = Post-weaken P Q front input k (sd front input h)

  pub if-Sound :
      (P : A → List ℕ → Type 0) (b : Bool) (d e : Decoder A)
      → (b ≡ true → Sound P d)
      → (b ≡ false → Sound P e)
      → Sound P (if b then d else e)
  if-Sound P true d e sd se = sd refl
  if-Sound P false d e sd se = se refl

-- The same on inputs of fewer than `n` bytes, for loops on fuel.
abbrev pub SoundBelow : {A : Type 0} → ℕ → (A → List ℕ → Type 0) → Decoder A → Type 0
SoundBelow n P d =
    (front input : List ℕ)
    → AllBytes input
    → length input < n
    → Post P front input (d (at front input)).0 (d (at front input)).1

module _ {A B : Type 0} (P : A → List ℕ → Type 0) (Q : B → List ℕ → Type 0) (d : Decoder A)
    (make : A → B) where
  Post-map :
      (front input : List ℕ) {r : DecodeResult A} {s : BytesSource}
      → ((a : A) (used rest : List ℕ) → input ≡ used ++ rest → P a used → Q (make a) used)
      → Post P front input r s
      → Post Q front input
          (continue (λ a. pure (make a)) r s).0
          (continue (λ a. pure (make a)) r s).1
  Post-map front input k (taken {a} used rest e es p) = taken used rest e es (k a used rest e p)
  Post-map front input k (stopped e b) = stopped e b

  pub Sound-map :
      Sound P d
      → ((a : A) (used : List ℕ) → P a used → Q (make a) used)
      → Sound Q (d >>= λ a. pure (make a))
  Sound-map sd k front input h =
      Post-map front input (λ a used rest e p. k a used p) (sd front input h)

module _ {A B : Type 0} (P : A → List ℕ → Type 0) (Q : B → List ℕ → Type 0) (d : Decoder A)
    (f : A → Decoder B) where
  Post-continue :
      (front input : List ℕ) {r : DecodeResult A} {s : BytesSource}
      → ((a : A) (used rest : List ℕ)
          → input ≡ used ++ rest
          → P a used
          → Post
              (λ b v. Q b (used ++ v))
              (front ++ used)
              rest
              (f a (at (front ++ used) rest)).0
              (f a (at (front ++ used) rest)).1)
      → Post P front input r s
      → Post Q front input (continue f r s).0 (continue f r s).1
  Post-continue front input k (taken {a} used rest e es p) =
      rw (e, es) (Post-shift Q front used rest (k a used rest e p))
  Post-continue front input k (stopped e b) = stopped e b

  pub Sound-bind :
      Sound P d
      → ((a : A) (used : List ℕ) → P a used → Sound (λ b v. Q b (used ++ v)) (f a))
      → Sound Q (d >>= f)
  Sound-bind sd k front input h =
      Post-continue front input
        (λ a used rest e p.
          k a used p (front ++ used) rest (All-append_right IsByte used rest (subst AllBytes e h)))
        (sd front input h)

  pub SoundBelow-bind :
      (n : ℕ)
      → SoundBelow n P d
      → ((a : A) (used : List ℕ)
          → P a used
          → SoundBelow (n - length used) (λ b v. Q b (used ++ v)) (f a))
      → SoundBelow n Q (d >>= f)
  SoundBelow-bind n sd k front input h less =
      Post-continue front input
        (λ a used rest e p.
          k a used p (front ++ used) rest (All-append_right IsByte used rest (subst AllBytes e h))
            (omega (arith, ap length e, length-append used rest)))
        (sd front input h less)

module _ {A : Type 0} (n : ℕ) (decode : List ℕ → A) where
  pub take_bounded-Sound :
      Sound
        (λ a used. (length used ≡ n) × AllBytes used × (a ≡ decode used))
        (take_bounded n decode)
  take_bounded-Sound front input h = elim (split-cases n input) [
    | inl short ↦ rw (take_bounded_short decode n front input short) (stopped refl (le_refl _))
    | inr (used, rest, e, split) ↦
        rw (split, ← e)
          (rw (take_bounded-at decode front used rest) (
            taken used rest refl refl
              (refl, All-append_left IsByte used rest (subst AllBytes split h), refl)))
  ]

-- The value of a number and its bytes.
abbrev pub Num : ℕ → (ℕ → List ℕ) → ℕ → List ℕ → Type 0
Num bound bytes n used = (n < bound) × (used ≡ bytes n)

pub take_u8-Sound : Sound (Num 256 u8_bytes) take_u8
unfolding take_u8
take_u8-Sound =
    Sound-weaken _ (Num 256 u8_bytes) (take_bounded 1 u8_of) (take_bounded-Sound 1 u8_of)
      (λ a used p. rw p.2 (u8_bytes-of used p.0 p.1))

pub take_u16-Sound : Sound (Num 65536 u16_bytes) take_u16
unfolding take_u16
take_u16-Sound =
    Sound-weaken _ (Num 65536 u16_bytes) (take_bounded 2 u16_of) (take_bounded-Sound 2 u16_of)
      (λ a used p. rw p.2 (u16_bytes-of used p.0 p.1))

pub take_u32-Sound : Sound (Num 4294967296 u32_bytes) take_u32
unfolding take_u32
take_u32-Sound =
    Sound-weaken _ (Num 4294967296 u32_bytes) (take_bounded 4 u32_of) (take_bounded-Sound 4 u32_of)
      (λ a used p. rw p.2 (u32_bytes-of used p.0 p.1))

-- `n` bytes, returned as they are.
abbrev pub Raw : ℕ → List ℕ → List ℕ → Type 0
Raw n bytes used = (length bytes ≡ n) × AllBytes bytes × (used ≡ bytes)

pub take_vec-Sound : (n : ℕ) → Sound (Raw n) (take_vec n)
unfolding take_vec
take_vec-Sound n =
    Sound-weaken _ (Raw n) (take_bounded n (λ s. s)) (take_bounded-Sound n (λ s. s))
      (λ a used p. rw p.2 (p.0, p.1, refl))

pub take_slice-Sound : (buffer : List ℕ) → Sound (Raw (length buffer)) (take_slice buffer)
unfolding take_slice
take_slice-Sound buffer =
    Sound-weaken _ (Raw (length buffer)) (take_bounded (length buffer) (λ s. s))
      (take_bounded-Sound (length buffer) (λ s. s)) (λ a used p. rw p.2 (p.0, p.1, refl))

-- Bytes that stand for a text: none is 0.
abbrev pub IsText : List ℕ → Type 0
IsText text = NoNull text × AllBytes text

abbrev pub TextOf : List ℕ → List ℕ → Type 0
TextOf text used = IsText text × (used ≡ text_bytes text)

pub take_until_null-Sound : Sound TextOf take_until_null
unfolding text_bytes
take_until_null-Sound front input h = elim (null-cases input) [
  | inl endless ↦ rw (take_until_null_endless front input endless) (stopped refl (le_refl _))
  | inr (used, rest, nonnull, split) ↦ rw split (
      rw (take_until_null-at front used rest nonnull) (
        taken (used ++ 0 ∷ []) rest (simp append_assoc) refl
          ((nonnull, All-append_left IsByte used (0 ∷ rest) (subst AllBytes split h)), refl)))
]
