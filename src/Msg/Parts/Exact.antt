-- ===== src/Msg/Parts/Exact.antt =====
-- The bytes of the parts of src/msg/parts.rs, and that their decoders read just those.
use postgread.Prelude.{
  ℕ, zero, suc, ◌<◌, ◌≡◌, refl, sym, ap, List, [], ◌∷◌, ◌++◌, length, arith, append-nil, subst, All,
  AllBytes, u16_bytes, u32_bytes, items_bytes, inl, inr, ◌==◌,
}
use postgread.Prelude.Int.{
  negsuc, as_signed, as_signed-cases, as_signed_nonneg, as_signed_minus_one,
}
use postgread.Msg.Decode.{
  unknown, incorrect, unknown_format, length_of_value, Decoder, pure, ◌>>=◌, take_u16, take_u32,
  take_vec,
}
use postgread.Msg.Decode.Reads.{Reads, Reads-bind, Reads-pure, take_vec-Reads, text_bytes}
use postgread.Msg.Decode.Sound.{
  Sound, Sound-bind, Sound-pure, Sound-fail, if-Sound, Sound-weaken, IsText,
}
use postgread.Msg.Decode.Exact.{
  Exact, take_u16-Exact, take_u32-Exact, take_vec-Exact, take_until_null-Exact, IsU16, IsU32,
  tagged-Exact,
}
use postgread.Msg.Parts.{
  Format, text, binary, Value, null, bytes, decode_format, format_of, decode_text, decode_value,
  value_of_len, decode_u32, decode_vec,
}

unfoldable pub format_code : Format → ℕ
format_code text = 0
format_code binary = 1

-- Two bytes: 0 for text and 1 for binary.
unfoldable pub format_bytes : Format → List ℕ
format_bytes f = u16_bytes (format_code f) ++ []

-- The pattern of the length, or that of -1 for NULL.
unfoldable pub len_of : Value → ℕ
len_of null = 4294967295
len_of (bytes value) = length value

unfoldable pub content_of : Value → List ℕ
content_of null = []
content_of (bytes value) = value

-- Four bytes of length, and the value itself.
unfoldable pub value_bytes : Value → List ℕ
value_bytes v = u32_bytes (len_of v) ++ content_of v

abbrev pub IsValue : Value → Type 0
IsValue null = Unit
IsValue (bytes value) = (length value < 2147483648) × AllBytes value

abbrev pub Any : {A : Type 0} → A → Type 0
Any a = Unit {0}

pub decode_format-Exact : Exact Any format_bytes decode_format
unfolding decode_format format_bytes format_of format_code
decode_format-Exact = tagged-Exact take_u16-Exact format_code Any (λ f. []) format_of reads sound
  where
    reads : (f : Format) → Any f → IsU16 (format_code f) × Reads (format_of (format_code f)) [] f
    reads text w = (omega arith, Reads-pure text)
    reads binary w = (omega arith, Reads-pure binary)

    sound : (n : ℕ) → IsU16 n → Sound (λ f v. Any f × (format_code f ≡ n) × (v ≡ [])) (format_of n)
    sound n h =
        if-Sound _ (n == 0) _ _ (λ e. Sound-pure _ text (tt, ground arith, refl))
          (λ _.
            if-Sound _ (n == 1) _ _ (λ e. Sound-pure _ binary (tt, ground arith, refl))
              (λ _. Sound-fail _ (unknown (unknown_format n))))

pub decode_text-Exact : Exact IsText text_bytes decode_text
unfolding decode_text
decode_text-Exact = take_until_null-Exact

pub decode_u32-Exact : Exact IsU32 u32_bytes decode_u32
unfolding decode_u32
decode_u32-Exact = take_u32-Exact

-- The bytes, and a value made of them.
pub Reads-vec :
    {B : Type 0} (value : List ℕ) (make : List ℕ → B)
    → Reads (take_vec (length value) >>= λ b. pure (make b)) value (make value)
Reads-vec value make front rest = rw (take_vec-Reads value front rest)

value_of_len-Reads :
    (v : Value)
    → IsValue v
    → IsU32 (len_of v) × Reads (value_of_len (as_signed 32 (len_of v))) (content_of v) v
unfolding value_of_len len_of content_of
value_of_len-Reads null w = (omega arith, rw as_signed_minus_one (Reads-pure null))
value_of_len-Reads (bytes value) w =
    (omega arith, rw (as_signed_nonneg (length value) w.0) (Reads-vec value (λ b. bytes b)))

value_of_len-Sound :
    (n : ℕ)
    → IsU32 n
    → Sound
        (λ v used. IsValue v × (len_of v ≡ n) × (used ≡ content_of v))
        (value_of_len (as_signed 32 n))
unfolding value_of_len len_of content_of
value_of_len-Sound n h = elim (as_signed-cases n h) [
  | inl (e, small) ↦ rw e (
      Sound-bind _ _ (take_vec n) (λ value. pure (bytes value)) (take_vec-Exact n).sound
        (λ value used (raw, eu).
          Sound-pure _ (bytes value) ((omega (arith, raw.0), raw.1), raw.0, rw (append-nil, eu))))
  | inr (inl (e, minus_one)) ↦ rw e (Sound-pure _ null (tt, sym minus_one, refl))
  | inr (inr (k, e)) ↦ rw e (Sound-fail _ (incorrect (length_of_value (negsuc (suc k)))))
]

pub decode_value-Exact : Exact IsValue value_bytes decode_value
unfolding decode_value value_bytes
decode_value-Exact =
    tagged-Exact take_u32-Exact len_of IsValue content_of (λ n. value_of_len (as_signed 32 n))
      value_of_len-Reads value_of_len-Sound

module _ {A : Type 0} (W : A → Type 0) (item_bytes : A → List ℕ) (decode : Decoder A)
    (x : Exact W item_bytes decode) where
  decode_vec-Reads :
      (xs : List A)
      → All W xs
      → Reads (decode_vec (length xs) decode) (items_bytes item_bytes xs) xs
  unfolding decode_vec items_bytes
  decode_vec-Reads [] w = Reads-pure []
  decode_vec-Reads (a ∷ xs) w =
      Reads-bind decode _ (item_bytes a) (items_bytes item_bytes xs) a (a ∷ xs) (x.reads a w.0)
        (λ front rest. rw (decode_vec-Reads xs w.1 front rest))

  decode_vec-Sound :
      (n : ℕ)
      → Sound
          (λ xs used. ((length xs ≡ n) × All W xs) × (used ≡ items_bytes item_bytes xs))
          (decode_vec n decode)
  unfolding decode_vec items_bytes
  decode_vec-Sound zero = Sound-pure _ [] ((refl, tt), refl)
  decode_vec-Sound (suc n) = Sound-bind _ _ decode _ x.sound (λ a used (wa, e).
      Sound-bind _ _ (decode_vec n decode) _ (decode_vec-Sound n) (λ xs v (wxs, ev).
        Sound-pure _ (a ∷ xs) ((ap suc wxs.0, (wa, wxs.1)), rw (append-nil, e, ev))))

  pub decode_vec-Exact :
      (n : ℕ)
      → Exact (λ xs. (length xs ≡ n) × All W xs) (items_bytes item_bytes) (decode_vec n decode)
  decode_vec-Exact n = record {
    reads = λ xs w.
        subst (λ k. Reads (decode_vec k decode) (items_bytes item_bytes xs) xs) w.0
          (decode_vec-Reads xs w.1);
    sound = decode_vec-Sound n;
  }

  -- A number of items and the items, with the number in two bytes and in four.
  pub counted16-Exact :
      Exact
        (λ xs. (length xs < 65536) × All W xs)
        (λ xs. u16_bytes (length xs) ++ items_bytes item_bytes xs)
        (take_u16 >>= λ count. decode_vec count decode)
  counted16-Exact =
      tagged-Exact take_u16-Exact length _ (items_bytes item_bytes)
        (λ count. decode_vec count decode) (λ xs w. (w.0, decode_vec-Reads xs w.1))
        (λ n h.
          Sound-weaken _ _ (decode_vec n decode) (decode_vec-Sound n)
            (λ xs v (w, e). ((omega (arith, w.0), w.1), w.0, e)))

  pub counted32-Exact :
      Exact
        (λ xs. (length xs < 4294967296) × All W xs)
        (λ xs. u32_bytes (length xs) ++ items_bytes item_bytes xs)
        (take_u32 >>= λ count. decode_vec count decode)
  counted32-Exact =
      tagged-Exact take_u32-Exact length _ (items_bytes item_bytes)
        (λ count. decode_vec count decode) (λ xs w. (w.0, decode_vec-Reads xs w.1))
        (λ n h.
          Sound-weaken _ _ (decode_vec n decode) (decode_vec-Sound n)
            (λ xs v (w, e). ((omega (arith, w.0), w.1), w.0, e)))
