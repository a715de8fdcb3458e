-- ===== src/Msg/Body/ErrorAndNotice/Entries.antt =====
-- The entries that src/msg/body/error_and_notice_responses.rs accepts, and the fields that they set.
use postgread.Prelude.{
  ℕ, zero, suc, ◌+◌, ◌-◌, ◌<◌, ◌≡◌, refl, sym, ap, List, [], ◌∷◌, ◌++◌, Option, none, some, true,
  false, length, arith, append_assoc, length-append, subst, All, items_bytes, u8_bytes, ◌==◌,
  Bool-cases, inl, inr, ◌⊎◌, length-u8_bytes,
}
use postgread.Msg.Decode.{
  Decoder, ◌>>=◌, unknown, unknown_field_type, take_u8, take_until_null, left,
}
use postgread.Msg.Decode.Reads.{Reads, Reads-bind, Reads-pure, text_bytes}
use postgread.Msg.Decode.Sound.{
  Sound, Post-weaken, SoundBelow, SoundBelow-bind, Sound-pure, Sound-fail, IsText,
}
use postgread.Msg.Decode.Exact.{take_u8-Exact, take_until_null-Exact, IsU8}
use postgread.Msg.Body.ErrorAndNotice.{
  ErrorOrNoticeFields, default, FieldType, localized_severity, field_code, field_type_of, set_field,
  field_round, fields_loop, decode_fields,
}
use postgread.Msg.Decode.Cursor.{at}

pub record Entry : Type 0 where
  pub field_type : FieldType
  pub value : List ℕ

abbrev pub IsEntry : Entry → Type 0
IsEntry e = IsText e.value

-- The byte of the type, and the value with its null byte.
unfoldable pub entry_bytes : Entry → List ℕ
entry_bytes e = u8_bytes (field_code e.field_type) ++ text_bytes e.value

-- The entries with the byte 0 after them.
unfoldable pub entries_bytes : List Entry → List ℕ
entries_bytes es = items_bytes entry_bytes es ++ 0 ∷ []

-- The fields after the entries have been set, from the first to the last.
unfoldable pub set_all : ErrorOrNoticeFields → List Entry → ErrorOrNoticeFields
set_all body [] = body
set_all body (e ∷ es) = set_all (set_field e.field_type e.value body) es

field_code_bounds : (t : FieldType) → (0 < field_code t) × (field_code t < 256)
unfolding field_code
field_code_bounds localized_severity = omega arith
field_code_bounds _ = omega arith

field_type_of-code : (t : FieldType) → field_type_of (field_code t) ≡ some t
unfolding field_code field_type_of
field_type_of-code localized_severity = refl
field_type_of-code _ = refl

field_code-type_of : (b : ℕ) (t : FieldType) → field_type_of b ≡ some t → field_code t ≡ b
unfolding field_code field_type_of
field_code-type_of b t h = ground arith

entries_bytes-cons :
    (e : Entry) (es : List Entry)
    → entries_bytes (e ∷ es)
      ≡ u8_bytes (field_code e.field_type) ++ (text_bytes e.value ++ entries_bytes es)
unfolding entries_bytes entry_bytes items_bytes
entries_bytes-cons e es = simp append_assoc

code_nonzero : (t : FieldType) → (field_code t == 0) ≡ false
code_nonzero t = ground (arith, field_code_bounds t)

module _ (more : ErrorOrNoticeFields → Decoder ErrorOrNoticeFields) (index : ℕ)
    (body : ErrorOrNoticeFields) where
  field_round-Reads :
      (e : Entry) (used : List ℕ) (result : ErrorOrNoticeFields)
      → IsEntry e
      → Reads (more (set_field e.field_type e.value body)) used result
      → Reads
          (field_round more index body (field_code e.field_type))
          (text_bytes e.value ++ used)
          result
  unfolding field_round
  field_round-Reads e used result w r =
      rw (code_nonzero e.field_type, field_type_of-code e.field_type)
        (Reads-bind take_until_null (λ value. more (set_field e.field_type value body))
          (text_bytes e.value) used e.value result (take_until_null-Exact.reads e.value w) r)

fields_loop-Reads :
    (es : List Entry) (fuel index : ℕ) (body : ErrorOrNoticeFields)
    → length es < fuel
    → All IsEntry es
    → Reads (fields_loop fuel index body) (entries_bytes es) (set_all body es)
unfolding fields_loop set_all
fields_loop-Reads es zero index body l w front rest = absurd (omega arith)
fields_loop-Reads [] (suc fuel) index body l w front rest =
    unfold entries_bytes items_bytes u8_bytes in
    Reads-bind take_u8 (field_round (fields_loop fuel (index + 1)) index body) (u8_bytes 0) [] 0
      body (take_u8-Exact.reads 0 (omega arith)) (Reads-pure body) front rest
fields_loop-Reads (e ∷ es) (suc fuel) index body l w front rest =
    let more = fields_loop fuel (index + 1) in
    subst (λ u. Reads (take_u8 >>= field_round more index body) u (set_all body (e ∷ es)))
      (sym (entries_bytes-cons e es))
      (Reads-bind take_u8 (field_round more index body) (u8_bytes (field_code e.field_type))
        (text_bytes e.value ++ entries_bytes es) (field_code e.field_type) (set_all body (e ∷ es))
        (take_u8-Exact.reads (field_code e.field_type) (field_code_bounds e.field_type).1)
        (field_round-Reads more index body e (entries_bytes es) (set_all body (e ∷ es)) w.0 (
          fields_loop-Reads es fuel (index + 1) (set_field e.field_type e.value body) (omega arith)
            w.1)))
      front rest

-- What the loop has taken: entries that make the fields what they are.
abbrev pub Entries : ErrorOrNoticeFields → ErrorOrNoticeFields → List ℕ → Type 0
Entries body result used =
    (es : List Entry) × All IsEntry es × (result ≡ set_all body es) × (used ≡ entries_bytes es)

stop_bytes : (byte : ℕ) → (byte == 0) ≡ true → u8_bytes byte ++ [] ≡ entries_bytes []
unfolding u8_bytes entries_bytes items_bytes
stop_bytes byte h = ground arith

-- The entries after the first, whose type and value have been taken.
Entries-cons :
    (body result : ErrorOrNoticeFields) (e : Entry) (u v used : List ℕ)
    → IsEntry e
    → u ≡ u8_bytes (field_code e.field_type)
    → v ≡ text_bytes e.value
    → Entries (set_field e.field_type e.value body) result used
    → Entries body result (u ++ (v ++ used))
unfolding set_all
Entries-cons body result e u v used w eu ev (es, ws, er, eused) =
    (e ∷ es, (w, ws), er, rw (eu, ev, eused) (sym (entries_bytes-cons e es)))

type-cases : (b : ℕ) → (field_type_of b ≡ none) ⊎ ((t : FieldType) × (field_type_of b ≡ some t))
type-cases b = go (field_type_of b) refl
  where
    go :
        (o : Option FieldType)
        → field_type_of b ≡ o
        → (field_type_of b ≡ none) ⊎ ((t : FieldType) × (field_type_of b ≡ some t))
    go none e = inl e
    go (some t) e = inr (t, e)

module _ (fuel index : ℕ) (body : ErrorOrNoticeFields)
    (more : ErrorOrNoticeFields → Decoder ErrorOrNoticeFields)
    (ih : (b : ErrorOrNoticeFields) → SoundBelow fuel (Entries b) (more b)) where
  field_round-Sound :
      (byte : ℕ) (used : List ℕ)
      → IsU8 byte × (used ≡ u8_bytes byte)
      → SoundBelow
          (suc fuel - length used)
          (λ result v. Entries body result (used ++ v))
          (field_round more index body byte)
  unfolding field_round set_all
  field_round-Sound byte used (w, e) = elim (Bool-cases (byte == 0)) [
    | inl stop ↦ rw stop (λ front input h l.
        Sound-pure _ body ([], tt, refl, rw e (stop_bytes byte stop)) front input h)
    | inr go_on ↦ rw go_on (elim (type-cases byte) [
      | inl unknown_type ↦
          rw unknown_type (λ front input h l.
            Sound-fail _ (unknown (unknown_field_type index byte)) front input h)
      | inr (t, typed) ↦ rw typed (
          SoundBelow-bind _ _ take_until_null (λ value. more (set_field t value body))
            (suc fuel - length used) (λ f i h l. take_until_null-Exact.sound f i h)
            (λ value v (wv, ev) f i h l.
              Post-weaken _ _ f i
                (λ result x p.
                  Entries-cons body result (record { field_type = t; value = value }) used v x wv
                    (rw (field_code-type_of byte t typed) e) ev p)
                (ih (set_field t value body) f i h
                  (omega (arith, ap length e, length-u8_bytes byte)))))
    ])
  ]

fields_loop-Sound :
    (fuel index : ℕ) (body : ErrorOrNoticeFields)
    → SoundBelow fuel (Entries body) (fields_loop fuel index body)
unfolding fields_loop
fields_loop-Sound zero index body front input h l = absurd (omega arith)
fields_loop-Sound (suc fuel) index body front input h l =
    let more = fields_loop fuel (index + 1) in
    SoundBelow-bind _ _ take_u8 (field_round more index body) (suc fuel)
      (λ f i h l. take_u8-Exact.sound f i h)
      (λ byte used p.
        field_round-Sound fuel index body more (fields_loop-Sound fuel (index + 1)) byte used p)
      front input h l

left-at : (front rest : List ℕ) → left (at front rest) ≡ length rest
unfolding left
left-at front rest = omega (arith, length-append front rest)

pub decode_fields-Sound : Sound (Entries default) decode_fields
unfolding decode_fields
decode_fields-Sound front input h =
    rw (left-at front input)
      (fields_loop-Sound (length input + 1) 0 default front input h (omega arith))

length-entries : (es : List Entry) → length es < length (entries_bytes es)
length-entries [] = unfold entries_bytes items_bytes in omega arith
length-entries (e ∷ es) = omega (
  arith,
  length-entries es,
  ap length (entries_bytes-cons e es),
  length-append (u8_bytes (field_code e.field_type)) (text_bytes e.value ++ entries_bytes es),
  length-append (text_bytes e.value) (entries_bytes es),
  length-u8_bytes (field_code e.field_type),
)

pub decode_fields-Reads :
    (es : List Entry) → All IsEntry es → Reads decode_fields (entries_bytes es) (set_all default es)
unfolding decode_fields
decode_fields-Reads es w front rest = rw (left-at front (entries_bytes es ++ rest)) (
    fields_loop-Reads es (length (entries_bytes es ++ rest) + 1) 0 default
      (omega (arith, length-entries es, length-append (entries_bytes es) rest)) w front rest)
