-- ===== src/Msg/Body/Initial.antt =====
-- src/msg/body/initial.rs: the first message of a frontend, which has no type byte.
use postgread.Prelude.{
  ℕ, ◌<◌, ◌≡◌, ◌≢◌, refl, sym, List, [], ◌∷◌, ◌++◌, Option, none, some, Bool, true, false, ◌&&◌, ok,
  length, arith, append-nil, length-append, AllBytes, All, items_bytes, u16_bytes, u32_bytes, ◌==◌,
  if◌then◌else◌, Bool-cases, inl, inr, ◌↔◌, ◌⊎◌,
}
use postgread.Msg.Decode.{
  Decoder, MsgDecode, pure, ◌>>=◌, take_u16, take_u32, take_until_null, collect_all,
}
use postgread.Msg.Decode.Reads.{Reads, Reads-bind, Reads-pure, Reads-map, text_bytes}
use postgread.Msg.Decode.Sound.{Sound, Sound-bind, Sound-pure, Sound-map, if-Sound, IsText}
use postgread.Msg.Decode.Exact.{
  Exact, ExactAll, ExactAll-of, Exact-iff, take_u16-Exact, take_u32-Exact, take_until_null-Exact,
  IsU16, IsU32, bind-Exact, last-Exact, tagged-Exact,
}
use postgread.Msg.Decode.Collect.{Round, collect_all-Exact}
use postgread.Msg.Read.{decode_msg}
use postgread.Msg.Read.Body.{decode_msg_iff}

pub record Cancel : Type 0 where
  pub process_id : ℕ
  pub secret_key : ℕ

pub record Version : Type 0 where
  pub major : ℕ
  pub minor : ℕ

pub record StartupParam : Type 0 where
  pub name : List ℕ
  pub value : List ℕ

pub record Startup : Type 0 where
  pub version : Version
  pub params : List StartupParam

pub data Initial : Type 0 where
  cancel : Cancel → Initial
  tls : Initial
  startup : Startup → Initial

unfoldable pub decode_version : Decoder Version
decode_version = do
  major ← take_u16
  minor ← take_u16
  pure (record { major = major; minor = minor })

abbrev is_empty : List ℕ → Bool
is_empty [] = true
is_empty (b ∷ bs) = false

-- One round of the loop of `StartupParam::decode_many`, and the part behind its `break`.
unfoldable pub param_of : List ℕ → Decoder (Option StartupParam)
param_of name =
    if is_empty name
    then pure none
    else (take_until_null >>= λ value. pure (some (record { name = name; value = value })))

unfoldable pub decode_param : Decoder (Option StartupParam)
decode_param = take_until_null >>= param_of

unfoldable pub decode_many : Decoder (List StartupParam)
decode_many = collect_all decode_param

unfoldable pub decode_cancel : Decoder Cancel
decode_cancel = do
  process_id ← take_u32
  secret_key ← take_u32
  pure (record { process_id = process_id; secret_key = secret_key })

abbrev has_code : ℕ → ℕ → Version → Bool
has_code major minor v = v.major == major && v.minor == minor

-- The match on the version.
unfoldable pub initial_of : Version → Decoder Initial
initial_of v =
    if has_code 1234 5678 v
    then (decode_cancel >>= λ c. pure (cancel c))
    else if has_code 1234 5679 v
    then pure tls
    else (decode_many >>= λ params. pure (startup (record { version = v; params = params })))

unfoldable pub initial_msg : MsgDecode Initial
initial_msg = record { type_byte_opt = none; decode_body = decode_version >>= initial_of }

-- The bytes.
abbrev pub IsVersion : Version → Type 0
IsVersion v = IsU16 v.major × IsU16 v.minor

unfoldable pub version_bytes : Version → List ℕ
version_bytes v = u16_bytes v.major ++ u16_bytes v.minor

pub decode_version-Exact : Exact IsVersion version_bytes decode_version
unfolding decode_version version_bytes
decode_version-Exact =
    Exact-iff IsVersion (λ v. (λ w. w.0, λ w. (w, tt)))
      (bind-Exact (λ (v : Version). v.major) (λ v. Unit {0}) take_u16-Exact
        (λ major w.
          last-Exact (λ (v : Version). v.minor) (λ v. Unit {0} × (v.major ≡ major)) take_u16-Exact
            (λ minor. record { major = major; minor = minor }) (λ minor w. ((tt, refl), refl))
            (λ v h i. record { major = sym h.1 i; minor = v.minor })))

-- A name that is not empty, and a value, each with its null byte.
abbrev pub IsParam : StartupParam → Type 0
IsParam p = (p.name ≢ []) × IsText p.name × IsText p.value

unfoldable pub param_bytes : StartupParam → List ℕ
param_bytes p = text_bytes p.name ++ text_bytes p.value

is_empty-cases : (name : List ℕ) → (name ≡ []) ⊎ ((is_empty name ≡ false) × (name ≢ []))
is_empty-cases [] = inl refl
is_empty-cases (b ∷ bs) = inr (refl, λ e. cc)

decode_param-Sound : Sound (Round IsParam param_bytes (0 ∷ [])) decode_param
unfolding decode_param param_of param_bytes text_bytes
decode_param-Sound =
    Sound-bind _ _ take_until_null param_of take_until_null-Exact.sound (λ name used (t, e).
      elim (is_empty-cases name) [
        | inl none_left ↦ rw none_left (Sound-pure _ none (rw (append-nil, e, none_left)))
        | inr (more, nonempty) ↦ rw more (
            Sound-bind _ _ take_until_null _ take_until_null-Exact.sound (λ value v (t', e').
              Sound-pure _ (some (record { name = name; value = value }))
                ((nonempty, t, t'), rw (append-nil, e, e'))))
      ])

decode_param-Reads : (p : StartupParam) → IsParam p → Reads decode_param (param_bytes p) (some p)
unfolding decode_param param_of param_bytes
decode_param-Reads p (nonempty, name, value) = elim (is_empty-cases p.name) [
  | inl e ↦ absurd (nonempty e)
  | inr (more, _) ↦
      Reads-bind take_until_null param_of (text_bytes p.name) (text_bytes p.value) p.name (some p)
        (take_until_null-Exact.reads p.name name)
        (rw more (λ front rest. rw (take_until_null-Exact.reads p.value value front rest)))
]

decode_param_stop : Reads decode_param (0 ∷ []) none
unfolding decode_param param_of text_bytes
decode_param_stop =
    Reads-bind take_until_null param_of (0 ∷ []) [] [] none
      (take_until_null-Exact.reads [] (tt, tt)) (Reads-pure none)

param_bytes_pos : (p : StartupParam) → IsParam p → 0 < length (param_bytes p)
unfolding param_bytes text_bytes
param_bytes_pos p w =
    omega
      (arith, length-append (p.name ++ 0 ∷ []) (p.value ++ 0 ∷ []), length-append p.name (0 ∷ []))

pub decode_many-Exact :
    Exact (All IsParam) (λ params. items_bytes param_bytes params ++ 0 ∷ []) decode_many
unfolding decode_many
decode_many-Exact =
    collect_all-Exact IsParam param_bytes (0 ∷ []) decode_param param_bytes_pos decode_param-Reads
      decode_param_stop decode_param-Sound

-- The version, or the number that stands in its place: 1234 and 5678 for a request to cancel,
-- 1234 and 5679 for one of TLS.
unfoldable pub code_of : Initial → Version
code_of (cancel c) = record { major = 1234; minor = 5678 }
code_of tls = record { major = 1234; minor = 5679 }
code_of (startup s) = s.version

abbrev pub IsCancel : Cancel → Type 0
IsCancel c = IsU32 c.process_id × IsU32 c.secret_key

unfoldable pub cancel_bytes : Cancel → List ℕ
cancel_bytes c = u32_bytes c.process_id ++ u32_bytes c.secret_key

unfoldable pub content_of : Initial → List ℕ
content_of (cancel c) = cancel_bytes c
content_of tls = []
content_of (startup s) = items_bytes param_bytes s.params ++ 0 ∷ []

unfoldable pub initial_bytes : Initial → List ℕ
initial_bytes m = version_bytes (code_of m) ++ content_of m

-- The version of a startup is none of the two numbers.
abbrev pub IsInitial : Initial → Type 0
IsInitial (cancel c) = IsCancel c
IsInitial tls = Unit
IsInitial (startup s) =
    IsVersion s.version
    × (s.version.major ≡ 1234 → (s.version.minor ≢ 5678) × (s.version.minor ≢ 5679))
    × All IsParam s.params

decode_cancel-Exact : Exact IsCancel cancel_bytes decode_cancel
unfolding decode_cancel cancel_bytes
decode_cancel-Exact =
    Exact-iff IsCancel (λ c. (λ w. w.0, λ w. (w, tt)))
      (bind-Exact (λ (c : Cancel). c.process_id) (λ c. Unit {0}) take_u32-Exact
        (λ process_id w.
          last-Exact (λ (c : Cancel). c.secret_key) (λ c. Unit {0} × (c.process_id ≡ process_id))
            take_u32-Exact
            (λ secret_key. record { process_id = process_id; secret_key = secret_key })
            (λ secret_key w. ((tt, refl), refl))
            (λ c h i. record { process_id = sym h.1 i; secret_key = c.secret_key })))

startup_reads :
    (v : Version)
    → (v.major ≡ 1234 → (v.minor ≢ 5678) × (v.minor ≢ 5679))
    → (has_code 1234 5678 v ≡ false) × (has_code 1234 5679 v ≡ false)
startup_reads v other = elim (Bool-cases (v.major == 1234)) [
  | inl same ↦ (ground (arith, other (ground arith)), ground (arith, other (ground arith)))
  | inr differs ↦ (rw differs, rw differs)
]

has_code-eq : (a b : ℕ) (v : Version) → has_code a b v ≡ true → v ≡ record { major = a; minor = b }
has_code-eq a b v h = ground arith

initial_of-Reads :
    (m : Initial)
    → IsInitial m
    → IsVersion (code_of m) × Reads (initial_of (code_of m)) (content_of m) m
unfolding code_of content_of initial_of
initial_of-Reads (cancel c) w = (
  (omega arith, omega arith),
  Reads-map decode_cancel (λ c. cancel c) (cancel_bytes c) c (decode_cancel-Exact.reads c w),
)
initial_of-Reads tls w = ((omega arith, omega arith), Reads-pure tls)
initial_of-Reads (startup s) (v, other, ps) =
    let (no_cancel, no_tls) = startup_reads s.version other in
    (
      v,
      rw (no_cancel, no_tls)
          (Reads-map decode_many
            (λ params. startup (record { version = s.version; params = params })) _ s.params
            (decode_many-Exact.reads s.params ps)),
    )

initial_of-Sound :
    (v : Version)
    → IsVersion v
    → Sound (λ m used. IsInitial m × (code_of m ≡ v) × (used ≡ content_of m)) (initial_of v)
unfolding code_of content_of initial_of
initial_of-Sound v w =
    if-Sound _ (has_code 1234 5678 v) _ _
      (λ e.
        Sound-map _ _ decode_cancel (λ c. cancel c) decode_cancel-Exact.sound
          (λ c used p. (p.0, sym (has_code-eq 1234 5678 v e), p.1)))
      (λ no_cancel.
        if-Sound _ (has_code 1234 5679 v) _ _
          (λ e. Sound-pure _ tls (tt, sym (has_code-eq 1234 5679 v e), refl))
          (λ no_tls.
            Sound-map _ _ decode_many (λ params. startup (record { version = v; params = params }))
              decode_many-Exact.sound
              (λ params used p.
                ((w, (λ e. (λ k. ground arith, λ k. ground arith)), p.0), refl, p.1))))

pub IsInitial-ExactAll : ExactAll IsInitial initial_bytes initial_msg.decode_body
unfolding initial_msg initial_bytes
IsInitial-ExactAll = ExactAll-of (
    tagged-Exact decode_version-Exact code_of IsInitial content_of initial_of initial_of-Reads
      initial_of-Sound)

-- The first message of a frontend is accepted just if its body is the bytes of a request to cancel,
-- of one of TLS, or of a startup whose version is none of their numbers, whose names are not
-- empty and whose texts hold no null byte.
pub decode_initial_iff :
    (input : List ℕ) (m : Initial)
    → AllBytes input
    → (decode_msg initial_msg input ≡ ok m) ↔ (IsInitial m × (input ≡ initial_bytes m))
decode_initial_iff = decode_msg_iff initial_msg IsInitial initial_bytes IsInitial-ExactAll
