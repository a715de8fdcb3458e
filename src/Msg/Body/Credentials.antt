-- ===== src/Msg/Body/Credentials.antt =====
-- src/msg/body/{password,gss_response,sasl_initial_response,sasl_response}.rs: how a frontend
-- answers when it is asked to authenticate.
use postgread.Prelude.{
  ℕ, zero, suc, ◌<◌, ◌≡◌, refl, sym, List, [], ◌++◌, Option, none, some, ok, length, arith, subst,
  AllBytes, u32_bytes, inl, inr, ◌↔◌,
}
use postgread.Prelude.Int.{
  ℤ, pos, negsuc, as_signed, as_signed-cases, as_signed_nonneg, as_signed_minus_one,
}
use postgread.Msg.TypeByte.{TypeByte}
use postgread.Msg.Decode.{
  Decoder, MsgDecode, pure, fail, ◌>>=◌, incorrect, mechanism_data_len, take_u32, take_vec,
  take_until_null, take_left,
}
use postgread.Msg.Decode.Reads.{
  Reads, ReadsAll, Reads-pure, Reads-map, ReadsAll-map, take_vec-Reads, text_bytes,
}
use postgread.Msg.Decode.Sound.{Sound, Sound-pure, Sound-map, Sound-fail, IsText}
use postgread.Msg.Decode.Exact.{
  Exact, ExactAll, ExactAll-of, Exact-iff, take_u32-Exact, take_vec-Exact, take_until_null-Exact,
  IsU32, bind-Exact, last-Exact, tagged-Exact,
}
use postgread.Msg.Decode.Collect.{take_left-ReadsAll, take_left-Sound}
use postgread.Msg.Read.{decode_msg}
use postgread.Msg.Read.Body.{decode_msg_iff}

pub record Password : Type 0 where
  pub password : List ℕ

abbrev pub password_type_byte : ℕ
password_type_byte = b'p'

unfoldable pub password_msg : MsgDecode Password
password_msg = record {
  type_byte_opt = some TypeByte.gss_response_or_password_or_sasl_responses;
  decode_body = take_until_null >>= λ password. pure (record { password = password });
}

pub password-Exact :
    Exact (λ m. IsText m.password) (λ m. text_bytes m.password) password_msg.decode_body
unfolding password_msg
password-Exact =
    Exact-iff (λ m. IsText m.password) (λ m. (λ w. w.0, λ w. (w, tt)))
      (last-Exact (λ (m : Password). m.password) (λ m. Unit {0}) take_until_null-Exact
        (λ password. record { password = password }) (λ password w. (tt, refl)) (λ m h. refl))

-- A Password is accepted just if its body is a text with its null byte.
pub decode_password_iff :
    (input : List ℕ) (m : Password)
    → AllBytes input
    → (decode_msg password_msg input ≡ ok m) ↔ (IsText m.password × (input ≡ text_bytes m.password))
decode_password_iff =
    decode_msg_iff password_msg (λ m. IsText m.password) (λ m. text_bytes m.password)
      (ExactAll-of password-Exact)

pub record GssResponse : Type 0 where
  pub data_bytes : List ℕ

abbrev pub gss_response_type_byte : ℕ
gss_response_type_byte = b'p'

unfoldable pub gss_response_msg : MsgDecode GssResponse
gss_response_msg = record {
  type_byte_opt = some TypeByte.gss_response_or_password_or_sasl_responses;
  decode_body = take_left >>= λ bytes. pure (record { data_bytes = bytes });
}

pub record SaslResponse : Type 0 where
  pub mechanism_data : List ℕ

unfoldable pub sasl_response_msg : MsgDecode SaslResponse
sasl_response_msg = record {
  type_byte_opt = some TypeByte.gss_response_or_password_or_sasl_responses;
  decode_body = take_left >>= λ bytes. pure (record { mechanism_data = bytes });
}

-- A message that is just its body.
pub whole-ExactAll :
    {A : Type 0} (field : A → List ℕ) (make : List ℕ → A)
    → ((bytes : List ℕ) → field (make bytes) ≡ bytes)
    → ((a : A) → make (field a) ≡ a)
    → ExactAll (λ a. AllBytes (field a)) field (take_left >>= λ bytes. pure (make bytes))
whole-ExactAll field make fm mf = record {
  reads = λ a w.
      subst (ReadsAll (take_left >>= λ bytes. pure (make bytes)) (field a)) (mf a)
        (ReadsAll-map take_left make (field a) (field a) (take_left-ReadsAll (field a)));
  sound = Sound-map _ _ take_left make take_left-Sound (λ bytes used p. (rw fm p.0, rw fm p.1));
}

-- A GssResponse is accepted with any body, and holds that body.
pub decode_gss_response_iff :
    (input : List ℕ) (m : GssResponse)
    → AllBytes input
    → (decode_msg gss_response_msg input ≡ ok m) ↔ (AllBytes m.data_bytes × (input ≡ m.data_bytes))
unfolding gss_response_msg
decode_gss_response_iff =
    decode_msg_iff gss_response_msg (λ m. AllBytes m.data_bytes) (λ m. m.data_bytes)
      (whole-ExactAll (λ (m : GssResponse). m.data_bytes) (λ bytes. record { data_bytes = bytes })
        (λ bytes. refl) (λ m. refl))

-- A SaslResponse is accepted with any body, and holds that body.
pub decode_sasl_response_iff :
    (input : List ℕ) (m : SaslResponse)
    → AllBytes input
    → (decode_msg sasl_response_msg input ≡ ok m)
      ↔ (AllBytes m.mechanism_data × (input ≡ m.mechanism_data))
unfolding sasl_response_msg
decode_sasl_response_iff =
    decode_msg_iff sasl_response_msg (λ m. AllBytes m.mechanism_data) (λ m. m.mechanism_data)
      (whole-ExactAll (λ (m : SaslResponse). m.mechanism_data)
        (λ bytes. record { mechanism_data = bytes }) (λ bytes. refl) (λ m. refl))

pub record SaslInitialResponse : Type 0 where
  pub selected_mechanism : List ℕ
  pub mechanism_data : Option (List ℕ)

-- The arms of the match on the length.
unfoldable pub mechanism_data_of : ℤ → Decoder (Option (List ℕ))
mechanism_data_of (negsuc zero) = pure none
mechanism_data_of (pos len) = do bytes ← take_vec len; pure (some bytes)
mechanism_data_of (negsuc (suc n)) = fail (incorrect (mechanism_data_len (negsuc (suc n))))

unfoldable pub sasl_initial_response_msg : MsgDecode SaslInitialResponse
sasl_initial_response_msg = record {
  type_byte_opt = some TypeByte.gss_response_or_password_or_sasl_responses;
  decode_body = do
    selected_mechanism ← take_until_null
    mechanism_data ← take_u32 >>= λ n. mechanism_data_of (as_signed 32 n)
    pure (record { selected_mechanism = selected_mechanism; mechanism_data = mechanism_data });
}

unfoldable pub data_len : Option (List ℕ) → ℕ
data_len none = 4294967295
data_len (some bytes) = length bytes

unfoldable pub data_content : Option (List ℕ) → List ℕ
data_content none = []
data_content (some bytes) = bytes

abbrev pub IsData : Option (List ℕ) → Type 0
IsData none = Unit
IsData (some bytes) = (length bytes < 2147483648) × AllBytes bytes

data-Reads :
    (d : Option (List ℕ))
    → IsData d
    → IsU32 (data_len d) × Reads (mechanism_data_of (as_signed 32 (data_len d))) (data_content d) d
unfolding mechanism_data_of data_len data_content
data-Reads none w = (omega arith, rw as_signed_minus_one (Reads-pure none))
data-Reads (some bytes) w = (
  omega arith,
  rw (as_signed_nonneg (length bytes) w.0)
      (Reads-map (take_vec (length bytes)) (λ b. some b) bytes bytes (take_vec-Reads bytes)),
)

IsData-Sound :
    (n : ℕ)
    → IsU32 n
    → Sound
        (λ d used. IsData d × (data_len d ≡ n) × (used ≡ data_content d))
        (mechanism_data_of (as_signed 32 n))
unfolding mechanism_data_of data_len data_content
IsData-Sound n h = elim (as_signed-cases n h) [
  | inl (e, small) ↦ rw e (
      Sound-map _ _ (take_vec n) (λ b. some b) (take_vec-Exact n).sound
        (λ bytes used (raw, eu). ((omega (arith, raw.0), raw.1), raw.0, eu)))
  | inr (inl (e, minus_one)) ↦ rw e (Sound-pure _ none (tt, sym minus_one, refl))
  | inr (inr (k, e)) ↦ rw e (Sound-fail _ (incorrect (mechanism_data_len (negsuc (suc k)))))
]

abbrev pub IsSaslInitialResponse : SaslInitialResponse → Type 0
IsSaslInitialResponse m = IsText m.selected_mechanism × IsData m.mechanism_data

unfoldable pub sasl_initial_response_bytes : SaslInitialResponse → List ℕ
sasl_initial_response_bytes m =
    text_bytes m.selected_mechanism
    ++ (u32_bytes (data_len m.mechanism_data) ++ data_content m.mechanism_data)

pub IsSaslInitialResponse-Exact :
    Exact IsSaslInitialResponse sasl_initial_response_bytes sasl_initial_response_msg.decode_body
unfolding sasl_initial_response_msg sasl_initial_response_bytes
IsSaslInitialResponse-Exact =
    Exact-iff IsSaslInitialResponse (λ m. (λ w. w.0, λ w. (w, tt)))
      (bind-Exact (λ (m : SaslInitialResponse). m.selected_mechanism) (λ m. Unit {0})
        take_until_null-Exact
        (λ mechanism w.
          last-Exact (λ (m : SaslInitialResponse). m.mechanism_data)
            (λ m. Unit {0} × (m.selected_mechanism ≡ mechanism))
            (tagged-Exact take_u32-Exact data_len IsData data_content
              (λ n. mechanism_data_of (as_signed 32 n)) data-Reads IsData-Sound)
            (λ d. record { selected_mechanism = mechanism; mechanism_data = d })
            (λ d w. ((tt, refl), refl))
            (λ m h i. record {
              selected_mechanism = sym h.1 i;
              mechanism_data = m.mechanism_data;
            })))

-- A SaslInitialResponse is accepted just if its body is the name of the mechanism, and the length of the
-- data in four bytes with the data, or the length -1 for none.
pub decode_sasl_initial_response_iff :
    (input : List ℕ) (m : SaslInitialResponse)
    → AllBytes input
    → (decode_msg sasl_initial_response_msg input ≡ ok m)
      ↔ (IsSaslInitialResponse m × (input ≡ sasl_initial_response_bytes m))
decode_sasl_initial_response_iff =
    decode_msg_iff sasl_initial_response_msg IsSaslInitialResponse sasl_initial_response_bytes
      (ExactAll-of IsSaslInitialResponse-Exact)
