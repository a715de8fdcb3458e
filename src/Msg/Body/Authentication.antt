-- ===== src/Msg/Body/Authentication.antt =====
-- src/msg/body/authentication.rs: what the backend asks of a frontend, by a number and what follows it.
use postgread.Prelude.{
  ℕ, ◌≡◌, ◌≢◌, refl, List, [], ◌∷◌, ◌++◌, Option, none, some, Result, length, arith, length-append,
  AllBytes, All, items_bytes, u32_bytes, ◌==◌, if◌then◌else◌, ◌↔◌,
}
use postgread.Msg.TypeByte.{TypeByte}
use postgread.Msg.Decode.{
  Decoder, MsgDecode, pure, fail, ◌>>=◌, unknown, unknown_sub_type, take_u32, take_slice,
  take_until_null, take_left, collect_all,
}
use postgread.Msg.Decode.Reads.{
  Reads, ReadsAll, ReadsAll-of, Reads-pure, Reads-map, ReadsAll-map, take_slice-Reads, text_bytes,
}
use postgread.Msg.Decode.Sound.{
  Sound, Sound-pure, Sound-map, Sound-fail, if-Sound, IsText, take_slice-Sound,
}
use postgread.Msg.Decode.Exact.{
  Exact, ExactAll, take_u32-Exact, take_until_null-Exact, IsU32, tagged-ExactAll,
}
use postgread.Msg.Decode.Collect.{Round, collect_all-Exact, take_left-ReadsAll, take_left-Sound}
use postgread.Msg.Read.{decode_msg}
use postgread.Msg.Read.Body.{decode_msg_iff}

pub data Authentication : Type 0 where
  cleartext_password gss kerberos_v5 ok scm_credential sspi : Authentication
  gss_continue : List ℕ → Authentication
  md5_password : List ℕ → Authentication
  sasl : List (List ℕ) → Authentication
  sasl_continue : List ℕ → Authentication
  sasl_final : List ℕ → Authentication

unfoldable pub decode_gss_continue : Decoder Authentication
decode_gss_continue = take_left >>= λ auth_data. pure (gss_continue auth_data)

unfoldable pub decode_md5_password : Decoder Authentication
decode_md5_password = take_slice (0 ∷ 0 ∷ 0 ∷ 0 ∷ []) >>= λ salt. pure (md5_password salt)

unfoldable pub mechanism_of : List ℕ → Option (List ℕ)
mechanism_of [] = none
mechanism_of (b ∷ bs) = some (b ∷ bs)

-- A round of the loop: the mechanism to push, or `none` for the `break` on an empty one.
unfoldable pub decode_mechanism : Decoder (Option (List ℕ))
decode_mechanism = take_until_null >>= λ mech. pure (mechanism_of mech)

unfoldable pub decode_sasl : Decoder Authentication
decode_sasl = collect_all decode_mechanism >>= λ auth_mechanisms. pure (sasl auth_mechanisms)

unfoldable pub decode_sasl_continue : Decoder Authentication
decode_sasl_continue = take_left >>= λ bytes. pure (sasl_continue bytes)

unfoldable pub decode_sasl_final : Decoder Authentication
decode_sasl_final = take_left >>= λ additional_data. pure (sasl_final additional_data)

-- The match on the number.
unfoldable pub authentication_of : ℕ → Decoder Authentication
authentication_of auth_type =
    if auth_type == 0
    then pure ok
    else if auth_type == 2
    then pure kerberos_v5
    else if auth_type == 3
    then pure cleartext_password
    else if auth_type == 5
    then decode_md5_password
    else if auth_type == 6
    then pure scm_credential
    else if auth_type == 7
    then pure gss
    else if auth_type == 8
    then decode_gss_continue
    else if auth_type == 9
    then pure sspi
    else if auth_type == 10
    then decode_sasl
    else if auth_type == 11
    then decode_sasl_continue
    else if auth_type == 12
    then decode_sasl_final
    else fail (unknown (unknown_sub_type auth_type))

abbrev pub authentication_type_byte : ℕ
authentication_type_byte = b'R'

unfoldable pub authentication_msg : MsgDecode Authentication
authentication_msg = record {
  type_byte_opt = some TypeByte.authentication;
  decode_body = take_u32 >>= authentication_of;
}

abbrev pub IsMechanism : List ℕ → Type 0
IsMechanism mech = (mech ≢ []) × IsText mech

-- The numbers of the protocol.
unfoldable pub auth_code : Authentication → ℕ
auth_code ok = 0
auth_code kerberos_v5 = 2
auth_code cleartext_password = 3
auth_code (md5_password salt) = 5
auth_code scm_credential = 6
auth_code gss = 7
auth_code (gss_continue bytes) = 8
auth_code sspi = 9
auth_code (sasl mechanisms) = 10
auth_code (sasl_continue bytes) = 11
auth_code (sasl_final bytes) = 12

-- What follows the number: a salt, data to the end, or names with an empty one after them.
unfoldable pub auth_content : Authentication → List ℕ
auth_content (md5_password salt) = salt
auth_content (gss_continue bytes) = bytes
auth_content (sasl mechanisms) = items_bytes text_bytes mechanisms ++ 0 ∷ []
auth_content (sasl_continue bytes) = bytes
auth_content (sasl_final bytes) = bytes
auth_content _ = []

abbrev pub IsAuthentication : Authentication → Type 0
IsAuthentication (md5_password salt) = (length salt ≡ 4) × AllBytes salt
IsAuthentication (gss_continue bytes) = AllBytes bytes
IsAuthentication (sasl mechanisms) = All IsMechanism mechanisms
IsAuthentication (sasl_continue bytes) = AllBytes bytes
IsAuthentication (sasl_final bytes) = AllBytes bytes
IsAuthentication _ = Unit

mechanism-Reads :
    (mech : List ℕ) → IsMechanism mech → Reads decode_mechanism (text_bytes mech) (some mech)
unfolding decode_mechanism mechanism_of
mechanism-Reads [] w = absurd (w.0 refl)
mechanism-Reads (b ∷ bs) w =
    Reads-map take_until_null mechanism_of (text_bytes (b ∷ bs)) (b ∷ bs)
      (take_until_null-Exact.reads (b ∷ bs) w.1)

IsMechanism-Sound : Sound (Round IsMechanism text_bytes (0 ∷ [])) decode_mechanism
unfolding decode_mechanism mechanism_of text_bytes
IsMechanism-Sound = Sound-map _ _ take_until_null mechanism_of take_until_null-Exact.sound go
  where
    go :
        (mech used : List ℕ)
        → IsText mech × (used ≡ mech ++ 0 ∷ [])
        → Round IsMechanism text_bytes (0 ∷ []) (mechanism_of mech) used
    go [] used p = p.1
    go (b ∷ bs) used p = ((λ e. cc, p.0), p.1)

mechanisms-Exact :
    Exact
      (All IsMechanism)
      (λ ms. items_bytes text_bytes ms ++ 0 ∷ [])
      (collect_all decode_mechanism)
mechanisms-Exact =
    collect_all-Exact IsMechanism text_bytes (0 ∷ []) decode_mechanism
      (λ mech w. unfold text_bytes in omega (arith, length-append mech (0 ∷ []))) mechanism-Reads
      (unfold decode_mechanism mechanism_of text_bytes in
        Reads-map take_until_null mechanism_of (0 ∷ []) []
          (take_until_null-Exact.reads [] (tt, tt)))
      IsMechanism-Sound

authentication_of-Reads :
    (m : Authentication)
    → IsAuthentication m
    → IsU32 (auth_code m) × ReadsAll (authentication_of (auth_code m)) (auth_content m) m
unfolding auth_code auth_content authentication_of decode_gss_continue decode_md5_password
    decode_sasl decode_sasl_continue decode_sasl_final
authentication_of-Reads (md5_password salt) w = (
  omega arith,
  ReadsAll-of decode_md5_password salt (md5_password salt) (
      Reads-map (take_slice (0 ∷ 0 ∷ 0 ∷ 0 ∷ [])) (λ s. md5_password s) salt salt
        (take_slice-Reads (0 ∷ 0 ∷ 0 ∷ 0 ∷ []) salt w.0)),
)
authentication_of-Reads (gss_continue bytes) w = (
  omega arith,
  ReadsAll-map take_left (λ b. gss_continue b) bytes bytes (take_left-ReadsAll bytes),
)
authentication_of-Reads (sasl mechanisms) w = (
  omega arith,
  ReadsAll-of decode_sasl _ (sasl mechanisms) (
      Reads-map (collect_all decode_mechanism) (λ ms. sasl ms)
        (items_bytes text_bytes mechanisms ++ 0 ∷ []) mechanisms
        (mechanisms-Exact.reads mechanisms w)),
)
authentication_of-Reads (sasl_continue bytes) w = (
  omega arith,
  ReadsAll-map take_left (λ b. sasl_continue b) bytes bytes (take_left-ReadsAll bytes),
)
authentication_of-Reads (sasl_final bytes) w =
    (omega arith, ReadsAll-map take_left (λ b. sasl_final b) bytes bytes (take_left-ReadsAll bytes))
authentication_of-Reads m w = (omega arith, ReadsAll-of (pure m) [] m (Reads-pure m))

authentication_of-Sound :
    (n : ℕ)
    → IsU32 n
    → Sound
        (λ m used. IsAuthentication m × (auth_code m ≡ n) × (used ≡ auth_content m))
        (authentication_of n)
unfolding auth_code auth_content authentication_of decode_gss_continue decode_md5_password
    decode_sasl decode_sasl_continue decode_sasl_final
authentication_of-Sound n h =
    if-Sound _ (n == 0) _ _ (λ e. Sound-pure _ ok (tt, ground arith, refl))
      (λ _.
        if-Sound _ (n == 2) _ _ (λ e. Sound-pure _ kerberos_v5 (tt, ground arith, refl))
          (λ _.
            if-Sound _ (n == 3) _ _ (λ e. Sound-pure _ cleartext_password (tt, ground arith, refl))
              (λ _.
                if-Sound _ (n == 5) _ _
                  (λ e.
                    Sound-map _ _ (take_slice (0 ∷ 0 ∷ 0 ∷ 0 ∷ [])) (λ s. md5_password s)
                      (take_slice-Sound (0 ∷ 0 ∷ 0 ∷ 0 ∷ []))
                      (λ salt used p. ((p.0, p.1), ground arith, p.2)))
                  (λ _.
                    if-Sound _ (n == 6) _ _
                      (λ e. Sound-pure _ scm_credential (tt, ground arith, refl))
                      (λ _.
                        if-Sound _ (n == 7) _ _ (λ e. Sound-pure _ gss (tt, ground arith, refl))
                          (λ _.
                            if-Sound _ (n == 8) _ _
                              (λ e.
                                Sound-map _ _ take_left (λ b. gss_continue b) take_left-Sound
                                  (λ bytes used p. (p.0, ground arith, p.1)))
                              (λ _.
                                if-Sound _ (n == 9) _ _
                                  (λ e. Sound-pure _ sspi (tt, ground arith, refl))
                                  (λ _.
                                    if-Sound _ (n == 10) _ _
                                      (λ e.
                                        Sound-map _ _ (collect_all decode_mechanism) (λ ms. sasl ms)
                                          mechanisms-Exact.sound
                                          (λ ms used p. (p.0, ground arith, p.1)))
                                      (λ _.
                                        if-Sound _ (n == 11) _ _
                                          (λ e.
                                            Sound-map _ _ take_left (λ b. sasl_continue b)
                                              take_left-Sound
                                              (λ bytes used p. (p.0, ground arith, p.1)))
                                          (λ _.
                                            if-Sound _ (n == 12) _ _
                                              (λ e.
                                                Sound-map _ _ take_left (λ b. sasl_final b)
                                                  take_left-Sound
                                                  (λ bytes used p. (p.0, ground arith, p.1)))
                                              (λ _.
                                                Sound-fail _
                                                  (unknown (unknown_sub_type n)))))))))))))

unfoldable pub authentication_bytes : Authentication → List ℕ
authentication_bytes m = u32_bytes (auth_code m) ++ auth_content m

pub IsAuthentication-ExactAll :
    ExactAll IsAuthentication authentication_bytes authentication_msg.decode_body
unfolding authentication_msg authentication_bytes
IsAuthentication-ExactAll =
    tagged-ExactAll take_u32-Exact auth_code IsAuthentication auth_content authentication_of
      authentication_of-Reads authentication_of-Sound

-- An Authentication is accepted just if its body is one of the protocol's numbers and what goes with it: four
-- bytes of salt, data to the end, or names of mechanisms with an empty name after them.
pub decode_authentication_iff :
    (input : List ℕ) (m : Authentication)
    → AllBytes input
    → (decode_msg authentication_msg input ≡ Result.ok m)
      ↔ (IsAuthentication m × (input ≡ authentication_bytes m))
decode_authentication_iff =
    decode_msg_iff authentication_msg IsAuthentication authentication_bytes
      IsAuthentication-ExactAll
