-- ===== src/Msg/Body/Status.antt =====
-- src/msg/body/{backend_key_data,parameter_status,negotiate_protocol_version,ready_for_query}.rs:
-- what the backend tells of itself.
use postgread.Prelude.{
  ℕ, ◌≡◌, refl, sym, List, [], ◌++◌, some, ok, length, arith, AllBytes, All, items_bytes, u8_bytes,
  u32_bytes, ◌==◌, if◌then◌else◌, ◌↔◌,
}
use postgread.Msg.TypeByte.{TypeByte}
use postgread.Msg.Decode.{
  Decoder, MsgDecode, pure, fail, ◌>>=◌, unknown, unknown_status, take_u8, take_u32,
  take_until_null,
}
use postgread.Msg.Decode.Reads.{Reads, Reads-pure, text_bytes}
use postgread.Msg.Decode.Sound.{Sound, Sound-pure, Sound-fail, if-Sound, IsText}
use postgread.Msg.Decode.Exact.{
  Exact, ExactAll-of, Exact-iff, take_u8-Exact, take_u32-Exact, take_until_null-Exact, IsU8, IsU32,
  bind-Exact, last-Exact, tagged-Exact,
}
use postgread.Msg.Parts.{Text, decode_text, decode_vec}
use postgread.Msg.Parts.Exact.{Any, decode_text-Exact, counted32-Exact}
use postgread.Msg.Read.{decode_msg}
use postgread.Msg.Read.Body.{decode_msg_iff}

pub record BackendKeyData : Type 0 where
  pub process_id : ℕ
  pub secret_key : ℕ

abbrev pub backend_key_data_type_byte : ℕ
backend_key_data_type_byte = b'K'

unfoldable pub backend_key_data_msg : MsgDecode BackendKeyData
backend_key_data_msg = record {
  type_byte_opt = some TypeByte.backend_key_data;
  decode_body = do
    process_id ← take_u32
    secret_key ← take_u32
    pure (record { process_id = process_id; secret_key = secret_key });
}

abbrev pub IsBackendKeyData : BackendKeyData → Type 0
IsBackendKeyData m = IsU32 m.process_id × IsU32 m.secret_key

unfoldable pub backend_key_data_bytes : BackendKeyData → List ℕ
backend_key_data_bytes m = u32_bytes m.process_id ++ u32_bytes m.secret_key

pub IsBackendKeyData-Exact :
    Exact IsBackendKeyData backend_key_data_bytes backend_key_data_msg.decode_body
unfolding backend_key_data_msg backend_key_data_bytes
IsBackendKeyData-Exact =
    Exact-iff IsBackendKeyData (λ m. (λ w. w.0, λ w. (w, tt)))
      (bind-Exact (λ (m : BackendKeyData). m.process_id) (λ m. Unit {0}) take_u32-Exact
        (λ process_id w.
          last-Exact (λ (m : BackendKeyData). m.secret_key)
            (λ m. Unit {0} × (m.process_id ≡ process_id)) take_u32-Exact
            (λ secret_key. record { process_id = process_id; secret_key = secret_key })
            (λ secret_key w. ((tt, refl), refl))
            (λ m h i. record { process_id = sym h.1 i; secret_key = m.secret_key })))

-- A BackendKeyData is accepted just if its body is the bytes of the two numbers.
pub decode_backend_key_data_iff :
    (input : List ℕ) (m : BackendKeyData)
    → AllBytes input
    → (decode_msg backend_key_data_msg input ≡ ok m)
      ↔ (IsBackendKeyData m × (input ≡ backend_key_data_bytes m))
decode_backend_key_data_iff =
    decode_msg_iff backend_key_data_msg IsBackendKeyData backend_key_data_bytes
      (ExactAll-of IsBackendKeyData-Exact)

pub record ParameterStatus : Type 0 where
  pub name : List ℕ
  pub value : List ℕ

abbrev pub parameter_status_type_byte : ℕ
parameter_status_type_byte = b'S'

unfoldable pub parameter_status_msg : MsgDecode ParameterStatus
parameter_status_msg = record {
  type_byte_opt = some TypeByte.parameter_status_or_sync;
  decode_body = do
    name ← take_until_null
    value ← take_until_null
    pure (record { name = name; value = value });
}

abbrev pub IsParameterStatus : ParameterStatus → Type 0
IsParameterStatus m = IsText m.name × IsText m.value

unfoldable pub parameter_status_bytes : ParameterStatus → List ℕ
parameter_status_bytes m = text_bytes m.name ++ text_bytes m.value

pub IsParameterStatus-Exact :
    Exact IsParameterStatus parameter_status_bytes parameter_status_msg.decode_body
unfolding parameter_status_msg parameter_status_bytes
IsParameterStatus-Exact =
    Exact-iff IsParameterStatus (λ m. (λ w. w.0, λ w. (w, tt)))
      (bind-Exact (λ (m : ParameterStatus). m.name) (λ m. Unit {0}) take_until_null-Exact
        (λ name w.
          last-Exact (λ (m : ParameterStatus). m.value) (λ m. Unit {0} × (m.name ≡ name))
            take_until_null-Exact (λ value. record { name = name; value = value })
            (λ value w. ((tt, refl), refl))
            (λ m h i. record { name = sym h.1 i; value = m.value })))

-- A ParameterStatus is accepted just if its body is two texts, each with its null byte.
pub decode_parameter_status_iff :
    (input : List ℕ) (m : ParameterStatus)
    → AllBytes input
    → (decode_msg parameter_status_msg input ≡ ok m)
      ↔ (IsParameterStatus m × (input ≡ parameter_status_bytes m))
decode_parameter_status_iff =
    decode_msg_iff parameter_status_msg IsParameterStatus parameter_status_bytes
      (ExactAll-of IsParameterStatus-Exact)

pub record NegotiateProtocolVersion : Type 0 where
  pub newest_backend_minor : ℕ
  pub unrecognized_options : List Text

abbrev pub negotiate_protocol_version_type_byte : ℕ
negotiate_protocol_version_type_byte = b'v'

unfoldable pub negotiate_protocol_version_msg : MsgDecode NegotiateProtocolVersion
negotiate_protocol_version_msg = record {
  type_byte_opt = some TypeByte.negotiate_protocol_version;
  decode_body = do
    newest_backend_minor ← take_u32
    unrecognized_options ← take_u32 >>= λ count. decode_vec count decode_text
    pure (record {
      newest_backend_minor = newest_backend_minor;
      unrecognized_options = unrecognized_options;
    });
}

abbrev pub IsNegotiateProtocolVersion : NegotiateProtocolVersion → Type 0
IsNegotiateProtocolVersion m =
    IsU32 m.newest_backend_minor
    × (IsU32 (length m.unrecognized_options) × All IsText m.unrecognized_options)

unfoldable pub negotiate_protocol_version_bytes : NegotiateProtocolVersion → List ℕ
negotiate_protocol_version_bytes m =
    u32_bytes m.newest_backend_minor
    ++ (u32_bytes (length m.unrecognized_options) ++ items_bytes text_bytes m.unrecognized_options)

pub IsNegotiateProtocolVersion-Exact :
    Exact IsNegotiateProtocolVersion negotiate_protocol_version_bytes
      negotiate_protocol_version_msg.decode_body
unfolding negotiate_protocol_version_msg negotiate_protocol_version_bytes
IsNegotiateProtocolVersion-Exact =
    Exact-iff IsNegotiateProtocolVersion (λ m. (λ w. w.0, λ w. (w, tt)))
      (bind-Exact (λ (m : NegotiateProtocolVersion). m.newest_backend_minor) (λ m. Unit {0})
        take_u32-Exact
        (λ minor w.
          last-Exact (λ (m : NegotiateProtocolVersion). m.unrecognized_options)
            (λ m. Unit {0} × (m.newest_backend_minor ≡ minor))
            (counted32-Exact IsText text_bytes decode_text decode_text-Exact)
            (λ options. record { newest_backend_minor = minor; unrecognized_options = options })
            (λ options w. ((tt, refl), refl))
            (λ m h i. record {
              newest_backend_minor = sym h.1 i;
              unrecognized_options = m.unrecognized_options;
            })))

-- A NegotiateProtocolVersion is accepted just if its body is the minor version, the number of
-- the options in four bytes, and the options.
pub decode_negotiate_protocol_version_iff :
    (input : List ℕ) (m : NegotiateProtocolVersion)
    → AllBytes input
    → (decode_msg negotiate_protocol_version_msg input ≡ ok m)
      ↔ (IsNegotiateProtocolVersion m × (input ≡ negotiate_protocol_version_bytes m))
decode_negotiate_protocol_version_iff =
    decode_msg_iff negotiate_protocol_version_msg IsNegotiateProtocolVersion
      negotiate_protocol_version_bytes (ExactAll-of IsNegotiateProtocolVersion-Exact)

pub data Status : Type 0 where
  idle transaction error : Status

pub record ReadyForQuery : Type 0 where
  pub status : Status

unfoldable pub status_of : ℕ → Decoder Status
status_of byte =
    if byte == b'I'
    then pure idle
    else if byte == b'T'
    then pure transaction
    else if byte == b'E'
    then pure error
    else fail (unknown (unknown_status byte))

unfoldable pub decode_status : Decoder Status
decode_status = take_u8 >>= status_of

abbrev pub ready_for_query_type_byte : ℕ
ready_for_query_type_byte = b'Z'

unfoldable pub ready_for_query_msg : MsgDecode ReadyForQuery
ready_for_query_msg = record {
  type_byte_opt = some TypeByte.ready_for_query;
  decode_body = decode_status >>= λ status. pure (record { status = status });
}

unfoldable pub status_code : Status → ℕ
status_code idle = b'I'
status_code transaction = b'T'
status_code error = b'E'

unfoldable pub status_bytes : Status → List ℕ
status_bytes s = u8_bytes (status_code s) ++ []

decode_status-Exact : Exact Any status_bytes decode_status
unfolding decode_status status_bytes status_of status_code
decode_status-Exact = tagged-Exact take_u8-Exact status_code Any (λ s. []) status_of reads sound
  where
    reads : (s : Status) → Any s → IsU8 (status_code s) × Reads (status_of (status_code s)) [] s
    reads idle w = (omega arith, Reads-pure idle)
    reads transaction w = (omega arith, Reads-pure transaction)
    reads error w = (omega arith, Reads-pure error)

    sound : (n : ℕ) → IsU8 n → Sound (λ s v. Any s × (status_code s ≡ n) × (v ≡ [])) (status_of n)
    sound n h =
        if-Sound _ (n == b'I') _ _ (λ e. Sound-pure _ idle (tt, ground arith, refl))
          (λ _.
            if-Sound _ (n == b'T') _ _ (λ e. Sound-pure _ transaction (tt, ground arith, refl))
              (λ _.
                if-Sound _ (n == b'E') _ _ (λ e. Sound-pure _ error (tt, ground arith, refl))
                  (λ _. Sound-fail _ (unknown (unknown_status n)))))

pub ready_for_query-Exact : Exact Any (λ m. status_bytes m.status) ready_for_query_msg.decode_body
unfolding ready_for_query_msg
ready_for_query-Exact =
    Exact-iff Any (λ m. (λ w. tt, λ w. (tt, tt)))
      (last-Exact (λ (m : ReadyForQuery). m.status) (λ m. Unit {0}) decode_status-Exact
        (λ status. record { status = status }) (λ status w. (tt, refl)) (λ m h. refl))

-- A ReadyForQuery is accepted just if its body is one byte, `I`, `T` or `E`, and has that status.
pub decode_ready_for_query_iff :
    (input : List ℕ) (m : ReadyForQuery)
    → AllBytes input
    → (decode_msg ready_for_query_msg input ≡ ok m) ↔ (Any m × (input ≡ status_bytes m.status))
decode_ready_for_query_iff =
    decode_msg_iff ready_for_query_msg Any (λ m. status_bytes m.status)
      (ExactAll-of ready_for_query-Exact)
