-- ===== src/Msg/Body/ErrorAndNotice.antt =====
-- src/msg/body/error_and_notice_responses.rs: the fields of an error or a notice.
pub mod Entries
pub mod Last
use postgread.Prelude.{
  ℕ, zero, suc, ◌+◌, ◌-◌, ◌<◌, ◌≤◌, ◌≡◌, ◌≢◌, refl, sym, ap, ◌∙◌, List, [], ◌∷◌, ◌++◌, Option, none,
  some, Bool, true, false, ◌&&◌, Result, ok, err, length, arith, append_assoc, append-nil,
  length-append, subst, AllBytes, All-append_right, NoNull, All, items_bytes, u8_bytes, u16_bytes,
  u32_bytes, ◌==◌, if◌then◌else◌, Bool-cases, inl, inr, ◌↔◌, ◌⊎◌, length-u32_bytes,
}
use postgread.Prelude.Int.{
  ℤ, pos, negsuc, as_signed, to_pattern, IsSigned, as_signed16-to_pattern, to_pattern-as_signed16,
  as_signed32-to_pattern, to_pattern-as_signed32, as_signed-cases, as_signed_nonneg,
  as_signed_minus_one,
}
use postgread.Msg.TypeByte.{TypeByte}
use postgread.Msg.Decode.{
  out_of_fuel, Decoder, MsgDecode, BytesSource, pure, fail, ◌>>=◌, unknown, incorrect,
  unknown_sub_type, mechanism_data_len, unknown_status, unknown_field_type, take_u8, take_u16,
  take_u32, take_vec, take_slice, take_until_null, take_left, left, collect_all,
}
use postgread.Msg.Decode.Reads.{
  Reads, ReadsAll, ReadsAll-of, Reads-bind, ReadsAll-bind, Reads-pure, Reads-map, ReadsAll-map,
  take_vec-Reads, take_slice-Reads, text_bytes,
}
use postgread.Msg.Decode.Sound.{
  Sound, SoundBelow, SoundBelow-bind, Sound-bind, Sound-pure, Sound-map, Sound-fail, Sound-weaken,
  if-Sound, IsText, take_slice-Sound,
}
use postgread.Msg.Decode.Exact.{
  Exact, ExactAll, ExactAll-of, Exact-iff, take_u8-Exact, take_u16-Exact, take_u32-Exact,
  take_vec-Exact, take_until_null-Exact, IsU8, IsU16, IsU32, IsRaw, bind-Exact, last-Exact,
  pure-Exact, tagged-Exact, tagged-ExactAll,
}
use postgread.Msg.Decode.Collect.{
  Round, collect_all-Exact, take_left-ExactAll, take_left-ReadsAll, take_left-Sound,
}
use postgread.Msg.Parts.{
  Format, Value, Text, decode_format, decode_text, decode_value, decode_u32, decode_vec,
}
use postgread.Msg.Parts.Exact.{
  Any, IsValue, format_bytes, value_bytes, decode_format-Exact, decode_text-Exact,
  decode_value-Exact, decode_u32-Exact, counted16-Exact, counted32-Exact,
}
use postgread.Msg.Read.{decode_msg}
use postgread.Msg.Read.Body.{decode_msg_sound, decode_msg_reads}

pub record ErrorOrNoticeFields : Type 0 where
  pub localized_severity : Option (List ℕ)
  pub severity : Option (List ℕ)
  pub code : Option (List ℕ)
  pub message : Option (List ℕ)
  pub detail : Option (List ℕ)
  pub hint : Option (List ℕ)
  pub position : Option (List ℕ)
  pub internal_position : Option (List ℕ)
  pub internal_query : Option (List ℕ)
  pub where_ : Option (List ℕ)
  pub schema : Option (List ℕ)
  pub table : Option (List ℕ)
  pub column : Option (List ℕ)
  pub data_type : Option (List ℕ)
  pub constraint : Option (List ℕ)
  pub file : Option (List ℕ)
  pub line : Option (List ℕ)
  pub routine : Option (List ℕ)

unfoldable pub default : ErrorOrNoticeFields
default = record {
  localized_severity = none;
  severity = none;
  code = none;
  message = none;
  detail = none;
  hint = none;
  position = none;
  internal_position = none;
  internal_query = none;
  where_ = none;
  schema = none;
  table = none;
  column = none;
  data_type = none;
  constraint = none;
  file = none;
  line = none;
  routine = none;
}

-- The names on the right of the macro's `=>`.
pub data FieldType : Type 0 where
  localized_severity severity code message detail hint : FieldType
  position internal_position internal_query where_ schema table : FieldType
  column data_type constraint file line routine : FieldType

-- The byte on the left of the `=>`.
unfoldable pub field_code : FieldType → ℕ
field_code localized_severity = b'S'
field_code severity = b'V'
field_code code = b'C'
field_code message = b'M'
field_code detail = b'D'
field_code hint = b'H'
field_code position = b'P'
field_code internal_position = b'p'
field_code internal_query = b'q'
field_code where_ = b'W'
field_code schema = b's'
field_code table = b't'
field_code column = b'c'
field_code data_type = b'd'
field_code constraint = b'n'
field_code file = b'F'
field_code line = b'L'
field_code routine = b'R'

-- The macro's match on a byte other than 0.
unfoldable pub field_type_of : ℕ → Option FieldType
field_type_of b =
    if b == b'S'
    then some localized_severity
    else if b == b'V'
    then some severity
    else if b == b'C'
    then some code
    else if b == b'M'
    then some message
    else if b == b'D'
    then some detail
    else if b == b'H'
    then some hint
    else if b == b'P'
    then some position
    else if b == b'p'
    then some internal_position
    else if b == b'q'
    then some internal_query
    else if b == b'W'
    then some where_
    else if b == b's'
    then some schema
    else if b == b't'
    then some table
    else if b == b'c'
    then some column
    else if b == b'd'
    then some data_type
    else if b == b'n'
    then some constraint
    else if b == b'F'
    then some file
    else if b == b'L'
    then some line
    else if b == b'R'
    then some routine
    else none

-- `$result.$field = Some(value)`
unfoldable pub set_field : FieldType → List ℕ → ErrorOrNoticeFields → ErrorOrNoticeFields
set_field localized_severity value body = record body { localized_severity = some value }
set_field severity value body = record body { severity = some value }
set_field code value body = record body { code = some value }
set_field message value body = record body { message = some value }
set_field detail value body = record body { detail = some value }
set_field hint value body = record body { hint = some value }
set_field position value body = record body { position = some value }
set_field internal_position value body = record body { internal_position = some value }
set_field internal_query value body = record body { internal_query = some value }
set_field where_ value body = record body { where_ = some value }
set_field schema value body = record body { schema = some value }
set_field table value body = record body { table = some value }
set_field column value body = record body { column = some value }
set_field data_type value body = record body { data_type = some value }
set_field constraint value body = record body { constraint = some value }
set_field file value body = record body { file = some value }
set_field line value body = record body { line = some value }
set_field routine value body = record body { routine = some value }

unfoldable pub get_field : FieldType → ErrorOrNoticeFields → Option (List ℕ)
get_field localized_severity body = body.localized_severity
get_field severity body = body.severity
get_field code body = body.code
get_field message body = body.message
get_field detail body = body.detail
get_field hint body = body.hint
get_field position body = body.position
get_field internal_position body = body.internal_position
get_field internal_query body = body.internal_query
get_field where_ body = body.where_
get_field schema body = body.schema
get_field table body = body.table
get_field column body = body.column
get_field data_type body = body.data_type
get_field constraint body = body.constraint
get_field file body = body.file
get_field line body = body.line
get_field routine body = body.routine

-- The arms of the match: the rounds to come are given, as a function of the fields.
unfoldable pub field_arm :
    (ErrorOrNoticeFields → Decoder ErrorOrNoticeFields)
    → ℕ
    → ℕ
    → ErrorOrNoticeFields
    → Option FieldType
    → Decoder ErrorOrNoticeFields
field_arm more index byte body none = fail (unknown (unknown_field_type index byte))
field_arm more index byte body (some t) = take_until_null >>= λ value. more (set_field t value body)

unfoldable pub field_round :
    (ErrorOrNoticeFields → Decoder ErrorOrNoticeFields)
    → ℕ
    → ErrorOrNoticeFields
    → ℕ
    → Decoder ErrorOrNoticeFields
unfolding field_arm
field_round more index body byte =
    if byte == 0 then pure body else field_arm more index byte body (field_type_of byte)

-- The loop of `read_struct_of_opt_fields!`, on fuel.
unfoldable pub fields_loop : ℕ → ℕ → ErrorOrNoticeFields → Decoder ErrorOrNoticeFields
unfolding field_round
fields_loop zero index body s = (out_of_fuel, s)
fields_loop (suc fuel) index body s =
    let more = fields_loop fuel (index + 1) in (take_u8 >>= field_round more index body) s

-- Each round takes a byte at least.
unfoldable pub decode_fields : Decoder ErrorOrNoticeFields
unfolding fields_loop
decode_fields s = fields_loop (left s + 1) 0 default s

pub record ErrorResponse : Type 0 where
  pub fields : ErrorOrNoticeFields

pub record NoticeResponse : Type 0 where
  pub fields : ErrorOrNoticeFields

abbrev pub error_response_type_byte : ℕ
error_response_type_byte = b'E'

unfoldable pub error_response_msg : MsgDecode ErrorResponse
error_response_msg = record {
  type_byte_opt = some TypeByte.execute_or_error_response;
  decode_body = decode_fields >>= λ fields. pure (record { fields = fields });
}

abbrev pub notice_response_type_byte : ℕ
notice_response_type_byte = b'N'

unfoldable pub notice_response_msg : MsgDecode NoticeResponse
notice_response_msg = record {
  type_byte_opt = some TypeByte.notice_response;
  decode_body = decode_fields >>= λ fields. pure (record { fields = fields });
}
