-- ===== src/Msg/Body/ErrorAndNotice/Last.antt =====
-- What the fields of src/msg/body/error_and_notice_responses.rs hold after a body has been decoded.
use postgread.Prelude.{
  ℕ, ◌≡◌, refl, sym, ap, ◌∙◌, List, [], ◌∷◌, Option, none, some, ok, arith, subst, AllBytes, All,
  ◌==◌, if◌then◌else◌, ◌↔◌,
}
use postgread.Msg.TypeByte.{TypeByte}
use postgread.Msg.Decode.{MsgDecode, pure, ◌>>=◌}
use postgread.Msg.Decode.Reads.{Reads, ReadsAll-of, Reads-map}
use postgread.Msg.Decode.Sound.{Sound, Sound-map}
use postgread.Msg.Read.{decode_msg}
use postgread.Msg.Read.Body.{decode_msg_sound, decode_msg_reads}
use postgread.Msg.Body.ErrorAndNotice.{
  ErrorOrNoticeFields, default, FieldType, localized_severity, severity, code, message, detail,
  hint, position, internal_position, internal_query, where_, schema, table, column, data_type,
  constraint, file, line, routine, field_code, set_field, get_field, decode_fields, ErrorResponse,
  NoticeResponse, error_response_msg, notice_response_msg,
}
use postgread.Msg.Body.ErrorAndNotice.Entries.{
  Entry, IsEntry, entries_bytes, set_all, Entries, decode_fields-Sound, decode_fields-Reads,
}

-- A value that was set is read back, and the other fields are as they were.
get_field-set_field :
    (t u : FieldType) (value : List ℕ) (body : ErrorOrNoticeFields)
    → get_field u (set_field t value body)
      ≡ (if field_code t == field_code u then some value else get_field u body)
unfolding get_field set_field field_code
get_field-set_field localized_severity u value body = ground arith
get_field-set_field _ u value body = ground arith

-- The value of the last entry of a type, if there is one.
abbrev pub last_value : FieldType → Option (List ℕ) → List Entry → Option (List ℕ)
last_value t before [] = before
last_value t before (e ∷ es) =
    last_value t (if field_code e.field_type == field_code t then some e.value else before) es

get_field-set_all :
    (t : FieldType) (body : ErrorOrNoticeFields) (es : List Entry)
    → get_field t (set_all body es) ≡ last_value t (get_field t body) es
unfolding set_all
get_field-set_all t body [] = refl
get_field-set_all t body (e ∷ es) =
    get_field-set_all t (set_field e.field_type e.value body) es
    ∙ ap (λ v. last_value t v es) (get_field-set_field e.field_type t e.value body)

get_field-default : (t : FieldType) → get_field t default ≡ none
unfolding get_field default
get_field-default localized_severity = refl
get_field-default _ = refl

-- The fields hold just the last value of each type.
abbrev pub HoldsLast : ErrorOrNoticeFields → List Entry → Type 0
HoldsLast fields es = (t : FieldType) → get_field t fields ≡ last_value t none es

set_all-HoldsLast : (es : List Entry) → HoldsLast (set_all default es) es
set_all-HoldsLast es t = rw (get_field-set_all t default es, get_field-default t)

fields_ext : (a b : ErrorOrNoticeFields) → ((t : FieldType) → get_field t a ≡ get_field t b) → a ≡ b
unfolding get_field
fields_ext a b h i = record {
  localized_severity = h localized_severity i;
  severity = h severity i;
  code = h code i;
  message = h message i;
  detail = h detail i;
  hint = h hint i;
  position = h position i;
  internal_position = h internal_position i;
  internal_query = h internal_query i;
  where_ = h where_ i;
  schema = h schema i;
  table = h table i;
  column = h column i;
  data_type = h data_type i;
  constraint = h constraint i;
  file = h file i;
  line = h line i;
  routine = h routine i;
}

module _ {Msg : Type 0} (fields : Msg → ErrorOrNoticeFields) (make : ErrorOrNoticeFields → Msg)
    (fields-make : (f : ErrorOrNoticeFields) → fields (make f) ≡ f)
    (make-fields : (m : Msg) → make (fields m) ≡ m) (type_byte_opt : Option TypeByte) where
  abbrev fields_msg : MsgDecode Msg
  fields_msg = record {
    type_byte_opt = type_byte_opt;
    decode_body = decode_fields >>= λ f. pure (make f);
  }

  fields_msg-Sound : Sound (λ m used. Entries default (fields m) used) fields_msg.decode_body
  fields_msg-Sound =
      Sound-map _ _ decode_fields make decode_fields-Sound (λ f used p. rw (fields-make f) p)

  fields_msg_iff :
      (input : List ℕ) (m : Msg)
      → AllBytes input
      → (decode_msg fields_msg input ≡ ok m) ↔ (
          (es : List Entry) × All IsEntry es × HoldsLast (fields m) es × (input ≡ entries_bytes es))
  fields_msg_iff input m h = (
    λ e.
        let (es, w, set, bytes) =
          decode_msg_sound fields_msg (λ m used. Entries default (fields m) used) input m
            fields_msg-Sound h e in
        (es, w, rw set (set_all-HoldsLast es), bytes),
    λ (es, w, holds, bytes).
        let same : set_all default es ≡ fields m =
          fields_ext (set_all default es) (fields m)
            (λ t. set_all-HoldsLast es t ∙ sym (holds t)) in
        rw bytes (
          decode_msg_reads fields_msg (entries_bytes es) m (
            ReadsAll-of fields_msg.decode_body (entries_bytes es) m (
              subst (Reads fields_msg.decode_body (entries_bytes es)) (ap make same ∙ make-fields m)
                (Reads-map decode_fields make (entries_bytes es) (set_all default es)
                  (decode_fields-Reads es w))))),
  )

-- An ErrorResponse is accepted just on the bytes of entries of the known types with the byte 0
-- after them, and each of its fields holds the value of the last entry of that type, if any.
pub decode_error_response_iff :
    (input : List ℕ) (m : ErrorResponse)
    → AllBytes input
    → (decode_msg error_response_msg input ≡ ok m)
      ↔ ((es : List Entry) × All IsEntry es × HoldsLast m.fields es × (input ≡ entries_bytes es))
unfolding error_response_msg
decode_error_response_iff =
    fields_msg_iff (λ (m : ErrorResponse). m.fields) (λ f. record { fields = f }) (λ f. refl)
      (λ m. refl) (some TypeByte.execute_or_error_response)

-- A NoticeResponse is accepted just on the bytes of entries of the known types with the byte 0
-- after them, and each of its fields holds the value of the last entry of that type, if any.
pub decode_notice_response_iff :
    (input : List ℕ) (m : NoticeResponse)
    → AllBytes input
    → (decode_msg notice_response_msg input ≡ ok m)
      ↔ ((es : List Entry) × All IsEntry es × HoldsLast m.fields es × (input ≡ entries_bytes es))
unfolding notice_response_msg
decode_notice_response_iff =
    fields_msg_iff (λ (m : NoticeResponse). m.fields) (λ f. record { fields = f }) (λ f. refl)
      (λ m. refl) (some TypeByte.notice_response)
