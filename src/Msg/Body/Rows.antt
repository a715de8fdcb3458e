-- ===== src/Msg/Body/Rows.antt =====
-- src/msg/body/{data_row,row_description,command_complete}.rs: the answer to a query.
use postgread.Prelude.{
  ℕ, ◌<◌, ◌≡◌, refl, sym, List, ◌++◌, some, ok, length, subst, AllBytes, All, items_bytes,
  u16_bytes, u32_bytes, ◌↔◌,
}
use postgread.Prelude.Int.{
  ℤ, as_signed, to_pattern, IsSigned, as_signed16-to_pattern, to_pattern-as_signed16,
  as_signed32-to_pattern, to_pattern-as_signed32,
}
use postgread.Msg.TypeByte.{TypeByte}
use postgread.Msg.Decode.{Decoder, MsgDecode, pure, ◌>>=◌, take_u16, take_u32, take_until_null}
use postgread.Msg.Decode.Reads.{Reads, Reads-map, text_bytes}
use postgread.Msg.Decode.Sound.{Sound-map, IsText}
use postgread.Msg.Decode.Exact.{
  Exact, ExactAll-of, Exact-iff, take_u16-Exact, take_u32-Exact, take_until_null-Exact, IsU16,
  IsU32, bind-Exact, last-Exact,
}
use postgread.Msg.Parts.{Format, Value, decode_format, decode_value, decode_vec}
use postgread.Msg.Parts.Exact.{
  Any, IsValue, format_bytes, value_bytes, decode_format-Exact, decode_value-Exact, counted16-Exact,
}
use postgread.Msg.Read.{decode_msg}
use postgread.Msg.Read.Body.{decode_msg_iff}

pub record DataRow : Type 0 where
  pub columns : List Value

abbrev pub data_row_type_byte : ℕ
data_row_type_byte = b'D'

unfoldable pub data_row_msg : MsgDecode DataRow
data_row_msg = record {
  type_byte_opt = some TypeByte.data_row;
  decode_body = do
    columns ← take_u16 >>= λ count. decode_vec count decode_value
    pure (record { columns = columns });
}

abbrev pub IsDataRow : DataRow → Type 0
IsDataRow m = (length m.columns < 65536) × All IsValue m.columns

unfoldable pub data_row_bytes : DataRow → List ℕ
data_row_bytes m = u16_bytes (length m.columns) ++ items_bytes value_bytes m.columns

pub IsDataRow-Exact : Exact IsDataRow data_row_bytes data_row_msg.decode_body
unfolding data_row_msg data_row_bytes
IsDataRow-Exact =
    Exact-iff IsDataRow (λ m. (λ w. w.0, λ w. (w, tt)))
      (last-Exact (λ (m : DataRow). m.columns) (λ m. Unit {0})
        (counted16-Exact IsValue value_bytes decode_value decode_value-Exact)
        (λ columns. record { columns = columns }) (λ columns w. (tt, refl)) (λ m h. refl))

-- A DataRow is accepted just if its body is the number of columns in two bytes and the columns,
-- each a length and as many bytes, or the length -1 for NULL.
pub decode_data_row_iff :
    (input : List ℕ) (m : DataRow)
    → AllBytes input
    → (decode_msg data_row_msg input ≡ ok m) ↔ (IsDataRow m × (input ≡ data_row_bytes m))
decode_data_row_iff =
    decode_msg_iff data_row_msg IsDataRow data_row_bytes (ExactAll-of IsDataRow-Exact)

pub record Field : Type 0 where
  pub name : List ℕ
  pub column_oid : ℕ
  pub column_attr_num : ℕ
  pub type_oid : ℕ
  pub type_size : ℤ
  pub type_modifier : ℤ
  pub format : Format

unfoldable pub take_i16 : Decoder ℤ
take_i16 = take_u16 >>= λ n. pure (as_signed 16 n)

unfoldable pub take_i32 : Decoder ℤ
take_i32 = take_u32 >>= λ n. pure (as_signed 32 n)

unfoldable pub decode_field : Decoder Field
decode_field = do
  name ← take_until_null
  column_oid ← take_u32
  column_attr_num ← take_u16
  type_oid ← take_u32
  type_size ← take_i16
  type_modifier ← take_i32
  format ← decode_format
  pure (record {
    name = name;
    column_oid = column_oid;
    column_attr_num = column_attr_num;
    type_oid = type_oid;
    type_size = type_size;
    type_modifier = type_modifier;
    format = format;
  })

pub record RowDescription : Type 0 where
  pub fields : List Field

abbrev pub row_description_type_byte : ℕ
row_description_type_byte = b'T'

unfoldable pub row_description_msg : MsgDecode RowDescription
row_description_msg = record {
  type_byte_opt = some TypeByte.row_description;
  decode_body = do
    fields ← take_u16 >>= λ count. decode_vec count decode_field
    pure (record { fields = fields });
}

take_i16-Exact : Exact (IsSigned 16) (λ z. u16_bytes (to_pattern 16 z)) take_i16
unfolding take_i16
take_i16-Exact = record {
  reads = λ z w.
      let (same, bound) = as_signed16-to_pattern z w in
      subst (Reads take_i16 (u16_bytes (to_pattern 16 z))) same (
        Reads-map take_u16 (as_signed 16) (u16_bytes (to_pattern 16 z)) (to_pattern 16 z)
          (take_u16-Exact.reads (to_pattern 16 z) bound));
  sound =
      Sound-map _ _ take_u16 (as_signed 16) take_u16-Exact.sound
        (λ n used p. let (signed, same) = to_pattern-as_signed16 n p.0 in (signed, rw (p.1, same)));
}

take_i32-Exact : Exact (IsSigned 32) (λ z. u32_bytes (to_pattern 32 z)) take_i32
unfolding take_i32
take_i32-Exact = record {
  reads = λ z w.
      let (same, bound) = as_signed32-to_pattern z w in
      subst (Reads take_i32 (u32_bytes (to_pattern 32 z))) same (
        Reads-map take_u32 (as_signed 32) (u32_bytes (to_pattern 32 z)) (to_pattern 32 z)
          (take_u32-Exact.reads (to_pattern 32 z) bound));
  sound =
      Sound-map _ _ take_u32 (as_signed 32) take_u32-Exact.sound
        (λ n used p. let (signed, same) = to_pattern-as_signed32 n p.0 in (signed, rw (p.1, same)));
}

abbrev pub IsField : Field → Type 0
IsField f =
    IsText f.name
    × (IsU32 f.column_oid
        × (IsU16 f.column_attr_num
            × (IsU32 f.type_oid
                × (IsSigned 16 f.type_size × (IsSigned 32 f.type_modifier × Any f.format)))))

unfoldable pub field_bytes : Field → List ℕ
field_bytes f =
    text_bytes f.name
    ++ (u32_bytes f.column_oid
        ++ (u16_bytes f.column_attr_num
            ++ (u32_bytes f.type_oid
                ++ (u16_bytes (to_pattern 16 f.type_size)
                    ++ (u32_bytes (to_pattern 32 f.type_modifier) ++ format_bytes f.format)))))

decode_field-Exact : Exact IsField field_bytes decode_field
unfolding decode_field field_bytes
decode_field-Exact =
    Exact-iff IsField (λ f. (λ w. w.0, λ w. (w, tt)))
      (bind-Exact (λ (f : Field). f.name) _ take_until_null-Exact
        (λ name w.
          bind-Exact (λ (f : Field). f.column_oid) _ take_u32-Exact
            (λ column_oid w.
              bind-Exact (λ (f : Field). f.column_attr_num) _ take_u16-Exact
                (λ column_attr_num w.
                  bind-Exact (λ (f : Field). f.type_oid) _ take_u32-Exact
                    (λ type_oid w.
                      bind-Exact (λ (f : Field). f.type_size) _ take_i16-Exact
                        (λ type_size w.
                          bind-Exact (λ (f : Field). f.type_modifier) _ take_i32-Exact
                            (λ type_modifier w.
                              last-Exact (λ (f : Field). f.format)
                                (λ f.
                                  ((((((Unit {0} × (f.name ≡ name)) × (f.column_oid ≡ column_oid))
                                          × (f.column_attr_num ≡ column_attr_num))
                                        × (f.type_oid ≡ type_oid))
                                      × (f.type_size ≡ type_size))
                                    × (f.type_modifier ≡ type_modifier)))
                                decode_format-Exact
                                (λ format. record {
                                  name = name;
                                  column_oid = column_oid;
                                  column_attr_num = column_attr_num;
                                  type_oid = type_oid;
                                  type_size = type_size;
                                  type_modifier = type_modifier;
                                  format = format;
                                })
                                (λ format w.
                                  (((((((tt, refl), refl), refl), refl), refl), refl), refl))
                                (λ f h i. record {
                                  name = sym h.0.0.0.0.0.1 i;
                                  column_oid = sym h.0.0.0.0.1 i;
                                  column_attr_num = sym h.0.0.0.1 i;
                                  type_oid = sym h.0.0.1 i;
                                  type_size = sym h.0.1 i;
                                  type_modifier = sym h.1 i;
                                  format = f.format;
                                }))))))))

abbrev pub IsRowDescription : RowDescription → Type 0
IsRowDescription m = (length m.fields < 65536) × All IsField m.fields

unfoldable pub row_description_bytes : RowDescription → List ℕ
row_description_bytes m = u16_bytes (length m.fields) ++ items_bytes field_bytes m.fields

pub IsRowDescription-Exact :
    Exact IsRowDescription row_description_bytes row_description_msg.decode_body
unfolding row_description_msg row_description_bytes
IsRowDescription-Exact =
    Exact-iff IsRowDescription (λ m. (λ w. w.0, λ w. (w, tt)))
      (last-Exact (λ (m : RowDescription). m.fields) (λ m. Unit {0})
        (counted16-Exact IsField field_bytes decode_field decode_field-Exact)
        (λ fields. record { fields = fields }) (λ fields w. (tt, refl)) (λ m h. refl))

-- A RowDescription is accepted just if its body is the number of fields in two bytes and the
-- fields, each with its seven parts in the order of the struct.
pub decode_row_description_iff :
    (input : List ℕ) (m : RowDescription)
    → AllBytes input
    → (decode_msg row_description_msg input ≡ ok m)
      ↔ (IsRowDescription m × (input ≡ row_description_bytes m))
decode_row_description_iff =
    decode_msg_iff row_description_msg IsRowDescription row_description_bytes
      (ExactAll-of IsRowDescription-Exact)

pub record CommandComplete : Type 0 where
  pub tag : List ℕ

abbrev pub command_complete_type_byte : ℕ
command_complete_type_byte = b'C'

unfoldable pub command_complete_msg : MsgDecode CommandComplete
command_complete_msg = record {
  type_byte_opt = some TypeByte.command_complete;
  decode_body = take_until_null >>= λ tag. pure (record { tag = tag });
}

pub command_complete-Exact :
    Exact (λ m. IsText m.tag) (λ m. text_bytes m.tag) command_complete_msg.decode_body
unfolding command_complete_msg
command_complete-Exact =
    Exact-iff (λ m. IsText m.tag) (λ m. (λ w. w.0, λ w. (w, tt)))
      (last-Exact (λ (m : CommandComplete). m.tag) (λ m. Unit {0}) take_until_null-Exact
        (λ tag. record { tag = tag }) (λ tag w. (tt, refl)) (λ m h. refl))

-- A CommandComplete is accepted just if its body is a text with its null byte.
pub decode_command_complete_iff :
    (input : List ℕ) (m : CommandComplete)
    → AllBytes input
    → (decode_msg command_complete_msg input ≡ ok m) ↔ (IsText m.tag × (input ≡ text_bytes m.tag))
decode_command_complete_iff =
    decode_msg_iff command_complete_msg (λ m. IsText m.tag) (λ m. text_bytes m.tag)
      (ExactAll-of command_complete-Exact)
