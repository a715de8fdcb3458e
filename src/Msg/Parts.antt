-- ===== src/Msg/Parts.antt =====
-- src/msg/parts.rs: the parts that several messages share. `Bytes` and `Text` wrap a vector of
-- bytes, and are that vector here.
pub mod Exact
use postgread.Prelude.{ℕ, zero, suc, List, [], ◌∷◌, ◌==◌, if◌then◌else◌}
use postgread.Prelude.Int.{ℤ, pos, negsuc, as_signed}
use postgread.Msg.Decode.{
  Decoder, pure, fail, ◌>>=◌, unknown, incorrect, unknown_format, length_of_value, take_u16,
  take_u32, take_vec, take_until_null,
}

abbrev pub Bytes : Type 0
Bytes = List ℕ

abbrev pub Text : Type 0
Text = List ℕ

pub data Format : Type 0 where
  text binary : Format

pub data Value : Type 0 where
  null : Value
  bytes : Bytes → Value

unfoldable pub format_of : ℕ → Decoder Format
format_of x =
    if x == 0 then pure text else if x == 1 then pure binary else fail (unknown (unknown_format x))

-- `Format::decode`
unfoldable pub decode_format : Decoder Format
decode_format = take_u16 >>= format_of

-- `Text::decode`
unfoldable pub decode_text : Decoder Text
decode_text = take_until_null

-- The arms of the match on the length.
unfoldable pub value_of_len : ℤ → Decoder Value
value_of_len (negsuc zero) = pure null
value_of_len (pos value_len) = do value ← take_vec value_len; pure (bytes value)
value_of_len (negsuc (suc n)) = fail (incorrect (length_of_value (negsuc (suc n))))

-- `Value::decode`
unfoldable pub decode_value : Decoder Value
decode_value = take_u32 >>= λ n. value_of_len (as_signed 32 n)

-- `u32::decode`
unfoldable pub decode_u32 : Decoder ℕ
decode_u32 = take_u32

-- The loop pushes `count` items, one after the other. Left out: before it, `with_capacity` reserves
-- memory for all of them, which a huge count may fail to get.
unfoldable pub decode_vec : {Part : Type 0} → ℕ → Decoder Part → Decoder (List Part)
decode_vec zero decode = pure []
decode_vec (suc count) decode = do
  item ← decode
  items ← decode_vec count decode
  pure (item ∷ items)
