-- ===== src/Msg/Decode.antt =====
-- src/msg/util/decode.rs: a cursor over the body of a message. A byte slice is a list of numbers.
pub mod Cursor
pub mod Reads
pub mod Sound
pub mod Exact
pub mod Collect
use postgread.Prelude.{
  ℕ, zero, suc, ◌+◌, ◌-◌, ◌*◌, ◌<◌, List, [], ◌∷◌, Option, none, some, leb, ◌==◌, if◌then◌else◌,
  length, take, drop, u8_of, u16_of, u32_of,
}
use postgread.Prelude.Int.{ℤ}
use postgread.Msg.TypeByte.{TypeByte}

-- What the `format!` of a problem prints: one constructor for each format string of the
-- decoders, with the numbers put into it.
pub data Report : Type 0 where
  unknown_format : ℕ → Report
  length_of_value : ℤ → Report
  mechanism_data_len : ℤ → Report
  unknown_sub_type : ℕ → Report
  unknown_field_type : ℕ → ℕ → Report
  unknown_status : ℕ → Report

pub data Problem : Type 0 where
  need_more_bytes : ℕ → Problem
  no_null_byte : Problem
  incorrect : Report → Problem
  unknown : Report → Problem

-- `out_of_fuel` is no value of the program: a loop of the model used up its fuel.
pub data DecodeResult {ℓ} (A : Type ℓ) : Type ℓ where
  ok : A → DecodeResult A
  err : Problem → DecodeResult A
  out_of_fuel : DecodeResult A

pub record BytesSource : Type 0 where
  pub slice : List ℕ
  pub pos : ℕ

-- A function on `&mut BytesSource`: its result, and the source after it.
abbrev pub Decoder {ℓ} : Type ℓ → Type ℓ
Decoder A = BytesSource → DecodeResult A × BytesSource

abbrev pub pure {ℓ} : {A : Type ℓ} → A → Decoder A
pure a s = (ok a, s)

abbrev pub fail {ℓ} : {A : Type ℓ} → Problem → Decoder A
fail p s = (err p, s)

abbrev continue {ℓ κ} :
    {A : Type ℓ} {B : Type κ}
    → (A → Decoder B)
    → DecodeResult A
    → BytesSource
    → DecodeResult B × BytesSource
continue f (ok a) s = f a s
continue f (err p) s = (err p, s)
continue f out_of_fuel s = (out_of_fuel, s)

-- The `?` of a step and what follows it.
infixl 5 ◌>>=◌
abbrev pub ◌>>=◌ {ℓ κ} : {A : Type ℓ} {B : Type κ} → Decoder A → (A → Decoder B) → Decoder B
◌>>=◌ d f s = continue f (d s).0 (d s).1

pub record MsgDecode (Msg : Type 0) : Type 0 where
  pub type_byte_opt : Option TypeByte
  pub decode_body : Decoder Msg

unfoldable pub new : List ℕ → BytesSource
new slice = record { slice = slice; pos = 0 }

unfoldable pub left : BytesSource → ℕ
left s = length s.slice - s.pos

module _ {ℓ} {A : Type ℓ} where
  unfoldable pub take_bounded : ℕ → (List ℕ → A) → Decoder A
  take_bounded needed decode s =
      if leb (s.pos + needed) (length s.slice)
      then (ok (decode (take needed (drop s.pos s.slice))), record s { pos = s.pos + needed })
      else (
        err (need_more_bytes (needed - (length s.slice - s.pos))),
        record s { pos = length s.slice },
      )

unfoldable pub take_u8 : Decoder ℕ
take_u8 = take_bounded 1 u8_of

unfoldable pub take_u16 : Decoder ℕ
take_u16 = take_bounded 2 u16_of

unfoldable pub take_u32 : Decoder ℕ
take_u32 = take_bounded 4 u32_of

-- The buffer is given, and returned as the copy leaves it.
unfoldable pub take_slice : List ℕ → Decoder (List ℕ)
take_slice result = take_bounded (length result) (λ s. s)

unfoldable pub take_vec : ℕ → Decoder (List ℕ)
take_vec len = take_bounded len (λ s. s)

-- The loop of `take_until_null` over the bytes from `null_pos` on: where the first 0 stands.
unfoldable pub null_loop : List ℕ → ℕ → Option ℕ
null_loop [] null_pos = none
null_loop (b ∷ bs) null_pos =
    let rest = null_loop bs (null_pos + 1) in if b == 0 then some null_pos else rest

unfoldable pub until_null : BytesSource → Option ℕ → DecodeResult (List ℕ) × BytesSource
until_null s (some null_pos) =
    (ok (take (null_pos - s.pos) (drop s.pos s.slice)), record s { pos = null_pos + 1 })
until_null s none = (err no_null_byte, record s { pos = length s.slice })

unfoldable pub take_until_null : Decoder (List ℕ)
unfolding null_loop until_null
take_until_null s = until_null s (null_loop (drop s.pos s.slice) s.pos)

-- `bytes.take_vec(bytes.left())`
unfoldable pub take_left : Decoder (List ℕ)
take_left s = take_vec (left s) s

-- What a round is followed by: the `break`, or the `push` and the rounds to come.
unfoldable pub after_round : {A : Type 0} → Decoder (List A) → Option A → Decoder (List A)
after_round more none = pure []
after_round more (some a) = more >>= λ items. pure (a ∷ items)

-- `loop { ... break; ... push(item) }`: a round returns `none` for the `break`. The loop is on fuel.
unfoldable pub collect : {A : Type 0} → ℕ → Decoder (Option A) → Decoder (List A)
unfolding after_round
collect zero round s = (out_of_fuel, s)
collect (suc fuel) round s = let more = collect fuel round in (round >>= after_round more) s

-- Each round takes a byte at least, so it is enough to have a round for each byte that is left,
-- and one more.
unfoldable pub collect_all : {A : Type 0} → Decoder (Option A) → Decoder (List A)
unfolding collect
collect_all round s = collect (left s + 1) round s
