-- ===== src/Msg/Read.antt =====
-- src/msg/util/read.rs: one message is read off a stream, its body is decoded, and its bytes are
-- kept as they stand on the wire.
pub mod Header
pub mod Frame
pub mod Body
pub mod Delivery
use postgread.Prelude.Outcome.{◌>>=◌, ◌>>◌, pure, map_err, Result_map_err, lift}
use postgread.Prelude.{
  ℕ, zero, suc, ◌+◌, ◌%◌, ◌^◌, List, [], ◌∷◌, ◌++◌, Option, none, some, Result, ok, err, Stateful,
  length, take, replicate,
}
use postgread.Msg.TypeByte.{TypeByte, into}
use postgread.Msg.Decode
use postgread.Msg.Decode.{DecodeResult, out_of_fuel, BytesSource, MsgDecode}
use postgread.Msg.Encode
use postgread.Msg.Encode.{BytesTarget, put_u8, put_u32, rest}
use postgread.Msg.AsyncIo.{IoError, ByteStream, read_u32}

pub data ReadError : Type 0 where
  io_error : IoError → ReadError
  encode_error : Encode.Problem → ReadError

-- `undecided` is no value of the program: a loop of the model used up its fuel.
pub data MsgError : Type 0 where
  decode_error : Decode.Problem → MsgError
  left_undecoded : ℕ → MsgError
  undecided : MsgError

pub record ReadData (Msg : Type 0) : Type 0 where
  pub bytes : List ℕ
  pub msg_result : Result MsgError Msg

-- The `and_then`: what is left must be nothing.
unfoldable pub check_left : {Msg : Type 0} → Msg → ℕ → Result MsgError Msg
check_left msg zero = ok msg
check_left msg (suc n) = err (left_undecoded (suc n))

unfoldable pub check_body : {Msg : Type 0} → DecodeResult Msg → BytesSource → Result MsgError Msg
check_body (DecodeResult.ok msg) s = check_left msg (Decode.left s)
check_body (DecodeResult.err p) s = err (decode_error p)
check_body out_of_fuel s = err undecided

-- The `msg_result` of a body.
unfoldable pub decode_msg : {Msg : Type 0} → MsgDecode Msg → List ℕ → Result MsgError Msg
unfolding check_body check_left
decode_msg m body =
    let (result, bytes_source) = m.decode_body (Decode.new body) in check_body result bytes_source

abbrev pub type_len : Option TypeByte → ℕ
type_len (some _) = 1
type_len none = 0

-- The sum is a `u32`; it wraps, as a release build has it.
unfoldable pub alloc_vec : Option TypeByte → ℕ → List ℕ
alloc_vec type_byte_opt specified_len =
    replicate ((type_len type_byte_opt + specified_len) % 2 ^ 32) 0

unfoldable pub put_header : Option TypeByte → ℕ → Stateful BytesTarget Encode.Problem (Unit {0})
put_header (some type_byte) specified_len = do put_u8 (into type_byte); put_u32 specified_len
put_header none specified_len = put_u32 specified_len

unfoldable pub read_msg :
    {S Msg : Type 0} → ByteStream S → MsgDecode Msg → Stateful S ReadError (ReadData Msg)
read_msg io m = do
  specified_len ← map_err io_error (read_u32 io)
  let bytes = alloc_vec m.type_byte_opt specified_len
  let header = put_header m.type_byte_opt specified_len (Encode.new bytes)
  lift (Result_map_err encode_error header.0)
  body_bytes ← map_err io_error (io.read_exact (length (rest header.1)))
  pure (record {
    bytes = take header.1.pos header.1.slice ++ body_bytes;
    msg_result = decode_msg m body_bytes;
  })
