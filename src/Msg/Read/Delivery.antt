-- ===== src/Msg/Read/Delivery.antt =====
-- A message that has arrived is read: `read_msg` of src/msg/util/read.rs over a stream that is up.
use postgread.Prelude.{
  ℕ, ◌+◌, ◌-◌, ◌≡◌, refl, ◌∙◌, List, ◌++◌, length, arith, u32_bytes, AllBytes, append_assoc,
}
use postgread.Msg.Decode.{MsgDecode}
use postgread.Msg.AsyncIo.{ByteStream, read_u32}
use postgread.Msg.AsyncIo.Delivery.{Delivers, Gets, read_u32-Gets}
use postgread.Msg.Read.{ReadData, decode_msg, read_msg}
use postgread.Msg.Read.Header.{type_bytes, Fits}
use postgread.Msg.Read.Frame.{read_body, read_msg-Fits}

-- What `read_msg` makes of a body.
abbrev pub data_of : {Msg : Type 0} → MsgDecode Msg → List ℕ → ReadData Msg
data_of m body = record {
  bytes = (type_bytes m.type_byte_opt ++ u32_bytes (4 + length body)) ++ body;
  msg_result = decode_msg m body;
}

module _ {S Msg : Type 0} {io : ByteStream S} (up : Delivers io) (m : MsgDecode Msg) where
  read_body-Gets :
      (body : List ℕ)
      → AllBytes body
      → Gets up.waiting (read_body io m (4 + length body)) body (data_of m body)
  read_body-Gets body all rest s e =
      let (got, left) = up.read_exact-waiting body rest s all e in
      let size : (4 + length body) - 4 ≡ length body = omega arith in rw (size, got) (refl, left)

  -- A length that counts the body, and the body.
  pub read_msg-Gets :
      (body : List ℕ)
      → AllBytes body
      → Fits m.type_byte_opt (4 + length body)
      → Gets up.waiting (read_msg io m) (u32_bytes (4 + length body) ++ body) (data_of m body)
  read_msg-Gets body all fits rest s e =
      let n = 4 + length body in
      let (got, left) =
        read_u32-Gets up n (omega (arith, fits.1)) (body ++ rest) s
          (e ∙ append_assoc (u32_bytes n) body rest) in
      rw (read_msg-Fits io m n s fits got) (read_body-Gets body all rest (read_u32 io s).1 left)
