-- ===== src/Msg/Read/Frame.antt =====
-- What `read_msg` of src/msg/util/read.rs takes from its stream, on every branch.
use postgread.Prelude.Outcome.{
  ◌>>=◌, ◌>>◌, >>=-eq-ok, pure, map_err, Result_map_err, map_err-eq-ok, lift,
}
use postgread.Prelude.{
  ℕ, ◌+◌, ◌-◌, ◌≤◌, ◌<◌, ◌≡◌, refl, ◌∙◌, List, ◌++◌, some, ok, err, Stateful, length, take,
  replicate, u32_bytes, AllBytes, arith, append_assoc, length-replicate, take-length_append,
  drop-length_append, inl, inr,
}
use postgread.Msg.TypeByte.{TypeByte}
use postgread.Msg.Decode.{MsgDecode}
use postgread.Msg.Encode
use postgread.Msg.Encode.{out_of_space, at, rest, put_u8, put_u32}
use postgread.Msg.AsyncIo.{ByteStream, read_u32}
use postgread.Msg.AsyncIo.Received.{read_u32_lem}
use postgread.Msg.Read.{
  ReadError, io_error, encode_error, ReadData, decode_msg, alloc_vec, put_header, read_msg,
}
use postgread.Msg.Read.Header.{
  type_bytes, Fits, Fits-cases, put_header-Fits, put_header_short, put_header_wraps,
}

module _ {S Msg : Type 0} (io : ByteStream S) (m : MsgDecode Msg) where
  -- What follows the length.
  after_len : ℕ → Stateful S ReadError (ReadData Msg)
  after_len n = do
    let header = put_header m.type_byte_opt n (Encode.new (alloc_vec m.type_byte_opt n))
    lift (Result_map_err encode_error header.0)
    body_bytes ← map_err io_error (io.read_exact (length (rest header.1)))
    pure (record {
      bytes = take header.1.pos header.1.slice ++ body_bytes;
      msg_result = decode_msg m body_bytes;
    })

  -- The body, once the header is in its place.
  abbrev pub read_body : ℕ → Stateful S ReadError (ReadData Msg)
  read_body n = do
    body_bytes ← map_err io_error (io.read_exact (n - 4))
    pure (record {
      bytes = (type_bytes m.type_byte_opt ++ u32_bytes n) ++ body_bytes;
      msg_result = decode_msg m body_bytes;
    })

  after_len-Fits : (n : ℕ) (s : S) → Fits m.type_byte_opt n → after_len n s ≡ read_body n s
  unfolding after_len rest
  after_len-Fits n s h = rw (put_header-Fits m.type_byte_opt n h) (
      rw (
        drop-length_append (type_bytes m.type_byte_opt ++ u32_bytes n) (replicate (n - 4) 0),
        take-length_append (type_bytes m.type_byte_opt ++ u32_bytes n) (replicate (n - 4) 0),
        length-replicate {A = ℕ} (n - 4) 0,
      ))

  after_len_refused :
      (n k : ℕ) (s : S)
      → (put_header m.type_byte_opt n (Encode.new (alloc_vec m.type_byte_opt n))).0
        ≡ err (out_of_space k)
      → after_len n s ≡ (err (encode_error (out_of_space k)), s)
  unfolding after_len
  after_len_refused n k s h = rw h

  read_msg-after_len : (s : S) → read_msg io m s ≡ (map_err io_error (read_u32 io) >>= after_len) s
  unfolding read_msg after_len
  read_msg-after_len s = refl

  read_body_framed :
      (n : ℕ) (s : S) {result : ReadData Msg}
      → 4 ≤ n
      → (read_body n s).0 ≡ ok result
      → (body : List ℕ) × (n ≡ 4 + length body)
        × (result ≡ record {
          bytes = (type_bytes m.type_byte_opt ++ u32_bytes n) ++ body;
          msg_result = decode_msg m body;
        })
        × AllBytes body
        × (io.received (read_body n s).1 ≡ io.received s ++ body)
        × (io.sent (read_body n s).1 ≡ io.sent s)
  read_body_framed n s {result} l h =
      let (body, e, k) = >>=-eq-ok (map_err io_error (io.read_exact (n - 4))) _ s h in
      let got = map_err-eq-ok io_error _ e in
      rw k (
        body,
        omega (arith, io.read_exact-length (n - 4) s got),
        cc,
        io.read_exact-AllBytes (n - 4) s got,
        io.read_exact-received (n - 4) s got,
        io.read_exact-sent (n - 4) s,
      )

  after_len_framed :
      (n : ℕ) (s : S) {result : ReadData Msg}
      → n < 4294967296
      → (after_len n s).0 ≡ ok result
      → (body : List ℕ) × (n ≡ 4 + length body)
        × (result ≡ record {
          bytes = (type_bytes m.type_byte_opt ++ u32_bytes n) ++ body;
          msg_result = decode_msg m body;
        })
        × AllBytes body
        × (io.received (after_len n s).1 ≡ io.received s ++ body)
        × (io.sent (after_len n s).1 ≡ io.sent s)
  after_len_framed n s {result} l h = elim (Fits-cases m.type_byte_opt n l) [
    | inl fits ↦
        rw (after_len-Fits n s fits)
          (read_body_framed n s fits.0 (rw (after_len-Fits n s fits) at h))
    | inr (inl short) ↦
        cc (h, after_len_refused n (4 - n) s (put_header_short m.type_byte_opt n short))
    | inr (inr (t, typed, wraps)) ↦
        cc (h, after_len_refused n 1 s (rw (typed, wraps) (put_header_wraps t)))
  ]

  -- A message that is read comes with its bytes: the type, the length, which counts itself and the
  -- body, and the body that was decoded. Just the length and the body have been received.
  pub read_msg_framed :
      (s : S) {result : ReadData Msg}
      → (read_msg io m s).0 ≡ ok result
      → (body : List ℕ) × (result ≡ record {
        bytes = type_bytes m.type_byte_opt ++ (u32_bytes (4 + length body) ++ body);
        msg_result = decode_msg m body;
      })
        × AllBytes body
        × (io.received (read_msg io m s).1 ≡ io.received s ++ (u32_bytes (4 + length body) ++ body))
        × (io.sent (read_msg io m s).1 ≡ io.sent s)
  unfolding read_msg after_len
  read_msg_framed s h =
      let (n, e, k) = >>=-eq-ok (map_err io_error (read_u32 io)) after_len s h in
      let (l, got, quiet) = read_u32_lem io s (map_err-eq-ok io_error _ e) in
      let (body, count, framed, bytes, received, sent) =
        after_len_framed n (read_u32 io s).1 l (rw k at h) in
      rw k (
        body,
        rw (framed, count, append_assoc),
        bytes,
        rw (received, got, count, append_assoc),
        sent ∙ quiet,
      )

  -- A length that does not count itself: four bytes have been received, and the error says how many
  -- bytes the header lacks.
  pub read_msg_short :
      (s : S) {n : ℕ}
      → (read_u32 io s).0 ≡ ok n
      → n < 4
      → read_msg io m s ≡ (err (encode_error (out_of_space (4 - n))), (read_u32 io s).1)
  read_msg_short s {n} h l =
      rw (read_msg-after_len s, h)
        (after_len_refused n (4 - n) (read_u32 io s).1 (put_header_short m.type_byte_opt n l))

  -- The greatest length, on a message that has a type: with the byte of the type it wraps to 0, four
  -- bytes have been received, and the error says that there is no room for the type.
  pub read_msg_wraps :
      (t : TypeByte) (s : S)
      → m.type_byte_opt ≡ some t
      → (read_u32 io s).0 ≡ ok 4294967295
      → read_msg io m s ≡ (err (encode_error (out_of_space 1)), (read_u32 io s).1)
  read_msg_wraps t s typed h =
      rw (read_msg-after_len s, h)
        (after_len_refused 4294967295 1 (read_u32 io s).1 (rw typed (put_header_wraps t)))

  -- What follows the length, where the header fits.
  pub read_msg-Fits :
      (n : ℕ) (s : S)
      → Fits m.type_byte_opt n
      → (read_u32 io s).0 ≡ ok n
      → read_msg io m s ≡ read_body n (read_u32 io s).1
  read_msg-Fits n s fits h = rw (read_msg-after_len s, h) (after_len-Fits n (read_u32 io s).1 fits)
