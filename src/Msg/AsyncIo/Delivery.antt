-- ===== src/Msg/AsyncIo/Delivery.antt =====
-- Streams whose bytes have arrived, and what the reads of src/msg/util/async_io.rs get from them.
use postgread.Prelude.Outcome.{◌>>=◌, pure, map_err}
use postgread.Prelude.{
  ℕ, ◌<◌, ◌≡◌, refl, ap, ◌∙◌, List, ◌++◌, ok, Stateful, length, arith, AllBytes, u8_bytes,
  u32_bytes, u32_of-bytes, append_assoc, length-u32_bytes, [],
}
use postgread.Msg.AsyncIo.{ByteStream, read_u8, read_u32}

-- A stream that is up: what has arrived on it is read in its order, and what is written goes out.
-- `waiting` is what has arrived and was not read yet.
pub record Delivers {S : Type 0} (io : ByteStream S) : Type 0 where
  pub waiting : S → List ℕ
  pub read_exact-waiting :
      (bytes rest : List ℕ) (s : S)
      → AllBytes bytes
      → waiting s ≡ bytes ++ rest
      → ((io.read_exact (length bytes) s).0 ≡ ok bytes)
        × (waiting (io.read_exact (length bytes) s).1 ≡ rest)
  pub write_all-waiting :
      (bytes : List ℕ) (s : S)
      → ((io.write_all bytes s).0 ≡ ok tt) × (waiting (io.write_all bytes s).1 ≡ waiting s)

-- Where `bytes` wait, the step succeeds with `a` and leaves what is behind them.
abbrev pub Gets : {S E A : Type 0} → (S → List ℕ) → Stateful S E A → List ℕ → A → Type 0
Gets {S} waiting d bytes a =
    (rest : List ℕ) (s : S)
    → waiting s ≡ bytes ++ rest
    → ((d s).0 ≡ ok a) × (waiting (d s).1 ≡ rest)

module _ {S E A : Type 0} (waiting : S → List ℕ) where
  pub Gets-pure : (a : A) → Gets {E = E} waiting (pure a) [] a
  Gets-pure a rest s h = (refl, h)

  pub Gets-bind :
      {B : Type 0} (d : Stateful S E A) (f : A → Stateful S E B) (u v : List ℕ) (a : A) (b : B)
      → Gets waiting d u a
      → Gets waiting (f a) v b
      → Gets waiting (d >>= f) (u ++ v) b
  Gets-bind d f u v a b gd gf rest s h =
      let (e, left) = gd (v ++ rest) s (h ∙ append_assoc u v rest) in rw e (gf rest (d s).1 left)

  pub Gets-map_err :
      {F : Type 0} (f : E → F) (d : Stateful S E A) (bytes : List ℕ) (a : A)
      → Gets waiting d bytes a
      → Gets waiting (map_err f d) bytes a
  Gets-map_err f d bytes a g rest s h = let (e, left) = g rest s h in (rw e refl, left)

pub u8_bytes-AllBytes : (n : ℕ) → n < 256 → AllBytes (u8_bytes n)
unfolding u8_bytes
u8_bytes-AllBytes n h = (h, tt)

pub u32_bytes-AllBytes : (n : ℕ) → n < 4294967296 → AllBytes (u32_bytes n)
unfolding u32_bytes
u32_bytes-AllBytes n h = ground arith

module _ {S : Type 0} {io : ByteStream S} (up : Delivers io) where
  pub read_u8-Gets : (n : ℕ) → n < 256 → Gets up.waiting (read_u8 io) (u8_bytes n) n
  unfolding read_u8 u8_bytes
  read_u8-Gets n h rest s e =
      let (got, left) = up.read_exact-waiting (u8_bytes n) rest s (u8_bytes-AllBytes n h) e in
      rw got (refl, left)

  pub read_u32-Gets : (n : ℕ) → n < 4294967296 → Gets up.waiting (read_u32 io) (u32_bytes n) n
  unfolding read_u32
  read_u32-Gets n h rest s e =
      let (got, left) = up.read_exact-waiting (u32_bytes n) rest s (u32_bytes-AllBytes n h) e in
      let size : length (u32_bytes n) ≡ 4 = length-u32_bytes n in
      rw (← size, got) (ap ok (u32_of-bytes n), left)
