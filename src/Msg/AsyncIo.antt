-- ===== src/Msg/AsyncIo.antt =====
-- src/msg/util/async_io.rs: reads of a fixed size from a stream. The streams are a parameter: the
-- source has them from the crate `futures`.
pub mod Received
pub mod Delivery
use postgread.Prelude.Outcome.{◌>>=◌, pure}
use postgread.Prelude.{
  Stateful, ℕ, zero, suc, ◌+◌, ◌-◌, ◌*◌, ◌/◌, ◌≤◌, ◌<◌, ◌≡◌, refl, ap, List, [], ◌∷◌, ◌++◌, Option,
  none, some, Result, ok, err, length, leb, if◌then◌else◌, AllBytes, u8_of, u32_of, arith,
  append_assoc,
}

-- `std::io::ErrorKind`; `kind` stands for the kinds that the source does not name.
pub data ErrorKind : Type 0 where
  unexpected_eof not_connected other : ErrorKind
  kind : ℕ → ErrorKind

-- `std::io::Error`: its kind and its text.
pub record IoError : Type 0 where
  pub error_kind : ErrorKind
  pub text : List ℕ

abbrev pub IoResult : Type 0 → Type 0
IoResult A = Result IoError A

unfoldable pub error_other : List ℕ → IoError
error_other text = record { error_kind = other; text = text }

unfoldable pub accept_eof_of : {A : Type 0} → ErrorKind → IoError → IoResult (Option A)
accept_eof_of unexpected_eof e = ok none
accept_eof_of _ e = err e

unfoldable pub accept_eof : {A : Type 0} → IoResult A → IoResult (Option A)
accept_eof (ok a) = ok (some a)
accept_eof (err e) = accept_eof_of e.error_kind e

-- What the program uses of `AsyncReadExt` and `AsyncWriteExt`, and what their documentation says
-- of it. `received` and `sent` are what has gone through the stream so far.
pub record ByteStream (S : Type 0) : Type 0 where
  pub read_exact : ℕ → Stateful S IoError (List ℕ)
  pub write_all : List ℕ → Stateful S IoError (Unit {0})
  pub received : S → List ℕ
  pub sent : S → List ℕ
  -- `read_exact` fills its buffer with the next bytes of the stream.
  pub read_exact-length :
      (n : ℕ) (s : S) {bytes : List ℕ} → (read_exact n s).0 ≡ ok bytes → length bytes ≡ n
  pub read_exact-AllBytes :
      (n : ℕ) (s : S) {bytes : List ℕ} → (read_exact n s).0 ≡ ok bytes → AllBytes bytes
  pub read_exact-received :
      (n : ℕ) (s : S) {bytes : List ℕ}
      → (read_exact n s).0 ≡ ok bytes
      → received (read_exact n s).1 ≡ received s ++ bytes
  -- A read sends nothing.
  pub read_exact-sent : (n : ℕ) (s : S) → sent (read_exact n s).1 ≡ sent s
  -- `write_all` sends its whole buffer.
  pub write_all-sent :
      (bytes : List ℕ) (s : S)
      → (write_all bytes s).0 ≡ ok tt
      → sent (write_all bytes s).1 ≡ sent s ++ bytes
  -- A write receives nothing.
  pub write_all-received : (bytes : List ℕ) (s : S) → received (write_all bytes s).1 ≡ received s

abbrev pub batch : ℕ
batch = 65536

module _ {S : Type 0} (io : ByteStream S) where
  open io use {read_exact}

  unfoldable pub read_u8 : Stateful S IoError ℕ
  read_u8 = do buf ← read_exact 1; pure (u8_of buf)

  unfoldable pub read_vec : ℕ → Stateful S IoError (List ℕ)
  read_vec len = do buf ← read_exact len; pure buf

  unfoldable pub read_u32 : Stateful S IoError ℕ
  read_u32 = do buf ← read_exact 4; pure (u32_of buf)

  -- The `while` of `read_and_drop`, with fuel: what is left below a whole batch.
  unfoldable pub drop_loop : ℕ → ℕ → Stateful S IoError ℕ
  drop_loop zero left = pure left
  drop_loop (suc fuel) left =
      let round = read_exact batch >>= λ _. drop_loop fuel (left - batch) in
      if leb batch left then round else pure left

  -- A round takes a whole batch, so `num / batch` rounds are made, and one test more.
  unfoldable pub read_and_drop : ℕ → Stateful S IoError (Unit {0})
  unfolding drop_loop
  read_and_drop num = do left ← drop_loop (num / batch + 1) num; _ ← read_exact left; pure tt
