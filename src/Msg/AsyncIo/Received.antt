-- ===== src/Msg/AsyncIo/Received.antt =====
-- What the reads of src/msg/util/async_io.rs receive where they succeed.
use postgread.Prelude.Outcome.{>>=-eq-ok, pure}
use postgread.Prelude.{
  ℕ, zero, suc, ◌+◌, ◌-◌, ◌/◌, ◌≤◌, ◌<◌, ◌≡◌, sym, List, [], ◌++◌, ok, length, leb, u32_bytes,
  u32_bytes-of, u32_of, u8_of, u8_bytes, u8_bytes-of, arith, append_assoc, length-append,
  Bool-cases, inl, inr, not-leb→lt, leb→le, append-nil,
}
use postgread.Msg.AsyncIo.{ByteStream, read_u8, read_u32, drop_loop, read_and_drop, batch}

module _ {S : Type 0} (io : ByteStream S) where
  pub read_u8_lem :
      (s : S) {n : ℕ}
      → (read_u8 io s).0 ≡ ok n
      → (n < 256)
        × (io.received (read_u8 io s).1 ≡ io.received s ++ u8_bytes n)
        × (io.sent (read_u8 io s).1 ≡ io.sent s)
  unfolding read_u8
  read_u8_lem s {n} h =
      let (buf, e, k) = >>=-eq-ok (io.read_exact 1) (λ buf. pure (u8_of buf)) s h in
      let same : u8_of buf ≡ n = cc in
      let (bound, bytes) =
        u8_bytes-of buf (io.read_exact-length 1 s e) (io.read_exact-AllBytes 1 s e) in
      rw (k, ← same) (bound, rw (← bytes) (io.read_exact-received 1 s e), io.read_exact-sent 1 s)

  pub read_u32_lem :
      (s : S) {n : ℕ}
      → (read_u32 io s).0 ≡ ok n
      → (n < 4294967296)
        × (io.received (read_u32 io s).1 ≡ io.received s ++ u32_bytes n)
        × (io.sent (read_u32 io s).1 ≡ io.sent s)
  unfolding read_u32
  read_u32_lem s {n} h =
      let (buf, e, k) = >>=-eq-ok (io.read_exact 4) (λ buf. pure (u32_of buf)) s h in
      let same : u32_of buf ≡ n = cc in
      let (bound, bytes) =
        u32_bytes-of buf (io.read_exact-length 4 s e) (io.read_exact-AllBytes 4 s e) in
      rw (k, ← same) (bound, rw (← bytes) (io.read_exact-received 4 s e), io.read_exact-sent 4 s)

  -- The loop of `read_and_drop` ends by its test, and has received what it counted down.
  drop_loop_lem :
      (fuel left : ℕ) (s : S) {rest : ℕ}
      → left / batch < fuel
      → (drop_loop io fuel left s).0 ≡ ok rest
      → (bytes : List ℕ) × (io.received (drop_loop io fuel left s).1 ≡ io.received s ++ bytes)
        × (length bytes + rest ≡ left)
        × (rest < batch)
  unfolding drop_loop
  drop_loop_lem zero left s l h = absurd (omega arith)
  drop_loop_lem (suc fuel) left s {rest} l h = elim (Bool-cases (leb batch left)) [
    | inr small ↦
        let same : left ≡ rest = cc (rw small at h) in
        let bound : left < batch = not-leb→lt batch left small in
        rw small ([], sym (append-nil (io.received s)), omega arith, omega arith)
    | inl more ↦
        let bound : batch ≤ left = leb→le batch left more in
        let step = λ (_ : List ℕ). drop_loop io fuel (left - batch) in
        let (buf, e, k) = >>=-eq-ok (io.read_exact batch) step s (rw more at h) in
        let t = (io.read_exact batch s).1 in
        let (bytes, got, count, small) =
          drop_loop_lem fuel (left - batch) t (omega arith) (rw (more, k) at h) in
        let size = io.read_exact-length batch s e in
        rw (more, k)
          (
            buf ++ bytes,
            rw (got, io.read_exact-received batch s e, append_assoc),
            omega (arith, length-append buf bytes),
            small,
          )
  ]

  -- `read_and_drop` receives just as many bytes as it is told to.
  pub read_and_drop_lem :
      (num : ℕ) (s : S)
      → (read_and_drop io num s).0 ≡ ok tt
      → (bytes : List ℕ) × (io.received (read_and_drop io num s).1 ≡ io.received s ++ bytes)
        × (length bytes ≡ num)
  unfolding read_and_drop
  read_and_drop_lem num s h =
      let (rest, e, k) = >>=-eq-ok (drop_loop io (num / batch + 1) num) _ s h in
      let (bytes, got, count, small) = drop_loop_lem (num / batch + 1) num s (omega arith) e in
      let t = (drop_loop io (num / batch + 1) num s).1 in
      let (buf, e', k') = >>=-eq-ok (io.read_exact rest) (λ _. pure tt) t (rw k at h) in
      rw (k, k')
        (
          bytes ++ buf,
          rw (io.read_exact-received rest t e', got, append_assoc),
          omega (arith, length-append bytes buf, io.read_exact-length rest t e'),
        )
