-- ===== src/Msg/Encode.antt =====
-- src/msg/util/encode.rs: a cursor that writes into a byte slice.
use postgread.Prelude.{
  ℕ, zero, suc, ◌+◌, ◌-◌, ◌<◌, ◌≡◌, refl, sym, ap, List, [], ◌∷◌, ◌++◌, Result, ok, err, length,
  drop, leb, if◌then◌else◌, u8_bytes, u32_bytes, arith, length-append, append_assoc, le→leb, lt→leb,
}

pub data Problem : Type 0 where
  out_of_space : ℕ → Problem

pub record BytesTarget : Type 0 where
  pub slice : List ℕ
  pub pos : ℕ

abbrev pub EncodeResult : Type 0
EncodeResult = Result Problem (Unit {0})

unfoldable pub new : List ℕ → BytesTarget
new slice = record { slice = slice; pos = 0 }

unfoldable pub left : BytesTarget → ℕ
left t = length t.slice - t.pos

-- What `rest` borrows: the slice from the cursor on.
unfoldable pub rest : BytesTarget → List ℕ
rest t = drop t.pos t.slice

-- `slice[i] = b`
unfoldable pub set : List ℕ → ℕ → ℕ → List ℕ
set [] i b = []
set (x ∷ xs) zero b = b ∷ xs
set (x ∷ xs) (suc i) b = x ∷ set xs i b

-- The loop of `put_bounded!`: `bytes` are those from `bytes[i]` on, and `i` counts from `pos`.
unfoldable pub put_loop : List ℕ → ℕ → List ℕ → List ℕ
put_loop slice i [] = slice
put_loop slice i (b ∷ bytes) = put_loop (set slice i b) (i + 1) bytes

-- `put_bounded!` on the bytes of a value, `LEN` of them.
unfoldable pub put_bounded : List ℕ → BytesTarget → EncodeResult × BytesTarget
put_bounded bytes t =
    if leb (t.pos + length bytes) (length t.slice)
    then (ok tt, record { slice = put_loop t.slice t.pos bytes; pos = t.pos + length bytes })
    else (
      err (out_of_space (length bytes - (length t.slice - t.pos))),
      record t { pos = length t.slice },
    )

unfoldable pub put_u8 : ℕ → BytesTarget → EncodeResult × BytesTarget
put_u8 value = put_bounded (u8_bytes value)

unfoldable pub put_u32 : ℕ → BytesTarget → EncodeResult × BytesTarget
put_u32 value = put_bounded (u32_bytes value)

-- The target that holds `done`, and `free` from the cursor on.
abbrev pub at : List ℕ → List ℕ → BytesTarget
at done free = record { slice = done ++ free; pos = length done }

set-append :
    (done : List ℕ) (x b : ℕ) (xs : List ℕ) → set (done ++ x ∷ xs) (length done) b ≡ done ++ b ∷ xs
unfolding set
set-append [] x b xs = refl
set-append (d ∷ done) x b xs = ap (λ t. d ∷ t) (set-append done x b xs)

put_loop-append :
    (done old free bytes : List ℕ)
    → length old ≡ length bytes
    → put_loop (done ++ (old ++ free)) (length done) bytes ≡ done ++ (bytes ++ free)
unfolding put_loop
put_loop-append done [] free [] e = refl
put_loop-append done [] free (b ∷ bytes) e = absurd (omega arith)
put_loop-append done (x ∷ old) free [] e = absurd (omega arith)
put_loop-append done (x ∷ old) free (b ∷ bytes) e =
    rw (set-append done x b (old ++ free))
      (moved (put_loop-append (done ++ (b ∷ [])) old free bytes (omega arith)))
  where
    moved :
        put_loop ((done ++ b ∷ []) ++ (old ++ free)) (length (done ++ b ∷ [])) bytes
          ≡ (done ++ b ∷ []) ++ (bytes ++ free)
        → put_loop (done ++ b ∷ (old ++ free)) (length done + 1) bytes ≡ done ++ b ∷ (bytes ++ free)
    moved h =
        rw
          (
            append_assoc done (b ∷ []) (old ++ free),
            append_assoc done (b ∷ []) (bytes ++ free),
            length-append done (b ∷ []),
          )
          at h

-- There is room: the bytes stand where the cursor stood, and nothing else has changed.
pub put_bounded-at :
    (done old free bytes : List ℕ)
    → length old ≡ length bytes
    → put_bounded bytes (at done (old ++ free)) ≡ (ok tt, at (done ++ bytes) free)
unfolding put_bounded
put_bounded-at done old free bytes e =
    rw
      (
        le→leb (length done + length bytes) (length (done ++ (old ++ free)))
            (omega (arith, e, length-append done (old ++ free), length-append old free)),
        put_loop-append done old free bytes e,
      )
      (λ i. (
        ok tt,
        record {
          slice = sym (append_assoc done bytes free) i;
          pos = sym (length-append done bytes) i;
        },
      ))

-- There is none: the problem says how many bytes are missing, and the slice is as it was.
pub put_bounded_full :
    (done free bytes : List ℕ)
    → length free < length bytes
    → put_bounded bytes (at done free) ≡ (
      err (out_of_space (length bytes - length free)),
      record { slice = done ++ free; pos = length (done ++ free) },
    )
unfolding put_bounded
put_bounded_full done free bytes h =
    let e = length-append done free in
    rw (
      lt→leb (length done + length bytes) (length (done ++ free)) (omega (arith, e)),
      (let d : length (done ++ free) - length done ≡ length free = omega (arith, e) in d),
    )
