-- ===== src/Msg/Decode/Exact.antt =====
-- A decoder of src/msg and the bytes of its values determine one another. `bind-Exact` and
-- `last-Exact` follow a decoder that takes the fields of a struct one by one.
use postgread.Prelude.{
  ℕ, ◌<◌, ◌≡◌, refl, sym, ap, List, [], ◌++◌, length, append-nil, subst, AllBytes, ◌↔◌, u8_bytes,
  u16_bytes, u32_bytes,
}
use postgread.Msg.Decode.{
  ok, Decoder, pure, ◌>>=◌, take_u8, take_u16, take_u32, take_vec, take_until_null,
}
use postgread.Msg.Decode.Cursor.{at}
use postgread.Msg.Decode.Reads.{
  Reads, ReadsAll, ReadsAll-of, ReadsAll-bind, Reads-bind, Reads-pure, take_u8-Reads,
  take_u16-Reads, take_u32-Reads, take_vec-Reads, take_until_null-Reads, text_bytes,
}
use postgread.Msg.Decode.Sound.{
  Sound, Sound-bind, Sound-pure, Sound-weaken, IsText, take_u8-Sound, take_u16-Sound,
  take_u32-Sound, take_vec-Sound, take_until_null-Sound,
}

-- `d` reads the bytes of every value in `W` back, whatever follows them, and what it takes from any
-- input is the bytes of a value in `W`.
pub record Exact {A : Type 0} (W : A → Type 0) (bytes : A → List ℕ) (d : Decoder A) : Type 0 where
  pub reads : (a : A) → W a → Reads d (bytes a) a
  pub sound : Sound (λ a used. W a × (used ≡ bytes a)) d

-- The same where `d` takes all that is left.
pub record ExactAll {A : Type 0} (W : A → Type 0) (bytes : A → List ℕ) (d : Decoder A)
    : Type 0 where
  pub reads : (a : A) → W a → ReadsAll d (bytes a) a
  pub sound : Sound (λ a used. W a × (used ≡ bytes a)) d

module _ {A : Type 0} {W : A → Type 0} {bytes : A → List ℕ} {d : Decoder A} where
  pub ExactAll-of : Exact W bytes d → ExactAll W bytes d
  ExactAll-of x = record { reads = λ a w. ReadsAll-of d (bytes a) a (x.reads a w); sound = x.sound }

  pub Exact-iff : (V : A → Type 0) → ((a : A) → W a ↔ V a) → Exact W bytes d → Exact V bytes d
  Exact-iff V e x = record {
    reads = λ a v. x.reads a ((e a).1 v);
    sound =
        Sound-weaken _ (λ a used. V a × (used ≡ bytes a)) d x.sound
          (λ a used p. ((e a).0 p.0, p.1));
  }

abbrev pub IsU8 : ℕ → Type 0
IsU8 n = n < 256

abbrev pub IsU16 : ℕ → Type 0
IsU16 n = n < 65536

abbrev pub IsU32 : ℕ → Type 0
IsU32 n = n < 4294967296

pub take_u8-Exact : Exact IsU8 u8_bytes take_u8
take_u8-Exact = record { reads = λ n w. take_u8-Reads n; sound = take_u8-Sound }

pub take_u16-Exact : Exact IsU16 u16_bytes take_u16
take_u16-Exact = record { reads = λ n w. take_u16-Reads n; sound = take_u16-Sound }

pub take_u32-Exact : Exact IsU32 u32_bytes take_u32
take_u32-Exact = record { reads = λ n w. take_u32-Reads n; sound = take_u32-Sound }

pub take_until_null-Exact : Exact IsText text_bytes take_until_null
take_until_null-Exact = record {
  reads = λ t w. take_until_null-Reads t w.0;
  sound = take_until_null-Sound;
}

abbrev pub IsRaw : ℕ → List ℕ → Type 0
IsRaw n bytes = (length bytes ≡ n) × AllBytes bytes

pub take_vec-Exact : (n : ℕ) → Exact (IsRaw n) (λ bytes. bytes) (take_vec n)
take_vec-Exact n = record {
  reads = λ bytes w. subst (λ k. Reads (take_vec k) bytes bytes) w.0 (take_vec-Reads bytes);
  sound =
      Sound-weaken _ (λ bytes used. IsRaw n bytes × (used ≡ bytes)) (take_vec n) (take_vec-Sound n)
        (λ bytes used p. ((p.0, p.1), p.2));
}

module _ {A B : Type 0} {WA : A → Type 0} {bytes_a : A → List ℕ} {d : Decoder A} (field : B → A)
    (V : B → Type 0) (xd : Exact WA bytes_a d) where
  -- A field is taken, and others follow; `V` holds what the fields before it were.
  pub bind-Exact :
      {WB : B → Type 0} {bytes_b : B → List ℕ} {f : A → Decoder B}
      → ((a : A) → WA a → Exact (λ b. WB b × (V b × (field b ≡ a))) bytes_b (f a))
      → Exact (λ b. (WA (field b) × WB b) × V b) (λ b. bytes_a (field b) ++ bytes_b b) (d >>= f)
  bind-Exact {bytes_b} {f} k = record {
    reads = λ b w.
        Reads-bind d f (bytes_a (field b)) (bytes_b b) (field b) b (xd.reads (field b) w.0.0)
          ((k (field b) w.0.0).reads b (w.0.1, (w.1, refl)));
    sound = Sound-bind _ _ d f xd.sound (λ a used (wa, e).
        Sound-weaken _ _ (f a) (k a wa).sound
          (λ b v ((wb, (vb, ef)), ev). (((subst WA (sym ef) wa, wb), vb), rw (e, ev, ef))));
  }

  -- The last field is taken, and the struct is made.
  pub last-Exact :
      (make : A → B)
      → ((a : A) → WA a → V (make a) × (field (make a) ≡ a))
      → ((b : B) → V b → make (field b) ≡ b)
      → Exact (λ b. WA (field b) × V b) (λ b. bytes_a (field b)) (d >>= λ a. pure (make a))
  last-Exact make k l = record {
    reads = λ b w front rest.
        rw (xd.reads (field b) w.0 front rest)
          (ap (λ c. (ok c, at (front ++ bytes_a (field b)) rest)) (l b w.1));
    sound =
        Sound-bind _ _ d (λ a. pure (make a)) xd.sound
          (λ a used (wa, e).
            Sound-pure _ (make a)
              ((subst WA (sym (k a wa).1) wa, (k a wa).0), rw (append-nil, e, (k a wa).1)));
  }

-- A decoder that makes its value of no byte.
pub pure-Exact : {A : Type 0} (a : A) → Exact (λ b. b ≡ a) (λ b. []) (pure a)
pure-Exact a = record { reads = λ b w. rw w (Reads-pure a); sound = Sound-pure _ a (refl, refl) }

-- A number is taken that says which value follows, and how it is read.
module _ {A B : Type 0} {WA : A → Type 0} {bytes_a : A → List ℕ} {d : Decoder A}
    (xd : Exact WA bytes_a d) (code : B → A) (WB : B → Type 0) (bytes_b : B → List ℕ)
    (f : A → Decoder B) where
  tagged-Sound :
      ((a : A) → WA a → Sound (λ b v. WB b × (code b ≡ a) × (v ≡ bytes_b b)) (f a))
      → Sound (λ b used. WB b × (used ≡ bytes_a (code b) ++ bytes_b b)) (d >>= f)
  tagged-Sound l =
      Sound-bind _ _ d f xd.sound (λ a used (wa, e).
        Sound-weaken _ _ (f a) (l a wa) (λ b v (wb, ec, ev). (wb, rw (e, ev, ec))))

  pub tagged-Exact :
      ((b : B) → WB b → WA (code b) × Reads (f (code b)) (bytes_b b) b)
      → ((a : A) → WA a → Sound (λ b v. WB b × (code b ≡ a) × (v ≡ bytes_b b)) (f a))
      → Exact WB (λ b. bytes_a (code b) ++ bytes_b b) (d >>= f)
  tagged-Exact k l = record {
    reads = λ b w.
        Reads-bind d f (bytes_a (code b)) (bytes_b b) (code b) b (xd.reads (code b) (k b w).0)
          (k b w).1;
    sound = tagged-Sound l;
  }

  pub tagged-ExactAll :
      ((b : B) → WB b → WA (code b) × ReadsAll (f (code b)) (bytes_b b) b)
      → ((a : A) → WA a → Sound (λ b v. WB b × (code b ≡ a) × (v ≡ bytes_b b)) (f a))
      → ExactAll WB (λ b. bytes_a (code b) ++ bytes_b b) (d >>= f)
  tagged-ExactAll k l = record {
    reads = λ b w.
        ReadsAll-bind d f (bytes_a (code b)) (bytes_b b) (code b) b (xd.reads (code b) (k b w).0)
          (k b w).1;
    sound = tagged-Sound l;
  }
