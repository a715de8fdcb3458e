-- ===== src/Msg/Decode/Collect.antt =====
-- The decoders that take all that is left, and those that take items up to a terminator.
use postgread.Prelude.{
  ℕ, zero, suc, ◌+◌, ◌-◌, ◌<◌, ◌≤◌, ◌≡◌, sym, ap, List, [], ◌∷◌, ◌++◌, Option, none, some, length,
  arith, append_assoc, append-nil, length-append, subst, AllBytes, All, items_bytes,
}
use postgread.Msg.Decode.{
  Decoder, pure, ◌>>=◌, take_vec, take_left, left, collect, collect_all, after_round,
}
use postgread.Msg.Decode.Cursor.{at}
use postgread.Msg.Decode.Reads.{Reads, ReadsAll, ReadsAll-of, Reads-bind, take_vec-Reads}
use postgread.Msg.Decode.Sound.{
  Sound, SoundBelow, Sound-pure, Sound-weaken, SoundBelow-bind, take_vec-Sound, Raw,
}
use postgread.Msg.Decode.Exact.{Exact, ExactAll}

left-at : (front rest : List ℕ) → left (at front rest) ≡ length rest
unfolding left
left-at front rest = omega (arith, length-append front rest)

pub take_left-ReadsAll : (bytes : List ℕ) → ReadsAll take_left bytes bytes
unfolding take_left
take_left-ReadsAll bytes front =
    rw (left-at front bytes)
      (ReadsAll-of (take_vec (length bytes)) bytes bytes (take_vec-Reads bytes) front)

-- Any bytes, as they are.
abbrev pub AnyBytes : List ℕ → List ℕ → Type 0
AnyBytes bytes used = AllBytes bytes × (used ≡ bytes)

pub take_left-Sound : Sound AnyBytes take_left
unfolding take_left
take_left-Sound front input h = rw (left-at front input) (
    Sound-weaken (Raw (length input)) AnyBytes (take_vec (length input))
      (take_vec-Sound (length input)) (λ bytes used p. (p.1, p.2)) front input h)

pub take_left-ExactAll : ExactAll AllBytes (λ bytes. bytes) take_left
take_left-ExactAll = record { reads = λ bytes w. take_left-ReadsAll bytes; sound = take_left-Sound }

-- What a round takes: an item, or the terminator.
abbrev pub Round : {A : Type 0} → (A → Type 0) → (A → List ℕ) → List ℕ → Option A → List ℕ → Type 0
Round W item_bytes stop none used = used ≡ stop
Round W item_bytes stop (some a) used = W a × (used ≡ item_bytes a)

module _ {A : Type 0} (W : A → Type 0) (item_bytes : A → List ℕ) (stop : List ℕ)
    (round : Decoder (Option A)) (item_pos : (a : A) → W a → 0 < length (item_bytes a))
    (reads_item : (a : A) → W a → Reads round (item_bytes a) (some a))
    (reads_stop : Reads round stop none) (sound : Sound (Round W item_bytes stop) round) where
  collect-Reads :
      (xs : List A) (fuel : ℕ)
      → length xs < fuel
      → All W xs
      → Reads (collect fuel round) (items_bytes item_bytes xs ++ stop) xs
  unfolding collect items_bytes
  collect-Reads xs zero l w front rest = absurd (omega arith)
  collect-Reads [] (suc fuel) l w front rest = rw (reads_stop front rest)
  collect-Reads (a ∷ xs) (suc fuel) l w front rest =
      subst (λ u. Reads (round >>= after_round (collect fuel round)) u (a ∷ xs))
        (sym (append_assoc (item_bytes a) (items_bytes item_bytes xs) stop))
        (Reads-bind round (after_round (collect fuel round)) (item_bytes a)
          (items_bytes item_bytes xs ++ stop) (some a) (a ∷ xs) (reads_item a w.0)
          (λ f r. rw (collect-Reads xs fuel (omega arith) w.1 f r)))
        front rest

  length-items : (xs : List A) → All W xs → length xs ≤ length (items_bytes item_bytes xs)
  unfolding items_bytes
  length-items [] w = omega arith
  length-items (a ∷ xs) w = omega (
    arith,
    item_pos a w.0,
    length-items xs w.1,
    length-append (item_bytes a) (items_bytes item_bytes xs),
  )

  after_round-Sound :
      (fuel : ℕ) (item : Option A) (used : List ℕ)
      → SoundBelow fuel
          (λ xs v. All W xs × (v ≡ items_bytes item_bytes xs ++ stop))
          (collect fuel round)
      → Round W item_bytes stop item used
      → SoundBelow
          (suc fuel - length used)
          (λ xs v. All W xs × (used ++ v ≡ items_bytes item_bytes xs ++ stop))
          (after_round (collect fuel round) item)
  unfolding after_round items_bytes
  after_round-Sound fuel none used ih e front input h l =
      Sound-pure _ [] (tt, rw (append-nil, e)) front input h
  after_round-Sound fuel (some a) used ih (wa, e) front input h l =
      SoundBelow-bind _ _ (collect fuel round) (λ items. pure (a ∷ items)) fuel ih
        (λ xs v (wxs, ev) f i h l.
          Sound-pure _ (a ∷ xs) ((wa, wxs), rw (append-nil, e, ev, append_assoc)) f i h)
        front input h (omega (arith, ap length e, item_pos a wa))

  collect-Sound :
      (fuel : ℕ)
      → SoundBelow fuel
          (λ xs used. All W xs × (used ≡ items_bytes item_bytes xs ++ stop))
          (collect fuel round)
  unfolding collect
  collect-Sound zero front input h l = absurd (omega arith)
  collect-Sound (suc fuel) front input h l =
      SoundBelow-bind _ _ round (after_round (collect fuel round)) (suc fuel)
        (λ f i h l. sound f i h)
        (λ item used p. after_round-Sound fuel item used (collect-Sound fuel) p) front input h l

  pub collect_all-Exact :
      Exact (All W) (λ xs. items_bytes item_bytes xs ++ stop) (collect_all round)
  unfolding collect_all
  collect_all-Exact = record {
    reads = λ xs w front rest. rw (left-at front ((items_bytes item_bytes xs ++ stop) ++ rest)) (
        collect-Reads xs (length ((items_bytes item_bytes xs ++ stop) ++ rest) + 1)
          (omega (
            arith,
            length-items xs w,
            length-append (items_bytes item_bytes xs) stop,
            length-append (items_bytes item_bytes xs ++ stop) rest,
          ))
          w front rest);
    sound = λ front input h.
        rw (left-at front input) (collect-Sound (length input + 1) front input h (omega arith));
  }
