-- ===== src/Msg/Read/Body.antt =====
-- The body of a message that is read whole: with an exact decoder, `decode_msg` of src/msg/util/read.rs
-- accepts just the bytes of the message's values.
use postgread.Prelude.{
  ℕ, zero, suc, ◌≡◌, refl, ◌↔◌, List, [], ◌∷◌, ok, err, length, AllBytes, arith, append-nil,
  length-append, subst, ◌≢◌,
}
use postgread.Msg.Decode
use postgread.Msg.Decode.{DecodeResult, out_of_fuel, BytesSource, Decoder, MsgDecode}
use postgread.Msg.Decode.Cursor.{at}
use postgread.Msg.Decode.Sound.{Sound, Post, taken, stopped}
use postgread.Msg.Decode.Reads.{ReadsAll}
use postgread.Msg.Decode.Exact.{ExactAll}
use postgread.Msg.Read.{undecided, check_left, check_body, decode_msg}

left-at : (front rest : List ℕ) → Decode.left (at front rest) ≡ length rest
unfolding Decode.left
left-at front rest = omega (arith, length-append front rest)

check_left-ok :
    {Msg : Type 0} (a : Msg) (n : ℕ) {msg : Msg} → check_left a n ≡ ok msg → (n ≡ 0) × (a ≡ msg)
unfolding check_left
check_left-ok a zero h = (refl, cc)
check_left-ok a (suc n) h = cc

empty_of_length : (rest : List ℕ) → length rest ≡ 0 → rest ≡ []
empty_of_length [] h = refl
empty_of_length (b ∷ bs) h = absurd (omega arith)

module _ {Msg : Type 0} where
  check_body-Post :
      (P : Msg → List ℕ → Type 0) (input : List ℕ) (msg : Msg) {r : DecodeResult Msg}
      {s : BytesSource}
      → Post P [] input r s
      → check_body r s ≡ ok msg
      → P msg input
  unfolding check_body
  check_body-Post P input msg (taken {a} used rest e es p) h =
      let (none_left, same) = check_left-ok a _ (rw (es, left-at) at h) in
      let whole : used ≡ input = rw (e, empty_of_length rest none_left, append-nil) in
      subst (λ t. P t input) same (subst (P a) whole p)
  check_body-Post P input msg (stopped e b) h = cc

  check_body-decided :
      (P : Msg → List ℕ → Type 0) (input : List ℕ) {r : DecodeResult Msg} {s : BytesSource}
      → Post P [] input r s
      → check_body r s ≢ err undecided
  unfolding check_body check_left
  check_body-decided P input (taken {a} used rest e es p) h = left_decided a _ h
    where
      left_decided : (a : Msg) (n : ℕ) → check_left a n ≢ err undecided
      left_decided a zero h = cc
      left_decided a (suc n) h = cc
  check_body-decided P input (stopped e b) h = cc

module _ {Msg : Type 0} (m : MsgDecode Msg) where
  -- What is known of the bytes that the decoder takes is known of a body that is accepted.
  pub decode_msg_sound :
      (P : Msg → List ℕ → Type 0) (input : List ℕ) (msg : Msg)
      → Sound P m.decode_body
      → AllBytes input
      → decode_msg m input ≡ ok msg
      → P msg input
  unfolding decode_msg Decode.new
  decode_msg_sound P input msg sound h = check_body-Post P input msg (sound [] input h)

  -- A body that the decoder reads whole is accepted.
  pub decode_msg_reads :
      (input : List ℕ) (msg : Msg) → ReadsAll m.decode_body input msg → decode_msg m input ≡ ok msg
  unfolding decode_msg Decode.new check_body
  decode_msg_reads input msg r = rw (r []) (rw (left-at input []) (unfold check_left in refl))

module _ {Msg : Type 0} (m : MsgDecode Msg) (W : Msg → Type 0) (bytes : Msg → List ℕ)
    (x : ExactAll W bytes m.decode_body) where
  -- The body is accepted as `msg` just if it is the bytes of `msg`.
  pub decode_msg_iff :
      (input : List ℕ) (msg : Msg)
      → AllBytes input
      → (decode_msg m input ≡ ok msg) ↔ (W msg × (input ≡ bytes msg))
  decode_msg_iff input msg h = (
    decode_msg_sound m (λ a used. W a × (used ≡ bytes a)) input msg x.sound h,
    λ (w, e). rw e (decode_msg_reads m (bytes msg) msg (x.reads msg w)),
  )

  pub decode_msg-decided : (input : List ℕ) → AllBytes input → decode_msg m input ≢ err undecided
  unfolding decode_msg Decode.new
  decode_msg-decided input h =
      check_body-decided (λ a used. W a × (used ≡ bytes a)) input (x.sound [] input h)

module _ {Msg : Type 0} (m : MsgDecode Msg) where
  pub Sound-decided :
      {P : Msg → List ℕ → Type 0}
      → Sound P m.decode_body
      → (input : List ℕ) → AllBytes input
      → decode_msg m input ≢ err undecided
  unfolding decode_msg Decode.new
  Sound-decided {P} sound input h = check_body-decided P input (sound [] input h)
