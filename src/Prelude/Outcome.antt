-- ===== src/Prelude/Outcome.antt =====
-- The standard library's `Result<A, E>`, and functions on a `&mut` object that return one.
use mathlib.Core.Path.{◌≡◌, refl}

pub data Result {ℓ κ} (E : Type ℓ) (A : Type κ) : Type (ℓ ⊔ κ) where
  ok : A → Result E A
  err : E → Result E A

-- The result, and the object after the call.
abbrev pub Stateful : Type 0 → Type 0 → Type 0 → Type 0
Stateful S E A = S → Result E A × S

abbrev pub pure : {S E A : Type 0} → A → Stateful S E A
pure a s = (ok a, s)

abbrev pub fail : {S E A : Type 0} → E → Stateful S E A
fail e s = (err e, s)

abbrev pub continue : {S E A B : Type 0} → (A → Stateful S E B) → Result E A → S → Result E B × S
continue f (ok a) s = f a s
continue f (err e) s = (err e, s)

-- The `?` of a step and what follows it.
infixl 5 ◌>>=◌ ◌>>◌
abbrev pub ◌>>=◌ : {S E A B : Type 0} → Stateful S E A → (A → Stateful S E B) → Stateful S E B
◌>>=◌ d f s = continue f (d s).0 (d s).1

abbrev pub ◌>>◌ : {S E B : Type 0} → Stateful S E (Unit {0}) → Stateful S E B → Stateful S E B
◌>>◌ d f s = continue (λ _. f) (d s).0 (d s).1

-- Inversion of a step and what follows it, where both succeed.
pub >>=-eq-ok :
    {S E A B : Type 0} (d : Stateful S E A) (f : A → Stateful S E B) (s : S) {b : B}
    → ((d >>= f) s).0 ≡ ok b
    → (a : A) × ((d s).0 ≡ ok a) × ((d >>= f) s ≡ f a (d s).1)
>>=-eq-ok {S} {E} {A} {B} d f s {b} h = go (d s).0 refl h
  where
    go :
        (r : Result E A)
        → (d s).0 ≡ r
        → (continue f r (d s).1).0 ≡ ok b
        → (a : A) × ((d s).0 ≡ ok a) × ((d >>= f) s ≡ f a (d s).1)
    go (ok a) e k = (a, e, rw (e, continue))
    go (err x) e k = cc

abbrev pub Result_map_err : {E F A : Type 0} → (E → F) → Result E A → Result F A
Result_map_err f (ok a) = ok a
Result_map_err f (err e) = err (f e)

-- `Result::map_err` on what a step returns.
abbrev pub map_err : {S E F A : Type 0} → (E → F) → Stateful S E A → Stateful S F A
map_err f d s = (Result_map_err f (d s).0, (d s).1)

-- A result that is at hand, as a step.
abbrev pub lift : {S E A : Type 0} → Result E A → Stateful S E A
lift r s = (r, s)

pub map_err-eq-ok :
    {E F A : Type 0} (f : E → F) (r : Result E A) {a : A} → Result_map_err f r ≡ ok a → r ≡ ok a
map_err-eq-ok f (ok a) h = cc
map_err-eq-ok f (err e) h = cc

-- `Result::map`, `and_then` and `unwrap_or`
abbrev pub Result_map : {E A B : Type 0} → (A → B) → Result E A → Result E B
Result_map f (ok a) = ok (f a)
Result_map f (err e) = err e

abbrev pub and_then : {E A B : Type 0} → Result E A → (A → Result E B) → Result E B
and_then (ok a) f = f a
and_then (err e) f = err e

abbrev pub unwrap_or : {E A : Type 0} → A → Result E A → A
unwrap_or default (ok a) = a
unwrap_or default (err e) = default
