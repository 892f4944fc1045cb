-- ===== src/Prelude/Try.antt =====
-- `Result` over an error type that the module chooses, and its `?`.
use mathlib.Core.Option.{Option, none, some}
use mathlib.Core.Bool.{Bool, true, false}
use mathlib.Core.Path.{◌≡◌, refl}
use mathlib.Core.Logic.{◌⊎◌, inl, inr}

pub data Try (E A : Type 0) : Type 0 where
  ok : A → Try E A
  err : E → Try E A

module _ {E A B : Type 0} where
  infixl 5 ◌>>=◌
  abbrev pub ◌>>=◌ : (found : Try E A) (next : A → Try E B) → Try E B
  err e >>= next = err e
  ok a >>= next = next a

module _ {E B : Type 0} where
  infixl 5 ◌>>◌
  abbrev pub ◌>>◌ : (checked : Try E (Unit {0})) (next : Try E B) → Try E B
  checked >> next = checked >>= λ _. next

abbrev pub refuse_if : {E : Type 0} → Bool → E → Try E (Unit {0})
refuse_if true e = err e
refuse_if false e = ok tt

-- `Option::ok_or`.
abbrev pub ok_or : {E A : Type 0} → Option A → E → Try E A
ok_or none e = err e
ok_or (some a) e = ok a

-- `Result::map_err`, where every error becomes the same.
abbrev pub map_err : {D E A : Type 0} → Try D A → (D → E) → Try E A
map_err (ok a) f = ok a
map_err (err d) f = err (f d)

-- To split on a computed result and keep the equation.
pub Try-cases : {E A : Type 0} (t : Try E A) → ((a : A) × (t ≡ ok a)) ⊎ ((e : E) × (t ≡ err e))
Try-cases (ok a) = inl (a, refl)
Try-cases (err e) = inr (e, refl)
