-- ===== src/Base/Outcome.antt =====
-- Results of code that can throw: the value or the thrown error.
use mathlib.Core.Path.{◌≡◌, refl}
use mathlib.Core.Bool.{Bool, true, false}

pub data Result {ℓ} (E : Type ℓ) (A : Type ℓ) : Type ℓ where
  ok : A → Result E A
  err : E → Result E A

infixl 5 ◌>>=◌ ◌>>◌
abbrev pub ◌>>=◌ {ℓ} : {E A B : Type ℓ} → Result E A → (A → Result E B) → Result E B
ok a >>= f = f a
err e >>= f = err e

-- A check, and then what follows it.
abbrev pub ◌>>◌ {ℓ} : {E B : Type ℓ} → Result E (Unit {ℓ}) → Result E B → Result E B
ok u >> r = r
err e >> r = err e

-- A result that a chain returns comes through its first part.
pub bind_ok :
    {E A B : Type 0} (m : Result E A) (f : A → Result E B) (b : B)
    → (m >>= f) ≡ ok b
    → (a : A) × (m ≡ ok a) × (f a ≡ ok b)
bind_ok (ok a) f b h = (a, refl, h)
bind_ok (err e) f b h = absurd (cc)

pub then_ok :
    {E B : Type 0} (m : Result E (Unit {0})) (r : Result E B) (b : B)
    → (m >> r) ≡ ok b
    → (m ≡ ok tt) × (r ≡ ok b)
then_ok (ok tt) r b h = (refl, h)
then_ok (err e) r b h = absurd (cc)

-- `if (!test) throw e;`
abbrev pub ensure : {E : Type 0} → Bool → E → Result E (Unit {0})
ensure true e = ok tt
ensure false e = err e

pub ensure_ok : {E : Type 0} (b : Bool) (e : E) → ensure b e ≡ ok tt → b ≡ true
ensure_ok true e h = refl
ensure_ok false e h = absurd (cc)
