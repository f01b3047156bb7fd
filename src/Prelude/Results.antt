-- ===== src/Prelude/Results.antt =====
-- A computation that may raise: the value, or the exception.
use mathlib.Core.Path.{◌≡◌, refl}

pub data Result {ℓ} (E A : Type ℓ) : Type ℓ where
  ok : A → Result E A
  raised : E → Result E A

infixl 5 ◌>>=◌
abbrev pub ◌>>=◌ {ℓ} : {E T U : Type ℓ} → Result E T → (T → Result E U) → Result E U
raised e >>= next = raised e
ok value >>= next = next value

-- A chain that returns has passed through the value of its first step.
pub >>=-eq-ok {ℓ} :
    {E T U : Type ℓ} (first : Result E T) (next : T → Result E U) {out : U}
    → (first >>= next) ≡ ok out
    → (value : T) × (first ≡ ok value) × (next value ≡ ok out)
>>=-eq-ok (raised e) next returned = cc
>>=-eq-ok (ok value) next returned = (value, refl, returned)
