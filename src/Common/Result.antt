-- ===== src/Common/Result.antt =====
-- The outcome of code that throws: its value, or what it threw.
use mathlib.Core.Path.{◌≡◌}

pub data Result {ℓ} (E : Type 0) (A : Type ℓ) : Type ℓ where
  ok : A → Result E A
  err : E → Result E A

module _ {E : Type 0} where
  infixl 5 ◌>>=◌
  abbrev pub ◌>>=◌ {ℓ κ} : {A : Type ℓ} {B : Type κ} → Result E A → (A → Result E B) → Result E B
  ◌>>=◌ (err thrown) next = err thrown
  ◌>>=◌ (ok value) next = next value

  -- Whether a result is a value.
  abbrev pub Succeeds {ℓ} : {A : Type ℓ} → Result E A → Type ℓ
  Succeeds {A} r = (value : A) × (r ≡ ok value)
