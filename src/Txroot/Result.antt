-- ===== src/Txroot/Result.antt =====
-- How a call of lib/txroot ends: it returns a value or an error, or it panics (an index out of
-- range, a call of `panic`). `out_of_fuel` stands for a loop that was cut off by the model.
use mev_boost.Common.{ℕ, Option, none, some, List, get_elem?}

pub data Result {ℓ} (A : Type ℓ) : Type ℓ where
  ok : A → Result A
  over_limit panic out_of_fuel : Result A

infixl 5 ◌>>=◌
abbrev pub ◌>>=◌ {ℓ κ} : {A : Type ℓ} {B : Type κ} → Result A → (A → Result B) → Result B
ok a >>= f = f a
over_limit >>= f = over_limit
panic >>= f = panic
out_of_fuel >>= f = out_of_fuel

-- xs[i]
abbrev pub or_panic {ℓ} : {A : Type ℓ} → Option A → Result A
or_panic none = panic
or_panic (some a) = ok a

abbrev pub index {ℓ} : {A : Type ℓ} → List A → ℕ → Result A
index xs i = or_panic (get_elem? xs i)
