-- ===== src/Common/Fuel.antt =====
-- The result of a loop that runs on fuel.

pub data Run {ℓ} (A : Type ℓ) : Type ℓ where
  done : A → Run A
  out_of_fuel : Run A

infixl 5 ◌>>=◌
abbrev pub ◌>>=◌ {ℓ κ} : {A : Type ℓ} {B : Type κ} → Run A → (A → Run B) → Run B
done a >>= f = f a
out_of_fuel >>= f = out_of_fuel
