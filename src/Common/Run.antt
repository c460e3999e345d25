-- ===== src/Common/Run.antt =====
-- What a piece of C code does: it ends with a value, it runs into undefined behaviour (a NULL
-- pointer or an index out of bounds), or the fuel given to the model of its loop runs out.
pub data Run {ℓ} (A : Type ℓ) : Type ℓ where
  done : A → Run A
  fault : Run A
  out_of_fuel : Run A

module _ {ℓ κ} {A : Type ℓ} {B : Type κ} where
  infixl 5 ◌>>=◌
  abbrev pub ◌>>=◌ : Run A → (A → Run B) → Run B
  done a >>= f = f a
  fault >>= f = fault
  out_of_fuel >>= f = out_of_fuel
