-- ===== src/Common/Outcome.antt =====
-- The outcome of a handler: it returns, it does not return within the fuel, or it does what the
-- language leaves undefined (a null pointer, freed memory, an invalid iterator).

pub data Run {ℓ} (A : Type ℓ) : Type ℓ where
  done : A → Run A
  hangs undefined : Run A

infixl 5 ◌>>=◌
abbrev pub ◌>>=◌ {ℓ κ} : {A : Type ℓ} {B : Type κ} → Run A → (A → Run B) → Run B
done a >>= f = f a
hangs >>= f = hangs
undefined >>= f = undefined
