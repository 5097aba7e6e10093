-- ===== src/Base/Outcomes.antt =====
-- What a call of Go may do beside returning: fail at run time with a panic.
pub data Outcome {ℓ} (A : Type ℓ) : Type ℓ where
  returns : A → Outcome A
  panics : Outcome A

infixl 5 ◌>>=◌
abbrev pub ◌>>=◌ {ℓ κ} : {A : Type ℓ} {B : Type κ} → Outcome A → (A → Outcome B) → Outcome B
returns a >>= f = f a
panics >>= f = panics

abbrev pub map_outcome {ℓ κ} : {A : Type ℓ} {B : Type κ} → (A → B) → Outcome A → Outcome B
map_outcome f (returns a) = returns (f a)
map_outcome f panics = panics
