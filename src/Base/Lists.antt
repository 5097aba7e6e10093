-- ===== src/Base/Lists.antt =====
-- Slices, measured and indexed by native numbers, under the library's names.
use Prim.Native.Nat.{ℕ, zero, suc, ◌+◌, ◌≤◌, ◌<◌}
use mathlib.Core.Path.{◌≡◌, refl, ap, sym, subst}
use mathlib.Core.Logic.{◌≢◌}
use mathlib.Core.List.{List, [], ◌∷◌, ◌++◌}
use mathlib.Core.Option.{Option, none, some}
use native.Mathlib.Omega.{arith}

module _ {ℓ} {A : Type ℓ} where
  abbrev pub length : List A → ℕ
  length [] = 0
  length (x ∷ xs) = suc (length xs)

  abbrev pub get_elem? : List A → ℕ → Option A
  get_elem? [] i = none
  get_elem? (x ∷ xs) zero = some x
  get_elem? (x ∷ xs) (suc i) = get_elem? xs i

  -- A write out of bounds changes nothing.
  abbrev pub set : List A → ℕ → A → List A
  set [] i v = []
  set (x ∷ xs) zero v = v ∷ xs
  set (x ∷ xs) (suc i) v = x ∷ set xs i v

  abbrev pub take : ℕ → List A → List A
  take zero xs = []
  take (suc n) [] = []
  take (suc n) (x ∷ xs) = x ∷ take n xs

  abbrev pub drop : ℕ → List A → List A
  drop zero xs = xs
  drop (suc n) [] = []
  drop (suc n) (x ∷ xs) = drop n xs

  abbrev pub replicate : ℕ → A → List A
  replicate zero a = []
  replicate (suc n) a = a ∷ replicate n a

  pub length-append : (xs ys : List A) → length (xs ++ ys) ≡ length xs + length ys
  length-append [] ys = omega arith
  length-append (x ∷ xs) ys = omega (arith, length-append xs ys)

  pub length-set : (xs : List A) (i : ℕ) (v : A) → length (set xs i v) ≡ length xs
  length-set [] i v = refl
  length-set (x ∷ xs) zero v = refl
  length-set (x ∷ xs) (suc i) v = ap suc (length-set xs i v)

  pub get_elem?-set_self :
      (xs : List A) (i : ℕ) (v : A) → i < length xs → get_elem? (set xs i v) i ≡ some v
  get_elem?-set_self [] i v h = elim h [ ]
  get_elem?-set_self (x ∷ xs) zero v h = refl
  get_elem?-set_self (x ∷ xs) (suc i) v h = get_elem?-set_self xs i v (omega arith)

  pub get_elem?-set_ne :
      (xs : List A) (i j : ℕ) (v : A) → i ≢ j → get_elem? (set xs i v) j ≡ get_elem? xs j
  get_elem?-set_ne [] i j v h = refl
  get_elem?-set_ne (x ∷ xs) zero zero v h = absurd (h refl)
  get_elem?-set_ne (x ∷ xs) zero (suc j) v h = refl
  get_elem?-set_ne (x ∷ xs) (suc i) zero v h = refl
  get_elem?-set_ne (x ∷ xs) (suc i) (suc j) v h = get_elem?-set_ne xs i j v (λ e. h (ap suc e))

  pub get_elem?_lt : (xs : List A) (i : ℕ) → i < length xs → (a : A) × (get_elem? xs i ≡ some a)
  get_elem?_lt [] i h = elim h [ ]
  get_elem?_lt (x ∷ xs) zero h = (x, refl)
  get_elem?_lt (x ∷ xs) (suc i) h = get_elem?_lt xs i (omega arith)

  pub get_elem?-lt_length : (xs : List A) (i : ℕ) (a : A) → get_elem? xs i ≡ some a → i < length xs
  get_elem?-lt_length [] i a h = cc
  get_elem?-lt_length (x ∷ xs) zero a h = omega arith
  get_elem?-lt_length (x ∷ xs) (suc i) a h = omega (arith, get_elem?-lt_length xs i a h)

  pub length-replicate : (n : ℕ) (a : A) → length (replicate n a) ≡ n
  length-replicate zero a = refl
  length-replicate (suc n) a = ap suc (length-replicate n a)

pub some_inj {ℓ} : {A : Type ℓ} {a b : A} → some a ≡ some b → a ≡ b
some_inj h = cc

-- A predicate on every element, by recursion, so that it computes to tuples.
abbrev pub All {ℓ κ} : {A : Type ℓ} → (A → Type κ) → List A → Type κ
All P [] = Unit
All P (x ∷ xs) = P x × All P xs

pub All-append {ℓ κ} :
    {A : Type ℓ} (P : A → Type κ) (xs ys : List A) → All P xs → All P ys → All P (xs ++ ys)
All-append P [] ys hx hy = hy
All-append P (x ∷ xs) ys hx hy = (hx.0, All-append P xs ys hx.1 hy)

pub All-get_elem? {ℓ κ} :
    {A : Type ℓ} (P : A → Type κ) (xs : List A) (i : ℕ) (a : A)
    → All P xs
    → get_elem? xs i ≡ some a
    → P a
All-get_elem? P [] i a h e = cc
All-get_elem? P (x ∷ xs) zero a h e = subst P (some_inj e) h.0
All-get_elem? P (x ∷ xs) (suc i) a h e = All-get_elem? P xs i a h.1 e

pub set-set_swap {ℓ} :
    {A : Type ℓ} (xs : List A) (i j : ℕ) (a : A) → set (set xs i a) j a ≡ set (set xs j a) i a
set-set_swap [] i j a = refl
set-set_swap (x ∷ xs) zero zero a = refl
set-set_swap (x ∷ xs) zero (suc j) a = refl
set-set_swap (x ∷ xs) (suc i) zero a = refl
set-set_swap (x ∷ xs) (suc i) (suc j) a = ap (◌∷◌ x) (set-set_swap xs i j a)

pub set-set_self {ℓ} :
    {A : Type ℓ} (xs : List A) (i : ℕ) (a b : A) → set (set xs i a) i b ≡ set xs i b
set-set_self [] i a b = refl
set-set_self (x ∷ xs) zero a b = refl
set-set_self (x ∷ xs) (suc i) a b = ap (◌∷◌ x) (set-set_self xs i a b)

pub set_known {ℓ} :
    {A : Type ℓ} (xs : List A) (i : ℕ) (a : A) → get_elem? xs i ≡ some a → set xs i a ≡ xs
set_known [] i a e = refl
set_known (x ∷ xs) zero a e = ap (λ y. y ∷ xs) (sym (some_inj e))
set_known (x ∷ xs) (suc i) a e = ap (◌∷◌ x) (set_known xs i a e)

pub take_append_drop {ℓ} : {A : Type ℓ} (n : ℕ) (xs : List A) → take n xs ++ drop n xs ≡ xs
take_append_drop zero xs = refl
take_append_drop (suc n) [] = refl
take_append_drop (suc n) (x ∷ xs) = ap (◌∷◌ x) (take_append_drop n xs)

pub length-take {ℓ} : {A : Type ℓ} (n : ℕ) (xs : List A) → n ≤ length xs → length (take n xs) ≡ n
length-take zero xs h = refl
length-take (suc n) [] h = omega arith
length-take (suc n) (x ∷ xs) h = ap suc (length-take n xs (omega arith))
