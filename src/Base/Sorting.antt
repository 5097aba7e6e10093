-- ===== src/Base/Sorting.antt =====
-- The stable sort of Go's standard library: an element moves only past elements that are less.
use os_simulator.Base.{
  All, All-append, Bool, Bool-cases, List, [], ap, false, if◌then◌else◌, inl, inr, refl, subst, sym,
  true, ◌++◌, ◌∷◌, ◌≡◌,
}

module _ {ℓ} {A : Type ℓ} (less : A → A → Bool) where
  unfoldable pub insert_by : A → List A → List A
  insert_by x [] = x ∷ []
  insert_by x (y ∷ ys) = if less y x then y ∷ insert_by x ys else x ∷ y ∷ ys

  unfoldable pub sort_by : List A → List A
  sort_by [] = []
  sort_by (x ∷ xs) = insert_by x (sort_by xs)

  -- No element of the list is less than x.
  abbrev pub NoneLess : A → List A → Type 0
  NoneLess x = All (λ y. less y x ≡ false)

  -- x is less than each element of the list.
  abbrev pub AllAbove : A → List A → Type 0
  AllAbove x = All (λ y. less x y ≡ true)

  -- The first minimum of a list, with those before and behind it.
  pub record IsFirstLeast (x : A) (xs : List A) : Type ℓ where
    pub before : List A
    pub behind : List A
    pub whole : xs ≡ before ++ x ∷ behind
    pub before_above : AllAbove x before
    pub none_less : NoneLess x behind

  -- What is not less than y, and y not less than x, is not less than x.
  pub record IsOrder : Type ℓ where
    pub trans : (x y z : A) → less y x ≡ false → less z y ≡ false → less z x ≡ false
    pub asym : (x y : A) → less x y ≡ true → less y x ≡ false

  abbrev pub Head : List A → List A → Type ℓ
  Head xs [] = xs ≡ []
  Head xs (y ∷ ys) = IsFirstLeast y xs

  module _ (order : IsOrder) where
    above-NoneLess : (x y : A) (xs : List A) → less y x ≡ false → AllAbove y xs → NoneLess x xs
    above-NoneLess x y [] e a = tt
    above-NoneLess x y (z ∷ zs) e a =
        (order.trans x y z e (order.asym y z a.0), above-NoneLess x y zs e a.1)

    less_none-NoneLess : (x y : A) (xs : List A) → less y x ≡ false → NoneLess y xs → NoneLess x xs
    less_none-NoneLess x y [] e a = tt
    less_none-NoneLess x y (z ∷ zs) e a = (order.trans x y z e a.0, less_none-NoneLess x y zs e a.1)

    -- An element that is not more than the first minimum is not more than any.
    pub below_least-NoneLess :
        (x y : A) (xs : List A) → less y x ≡ false → IsFirstLeast y xs → NoneLess x xs
    below_least-NoneLess x y xs e l = subst (NoneLess x) (sym l.whole) (
        All-append (λ z. less z x ≡ false) l.before (y ∷ l.behind)
          (above-NoneLess x y l.before e l.before_above)
          (e, less_none-NoneLess x y l.behind e l.none_less))

    insert_by-Head : (x : A) (xs ys : List A) → Head xs ys → Head (x ∷ xs) (insert_by x ys)
    unfolding insert_by
    insert_by-Head x xs [] h = record {
      before = [];
      behind = xs;
      whole = refl;
      before_above = tt;
      none_less = subst (NoneLess x) (sym h) tt;
    }
    insert_by-Head x xs (y ∷ ys) h = elim (Bool-cases (less y x)) [
      | inl e ↦
          rw (e, insert_by)
            (record {
              before = x ∷ h.before;
              behind = h.behind;
              whole = ap (◌∷◌ x) h.whole;
              before_above = (e, h.before_above);
              none_less = h.none_less;
            })
      | inr e ↦
          rw (e, insert_by)
            (record {
              before = [];
              behind = xs;
              whole = refl;
              before_above = tt;
              none_less = below_least-NoneLess x y xs e h;
            })
    ]

    -- The head of a sorted list is its first minimum.
    pub sort_by-Head : (xs : List A) → Head xs (sort_by xs)
    unfolding sort_by
    sort_by-Head [] = refl
    sort_by-Head (x ∷ xs) = insert_by-Head x xs (sort_by xs) (sort_by-Head xs)

    pub NoneLess-least :
        (x : A) (xs : List A) → IsFirstLeast x xs → less x x ≡ false → NoneLess x xs
    NoneLess-least x xs l e = below_least-NoneLess x x xs e l
