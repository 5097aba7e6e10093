-- ===== src/Memory/Manager/Victims.antt =====
-- Which frame the policies of pkg/memory/page_replacement.go choose.
use os_simulator.Base.{
  Bool-cases, List, [], arith, get_elem?, inl, inr, length, ltb, ltb→lt, refl, returns, some,
  some_inj, subst, suc, sym, zero, ℕ, ◌+◌, ◌<◌, ◌∙◌, ◌∷◌, ◌≡◌, ◌≤◌, ◌⊎◌,
}
use os_simulator.Memory.Manager.{FrameInfo, oldest_frame, oldest_from}

-- The first frame of a list with the least tick.
pub record IsOldestFrame (key : FrameInfo → ℕ) (fs : List FrameInfo) (i : ℕ) : Type 0 where
  pub frame : FrameInfo
  pub at : get_elem? fs i ≡ some frame
  pub least : (j : ℕ) (f : FrameInfo) → get_elem? fs j ≡ some f → key frame ≤ key f
  pub first : (j : ℕ) (f : FrameInfo) → get_elem? fs j ≡ some f → j < i → key frame < key f

-- The loop from index i on: either the victim so far stays and is not younger than the rest, or it is
-- the oldest of the rest and older than the victim so far.
abbrev Oldest : (FrameInfo → ℕ) → ℕ → ℕ → ℕ → List FrameInfo → ℕ → Type 0
Oldest key i victim oldest fs v =
    ((v ≡ victim) × ((j : ℕ) (f : FrameInfo) → get_elem? fs j ≡ some f → oldest ≤ key f))
    ⊎ ((k : ℕ) × (v ≡ i + k) × (o : IsOldestFrame key fs k) × (key o.frame < oldest))

older_first :
    (key : FrameInfo → ℕ) (i victim oldest : ℕ) (f : FrameInfo) (fs : List FrameInfo) (v : ℕ)
    → oldest ≤ key f
    → Oldest key (suc i) victim oldest fs v
    → Oldest key i victim oldest (f ∷ fs) v
older_first key i victim oldest f fs v h (inl (e, rest)) = inl (e, at_all)
  where
    at_all : (j : ℕ) (g : FrameInfo) → get_elem? (f ∷ fs) j ≡ some g → oldest ≤ key g
    at_all zero g a = subst (λ z. oldest ≤ key z) (some_inj a) h
    at_all (suc j) g a = rest j g a
older_first key i victim oldest f fs v h (inr (k, e, o, l)) = inr (
  suc k,
  omega (arith, e),
  record { frame = o.frame; at = o.at; least = least; first = first },
  l,
)
  where
    least : (j : ℕ) (g : FrameInfo) → get_elem? (f ∷ fs) j ≡ some g → key o.frame ≤ key g
    least zero g a = subst (λ z. key o.frame ≤ key z) (some_inj a) (omega arith)
    least (suc j) g a = o.least j g a

    first :
        (j : ℕ) (g : FrameInfo) → get_elem? (f ∷ fs) j ≡ some g → j < suc k → key o.frame < key g
    first zero g a b = subst (λ z. key o.frame < key z) (some_inj a) (omega arith)
    first (suc j) g a b = o.first j g a (omega arith)

newer_first :
    (key : FrameInfo → ℕ) (i victim oldest : ℕ) (f : FrameInfo) (fs : List FrameInfo) (v : ℕ)
    → key f < oldest
    → Oldest key (suc i) i (key f) fs v
    → Oldest key i victim oldest (f ∷ fs) v
newer_first key i victim oldest f fs v h (inl (e, rest)) = inr (
  0,
  omega (arith, e),
  record { frame = f; at = refl; least = least; first = λ j g a b. absurd (omega arith) },
  h,
)
  where
    least : (j : ℕ) (g : FrameInfo) → get_elem? (f ∷ fs) j ≡ some g → key f ≤ key g
    least zero g a = subst (λ z. key f ≤ key z) (some_inj a) (omega arith)
    least (suc j) g a = rest j g a
newer_first key i victim oldest f fs v h (inr (k, e, o, l)) = inr (
  suc k,
  omega (arith, e),
  record { frame = o.frame; at = o.at; least = least; first = first },
  omega arith,
)
  where
    least : (j : ℕ) (g : FrameInfo) → get_elem? (f ∷ fs) j ≡ some g → key o.frame ≤ key g
    least zero g a = subst (λ z. key o.frame ≤ key z) (some_inj a) (omega arith)
    least (suc j) g a = o.least j g a

    first :
        (j : ℕ) (g : FrameInfo) → get_elem? (f ∷ fs) j ≡ some g → j < suc k → key o.frame < key g
    first zero g a b = subst (λ z. key o.frame < key z) (some_inj a) l
    first (suc j) g a b = o.first j g a (omega arith)

oldest_from-Oldest :
    (key : FrameInfo → ℕ) (i victim oldest : ℕ) (fs : List FrameInfo)
    → Oldest key i victim oldest fs (oldest_from key i victim oldest fs)
unfolding oldest_from
oldest_from-Oldest key i victim oldest [] = inl (refl, λ j f a. cc)
oldest_from-Oldest key i victim oldest (f ∷ fs) = elim (Bool-cases (ltb (key f) oldest)) [
  | inl e ↦
      rw (e, oldest_from)
        (newer_first key i victim oldest f fs _ (ltb→lt _ _ e)
          (oldest_from-Oldest key (suc i) i (key f) fs))
  | inr e ↦
      rw (e, oldest_from)
        (older_first key i victim oldest f fs _ (ground (arith, e))
          (oldest_from-Oldest key (suc i) victim oldest fs))
]

-- The whole loop is one with a first victim that is younger than the first frame.
from_first :
    (key : FrameInfo → ℕ) (f : FrameInfo) (fs : List FrameInfo) (v : ℕ)
    → Oldest key 0 0 (key f + 1) (f ∷ fs) v
    → IsOldestFrame key (f ∷ fs) v
from_first key f fs v (inl (e, rest)) = absurd (omega (arith, rest 0 f refl))
from_first key f fs v (inr (k, e, o, l)) =
    subst (IsOldestFrame key (f ∷ fs)) (sym (e ∙ omega arith)) o

pub oldest_frame-IsOldestFrame :
    (key : FrameInfo → ℕ) (fs : List FrameInfo)
    → 0 < length fs
    → (v : ℕ) × (oldest_frame key fs ≡ returns v) × IsOldestFrame key fs v
unfolding oldest_frame
oldest_frame-IsOldestFrame key [] h = absurd (omega arith)
oldest_frame-IsOldestFrame key (f ∷ fs) h = (
  oldest_from key 1 0 (key f) fs,
  refl,
  from_first key f fs _ (
      newer_first key 0 0 (key f + 1) f fs _ (omega arith) (oldest_from-Oldest key 1 0 (key f) fs)),
)
