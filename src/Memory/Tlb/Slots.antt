-- ===== src/Memory/Tlb/Slots.antt =====
-- The slot that `Insert` of pkg/memory/tlb.go chooses, by its loop.
use mathlib.Core.Path.{subst}
use os_simulator.Base.{
  All, Bool-cases, List, [], ap, arith, false, get_elem?, inl, inr, ltb, ltb→lt, refl, some, suc,
  sym, true, zero, ℕ, ◌+◌, ◌<◌, ◌∙◌, ◌∷◌, ◌≡◌, ◌≤◌, ◌⊎◌,
}
use os_simulator.Memory.Tlb.{Slot, TlbEntry, empty_at, evict_at, find_slot, is_match, update_at}

abbrev pub IsTaken : ℕ → ℕ → TlbEntry → Type 0
IsTaken pid vpn e = (e.valid ≡ true) × (is_match pid vpn e ≡ false)

-- Before index k stand valid entries of other pages, and there stands a free one.
abbrev pub IsFirstFree : ℕ → ℕ → ℕ → List TlbEntry → Type 0
IsFirstFree pid vpn k [] = ⊥
IsFirstFree pid vpn zero (e ∷ es) = e.valid ≡ false
IsFirstFree pid vpn (suc k) (e ∷ es) = IsTaken pid vpn e × IsFirstFree pid vpn k es

-- Before index k stand valid entries of other pages, and there stands one of this page.
abbrev pub IsFirstMatch : ℕ → ℕ → ℕ → List TlbEntry → Type 0
IsFirstMatch pid vpn k [] = ⊥
IsFirstMatch pid vpn zero (e ∷ es) = is_match pid vpn e ≡ true
IsFirstMatch pid vpn (suc k) (e ∷ es) = IsTaken pid vpn e × IsFirstMatch pid vpn k es

-- The loop's `lruIdx` at its end: the start value where nothing is older, or the oldest entry.
abbrev pub IsOldest : ℕ → ℕ → ℕ → List TlbEntry → ℕ → Type 0
IsOldest i lru oldest es j =
    ((j ≡ lru) × All (λ e. oldest ≤ e.last_access) es)
    ⊎ ((k : ℕ) × (e : TlbEntry) × (j ≡ i + k)
        × (get_elem? es k ≡ some e)
        × (e.last_access < oldest)
        × All (λ f. e.last_access ≤ f.last_access) es)

abbrev pub SlotCases : ℕ → ℕ → ℕ → ℕ → ℕ → List TlbEntry → Slot → Type 0
SlotCases pid vpn i lru oldest es s =
    ((k : ℕ) × (s ≡ empty_at (i + k)) × IsFirstFree pid vpn k es)
    ⊎ ((k : ℕ) × (s ≡ update_at (i + k)) × IsFirstMatch pid vpn k es)
    ⊎ ((j : ℕ) × (s ≡ evict_at j) × All (IsTaken pid vpn) es × IsOldest i lru oldest es j)

All-weaken :
    (m n : ℕ) (es : List TlbEntry)
    → m ≤ n
    → All (λ e. n ≤ e.last_access) es
    → All (λ e. m ≤ e.last_access) es
All-weaken m n [] h a = tt
All-weaken m n (e ∷ es) h a = (omega arith, All-weaken m n es h a.1)

IsOldest-older :
    (i lru oldest j : ℕ) (e : TlbEntry) (es : List TlbEntry)
    → e.last_access < oldest
    → IsOldest (suc i) i e.last_access es j
    → IsOldest i lru oldest (e ∷ es) j
IsOldest-older i lru oldest j e es h (inl (p, a)) =
    inr (0, e, omega arith, refl, h, (omega arith, a))
IsOldest-older i lru oldest j e es h (inr (k, f, p, q, r, a)) =
    inr (suc k, f, omega arith, q, omega arith, (omega arith, a))

IsOldest-newer :
    (i lru oldest j : ℕ) (e : TlbEntry) (es : List TlbEntry)
    → oldest ≤ e.last_access
    → IsOldest (suc i) lru oldest es j
    → IsOldest i lru oldest (e ∷ es) j
IsOldest-newer i lru oldest j e es h (inl (p, a)) = inl (p, (h, a))
IsOldest-newer i lru oldest j e es h (inr (k, f, p, q, r, a)) =
    inr (suc k, f, omega arith, q, r, (omega arith, a))

SlotCases-cons :
    (pid vpn i lru oldest lru' oldest' : ℕ) (e : TlbEntry) (es : List TlbEntry) (s : Slot)
    → IsTaken pid vpn e
    → ((j : ℕ) → IsOldest (suc i) lru' oldest' es j → IsOldest i lru oldest (e ∷ es) j)
    → SlotCases pid vpn (suc i) lru' oldest' es s
    → SlotCases pid vpn i lru oldest (e ∷ es) s
SlotCases-cons pid vpn i lru oldest lru' oldest' e es s t up (inl (k, p, f)) =
    inl (suc k, p ∙ ap empty_at (omega arith), (t, f))
SlotCases-cons pid vpn i lru oldest lru' oldest' e es s t up (inr (inl (k, p, f))) =
    inr (inl (suc k, p ∙ ap update_at (omega arith), (t, f)))
SlotCases-cons pid vpn i lru oldest lru' oldest' e es s t up (inr (inr (j, p, a, o))) =
    inr (inr (j, p, (t, a), up j o))

-- The three ways in which the loop of `Insert` ends.
pub find_slot-SlotCases :
    (pid vpn i lru oldest : ℕ) (es : List TlbEntry)
    → SlotCases pid vpn i lru oldest es (find_slot pid vpn i lru oldest es)
unfolding find_slot
find_slot-SlotCases pid vpn i lru oldest [] = inr (inr (lru, refl, tt, inl (refl, tt)))
find_slot-SlotCases pid vpn i lru oldest (e ∷ es) =
    let slot = find_slot pid vpn i lru oldest (e ∷ es) in
    elim (Bool-cases e.valid) [
      | inr free ↦ let p : slot ≡ empty_at (i + 0) = ground arith in inl (0, p, free)
      | inl used ↦ elim (Bool-cases (is_match pid vpn e)) [
        | inl hit ↦ let p : slot ≡ update_at (i + 0) = ground arith in inr (inl (0, p, hit))
        | inr miss ↦ elim (Bool-cases (ltb e.last_access oldest)) [
          | inl older ↦
              let p : slot ≡ find_slot pid vpn (suc i) i e.last_access es = ground arith in
              subst (SlotCases pid vpn i lru oldest (e ∷ es)) (sym p) (
                SlotCases-cons pid vpn i lru oldest i e.last_access e es _ (used, miss)
                  (λ j. IsOldest-older i lru oldest j e es (ltb→lt _ _ older))
                  (find_slot-SlotCases pid vpn (suc i) i e.last_access es))
          | inr newer ↦
              let p : slot ≡ find_slot pid vpn (suc i) lru oldest es = ground arith in
              subst (SlotCases pid vpn i lru oldest (e ∷ es)) (sym p) (
                SlotCases-cons pid vpn i lru oldest lru oldest e es _ (used, miss)
                  (λ j. IsOldest-newer i lru oldest j e es (ground arith))
                  (find_slot-SlotCases pid vpn (suc i) lru oldest es))
        ]
      ]
    ]
