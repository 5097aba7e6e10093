-- ===== src/Memory/Tlb/Eviction.antt =====
-- Which entry `Insert` of pkg/memory/tlb.go gives up.
use os_simulator.Base.{
  All, Bool, List, [], ap, arith, get_elem?, get_elem?-lt_length, inl, inr, length, returns, set,
  some, suc, zero, ℕ, ◌+◌, ◌<◌, ◌∙◌, ◌∷◌, ◌≡◌, ◌≤◌,
}
use os_simulator.Memory.Tlb.{Tlb, TlbEntry, evict_at, find_slot, fresh_entry, insert}
use os_simulator.Memory.Tlb.Slots.{IsFirstFree, IsFirstMatch, IsTaken, find_slot-SlotCases}

-- No entry was used after the buffer's clock.
abbrev pub IsTimed : ℕ → List TlbEntry → Type 0
IsTimed tick = All (λ e. e.last_access ≤ tick)

-- A buffer that is full of other pages loses the entry used least recently, and no other.
pub insert_evicts_oldest :
    (t : Tlb) (pid vpn frame : ℕ) (writable : Bool)
    → 0 < length t.entries
    → All (IsTaken pid vpn) t.entries
    → IsTimed t.access_tick t.entries
    → (k : ℕ) × (e : TlbEntry) × (get_elem? t.entries k ≡ some e)
      × All (λ f. e.last_access ≤ f.last_access) t.entries
      × (insert t pid vpn frame writable
          ≡ returns (record t {
            access_tick = t.access_tick + 1;
            entries = set t.entries k (fresh_entry pid vpn frame writable (t.access_tick + 1));
          }))
unfolding insert
insert_evicts_oldest t pid vpn frame writable h full timed =
    elim (find_slot-SlotCases pid vpn 0 0 (tick + 1) es) [
      | inl (k, p, f) ↦ absurd (not_free k es full f)
      | inr (inl (k, p, f)) ↦ absurd (not_matched k es full f)
      | inr (inr (j, p, a, inl (q, old))) ↦ absurd (not_newer es h timed old)
      | inr (inr (j, p, a, inr (k, e, q, r, lt, old))) ↦
          let inside = get_elem?-lt_length es k e r in
          let q' : find_slot pid vpn 0 0 (tick + 1) es ≡ evict_at k =
            p ∙ ap evict_at (omega arith) in
          (k, e, r, old, ground (arith, q', inside))
    ]
  where
    tick : ℕ
    tick = t.access_tick + 1

    es : List TlbEntry
    es = t.entries

    not_free : (k : ℕ) (l : List TlbEntry) → All (IsTaken pid vpn) l → IsFirstFree pid vpn k l → ⊥
    not_free k [] a f = f
    not_free zero (e ∷ l) a f = ground (arith, a.0.0)
    not_free (suc k) (e ∷ l) a f = not_free k l a.1 f.1

    not_matched :
        (k : ℕ) (l : List TlbEntry) → All (IsTaken pid vpn) l → IsFirstMatch pid vpn k l → ⊥
    not_matched k [] a f = f
    not_matched zero (e ∷ l) a f = ground (arith, a.0.1)
    not_matched (suc k) (e ∷ l) a f = not_matched k l a.1 f.1

    not_newer :
        (l : List TlbEntry)
        → 0 < length l
        → IsTimed t.access_tick l
        → All (λ f. tick + 1 ≤ f.last_access) l
        → ⊥
    not_newer [] n a b = omega arith
    not_newer (e ∷ l) n a b = omega arith
