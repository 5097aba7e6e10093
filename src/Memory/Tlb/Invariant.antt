-- ===== src/Memory/Tlb/Invariant.antt =====
-- What holds of the buffer of pkg/memory/tlb.go between two calls.
use os_simulator.Base.{
  All, List, Option-cases, [], ap, arith, false, inl, inr, length, length-replicate, none, refl,
  replicate, suc, true, zero, ℕ, ◌+◌, ◌<◌, ◌∙◌, ◌∷◌, ◌≡◌,
}
use os_simulator.Memory.Tlb.{Tlb, TlbEntry, find_match, lookup, new_tlb, no_tlb_entry, stamp}
use os_simulator.Memory.Tlb.Eviction.{IsTimed}
use os_simulator.Memory.Tlb.Reads.{cached}

abbrev pub IsFree : TlbEntry → Type 0
IsFree e = e.valid ≡ false

-- The free slots stand behind the used ones.
abbrev pub IsPacked : List TlbEntry → Type 0
IsPacked [] = Unit
IsPacked (e ∷ es) = (e.valid ≡ false → All IsFree es) × IsPacked es

-- No page is cached twice.
abbrev pub IsUnique : List TlbEntry → Type 0
IsUnique [] = Unit
IsUnique (e ∷ es) = (e.valid ≡ true → cached e.asid e.vpn es ≡ none) × IsUnique es

pub record IsWellFormed (t : Tlb) : Type 0 where
  pub sized : length t.entries ≡ t.capacity
  pub inhabited : 0 < t.capacity
  pub packed : IsPacked t.entries
  pub unique : IsUnique t.entries
  pub timed : IsTimed t.access_tick t.entries

All-replicate {ℓ κ} : {A : Type ℓ} (P : A → Type κ) (a : A) → P a → (n : ℕ) → All P (replicate n a)
All-replicate P a h zero = tt
All-replicate P a h (suc n) = (h, All-replicate P a h n)

IsPacked-replicate : (n : ℕ) → IsPacked (replicate n no_tlb_entry)
IsPacked-replicate zero = tt
IsPacked-replicate (suc n) = ((λ h. All-replicate IsFree no_tlb_entry refl n), IsPacked-replicate n)

IsUnique-replicate : (n : ℕ) → IsUnique (replicate n no_tlb_entry)
IsUnique-replicate zero = tt
IsUnique-replicate (suc n) = ((λ h. cc), IsUnique-replicate n)

pub new_tlb-IsWellFormed : (wanted : ℕ) → IsWellFormed (new_tlb wanted)
unfolding new_tlb
new_tlb-IsWellFormed wanted = record {
  sized = length-replicate _ no_tlb_entry;
  inhabited = ground arith;
  packed = IsPacked-replicate _;
  unique = IsUnique-replicate _;
  timed = All-replicate _ no_tlb_entry (omega arith) _;
}

-- `Lookup` changes only the time of an entry.
cached-stamp : (p v tick k : ℕ) (es : List TlbEntry) → cached p v (stamp tick k es) ≡ cached p v es
unfolding cached stamp
cached-stamp p v tick k [] = refl
cached-stamp p v tick zero (e ∷ es) = refl
cached-stamp p v tick (suc k) (e ∷ es) = ground (arith, cached-stamp p v tick k es)

All-IsFree-stamp : (tick k : ℕ) (es : List TlbEntry) → All IsFree es → All IsFree (stamp tick k es)
unfolding stamp
All-IsFree-stamp tick k [] a = tt
All-IsFree-stamp tick zero (e ∷ es) a = a
All-IsFree-stamp tick (suc k) (e ∷ es) a = (a.0, All-IsFree-stamp tick k es a.1)

IsPacked-stamp : (tick k : ℕ) (es : List TlbEntry) → IsPacked es → IsPacked (stamp tick k es)
unfolding stamp
IsPacked-stamp tick k [] a = tt
IsPacked-stamp tick zero (e ∷ es) a = a
IsPacked-stamp tick (suc k) (e ∷ es) a =
    ((λ h. All-IsFree-stamp tick k es (a.0 h)), IsPacked-stamp tick k es a.1)

IsUnique-stamp : (tick k : ℕ) (es : List TlbEntry) → IsUnique es → IsUnique (stamp tick k es)
unfolding stamp
IsUnique-stamp tick k [] a = tt
IsUnique-stamp tick zero (e ∷ es) a = a
IsUnique-stamp tick (suc k) (e ∷ es) a =
    ((λ h. cached-stamp e.asid e.vpn tick k es ∙ a.0 h), IsUnique-stamp tick k es a.1)

pub IsTimed-later : (es : List TlbEntry) (tick : ℕ) → IsTimed tick es → IsTimed (tick + 1) es
IsTimed-later [] tick a = tt
IsTimed-later (e ∷ es) tick a = (omega arith, IsTimed-later es tick a.1)

IsTimed-stamp :
    (es : List TlbEntry) (tick k : ℕ) → IsTimed tick es → IsTimed (tick + 1) (stamp (tick + 1) k es)
unfolding stamp
IsTimed-stamp [] tick k a = tt
IsTimed-stamp (e ∷ es) tick zero a = (omega arith, IsTimed-later es tick a.1)
IsTimed-stamp (e ∷ es) tick (suc k) a = (omega arith, IsTimed-stamp es tick k a.1)

length-stamp : (tick k : ℕ) (es : List TlbEntry) → length (stamp tick k es) ≡ length es
unfolding stamp
length-stamp tick k [] = refl
length-stamp tick zero (e ∷ es) = refl
length-stamp tick (suc k) (e ∷ es) = ap suc (length-stamp tick k es)

pub lookup-IsWellFormed :
    (t : Tlb) (pid vpn : ℕ) → IsWellFormed t → IsWellFormed (lookup t pid vpn).0
unfolding lookup
lookup-IsWellFormed t pid vpn w = elim (Option-cases (find_match pid vpn 0 t.entries)) [
  | inl miss ↦
      rw (miss, lookup)
        (record {
          sized = w.sized;
          inhabited = w.inhabited;
          packed = w.packed;
          unique = w.unique;
          timed = IsTimed-later t.entries _ w.timed;
        })
  | inr ((i, frame), hit) ↦
      rw (hit, lookup)
        (record {
          sized = length-stamp _ i t.entries ∙ w.sized;
          inhabited = w.inhabited;
          packed = IsPacked-stamp _ i t.entries w.packed;
          unique = IsUnique-stamp _ i t.entries w.unique;
          timed = IsTimed-stamp t.entries _ i w.timed;
        })
]

-- A lookup forgets nothing that is cached.
pub lookup-keeps_cached :
    (t : Tlb) (pid vpn p v : ℕ) → cached p v (lookup t pid vpn).0.entries ≡ cached p v t.entries
unfolding lookup
lookup-keeps_cached t pid vpn p v = elim (Option-cases (find_match pid vpn 0 t.entries)) [
  | inl miss ↦ rw (miss, lookup) refl
  | inr ((i, frame), hit) ↦ rw (hit, lookup) (cached-stamp p v _ i t.entries)
]
