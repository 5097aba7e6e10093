-- ===== src/Memory/Tlb/History.antt =====
-- The TLB of pkg/memory/tlb.go against the history of its calls.
use os_simulator.Base.{
  All, Bool, List, Option, Outcome, [], ap, arith, if◌then◌else◌, length, none, not, refl,
  replicate, returns, some, suc, sym, true, zero, ℕ, ◌>>=◌, ◌∙◌, ◌∷◌, ◌≡◌,
}
use os_simulator.Memory.Tlb.{
  Tlb, TlbEntry, flush, flush_entries, insert, lookup, new_tlb, no_tlb_entry,
}
use os_simulator.Memory.Tlb.Reads.{cached, lookup-cached, lookup-cached_found}
use os_simulator.Memory.Tlb.Invariant.{
  IsFree, IsPacked, IsUnique, IsWellFormed, lookup-IsWellFormed, lookup-keeps_cached,
  new_tlb-IsWellFormed,
}
use os_simulator.Memory.Tlb.Eviction.{IsTimed}
use os_simulator.Memory.Tlb.Insertion.{insert-IsWellFormed, is_other}

pub data Call : Type 0 where
  looks_up : ℕ → ℕ → Call
  inserts : ℕ → ℕ → ℕ → Bool → Call
  flushes : Call

unfoldable pub step : Tlb → Call → Outcome Tlb
step t (looks_up pid vpn) = returns (lookup t pid vpn).0
step t (inserts pid vpn frame writable) = insert t pid vpn frame writable
step t flushes = returns (flush t)

-- The calls made so far, the newest first, on a new buffer.
unfoldable pub run : ℕ → List Call → Outcome Tlb
run capacity [] = returns (new_tlb capacity)
run capacity (c ∷ cs) = run capacity cs >>= λ t. step t c

-- The specification: the frame inserted last for a page since the last flush.
unfoldable pub latest : ℕ → ℕ → List Call → Option ℕ
latest p v [] = none
latest p v (looks_up pid vpn ∷ cs) = latest p v cs
latest p v (inserts pid vpn frame writable ∷ cs) =
    let older = latest p v cs in if not (is_other pid vpn p v) then some frame else older
latest p v (flushes ∷ cs) = none

length-flush_entries : (es : List TlbEntry) → length (flush_entries es) ≡ length es
unfolding flush_entries
length-flush_entries [] = refl
length-flush_entries (e ∷ es) = ap suc (length-flush_entries es)

All-IsFree-flush_entries : (es : List TlbEntry) → All IsFree (flush_entries es)
unfolding flush_entries
All-IsFree-flush_entries [] = tt
All-IsFree-flush_entries (e ∷ es) = (refl, All-IsFree-flush_entries es)

IsPacked-free : (es : List TlbEntry) → All IsFree es → IsPacked es
IsPacked-free [] a = tt
IsPacked-free (e ∷ es) a = ((λ _. a.1), IsPacked-free es a.1)

IsUnique-free : (es : List TlbEntry) → All IsFree es → IsUnique es
IsUnique-free [] a = tt
IsUnique-free (e ∷ es) a = ((λ h. ground (arith, a.0)), IsUnique-free es a.1)

IsTimed-flush_entries :
    (tick : ℕ) (es : List TlbEntry) → IsTimed tick es → IsTimed tick (flush_entries es)
unfolding flush_entries
IsTimed-flush_entries tick [] a = tt
IsTimed-flush_entries tick (e ∷ es) a = (a.0, IsTimed-flush_entries tick es a.1)

flush-IsWellFormed : (t : Tlb) → IsWellFormed t → IsWellFormed (flush t)
unfolding flush
flush-IsWellFormed t w = record {
  sized = length-flush_entries t.entries ∙ w.sized;
  inhabited = w.inhabited;
  packed = IsPacked-free _ (All-IsFree-flush_entries t.entries);
  unique = IsUnique-free _ (All-IsFree-flush_entries t.entries);
  timed = IsTimed-flush_entries _ t.entries w.timed;
}

cached-flush_entries : (p v : ℕ) (es : List TlbEntry) → cached p v (flush_entries es) ≡ none
unfolding cached flush_entries
cached-flush_entries p v [] = refl
cached-flush_entries p v (e ∷ es) = ground (arith, cached-flush_entries p v es)

cached-new_tlb : (p v n : ℕ) → cached p v (replicate n no_tlb_entry) ≡ none
unfolding cached
cached-new_tlb p v zero = refl
cached-new_tlb p v (suc n) = ground (arith, cached-new_tlb p v n)

-- What the buffer caches of any page is the frame inserted for it last.
abbrev IsSound : List Call → Tlb → Type 0
IsSound cs t = (p v found : ℕ) → cached p v t.entries ≡ some found → latest p v cs ≡ some found

step-IsSound :
    (cs : List Call) (t : Tlb) (c : Call)
    → IsWellFormed t
    → IsSound cs t
    → (t' : Tlb) × (step t c ≡ returns t') × IsWellFormed t' × IsSound (c ∷ cs) t'
unfolding step latest
step-IsSound cs t (looks_up pid vpn) w s = (
  (lookup t pid vpn).0,
  refl,
  lookup-IsWellFormed t pid vpn w,
  λ p v found h. s p v found (sym (lookup-keeps_cached t pid vpn p v) ∙ h),
)
step-IsSound cs t (inserts pid vpn frame writable) w s =
    let (t', p, w', c, o) = insert-IsWellFormed t pid vpn frame writable w in
    (t', p, w', λ a v found h. ground (arith, o a v found, s a v found, c, h))
step-IsSound cs t flushes w s = (
  flush t,
  refl,
  flush-IsWellFormed t w,
  λ p v found h. unfold flush in ground (arith, cached-flush_entries p v t.entries),
)

run-IsSound :
    (capacity : ℕ) (cs : List Call)
    → (t : Tlb) × (run capacity cs ≡ returns t) × IsWellFormed t × IsSound cs t
unfolding run
run-IsSound capacity [] = (
  new_tlb capacity,
  refl,
  new_tlb-IsWellFormed capacity,
  λ p v found h. unfold new_tlb in ground (arith, cached-new_tlb p v (new_tlb capacity).capacity),
)
run-IsSound capacity (c ∷ cs) =
    let (t, p, w, s) = run-IsSound capacity cs in
    let (t', q, w', s') = step-IsSound cs t c w s in (t', rw p q, w', s')

-- From a new buffer of any capacity every history of lookups, insertions and flushes runs without a
-- panic, and then a lookup that hits returns the frame inserted last for that page since the last
-- flush: no entry is ever stale or belongs to another page or address space.
pub lookup-run :
    (capacity : ℕ) (cs : List Call) (pid vpn : ℕ)
    → (t : Tlb) × (run capacity cs ≡ returns t)
      × IsWellFormed t
      × ((lookup t pid vpn).2 ≡ true → latest pid vpn cs ≡ some (lookup t pid vpn).1)
lookup-run capacity cs pid vpn =
    let (t, p, w, s) = run-IsSound capacity cs in
    (
      t,
      p,
      w,
      λ h. ground (
        arith,
        s pid vpn (lookup t pid vpn).1,
        lookup-cached t pid vpn,
        lookup-cached_found t pid vpn,
      ),
    )
