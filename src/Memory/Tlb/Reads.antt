-- ===== src/Memory/Tlb/Reads.antt =====
-- What `Lookup` of pkg/memory/tlb.go finds after an `Insert`.
use os_simulator.Base.{
  All, Bool, List, Option, [], ap, arith, false, get_elem?-lt_length, if◌then◌else◌, inl, inr,
  length, length-set, none, refl, returns, set, some, suc, true, zero, ℕ, ◌+◌, ◌<◌, ◌∙◌, ◌∷◌, ◌≡◌,
}
use os_simulator.Memory.Tlb.{
  Tlb, TlbEntry, find_match, fresh_entry, insert, is_match, lookup, refresh,
}
use os_simulator.Memory.Tlb.Slots.{
  IsFirstFree, IsFirstMatch, IsOldest, IsTaken, find_slot-SlotCases,
}

-- What the buffer says of a page: the frame of the first valid entry for it.
unfoldable pub cached : ℕ → ℕ → List TlbEntry → Option ℕ
cached pid vpn [] = none
cached pid vpn (e ∷ es) =
    let rest = cached pid vpn es in if is_match pid vpn e then some e.pfn else rest

-- What a call of `Lookup` returns for such a cached frame.
abbrev pub reply : Option ℕ → ℕ × Bool
reply none = (0, false)
reply (some frame) = (frame, true)

abbrev frame_of : Option (ℕ × ℕ) → Option ℕ
frame_of none = none
frame_of (some (i, frame)) = some frame

find_match-cached :
    (pid vpn i : ℕ) (es : List TlbEntry) → frame_of (find_match pid vpn i es) ≡ cached pid vpn es
unfolding find_match cached
find_match-cached pid vpn i [] = refl
find_match-cached pid vpn i (e ∷ es) = ground (arith, find_match-cached pid vpn (suc i) es)

pub lookup-cached :
    (t : Tlb) (pid vpn : ℕ) → (lookup t pid vpn).1 ≡ (reply (cached pid vpn t.entries)).0
unfolding lookup
lookup-cached t pid vpn = ground (arith, find_match-cached pid vpn 0 t.entries)

pub lookup-cached_found :
    (t : Tlb) (pid vpn : ℕ) → (lookup t pid vpn).2 ≡ (reply (cached pid vpn t.entries)).1
unfolding lookup
lookup-cached_found t pid vpn = ground (arith, find_match-cached pid vpn 0 t.entries)

module _ (pid vpn frame : ℕ) (writable : Bool) (tick : ℕ) where
  abbrev new : TlbEntry
  new = fresh_entry pid vpn frame writable tick

  new-match : is_match pid vpn new ≡ true
  new-match = ground arith

  pub cached-set_free :
      (k : ℕ) (es : List TlbEntry)
      → IsFirstFree pid vpn k es
      → cached pid vpn (set es k new) ≡ some frame
  unfolding cached
  cached-set_free zero (e ∷ es) f = ground arith
  cached-set_free (suc k) (e ∷ es) f = ground (arith, cached-set_free k es f.1)
  cached-set_free k [] f = absurd f

  pub cached-refresh :
      (k : ℕ) (es : List TlbEntry)
      → IsFirstMatch pid vpn k es
      → cached pid vpn (refresh frame writable tick k es) ≡ some frame
  unfolding cached refresh
  cached-refresh zero (e ∷ es) f = ground arith
  cached-refresh (suc k) (e ∷ es) f = ground (arith, cached-refresh k es f.1)
  cached-refresh k [] f = absurd f

  pub cached-set_taken :
      (k : ℕ) (es : List TlbEntry)
      → All (IsTaken pid vpn) es
      → k < length es
      → cached pid vpn (set es k new) ≡ some frame
  unfolding cached
  cached-set_taken k [] a h = absurd (omega arith)
  cached-set_taken zero (e ∷ es) a h = ground arith
  cached-set_taken (suc k) (e ∷ es) a h = ground (arith, cached-set_taken k es a.1)

pub length-refresh :
    (frame : ℕ) (writable : Bool) (tick k : ℕ) (es : List TlbEntry)
    → length (refresh frame writable tick k es) ≡ length es
unfolding refresh
length-refresh frame writable tick k [] = refl
length-refresh frame writable tick zero (e ∷ es) = refl
length-refresh frame writable tick (suc k) (e ∷ es) =
    ap suc (length-refresh frame writable tick k es)

pub IsOldest-lt_length :
    (oldest : ℕ) (es : List TlbEntry) (j : ℕ)
    → 0 < length es
    → IsOldest 0 0 oldest es j
    → j < length es
IsOldest-lt_length oldest es j h (inl (p, a)) = omega arith
IsOldest-lt_length oldest es j h (inr (k, e, p, q, r, a)) =
    omega (arith, get_elem?-lt_length es k e q)

-- `Insert` returns a buffer of the same size that caches the page.
pub insert-cached :
    (t : Tlb) (pid vpn frame : ℕ) (writable : Bool)
    → 0 < length t.entries
    → (t' : Tlb) × (insert t pid vpn frame writable ≡ returns t')
      × (length t'.entries ≡ length t.entries)
      × (cached pid vpn t'.entries ≡ some frame)
unfolding insert
insert-cached t pid vpn frame writable h = elim (find_slot-SlotCases pid vpn 0 0 (tick + 1) es) [
  | inl (k, p, f) ↦ (
    record t { access_tick = tick; entries = set es k entry },
    ground (arith, p),
    length-set es k entry,
    cached-set_free pid vpn frame writable tick k es f,
  )
  | inr (inl (k, p, f)) ↦ (
    record t { access_tick = tick; entries = refresh frame writable tick k es },
    ground (arith, p),
    length-refresh frame writable tick k es,
    cached-refresh pid vpn frame writable tick k es f,
  )
  | inr (inr (j, p, a, o)) ↦
      let inside = IsOldest-lt_length (tick + 1) es j h o in
      (
        record t { access_tick = tick; entries = set es j entry },
        ground (arith, p, inside),
        length-set es j entry,
        cached-set_taken pid vpn frame writable tick j es a inside,
      )
]
  where
    tick : ℕ
    tick = t.access_tick + 1

    es : List TlbEntry
    es = t.entries

    entry : TlbEntry
    entry = fresh_entry pid vpn frame writable tick

-- On a buffer with at least one entry `Insert` succeeds and keeps the number of entries, and a
-- `Lookup` of the same page is then a hit on the inserted frame.
pub lookup-insert :
    (t : Tlb) (pid vpn frame : ℕ) (writable : Bool)
    → 0 < length t.entries
    → (t' : Tlb) × (insert t pid vpn frame writable ≡ returns t')
      × (length t'.entries ≡ length t.entries)
      × ((lookup t' pid vpn).1 ≡ frame)
      × ((lookup t' pid vpn).2 ≡ true)
lookup-insert t pid vpn frame writable h =
    let (t', p, n, c) = insert-cached t pid vpn frame writable h in
    (
      t',
      p,
      n,
      lookup-cached t' pid vpn ∙ ap (λ r. (reply r).0) c,
      lookup-cached_found t' pid vpn ∙ ap (λ r. (reply r).1) c,
    )
