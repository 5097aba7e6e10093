-- ===== src/Memory/Tlb/Insertion.antt =====
-- `Insert` of pkg/memory/tlb.go keeps the buffer well formed and invents no translation.
use os_simulator.Base.{
  All, Bool, List, [], arith, inl, inr, length-set, none, not, refl, returns, set, some, suc, sym,
  true, zero, ℕ, ◌&&◌, ◌+◌, ◌==◌, ◌∙◌, ◌∷◌, ◌≡◌, ◌≤◌,
}
use os_simulator.Memory.Tlb.{Tlb, TlbEntry, fresh_entry, insert, refresh}
use os_simulator.Memory.Tlb.Eviction.{IsTimed}
use os_simulator.Memory.Tlb.Slots.{IsFirstFree, IsFirstMatch, IsTaken, find_slot-SlotCases}
use os_simulator.Memory.Tlb.Reads.{
  IsOldest-lt_length, cached, cached-refresh, cached-set_free, cached-set_taken, length-refresh,
}
use os_simulator.Memory.Tlb.Invariant.{IsFree, IsPacked, IsTimed-later, IsUnique, IsWellFormed}

-- Two keys differ, as the code compares them.
abbrev pub is_other : ℕ → ℕ → ℕ → ℕ → Bool
is_other pid vpn p v = not (pid == p && vpn == v)

module _ (pid vpn frame : ℕ) (writable : Bool) (tick : ℕ) where
  abbrev new : TlbEntry
  new = fresh_entry pid vpn frame writable tick

  cached-set_free_other :
      (p v k : ℕ) (es : List TlbEntry)
      → is_other pid vpn p v ≡ true
      → IsFirstFree pid vpn k es
      → cached p v (set es k new) ≡ cached p v es
  unfolding cached
  cached-set_free_other p v k [] o f = absurd f
  cached-set_free_other p v zero (e ∷ es) o f = ground arith
  cached-set_free_other p v (suc k) (e ∷ es) o f =
      ground (arith, cached-set_free_other p v k es o f.1)

  cached-refresh_other :
      (p v k : ℕ) (es : List TlbEntry)
      → is_other pid vpn p v ≡ true
      → IsFirstMatch pid vpn k es
      → cached p v (refresh frame writable tick k es) ≡ cached p v es
  unfolding cached refresh
  cached-refresh_other p v k [] o f = absurd f
  cached-refresh_other p v zero (e ∷ es) o f = ground arith
  cached-refresh_other p v (suc k) (e ∷ es) o f =
      ground (arith, cached-refresh_other p v k es o f.1)

  cached-set-none :
      (p v k : ℕ) (es : List TlbEntry)
      → is_other pid vpn p v ≡ true
      → cached p v es ≡ none
      → cached p v (set es k new) ≡ none
  unfolding cached
  cached-set-none p v k [] o h = refl
  cached-set-none p v zero (e ∷ es) o h = ground arith
  cached-set-none p v (suc k) (e ∷ es) o h = ground (arith, cached-set-none p v k es o)

  cached-set_sound :
      (p v k : ℕ) (es : List TlbEntry) (found : ℕ)
      → is_other pid vpn p v ≡ true
      → IsUnique es
      → cached p v (set es k new) ≡ some found
      → cached p v es ≡ some found
  unfolding cached
  cached-set_sound p v k [] found o u h = h
  cached-set_sound p v zero (e ∷ es) found o u h = ground (arith, u.0)
  cached-set_sound p v (suc k) (e ∷ es) found o u h =
      ground (arith, cached-set_sound p v k es found o u.1)

  cached-free : (p v : ℕ) (es : List TlbEntry) → All IsFree es → cached p v es ≡ none
  unfolding cached
  cached-free p v [] a = refl
  cached-free p v (e ∷ es) a = ground (arith, cached-free p v es a.1)

  cached-taken : (es : List TlbEntry) → All (IsTaken pid vpn) es → cached pid vpn es ≡ none
  unfolding cached
  cached-taken [] a = refl
  cached-taken (e ∷ es) a = ground (arith, cached-taken es a.1)

  -- A taken entry is for another page.
  taken_other : (e : TlbEntry) → IsTaken pid vpn e → is_other pid vpn e.asid e.vpn ≡ true
  taken_other e t = ground arith

  IsUnique-set_free :
      (k : ℕ) (es : List TlbEntry)
      → IsFirstFree pid vpn k es
      → IsPacked es
      → IsUnique es
      → IsUnique (set es k new)
  IsUnique-set_free k [] f q u = absurd f
  IsUnique-set_free zero (e ∷ es) f q u = ((λ _. cached-free pid vpn es (q.0 f)), u.1)
  IsUnique-set_free (suc k) (e ∷ es) f q u = (
    (λ h. cached-set_free_other e.asid e.vpn k es (taken_other e f.0) f.1 ∙ u.0 h),
    IsUnique-set_free k es f.1 q.1 u.1,
  )

  IsUnique-refresh :
      (k : ℕ) (es : List TlbEntry)
      → IsFirstMatch pid vpn k es
      → IsUnique es
      → IsUnique (refresh frame writable tick k es)
  unfolding refresh
  IsUnique-refresh k [] f u = absurd f
  IsUnique-refresh zero (e ∷ es) f u = u
  IsUnique-refresh (suc k) (e ∷ es) f u = (
    (λ h. cached-refresh_other e.asid e.vpn k es (taken_other e f.0) f.1 ∙ u.0 h),
    IsUnique-refresh k es f.1 u.1,
  )

  IsUnique-set_taken :
      (k : ℕ) (es : List TlbEntry)
      → All (IsTaken pid vpn) es
      → IsUnique es
      → IsUnique (set es k new)
  IsUnique-set_taken k [] a u = tt
  IsUnique-set_taken zero (e ∷ es) a u = ((λ _. cached-taken es a.1), u.1)
  IsUnique-set_taken (suc k) (e ∷ es) a u = (
    (λ h. cached-set-none e.asid e.vpn k es (taken_other e a.0) (u.0 h)),
    IsUnique-set_taken k es a.1 u.1,
  )

  IsPacked-set_free :
      (k : ℕ) (es : List TlbEntry)
      → IsFirstFree pid vpn k es
      → IsPacked es
      → IsPacked (set es k new)
  IsPacked-set_free k [] f q = absurd f
  IsPacked-set_free zero (e ∷ es) f q = ((λ h. cc), q.1)
  IsPacked-set_free (suc k) (e ∷ es) f q =
      ((λ h. ground (arith, f.0.0)), IsPacked-set_free k es f.1 q.1)

  IsPacked-refresh :
      (k : ℕ) (es : List TlbEntry)
      → IsFirstMatch pid vpn k es
      → IsPacked es
      → IsPacked (refresh frame writable tick k es)
  unfolding refresh
  IsPacked-refresh k [] f q = absurd f
  IsPacked-refresh zero (e ∷ es) f q = q
  IsPacked-refresh (suc k) (e ∷ es) f q =
      ((λ h. ground (arith, f.0.0)), IsPacked-refresh k es f.1 q.1)

  IsPacked-set_taken :
      (k : ℕ) (es : List TlbEntry)
      → All (IsTaken pid vpn) es
      → IsPacked es
      → IsPacked (set es k new)
  IsPacked-set_taken k [] a q = tt
  IsPacked-set_taken zero (e ∷ es) a q = ((λ h. cc), q.1)
  IsPacked-set_taken (suc k) (e ∷ es) a q =
      ((λ h. ground (arith, a.0.0)), IsPacked-set_taken k es a.1 q.1)

IsTimed-set :
    (tick : ℕ) (e : TlbEntry) (k : ℕ) (es : List TlbEntry)
    → e.last_access ≤ tick
    → IsTimed tick es
    → IsTimed tick (set es k e)
IsTimed-set tick e k [] h a = tt
IsTimed-set tick e zero (f ∷ es) h a = (h, a.1)
IsTimed-set tick e (suc k) (f ∷ es) h a = (a.0, IsTimed-set tick e k es h a.1)

IsTimed-refresh :
    (tick frame : ℕ) (writable : Bool) (k : ℕ) (es : List TlbEntry)
    → IsTimed tick es
    → IsTimed tick (refresh frame writable tick k es)
unfolding refresh
IsTimed-refresh tick frame writable k [] a = tt
IsTimed-refresh tick frame writable zero (f ∷ es) a = (omega arith, a.1)
IsTimed-refresh tick frame writable (suc k) (f ∷ es) a =
    (a.0, IsTimed-refresh tick frame writable k es a.1)

-- The other pages after an `Insert`: what is cached of them was cached before, at the same frame.
abbrev pub OnlyKeeps : ℕ → ℕ → List TlbEntry → List TlbEntry → Type 0
OnlyKeeps pid vpn es es' =
    (p v found : ℕ)
    → is_other pid vpn p v ≡ true
    → cached p v es' ≡ some found
    → cached p v es ≡ some found

-- `Insert` into a well-formed buffer succeeds; the buffer stays well formed, and every other page
-- that it still caches it cached before, at the same frame.
pub insert-IsWellFormed :
    (t : Tlb) (pid vpn frame : ℕ) (writable : Bool)
    → IsWellFormed t
    → (t' : Tlb) × (insert t pid vpn frame writable ≡ returns t')
      × IsWellFormed t'
      × (cached pid vpn t'.entries ≡ some frame)
      × OnlyKeeps pid vpn t.entries t'.entries
unfolding insert
insert-IsWellFormed t pid vpn frame writable w =
    elim (find_slot-SlotCases pid vpn 0 0 (tick + 1) es) [
      | inl (k, p, f) ↦ (
        record t { access_tick = tick; entries = set es k entry },
        ground (arith, p),
        record {
          sized = length-set es k entry ∙ w.sized;
          inhabited = w.inhabited;
          packed = IsPacked-set_free pid vpn frame writable tick k es f w.packed;
          unique = IsUnique-set_free pid vpn frame writable tick k es f w.packed w.unique;
          timed = IsTimed-set tick entry k es (omega arith) later;
        },
        cached-set_free pid vpn frame writable tick k es f,
        λ a b found o h. sym (cached-set_free_other pid vpn frame writable tick a b k es o f) ∙ h,
      )
      | inr (inl (k, p, f)) ↦ (
        record t { access_tick = tick; entries = refresh frame writable tick k es },
        ground (arith, p),
        record {
          sized = length-refresh frame writable tick k es ∙ w.sized;
          inhabited = w.inhabited;
          packed = IsPacked-refresh pid vpn frame writable tick k es f w.packed;
          unique = IsUnique-refresh pid vpn frame writable tick k es f w.unique;
          timed = IsTimed-refresh tick frame writable k es later;
        },
        cached-refresh pid vpn frame writable tick k es f,
        λ a b found o h. sym (cached-refresh_other pid vpn frame writable tick a b k es o f) ∙ h,
      )
      | inr (inr (j, p, a, o)) ↦
          let inside = IsOldest-lt_length (tick + 1) es j (omega (arith, w.sized, w.inhabited)) o in
          (
            record t { access_tick = tick; entries = set es j entry },
            ground (arith, p, inside),
            record {
              sized = length-set es j entry ∙ w.sized;
              inhabited = w.inhabited;
              packed = IsPacked-set_taken pid vpn frame writable tick j es a w.packed;
              unique = IsUnique-set_taken pid vpn frame writable tick j es a w.unique;
              timed = IsTimed-set tick entry j es (omega arith) later;
            },
            cached-set_taken pid vpn frame writable tick j es a inside,
            λ b c found q h.
                cached-set_sound pid vpn frame writable tick b c j es found q w.unique h,
          )
    ]
  where
    tick : ℕ
    tick = t.access_tick + 1

    es : List TlbEntry
    es = t.entries

    entry : TlbEntry
    entry = fresh_entry pid vpn frame writable tick

    later : IsTimed tick es
    later = IsTimed-later es t.access_tick w.timed
