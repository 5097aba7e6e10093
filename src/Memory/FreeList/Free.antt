-- ===== src/Memory/FreeList/Free.antt =====
-- What a call of `Free` of pkg/memory/allocator.go comes to.
use os_simulator.Base.{
  Bool-cases, List, Option-cases, [], arith, false, if◌then◌else◌, inl, inr, none, refl, some,
  sub64, true, u64_mod, ℕ, ◌+◌, ◌<◌, ◌==◌, ◌∷◌, ◌≡◌, ◌≢◌, ◌⊎◌,
}
use os_simulator.Memory.FreeList.{
  AllocError, Allocator, Block, double_free, free, freed, not_found, refused, release,
  release_after, release_here,
}
use os_simulator.Memory.FreeList.Heap.{
  IsCoalesced, IsWellFormed, StartsAllocated, Tiles, live, live_before, live_inside, used, used-le,
}
use os_simulator.Memory.FreeList.Merging.{Frees, release_here-Frees, release_here-Frees_prev}

Frees-cons :
    (start end addr m : ℕ) (p : Block) (bs bs' : List Block)
    → (p.addr ≡ start)
    → (0 < p.size)
    → p.addr ≢ addr
    → (p.is_allocated ≡ false → StartsAllocated bs')
    → Frees (start + p.size) end addr m bs bs'
    → Frees start end addr m (p ∷ bs) (p ∷ bs')
unfolding live
Frees-cons start end addr m p bs bs' here filled ne closed f = record {
  tiled = (here, filled, f.tiled);
  coalesced = (closed, f.coalesced);
  less_used = omega (arith, f.less_used);
  removed = λ q. ground (arith, f.removed q);
}

module _ (addr end : ℕ) (fit : end < u64_mod) where
  release_after-Frees :
      (start m : ℕ) (p : Block) (bs : List Block)
      → Tiles start end (p ∷ bs)
      → IsCoalesced (p ∷ bs)
      → live addr bs ≡ some m
      → (bs' : List Block) × (release_after addr p bs ≡ freed m bs')
        × Frees start end addr m (p ∷ bs) bs'
        × (p.is_allocated ≡ true → StartsAllocated bs')
  unfolding release_after live
  release_after-Frees start m p [] t q h = cc
  release_after-Frees start m p (b ∷ bs) t q h = elim (Bool-cases (b.addr == addr)) [
    | inl hit ↦ elim (Bool-cases b.is_allocated) [
      | inl al ↦
          let (bs', e, f, s) = release_here-Frees_prev start end p b bs fit al t q in
          let size : b.size ≡ m = ground arith in
          let here : b.addr ≡ addr = ground arith in
          (bs', ground (arith, e), rw (← here, ← size) f, s)
      | inr un ↦ absurd (ground (arith, live_before (start + p.size + b.size) end addr bs t.2.2))
    ]
    | inr miss ↦
        let h' : live addr (b ∷ bs) ≡ some m = h in
        let rest : live addr bs ≡ some m = ground arith in
        let (bs', e, f, s) = release_after-Frees (start + p.size) m b bs t.2 q.1 rest in
        let inside = live_inside (start + p.size) end addr m (b ∷ bs) t.2 h' in
        (
          p ∷ bs',
          ground (arith, e),
          Frees-cons start end addr m p (b ∷ bs) bs' t.0 t.1 (λ x. omega (arith, inside, t.0, t.1))
              (λ un. s (q.0 un)) f,
          λ al. al,
        )
  ]

  release-Frees :
      (start m : ℕ) (bs : List Block)
      → Tiles start end bs
      → IsCoalesced bs
      → live addr bs ≡ some m
      → (bs' : List Block) × (release addr bs ≡ freed m bs') × Frees start end addr m bs bs'
  unfolding release live
  release-Frees start m [] t q h = cc
  release-Frees start m (b ∷ bs) t q h = elim (Bool-cases (b.addr == addr)) [
    | inl hit ↦ elim (Bool-cases b.is_allocated) [
      | inl al ↦
          let (bs', e, f) = release_here-Frees start end b bs fit al t q in
          let size : b.size ≡ m = ground arith in
          let here : b.addr ≡ addr = ground arith in (bs', ground (arith, e), rw (← here, ← size) f)
      | inr un ↦ absurd (ground (arith, live_before (start + b.size) end addr bs t.2))
    ]
    | inr miss ↦
        let rest : live addr bs ≡ some m = ground arith in
        let (bs', e, f, s) = release_after-Frees start m b bs t q rest in
        (bs', ground (arith, e), f)
  ]

  -- Where nothing is allocated at the address, the walk ends in an error.
  release_after_refused :
      (p : Block) (bs : List Block)
      → live addr bs ≡ none
      → (e : AllocError) × (release_after addr p bs ≡ refused e)
  unfolding release_after release_here live
  release_after_refused p [] h = (not_found, refl)
  release_after_refused p (b ∷ bs) h = elim (Bool-cases (b.addr == addr)) [
    | inl hit ↦ (double_free, ground arith)
    | inr miss ↦ let (e, r) = release_after_refused b bs (ground arith) in (e, ground (arith, r))
  ]

  release_refused :
      (bs : List Block) → live addr bs ≡ none → (e : AllocError) × (release addr bs ≡ refused e)
  unfolding release release_here live
  release_refused [] h = (not_found, refl)
  release_refused (b ∷ bs) h = elim (Bool-cases (b.addr == addr)) [
    | inl hit ↦ (double_free, ground arith)
    | inr miss ↦ let (e, r) = release_after_refused b bs (ground arith) in (e, ground (arith, r))
  ]

-- What `Free` may come to: the allocated block at the address is given back, or there is none.
abbrev pub FreeCases : Allocator → ℕ → Type 0
FreeCases a addr =
    ((m : ℕ) × (a' : Allocator) × (live addr a.blocks ≡ some m)
      × (free a addr ≡ (a', none))
      × IsWellFormed a'
      × ((q : ℕ) → live q a'.blocks ≡ (if addr == q then none else live q a.blocks))
      × (a'.allocated_bytes + m ≡ a.allocated_bytes)
      × (a' ≡ record a { blocks = a'.blocks; allocated_bytes = a'.allocated_bytes }))
    ⊎ ((e : AllocError) × (live addr a.blocks ≡ none) × (free a addr ≡ (a, some e)))

-- On a well-formed heap `Free` of an address where a block is allocated succeeds: the heap stays
-- well formed and coalesced, exactly that block is given back, and the byte count falls by its
-- size. `Free` of any other address is an error and changes nothing.
pub free_cases : (a : Allocator) (addr : ℕ) → IsWellFormed a → FreeCases a addr
unfolding free
free_cases a addr w = elim (Option-cases (live addr a.blocks)) [
  | inl gone ↦
      let (e, r) = release_refused addr end fit a.blocks gone in inr (e, gone, ground (arith, r))
  | inr (m, h) ↦
      let (bs', r, f) = release-Frees addr end fit a.heap_start m a.blocks w.tiled w.coalesced h in
      let small = used-le a.heap_start end a.blocks w.tiled in
      let less : sub64 a.allocated_bytes m ≡ used bs' =
        omega (arith, f.less_used, w.counted, small, fit) in
      inl (
        m,
        record a { blocks = bs'; allocated_bytes = sub64 a.allocated_bytes m },
        h,
        ground (arith, r),
        record {
          in_memory = w.in_memory;
          tiled = f.tiled;
          coalesced = f.coalesced;
          counted = less;
        },
        f.removed,
        omega (arith, less, f.less_used, w.counted),
        refl,
      )
]
  where
    end : ℕ
    end = a.heap_start + a.total_size

    fit : end < u64_mod
    fit = omega (arith, w.in_memory)
