-- ===== src/Memory/FreeList/Merging.antt =====
-- What freeing a block and coalescing it with its neighbours in `Free` of
-- pkg/memory/allocator.go does to the list.
use os_simulator.Base.{
  Bool-cases, List, [], arith, false, if◌then◌else◌, inl, inr, none, refl, true, u64, u64_mod, ℕ,
  ◌+◌, ◌<◌, ◌==◌, ◌∷◌, ◌≡◌,
}
use os_simulator.Memory.FreeList.{Block, freed, map_blocks, merge_next, merge_prev, release_here}
use os_simulator.Memory.FreeList.Heap.{
  IsCoalesced, StartsAllocated, Tiles, Tiles-le, live, live_before, used,
}

-- The list once the block at `addr`, of `m` bytes, is free.
pub record Frees (start end addr m : ℕ) (bs bs' : List Block) : Type 0 where
  pub tiled : Tiles start end bs'
  pub coalesced : IsCoalesced bs'
  pub less_used : used bs' + m ≡ used bs
  pub removed : (q : ℕ) → live q bs' ≡ (if addr == q then none else live q bs)

-- The freed block `c` with what it swallowed, and the rest of the list.
record Opens (start end : ℕ) (b : Block) (bs : List Block) (c : Block) (rest : List Block)
    : Type 0 where
  merged : merge_next (record b { is_allocated = false }) bs ≡ c ∷ rest
  is_free : c.is_allocated ≡ false
  here : c.addr ≡ start
  filled : 0 < c.size
  tiled : Tiles (start + c.size) end rest
  closed : StartsAllocated rest
  coalesced : IsCoalesced rest
  less_used : used rest + b.size ≡ used (b ∷ bs)
  removed : (q : ℕ) → live q rest ≡ (if b.addr == q then none else live q (b ∷ bs))

merge_next-Opens :
    (start end : ℕ) (b : Block) (bs : List Block)
    → end < u64_mod
    → b.is_allocated ≡ true
    → Tiles start end (b ∷ bs)
    → IsCoalesced (b ∷ bs)
    → (c : Block) × (rest : List Block) × Opens start end b bs c rest
unfolding merge_next live
merge_next-Opens start end b [] fit al t q = (record b { is_allocated = false }, [], ground arith)
merge_next-Opens start end b (d ∷ ds) fit al t q = elim (Bool-cases d.is_allocated) [
  | inl used_next ↦ (
    record b { is_allocated = false },
    d ∷ ds,
    record {
      merged = ground arith;
      is_free = refl;
      here = t.0;
      filled = t.1;
      tiled = t.2;
      closed = used_next;
      coalesced = q.1;
      less_used = ground arith;
      removed = λ p. ground (arith, live_before (d.addr + d.size) end p ds (ground arith));
    },
  )
  | inr free_next ↦
      let far = Tiles-le (d.addr + d.size) end ds (ground arith) in
      let size : u64 (b.size + d.size) ≡ b.size + d.size = ground arith in
      let next : start + b.size + d.size ≡ start + u64 (b.size + d.size) = omega arith in
      (
        record b { is_allocated = false; size = u64 (b.size + d.size) },
        ds,
        record {
          merged = ground arith;
          is_free = refl;
          here = t.0;
          filled = omega (arith, t.1);
          tiled = rw (← next) t.2.2;
          closed = q.1.0 free_next;
          coalesced = q.1.1;
          less_used = ground arith;
          removed = λ p. ground (arith, live_before (d.addr + d.size) end p ds (ground arith));
        },
      )
]

-- The freed block at the head of the list.
pub release_here-Frees :
    (start end : ℕ) (b : Block) (bs : List Block)
    → end < u64_mod
    → b.is_allocated ≡ true
    → Tiles start end (b ∷ bs)
    → IsCoalesced (b ∷ bs)
    → (bs' : List Block) × (release_here b bs ≡ freed b.size bs')
      × Frees start end b.addr b.size (b ∷ bs) bs'
unfolding release_here live
release_here-Frees start end b bs fit al t q =
    let (c, rest, o) = merge_next-Opens start end b bs fit al t q in
    (
      c ∷ rest,
      ground (arith, o.merged),
      record {
        tiled = (o.here, o.filled, o.tiled);
        coalesced = ((λ _. o.closed), o.coalesced);
        less_used = ground (arith, o.is_free, o.less_used);
        removed = λ p. ground (arith, o.is_free, o.removed p);
      },
    )

-- The freed block with a block `p` before it.
pub release_here-Frees_prev :
    (start end : ℕ) (p b : Block) (bs : List Block)
    → end < u64_mod
    → b.is_allocated ≡ true
    → Tiles start end (p ∷ b ∷ bs)
    → IsCoalesced (p ∷ b ∷ bs)
    → (bs' : List Block) × (map_blocks (merge_prev p) (release_here b bs) ≡ freed b.size bs')
      × Frees start end b.addr b.size (p ∷ b ∷ bs) bs'
      × (p.is_allocated ≡ true → StartsAllocated bs')
unfolding release_here merge_prev live
release_here-Frees_prev start end p b bs fit al t q =
    let (c, rest, o) = merge_next-Opens (start + p.size) end b bs fit al t.2 q.1 in
    elim (Bool-cases p.is_allocated) [
      | inl used_prev ↦ (
        p ∷ c ∷ rest,
        ground (arith, o.merged),
        record {
          tiled = (t.0, t.1, (o.here, o.filled, o.tiled));
          coalesced = ((λ h. ground arith), ((λ _. o.closed), o.coalesced));
          less_used = ground (arith, o.is_free, o.less_used);
          removed = λ r. ground (arith, o.is_free, o.removed r);
        },
        λ _. used_prev,
      )
      | inr free_prev ↦
          let far = Tiles-le (start + p.size + c.size) end rest o.tiled in
          let size : u64 (p.size + c.size) ≡ p.size + c.size = omega arith in
          let next : start + p.size + c.size ≡ start + u64 (p.size + c.size) = omega arith in
          (
            record p { size = u64 (p.size + c.size) } ∷ rest,
            ground (arith, o.merged),
            record {
              tiled = (t.0, omega (arith, t.1), rw (← next) o.tiled);
              coalesced = ((λ _. o.closed), o.coalesced);
              less_used = ground (arith, o.less_used);
              removed = λ r. ground (arith, o.removed r);
            },
            λ h. ground arith,
          )
    ]
