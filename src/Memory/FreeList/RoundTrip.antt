-- ===== src/Memory/FreeList/RoundTrip.antt =====
-- `Malloc` and `Free` of pkg/memory/allocator.go together.
use mathlib.Core.Path.{ap₂, subst₂}
use os_simulator.Base.{
  Bool, Bool-cases, List, Option, [], ap, arith, if◌then◌else◌, inl, inr, ltb, ltb→lt, none, refl,
  some, sym, ℕ, ◌+◌, ◌<◌, ◌∙◌, ◌∷◌, ◌≡◌,
}
use os_simulator.Memory.FreeList.{AllocError, Allocator, Block, free, malloc, out_of_memory}
use os_simulator.Memory.FreeList.Heap.{
  IsCoalesced, IsWellFormed, StartsAllocated, Tiles, Tiles-le, live, live_before,
}
use os_simulator.Memory.FreeList.Malloc.{Grants, malloc_cases}
use os_simulator.Memory.FreeList.Free.{free_cases}

-- Two lists say the same of every address.
abbrev SameLive : List Block → List Block → Type 0
SameLive bs cs = (q : ℕ) → live q bs ≡ live q cs

Block-eq :
    (b c : Block) → b.addr ≡ c.addr → b.size ≡ c.size → b.is_allocated ≡ c.is_allocated → b ≡ c
Block-eq b c p q r = λ i. record { addr = p i; size = q i; is_allocated = r i }

live_head :
    (start end : ℕ) (b : Block) (bs : List Block)
    → Tiles start end (b ∷ bs)
    → live start (b ∷ bs) ≡ (if b.is_allocated then some b.size else none)
unfolding live
live_head start end b bs t = ground (arith, live_before (start + b.size) end start bs t.2)

-- Inside the first block nothing else is allocated.
live_in_head :
    (start end q : ℕ) (b : Block) (bs : List Block)
    → Tiles start end (b ∷ bs)
    → start < q
    → q < start + b.size
    → live q (b ∷ bs) ≡ none
unfolding live
live_in_head start end q b bs t h k = ground (arith, live_before (start + b.size) end q bs t.2)

live-cons_after :
    (start end q : ℕ) (b : Block) (bs : List Block)
    → Tiles start end (b ∷ bs)
    → start < q
    → live q (b ∷ bs) ≡ live q bs
unfolding live
live-cons_after start end q b bs t h = ground arith

-- A free first block ends where the next allocated block begins, or at the end of the heap.
free_head_not_shorter :
    (start end : ℕ) (b c : Block) (bs cs : List Block)
    → Tiles start end (b ∷ bs)
    → Tiles start end (c ∷ cs)
    → StartsAllocated bs
    → SameLive (b ∷ bs) (c ∷ cs)
    → ¬ (b.size < c.size)
free_head_not_shorter start end b c [] cs t u s same lt =
    omega (arith, t, Tiles-le (start + c.size) end cs u.2)
free_head_not_shorter start end b c (d ∷ ds) cs t u s same lt =
    let q : ℕ = start + b.size in
    let there = live_head q end d ds t.2 in
    let after = live-cons_after start end q b (d ∷ ds) t (omega (arith, t.1)) in
    let inside = live_in_head start end q c cs u (omega (arith, t.1)) (omega arith) in
    ground (arith, there, after, inside, same q, s)

-- The list of blocks is determined by what is allocated: it is a canonical form.
pub Tiles-canonical :
    (start end : ℕ) (bs cs : List Block)
    → Tiles start end bs
    → Tiles start end cs
    → IsCoalesced bs
    → IsCoalesced cs
    → SameLive bs cs
    → bs ≡ cs
Tiles-canonical start end [] [] t u k l same = refl
Tiles-canonical start end [] (c ∷ cs) t u k l same =
    absurd (omega (arith, t, u, Tiles-le (start + c.size) end cs u.2))
Tiles-canonical start end (b ∷ bs) [] t u k l same =
    absurd (omega (arith, t, u, Tiles-le (start + b.size) end bs t.2))
Tiles-canonical start end (b ∷ bs) (c ∷ cs) t u k l same =
    ap₂ ◌∷◌ head (Tiles-canonical (start + b.size) end bs cs t.2 (rw size u.2) k.1 l.1 λ q. rest q)
  where
    flag : b.is_allocated ≡ c.is_allocated
    flag = ground (arith, live_head start end b bs t, live_head start end c cs u, same start)

    size : b.size ≡ c.size
    size = elim (Bool-cases b.is_allocated) [
      | inl used_block ↦
          ground (arith, live_head start end b bs t, live_head start end c cs u, same start, flag)
      | inr free_block ↦ omega (
        arith,
        free_head_not_shorter start end b c bs cs t u (k.0 free_block) same,
        free_head_not_shorter start end c b cs bs u t (l.0 (sym flag ∙ free_block))
            λ q. sym (same q),
      )
    ]

    head : b ≡ c
    head = Block-eq b c (t.0 ∙ sym u.0) size flag

    rest : SameLive bs cs
    rest q = elim (Bool-cases (ltb start q)) [
      | inl after ↦
          sym (live-cons_after start end q b bs t (ltb→lt _ _ after))
          ∙ same q
          ∙ live-cons_after start end q c cs u (ltb→lt _ _ after)
      | inr before ↦
          live_before (start + b.size) end q bs t.2 (ground (arith, t.1))
          ∙ sym (live_before (start + c.size) end q cs u.2 (ground (arith, u.1)))
    ]

-- Giving back a granted block restores the list.
free-Grants :
    (a a' : Allocator) (n p m : ℕ)
    → IsWellFormed a
    → Grants a a' n p m
    → free a' p ≡ (record a { allocations_count = a.allocations_count + 1 }, none)
free-Grants a a' n p m w g = elim (free_cases a' p g.well_formed) [
  | inr (e, gone, r) ↦ absurd (ground (arith, g.placed p))
  | inl (k, c, there, r, v, removed, bytes, framed) ↦
      let size : m ≡ k = ground (arith, g.placed p) in
      let start : c.heap_start ≡ a.heap_start =
        ap (λ x. x.heap_start) framed ∙ ap (λ x. x.heap_start) g.framed in
      let total : c.total_size ≡ a.total_size =
        ap (λ x. x.total_size) framed ∙ ap (λ x. x.total_size) g.framed in
      let count : c.allocations_count ≡ a.allocations_count + 1 =
        ap (λ x. x.allocations_count) framed ∙ ap (λ x. x.allocations_count) g.framed in
      let tiled : Tiles a.heap_start (a.heap_start + a.total_size) c.blocks =
        subst₂ (λ x y. Tiles x (x + y) c.blocks) start total v.tiled in
      let same : SameLive c.blocks a.blocks =
        λ q. ground (arith, g.was_free, removed q, g.placed q) in
      let list : c.blocks ≡ a.blocks =
        Tiles-canonical a.heap_start (a.heap_start + a.total_size) c.blocks a.blocks tiled w.tiled
          v.coalesced w.coalesced same in
      let amount : c.allocated_bytes ≡ a.allocated_bytes =
        omega (arith, bytes, g.accounted, size) in
      let final : c ≡ record a { allocations_count = a.allocations_count + 1 } = λ i. record {
        heap_start = start i;
        total_size = total i;
        blocks = list i;
        allocated_bytes = amount i;
        allocations_count = count i;
      } in
      rw (← final) r
]

-- On a well-formed heap, freeing what a successful `Malloc` returned restores the list of blocks
-- and the byte count; only the number of allocations made has grown.
pub free-malloc :
    (a a' : Allocator) (n p : ℕ) (best : Bool)
    → IsWellFormed a
    → 0 < n
    → malloc a n best ≡ (a', p, none)
    → free a' p ≡ (record a { allocations_count = a.allocations_count + 1 }, none)
free-malloc a a' n p best w pos e = elim (malloc_cases a n best pos w) [
  | inl (r, none_fits) ↦ absurd (refusal (sym r ∙ e))
  | inr (c, k, b, r, found, fit, smallest, g) ↦
      let same : c ≡ a' = ap (λ x. x.0) (sym r ∙ e) in
      let address : b.addr ≡ p = ap (λ x. x.1) (sym r ∙ e) in
      rw (← same, ← address) (free-Grants a c n b.addr _ w g)
]
  where
    refusal :
        ◌≡◌ {A = Allocator × ℕ × Option AllocError} (a, 0, some out_of_memory) (a', p, none) → ⊥
    refusal h = let g : some out_of_memory ≡ none = ap (λ x. x.2) h in cc
