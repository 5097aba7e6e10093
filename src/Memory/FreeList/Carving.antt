-- ===== src/Memory/FreeList/Carving.antt =====
-- What the split of a chosen block in `Malloc` of pkg/memory/allocator.go does to the list.
use os_simulator.Base.{
  Bool-cases, List, [], arith, get_elem?, if◌then◌else◌, inl, inr, ltb, some, suc, true, u64,
  u64_mod, zero, ℕ, ◌+◌, ◌-◌, ◌<◌, ◌==◌, ◌∷◌, ◌≡◌, ◌≤◌,
}
use os_simulator.Memory.FreeList.{Block, carve, carve_at, carved_size, fits}
use os_simulator.Memory.FreeList.Heap.{IsCoalesced, StartsAllocated, Tiles, Tiles-le, live, used}

-- Where a block of the list lies.
pub Tiles-get :
    (k start end : ℕ) (b : Block) (bs : List Block)
    → Tiles start end bs
    → get_elem? bs k ≡ some b
    → (start ≤ b.addr) × (0 < b.size) × (b.addr + b.size ≤ end)
Tiles-get k start end b [] t e = cc
Tiles-get zero start end b (c ∷ bs) t e = ground (arith, Tiles-le (start + c.size) end bs t.2)
Tiles-get (suc k) start end b (c ∷ bs) t e =
    omega (arith, Tiles-get k (start + c.size) end b bs t.2 e)

pub carve-StartsAllocated : (n : ℕ) (c : Block) (bs : List Block) → StartsAllocated (carve n c bs)
unfolding carve
carve-StartsAllocated n c bs = ground arith

module _ (n : ℕ) (pos : 0 < n) (end : ℕ) (fit : end + 16 < u64_mod) where
  carve-Tiles :
      (start : ℕ) (c : Block) (bs : List Block)
      → Tiles start end (c ∷ bs)
      → fits n c ≡ true
      → Tiles start end (carve n c bs)
  unfolding carve
  carve-Tiles start c bs t f =
      let far = Tiles-le (start + c.size) end bs t.2 in
      elim (Bool-cases (ltb (u64 (n + 16)) c.size)) [
        | inl split ↦
            let rest : start + n + (c.size - n) ≡ start + c.size = ground arith in
            rw (split, carve) (t.0, pos, (ground arith, ground arith, rw rest t.2))
        | inr whole ↦ rw (whole, carve) t
      ]

  pub carve_at-Tiles :
      (k start : ℕ) (b : Block) (bs : List Block)
      → Tiles start end bs
      → get_elem? bs k ≡ some b
      → fits n b ≡ true
      → Tiles start end (carve_at n k bs)
  unfolding carve_at
  carve_at-Tiles k start b [] t e f = cc
  carve_at-Tiles zero start b (c ∷ bs) t e f = carve-Tiles start c bs t (ground arith)
  carve_at-Tiles (suc k) start b (c ∷ bs) t e f =
      (t.0, t.1, carve_at-Tiles k (start + c.size) b bs t.2 e f)

  -- Only the block's own address changes: it is allocated now, at least as large as requested.
  carve-live :
      (start p : ℕ) (c : Block) (bs : List Block)
      → Tiles start end (c ∷ bs)
      → fits n c ≡ true
      → live p (carve n c bs) ≡ (if c.addr == p then some (carved_size n c) else live p (c ∷ bs))
  unfolding carve live carved_size
  carve-live start p c bs t f = ground (arith, Tiles-le (start + c.size) end bs t.2)

  pub carve_at-live :
      (k start p : ℕ) (b : Block) (bs : List Block)
      → Tiles start end bs
      → get_elem? bs k ≡ some b
      → fits n b ≡ true
      → live p (carve_at n k bs) ≡ (if b.addr == p then some (carved_size n b) else live p bs)
  unfolding carve_at live
  carve_at-live k start p b [] t e f = cc
  carve_at-live zero start p b (c ∷ bs) t e f =
      let p' : c ≡ b = ground arith in rw (← p') (carve-live start p c bs t (rw p' f))
  carve_at-live (suc k) start p b (c ∷ bs) t e f = ground (
    arith,
    carve_at-live k (start + c.size) p b bs t.2 e f,
    Tiles-get k (start + c.size) end b bs t.2 e,
  )

  carve-used :
      (start : ℕ) (c : Block) (bs : List Block)
      → Tiles start end (c ∷ bs)
      → fits n c ≡ true
      → used (carve n c bs) ≡ used (c ∷ bs) + carved_size n c
  unfolding carve carved_size
  carve-used start c bs t f = ground (arith, Tiles-le (start + c.size) end bs t.2)

  pub carve_at-used :
      (k start : ℕ) (b : Block) (bs : List Block)
      → Tiles start end bs
      → get_elem? bs k ≡ some b
      → fits n b ≡ true
      → used (carve_at n k bs) ≡ used bs + carved_size n b
  unfolding carve_at
  carve_at-used k start b [] t e f = cc
  carve_at-used zero start b (c ∷ bs) t e f =
      let p : c ≡ b = ground arith in rw (← p) (carve-used start c bs t (rw p f))
  carve_at-used (suc k) start b (c ∷ bs) t e f =
      omega (arith, carve_at-used k (start + c.size) b bs t.2 e f)

  carve-IsCoalesced :
      (c : Block) (bs : List Block)
      → IsCoalesced (c ∷ bs)
      → fits n c ≡ true
      → IsCoalesced (carve n c bs)
  unfolding carve
  carve-IsCoalesced c bs q f = elim (Bool-cases (ltb (u64 (n + 16)) c.size)) [
    | inl split ↦ rw (split, carve) ((λ h. cc), ((λ _. q.0 (ground arith)), q.1))
    | inr whole ↦ rw (whole, carve) ((λ h. cc), q.1)
  ]

  carve_at-StartsAllocated :
      (k : ℕ) (bs : List Block) → StartsAllocated bs → StartsAllocated (carve_at n k bs)
  unfolding carve_at
  carve_at-StartsAllocated k [] s = tt
  carve_at-StartsAllocated zero (c ∷ bs) s = carve-StartsAllocated n c bs
  carve_at-StartsAllocated (suc k) (c ∷ bs) s = s

  pub carve_at-IsCoalesced :
      (k : ℕ) (b : Block) (bs : List Block)
      → IsCoalesced bs
      → get_elem? bs k ≡ some b
      → fits n b ≡ true
      → IsCoalesced (carve_at n k bs)
  unfolding carve_at
  carve_at-IsCoalesced k b [] q e f = cc
  carve_at-IsCoalesced zero b (c ∷ bs) q e f = carve-IsCoalesced c bs q (ground arith)
  carve_at-IsCoalesced (suc k) b (c ∷ bs) q e f =
      ((λ h. carve_at-StartsAllocated k bs (q.0 h)), carve_at-IsCoalesced k b bs q.1 e f)
