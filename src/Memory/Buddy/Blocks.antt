-- ===== src/Memory/Buddy/Blocks.antt =====
-- pkg/memory/allocator.go: the blocks of the buddy tree, and the bytes that are taken.
use os_simulator.Base.{
  Bool, arith, false, leb, ltb, refl, suc, zero, ℕ, ◌&&◌, ◌+◌, ◌<◌, ◌^◌, ◌||◌, ◌≡◌,
}
use os_simulator.Memory.Buddy.{BuddyNode, fork, leaf}

-- Whether the byte x is in the block of an order at an address.
abbrev pub in_block : ℕ → ℕ → ℕ → Bool
in_block addr order x = leb addr x && ltb x (addr + 2 ^ order)

abbrev pub is_taken : BuddyNode → ℕ → Bool
is_taken (leaf addr order allocated) x = allocated && in_block addr order x
is_taken (fork addr order allocated left right) x = is_taken left x || is_taken right x

-- A node for the block of an order at an address, whose children are its halves.
abbrev pub IsBuddy : ℕ → ℕ → BuddyNode → Type 0
IsBuddy addr order (leaf a o allocated) = (a ≡ addr) × (o ≡ order)
IsBuddy addr zero (fork a o allocated left right) = ⊥
IsBuddy addr (suc child) (fork a o allocated left right) =
    (a ≡ addr)
    × (o ≡ suc child)
    × (allocated ≡ false)
    × IsBuddy addr child left
    × IsBuddy (addr + 2 ^ child) child right

pub two_pow : (n : ℕ) → 2 ^ suc n ≡ 2 ^ n + 2 ^ n
two_pow n = omega arith

pub pow_pos : (n : ℕ) → 0 < 2 ^ n
pow_pos zero = omega arith
pow_pos (suc n) = omega (arith, pow_pos n)

pub outside-is_taken :
    (node : BuddyNode) (addr order x : ℕ)
    → IsBuddy addr order node
    → in_block addr order x ≡ false
    → is_taken node x ≡ false
outside-is_taken (leaf a o allocated) addr order x v h = rw (v.0, v.1, h) (ground arith)
outside-is_taken (fork a o allocated left right) addr zero x v h = absurd v
outside-is_taken (fork a o allocated left right) addr (suc child) x v h =
    rw
      (
        outside-is_taken left addr child x v.3 (ground (arith, two_pow child)),
        outside-is_taken right (addr + 2 ^ child) child x v.4 (ground (arith, two_pow child)),
      )
      refl
