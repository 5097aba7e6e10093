-- ===== src/Memory/Manager/Clock.antt =====
-- The clock of pkg/memory/page_replacement.go: it ends, and it gives every frame a second chance.
use native.Mathlib.Nat.{mod-add-mod, mod-eq_of_lt, mod-lt}
use os_simulator.Base.{
  Bool, Bool-cases, List, [], ap, arith, false, false≢true, get_elem?, get_elem?-lt_length,
  get_elem?-set_ne, get_elem?-set_self, get_elem?_lt, if◌then◌else◌, inl, inr, length, length-set,
  map, refl, returns, set, some, some_inj, subst, suc, sym, true, zero, ℕ, ℕ_discrete, ◌%◌, ◌+◌,
  ◌<◌, ◌∙◌, ◌∷◌, ◌≡◌, ◌≤◌, ◌⊎◌,
}
use os_simulator.Memory.Manager.{FrameInfo, clock_loop}

-- The frames without their use bits.
abbrev pub erase : FrameInfo → FrameInfo
erase f = record f { use_bit = false }

abbrev pub set_bits : List FrameInfo → ℕ
set_bits [] = 0
set_bits (f ∷ fs) = let rest = set_bits fs in if f.use_bit then suc rest else rest

set_bits_le : (fs : List FrameInfo) → set_bits fs ≤ length fs
set_bits_le [] = omega arith
set_bits_le (f ∷ fs) = ground (arith, set_bits_le fs)

set_bits-clear :
    (fs : List FrameInfo) (i : ℕ) (f : FrameInfo)
    → get_elem? fs i ≡ some f
    → f.use_bit ≡ true
    → suc (set_bits (set fs i (erase f))) ≡ set_bits fs
set_bits-clear [] i f at e = cc
set_bits-clear (g ∷ fs) zero f at e = let b = ap FrameInfo.use_bit (some_inj at) ∙ e in rw b refl
set_bits-clear (g ∷ fs) (suc i) f at e = ground (arith, set_bits-clear fs i f at e)

map-erase_clear :
    (fs : List FrameInfo) (i : ℕ) (f : FrameInfo)
    → get_elem? fs i ≡ some f
    → map erase (set fs i (erase f)) ≡ map erase fs
map-erase_clear [] i f at = refl
map-erase_clear (g ∷ fs) zero f at = ap (λ h. erase h ∷ map erase fs) (sym (some_inj at))
map-erase_clear (g ∷ fs) (suc i) f at = ap (◌∷◌ (erase g)) (map-erase_clear fs i f at)

-- The hand stands at a frame with the given use bit.
abbrev pub HasBit : List FrameInfo → ℕ → Bool → Type 0
HasBit fs i b = (f : FrameInfo) × (get_elem? fs i ≡ some f) × (f.use_bit ≡ b)

-- The victim is k frames after the hand. All frames on the way have been used since the hand last
-- came by; the victim has not, or the hand has come round to it again.
pub record Turn (n : ℕ) (fs : List FrameInfo) (hand : ℕ) (r : List FrameInfo × ℕ × ℕ) : Type 0 where
  pub distance : ℕ
  pub victim : r.2 ≡ (hand + distance) % n
  pub in_range : r.2 < n
  pub hand_after : r.1 ≡ (r.2 + 1) % n
  pub passed : (j : ℕ) → j < distance → HasBit fs ((hand + j) % n) true
  pub chance : HasBit fs r.2 false ⊎ ((j : ℕ) × (j < distance) × (r.2 ≡ (hand + j) % n))
  pub frames_kept : map erase r.0 ≡ map erase fs

mod_shift : (n h j : ℕ) → ((h + 1) % n + j) % n ≡ (h + suc j) % n
mod_shift n h j = mod-add-mod (h + 1) n j ∙ ap (λ z. z % n) (omega arith)

mod_small : (n h : ℕ) → h < n → h ≡ (h + 0) % n
mod_small n h p = sym (ap (λ z. z % n) (omega arith) ∙ mod-eq_of_lt p)

-- A bit that is set in the cleared list is another frame's, and was set before.
HasBit-set_other :
    (fs : List FrameInfo) (hand i : ℕ) (f : FrameInfo)
    → get_elem? fs hand ≡ some f
    → HasBit (set fs hand (erase f)) i true
    → HasBit fs i true
HasBit-set_other fs hand i f at (g, a, b) = elim (ℕ_discrete hand i) [
  | yes e ↦ absurd (
      false≢true (
        ap FrameInfo.use_bit (
          some_inj (
            sym (get_elem?-set_self fs hand (erase f) (get_elem?-lt_length fs hand f at))
            ∙ ap (get_elem? (set fs hand (erase f))) e
            ∙ a))
        ∙ b))
  | no ne ↦ (g, sym (get_elem?-set_ne fs hand i (erase f) ne) ∙ a, b)
]

-- A bit that is clear in the cleared list is the hand's frame's, or was clear before.
HasBit-set_clear :
    (fs : List FrameInfo) (hand i : ℕ) (f : FrameInfo)
    → HasBit (set fs hand (erase f)) i false
    → HasBit fs i false ⊎ (i ≡ hand)
HasBit-set_clear fs hand i f (g, a, b) = elim (ℕ_discrete hand i) [
  | yes e ↦ inr (sym e)
  | no ne ↦ inl (g, sym (get_elem?-set_ne fs hand i (erase f) ne) ∙ a, b)
]

-- The turn that passes the hand's frame and goes on as the rest of the turn does.
Turn-step :
    (n : ℕ) (fs : List FrameInfo) (hand : ℕ) (f : FrameInfo) (r : List FrameInfo × ℕ × ℕ)
    → hand < n
    → get_elem? fs hand ≡ some f
    → f.use_bit ≡ true
    → Turn n (set fs hand (erase f)) ((hand + 1) % n) r
    → Turn n fs hand r
Turn-step n fs hand f r h at b t = record {
  distance = suc t.distance;
  victim = t.victim ∙ mod_shift n hand t.distance;
  in_range = t.in_range;
  hand_after = t.hand_after;
  passed = passed;
  chance = chance t.chance;
  frames_kept = t.frames_kept ∙ map-erase_clear fs hand f at;
}
  where
    passed : (j : ℕ) → j < suc t.distance → HasBit fs ((hand + j) % n) true
    passed zero l = subst (λ i. HasBit fs i true) (mod_small n hand h) (f, at, b)
    passed (suc j) l = HasBit-set_other fs hand _ f at (
        subst (λ i. HasBit (set fs hand (erase f)) i true) (mod_shift n hand j)
          (t.passed j (omega arith)))

    chance :
        HasBit (set fs hand (erase f)) r.2 false
          ⊎ ((j : ℕ) × (j < t.distance) × (r.2 ≡ ((hand + 1) % n + j) % n))
        → HasBit fs r.2 false ⊎ ((j : ℕ) × (j < suc t.distance) × (r.2 ≡ (hand + j) % n))
    chance (inl c) = elim (HasBit-set_clear fs hand r.2 f c) [
      | inl d ↦ inl d
      | inr e ↦ inr (0, omega arith, e ∙ mod_small n hand h)
    ]
    chance (inr (j, l, e)) = inr (suc j, omega arith, e ∙ mod_shift n hand j)

-- One turn of the loop.
clock_loop_pass :
    (fuel n : ℕ) (fs : List FrameInfo) (hand : ℕ) (f : FrameInfo)
    → get_elem? fs hand ≡ some f
    → f.use_bit ≡ true
    → clock_loop (suc fuel) n fs hand ≡ clock_loop fuel n (set fs hand (erase f)) ((hand + 1) % n)
unfolding clock_loop
clock_loop_pass fuel n fs hand f at b = rw (at, b, clock_loop) refl

clock_loop_stop :
    (fuel n : ℕ) (fs : List FrameInfo) (hand : ℕ) (f : FrameInfo)
    → get_elem? fs hand ≡ some f
    → f.use_bit ≡ false
    → clock_loop (suc fuel) n fs hand ≡ returns (fs, (hand + 1) % n, hand)
unfolding clock_loop
clock_loop_stop fuel n fs hand f at b = rw (at, b, clock_loop) refl

clock_loop-Turn :
    (fuel n : ℕ) (fs : List FrameInfo) (hand : ℕ)
    → length fs ≡ n
    → hand < n
    → set_bits fs < fuel
    → (r : List FrameInfo × ℕ × ℕ) × (clock_loop fuel n fs hand ≡ returns r) × Turn n fs hand r
clock_loop-Turn zero n fs hand l h b = absurd (omega arith)
clock_loop-Turn (suc fuel) n fs hand l h b =
    let (f, at) = get_elem?_lt fs hand (omega arith) in
    elim (Bool-cases f.use_bit) [
      | inl set_bit ↦
          let (r, e, t) =
            clock_loop-Turn fuel n (set fs hand (erase f)) ((hand + 1) % n)
              (length-set fs hand (erase f) ∙ l) (mod-lt (hand + 1) (omega arith))
              (omega (arith, set_bits-clear fs hand f at set_bit)) in
          (
            r,
            clock_loop_pass fuel n fs hand f at set_bit ∙ e,
            Turn-step n fs hand f r h at set_bit t,
          )
      | inr clear ↦ (
        (fs, (hand + 1) % n, hand),
        clock_loop_stop fuel n fs hand f at clear,
        record {
          distance = 0;
          victim = mod_small n hand h;
          in_range = h;
          hand_after = refl;
          passed = λ j p. absurd (omega arith);
          chance = inl (f, at, clear);
          frames_kept = refl;
        },
      )
    ]

-- With frames and the hand at one of them the clock ends, and chooses a frame.
pub clock-Turn :
    (n : ℕ) (fs : List FrameInfo) (hand : ℕ)
    → length fs ≡ n
    → hand < n
    → (r : List FrameInfo × ℕ × ℕ) × (clock_loop (suc n) n fs hand ≡ returns r) × Turn n fs hand r
clock-Turn n fs hand l h = clock_loop-Turn (suc n) n fs hand l h (omega (arith, set_bits_le fs))
