-- ===== src/Memory/Manager/Policies.antt =====
-- The `switch` of `allocateFrame` of pkg/memory/page_replacement.go: which frame each policy evicts.
use native.Mathlib.Nat.{mod-lt}
use os_simulator.Base.{
  List, [], ap, arith, get_elem?-lt_length, length, map, refl, returns, subst, suc, sym, ℕ, ◌+◌,
  ◌<◌, ◌∙◌, ◌∷◌, ◌≡◌,
}
use os_simulator.Memory.Manager.{
  FrameInfo, MemoryManager, Policy, choose_victim, clock, fifo, lru, other,
}
use os_simulator.Memory.Manager.Victims.{IsOldestFrame, oldest_frame-IsOldestFrame}
use os_simulator.Memory.Manager.Clock.{Turn, clock-Turn, erase}
use os_simulator.Memory.Manager.Invariant.{IsManaged}

length-map {ℓ κ} :
    {A : Type ℓ} {B : Type κ} (f : A → B) (xs : List A) → length (map f xs) ≡ length xs
length-map f [] = refl
length-map f (x ∷ xs) = ap suc (length-map f xs)

-- The frames and the hand after the choice, and the victim: as many frames, the others in range.
abbrev pub IsChoice : ℕ → List FrameInfo × ℕ × ℕ → Type 0
IsChoice n r = (length r.0 ≡ n) × (r.1 < n) × (r.2 < n)

-- What each policy promises of its choice.
abbrev pub IsChosenBy : Policy → MemoryManager → List FrameInfo × ℕ × ℕ → Type 0
IsChosenBy fifo mm r = (r.0 ≡ mm.frames) × IsOldestFrame FrameInfo.loaded_tick mm.frames r.2
IsChosenBy lru mm r = (r.0 ≡ mm.frames) × IsOldestFrame FrameInfo.last_used_tick mm.frames r.2
IsChosenBy clock mm r = Turn mm.num_frames mm.frames mm.clock_hand r
IsChosenBy other mm r = (r.0 ≡ mm.frames) × (r.2 ≡ 0)

IsOldestFrame-IsChoice :
    (key : FrameInfo → ℕ) (n hand v : ℕ) (fs : List FrameInfo)
    → length fs ≡ n
    → hand < n
    → IsOldestFrame key fs v
    → IsChoice n (fs, hand, v)
IsOldestFrame-IsChoice key n hand v fs l h o =
    (l, h, omega (arith, get_elem?-lt_length fs v o.frame o.at))

Turn-IsChoice :
    (n : ℕ) (fs : List FrameInfo) (hand : ℕ) (r : List FrameInfo × ℕ × ℕ)
    → length fs ≡ n
    → Turn n fs hand r
    → IsChoice n r
Turn-IsChoice n fs hand r l t = (
  sym (length-map erase r.0) ∙ ap length t.frames_kept ∙ length-map erase fs ∙ l,
  subst (λ k. k < n) (sym t.hand_after) (mod-lt (r.2 + 1) (omega (arith, t.in_range))),
  t.in_range,
)

-- The choice of a victim, by any policy of a manager in order, ends without a panic, with as many
-- frames, the hand and the victim in range. FIFO evicts the first of the frames with the least
-- loading tick, LRU the first of those with the least tick of use. The clock passes only frames with
-- a set use bit; its victim has a clear use bit, or the hand has come round to it again; only use
-- bits of the frames change, and the hand stops behind the victim.
pub choose_victim-IsChosenBy :
    (mm : MemoryManager)
    → IsManaged mm
    → (r : List FrameInfo × ℕ × ℕ) × (choose_victim mm ≡ returns r)
      × IsChoice mm.num_frames r
      × IsChosenBy mm.policy mm r
unfolding choose_victim
choose_victim-IsChosenBy mm w = go mm.policy refl
  where
    n : ℕ
    n = mm.num_frames

    hand : ℕ
    hand = mm.clock_hand

    fs : List FrameInfo
    fs = mm.frames

    go :
        (p : Policy)
        → mm.policy ≡ p
        → (r : List FrameInfo × ℕ × ℕ) × (choose_victim mm ≡ returns r)
          × IsChoice mm.num_frames r
          × IsChosenBy p mm r
    go fifo e =
        let (v, q, o) =
          oldest_frame-IsOldestFrame FrameInfo.loaded_tick fs
            (omega (arith, w.sized, w.hand_inside)) in
        (
          (fs, hand, v),
          rw (e, choose_victim, q) refl,
          IsOldestFrame-IsChoice _ n hand v fs w.sized w.hand_inside o,
          (refl, o),
        )
    go lru e =
        let (v, q, o) =
          oldest_frame-IsOldestFrame FrameInfo.last_used_tick fs
            (omega (arith, w.sized, w.hand_inside)) in
        (
          (fs, hand, v),
          rw (e, choose_victim, q) refl,
          IsOldestFrame-IsChoice _ n hand v fs w.sized w.hand_inside o,
          (refl, o),
        )
    go clock e =
        let (r, q, t) = clock-Turn n fs hand w.sized w.hand_inside in
        (r, rw (e, choose_victim, q) refl, Turn-IsChoice n fs hand r w.sized t, t)
    go other e = (
      (fs, hand, 0),
      rw (e, choose_victim) refl,
      (w.sized, w.hand_inside, omega (arith, w.hand_inside)),
      (refl, refl),
    )
