-- ===== src/Memory/CallStack/Pushing.antt =====
-- pkg/memory/stack_heap.go: what a push comes to on a stack of 64-bit addresses.
use os_simulator.Base.{
  Bool, Bool-cases, String, ap, arith, false, inl, inr, leb, length, ltb, ltb→lt, refl, sub64, sym,
  true, u64_mod, ℕ, ◌+◌, ◌<◌, ◌||◌, ◌≡◌, ◌≤◌, ◌⊎◌,
}
use os_simulator.Memory.CallStack.{
  CallStack, StackFrame, is_outside, out_of_bounds, pop_frame, push_frame, pushed, too_deep,
}
use os_simulator.Memory.CallStack.Frames.{IsStack, bytes, inside_bounds, not_below, sub64_below}
use os_simulator.Memory.CallStack.Calls.{pop_frame-push_frame, push_deep, push_done, push_outside}

or_true : (a b : Bool) → (a || b) ≡ true → (a ≡ true) ⊎ (b ≡ true)
or_true a b e = ground arith

-- A pointer that fails one of the two tests has wrapped or lies too far from the base.
outside_bounds :
    (sp size base total used : ℕ)
    → sp + used ≡ base
    → base < u64_mod
    → (ltb sp (sub64 sp size) || ltb total (sub64 base (sub64 sp size))) ≡ true
    → (sp < size) ⊎ (total < used + size)
outside_bounds sp size base total used f b e = elim (Bool-cases (ltb sp size)) [
  | inl l ↦ inl (ltb→lt sp size l)
  | inr l ↦
      let k = not_below sp size l in
      let w = sub64_below sp size k (omega (arith, f)) in
      let z = sub64_below base (sub64 sp size) (omega (arith, w, f)) b in
      elim (or_true (ltb sp (sub64 sp size)) (ltb total (sub64 base (sub64 sp size))) e) [
        | inl p ↦ absurd (omega (arith, w, k, ltb→lt sp (sub64 sp size) p))
        | inr p ↦ inr (omega (arith, w, z, k, f, ltb→lt total (sub64 base (sub64 sp size)) p))
      ]
]

module _ {V : Type 0} where
  -- The frame of a call of the function, on a stack whose pointer was sp.
  abbrev pub IsFrameOf : String → ℕ → ℕ → V → ℕ → StackFrame V → Type 0
  IsFrameOf name ret_addr size locals sp frame =
      (frame.function_name ≡ name)
      × (frame.return_address ≡ ret_addr)
      × (frame.local_variables ≡ locals)
      × (frame.frame_size_bytes ≡ size)
      × (frame.stack_pointer + size ≡ sp)

  -- The three ways in which a push ends, each with its own condition.
  abbrev pub PushCases : ℕ → String → ℕ → ℕ → V → CallStack V → Type 0
  PushCases total name ret_addr size locals cs =
      let r = push_frame name ret_addr size locals cs in
      ((cs.max_depth ≤ length cs.frames) × (r ≡ (inr too_deep, cs)))
      ⊎ ((length cs.frames < cs.max_depth)
          × ((cs.current_sp < size) ⊎ (total < bytes cs.frames + size))
          × (r ≡ (inr out_of_bounds, cs)))
      ⊎ ((length cs.frames < cs.max_depth)
          × (size ≤ cs.current_sp)
          × (bytes cs.frames + size ≤ total)
          × (frame : StackFrame V) × IsFrameOf name ret_addr size locals cs.current_sp frame
          × (r.0 ≡ inl frame)
          × (pop_frame r.1 ≡ (inl frame, cs)))

  -- Let the frames fill a stack with a 64-bit base from the base down, and let a frame of a 64-bit size be
  -- pushed. The push fails without a change if the stack is at its greatest depth; if not, it fails
  -- without a change if the frame is larger than the stack pointer or the frames and it are together
  -- larger than the stack. In the remaining case it gives a frame with the name, the return address,
  -- the variables and the size, directly below the stack pointer, and a pop right after it gives the same
  -- frame and the stack as it was before.
  pub push_frame_cases :
      (base total : ℕ) (name : String) (ret_addr size : ℕ) (locals : V) (cs : CallStack V)
      → base < u64_mod
      → size < u64_mod
      → IsStack base total cs
      → PushCases total name ret_addr size locals cs
  push_frame_cases base total name ret_addr size locals cs b h v =
      elim (Bool-cases (leb cs.max_depth (length cs.frames))) [
        | inl d ↦ inl (ground arith, push_deep name ret_addr size locals cs d)
        | inr d ↦ elim (Bool-cases (is_outside (sub64 cs.current_sp size) cs)) [
          | inl o ↦
              let o' : (ltb cs.current_sp (sub64 cs.current_sp size)
                    || ltb total (sub64 base (sub64 cs.current_sp size)))
                  ≡ true =
                rw (sym v.based, sym v.sized) o in
              inr (
                inl (
                  ground arith,
                  outside_bounds cs.current_sp size base total (bytes cs.frames) v.filled b o',
                  push_outside name ret_addr size locals cs d o,
                ))
          | inr o ↦
              let o' : (ltb cs.current_sp (sub64 cs.current_sp size)
                    || ltb total (sub64 base (sub64 cs.current_sp size)))
                  ≡ false =
                rw (sym v.based, sym v.sized) o in
              let (k, g) =
                inside_bounds cs.current_sp size base total h (omega (arith, v.filled)) b o' in
              let e = push_done name ret_addr size locals cs d o in
              inr (
                inr (
                  ground arith,
                  omega (arith, k),
                  omega (arith, k, g, v.filled),
                  (pushed name ret_addr size locals cs).0,
                  (refl, refl, refl, refl, k),
                  ap (λ r. r.0) e,
                  pop_frame-push_frame name ret_addr size locals cs
                      (push_frame name ret_addr size locals cs).1
                      (pushed name ret_addr size locals cs).0 h (omega (arith, v.filled))
                      (ap (λ r. (r.0, (push_frame name ret_addr size locals cs).1)) e),
                ))
        ]
      ]
