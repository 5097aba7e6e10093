-- ===== src/Memory/CallStack/Calls.antt =====
-- pkg/memory/stack_heap.go: sequences of pushes and pops.
use os_simulator.Base.{
  All, Bool-cases, List, String, [], ap, ap₂, arith, false, inl, inr, leb, length, refl, sub64, sym,
  true, u64, u64_mod, ℕ, ◌+◌, ◌<◌, ◌∙◌, ◌∷◌, ◌≡◌, ◌⊎◌,
}
use os_simulator.Memory.CallStack.{
  CallStack, StackError, StackFrame, is_outside, new_call_stack, out_of_bounds, pop_frame,
  push_frame, pushed, too_deep,
}
use os_simulator.Memory.CallStack.Frames.{IsStack, popped-IsStack, push_frame-IsStack}

pub data Call (V : Type 0) : Type 0 where
  push : String → ℕ → ℕ → V → Call V
  pop : Call V

inr-inl {ℓ κ} : {A : Type ℓ} {B : Type κ} {a : A} {b : B} → inr b ≡ inl a → ⊥
inr-inl e = cc

restored_sp : (sp size : ℕ) → size < u64_mod → sp < u64_mod → u64 (sub64 sp size + size) ≡ sp
restored_sp sp size h k = omega arith

module _ {V : Type 0} where
  abbrev pub IsWordCall : Call V → Type 0
  IsWordCall (push name ret_addr size locals) = size < u64_mod
  IsWordCall pop = Unit

  -- The first call of the list is made last.
  unfoldable pub run : List (Call V) → CallStack V → CallStack V
  run [] cs = cs
  run (push name ret_addr size locals ∷ calls) cs =
      (push_frame name ret_addr size locals (run calls cs)).1
  run (pop ∷ calls) cs = (pop_frame (run calls cs)).1

  run_kept :
      (base total : ℕ) (calls : List (Call V)) (cs : CallStack V)
      → base < u64_mod
      → All IsWordCall calls
      → IsStack base total cs
      → IsStack base total (run calls cs)
  unfolding run
  run_kept base total [] cs b w v = v
  run_kept base total (push name ret_addr size locals ∷ calls) cs b w v =
      push_frame-IsStack name ret_addr size base total locals (run calls cs) w.0 b
        (run_kept base total calls cs b w.1 v)
  run_kept base total (pop ∷ calls) cs b w v =
      popped-IsStack base total (run calls cs).frames (run calls cs) refl b
        (run_kept base total calls cs b w.1 v)

  -- Let a call stack be made at a 64-bit base address and let any pushes and pops follow, with sizes of 64
  -- bits, whether they succeed or fail. The frames then fill the stack without a gap from the base
  -- down to the stack pointer, with at most the total size in bytes and at most 256 frames. The base
  -- pointer is where the frame below the newest one ends, and each frame holds the address where it
  -- ends itself and the base pointer that a pop restores.
  pub run-IsStack :
      (base total : ℕ) (calls : List (Call V))
      → base < u64_mod
      → All IsWordCall calls
      → IsStack base total (run calls (new_call_stack base total))
  unfolding new_call_stack
  run-IsStack base total calls b w =
      run_kept base total calls (new_call_stack base total) b w (record {
        based = refl;
        sized = refl;
        filled = omega arith;
        bounded = omega arith;
        deep = refl;
        depth = omega arith;
        chained = refl;
      })

  pub push_deep :
      (name : String) (ret_addr size : ℕ) (locals : V) (cs : CallStack V)
      → leb cs.max_depth (length cs.frames) ≡ true
      → push_frame name ret_addr size locals cs ≡ (inr too_deep, cs)
  unfolding push_frame
  push_deep name ret_addr size locals cs d = rw (d, push_frame) refl

  pub push_outside :
      (name : String) (ret_addr size : ℕ) (locals : V) (cs : CallStack V)
      → leb cs.max_depth (length cs.frames) ≡ false
      → is_outside (sub64 cs.current_sp size) cs ≡ true
      → push_frame name ret_addr size locals cs ≡ (inr out_of_bounds, cs)
  unfolding push_frame
  push_outside name ret_addr size locals cs d o = rw (d, o, push_frame) refl

  pub push_done :
      (name : String) (ret_addr size : ℕ) (locals : V) (cs : CallStack V)
      → leb cs.max_depth (length cs.frames) ≡ false
      → is_outside (sub64 cs.current_sp size) cs ≡ false
      → let p = pushed name ret_addr size locals cs in
        push_frame name ret_addr size locals cs ≡ (inl p.0, p.1)
  unfolding push_frame
  push_done name ret_addr size locals cs d o = rw (d, o, push_frame) refl

  -- A push that succeeds, on a stack whose pointer is a 64-bit address, and the pop after it give the same
  -- frame, and the stack is the one before.
  pub pop_frame-push_frame :
      (name : String) (ret_addr size : ℕ) (locals : V) (cs after : CallStack V)
      (frame : StackFrame V)
      → size < u64_mod
      → cs.current_sp < u64_mod
      → push_frame name ret_addr size locals cs ≡ (inl frame, after)
      → pop_frame after ≡ (inl frame, cs)
  pop_frame-push_frame name ret_addr size locals cs after frame h k e =
      elim (Bool-cases (leb cs.max_depth (length cs.frames))) [
        | inl d ↦
            let g : (inr too_deep, cs) ≡ (inl frame, after) =
              sym (push_deep name ret_addr size locals cs d) ∙ e in
            absurd (inr-inl (ap (λ x. x.0) g))
        | inr d ↦ elim (Bool-cases (is_outside (sub64 cs.current_sp size) cs)) [
          | inl o ↦
              let g : (inr out_of_bounds, cs) ≡ (inl frame, after) =
                sym (push_outside name ret_addr size locals cs d o) ∙ e in
              absurd (inr-inl (ap (λ x. x.0) g))
          | inr o ↦
              let p = pushed name ret_addr size locals cs in
              let g : (inl p.0, p.1) ≡ (inl frame, after) =
                sym (push_done name ret_addr size locals cs d o) ∙ e in
              ap (λ x. pop_frame x.1) (sym g)
              ∙ ap₂ (λ (r : StackFrame V ⊎ StackError) (sp : ℕ). (r, record cs { current_sp = sp }))
                  (ap (λ x. x.0) g) (restored_sp cs.current_sp size h k)
        ]
      ]
