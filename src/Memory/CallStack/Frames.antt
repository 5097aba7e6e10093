-- ===== src/Memory/CallStack/Frames.antt =====
-- pkg/memory/stack_heap.go: the frames fill the stack from its base down.
use os_simulator.Base.{
  Bool, Bool-cases, List, String, [], ap, arith, false, inl, inr, leb, length, ltb, ltb→lt, sub64,
  subst, u64_mod, ℕ, ◌+◌, ◌-◌, ◌<◌, ◌||◌, ◌∷◌, ◌≡◌, ◌≤◌,
}
use os_simulator.Memory.CallStack.{CallStack, StackFrame, is_outside, popped, push_frame}

or_false : (a b : Bool) → (a || b) ≡ false → (a ≡ false) × (b ≡ false)
or_false a b e = ground arith

pub sub64_below : (a b : ℕ) → b ≤ a → a < u64_mod → sub64 a b ≡ a - b
sub64_below a b h k = omega arith

sub64_above : (a b : ℕ) → a < b → b < u64_mod → sub64 a b ≡ a + u64_mod - b
sub64_above a b h k = omega arith

pub not_below : (a b : ℕ) → ltb a b ≡ false → b ≤ a
not_below a b e = ground arith

-- A pointer that passes the two tests has not wrapped.
pub inside_bounds :
    (sp size base total : ℕ)
    → size < u64_mod
    → sp ≤ base
    → base < u64_mod
    → (ltb sp (sub64 sp size) || ltb total (sub64 base (sub64 sp size))) ≡ false
    → (sub64 sp size + size ≡ sp) × (base ≤ sub64 sp size + total)
inside_bounds sp size base total h k b e =
    let new_sp = sub64 sp size in
    let (f, g) = or_false (ltb sp new_sp) (ltb total (sub64 base new_sp)) e in
    let f' = not_below sp new_sp f in
    let g' = not_below total (sub64 base new_sp) g in
    elim (Bool-cases (ltb sp size)) [
      | inl l ↦
          let w = sub64_above sp size (ltb→lt sp size l) h in
          absurd (omega (arith, f', w, h, ltb→lt sp size l))
      | inr l ↦
          let w = sub64_below sp size (not_below sp size l) (omega arith) in
          let z = sub64_below base (sub64 sp size) (omega (arith, w)) b in
          (omega (arith, w, not_below sp size l), omega (arith, g', z))
    ]

module _ {V : Type 0} where
  abbrev pub bytes : List (StackFrame V) → ℕ
  bytes [] = 0
  bytes (f ∷ fs) = f.frame_size_bytes + bytes fs

  -- The base pointer is where the frame below the newest one ends; each frame keeps where its own bytes
  -- end and the base pointer before it.
  abbrev pub IsChained : ℕ → List (StackFrame V) → ℕ → Type 0
  IsChained base [] bp = bp ≡ base
  IsChained base (f ∷ fs) bp =
      (bp + bytes fs ≡ base)
      × (f.stack_pointer + bytes (f ∷ fs) ≡ base)
      × IsChained base fs f.frame_pointer

  pub record IsStack (base total : ℕ) (cs : CallStack V) : Type 0 where
    pub based : cs.base_address ≡ base
    pub sized : cs.total_size_bytes ≡ total
    pub filled : cs.current_sp + bytes cs.frames ≡ base
    pub bounded : bytes cs.frames ≤ total
    pub deep : cs.max_depth ≡ 256
    pub depth : length cs.frames ≤ 256
    pub chained : IsChained base cs.frames cs.current_bp

  pub push_frame-IsStack :
      (name : String) (ret_addr size base total : ℕ) (locals : V) (cs : CallStack V)
      → size < u64_mod
      → base < u64_mod
      → IsStack base total cs
      → IsStack base total (push_frame name ret_addr size locals cs).1
  unfolding push_frame
  push_frame-IsStack name ret_addr size base total locals cs h b v =
      elim (Bool-cases (leb cs.max_depth (length cs.frames))) [
        | inl e ↦ rw (e, push_frame) v
        | inr e ↦ elim (Bool-cases (is_outside (sub64 cs.current_sp size) cs)) [
          | inl o ↦ rw (e, o, push_frame) v
          | inr o ↦
              let (k, l) =
                inside_bounds cs.current_sp size cs.base_address cs.total_size_bytes h
                  (omega (arith, v.filled, v.based)) (omega (arith, v.based)) o in
              rw (e, o, push_frame)
                (record {
                  based = v.based;
                  sized = v.sized;
                  filled = omega (arith, k, v.filled);
                  bounded = omega (arith, k, l, v.filled, v.based, v.sized);
                  deep = v.deep;
                  depth = ground (arith, e, v.deep);
                  chained = (v.filled, omega (arith, k, v.filled), v.chained);
                })
        ]
      ]

  pub popped-IsStack :
      (base total : ℕ) (fs : List (StackFrame V)) (cs : CallStack V)
      → cs.frames ≡ fs
      → base < u64_mod
      → IsStack base total cs
      → IsStack base total (popped fs cs).1
  popped-IsStack base total [] cs e b v = v
  popped-IsStack base total (f ∷ fs) cs e b v =
      let filled = subst (λ fs. cs.current_sp + bytes fs ≡ base) e v.filled in
      let chained = subst (λ fs. IsChained base fs cs.current_bp) e v.chained in
      record {
        based = v.based;
        sized = v.sized;
        filled = omega (arith, filled);
        bounded = omega (arith, v.bounded, ap bytes e);
        deep = v.deep;
        depth = omega (arith, v.depth, ap length e);
        chained = chained.2;
      }
