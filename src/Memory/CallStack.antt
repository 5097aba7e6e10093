-- ===== src/Memory/CallStack.antt =====
-- pkg/memory/stack_heap.go: the call stack. The head of the list of frames is the last frame of the
-- slice. The local variables, which are only kept, are of any type V.
pub mod Frames
pub mod Calls
pub mod Pushing
mod Tests
use os_simulator.Base.{
  Bool, List, String, [], if◌then◌else◌, inl, inr, leb, length, ltb, sub64, u64, ℕ, ◌+◌, ◌||◌, ◌∷◌,
  ◌⊎◌,
}

-- ErrStackOverflow with the two messages that wrap it, and the error of PopFrame.
pub data StackError : Type 0 where
  too_deep out_of_bounds stack_underflow : StackError

pub record StackFrame (V : Type 0) : Type 0 where
  pub function_name : String
  pub return_address : ℕ
  pub frame_pointer : ℕ
  pub stack_pointer : ℕ
  pub local_variables : V
  pub frame_size_bytes : ℕ

pub record CallStack (V : Type 0) : Type 0 where
  pub base_address : ℕ
  pub current_sp : ℕ
  pub current_bp : ℕ
  pub frames : List (StackFrame V)
  pub max_depth : ℕ
  pub total_size_bytes : ℕ

unfoldable pub new_call_stack : {V : Type 0} → ℕ → ℕ → CallStack V
new_call_stack base_addr total_size = record {
  base_address = base_addr;
  current_sp = base_addr;
  current_bp = base_addr;
  frames = [];
  max_depth = 256;
  total_size_bytes = total_size;
}

module _ {V : Type 0} where
  abbrev pub pushed : String → ℕ → ℕ → V → CallStack V → StackFrame V × CallStack V
  pushed name ret_addr frame_size locals cs =
      let new_sp = sub64 cs.current_sp frame_size in
      let frame : StackFrame V = record {
        function_name = name;
        return_address = ret_addr;
        frame_pointer = cs.current_bp;
        stack_pointer = new_sp;
        local_variables = locals;
        frame_size_bytes = frame_size;
      } in
      (
        frame,
        record cs { current_bp = cs.current_sp; current_sp = new_sp; frames = frame ∷ cs.frames },
      )

  -- The pointer has wrapped, or the stack is larger than its bound.
  abbrev pub is_outside : ℕ → CallStack V → Bool
  is_outside new_sp cs =
      ltb cs.current_sp new_sp || ltb cs.total_size_bytes (sub64 cs.base_address new_sp)

  unfoldable pub push_frame :
      String → ℕ → ℕ → V → CallStack V → (StackFrame V ⊎ StackError) × CallStack V
  push_frame name ret_addr frame_size locals cs =
      if leb cs.max_depth (length cs.frames)
      then (inr too_deep, cs)
      else if is_outside (sub64 cs.current_sp frame_size) cs
      then (inr out_of_bounds, cs)
      else let (frame, after) = pushed name ret_addr frame_size locals cs in (inl frame, after)

  abbrev pub popped : List (StackFrame V) → CallStack V → (StackFrame V ⊎ StackError) × CallStack V
  popped [] cs = (inr stack_underflow, cs)
  popped (frame ∷ rest) cs = (
    inl frame,
    record cs {
      frames = rest;
      current_sp = u64 (cs.current_sp + frame.frame_size_bytes);
      current_bp = frame.frame_pointer;
    },
  )

  abbrev pub pop_frame : CallStack V → (StackFrame V ⊎ StackError) × CallStack V
  pop_frame cs = popped cs.frames cs
