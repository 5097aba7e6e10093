-- ===== src/Memory/CallStack/Tests.antt =====
-- pkg/memory/stack_heap.go: calls on a stack of 64 bytes.
use os_simulator.Base.{List, [], arith, inl, refl, ℕ, ◌∷◌, ◌≡◌}
use os_simulator.Memory.CallStack.{StackFrame, new_call_stack, pop_frame, push_frame}
use os_simulator.Memory.CallStack.Frames.{IsStack}
use os_simulator.Memory.CallStack.Pushing.{PushCases, push_frame_cases}
use os_simulator.Memory.CallStack.Calls.{Call, pop, pop_frame-push_frame, push, run, run-IsStack}

abbrev calls : List (Call ℕ)
calls = push "too large" 8 64 0 ∷ pop ∷ push "f" 4 16 0 ∷ push "main" 0 32 0 ∷ []

run-IsStack_example : IsStack 4096 64 (run calls (new_call_stack 4096 64))
run-IsStack_example =
    run-IsStack 4096 64 calls (omega arith) (omega arith, (tt, (omega arith, (omega arith, tt))))

calls_leave_main : (run calls (new_call_stack 4096 64)).current_sp ≡ 4064
unfolding run push_frame new_call_stack
calls_leave_main = refl

abbrev main_frame : StackFrame ℕ
main_frame = record {
  function_name = "main";
  return_address = 0;
  frame_pointer = 4096;
  stack_pointer = 4064;
  local_variables = 7;
  frame_size_bytes = 32;
}

popped_main :
    pop_frame (record (new_call_stack 4096 64) { current_sp = 4064; frames = main_frame ∷ [] })
    ≡ (inl main_frame, new_call_stack 4096 64)
unfolding push_frame new_call_stack
popped_main =
    pop_frame-push_frame "main" 0 32 7 (new_call_stack 4096 64)
      (record (new_call_stack 4096 64) { current_sp = 4064; frames = main_frame ∷ [] }) main_frame
      (omega arith) (omega arith) refl

-- A push on the stack that the calls leave.
push_frame_cases_example : PushCases 64 "g" 12 16 3 (run calls (new_call_stack 4096 64))
push_frame_cases_example =
    push_frame_cases 4096 64 "g" 12 16 3 (run calls (new_call_stack 4096 64)) (omega arith)
      (omega arith)
      (run-IsStack 4096 64 calls (omega arith)
        (omega arith, (tt, (omega arith, (omega arith, tt)))))
