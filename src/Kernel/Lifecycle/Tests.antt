-- ===== src/Kernel/Lifecycle/Tests.antt =====
-- Runs of pkg/kernel/process_lifecycle.go.
use os_simulator.Base.{List, [], arith, inl, inr, none, refl, returns, ℕ, ◌∷◌, ◌≡◌, ◌≢◌}
use os_simulator.Base.Int.{pos}
use os_simulator.Kernel.Lifecycle.{
  ProcessManager, UnixProcess, child_of, exit, find_zombie, init_process, insert_process,
  mark_parent, modify, new_process_manager, wait,
}
use os_simulator.Memory.AddressSpace.{AddressSpace, new_address_space}
use os_simulator.Memory.Paging.{new_page_table}
use os_simulator.Kernel.Lifecycle.Forking.{forked-IsTree}
use os_simulator.Kernel.Lifecycle.Exiting.{exited, left-IsTree}
use os_simulator.Kernel.Lifecycle.Loading.{new_table_length}
use os_simulator.Kernel.Lifecycle.Calls.{
  Call, RunEnds, exec_call, exit_call, fork_call, run_calls-RunEnds, wait_call,
}
use os_simulator.Kernel.Lifecycle.Tree.{IsTree, new_process_manager-IsTree}
use os_simulator.Kernel.Lifecycle.Orphans.{Orphaned, exit-Orphaned}
use os_simulator.Kernel.Lifecycle.Waiting.{WaitResult, wait-WaitResult}

-- A shell forks a job and leaves; init adopts the job, and reaps the shell and the job.
abbrev story : List Call
story =
    fork_call 1
    ∷ fork_call 2
    ∷ exec_call 3 "job" 1
    ∷ exit_call 2 (pos 0)
    ∷ exit_call 3 (pos 7)
    ∷ wait_call 1
    ∷ wait_call 1
    ∷ []

run_calls-RunEnds_example : RunEnds story new_process_manager
run_calls-RunEnds_example = run_calls-RunEnds story

-- Init and one child, the process 2.
abbrev space : AddressSpace
space = new_address_space 1 65536 1048576

abbrev job : UnixProcess
job = child_of 2 1 init_process space (new_page_table 2 16 4096)

abbrev family : ProcessManager
family = record {
  processes = insert_process 2 job (modify 1 (mark_parent 2) new_process_manager.processes);
  next_pid = 3;
  init_pid = 1;
}

family-IsTree : IsTree 1 3 family.processes
unfolding init_process new_process_manager
family-IsTree =
    forked-IsTree 1 2 new_process_manager.processes new_process_manager-IsTree 1 init_process refl
      job refl refl (inr (_, refl, refl)) (new_table_length 2) space refl

two_one : ◌≢◌ {A = ℕ} 2 1
two_one e = omega (arith, e)

exit-Orphaned_example :
    (pm : ProcessManager) × (exit family 2 (pos 7) ≡ returns (pm, none))
    × Orphaned family 2 (pos 7) pm
exit-Orphaned_example = exit-Orphaned family 2 (pos 7) job family-IsTree refl two_one

-- The child has exited.
abbrev mourning : ProcessManager
mourning = record family { processes = exited 1 2 (pos 7) [] family.processes }

mourning-IsTree : IsTree 1 3 mourning.processes
mourning-IsTree = left-IsTree 1 3 family.processes family-IsTree 2 (pos 7) job refl two_one

-- The result of the call, computed.
wait_reaps : (wait mourning 1).1 ≡ inl (2, pos 7)
unfolding wait find_zombie new_process_manager init_process
wait_reaps = refl

wait-WaitResult_example : WaitResult mourning 1 (wait mourning 1)
wait-WaitResult_example = wait-WaitResult mourning 1 mourning-IsTree
