-- ===== src/Kernel/Lifecycle/Calls.antt =====
-- Histories of the four calls of pkg/kernel/process_lifecycle.go.
use os_simulator.Base.{
  ==_cases, List, Option-cases, Outcome, String, [], ap, arith, false, false≢true, inl, inr, length,
  map_outcome, panics, refl, returns, some, some_inj, subst, sym, true, u64, ℕ, ◌*◌, ◌++◌, ◌+◌,
  ◌>>=◌, ◌∙◌, ◌∷◌, ◌≡◌, ◌⊎◌,
}
use os_simulator.Base.Int.{ℤ}
use os_simulator.Kernel.Lifecycle.{
  LifecycleError, ProcessManager, UnixProcess, child_of, exec, exit, fork, init_exit,
  insert_process, is_zombie, loaded_image, mark_parent, modify, new_process_manager, no_child,
  no_such_process, wait, would_block, zombie,
}
use os_simulator.Kernel.Lifecycle.Tree.{IsTree, new_process_manager-IsTree}
use os_simulator.Kernel.Lifecycle.Forking.{forked-IsTree}
use os_simulator.Kernel.Lifecycle.Exiting.{left-IsTree}
use os_simulator.Kernel.Lifecycle.Ending.{exit_run}
use os_simulator.Kernel.Lifecycle.Waiting.{WaitResult, wait-WaitResult}
use os_simulator.Kernel.Lifecycle.Loading.{
  copy_entries-length, first_page, modify-IsTree, new_table_length,
}
use os_simulator.Memory.AddressSpace.{AddressSpace}
use os_simulator.Memory.Paging.{PageTable, new_page_table}

pub data Call : Type 0 where
  fork_call : ℕ → Call
  exec_call : ℕ → String → ℕ → Call
  exit_call : ℕ → ℤ → Call
  wait_call : ℕ → Call

abbrev pub apply_call : Call → ProcessManager → Outcome ProcessManager
apply_call (fork_call pid) pm = map_outcome (λ r. r.0) (fork pm pid)
apply_call (exec_call pid binary args) pm = map_outcome (λ r. r.0) (exec pm pid binary args)
apply_call (exit_call pid code) pm = map_outcome (λ r. r.0) (exit pm pid code)
apply_call (wait_call pid) pm = returns (wait pm pid).0

abbrev pub run_calls : List Call → ProcessManager → Outcome ProcessManager
run_calls [] pm = returns pm
run_calls (c ∷ cs) pm = apply_call c pm >>= run_calls cs

abbrev pub IsZombieAt : ProcessManager → ℕ → Type 0
IsZombieAt pm pid = (k : UnixProcess) × (pm.processes pid ≡ some k) × (k.state ≡ zombie)

-- The call forks or executes in a zombie, which no longer has an address space.
abbrev pub NeedsSpace : Call → ProcessManager → Type 0
NeedsSpace (fork_call pid) pm = IsZombieAt pm pid
NeedsSpace (exec_call pid binary args) pm = IsZombieAt pm pid
NeedsSpace (exit_call pid code) pm = true ≡ false
NeedsSpace (wait_call pid) pm = true ≡ false

abbrev pub IsFamily : ProcessManager → Type 0
IsFamily pm = IsTree pm.init_pid pm.next_pid pm.processes

-- How a call ends on a tree.
abbrev pub Ends : Call → ProcessManager → Outcome ProcessManager → Type 0
Ends c pm o =
    ((pm' : ProcessManager) × (o ≡ returns pm') × IsFamily pm') ⊎ (NeedsSpace c pm × (o ≡ panics))

fork_living :
    (pm : ProcessManager) (pid : ℕ) (p : UnixProcess) (space : AddressSpace)
    → IsFamily pm
    → pm.processes pid ≡ some p
    → p.address_space ≡ some space
    → (table : PageTable) × (fork pm pid
        ≡ returns (
          record pm {
            next_pid = pm.next_pid + 1;
            processes =
                insert_process pm.next_pid
                  (child_of pm.next_pid pid p space table)
                  (modify pid (mark_parent pm.next_pid) pm.processes);
          },
          inl pm.next_pid,
        ))
      × (length table.entries ≡ 16)
unfolding fork
fork_living pm pid p space t found alive =
    let (table, e, n) =
      copy_entries-length pm.next_pid 0 p.page_table.entries (new_page_table pm.next_pid 16 4096)
        (omega (arith, t.tabled pid p found)) in
    (table, rw (found, alive, fork) (rw e refl), n ∙ new_table_length pm.next_pid)

fork_call-Ends :
    (pm : ProcessManager) (pid : ℕ)
    → IsFamily pm
    → Ends (fork_call pid) pm (apply_call (fork_call pid) pm)
unfolding fork
fork_call-Ends pm pid t = elim (Option-cases (pm.processes pid)) [
  | inl missing ↦ inl (pm, rw (missing, fork) refl, t)
  | inr (p, found) ↦ elim (t.vital pid p found) [
    | inl (dead, lost, _) ↦ inr ((p, found, dead), rw (found, lost, fork) refl)
    | inr (space, alive, _) ↦
        let (table, e, n) = fork_living pm pid p space t found alive in
        inl (
          _,
          ap (map_outcome (λ r. r.0)) e,
          forked-IsTree pm.init_pid pm.next_pid pm.processes t pid p found
              (child_of pm.next_pid pid p space table) refl refl (inr (_, refl, refl)) n space
              alive,
        )
  ]
]

exec_call-Ends :
    (pm : ProcessManager) (pid : ℕ) (binary : String) (args : ℕ)
    → IsFamily pm
    → Ends (exec_call pid binary args) pm (apply_call (exec_call pid binary args) pm)
unfolding exec
exec_call-Ends pm pid binary args t = elim (Option-cases (pm.processes pid)) [
  | inl missing ↦ inl (pm, rw (missing, exec) refl, t)
  | inr (p, found) ↦ elim (t.vital pid p found) [
    | inl (dead, lost, _) ↦ inr ((p, found, dead), rw (found, lost, exec) refl)
    | inr (space, alive, lives) ↦
        let (table, e, n) = first_page pid (u64 (pid * 20)) in
        inl (
          record pm {
            processes = modify pid (loaded_image pid binary args space table) pm.processes;
          },
          rw (found, alive, exec) (rw e refl),
          modify-IsTree pm.init_pid pm.next_pid pid (loaded_image pid binary args space table)
              pm.processes (λ k. (refl, refl, refl))
              (λ k at.
                (inr (_, refl, ap (λ z. is_zombie z.state) (some_inj (sym at ∙ found)) ∙ lives), n))
              t,
        )
  ]
]

exit_call-Ends :
    (pm : ProcessManager) (pid : ℕ) (code : ℤ)
    → IsFamily pm
    → Ends (exit_call pid code) pm (apply_call (exit_call pid code) pm)
unfolding exit
exit_call-Ends pm pid code t = elim (Option-cases (pm.processes pid)) [
  | inl missing ↦ inl (pm, rw (missing, exit) refl, t)
  | inr (p, found) ↦ elim (==_cases pid pm.init_pid) [
    | inl (b, _) ↦ inl (pm, rw (found, b, exit) refl, t)
    | inr (_, ne) ↦ inl (
      _,
      ap (map_outcome (λ r. r.0)) (exit_run pm pid code p t found ne),
      left-IsTree pm.init_pid pm.next_pid pm.processes t pid code p found ne,
    )
  ]
]

wait_call-Ends :
    (pm : ProcessManager) (pid : ℕ)
    → IsFamily pm
    → Ends (wait_call pid) pm (apply_call (wait_call pid) pm)
wait_call-Ends pm pid t =
    inl ((wait pm pid).0, refl, family (wait pm pid) (wait-WaitResult pm pid t))
  where
    family : (r : ProcessManager × ((ℕ × ℤ) ⊎ LifecycleError)) → WaitResult pm pid r → IsFamily r.0
    family (pm', inr no_such_process) w = subst IsFamily (sym w.0) t
    family (pm', inr no_child) w = subst IsFamily (sym w.0) t
    family (pm', inr would_block) w = subst IsFamily (sym w.0) t
    family (pm', inr init_exit) w = absurd (false≢true w)
    family (pm', inl (c, code)) (_, gone) = gone.family

-- A call in a tree of processes returns and leaves a tree, unless it is a Fork or an Exec in a zombie:
-- that is a nil dereference.
apply_call-Ends : (c : Call) (pm : ProcessManager) → IsFamily pm → Ends c pm (apply_call c pm)
apply_call-Ends (fork_call pid) pm t = fork_call-Ends pm pid t
apply_call-Ends (exec_call pid binary args) pm t = exec_call-Ends pm pid binary args t
apply_call-Ends (exit_call pid code) pm t = exit_call-Ends pm pid code t
apply_call-Ends (wait_call pid) pm t = wait_call-Ends pm pid t

-- The history ends with a tree, or it stops at a call that forks or executes in a zombie, after a
-- part of the history that ends with a tree.
abbrev pub RunEnds : List Call → ProcessManager → Type 0
RunEnds cs pm =
    ((pm' : ProcessManager) × (run_calls cs pm ≡ returns pm') × IsFamily pm')
    ⊎ ((done : List Call) × (c : Call) × (left : List Call) × (pm' : ProcessManager) × (cs
          ≡ done ++ c ∷ left)
        × (run_calls done pm ≡ returns pm')
        × NeedsSpace c pm'
        × (run_calls cs pm ≡ panics))

run_from : (cs : List Call) (pm : ProcessManager) → IsFamily pm → RunEnds cs pm
run_from [] pm t = inl (pm, refl, t)
run_from (c ∷ cs) pm t = elim (apply_call-Ends c pm t) [
  | inr (needs, e) ↦ inr ([], c, cs, pm, refl, refl, needs, ap (λ o. o >>= run_calls cs) e)
  | inl (pm1, e, t1) ↦ elim (run_from cs pm1 t1) [
    | inl (pm', q, t') ↦ inl (pm', ap (λ o. o >>= run_calls cs) e ∙ q, t')
    | inr (done, d, left, pm', parts, q, needs, stop) ↦ inr (
      c ∷ done,
      d,
      left,
      pm',
      ap (◌∷◌ c) parts,
      ap (λ o. o >>= run_calls done) e ∙ q,
      needs,
      ap (λ o. o >>= run_calls cs) e ∙ stop,
    )
  ]
]

-- After any history of calls of Fork, Exec, Exit and Wait on a new process manager, the processes are a
-- tree: init lives, every other process has its parent in the table and stands exactly once among
-- its children, and no zombie has children, so that no exited process is ever lost. The one
-- exception is a history with a Fork or an Exec in a zombie: the calls before it leave a tree, and
-- that call is a nil dereference.
pub run_calls-RunEnds : (cs : List Call) → RunEnds cs new_process_manager
unfolding new_process_manager
run_calls-RunEnds cs = run_from cs new_process_manager new_process_manager-IsTree
