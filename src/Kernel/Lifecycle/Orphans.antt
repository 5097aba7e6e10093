-- ===== src/Kernel/Lifecycle/Orphans.antt =====
-- What `Exit` of pkg/kernel/process_lifecycle.go does to the process and to its children.
use os_simulator.Base.{
  ==_cases, ==_true, [], ap, if◌then◌else◌, inl, inr, none, refl, returns, some, ℕ, ◌==◌, ◌∙◌, ◌≡◌,
  ◌≢◌,
}
use os_simulator.Base.Int.{ℤ}
use os_simulator.Kernel.Lifecycle.{
  ProcessManager, Processes, UnixProcess, exit, map_process, zombie,
}
use os_simulator.Kernel.Lifecycle.Tree.{IsTree}
use os_simulator.Kernel.Lifecycle.Exiting.{bury, exited, left-IsTree, left_other, left_pid, move}
use os_simulator.Kernel.Lifecycle.Ending.{exit_run}

-- The table after the exit: the process is a zombie with the code, its children are init's.
pub record Orphaned (pm : ProcessManager) (pid : ℕ) (code : ℤ) (pm' : ProcessManager) : Type 0 where
  pub family : IsTree pm'.init_pid pm'.next_pid pm'.processes
  pub corpse : UnixProcess
  pub at : pm'.processes pid ≡ some corpse
  pub dead : corpse.state ≡ zombie
  pub coded : corpse.exit_code ≡ code
  pub childless : corpse.children ≡ []
  pub adopted_all :
      (c : ℕ) (k : UnixProcess)
      → pm.processes c ≡ some k
      → c ≢ pm.init_pid
      → k.ppid ≡ pid
      → (x : UnixProcess) × (pm'.processes c ≡ some x) × (x.ppid ≡ pm.init_pid)

-- `Exit` of a process of the tree other than init succeeds. The process becomes a zombie that holds
-- the exit code and has no children, each of its children becomes a child of init, and the
-- processes are still a tree.
pub exit-Orphaned :
    (pm : ProcessManager) (pid : ℕ) (code : ℤ) (p : UnixProcess)
    → IsTree pm.init_pid pm.next_pid pm.processes
    → pm.processes pid ≡ some p
    → pid ≢ pm.init_pid
    → (pm' : ProcessManager) × (exit pm pid code ≡ returns (pm', none)) × Orphaned pm pid code pm'
exit-Orphaned pm pid code p t found ne = (
  record pm { processes = exited root pid code p.children m },
  exit_run pm pid code p t found ne,
  record {
    family = left-IsTree root pm.next_pid m t pid code p found ne;
    corpse = move root pid (bury code p);
    at =
        left_pid root pm.next_pid m t pid code p found ne pid refl
        ∙ ap (map_process (λ k. move root pid (bury code k))) found;
    dead = refl;
    coded = refl;
    childless = refl;
    adopted_all = orphan;
  },
)
  where
    root : ℕ
    root = pm.init_pid

    m : Processes
    m = pm.processes

    moved : (k : UnixProcess) → k.ppid ≡ pid → (if k.ppid == pid then root else k.ppid) ≡ root
    moved k e = rw (==_true k.ppid pid e) refl

    orphan :
        (c : ℕ) (k : UnixProcess)
        → m c ≡ some k
        → c ≢ root
        → k.ppid ≡ pid
        → (x : UnixProcess) × (exited root pid code p.children m c ≡ some x) × (x.ppid ≡ root)
    orphan c k at other e = elim (==_cases c pid) [
      | inl (_, same) ↦ (
        move root pid (bury code k),
        left_pid root pm.next_pid m t pid code p found ne c same
            ∙ ap (map_process (λ z. move root pid (bury code z))) at,
        moved k e,
      )
      | inr (_, np) ↦ (
        move root pid k,
        left_other root pm.next_pid m t pid code p found ne c other np
            ∙ ap (map_process (move root pid)) at,
        moved k e,
      )
    ]
