-- ===== src/Kernel/Lifecycle/Waiting.antt =====
-- What `Wait` of pkg/kernel/process_lifecycle.go returns.
use os_simulator.Base.{
  ==_false, ==_refl, List, Option, Option-cases, [], ap, arith, count, false, false≢true, inl, inr,
  none, refl, some, some_inj, subst, sym, true, ℕ, ◌<◌, ◌∙◌, ◌∷◌, ◌≡◌, ◌≢◌, ◌⊎◌,
}
use os_simulator.Base.Int.{ℤ}
use os_simulator.Kernel.Lifecycle.{
  LifecycleError, ProcessManager, Processes, UnixProcess, find_zombie, init_exit, is_zombie,
  no_child, no_such_process, reap, wait, would_block, zombie_code,
}
use os_simulator.Kernel.Lifecycle.Tree.{IsTree, kids, kids_child}
use os_simulator.Kernel.Lifecycle.Zombies.{none_or_zombie, zombie_code_found}
use os_simulator.Kernel.Lifecycle.Reaping.{c_ppid, parent_other, reaped-IsTree}

-- The process c is a zombie child of the process parent, and has exited with this code.
pub record IsZombieChild (m : Processes) (parent c : ℕ) (code : ℤ) : Type 0 where
  pub process : UnixProcess
  pub at : m c ≡ some process
  pub child : process.ppid ≡ parent
  pub dead : is_zombie process.state ≡ true
  pub coded : process.exit_code ≡ code

-- Wait reaped the child c.
pub record Reaped (pm : ProcessManager) (parent c : ℕ) (pm' : ProcessManager) : Type 0 where
  pub family : IsTree pm'.init_pid pm'.next_pid pm'.processes
  pub gone : pm'.processes c ≡ none
  pub others : (d : ℕ) → d ≢ c → d ≢ parent → pm'.processes d ≡ pm.processes d

find_zombie_run :
    (pm : ProcessManager) (parent : ℕ) (p : UnixProcess) (o : Option (ℕ × ℤ × List ℕ))
    → pm.processes parent ≡ some p
    → p.children ≢ []
    → find_zombie pm.processes p.children ≡ o
    → wait pm parent ≡ reap pm parent o
unfolding wait
find_zombie_run pm parent p o found some_child e = by_children p.children refl some_child
  where
    by_children : (cs : List ℕ) → p.children ≡ cs → cs ≢ [] → wait pm parent ≡ reap pm parent o
    by_children [] q ne = absurd (ne refl)
    by_children (c ∷ cs) q ne =
        rw (found, q, wait) (ap (reap pm parent) (ap (find_zombie pm.processes) (sym q) ∙ e))

-- Children, none of which is a zombie.
living_children :
    (pm : ProcessManager) (parent : ℕ) (p : UnixProcess)
    → IsTree pm.init_pid pm.next_pid pm.processes
    → pm.processes parent ≡ some p
    → ((d : ℕ) → 0 < count d p.children → zombie_code (pm.processes d) ≡ none)
    → (c : ℕ) (code : ℤ) → ¬ IsZombieChild pm.processes parent c code
living_children pm parent p t found living c code z =
    let (i, at, lives) = t.rooted in
    let not_root : c ≢ pm.init_pid = λ e. false≢true (
      sym lives
      ∙ ap (λ x. is_zombie x.state) (some_inj (sym at ∙ ap pm.processes (sym e) ∙ z.at))
      ∙ z.dead) in
    let one : kids pm.init_pid parent c (pm.processes c) ≡ 1 =
      ap (kids pm.init_pid parent c) z.at
      ∙ kids_one pm.init_pid parent c z.process not_root z.child in
    coded_none z.process z.dead
      (ap zombie_code (sym z.at) ∙ living c (omega (arith, one, t.linked parent c p found)))
  where
    kids_one : (root p c : ℕ) (k : UnixProcess) → c ≢ root → k.ppid ≡ p → kids root p c (some k) ≡ 1
    kids_one root p c k ne e = ground (arith, ne, e)

    coded_none : (k : UnixProcess) → is_zombie k.state ≡ true → ¬ (zombie_code (some k) ≡ none)
    coded_none k z e = let e0 : some k.exit_code ≡ none = sym (rw z refl) ∙ e in cc

-- The result of `Wait`: an error of the three, or the reaped child and its exit code.
abbrev pub WaitResult : ProcessManager → ℕ → ProcessManager × ((ℕ × ℤ) ⊎ LifecycleError) → Type 0
WaitResult pm parent (pm', inr no_such_process) = (pm' ≡ pm) × (pm.processes parent ≡ none)
WaitResult pm parent (pm', inr no_child) =
    (pm' ≡ pm) × (p : UnixProcess) × (pm.processes parent ≡ some p) × (p.children ≡ [])
WaitResult pm parent (pm', inr would_block) =
    (pm' ≡ pm)
    × (p : UnixProcess) × (pm.processes parent ≡ some p)
    × (p.children ≢ [])
    × ((c : ℕ) (code : ℤ) → ¬ IsZombieChild pm.processes parent c code)
WaitResult pm parent (pm', inr init_exit) = false ≡ true
WaitResult pm parent (pm', inl (c, code)) =
    IsZombieChild pm.processes parent c code × Reaped pm parent c pm'

reap_result :
    (pm : ProcessManager) (parent : ℕ) (p : UnixProcess)
    → IsTree pm.init_pid pm.next_pid pm.processes
    → pm.processes parent ≡ some p
    → p.children ≢ []
    → WaitResult pm parent (wait pm parent)
reap_result pm parent p t found ne = elim (none_or_zombie pm.processes p.children) [
  | inl (e, living) ↦
      subst (WaitResult pm parent) (sym (find_zombie_run pm parent p none found ne e))
        (refl, p, found, ne, living_children pm parent p t found living)
  | inr (c, code, rest, e, z, inside, counts) ↦
      let (k, at, dead, is_code) = zombie_code_found (pm.processes c) code z in
      let up =
        kids_child pm.init_pid parent c (pm.processes c)
          (omega (arith, inside, t.linked parent c p found)) in
      subst (WaitResult pm parent)
        (sym (find_zombie_run pm parent p (some (c, code, rest)) found ne e))
        (
          record {
            process = k;
            at = at;
            child =
                c_ppid pm.init_pid pm.next_pid pm.processes t parent p found c k at dead rest inside
                  counts;
            dead = dead;
            coded = is_code;
          },
          record {
            family =
                reaped-IsTree pm.init_pid pm.next_pid pm.processes t parent p found c k at dead rest
                  inside counts;
            gone =
                rw
                  (
                    ==_false c parent (λ q.
                        parent_other pm.init_pid pm.next_pid pm.processes t parent p found c k at
                          dead rest inside counts (sym q)),
                    ==_refl c,
                  )
                  refl;
            others = λ d dc dp. rw (==_false d parent dp, ==_false d c dc) refl;
          },
        )
]

-- `Wait` in a tree of processes. It fails with ErrNoSuchProcess only where the caller is not in the
-- table, with ErrNoChild only where the caller has no children, and with EWOULDBLOCK only where none
-- of the children is a zombie; then nothing changes. Otherwise it returns the number and the exit
-- code of a zombie child, which leaves the table, and the processes are still a tree.
pub wait-WaitResult :
    (pm : ProcessManager) (parent : ℕ)
    → IsTree pm.init_pid pm.next_pid pm.processes
    → WaitResult pm parent (wait pm parent)
unfolding wait
wait-WaitResult pm parent t = elim (Option-cases (pm.processes parent)) [
  | inl missing ↦ rw (missing, wait) (refl, missing)
  | inr (p, found) ↦ by_children p found p.children refl
]
  where
    by_children :
        (p : UnixProcess)
        → pm.processes parent ≡ some p
        → (cs : List ℕ) → p.children ≡ cs
        → WaitResult pm parent (wait pm parent)
    by_children p found [] e = rw (found, wait, e) (refl, p, found, e)
    by_children p found (c ∷ cs) e = reap_result pm parent p t found (λ q. let z = sym e ∙ q in cc)
