-- ===== src/Kernel/Lifecycle/Ending.antt =====
-- `Exit` of pkg/kernel/process_lifecycle.go on a tree: its loop ends in the table of the exit.
use mathlib.Core.Path.{fun_ext}
use os_simulator.Base.{
  ==_cases, ==_false, List, Option, [], ap, arith, count, if_both, if◌then◌else◌, inl, inr, ltb,
  none, refl, returns, some, subst, sym, true, ℕ, ◌==◌, ◌∙◌, ◌∷◌, ◌≡◌, ◌≢◌,
}
use os_simulator.Base.Int.{ℤ}
use os_simulator.Kernel.Lifecycle.{
  ProcessManager, Processes, UnixProcess, exit, map_process, mark_zombie, modify, no_children,
  reparent, set_ppid,
}
use os_simulator.Kernel.Lifecycle.Tree.{
  IsTree, kids, kids-modify, kids_child, modify_here, modify_keeps, modify_there,
}
use os_simulator.Kernel.Lifecycle.Adopting.{ArePresent, adopt-adopted, adopted, adopted_nil}
use os_simulator.Kernel.Lifecycle.Exiting.{bury, exited, move}

module _ (root next : ℕ) (m : Processes) (t : IsTree root next m) (pid : ℕ) (code : ℤ)
    (p : UnixProcess) (found : m pid ≡ some p) (not_root : pid ≢ root) where
  abbrev gone : Processes
  gone = exited root pid code p.children m

  abbrev dead : Processes
  dead = modify pid (mark_zombie code) m

  -- The processes that the loop moves are the children.
  moved_child :
      (q n : ℕ) (o : Option UnixProcess)
      → q ≢ root
      → n ≡ kids root pid q o
      → (if ltb 0 n then map_process (set_ppid root) o else o) ≡ map_process (move root pid) o
  moved_child q n none ne e = if_both (λ z. z ≡ none) (ltb 0 n) none none refl refl
  moved_child q n (some k) ne e = elim (==_cases k.ppid pid) [
    | inl (b, _) ↦ let one : n ≡ 1 = ground (arith, e, b, ne) in rw (one, b) refl
    | inr (b, _) ↦ let zero : n ≡ 0 = ground (arith, e, b, ne) in rw (zero, b) refl
  ]

  buried :
      (o : Option UnixProcess)
      → map_process no_children (map_process (move root pid) (map_process (mark_zombie code) o))
        ≡ map_process (λ k. move root pid (bury code k)) o
  buried none = refl
  buried (some k) = refl

  count_dead : (q : ℕ) → count q p.children ≡ kids root pid q (dead q)
  count_dead q =
      t.linked pid q p found ∙ sym (kids-modify root pid q pid (mark_zombie code) m (λ k. refl))

  dead_gone : (q : ℕ) → modify pid no_children (adopted root p.children dead) q ≡ gone q
  dead_gone q = elim (==_cases q root) [
    | inl (b, e) ↦ let other = ==_false q pid (λ z. not_root (sym z ∙ e)) in rw (b, other) refl
    | inr (b, ne) ↦ elim (==_cases q pid) [
      | inl (b', e) ↦
          modify_here pid q no_children (adopted root p.children dead) b'
          ∙ ap (map_process no_children) (
              rw b (moved_child q (count q p.children) (dead q) ne (count_dead q))
              ∙ ap (map_process (move root pid)) (modify_here pid q (mark_zombie code) m b'))
          ∙ buried (m q)
          ∙ sym (rw (b, b') refl)
      | inr (b', np) ↦
          modify_there pid q no_children (adopted root p.children dead) b'
          ∙ rw b (moved_child q (count q p.children) (dead q) ne (count_dead q))
          ∙ ap (map_process (move root pid)) (modify_there pid q (mark_zombie code) m b')
          ∙ sym (rw (b, b') refl)
    ]
  ]

  children-ArePresent : ArePresent root p.children dead
  children-ArePresent c h =
      let (ne, k, at, _) = kids_child root pid c (m c) (omega (arith, h, t.linked pid c p found)) in
      let (x, kept) = modify_keeps pid c (mark_zombie code) m (k, at) in (ne, x, kept)

  childless : p.children ≡ [] → (q : ℕ) → modify pid no_children dead q ≡ dead q
  childless e q = elim (==_cases q pid) [
    | inl (b, same) ↦
        modify_here pid q no_children dead b
        ∙ ap (map_process no_children) (dead_here b same)
        ∙ ap (λ cs. some (record (mark_zombie code p) { children = cs })) (sym e)
        ∙ sym (dead_here b same)
    | inr (b, _) ↦ modify_there pid q no_children dead b
  ]
    where
      dead_here : (q == pid) ≡ true → q ≡ pid → dead q ≡ some (mark_zombie code p)
      dead_here b same =
          modify_here pid q (mark_zombie code) m b
          ∙ ap (map_process (mark_zombie code)) (ap m same ∙ found)

  -- A write over tables that agree.
  modify_same :
      (a b : Processes) (q : ℕ)
      → a q ≡ b q
      → modify pid no_children a q ≡ modify pid no_children b q
  modify_same a b q e = ap (λ o. if q == pid then map_process no_children o else o) e

  reparent_gone : (cs : List ℕ) → cs ≡ p.children → reparent root pid cs dead ≡ returns gone
  unfolding reparent
  reparent_gone [] e = ap returns (
      fun_ext (λ q.
        sym (childless (sym e) q)
        ∙ modify_same dead (adopted root p.children dead) q
            (adopted_nil root q dead ∙ ap (λ cs. adopted root cs dead q) e)
        ∙ dead_gone q))
  reparent_gone (c ∷ cs) e =
      let (i, at, _) = t.rooted in
      let (i', there) = modify_keeps pid root (mark_zombie code) m (i, at) in
      let (m', run, f) =
        adopt-adopted root (c ∷ cs) dead i' there
          (subst (λ ds. ArePresent root ds dead) (sym e) children-ArePresent) in
      rw (run, reparent)
        (ap returns (
          fun_ext (λ q.
            modify_same m' (adopted root p.children dead) q
              (f q ∙ ap (λ ds. adopted root ds dead q) e)
            ∙ dead_gone q)))

-- `Exit` of a process of the tree, not init.
pub exit_run :
    (pm : ProcessManager) (pid : ℕ) (code : ℤ) (p : UnixProcess)
    → IsTree pm.init_pid pm.next_pid pm.processes
    → pm.processes pid ≡ some p
    → pid ≢ pm.init_pid
    → exit pm pid code
      ≡ returns
          (record pm { processes = exited pm.init_pid pid code p.children pm.processes }, none)
unfolding exit
exit_run pm pid code p t found ne =
    rw (found, ==_false pid pm.init_pid ne, exit)
      (rw (reparent_gone pm.init_pid pm.next_pid pm.processes t pid code p found ne p.children refl)
        refl)
