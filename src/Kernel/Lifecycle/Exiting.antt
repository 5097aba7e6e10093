-- ===== src/Kernel/Lifecycle/Exiting.antt =====
-- `Exit` of pkg/kernel/process_lifecycle.go keeps the tree of processes.
use os_simulator.Base.{
  ==_cases, ==_false, ==_true, List, Option, ap, ap₂, arith, count, count-append, false≢true,
  if_both, if◌then◌else◌, inl, inr, none, refl, some, some_inj, subst, sym, ℕ, ◌+◌, ◌<◌, ◌==◌, ◌∙◌,
  ◌≡◌, ◌≢◌, ◌⊎◌,
}
use os_simulator.Base.Int.{ℤ}
use os_simulator.Kernel.Lifecycle.{
  Processes, UnixProcess, is_zombie, map_process, mark_zombie, no_children,
}
use os_simulator.Kernel.Lifecycle.Tree.{
  IsTabled, IsTree, IsVital, kids, kids_root, map_process-some,
}
use os_simulator.Kernel.Lifecycle.Adopting.{add_children}

-- A child of pid becomes a child of init.
abbrev pub move : ℕ → ℕ → UnixProcess → UnixProcess
move root pid k = record k { ppid = if k.ppid == pid then root else k.ppid }

abbrev pub bury : ℤ → UnixProcess → UnixProcess
bury code p = no_children (mark_zombie code p)

-- The table after the exit of the process pid, whose children are cs.
abbrev pub exited : ℕ → ℕ → ℤ → List ℕ → Processes → Processes
exited root pid code cs m = λ q.
    if q == root
    then map_process (add_children cs) (m q)
    else if q == pid
    then map_process (λ k. move root pid (bury code k)) (m q)
    else map_process (move root pid) (m q)

module _ (root next : ℕ) (m : Processes) (t : IsTree root next m) (pid : ℕ) (code : ℤ)
    (p : UnixProcess) (found : m pid ≡ some p) (not_root : pid ≢ root) where
  abbrev left : Processes
  left = exited root pid code p.children m

  left_root : (q : ℕ) → q ≡ root → left q ≡ map_process (add_children p.children) (m q)
  left_root q e = rw (==_true q root e) refl

  pub left_pid : (q : ℕ) → q ≡ pid → left q ≡ map_process (λ k. move root pid (bury code k)) (m q)
  left_pid q e = rw (==_false q root (λ z. not_root (sym e ∙ z)), ==_true q pid e) refl

  pub left_other : (q : ℕ) → q ≢ root → q ≢ pid → left q ≡ map_process (move root pid) (m q)
  left_other q ne np = rw (==_false q root ne, ==_false q pid np) refl

  -- The process y of number q becomes x.
  abbrev Origin : ℕ → UnixProcess → UnixProcess → Type 0
  Origin q y x =
      ((q ≡ root) × (add_children p.children y ≡ x))
      ⊎ (((q ≢ root) × (q ≡ pid) × (move root pid (bury code y) ≡ x))
          ⊎ ((q ≢ root) × (q ≢ pid) × (move root pid y ≡ x)))

  -- What a lookup finds after the exit.
  left_finds :
      (q : ℕ) (x : UnixProcess)
      → left q ≡ some x
      → (y : UnixProcess) × (m q ≡ some y) × Origin q y x
  left_finds q x h = elim (==_cases q root) [
    | inl (_, e) ↦
        let (y, at, same) = map_process-some _ (m q) x (sym (left_root q e) ∙ h) in
        (y, at, inl (e, same))
    | inr (_, ne) ↦ elim (==_cases q pid) [
      | inl (_, e) ↦
          let (y, at, same) = map_process-some _ (m q) x (sym (left_pid q e) ∙ h) in
          (y, at, inr (inl (ne, e, same)))
      | inr (_, np) ↦
          let (y, at, same) = map_process-some _ (m q) x (sym (left_other q ne np) ∙ h) in
          (y, at, inr (inr (ne, np, same)))
    ]
  ]

  kids_move :
      (a c : ℕ) (f : UnixProcess → UnixProcess) (o : Option UnixProcess)
      → ((k : UnixProcess) → (f k).ppid ≡ (if k.ppid == pid then root else k.ppid))
      → kids root a c (map_process f o) ≡ (
          if a == root
          then kids root root c o + kids root pid c o
          else if a == pid
          then 0
          else kids root a c o)
  kids_move a c f none same = ground (arith, not_root)
  kids_move a c f (some k) same = ground (arith, not_root, same k)

  kids-left :
      (a c : ℕ)
      → kids root a c (left c) ≡ (
          if a == root
          then kids root root c (m c) + kids root pid c (m c)
          else if a == pid
          then 0
          else kids root a c (m c))
  kids-left a c = elim (==_cases c root) [
    | inl (_, e) ↦
        let mine = kids_root root a c (m c) e in
        let to_root = kids_root root root c (m c) e in
        let to_pid = kids_root root pid c (m c) e in
        kids_root root a c (left c) e ∙ ground (arith, mine, to_root, to_pid)
    | inr (_, ne) ↦ elim (==_cases c pid) [
      | inl (_, e) ↦ ap (kids root a c) (left_pid c e) ∙ kids_move a c _ (m c) (λ k. refl)
      | inr (_, np) ↦ ap (kids root a c) (left_other c ne np) ∙ kids_move a c _ (m c) (λ k. refl)
    ]
  ]

  left_keeps : (c : ℕ) (x : UnixProcess) → m c ≡ some x → (y : UnixProcess) × (left c ≡ some y)
  left_keeps c x at = elim (==_cases c root) [
    | inl (_, e) ↦ (_, left_root c e ∙ ap (map_process (add_children p.children)) at)
    | inr (_, ne) ↦ elim (==_cases c pid) [
      | inl (_, e) ↦ (_, left_pid c e ∙ ap (map_process (λ k. move root pid (bury code k))) at)
      | inr (_, np) ↦ (_, left_other c ne np ∙ ap (map_process (move root pid)) at)
    ]
  ]

  is_root : (c : ℕ) → c ≡ root → (i : UnixProcess) × (left c ≡ some i)
  is_root c e =
      let (i, at, _) = t.rooted in let (y, here) = left_keeps root i at in (y, ap left e ∙ here)

  -- The parent after the move is in the table.
  moved_parented :
      (c : ℕ) (y : UnixProcess)
      → m c ≡ some y
      → c ≢ root
      → (q : UnixProcess) × (left (if y.ppid == pid then root else y.ppid) ≡ some q)
  moved_parented c y at ne =
      let (q, there) = t.parented c y at ne in
      if_both (λ a. (q : UnixProcess) × (left a ≡ some q)) (y.ppid == pid) root y.ppid
        (is_root root refl) (left_keeps y.ppid q there)

  left_parented :
      (c : ℕ) (x : UnixProcess)
      → left c ≡ some x
      → c ≢ root
      → (q : UnixProcess) × (left x.ppid ≡ some q)
  left_parented c x h ne =
      let (y, at, how) = left_finds c x h in
      let (q, there) = moved_parented c y at ne in (q, ap left (new_ppid y how) ∙ there)
    where
      new_ppid :
          (y : UnixProcess) → Origin c y x → x.ppid ≡ (if y.ppid == pid then root else y.ppid)
      new_ppid y (inl (e, _)) = absurd (ne e)
      new_ppid y (inr (inl (_, _, same))) = sym (ap UnixProcess.ppid same)
      new_ppid y (inr (inr (_, _, same))) = sym (ap UnixProcess.ppid same)

  left_numbered : (c : ℕ) (x : UnixProcess) → left c ≡ some x → c < next
  left_numbered c x h = let (y, at, _) = left_finds c x h in t.numbered c y at

  root-IsVital :
      (i : UnixProcess) → m root ≡ some i → IsVital i → IsVital (add_children p.children i)
  root-IsVital i at (inl (dead, _, _)) =
      let (j, there, lives) = t.rooted in
      absurd (
        false≢true
          (sym lives ∙ ap (λ z. is_zombie z.state) (some_inj (sym there ∙ at)) ∙ ap is_zombie dead))
  root-IsVital i at (inr v) = inr v

  left-IsVital : (c : ℕ) (x : UnixProcess) → left c ≡ some x → IsVital x
  left-IsVital c x h = let (y, at, how) = left_finds c x h in by_case y at how
    where
      by_case : (y : UnixProcess) → m c ≡ some y → Origin c y x → IsVital x
      by_case y at (inl (e, same)) =
          subst IsVital same (root-IsVital y (ap m (sym e) ∙ at) (t.vital c y at))
      by_case y at (inr (inl (_, _, same))) = subst IsVital same (inl (refl, refl, refl))
      by_case y at (inr (inr (_, _, same))) = subst IsVital same (t.vital c y at)

  left-IsTabled : (c : ℕ) (x : UnixProcess) → left c ≡ some x → IsTabled x
  left-IsTabled c x h = let (y, at, how) = left_finds c x h in by_case y (t.tabled c y at) how
    where
      by_case : (y : UnixProcess) → IsTabled y → Origin c y x → IsTabled x
      by_case y z (inl (_, same)) = subst IsTabled same z
      by_case y z (inr (inl (_, _, same))) = subst IsTabled same z
      by_case y z (inr (inr (_, _, same))) = subst IsTabled same z

  left_linked :
      (a c : ℕ) (x : UnixProcess) → left a ≡ some x → count c x.children ≡ kids root a c (left c)
  left_linked a c x h =
      let (y, at, how) = left_finds a x h in by_case y at how ∙ sym (kids-left a c)
    where
      by_case :
          (y : UnixProcess)
          → m a ≡ some y
          → Origin a y x
          → count c x.children ≡ (
              if a == root
              then kids root root c (m c) + kids root pid c (m c)
              else if a == pid
              then 0
              else kids root a c (m c))
      by_case y at (inl (e, same)) =
          ap (count c) (sym (ap UnixProcess.children same))
          ∙ count-append c y.children p.children
          ∙ ap₂ ◌+◌ (t.linked a c y at ∙ ap (λ z. kids root z c (m c)) e) (t.linked pid c p found)
          ∙ rw (==_true a root e) refl
      by_case y at (inr (inl (ne, e, same))) =
          ap (count c) (sym (ap UnixProcess.children same))
          ∙ rw (==_false a root ne, ==_true a pid e) refl
      by_case y at (inr (inr (ne, np, same))) =
          ap (count c) (sym (ap UnixProcess.children same))
          ∙ t.linked a c y at
          ∙ rw (==_false a root ne, ==_false a pid np) refl

  pub left-IsTree : IsTree root next left
  left-IsTree = record {
    rooted =
        let (i, at, lives) = t.rooted in
        (_, left_root root refl ∙ ap (map_process (add_children p.children)) at, lives);
    linked = left_linked;
    parented = left_parented;
    vital = left-IsVital;
    tabled = left-IsTabled;
    numbered = left_numbered;
  }
