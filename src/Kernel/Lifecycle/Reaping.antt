-- ===== src/Kernel/Lifecycle/Reaping.antt =====
-- `Wait` of pkg/kernel/process_lifecycle.go keeps the tree of processes.
use os_simulator.Base.{
  ==_cases, ==_false, List, [], ap, arith, count, false, if◌then◌else◌, inl, inr, refl, some,
  some_inj, subst, suc, sym, true, ℕ, ◌<◌, ◌==◌, ◌∙◌, ◌≡◌, ◌≢◌, ◌⊎◌,
}
use os_simulator.Kernel.Lifecycle.{
  Processes, UnixProcess, delete_process, is_zombie, keep_children, map_process, modify,
}
use os_simulator.Kernel.Lifecycle.Tree.{
  IsTabled, IsTree, IsVital, kids, kids-modify, kids_child, kids_le, kids_none, modify_finds,
  modify_here, modify_keeps, modify_there,
}
use os_simulator.Kernel.Lifecycle.Zombies.{delete_finds, zombie_childless}

-- The zombie c, a child of the process parent, leaves the tree.
module _ (root next : ℕ) (m : Processes) (t : IsTree root next m) (parent : ℕ) (p : UnixProcess)
    (found : m parent ≡ some p) (c : ℕ) (k : UnixProcess) (at : m c ≡ some k)
    (dead : is_zombie k.state ≡ true) (rest : List ℕ) (is_child : 0 < count c p.children)
    (counts : (d : ℕ)
      → count d p.children ≡ (if c == d then suc (count d rest) else count d rest)) where
  abbrev reaped_table : Processes
  reaped_table = modify parent (keep_children rest) (delete_process c m)

  pub c_ppid : k.ppid ≡ parent
  c_ppid =
      let (_, x, at', e) =
        kids_child root parent c (m c) (omega (arith, is_child, t.linked parent c p found)) in
      ap UnixProcess.ppid (some_inj (sym at ∙ at')) ∙ e

  c_not_root : c ≢ root
  c_not_root =
      (kids_child root parent c (m c) (omega (arith, is_child, t.linked parent c p found))).0

  -- Nobody is a child of the zombie.
  no_kids : (d : ℕ) → kids root c d (m d) ≡ 0
  no_kids d = sym (t.linked c d k at) ∙ ap (count d) (zombie_childless k (t.vital c k at) dead)

  pub parent_other : parent ≢ c
  parent_other e =
      let same : p ≡ k = some_inj (sym found ∙ ap m e ∙ at) in
      let none_left : p.children ≡ [] =
        ap UnixProcess.children same ∙ zombie_childless k (t.vital c k at) dead in
      absurd (omega (arith, is_child, ap (count c) none_left))

  reaped_kids :
      (a d : ℕ) → kids root a d (reaped_table d) ≡ (if d == c then 0 else kids root a d (m d))
  reaped_kids a d =
      kids-modify root a d parent (keep_children rest) (delete_process c m) (λ x. refl)
      ∙ elim (==_cases d c) [ inl (b, _) ↦ rw b refl | inr (b, _) ↦ rw b refl ]

  -- What a lookup finds after the reaping.
  reaped_finds :
      (a : ℕ) (x : UnixProcess)
      → reaped_table a ≡ some x
      → (a ≢ c)
        × (y : UnixProcess) × (m a ≡ some y)
        × (((a ≡ parent) × (keep_children rest y ≡ x)) ⊎ ((a ≢ parent) × (y ≡ x)))
  reaped_finds a x h = elim (modify_finds parent a (keep_children rest) x (delete_process c m) h) [
    | inl (e, y, del, same) ↦
        let (ne, there) = delete_finds c a y m del in (ne, y, there, inl (e, same))
    | inr (other, del) ↦
        let (ne, there) = delete_finds c a x m del in (ne, x, there, inr (other, refl))
  ]

  count_rest : (d : ℕ) → count d rest ≡ (if d == c then 0 else kids root parent d (m d))
  count_rest d =
      let all = t.linked parent d p found in
      let most = kids_le root parent d (m d) in ground (arith, all, most, counts d)

  reaped_linked :
      (a d : ℕ) (x : UnixProcess)
      → reaped_table a ≡ some x
      → count d x.children ≡ kids root a d (reaped_table d)
  reaped_linked a d x h =
      let (_, y, there, how) = reaped_finds a x h in by_case y there how ∙ sym (reaped_kids a d)
    where
      by_case :
          (y : UnixProcess)
          → m a ≡ some y
          → ((a ≡ parent) × (keep_children rest y ≡ x)) ⊎ ((a ≢ parent) × (y ≡ x))
          → count d x.children ≡ (if d == c then 0 else kids root a d (m d))
      by_case y there (inl (e, same)) =
          ap (count d) (sym (ap UnixProcess.children same))
          ∙ count_rest d
          ∙ ap (λ z. if d == c then 0 else kids root z d (m d)) (sym e)
      by_case y there (inr (ne, same)) =
          ap (count d) (sym (ap UnixProcess.children same)) ∙ t.linked a d y there ∙ other ne
        where
          other : a ≢ parent → kids root a d (m d) ≡ (if d == c then 0 else kids root a d (m d))
          other ne = elim (==_cases d c) [
            | inl (b, e) ↦ rw b (
                ap (kids root a d) (ap m e ∙ at)
                ∙ kids_none root a d (some k) (λ z q _ z_ppid.
                  ne (sym z_ppid ∙ ap UnixProcess.ppid (sym (some_inj q)) ∙ c_ppid)))
            | inr (b, _) ↦ rw b refl
          ]

  reaped_keeps :
      (a : ℕ) (y : UnixProcess)
      → m a ≡ some y
      → a ≢ c
      → (x : UnixProcess) × (reaped_table a ≡ some x)
  reaped_keeps a y there ne =
      modify_keeps parent a (keep_children rest) (delete_process c m)
        (y, rw (==_false a c ne) there)

  reaped_parented :
      (d : ℕ) (x : UnixProcess)
      → reaped_table d ≡ some x
      → d ≢ root
      → (q : UnixProcess) × (reaped_table x.ppid ≡ some q)
  reaped_parented d x h ne =
      let (_, y, there, how) = reaped_finds d x h in
      let (q, up) = t.parented d y there ne in
      let (z, kept) = reaped_keeps y.ppid q up (not_of_c y there) in
      (z, ap reaped_table (same_ppid y how) ∙ kept)
    where
      same_ppid :
          (y : UnixProcess)
          → ((d ≡ parent) × (keep_children rest y ≡ x)) ⊎ ((d ≢ parent) × (y ≡ x))
          → x.ppid ≡ y.ppid
      same_ppid y (inl (_, same)) = sym (ap UnixProcess.ppid same)
      same_ppid y (inr (_, same)) = sym (ap UnixProcess.ppid same)

      not_of_c : (y : UnixProcess) → m d ≡ some y → y.ppid ≢ c
      not_of_c y there e =
          let no = no_kids d in
          let yes : kids root c d (m d) ≡ 1 = ap (kids root c d) there ∙ ground (arith, e, ne) in
          omega (arith, no, yes)

  reaped-IsVital : (d : ℕ) (x : UnixProcess) → reaped_table d ≡ some x → IsVital x
  reaped-IsVital d x h = let (_, y, there, how) = reaped_finds d x h in by_case y there how
    where
      by_case :
          (y : UnixProcess)
          → m d ≡ some y
          → ((d ≡ parent) × (keep_children rest y ≡ x)) ⊎ ((d ≢ parent) × (y ≡ x))
          → IsVital x
      by_case y there (inl (e, same)) =
          subst IsVital same
            (kept_vital y (some_inj (sym there ∙ ap m e ∙ found)) (t.vital d y there))
        where
          kept_vital : (y : UnixProcess) → y ≡ p → IsVital y → IsVital (keep_children rest y)
          kept_vital y e (inl (_, _, none_left)) =
              absurd (
                omega (arith, is_child, ap (count c) (sym (ap UnixProcess.children e) ∙ none_left)))
          kept_vital y e (inr v) = inr v
      by_case y there (inr (_, same)) = subst IsVital same (t.vital d y there)

  root_kept : (x : UnixProcess) × (reaped_table root ≡ some x) × (is_zombie x.state ≡ false)
  root_kept =
      let (i, up, lives) = t.rooted in
      let stays : delete_process c m root ≡ some i =
        rw (==_false root c (λ e. c_not_root (sym e))) up in
      elim (==_cases root parent) [
        | inl (b, e) ↦ (
          keep_children rest i,
          modify_here parent root (keep_children rest) (delete_process c m) b
              ∙ ap (map_process (keep_children rest)) stays,
          lives,
        )
        | inr (b, _) ↦
            (i, modify_there parent root (keep_children rest) (delete_process c m) b ∙ stays, lives)
      ]

  reaped-IsTabled : (d : ℕ) (x : UnixProcess) → reaped_table d ≡ some x → IsTabled x
  reaped-IsTabled d x h =
      let (_, y, there, how) = reaped_finds d x h in by_case y (t.tabled d y there) how
    where
      by_case :
          (y : UnixProcess)
          → IsTabled y
          → ((d ≡ parent) × (keep_children rest y ≡ x)) ⊎ ((d ≢ parent) × (y ≡ x))
          → IsTabled x
      by_case y z (inl (e, same)) = subst IsTabled same z
      by_case y z (inr (_, same)) = subst IsTabled same z

  pub reaped-IsTree : IsTree root next reaped_table
  reaped-IsTree = record {
    rooted = root_kept;
    linked = reaped_linked;
    parented = reaped_parented;
    vital = reaped-IsVital;
    tabled = reaped-IsTabled;
    numbered = λ d x h. let (_, y, there, _) = reaped_finds d x h in t.numbered d y there;
  }
