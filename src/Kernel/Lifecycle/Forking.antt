-- ===== src/Kernel/Lifecycle/Forking.antt =====
-- `Fork` of pkg/kernel/process_lifecycle.go keeps the tree of processes.
use os_simulator.Base.{
  ==_cases, Option-cases, [], ap, arith, count, count-append, if◌then◌else◌, inl, inr, none, refl,
  some, some_inj, subst, sym, ℕ, ◌++◌, ◌+◌, ◌<◌, ◌==◌, ◌∙◌, ◌∷◌, ◌≡◌, ◌≢◌,
}
use os_simulator.Kernel.Lifecycle.{
  Processes, UnixProcess, insert_process, is_zombie, map_process, mark_parent, modify,
}
use os_simulator.Kernel.Lifecycle.Tree.{
  IsTabled, IsTree, IsVital, insert_process_finds, insert_process_there, kids, kids-modify,
  kids_none, modify_finds, modify_here, modify_there, ppid_lt,
}
use os_simulator.Memory.AddressSpace.{AddressSpace}

-- A living process p in a tree gets the child of the next number.
module _ (root next : ℕ) (m : Processes) (t : IsTree root next m) (parent : ℕ) (p : UnixProcess)
    (found : m parent ≡ some p) (k : UnixProcess) (is_child : k.ppid ≡ parent)
    (childless : k.children ≡ []) (lives : IsVital k) (paged : IsTabled k) (space : AddressSpace)
    (alive : p.address_space ≡ some space) where
  abbrev marked : Processes
  marked = modify parent (mark_parent next) m

  abbrev forked : Processes
  forked = insert_process next k marked

  next_free : m next ≡ none
  next_free = elim (Option-cases (m next)) [
    | inl e ↦ e
    | inr (q, e) ↦ absurd (omega (arith, t.numbered next q e))
  ]

  root_lt : root < next
  root_lt = let (i, e, _) = t.rooted in t.numbered root i e

  parent_lt : parent < next
  parent_lt = t.numbered parent p found

  -- Nobody had the new number as a parent.
  kids-forked_next : (c : ℕ) → kids root next c (forked c) ≡ 0
  kids-forked_next c = kids_none root next c (forked c) other_parent
    where
      other_parent : (x : UnixProcess) → forked c ≡ some x → c ≢ root → x.ppid ≢ next
      other_parent x h ne e = elim (insert_process_finds next c k x marked h) [
        | inl (_, same) ↦ absurd (omega (arith, ap UnixProcess.ppid same, is_child, e, parent_lt))
        | inr (_, g) ↦ elim (modify_finds parent c (mark_parent next) x m g) [
          | inl (_, q, at, same) ↦
              absurd (omega (arith, ap UnixProcess.ppid same, e, ppid_lt root next m c q t at ne))
          | inr (_, at) ↦ absurd (omega (arith, e, ppid_lt root next m c x t at ne))
        ]
      ]

  -- Who was whose child stays so, and the new process is the parent's.
  kids-forked :
      (a c : ℕ)
      → kids root a c (forked c)
        ≡ (if c == next then if parent == a then 1 else 0 else kids root a c (m c))
  kids-forked a c = elim (==_cases c next) [
    | inl (b, e) ↦ rw b (ground (arith, e, is_child, root_lt))
    | inr (b, ne) ↦ rw b (kids-modify root a c parent (mark_parent next) m (λ x. refl))
  ]

  count_marked : (c : ℕ) → count c (p.children ++ next ∷ []) ≡ kids root parent c (forked c)
  count_marked c =
      count-append c p.children (next ∷ [])
      ∙ ap (λ z. z + count c (next ∷ [])) (t.linked parent c p found)
      ∙ last c
      ∙ sym (kids-forked parent c)
    where
      last :
          (c : ℕ)
          → kids root parent c (m c) + count c (next ∷ [])
            ≡ (if c == next then if parent == parent then 1 else 0 else kids root parent c (m c))
      last c = elim (==_cases c next) [
        | inl (b, e) ↦
            let none_yet : kids root parent c (m c) ≡ 0 =
              ap (kids root parent c) (ap m e ∙ next_free) in
            ground (arith, b, e, none_yet)
        | inr (b, ne) ↦ ground (arith, b, ne)
      ]

  is_parent : (a : ℕ) (x : UnixProcess) → a ≡ parent → m a ≡ some x → x ≡ p
  is_parent a x e at = some_inj (sym at ∙ ap m e ∙ found)

  kids-forked_other : (a c : ℕ) → a ≢ parent → kids root a c (m c) ≡ kids root a c (forked c)
  kids-forked_other a c other = elim (==_cases c next) [
    | inl (b, e) ↦
        let none_yet : kids root a c (m c) ≡ 0 = ap (kids root a c) (ap m e ∙ next_free) in
        none_yet ∙ sym (kids-forked a c ∙ ground (arith, b, other))
    | inr (b, ne) ↦ sym (kids-forked a c ∙ rw b refl)
  ]

  -- A process of the table stays, in the same state.
  forked_keeps :
      (c : ℕ) (x : UnixProcess)
      → m c ≡ some x
      → (y : UnixProcess) × (forked c ≡ some y) × (y.state ≡ x.state)
  forked_keeps c x at = elim (==_cases c next) [
    | inl (b, e) ↦ absurd (omega (arith, e, t.numbered c x at))
    | inr (b, ne) ↦ elim (==_cases c parent) [
      | inl (b', e) ↦ (
        mark_parent next x,
        insert_process_there next c k marked b
            ∙ modify_here parent c (mark_parent next) m b'
            ∙ ap (map_process (mark_parent next)) at,
        refl,
      )
      | inr (b', _) ↦ (
        x,
        insert_process_there next c k marked b ∙ modify_there parent c (mark_parent next) m b' ∙ at,
        refl,
      )
    ]
  ]

  parent_present : (a : ℕ) → a ≡ parent → (q : UnixProcess) × (forked a ≡ some q)
  parent_present a e = let (y, at, _) = forked_keeps parent p found in (y, ap forked e ∙ at)

  old_parented :
      (c : ℕ) (x : UnixProcess)
      → m c ≡ some x
      → c ≢ root
      → (q : UnixProcess) × (forked x.ppid ≡ some q)
  old_parented c x at ne =
      let (q, there) = t.parented c x at ne in
      let (y, here, _) = forked_keeps x.ppid q there in (y, here)

  forked_parented :
      (c : ℕ) (x : UnixProcess)
      → forked c ≡ some x
      → c ≢ root
      → (q : UnixProcess) × (forked x.ppid ≡ some q)
  forked_parented c x h ne = elim (insert_process_finds next c k x marked h) [
    | inl (_, same) ↦ parent_present x.ppid (sym (ap UnixProcess.ppid same) ∙ is_child)
    | inr (_, g) ↦ elim (modify_finds parent c (mark_parent next) x m g) [
      | inl (_, y, at, same) ↦
          let (q, there) = old_parented c y at ne in
          (q, ap forked (sym (ap UnixProcess.ppid same)) ∙ there)
      | inr (_, at) ↦ old_parented c x at ne
    ]
  ]

  marked-IsVital : (x : UnixProcess) → x ≡ p → IsVital x → IsVital (mark_parent next x)
  marked-IsVital x e (inl (_, gone, _)) =
      let a = alive in let b = ap UnixProcess.address_space e in cc
  marked-IsVital x e (inr v) = inr v

  forked-IsVital : (c : ℕ) (x : UnixProcess) → forked c ≡ some x → IsVital x
  forked-IsVital c x h = elim (insert_process_finds next c k x marked h) [
    | inl (_, same) ↦ subst IsVital same lives
    | inr (_, g) ↦ elim (modify_finds parent c (mark_parent next) x m g) [
      | inl (e, y, at, same) ↦
          subst IsVital same (marked-IsVital y (is_parent c y e at) (t.vital c y at))
      | inr (_, at) ↦ t.vital c x at
    ]
  ]

  forked-IsTabled : (c : ℕ) (x : UnixProcess) → forked c ≡ some x → IsTabled x
  forked-IsTabled c x h = elim (insert_process_finds next c k x marked h) [
    | inl (_, same) ↦ subst IsTabled same paged
    | inr (_, g) ↦ elim (modify_finds parent c (mark_parent next) x m g) [
      | inl (_, y, at, same) ↦ subst IsTabled same (t.tabled c y at)
      | inr (_, at) ↦ t.tabled c x at
    ]
  ]

  forked_numbered : (c : ℕ) (x : UnixProcess) → forked c ≡ some x → c < next + 1
  forked_numbered c x h = elim (insert_process_finds next c k x marked h) [
    | inl (e, _) ↦ omega (arith, e)
    | inr (_, g) ↦ elim (modify_finds parent c (mark_parent next) x m g) [
      | inl (_, y, at, _) ↦ omega (arith, t.numbered c y at)
      | inr (_, at) ↦ omega (arith, t.numbered c x at)
    ]
  ]

  forked_linked :
      (a c : ℕ) (q : UnixProcess)
      → forked a ≡ some q
      → count c q.children ≡ kids root a c (forked c)
  forked_linked a c q h = elim (insert_process_finds next a k q marked h) [
    | inl (e, same) ↦
        ap (count c) (sym (ap UnixProcess.children same) ∙ childless)
        ∙ sym (kids-forked_next c)
        ∙ ap (λ z. kids root z c (forked c)) (sym e)
    | inr (ne, g) ↦ elim (modify_finds parent a (mark_parent next) q m g) [
      | inl (e, x, at, same) ↦
          ap (count c) (
            sym (ap UnixProcess.children same)
            ∙ ap (λ z. z.children ++ next ∷ []) (is_parent a x e at))
          ∙ count_marked c
          ∙ ap (λ z. kids root z c (forked c)) (sym e)
      | inr (other, at) ↦ t.linked a c q at ∙ kids-forked_other a c other
    ]
  ]

  pub forked-IsTree : IsTree root (next + 1) forked
  forked-IsTree = record {
    rooted =
        let (i, at, z) = t.rooted in
        let (y, there, same) = forked_keeps root i at in (y, there, ap is_zombie same ∙ z);
    linked = forked_linked;
    parented = forked_parented;
    vital = forked-IsVital;
    tabled = forked-IsTabled;
    numbered = forked_numbered;
  }
