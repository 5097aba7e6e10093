-- ===== src/Kernel/Lifecycle/Loading.antt =====
-- The page tables and images that `Fork` and `Exec` of pkg/kernel/process_lifecycle.go make.
use os_simulator.Base.{
  ==_cases, Bool, Bool-cases, List, [], ap, arith, count, inl, inr, int_min, length, length-set,
  ltb, refl, returns, set, some, subst, suc, sym, true, u64, ℕ, ◌*◌, ◌+◌, ◌<◌, ◌∙◌, ◌∷◌, ◌≡◌,
}
use os_simulator.Kernel.Lifecycle.{
  Processes, UnixProcess, copy_entries, is_zombie, map_process, modify,
}
use os_simulator.Kernel.Lifecycle.Tree.{
  IsTabled, IsTree, IsVital, kids-modify, modify_finds, modify_here, modify_keeps, modify_there,
}
use os_simulator.Memory.Paging.{PageTable, PageTableEntry, map_page, mapped_entry, new_page_table}

-- `MapPage` at an index that is an `int` never panics, and keeps the number of entries.
map_page-length :
    (pt : PageTable) (vpn frame : ℕ) (writable : Bool)
    → vpn < int_min
    → (pt' : PageTable) × (map_page pt vpn frame writable ≡ returns pt')
      × (length pt'.entries ≡ length pt.entries)
unfolding map_page
map_page-length pt vpn frame writable h = elim (Bool-cases (ltb vpn (length pt.entries))) [
  | inl b ↦ (
    record pt { entries = set pt.entries vpn (mapped_entry frame writable) },
    ground (arith, b),
    length-set pt.entries vpn (mapped_entry frame writable),
  )
  | inr b ↦ (pt, ground (arith, b), refl)
]

pub copy_entries-length :
    (child i : ℕ) (es : List PageTableEntry) (table : PageTable)
    → i + length es < int_min
    → (table' : PageTable) × (copy_entries child i es table ≡ returns table')
      × (length table'.entries ≡ length table.entries)
unfolding copy_entries
copy_entries-length child i [] table h = (table, refl, refl)
copy_entries-length child i (e ∷ es) table h = elim (Bool-cases e.valid) [
  | inr b ↦
      let (table', q, n) = copy_entries-length child (suc i) es table (omega (arith, h)) in
      (table', rw (b, copy_entries) q, n)
  | inl b ↦
      let (mapped, r, l) =
        map_page-length table i (u64 (e.pfn + u64 (child * 10))) e.read_write (omega (arith, h)) in
      let (table', q, n) = copy_entries-length child (suc i) es mapped (omega (arith, h)) in
      (table', rw (b, copy_entries, r) q, n ∙ l)
]

pub new_table_length : (pid : ℕ) → length (new_page_table pid 16 4096).entries ≡ 16
unfolding new_page_table
new_table_length pid = refl

pub first_page :
    (pid frame : ℕ)
    → (table : PageTable) × (map_page (new_page_table pid 16 4096) 0 frame true ≡ returns table)
      × (length table.entries ≡ 16)
first_page pid frame =
    let (table, e, n) = map_page-length (new_page_table pid 16 4096) 0 frame true (omega arith) in
    (table, e, n ∙ new_table_length pid)

-- A write that keeps the family of a process and its life keeps the tree.
pub modify-IsTree :
    (root next i : ℕ) (f : UnixProcess → UnixProcess) (m : Processes)
    → ((k : UnixProcess)
        → ((f k).ppid ≡ k.ppid) × ((f k).children ≡ k.children) × ((f k).state ≡ k.state))
    → ((k : UnixProcess) → m i ≡ some k → IsVital (f k) × IsTabled (f k))
    → IsTree root next m
    → IsTree root next (modify i f m)
modify-IsTree root next i f m same alive t = record {
  rooted =
      let (q, at, lives) = t.rooted in
      elim (==_cases root i) [
        | inl (b, e) ↦
            (f q, modify_here i root f m b ∙ ap (map_process f) at, ap is_zombie (same q).2 ∙ lives)
        | inr (b, _) ↦ (q, modify_there i root f m b ∙ at, lives)
      ];
  linked = λ p c q h. elim (modify_finds i p f q m h) [
    | inl (_, y, at, e) ↦
        ap (count c) (sym (ap UnixProcess.children e) ∙ (same y).1)
        ∙ t.linked p c y at
        ∙ sym (kids-modify root p c i f m (λ k. (same k).0))
    | inr (_, at) ↦ t.linked p c q at ∙ sym (kids-modify root p c i f m (λ k. (same k).0))
  ];
  parented = λ c k h ne. elim (modify_finds i c f k m h) [
    | inl (_, y, at, e) ↦
        let (x, kept) = modify_keeps i y.ppid f m (t.parented c y at ne) in
        (x, ap (modify i f m) (sym (ap UnixProcess.ppid e) ∙ (same y).0) ∙ kept)
    | inr (_, at) ↦ modify_keeps i k.ppid f m (t.parented c k at ne)
  ];
  vital = λ c k h. elim (modify_finds i c f k m h) [
    | inl (e, y, at, z) ↦ subst IsVital z (alive y (ap m (sym e) ∙ at)).0
    | inr (_, at) ↦ t.vital c k at
  ];
  tabled = λ c k h. elim (modify_finds i c f k m h) [
    | inl (e, y, at, z) ↦ subst IsTabled z (alive y (ap m (sym e) ∙ at)).1
    | inr (_, at) ↦ t.tabled c k at
  ];
  numbered = λ c k h. elim (modify_finds i c f k m h) [
    | inl (_, y, at, _) ↦ t.numbered c y at
    | inr (_, at) ↦ t.numbered c k at
  ];
}
