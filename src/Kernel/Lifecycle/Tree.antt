-- ===== src/Kernel/Lifecycle/Tree.antt =====
-- The tree of processes of pkg/kernel/process_lifecycle.go.
use os_simulator.Base.{
  ==_cases, Option, [], ap, arith, count, false, if◌then◌else◌, inl, inr, length, none, refl, some,
  some_inj, subst, sym, true, ℕ, ◌<◌, ◌==◌, ◌∙◌, ◌≡◌, ◌≢◌, ◌≤◌, ◌⊎◌,
}
use os_simulator.Kernel.Lifecycle.{
  Processes, UnixProcess, init_process, insert_process, is_zombie, map_process, modify,
  new_process_manager, zombie,
}
use os_simulator.Memory.AddressSpace.{AddressSpace, new_address_space}
use os_simulator.Memory.Paging.{new_page_table}

-- How often the process of number c, found in the table or not, should stand among the children of p.
abbrev pub kids : ℕ → ℕ → ℕ → Option UnixProcess → ℕ
kids root p c none = 0
kids root p c (some k) = if c == root then 0 else if k.ppid == p then 1 else 0

-- A zombie has given up its address space and its children; every other process has a space.
abbrev pub IsVital : UnixProcess → Type 0
IsVital p =
    ((p.state ≡ zombie) × (p.address_space ≡ none) × (p.children ≡ []))
    ⊎ ((s : AddressSpace) × (p.address_space ≡ some s) × (is_zombie p.state ≡ false))

-- Every page table of a process has 16 entries.
abbrev pub IsTabled : UnixProcess → Type 0
IsTabled p = length p.page_table.entries ≡ 16

-- The processes are a tree: init lives, every other process has its parent in the table and stands
-- once among its children, and nothing else is a child. All numbers are below the next one.
pub record IsTree (root next : ℕ) (m : Processes) : Type 0 where
  pub rooted : (i : UnixProcess) × (m root ≡ some i) × (is_zombie i.state ≡ false)
  pub linked : (p c : ℕ) (q : UnixProcess) → m p ≡ some q → count c q.children ≡ kids root p c (m c)
  pub parented :
      (c : ℕ) (k : UnixProcess) → m c ≡ some k → c ≢ root → (q : UnixProcess) × (m k.ppid ≡ some q)
  pub vital : (c : ℕ) (k : UnixProcess) → m c ≡ some k → IsVital k
  pub tabled : (c : ℕ) (k : UnixProcess) → m c ≡ some k → IsTabled k
  pub numbered : (c : ℕ) (k : UnixProcess) → m c ≡ some k → c < next

-- What a lookup finds after a write.
pub insert_process_here :
    (i c : ℕ) (p : UnixProcess) (m : Processes) → (c == i) ≡ true → insert_process i p m c ≡ some p
insert_process_here i c p m b = rw b refl

pub insert_process_there :
    (i c : ℕ) (p : UnixProcess) (m : Processes) → (c == i) ≡ false → insert_process i p m c ≡ m c
insert_process_there i c p m b = rw b refl

pub insert_process_finds :
    (i c : ℕ) (p k : UnixProcess) (m : Processes)
    → insert_process i p m c ≡ some k
    → ((c ≡ i) × (p ≡ k)) ⊎ ((c ≢ i) × (m c ≡ some k))
insert_process_finds i c p k m h = elim (==_cases c i) [
  | inl (b, e) ↦ inl (e, some_inj (sym (insert_process_here i c p m b) ∙ h))
  | inr (b, ne) ↦ inr (ne, sym (insert_process_there i c p m b) ∙ h)
]

pub map_process-some :
    (f : UnixProcess → UnixProcess) (o : Option UnixProcess) (k : UnixProcess)
    → map_process f o ≡ some k
    → (q : UnixProcess) × (o ≡ some q) × (f q ≡ k)
map_process-some f none k h = cc
map_process-some f (some q) k h = (q, refl, some_inj h)

pub modify_here :
    (i c : ℕ) (f : UnixProcess → UnixProcess) (m : Processes)
    → (c == i) ≡ true
    → modify i f m c ≡ map_process f (m c)
modify_here i c f m b = rw b refl

pub modify_there :
    (i c : ℕ) (f : UnixProcess → UnixProcess) (m : Processes)
    → (c == i) ≡ false
    → modify i f m c ≡ m c
modify_there i c f m b = rw b refl

pub modify_finds :
    (i c : ℕ) (f : UnixProcess → UnixProcess) (k : UnixProcess) (m : Processes)
    → modify i f m c ≡ some k
    → ((c ≡ i) × (q : UnixProcess) × (m c ≡ some q) × (f q ≡ k)) ⊎ ((c ≢ i) × (m c ≡ some k))
modify_finds i c f k m h = elim (==_cases c i) [
  | inl (b, e) ↦
      let (q, at, same) = map_process-some f (m c) k (sym (modify_here i c f m b) ∙ h) in
      inl (e, q, at, same)
  | inr (b, ne) ↦ inr (ne, sym (modify_there i c f m b) ∙ h)
]

pub modify_keeps :
    (i c : ℕ) (f : UnixProcess → UnixProcess) (m : Processes)
    → (k : UnixProcess) × (m c ≡ some k)
    → (x : UnixProcess) × (modify i f m c ≡ some x)
modify_keeps i c f m (k, at) = elim (==_cases c i) [
  | inl (b, e) ↦ (f k, modify_here i c f m b ∙ ap (map_process f) at)
  | inr (b, ne) ↦ (k, modify_there i c f m b ∙ at)
]

-- A write that keeps the parents keeps who is whose child.
pub kids-map_process :
    (root p c : ℕ) (f : UnixProcess → UnixProcess) (o : Option UnixProcess)
    → ((k : UnixProcess) → (f k).ppid ≡ k.ppid)
    → kids root p c (map_process f o) ≡ kids root p c o
kids-map_process root p c f none same = refl
kids-map_process root p c f (some k) same =
    ap (λ z. if c == root then 0 else if z == p then 1 else 0) (same k)

pub kids-modify :
    (root p c i : ℕ) (f : UnixProcess → UnixProcess) (m : Processes)
    → ((k : UnixProcess) → (f k).ppid ≡ k.ppid)
    → kids root p c (modify i f m c) ≡ kids root p c (m c)
kids-modify root p c i f m same = elim (==_cases c i) [
  | inl (b, e) ↦ rw b (kids-map_process root p c f (m c) same)
  | inr (b, ne) ↦ rw b refl
]

-- A table in which every process but init has another parent than p gives p no children.
pub kids_none :
    (root p c : ℕ) (o : Option UnixProcess)
    → ((k : UnixProcess) → o ≡ some k → c ≢ root → k.ppid ≢ p)
    → kids root p c o ≡ 0
kids_none root p c none h = refl
kids_none root p c (some k) h = ground (arith, h k refl)

-- Init is nobody's child.
pub kids_root : (root p c : ℕ) (o : Option UnixProcess) → c ≡ root → kids root p c o ≡ 0
kids_root root p c none e = refl
kids_root root p c (some k) e = ground (arith, e)

pub kids_le : (root p c : ℕ) (o : Option UnixProcess) → kids root p c o ≤ 1
kids_le root p c none = omega arith
kids_le root p c (some k) = ground arith

-- A child is in the table, and is not init.
pub kids_child :
    (root p c : ℕ) (o : Option UnixProcess)
    → 0 < kids root p c o
    → (c ≢ root) × (k : UnixProcess) × (o ≡ some k) × (k.ppid ≡ p)
kids_child root p c none h = absurd (omega (arith, h))
kids_child root p c (some k) h = (ground (arith, h), k, refl, ground (arith, h))

pub ppid_lt :
    (root next : ℕ) (m : Processes) (c : ℕ) (k : UnixProcess)
    → IsTree root next m
    → m c ≡ some k
    → c ≢ root
    → k.ppid < next
ppid_lt root next m c k t h ne = let (q, at) = t.parented c k h ne in t.numbered k.ppid q at

pub new_process_manager-IsTree : IsTree 1 2 new_process_manager.processes
unfolding new_process_manager init_process new_page_table
new_process_manager-IsTree = record {
  rooted = (init_process, refl, refl);
  linked = λ p c q h. ground (arith, h);
  parented = λ c k h ne. ground (arith, h, ne);
  vital = λ c k h. elim (insert_process_finds 1 c init_process k (λ q. none) h) [
    | inl (e, same) ↦ subst IsVital same (inr (new_address_space 1 65536 1048576, refl, refl))
    | inr (ne, found) ↦ cc
  ];
  tabled = λ c k h. elim (insert_process_finds 1 c init_process k (λ q. none) h) [
    | inl (e, same) ↦ subst IsTabled same refl
    | inr (ne, found) ↦ cc
  ];
  numbered = λ c k h. ground (arith, h);
}
