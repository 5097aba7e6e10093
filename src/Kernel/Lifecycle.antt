-- ===== src/Kernel/Lifecycle.antt =====
-- pkg/kernel/process_lifecycle.go: fork, exec, exit and wait on the table of processes. Its mutex makes
-- each call one step. The log of texts is left out. A `*UnixProcess` is the process's place in the
-- table: a write through it is `modify`.
pub mod Tree
pub mod Forking
pub mod Adopting
pub mod Exiting
pub mod Ending
pub mod Zombies
pub mod Reaping
pub mod Loading
pub mod Waiting
pub mod Calls
pub mod Orphans
mod Tests
use Prim.Native.String.{◌++◌ as ◌+++◌}
use os_simulator.Base.{
  Bool, List, Option, Outcome, String, [], false, if◌then◌else◌, inl, inr, none, panics, returns,
  some, suc, true, u64, ℕ, ◌*◌, ◌++◌, ◌+◌, ◌==◌, ◌>>=◌, ◌∷◌, ◌⊎◌,
}
use os_simulator.Base.Int.{pos, ℤ}
use os_simulator.Memory.AddressSpace.{AddressSpace, new_address_space}
use os_simulator.Memory.Paging.{PageTable, PageTableEntry, map_page, new_page_table}

-- ErrNoSuchProcess, ErrNoChild, and the errors without a name of `Exit` and `Wait`.
pub data LifecycleError : Type 0 where
  no_such_process no_child init_exit would_block : LifecycleError

pub data UnixProcessState : Type 0 where
  ready running blocked zombie reaped : UnixProcessState

pub record SyscallRegisters : Type 0 where
  pub rax : ℕ
  pub rdi : ℕ
  pub rsi : ℕ
  pub rdx : ℕ
  pub r10 : ℕ
  pub r8 : ℕ
  pub r9 : ℕ

-- An address space that is `nil` is `none`; the descriptors are a map from their numbers.
pub record UnixProcess : Type 0 where
  pub pid : ℕ
  pub ppid : ℕ
  pub name : String
  pub state : UnixProcessState
  pub exit_code : ℤ
  pub address_space : Option AddressSpace
  pub page_table : PageTable
  pub registers : SyscallRegisters
  pub open_fds : ℕ → Option String
  pub children : List ℕ

abbrev pub Processes : Type 0
Processes = ℕ → Option UnixProcess

pub record ProcessManager : Type 0 where
  pub processes : Processes
  pub next_pid : ℕ
  pub init_pid : ℕ

abbrev pub insert_process : ℕ → UnixProcess → Processes → Processes
insert_process i p m = λ q. if q == i then some p else m q

abbrev pub delete_process : ℕ → Processes → Processes
delete_process i m = λ q. if q == i then none else m q

abbrev pub map_process : (UnixProcess → UnixProcess) → Option UnixProcess → Option UnixProcess
map_process f none = none
map_process f (some p) = some (f p)

abbrev pub modify : ℕ → (UnixProcess → UnixProcess) → Processes → Processes
modify i f m = λ q. if q == i then map_process f (m q) else m q

abbrev pub no_registers : SyscallRegisters
no_registers = record { rax = 0; rdi = 0; rsi = 0; rdx = 0; r10 = 0; r8 = 0; r9 = 0 }

abbrev pub standard_fds : ℕ → Option String
standard_fds fd =
    if fd == 0
    then some "stdin"
    else if fd == 1
    then some "stdout"
    else if fd == 2
    then some "stderr"
    else none

unfoldable pub init_process : UnixProcess
init_process = record {
  pid = 1;
  ppid = 0;
  name = "init";
  state = ready;
  exit_code = pos 0;
  address_space = some (new_address_space 1 65536 1048576);
  page_table = new_page_table 1 16 4096;
  registers = no_registers;
  open_fds = standard_fds;
  children = [];
}

unfoldable pub new_process_manager : ProcessManager
new_process_manager = record {
  processes = insert_process 1 init_process (λ q. none);
  next_pid = 2;
  init_pid = 1;
}

-- The loop over the parent's page table, from entry i on.
unfoldable pub copy_entries : ℕ → ℕ → List PageTableEntry → PageTable → Outcome PageTable
copy_entries child i [] table = returns table
copy_entries child i (e ∷ es) table = elim e.valid [
  | false ↦ copy_entries child (suc i) es table
  | true ↦ map_page table i (u64 (e.pfn + u64 (child * 10))) e.read_write >>= λ mapped.
      copy_entries child (suc i) es mapped
]

abbrev pub child_of : ℕ → ℕ → UnixProcess → AddressSpace → PageTable → UnixProcess
child_of child parent p space table = record {
  pid = child;
  ppid = parent;
  name = p.name +++ "_child";
  state = ready;
  exit_code = pos 0;
  address_space =
      some (
        new_address_space child space.total_size (u64 (space.physical_base + u64 (child * 65536))));
  page_table = table;
  registers = record p.registers { rax = 0 };
  open_fds = p.open_fds;
  children = [];
}

-- What `Fork` writes into the parent.
abbrev pub mark_parent : ℕ → UnixProcess → UnixProcess
mark_parent child p = record p {
  registers = record p.registers { rax = u64 child };
  children = p.children ++ child ∷ [];
}

-- The result is the number of the child. A parent without an address space is a nil dereference.
unfoldable pub fork : ProcessManager → ℕ → Outcome (ProcessManager × (ℕ ⊎ LifecycleError))
fork pm parent = elim (pm.processes parent) [
  | none ↦ returns (pm, inr no_such_process)
  | some p ↦ elim p.address_space [
    | none ↦ panics
    | some space ↦ do
      let child = pm.next_pid
      table ← copy_entries child 0 p.page_table.entries (new_page_table child 16 4096)
      returns (
        record pm {
          next_pid = pm.next_pid + 1;
          processes =
              insert_process child (child_of child parent p space table)
                (modify parent (mark_parent child) pm.processes);
        },
        inl child,
      )
  ]
]

-- The image of a new program, with its number of arguments.
abbrev pub loaded_image : ℕ → String → ℕ → AddressSpace → PageTable → UnixProcess → UnixProcess
loaded_image pid binary args space table p = record p {
  name = binary;
  address_space = some (new_address_space pid 65536 space.physical_base);
  page_table = table;
  registers = record p.registers { rax = 0; rdi = u64 args; rsi = 4227072 };
}

unfoldable pub exec :
    ProcessManager → ℕ → String → ℕ → Outcome (ProcessManager × Option LifecycleError)
exec pm pid binary args = elim (pm.processes pid) [
  | none ↦ returns (pm, some no_such_process)
  | some p ↦ elim p.address_space [
    | none ↦ panics
    | some space ↦ do
      table ← map_page (new_page_table pid 16 4096) 0 (u64 (pid * 20)) true
      returns (
        record pm {
          processes = modify pid (loaded_image pid binary args space table) pm.processes;
        },
        none,
      )
  ]
]

abbrev pub set_ppid : ℕ → UnixProcess → UnixProcess
set_ppid i p = record p { ppid = i }

abbrev pub add_child : ℕ → UnixProcess → UnixProcess
add_child c p = record p { children = p.children ++ c ∷ [] }

abbrev pub no_children : UnixProcess → UnixProcess
no_children p = record p { children = [] }

abbrev pub mark_zombie : ℤ → UnixProcess → UnixProcess
mark_zombie code p = record p { state = zombie; exit_code = code; address_space = none }

-- The loop that gives the children to init.
unfoldable pub adopt : ℕ → List ℕ → Processes → Outcome Processes
adopt init [] m = returns m
adopt init (c ∷ cs) m = elim (m c) [
  | none ↦ adopt init cs m
  | some k ↦ elim (m init) [
    | none ↦ panics
    | some i ↦ adopt init cs (modify init (add_child c) (modify c (set_ppid init) m))
  ]
]

unfoldable pub reparent : ℕ → ℕ → List ℕ → Processes → Outcome Processes
reparent init pid [] m = returns m
reparent init pid (c ∷ cs) m = do
  adopted ← adopt init (c ∷ cs) m
  returns (modify pid no_children adopted)

unfoldable pub exit : ProcessManager → ℕ → ℤ → Outcome (ProcessManager × Option LifecycleError)
exit pm pid code = elim (pm.processes pid) [
  | none ↦ returns (pm, some no_such_process)
  | some p ↦ if pid == pm.init_pid then returns (pm, some init_exit) else do
    m ← reparent pm.init_pid pid p.children (modify pid (mark_zombie code) pm.processes)
    returns (record pm { processes = m }, none)
]

abbrev pub is_zombie : UnixProcessState → Bool
is_zombie zombie = true
is_zombie _ = false

-- The exit code of a process in the table that is a zombie.
abbrev pub zombie_code : Option UnixProcess → Option ℤ
zombie_code none = none
zombie_code (some p) = if is_zombie p.state then some p.exit_code else none

-- The first zombie among the children, its exit code, and the list without it.
unfoldable pub find_zombie : Processes → List ℕ → Option (ℕ × ℤ × List ℕ)
find_zombie m [] = none
find_zombie m (c ∷ cs) =
    let rest = find_zombie m cs in
    elim (zombie_code (m c)) [
      | some code ↦ some (c, code, cs)
      | none ↦ elim rest [ none ↦ none | some (z, code, ds) ↦ some (z, code, c ∷ ds) ]
    ]

abbrev pub keep_children : List ℕ → UnixProcess → UnixProcess
keep_children cs p = record p { children = cs }

-- The state REAPED that the child gets is not seen again: the child leaves the table.
abbrev pub reap :
    ProcessManager → ℕ → Option (ℕ × ℤ × List ℕ) → ProcessManager × ((ℕ × ℤ) ⊎ LifecycleError)
reap pm parent none = (pm, inr would_block)
reap pm parent (some (c, code, rest)) = (
  record pm { processes = modify parent (keep_children rest) (delete_process c pm.processes) },
  inl (c, code),
)

unfoldable pub wait : ProcessManager → ℕ → ProcessManager × ((ℕ × ℤ) ⊎ LifecycleError)
wait pm parent = elim (pm.processes parent) [
  | none ↦ (pm, inr no_such_process)
  | some p ↦ elim p.children [
    | [] ↦ (pm, inr no_child)
    | c ∷ cs ↦ reap pm parent (find_zombie pm.processes (c ∷ cs))
  ]
]
