-- ===== src/Kernel/Traps.antt =====
-- pkg/kernel/trap_table.go: the interrupt descriptor table. Vectors are not negative. A handler may
-- write the CPU and the context, so it returns them.
pub mod Returning
mod Tests
use os_simulator.Base.{
  List, Option, String, [], if◌then◌else◌, inl, inr, none, not, some, zero, ℕ, ◌++◌, ◌+◌, ◌/◌, ◌==◌,
  ◌∷◌, ◌⊎◌,
}
use os_simulator.Base.Int.{negsuc, pos, ℤ}
use os_simulator.Kernel.Modes.{HardwareCpu, return_to_user_mode, switch_to_kernel_mode}

pub data TrapType : Type 0 where
  trap_syscall trap_exception trap_interrupt : TrapType

-- `[6]uint64`.
pub record Args : Type 0 where
  pub arg1 : ℕ
  pub arg2 : ℕ
  pub arg3 : ℕ
  pub arg4 : ℕ
  pub arg5 : ℕ
  pub arg6 : ℕ

pub record TrapContext : Type 0 where
  pub vector : ℕ
  pub trap_type : TrapType
  pub name : String
  pub saved_pc : ℕ
  pub saved_rsp : ℕ
  pub saved_flags : ℕ
  pub error_code : ℕ
  pub syscall_num : ℕ
  pub args : Args
  pub return_value : ℕ

-- The error of DispatchTrap, and the one of the default exception handler.
pub data TrapError : Type 0 where
  unhandled_trap cpu_exception : TrapError

pub record Handled : Type 0 where
  pub cpu : HardwareCpu
  pub context : TrapContext
  pub status : ℤ
  pub error : Option TrapError

abbrev pub TrapHandler : Type 0
TrapHandler = HardwareCpu → TrapContext → Handled

-- A handler may be nil.
pub record TrapDescriptor : Type 0 where
  pub vector : ℕ
  pub name : String
  pub trap_type : TrapType
  pub description : String
  pub handler : Option TrapHandler
  pub count : ℕ

pub record TrapTable : Type 0 where
  pub descriptors : ℕ → Option TrapDescriptor
  pub history : List TrapContext

abbrev pub insert_descriptor :
    ℕ → TrapDescriptor → (ℕ → Option TrapDescriptor) → ℕ → Option TrapDescriptor
insert_descriptor v d m = λ w. if w == v then some d else m w

unfoldable pub register_handler :
    ℕ → String → TrapType → String → Option TrapHandler → TrapTable → TrapTable
register_handler v name kind description handler t = record t {
  descriptors =
      insert_descriptor v
        (record {
          vector = v;
          name = name;
          trap_type = kind;
          description = description;
          handler = handler;
          count = 0;
        })
        t.descriptors;
}

abbrev pub default_exception_handler : TrapHandler
default_exception_handler cpu context = record {
  cpu = cpu;
  context = context;
  status = negsuc 0;
  error = some cpu_exception;
}

abbrev pub default_interrupt_handler : TrapHandler
default_interrupt_handler cpu context = record {
  cpu = cpu;
  context = context;
  status = pos 0;
  error = none;
}

abbrev pub default_syscall_gate_handler : TrapHandler
default_syscall_gate_handler cpu context = record {
  cpu = cpu;
  context = record context { return_value = 0 };
  status = pos 0;
  error = none;
}

unfoldable pub new_trap_table : TrapTable
new_trap_table =
    let empty : TrapTable = record { descriptors = λ v. none; history = [] } in
    let exception =
      register_handler 0 "Divide-by-Zero (#DE)" trap_exception
        "Triggered by integer division by zero" (some default_exception_handler) empty in
    let opcode =
      register_handler 6 "Invalid Opcode (#UD)" trap_exception
        "CPU encountered unmapped instruction opcode" (some default_exception_handler) exception in
    let protection =
      register_handler 13 "General Protection Fault (#GP)" trap_exception
        "Privilege violation or memory segment fault" (some default_exception_handler) opcode in
    let page =
      register_handler 14 "Page Fault (#PF)" trap_exception
        "Page not present in RAM or protection violation (CR2 holds faulting address)"
        (some default_exception_handler) protection in
    let timer =
      register_handler 32 "PIT Timer Interrupt (IRQ 0)" trap_interrupt
        "Periodic hardware timer for preemptive CPU scheduling" (some default_interrupt_handler)
        page in
    let keyboard =
      register_handler 33 "Keyboard Controller (IRQ 1)" trap_interrupt "Key press / release event"
        (some default_interrupt_handler) timer in
    let disk =
      register_handler 46 "Disk Controller (IRQ 14)" trap_interrupt
        "Disk read/write DMA transfer completed" (some default_interrupt_handler) keyboard in
    register_handler 128 "System Call Gate (INT 0x80)" trap_syscall
      "User space requesting kernel service" (some default_syscall_gate_handler) disk

abbrev pub context_of : TrapDescriptor → HardwareCpu → ℕ → ℕ → Args → TrapContext
context_of d cpu v num args = record {
  vector = v;
  trap_type = d.trap_type;
  name = d.name;
  saved_pc = cpu.program_counter;
  saved_rsp = cpu.user_rsp;
  saved_flags = 0;
  error_code = 0;
  syscall_num = num;
  args = args;
  return_value = 0;
}

-- The handler's status and error are dropped.
abbrev pub run_handler : Option TrapHandler → HardwareCpu → TrapContext → HardwareCpu × TrapContext
run_handler none cpu context = (cpu, context)
run_handler (some handler) cpu context = let h = handler cpu context in (h.cpu, h.context)

abbrev pub Dispatched : Type 0
Dispatched = (TrapContext ⊎ TrapError) × HardwareCpu × TrapTable

unfoldable pub dispatch_found :
    Option TrapDescriptor → ℕ → ℕ → Args → HardwareCpu → TrapTable → Dispatched
dispatch_found none v num args cpu t = (inr unhandled_trap, cpu, t)
dispatch_found (some d) v num args cpu t =
    let (handled, context) =
      run_handler d.handler (switch_to_kernel_mode cpu) (context_of d cpu v num args) in
    (
      inl context,
      return_to_user_mode handled,
      record {
        descriptors = insert_descriptor v (record d { count = d.count + 1 }) t.descriptors;
        history = t.history ++ context ∷ [];
      },
    )

abbrev pub dispatch_trap : ℕ → ℕ → Args → HardwareCpu → TrapTable → Dispatched
dispatch_trap v num args cpu t = dispatch_found (t.descriptors v) v num args cpu t
