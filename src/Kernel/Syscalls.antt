-- ===== src/Kernel/Syscalls.antt =====
-- pkg/kernel/syscall.go: the system call table. An `int` that is a syscall number stands as its 64-bit
-- pattern, so `int(regs.RAX)` is the register; an `int64` result is an integer. The log of texts is
-- left out. A handler may write the registers, so it returns them.
pub mod Results
mod Tests
use os_simulator.Base.{
  Option, String, count, if◌then◌else◌, int_min, leb, ltb, none, some, sub64, u64, u64_mod, ℕ, ◌+◌,
  ◌-◌, ◌==◌, ◌||◌,
}
use os_simulator.Base.Int.{negsuc, pos, ℤ}
use os_simulator.Kernel.Lifecycle.{SyscallRegisters, exit, fork, ready}

-- ErrInvalidSyscall and ErrBadUserPointer. The other errors of the file are not used.
pub data SyscallError : Type 0 where
  invalid_syscall bad_user_pointer : SyscallError

-- `uint64(z)` of a signed 64-bit z.
abbrev pub to_word : ℤ → ℕ
to_word (pos n) = u64 n
to_word (negsuc n) = u64_mod - 1 - u64 n

-- `int64(x)` of an unsigned 64-bit x.
abbrev pub to_signed : ℕ → ℤ
to_signed x = if ltb x int_min then pos x else negsuc (u64_mod - 1 - x)

-- `uint64(int64(-err))` of a positive err.
abbrev pub to_errno : ℕ → ℕ
to_errno err = sub64 0 err

pub record Reply : Type 0 where
  pub registers : SyscallRegisters
  pub value : ℤ
  pub error : Option SyscallError

abbrev pub SyscallHandler : Type 0
SyscallHandler = ℤ → SyscallRegisters → Reply

pub record SyscallEntry : Type 0 where
  pub number : ℕ
  pub name : String
  pub signature : String
  pub description : String
  pub handler : SyscallHandler
  pub total_calls : ℕ

pub record SyscallDispatcher : Type 0 where
  pub table : ℕ → Option SyscallEntry
  pub kernel_base : ℕ

abbrev pub insert_entry : ℕ → SyscallEntry → (ℕ → Option SyscallEntry) → ℕ → Option SyscallEntry
insert_entry num e m = λ k. if k == num then some e else m k

unfoldable pub register :
    ℕ → String → String → String → SyscallHandler → SyscallDispatcher → SyscallDispatcher
register num name signature description handler sd = record sd {
  table =
      insert_entry num
        (record {
          number = num;
          name = name;
          signature = signature;
          description = description;
          handler = handler;
          total_calls = 0;
        })
        sd.table;
}

abbrev pub answers : ℤ → SyscallRegisters → Reply
answers z regs = record { registers = regs; value = z; error = none }

abbrev pub default_get_pid : SyscallHandler
default_get_pid pid regs = answers pid regs

abbrev pub default_yield : SyscallHandler
default_yield pid regs = answers (pos 0) regs

-- The count comes back as an `int64`.
abbrev pub default_write : SyscallHandler
default_write pid regs =
    if leb 0xC0000000 regs.rsi
    then record { registers = regs; value = negsuc 13; error = some bad_user_pointer }
    else answers (to_signed regs.rdx) regs

abbrev pub default_read : SyscallHandler
default_read pid regs =
    if leb 0xC0000000 regs.rsi
    then record { registers = regs; value = negsuc 13; error = some bad_user_pointer }
    else answers (to_signed regs.rdx) regs

abbrev pub default_sbrk : SyscallHandler
default_sbrk pid regs = answers (pos 0x00020000) regs

abbrev pub default_exit : SyscallHandler
default_exit pid regs = answers (pos 0) regs

abbrev pub default_fork : SyscallHandler
default_fork pid regs = answers (pos 1001) regs

abbrev pub default_exec : SyscallHandler
default_exec pid regs = answers (pos 0) regs

abbrev pub default_wait : SyscallHandler
default_wait pid regs = answers (pos 1001) regs

abbrev pub default_pipe : SyscallHandler
default_pipe pid regs = answers (pos 0) regs

abbrev pub default_shm_get : SyscallHandler
default_shm_get pid regs = answers (pos 42) regs

abbrev pub default_shm_attach : SyscallHandler
default_shm_attach pid regs = answers (pos 0x00300000) regs

unfoldable pub new_syscall_dispatcher : SyscallDispatcher
new_syscall_dispatcher =
    let d0 : SyscallDispatcher = record { table = λ k. none; kernel_base = 0xC0000000 } in
    let d1 =
      register 13 "getpid" "pid_t sys_getpid(void)" "Returns the process ID of the calling process"
        default_get_pid d0 in
    let d2 =
      register 12 "sched_yield" "int sys_yield(void)"
        "Voluntarily relinquishes the CPU to other ready processes" default_yield d1 in
    let d3 =
      register 6 "write" "ssize_t sys_write(int fd, const void *buf, size_t count)"
        "Writes data from user buffer to file/socket/pipe" default_write d2 in
    let d4 =
      register 5 "read" "ssize_t sys_read(int fd, void *buf, size_t count)"
        "Reads data from file/socket/pipe into user buffer" default_read d3 in
    let d5 =
      register 11 "sbrk" "void *sys_sbrk(intptr_t increment)"
        "Adjusts heap break pointer to grow/shrink dynamic memory" default_sbrk d4 in
    let d6 =
      register 4 "exit" "void sys_exit(int status)"
        "Terminates the calling process with exit status code" default_exit d5 in
    let d7 =
      register 1 "fork" "pid_t sys_fork(void)"
        "Duplicates calling process (clones address space & PCB)" default_fork d6 in
    let d8 =
      register 2 "execve" "int sys_execve(const char *filename, char *const argv[])"
        "Replaces current process image with new program" default_exec d7 in
    let d9 =
      register 3 "waitpid" "pid_t sys_waitpid(pid_t pid, int *status, int options)"
        "Blocks parent until specified child process exits" default_wait d8 in
    let d10 =
      register 7 "pipe" "int sys_pipe(int pipefd[2])" "Creates unidirectional IPC pipe data channel"
        default_pipe d9 in
    let d11 =
      register 8 "shmget" "int sys_shmget(key_t key, size_t size, int shmflg)"
        "Allocates shared memory segment across processes" default_shm_get d10 in
    register 9 "shmat" "void *sys_shmat(int shmid, const void *shmaddr, int shmflg)"
      "Maps shared physical frame into virtual address space" default_shm_attach d11

-- The sum wraps.
unfoldable pub validate_user_pointer : ℕ → ℕ → SyscallDispatcher → Option SyscallError
validate_user_pointer v_addr size sd =
    if ltb sd.kernel_base (u64 (v_addr + size)) || leb sd.kernel_base v_addr
    then some bad_user_pointer
    else none

abbrev pub SyscallResult : Type 0
SyscallResult = ℤ × Option SyscallError × SyscallRegisters × SyscallDispatcher

-- RAX after a call of the handler.
abbrev pub result_word : Reply → ℕ
result_word r = elim r.error [ none ↦ to_word r.value | some e ↦ to_errno 22 ]

unfoldable pub dispatch_entry :
    Option SyscallEntry → ℤ → SyscallRegisters → SyscallDispatcher → SyscallResult
dispatch_entry none pid regs sd =
    (negsuc 0, some invalid_syscall, record regs { rax = to_errno 1 }, sd)
dispatch_entry (some e) pid regs sd =
    let r = e.handler pid regs in
    (
      r.value,
      r.error,
      record r.registers { rax = result_word r },
      record sd {
        table = insert_entry regs.rax (record e { total_calls = e.total_calls + 1 }) sd.table;
      },
    )

abbrev pub dispatch_syscall : ℤ → SyscallRegisters → SyscallDispatcher → SyscallResult
dispatch_syscall pid regs sd = dispatch_entry (sd.table regs.rax) pid regs sd
