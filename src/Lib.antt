-- ===== src/Lib.antt =====
-- Proofs about os-simulator, a simulator of an operating system in Go.
--
-- The program is a set of packages, each of which simulates one part of a system, and a command
-- (cmd/os-sim) that runs demonstrations of them and prints tables. Here are the parts with a state
-- and rules of their own. Memory.TwoLevel, Memory.Manager, Kernel.Lifecycle and Kernel.System are made of
-- other parts; the rest do not call one another: the command connects them.
--
--   Base             what all modules share: panics (Outcome), lists and integers over the native
--                    numbers, 64-bit words, Boolean tests.
--   Memory.Paging    pkg/memory/paging.go: NewPageTable, MapPage and Translate are new_page_table,
--                    map_page and translate.
--   Memory.TwoLevel  pkg/memory/multilevel_pt.go: NewMultiLevelPageTable, Map and Translate are
--                    new_two_level, map_two_level and translate_two_level. It calls Memory.Paging for
--                    its second-level tables.
--   Memory.Tlb       pkg/memory/tlb.go: NewTLB, Lookup, Insert and Flush are new_tlb, lookup, insert
--                    and flush. Each call holds the mutex, so a history is a list of calls.
--   Memory.Manager   pkg/memory/page_replacement.go: NewMemoryManager, AccessMemory and allocateFrame
--                    are new_memory_manager, access_memory and allocate_frame, over Memory.Paging and
--                    Memory.Tlb.
--   Memory.AddressSpace
--                    pkg/memory/address_space.go: NewAddressSpace, TranslateBaseAndBounds and Sbrk are
--                    new_address_space, translate_base_and_bounds and sbrk.
--   Memory.CallStack pkg/memory/stack_heap.go: NewCallStack, PushFrame and PopFrame are new_call_stack,
--                    push_frame and pop_frame.
--   Memory.Buddy     pkg/memory/allocator.go: NewBuddyAllocator, Allocate and findAndSplit are
--                    new_buddy_allocator, allocate and find_and_split.
--   Memory.FreeList  pkg/memory/allocator.go: NewFreeListAllocator, Malloc and Free are
--                    new_allocator, malloc and free. The doubly linked list of headers is a list in
--                    the order of Next.
--   Concurrency.Banker
--                    pkg/concurrency/deadlock_banker.go: NewBankersState, SetProcessClaim,
--                    CheckSafeState and RequestResources are new_banker, set_process_claim,
--                    check_safe_state and request_resources. Row i of the three matrices is Claim i.
--   Concurrency.Semaphore
--                    pkg/concurrency/semaphore.go: NewSemaphore, Wait and Signal are new_semaphore,
--                    wait and signal.
--   Cpu.Process      pkg/cpu/process.go: Process, NewProcess and Clone.
--   Cpu.Core         the fields and the parts of Tick that pkg/cpu/sched_fifo.go and sched_rr.go
--                    have in common, over a store of processes that the lists point into.
--   Cpu.Fifo         pkg/cpu/sched_fifo.go: FIFOScheduler.Tick is tick.
--   Cpu.RoundRobin   pkg/cpu/sched_rr.go: RRScheduler.Tick is rr_tick. `run n` and `rr_run n` call it
--                    at the times 0 to n - 1.
--   Cpu.Sjf          pkg/cpu/sched_sjf.go: the Tick of SJFScheduler and STCFScheduler are sjf_tick and
--                    stcf_tick.
--   Cpu.Lottery      pkg/cpu/sched_lottery.go: LotteryScheduler.Tick is lottery_tick.
--   Cpu.Mlfq         pkg/cpu/sched_mlfq.go: NewMLFQScheduler and MLFQScheduler.Tick are new_mlfq and
--                    mlfq_tick, which may panic.
--   Cpu.Scheduler    pkg/cpu/scheduler.go: the interface, which FIFO, SJF, STCF, Round Robin and
--                    Lottery fill; the tick of the MLFQ scheduler may panic, so it does not.
--   Ipc.MessageQueue pkg/ipc/message_queue.go: NewMessageQueue, Send and Receive are new_queue, send and
--                    receive.
--   Ipc.Pipe         pkg/ipc/pipe.go: NewUnixPipe, Write, Read, CloseWrite and CloseRead are new_pipe,
--                    write (and write_loop after a wait), read, close_write and close_read.
--   Io.Epoll         pkg/io/epoll.go: NewEpoll, EpollCtl, NotifyDeviceInterrupt and the two sections of
--                    EpollWait are new_epoll, epoll_ctl, notify_device_interrupt, wait_now and
--                    wait_woken.
--   Kernel.Lifecycle pkg/kernel/process_lifecycle.go: NewProcessManager, Fork, Exec, Exit and Wait are
--                    new_process_manager, fork, exec, exit and wait. It makes address spaces and page
--                    tables of Memory.
--   Kernel.Modes     pkg/kernel/cpu_mode.go: ExecuteInstruction, SwitchToKernelMode and
--                    ReturnToUserMode are execute_instruction, switch_to_kernel_mode and
--                    return_to_user_mode.
--   Kernel.Traps     pkg/kernel/trap_table.go: RegisterHandler and DispatchTrap are register_handler and
--                    dispatch_trap, over Kernel.Modes.
--   Kernel.Syscalls  pkg/kernel/syscall.go: Register, ValidateUserPointer and Dispatch are register,
--                    validate_user_pointer and dispatch_syscall.
--   Kernel.System    pkg/kernel/os_kernel.go: NewOSKernel is new_os_kernel, and new_default_kernel where
--                    no scheduler is given; Step and TriggerSyscall are step and trigger_syscall. They
--                    are over Cpu.Scheduler, Kernel.Lifecycle, Kernel.Modes and Kernel.Syscalls.
--
-- The modules beside and below these hold their proofs, and the modules called Tests hold concrete
-- runs.
--
-- Bounds. A `uint64` is a number below 2 ^ 64 and wraps. An `int` is an integer without bound: a
-- counter, an amount or a time does not reach 2 ^ 63. Arrival and burst times, process identifiers,
-- sizes of a page table and the quantum are not negative, except that a quantum or a size of at most
-- 0, for which the code puts a default, is the number 0. Three loops run on fuel: the
-- safety algorithm of the banker, with one round more than there are processes, the hand of the clock,
-- with one step more than there are frames, and the loop for the order of a buddy block, with the
-- orders up to 63; that this is enough is part of their theorems. The
-- random source of the Lottery scheduler is a parameter. A panic of Go is the outcome `panics`. The
-- heap of the allocator starts with a size above 0 and ends more than 16 bytes below 2 ^ 64. A
-- semaphore starts with a value of at least 0.
--
-- sync.Cond is not modelled: a call that waits on it ends a section, and its next section may run at
-- any time, since the code tests its condition again.
--
-- Not modelled: all that only formats or prints (visualizer and the Render functions), floating-point
-- metrics, demonstrations that sleep or measure time (race_demo, dining_philosophers, parallelism,
-- select_poll, blocking_io, netpoller), the goroutine runtime, the locks other than the
-- semaphore, and shared memory.
pub mod Base
pub mod Memory
pub mod Concurrency
pub mod Cpu
pub mod Ipc
pub mod Kernel
pub mod Io
