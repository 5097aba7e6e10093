-- ===== src/Io/Epoll.antt =====
-- pkg/io/epoll.go: the sections of Epoll's methods under its mutex. A `*FileDescriptor` is an address in
-- a store. The channel wakeCh, with room for one value, is a flag. EpollWait has two sections: one
-- that returns events at once, and one after it has received from wakeCh; the number of events asked
-- for is not negative. A timeout changes nothing.
pub mod Delivery
mod Tests
use os_simulator.Base.{
  Bool, List, Option, String, [], count, drop, false, if◌then◌else◌, length, ltb, none, some, take,
  true, ℕ, ◌++◌, ◌==◌, ◌∷◌,
}

-- DataBuffer, which no method reads, is left out.
pub record FileDescriptor : Type 0 where
  pub fd : ℕ
  pub name : String
  pub is_ready : Bool
  pub is_non_block : Bool

abbrev pub Files : Type 0
Files = ℕ → FileDescriptor

-- The flags are a bitmask.
pub record EpollEvent : Type 0 where
  pub events : ℕ
  pub file : ℕ

-- Any other number is an operation that does nothing.
pub data EpollCtlOp : Type 0 where
  ctl_add ctl_mod ctl_del : EpollCtlOp
  ctl_other : ℕ → EpollCtlOp

pub data EpollError : Type 0 where
  already_there not_there : EpollError

pub record Epoll : Type 0 where
  pub interest_list : ℕ → Option EpollEvent
  pub ready_list : List EpollEvent
  pub woken : Bool

unfoldable pub new_epoll : Epoll
new_epoll = record { interest_list = λ n. none; ready_list = []; woken = false }

abbrev pub set_interest : ℕ → Option EpollEvent → Epoll → Epoll
set_interest n o ep = record ep { interest_list = λ k. if k == n then o else ep.interest_list k }

abbrev pub control_known : EpollCtlOp → ℕ → EpollEvent → Epoll → Option EpollError × Epoll
control_known ctl_add n event ep = (some already_there, ep)
control_known ctl_mod n event ep = (none, set_interest n (some event) ep)
control_known ctl_del n event ep = (none, set_interest n none ep)
control_known (ctl_other op) n event ep = (none, ep)

abbrev pub control_unknown : EpollCtlOp → ℕ → EpollEvent → Epoll → Option EpollError × Epoll
control_unknown ctl_add n event ep = (none, set_interest n (some event) ep)
control_unknown ctl_mod n event ep = (some not_there, ep)
control_unknown ctl_del n event ep = (some not_there, ep)
control_unknown (ctl_other op) n event ep = (none, ep)

-- The number of the file is the key.
unfoldable pub epoll_ctl : EpollCtlOp → ℕ → EpollEvent → Files → Epoll → Option EpollError × Epoll
epoll_ctl op file event files ep =
    let n = (files file).fd in
    elim (ep.interest_list n) [
      | some known ↦ control_known op n event ep
      | none ↦ control_unknown op n event ep
    ]

abbrev pub mark_ready : ℕ → Files → Files
mark_ready file files p = if p == file then record (files p) { is_ready = true } else files p

-- A full channel stays full.
abbrev pub notify_known : Option EpollEvent → ℕ → ℕ → Files → Epoll → Files × Epoll
notify_known none file events files ep = (files, ep)
notify_known (some known) file events files ep = (
  mark_ready file files,
  record ep {
    ready_list = ep.ready_list ++ record { events = events; file = file } ∷ [];
    woken = true;
  },
)

unfoldable pub notify_device_interrupt : ℕ → ℕ → Files → Epoll → Files × Epoll
notify_device_interrupt file events files ep =
    notify_known (ep.interest_list (files file).fd) file events files ep

-- `ReadyList[:count]` and the rest.
unfoldable pub take_ready : ℕ → Epoll → List EpollEvent × Epoll
take_ready max_events ep =
    let all = length ep.ready_list in
    let count = if ltb max_events all then max_events else all in
    (take count ep.ready_list, record ep { ready_list = drop count ep.ready_list })

-- The section before the wait: `none` where the ready list is empty and the caller waits.
unfoldable pub wait_now : ℕ → Epoll → Option (List EpollEvent × Epoll)
wait_now max_events ep =
    if ltb 0 (length ep.ready_list) then some (take_ready max_events ep) else none

-- The section after the receive, which needs a value in the channel.
unfoldable pub wait_woken : ℕ → Epoll → Option (List EpollEvent × Epoll)
wait_woken max_events ep =
    if ep.woken then some (take_ready max_events (record ep { woken = false })) else none
