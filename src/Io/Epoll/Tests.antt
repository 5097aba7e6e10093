-- ===== src/Io/Epoll/Tests.antt =====
-- pkg/io/epoll.go: two waits on two files.
use os_simulator.Base.{List, [], false, none, refl, true, ℕ, ◌∷◌, ◌≡◌}
use os_simulator.Io.Epoll.{
  EpollEvent, Files, ctl_add, ctl_del, epoll_ctl, new_epoll, notify_device_interrupt, take_ready,
  wait_now, wait_woken,
}
use os_simulator.Io.Epoll.Delivery.{
  IsQueue, Run, Step, begin_wait, control, interrupt, run_steps, run_steps-IsQueue, take_step, wake,
}

abbrev sockets : Files
sockets p = record { fd = p; name = "socket"; is_ready = false; is_non_block = true }

abbrev read_on : ℕ → EpollEvent
read_on p = record { events = 1; file = p }

abbrev start : Run
start = record { files = sockets; epoll = new_epoll; delivered = []; made = [] }

-- The first step stands last: file 3 is registered, two events arrive, file 3 is removed, and one wait
-- takes one event.
abbrev steps : List Step
steps =
    begin_wait 1
    ∷ control ctl_del 3 (read_on 3)
    ∷ interrupt 3 1
    ∷ interrupt 3 1
    ∷ control ctl_add 3 (read_on 3)
    ∷ []

run_steps-IsQueue_example : IsQueue (run_steps steps start)
run_steps-IsQueue_example = run_steps-IsQueue sockets steps

-- The removed file's event is delivered, and another one still stands in the ready list.
removed_delivered :
    ((run_steps steps start).delivered ≡ read_on 3 ∷ [])
    × ((run_steps steps start).epoll.ready_list ≡ read_on 3 ∷ [])
unfolding run_steps take_step epoll_ctl notify_device_interrupt wait_now take_ready new_epoll
removed_delivered = (refl, refl)

-- Two callers wait, two events arrive, and the first caller takes one of them: there is no value left
-- in the channel for the second caller, although an event is ready.
lost_wakeup :
    let r =
      run_steps
        (wake 1 ∷ interrupt 3 1 ∷ interrupt 3 1 ∷ control ctl_add 3 (read_on 3) ∷ [])
        start in
    (r.epoll.ready_list ≡ read_on 3 ∷ []) × (wait_woken 1 r.epoll ≡ none)
unfolding run_steps take_step epoll_ctl notify_device_interrupt wait_woken take_ready new_epoll
lost_wakeup = (refl, refl)
