-- ===== src/Io/Epoll/Delivery.antt =====
-- pkg/io/epoll.go: every event of a registered file is delivered once, in order.
use os_simulator.Base.{
  Bool-cases, List, Option, Option-cases, [], ap, append-nil, append_assoc, false, inl, inr, length,
  ltb, none, refl, some, sym, take_append_drop, ℕ, ◌++◌, ◌∙◌, ◌∷◌, ◌≡◌,
}
use os_simulator.Io.Epoll.{
  Epoll, EpollCtlOp, EpollEvent, Files, control_known, control_unknown, ctl_add, ctl_del, ctl_mod,
  ctl_other, epoll_ctl, new_epoll, notify_device_interrupt, notify_known, take_ready, wait_now,
  wait_woken,
}

pub data Step : Type 0 where
  control : EpollCtlOp → ℕ → EpollEvent → Step
  interrupt : ℕ → ℕ → Step
  begin_wait : ℕ → Step
  wake : ℕ → Step

-- The state with the events that the waits have returned and those that the interrupts have made.
pub record Run : Type 0 where
  pub files : Files
  pub epoll : Epoll
  pub delivered : List EpollEvent
  pub made : List EpollEvent

abbrev pub deliver : Option (List EpollEvent × Epoll) → Run → Run
deliver none r = r
deliver (some (es, ep)) r = record r { epoll = ep; delivered = r.delivered ++ es }

-- The event of an interrupt, where its file is registered.
abbrev pub made_for : Option EpollEvent → ℕ → ℕ → List EpollEvent
made_for none file events = []
made_for (some known) file events = record { events = events; file = file } ∷ []

abbrev pub made_by : ℕ → ℕ → Run → List EpollEvent
made_by file events r = made_for (r.epoll.interest_list (r.files file).fd) file events

unfoldable pub take_step : Step → Run → Run
take_step (control op file event) r = record r {
  epoll = (epoll_ctl op file event r.files r.epoll).1;
}
take_step (interrupt file events) r =
    let (files, ep) = notify_device_interrupt file events r.files r.epoll in
    record r { files = files; epoll = ep; made = r.made ++ made_by file events r }
take_step (begin_wait max_events) r = deliver (wait_now max_events r.epoll) r
take_step (wake max_events) r = deliver (wait_woken max_events r.epoll) r

-- The first step of the list is taken last.
unfoldable pub run_steps : List Step → Run → Run
run_steps [] r = r
run_steps (s ∷ ss) r = take_step s (run_steps ss r)

abbrev pub IsQueue : Run → Type 0
IsQueue r = r.delivered ++ r.epoll.ready_list ≡ r.made

control_ready :
    (op : EpollCtlOp) (file : ℕ) (event : EpollEvent) (files : Files) (ep : Epoll)
    → (epoll_ctl op file event files ep).1.ready_list ≡ ep.ready_list
unfolding epoll_ctl
control_ready op file event files ep = elim (Option-cases (ep.interest_list (files file).fd)) [
  | inl e ↦ rw (e, epoll_ctl) (unknown_ready op)
  | inr (k, e) ↦ rw (e, epoll_ctl) (known_ready op)
]
  where
    unknown_ready :
        (op : EpollCtlOp)
        → (control_unknown op (files file).fd event ep).1.ready_list ≡ ep.ready_list
    unknown_ready ctl_add = refl
    unknown_ready ctl_mod = refl
    unknown_ready ctl_del = refl
    unknown_ready (ctl_other op) = refl

    known_ready :
        (op : EpollCtlOp) → (control_known op (files file).fd event ep).1.ready_list ≡ ep.ready_list
    known_ready ctl_add = refl
    known_ready ctl_mod = refl
    known_ready ctl_del = refl
    known_ready (ctl_other op) = refl

known_interrupt :
    (o : Option EpollEvent) (file events : ℕ) (files : Files) (ep : Epoll)
    → (notify_known o file events files ep).1.ready_list ≡ ep.ready_list ++ made_for o file events
known_interrupt none file events files ep = sym (append-nil ep.ready_list)
known_interrupt (some known) file events files ep = refl

interrupt_ready :
    (file events : ℕ) (r : Run)
    → (notify_device_interrupt file events r.files r.epoll).1.ready_list
      ≡ r.epoll.ready_list ++ made_by file events r
unfolding notify_device_interrupt
interrupt_ready file events r = known_interrupt _ file events r.files r.epoll

take_ready_all :
    (n : ℕ) (ep : Epoll) → let t = take_ready n ep in t.0 ++ t.1.ready_list ≡ ep.ready_list
unfolding take_ready
take_ready_all n ep = take_append_drop _ ep.ready_list

now_step : (n : ℕ) (r : Run) → IsQueue r → IsQueue (deliver (wait_now n r.epoll) r)
unfolding wait_now
now_step n r q = elim (Bool-cases (ltb 0 (length r.epoll.ready_list))) [
  | inr e ↦ rw e q
  | inl e ↦
      rw e
        (append_assoc r.delivered _ _ ∙ ap (λ es. r.delivered ++ es) (take_ready_all n r.epoll) ∙ q)
]

woken_step : (n : ℕ) (r : Run) → IsQueue r → IsQueue (deliver (wait_woken n r.epoll) r)
unfolding wait_woken
woken_step n r q = elim (Bool-cases r.epoll.woken) [
  | inr e ↦ rw e q
  | inl e ↦ rw e (
      append_assoc r.delivered _ _
      ∙ ap (λ es. r.delivered ++ es) (take_ready_all n (record r.epoll { woken = false }))
      ∙ q)
]

take_step-IsQueue : (s : Step) (r : Run) → IsQueue r → IsQueue (take_step s r)
unfolding take_step
take_step-IsQueue (control op file event) r q =
    ap (λ es. r.delivered ++ es) (control_ready op file event r.files r.epoll) ∙ q
take_step-IsQueue (interrupt file events) r q =
    ap (λ es. r.delivered ++ es) (interrupt_ready file events r)
    ∙ sym (append_assoc r.delivered r.epoll.ready_list (made_by file events r))
    ∙ ap (λ es. es ++ made_by file events r) q
take_step-IsQueue (begin_wait n) r q = now_step n r q
take_step-IsQueue (wake n) r q = woken_step n r q

-- Let registrations, changes, removals, interrupts and both sections of waits follow one another in any
-- order on a new Epoll. The events that the waits have returned, followed by those in the ready list,
-- are the events of the interrupts on files that were registered then, each once and in the order
-- of the interrupts.
pub run_steps-IsQueue :
    (files : Files) (ss : List Step)
    → IsQueue
        (run_steps ss (record { files = files; epoll = new_epoll; delivered = []; made = [] }))
unfolding run_steps new_epoll
run_steps-IsQueue files [] = refl
run_steps-IsQueue files (s ∷ ss) = take_step-IsQueue s _ (run_steps-IsQueue files ss)
