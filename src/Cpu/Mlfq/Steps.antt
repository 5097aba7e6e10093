-- ===== src/Cpu/Mlfq/Steps.antt =====
-- pkg/cpu/sched_mlfq.go: the requeueing, the dispatch and the execution of the MLFQ scheduler keep the
-- time account.
use os_simulator.Base.{
  ==_refl, Bool-cases, List, Option, Option-cases, String, [], ap, count, inl, inr, length, none,
  refl, some, subst, suc, sym, ℕ, ◌++◌, ◌+◌, ◌<◌, ◌∙◌, ◌∷◌, ◌≡◌,
}
use os_simulator.Cpu.Process.{Process, ready}
use os_simulator.Cpu.Core.{Core, execute, is_zero, run_process, start, update, used_tick}
use os_simulator.Cpu.Account.{
  Accounted, Accounted-update, Cell, IsAccounted, Stands, queued-is_ready, runs,
}
use os_simulator.Cpu.Mlfq.{
  MlfqScheduler, admit_top, behind_empty, dispatch_free, execute_level, flatten, mlfq_dispatch,
  requeue, start_first, take_first, use_allotment,
}
use os_simulator.Cpu.Mlfq.Accounts.{
  count-push_at, enter-Accounted, levelled, levelled-Accounted, recounted, view,
}
use os_simulator.Cpu.Execution.{execute-IsAccounted}
use os_simulator.Cpu.Dispatching.{
  count-push_other, count-push_self, running-IsOwed, start-IsAccounted,
}
use os_simulator.Cpu.Admission.{wait_all-Accounted}

pub admit_top-IsAccounted :
    (now : ℕ) (m : MlfqScheduler)
    → 0 < length m.queues
    → IsAccounted now (now + 1) (view m)
    → IsAccounted (now + 1) (now + 1) (view (admit_top now m))
unfolding admit_top
admit_top-IsAccounted now m k v = wait_all-Accounted now _ _ m.core.running m.core.completed (
    enter-Accounted now m.core.all_processes m.core.store m.queues m.core.running m.core.completed k
      v)

-- A running process that is moved to a level and made ready.
readied-Accounted :
    (a p : ℕ) (level used : Process → ℕ) (s : Core)
    → s.running ≡ some p
    → IsAccounted a a s
    → Accounted a a
        (update s.store p (λ x. record (levelled (level x) (used x) x) { state = ready }))
        (s.ready_queue ++ p ∷ [])
        none
        s.completed
readied-Accounted a p level used s e v =
    let (t, o, k, d) = running-IsOwed a p s e v in
    Accounted-update a a p s.store (λ x. record (levelled (level x) (used x) x) { state = ready })
      (s.ready_queue ++ p ∷ []) none s.completed
      (
        record {
          rest = o.rest;
          remains = o.remains;
          unfinished = o.unfinished;
          balance = o.balance;
          arrived = o.arrived;
        },
        (count-push_self p s.ready_queue ∙ ap suc k, d, refl),
      )
      (λ q d. rw (count-push_other p q s.ready_queue d) (
        subst (λ r. Cell a a (s.store q) (count q s.ready_queue) (count q s.completed) r)
          (ap (runs q) e ∙ d) (v q)))

pub requeue-IsAccounted :
    (a p : ℕ) (level used : Process → ℕ) (m : MlfqScheduler)
    → m.core.running ≡ some p
    → level (m.core.store p) < length m.queues
    → IsAccounted a a (view m)
    → IsAccounted a a (view (requeue p (λ x. levelled (level x) (used x) x) m))
unfolding requeue
requeue-IsAccounted a p level used m e k v = rw (==_refl p) (
    recounted a a _ (flatten m.queues ++ p ∷ []) _ none m.core.completed
      (λ q. sym (count-push_at q (level (m.core.store p)) p m.queues k))
      (readied-Accounted a p level used (view m) e v))

abbrev pub joined : Option (ℕ × List (List ℕ)) → List ℕ
joined none = []
joined (some (p, rest)) = p ∷ flatten rest

count-behind_empty :
    (q : ℕ) (o : Option (ℕ × List (List ℕ)))
    → count q (joined (behind_empty o)) ≡ count q (joined o)
count-behind_empty q none = refl
count-behind_empty q (some (p, rest)) = refl

pub count-take_first :
    (q : ℕ) (qs : List (List ℕ)) → count q (flatten qs) ≡ count q (joined (take_first qs))
unfolding take_first
count-take_first q [] = refl
count-take_first q ([] ∷ qs) = count-take_first q qs ∙ sym (count-behind_empty q (take_first qs))
count-take_first q ((p ∷ ps) ∷ qs) = refl

pub dispatch_run :
    (now p : ℕ) (rest : List (List ℕ)) (m : MlfqScheduler)
    → m.core.running ≡ none
    → take_first m.queues ≡ some (p, rest)
    → mlfq_dispatch now m ≡ start_first now m (some (p, rest))
unfolding dispatch_free
dispatch_run now p rest m e f = ap (dispatch_free now m) e ∙ ap (start_first now m) f

pub dispatch_none :
    (now : ℕ) (m : MlfqScheduler)
    → m.core.running ≡ none
    → take_first m.queues ≡ none
    → mlfq_dispatch now m ≡ m
unfolding dispatch_free start_first
dispatch_none now m e f = ap (dispatch_free now m) e ∙ ap (start_first now m) f

pub dispatch_busy :
    (now p : ℕ) (m : MlfqScheduler) → m.core.running ≡ some p → mlfq_dispatch now m ≡ m
unfolding dispatch_free
dispatch_busy now p m e = ap (dispatch_free now m) e

pub started-IsAccounted :
    (a now p : ℕ) (rest : List (List ℕ)) (m : MlfqScheduler)
    → m.core.running ≡ none
    → take_first m.queues ≡ some (p, rest)
    → IsAccounted a a (view m)
    → IsAccounted a a (view (start_first now m (some (p, rest))))
unfolding start start_first
started-IsAccounted a now p rest m e f v =
    start-IsAccounted a now p (flatten rest) (view m) e
      (λ q. count-take_first q m.queues ∙ ap (λ o. count q (joined o)) f) v

-- The process that is taken from a queue is ready.
pub first-is_ready :
    (a b p : ℕ) (rest : List (List ℕ)) (m : MlfqScheduler)
    → take_first m.queues ≡ some (p, rest)
    → IsAccounted a b (view m)
    → (m.core.store p).state ≡ ready
first-is_ready a b p rest m f v =
    let c : count p (flatten m.queues) ≡ suc (count p (flatten rest)) =
      count-take_first p m.queues ∙ ap (λ o. count p (joined o)) f ∙ rw (==_refl p) refl in
    (queued-is_ready (m.core.store p).state _ _ _ (
      subst
        (λ k. Stands (m.core.store p).state k (count p m.core.completed) (runs p m.core.running)) c
        (v p).1)).0

-- The execution does not look at the ready queue.
pub execute_view :
    (now : ℕ) (s : Core) (queue : List ℕ)
    → execute now (record s { ready_queue = queue })
      ≡ record (execute now s) { ready_queue = queue }
unfolding execute run_process
execute_view now s queue = elim (Option-cases s.running) [
  | inl e ↦ rw (e, execute) refl
  | inr (p, e) ↦ elim (Bool-cases (is_zero (update s.store p used_tick p).remaining_time)) [
    | inl z ↦ rw (e, execute, run_process, z) refl
    | inr z ↦ rw (e, execute, run_process, z) refl
  ]
]

pub execute_level-IsAccounted :
    (label : String → ℕ → String) (now p : ℕ) (m : MlfqScheduler)
    → IsAccounted (now + 1) (now + 1) (view m)
    → IsAccounted (now + 1) (now + 1 + 1) (view (execute_level label now p m))
unfolding execute_level
execute_level-IsAccounted label now p m v =
    subst (IsAccounted (now + 1) (now + 1 + 1))
      (execute_view now (record m.core { store = update m.core.store p use_allotment })
        (flatten m.queues))
      (execute-IsAccounted now (record (view m) { store = update m.core.store p use_allotment })
        (levelled-Accounted (now + 1) (now + 1) p (λ x. x.current_queue) (λ x. x.allotment_used + 1)
          m.core.store (flatten m.queues) m.core.running m.core.completed v))
