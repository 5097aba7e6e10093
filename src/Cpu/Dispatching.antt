-- ===== src/Cpu/Dispatching.antt =====
-- The start and the preemption of a process in pkg/cpu keep the time account.
use os_simulator.Base.{
  ==_refl, Bool-cases, List, Option, [], ap, arith, count, count-append, false, inl, inr, none,
  refl, some, subst, subst₂, suc, true, ℕ, ◌++◌, ◌==◌, ◌∙◌, ◌∷◌, ◌≡◌,
}
use os_simulator.Cpu.Process.{Process, ready, running}
use os_simulator.Cpu.Core.{Core, dispatch, is_unstarted, mark_started, start}
use os_simulator.Cpu.Account.{
  Accounted-update, Cell, IsAccounted, IsOwed, Owes, queued-is_ready, runs, runs-is_running,
}
use os_simulator.Cpu.RoundRobin.{preempt}

runs_self : (p : ℕ) → runs p (some p) ≡ true
runs_self p = ==_refl p

pub count-push_other :
    (p q : ℕ) (qs : List ℕ) → (p == q) ≡ false → count q (qs ++ p ∷ []) ≡ count q qs
count-push_other p q qs e = rw (count-append q qs (p ∷ []), e) (omega arith)

pub count-push_self : (p : ℕ) (qs : List ℕ) → count p (qs ++ p ∷ []) ≡ suc (count p qs)
count-push_self p qs = rw (count-append p qs (p ∷ []), ==_refl p) (omega arith)

started-IsOwed : (a now : ℕ) (x : Process) → IsOwed a x → IsOwed a (mark_started now x)
started-IsOwed a now x o = elim (Bool-cases (is_unstarted x.start_time)) [
  | inl e ↦ rw e (record {
    rest = o.rest;
    remains = o.remains;
    unfinished = o.unfinished;
    balance = o.balance;
    arrived = o.arrived;
  })
  | inr e ↦ rw e (record {
    rest = o.rest;
    remains = o.remains;
    unfinished = o.unfinished;
    balance = o.balance;
    arrived = o.arrived;
  })
]

mark_started_state : (now : ℕ) (x : Process) → (mark_started now x).state ≡ running
mark_started_state now x = elim (Bool-cases (is_unstarted x.start_time)) [
  | inl e ↦ rw e refl
  | inr e ↦ rw e refl
]

pub start-IsAccounted :
    (a now p : ℕ) (ps : List ℕ) (s : Core)
    → s.running ≡ none
    → ((q : ℕ) → count q s.ready_queue ≡ count q (p ∷ ps))
    → IsAccounted a a s
    → IsAccounted a a (start now p ps s)
unfolding start
start-IsAccounted a now p ps s e f v =
    let c =
      subst (λ k. Cell a a (s.store p) k (count p s.completed) (runs p s.running))
        (f p ∙ rw (==_refl p) refl) (v p) in
    let k = queued-is_ready (s.store p).state _ _ _ c.1 in
    let o = subst (λ t. Owes a a t (s.store p)) k.0 c.0 in
    Accounted-update a a p s.store (mark_started now) ps (some p) s.completed
      (rw (mark_started_state now (s.store p))
        (started-IsOwed a now (s.store p) o, (k.1, k.2, ==_refl p)))
      (λ q d. rw d (
        subst₂ (λ c r. Cell a a (s.store q) c (count q s.completed) r) (f q ∙ rw d refl)
          (ap (runs q) e) (v q)))

dispatch_at :
    (a now : ℕ) (s : Core) (o : Option ℕ) (ps : List ℕ)
    → s.running ≡ o
    → s.ready_queue ≡ ps
    → IsAccounted a a s
    → IsAccounted a a (dispatch now s)
unfolding dispatch
dispatch_at a now s (some p) ps e f v = rw (e, dispatch) v
dispatch_at a now s none [] e f v = rw (e, f, dispatch) v
dispatch_at a now s none (p ∷ ps) e f v =
    rw (e, f, dispatch) (start-IsAccounted a now p ps s e (λ q. ap (count q) f) v)

pub dispatch-IsAccounted :
    (a now : ℕ) (s : Core) → IsAccounted a a s → IsAccounted a a (dispatch now s)
dispatch-IsAccounted a now s v = dispatch_at a now s s.running s.ready_queue refl refl v

-- The running process owes ticks, and stands in no list.
pub running-IsOwed :
    (a p : ℕ) (s : Core)
    → s.running ≡ some p
    → IsAccounted a a s
    → ((s.store p).state ≡ running)
      × IsOwed a (s.store p)
      × (count p s.ready_queue ≡ 0)
      × (count p s.completed ≡ 0)
running-IsOwed a p s e v =
    let c =
      subst (λ r. Cell a a (s.store p) (count p s.ready_queue) (count p s.completed) r)
        (ap (runs p) e ∙ ==_refl p) (v p) in
    let k = runs-is_running (s.store p).state _ _ c.1 in
    (k.0, subst (λ t. Owes a a t (s.store p)) k.0 c.0, k.1, k.2)

pub preempt-IsAccounted :
    (a p : ℕ) (s : Core) → s.running ≡ some p → IsAccounted a a s → IsAccounted a a (preempt p s)
unfolding preempt
preempt-IsAccounted a p s e v =
    let (t, o, k, d) = running-IsOwed a p s e v in
    Accounted-update a a p s.store (λ x. record x { state = ready }) (s.ready_queue ++ p ∷ []) none
      s.completed
      (
        record {
          rest = o.rest;
          remains = o.remains;
          unfinished = o.unfinished;
          balance = o.balance;
          arrived = o.arrived;
        },
        (count-push_self p s.ready_queue ∙ ap suc k, d, refl),
      )
      (λ q d. rw (count-push_other p q s.ready_queue d) (
        subst (λ r. Cell a a (s.store q) (count q s.ready_queue) (count q s.completed) r)
          (ap (runs q) e ∙ d) (v q)))
