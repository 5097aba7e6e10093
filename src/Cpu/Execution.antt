-- ===== src/Cpu/Execution.antt =====
-- The tick of the running process in pkg/cpu keeps the time account.
use os_simulator.Base.{
  ==_refl, Bool-cases, Option-cases, [], ap, arith, count, false, inl, inr, none, refl, some, subst,
  suc, sym, true, zero, ℕ, ◌++◌, ◌+◌, ◌-◌, ◌<◌, ◌==◌, ◌∙◌, ◌∷◌, ◌≡◌, ◌≤◌,
}
use os_simulator.Base.Int.{pos, ◌-ℤ◌}
use os_simulator.Cpu.Process.{Process, ProcessState, blocked, new, ready, running, terminated}
use os_simulator.Cpu.Core.{Core, execute, is_zero, mark_finished, run_process, update, used_tick}
use os_simulator.Cpu.Account.{
  Accounted, Accounted-update, Cell, IsAccounted, IsOwed, IsSettled, Owes, Stands, runs,
}
use os_simulator.Cpu.Dispatching.{count-push_other, count-push_self, running-IsOwed}

not_zero : (n : ℕ) → is_zero (pos n) ≡ false → 0 < n
not_zero zero e = cc
not_zero (suc n) e = omega arith

is_zero-pos : (n : ℕ) → is_zero (pos n) ≡ true → n ≡ 0
is_zero-pos zero e = refl
is_zero-pos (suc n) e = cc

pos-pos : (a b : ℕ) → b ≤ a → pos a -ℤ pos b ≡ pos (a - b)
unfolding ◌-ℤ◌
pos-pos a b h = ground arith

used_tick-IsOwed :
    (a : ℕ) (x : Process)
    → IsOwed a x
    → is_zero (used_tick x).remaining_time ≡ false
    → IsOwed (a + 1) (used_tick x)
used_tick-IsOwed a x o e =
    let r = ap (λ z. z -ℤ pos 1) o.remains ∙ pos-pos o.rest 1 o.unfinished in
    record {
      rest = o.rest - 1;
      remains = r;
      unfinished = not_zero (o.rest - 1) (sym (ap is_zero r) ∙ e);
      balance = omega (arith, o.balance, o.unfinished);
      arrived = omega (arith, o.arrived);
    }

last_tick :
    (x : Process) (n : ℕ)
    → x.remaining_time ≡ pos n
    → 0 < n
    → is_zero (used_tick x).remaining_time ≡ true
    → n ≡ 1
last_tick x n r h e =
    let z = is_zero-pos (n - 1) (sym (ap is_zero (ap (λ z. z -ℤ pos 1) r ∙ pos-pos n 1 h)) ∙ e) in
    omega (arith, z)

used_tick-IsSettled :
    (now : ℕ) (x : Process)
    → IsOwed (now + 1) x
    → is_zero (used_tick x).remaining_time ≡ true
    → IsSettled (mark_finished now (used_tick x))
used_tick-IsSettled now x o e =
    let n = last_tick x o.rest o.remains o.unfinished e in
    record {
      total = now + 1 - x.arrival_time;
      turned = pos-pos (now + 1) x.arrival_time (omega (arith, o.arrived));
      balance = omega (arith, o.balance, n, o.arrived);
      finished = ap pos (omega (arith, o.arrived));
    }

other-clock :
    (a b c q d : ℕ) (x : Process) (st : ProcessState)
    → Owes a b st x
    → Stands st q d false
    → Owes a c st x
other-clock a b c q d x new o s = o
other-clock a b c q d x ready o s = o
other-clock a b c q d x running o s = cc
other-clock a b c q d x blocked o s = o
other-clock a b c q d x terminated o s = o

-- The processes beside the running one.
others-Cell :
    (a p q : ℕ) (s : Core)
    → s.running ≡ some p
    → IsAccounted a a s
    → (p == q) ≡ false
    → Cell a (a + 1) (s.store q) (count q s.ready_queue) (count q s.completed) false
others-Cell a p q s e v d =
    let k =
      subst (λ r. Stands (s.store q).state (count q s.ready_queue) (count q s.completed) r)
        (ap (runs q) e ∙ d) (v q).1 in
    (other-clock a a (a + 1) _ _ (s.store q) (s.store q).state (v q).0 k, k)

ticked-IsAccounted :
    (now p : ℕ) (s : Core)
    → s.running ≡ some p
    → IsAccounted (now + 1) (now + 1) s
    → is_zero (used_tick (s.store p)).remaining_time ≡ false
    → Accounted
        (now + 1)
        (now + 1 + 1)
        (update s.store p used_tick)
        s.ready_queue
        s.running
        s.completed
ticked-IsAccounted now p s e v z =
    let c = running-IsOwed (now + 1) p s e v in
    rw e (
      Accounted-update (now + 1) (now + 1 + 1) p s.store used_tick s.ready_queue (some p)
        s.completed
        (subst
          (λ t.
            Owes (now + 1) (now + 1 + 1) t (used_tick (s.store p))
            × Stands t (count p s.ready_queue) (count p s.completed) (runs p (some p)))
          (sym c.0) (used_tick-IsOwed (now + 1) (s.store p) c.1 z, (c.2, c.3, ==_refl p)))
        (λ q d. rw d (others-Cell (now + 1) p q s e v d)))

finished-IsAccounted :
    (now p : ℕ) (s : Core)
    → s.running ≡ some p
    → IsAccounted (now + 1) (now + 1) s
    → is_zero (used_tick (s.store p)).remaining_time ≡ true
    → Accounted
        (now + 1)
        (now + 1 + 1)
        (update (update s.store p used_tick) p (mark_finished now))
        s.ready_queue
        none
        (s.completed ++ p ∷ [])
finished-IsAccounted now p s e v z =
    let c = running-IsOwed (now + 1) p s e v in
    Accounted-update (now + 1) (now + 1 + 1) p (update s.store p used_tick) (mark_finished now)
      s.ready_queue none (s.completed ++ p ∷ [])
      (rw (==_refl p) (
        used_tick-IsSettled now (s.store p) c.1 z,
        (c.2, count-push_self p s.completed ∙ ap suc c.3, refl),
      ))
      (λ q d. rw (d, count-push_other p q s.completed d) (others-Cell (now + 1) p q s e v d))

-- A tick of the running process: its clock goes on, or its account is settled.
pub run_process-IsAccounted :
    (now p : ℕ) (s : Core)
    → s.running ≡ some p
    → IsAccounted (now + 1) (now + 1) s
    → IsAccounted (now + 1) (now + 1 + 1) (run_process now p s)
unfolding run_process
run_process-IsAccounted now p s e v =
    elim (Bool-cases (is_zero (used_tick (s.store p)).remaining_time)) [
      | inl z ↦ rw (==_refl p, z, run_process) (finished-IsAccounted now p s e v z)
      | inr z ↦ rw (==_refl p, z, run_process) (ticked-IsAccounted now p s e v z)
    ]

pub execute-IsAccounted :
    (now : ℕ) (s : Core)
    → IsAccounted (now + 1) (now + 1) s
    → IsAccounted (now + 1) (now + 1 + 1) (execute now s)
unfolding execute
execute-IsAccounted now s v = elim (Option-cases s.running) [
  | inr (p, e) ↦ rw (e, execute) (run_process-IsAccounted now p s e v)
  | inl e ↦
      rw (e, execute)
        (λ q.
          let k =
            subst (λ r. Stands (s.store q).state (count q s.ready_queue) (count q s.completed) r)
              (ap (runs q) e) (v q).1 in
          (other-clock (now + 1) (now + 1) (now + 1 + 1) _ _ (s.store q) _ (v q).0 k, (v q).1))
]
