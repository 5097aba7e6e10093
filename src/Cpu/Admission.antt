-- ===== src/Cpu/Admission.antt =====
-- The arrival loop and the waiting loop of the schedulers in pkg/cpu keep the time account.
use os_simulator.Base.{
  Bool, Bool-cases, List, Option, [], ap, arith, count, count-append, false, inl, inr, refl, suc,
  sym, true, ℕ, ◌++◌, ◌+◌, ◌==◌, ◌∙◌, ◌∷◌, ◌≡◌,
}
use os_simulator.Cpu.Process.{Process, ProcessState, blocked, new, ready, running, terminated}
use os_simulator.Cpu.Core.{Core, Store, admit, arrive, arrives, is_new, wait_all}
use os_simulator.Cpu.Account.{Accounted, Accounted-update, IsAccounted, IsOwed, Owes, Stands}

pub fresh-IsOwed :
    (a b : ℕ) (x : Process) (st : ProcessState)
    → is_new st ≡ true
    → Owes a b st x
    → x.arrival_time ≡ a
    → IsOwed a (record x { state = ready })
fresh-IsOwed a b x new e o t = record {
  rest = x.burst_time;
  remains = o.remains;
  unfinished = o.unfinished;
  balance = omega (arith, o.unwaited, t);
  arrived = omega (arith, t);
}
fresh-IsOwed a b x ready e o t = cc
fresh-IsOwed a b x running e o t = cc
fresh-IsOwed a b x blocked e o t = cc
fresh-IsOwed a b x terminated e o t = cc

pub fresh-Stands :
    (q d : ℕ) (r : Bool) (st : ProcessState)
    → is_new st ≡ true
    → Stands st q d r
    → (q ≡ 0) × (d ≡ 0) × (r ≡ false)
fresh-Stands q d r new e s = s
fresh-Stands q d r ready e s = cc
fresh-Stands q d r running e s = cc
fresh-Stands q d r blocked e s = cc
fresh-Stands q d r terminated e s = cc

pub arrives-cases :
    (now : ℕ) (x : Process)
    → arrives now x ≡ true
    → (x.arrival_time ≡ now) × (is_new x.state ≡ true)
arrives-cases now x e = ground arith

pub count_self : (p : ℕ) → count p (p ∷ []) ≡ 1
count_self p = ground arith

pub count_other : (p q : ℕ) → (p == q) ≡ false → count q (p ∷ []) ≡ 0
count_other p q e = ground arith

pub +_zero : (n : ℕ) → n + 0 ≡ n
+_zero n = omega arith

add_suc : (a b : ℕ) → a + 1 + b ≡ a + suc b
add_suc a b = omega arith

pub arrive-Accounted :
    (now : ℕ) (ps : List ℕ) (h : Store) (queue : List ℕ) (cpu : Option ℕ) (finished : List ℕ)
    → Accounted now (now + 1) h queue cpu finished
    → let (h', queue') = arrive now ps h queue in Accounted now (now + 1) h' queue' cpu finished
unfolding arrive
arrive-Accounted now [] h queue cpu finished v = v
arrive-Accounted now (p ∷ ps) h queue cpu finished v = elim (Bool-cases (arrives now (h p))) [
  | inr e ↦ rw (e, arrive) (arrive-Accounted now ps h queue cpu finished v)
  | inl e ↦
      let (t, n) = arrives-cases now (h p) e in
      let s = fresh-Stands _ _ _ (h p).state n (v p).1 in
      rw (e, arrive)
        (arrive-Accounted now ps _ _ cpu finished (
          Accounted-update now (now + 1) p h (λ x. record x { state = ready }) (queue ++ p ∷ []) cpu
            finished
            (
              fresh-IsOwed now (now + 1) (h p) (h p).state n (v p).0 t,
              (count-append p queue (p ∷ []) ∙ omega (arith, s.0, count_self p), s.1, s.2),
            )
            (λ q d.
              rw (count-append q queue (p ∷ []), count_other p q d, +_zero (count q queue)) (v q))))
]

-- One round of the waiting loop adds the number of entries in the queue.
pub wait_all_at :
    (qs : List ℕ) (h : Store) (p : ℕ)
    → wait_all qs h p ≡ (let x = h p in record x { waiting_time = x.waiting_time + count p qs })
unfolding wait_all
wait_all_at [] h p = ap (λ w. let x = h p in record x { waiting_time = w }) (sym (+_zero _))
wait_all_at (q ∷ qs) h p = elim (Bool-cases (q == p)) [
  | inr e ↦ rw e (wait_all_at qs _ p ∙ rw e refl)
  | inl e ↦ rw e (
      wait_all_at qs _ p
      ∙ rw e (
          ap (λ w. let x = h p in record x { waiting_time = w })
            (add_suc (h p).waiting_time (count p qs))))
]

waited-Cell :
    (now q d : ℕ) (r : Bool) (x : Process) (st : ProcessState)
    → Owes now (now + 1) st x
    → Stands st q d r
    → Owes (now + 1) (now + 1) st (record x { waiting_time = x.waiting_time + q })
waited-Cell now q d r x new o s = record {
  remains = o.remains;
  unfinished = o.unfinished;
  unwaited = omega (arith, o.unwaited, s.0);
}
waited-Cell now q d r x ready o s = record {
  rest = o.rest;
  remains = o.remains;
  unfinished = o.unfinished;
  balance = omega (arith, o.balance, s.0);
  arrived = omega (arith, o.arrived);
}
waited-Cell now q d r x running o s = record {
  rest = o.rest;
  remains = o.remains;
  unfinished = o.unfinished;
  balance = omega (arith, o.balance, s.0);
  arrived = o.arrived;
}
waited-Cell now q d r x blocked o s = o
waited-Cell now q d r x terminated o s = record {
  total = o.total;
  turned = o.turned;
  balance = omega (arith, o.balance, s.0);
  finished = o.finished;
}

pub wait_all-Accounted :
    (now : ℕ) (h : Store) (queue : List ℕ) (cpu : Option ℕ) (finished : List ℕ)
    → Accounted now (now + 1) h queue cpu finished
    → Accounted (now + 1) (now + 1) (wait_all queue h) queue cpu finished
wait_all-Accounted now h queue cpu finished v p =
    rw (wait_all_at queue h p) (waited-Cell now _ _ _ (h p) (h p).state (v p).0 (v p).1, (v p).1)

pub admit-IsAccounted :
    (now : ℕ) (s : Core)
    → IsAccounted now (now + 1) s
    → IsAccounted (now + 1) (now + 1) (admit now s)
unfolding admit
admit-IsAccounted now s v =
    wait_all-Accounted now _ _ s.running s.completed
      (arrive-Accounted now s.all_processes s.store s.ready_queue s.running s.completed v)
