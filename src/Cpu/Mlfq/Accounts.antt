-- ===== src/Cpu/Mlfq/Accounts.antt =====
-- pkg/cpu/sched_mlfq.go: the parts of a tick of the MLFQ scheduler keep the time account, in which the
-- queues one after the other are the ready queue.
use os_simulator.Base.{
  Bool-cases, List, Option, [], ap, append-nil, arith, count, count-append, inl, inr, leb, length,
  map, none, refl, some, subst, suc, sym, true, zero, ℕ, ◌++◌, ◌+◌, ◌<◌, ◌∙◌, ◌∷◌, ◌≡◌,
}
use os_simulator.Cpu.Process.{Process, ProcessState, blocked, new, ready, running, terminated}
use os_simulator.Cpu.Core.{Core, Store, arrives, update}
use os_simulator.Cpu.Account.{Accounted, Accounted-update, Cell, IsAccounted, Owes, runs}
use os_simulator.Cpu.Mlfq.{
  MlfqScheduler, boost, enter, flatten, gather, move_all, move_running, move_to, push_at,
}
use os_simulator.Cpu.Admission.{
  +_zero, arrives-cases, count_other, count_self, fresh-IsOwed, fresh-Stands,
}

abbrev pub view : MlfqScheduler → Core
view m = record m.core { ready_queue = flatten m.queues }

pub recounted :
    (a b : ℕ) (h : Store) (xs ys : List ℕ) (cpu : Option ℕ) (finished : List ℕ)
    → ((q : ℕ) → count q xs ≡ count q ys)
    → Accounted a b h xs cpu finished
    → Accounted a b h ys cpu finished
recounted a b h xs ys cpu finished f v q =
    subst (λ k. Cell a b (h q) k (count q finished) (runs q cpu)) (f q) (v q)

abbrev pub levelled : ℕ → ℕ → Process → Process
levelled level used x = record x { current_queue = level; allotment_used = used }

pub levelled-Owes :
    (a b level used : ℕ) (x : Process) (st : ProcessState)
    → Owes a b st x
    → Owes a b st (levelled level used x)
levelled-Owes a b level used x new o = record {
  remains = o.remains;
  unfinished = o.unfinished;
  unwaited = o.unwaited;
}
levelled-Owes a b level used x ready o = record {
  rest = o.rest;
  remains = o.remains;
  unfinished = o.unfinished;
  balance = o.balance;
  arrived = o.arrived;
}
levelled-Owes a b level used x running o = record {
  rest = o.rest;
  remains = o.remains;
  unfinished = o.unfinished;
  balance = o.balance;
  arrived = o.arrived;
}
levelled-Owes a b level used x blocked o = o
levelled-Owes a b level used x terminated o = record {
  total = o.total;
  turned = o.turned;
  balance = o.balance;
  finished = o.finished;
}

-- The account does not read the level and the allotment.
pub levelled-Accounted :
    (a b p : ℕ) (level used : Process → ℕ) (h : Store) (queue : List ℕ) (cpu : Option ℕ)
    (finished : List ℕ)
    → Accounted a b h queue cpu finished
    → Accounted a b (update h p (λ x. levelled (level x) (used x) x)) queue cpu finished
levelled-Accounted a b p level used h queue cpu finished v =
    Accounted-update a b p h (λ x. levelled (level x) (used x) x) queue cpu finished
      (levelled-Owes a b _ _ (h p) (h p).state (v p).0, (v p).1) (λ q d. v q)

move_all-Accounted :
    (a b : ℕ) (ps : List ℕ) (h : Store) (queue : List ℕ) (cpu : Option ℕ) (finished : List ℕ)
    → Accounted a b h queue cpu finished
    → Accounted a b (move_all ps h) queue cpu finished
unfolding move_all
move_all-Accounted a b [] h queue cpu finished v = v
move_all-Accounted a b (p ∷ ps) h queue cpu finished v =
    move_all-Accounted a b ps _ queue cpu finished
      (levelled-Accounted a b p (λ x. 0) (λ x. 0) h queue cpu finished v)

move_running-Accounted :
    (a b : ℕ) (o : Option ℕ) (h : Store) (queue : List ℕ) (cpu : Option ℕ) (finished : List ℕ)
    → Accounted a b h queue cpu finished
    → Accounted a b (move_running o h) queue cpu finished
unfolding move_running
move_running-Accounted a b none h queue cpu finished v = v
move_running-Accounted a b (some p) h queue cpu finished v =
    levelled-Accounted a b p (λ x. 0) (λ x. 0) h queue cpu finished v

flatten-empty : (qs : List (List ℕ)) → flatten (map (λ _. []) qs) ≡ []
flatten-empty [] = refl
flatten-empty (q ∷ qs) = flatten-empty qs

pub flatten-gather : (qs : List (List ℕ)) → flatten (gather qs) ≡ flatten qs
unfolding gather
flatten-gather [] = refl
flatten-gather (q ∷ qs) = rw (flatten-empty qs) (append-nil (q ++ flatten qs))

pub boost-IsAccounted :
    (a b now : ℕ) (m : MlfqScheduler)
    → IsAccounted a b (view m)
    → IsAccounted a b (view (boost now m))
unfolding boost
boost-IsAccounted a b now m v = elim (Bool-cases (leb m.boost_period m.ticks_since_boost)) [
  | inr e ↦ rw e v
  | inl e ↦
      rw (e, flatten-gather m.queues)
        (move_running-Accounted a b m.core.running _ _ _ _
          (move_all-Accounted a b (flatten m.queues) m.core.store _ _ _ v))
]

pub count-push_at :
    (q level p : ℕ) (qs : List (List ℕ))
    → level < length qs
    → count q (flatten (push_at level p qs)) ≡ count q (flatten qs ++ p ∷ [])
unfolding push_at
count-push_at q level p [] h = elim h [ ]
count-push_at q zero p (x ∷ qs) h =
    rw
      (
        count-append q (x ++ p ∷ []) (flatten qs),
        count-append q x (p ∷ []),
        count-append q (x ++ flatten qs) (p ∷ []),
        count-append q x (flatten qs),
      )
      (omega arith)
count-push_at q (suc level) p (x ∷ qs) h =
    rw
      (
        count-append q x (flatten (push_at level p qs)),
        count-push_at q level p qs (omega arith),
        count-append q (flatten qs) (p ∷ []),
        count-append q (x ++ flatten qs) (p ∷ []),
        count-append q x (flatten qs),
      )
      (omega arith)

pub length-push_at : (level p : ℕ) (qs : List (List ℕ)) → length (push_at level p qs) ≡ length qs
unfolding push_at
length-push_at level p [] = refl
length-push_at zero p (x ∷ qs) = refl
length-push_at (suc level) p (x ∷ qs) = ap suc (length-push_at level p qs)

-- The arriving process behind the ready queue.
entered-Accounted :
    (now p : ℕ) (h : Store) (queue : List ℕ) (cpu : Option ℕ) (finished : List ℕ)
    → arrives now (h p) ≡ true
    → Accounted now (now + 1) h queue cpu finished
    → Accounted now
        (now + 1)
        (update h p (λ x. move_to 0 (record x { state = ready })))
        (queue ++ p ∷ [])
        cpu
        finished
entered-Accounted now p h queue cpu finished e v =
    let (t, n) = arrives-cases now (h p) e in
    let s = fresh-Stands _ _ _ (h p).state n (v p).1 in
    Accounted-update now (now + 1) p h (λ x. move_to 0 (record x { state = ready }))
      (queue ++ p ∷ []) cpu finished
      (
        levelled-Owes now (now + 1) 0 0 (record (h p) { state = ready }) ready
            (fresh-IsOwed now (now + 1) (h p) (h p).state n (v p).0 t),
        (count-append p queue (p ∷ []) ∙ omega (arith, s.0, count_self p), s.1, s.2),
      )
      (λ q d. rw (count-append q queue (p ∷ []), count_other p q d, +_zero (count q queue)) (v q))

pub enter-Accounted :
    (now : ℕ) (ps : List ℕ) (h : Store) (qs : List (List ℕ)) (cpu : Option ℕ) (finished : List ℕ)
    → 0 < length qs
    → Accounted now (now + 1) h (flatten qs) cpu finished
    → let (h', qs') = enter now ps h qs in Accounted now (now + 1) h' (flatten qs') cpu finished
unfolding enter
enter-Accounted now [] h qs cpu finished k v = v
enter-Accounted now (p ∷ ps) h qs cpu finished k v = elim (Bool-cases (arrives now (h p))) [
  | inr e ↦ rw (e, enter) (enter-Accounted now ps h qs cpu finished k v)
  | inl e ↦
      rw (e, enter)
        (enter-Accounted now ps _ _ cpu finished (rw (length-push_at 0 p qs) k) (
          recounted now (now + 1) _ (flatten qs ++ p ∷ []) _ cpu finished
            (λ q. sym (count-push_at q 0 p qs k))
            (entered-Accounted now p h (flatten qs) cpu finished e v)))
]
