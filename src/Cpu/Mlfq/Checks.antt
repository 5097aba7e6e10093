-- ===== src/Cpu/Mlfq/Checks.antt =====
-- pkg/cpu/sched_mlfq.go: the check of the running process.
use os_simulator.Base.{
  ==_iff, Bool-cases, List, Option, Option-cases, ap, arith, count, false, false≢true, get_elem?,
  get_elem?-lt_length, if◌then◌else◌, inl, inr, leb, length, ltb, none, refl, returns, some,
  some_inj, subst, sym, true, ℕ, ◌+◌, ◌<◌, ◌∙◌, ◌≡◌, ◌≢◌,
}
use os_simulator.Cpu.Process.{Process, ProcessState, blocked, new, ready, running, terminated}
use os_simulator.Cpu.Core.{Core, Store}
use os_simulator.Cpu.Account.{IsAccounted, Stands, runs}
use os_simulator.Cpu.Mlfq.{
  MlfqScheduler, QueueConfig, check_allotment, check_config, check_level, check_running, requeue,
}
use os_simulator.Cpu.Mlfq.Accounts.{length-push_at, levelled, view}
use os_simulator.Cpu.Mlfq.Steps.{requeue-IsAccounted}
use os_simulator.Cpu.Mlfq.Levels.{requeue-AllFit}
use os_simulator.Cpu.Mlfq.Spares.{AllFit, Fits, move_to-Fits, tight-Fits}
use os_simulator.Cpu.Mlfq.Timed.{IsTimed, Sliced}

demoted_level :
    (levels level : ℕ)
    → level < levels
    → (if ltb (level + 1) levels then level + 1 else level) < levels
demoted_level levels level h = ground arith

other-not_running : (q d : ℕ) (st : ProcessState) → Stands st q d false → st ≢ running
other-not_running q d new s e = cc
other-not_running q d ready s e = cc
other-not_running q d running s e = cc
other-not_running q d blocked s e = cc
other-not_running q d terminated s e = cc

-- The slack is the running process's.
pub tight-AllFit :
    (a b slack : ℕ) (cs : List QueueConfig) (s : Core)
    → IsAccounted a b s
    → (v : AllFit slack cs s.store)
    → ((q : ℕ) → runs q s.running ≡ true → (s.store q).allotment_used < (v q).config.allotment)
    → AllFit 0 cs s.store
tight-AllFit a b slack cs s k v own q = elim (Bool-cases (runs q s.running)) [
  | inl r ↦ tight-Fits slack cs (s.store q) (v q) (λ e. own q r)
  | inr r ↦ tight-Fits slack cs (s.store q) (v q) (λ e. absurd (
      other-not_running _ _ (s.store q).state
        (subst (λ b. Stands (s.store q).state (count q s.ready_queue) (count q s.completed) b) r
          (k q).1)
        e))
]

requeue-IsTimed :
    (a slack p : ℕ) (level used : Process → ℕ) (m : MlfqScheduler)
    → m.core.running ≡ some p
    → level (m.core.store p) < length m.queues
    → IsTimed a a slack m
    → Fits slack m.configs
        (record (levelled (level (m.core.store p)) (used (m.core.store p)) (m.core.store p)) {
          state = ready;
        })
    → IsTimed a a 0 (requeue p (λ x. levelled (level x) (used x) x) m)
unfolding requeue
requeue-IsTimed a slack p level used m e k t own =
    let v = requeue-IsAccounted a p level used m e k t.accounted in
    record {
      configured = t.configured;
      same = length-push_at _ p m.queues ∙ t.same;
      accounted = v;
      fits =
          tight-AllFit a a slack m.configs (view (requeue p (λ x. levelled (level x) (used x) x) m))
            v (requeue-AllFit slack p (λ x. levelled (level x) (used x) x) m own t.fits)
            (λ q r. cc);
    }

-- What the check returns: the running process has some of its allotment and of its quantum left.
abbrev pub Checked : ℕ → MlfqScheduler → Type 0
Checked a m = IsTimed a a 0 m × Sliced 0 m

pub idle-Sliced : (slack : ℕ) (m : MlfqScheduler) → m.core.running ≡ none → Sliced slack m
idle-Sliced slack m e p config r = cc

requeue_running :
    (p : ℕ) (f : Process → Process) (m : MlfqScheduler) → (requeue p f m).core.running ≡ none
unfolding requeue
requeue_running p f m = refl

running-spare :
    (p q : ℕ) (config : QueueConfig) (cs : List QueueConfig) (h : Store) (o : Option ℕ)
    (v : AllFit 1 cs h)
    → o ≡ some p
    → get_elem? cs (h p).current_queue ≡ some config
    → (h p).allotment_used < config.allotment
    → runs q o ≡ true
    → (h q).allotment_used < (v q).config.allotment
running-spare p q config cs h o v e f k r =
    let z : p ≡ q = (==_iff p q).0 (ap (runs q) (sym e) ∙ r) in
    let c : config ≡ (v q).config =
      some_inj (sym f ∙ ap (λ z. get_elem? cs (h z).current_queue) z ∙ (v q).found) in
    subst (λ c. (h q).allotment_used < c.allotment) c
      (subst (λ z. (h z).allotment_used < config.allotment) z k)

running-slice :
    (p q : ℕ) (config c : QueueConfig) (m : MlfqScheduler)
    → m.core.running ≡ some p
    → get_elem? m.configs (m.core.store p).current_queue ≡ some config
    → m.current_slice < config.quantum
    → m.core.running ≡ some q
    → get_elem? m.configs (m.core.store q).current_queue ≡ some c
    → m.current_slice < c.quantum + 0
running-slice p q config c m e f k e' f' =
    let z : p ≡ q = some_inj (sym e ∙ e') in
    let d : config ≡ c =
      some_inj (sym f ∙ ap (λ z. get_elem? m.configs (m.core.store z).current_queue) z ∙ f') in
    omega (arith, k, ap (λ (c : QueueConfig). c.quantum) d)

requeue-Checked :
    (a p : ℕ) (level used : Process → ℕ) (m : MlfqScheduler)
    → m.core.running ≡ some p
    → level (m.core.store p) < length m.queues
    → IsTimed a a 1 m
    → Fits 1 m.configs
        (record (levelled (level (m.core.store p)) (used (m.core.store p)) (m.core.store p)) {
          state = ready;
        })
    → Checked a (requeue p (λ x. levelled (level x) (used x) x) m)
requeue-Checked a p level used m e k t own = (
  requeue-IsTimed a 1 p level used m e k t own,
  idle-Sliced 0 (requeue p (λ x. levelled (level x) (used x) x) m) (requeue_running p _ m),
)

unchanged-Checked :
    (a p : ℕ) (config : QueueConfig) (m : MlfqScheduler)
    → m.core.running ≡ some p
    → get_elem? m.configs (m.core.store p).current_queue ≡ some config
    → (m.core.store p).allotment_used < config.allotment
    → m.current_slice < config.quantum
    → IsTimed a a 1 m
    → Checked a m
unchanged-Checked a p config m e f k l t = (
  record {
    configured = t.configured;
    same = t.same;
    accounted = t.accounted;
    fits =
        tight-AllFit a a 1 m.configs (view m) t.accounted t.fits
          (λ q r. running-spare p q config m.configs m.core.store m.core.running t.fits e f k r);
  },
  (λ q c. running-slice p q config c m e f l),
)

check_run :
    (p : ℕ) (config : QueueConfig) (m : MlfqScheduler)
    → m.core.running ≡ some p
    → get_elem? m.configs (m.core.store p).current_queue ≡ some config
    → check_allotment m ≡ returns (check_level p config m)
unfolding check_running check_config
check_run p config m e f = ap (check_running m) e ∙ ap (check_config m p) f

check_idle : (m : MlfqScheduler) → m.core.running ≡ none → check_allotment m ≡ returns m
unfolding check_running
check_idle m e = ap (check_running m) e

check_level-Checked :
    (a p : ℕ) (config : QueueConfig) (m : MlfqScheduler)
    → m.core.running ≡ some p
    → get_elem? m.configs (m.core.store p).current_queue ≡ some config
    → IsTimed a a 1 m
    → Checked a (check_level p config m)
unfolding check_level
check_level-Checked a p config m e f t =
    let x = m.core.store p in
    let k = get_elem?-lt_length m.configs x.current_queue config f in
    let d = demoted_level (length m.queues) x.current_queue (omega (arith, k, t.same)) in
    elim (Bool-cases (leb config.allotment x.allotment_used)) [
      | inl g ↦ rw g (
          requeue-Checked a p
            (λ x.
              if ltb (x.current_queue + 1) (length m.queues)
              then x.current_queue + 1
              else x.current_queue)
            (λ x. 0) m e d t
            (move_to-Fits 1 _ m.configs (record x { state = ready }) t.configured
              (omega (arith, d, t.same))))
      | inr g ↦ elim (Bool-cases (leb config.quantum m.current_slice)) [
        | inl l ↦
            rw (g, l)
              (requeue-Checked a p (λ x. x.current_queue) (λ x. x.allotment_used) m e
                (omega (arith, k, t.same)) t
                (record { config = config; found = f; spare = ground arith }))
        | inr l ↦ rw (g, l) (unchanged-Checked a p config m e f (ground arith) (ground arith) t)
      ]
    ]

pub check-Checked :
    (a : ℕ) (m : MlfqScheduler)
    → IsTimed a a 1 m
    → (k : MlfqScheduler) × (check_allotment m ≡ returns k) × Checked a k
check-Checked a m t = elim (Option-cases m.core.running) [
  | inr (p, e) ↦
      let v = t.fits p in
      (
        check_level p v.config m,
        check_run p v.config m e v.found,
        check_level-Checked a p v.config m e v.found t,
      )
  | inl e ↦ (
    m,
    check_idle m e,
    (
      record {
        configured = t.configured;
        same = t.same;
        accounted = t.accounted;
        fits =
            tight-AllFit a a 1 m.configs (view m) t.accounted t.fits
              (λ q r. absurd (false≢true (ap (runs q) (sym e) ∙ r)));
      },
      idle-Sliced 0 m e,
    ),
  )
]
