-- ===== src/Cpu/Account.antt =====
-- The time account of every process while a scheduler of pkg/cpu runs: which list it stands in, and
-- how its waiting, arrival, burst and remaining times add up.
use os_simulator.Base.{
  ==_iff, Bool, Bool-cases, List, Option, arith, count, false, inl, inr, none, refl, some, subst,
  suc, true, ℕ, ◌+◌, ◌<◌, ◌==◌, ◌≡◌, ◌≤◌,
}
use os_simulator.Base.Int.{pos}
use os_simulator.Cpu.Process.{Process, ProcessState, blocked, new, ready, running, terminated}
use os_simulator.Cpu.Core.{Core, Store, update}

abbrev pub runs : ℕ → Option ℕ → Bool
runs p none = false
runs p (some q) = q == p

-- With `now` ticks gone by, the waiting time and the executed ticks fill the time since arrival.
pub record IsOwed (now : ℕ) (x : Process) : Type 0 where
  pub rest : ℕ
  pub remains : x.remaining_time ≡ pos rest
  pub unfinished : 0 < rest
  pub balance : x.waiting_time + x.arrival_time + x.burst_time ≡ now + rest
  pub arrived : x.arrival_time ≤ now

pub record IsFresh (x : Process) : Type 0 where
  pub remains : x.remaining_time ≡ pos x.burst_time
  pub unfinished : 0 < x.burst_time
  pub unwaited : x.waiting_time ≡ 0

-- What the times of a finished process say: the waiting time is the turnaround time less the burst
-- time, and one more.
pub record IsSettled (x : Process) : Type 0 where
  pub total : ℕ
  pub turned : x.turnaround ≡ pos total
  pub balance : x.waiting_time + x.burst_time ≡ total + 1
  pub finished : x.finish_time ≡ pos (x.arrival_time + total)

-- The account by state, with one clock for ready and one for running processes.
abbrev pub Owes : ℕ → ℕ → ProcessState → Process → Type 0
Owes a b new x = IsFresh x
Owes a b ready x = IsOwed a x
Owes a b running x = IsOwed b x
Owes a b blocked x = ⊥
Owes a b terminated x = IsSettled x

-- How often the process stands in the ready queue and among the completed, and whether it runs.
abbrev pub Stands : ProcessState → ℕ → ℕ → Bool → Type 0
Stands new q d r = (q ≡ 0) × (d ≡ 0) × (r ≡ false)
Stands ready q d r = (q ≡ 1) × (d ≡ 0) × (r ≡ false)
Stands running q d r = (q ≡ 0) × (d ≡ 0) × (r ≡ true)
Stands blocked q d r = ⊥
Stands terminated q d r = (q ≡ 0) × (d ≡ 1) × (r ≡ false)

abbrev pub Cell : ℕ → ℕ → Process → ℕ → ℕ → Bool → Type 0
Cell a b x q d r = Owes a b x.state x × Stands x.state q d r

abbrev pub Accounted : ℕ → ℕ → Store → List ℕ → Option ℕ → List ℕ → Type 0
Accounted a b h queue cpu finished =
    (p : ℕ) → Cell a b (h p) (count p queue) (count p finished) (runs p cpu)

-- The account of a whole scheduler state.
abbrev pub IsAccounted : ℕ → ℕ → Core → Type 0
IsAccounted a b s = Accounted a b s.store s.ready_queue s.running s.completed

-- What a process is known to be from where it stands.
pub queued-is_ready :
    (st : ProcessState) (q d : ℕ) (r : Bool)
    → Stands st (suc q) d r
    → (st ≡ ready) × (q ≡ 0) × (d ≡ 0) × (r ≡ false)
queued-is_ready new q d r h = absurd (omega arith)
queued-is_ready ready q d r h = (refl, omega arith, h.1, h.2)
queued-is_ready running q d r h = absurd (omega arith)
queued-is_ready blocked q d r h = absurd h
queued-is_ready terminated q d r h = absurd (omega arith)

pub runs-is_running :
    (st : ProcessState) (q d : ℕ) → Stands st q d true → (st ≡ running) × (q ≡ 0) × (d ≡ 0)
runs-is_running new q d h = cc
runs-is_running ready q d h = cc
runs-is_running running q d h = (refl, h.0, h.1)
runs-is_running blocked q d h = absurd h
runs-is_running terminated q d h = cc

-- A write to one process keeps the account where the process and the others do.
pub Accounted-update :
    (a b p : ℕ) (h : Store) (f : Process → Process) (queue : List ℕ) (cpu : Option ℕ)
    (finished : List ℕ)
    → Cell a b (f (h p)) (count p queue) (count p finished) (runs p cpu)
    → ((q : ℕ) → (p == q) ≡ false → Cell a b (h q) (count q queue) (count q finished) (runs q cpu))
    → Accounted a b (update h p f) queue cpu finished
Accounted-update a b p h f queue cpu finished own others q = elim (Bool-cases (p == q)) [
  | inr e ↦ rw e (others q e)
  | inl e ↦ rw e (
      subst (λ z. Cell a b (f (h z)) (count z queue) (count z finished) (runs z cpu))
        ((==_iff p q).0 e) own)
]
