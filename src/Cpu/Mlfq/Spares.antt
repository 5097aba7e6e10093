-- ===== src/Cpu/Mlfq/Spares.antt =====
-- pkg/cpu/sched_mlfq.go: the level of every process has a configuration, and its allotment is not
-- overdrawn.
use os_simulator.Base.{
  ==_iff, All, All-get_elem?, Bool-cases, List, arith, get_elem?, get_elem?_lt, inl, inr, length,
  refl, some, subst, ℕ, ◌+◌, ◌<◌, ◌==◌, ◌≡◌,
}
use os_simulator.Cpu.Process.{Process, ProcessState, blocked, new, ready, running, terminated}
use os_simulator.Cpu.Core.{Store, update, used_tick}
use os_simulator.Cpu.Mlfq.{QueueConfig, move_to, use_allotment}

abbrev pub HasTime : QueueConfig → Type 0
HasTime c = (0 < c.quantum) × (0 < c.allotment)

pub record IsConfigured (cs : List QueueConfig) : Type 0 where
  pub some_level : 0 < length cs
  pub times : All HasTime cs

-- A waiting process has some of its allotment left, a running one up to a slack.
abbrev pub Spare : ℕ → ProcessState → ℕ → ℕ → Type 0
Spare slack new used allotment = Unit
Spare slack ready used allotment = used < allotment
Spare slack running used allotment = used < allotment + slack
Spare slack blocked used allotment = Unit
Spare slack terminated used allotment = Unit

pub record Fits (slack : ℕ) (cs : List QueueConfig) (x : Process) : Type 0 where
  pub config : QueueConfig
  pub found : get_elem? cs x.current_queue ≡ some config
  pub spare : Spare slack x.state x.allotment_used config.allotment

abbrev pub AllFit : ℕ → List QueueConfig → Store → Type 0
AllFit slack cs h = (p : ℕ) → Fits slack cs (h p)

pub AllFit-update :
    (slack p : ℕ) (cs : List QueueConfig) (h : Store) (f : Process → Process)
    → Fits slack cs (f (h p))
    → AllFit slack cs h
    → AllFit slack cs (update h p f)
AllFit-update slack p cs h f own v q = elim (Bool-cases (p == q)) [
  | inr e ↦ rw e (v q)
  | inl e ↦ rw e (subst (λ z. Fits slack cs (f (h z))) ((==_iff p q).0 e) own)
]

unused-Spare :
    (slack allotment : ℕ) (st : ProcessState) → 0 < allotment → Spare slack st 0 allotment
unused-Spare slack allotment new h = tt
unused-Spare slack allotment ready h = h
unused-Spare slack allotment running h = omega arith
unused-Spare slack allotment blocked h = tt
unused-Spare slack allotment terminated h = tt

pub move_to-Fits :
    (slack level : ℕ) (cs : List QueueConfig) (x : Process)
    → IsConfigured cs
    → level < length cs
    → Fits slack cs (move_to level x)
move_to-Fits slack level cs x c h =
    let (config, e) = get_elem?_lt cs level h in
    record {
      config = config;
      found = e;
      spare =
          unused-Spare slack config.allotment x.state
            (All-get_elem? HasTime cs level config c.times e).1;
    }

-- Where no process but one with some allotment left runs, there is no slack.
tight-Spare :
    (slack used allotment : ℕ) (st : ProcessState)
    → (st ≡ running → used < allotment)
    → Spare slack st used allotment
    → Spare 0 st used allotment
tight-Spare slack used allotment new h s = s
tight-Spare slack used allotment ready h s = s
tight-Spare slack used allotment running h s = omega (arith, h refl)
tight-Spare slack used allotment blocked h s = s
tight-Spare slack used allotment terminated h s = s

pub tight-Fits :
    (slack : ℕ) (cs : List QueueConfig) (x : Process) (v : Fits slack cs x)
    → (x.state ≡ running → x.allotment_used < v.config.allotment)
    → Fits 0 cs x
tight-Fits slack cs x v h = record {
  config = v.config;
  found = v.found;
  spare = tight-Spare slack x.allotment_used v.config.allotment x.state h v.spare;
}

loose-Spare :
    (used allotment : ℕ) (st : ProcessState) → Spare 0 st used allotment → Spare 1 st used allotment
loose-Spare used allotment new s = s
loose-Spare used allotment ready s = s
loose-Spare used allotment running s = omega arith
loose-Spare used allotment blocked s = s
loose-Spare used allotment terminated s = s

pub loose-Fits : (cs : List QueueConfig) (x : Process) → Fits 0 cs x → Fits 1 cs x
loose-Fits cs x v = record {
  config = v.config;
  found = v.found;
  spare = loose-Spare x.allotment_used v.config.allotment x.state v.spare;
}

used-Spare :
    (used allotment : ℕ) (st : ProcessState)
    → st ≡ running
    → Spare 0 st used allotment
    → Spare 1 st (used + 1) allotment
used-Spare used allotment new e s = cc
used-Spare used allotment ready e s = cc
used-Spare used allotment running e s = omega arith
used-Spare used allotment blocked e s = cc
used-Spare used allotment terminated e s = cc

pub use_allotment-Fits :
    (cs : List QueueConfig) (x : Process)
    → x.state ≡ running
    → Fits 0 cs x
    → Fits 1 cs (use_allotment x)
use_allotment-Fits cs x e v = record {
  config = v.config;
  found = v.found;
  spare = used-Spare x.allotment_used v.config.allotment x.state e v.spare;
}

pub used_tick-Fits :
    (slack : ℕ) (cs : List QueueConfig) (x : Process)
    → Fits slack cs x
    → Fits slack cs (used_tick x)
used_tick-Fits slack cs x v = record { config = v.config; found = v.found; spare = v.spare }
