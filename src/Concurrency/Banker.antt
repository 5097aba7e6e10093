-- ===== src/Concurrency/Banker.antt =====
-- pkg/concurrency/deadlock_banker.go. The three matrices have one row for each process: they are a
-- list of rows, `Claim`. A loop over the resources walks the state's own rows, which have the length
-- of `available`; where an argument is shorter it panics. The explanations are left out.
pub mod Vectors
pub mod SafeOrder
pub mod Safety
pub mod Requests
mod Tests
use mathlib.Core.Option
use os_simulator.Base.{
  Bool, List, Option, Outcome, String, [], false, get_elem?, if◌then◌else◌, length, ltb, map, none,
  not, panics, replicate, returns, set, some, suc, take, true, zero, ℕ, ◌&&◌, ◌++◌, ◌==◌, ◌>>=◌,
  ◌||◌, ◌∷◌,
}
use os_simulator.Base.Int.{ltb_ℤ, pos, ℤ, ◌+ℤ◌, ◌-ℤ◌}

-- The rows of Max, Allocation and Need of one process.
pub record Claim : Type 0 where
  pub max : List ℤ
  pub allocation : List ℤ
  pub need : List ℤ

pub record Banker : Type 0 where
  pub resource_names : List String
  pub available : List ℤ
  pub claims : List Claim

-- `copy(avail, totalResources)` into a slice of m zeros.
unfoldable pub copy_totals : ℕ → List ℤ → List ℤ
copy_totals zero ts = []
copy_totals (suc m) [] = pos 0 ∷ copy_totals m []
copy_totals (suc m) (t ∷ ts) = t ∷ copy_totals m ts

unfoldable pub new_banker : ℕ → List String → List ℤ → Banker
new_banker proc_count names totals =
    let zeros = replicate (length names) (pos 0) in
    record {
      resource_names = names;
      available = copy_totals (length names) totals;
      claims = replicate proc_count (record { max = zeros; allocation = zeros; need = zeros });
    }

-- `v[j] += d[j]` and `v[j] -= d[j]` for every j.
unfoldable pub add_vec : List ℤ → List ℤ → List ℤ
add_vec [] ds = []
add_vec (v ∷ vs) [] = v ∷ vs
add_vec (v ∷ vs) (d ∷ ds) = (v +ℤ d) ∷ add_vec vs ds

unfoldable pub sub_vec : List ℤ → List ℤ → List ℤ
sub_vec [] ds = []
sub_vec (v ∷ vs) [] = v ∷ vs
sub_vec (v ∷ vs) (d ∷ ds) = (v -ℤ d) ∷ sub_vec vs ds

-- A process index or an argument that is too short is a panic.
unfoldable pub set_process_claim : Banker → ℕ → List ℤ → List ℤ → Outcome Banker
set_process_claim b i max_claim current =
    let m = length b.available in
    elim (get_elem? b.claims i) [
      | none ↦ if m == 0 then returns b else panics
      | some c ↦
          if ltb (length max_claim) m || ltb (length current) m
          then panics
          else returns (record b {
            available = sub_vec b.available current;
            claims = set b.claims i (record {
              max = take m max_claim;
              allocation = take m current;
              need = sub_vec (take m max_claim) current;
            });
          })
    ]

-- `canExecute`: no entry of Need exceeds the entry of Work.
unfoldable pub can_execute : List ℤ → List ℤ → Bool
can_execute [] ws = true
can_execute (n ∷ ns) [] = true
can_execute (n ∷ ns) (w ∷ ws) = let rest = can_execute ns ws in if ltb_ℤ w n then false else rest

-- The loop over the processes: the first that is not finished and can execute.
unfoldable pub find_runnable : ℕ → List ℤ → List Claim → List Bool → Option ℕ
find_runnable i work [] fs = none
find_runnable i work (c ∷ cs) [] = none
find_runnable i work (c ∷ cs) (f ∷ fs) =
    let rest = find_runnable (suc i) work cs fs in
    if not f && can_execute c.need work then some i else rest

abbrev pub allocation_of : Option Claim → List ℤ
allocation_of none = []
allocation_of (some c) = c.allocation

-- The outer loop, on fuel: `none` means that the fuel ran out.
unfoldable pub safety_loop : ℕ → List Claim → List ℤ → List Bool → List ℕ → Option (Bool × List ℕ)
safety_loop zero cs work fs seq = none
safety_loop (suc fuel) cs work fs seq = elim (ltb (length seq) (length cs)) [
  | false ↦ some (true, seq)
  | true ↦ elim (find_runnable 0 work cs fs) [
    | none ↦ some (false, [])
    | some i ↦
        safety_loop fuel cs (add_vec work (allocation_of (get_elem? cs i))) (set fs i true)
          (seq ++ i ∷ [])
  ]
]

-- One round finishes one process, so as many rounds as processes and one for the last test suffice.
unfoldable pub check_safe_state : Banker → Option (Bool × List ℕ)
check_safe_state b =
    let n = length b.claims in safety_loop (suc n) b.claims b.available (replicate n false) []

-- `request[j] > bound[j]` for some j, in order; a missing `request[j]` is a panic.
unfoldable pub exceeds : List ℤ → List ℤ → Outcome Bool
exceeds [] rs = returns false
exceeds (n ∷ ns) [] = panics
exceeds (n ∷ ns) (r ∷ rs) = let rest = exceeds ns rs in if ltb_ℤ n r then returns true else rest

-- The rows of one process and the available units, after `request` is added or taken back.
abbrev pub lend : List ℤ → Claim → Claim
lend request c = record c {
  allocation = add_vec c.allocation request;
  need = sub_vec c.need request;
}

abbrev pub take_back : List ℤ → Claim → Claim
take_back request c = record c {
  allocation = sub_vec c.allocation request;
  need = add_vec c.need request;
}

-- Steps 3 and on: pretend to allocate, test safety, roll back if unsafe.
unfoldable pub try_grant : Banker → ℕ → Claim → List ℤ → Option (Banker × Bool)
try_grant b i c request =
    let b' = record b {
      available = sub_vec b.available request;
      claims = set b.claims i (lend request c);
    } in
    elim (check_safe_state b') [
      | none ↦ none
      | some (is_safe, seq) ↦
          if is_safe
          then some (b', true)
          else some (
            record b' {
              available = add_vec b'.available request;
              claims = set b'.claims i (take_back request (lend request c));
            },
            false,
          )
    ]

-- `none` would mean that the safety loop ran out of fuel.
unfoldable pub request_resources : Banker → ℕ → List ℤ → Outcome (Option (Banker × Bool))
request_resources b i request = elim (get_elem? b.claims i) [
  | none ↦
      if length b.available == 0
      then returns (Option.map (λ r. (b, r.0)) (check_safe_state b))
      else panics
  | some c ↦ do
    over_need ← exceeds c.need request
    if over_need then returns (some (b, false)) else do
      over_available ← exceeds b.available request
      if over_available then returns (some (b, false)) else returns (try_grant b i c request)
]
