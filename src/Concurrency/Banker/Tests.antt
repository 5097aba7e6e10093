-- ===== src/Concurrency/Banker/Tests.antt =====
-- Runs of the banker of pkg/concurrency/deadlock_banker.go, and its theorems at two processes.
use os_simulator.Base.{
  All, List, [], arith, false, refl, replicate, returns, some, true, ℕ, ◌>>=◌, ◌∷◌, ◌≡◌, ◌⊎◌,
}
use os_simulator.Base.Int.{pos, ◌+ℤ◌, ◌-ℤ◌}
use os_simulator.Concurrency.Banker.{
  Banker, Claim, add_vec, can_execute, check_safe_state, copy_totals, exceeds, find_runnable,
  new_banker, request_resources, safety_loop, set_process_claim, sub_vec, try_grant,
}
use os_simulator.Concurrency.Banker.SafeOrder.{SafeFrom}
use os_simulator.Concurrency.Banker.Vectors.{IsNonneg}
use os_simulator.Concurrency.Banker.Safety.{check_safe_state_decides}
use os_simulator.Concurrency.Banker.Requests.{RequestCases, request_resources_cases}

-- Ten units; process 0 may need 8 and holds 2, process 1 may need 6 and holds 4.
abbrev first : Claim
first = record { max = pos 8 ∷ []; allocation = pos 2 ∷ []; need = pos 6 ∷ [] }

abbrev second : Claim
second = record { max = pos 6 ∷ []; allocation = pos 4 ∷ []; need = pos 2 ∷ [] }

abbrev bank : Banker
bank = record {
  resource_names = "memory" ∷ [];
  available = pos 4 ∷ [];
  claims = first ∷ second ∷ [];
}

bank_claims :
    (set_process_claim (new_banker 2 ("memory" ∷ []) (pos 10 ∷ [])) 0 (pos 8 ∷ []) (pos 2 ∷ [])
      >>= λ b. set_process_claim b 1 (pos 6 ∷ []) (pos 4 ∷ []))
    ≡ returns bank
unfolding set_process_claim new_banker copy_totals sub_vec ◌-ℤ◌
bank_claims = refl

bank_safe : check_safe_state bank ≡ some (true, 1 ∷ 0 ∷ [])
unfolding check_safe_state safety_loop find_runnable can_execute add_vec ◌+ℤ◌
bank_safe = refl

bank_held : All (λ c. IsNonneg c.allocation) bank.claims
bank_held = ((omega arith, tt), ((omega arith, tt), tt))

check_safe_state_decides_example :
    let fs = replicate 2 false in
    ((seq : List ℕ) × (check_safe_state bank ≡ some (true, seq))
      × SafeFrom bank.claims bank.available fs seq)
    ⊎ ((check_safe_state bank ≡ some (false, []))
        × ((seq : List ℕ) → ¬ SafeFrom bank.claims bank.available fs seq))
check_safe_state_decides_example = check_safe_state_decides bank bank_held

-- Process 0 asks for 3 units.
request_resources_cases_example : RequestCases bank 0 first (pos 3 ∷ [])
request_resources_cases_example =
    request_resources_cases bank 0 first (pos 3 ∷ []) refl (omega arith) (omega arith)
      (omega arith, tt) bank_held

-- With 3 units lent only 1 is left, so no process could go on.
bank_denies : request_resources bank 0 (pos 3 ∷ []) ≡ returns (some (bank, false))
unfolding request_resources exceeds try_grant check_safe_state safety_loop find_runnable can_execute
    add_vec sub_vec ◌+ℤ◌ ◌-ℤ◌
bank_denies = refl
