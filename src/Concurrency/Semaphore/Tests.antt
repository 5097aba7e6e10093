-- ===== src/Concurrency/Semaphore/Tests.antt =====
-- Runs of pkg/concurrency/semaphore.go.
use os_simulator.Base.{List, [], refl, ◌∷◌, ◌≡◌}
use os_simulator.Base.Int.{◌+ℤ◌, ◌-ℤ◌}
use os_simulator.Concurrency.Semaphore.{new_semaphore, signal, wait}
use os_simulator.Concurrency.Semaphore.Permits.{
  IsFair, Operation, run, run-IsFair, signals, start, waits,
}

abbrev rush : List Operation
rush = waits 10 ∷ waits 11 ∷ waits 12 ∷ signals ∷ []

-- With one permit the first caller passes, and the first signal wakes the second.
rush_wakes : (run rush (start 1)).woken ≡ 11 ∷ []
unfolding new_semaphore wait signal ◌+ℤ◌ ◌-ℤ◌
rush_wakes = refl

run-IsFair_example : IsFair 1 (run rush (start 1))
run-IsFair_example = run-IsFair 1 rush
