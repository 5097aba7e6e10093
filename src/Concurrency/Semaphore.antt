-- ===== src/Concurrency/Semaphore.antt =====
-- pkg/concurrency/semaphore.go. The mutex makes the part of a call before its wait one step. A channel
-- is a number; a caller that waits on it goes on once it is closed.
pub mod Permits
mod Tests
use os_simulator.Base.{Bool, List, Option, [], false, if◌then◌else◌, none, some, true, ℕ, ◌++◌, ◌∷◌}
use os_simulator.Base.Int.{ltb_ℤ, pos, ℤ, ◌+ℤ◌, ◌-ℤ◌}

pub record Semaphore : Type 0 where
  pub value : ℤ
  pub waiters : List ℕ

unfoldable pub new_semaphore : ℤ → Semaphore
new_semaphore initial = record { value = initial; waiters = [] }

-- Whether the caller has to wait on its new channel.
unfoldable pub wait : ℕ → Semaphore → Semaphore × Bool
wait ch s =
    let v = s.value -ℤ pos 1 in
    if ltb_ℤ v (pos 0)
    then (record { value = v; waiters = s.waiters ++ ch ∷ [] }, true)
    else (record s { value = v }, false)

-- The channel that is closed, if there is one.
unfoldable pub signal : Semaphore → Semaphore × Option ℕ
signal s =
    let v = s.value +ℤ pos 1 in
    elim s.waiters [
      | [] ↦ (record s { value = v }, none)
      | ch ∷ rest ↦ (record { value = v; waiters = rest }, some ch)
    ]
