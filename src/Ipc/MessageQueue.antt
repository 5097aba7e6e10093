-- ===== src/Ipc/MessageQueue.antt =====
-- pkg/ipc/message_queue.go. Each call holds the mutex of the queue.
pub mod Receiving
mod Tests
use os_simulator.Base.{
  Bool, List, Option, String, [], if◌then◌else◌, inl, inr, leb, length, none, some, ℕ, ◌++◌, ◌||◌,
  ◌∷◌, ◌⊎◌,
}
use os_simulator.Base.Int.{eqb_ℤ, ltb_ℤ, pos, pos_part, ℤ}

pub data QueueError : Type 0 where
  queue_full queue_empty : QueueError

pub record Message : Type 0 where
  pub msg_type : ℤ
  pub sender_pid : ℤ
  pub payload : String

pub record MessageQueue : Type 0 where
  pub queue_id : ℤ
  pub capacity : ℕ
  pub messages : List Message

-- A capacity that is not positive becomes 10.
unfoldable pub new_queue : ℤ → ℤ → MessageQueue
new_queue id wanted = record {
  queue_id = id;
  capacity = if ltb_ℤ (pos 0) wanted then pos_part wanted else 10;
  messages = [];
}

unfoldable pub send : MessageQueue → Message → MessageQueue × Option QueueError
send q m =
    if leb q.capacity (length q.messages)
    then (q, some queue_full)
    else (record q { messages = q.messages ++ m ∷ [] }, none)

-- A target type of 0 takes any message.
abbrev pub is_wanted : ℤ → Message → Bool
is_wanted target m = eqb_ℤ target (pos 0) || eqb_ℤ m.msg_type target

-- The first wanted message and the others.
unfoldable pub take_wanted : ℤ → List Message → Option (Message × List Message)
take_wanted target [] = none
take_wanted target (m ∷ ms) =
    let rest = take_wanted target ms in
    if is_wanted target m
    then some (m, ms)
    else elim rest [ none ↦ none | some (n, ns) ↦ some (n, m ∷ ns) ]

unfoldable pub receive : MessageQueue → ℤ → MessageQueue × (Message ⊎ QueueError)
receive q target = elim (take_wanted target q.messages) [
  | none ↦ (q, inr queue_empty)
  | some (m, ms) ↦ (record q { messages = ms }, inl m)
]
