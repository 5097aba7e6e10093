-- ===== src/Ipc/MessageQueue/Tests.antt =====
-- Runs of the message queue of pkg/ipc/message_queue.go, and its theorems at two messages.
use os_simulator.Base.{List, [], arith, inl, inr, none, refl, some, ◌∷◌, ◌≡◌, ◌⊎◌}
use os_simulator.Base.Int.{pos}
use os_simulator.Ipc.MessageQueue.{
  Message, MessageQueue, new_queue, queue_empty, queue_full, receive, send,
}
use os_simulator.Ipc.MessageQueue.Receiving.{IsFirst, NoneWanted, receive-send, receive_cases}

abbrev hello : Message
hello = record { msg_type = pos 1; sender_pid = pos 100; payload = "hello" }

abbrev alert : Message
alert = record { msg_type = pos 2; sender_pid = pos 101; payload = "alert" }

abbrev holding : MessageQueue
holding = record { queue_id = pos 5; capacity = 2; messages = hello ∷ [] }

holding_sent :
    send (send (new_queue (pos 5) (pos 2)) hello).0 alert
    ≡ (record holding { messages = hello ∷ alert ∷ [] }, none)
unfolding new_queue send
holding_sent = refl

holding_full :
    send (record holding { messages = hello ∷ alert ∷ [] }) alert
    ≡ (record holding { messages = hello ∷ alert ∷ [] }, some queue_full)
unfolding send
holding_full = refl

receive-send_example :
    ((send holding alert).1 ≡ none)
    × (receive (send holding alert).0 (pos 2) ≡ (holding, inl alert))
receive-send_example = receive-send holding alert (pos 2) (omega arith) (refl, tt) refl

receive_cases_example :
    (NoneWanted (pos 2) holding.messages × (receive holding (pos 2) ≡ (holding, inr queue_empty)))
    ⊎ ((m : Message) × (ns : List Message) × IsFirst (pos 2) m holding.messages ns
        × (receive holding (pos 2) ≡ (record holding { messages = ns }, inl m)))
receive_cases_example = receive_cases holding (pos 2)
