-- ===== src/Ipc/MessageQueue/Receiving.antt =====
-- What the queue of pkg/ipc/message_queue.go delivers.
use os_simulator.Base.{
  All, Bool-cases, List, Option, Option-cases, [], ap, false, inl, inr, length, none, not_leb, refl,
  some, subst, true, ◌++◌, ◌<◌, ◌∷◌, ◌≡◌, ◌⊎◌,
}
use os_simulator.Base.Int.{ℤ}
use os_simulator.Ipc.MessageQueue.{
  Message, MessageQueue, is_wanted, queue_empty, receive, send, take_wanted,
}

abbrev pub NoneWanted : ℤ → List Message → Type 0
NoneWanted target = All (λ m. is_wanted target m ≡ false)

-- The first wanted message of a list, with those before it and those behind it.
pub record IsFirst (target : ℤ) (m : Message) (ms ns : List Message) : Type 0 where
  pub before : List Message
  pub behind : List Message
  pub whole : ms ≡ before ++ m ∷ behind
  pub others : ns ≡ before ++ behind
  pub wanted : is_wanted target m ≡ true
  pub unwanted : NoneWanted target before

abbrev Taken : ℤ → List Message → Option (Message × List Message) → Type 0
Taken target ms none = NoneWanted target ms
Taken target ms (some (m, ns)) = IsFirst target m ms ns

later-Taken :
    (target : ℤ) (m : Message) (ms : List Message) (o : Option (Message × List Message))
    → is_wanted target m ≡ false
    → Taken target ms o
    → Taken target (m ∷ ms) (elim o [ none ↦ none | some (n, ns) ↦ some (n, m ∷ ns) ])
later-Taken target m ms none e t = (e, t)
later-Taken target m ms (some (n, ns)) e t = record {
  before = m ∷ t.before;
  behind = t.behind;
  whole = ap (◌∷◌ m) t.whole;
  others = ap (◌∷◌ m) t.others;
  wanted = t.wanted;
  unwanted = (e, t.unwanted);
}

take_wanted-Taken : (target : ℤ) (ms : List Message) → Taken target ms (take_wanted target ms)
unfolding take_wanted
take_wanted-Taken target [] = tt
take_wanted-Taken target (m ∷ ms) = elim (Bool-cases (is_wanted target m)) [
  | inl e ↦
      rw (e, take_wanted)
        (record {
          before = [];
          behind = ms;
          whole = refl;
          others = refl;
          wanted = e;
          unwanted = tt;
        })
  | inr e ↦ rw (e, take_wanted) (later-Taken target m ms _ e (take_wanted-Taken target ms))
]

-- A receive either fails, and then the queue holds no wanted message and is as it was, or it
-- delivers the first wanted message and takes exactly this one out, so that the others keep their
-- order.
pub receive_cases :
    (q : MessageQueue) (target : ℤ)
    → (NoneWanted target q.messages × (receive q target ≡ (q, inr queue_empty)))
      ⊎ ((m : Message) × (ns : List Message) × IsFirst target m q.messages ns
          × (receive q target ≡ (record q { messages = ns }, inl m)))
unfolding receive
receive_cases q target =
    let t = take_wanted-Taken target q.messages in
    elim (Option-cases (take_wanted target q.messages)) [
      | inl e ↦ inl (subst (Taken target q.messages) e t, rw (e, receive) refl)
      | inr ((m, ns), e) ↦ inr (m, ns, subst (Taken target q.messages) e t, rw (e, receive) refl)
    ]

take_wanted_last :
    (target : ℤ) (m : Message) (ms : List Message)
    → NoneWanted target ms
    → is_wanted target m ≡ true
    → take_wanted target (ms ++ m ∷ []) ≡ some (m, ms)
unfolding take_wanted
take_wanted_last target m [] n e = rw (e, take_wanted) refl
take_wanted_last target m (x ∷ xs) n e =
    rw (n.0, take_wanted, take_wanted_last target m xs n.1 e) refl

send_room :
    (q : MessageQueue) (m : Message)
    → length q.messages < q.capacity
    → send q m ≡ (record q { messages = q.messages ++ m ∷ [] }, none)
unfolding send
send_room q m l = rw (not_leb q.capacity (length q.messages) l, send) refl

-- Into a queue that is not full and holds no wanted message, send a wanted one: the send succeeds,
-- and the next receive delivers this message and leaves the queue as it was before.
pub receive-send :
    (q : MessageQueue) (m : Message) (target : ℤ)
    → length q.messages < q.capacity
    → NoneWanted target q.messages
    → is_wanted target m ≡ true
    → ((send q m).1 ≡ none) × (receive (send q m).0 target ≡ (q, inl m))
unfolding receive
receive-send q m target l n e =
    rw (send_room q m l) (refl, rw (receive, take_wanted_last target m q.messages n e) refl)
