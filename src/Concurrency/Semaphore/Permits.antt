-- ===== src/Concurrency/Semaphore/Permits.antt =====
-- Histories of Wait and Signal on the semaphore of pkg/concurrency/semaphore.go.
use os_simulator.Base.{
  ==_cases, Bool, Bool-cases, List, Option, [], ap, append_assoc, arith, false, inl, inr, length,
  length-append, ltb, ltb→lt, none, refl, some, sym, true, ℕ, ◌++◌, ◌+◌, ◌<◌, ◌∙◌, ◌∷◌, ◌≡◌, ◌≤◌,
  ◌⊎◌,
}
use os_simulator.Base.Int.{ltb_ℤ, pos, sub_ℕ, ◌+ℤ◌, ◌-ℤ◌}
use os_simulator.Concurrency.Semaphore.{Semaphore, new_semaphore, signal, wait}

pub data Operation : Type 0 where
  waits : ℕ → Operation
  signals : Operation

-- The semaphore, how many calls of Wait got through (at once or woken) and how many signals there
-- were; the channels that had to wait and those that were closed, in order.
pub record History : Type 0 where
  pub semaphore : Semaphore
  pub passed : ℕ
  pub signalled : ℕ
  pub blocked : List ℕ
  pub woken : List ℕ

abbrev pub after_wait : ℕ → History → Semaphore × Bool → History
after_wait ch h (s, true) = record h { semaphore = s; blocked = h.blocked ++ ch ∷ [] }
after_wait ch h (s, false) = record h { semaphore = s; passed = h.passed + 1 }

abbrev pub after_signal : History → Semaphore × Option ℕ → History
after_signal h (s, none) = record h { semaphore = s; signalled = h.signalled + 1 }
after_signal h (s, some ch) = record {
  semaphore = s;
  passed = h.passed + 1;
  signalled = h.signalled + 1;
  blocked = h.blocked;
  woken = h.woken ++ ch ∷ [];
}

abbrev pub apply : Operation → History → History
apply (waits ch) h = after_wait ch h (wait ch h.semaphore)
apply signals h = after_signal h (signal h.semaphore)

abbrev pub run : List Operation → History → History
run [] h = h
run (o ∷ os) h = run os (apply o h)

abbrev pub start : ℕ → History
start initial = record {
  semaphore = new_semaphore (pos initial);
  passed = 0;
  signalled = 0;
  blocked = [];
  woken = [];
}

-- No more callers got through than there were permits, none waits while a permit is left, and the
-- callers that wait are woken in the order in which they came.
pub record IsFair (initial : ℕ) (h : History) : Type 0 where
  pub safe : h.passed ≤ initial + h.signalled
  pub balance :
      h.semaphore.value ≡ sub_ℕ (initial + h.signalled) (h.passed + length h.semaphore.waiters)
  pub none_idle : (h.semaphore.waiters ≡ []) ⊎ (h.passed ≡ initial + h.signalled)
  pub in_order : h.woken ++ h.semaphore.waiters ≡ h.blocked

sub_ℕ-pred : (a b : ℕ) → sub_ℕ a b -ℤ pos 1 ≡ sub_ℕ a (b + 1)
unfolding ◌-ℤ◌
sub_ℕ-pred a b = ground arith

sub_ℕ-suc : (a b : ℕ) → sub_ℕ a b +ℤ pos 1 ≡ sub_ℕ (a + 1) b
unfolding ◌+ℤ◌
sub_ℕ-suc a b = ground arith

sub_ℕ-negative : (a b : ℕ) → ltb_ℤ (sub_ℕ a b) (pos 0) ≡ ltb a b
sub_ℕ-negative a b = ground arith

-- The test of `Wait`, in numbers.
wait_test :
    (initial : ℕ) (h : History)
    → IsFair initial h
    → ltb_ℤ (h.semaphore.value -ℤ pos 1) (pos 0)
      ≡ ltb (initial + h.signalled) (h.passed + length h.semaphore.waiters + 1)
wait_test initial h f =
    ap (λ v. ltb_ℤ (v -ℤ pos 1) (pos 0)) f.balance
    ∙ ap (λ v. ltb_ℤ v (pos 0)) (sub_ℕ-pred _ _)
    ∙ sub_ℕ-negative _ _

value_less :
    (initial : ℕ) (h : History) (n : ℕ)
    → IsFair initial h
    → n ≡ h.passed + length h.semaphore.waiters + 1
    → h.semaphore.value -ℤ pos 1 ≡ sub_ℕ (initial + h.signalled) n
value_less initial h n f e =
    ap (λ v. v -ℤ pos 1) f.balance ∙ sub_ℕ-pred _ _ ∙ ap (sub_ℕ (initial + h.signalled)) (sym e)

-- Where callers wait, all permits are in use.
used_up :
    (initial : ℕ) (h : History)
    → IsFair initial h
    → 0 < length h.semaphore.waiters
    → h.passed ≡ initial + h.signalled
used_up initial h f n = elim f.none_idle [
  | inl e ↦ absurd (omega (arith, n, ap length e))
  | inr e ↦ e
]

wait-IsFair :
    (initial ch : ℕ) (h : History) → IsFair initial h → IsFair initial (apply (waits ch) h)
unfolding wait
wait-IsFair initial ch h f = elim (Bool-cases (ltb_ℤ (h.semaphore.value -ℤ pos 1) (pos 0))) [
  | inl b ↦
      let few : initial + h.signalled < h.passed + length h.semaphore.waiters + 1 =
        ltb→lt _ _ (sym (wait_test initial h f) ∙ b) in
      rw (b, wait)
        (record {
          safe = f.safe;
          balance =
              value_less initial h _ f (omega (arith, length-append h.semaphore.waiters (ch ∷ [])));
          none_idle = inr (elim (==_cases (length h.semaphore.waiters) 0) [
            | inl (_, e) ↦ omega (arith, f.safe, few, e)
            | inr (_, ne) ↦ used_up initial h f (omega (arith, ne))
          ]);
          in_order =
              sym (append_assoc h.woken h.semaphore.waiters (ch ∷ []))
              ∙ ap (λ xs. xs ++ ch ∷ []) f.in_order;
        })
  | inr b ↦
      let enough : h.passed + length h.semaphore.waiters + 1 ≤ initial + h.signalled =
        ground (arith, sym (wait_test initial h f) ∙ b) in
      rw (b, wait)
        (record {
          safe = omega (arith, enough);
          balance = value_less initial h _ f (omega arith);
          none_idle = elim f.none_idle [
            | inl e ↦ inl e
            | inr e ↦ absurd (omega (arith, e, enough))
          ];
          in_order = f.in_order;
        })
]

value_more :
    (initial : ℕ) (h : History)
    → IsFair initial h
    → h.semaphore.value +ℤ pos 1
      ≡ sub_ℕ (initial + (h.signalled + 1)) (h.passed + length h.semaphore.waiters)
value_more initial h f =
    let more : initial + h.signalled + 1 ≡ initial + (h.signalled + 1) = omega arith in
    ap (λ v. v +ℤ pos 1) f.balance
    ∙ sub_ℕ-suc _ _
    ∙ ap (λ n. sub_ℕ n (h.passed + length h.semaphore.waiters)) more

signal_at :
    (initial : ℕ) (h : History) (cs : List ℕ)
    → h.semaphore.waiters ≡ cs
    → IsFair initial h
    → IsFair initial (apply signals h)
unfolding signal
signal_at initial h [] e f =
    rw (e, signal)
      (record {
        safe = omega (arith, f.safe);
        balance = value_more initial h f;
        none_idle = inl e;
        in_order = f.in_order;
      })
signal_at initial h (c ∷ cs) e f =
    let all = used_up initial h f (omega (arith, ap length e)) in
    rw (e, signal)
      (record {
        safe = omega (arith, all);
        balance =
            value_more initial h f
            ∙ ap (sub_ℕ (initial + (h.signalled + 1))) (omega (arith, ap length e));
        none_idle = inr (omega (arith, all));
        in_order = append_assoc h.woken (c ∷ []) cs ∙ ap (λ xs. h.woken ++ xs) (sym e) ∙ f.in_order;
      })

apply-IsFair :
    (initial : ℕ) (o : Operation) (h : History) → IsFair initial h → IsFair initial (apply o h)
apply-IsFair initial (waits ch) h f = wait-IsFair initial ch h f
apply-IsFair initial signals h f = signal_at initial h h.semaphore.waiters refl f

run_from :
    (initial : ℕ) (os : List Operation) (h : History) → IsFair initial h → IsFair initial (run os h)
run_from initial [] h f = f
run_from initial (o ∷ os) h f = run_from initial os (apply o h) (apply-IsFair initial o h f)

-- A semaphore that starts with a value of at least 0, after any history of Wait and Signal: the calls
-- of Wait that got through are at most the initial value and the signals together. Its value is the
-- permits that are left less the callers that wait. A caller waits only while all permits are in
-- use, so no wakeup is lost, and the callers that waited are woken in the order they came.
pub run-IsFair : (initial : ℕ) (os : List Operation) → IsFair initial (run os (start initial))
unfolding new_semaphore
run-IsFair initial os =
    run_from initial os (start initial)
      (record { safe = omega arith; balance = ground arith; none_idle = inl refl; in_order = refl })
