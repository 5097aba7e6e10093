-- ===== src/Concurrency/Banker/Requests.antt =====
-- What a request for resources comes to (pkg/concurrency/deadlock_banker.go).
use os_simulator.Base.{
  All, All-get_elem?, Bool-cases, List, [], ap, arith, false, get_elem?, inl, inr, length, refl,
  replicate, returns, set, set-set_self, set_known, some, suc, true, zero, ℕ, ◌∙◌, ◌∷◌, ◌≡◌, ◌≤◌,
  ◌⊎◌,
}
use os_simulator.Base.Int.{int_laws, ltb_ℤ, ℤ, ◌≤ℤ◌}
use os_simulator.Concurrency.Banker.{
  Banker, Claim, add_vec, exceeds, lend, request_resources, sub_vec, take_back, try_grant,
}
use os_simulator.Concurrency.Banker.Vectors.{IsNonneg, add_vec-sub_vec, sub_vec-add_vec}
use os_simulator.Concurrency.Banker.Safety.{check_safe_state_decides}
use os_simulator.Concurrency.Banker.SafeOrder.{SafeFrom}

-- Every amount of the first row is matched by an amount of the second that is no greater.
abbrev pub Within : List ℤ → List ℤ → Type 0
Within [] rs = Unit
Within (n ∷ ns) [] = ⊥
Within (n ∷ ns) (r ∷ rs) = (r ≤ℤ n) × Within ns rs

amount_over : (n r : ℤ) → ltb_ℤ n r ≡ true → ¬ (r ≤ℤ n)
amount_over n r e h = ground arith

amount_within : (n r : ℤ) → ltb_ℤ n r ≡ false → r ≤ℤ n
amount_within n r e = ground arith

-- The test decides whether a request is within a row.
exceeds_decides :
    (ns rs : List ℤ)
    → length ns ≤ length rs
    → ((exceeds ns rs ≡ returns true) × (¬ Within ns rs))
      ⊎ ((exceeds ns rs ≡ returns false) × Within ns rs)
unfolding exceeds
exceeds_decides [] rs h = inr (refl, tt)
exceeds_decides (n ∷ ns) [] h = absurd (omega arith)
exceeds_decides (n ∷ ns) (r ∷ rs) h = elim (Bool-cases (ltb_ℤ n r)) [
  | inl over ↦ inl (rw over refl, λ w. amount_over n r over w.0)
  | inr kept ↦ elim (exceeds_decides ns rs (omega arith)) [
    | inl (p, w) ↦ inl (rw (kept, p) refl, λ v. w v.1)
    | inr (p, w) ↦ inr (rw (kept, p) refl, (amount_within n r kept, w))
  ]
]

add_vec-IsNonneg : (vs ds : List ℤ) → IsNonneg vs → IsNonneg ds → IsNonneg (add_vec vs ds)
unfolding add_vec
add_vec-IsNonneg [] ds h k = tt
add_vec-IsNonneg (v ∷ vs) [] h k = h
add_vec-IsNonneg (v ∷ vs) (d ∷ ds) h k = (omega int_laws, add_vec-IsNonneg vs ds h.1 k.1)

All-set {ℓ κ} :
    {A : Type ℓ} (P : A → Type κ) (xs : List A) (i : ℕ) (a : A)
    → P a
    → All P xs
    → All P (set xs i a)
All-set P [] i a p h = tt
All-set P (x ∷ xs) zero a p h = (p, h.1)
All-set P (x ∷ xs) (suc i) a p h = (h.0, All-set P xs i a p h.1)

-- The state with the request granted.
abbrev pub granted : Banker → ℕ → Claim → List ℤ → Banker
granted b i c request = record b {
  available = sub_vec b.available request;
  claims = set b.claims i (lend request c);
}

-- Some order of all the processes is safe.
abbrev pub IsSafe : Banker → Type 0
IsSafe b = (seq : List ℕ) × SafeFrom b.claims b.available (replicate (length b.claims) false) seq

take_back-lend : (request : List ℤ) (c : Claim) → take_back request (lend request c) ≡ c
take_back-lend request c = λ i. record {
  max = c.max;
  allocation = sub_vec-add_vec c.allocation request i;
  need = add_vec-sub_vec c.need request i;
}

rolled_back :
    (b : Banker) (i : ℕ) (c : Claim) (request : List ℤ)
    → get_elem? b.claims i ≡ some c
    → record (granted b i c request) {
      available = add_vec (granted b i c request).available request;
      claims = set (granted b i c request).claims i (take_back request (lend request c));
    }
      ≡ b
rolled_back b i c request at = λ k. record {
  resource_names = b.resource_names;
  available = add_vec-sub_vec b.available request k;
  claims =
      (set-set_self b.claims i (lend request c) _
          ∙ ap (set b.claims i) (take_back-lend request c)
          ∙ set_known b.claims i c at)
        k;
}

-- The four ways in which a request ends, each with its own condition and the state afterwards.
abbrev pub RequestCases : Banker → ℕ → Claim → List ℤ → Type 0
RequestCases b i c request =
    let r = request_resources b i request in
    ((¬ Within c.need request) × (r ≡ returns (some (b, false))))
    ⊎ (Within c.need request × (¬ Within b.available request) × (r ≡ returns (some (b, false))))
    ⊎ (Within c.need request
        × Within b.available request
        × IsSafe (granted b i c request)
        × (r ≡ returns (some (granted b i c request, true))))
    ⊎ (Within c.need request
        × Within b.available request
        × (¬ IsSafe (granted b i c request))
        × (r ≡ returns (some (b, false))))

-- A request of non-negative amounts, long enough for the state's rows, of a known process, where no
-- process holds a negative amount: it always returns. It is granted exactly if no amount is greater
-- than the process's need or than what is available, and some order of all the processes is safe in
-- the state with the request granted, which is the new state. In each of the three other cases, in
-- which the request exceeds the need, is within the need but exceeds what is available, or is within
-- both but has no safe order, it is denied, with the state exactly as it was.
pub request_resources_cases :
    (b : Banker) (i : ℕ) (c : Claim) (request : List ℤ)
    → get_elem? b.claims i ≡ some c
    → length c.need ≤ length request
    → length b.available ≤ length request
    → IsNonneg request
    → All (λ d. IsNonneg d.allocation) b.claims
    → RequestCases b i c request
unfolding request_resources try_grant
request_resources_cases b i c request at rows units amounts held =
    let held' =
      All-set (λ d. IsNonneg d.allocation) b.claims i (lend request c)
        (add_vec-IsNonneg c.allocation request (All-get_elem? _ b.claims i c held at) amounts)
        held in
    elim (exceeds_decides c.need request rows) [
      | inl (p, over) ↦ inl (over, ground (arith, p))
      | inr (p, need) ↦ elim (exceeds_decides b.available request units) [
        | inl (q, over) ↦ inr (inl (need, over, ground (arith, p, q)))
        | inr (q, within) ↦ elim (check_safe_state_decides (granted b i c request) held') [
          | inl (seq, r, s) ↦ inr (inr (inl (need, within, (seq, s), ground (arith, p, q, r))))
          | inr (r, never) ↦ inr (
              inr (
                inr (
                  need,
                  within,
                  (λ s. never s.0 s.1),
                  ground (arith, p, q, r, rolled_back b i c request at),
                )))
        ]
      ]
    ]
