-- ===== src/Kernel/Lifecycle/Adopting.antt =====
-- The loop of `Exit` of pkg/kernel/process_lifecycle.go that gives the children to init.
use os_simulator.Base.{
  ==_cases, List, Option, [], ap, append-nil, append_assoc, arith, count, false, if_both,
  if◌then◌else◌, inl, inr, ltb, none, refl, returns, some, suc, sym, true, ℕ, ◌++◌, ◌<◌, ◌==◌, ◌∙◌,
  ◌∷◌, ◌≡◌, ◌≢◌,
}
use os_simulator.Kernel.Lifecycle.{
  Processes, UnixProcess, add_child, adopt, map_process, modify, set_ppid,
}
use os_simulator.Kernel.Lifecycle.Tree.{modify_keeps}

abbrev pub add_children : List ℕ → UnixProcess → UnixProcess
add_children cs p = record p { children = p.children ++ cs }

-- The table after the loop: init has the children, and they have init as their parent.
abbrev pub adopted : ℕ → List ℕ → Processes → Processes
adopted root cs m = λ q.
    if q == root
    then map_process (add_children cs) (m q)
    else if ltb 0 (count q cs)
    then map_process (set_ppid root) (m q)
    else m q

-- The children are in the table, and init is not one of them.
abbrev pub ArePresent : ℕ → List ℕ → Processes → Type 0
ArePresent root cs m = (c : ℕ) → 0 < count c cs → (c ≢ root) × (k : UnixProcess) × (m c ≡ some k)

-- The table after one round of the loop.
abbrev adopted_one : ℕ → ℕ → Processes → Processes
adopted_one root c m = modify root (add_child c) (modify c (set_ppid root) m)

pub adopted_nil : (root q : ℕ) (m : Processes) → m q ≡ adopted root [] m q
adopted_nil root q m = sym (if_both (λ z. z ≡ m q) (q == root) _ _ (same (m q)) refl)
  where
    same : (o : Option UnixProcess) → map_process (add_children []) o ≡ o
    same none = refl
    same (some p) = ap (λ cs. some (record p { children = cs })) (append-nil p.children)

ltb-suc : (n : ℕ) → ltb 0 (suc n) ≡ true
ltb-suc n = ground arith

adopted_cons :
    (root c q : ℕ) (cs : List ℕ) (m : Processes)
    → c ≢ root
    → adopted root cs (adopted_one root c m) q ≡ adopted root (c ∷ cs) m q
adopted_cons root c q cs m ne = elim (==_cases q root) [
  | inl (b, e) ↦ let other : (q == c) ≡ false = ground (arith, e, ne) in rw (b, other) (join (m q))
  | inr (b, _) ↦ elim (==_cases q c) [
    | inl (b', e) ↦
        let mine : (c == q) ≡ true = ground (arith, e) in
        rw (b, b', mine, ltb-suc (count q cs))
          (if_both (λ z. z ≡ map_process (set_ppid root) (m q)) (ltb 0 (count q cs)) _ _
            (twice (m q)) refl)
    | inr (b', other) ↦
        let not_mine : (c == q) ≡ false = ground (arith, other) in rw (b, b', not_mine) refl
  ]
]
  where
    join :
        (o : Option UnixProcess)
        → map_process (add_children cs) (map_process (add_child c) o)
          ≡ map_process (add_children (c ∷ cs)) o
    join none = refl
    join (some p) =
        ap (λ ds. some (record p { children = ds })) (append_assoc p.children (c ∷ []) cs)

    twice :
        (o : Option UnixProcess)
        → map_process (set_ppid root) (map_process (set_ppid root) o)
          ≡ map_process (set_ppid root) o
    twice none = refl
    twice (some p) = refl

adopt_step :
    (root c : ℕ) (cs : List ℕ) (m : Processes) (i k : UnixProcess)
    → m root ≡ some i
    → m c ≡ some k
    → adopt root (c ∷ cs) m ≡ adopt root cs (adopted_one root c m)
unfolding adopt
adopt_step root c cs m i k there at = rw (at, there, adopt) refl

adopted_one-some :
    (root c d : ℕ) (m : Processes) (k : UnixProcess)
    → m d ≡ some k
    → (x : UnixProcess) × (adopted_one root c m d ≡ some x)
adopted_one-some root c d m k at =
    modify_keeps root d _ (modify c (set_ppid root) m) (modify_keeps c d (set_ppid root) m (k, at))

pub adopt-adopted :
    (root : ℕ) (cs : List ℕ) (m : Processes) (i : UnixProcess)
    → m root ≡ some i
    → ArePresent root cs m
    → (m' : Processes) × (adopt root cs m ≡ returns m') × ((q : ℕ) → m' q ≡ adopted root cs m q)
unfolding adopt
adopt-adopted root [] m i there h = (m, refl, λ q. adopted_nil root q m)
adopt-adopted root (c ∷ cs) m i there h =
    let (ne, k, at) = h c (ground arith) in
    let (i', there') = adopted_one-some root c root m i there in
    let (m', e, f) = adopt-adopted root cs (adopted_one root c m) i' there' (λ d n.
      let (other, x, found) = h d (ground (arith, n)) in
      let (y, kept) = adopted_one-some root c d m x found in (other, y, kept)) in
    (m', adopt_step root c cs m i k there at ∙ e, λ q. f q ∙ adopted_cons root c q cs m ne)
