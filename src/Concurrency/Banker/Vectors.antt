-- ===== src/Concurrency/Banker/Vectors.antt =====
-- Vectors of units, compared entry by entry.
use os_simulator.Base.{All, List, [], ap₂, arith, refl, true, ◌∷◌, ◌≡◌}
use os_simulator.Base.Int.{int_laws, pos, ℤ, ◌≤ℤ◌}
use os_simulator.Concurrency.Banker.{add_vec, can_execute, sub_vec}

-- The same length, and no entry larger.
infix 50 ◌≤ᵛ◌
abbrev pub ◌≤ᵛ◌ : List ℤ → List ℤ → Type 0
[] ≤ᵛ [] = Unit
[] ≤ᵛ (w ∷ ws) = ⊥
(v ∷ vs) ≤ᵛ [] = ⊥
(v ∷ vs) ≤ᵛ (w ∷ ws) = (v ≤ℤ w) × (vs ≤ᵛ ws)

abbrev pub IsNonneg : List ℤ → Type 0
IsNonneg = All (λ v. pos 0 ≤ℤ v)

pub ≤ᵛ_refl : (vs : List ℤ) → vs ≤ᵛ vs
≤ᵛ_refl [] = tt
≤ᵛ_refl (v ∷ vs) = (omega arith, ≤ᵛ_refl vs)

pub ≤ᵛ_trans : (us vs ws : List ℤ) → us ≤ᵛ vs → vs ≤ᵛ ws → us ≤ᵛ ws
≤ᵛ_trans [] [] [] h k = tt
≤ᵛ_trans [] [] (w ∷ ws) h k = k
≤ᵛ_trans [] (v ∷ vs) ws h k = absurd h
≤ᵛ_trans (u ∷ us) [] ws h k = absurd h
≤ᵛ_trans (u ∷ us) (v ∷ vs) [] h k = k
≤ᵛ_trans (u ∷ us) (v ∷ vs) (w ∷ ws) h k = (omega arith, ≤ᵛ_trans us vs ws h.1 k.1)

pub ≤ᵛ-add_vec : (vs ds : List ℤ) → IsNonneg ds → vs ≤ᵛ add_vec vs ds
unfolding add_vec
≤ᵛ-add_vec [] ds n = tt
≤ᵛ-add_vec (v ∷ vs) [] n = ≤ᵛ_refl (v ∷ vs)
≤ᵛ-add_vec (v ∷ vs) (d ∷ ds) n = (omega int_laws, ≤ᵛ-add_vec vs ds n.1)

pub add_vec-mono : (vs ws ds : List ℤ) → vs ≤ᵛ ws → add_vec vs ds ≤ᵛ add_vec ws ds
unfolding add_vec
add_vec-mono [] [] ds h = tt
add_vec-mono [] (w ∷ ws) ds h = absurd h
add_vec-mono (v ∷ vs) [] ds h = absurd h
add_vec-mono (v ∷ vs) (w ∷ ws) [] h = h
add_vec-mono (v ∷ vs) (w ∷ ws) (d ∷ ds) h = (omega int_laws, add_vec-mono vs ws ds h.1)

pub add_vec_swap : (vs ds es : List ℤ) → add_vec (add_vec vs ds) es ≡ add_vec (add_vec vs es) ds
unfolding add_vec
add_vec_swap [] ds es = refl
add_vec_swap (v ∷ vs) [] [] = refl
add_vec_swap (v ∷ vs) [] (e ∷ es) = refl
add_vec_swap (v ∷ vs) (d ∷ ds) [] = refl
add_vec_swap (v ∷ vs) (d ∷ ds) (e ∷ es) = ap₂ ◌∷◌ (omega int_laws) (add_vec_swap vs ds es)

pub add_vec-sub_vec : (vs ds : List ℤ) → add_vec (sub_vec vs ds) ds ≡ vs
unfolding add_vec sub_vec
add_vec-sub_vec [] ds = refl
add_vec-sub_vec (v ∷ vs) [] = refl
add_vec-sub_vec (v ∷ vs) (d ∷ ds) = ap₂ ◌∷◌ (omega int_laws) (add_vec-sub_vec vs ds)

pub sub_vec-add_vec : (vs ds : List ℤ) → sub_vec (add_vec vs ds) ds ≡ vs
unfolding add_vec sub_vec
sub_vec-add_vec [] ds = refl
sub_vec-add_vec (v ∷ vs) [] = refl
sub_vec-add_vec (v ∷ vs) (d ∷ ds) = ap₂ ◌∷◌ (omega int_laws) (sub_vec-add_vec vs ds)

-- What can execute with some units can execute with more.
pub can_execute_mono :
    (ns vs ws : List ℤ) → vs ≤ᵛ ws → can_execute ns vs ≡ true → can_execute ns ws ≡ true
unfolding can_execute
can_execute_mono [] vs ws h e = refl
can_execute_mono (n ∷ ns) [] [] h e = refl
can_execute_mono (n ∷ ns) [] (w ∷ ws) h e = absurd h
can_execute_mono (n ∷ ns) (v ∷ vs) [] h e = absurd h
can_execute_mono (n ∷ ns) (v ∷ vs) (w ∷ ws) h e = ground (arith, can_execute_mono ns vs ws h.1)
