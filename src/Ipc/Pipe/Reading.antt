-- ===== src/Ipc/Pipe/Reading.antt =====
-- What a section of Read in pkg/ipc/pipe.go does.
use os_simulator.Base.{
  Bool-cases, List, [], ap, arith, drop, false, if_both, if◌then◌else◌, inl, inr, length,
  length-take, ltb, refl, sym, take, take_append_drop, true, ℕ, ◌++◌, ◌+◌, ◌<◌, ◌∷◌, ◌≡◌, ◌≤◌, ◌⊎◌,
}
use os_simulator.Ipc.Pipe.{Pipe, ReadEnd, bytes, is_empty, read, read_waits}

abbrev pub delivered : ReadEnd → List ℕ
delivered (bytes bs) = bs
delivered read_waits = []

-- What a section of Read delivers is the front of the buffer.
pub record Reads (p : Pipe) (r : Pipe × ReadEnd) : Type 0 where
  pub front : p.buffer ≡ delivered r.1 ++ r.0.buffer
  pub counted : r.0.total_read ≡ p.total_read + length (delivered r.1)
  pub capacity : r.0.capacity ≡ p.capacity
  pub writes_kept : r.0.total_written ≡ p.total_written

none-Reads : (p : Pipe) (e : ReadEnd) → delivered e ≡ [] → Reads p (p, e)
none-Reads p e h = record {
  front = ap (λ z. z ++ p.buffer) (sym h);
  counted = rw h (omega arith);
  capacity = refl;
  writes_kept = refl;
}

front-Reads :
    (p : Pipe) (k : ℕ)
    → k ≤ length p.buffer
    → Reads p (
      record p { buffer = drop k p.buffer; total_read = p.total_read + k },
      bytes (take k p.buffer),
    )
front-Reads p k h = record {
  front = sym (take_append_drop k p.buffer);
  counted = ap (λ n. p.total_read + n) (sym (length-take k p.buffer h));
  capacity = refl;
  writes_kept = refl;
}

pub read-Reads : (p : Pipe) (k : ℕ) → Reads p (read p k)
unfolding read
read-Reads p k = if_both (Reads p) _ _ _ (none-Reads p read_waits refl) (
    if_both (Reads p) _ _ _ (none-Reads p (bytes []) refl)
      (front-Reads p (if ltb (length p.buffer) k then length p.buffer else k) (ground arith)))

min_cases : (l k : ℕ) → let n = if ltb l k then l else k in (n ≤ k) × (n ≤ l) × ((n ≡ k) ⊎ (n ≡ l))
min_cases l k = ground arith

read_at :
    (p : Pipe) (k : ℕ) (q : List ℕ)
    → p.buffer ≡ q
    → ((p.buffer ≡ []) × (p.write_closed ≡ false) × (read p k ≡ (p, read_waits)))
      ⊎ ((p.buffer ≡ []) × (p.write_closed ≡ true) × (read p k ≡ (p, bytes [])))
      ⊎ ((0 < length p.buffer)
          × (n : ℕ) × (n ≤ k)
          × (n ≤ length p.buffer)
          × ((n ≡ k) ⊎ (n ≡ length p.buffer))
          × (read p k ≡ (
            record p { buffer = drop n p.buffer; total_read = p.total_read + n },
            bytes (take n p.buffer),
          )))
unfolding read
read_at p k [] e = elim (Bool-cases p.write_closed) [
  | inr c ↦ inl (e, c, simp (e, c, read) refl)
  | inl c ↦ inr (inl (e, c, simp (e, c, read) refl))
]
read_at p k (b ∷ bs) e =
    let (x, y, z) = min_cases (length p.buffer) k in
    inr (inr (ground (arith, e), _, x, y, z, rw (ap is_empty e, read) refl))

-- A call of Read waits exactly where the buffer is empty and the write end is open. Otherwise it
-- returns: no bytes where the buffer is empty, and else as many bytes as there are, up to the wanted
-- number, from the front of the buffer, which it takes out and counts.
pub read_cases :
    (p : Pipe) (k : ℕ)
    → ((p.buffer ≡ []) × (p.write_closed ≡ false) × (read p k ≡ (p, read_waits)))
      ⊎ ((p.buffer ≡ []) × (p.write_closed ≡ true) × (read p k ≡ (p, bytes [])))
      ⊎ ((0 < length p.buffer)
          × (n : ℕ) × (n ≤ k)
          × (n ≤ length p.buffer)
          × ((n ≡ k) ⊎ (n ≡ length p.buffer))
          × (read p k ≡ (
            record p { buffer = drop n p.buffer; total_read = p.total_read + n },
            bytes (take n p.buffer),
          )))
read_cases p k = read_at p k p.buffer refl
