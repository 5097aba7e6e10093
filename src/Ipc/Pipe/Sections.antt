-- ===== src/Ipc/Pipe/Sections.antt =====
-- What one section of Write or Read in pkg/ipc/pipe.go does.
use os_simulator.Base.{
  Bool-cases, List, [], ap, append-nil, append_assoc, ap₂, arith, drop, false, false≢true, inl, inr,
  leb, length, length-append, refl, subst, suc, sym, take, true, ℕ, ℕ_discrete, ◌++◌, ◌+◌, ◌<◌, ◌∙◌,
  ◌∷◌, ◌≡◌, ◌≤◌,
}
use os_simulator.Ipc.Pipe.{
  Pipe, WriteEnd, put, write, write_broken, write_loop, write_waits, written,
}

-- The pipe with the first k of the bytes put in.
abbrev pub filled : Pipe → List ℕ → ℕ → Pipe
filled p bs k = record p { buffer = p.buffer ++ take k bs; total_written = p.total_written + k }

-- How a section that has put in k bytes ends: all are written, or the call waits with the others
-- for room in a full buffer, or no reader is left.
abbrev pub Ends : Pipe → List ℕ → ℕ → ℕ → WriteEnd → Type 0
Ends p bs n k (written m) = (m ≡ n + k) × (k ≡ length bs)
Ends p bs n k (write_waits rest m) =
    (m ≡ n + k) × (rest ≡ drop k bs) × (p.capacity ≤ length p.buffer + k) × (p.read_closed ≡ false)
Ends p bs n k (write_broken m) = (m ≡ n + k) × (k ≡ 0) × (p.read_closed ≡ true)

pub record Writes (p : Pipe) (bs : List ℕ) (n : ℕ) (r : Pipe × WriteEnd) : Type 0 where
  pub count : ℕ
  pub possible : count ≤ length bs
  pub room : 0 < count → length p.buffer + count ≤ p.capacity
  pub pipe : r.0 ≡ filled p bs count
  pub ending : Ends p bs n count r.1

none_put : (p : Pipe) (bs : List ℕ) → p ≡ filled p bs 0
none_put p bs =
    ap₂ (λ b t. record p { buffer = b; total_written = t }) (sym (append-nil p.buffer))
      (omega arith)

later-Ends :
    (p : Pipe) (b : ℕ) (bs : List ℕ) (n k : ℕ) (e : WriteEnd)
    → p.read_closed ≡ false
    → Ends (put p b) bs (n + 1) k e
    → Ends p (b ∷ bs) n (suc k) e
unfolding put
later-Ends p b bs n k (written m) o h = (omega (arith, h.0), ap suc h.1)
later-Ends p b bs n k (write_waits rest m) o h =
    (omega (arith, h.0), h.1, omega (arith, h.2, length-append p.buffer (b ∷ [])), h.3)
later-Ends p b bs n k (write_broken m) o h = absurd (false≢true (sym o ∙ h.2))

put-filled :
    (p : Pipe) (b : ℕ) (bs : List ℕ) (k : ℕ) → filled (put p b) bs k ≡ filled p (b ∷ bs) (suc k)
unfolding put
put-filled p b bs k =
    ap₂ (λ c t. record p { buffer = c; total_written = t })
      (append_assoc p.buffer (b ∷ []) (take k bs)) (omega arith)

loop_broken :
    (p : Pipe) (b : ℕ) (bs : List ℕ) (n : ℕ)
    → p.read_closed ≡ true
    → write_loop p (b ∷ bs) n ≡ (p, write_broken n)
unfolding write_loop
loop_broken p b bs n c = elim (Bool-cases (leb p.capacity (length p.buffer))) [
  | inl f ↦ simp (f, c, write_loop) refl
  | inr f ↦ simp (f, c, write_loop) refl
]

loop_waits :
    (p : Pipe) (b : ℕ) (bs : List ℕ) (n : ℕ)
    → p.read_closed ≡ false
    → leb p.capacity (length p.buffer) ≡ true
    → write_loop p (b ∷ bs) n ≡ (p, write_waits (b ∷ bs) n)
unfolding write_loop
loop_waits p b bs n c f = simp (f, c, write_loop) refl

loop_puts :
    (p : Pipe) (b : ℕ) (bs : List ℕ) (n : ℕ)
    → p.read_closed ≡ false
    → leb p.capacity (length p.buffer) ≡ false
    → write_loop p (b ∷ bs) n ≡ write_loop (put p b) bs (n + 1)
unfolding write_loop
loop_puts p b bs n c f = simp (f, c, write_loop) refl

-- Nothing is put in.
stays : (p : Pipe) (bs : List ℕ) (n : ℕ) (e : WriteEnd) → Ends p bs n 0 e → Writes p bs n (p, e)
stays p bs n e h = record {
  count = 0;
  possible = omega arith;
  room = λ z. absurd (omega arith);
  pipe = none_put p bs;
  ending = h;
}

puts :
    (p : Pipe) (b : ℕ) (bs : List ℕ) (n : ℕ) (r : Pipe × WriteEnd)
    → p.read_closed ≡ false
    → leb p.capacity (length p.buffer) ≡ false
    → Writes (put p b) bs (n + 1) r
    → Writes p (b ∷ bs) n r
unfolding put
puts p b bs n r c f w =
    let grown = length-append p.buffer (b ∷ []) in
    record {
      count = suc w.count;
      possible = omega (arith, w.possible);
      room = λ h. elim (ℕ_discrete w.count 0) [
        | yes z ↦ ground (arith, z)
        | no z ↦ omega (arith, grown, w.room (omega arith))
      ];
      pipe = w.pipe ∙ put-filled p b bs w.count;
      ending = later-Ends p b bs n w.count r.1 c w.ending;
    }

pub write_loop-Writes : (p : Pipe) (bs : List ℕ) (n : ℕ) → Writes p bs n (write_loop p bs n)
unfolding write_loop
write_loop-Writes p [] n = stays p [] n (written n) (omega arith, refl)
write_loop-Writes p (b ∷ bs) n = elim (Bool-cases p.read_closed) [
  | inl c ↦
      subst (Writes p (b ∷ bs) n) (sym (loop_broken p b bs n c))
        (stays p _ n _ (omega arith, refl, c))
  | inr c ↦ elim (Bool-cases (leb p.capacity (length p.buffer))) [
    | inl f ↦
        subst (Writes p (b ∷ bs) n) (sym (loop_waits p b bs n c f))
          (stays p _ n _ (omega arith, refl, ground (arith, f), c))
    | inr f ↦
        subst (Writes p (b ∷ bs) n) (sym (loop_puts p b bs n c f))
          (puts p b bs n _ c f (write_loop-Writes (put p b) bs (n + 1)))
  ]
]

-- A call of Write runs until it has put in all bytes, or waits with the bytes that it has not put in,
-- in a pipe that is full and has a reader, or fails, with nothing put in, where the read end is
-- closed. It puts a prefix of the bytes behind the buffer, within the capacity, counts it, and
-- changes nothing else.
pub write-Writes : (p : Pipe) (bs : List ℕ) → Writes p bs 0 (write p bs)
unfolding write
write-Writes p bs = elim (Bool-cases p.read_closed) [
  | inl c ↦
      subst (Writes p bs 0) (simp (c, write) refl) (stays p bs 0 (write_broken 0) (refl, refl, c))
  | inr c ↦ subst (Writes p bs 0) (simp (c, write) refl) (write_loop-Writes p bs 0)
]
