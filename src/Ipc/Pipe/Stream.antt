-- ===== src/Ipc/Pipe/Stream.antt =====
-- The byte stream through the pipe of pkg/ipc/pipe.go, whichever calls interleave.
use os_simulator.Base.{
  List, [], ap, append_assoc, arith, length, length-append, length-take, refl, subst₂, sym, take, ℕ,
  ℕ_discrete, ◌++◌, ◌+◌, ◌-◌, ◌<◌, ◌∙◌, ◌∷◌, ◌≡◌, ◌≤◌,
}
use os_simulator.Base.Int.{ℤ}
use os_simulator.Ipc.Pipe.{
  Pipe, ReadEnd, WriteEnd, close_read, close_write, new_pipe, read, write, write_broken, write_loop,
  write_waits, written,
}
use os_simulator.Ipc.Pipe.Reading.{Reads, delivered, read-Reads}
use os_simulator.Ipc.Pipe.Sections.{Ends, Writes, filled, write-Writes, write_loop-Writes}

-- A section of some call. `resumes bs n` is the section of a Write that has waited.
pub data Step : Type 0 where
  writes : List ℕ → Step
  resumes : List ℕ → ℕ → Step
  reads : ℕ → Step
  closes_write : Step
  closes_read : Step

-- A pipe, with all bytes that Write calls report as written and all that Read calls have delivered.
pub record Log : Type 0 where
  pub pipe : Pipe
  pub sent : List ℕ
  pub received : List ℕ

-- The count that a section of Write reports.
abbrev pub reported : WriteEnd → ℕ
reported (written n) = n
reported (write_broken n) = n
reported (write_waits bs n) = n

abbrev pub log_write : Log → List ℕ → ℕ → Pipe × WriteEnd → Log
log_write l bs n r = record l { pipe = r.0; sent = l.sent ++ take (reported r.1 - n) bs }

unfoldable pub step : Log → Step → Log
step l (writes bs) = log_write l bs 0 (write l.pipe bs)
step l (resumes bs n) = log_write l bs n (write_loop l.pipe bs n)
step l (reads k) =
    let r = read l.pipe k in record l { pipe = r.0; received = l.received ++ delivered r.1 }
step l closes_write = record l { pipe = close_write l.pipe }
step l closes_read = record l { pipe = close_read l.pipe }

-- The latest step stands first.
unfoldable pub run : ℤ → List Step → Log
run capacity [] = record { pipe = new_pipe capacity; sent = []; received = [] }
run capacity (s ∷ ss) = step (run capacity ss) s

pub record IsStream (l : Log) : Type 0 where
  pub stream : l.sent ≡ l.received ++ l.pipe.buffer
  pub bounded : length l.pipe.buffer ≤ l.pipe.capacity
  pub counts_written : l.pipe.total_written ≡ length l.sent
  pub counts_read : l.pipe.total_read ≡ length l.received

reported_count :
    (p : Pipe) (bs : List ℕ) (n k : ℕ) (e : WriteEnd) → Ends p bs n k e → reported e - n ≡ k
reported_count p bs n k (written m) h = omega (arith, h.0)
reported_count p bs n k (write_waits rest m) h = omega (arith, h.0)
reported_count p bs n k (write_broken m) h = omega (arith, h.0)

filled-IsStream :
    (l : Log) (bs : List ℕ) (k : ℕ)
    → k ≤ length bs
    → (0 < k → length l.pipe.buffer + k ≤ l.pipe.capacity)
    → IsStream l
    → IsStream (record l { pipe = filled l.pipe bs k; sent = l.sent ++ take k bs })
filled-IsStream l bs k h room v =
    let t = length-take k bs h in
    record {
      stream =
          ap (λ z. z ++ take k bs) v.stream ∙ append_assoc l.received l.pipe.buffer (take k bs);
      bounded = elim (ℕ_discrete k 0) [
        | yes z ↦ omega (arith, z, t, length-append l.pipe.buffer (take k bs), v.bounded)
        | no z ↦ omega (arith, t, length-append l.pipe.buffer (take k bs), room (omega arith))
      ];
      counts_written = omega (arith, v.counts_written, t, length-append l.sent (take k bs));
      counts_read = v.counts_read;
    }

log_write-IsStream :
    (l : Log) (bs : List ℕ) (n : ℕ) (r : Pipe × WriteEnd)
    → Writes l.pipe bs n r
    → IsStream l
    → IsStream (log_write l bs n r)
log_write-IsStream l bs n r w v =
    subst₂ (λ p k. IsStream (record l { pipe = p; sent = l.sent ++ take k bs })) (sym w.pipe)
      (sym (reported_count l.pipe bs n w.count r.1 w.ending))
      (filled-IsStream l bs w.count w.possible w.room v)

read-IsStream :
    (l : Log) (r : Pipe × ReadEnd)
    → Reads l.pipe r
    → IsStream l
    → IsStream (record l { pipe = r.0; received = l.received ++ delivered r.1 })
read-IsStream l r d v =
    let n = length-append (delivered r.1) r.0.buffer in
    record {
      stream =
          v.stream
          ∙ ap (λ z. l.received ++ z) d.front
          ∙ sym (append_assoc l.received (delivered r.1) r.0.buffer);
      bounded = omega (arith, n, ap length d.front, d.capacity, v.bounded);
      counts_written = d.writes_kept ∙ v.counts_written;
      counts_read =
          omega (arith, d.counted, v.counts_read, length-append l.received (delivered r.1));
    }

step-IsStream : (l : Log) (s : Step) → IsStream l → IsStream (step l s)
unfolding step close_write close_read
step-IsStream l (writes bs) v = log_write-IsStream l bs 0 _ (write-Writes l.pipe bs) v
step-IsStream l (resumes bs n) v = log_write-IsStream l bs n _ (write_loop-Writes l.pipe bs n) v
step-IsStream l (reads k) v = read-IsStream l _ (read-Reads l.pipe k) v
step-IsStream l closes_write v = record {
  stream = v.stream;
  bounded = v.bounded;
  counts_written = v.counts_written;
  counts_read = v.counts_read;
}
step-IsStream l closes_read v = record {
  stream = v.stream;
  bounded = v.bounded;
  counts_written = v.counts_written;
  counts_read = v.counts_read;
}

-- From a new pipe, after any sections of Write and Read calls and any closings, in any order: the
-- bytes that the writers report as written are, in this order, the bytes that the readers got and
-- then those in the buffer. The buffer is within the capacity, and the two totals are the numbers of
-- the bytes written and of the bytes read.
pub run-IsStream : (capacity : ℤ) (ss : List Step) → IsStream (run capacity ss)
unfolding run new_pipe
run-IsStream capacity [] = record {
  stream = refl;
  bounded = omega arith;
  counts_written = refl;
  counts_read = refl;
}
run-IsStream capacity (s ∷ ss) = step-IsStream _ s (run-IsStream capacity ss)
