-- ===== src/Ipc/Pipe.antt =====
-- pkg/ipc/pipe.go. A call holds the mutex except while it waits on a condition variable, so it is a
-- chain of sections: each runs until the call waits or returns. `waits` holds what the call has in
-- hand when it waits; its next section is a further step, which tests the condition again, and so
-- the steps are those of any wake-ups by Signal and Broadcast, whichever call they choose.
pub mod Sections
pub mod Reading
pub mod Stream
mod Tests
use os_simulator.Base.{
  Bool, List, [], drop, false, if◌then◌else◌, leb, length, ltb, not, take, true, ℕ, ◌&&◌, ◌++◌, ◌+◌,
  ◌∷◌,
}
use os_simulator.Base.Int.{ltb_ℤ, pos, pos_part, ℤ}

pub record Pipe : Type 0 where
  pub capacity : ℕ
  pub buffer : List ℕ
  pub read_closed : Bool
  pub write_closed : Bool
  pub total_written : ℕ
  pub total_read : ℕ

-- A capacity that is not positive becomes 4096.
unfoldable pub new_pipe : ℤ → Pipe
new_pipe wanted = record {
  capacity = if ltb_ℤ (pos 0) wanted then pos_part wanted else 4096;
  buffer = [];
  read_closed = false;
  write_closed = false;
  total_written = 0;
  total_read = 0;
}

-- How a section of Write ends, with the bytes written so far.
pub data WriteEnd : Type 0 where
  written : ℕ → WriteEnd
  write_broken : ℕ → WriteEnd
  write_waits : List ℕ → ℕ → WriteEnd

unfoldable pub put : Pipe → ℕ → Pipe
put p b = record p { buffer = p.buffer ++ b ∷ []; total_written = p.total_written + 1 }

-- The loop of Write over the bytes, from its start or from a wake-up.
unfoldable pub write_loop : Pipe → List ℕ → ℕ → Pipe × WriteEnd
write_loop p [] n = (p, written n)
write_loop p (b ∷ bs) n =
    let rest = write_loop (put p b) bs (n + 1) in
    if leb p.capacity (length p.buffer) && not p.read_closed
    then (p, write_waits (b ∷ bs) n)
    else if p.read_closed
    then (p, write_broken n)
    else rest

-- The first section of Write.
unfoldable pub write : Pipe → List ℕ → Pipe × WriteEnd
write p bs = if p.read_closed then (p, write_broken 0) else write_loop p bs 0

-- How a section of Read ends; no bytes at the end of the file.
pub data ReadEnd : Type 0 where
  bytes : List ℕ → ReadEnd
  read_waits : ReadEnd

abbrev pub is_empty : List ℕ → Bool
is_empty [] = true
is_empty (b ∷ bs) = false

-- A section of Read into a slice of the given length.
unfoldable pub read : Pipe → ℕ → Pipe × ReadEnd
read p wanted =
    let to_read = if ltb (length p.buffer) wanted then length p.buffer else wanted in
    if is_empty p.buffer && not p.write_closed
    then (p, read_waits)
    else if is_empty p.buffer && p.write_closed
    then (p, bytes [])
    else (
      record p { buffer = drop to_read p.buffer; total_read = p.total_read + to_read },
      bytes (take to_read p.buffer),
    )

unfoldable pub close_write : Pipe → Pipe
close_write p = record p { write_closed = true }

unfoldable pub close_read : Pipe → Pipe
close_read p = record p { read_closed = true }
