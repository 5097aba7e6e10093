-- ===== src/Ipc/Pipe/Tests.antt =====
-- Runs of the pipe of pkg/ipc/pipe.go, and its theorems at a pipe of three bytes.
use os_simulator.Base.{
  List, [], drop, false, length, refl, take, true, ℕ, ◌+◌, ◌<◌, ◌∷◌, ◌≡◌, ◌≤◌, ◌⊎◌,
}
use os_simulator.Base.Int.{pos}
use os_simulator.Ipc.Pipe.{
  Pipe, bytes, close_read, new_pipe, put, read, read_waits, write, write_broken, write_loop,
  write_waits,
}
use os_simulator.Ipc.Pipe.Reading.{read_cases}
use os_simulator.Ipc.Pipe.Sections.{Writes, write-Writes}
use os_simulator.Ipc.Pipe.Stream.{IsStream, Step, reads, resumes, run, run-IsStream, step, writes}

abbrev small : Pipe
small = record {
  capacity = 3;
  buffer = 7 ∷ [];
  read_closed = false;
  write_closed = false;
  total_written = 1;
  total_read = 0;
}

-- A writer of four bytes waits with two, a reader takes two, and the writer goes on.
abbrev traffic : List Step
traffic = resumes (3 ∷ 4 ∷ []) 2 ∷ reads 2 ∷ writes (1 ∷ 2 ∷ 3 ∷ 4 ∷ []) ∷ writes (7 ∷ []) ∷ []

traffic_received : (run (pos 3) traffic).received ≡ 7 ∷ 1 ∷ []
unfolding run step new_pipe write write_loop put read
traffic_received = refl

small_waits : (write small (1 ∷ 2 ∷ 3 ∷ [])).1 ≡ write_waits (3 ∷ []) 2
unfolding write write_loop put
small_waits = refl

small_broken : write (close_read small) (1 ∷ []) ≡ (close_read small, write_broken 0)
unfolding write close_read
small_broken = refl

write-Writes_example : Writes small (1 ∷ 2 ∷ 3 ∷ []) 0 (write small (1 ∷ 2 ∷ 3 ∷ []))
write-Writes_example = write-Writes small (1 ∷ 2 ∷ 3 ∷ [])

read_cases_example :
    ((small.buffer ≡ []) × (small.write_closed ≡ false) × (read small 2 ≡ (small, read_waits)))
    ⊎ ((small.buffer ≡ []) × (small.write_closed ≡ true) × (read small 2 ≡ (small, bytes [])))
    ⊎ ((0 < length small.buffer)
        × (n : ℕ) × (n ≤ 2)
        × (n ≤ length small.buffer)
        × ((n ≡ 2) ⊎ (n ≡ length small.buffer))
        × (read small 2 ≡ (
          record small { buffer = drop n small.buffer; total_read = small.total_read + n },
          bytes (take n small.buffer),
        )))
read_cases_example = read_cases small 2

run-IsStream_example : IsStream (run (pos 3) traffic)
run-IsStream_example = run-IsStream (pos 3) traffic
