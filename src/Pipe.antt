-- ===== src/Pipe.antt =====
-- kernel/pipe.c: a ring of PIPESIZE bytes between processes. A call runs under the pipe's lock up to
-- the point where it sleeps, which is a result of its own; the copies from and to user memory are
-- the module's parameters.
pub mod Queue
pub mod Transfer
mod Tests
use fyp_os.Prelude.{
  ℕ, zero, suc, ◌+◌, ◌%◌, ◌^◌, Bool, true, false, not, ◌&&◌, ◌||◌, Option, none, some, Bytes, write,
  ◌==◌, ltb, if◌then◌else◌, List, [], ◌∷◌, ◌++◌,
}

abbrev pub pipesize : ℕ
pipesize = 512

-- `uint` addition
abbrev pub inc : ℕ → ℕ
inc a = (a + 1) % 2 ^ 32

-- `struct pipe`. `data` is the name of the array in the code.
pub record Pipe : Type 0 where
  pub bytes : Bytes
  pub nread : ℕ
  pub nwrite : ℕ
  pub readopen : Bool
  pub writeopen : Bool

-- The processes that a call wakes: those that sleep on `&pi->nread` or on `&pi->nwrite`.
pub data Wake : Type 0 where
  readers writers : Wake

-- The fields that `pipealloc` sets in the page from `kalloc`; the data is what the page held.
unfoldable pub pipe_init : Bytes → Pipe
pipe_init page = record { bytes = page; nread = 0; nwrite = 0; readopen = true; writeopen = true }

-- `pipeclose`: the processes woken, the pipe, and whether its page goes back to `kfree`.
unfoldable pub pipeclose : Bool → Pipe → Wake × Pipe × Bool
pipeclose writable pi =
    let wake = if writable then readers else writers in
    let pi' =
      if writable then record pi { writeopen = false } else record pi { readopen = false } in
    (wake, pi', not pi'.readopen && not pi'.writeopen)

-- How a run of a loop ends: the call returns (`none` is -1), or it sleeps with `i` bytes done.
pub data Outcome : Type 0 where
  returned : Option ℕ → Outcome
  sleeps : ℕ → Outcome

-- `pi->data[pi->nwrite++ % PIPESIZE] = ch`
unfoldable pub put : ℕ → Pipe → Pipe
put ch pi = record pi { bytes = write pi.bytes (pi.nwrite % pipesize) ch; nwrite = inc pi.nwrite }

-- `pi->nread++`
unfoldable pub take_one : Pipe → Pipe
take_one pi = record pi { nread = inc pi.nread }

abbrev pub full : Pipe → Bool
full pi = pi.nwrite == (pi.nread + pipesize) % 2 ^ 32

-- The writer's loop while it does not sleep, with `n` bytes left from index `i` on. `copyin` gives
-- the byte at an index, or fails; `killed` is the flag of the process. The wakeup before the sleep
-- and after the loop is of the readers in both cases; an error wakes no one.
module _ (copyin : ℕ → Option ℕ) (killed : Bool) where
  unfoldable pub pipewrite : ℕ → ℕ → Pipe → Outcome × Pipe
  pipewrite zero i pi = (returned (some i), pi)
  pipewrite (suc n) i pi =
      let copied : Outcome × Pipe = elim (copyin i) [
        | none ↦ (returned (some i), pi)
        | some ch ↦ pipewrite n (i + 1) (put ch pi)
      ] in
      if not pi.readopen || killed
      then (returned none, pi)
      else if full pi
      then (sleeps i, pi)
      else copied

-- The reader's loop after its wait: the bytes handed to `copyout` in order, and the pipe. `copyout`
-- says whether the copy at an index succeeds.
module _ (copyout : ℕ → Bool) where
  unfoldable pub piperead_copy : ℕ → ℕ → Pipe → List ℕ × ℕ × Pipe
  piperead_copy zero i pi = ([], i, pi)
  piperead_copy (suc n) i pi =
      let ch = pi.bytes (pi.nread % pipesize) in
      let rest : List ℕ × ℕ × Pipe = piperead_copy n (i + 1) (take_one pi) in
      if pi.nread == pi.nwrite
      then ([], i, pi)
      else if copyout i
      then (ch ∷ rest.0, rest.1, rest.2)
      else ([], i, take_one pi)

  -- `piperead`: it sleeps on an empty pipe that may still be written to, unless it is killed.
  unfoldable pub piperead : Bool → ℕ → Pipe → Outcome × List ℕ × Pipe
  piperead killed n pi =
      let (out, i, pi') = piperead_copy n 0 pi in
      if pi.nread == pi.nwrite && pi.writeopen
      then (if killed then (returned none, [], pi) else (sleeps 0, [], pi))
      else (returned (some i), out, pi')
