-- ===== src/Proc/Tests.antt =====
-- The theorems about kernel/proc.c at a table of four entries: init, a child of it that waits for
-- its own child, that child, and an unused entry.
use fyp_os.Prelude.{
  ℕ, ◌+◌, ◌≡◌, refl, some, none, true, false, [], ◌∷◌, arith, get_elem?, Option, find_from,
}
use fyp_os.Proc.{
  Proc, Table, State, unused, used, sleeping, running, wakeup, kill, exit, allocproc, fork,
}
use fyp_os.Proc.Pids.{IsSound}
use fyp_os.Proc.Family.{Exited, exit-Exited}
use fyp_os.Proc.Life.{here, next, forks, kills, wakes, Reach-IsSound}
use fyp_os.Proc.KillZero.{kill-allocproc}

abbrev process : ℕ → State → ℕ → Option ℕ → Proc
process pid state chan parent = record {
  state = state;
  chan = chan;
  killed = false;
  xstate = 0;
  pid = pid;
  parent = parent;
  sz = 4096;
  trapframe = true;
  pagetable = true;
}

abbrev address : ℕ → ℕ
address i = 1000 + i

abbrev empty : Proc
empty = record {
  state = unused;
  chan = 0;
  killed = false;
  xstate = 0;
  pid = 0;
  parent = none;
  sz = 0;
  trapframe = false;
  pagetable = false;
}

abbrev table : Table
table = record {
  procs =
      process 1 sleeping 1000 none
      ∷ process 2 sleeping 1001 (some 0)
      ∷ process 3 running 0 (some 1)
      ∷ empty
      ∷ [];
  nextpid = 4;
  initproc = 0;
}

sound : IsSound table
sound = record {
  unused_zero = λ j p at. ground arith;
  below = λ j p at. ground arith;
  positive = omega arith;
  distinct = λ i j p q at at' ne e. ground arith;
}

exit-Exited_example :
    (t' : Table) × (exit address 5 2 table ≡ some t') × Exited address 2 5 1 table t'
exit-Exited_example =
    exit-Exited address 2 5 1 table (process 3 running 0 (some 1))
      (process 2 sleeping 1001 (some 0)) (omega arith) (omega arith) refl refl refl refl refl

Reach-IsSound_example : IsSound (fork true true true 2 (wakeup 1001 2 (kill 2 table).1)).1
unfolding wakeup kill find_from
Reach-IsSound_example =
    Reach-IsSound {address = address} sound
      (next (next (next here (kills 2)) (wakes 1001 2)) (forks true true true 2 (omega arith)))

kill-allocproc_example :
    ((kill 0 table).0 ≡ true)
    × ((allocproc true true (kill 0 table).1).0 ≡ some 3)
    × (p : Proc) × (get_elem? (allocproc true true (kill 0 table).1).1.procs 3 ≡ some p)
    × (p.killed ≡ true)
    × (p.state ≡ used)
unfolding find_from
kill-allocproc_example = kill-allocproc table 3 sound refl
