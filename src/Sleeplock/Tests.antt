-- ===== src/Sleeplock/Tests.antt =====
-- Two processes and one lock of kernel/sleeplock.c.
use fyp_os.Prelude.{ℕ, zero, suc, ◌≡◌, refl, sym, ◌∙◌, true, false, none, [], ◌∷◌, modify}
use fyp_os.Proc.{Proc, Table, State, sleeping, running, sleep}
use fyp_os.Sleeplock.{initsleeplock, acquiresleep, releasesleep}
use fyp_os.Sleeplock.Waiters.{
  Waiters, acquired, IsRunning, SleepsOn, acquire, Reach, start, later, init, sleep_exclusion,
  no_lost_wakeup,
}

abbrev process : ℕ → State → ℕ → Proc
process pid state chan = record {
  state = state;
  chan = chan;
  killed = false;
  xstate = 0;
  pid = pid;
  parent = none;
  sz = 4096;
  trapframe = true;
  pagetable = true;
}

abbrev two : Table
two = record { procs = process 1 running 0 ∷ process 2 running 0 ∷ []; nextpid = 3; initproc = 0 }

awake : (j : ℕ) → ¬ SleepsOn 500 j two
awake zero (p, at, asleep, on) =
    let same : p.state ≡ running = cc at in
    let clash : running ≡ sleeping = sym same ∙ asleep in absurd (cc clash)
awake (suc zero) (p, at, asleep, on) =
    let same : p.state ≡ running = cc at in
    let clash : running ≡ sleeping = sym same ∙ asleep in absurd (cc clash)
awake (suc (suc j)) (p, at, asleep, on) = absurd (cc at)

-- Process 0 has the lock; then process 1 sleeps on it.
abbrev held : Waiters
held = acquired 0 (acquiresleep 500 0 (initsleeplock 7 8) two) (init 7 8 two)

held_reach : Reach 500 7 8 two held
held_reach = later (start awake) (acquire 0 (process 1 running 0, refl, refl))

abbrev fought : Waiters
fought = acquired 1 (acquiresleep 500 1 held.lock held.table) held

fought_reach : Reach 500 7 8 two fought
unfolding acquiresleep initsleeplock
fought_reach = later held_reach (acquire 1 (process 2 running 0, refl, refl))

sleep_exclusion_example : ◌≡◌ {A = ℕ} 0 0
unfolding acquiresleep initsleeplock
sleep_exclusion_example = sleep_exclusion fought_reach 0 0 refl refl

no_lost_wakeup_example :
    (j : ℕ) × (fought.holds j ≡ true)
    × (IsRunning j fought.table → ¬ SleepsOn 500 1 (releasesleep 500 j fought.lock fought.table).1)
unfolding acquiresleep initsleeplock sleep modify
no_lost_wakeup_example = no_lost_wakeup fought_reach 1 (process 2 sleeping 500, refl, refl, refl)
