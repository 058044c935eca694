-- ===== src/Clock/Tests.antt =====
-- A process that sleeps while the counter of the clock wraps around.
use fyp_os.Prelude.{◌-◌, ◌^◌, ◌≡◌, refl, true, false, none, [], ◌∷◌, ltb, if◌then◌else◌, arith}
use fyp_os.Proc.{Table, running}
use fyp_os.Clock.{Clock, waits, returned, sleep_turn}
use fyp_os.Clock.Sleeping.{interrupts, sleep_turn-interrupts}

abbrev table : Table
table = record {
  procs =
      record {
        state = running;
        chan = 0;
        killed = false;
        xstate = 0;
        pid = 1;
        parent = none;
        sz = 0;
        trapframe = true;
        pagetable = true;
      }
      ∷ [];
  nextpid = 2;
  initproc = 0;
}

abbrev clock : Clock
clock = record { ticks = 2 ^ 32 - 2; table = table }

sleep_turn-interrupts_example :
    (sleep_turn 77 0 (2 ^ 32 - 2) 5 (interrupts 77 1 4 clock)).0
    ≡ (if ltb 4 5 then waits else returned true)
sleep_turn-interrupts_example =
    sleep_turn-interrupts 77 1 0 5 4 clock (omega arith) (omega arith) (omega arith) refl
