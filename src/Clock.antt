-- ===== src/Clock.antt =====
-- The clock: clockintr of kernel/trap.c, with sleep and uptime of kernel/sysproc.c. `chan` is the address
-- of `ticks`, and the lock makes the code between two sleeps one step.
pub mod Sleeping
mod Tests
use fyp_os.Prelude.{ℕ, zero, suc, ◌+◌, ◌-◌, ◌%◌, ◌^◌, Bool, true, false, ltb, if◌then◌else◌}
use fyp_os.Proc.{Table, sleep, sleep_return, wakeup, is_killed}

pub record Clock : Type 0 where
  pub ticks : ℕ
  pub table : Table

-- `clockintr` while the process with entry `me` runs.
unfoldable pub clockintr : ℕ → ℕ → Clock → Clock
clockintr chan me c = record { ticks = (c.ticks + 1) % 2 ^ 32; table = wakeup chan me c.table }

-- How a turn of the loop of `sys_sleep` ends: it returns 0 or -1, or it sleeps.
pub data Slept : Type 0 where
  returned : Bool → Slept
  waits : Slept

-- A turn for process `i`, which called at `ticks0`. The difference of the ticks and the int `n` are
-- compared as unsigned numbers.
unfoldable pub sleep_turn : ℕ → ℕ → ℕ → ℕ → Clock → Slept × Clock
sleep_turn chan i ticks0 n c =
    if ltb ((c.ticks + 2 ^ 32 - ticks0) % 2 ^ 32) (n % 2 ^ 32)
    then (if is_killed i c.table
        then (returned false, c)
        else (waits, record c { table = sleep chan i c.table }))
    else (returned true, c)

-- `sys_sleep` up to its first sleep, and a turn after a sleep.
unfoldable pub sys_sleep : ℕ → ℕ → ℕ → Clock → Slept × Clock
sys_sleep chan i n c = sleep_turn chan i c.ticks n c

unfoldable pub sleep_again : ℕ → ℕ → ℕ → ℕ → Clock → Slept × Clock
sleep_again chan i ticks0 n c =
    sleep_turn chan i ticks0 n (record c { table = sleep_return i c.table })

unfoldable pub sys_uptime : Clock → ℕ
sys_uptime c = c.ticks
