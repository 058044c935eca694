-- ===== src/Sleeplock.antt =====
-- kernel/sleeplock.c: locks that a process sleeps on. The inner lock makes each call one step, up to
-- the sleep; sleep and wakeup are those of the process table.
pub mod Waiters
mod Tests
use fyp_os.Prelude.{ℕ, Bool, true, false, not, ◌&&◌, none, some, get_elem?, ◌==◌, if◌then◌else◌}
use fyp_os.Spinlock.{Spinlock, initlock}
use fyp_os.Proc.{Table, sleep, sleep_return, wakeup}

-- struct sleeplock; `name` is the address of the name.
pub record Sleeplock : Type 0 where
  pub locked : ℕ
  pub lk : Spinlock
  pub name : ℕ
  pub pid : ℕ

-- `inner` is the address of the name of the inner lock.
unfoldable pub initsleeplock : ℕ → ℕ → Sleeplock
initsleeplock inner name = record { locked = 0; lk = initlock inner; name = name; pid = 0 }

-- `myproc()->pid` of the process with entry `i`.
abbrev pub my_pid : ℕ → Table → ℕ
my_pid i t = elim (get_elem? t.procs i) [ none ↦ 0 | some p ↦ p.pid ]

-- One turn of process `i` in `acquiresleep` for the lock at `chan`: whether it has the lock; if not, it
-- sleeps.
unfoldable pub acquiresleep : ℕ → ℕ → Sleeplock → Table → Bool × Sleeplock × Table
acquiresleep chan i lk t =
    if lk.locked == 0
    then (true, record lk { locked = 1; pid = my_pid i t }, t)
    else (false, lk, sleep chan i t)

-- The turn after a sleep.
unfoldable pub acquiresleep_again : ℕ → ℕ → Sleeplock → Table → Bool × Sleeplock × Table
acquiresleep_again chan i lk t = acquiresleep chan i lk (sleep_return i t)

unfoldable pub releasesleep : ℕ → ℕ → Sleeplock → Table → Sleeplock × Table
releasesleep chan i lk t = (record lk { locked = 0; pid = 0 }, wakeup chan i t)

unfoldable pub holdingsleep : ℕ → Sleeplock → Table → Bool
holdingsleep i lk t = not (lk.locked == 0) && (lk.pid == my_pid i t)
