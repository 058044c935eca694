-- ===== src/Spinlock.antt =====
-- kernel/spinlock.c: locks that a CPU spins on with its interrupts off. A CPU is its index; the
-- addresses that the code loads and stores one at a time are steps of their own in `advance`, which
-- takes a CPU through `acquire`, the critical section and `release`.
pub mod Nesting
pub mod System
mod Tests
use fyp_os.Prelude.{
  ℕ, ◌+◌, ◌-◌, Bool, true, false, not, ◌&&◌, Option, none, some, ◌==◌, ltb, if◌then◌else◌,
}

-- struct spinlock; `name` is the address of the name, `cpu` the index of the CPU.
pub record Spinlock : Type 0 where
  pub locked : ℕ
  pub name : ℕ
  pub cpu : Option ℕ

-- Of struct cpu, with the interrupt bit of sstatus.
pub record Cpu : Type 0 where
  pub intr : Bool
  pub noff : ℕ
  pub intena : Bool

-- `initlock`
unfoldable pub initlock : ℕ → Spinlock
initlock name = record { locked = 0; name = name; cpu = none }

-- `lk->cpu == mycpu()`
unfoldable pub is_cpu : ℕ → Option ℕ → Bool
is_cpu me none = false
is_cpu me (some c) = c == me

unfoldable pub holding : ℕ → Spinlock → Bool
holding me lk = not (lk.locked == 0) && is_cpu me lk.cpu

unfoldable pub push_off : Cpu → Cpu
push_off c = record {
  intr = false;
  noff = c.noff + 1;
  intena = if c.noff == 0 then c.intr else c.intena;
}

-- `none` is a panic.
unfoldable pub pop_off : Cpu → Option Cpu
pop_off c =
    if c.intr
    then none
    else if ltb c.noff 1
    then none
    else some
        (record { intr = (c.noff - 1 == 0) && c.intena; noff = c.noff - 1; intena = c.intena })

-- Where a CPU stands: before `acquire`; its two loads in `holding`; the swap; the store to `lk->cpu`;
-- the critical section; then `release`: its two loads in `holding`, its two stores, and `pop_off`.
pub data Pc : Type 0 where
  outside : Pc
  testing : Pc
  testing_cpu : Pc
  spinning : Pc
  won : Pc
  inside : Pc
  checking : Pc
  checking_cpu : Pc
  clearing : Pc
  dropping : Pc
  popping : Pc
  panicked : Pc

unfoldable pub popped : Option Cpu → Cpu → Cpu × Pc
popped none c = (c, panicked)
popped (some c') c = (c', outside)

-- The next step of CPU `me`.
unfoldable pub advance : ℕ → Pc → Spinlock → Cpu → Spinlock × Cpu × Pc
advance me outside lk c = (lk, push_off c, testing)
advance me testing lk c = (lk, c, if lk.locked == 0 then spinning else testing_cpu)
advance me testing_cpu lk c = (lk, c, if is_cpu me lk.cpu then panicked else spinning)
advance me spinning lk c = (record lk { locked = 1 }, c, if lk.locked == 0 then won else spinning)
advance me won lk c = (record lk { cpu = some me }, c, inside)
advance me inside lk c = (lk, c, checking)
advance me checking lk c = (lk, c, if lk.locked == 0 then panicked else checking_cpu)
advance me checking_cpu lk c = (lk, c, if is_cpu me lk.cpu then clearing else panicked)
advance me clearing lk c = (record lk { cpu = none }, c, dropping)
advance me dropping lk c = (record lk { locked = 0 }, c, popping)
advance me popping lk c = let r = popped (pop_off c) c in (lk, r.0, r.1)
advance me panicked lk c = (lk, c, panicked)
