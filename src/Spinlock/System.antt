-- ===== src/Spinlock/System.antt =====
-- CPUs that share one lock of kernel/spinlock.c, interleaved in any order, and what holds in every
-- state they reach.
pub mod Invariant
pub mod Moves
pub mod Exclusion
pub mod Progress
use fyp_os.Prelude.{ℕ, ◌≡◌, ◌⊎◌, Bool, true, false, some, write}
use fyp_os.Spinlock.{
  Spinlock, Cpu, Pc, outside, won, inside, checking, checking_cpu, clearing, dropping, panicked,
  initlock, advance,
}
use fyp_os.Spinlock.Nesting.{Nest, run}

pub record System : Type 0 where
  pub lock : Spinlock
  pub cpu : ℕ → Cpu
  pub pc : ℕ → Pc

-- CPU `i` takes its next step.
unfoldable pub step : ℕ → System → System
step i s =
    let (lk, c, p) = advance i (s.pc i) s.lock (s.cpu i) in
    record { lock = lk; cpu = write s.cpu i c; pc = write s.pc i p }

-- A CPU steps; or, outside and in the critical section, makes matched calls for other locks; or, with
-- no lock held, sets its interrupts on or off.
pub data Step (s : System) : System → Type 0 where
  run_code : (i : ℕ) → Step s (step i s)
  nest :
      (i : ℕ) (t : Nest) (c : Cpu)
      → (s.pc i ≡ Pc.outside) ⊎ (s.pc i ≡ Pc.inside)
      → run t (s.cpu i) ≡ some c
      → Step s (record s { cpu = write s.cpu i c })
  set_intr :
      (i : ℕ) (b : Bool)
      → s.pc i ≡ Pc.outside
      → (s.cpu i).noff ≡ 0
      → Step s (record s { cpu = write s.cpu i (record (s.cpu i) { intr = b }) })

abbrev pub init : ℕ → System
init name = record {
  lock = initlock name;
  cpu = λ i. record { intr = false; noff = 0; intena = false };
  pc = λ i. Pc.outside;
}

pub data Reach (name : ℕ) : System → Type 0 where
  start : Reach name (init name)
  later : {s t : System} → Reach name s → Step s t → Reach name t

-- The CPUs that own the lock, those that it records, and those between push_off and pop_off.
unfoldable pub owns : Pc → Bool
owns won = true
owns inside = true
owns checking = true
owns checking_cpu = true
owns clearing = true
owns dropping = true
owns p = false

unfoldable pub named : Pc → Bool
named inside = true
named checking = true
named checking_cpu = true
named clearing = true
named p = false

unfoldable pub is_masked : Pc → Bool
is_masked outside = false
is_masked p = true

unfoldable pub is_panicked : Pc → Bool
is_panicked panicked = true
is_panicked p = false
