-- ===== src/Clock/Sleeping.antt =====
-- When a process that called sleep of kernel/sysproc.c comes back.
use fyp_os.Prelude.{
  ℕ, zero, suc, ◌+◌, ◌-◌, ◌%◌, ◌^◌, ◌<◌, ◌≡◌, refl, ap, ◌∙◌, Bool, true, false, Option, none, some,
  ltb, if◌then◌else◌, get_elem?, map_option, arith, Bool-cases, not, ◌&&◌, ◌==◌, inl, inr,
}
use fyp_os.Proc.{Proc, Table, wake, is_sleeping, wakeup, is_killed}
use fyp_os.Proc.Wakeup.{wakeup_exact}
use fyp_os.Clock.{Clock, clockintr, returned, waits, sleep_turn}

-- The clock after `e` interrupts.
unfoldable pub interrupts : ℕ → ℕ → ℕ → Clock → Clock
interrupts chan me zero c = c
interrupts chan me (suc e) c = interrupts chan me e (clockintr chan me c)

ticks-interrupts :
    (chan me e : ℕ) (c : Clock)
    → c.ticks < 2 ^ 32
    → (interrupts chan me e c).ticks ≡ (c.ticks + e) % 2 ^ 32
unfolding interrupts clockintr
ticks-interrupts chan me zero c lt = omega (arith, lt)
ticks-interrupts chan me (suc e) c lt =
    ticks-interrupts chan me e (clockintr chan me c) (omega arith) ∙ omega arith

abbrev killed_of : Option Proc → Bool
killed_of o = elim o [ none ↦ false | some p ↦ p.killed ]

killed-wake : (chan me i : ℕ) (p : Proc) → (wake chan me i p).killed ≡ p.killed
killed-wake chan me i p =
    elim (Bool-cases (not (i == me) && (is_sleeping p.state && (p.chan == chan)))) [
      | inl yes' ↦ rw yes' refl
      | inr no' ↦ rw no' refl
    ]

woken : (chan me i : ℕ) (o : Option Proc) → killed_of (map_option (wake chan me i) o) ≡ killed_of o
woken chan me i none = refl
woken chan me i (some p) = killed-wake chan me i p

is_killed-wakeup : (chan me i : ℕ) (t : Table) → is_killed i (wakeup chan me t) ≡ is_killed i t
is_killed-wakeup chan me i t =
    ap killed_of (wakeup_exact chan me i t) ∙ woken chan me i (get_elem? t.procs i)

is_killed-interrupts :
    (chan me i e : ℕ) (c : Clock) → is_killed i (interrupts chan me e c).table ≡ is_killed i c.table
unfolding interrupts clockintr
is_killed-interrupts chan me i zero c = refl
is_killed-interrupts chan me i (suc e) c =
    is_killed-interrupts chan me i e (clockintr chan me c) ∙ is_killed-wakeup chan me i c.table

-- A turn of sys_sleep of `n` ticks, for a process that is not killed, sleeps on after fewer than `n`
-- clock interrupts and returns 0 after `n` or more, as long as they are fewer than 2 ^ 32. The counter
-- may wrap around between the call and the turn.
pub sleep_turn-interrupts :
    (chan me i n e : ℕ) (c : Clock)
    → c.ticks < 2 ^ 32
    → n < 2 ^ 32
    → e < 2 ^ 32
    → is_killed i c.table ≡ false
    → (sleep_turn chan i c.ticks n (interrupts chan me e c)).0
      ≡ (if ltb e n then waits else returned true)
unfolding sleep_turn
sleep_turn-interrupts chan me i n e c small n_small e_small alive =
    let now = ticks-interrupts chan me e c small in
    let living = is_killed-interrupts chan me i e c ∙ alive in
    let passed : ((interrupts chan me e c).ticks + 2 ^ 32 - c.ticks) % 2 ^ 32 ≡ e =
      omega (arith, now) in
    let asked : n % 2 ^ 32 ≡ n = omega arith in
    elim (Bool-cases (ltb e n)) [
      | inl early ↦ rw (passed, asked, early, living) refl
      | inr late ↦ rw (passed, asked, late) refl
    ]
