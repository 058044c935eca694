-- ===== src/Spinlock/Tests.antt =====
-- Two CPUs that use one lock of kernel/spinlock.c.
use fyp_os.Prelude.{ℕ, zero, suc, ◌≡◌, ◌≤◌, ◌⊎◌, refl, true, false}
use fyp_os.Spinlock.{Cpu, push_off, initlock, advance, is_cpu, Pc}
use fyp_os.Spinlock.System.{
  System, step, run_code, Reach, start, later, init, owns, is_masked, is_panicked,
}
use fyp_os.Spinlock.System.Exclusion.{mutual_exclusion, never_panics}
use fyp_os.Spinlock.System.Progress.{steps, spinning-wins}

after_steps : {name : ℕ} (n j : ℕ) (s : System) → Reach name s → Reach name (steps n j s)
unfolding steps
after_steps zero j s r = r
after_steps (suc n) j s r = after_steps n j (step j s) (later r (run_code j))

-- CPU 1 is in the critical section and CPU 2 spins.
abbrev contended : System
contended = steps 4 2 (steps 4 1 (init 7))

contended_reach : Reach 7 contended
contended_reach = after_steps 4 2 _ (after_steps 4 1 _ start)

mutual_exclusion_example : ◌≡◌ {A = ℕ} 1 1
unfolding steps step advance owns push_off initlock
mutual_exclusion_example = mutual_exclusion contended_reach 1 1 refl refl

never_panics_example :
    (is_panicked (contended.pc 2) ≡ false)
    × (is_masked (contended.pc 2) ≡ true → (contended.cpu 2).intr ≡ false)
never_panics_example = never_panics contended_reach 2

spinning-wins_example :
    ((j : ℕ) → owns (contended.pc j) ≡ false) × ((step 2 contended).pc 2 ≡ Pc.won)
    ⊎ ((j : ℕ) × (owns (contended.pc j) ≡ true)
        × (n : ℕ) × (n ≤ 6)
        × ((step 2 (steps n j contended)).pc 2 ≡ Pc.won))
unfolding steps step advance push_off initlock is_cpu
spinning-wins_example = spinning-wins contended_reach 2 refl

abbrev interrupts_on : Cpu
interrupts_on = record { intr = true; noff = 0; intena = false }
