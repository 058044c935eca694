-- ===== src/Spinlock/System/Exclusion.antt =====
-- What the lock of kernel/spinlock.c promises: mutual exclusion, an exact `holding`, no panic, and no
-- CPU that spins forever.
use fyp_os.Prelude.{ℕ, ◌≡◌, refl, true, false, arith, inl, inr, ◌==◌, Bool-cases, ==→eq}
use fyp_os.Spinlock.{holding}
use fyp_os.Spinlock.System.{System, Reach, owns, named, is_masked, is_panicked}
use fyp_os.Spinlock.System.Invariant.{named_owns}
use fyp_os.Spinlock.System.Moves.{Reach-Inv}

-- However the CPUs are interleaved, no two own the lock at once: neither in the critical section nor
-- on the way in, after the swap, or on the way out, before the store that frees it.
pub mutual_exclusion :
    {name : ℕ} {s : System}
    → Reach name s
    → (i j : ℕ) → owns (s.pc i) ≡ true
    → owns (s.pc j) ≡ true
    → i ≡ j
mutual_exclusion r i j a b = (Reach-Inv r).unique i j a b

-- In every state that is reached, `holding` is true on exactly the CPU that has recorded itself and
-- not yet cleared the record; so an `acquire` of the owner would panic, and no other's.
pub holding-named :
    {name : ℕ} {s : System} → Reach name s → (i : ℕ) → holding i s.lock ≡ named (s.pc i)
unfolding holding
holding-named {s} r i =
    let inv = Reach-Inv r in
    elim (Bool-cases (s.lock.locked == 0)) [
      | inl z ↦ elim (Bool-cases (named (s.pc i))) [
        | inl by ↦ absurd (ground (arith, inv.free (==→eq _ _ z) i, named_owns (s.pc i) by))
        | inr not' ↦ rw (z, not') refl
      ]
      | inr nz ↦ rw nz (inv.recorded i)
    ]

-- A CPU that calls acquire and release in turn never panics, however the CPUs are interleaved, and
-- its interrupts are off from the push_off of acquire to the pop_off of release: no interrupt handler
-- of the CPU can spin on the lock that it holds.
pub never_panics :
    {name : ℕ} {s : System}
    → Reach name s
    → (i : ℕ)
    → (is_panicked (s.pc i) ≡ false) × (is_masked (s.pc i) ≡ true → (s.cpu i).intr ≡ false)
never_panics r i = let inv = Reach-Inv r in (inv.calm i, λ m. inv.masked i (inv.deep i m))
