-- ===== src/Spinlock/System/Progress.antt =====
-- No CPU that waits for the lock of kernel/spinlock.c is stuck.
use fyp_os.Prelude.{
  ℕ, zero, suc, ◌≡◌, ◌≢◌, ◌≤◌, ◌⊎◌, refl, ap, ◌∙◌, true, false, arith, inl, inr, ◌==◌, Bool-cases,
  ==→eq, ==→ne, eq→==, ne→==,
}
use fyp_os.Spinlock.{
  advance, Pc, outside, testing, testing_cpu, spinning, won, inside, checking, checking_cpu,
  clearing, dropping, popping, panicked,
}
use fyp_os.Spinlock.System.{System, step, Reach, owns, named}
use fyp_os.Spinlock.System.Invariant.{Inv}
use fyp_os.Spinlock.System.Moves.{Reach-Inv, step-Inv}

-- `n` steps of CPU `j`.
unfoldable pub steps : ℕ → ℕ → System → System
steps zero j s = s
steps (suc n) j s = steps n j (step j s)

-- The steps that the owner has left until the lock is free.
unfoldable rank : Pc → ℕ
rank won = 6
rank inside = 5
rank checking = 4
rank checking_cpu = 3
rank clearing = 2
rank dropping = 1
rank p = 0

rank-owns : (p : Pc) (n : ℕ) → rank p ≡ suc n → owns p ≡ true
unfolding rank owns
rank-owns won n r = refl
rank-owns inside n r = refl
rank-owns checking n r = refl
rank-owns checking_cpu n r = refl
rank-owns clearing n r = refl
rank-owns dropping n r = refl
rank-owns outside n r = absurd (omega arith)
rank-owns testing n r = absurd (omega arith)
rank-owns testing_cpu n r = absurd (omega arith)
rank-owns spinning n r = absurd (omega arith)
rank-owns popping n r = absurd (omega arith)
rank-owns panicked n r = absurd (omega arith)

owns-rank : (p : Pc) → owns p ≡ true → (n : ℕ) × (n ≤ 5) × (rank p ≡ suc n)
unfolding rank owns
owns-rank won o = (5, omega arith, refl)
owns-rank inside o = (4, omega arith, refl)
owns-rank checking o = (3, omega arith, refl)
owns-rank checking_cpu o = (2, omega arith, refl)
owns-rank clearing o = (1, omega arith, refl)
owns-rank dropping o = (0, omega arith, refl)
owns-rank outside o = absurd (ground arith)
owns-rank testing o = absurd (ground arith)
owns-rank testing_cpu o = absurd (ground arith)
owns-rank spinning o = absurd (ground arith)
owns-rank popping o = absurd (ground arith)
owns-rank panicked o = absurd (ground arith)

-- Where CPU `j`, that stands at `p`, comes to.
module _ (s : System) (j : ℕ) (inv : Inv s) where
  abbrev next : Pc → Pc
  next p = (advance j p s.lock (s.cpu j)).2

  next_rank : (p : Pc) (n : ℕ) → s.pc j ≡ p → rank p ≡ suc (suc n) → rank (next p) ≡ suc n
  unfolding advance rank owns named
  next_rank won n e r = omega arith
  next_rank inside n e r = omega arith
  next_rank checking n e r = elim (Bool-cases (s.lock.locked == 0)) [
    | inl z ↦
        let idle : owns checking ≡ false = rw e at (inv.free (==→eq _ _ z) j) in
        absurd (ground arith)
    | inr nz ↦ rw nz (omega arith)
  ]
  next_rank checking_cpu n e r = rw (inv.recorded j, e) (omega arith)
  next_rank clearing n e r = omega arith
  next_rank dropping n e r = absurd (omega arith)
  next_rank outside n e r = absurd (omega arith)
  next_rank testing n e r = absurd (omega arith)
  next_rank testing_cpu n e r = absurd (omega arith)
  next_rank spinning n e r = absurd (omega arith)
  next_rank popping n e r = absurd (omega arith)
  next_rank panicked n e r = absurd (omega arith)

  last_frees : (p : Pc) → rank p ≡ 1 → (advance j p s.lock (s.cpu j)).0.locked ≡ 0
  unfolding advance rank
  last_frees dropping r = refl
  last_frees won r = absurd (omega arith)
  last_frees inside r = absurd (omega arith)
  last_frees checking r = absurd (omega arith)
  last_frees checking_cpu r = absurd (omega arith)
  last_frees clearing r = absurd (omega arith)
  last_frees outside r = absurd (omega arith)
  last_frees testing r = absurd (omega arith)
  last_frees testing_cpu r = absurd (omega arith)
  last_frees spinning r = absurd (omega arith)
  last_frees popping r = absurd (omega arith)
  last_frees panicked r = absurd (omega arith)

  step_self : (step j s).pc j ≡ next (s.pc j)
  unfolding step
  step_self = rw (eq→== j j refl) refl

  step_other : (k : ℕ) → j ≢ k → (step j s).pc k ≡ s.pc k
  unfolding step
  step_other k ne = rw (ne→== j k ne) refl

  step_frees : rank (s.pc j) ≡ 1 → (step j s).lock.locked ≡ 0
  unfolding step
  step_frees r = last_frees (s.pc j) r

steps-frees :
    (n : ℕ) (s : System) (j i : ℕ)
    → Inv s
    → rank (s.pc j) ≡ suc n
    → j ≢ i
    → ((steps (suc n) j s).lock.locked ≡ 0) × ((steps (suc n) j s).pc i ≡ s.pc i)
unfolding steps
steps-frees zero s j i inv r ne = (step_frees s j inv r, step_other s j inv i ne)
steps-frees (suc n) s j i inv r ne =
    let next' = step-Inv j s inv in
    let (free, same) =
      steps-frees n (step j s) j i next'
        (ap rank (step_self s j inv) ∙ next_rank s j inv (s.pc j) n refl r) ne in
    (free, same ∙ step_other s j inv i ne)

step-wins : (s : System) (i : ℕ) → s.lock.locked ≡ 0 → s.pc i ≡ spinning → (step i s).pc i ≡ won
unfolding step advance
step-wins s i free e = rw (eq→== i i refl, e, free) refl

-- A CPU that spins gets the lock with its next step, where no CPU owns the lock. Otherwise the CPU that
-- owns it, from its swap to its store that frees the lock, is some `j`, and the CPU that spins gets the
-- lock with its step after at most six steps of `j`, in which the whole critical section counts as one
-- step.
pub spinning-wins :
    {name : ℕ} {s : System}
    → Reach name s
    → (i : ℕ) → s.pc i ≡ spinning
    → ((j : ℕ) → owns (s.pc j) ≡ false) × ((step i s).pc i ≡ won)
      ⊎ ((j : ℕ) × (owns (s.pc j) ≡ true) × (n : ℕ) × (n ≤ 6) × ((step i (steps n j s)).pc i ≡ won))
unfolding owns
spinning-wins {s} r i e =
    let inv = Reach-Inv r in
    elim (Bool-cases (s.lock.locked == 0)) [
      | inl z ↦ inl (inv.free (==→eq _ _ z), step-wins s i (==→eq _ _ z) e)
      | inr nz ↦
          let (j, own) = inv.taken (==→ne _ _ nz) in
          let (n, le, rank') = owns-rank (s.pc j) own in
          let waits : owns (s.pc i) ≡ false = rw e refl in
          let ne : j ≢ i = λ same. absurd (ground (arith, rw same at own)) in
          let (free, there) = steps-frees n s j i inv rank' ne in
          inr (j, own, suc n, omega arith, step-wins (steps (suc n) j s) i free (there ∙ e))
    ]
