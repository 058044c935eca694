-- ===== src/Spinlock/System/Moves.antt =====
-- Every step of the CPUs of one lock keeps the invariant.
use fyp_os.Prelude.{
  ℕ, ◌≡◌, ◌≢◌, ◌≤◌, refl, sym, ap, ◌∙◌, true, false, write, none, some, arith, inl, inr, ◌==◌,
  Bool-cases, ==→eq, ==→ne,
}
use fyp_os.Spinlock.{
  Cpu, is_cpu, initlock, push_off, popped, advance, Pc, outside, testing, testing_cpu, spinning,
  won, inside, checking, checking_cpu, clearing, dropping, popping, panicked,
}
use fyp_os.Spinlock.Nesting.{IsMasked, run-Same, push_off-intr, pop_off-down}
use fyp_os.Spinlock.System.{
  System, step, Step, run_code, nest, set_intr, Reach, start, later, owns, named, is_masked,
  is_panicked, init,
}
use fyp_os.Spinlock.System.Invariant.{
  Inv, after, plain-Inv, take-Inv, drop-Inv, name-Inv, cpu-IsMasked,
}

push_off-deep : (c : Cpu) → 1 ≤ (push_off c).noff
unfolding push_off
push_off-deep c = omega arith

-- A step that changes nothing but where the CPU stands, between push_off and pop_off.
kept :
    (s : System) (inv : Inv s) (i : ℕ) (p : Pc)
    → is_masked (s.pc i) ≡ true
    → is_panicked p ≡ false
    → owns p ≡ owns (s.pc i)
    → named p ≡ named (s.pc i)
    → Inv (after s inv i p (s.cpu i) s.lock)
kept s inv i p m quiet = plain-Inv s inv i p (s.cpu i) quiet (λ h. inv.deep i m) (inv.masked i)

-- A swap that finds the lock taken leaves it so.
relocked :
    {s : System}
    → s.lock.locked ≢ 0
    → Inv s
    → Inv (record s { lock = record s.lock { locked = 1 } })
relocked ne inv = record {
  free = λ z. absurd (omega arith);
  taken = λ z. inv.taken ne;
  unique = inv.unique;
  recorded = inv.recorded;
  calm = inv.calm;
  deep = inv.deep;
  masked = inv.masked;
}

abbrev pub moved : System → ℕ → Pc → System
moved s i p =
    let (lk, c, q) = advance i p s.lock (s.cpu i) in
    record { lock = lk; cpu = write s.cpu i c; pc = write s.pc i q }

moved-Inv : (s : System) (i : ℕ) (p : Pc) → Inv s → s.pc i ≡ p → Inv (moved s i p)
unfolding advance owns named is_masked is_panicked is_cpu popped
moved-Inv s i outside inv e =
    plain-Inv s inv i testing (push_off (s.cpu i)) refl (λ h. push_off-deep (s.cpu i))
      (λ h. push_off-intr (s.cpu i)) (rw e refl) (rw e refl)
moved-Inv s i testing inv e = elim (Bool-cases (s.lock.locked == 0)) [
  | inl z ↦ rw z (kept s inv i spinning (rw e refl) refl (rw e refl) (rw e refl))
  | inr nz ↦ rw nz (kept s inv i testing_cpu (rw e refl) refl (rw e refl) (rw e refl))
]
moved-Inv s i testing_cpu inv e =
    rw (inv.recorded i, e) (kept s inv i spinning (rw e refl) refl (rw e refl) (rw e refl))
moved-Inv s i spinning inv e = elim (Bool-cases (s.lock.locked == 0)) [
  | inl z ↦ rw z (
      take-Inv s inv i won (s.cpu i) refl (λ h. inv.deep i (rw e refl)) (inv.masked i) (==→eq _ _ z)
        refl (rw e refl))
  | inr nz ↦
      rw nz
        (relocked (==→ne _ _ nz) (kept s inv i spinning (rw e refl) refl (rw e refl) (rw e refl)))
]
moved-Inv s i won inv e =
    name-Inv s inv i inside (s.cpu i) refl (λ h. inv.deep i (rw e refl)) (inv.masked i) (some i)
      (rw e refl) refl (λ j. refl)
moved-Inv s i inside inv e = kept s inv i checking (rw e refl) refl (rw e refl) (rw e refl)
moved-Inv s i checking inv e = elim (Bool-cases (s.lock.locked == 0)) [
  | inl z ↦ absurd (ground (arith, inv.free (==→eq _ _ z) i))
  | inr nz ↦ rw nz (kept s inv i checking_cpu (rw e refl) refl (rw e refl) (rw e refl))
]
moved-Inv s i checking_cpu inv e =
    rw (inv.recorded i, e) (kept s inv i clearing (rw e refl) refl (rw e refl) (rw e refl))
moved-Inv s i clearing inv e =
    name-Inv s inv i dropping (s.cpu i) refl (λ h. inv.deep i (rw e refl)) (inv.masked i) none
      (rw e refl) refl (λ j. refl)
moved-Inv s i dropping inv e =
    drop-Inv s inv i popping (s.cpu i) refl (λ h. inv.deep i (rw e refl)) (inv.masked i) (rw e refl)
      refl (rw e refl)
moved-Inv s i popping inv e =
    let (d, down, off) = pop_off-down (s.cpu i) (inv.masked i) (inv.deep i (rw e refl)) in
    rw down
      (plain-Inv s inv i outside d refl (λ h. absurd (ground arith)) off (rw e refl) (rw e refl))
moved-Inv s i panicked inv e = absurd (ground (arith, inv.calm i))

pub step-Inv : (i : ℕ) (s : System) → Inv s → Inv (step i s)
unfolding step
step-Inv i s inv = moved-Inv s i (s.pc i) inv refl

-- A CPU whose interrupts and depth change outside of `advance`.
cpu-Inv :
    (s : System) (i : ℕ) (c : Cpu)
    → Inv s
    → (is_masked (s.pc i) ≡ true → 1 ≤ c.noff)
    → IsMasked c
    → Inv (record s { cpu = write s.cpu i c })
cpu-Inv s i c inv deep off = record {
  free = inv.free;
  taken = inv.taken;
  unique = inv.unique;
  recorded = inv.recorded;
  calm = inv.calm;
  deep = λ j m. elim (Bool-cases (i == j)) [
    | inl here ↦ let at = ==→eq _ _ here in rw here (deep (rw at m))
    | inr other ↦ rw other (inv.deep j m)
  ];
  masked = λ j. cpu-IsMasked s inv i (s.pc i) c off j;
}

Step-Inv : (s t : System) → Step s t → Inv s → Inv t
unfolding is_masked
Step-Inv s t (run_code i) inv = step-Inv i s inv
Step-Inv s t (nest i n c where' e) inv =
    let (d, e', (same, depth, saved)) = run-Same n (s.cpu i) (inv.masked i) in
    let is_c : d ≡ c = cc (e', e) in
    let same_noff = ap (λ x. x.noff) is_c in
    cpu-Inv s i c inv (λ m. omega (arith, inv.deep i m, same_noff, depth))
      (λ h. sym (ap (λ x. x.intr) is_c) ∙ (same ∙ inv.masked i (omega (arith, same_noff, depth))))
Step-Inv s t (set_intr i b out none') inv =
    let unmasked : is_masked (s.pc i) ≡ false = rw out refl in
    cpu-Inv s i _ inv (λ m. absurd (ground arith)) (λ h. absurd (omega arith))

init-Inv : (name : ℕ) → Inv (init name)
unfolding owns named is_masked is_panicked initlock is_cpu
init-Inv name = record {
  free = λ e j. refl;
  taken = λ e. absurd (e refl);
  unique = λ j k a b. absurd (ground arith);
  recorded = λ j. refl;
  calm = λ j. refl;
  deep = λ j m. absurd (ground arith);
  masked = λ j h. refl;
}

pub Reach-Inv : {name : ℕ} {s : System} → Reach name s → Inv s
Reach-Inv {name} start = init-Inv name
Reach-Inv (later r step) = Step-Inv _ _ step (Reach-Inv r)
