-- ===== src/Spinlock/System/Invariant.antt =====
-- The invariant of the CPUs of one lock of kernel/spinlock.c, and what one change keeps of it.
use fyp_os.Prelude.{
  ℕ, ◌≡◌, ◌≢◌, ◌≤◌, refl, sym, ◌∙◌, Bool, true, false, ◌&&◌, write, Option, arith, inl, inr, ◌==◌,
  if◌then◌else◌, Bool-cases, ==→eq, ==→ne,
}
use fyp_os.Spinlock.{
  Spinlock, Cpu, is_cpu, Pc, outside, testing, testing_cpu, spinning, won, inside, checking,
  checking_cpu, clearing, dropping, popping, panicked,
}
use fyp_os.Spinlock.Nesting.{IsMasked}
use fyp_os.Spinlock.System.{System, owns, named, is_masked, is_panicked}

pub record Inv (s : System) : Type 0 where
  pub free : s.lock.locked ≡ 0 → (j : ℕ) → owns (s.pc j) ≡ false
  pub taken : s.lock.locked ≢ 0 → (j : ℕ) × (owns (s.pc j) ≡ true)
  pub unique : (j k : ℕ) → owns (s.pc j) ≡ true → owns (s.pc k) ≡ true → j ≡ k
  pub recorded : (j : ℕ) → is_cpu j s.lock.cpu ≡ named (s.pc j)
  pub calm : (j : ℕ) → is_panicked (s.pc j) ≡ false
  pub deep : (j : ℕ) → is_masked (s.pc j) ≡ true → 1 ≤ (s.cpu j).noff
  pub masked : (j : ℕ) → IsMasked (s.cpu j)

pub named_owns : (p : Pc) → named p ≡ true → owns p ≡ true
unfolding named owns
named_owns inside e = refl
named_owns checking e = refl
named_owns checking_cpu e = refl
named_owns clearing e = refl
named_owns outside e = absurd (ground arith)
named_owns testing e = absurd (ground arith)
named_owns testing_cpu e = absurd (ground arith)
named_owns spinning e = absurd (ground arith)
named_owns won e = refl
named_owns dropping e = refl
named_owns popping e = absurd (ground arith)
named_owns panicked e = absurd (ground arith)

-- What one CPU `i` of a state that satisfies the invariant changes when it comes to `p` and `c`.
module _ (s : System) (inv : Inv s) (i : ℕ) (p : Pc) (c : Cpu) where
  abbrev pub after : Spinlock → System
  after lk = record { lock = lk; cpu = write s.cpu i c; pc = write s.pc i p }

  class_same : (f : Pc → Bool) (j : ℕ) → f p ≡ f (s.pc i) → f (write s.pc i p j) ≡ f (s.pc j)
  class_same f j e = elim (Bool-cases (i == j)) [
    | inl here ↦ let at = ==→eq _ _ here in rw here (rw at at e)
    | inr other ↦ rw other refl
  ]

  -- The classes of the others, and of `i` itself.
  class_at : (f : Pc → Bool) (j : ℕ) → f (write s.pc i p j) ≡ (if i == j then f p else f (s.pc j))
  class_at f j = elim (Bool-cases (i == j)) [ inl here ↦ rw here refl | inr other ↦ rw other refl ]

  cpu_deep :
      (is_masked p ≡ true → 1 ≤ c.noff)
      → (j : ℕ) → is_masked (write s.pc i p j) ≡ true
      → 1 ≤ (write s.cpu i c j).noff
  cpu_deep now j = elim (Bool-cases (i == j)) [
    | inl here ↦ rw here now
    | inr other ↦ rw other (inv.deep j)
  ]

  pub cpu-IsMasked : IsMasked c → (j : ℕ) → IsMasked (write s.cpu i c j)
  cpu-IsMasked now j = elim (Bool-cases (i == j)) [
    | inl here ↦ rw here now
    | inr other ↦ rw other (inv.masked j)
  ]

  pc_calm : is_panicked p ≡ false → (j : ℕ) → is_panicked (write s.pc i p j) ≡ false
  pc_calm now j = elim (Bool-cases (i == j)) [
    | inl here ↦ rw here now
    | inr other ↦ rw other (inv.calm j)
  ]

  module _ (quiet : is_panicked p ≡ false) (nested : is_masked p ≡ true → 1 ≤ c.noff)
      (off : IsMasked c) where
    -- A step that leaves the lock and who owns it.
    pub plain-Inv : owns p ≡ owns (s.pc i) → named p ≡ named (s.pc i) → Inv (after s.lock)
    plain-Inv o n = record {
      free = λ e j. class_same owns j o ∙ inv.free e j;
      taken = λ e. let (j, own) = inv.taken e in (j, class_same owns j o ∙ own);
      unique =
          λ j k a b. inv.unique j k (sym (class_same owns j o) ∙ a) (sym (class_same owns k o) ∙ b);
      recorded = λ j. inv.recorded j ∙ sym (class_same named j n);
      calm = pc_calm quiet;
      deep = cpu_deep nested;
      masked = cpu-IsMasked off;
    }

    -- The swap that finds the lock free.
    pub take-Inv :
        s.lock.locked ≡ 0
        → owns p ≡ true
        → named p ≡ named (s.pc i)
        → Inv (after (record s.lock { locked = 1 }))
    take-Inv e o n =
        let here : (j : ℕ) → owns (write s.pc i p j) ≡ true → j ≡ i = λ j own.
          elim (Bool-cases (i == j)) [
            | inl at ↦ sym (==→eq _ _ at)
            | inr other ↦ absurd (ground (arith, class_at owns j, inv.free e j))
          ] in
        record {
          free = λ z. absurd (omega arith);
          taken = λ z. (i, ground (arith, class_at owns i));
          unique = λ j k a b. here j a ∙ sym (here k b);
          recorded = λ j. inv.recorded j ∙ sym (class_same named j n);
          calm = pc_calm quiet;
          deep = cpu_deep nested;
          masked = cpu-IsMasked off;
        }

    -- The store of the release, which the owner makes once it is not recorded.
    pub drop-Inv :
        owns (s.pc i) ≡ true
        → owns p ≡ false
        → named p ≡ named (s.pc i)
        → Inv (after (record s.lock { locked = 0 }))
    drop-Inv own o n =
        let none' : (j : ℕ) → owns (write s.pc i p j) ≡ false = λ j. elim (Bool-cases (i == j)) [
          | inl at ↦ ground (arith, class_at owns j)
          | inr other ↦ elim (Bool-cases (owns (s.pc j))) [
            | inl also ↦ absurd (==→ne _ _ other (inv.unique i j own also))
            | inr not' ↦ ground (arith, class_at owns j)
          ]
        ] in
        record {
          free = λ z. none';
          taken = λ z. absurd (z refl);
          unique = λ j k a b. absurd (ground (arith, none' j));
          recorded = λ j. inv.recorded j ∙ sym (class_same named j n);
          calm = pc_calm quiet;
          deep = cpu_deep nested;
          masked = cpu-IsMasked off;
        }

    -- The owner's store to `lk->cpu`.
    pub name-Inv :
        (cpu : Option ℕ)
        → owns (s.pc i) ≡ true
        → owns p ≡ true
        → ((j : ℕ) → is_cpu j cpu ≡ (named p && i == j))
        → Inv (after (record s.lock { cpu = cpu }))
    name-Inv cpu own o at =
        let same = λ (j : ℕ). class_same owns j (o ∙ sym own) in
        record {
          free = λ e j. same j ∙ inv.free e j;
          taken = λ e. let (j, own') = inv.taken e in (j, same j ∙ own');
          unique = λ j k a b. inv.unique j k (sym (same j) ∙ a) (sym (same k) ∙ b);
          recorded = λ j. at j ∙ elim (Bool-cases (i == j)) [
            | inl here ↦ rw (class_at named j, here) (ground arith)
            | inr other ↦ elim (Bool-cases (named (s.pc j))) [
              | inl also ↦ absurd (==→ne _ _ other (inv.unique i j own (named_owns (s.pc j) also)))
              | inr not' ↦ rw (class_at named j, other, not') (ground arith)
            ]
          ];
          calm = pc_calm quiet;
          deep = cpu_deep nested;
          masked = cpu-IsMasked off;
        }
