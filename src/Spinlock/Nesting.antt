-- ===== src/Spinlock/Nesting.antt =====
-- push_off and pop_off of kernel/spinlock.c in any nesting.
use fyp_os.Prelude.{
  ◌+◌, ◌-◌, ◌≡◌, ◌≤◌, refl, sym, ◌∙◌, Bool-cases, inl, inr, ==→eq, ==→ne, false, Option, some,
  ◌>>=◌, arith, ◌==◌, ltb, if◌then◌else◌,
}
use fyp_os.Spinlock.{Cpu, push_off, pop_off}

-- Matched calls: nothing, or calls between a `push_off` and its `pop_off`, and then more.
pub data Nest : Type 0 where
  quiet : Nest
  pair : Nest → Nest → Nest

unfoldable pub run : Nest → Cpu → Option Cpu
run quiet c = some c
run (pair inner more) c = run inner (push_off c) >>= λ c1. pop_off c1 >>= λ c2. run more c2

-- Inside a `push_off` interrupts are off.
abbrev pub IsMasked : Cpu → Type 0
IsMasked c = 1 ≤ c.noff → c.intr ≡ false

-- A CPU as before: the same interrupts and depth, and while the depth is not 0 the same saved bit.
abbrev pub Same : Cpu → Cpu → Type 0
Same c d = (d.intr ≡ c.intr) × (d.noff ≡ c.noff) × (1 ≤ c.noff → d.intena ≡ c.intena)

pub push_off-intr : (c : Cpu) → (push_off c).intr ≡ false
unfolding push_off
push_off-intr c = refl

-- Inside a `push_off`, `pop_off` does not panic and comes one level up.
pub pop_off-down :
    (c : Cpu) → IsMasked c → 1 ≤ c.noff → (d : Cpu) × (pop_off c ≡ some d) × IsMasked d
unfolding pop_off
pop_off-down c masked deep =
    let off = masked deep in
    let below : ltb c.noff 1 ≡ false = ground arith in
    rw (off, below) (_, refl, λ h. let ne : (c.noff - 1 == 0) ≡ false = ground arith in rw ne refl)

Same-trans : (c d e : Cpu) → Same c d → Same d e → Same c e
Same-trans c d e (i, n, s) (i', n', s') = (i' ∙ i, n' ∙ n, λ h. s' (omega (arith, n)) ∙ s h)

pop-push :
    (c d : Cpu) → IsMasked c → Same (push_off c) d → (e : Cpu) × (pop_off d ≡ some e) × Same c e
unfolding push_off pop_off
pop-push c d masked (off, depth, kept) =
    let deep : 1 ≤ c.noff + 1 = omega arith in
    let saved : d.intena ≡ (if c.noff == 0 then c.intr else c.intena) = kept deep in
    let less : d.noff - 1 ≡ c.noff = omega (arith, depth) in
    let below : ltb d.noff 1 ≡ false = ground (arith, depth) in
    rw (off, below, less)
      (
        _,
        refl,
        elim (Bool-cases (c.noff == 0)) [
          | inl top ↦
              let e = ==→eq _ _ top in
              (rw (top, saved, top) refl, refl, λ h. absurd (omega (arith, e)))
          | inr nested ↦
              let ne = ==→ne _ _ nested in
              (rw nested (sym (masked (omega arith))), refl, λ h. rw (saved, nested) refl)
        ],
      )

-- Matched calls never panic and leave the interrupts as they found them, on or off.
pub run-Same : (t : Nest) (c : Cpu) → IsMasked c → (d : Cpu) × (run t c ≡ some d) × Same c d
unfolding run
run-Same quiet c masked = (c, refl, (refl, refl, λ h. refl))
run-Same (pair inner more) c masked =
    let (d, e, same) = run-Same inner (push_off c) (λ h. push_off-intr c) in
    let (d', e', same') = pop-push c d masked same in
    let masked' : IsMasked d' = λ h. let (i, n, s) = same' in i ∙ masked (omega (arith, n)) in
    let (f, e'', same'') = run-Same more d' masked' in
    (f, rw (e, e', e'') refl, Same-trans c d' f same' same'')
