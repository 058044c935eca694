-- ===== src/Console/Reading.antt =====
-- consoleread of kernel/console.c against the list of the characters that wait for it.
use fyp_os.Prelude.{
  ℕ, zero, suc, ◌%◌, ◌^◌, ◌≤◌, ◌<◌, ◌≡◌, refl, ap, sym, ◌∙◌, Bool, true, false, List, [], ◌∷◌, inl,
  inr, ltb, if◌then◌else◌, Bool-cases, arith, Bytes, ◌==◌,
}
use fyp_os.Console.{
  Cons, less, inc, input_buf_size, line_feed, ctrl_d, consoleread, Outcome, returned, sleeps,
}

-- `n` characters from the index `r` on.
abbrev pub window : Bytes → ℕ → ℕ → List ℕ
window buf r zero = []
window buf r (suc n) = buf (r % input_buf_size) ∷ window buf (inc r) n

-- The characters of the lines that have ended, oldest first.
abbrev pub ready : Cons → List ℕ
ready s = window s.buf s.r (less s.w s.r)

-- A read of `n` characters from those that wait: up to a line feed, which it takes, or to C('D'), which
-- it takes only as the first. It says how it ends and what is left.
abbrev pub read_line : Bool → ℕ → List ℕ → List ℕ × Outcome × List ℕ
read_line first zero xs = ([], returned, xs)
read_line first (suc n) [] = ([], sleeps (suc n), [])
read_line first (suc n) (c ∷ xs) =
    let (taken, how, left) = read_line false n xs in
    if c == ctrl_d
    then ([], returned, if first then xs else c ∷ xs)
    else if c == line_feed
    then (c ∷ [], returned, xs)
    else (c ∷ taken, how, left)

abbrev pub AreWords : Cons → Type 0
AreWords s = (s.r < 2 ^ 32) × (s.w < 2 ^ 32)

window_of_pos :
    (buf : Bytes) (r n m : ℕ)
    → n ≡ suc m
    → window buf r n ≡ buf (r % input_buf_size) ∷ window buf (inc r) m
window_of_pos buf r n m e = rw e refl

abbrev pub view : List ℕ × Outcome × Cons → List ℕ × Outcome × List ℕ
view (taken, how, s) = (taken, how, ready s)

abbrev ended : List ℕ → List ℕ → List ℕ × Outcome × List ℕ
ended taken left = (taken, returned, left)

-- The list with a character in front.
abbrev longer : ℕ → List ℕ × Outcome × List ℕ → List ℕ × Outcome × List ℕ
longer c (taken, how, left) = (c ∷ taken, how, left)

-- One round of the loop that finds a character.
consoleread-step :
    (target n : ℕ) (s : Cons)
    → n < target
    → (s.r == s.w) ≡ false
    → ready s ≡ s.buf (s.r % input_buf_size) ∷ ready (record s { r = inc s.r })
    → view (consoleread (λ i. true) false target n (record s { r = inc s.r }))
      ≡ read_line (n == target) n (ready (record s { r = inc s.r }))
    → view (consoleread (λ i. true) false target (suc n) s)
      ≡ read_line
          (suc n == target)
          (suc n)
          (s.buf (s.r % input_buf_size) ∷ ready (record s { r = inc s.r }))
unfolding consoleread
consoleread-step target n s le some' ahead ih =
    let c = s.buf (s.r % input_buf_size) in
    let not_first : (n == target) ≡ false = ground arith in
    elim (Bool-cases (c == ctrl_d)) [
      | inl eof ↦ elim (Bool-cases (suc n == target)) [
        | inl first ↦
            let below : ltb (suc n) target ≡ false = ground arith in
            rw (some', eof, below, first) refl
        | inr later ↦
            let above : ltb (suc n) target ≡ true = ground arith in
            rw (some', eof, above, later) (ap (ended []) ahead)
      ]
      | inr more ↦ elim (Bool-cases (c == line_feed)) [
        | inl feed ↦ rw (some', more, feed) refl
        | inr go ↦ rw (some', more, go) (ap (longer c) (rw not_first at ih))
      ]
    ]

-- consoleread of a process that is not killed and whose copies work takes from the lines that have
-- ended as `read_line` says and leaves the rest; where there is nothing left to take before it is done,
-- it sleeps.
pub consoleread-read_line :
    (target n : ℕ) (s : Cons)
    → n ≤ target
    → AreWords s
    → view (consoleread (λ i. true) false target n s) ≡ read_line (n == target) n (ready s)
unfolding consoleread
consoleread-read_line target zero s le words = refl
consoleread-read_line target (suc n) s le (rword, wword) = elim (Bool-cases (s.r == s.w)) [
  | inl empty ↦ let none' : less s.w s.r ≡ 0 = ground arith in rw (empty, none') refl
  | inr some' ↦
      let s1 = record s { r = inc s.r } in
      let count : less s.w s.r ≡ suc (less s.w (inc s.r)) = ground arith in
      let ahead = window_of_pos s.buf s.r (less s.w s.r) (less s.w (inc s.r)) count in
      let ih = consoleread-read_line target n s1 (omega arith) (omega arith, wword) in
      consoleread-step target n s (omega arith) some' ahead ih
      ∙ ap (read_line (suc n == target) (suc n)) (sym ahead)
]
