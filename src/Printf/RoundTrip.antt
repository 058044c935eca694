-- ===== src/Printf/RoundTrip.antt =====
-- What printint of kernel/printf.c and user/printf.c prints, as atoi of user/ulib.c reads it.
use fyp_os.Prelude.{
  ℕ, zero, suc, ◌+◌, ◌-◌, ◌*◌, ◌/◌, ◌%◌, ◌^◌, ◌<◌, ◌≤◌, ◌≡◌, ◌≢◌, ◌⊎◌, inl, inr, refl, subst, sym,
  ◌∙◌, Bool, true, false, ◌&&◌, List, [], ◌∷◌, get_or, length, leb, ◌==◌, arith, Bool-cases, ==→eq,
  ==→ne,
}
use fyp_os.Printf.{printint_loop, printint, atoi_loop, atoi}

-- Digits that print the numbers below ten in decimal.
abbrev pub IsDecimal : List ℕ → Type 0
IsDecimal digits = (r : ℕ) → r < 10 → get_or digits r 0 ≡ b'0' + r

-- 10 to the power of `k`.
abbrev limit : ℕ → ℕ
limit zero = 1
limit (suc k) = 10 * limit k

atoi_loop-digit :
    (digits : List ℕ) (n x : ℕ) (s : List ℕ)
    → IsDecimal digits
    → n * 10 + x % 10 ≡ x
    → x < 2 ^ 32
    → atoi_loop n (get_or digits (x % 10) 0 ∷ s) ≡ atoi_loop x s
unfolding atoi_loop
atoi_loop-digit digits n x s ok e lt =
    let is : get_or digits (x % 10) 0 ≡ b'0' + x % 10 = ok (x % 10) (omega arith) in
    let low : leb b'0' (b'0' + x % 10) ≡ true = ground arith in
    let high : leb (b'0' + x % 10) b'9' ≡ true = ground arith in
    let same : (n * 10 + (b'0' + x % 10 - b'0')) % 2 ^ 32 ≡ x = omega (arith, e) in
    rw (is, low, high, same) refl

rounds_left : (k q : ℕ) → q < limit k → q ≢ 0 → 0 < k
rounds_left zero q lt ne = absurd (ne (omega (arith, lt)))
rounds_left (suc k) q lt ne = omega arith

atoi-printint_loop :
    (digits : List ℕ) (k x : ℕ) (s : List ℕ)
    → IsDecimal digits
    → x < limit k
    → x < 2 ^ 32
    → 0 < k
    → atoi_loop 0 (printint_loop k digits 10 x s) ≡ atoi_loop x s
unfolding printint_loop
atoi-printint_loop digits zero x s ok lt small pos = absurd (omega (arith, pos))
atoi-printint_loop digits (suc k) x s ok lt small pos = elim (Bool-cases (x / 10 == 0)) [
  | inl last ↦ rw last (atoi_loop-digit digits 0 x s ok (omega (arith, ==→eq _ _ last)) small)
  | inr more ↦ rw more (
      atoi-printint_loop digits k (x / 10) (get_or digits (x % 10) 0 ∷ s) ok (omega (arith, lt))
        (omega arith) (rounds_left k (x / 10) (omega (arith, lt)) (==→ne _ _ more))
      ∙ atoi_loop-digit digits (x / 10) x s ok (omega arith) small)
]

pub ten-IsDecimal :
    (rest : List ℕ)
    → IsDecimal (b'0' ∷ b'1' ∷ b'2' ∷ b'3' ∷ b'4' ∷ b'5' ∷ b'6' ∷ b'7' ∷ b'8' ∷ b'9' ∷ rest)
ten-IsDecimal rest zero lt = refl
ten-IsDecimal rest (suc zero) lt = refl
ten-IsDecimal rest (suc (suc zero)) lt = refl
ten-IsDecimal rest (suc (suc (suc zero))) lt = refl
ten-IsDecimal rest (suc (suc (suc (suc zero)))) lt = refl
ten-IsDecimal rest (suc (suc (suc (suc (suc zero))))) lt = refl
ten-IsDecimal rest (suc (suc (suc (suc (suc (suc zero)))))) lt = refl
ten-IsDecimal rest (suc (suc (suc (suc (suc (suc (suc zero))))))) lt = refl
ten-IsDecimal rest (suc (suc (suc (suc (suc (suc (suc (suc zero)))))))) lt = refl
ten-IsDecimal rest (suc (suc (suc (suc (suc (suc (suc (suc (suc zero))))))))) lt = refl
ten-IsDecimal rest (suc (suc (suc (suc (suc (suc (suc (suc (suc (suc r)))))))))) lt =
    absurd (omega (arith, lt))

-- atoi reads back what printint prints in decimal: the number, or behind a minus sign the absolute
-- value of a number that is negative as an int and is printed as signed.
pub atoi-printint :
    (digits : List ℕ) (xx : ℕ) (sign : Bool)
    → IsDecimal digits
    → xx < 2 ^ 32
    → ((sign && leb (2 ^ 31) xx) ≡ false) × (atoi (printint digits xx 10 sign) ≡ xx)
      ⊎ ((sign && leb (2 ^ 31) xx) ≡ true)
        × ((rest : List ℕ) × (printint digits xx 10 sign ≡ b'-' ∷ rest) × (atoi rest ≡ 2 ^ 32 - xx))
unfolding printint atoi atoi_loop
atoi-printint digits xx sign ok lt = elim (Bool-cases (sign && leb (2 ^ 31) xx)) [
  | inr plain ↦
      inl (
        plain,
        rw plain (atoi-printint_loop digits 32 xx [] ok (omega (arith, lt)) lt (omega arith)),
      )
  | inl neg ↦
      let small : 2 ^ 32 - xx < 2 ^ 32 = ground (arith, neg, lt) in
      inr (
        neg,
        (
          printint_loop 32 digits 10 (2 ^ 32 - xx) [],
          rw neg refl,
          atoi-printint_loop digits 32 (2 ^ 32 - xx) [] ok (omega (arith, small)) small
              (omega arith),
        ),
      )
]

-- The bases that the formats use.
abbrev pub IsBase : ℕ → Type 0
IsBase base = (base ≡ 10) ⊎ (base ≡ 16)

quotient : (base x m : ℕ) → IsBase base → x < 10 * limit m → x / base < limit m
quotient base x m (inl e) lt = subst (λ b. x / b < limit m) (sym e) (omega (arith, lt))
quotient base x m (inr e) lt = subst (λ b. x / b < limit m) (sym e) (omega (arith, lt))

fits : (m k : ℕ) → suc m ≤ suc k → m ≤ k
fits m k le = omega (arith, le)

length-printint_loop :
    (digits : List ℕ) (base k m x : ℕ) (buf : List ℕ)
    → IsBase base
    → m ≤ k
    → x < limit m
    → 0 < m
    → length (printint_loop k digits base x buf) ≤ m + length buf
unfolding printint_loop
length-printint_loop digits base zero m x buf wide le lt pos = absurd (omega (arith, pos, le))
length-printint_loop digits base (suc k) (suc m) x buf wide le lt pos =
    elim (Bool-cases (x / base == 0)) [
      | inl last ↦ rw last (omega arith)
      | inr more ↦
          let smaller : x / base < limit m = quotient base x m wide (omega (arith, lt)) in
          rw more (
            omega (
              arith,
              length-printint_loop digits base k m (x / base) (get_or digits (x % base) 0 ∷ buf)
                  wide (fits m k le) smaller (rounds_left m (x / base) smaller (==→ne _ _ more)),
            ))
    ]
length-printint_loop digits base (suc k) zero x buf wide le lt pos = absurd (omega (arith, pos))

-- In base 10 and 16, printint puts at most 11 bytes in its buffer of 16, the sign included, whatever
-- 32-bit pattern it prints.
pub printint_bounds :
    (digits : List ℕ) (xx base : ℕ) (sign : Bool)
    → IsBase base
    → xx < 2 ^ 32
    → length (printint digits xx base sign) ≤ 11
unfolding printint
printint_bounds digits xx base sign is lt = elim (Bool-cases (sign && leb (2 ^ 31) xx)) [
  | inl neg ↦ rw neg (
      omega (
        arith,
        length-printint_loop digits base 32 10 (2 ^ 32 - xx) [] is (omega arith) (omega arith)
            (omega arith),
      ))
  | inr plain ↦ rw plain (
      omega (
        arith,
        length-printint_loop digits base 32 10 xx [] is (omega arith) (omega (arith, lt))
            (omega arith),
      ))
]
