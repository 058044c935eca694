-- ===== src/Printf/Tests.antt =====
-- Numbers that are printed and read back, and the formats.
use fyp_os.Prelude.{
  ℕ, ◌-◌, ◌^◌, ◌≡◌, ◌⊎◌, ◌≤◌, refl, inr, length, true, false, ◌&&◌, some, List, [], ◌∷◌, leb, arith,
}
use fyp_os.Printf.{
  word, lower, printint, printint_loop, printf, kernel_convert, vprintf, user_convert, atoi, upper,
}
use fyp_os.Printf.RoundTrip.{ten-IsDecimal, atoi-printint, printint_bounds}

abbrev letters : List ℕ
letters = 65 ∷ 66 ∷ 67 ∷ 68 ∷ 69 ∷ 70 ∷ []

-- `printf("%d%%", -12)` of the kernel.
printf_run :
    printf (b'%' ∷ b'd' ∷ b'%' ∷ b'%' ∷ []) (word (2 ^ 32 - 12) ∷ [])
    ≡ some (b'-' ∷ b'1' ∷ b'2' ∷ b'%' ∷ [])
unfolding printf kernel_convert printint printint_loop
printf_run = refl

-- `%l` of the user library prints 2 ^ 32 + 7 as 7.
vprintf_run : vprintf false (b'%' ∷ b'l' ∷ []) (word 4294967303 ∷ []) ≡ some (b'7' ∷ [])
unfolding vprintf user_convert printint printint_loop
vprintf_run = refl

atoi-printint_example :
    ((true && leb (2 ^ 31) (2 ^ 32 - 305)) ≡ false)
      × (atoi (printint upper (2 ^ 32 - 305) 10 true) ≡ 2 ^ 32 - 305)
    ⊎ ((true && leb (2 ^ 31) (2 ^ 32 - 305)) ≡ true)
      × ((rest : List ℕ) × (printint upper (2 ^ 32 - 305) 10 true ≡ b'-' ∷ rest)
          × (atoi rest ≡ 2 ^ 32 - (2 ^ 32 - 305)))
atoi-printint_example =
    atoi-printint upper (2 ^ 32 - 305) true (ten-IsDecimal letters) (omega arith)

printint_bounds_example : length (printint lower (2 ^ 31) 16 true) ≤ 11
printint_bounds_example = printint_bounds lower (2 ^ 31) 16 true (inr refl) (omega arith)
