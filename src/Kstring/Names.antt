-- ===== src/Kstring/Names.antt =====
-- The NUL-terminated strings of kernel/string.c: what strncmp compares, strncpy and safestrcpy copy
-- and strlen counts.
use fyp_os.Prelude.{
  leb, ltb, ◌&&◌, ℕ, zero, suc, ◌+◌, ◌≤◌, ◌<◌, ◌≡◌, ◌⊎◌, ◌↔◌, refl, arith, Bytes, write, ◌==◌,
  if◌then◌else◌, pos, List, [], ◌∷◌, length, some,
}
use fyp_os.Kstring.{strncmp, strncpy, pad, safe_loop, safestrcpy, strlen_loop, strlen}

-- The string at `p`: its bytes up to a NUL, `n` at most.
unfoldable pub chars : ℕ → Bytes → ℕ → List ℕ
chars zero m p = []
chars (suc n) m p = let rest = m p ∷ chars n m (p + 1) in if m p == 0 then [] else rest

-- `strncmp` returns 0 exactly when the two strings agree up to `n` bytes.
pub strncmp_zero :
    (n : ℕ) (m : Bytes) (p q : ℕ) → (strncmp n m p q ≡ pos 0) ↔ (chars n m p ≡ chars n m q)
unfolding strncmp chars
strncmp_zero zero m p q = (λ h. refl, λ h. refl)
strncmp_zero (suc n) m p q =
    let ih = strncmp_zero n m (p + 1) (q + 1) in
    (λ h. ground (arith, ih.0), λ h. ground (arith, ih.1))

pub chars_same :
    (n : ℕ) (m m' : Bytes) (p q : ℕ)
    → ((i : ℕ) → i < n → m (p + i) ≡ m' (q + i))
    → chars n m p ≡ chars n m' q
unfolding chars
chars_same zero m m' p q h = refl
chars_same (suc n) m m' p q h =
    ground (arith, h 0, chars_same n m m' (p + 1) (q + 1) (λ i lt. ground (arith, h (i + 1))))

pad_lem :
    (n : ℕ) (m : Bytes) (s b : ℕ) → pad n m s b ≡ (if leb s b && ltb b (s + n) then 0 else m b)
unfolding pad
pad_lem zero m s b = ground arith
pad_lem (suc n) m s b = ground (arith, pad_lem n (write m s 0) (s + 1) b)

-- `strncpy` writes nothing outside the `n` bytes from `s` on.
pub strncpy_outside :
    (n : ℕ) (m : Bytes) (s t b : ℕ) → (b < s) ⊎ (s + n ≤ b) → strncpy n m s t b ≡ m b
unfolding strncpy
strncpy_outside zero m s t b h = refl
strncpy_outside (suc n) m s t b h = ground (
  arith,
  pad_lem n (write m s (m t)) (s + 1) b,
  strncpy_outside n (write m s (m t)) (s + 1) (t + 1) b,
)

-- After `strncpy` between ranges that do not overlap, the destination holds the string of the
-- source, cut at `n` bytes.
pub chars-strncpy :
    (n : ℕ) (m : Bytes) (s t : ℕ)
    → (t + n ≤ s) ⊎ (s + n ≤ t)
    → chars n (strncpy n m s t) s ≡ chars n m t
unfolding strncpy chars
chars-strncpy zero m s t h = refl
chars-strncpy (suc n) m s t h = ground (
  arith,
  pad_lem n (write m s (m t)) (s + 1) s,
  strncpy_outside n (write m s (m t)) (s + 1) (t + 1) s,
  chars-strncpy n (write m s (m t)) (s + 1) (t + 1),
  chars_same n (write m s (m t)) m (t + 1) (t + 1) (λ i lt. ground arith),
)

safe_loop_outside :
    (k : ℕ) (m : Bytes) (s t b : ℕ) → (b < s) ⊎ (s + k < b) → safe_loop k m s t b ≡ m b
unfolding safe_loop
safe_loop_outside zero m s t b h = ground arith
safe_loop_outside (suc k) m s t b h =
    ground (arith, safe_loop_outside k (write m s (m t)) (s + 1) (t + 1) b)

safe_loop-chars :
    (k : ℕ) (m : Bytes) (s t : ℕ)
    → (t + k ≤ s) ⊎ (s + k < t)
    → chars (suc k) (safe_loop k m s t) s ≡ chars k m t
unfolding safe_loop chars
safe_loop-chars zero m s t h = ground arith
safe_loop-chars (suc k) m s t h = ground (
  arith,
  safe_loop_outside k (write m s (m t)) (s + 1) (t + 1) s,
  safe_loop-chars k (write m s (m t)) (s + 1) (t + 1),
  chars_same k (write m s (m t)) m (t + 1) (t + 1) (λ i lt. ground arith),
)

-- After `safestrcpy` of at least one byte between ranges that do not overlap, the destination is a
-- string of fewer than `n` bytes: that of the source, cut at `n - 1`.
pub chars-safestrcpy :
    (k : ℕ) (m : Bytes) (s t : ℕ)
    → (t + k ≤ s) ⊎ (s + k < t)
    → chars (suc k) (safestrcpy (suc k) m s t) s ≡ chars k m t
unfolding safestrcpy
chars-safestrcpy k m s t h = safe_loop-chars k m s t h

strlen_loop-length :
    (f : ℕ) (m : Bytes) (s n : ℕ)
    → length (chars f m (s + n)) < f
    → strlen_loop f m s n ≡ some (n + length (chars f m (s + n)))
unfolding strlen_loop chars
strlen_loop-length zero m s n h = elim h [ ]
strlen_loop-length (suc f) m s n h =
    let e : s + (n + 1) ≡ s + n + 1 = omega arith in
    let ih = strlen_loop-length f m s (n + 1) in ground (arith, e, rw e at ih)

-- With fuel for the string and its NUL, `strlen` returns the number of bytes before the NUL.
pub strlen-length :
    (f : ℕ) (m : Bytes) (s : ℕ)
    → length (chars f m s) < f
    → strlen f m s ≡ some (length (chars f m s))
unfolding strlen
strlen-length f m s h =
    let e : s + 0 ≡ s = omega arith in
    let ih = strlen_loop-length f m s 0 in ground (arith, e, rw e at ih)
