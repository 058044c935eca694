-- ===== src/Kstring/Move.antt =====
-- What memset, memmove and memcmp of kernel/string.c do to memory.
use fyp_os.Prelude.{
  ℕ, zero, suc, ◌+◌, ◌-◌, ◌%◌, ◌≤◌, ◌<◌, ◌≡◌, ◌⊎◌, ◌↔◌, refl, inl, inr, ◌&&◌, arith, Bytes, write,
  fill, leb, ltb, ◌==◌, if◌then◌else◌, Bool-cases, pos, sub_ℕ_zero, ==→ne, ==→eq,
}
use fyp_os.Kstring.{memset_loop, memset, memcmp, copy_up, copy_down, memmove}

-- The memory after `n` bytes from `s` on have been copied to `d`.
abbrev pub copied : Bytes → ℕ → ℕ → ℕ → Bytes
copied m d s n b = if leb d b && ltb b (d + n) then m (s + (b - d)) else m b

memset_loop-fill :
    (k : ℕ) (m : Bytes) (dst c i b : ℕ) → memset_loop k m dst c i b ≡ fill m (dst + i) (c % 256) k b
unfolding memset_loop
memset_loop-fill zero m dst c i b = ground arith
memset_loop-fill (suc k) m dst c i b =
    ground (arith, memset_loop-fill k (write m (dst + i) (c % 256)) dst c (i + 1) b)

-- `memset` fills exactly the `n` bytes from `dst` on with the low byte of `c`.
pub memset-fill : (m : Bytes) (dst c n b : ℕ) → memset m dst c n b ≡ fill m dst (c % 256) n b
unfolding memset
memset-fill m dst c n b = ground (arith, memset_loop-fill n m dst c 0 b)

copy_up-copied :
    (n : ℕ) (m : Bytes) (d s b : ℕ) → (d ≤ s) ⊎ (s + n ≤ d) → copy_up n m d s b ≡ copied m d s n b
unfolding copy_up
copy_up-copied zero m d s b h = ground arith
copy_up-copied (suc n) m d s b h =
    ground (arith, copy_up-copied n (write m d (m s)) (d + 1) (s + 1) b)

copy_down-copied :
    (n : ℕ) (m : Bytes) (d s b : ℕ) → s ≤ d → copy_down n m (d + n) (s + n) b ≡ copied m d s n b
unfolding copy_down
copy_down-copied zero m d s b h = ground arith
copy_down-copied (suc n) m d s b h =
    let e : d + suc n - 1 ≡ d + n = omega arith in
    let e' : s + suc n - 1 ≡ s + n = omega arith in
    rw (e, e') (ground (arith, copy_down-copied n (write m (d + n) (m (s + n))) d s b))

-- `memmove` copies the bytes that the source held before the call, also where the two ranges
-- overlap in either direction, and writes nowhere else.
pub memmove-copied : (m : Bytes) (dst src n b : ℕ) → memmove m dst src n b ≡ copied m dst src n b
unfolding memmove
memmove-copied m dst src n b =
    ground (arith, copy_up-copied n m dst src b, copy_down-copied n m dst src b)

first_then :
    (n : ℕ) (m : Bytes) (p q : ℕ)
    → m p ≡ m q
    → ((i : ℕ) → i < n → m (p + 1 + i) ≡ m (q + 1 + i))
    → (i : ℕ) → i < suc n
    → m (p + i) ≡ m (q + i)
first_then n m p q e h zero lt = ground arith
first_then n m p q e h (suc i) lt = ground (arith, h i)

-- `memcmp` returns 0 exactly when the two ranges hold the same bytes.
pub memcmp_zero :
    (n : ℕ) (m : Bytes) (s1 s2 : ℕ)
    → (memcmp n m s1 s2 ≡ pos 0) ↔ ((i : ℕ) → i < n → m (s1 + i) ≡ m (s2 + i))
unfolding memcmp
memcmp_zero zero m s1 s2 = (λ h i p. elim p [ ], λ h. refl)
memcmp_zero (suc n) m s1 s2 =
    let ih = memcmp_zero n m (s1 + 1) (s2 + 1) in
    elim (Bool-cases (m s1 == m s2)) [
      | inl e ↦ rw e (
        λ h. first_then n m s1 s2 (==→eq _ _ e) (ih.0 h),
        λ h. ih.1 (λ i p. ground (arith, h (i + 1))),
      )
      | inr e ↦ rw e (
        λ h. absurd (==→ne _ _ e ((sub_ℕ_zero _ _).0 h)),
        λ h. absurd (==→ne _ _ e (ground (arith, h 0))),
      )
    ]
