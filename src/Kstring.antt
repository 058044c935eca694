-- ===== src/Kstring.antt =====
-- kernel/string.c, over a byte memory. A pointer is an address, a function that writes returns the
-- new memory, and each loop recurs on the rounds that its counter leaves.
pub mod Move
pub mod Names
mod Tests
use fyp_os.Prelude.{
  ℕ, zero, suc, ◌+◌, ◌-◌, ◌%◌, ◌≡◌, Bool, not, ◌&&◌, ◌||◌, Option, none, some, Bytes, write, ◌==◌,
  ltb, if◌then◌else◌, ℤ, pos, sub_ℕ,
}

-- The loop of `memset`: `k` rounds are left, at index `i`.
memset_loop : ℕ → Bytes → ℕ → ℕ → ℕ → Bytes
memset_loop zero m dst c i = m
memset_loop (suc k) m dst c i = memset_loop k (write m (dst + i) (c % 256)) dst c (i + 1)

unfoldable pub memset : Bytes → ℕ → ℕ → ℕ → Bytes
unfolding memset_loop
memset m dst c n = memset_loop n m dst c 0

unfoldable pub memcmp : ℕ → Bytes → ℕ → ℕ → ℤ
memcmp zero m s1 s2 = pos 0
memcmp (suc n) m s1 s2 = if m s1 == m s2 then memcmp n m (s1 + 1) (s2 + 1) else sub_ℕ (m s1) (m s2)

-- `*d++ = *s++`, `n` times
copy_up : ℕ → Bytes → ℕ → ℕ → Bytes
copy_up zero m d s = m
copy_up (suc n) m d s = copy_up n (write m d (m s)) (d + 1) (s + 1)

-- `*--d = *--s`, `n` times
copy_down : ℕ → Bytes → ℕ → ℕ → Bytes
copy_down zero m d s = m
copy_down (suc n) m d s = copy_down n (write m (d - 1) (m (s - 1))) (d - 1) (s - 1)

unfoldable pub memmove : Bytes → ℕ → ℕ → ℕ → Bytes
unfolding copy_up copy_down
memmove m dst src n =
    if n == 0
    then m
    else if ltb src dst && ltb dst (src + n)
    then copy_down n m (dst + n) (src + n)
    else copy_up n m dst src

unfoldable pub memcpy : Bytes → ℕ → ℕ → ℕ → Bytes
unfolding memmove
memcpy m dst src n = memmove m dst src n

unfoldable pub strncmp : ℕ → Bytes → ℕ → ℕ → ℤ
strncmp zero m p q = pos 0
strncmp (suc n) m p q =
    if not (m p == 0) && (m p == m q) then strncmp n m (p + 1) (q + 1) else sub_ℕ (m p) (m q)

-- The second loop of `strncpy`.
pad : ℕ → Bytes → ℕ → Bytes
pad zero m s = m
pad (suc n) m s = pad n (write m s 0) (s + 1)

-- A negative count copies nothing, as 0 does.
unfoldable pub strncpy : ℕ → Bytes → ℕ → ℕ → Bytes
unfolding pad
strncpy zero m s t = m
strncpy (suc n) m s t =
    let padded = pad n (write m s (m t)) (s + 1) in
    let rest = strncpy n (write m s (m t)) (s + 1) (t + 1) in if m t == 0 then padded else rest

-- The loop of `safestrcpy` and the final `*s = 0`; `k` is the value that `--n` has reached.
safe_loop : ℕ → Bytes → ℕ → ℕ → Bytes
safe_loop zero m s t = write m s 0
safe_loop (suc k) m s t =
    let done = write (write m s (m t)) (s + 1) 0 in
    let rest = safe_loop k (write m s (m t)) (s + 1) (t + 1) in if m t == 0 then done else rest

-- `safestrcpy(s, t, n)`; nothing happens at `n <= 0`.
unfoldable pub safestrcpy : ℕ → Bytes → ℕ → ℕ → Bytes
unfolding safe_loop
safestrcpy zero m s t = m
safestrcpy (suc k) m s t = safe_loop k m s t

-- The loop of `strlen` on fuel: `none` means that the fuel ran out.
strlen_loop : ℕ → Bytes → ℕ → ℕ → Option ℕ
strlen_loop zero m s n = none
strlen_loop (suc f) m s n =
    let rest = strlen_loop f m s (n + 1) in if m (s + n) == 0 then some n else rest

unfoldable pub strlen : ℕ → Bytes → ℕ → Option ℕ
unfolding strlen_loop
strlen fuel m s = strlen_loop fuel m s 0
