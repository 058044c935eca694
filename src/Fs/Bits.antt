-- ===== src/Fs/Bits.antt =====
-- The bits of the free map: test, set and clear of a bit of a byte, as kernel/fs.c does with
-- `m = 1 << (bi % 8)`.
use Prim.Native.Nat.{bit_and, bit_or}
use fyp_os.Prelude.{
  ℕ, zero, suc, ◌-◌, ◌/◌, ◌%◌, ◌^◌, ◌<◌, ◌≡◌, refl, Bool, true, false, not, ◌&&◌, arith, Bytes, ◌+◌,
  store, write, ◌==◌, if◌then◌else◌, ltb, Bool-cases, inl, inr,
}

-- `(x & (1 << k)) != 0`
unfoldable pub test_bit : ℕ → ℕ → Bool
test_bit x k = not (bit_and x (2 ^ k) == 0)

-- `x |= 1 << k`
unfoldable pub set_bit : ℕ → ℕ → ℕ
set_bit x k = bit_or x (2 ^ k)

-- `x &= ~(1 << k)` on a byte
unfoldable pub clear_bit : ℕ → ℕ → ℕ
clear_bit x k = bit_and x (255 - 2 ^ k)

abbrev same : Bool → Bool → Bool
same true b = b
same false b = not b

same_eq : (a b : Bool) → same a b ≡ true → a ≡ b
same_eq a b h = ground arith

-- Every number under a bound passes a test.
every : (ℕ → Bool) → ℕ → Bool
every test zero = true
every test (suc bound) = if test bound then every test bound else false

every-test :
    (test : ℕ → Bool) (bound : ℕ) → every test bound ≡ true → {i : ℕ} → i < bound → test i ≡ true
unfolding every
every-test test zero ok below = elim below [ ]
every-test test (suc bound) ok {i} below = elim (Bool-cases (i == bound)) [
  | inl last ↦ ground arith
  | inr under ↦ every-test test bound (ground arith) (ground arith)
]

-- One byte with one bit changed: how every bit reads afterwards, and that it is still a byte.
row : ℕ → ℕ → ℕ → Bool
row x k j =
    same (test_bit (set_bit x k) j) (if k == j then true else test_bit x j)
    && same (test_bit (clear_bit x k) j) (if k == j then false else test_bit x j)
    && ltb (set_bit x k) 256
    && ltb (clear_bit x k) 256

rows : every (λ x. every (λ k. every (row x k) 8) 8) 256 ≡ true
unfolding every row test_bit set_bit clear_bit
rows = refl

row_holds : (x k j : ℕ) → x < 256 → k < 8 → j < 8 → row x k j ≡ true
row_holds x k j hx hk hj =
    every-test (row x k) 8
      (every-test (λ k. every (row x k) 8) 8
        (every-test (λ x. every (λ k. every (row x k) 8) 8) 256 rows hx) hk)
      hj

pub test_bit-set_bit :
    (x k j : ℕ)
    → x < 256
    → k < 8
    → j < 8
    → test_bit (set_bit x k) j ≡ (if k == j then true else test_bit x j)
unfolding row
test_bit-set_bit x k j hx hk hj = same_eq _ _ (ground (arith, row_holds x k j hx hk hj))

pub test_bit-clear_bit :
    (x k j : ℕ)
    → x < 256
    → k < 8
    → j < 8
    → test_bit (clear_bit x k) j ≡ (if k == j then false else test_bit x j)
unfolding row
test_bit-clear_bit x k j hx hk hj = same_eq _ _ (ground (arith, row_holds x k j hx hk hj))

pub set_bit-lt : (x k : ℕ) → x < 256 → k < 8 → set_bit x k < 256
unfolding row
set_bit-lt x k hx hk = ground (arith, row_holds x k 0 hx hk)

pub clear_bit-lt : (x k : ℕ) → x < 256 → k < 8 → clear_bit x k < 256
unfolding row
clear_bit-lt x k hx hk = ground (arith, row_holds x k 0 hx hk)

-- Bit `bi` of a bitmap block.
unfoldable pub in_use : Bytes → ℕ → Bool
in_use d bi = test_bit (d (bi / 8)) (bi % 8)

unfoldable pub mark : Bytes → ℕ → Bytes
mark d bi = write d (bi / 8) (set_bit (d (bi / 8)) (bi % 8))

unfoldable pub unmark : Bytes → ℕ → Bytes
unmark d bi = write d (bi / 8) (clear_bit (d (bi / 8)) (bi % 8))

abbrev pub AllBytes : Bytes → Type 0
AllBytes d = (i : ℕ) → d i < 256

-- Marking a bit changes that bit alone.
pub in_use-mark :
    (d : Bytes) (bi bj : ℕ)
    → AllBytes d
    → in_use (mark d bi) bj ≡ (if bi == bj then true else in_use d bj)
unfolding in_use mark
in_use-mark d bi bj bytes =
    ground (arith, bytes (bi / 8), test_bit-set_bit (d (bi / 8)) (bi % 8) (bj % 8))

pub in_use-unmark :
    (d : Bytes) (bi bj : ℕ)
    → AllBytes d
    → in_use (unmark d bi) bj ≡ (if bi == bj then false else in_use d bj)
unfolding in_use unmark
in_use-unmark d bi bj bytes =
    ground (arith, bytes (bi / 8), test_bit-clear_bit (d (bi / 8)) (bi % 8) (bj % 8))

pub mark-AllBytes : (d : Bytes) (bi : ℕ) → AllBytes d → AllBytes (mark d bi)
unfolding mark
mark-AllBytes d bi bytes i =
    ground (arith, bytes i, bytes (bi / 8), set_bit-lt (d (bi / 8)) (bi % 8))

pub unmark-AllBytes : (d : Bytes) (bi : ℕ) → AllBytes d → AllBytes (unmark d bi)
unfolding unmark
unmark-AllBytes d bi bytes i =
    ground (arith, bytes i, bytes (bi / 8), clear_bit-lt (d (bi / 8)) (bi % 8))

pub store-AllBytes : (k : ℕ) (m : Bytes) (a v : ℕ) → AllBytes m → AllBytes (store k m a v)
unfolding store
store-AllBytes zero m a v bytes = bytes
store-AllBytes (suc k) m a v bytes =
    store-AllBytes k (write m a (v % 256)) (a + 1) (v / 256) λ i. ground (arith, bytes i)
