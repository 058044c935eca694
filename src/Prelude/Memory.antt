-- ===== src/Prelude/Memory.antt =====
-- Byte-addressed memory: physical memory, a disk block and a C string are all a byte at each
-- address. Words are little-endian, as on RISC-V.
use Prim.Native.Nat.{ℕ, zero, suc, ◌+◌, ◌-◌, ◌*◌, ◌/◌, ◌%◌, ◌≤◌, ◌<◌}
use mathlib.Core.Path.{◌≡◌, refl}
use mathlib.Core.Logic.{◌⊎◌}
use native.Mathlib.Omega.{arith}
use fyp_os.Prelude.Tests.{◌==◌, if◌then◌else◌, ltb, leb}
use mathlib.Core.Bool.{◌&&◌}

abbrev pub Bytes : Type 0
Bytes = ℕ → ℕ

-- `m[a] = v`
abbrev pub write {ℓ} : {A : Type ℓ} → (ℕ → A) → ℕ → A → ℕ → A
write m a v b = if a == b then v else m b

-- The `k`-byte word at `a`.
unfoldable pub load : ℕ → Bytes → ℕ → ℕ
load zero m a = 0
load (suc k) m a = m a + 256 * load k m (a + 1)

unfoldable pub store : ℕ → Bytes → ℕ → ℕ → Bytes
store zero m a v = m
store (suc k) m a v = store k (write m a (v % 256)) (a + 1) (v / 256)

-- 256 to the power of `k`, the number of values of a `k`-byte word.
abbrev pub span : ℕ → ℕ
span zero = 1
span (suc k) = 256 * span k

pub store_outside : (k : ℕ) (m : Bytes) (a v b : ℕ) → (b < a) ⊎ (a + k ≤ b) → store k m a v b ≡ m b
unfolding store
store_outside zero m a v b h = refl
store_outside (suc k) m a v b h =
    ground (arith, store_outside k (write m a (v % 256)) (a + 1) (v / 256) b)

pub load_same :
    (k : ℕ) (m n : Bytes) (a : ℕ)
    → ((i : ℕ) → a ≤ i → i < a + k → m i ≡ n i)
    → load k m a ≡ load k n a
unfolding load
load_same zero m n a h = refl
load_same (suc k) m n a h = omega (
  arith,
  h a (omega arith) (omega arith),
  load_same k m n (a + 1) (λ i p q. h i (omega arith) (omega arith)),
)

-- Reading back a word.
pub load-store : (k : ℕ) (m : Bytes) (a v : ℕ) → v < span k → load k (store k m a v) a ≡ v
unfolding load store
load-store zero m a v h = omega arith
load-store (suc k) m a v h = ground (
  arith,
  store_outside k (write m a (v % 256)) (a + 1) (v / 256) a,
  load-store k (write m a (v % 256)) (a + 1) (v / 256),
)

-- Reading a word beside the one written.
pub load-store_ne :
    (j k : ℕ) (m : Bytes) (a b v : ℕ)
    → (b + j ≤ a) ⊎ (a + k ≤ b)
    → load j (store k m a v) b ≡ load j m b
load-store_ne j k m a b v h =
    load_same j (store k m a v) m b λ i p q. store_outside k m a v i (ground arith)

-- Fills `n` bytes from `a` on with `c`.
abbrev pub fill : Bytes → ℕ → ℕ → ℕ → Bytes
fill m a c n b = if leb a b && ltb b (a + n) then c else m b

-- Copies `n` bytes from `s` on of one memory to `d` in another.
abbrev pub copy_over : Bytes → ℕ → Bytes → ℕ → ℕ → Bytes
copy_over m d src s n b = if leb d b && ltb b (d + n) then src (s + (b - d)) else m b
