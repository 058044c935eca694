-- ===== src/Fs/Alloc.antt =====
-- The block allocator of kernel/fs.c: balloc, bfree, bzero and the count of free blocks. The search
-- loops recur on the bits left in a bitmap block, and on fuel over the bitmap blocks. `int b` of balloc
-- stays below 2 ^ 31 on disks of fewer than 2 ^ 31 - 8192 blocks, and is not wrapped.
pub mod Count
pub mod Take
pub mod Give
mod Tests
use fyp_os.Prelude.{
  ℕ, zero, suc, ◌+◌, ◌%◌, ◌^◌, Bool, not, Option, none, some, Bytes, ltb, if◌then◌else◌, ◌>>=◌,
  ◌>>◌, unless,
}
use fyp_os.Kstring.{memset}
use fyp_os.Blocks.{Blocks, bread}
use fyp_os.Log.{Log, log_write}
use fyp_os.Fs.{Superblock, bsize, bpb, bblock, readsb}
use fyp_os.Fs.Bits.{in_use, mark, unmark}

-- `bzero`
unfoldable pub bzero : ℕ → Log → Blocks → Option (Log × Blocks)
bzero bno l s = log_write bno (memset (bread s bno) 0 0 bsize) l s

-- The inner loop of `balloc`, with `k` bits left from `bi` on: the first clear bit.
unfoldable pub find_free : ℕ → Bytes → ℕ → ℕ → ℕ → Option ℕ
find_free zero d b size bi = none
find_free (suc k) d b size bi =
    let rest = find_free k d b size (bi + 1) in
    if ltb (b + bi) size then (if in_use d bi then rest else some bi) else none

-- What `balloc` does once it has found the clear bit `bi` of the bitmap block for `b`.
unfoldable pub take_block : Superblock → ℕ → ℕ → Log → Blocks → Option (ℕ × Log × Blocks)
take_block sb b bi l s = do
  (l1, s1) ← log_write (bblock b sb) (mark (bread s (bblock b sb)) bi) l s
  (l2, s2) ← bzero (b + bi) l1 s1
  some (b + bi, l2, s2)

-- The outer loop of `balloc` from `b` on; 0 says that no block is free. `none` is a panic of the log,
-- or no fuel; `int b` wraps, and is compared with a `uint`.
unfoldable pub balloc_loop : ℕ → Superblock → ℕ → Log → Blocks → Option (ℕ × Log × Blocks)
balloc_loop zero sb b l s = none
balloc_loop (suc f) sb b l s =
    let found : Option (ℕ × Log × Blocks) =
      elim (find_free bpb (bread s (bblock b sb)) b sb.size 0) [
        | none ↦ balloc_loop f sb ((b + bpb) % 2 ^ 32) l s
        | some bi ↦ take_block sb b bi l s
      ] in
    if ltb b sb.size then found else some (0, l, s)

unfoldable pub balloc : ℕ → Superblock → Log → Blocks → Option (ℕ × Log × Blocks)
balloc fuel sb l s = balloc_loop fuel sb 0 l s

-- `bfree`; `none` is the panic on a block that is free already, or one of the log's.
unfoldable pub bfree : Superblock → ℕ → Log → Blocks → Option (Log × Blocks)
bfree sb b l s = do
  unless (not (in_use (bread s (bblock b sb)) (b % bpb)))
  log_write (bblock b sb) (unmark (bread s (bblock b sb)) (b % bpb)) l s

-- The inner loop of `count_free_blocks`.
unfoldable pub count_bits : ℕ → Bytes → ℕ → ℕ → ℕ → ℕ → ℕ
count_bits zero d b size bi acc = acc
count_bits (suc k) d b size bi acc =
    let rest = count_bits k d b size (bi + 1) (if in_use d bi then acc else acc + 1) in
    if ltb (b + bi) size then rest else acc

-- Its outer loop; `uint b` wraps.
unfoldable pub count_loop : ℕ → Superblock → ℕ → ℕ → Blocks → Option ℕ
count_loop zero sb b acc s = none
count_loop (suc f) sb b acc s =
    let rest =
      count_loop f sb ((b + bpb) % 2 ^ 32) (count_bits bpb (bread s (bblock b sb)) b sb.size 0 acc)
        s in
    if ltb b sb.size then rest else some acc

unfoldable pub count_free_blocks : ℕ → Blocks → Option ℕ
count_free_blocks fuel s = count_loop fuel (readsb s) 0 0 s

unfoldable pub read_disk_size : Blocks → ℕ
read_disk_size s = (readsb s).size
