-- ===== src/Fs/Alloc/Tests.antt =====
-- The theorems about the block allocator of kernel/fs.c at a disk of four blocks: 0 to 2 are marked
-- in the free map, which is block 2, and 3 is free.
use fyp_os.Prelude.{ℕ, ◌≡◌, ◌⊎◌, refl, some, none, true, false, ◌==◌, if◌then◌else◌, arith}
use fyp_os.Blocks.{Blocks, bread}
use fyp_os.Log.{Log, initial}
use fyp_os.Fs.{Superblock}
use fyp_os.Fs.Bits.{in_use, test_bit}
use fyp_os.Fs.Alloc.{balloc, bfree}
use fyp_os.Fs.Alloc.Count.{allocated}
use fyp_os.Fs.Alloc.Give.{Released, bfree_lem}
use fyp_os.Fs.Alloc.Take.{HasRoom, IsMapped, IsFull, HandsOut, balloc_lem}

abbrev small_disk : Blocks
small_disk = record {
  disk = λ b i.
      if b == 1
      then (if i == 4 then 4 else if i == 28 then 2 else 0)
      else if b == 2
      then (if i == 0 then 7 else 0)
      else 0;
  pinned = λ b. none;
  budget = 9;
}

abbrev log : Log
log = record (initial 10 31) { outstanding = 1 }

abbrev sb : Superblock
sb = record {
  magic = 0x10203040;
  size = 4;
  nblocks = 0;
  ninodes = 0;
  nlog = 0;
  logstart = 0;
  inodestart = 0;
  bmapstart = 2;
}

room : HasRoom 2 log
room = record { slots = omega arith; large = omega arith; inside = omega arith }

bitmap_marked : (b : ℕ) → b ≡ 2 → allocated sb small_disk b ≡ true
unfolding bread in_use test_bit
bitmap_marked b e = rw e refl

mapped : IsMapped sb small_disk
unfolding bread
mapped = record {
  marked = λ b lt. bitmap_marked _ (omega arith);
  inside = λ b lt. omega arith;
  bytes = λ b i. ground arith;
}

balloc_lem_example :
    IsFull sb log small_disk (balloc 2 sb log small_disk)
    ⊎ HandsOut sb 0 small_disk (balloc 2 sb log small_disk)
balloc_lem_example = balloc_lem sb 0 2 log small_disk room mapped (omega arith) (omega arith)

bfree_lem_example :
    ((allocated sb small_disk 1 ≡ true)
      × (l' : Log) × (s' : Blocks) × (bfree sb 1 log small_disk ≡ some (l', s'))
      × Released sb 1 small_disk s')
    ⊎ ((allocated sb small_disk 1 ≡ false) × (bfree sb 1 log small_disk ≡ none))
bfree_lem_example =
    bfree_lem sb 1 log small_disk
      (record { slots = omega arith; large = omega arith; inside = omega arith }) (mapped.bytes _)
