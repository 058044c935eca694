-- ===== src/Fs/Content/Tests.antt =====
-- The theorems about the contents of inodes at a disk of four blocks: 0 to 2 are marked in the free
-- map, which is block 2, and 3 is free.
use fyp_os.Prelude.{
  ℕ, ◌+◌, ◌-◌, ◌≤◌, ◌⊎◌, inr, min, copy_over, ◌%◌, ◌≡◌, refl, some, none, true, false, Bytes, ◌==◌,
  if◌then◌else◌, arith,
}
use fyp_os.Blocks.{Blocks, bread}
use fyp_os.Log.{Log, initial}
use fyp_os.Fs.{Superblock}
use fyp_os.Fs.Bits.{in_use, test_bit}
use fyp_os.Fs.Alloc.Count.{allocated}
use fyp_os.Fs.Alloc.Take.{IsMapped}
use fyp_os.Fs.Inode.{Inode}
use fyp_os.Fs.Content.{Held, Copy, bmap, readi, writei}
use fyp_os.Fs.Content.Map.{block_of, IsPlaced, Mapped}
use fyp_os.Fs.Content.Whole.{IsWhole, IsOther}
use fyp_os.Fs.Content.Write.{CopiesOrFails, Stopped}
use fyp_os.Fs.Content.Written.{Written, writei-Written, writei-readi}
use fyp_os.Fs.Content.Bmap.{bmap-Mapped}
use fyp_os.Fs.Content.Read.{file_over, readi-file_over}

abbrev small_disk : Blocks
small_disk = record {
  disk = λ b i. if b == 2 then (if i == 0 then 7 else 0) else if b == 3 then i % 100 else 0;
  pinned = λ b. none;
  budget = 9;
}

abbrev log : Log
log = record (initial 10 31) { outstanding = 1 }

abbrev sb : Superblock
sb = record {
  magic = 0x10203040;
  size = 4;
  nblocks = 0;
  ninodes = 16;
  nlog = 0;
  logstart = 0;
  inodestart = 1;
  bmapstart = 2;
}

abbrev empty_file : Inode
empty_file = record {
  dev = 1;
  inum = 5;
  ref = 1;
  valid = true;
  kind = 2;
  major = 0;
  minor = 0;
  nlink = 1;
  size = 0;
  addrs = λ i. 0;
}

abbrev held : Held
held = record { ip = empty_file; log = log; blocks = small_disk }

bitmap_marked : (b : ℕ) → b ≡ 2 → allocated sb small_disk b ≡ true
unfolding bread in_use test_bit
bitmap_marked b e = rw e refl

mapped : IsMapped sb small_disk
unfolding bread
mapped = record {
  marked = λ b lt. bitmap_marked _ (omega arith);
  inside = λ b lt. omega arith;
  bytes = λ b i. ground arith;
}

placed : IsPlaced sb held
unfolding bread in_use test_bit
placed = record {
  boot = refl;
  marked = λ ne. absurd (ne refl);
  inside = λ ne. absurd (ne refl);
  apart = λ ne. absurd (ne refl);
}

bmap-Mapped_example :
    (addr : ℕ) × (h' : Held) × (bmap 2 sb 20 held ≡ some (addr, h')) × Mapped sb 0 20 addr held h'
bmap-Mapped_example =
    bmap-Mapped sb 2 (omega arith) (omega arith) 0 20 held
      (record { slots = omega arith; large = omega arith; inside = omega arith }) mapped placed
      (omega arith)

abbrev one_block : Held
one_block = record {
  ip = record empty_file { size = 300; addrs = λ i. 3 };
  log = log;
  blocks = small_disk;
}

abbrev never : Copy
never m d src s n = (false, m)

readi-file_over_example :
    (mem' : Bytes) × (readi 2 sb never false 50 250 100 (λ i. 0) one_block
      ≡ some (some 50, mem', one_block))
    × ((a : ℕ) → mem' a ≡ file_over (λ i. 0) 50 one_block 250 50 a)
readi-file_over_example =
    readi-file_over 2 sb never false (λ m d src s n. refl) one_block 50 250 100 (λ i. 0)
      (omega arith) (λ i lt. ground arith) (omega arith)

no_blocks : (k : ℕ) → block_of empty_file small_disk k ≡ 0
no_blocks k = ground arith

held-IsWhole : IsWhole sb held
held-IsWhole = record {
  mapped = mapped;
  placed = placed;
  own = λ k lt ne. absurd (ne (no_blocks k));
  distinct = λ j k lj lk ne e. absurd (ne (no_blocks j));
}

-- Block 1 holds the inode.
inode_block : IsOther sb held 1
unfolding bread in_use test_bit
inode_block = record {
  own = record {
    inside = omega arith;
    marked = refl;
    apart = λ e. absurd (omega arith);
    no_map = λ d lt e. absurd (omega arith);
  };
  differs = λ k lt e. absurd (omega (arith, no_blocks k));
}

-- A user's copy that takes the first two bytes and fails.
abbrev partly : Copy
partly m d from s n = (false, copy_over m d from s (min n 2))

honest : CopiesOrFails sb (λ i. 65) 2 (omega arith) (omega arith) partly true
honest m d from s n = inr (min n 2, omega arith, refl)

writei-Written_example :
    (t j : ℕ) × (h' : Held) × (t + j ≤ 5)
    × (writei 2 sb partly true 7 0 5 (λ i. 65) held ≡ some (some t, h'))
    × Written sb (λ i. 65) 7 0 t j held h'
    × ((t ≡ 5) × (j ≡ 0)
        ⊎ Stopped sb
            (λ i. 65)
            2
            (omega arith)
            (omega arith)
            partly
            true
            (7 + t)
            (0 + t)
            (5 - t)
            j
            h')
writei-Written_example =
    writei-Written sb (λ i. 65) 2 (omega arith) (omega arith) partly true 1 7 0 5 held honest
      (λ i. omega arith) held-IsWhole inode_block (omega arith) (omega arith) (inr (omega arith))
      (record { slots = omega arith; large = omega arith; inside = omega arith })

writei-readi_example :
    (t j : ℕ) × (h' : Held) × (back : Bytes) × (t + j ≤ 5)
    × ((t ≡ 5) × (j ≡ 0)
        ⊎ Stopped sb
            (λ i. 65)
            2
            (omega arith)
            (omega arith)
            partly
            true
            (7 + t)
            (0 + t)
            (5 - t)
            j
            h')
    × (writei 2 sb partly true 7 0 5 (λ i. 65) held ≡ some (some t, h'))
    × (readi 2 sb never false 90 0 t (λ i. 0) h' ≡ some (some t, back, h'))
    × ((a : ℕ) → back a ≡ copy_over (λ i. 0) 90 (λ i. 65) 7 t a)
writei-readi_example =
    writei-readi sb (λ i. 65) 2 (omega arith) (omega arith) partly true 1 7 0 5 90 held (λ i. 0)
      never false honest (λ m d from s n. refl) (λ i. omega arith) held-IsWhole inode_block
      (omega arith) (omega arith) (λ i lt. absurd (omega arith)) (omega arith) (inr (omega arith))
      (record { slots = omega arith; large = omega arith; inside = omega arith })
