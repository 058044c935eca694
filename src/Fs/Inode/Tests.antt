-- ===== src/Fs/Inode/Tests.antt =====
-- The theorems about the inodes of kernel/fs.c at a small disk and a table of two entries.
use fyp_os.Prelude.{
  ℕ, ◌≡◌, ◌⊎◌, ◌≤◌, refl, some, none, true, false, [], ◌∷◌, List, arith, get_elem?,
}
use fyp_os.Blocks.{Blocks, boot}
use fyp_os.Log.{Log, initial}
use fyp_os.Fs.{Superblock}
use fyp_os.Fs.Inode.{Inode, iupdate, ilock, iget, is_for}
use fyp_os.Fs.Inode.Dinode.{SameDinode, ilock-iupdate}
use fyp_os.Fs.Inode.Table.{Found, IsSingle, iget-Found}

abbrev sb : Superblock
sb = record {
  magic = 0x10203040;
  size = 4;
  nblocks = 0;
  ninodes = 16;
  nlog = 0;
  logstart = 0;
  inodestart = 1;
  bmapstart = 2;
}

abbrev zeros : Blocks
zeros = boot (λ b i. 0) 9

abbrev log : Log
log = record (initial 10 31) { outstanding = 1 }

abbrev file : Inode
file = record {
  dev = 1;
  inum = 5;
  ref = 1;
  valid = true;
  kind = 2;
  major = 0;
  minor = 0;
  nlink = 1;
  size = 300;
  addrs = λ i. 3;
}

abbrev stale : Inode
stale = record {
  dev = 1;
  inum = 5;
  ref = 1;
  valid = false;
  kind = 0;
  major = 0;
  minor = 0;
  nlink = 0;
  size = 0;
  addrs = λ i. 0;
}

ilock-iupdate_example :
    (l' : Log) × (s' : Blocks) × (q : Inode) × (iupdate sb file log zeros ≡ some (l', s'))
    × (ilock sb stale s' ≡ some q)
    × SameDinode q file
    × (q.valid ≡ true)
    × (q.ref ≡ 1)
ilock-iupdate_example =
    ilock-iupdate 0 sb file stale log zeros
      (record { slots = omega arith; large = omega arith; inside = omega arith })
      (record {
        kind = omega arith;
        major = omega arith;
        minor = omega arith;
        nlink = omega arith;
        size = omega arith;
        addrs = λ i. omega arith;
      })
      (omega arith) refl refl (omega arith)

abbrev table : List Inode
table = file ∷ record stale { ref = 0 } ∷ []

single : IsSingle table
single dev inum i j p q at at' h h' = ground arith

iget-Found_example :
    (iget 1 7 table ≡ none)
      × ((j : ℕ) (q : Inode) → get_elem? table j ≡ some q → (is_for 1 7 q ≡ false) × (1 ≤ q.ref))
    ⊎ ((i : ℕ) × (t' : List Inode) × (iget 1 7 table ≡ some (i, t')) × Found 1 7 i table t')
iget-Found_example = iget-Found 1 7 table single
