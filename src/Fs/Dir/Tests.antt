-- ===== src/Fs/Dir/Tests.antt =====
-- The theorem about dirlookup at a directory of one entry, "a" for inode 7, in block 3.
use fyp_os.Prelude.{
  ℕ, ◌*◌, ◌≡◌, ◌<◌, ◌⊎◌, refl, some, none, true, [], ◌∷◌, Bytes, ◌==◌, if◌then◌else◌, arith, load,
  ◌>>=◌,
}
use fyp_os.Blocks.{Blocks}
use fyp_os.Log.{initial}
use fyp_os.Fs.{Superblock}
use fyp_os.Fs.Inode.{Inode, Files, iget}
use fyp_os.Fs.Content.{Held}
use fyp_os.Fs.Dir.{dirent_size, rounds, dirlookup}
use fyp_os.Fs.Dir.Scan.{IsWhole, Names, dirent_at, dirlookup-Names}

abbrev sb : Superblock
sb = record {
  magic = 0x10203040;
  size = 4;
  nblocks = 0;
  ninodes = 16;
  nlog = 0;
  logstart = 0;
  inodestart = 1;
  bmapstart = 2;
}

abbrev directory : Inode
directory = record {
  dev = 1;
  inum = 1;
  ref = 1;
  valid = true;
  kind = 1;
  major = 0;
  minor = 0;
  nlink = 1;
  size = 16;
  addrs = λ i. if i == 0 then 3 else 0;
}

abbrev one_entry : Blocks
one_entry = record {
  disk = λ b i. if b == 3 then (if i == 0 then 7 else if i == 2 then b'a' else 0) else 0;
  pinned = λ b. none;
  budget = 9;
}

abbrev files : Files
files = record {
  itable = directory ∷ record directory { ref = 0 } ∷ [];
  log = initial 10 31;
  blocks = one_entry;
}

abbrev held : Held
held = record { ip = directory; log = initial 10 31; blocks = one_entry }

whole : IsWhole held
whole = record { bound = omega arith; entries = refl; there = λ i lt. ground arith }

abbrev name : Bytes
name i = if i == 0 then b'a' else 0

dirlookup-Names_example :
    (dirlookup 2 sb 0 name files ≡ some (none, files))
      × ((i : ℕ) → i < rounds held → Names name (dirent_at held (dirent_size * i)) → ⊥)
    ⊎ ((j : ℕ) × (j < rounds held)
        × Names name (dirent_at held (dirent_size * j))
        × ((i : ℕ) → i < j → Names name (dirent_at held (dirent_size * i)) → ⊥)
        × (dirlookup 2 sb 0 name files ≡ (
            iget 1 (load 2 (dirent_at held (dirent_size * j)) 0) files.itable >>= λ (i, t).
            some (some (dirent_size * j, i), record files { itable = t }))))
dirlookup-Names_example = dirlookup-Names 2 sb 0 name files directory refl refl whole
