-- ===== src/Fs/Dir.antt =====
-- The directories of kernel/fs.c: namecmp, dirlookup, dirlink and dirunlink. A directory is a file of
-- 16-byte entries, a two-byte inode number and a name of at most 14 bytes. The inodes in memory are
-- entries of the table; an operation works on the entry of its directory, which its caller has locked.
pub mod Scan
mod Tests
use fyp_os.Prelude.{
  ℕ, zero, suc, ◌+◌, ◌-◌, ◌*◌, ◌/◌, ◌%◌, Bool, true, false, not, ◌&&◌, ◌||◌, Option, none, some,
  Bytes, ltb, ◌==◌, if◌then◌else◌, ◌>>=◌, ◌>>◌, unless, load, store, get_elem?, set, copy_over, ℤ,
  pos, negsuc,
}
use fyp_os.Kstring.{strncmp, strncpy}
use fyp_os.Fs.{Superblock}
use fyp_os.Fs.Inode.{Inode, iget, Files}
use fyp_os.Fs.Content.{Held, Copy, readi, writei, iput}

abbrev pub dirsiz : ℕ
dirsiz = 14

abbrev pub dirent_size : ℕ
dirent_size = 16

abbrev pub t_dir : ℕ
t_dir = 1

-- The kernel copies to and from its own memory; a copy of user addresses plays no part.
abbrev no_copy : Copy
no_copy m d src s n = (false, m)

abbrev pub empty_memory : Bytes
empty_memory i = 0

abbrev pub is_zero : ℤ → Bool
is_zero (pos n) = n == 0
is_zero (negsuc n) = false

-- An entry at 0 with a name beside it at 16.
abbrev pub beside : Bytes → Bytes → Bytes
beside de name = copy_over de dirent_size name 0 dirsiz

-- `namecmp(name, de.name) == 0`
unfoldable pub same_name : Bytes → Bytes → Bool
same_name name de = is_zero (strncmp dirsiz (beside de name) dirent_size 2)

-- The inode `i` of the table as its holder works on it, and the table with what the holder did.
unfoldable pub hold : ℕ → Files → Option Held
hold i fs = elim (get_elem? fs.itable i) [
  | none ↦ none
  | some p ↦ some (record { ip = p; log = fs.log; blocks = fs.blocks })
]

abbrev pub put_back : ℕ → Held → Files → Files
put_back i h fs = record { itable = set (fs.itable) i (h.ip); log = h.log; blocks = h.blocks }

abbrev pub rounds : Held → ℕ
rounds h = (h.ip.size + dirent_size - 1) / dirent_size

-- The tests of `dirlookup` and `dirlink`.
abbrev pub is_entry : Bytes → Bytes → Bool
is_entry name de = not (load 2 de 0 == 0) && same_name name de

abbrev pub is_empty_entry : Bytes → Bool
is_empty_entry de = load 2 de 0 == 0

-- The test of `dirunlink`, which compares the other way round.
abbrev pub is_link : Bytes → Bytes → Bool
is_link name de = is_zero (strncmp dirsiz (beside de name) 2 dirent_size) && not (load 2 de 0 == 0)

module _ (fuel : ℕ) (sb : Superblock) where
  -- `readi` of the entry at `off`; `none` is the panic on a short read.
  unfoldable pub read_entry : ℕ → Held → Option (Bytes × Held)
  read_entry off h = readi fuel sb no_copy false 0 off dirent_size empty_memory h >>= λ (r, de, h').
      elim r [ none ↦ none | some tot ↦ if tot == dirent_size then some (de, h') else none ]

  -- The first entry with at most `k` rounds left from `off` on that passes the test, with its offset;
  -- all three loops below search so.
  unfoldable pub scan : (Bytes → Bool) → ℕ → ℕ → Held → Option (Option (ℕ × Bytes) × Held)
  scan test zero off h = some (none, h)
  scan test (suc k) off h =
      let round = read_entry off h >>= λ (de, h').
      let rest = scan test k (off + dirent_size) h' in
      if test de then some (some (off, de), h') else rest in
      if ltb off h.ip.size then round else some (none, h)

  -- `dirlookup`: the offset of the entry and the inode in the table, or none for 0.
  unfoldable pub dirlookup : ℕ → Bytes → Files → Option (Option (ℕ × ℕ) × Files)
  dirlookup dp name fs = hold dp fs >>= λ h.
      unless (not (h.ip.kind == t_dir))
      >> (scan (is_entry name) (rounds h) 0 h >>= λ (r, h').
          let fs1 = put_back dp h' fs in
          elim r [
            | none ↦ some (none, fs1)
            | some (off, de) ↦ iget h'.ip.dev (load 2 de 0) fs1.itable >>= λ (i, t).
                some (some (off, i), record fs1 { itable = t })
          ])

  -- `writei` of the entry `de` at `off`: whether all of it was written.
  unfoldable pub write_entry : ℕ → ℕ → Bytes → Files → Option (Bool × Files)
  write_entry dp off de fs = hold dp fs >>= λ h.
      writei fuel sb no_copy false 0 off dirent_size de h >>= λ (r, h').
      some (elim r [ none ↦ false | some tot ↦ tot == dirent_size ], put_back dp h' fs)

  -- The second half of `dirlink`: an empty entry, or the end of the directory, takes the name.
  unfoldable pub add_entry : ℕ → Bytes → ℕ → Files → Option (Bool × Files)
  add_entry dp name inum fs = hold dp fs >>= λ h. scan is_empty_entry (rounds h) 0 h >>= λ (r, h').
      let off : ℕ = elim r [ none ↦ rounds h * dirent_size | some (off, de) ↦ off ] in
      let old : Bytes = elim r [ none ↦ empty_memory | some (off, de) ↦ de ] in
      let named = strncpy dirsiz (beside old name) 2 dirent_size in
      write_entry dp off (store 2 named 0 inum) (put_back dp h' fs)

  -- `dirlink`: whether it returns 0.
  unfoldable pub dirlink : ℕ → Bytes → ℕ → Files → Option (Bool × Files)
  dirlink dp name inum fs = dirlookup dp name fs >>= λ (r, fs1). elim r [
    | some (off, i) ↦ iput sb i fs1 >>= λ fs2. some (false, fs2)
    | none ↦ add_entry dp name inum fs1
  ]

  -- `dirunlink`: whether it returns 0.
  unfoldable pub dirunlink : ℕ → Bytes → Files → Option (Bool × Files)
  dirunlink dp name fs = hold dp fs >>= λ h. scan (is_link name) (rounds h) 0 h >>= λ (r, h').
      let fs1 = put_back dp h' fs in
      elim r [ none ↦ some (false, fs1) | some (off, de) ↦ write_entry dp off (store 2 de 0 0) fs1 ]
