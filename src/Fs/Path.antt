-- ===== src/Fs/Path.antt =====
-- The paths of kernel/fs.c: skipelem, namex, namei, nameiparent and rename. A path is the list of its
-- bytes up to the NUL; a name is the first 14 bytes of an element of it.
pub mod Elements
mod Tests
use fyp_os.Prelude.{
  ℕ, zero, suc, ◌+◌, ◌-◌, Bool, true, false, not, ◌&&◌, ◌||◌, Option, none, some, List, [], ◌∷◌,
  length, get_or, Bytes, ltb, ◌==◌, if◌then◌else◌, ◌>>=◌, ◌>>◌, unless, get_elem?, set,
}
use fyp_os.Log.{begin_op, end_op}
use fyp_os.Fs.{Superblock}
use fyp_os.Fs.Inode.{Inode, iget, idup, ilock, iunlock, Files}
use fyp_os.Fs.Content.{iput}
use fyp_os.Fs.Dir.{dirsiz, t_dir, dirlookup, dirlink, dirunlink}

abbrev pub slash : ℕ
slash = b'/'

-- The loops of `skipelem`: past the slashes; the bytes before the next slash; and what follows them.
unfoldable pub skip_slashes : List ℕ → List ℕ
skip_slashes [] = []
skip_slashes (c ∷ path) = if c == slash then skip_slashes path else c ∷ path

unfoldable pub element : List ℕ → List ℕ
element [] = []
element (c ∷ path) = if c == slash then [] else c ∷ element path

unfoldable pub after_element : List ℕ → List ℕ
after_element [] = []
after_element (c ∷ path) = if c == slash then c ∷ path else after_element path

-- The part of an element that goes into a name.
abbrev pub cut : ℕ → List ℕ → List ℕ
cut zero cs = []
cut (suc n) [] = []
cut (suc n) (c ∷ cs) = c ∷ cut n cs

abbrev pub is_end : List ℕ → Bool
is_end [] = true
is_end (_ ∷ _) = false

-- `skipelem`: the name and the rest of the path, or none for 0.
unfoldable pub skipelem : List ℕ → Option (List ℕ × List ℕ)
skipelem path =
    let p = skip_slashes path in
    if is_end p then none else some (cut dirsiz (element p), skip_slashes (after_element p))

-- A name in memory, with NULs behind it.
abbrev pub name_bytes : List ℕ → Bytes
name_bytes cs i = get_or cs i 0

module _ (fuel : ℕ) (sb : Superblock) (rootdev rootino : ℕ) where
  -- The inode `ip` locked, and unlocked and put.
  unfoldable pub lock_entry : ℕ → Files → Option Files
  lock_entry i fs = elim (get_elem? fs.itable i) [
    | none ↦ none
    | some p ↦ ilock sb p fs.blocks >>= λ q. some (record fs { itable = set (fs.itable) i q })
  ]

  unfoldable pub iunlockput : ℕ → Files → Option Files
  iunlockput i fs = elim (get_elem? fs.itable i) [
    | none ↦ none
    | some p ↦ iunlock true p >>= λ q. iput sb i fs
  ]

  abbrev pub kind_of : ℕ → Files → ℕ
  kind_of i fs = elim (get_elem? fs.itable i) [ none ↦ 0 | some p ↦ p.kind ]

  -- The loop of `namex` from the inode `ip` on, on fuel for the path's elements and one round more:
  -- the inode, with the name that is left for a parent, or none for 0.
  unfoldable pub namex_loop :
      ℕ → Bool → List ℕ → List ℕ → ℕ → Files → Option (Option (ℕ × List ℕ) × Files)
  namex_loop zero parent path name ip fs = none
  namex_loop (suc k) parent path name ip fs = elim (skipelem path) [
    | none ↦
        if parent then (iput sb ip fs >>= λ fs1. some (none, fs1)) else some (some (ip, name), fs)
    | some (name', rest) ↦ lock_entry ip fs >>= λ fs1.
        let no_dir = iunlockput ip fs1 >>= λ fs2. some (none, fs2) in
        let walk = dirlookup fuel sb ip (name_bytes name') fs1 >>= λ (r, fs2).
        iunlockput ip fs2 >>= λ fs3. elim r [
          | none ↦ some (none, fs3)
          | some (off, next) ↦ namex_loop k parent rest name' next fs3
        ] in
        if not (kind_of ip fs1 == t_dir)
        then no_dir
        else if parent && is_end rest
        then some (some (ip, name'), fs1)
        else walk
  ]

  abbrev pub is_rooted : List ℕ → Bool
  is_rooted [] = false
  is_rooted (c ∷ _) = c == slash

  -- `namex` by a process whose current directory is `cwd`.
  unfoldable pub namex : Bool → List ℕ → ℕ → Files → Option (Option (ℕ × List ℕ) × Files)
  namex parent path cwd fs =
      let start =
        if is_rooted path then iget rootdev rootino fs.itable else some (cwd, idup cwd fs.itable) in
      start >>= λ (ip, t). namex_loop (length path + 1) parent path [] ip (record fs { itable = t })

  unfoldable pub namei : List ℕ → ℕ → Files → Option (Option ℕ × Files)
  namei path cwd fs = namex false path cwd fs >>= λ (r, fs1).
      some (elim r [ none ↦ none | some (ip, name) ↦ some ip ], fs1)

  unfoldable pub nameiparent : List ℕ → ℕ → Files → Option (Option (ℕ × List ℕ) × Files)
  nameiparent path cwd fs = namex true path cwd fs

  -- `rename` between its `begin_op` and `end_op`: whether it returns 0.
  unfoldable pub rename_within : List ℕ → List ℕ → ℕ → Files → Option (Bool × Files)
  rename_within old new cwd fs = nameiparent old cwd fs >>= λ (r, fs1). elim r [
    | none ↦ some (false, fs1)
    | some (old_dp, old_name) ↦ namei old cwd fs1 >>= λ (r', fs2). elim r' [
      | none ↦ some (false, fs2)
      | some ip ↦ do
        fs3 ← lock_entry ip fs2
        p ← get_elem? (fs3.itable) ip
        (linked, fs4) ← dirlink fuel sb old_dp (name_bytes new) (p.inum) fs3
        if not linked then (iunlockput ip fs4 >>= λ fs5. some (false, fs5)) else (do
          fs5 ← lock_entry old_dp fs4
          (unlinked, fs6) ← dirunlink fuel sb old_dp (name_bytes old_name) fs5
          if not unlinked
              then (do
                (undone, fs7) ← dirunlink fuel sb old_dp (name_bytes new) fs6
                fs8 ← iunlockput old_dp fs7
                some (false, fs8))
              else (do fs7 ← iunlockput ip fs6; fs8 ← iunlockput old_dp fs7; some (true, fs8)))
    ]
  ]

  -- `rename`; `none` is a panic, or that `begin_op` waits.
  unfoldable pub rename : List ℕ → List ℕ → ℕ → Files → Option (Bool × Files)
  rename old new cwd fs = do
    l ← begin_op (fs.log)
    (ok, fs1) ← rename_within old new cwd (record fs { log = l })
    (l', s') ← end_op (fs1.log) (fs1.blocks)
    some (ok, record fs1 { log = l'; blocks = s' })
