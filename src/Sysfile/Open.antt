-- ===== src/Sysfile/Open.antt =====
-- create, mkdir, mknod and open of kernel/sysfile.c. `itable` indices stand for `struct inode *`.
use fyp_os.Prelude.{
  ℕ, ◌/◌, ◌%◌, ◌^◌, Bool, true, false, not, ◌&&◌, ◌||◌, Option, none, some, List, ◌==◌, ltb,
  if◌then◌else◌, ◌>>=◌, get_elem?, modify,
}
use fyp_os.Fs.{Superblock}
use fyp_os.Fs.Inode.{Inode, Files, ialloc}
use fyp_os.Fs.Content.{itrunc, stati}
use fyp_os.Fs.Dir.{t_dir, hold, put_back, dirlookup, dirlink}
use fyp_os.Fs.Path.{name_bytes, lock_entry, iunlockput, kind_of, namei, nameiparent}
use fyp_os.File.{File, Release, nothing, fd_device, fd_inode, World, filealloc, fileclose, fdalloc}
use fyp_os.Sysfile.{Sys, in_op, one_more, dot, dot_dot, change_inode, unlock_entry}

abbrev pub t_file : ℕ
t_file = 2

abbrev pub t_device : ℕ
t_device = 3

-- NDEV of kernel/param.h
abbrev pub ndev : ℕ
ndev = 10

-- The bits of kernel/fcntl.h in an open mode.
abbrev pub has_bit : ℕ → ℕ → Bool
has_bit k omode = omode / 2 ^ k % 2 == 1

abbrev pub wronly : ℕ → Bool
wronly = has_bit 0

abbrev pub rdwr : ℕ → Bool
rdwr = has_bit 1

abbrev pub o_create : ℕ → Bool
o_create = has_bit 9

abbrev pub o_trunc : ℕ → Bool
o_trunc = has_bit 10

-- A number below 0 is a bit pattern from 2 ^ 15 on, and not below NDEV either.
abbrev pub is_major : ℕ → Bool
is_major major = ltb major ndev

-- A descriptor and a file for it; where there is no descriptor the file is closed again, and what
-- `fileclose` then lets go is in the result.
unfoldable pub take_descriptor :
    Option ℕ × List File → World → Option (Option (ℕ × ℕ) × Release × World)
take_descriptor (none, t) w = some (none, nothing, record w { ftable = t })
take_descriptor (some f, t) w = elim (fdalloc f w.ofile) [
  | some (fd, ofile) ↦ some (some (fd, f), nothing, record { ftable = t; ofile = ofile })
  | none ↦ fileclose f t >>= λ (r, t'). some (none, r, record w { ftable = t' })
]

unfoldable pub take_file : World → Option (Option (ℕ × ℕ) × Release × World)
take_file w = take_descriptor (filealloc w.ftable) w

-- The fields that `sys_open` gives to the file of the inode `p` at index `ip`.
unfoldable pub opened : ℕ → ℕ → Inode → File → File
opened omode ip p f =
    let append = not (o_trunc omode) && (wronly omode || rdwr omode) in
    let typed : File =
      if p.kind == t_device
      then record f { kind = fd_device; major = p.major }
      else record f { kind = fd_inode; off = if append then (stati p).size else 0 } in
    record typed { ip = ip; readable = not (wronly omode); writable = wronly omode || rdwr omode }

module _ (fuel : ℕ) (sb : Superblock) (rootdev rootino : ℕ) where
  -- The lines under `fail` of `create`.
  unfoldable pub create_fail : ℕ → ℕ → Files → Option (Option ℕ × Files)
  create_fail dp ip fs = do
    fs1 ← change_inode fuel sb rootdev rootino (λ p. record p { nlink = 0 }) ip fs
    fs2 ← iunlockput fuel sb rootdev rootino ip fs1
    fs3 ← iunlockput fuel sb rootdev rootino dp fs2
    some (none, fs3)

  -- The entries "." and ".." of the new directory `ip`.
  unfoldable pub link_dots : ℕ → ℕ → ℕ → ℕ → Files → Option (Bool × Files)
  link_dots ip inum parent kind fs =
      let both = dirlink fuel sb ip (name_bytes dot) inum fs >>= λ (ok, fs1).
      let second = dirlink fuel sb ip (name_bytes dot_dot) parent fs1 in
      if ok then second else some (false, fs1) in
      if kind == t_dir then both else some (true, fs)

  -- `create` for the new inode `ip` with number `inum`, in the directory `dp` with number `parent`.
  unfoldable pub create_new : ℕ → ℕ → List ℕ → ℕ → ℕ → ℕ → ℕ → ℕ → Files → Option (Option ℕ × Files)
  create_new dp parent name ip inum kind major minor fs = do
    fs1 ← lock_entry fuel sb rootdev rootino ip fs
    fs2 ←
        change_inode fuel sb rootdev rootino
          (λ p. record p { major = major; minor = minor; nlink = 1 }) ip fs1
    (dots, fs3) ← link_dots ip inum parent kind fs2
    if not dots then create_fail dp ip fs3 else (do
      (linked, fs4) ← dirlink fuel sb dp (name_bytes name) inum fs3
      if not linked then create_fail dp ip fs4 else (do
        fs5 ←
            if kind == t_dir then change_inode fuel sb rootdev rootino one_more dp fs4 else some fs4
        fs6 ← iunlockput fuel sb rootdev rootino dp fs5
        some (some ip, fs6)))

  -- `create` where the name is there already.
  unfoldable pub create_found : ℕ → ℕ → ℕ → Files → Option (Option ℕ × Files)
  create_found dp ip kind fs = do
    fs1 ← iunlockput fuel sb rootdev rootino dp fs
    fs2 ← lock_entry fuel sb rootdev rootino ip fs1
    let old = kind_of fuel sb rootdev rootino ip fs2
    if (kind == t_file) && ((old == t_file) || (old == t_device))
        then some (some ip, fs2)
        else (iunlockput fuel sb rootdev rootino ip fs2 >>= λ fs3. some (none, fs3))

  -- `create`: the locked inode, or none for 0.
  unfoldable pub create : List ℕ → ℕ → ℕ → ℕ → ℕ → Files → Option (Option ℕ × Files)
  create path kind major minor cwd fs =
      nameiparent fuel sb rootdev rootino path cwd fs >>= λ (r, fs1). elim r [
        | none ↦ some (none, fs1)
        | some (dp, name) ↦ lock_entry fuel sb rootdev rootino dp fs1 >>= λ fs2.
            dirlookup fuel sb dp (name_bytes name) fs2 >>= λ (found, fs3). elim found [
              | some (off, ip) ↦ create_found dp ip kind fs3
              | none ↦ elim (get_elem? fs3.itable dp) [
                | none ↦ none
                | some d ↦ ialloc sb d.dev kind fs3 >>= λ (new, fs4). elim new [
                  | none ↦ iunlockput fuel sb rootdev rootino dp fs4 >>= λ fs5. some (none, fs5)
                  | some ip ↦ elim (get_elem? fs4.itable ip) [
                    | none ↦ none
                    | some p ↦ create_new dp d.inum name ip p.inum kind major minor fs4
                  ]
                ]
              ]
            ]
      ]

  -- The new inode let go again, as mkdir and mknod do.
  unfoldable pub make : Option (List ℕ) → ℕ → ℕ → ℕ → ℕ → Files → Option (Bool × Files)
  make path kind major minor cwd fs = elim path [
    | none ↦ some (false, fs)
    | some path' ↦ create path' kind major minor cwd fs >>= λ (r, fs1). elim r [
      | none ↦ some (false, fs1)
      | some ip ↦ iunlockput fuel sb rootdev rootino ip fs1 >>= λ fs2. some (true, fs2)
    ]
  ]

  unfoldable pub sys_mkdir : Option (List ℕ) → Sys → Option (Bool × Sys)
  sys_mkdir path s =
      in_op (make path t_dir 0 0 s.cwd) s.files >>= λ (ok, fs). some (ok, record s { files = fs })

  -- `create` is called with shorts.
  unfoldable pub sys_mknod : Option (List ℕ) → ℕ → ℕ → Sys → Option (Bool × Sys)
  sys_mknod path major minor s =
      in_op (make path t_device (major % 2 ^ 16) (minor % 2 ^ 16) s.cwd) s.files >>= λ (ok, fs).
      some (ok, record s { files = fs })

  -- The inode that `sys_open` opens, locked; none where it fails.
  unfoldable pub open_inode : List ℕ → ℕ → ℕ → Files → Option (Option ℕ × Files)
  open_inode path omode cwd fs =
      let found = namei fuel sb rootdev rootino path cwd fs >>= λ (r, fs1). elim r [
        | none ↦ some (none, fs1)
        | some ip ↦ lock_entry fuel sb rootdev rootino ip fs1 >>= λ fs2.
            let refused = iunlockput fuel sb rootdev rootino ip fs2 >>= λ fs3. some (none, fs3) in
            if (kind_of fuel sb rootdev rootino ip fs2 == t_dir) && not (omode == 0)
            then refused
            else some (some ip, fs2)
      ] in
      if o_create omode then create path t_file 0 0 cwd fs else found

  -- `itrunc` of a file that is opened to be truncated.
  unfoldable pub truncate : ℕ → ℕ → Inode → Files → Option Files
  truncate omode ip p fs =
      let cut = hold ip fs >>= λ h. itrunc sb h >>= λ h'. some (put_back ip h' fs) in
      if not (p.kind == t_device) && (o_trunc omode && (p.kind == t_file)) then cut else some fs

  -- `sys_open` within its operation: the descriptor, or none for -1.
  unfoldable pub open_within :
      List ℕ → ℕ → ℕ → World → Files → Option ((Option ℕ × Release × World) × Files)
  open_within path omode cwd w fs = open_inode path omode cwd fs >>= λ (r, fs1). elim r [
    | none ↦ some ((none, nothing, w), fs1)
    | some ip ↦ elim (get_elem? fs1.itable ip) [
      | none ↦ none
      | some p ↦
          let refused : Release → World → Option ((Option ℕ × Release × World) × Files) = λ r' w'.
            iunlockput fuel sb rootdev rootino ip fs1 >>= λ fs2. some ((none, r', w'), fs2) in
          let taken = take_file w >>= λ (got, r', w1). elim got [
            | none ↦ refused r' w1
            | some (fd, f) ↦ do
              fs2 ← truncate omode ip p fs1
              fs3 ← unlock_entry fuel sb rootdev rootino ip fs2
              some (
                (some fd, r', record w1 { ftable = modify w1.ftable f (opened omode ip p) }),
                fs3,
              )
          ] in
          if (p.kind == t_device) && not (is_major p.major) then refused nothing w else taken
    ]
  ]

  -- `sys_open`: the descriptor, or none for -1, and what is released.
  unfoldable pub sys_open : Option (List ℕ) → ℕ → Sys → Option (Option ℕ × Release × Sys)
  sys_open path omode s = elim path [
    | none ↦ some (none, nothing, s)
    | some path' ↦ in_op (open_within path' omode s.cwd s.world) s.files >>= λ ((fd, r, w), fs).
        some (fd, r, record s { files = fs; world = w })
  ]
