-- ===== src/Sysfile.antt =====
-- The calls of kernel/sysfile.c that name files: link, unlink and chdir here, create, mkdir, mknod and
-- open in Open, the reads and writes of open files in Io, and pipes in Pipes. A path is none where the
-- copy of it from the user fails. `none` is a panic, or that `begin_op` waits.
pub mod Open
pub mod Taken
pub mod Io
pub mod Pipes
mod Tests
use fyp_os.Prelude.{
  ℕ, ◌+◌, ◌-◌, ◌*◌, ◌%◌, ◌^◌, Bool, true, false, not, ◌&&◌, ◌||◌, Option, none, some, List, [], ◌∷◌,
  Bytes, ◌==◌, ltb, leb, if◌then◌else◌, ◌>>=◌, ◌>>◌, unless, get_elem?, modify, load, copy_over,
}
use fyp_os.Kstring.{strncmp}
use fyp_os.Log.{begin_op, end_op}
use fyp_os.Fs.{Superblock}
use fyp_os.Fs.Inode.{Inode, Files, iunlock, iupdate}
use fyp_os.Fs.Content.{Held, iput}
use fyp_os.Fs.Dir.{
  dirsiz, dirent_size, t_dir, empty_memory, is_zero, hold, put_back, rounds, scan, dirlookup,
  dirlink, write_entry,
}
use fyp_os.Fs.Path.{name_bytes, lock_entry, iunlockput, kind_of, namei, nameiparent}
use fyp_os.File.{World}

-- What the calls of one process work on: the files on the disk and in memory, the open files and the
-- current directory.
pub record Sys : Type 0 where
  pub files : Files
  pub world : World
  pub cwd : ℕ

-- An operation of the log; every way out of `body` leads to its `end_op`.
abbrev pub in_op {ℓ} : {A : Type ℓ} → (Files → Option (A × Files)) → Files → Option (A × Files)
in_op body fs = begin_op fs.log >>= λ l. body (record fs { log = l }) >>= λ (r, fs1).
    end_op fs1.log fs1.blocks >>= λ (l', s'). some (r, record fs1 { log = l'; blocks = s' })

-- `nlink++` and `nlink--` of a short.
abbrev pub one_more : Inode → Inode
one_more p = record p { nlink = (p.nlink + 1) % 2 ^ 16 }

abbrev pub one_less : Inode → Inode
one_less p = record p { nlink = (p.nlink + 2 ^ 16 - 1) % 2 ^ 16 }

-- `namecmp(name, s) == 0`
abbrev pub is_name : List ℕ → List ℕ → Bool
is_name s name =
    is_zero (
      strncmp dirsiz (copy_over (name_bytes s) dirent_size (name_bytes name) 0 dirsiz) dirent_size
        0)

abbrev pub dot : List ℕ
dot = b'.' ∷ []

abbrev pub dot_dot : List ℕ
dot_dot = b'.' ∷ b'.' ∷ []

module _ (fuel : ℕ) (sb : Superblock) (rootdev rootino : ℕ) where
  -- A change `f` to a locked inode, and its `iupdate`.
  unfoldable pub change_inode : (Inode → Inode) → ℕ → Files → Option Files
  change_inode f i fs = elim (get_elem? fs.itable i) [
    | none ↦ none
    | some p ↦ iupdate sb (f p) fs.log fs.blocks >>= λ (l, s).
        some (record { itable = modify fs.itable i f; log = l; blocks = s })
  ]

  unfoldable pub unlock_entry : ℕ → Files → Option Files
  unlock_entry i fs = elim (get_elem? fs.itable i) [
    | none ↦ none
    | some p ↦ iunlock true p >>= λ q. some fs
  ]

  -- The lines under `bad` of `sys_link`.
  unfoldable pub unlink_again : ℕ → Files → Option (Bool × Files)
  unlink_again ip fs = do
    fs1 ← lock_entry fuel sb rootdev rootino ip fs
    fs2 ← change_inode one_less ip fs1
    fs3 ← iunlockput fuel sb rootdev rootino ip fs2
    some (false, fs3)

  -- The entry `name` for inode `ip` in the directory `dp`, on the same device.
  unfoldable pub link_entry : ℕ → List ℕ → ℕ → Files → Option (Bool × Files)
  link_entry dp name ip fs = elim (get_elem? fs.itable dp) [
    | none ↦ none
    | some d ↦ elim (get_elem? fs.itable ip) [
      | none ↦ none
      | some p ↦
          let linked = dirlink fuel sb dp (name_bytes name) p.inum fs in
          if not (d.dev == p.dev) then some (false, fs) else linked
    ]
  ]

  -- `sys_link` once `ip` has its new link count.
  unfoldable pub link_to : List ℕ → ℕ → ℕ → Files → Option (Bool × Files)
  link_to new cwd ip fs = nameiparent fuel sb rootdev rootino new cwd fs >>= λ (r, fs1). elim r [
    | none ↦ unlink_again ip fs1
    | some (dp, name) ↦ do
      fs2 ← lock_entry fuel sb rootdev rootino dp fs1
      (linked, fs3) ← link_entry dp name ip fs2
      fs4 ← iunlockput fuel sb rootdev rootino dp fs3
      if linked then (iput sb ip fs4 >>= λ fs5. some (true, fs5)) else unlink_again ip fs4
  ]

  unfoldable pub link_within : List ℕ → List ℕ → ℕ → Files → Option (Bool × Files)
  link_within old new cwd fs = namei fuel sb rootdev rootino old cwd fs >>= λ (r, fs1). elim r [
    | none ↦ some (false, fs1)
    | some ip ↦ lock_entry fuel sb rootdev rootino ip fs1 >>= λ fs2.
        let refused = iunlockput fuel sb rootdev rootino ip fs2 >>= λ fs3. some (false, fs3) in
        let linked = do
          fs3 ← change_inode one_more ip fs2
          fs4 ← unlock_entry ip fs3
          link_to new cwd ip fs4
        in if kind_of fuel sb rootdev rootino ip fs2 == t_dir then refused else linked
  ]

  -- `sys_link`: whether it returns 0.
  unfoldable pub sys_link : Option (List ℕ) → Option (List ℕ) → Sys → Option (Bool × Sys)
  sys_link old new s = elim old [
    | none ↦ some (false, s)
    | some old' ↦ elim new [
      | none ↦ some (false, s)
      | some new' ↦ in_op (link_within old' new' s.cwd) s.files >>= λ (ok, fs).
          some (ok, record s { files = fs })
    ]
  ]

  -- `isdirempty`: no entry behind the first two is in use.
  unfoldable pub isdirempty : ℕ → Files → Option (Bool × Files)
  isdirempty dp fs = hold dp fs >>= λ h.
      scan fuel sb (λ de. not (load 2 de 0 == 0)) (rounds h) (2 * dirent_size) h >>= λ (r, h').
      some (elim r [ none ↦ true | some found ↦ false ], put_back dp h' fs)

  -- `sys_unlink` once the entry at `off` and its locked inode `ip` are found.
  unfoldable pub unlink_entry : ℕ → ℕ → ℕ → Files → Option (Bool × Files)
  unlink_entry dp off ip fs = do
    (ok, fs1) ← write_entry fuel sb dp off empty_memory fs
    unless (not ok)
    fs2 ←
        if kind_of fuel sb rootdev rootino ip fs1 == t_dir
        then change_inode one_less dp fs1
        else some fs1
    fs3 ← iunlockput fuel sb rootdev rootino dp fs2
    fs4 ← change_inode one_less ip fs3
    fs5 ← iunlockput fuel sb rootdev rootino ip fs4
    some (true, fs5)

  unfoldable pub unlink_found : ℕ → ℕ → ℕ → Files → Option (Bool × Files)
  unlink_found dp off ip fs = lock_entry fuel sb rootdev rootino ip fs >>= λ fs1.
      elim (get_elem? fs1.itable ip) [
        | none ↦ none
        | some p ↦
            let refused : Files → Option (Bool × Files) = λ fs2. (do
              fs3 ← iunlockput fuel sb rootdev rootino ip fs2
              fs4 ← iunlockput fuel sb rootdev rootino dp fs3
              some (false, fs4)) in
            let checked = isdirempty ip fs1 >>= λ (empty, fs2).
            if empty then unlink_entry dp off ip fs2 else refused fs2 in
            unless ((p.nlink == 0) || leb (2 ^ 15) p.nlink)
            >> (if p.kind == t_dir then checked else unlink_entry dp off ip fs1)
      ]

  unfoldable pub unlink_within : List ℕ → ℕ → Files → Option (Bool × Files)
  unlink_within path cwd fs = nameiparent fuel sb rootdev rootino path cwd fs >>= λ (r, fs1).
      elim r [
        | none ↦ some (false, fs1)
        | some (dp, name) ↦ lock_entry fuel sb rootdev rootino dp fs1 >>= λ fs2.
            let refused : Files → Option (Bool × Files) =
              λ fs3. iunlockput fuel sb rootdev rootino dp fs3 >>= λ fs4. some (false, fs4) in
            let looked = dirlookup fuel sb dp (name_bytes name) fs2 >>= λ (found, fs3). elim found [
              | none ↦ refused fs3
              | some (off, ip) ↦ unlink_found dp off ip fs3
            ] in
            if is_name dot name || is_name dot_dot name then refused fs2 else looked
      ]

  -- `sys_unlink`: whether it returns 0.
  unfoldable pub sys_unlink : Option (List ℕ) → Sys → Option (Bool × Sys)
  sys_unlink path s = elim path [
    | none ↦ some (false, s)
    | some path' ↦
        in_op (unlink_within path' s.cwd) s.files >>= λ (ok, fs). some (ok, record s { files = fs })
  ]

  unfoldable pub chdir_within : List ℕ → ℕ → Files → Option (Option ℕ × Files)
  chdir_within path cwd fs = namei fuel sb rootdev rootino path cwd fs >>= λ (r, fs1). elim r [
    | none ↦ some (none, fs1)
    | some ip ↦ lock_entry fuel sb rootdev rootino ip fs1 >>= λ fs2.
        let refused = iunlockput fuel sb rootdev rootino ip fs2 >>= λ fs3. some (none, fs3) in
        let moved = do fs3 ← unlock_entry ip fs2; fs4 ← iput sb cwd fs3; some (some ip, fs4)
        in if not (kind_of fuel sb rootdev rootino ip fs2 == t_dir) then refused else moved
  ]

  -- `sys_chdir`: whether it returns 0.
  unfoldable pub sys_chdir : Option (List ℕ) → Sys → Option (Bool × Sys)
  sys_chdir path s =
      let within : Files → Option (Option ℕ × Files) =
        λ fs. elim path [ none ↦ some (none, fs) | some path' ↦ chdir_within path' s.cwd fs ] in
      in_op within s.files >>= λ (r, fs). some (elim r [
        | none ↦ (false, record s { files = fs })
        | some ip ↦ (true, record s { files = fs; cwd = ip })
      ])
