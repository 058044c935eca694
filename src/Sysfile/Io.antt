-- ===== src/Sysfile/Io.antt =====
-- filestat, fileread and filewrite of kernel/file.c, with read, write, fstat and diskspace of
-- kernel/sysfile.c. An open file has the index of its inode, or the address of its pipe. `devices` is
-- the table `devsw`: a read or write of the device with a major number, or none where there is none.
use fyp_os.Prelude.{
  ℕ, zero, suc, ◌+◌, ◌-◌, ◌*◌, ◌/◌, ◌%◌, ◌^◌, Bool, true, false, not, Option, none, some, List, [],
  ◌∷◌, Bytes, write, ◌==◌, ltb, if◌then◌else◌, ◌>>=◌, get_elem?, modify,
}
use fyp_os.Log.{maxopblocks, begin_op}
use fyp_os.Fs.{Superblock, bsize}
use fyp_os.Fs.Alloc.{count_free_blocks, read_disk_size}
use fyp_os.Fs.Inode.{Files}
use fyp_os.Fs.Content.{Held, Copy, Stat, stati, readi, writei}
use fyp_os.Fs.Dir.{hold, put_back}
use fyp_os.Fs.Path.{lock_entry}
use fyp_os.File.{File, fd_none, fd_pipe, fd_inode, fd_device, argfd}
use fyp_os.Pipe.{Pipe, Outcome, returned, sleeps, pipewrite, piperead}
use fyp_os.Sysfile.{in_op, unlock_entry}
use fyp_os.Sysfile.Open.{is_major}

-- The most that `filewrite` writes in one operation of the log.
abbrev pub max_write : ℕ
max_write = (maxopblocks - 1 - 1 - 2) / 2 * bsize

-- Bytes put at `a` on, in order.
abbrev pub put_all : List ℕ → ℕ → Bytes → Bytes
put_all [] a m = m
put_all (x ∷ xs) a m = put_all xs (a + 1) (write m a x)

-- What the calls see: the files, the pipes, the devices' state, and the memory of the user.
pub record Io (D : Type 0) : Type 0 where
  pub files : Files
  pub pipes : ℕ → Pipe
  pub device : D
  pub user : Bytes

module _ (D : Type 0) where
  -- A read or a write of a device: the address, the count, the memory and the state.
  abbrev pub Transfer : Type 0
  Transfer = ℕ → ℕ → Bytes → D → Outcome × Bytes × D

  -- `access` says which addresses of the user can be reached, `copy` copies to and from them.
  module _ (fuel : ℕ) (sb : Superblock) (rootdev rootino : ℕ) (copy : Copy) (access : ℕ → Bool)
      (killed : Bool) where
    -- The inode of the file, locked around `body`, and what `body` does to it.
    abbrev pub locked {ℓ} :
        {A : Type ℓ} → ℕ → (Held → Option (A × Held)) → Files → Option (A × Files)
    locked ip body fs = do
      fs1 ← lock_entry fuel sb rootdev rootino ip fs
      h ← hold ip fs1
      (r, h') ← body h
      fs2 ← unlock_entry fuel sb rootdev rootino ip (put_back ip h' fs1)
      some (r, fs2)

    -- `filestat`: the status, where it has `reached` the user; none is -1.
    unfoldable pub filestat : File → Bool → Io D → Option (Option Stat × Io D)
    filestat f reached s =
        let status = locked f.ip (λ h. some (stati h.ip, h)) s.files >>= λ (st, fs).
        some (if reached then some st else none, record s { files = fs }) in
        elim f.kind [ fd_inode ↦ status | fd_device ↦ status | _ ↦ some (none, s) ]

    -- The result, the file with its new offset, and the rest. `none` is a panic, or that the fuel of
    -- `balloc` runs out.
    unfoldable pub fileread :
        (ℕ → Option Transfer) → File → ℕ → ℕ → Io D → Option (Outcome × File × Io D)
    fileread devices f addr n s =
        let pipe =
          let (r, out, pi) = piperead (λ i. access (addr + i)) killed n (s.pipes f.pipe) in
          some
            (r, f, record s { pipes = write s.pipes f.pipe pi; user = put_all out addr s.user }) in
        let device : Option (Outcome × File × Io D) = elim (devices f.major) [
          | none ↦ some (returned none, f, s)
          | some read ↦
              let (r, m, d) = read addr n s.user s.device in
              some (r, f, record s { user = m; device = d })
        ] in
        let inode =
          locked f.ip
            (λ h. readi fuel sb copy true addr f.off n s.user h >>= λ (r, m, h'). some ((r, m), h'))
            s.files
          >>= λ ((r, m), fs).
              let moved : File = elim r [
                | none ↦ f
                | some t ↦ record f { off = (f.off + t) % 2 ^ 32 }
              ] in
              some (returned r, moved, record s { files = fs; user = m }) in
        if not f.readable then some (returned none, f, s) else elim f.kind [
          | fd_pipe ↦ pipe
          | fd_device ↦ if is_major f.major then device else some (returned none, f, s)
          | fd_inode ↦ inode
          | fd_none ↦ none
        ]

    -- The loop of `filewrite` for an inode with at most `k` rounds left, from index `i` on: whether it
    -- waits in `begin_op`, the index that it reaches, the file and the files. No lock is held between
    -- two rounds, and none keeps `f->off` through them: `others` is what the other processes make of
    -- the file and of the files before the round at an index.
    unfoldable pub filewrite_loop :
        (ℕ → File × Files → File × Files)
        → ℕ
        → ℕ
        → ℕ
        → File
        → ℕ
        → Bytes
        → Files
        → Option ((Bool × ℕ × File) × Files)
    filewrite_loop others zero i n f addr m fs = some ((false, i, f), fs)
    filewrite_loop others (suc k) i n f addr m fs =
        let n1 = if ltb max_write (n - i) then max_write else n - i in
        let (f0, fs0) = others i (f, fs) in
        let write_some = locked f0.ip (writei fuel sb copy true (addr + i) f0.off n1 m) in
        let round = in_op write_some fs0 >>= λ (r, fs1).
        let t : ℕ = elim r [ none ↦ 0 | some t ↦ t ] in
        let f1 = record f0 { off = (f0.off + t) % 2 ^ 32 } in
        let rest = filewrite_loop others k (i + t) n f1 addr m fs1 in
        let whole : Bool = elim r [ none ↦ false | some t ↦ t == n1 ] in
        if whole then rest else some ((false, i, f1), fs1) in
        let entered : Option ((Bool × ℕ × File) × Files) = elim (begin_op fs0.log) [
          | none ↦ some ((true, i, f0), fs0)
          | some l ↦ round
        ] in
        if ltb i n then entered else some ((false, i, f), fs)

    -- `wait` is the channel of the log, on which `begin_op` sleeps.
    unfoldable pub filewrite :
        ℕ
        → (ℕ → File × Files → File × Files)
        → (ℕ → Option Transfer)
        → File
        → ℕ
        → ℕ
        → Io D
        → Option (Outcome × File × Io D)
    filewrite wait others devices f addr n s =
        let pipe =
          let (r, pi) =
            pipewrite (λ i. if access (addr + i) then some (s.user (addr + i)) else none) killed n 0
              (s.pipes f.pipe) in
          some (r, f, record s { pipes = write s.pipes f.pipe pi }) in
        let device : Option (Outcome × File × Io D) = elim (devices f.major) [
          | none ↦ some (returned none, f, s)
          | some put ↦
              let (r, m, d) = put addr n s.user s.device in
              some (r, f, record s { user = m; device = d })
        ] in
        let inode = filewrite_loop others n 0 n f addr s.user s.files >>= λ ((waits, i, f1), fs).
        let result = if waits then sleeps wait else returned (if i == n then some n else none) in
        some (result, f1, record s { files = fs }) in
        if not f.writable then some (returned none, f, s) else elim f.kind [
          | fd_pipe ↦ pipe
          | fd_device ↦ if is_major f.major then device else some (returned none, f, s)
          | fd_inode ↦ inode
          | fd_none ↦ none
        ]

    -- A call on the file of a descriptor, which keeps the new offset.
    unfoldable pub on_file :
        (File → Io D → Option (Outcome × File × Io D))
        → ℕ
        → List (Option ℕ)
        → List File
        → Io D
        → Option (Outcome × List File × Io D)
    on_file call fd ofile ftable s = elim (argfd fd ofile) [
      | none ↦ some (returned none, ftable, s)
      | some i ↦ elim (get_elem? ftable i) [
        | none ↦ none
        | some f ↦ call f s >>= λ (r, f', s'). some (r, modify ftable i (λ g. f'), s')
      ]
    ]

    unfoldable pub sys_read :
        (ℕ → Option Transfer)
        → ℕ
        → ℕ
        → ℕ
        → List (Option ℕ)
        → List File
        → Io D
        → Option (Outcome × List File × Io D)
    sys_read devices fd addr n = on_file (λ f. fileread devices f addr n) fd

    unfoldable pub sys_write :
        ℕ
        → (ℕ → File × Files → File × Files)
        → (ℕ → Option Transfer)
        → ℕ
        → ℕ
        → ℕ
        → List (Option ℕ)
        → List File
        → Io D
        → Option (Outcome × List File × Io D)
    sys_write wait others devices fd addr n =
        on_file (λ f. filewrite wait others devices f addr n) fd

    unfoldable pub sys_fstat :
        ℕ → Bool → List (Option ℕ) → List File → Io D → Option (Option Stat × Io D)
    sys_fstat fd reached ofile ftable s = elim (argfd fd ofile) [
      | none ↦ some (none, s)
      | some i ↦ elim (get_elem? ftable i) [ none ↦ none | some f ↦ filestat f reached s ]
    ]

    -- `sys_diskspace`: the two numbers, where they have `reached` the user.
    unfoldable pub sys_diskspace : Bool → Io D → Option (Option (ℕ × ℕ) × Io D)
    sys_diskspace reached s = count_free_blocks fuel s.files.blocks >>= λ free.
        some (if reached then some (read_disk_size s.files.blocks, free) else none, s)
