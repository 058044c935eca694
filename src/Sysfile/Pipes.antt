-- ===== src/Sysfile/Pipes.antt =====
-- pipealloc of kernel/pipe.c and sys_pipe of kernel/sysfile.c. A pipe is the address of its page.
use fyp_os.Prelude.{
  ℕ, ◌+◌, write, Bool, true, false, Option, none, some, List, [], ◌∷◌, ◌==◌, if◌then◌else◌, ◌>>=◌,
  modify, set,
}
use fyp_os.Kalloc.{Kmem, kalloc}
use fyp_os.Pipe.{Pipe, pipe_init}
use fyp_os.File.{File, fd_pipe, Release, World, filealloc, fileclose, fdalloc}

-- The memory, and the pipes by the address of their page.
pub record Pool : Type 0 where
  pub kmem : Kmem
  pub pipes : ℕ → Pipe

-- The fields that `pipealloc` gives to the two files.
abbrev pub read_end : ℕ → File → File
read_end pi f = record f { kind = fd_pipe; readable = true; writable = false; pipe = pi }

abbrev pub write_end : ℕ → File → File
write_end pi f = record f { kind = fd_pipe; readable = false; writable = true; pipe = pi }

-- `fileclose` of each file of the list, with what each lets go.
unfoldable pub close_all : List ℕ → List File → Option (List Release × List File)
close_all [] t = some ([], t)
close_all (i ∷ is) t =
    fileclose i t >>= λ (r, t1). close_all is t1 >>= λ (rs, t2). some (r ∷ rs, t2)

-- `pipealloc`: the two files and the pipe, or none with what is released.
unfoldable pub pipealloc :
    List File → Pool → Option (Option (ℕ × ℕ × ℕ) × List Release × List File × Pool)
pipealloc t s =
    let fail : List ℕ
        → List File
        → Pool
        → Option (Option (ℕ × ℕ × ℕ) × List Release × List File × Pool) =
      λ files t' s'. close_all files t' >>= λ (rs, t''). some (none, rs, t'', s') in
    let (f0, t1) = filealloc t in
    elim f0 [
      | none ↦ fail [] t1 s
      | some i0 ↦
          let (f1, t2) = filealloc t1 in
          elim f1 [
            | none ↦ fail (i0 ∷ []) t2 s
            | some i1 ↦
                let (pi, kmem) = kalloc s.kmem in
                if pi == 0
                then fail (i0 ∷ i1 ∷ []) t2 (record s { kmem = kmem })
                else some (
                  some (i0, i1, pi),
                  [],
                  modify (modify t2 i0 (read_end pi)) i1 (write_end pi),
                  record {
                    kmem = kmem;
                    pipes = write s.pipes pi (pipe_init (λ i. kmem.mem (pi + i)));
                  },
                )
          ]
    ]

-- The descriptor `fd0` cleared, and the files closed.
unfoldable pub undo_one :
    ℕ
    → List (Option ℕ)
    → List ℕ
    → List File
    → Pool
    → Option (Option (ℕ × ℕ) × List Release × World × Pool)
undo_one fd0 ofile files t s = close_all files t >>= λ (rs, t').
    some (none, rs, record { ftable = t'; ofile = set ofile fd0 none }, s)

-- `sys_pipe`: the two descriptors, or none for -1, with what is released. `copied` says whether the
-- descriptors reach the user.
unfoldable pub sys_pipe :
    Bool → World → Pool → Option (Option (ℕ × ℕ) × List Release × World × Pool)
sys_pipe copied w s = pipealloc w.ftable s >>= λ (r, rs, t, s1). elim r [
  | none ↦ some (none, rs, record w { ftable = t }, s1)
  | some (rf, wf, pi) ↦
      let undo : Option (Option (ℕ × ℕ) × List Release × World × Pool) =
        close_all (rf ∷ wf ∷ []) t >>= λ (rs', t').
        some (none, rs', record w { ftable = t' }, s1) in
      elim (fdalloc rf w.ofile) [
        | none ↦ undo
        | some (fd0, ofile0) ↦ elim (fdalloc wf ofile0) [
          | none ↦ undo_one fd0 ofile0 (rf ∷ wf ∷ []) t s1
          | some (fd1, ofile1) ↦
              if copied
              then some (some (fd0, fd1), [], record { ftable = t; ofile = ofile1 }, s1)
              else undo_one fd0 (set ofile1 fd1 none) (rf ∷ wf ∷ []) t s1
        ]
      ]
]
