-- ===== src/File.antt =====
-- kernel/file.c and the descriptors of kernel/sysfile.c: the table of open files with its reference
-- counts, and the table `ofile` by which a process refers to it. A file is an index into the table.
-- `none` is a panic where a function can panic.
pub mod Counts
pub mod Calls
mod Tests
use fyp_os.Prelude.{
  ℕ, ◌+◌, ◌-◌, Bool, Option, none, some, List, ◌==◌, ltb, if◌then◌else◌, get_elem?, set, modify,
  find_from, ◌>>=◌, is_some, not,
}

pub data FileType : Type 0 where
  fd_none fd_pipe fd_inode fd_device : FileType

-- `struct file`; `pipe` and `ip` are addresses.
pub record File : Type 0 where
  pub kind : FileType
  pub ref : ℕ
  pub readable : Bool
  pub writable : Bool
  pub pipe : ℕ
  pub ip : ℕ
  pub off : ℕ
  pub major : ℕ

-- `ftable.file`, and `ofile` of the running process.
pub record World : Type 0 where
  pub ftable : List File
  pub ofile : List (Option ℕ)

-- The index of the file, or none if all are in use.
unfoldable pub filealloc : List File → Option ℕ × List File
filealloc t = elim (find_from (λ f. f.ref == 0) 0 t) [
  | none ↦ (none, t)
  | some i ↦ (some i, modify t i (λ f. record f { ref = 1 }))
]

unfoldable pub filedup : ℕ → List File → Option (List File)
filedup i t = elim (get_elem? t i) [
  | none ↦ none
  | some f ↦ if ltb f.ref 1 then none else some (modify t i (λ f. record f { ref = f.ref + 1 }))
]

-- What is left to do when `fileclose` lets the table go: nothing, `pipeclose` of an end of a pipe, or
-- `iput` of an inode in an operation of its own.
pub data Release : Type 0 where
  nothing : Release
  closes_pipe : ℕ → Bool → Release
  puts_inode : ℕ → Release

abbrev pub release_of : File → FileType → Release
release_of f fd_none = nothing
release_of f fd_pipe = closes_pipe f.pipe f.writable
release_of f fd_inode = puts_inode f.ip
release_of f fd_device = puts_inode f.ip

unfoldable pub fileclose : ℕ → List File → Option (Release × List File)
fileclose i t = elim (get_elem? t i) [
  | none ↦ none
  | some f ↦
      if ltb f.ref 1
      then none
      else if ltb 0 (f.ref - 1)
      then some (nothing, modify t i (λ f. record f { ref = f.ref - 1 }))
      else some (release_of f f.kind, modify t i (λ f. record f { ref = 0; kind = fd_none }))
]

-- The file of a descriptor; a negative descriptor is one out of range.
unfoldable pub argfd : ℕ → List (Option ℕ) → Option ℕ
argfd fd ofile = elim (get_elem? ofile fd) [ none ↦ none | some f ↦ f ]

unfoldable pub fdalloc : ℕ → List (Option ℕ) → Option (ℕ × List (Option ℕ))
fdalloc i ofile = elim (find_from (λ f. not (is_some f)) 0 ofile) [
  | none ↦ none
  | some fd ↦ some (fd, set ofile fd (some i))
]

-- `sys_dup`: the new descriptor, or none for -1.
unfoldable pub sys_dup : ℕ → World → Option (Option ℕ × World)
sys_dup fd w = elim (argfd fd w.ofile) [
  | none ↦ some (none, w)
  | some i ↦ elim (fdalloc i w.ofile) [
    | none ↦ some (none, w)
    | some (new, ofile) ↦
        filedup i w.ftable >>= λ t. some (some new, record { ftable = t; ofile = ofile })
  ]
]

-- `sys_close`: what is released, or none for -1.
unfoldable pub sys_close : ℕ → World → Option (Option Release × World)
sys_close fd w = elim (argfd fd w.ofile) [
  | none ↦ some (none, w)
  | some i ↦ fileclose i w.ftable >>= λ (r, t).
      some (some r, record { ftable = t; ofile = set w.ofile fd none })
]
