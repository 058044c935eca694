-- ===== src/Sysfile/Tests.antt =====
-- The theorems about the calls on files at a small table.
use fyp_os.Prelude.{ℕ, ◌≡◌, ◌⊎◌, false, none, some, [], ◌∷◌, arith}
use fyp_os.File.{File, World, nothing, fd_none, fd_pipe}
use fyp_os.File.Counts.{IsCounted}
use fyp_os.Sysfile.Open.{take_file}
use fyp_os.Sysfile.Taken.{IsIdle, TookFile, take_file-TookFile}

abbrev idle : File
idle = record {
  kind = fd_none;
  ref = 0;
  readable = false;
  writable = false;
  pipe = 0;
  ip = 0;
  off = 0;
  major = 0;
}

-- One idle file, and a process whose descriptors are all taken.
abbrev full : World
full = record {
  ftable = record idle { kind = fd_pipe; ref = 2 } ∷ idle ∷ [];
  ofile = some 0 ∷ some 0 ∷ [];
}

abbrev no_others : ℕ → ℕ
no_others i = 0

full-IsCounted : IsCounted no_others full
full-IsCounted i = ground arith

full-IsIdle : IsIdle full.ftable
full-IsIdle i f e z = ground arith

take_file-TookFile_example :
    ((w' : World) × (take_file full ≡ some (none, nothing, w'))
      × (w'.ofile ≡ full.ofile)
      × IsCounted no_others w')
    ⊎ ((fd f : ℕ) × (w' : World) × (take_file full ≡ some (some (fd, f), nothing, w'))
        × TookFile no_others fd f full w')
take_file-TookFile_example = take_file-TookFile no_others full full-IsCounted full-IsIdle
