-- ===== src/File/Tests.antt =====
-- The theorems about kernel/file.c at a process that holds the last reference to a pipe.
use fyp_os.Prelude.{ℕ, ◌≡◌, ◌⊎◌, true, false, none, some, [], ◌∷◌, arith}
use fyp_os.File.{File, World, Release, fd_pipe, fd_none, argfd, sys_close}
use fyp_os.File.Counts.{IsCounted}
use fyp_os.File.Calls.{Closed, sys_close-Closed}

abbrev world : World
world = record {
  ftable =
      record {
        kind = fd_pipe;
        ref = 1;
        readable = true;
        writable = false;
        pipe = 4096;
        ip = 0;
        off = 0;
        major = 0;
      }
      ∷ record {
        kind = fd_none;
        ref = 0;
        readable = true;
        writable = false;
        pipe = 0;
        ip = 0;
        off = 0;
        major = 0;
      }
      ∷ [];
  ofile = none ∷ some 0 ∷ none ∷ [];
}

abbrev no_others : ℕ → ℕ
no_others i = 0

counted : IsCounted no_others world
counted i = ground arith

sys_close-Closed_example :
    (sys_close 1 world ≡ some (none, world)) × (argfd 1 world.ofile ≡ none)
    ⊎ ((i : ℕ) × (f : File) × (r : Release) × (w' : World) × (sys_close 1 world ≡ some (some r, w'))
        × Closed no_others 1 i f r world w')
sys_close-Closed_example = sys_close-Closed no_others 1 world counted
