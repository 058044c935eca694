-- ===== src/Log/Tests.antt =====
-- The theorems about kernel/log.c at small logs.
use fyp_os.Prelude.{ℕ, ◌≡◌, refl, inr, none, some, [], ◌∷◌, write, arith}
use fyp_os.Blocks.{Blocks, Disk, bread, bpin}
use fyp_os.Log.{Log, initial, commit, log_write, absorb, begin_op}
use fyp_os.Log.Crash.{Settled, Clean}
use fyp_os.Log.Commit.{IsReady, boots, commit_atomic, commit_installs}
use fyp_os.Log.Space.{World, Reach, here, next, begin, IsReserved, log_write_never_full}
use fyp_os.Prelude.{load}

-- One block, 40, logged in a log of 31 blocks from block 2 on; `budget` writes until the crash.
abbrev blocks : ℕ → Blocks
blocks budget = record {
  disk = λ b i. 0;
  pinned = write (λ b. none) 40 (some (λ i. 7));
  budget = budget;
}

abbrev log : Log
log = record (initial 2 31) { lh = 40 ∷ []; outstanding = 1 }

ready : (budget : ℕ) → IsReady log (blocks budget)
unfolding load
ready budget = record {
  logged = record {
    outside = (inr (omega arith), tt);
    room = omega arith;
    small = omega arith;
    words = (omega arith, tt);
  };
  clean = refl;
  others = λ b e. ground arith;
}

commit_atomic_example :
    (d : Disk) × (boots 2 31 (1 ∷ 9 ∷ []) (commit log (blocks 3)).1.disk ≡ some d)
    × Settled 2 31 (λ b i. 0) (bread (blocks 3)) d
commit_atomic_example = commit_atomic log (blocks 3) (1 ∷ []) 9 (ready 3) (omega arith)

commit_installs_example : Clean 2 31 (bread (blocks 9)) (commit log (blocks 9)).1.disk
commit_installs_example = commit_installs log (blocks 9) (ready 9) (omega arith) (omega arith)

abbrev idle : World
idle = record { log = initial 2 31; blocks = blocks 9; calls = [] }

abbrev busy : World
busy = record { log = record (initial 2 31) { outstanding = 1 }; blocks = blocks 9; calls = 0 ∷ [] }

idle-IsReserved : IsReserved idle
idle-IsReserved = omega arith

idle-busy : Reach idle busy
unfolding begin_op
idle-busy = next here (begin refl refl)

log_write_never_full_example :
    log_write 40 (λ i. 7) (busy.log) (busy.blocks)
    ≡ some (record (busy.log) { lh = absorb 40 [] }, bpin 40 (λ i. 7) (busy.blocks))
log_write_never_full_example =
    log_write_never_full [] [] 0 40 (λ i. 7) idle-IsReserved idle-busy refl (omega arith)
