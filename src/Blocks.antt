-- ===== src/Blocks.antt =====
-- What kernel/bio.c promises to the log: each disk block has one buffer, `bread` shows its contents,
-- `bwrite` puts them on the disk, and a pinned buffer keeps what was written to it. The disk behind
-- it may lose its power: after `budget` more block writes nothing reaches it. A block is written
-- whole or not at all.
use fyp_os.Prelude.{ℕ, ◌-◌, Option, none, some, Bytes, write, ◌==◌, if◌then◌else◌}

abbrev pub Disk : Type 0
Disk = ℕ → Bytes

pub record Blocks : Type 0 where
  pub disk : Disk
  -- The contents of the pinned buffers.
  pub pinned : ℕ → Option Bytes
  pub budget : ℕ

abbrev pub contents : Option Bytes → Bytes → Bytes
contents none d = d
contents (some v) d = v

-- The contents that a process finds in the buffer that `bread` returns.
unfoldable pub bread : Blocks → ℕ → Bytes
bread s b = contents (s.pinned b) (s.disk b)

abbrev pub repin : Option Bytes → Bytes → Option Bytes
repin none v = none
repin (some _) v = some v

-- The buffer's new contents `v`, written to the disk by `bwrite`.
unfoldable pub bwrite : ℕ → Bytes → Blocks → Blocks
bwrite b v s = record {
  disk = if s.budget == 0 then s.disk else write s.disk b v;
  pinned = write s.pinned b (repin (s.pinned b) v);
  budget = s.budget - 1;
}

-- `bpin` of a buffer with the new contents `v`.
unfoldable pub bpin : ℕ → Bytes → Blocks → Blocks
bpin b v s = record s { pinned = write s.pinned b (some v) }

-- New contents `v` that a process leaves in the buffer without a call of the log.
abbrev pub overwrite : ℕ → Bytes → Blocks → Blocks
overwrite b v s = bpin b v s

unfoldable pub bunpin : ℕ → Blocks → Blocks
bunpin b s = record s { pinned = write s.pinned b none }

-- A machine that starts with what the disk holds.
abbrev pub boot : Disk → ℕ → Blocks
boot d budget = record { disk = d; pinned = λ b. none; budget = budget }
