-- ===== src/Fs.antt =====
-- kernel/fs.c: the file system above the log. This module holds the superblock and the layout of
-- kernel/fs.h; the children hold the free map and the block allocator.
pub mod Bits
pub mod Alloc
pub mod Inode
pub mod Content
pub mod Dir
pub mod Path
use fyp_os.Prelude.{ℕ, ◌+◌, ◌/◌, ◌*◌, Bytes, load, Option, some, ◌>>=◌, ◌>>◌, unless, not, ◌==◌}
use fyp_os.Blocks.{Blocks, bread}
use fyp_os.Log.{Log, initlog}

-- `struct superblock`
pub record Superblock : Type 0 where
  pub magic : ℕ
  pub size : ℕ
  pub nblocks : ℕ
  pub ninodes : ℕ
  pub nlog : ℕ
  pub logstart : ℕ
  pub inodestart : ℕ
  pub bmapstart : ℕ

abbrev pub bsize : ℕ
bsize = 1024

-- Bits of a bitmap block.
abbrev pub bpb : ℕ
bpb = bsize * 8

-- BBLOCK
abbrev pub bblock : ℕ → Superblock → ℕ
bblock b sb = b / bpb + sb.bmapstart

-- The eight words of block 1.
unfoldable pub readsb : Blocks → Superblock
readsb s =
    let d = bread s 1 in
    record {
      magic = load 4 d 0;
      size = load 4 d 4;
      nblocks = load 4 d 8;
      ninodes = load 4 d 12;
      nlog = load 4 d 16;
      logstart = load 4 d 20;
      inodestart = load 4 d 24;
      bmapstart = load 4 d 28;
    }

-- `fsinit`; `none` is the panic on a foreign magic number, or one of the log's.
unfoldable pub fsinit : Blocks → Option (Superblock × Log × Blocks)
fsinit s =
    let sb = readsb s in
    unless (not (sb.magic == 0x10203040))
    >> (initlog sb.logstart sb.nlog s >>= λ (l, s'). some (sb, l, s'))
