-- ===== src/Fs/Inode.antt =====
-- The inodes of kernel/fs.c: their place on the disk, the table of those in memory, and ialloc,
-- iupdate, iget, idup, ilock and iunlock. An inode in memory is an index into the table; a short is
-- its bit pattern.
pub mod Dinode
pub mod Table
mod Tests
use fyp_os.Prelude.{
  ℕ, zero, suc, ◌+◌, ◌-◌, ◌*◌, ◌/◌, ◌%◌, Bool, not, ◌&&◌, ◌||◌, Option, none, some, List, [], ◌∷◌,
  Bytes, ltb, ◌==◌, if◌then◌else◌, ◌>>=◌, ◌>>◌, unless, load, store, modify, is_some,
}
use fyp_os.Kstring.{memset}
use fyp_os.Blocks.{Blocks, bread}
use fyp_os.Log.{Log, log_write}
use fyp_os.Fs.{Superblock, bsize}

abbrev pub ndirect : ℕ
ndirect = 12

-- `struct inode`, less its lock; `addrs` has `ndirect + 1` entries.
pub record Inode : Type 0 where
  pub dev : ℕ
  pub inum : ℕ
  pub ref : ℕ
  pub valid : Bool
  pub kind : ℕ
  pub major : ℕ
  pub minor : ℕ
  pub nlink : ℕ
  pub size : ℕ
  pub addrs : ℕ → ℕ

-- The size of `struct dinode`, the number of inodes in a block, IBLOCK, and the place of an inode in
-- its block.
abbrev pub dinode_size : ℕ
dinode_size = 64

abbrev pub ipb : ℕ
ipb = bsize / dinode_size

abbrev pub iblock : ℕ → Superblock → ℕ
iblock i sb = i / ipb + sb.inodestart

abbrev pub place : ℕ → ℕ
place inum = dinode_size * (inum % ipb)

-- `k` words from `a` on.
unfoldable pub store_words : ℕ → Bytes → ℕ → (ℕ → ℕ) → Bytes
store_words zero m a f = m
store_words (suc k) m a f = store_words k (store 4 m a (f 0)) (a + 4) (λ i. f (i + 1))

-- The fields of a `struct dinode` at `o`, as iupdate fills them and as ilock copies them.
unfoldable pub put_dinode : Inode → Bytes → ℕ → Bytes
put_dinode ip d o =
    let d1 = store 2 d o ip.kind in
    let d2 = store 2 d1 (o + 2) ip.major in
    let d3 = store 2 d2 (o + 4) ip.minor in
    let d4 = store 2 d3 (o + 6) ip.nlink in
    let d5 = store 4 d4 (o + 8) ip.size in store_words (ndirect + 1) d5 (o + 12) ip.addrs

unfoldable pub get_dinode : Inode → Bytes → ℕ → Inode
get_dinode ip d o = record ip {
  kind = load 2 d o;
  major = load 2 d (o + 2);
  minor = load 2 d (o + 4);
  nlink = load 2 d (o + 6);
  size = load 4 d (o + 8);
  addrs = λ i. load 4 d (o + 12 + 4 * i);
}

-- `iupdate`; `none` is a panic of the log.
unfoldable pub iupdate : Superblock → Inode → Log → Blocks → Option (Log × Blocks)
iupdate sb ip l s =
    log_write (iblock ip.inum sb) (put_dinode ip (bread s (iblock ip.inum sb)) (place ip.inum)) l s

-- `ilock` of an inode in the table; `none` is one of its panics.
unfoldable pub ilock : Superblock → Inode → Blocks → Option Inode
ilock sb ip s =
    let ip' = get_dinode ip (bread s (iblock ip.inum sb)) (place ip.inum) in
    unless (ltb ip.ref 1)
    >> (if ip.valid
        then some ip
        else unless (ip'.kind == 0) >> some (record ip' { valid = Bool.true }))

-- `iunlock`, with the test whether the caller holds the lock.
unfoldable pub iunlock : Bool → Inode → Option Inode
iunlock holding ip = unless (not holding || ltb ip.ref 1) >> some ip

abbrev pub is_for : ℕ → ℕ → Inode → Bool
is_for dev inum ip = ltb 0 ip.ref && ((ip.dev == dev) && (ip.inum == inum))

-- The loop of `iget` from entry `i` on: the entry that is in use for the inode, and the first empty
-- one that the loop has remembered.
unfoldable pub iget_scan : ℕ → ℕ → ℕ → Option ℕ → List Inode → Option ℕ × Option ℕ
iget_scan dev inum i empty [] = (none, empty)
iget_scan dev inum i empty (ip ∷ rest) =
    let later =
      iget_scan dev inum (i + 1) (if not (is_some empty) && (ip.ref == 0) then some i else empty)
        rest in
    if is_for dev inum ip then (some i, empty) else later

-- What `iget` does with the two; `none` is `panic("iget: no inodes")`.
unfoldable pub iget_take : ℕ → ℕ → Option ℕ → Option ℕ → List Inode → Option (ℕ × List Inode)
iget_take dev inum (some i) empty t = some (i, modify t i (λ ip. record ip { ref = ip.ref + 1 }))
iget_take dev inum none (some i) t =
    some (i, modify t i (λ ip. record ip { dev = dev; inum = inum; ref = 1; valid = Bool.false }))
iget_take dev inum none none t = none

unfoldable pub iget : ℕ → ℕ → List Inode → Option (ℕ × List Inode)
iget dev inum t =
    let (found, empty) = iget_scan dev inum 0 none t in iget_take dev inum found empty t

unfoldable pub idup : ℕ → List Inode → List Inode
idup i t = modify t i (λ ip. record ip { ref = ip.ref + 1 })

-- The table, the log and the blocks, as the operations on inodes pass them on.
pub record Files : Type 0 where
  pub itable : List Inode
  pub log : Log
  pub blocks : Blocks

-- The loop of `ialloc` with `k` inodes left from `inum` on; entry 0 stands for "no inodes".
unfoldable pub ialloc_loop : ℕ → Superblock → ℕ → ℕ → ℕ → Files → Option (Option ℕ × Files)
ialloc_loop zero sb dev kind inum fs = some (none, fs)
ialloc_loop (suc k) sb dev kind inum fs =
    let d = bread fs.blocks (iblock inum sb) in
    let rest = ialloc_loop k sb dev kind (inum + 1) fs in
    let taken : Option (Option ℕ × Files) = (do
      (l, s) ←
          log_write (iblock inum sb)
            (store 2 (memset d (place inum) 0 dinode_size) (place inum) kind) fs.log fs.blocks
      (i, t) ← iget dev inum fs.itable
      some (some i, record { itable = t; log = l; blocks = s })) in
    if load 2 d (place inum) == 0 then taken else rest

unfoldable pub ialloc : Superblock → ℕ → ℕ → Files → Option (Option ℕ × Files)
ialloc sb dev kind fs = ialloc_loop (sb.ninodes - 1) sb dev kind 1 fs
