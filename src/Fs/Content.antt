-- ===== src/Fs/Content.antt =====
-- The contents of inodes in kernel/fs.c: bmap, itrunc, iput, stati, readi and writei. A locked inode
-- is passed on with the log and the blocks; `fuel` is that of balloc.
pub mod Map
pub mod Bmap
pub mod Read
pub mod Whole
pub mod Wrote
pub mod Write
pub mod Written
mod Tests
use fyp_os.Prelude.{
  ℕ, zero, suc, ◌+◌, ◌-◌, ◌*◌, ◌/◌, ◌%◌, ◌^◌, min, Bool, false, true, ◌&&◌, ◌||◌, Option, none,
  some, List, Bytes, write, ltb, ◌==◌, if◌then◌else◌, ◌>>=◌, ◌>>◌, unless, load, store, modify,
  get_elem?, set, copy_over,
}
use fyp_os.Blocks.{Blocks, bread, overwrite}
use fyp_os.Log.{Log, log_write}
use fyp_os.Fs.{Superblock, bsize}
use fyp_os.Fs.Alloc.{balloc, bfree}
use fyp_os.Fs.Inode.{Inode, ndirect, iupdate, Files}

abbrev pub nindirect : ℕ
nindirect = bsize / 4

abbrev pub maxfile : ℕ
maxfile = ndirect + nindirect

pub record Held : Type 0 where
  pub ip : Inode
  pub log : Log
  pub blocks : Blocks

abbrev pub set_addr : ℕ → ℕ → Held → Held
set_addr i b h = record h { ip = record (h.ip) { addrs = write (h.ip.addrs) i b } }

-- The block of `addrs[i]`, allocated if there is none; 0 if no block is free.
unfoldable pub ensure : ℕ → Superblock → ℕ → Held → Option (ℕ × Held)
ensure fuel sb i h =
    let fresh = balloc fuel sb h.log h.blocks >>= λ (b, l, s).
    let h1 = record h { log = l; blocks = s } in
    some (if b == 0 then (0, h1) else (b, set_addr i b h1)) in
    if h.ip.addrs i == 0 then fresh else some (h.ip.addrs i, h)

-- The block of entry `k` of the indirect block `a`, allocated if there is none.
unfoldable pub bmap_entry : ℕ → Superblock → ℕ → ℕ → Held → Option (ℕ × Held)
bmap_entry fuel sb a k h =
    let addr = load 4 (bread (h.blocks) a) (4 * k) in
    let fresh = balloc fuel sb h.log h.blocks >>= λ (b, l, s).
    if b == 0
    then some (0, record h { log = l; blocks = s })
    else log_write a (store 4 (bread s a) (4 * k) b) l s >>= λ (l', s').
        some (b, record h { log = l'; blocks = s' }) in
    if addr == 0 then fresh else some (addr, h)

-- `bmap`; `none` is `panic("bmap: out of range")`, or a panic of the log.
unfoldable pub bmap : ℕ → Superblock → ℕ → Held → Option (ℕ × Held)
bmap fuel sb bn h =
    let indirect = ensure fuel sb ndirect h >>= λ (a, h1).
    if a == 0 then some (0, h1) else bmap_entry fuel sb a (bn - ndirect) h1 in
    if ltb bn ndirect
    then ensure fuel sb bn h
    else if ltb (bn - ndirect) nindirect
    then indirect
    else none

-- The loops of `itrunc`, with `k` slots of `addrs` left from `i` on, and with `k` entries of the
-- indirect block `a` left from `j` on.
unfoldable pub free_direct : ℕ → Superblock → ℕ → Held → Option Held
free_direct zero sb i h = some h
free_direct (suc k) sb i h =
    let freed = bfree sb (h.ip.addrs i) h.log h.blocks >>= λ (l, s).
    free_direct k sb (i + 1) (set_addr i 0 (record h { log = l; blocks = s })) in
    let rest = free_direct k sb (i + 1) h in if h.ip.addrs i == 0 then rest else freed

unfoldable pub free_entries : ℕ → Superblock → ℕ → ℕ → Held → Option Held
free_entries zero sb a j h = some h
free_entries (suc k) sb a j h =
    let addr = load 4 (bread (h.blocks) a) (4 * j) in
    let freed = bfree sb addr h.log h.blocks >>= λ (l, s).
    free_entries k sb a (j + 1) (record h { log = l; blocks = s }) in
    let rest = free_entries k sb a (j + 1) h in if addr == 0 then rest else freed

unfoldable pub free_indirect : Superblock → Held → Option Held
free_indirect sb h =
    let a = h.ip.addrs ndirect in
    let freed = do
      h1 ← free_entries nindirect sb a 0 h
      (l, s) ← bfree sb a (h1.log) (h1.blocks)
      some (set_addr ndirect 0 (record h1 { log = l; blocks = s }))
    in if a == 0 then some h else freed

unfoldable pub itrunc : Superblock → Held → Option Held
itrunc sb h = do
  h1 ← free_direct ndirect sb 0 h
  h2 ← free_indirect sb h1
  let ip = record (h2.ip) { size = 0 }
  (l, s) ← iupdate sb ip (h2.log) (h2.blocks)
  some (record { ip = ip; log = l; blocks = s })

abbrev drop_ref : Inode → Inode
drop_ref p = record p { ref = p.ref - 1 }

-- `iput` of entry `i`: with the last reference to an inode without links its blocks and the inode
-- are freed.
unfoldable pub iput : Superblock → ℕ → Files → Option Files
iput sb i fs = elim (get_elem? (fs.itable) i) [
  | none ↦ none
  | some p ↦
      let gone = do
        h ← itrunc sb (record { ip = p; log = fs.log; blocks = fs.blocks })
        let q = record (h.ip) { kind = 0 }
        (l, s) ← iupdate sb q (h.log) (h.blocks)
        some (record {
          itable = set (fs.itable) i (drop_ref (record q { valid = false }));
          log = l;
          blocks = s;
        })
      in if (p.ref == 1) && (p.valid && (p.nlink == 0))
        then gone
        else some (record fs { itable = modify (fs.itable) i drop_ref })
]

-- `struct stat` and `stati`
pub record Stat : Type 0 where
  pub dev : ℕ
  pub ino : ℕ
  pub kind : ℕ
  pub nlink : ℕ
  pub size : ℕ

unfoldable pub stati : Inode → Stat
stati ip = record { dev = ip.dev; ino = ip.inum; kind = ip.kind; nlink = ip.nlink; size = ip.size }

-- A copy of bytes from one memory to another, and whether it worked: `copyout` and `copyin` of user
-- addresses are such.
abbrev pub Copy : Type 0
Copy = Bytes → ℕ → Bytes → ℕ → ℕ → Bool × Bytes

-- `either_copyout` and `either_copyin` of kernel/proc.c.
abbrev pub either_copy : Copy → Bool → Copy
either_copy copy user m d src s n = if user then copy m d src s n else (true, copy_over m d src s n)

module _ (fuel : ℕ) (sb : Superblock) (copy : Copy) (user : Bool) where
  -- The loop of `readi` with at most `k` rounds left: the bytes read, or none for -1, the reader's
  -- memory and the inode.
  unfoldable pub readi_loop : ℕ → ℕ → ℕ → ℕ → ℕ → Bytes → Held → Option (Option ℕ × Bytes × Held)
  readi_loop zero off tot n dst mem h = some (some tot, mem, h)
  readi_loop (suc k) off tot n dst mem h =
      let m = min (n - tot) (bsize - off % bsize) in
      let round = bmap fuel sb (off / bsize) h >>= λ (addr, h1).
      let (ok, mem') = either_copy copy user mem dst (bread (h1.blocks) addr) (off % bsize) m in
      let rest = readi_loop k (off + m) (tot + m) n (dst + m) mem' h1 in
      if addr == 0 then some (some tot, mem, h1) else if ok then rest else some (none, mem', h1) in
      if ltb tot n then round else some (some tot, mem, h)

  -- `readi`: a round for each byte is enough.
  unfoldable pub readi : ℕ → ℕ → ℕ → Bytes → Held → Option (Option ℕ × Bytes × Held)
  readi dst off n mem h =
      let end = (off + n) % 2 ^ 32 in
      let n' = if ltb h.ip.size end then h.ip.size - off else n in
      if ltb h.ip.size off || ltb end off
      then some (some 0, mem, h)
      else readi_loop n' off 0 n' dst mem h

  -- The loop of `writei`: the bytes written, where the writing stopped, and the inode. What a failed
  -- copy leaves in the buffer is not logged and stays there; where the buffer is recycled and read
  -- again, that is the case of a `copy` that left nothing.
  unfoldable pub writei_loop : ℕ → ℕ → ℕ → ℕ → ℕ → Bytes → Held → Option (ℕ × ℕ × Held)
  writei_loop zero off tot n src mem h = some (tot, off, h)
  writei_loop (suc k) off tot n src mem h =
      let m = min (n - tot) (bsize - off % bsize) in
      let round = bmap fuel sb (off / bsize) h >>= λ (addr, h1).
      let (ok, d) = either_copy copy user (bread (h1.blocks) addr) (off % bsize) mem src m in
      let rest = log_write addr d (h1.log) (h1.blocks) >>= λ (l, s).
      writei_loop k (off + m) (tot + m) n (src + m) mem (record h1 { log = l; blocks = s }) in
      if addr == 0
      then some (tot, off, h1)
      else if ok
      then rest
      else some (tot, off, record h1 { blocks = overwrite addr d (h1.blocks) }) in
      if ltb tot n then round else some (tot, off, h)

  -- `writei`; the inner none is -1.
  unfoldable pub writei : ℕ → ℕ → ℕ → Bytes → Held → Option (Option ℕ × Held)
  writei src off n mem h =
      let written = writei_loop n off 0 n src mem h >>= λ (tot, off', h1).
      let ip = record (h1.ip) { size = if ltb (h1.ip.size) off' then off' else h1.ip.size } in
      iupdate sb ip (h1.log) (h1.blocks) >>= λ (l, s).
      some (some tot, record { ip = ip; log = l; blocks = s }) in
      if ltb h.ip.size off || ltb ((off + n) % 2 ^ 32) off
      then some (none, h)
      else if ltb (maxfile * bsize) ((off + n) % 2 ^ 32)
      then some (none, h)
      else written
