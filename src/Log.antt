-- ===== src/Log.antt =====
-- kernel/log.c: the write-ahead log. `log.lh` is the list of logged block numbers, in the order of
-- `lh.block[0 .. lh.n)`. The functions run with `log.lock` as the code takes it, or while
-- `committing` keeps all others out.
pub mod Header
pub mod Crash
pub mod Commit
pub mod Space
mod Phases
mod Tests
use fyp_os.Prelude.{
  ℕ, zero, suc, ◌+◌, ◌-◌, ◌*◌, ◌^◌, Bool, true, false, ◌||◌, Option, none, some, List, [], ◌∷◌,
  ◌++◌, Bytes, load, store, length, ◌==◌, ltb, leb, if◌then◌else◌, unless, ◌>>=◌, ◌>>◌,
}
use fyp_os.Blocks.{Blocks, bread, bwrite, bpin, bunpin, Disk, boot}

-- MAXOPBLOCKS and LOGSIZE of kernel/param.h
abbrev pub maxopblocks : ℕ
maxopblocks = 10

abbrev pub logsize : ℕ
logsize = maxopblocks * 3

-- `struct log`
pub record Log : Type 0 where
  pub start : ℕ
  pub size : ℕ
  pub outstanding : ℕ
  pub committing : Bool
  pub lh : List ℕ

-- The body of the loop of `install_trans`: the log block `tail` goes to its home block `b`.
unfoldable pub install_one : ℕ → Bool → ℕ → ℕ → Blocks → Blocks
install_one start recovering b tail s =
    let s1 = bwrite b (bread s (start + tail + 1)) s in if recovering then s1 else bunpin b s1

-- The loop of `install_trans` from index `tail` on.
unfoldable pub install_loop : ℕ → Bool → List ℕ → ℕ → Blocks → Blocks
install_loop start recovering [] tail s = s
install_loop start recovering (b ∷ bs) tail s =
    install_loop start recovering bs (tail + 1) (install_one start recovering b tail s)

unfoldable pub install_trans : Bool → Log → Blocks → Blocks
unfolding install_loop
install_trans recovering l s = install_loop l.start recovering l.lh 0 s

-- The `int` array of a header block from entry `i` on.
unfoldable pub read_blocks : ℕ → Bytes → ℕ → List ℕ
read_blocks zero hd i = []
read_blocks (suc k) hd i = load 4 hd (4 + 4 * i) ∷ read_blocks k hd (i + 1)

-- The field `n` as a count of loop rounds: none at a negative `int`.
abbrev pub rounds : ℕ → ℕ
rounds n = if ltb n (2 ^ 31) then n else 0

-- A count above LOGSIZE would write past the end of `log.lh.block`: `none`.
unfoldable pub read_head : Log → Blocks → Option Log
read_head l s =
    let hd = bread s l.start in
    let n = rounds (load 4 hd 0) in
    if ltb logsize n then none else some (record l { lh = read_blocks n hd 0 })

unfoldable pub write_blocks : List ℕ → Bytes → ℕ → Bytes
write_blocks [] hd i = hd
write_blocks (b ∷ bs) hd i = write_blocks bs (store 4 hd (4 + 4 * i) b) (i + 1)

unfoldable pub header : List ℕ → Bytes → Bytes
header lh hd = write_blocks lh (store 4 hd 0 (length lh)) 0

unfoldable pub write_head : Log → Blocks → Blocks
write_head l s = bwrite l.start (header l.lh (bread s l.start)) s

unfoldable pub recover_from_log : Log → Blocks → Option (Log × Blocks)
recover_from_log l s = do
  l1 ← read_head l s
  let s1 = install_trans true l1 s
  let l2 = record l1 { lh = [] }
  some (l2, write_head l2 s1)

-- `log` as `initlog` sets it up; the fields that it leaves alone are zero, as all static storage.
abbrev pub initial : ℕ → ℕ → Log
initial logstart nlog = record {
  start = logstart;
  size = nlog;
  outstanding = 0;
  committing = false;
  lh = [];
}

-- `initlog`, with the fields of the superblock that it reads.
unfoldable pub initlog : ℕ → ℕ → Blocks → Option (Log × Blocks)
initlog logstart nlog s = recover_from_log (initial logstart nlog) s

-- One turn of the loop of `begin_op`: `none` where the process goes to sleep on the log.
unfoldable pub begin_op : Log → Option Log
begin_op l =
    if l.committing
    then none
    else if ltb logsize (length l.lh + (l.outstanding + 1) * maxopblocks)
    then none
    else some (record l { outstanding = l.outstanding + 1 })

unfoldable pub write_log_loop : ℕ → List ℕ → ℕ → Blocks → Blocks
write_log_loop start [] tail s = s
write_log_loop start (b ∷ bs) tail s =
    write_log_loop start bs (tail + 1) (bwrite (start + tail + 1) (bread s b) s)

unfoldable pub write_log : Log → Blocks → Blocks
write_log l s = write_log_loop l.start l.lh 0 s

unfoldable pub commit : Log → Blocks → Log × Blocks
commit l s =
    if ltb 0 (length l.lh)
    then (let s1 = write_log l s in
        let s2 = write_head l s1 in
        let s3 = install_trans false l s2 in
        let l1 = record l { lh = [] } in (l1, write_head l1 s3))
    else (l, s)

-- `none` is the panic, or a call with no operation outstanding, which the code does not detect.
unfoldable pub end_op : Log → Blocks → Option (Log × Blocks)
end_op l s = do
  unless (l.outstanding == 0)
  let l1 = record l { outstanding = l.outstanding - 1 }
  unless l1.committing
  if l1.outstanding == 0
      then (let (l2, s1) = commit (record l1 { committing = true }) s in
          some (record l2 { committing = false }, s1))
      else some (l1, s)

-- The search of `log_write`, with the append where nothing is found.
unfoldable pub absorb : ℕ → List ℕ → List ℕ
absorb b [] = b ∷ []
absorb b (c ∷ cs) = if c == b then c ∷ cs else c ∷ absorb b cs

-- `log_write` of a buffer of block `b` in which the caller has put the contents `v`.
unfoldable pub log_write : ℕ → Bytes → Log → Blocks → Option (Log × Blocks)
log_write b v l s = do
  unless (leb logsize (length l.lh) || leb (l.size - 1) (length l.lh))
  unless (ltb l.outstanding 1)
  some (record l { lh = absorb b l.lh }, bpin b v s)
