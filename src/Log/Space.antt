-- ===== src/Log/Space.antt =====
-- The space that begin_op of kernel/log.c reserves: an operation that logs at most MAXOPBLOCKS
-- blocks never meets a full log.
use fyp_os.Prelude.{
  ℕ, suc, ◌+◌, ◌-◌, ◌*◌, ◌≤◌, ◌<◌, ◌≡◌, true, some, List, [], ◌∷◌, ◌++◌, arith, Bytes, length,
  length-append,
}
use fyp_os.Blocks.{Blocks, bpin}
use fyp_os.Log.{Log, logsize, maxopblocks, begin_op, end_op, log_write, absorb, commit}

pub length-absorb : (b : ℕ) (lh : List ℕ) → length (absorb b lh) ≤ length lh + 1
unfolding absorb
length-absorb b [] = omega arith
length-absorb b (c ∷ cs) = ground (arith, length-absorb b cs)

-- The blocks that the operations in progress may still log, given how many each has logged.
abbrev pub reserve : List ℕ → ℕ
reserve [] = 0
reserve (w ∷ ws) = (maxopblocks - w) + reserve ws

reserve-append : (xs ys : List ℕ) → reserve (xs ++ ys) ≡ reserve xs + reserve ys
reserve-append [] ys = omega arith
reserve-append (x ∷ xs) ys = omega (arith, reserve-append xs ys)

reserve-le : (ws : List ℕ) → reserve ws ≤ length ws * maxopblocks
reserve-le [] = omega arith
reserve-le (w ∷ ws) = omega (arith, reserve-le ws)

-- The log, the block layer and, for each operation in progress, how often it has called log_write.
pub record World : Type 0 where
  pub log : Log
  pub blocks : Blocks
  pub calls : List ℕ

-- The calls of the file system in any order: an operation begins, logs a block or ends.
pub data Step (w w' : World) : Type 0 where
  begin : begin_op w.log ≡ some w'.log → w'.calls ≡ 0 ∷ w.calls → Step w w'
  write :
      (b : ℕ) (v : Bytes) (front back : List ℕ) (n : ℕ)
      → w.calls ≡ front ++ (n ∷ back)
      → n < maxopblocks
      → log_write b v w.log w.blocks ≡ some (w'.log, w'.blocks)
      → w'.calls ≡ front ++ ((n + 1) ∷ back)
      → Step w w'
  end :
      (front back : List ℕ) (n : ℕ)
      → w.calls ≡ front ++ (n ∷ back)
      → end_op w.log w.blocks ≡ some (w'.log, w'.blocks)
      → w'.calls ≡ front ++ back
      → Step w w'

pub data Reach (w : World) : World → Type 0 where
  here : Reach w w
  next : {u v : World} → Reach w u → Step u v → Reach w v

-- Each operation counts once in `outstanding`, and the log has room for all that they reserve.
pub record IsReserved (w : World) : Type 0 where
  pub counted : w.log.outstanding ≡ length w.calls
  pub room : length w.log.lh + reserve w.calls ≤ logsize
  pub large : logsize < w.log.size

begin_op-IsReserved :
    (l l' : Log) (ws : List ℕ)
    → begin_op l ≡ some l'
    → l.outstanding ≡ length ws
    → logsize < l.size
    → (l'.outstanding ≡ suc (length ws))
      × (length l'.lh + (maxopblocks + reserve ws) ≤ logsize)
      × (logsize < l'.size)
unfolding begin_op
begin_op-IsReserved l l' ws e c big = ground (arith, reserve-le ws)

log_write_lem :
    (b : ℕ) (v : Bytes) (l l' : Log) (s s' : Blocks)
    → log_write b v l s ≡ some (l', s')
    → (l'.outstanding ≡ l.outstanding) × (length l'.lh ≤ length l.lh + 1) × (l'.size ≡ l.size)
unfolding log_write
log_write_lem b v l l' s s' e = ground (arith, length-absorb b l.lh)

commit_lem :
    (l : Log) (s : Blocks)
    → ((commit l s).0.outstanding ≡ l.outstanding)
      × ((commit l s).0.size ≡ l.size)
      × (length (commit l s).0.lh ≤ length l.lh)
unfolding commit
commit_lem l s = ground arith

end_op_lem :
    (l l' : Log) (s s' : Blocks)
    → end_op l s ≡ some (l', s')
    → (l.outstanding ≡ l'.outstanding + 1) × (length l'.lh ≤ length l.lh) × (l'.size ≡ l.size)
unfolding end_op
end_op_lem l l' s s' e =
    ground (arith, commit_lem (record l { outstanding = l.outstanding - 1; committing = true }) s)

Step-IsReserved : {w w' : World} → IsReserved w → Step w w' → IsReserved w'
Step-IsReserved {w} {w'} inv (begin e c) =
    let out = begin_op-IsReserved w.log w'.log w.calls e inv.counted inv.large in
    record { counted = rw c out.0; room = rw c out.1; large = out.2 }
Step-IsReserved {w} {w'} inv (write b v front back n c lt e c') =
    let out = log_write_lem b v w.log w'.log w.blocks w'.blocks e in
    let room = rw c at inv.room in
    let counted = rw c at inv.counted in
    record {
      counted = rw c' (
          omega (
            arith,
            out.0,
            counted,
            length-append front (n ∷ back),
            length-append front ((n + 1) ∷ back),
          ));
      room = rw c' (
          omega (
            arith,
            out.1,
            room,
            reserve-append front (n ∷ back),
            reserve-append front ((n + 1) ∷ back),
          ));
      large = omega (arith, out.2, inv.large);
    }
Step-IsReserved {w} {w'} inv (end front back n c e c') =
    let out = end_op_lem w.log w'.log w.blocks w'.blocks e in
    let room = rw c at inv.room in
    let counted = rw c at inv.counted in
    record {
      counted =
          rw c' (
            omega
              (arith, out.0, counted, length-append front (n ∷ back), length-append front back));
      room =
          rw c' (
            omega (arith, out.1, room, reserve-append front (n ∷ back), reserve-append front back));
      large = omega (arith, out.2, inv.large);
    }

-- However the operations interleave, their reservations hold.
pub Reach-IsReserved : {w w' : World} → IsReserved w → Reach w w' → IsReserved w'
Reach-IsReserved inv here = inv
Reach-IsReserved inv (next r st) = Step-IsReserved (Reach-IsReserved inv r) st

log_write_fits :
    (b : ℕ) (v : Bytes) (l : Log) (s : Blocks)
    → length l.lh < logsize
    → logsize < l.size
    → 0 < l.outstanding
    → log_write b v l s ≡ some (record l { lh = absorb b l.lh }, bpin b v s)
unfolding log_write
log_write_fits b v l s room large inside = ground arith

-- From a log whose reservations hold, as one that is idle, empty and has more than LOGSIZE blocks on the
-- disk, however operations begin, log blocks and end, where each operation that begins after that calls
-- log_write at most MAXOPBLOCKS times: one that has called log_write fewer than MAXOPBLOCKS times can
-- call it once more without a panic.
pub log_write_never_full :
    {w w' : World} (front back : List ℕ) (n b : ℕ) (v : Bytes)
    → IsReserved w
    → Reach w w'
    → w'.calls ≡ front ++ (n ∷ back)
    → n < maxopblocks
    → log_write b v w'.log w'.blocks
      ≡ some (record (w'.log) { lh = absorb b w'.log.lh }, bpin b v w'.blocks)
log_write_never_full {w'} front back n b v inv r c lt =
    let inv' = Reach-IsReserved inv r in
    let room = rw c at inv'.room in
    let counted = rw c at inv'.counted in
    log_write_fits b v w'.log w'.blocks (omega (arith, room, reserve-append front (n ∷ back)))
      inv'.large (omega (arith, counted, length-append front (n ∷ back)))
