-- ===== src/Fs/Content/Read.antt =====
-- readi of kernel/fs.c reads the bytes of the file.
use fyp_os.Prelude.{
  ℕ, zero, suc, ◌+◌, ◌-◌, ◌*◌, ◌/◌, ◌%◌, ◌^◌, min, ◌≤◌, ◌<◌, ◌≡◌, ◌≢◌, refl, ap, ◌∙◌, Bool, true,
  false, ◌&&◌, some, arith, inl, inr, Bytes, ltb, leb, if◌then◌else◌, Bool-cases, ne→==, ltb→lt,
  ltb→le, le→ltb, copy_over,
}
use fyp_os.Blocks.{bread}
use fyp_os.Fs.{Superblock, bsize}
use fyp_os.Fs.Content.{
  Held, Copy, ensure, bmap_entry, bmap, maxfile, either_copy, readi_loop, readi,
}
use fyp_os.Fs.Content.Map.{block_of}

-- A block of the file that is there is found without a change.
pub bmap_there :
    (fuel : ℕ) (sb : Superblock) (bn : ℕ) (h : Held)
    → bn < maxfile
    → block_of h.ip h.blocks bn ≢ 0
    → bmap fuel sb bn h ≡ some (block_of h.ip h.blocks bn, h)
unfolding bmap ensure bmap_entry
bmap_there fuel sb bn h lt is = ground arith

-- Byte `i` of the file.
abbrev pub byte_at : Held → ℕ → ℕ
byte_at h i = bread h.blocks (block_of h.ip h.blocks (i / bsize)) (i % bsize)

-- The reader's memory after `n` bytes of the file from `off` on have come to `dst`.
abbrev pub file_over : Bytes → ℕ → Held → ℕ → ℕ → Bytes
file_over mem dst h off n a =
    if leb dst a && ltb a (dst + n) then byte_at h (off + (a - dst)) else mem a

-- A chunk that stays in one block, and then the rest.
pub chunk_over :
    (h : Held) (off n m dst : ℕ) (mem : Bytes) (a : ℕ)
    → m ≤ n
    → off % bsize + m ≤ bsize
    → file_over
        (copy_over mem dst (bread h.blocks (block_of h.ip h.blocks (off / bsize))) (off % bsize) m)
        (dst + m)
        h
        (off + m)
        (n - m)
        a
      ≡ file_over mem dst h off n a
chunk_over h off n m dst mem a le within = elim (Bool-cases (ltb a dst)) [
  | inl low ↦ ground arith
  | inr high ↦ elim (Bool-cases (ltb a (dst + m))) [
    | inl now ↦
        let ge = ltb→le _ _ high in
        let lt = ltb→lt _ _ now in
        let q : (off + (a - dst)) / bsize ≡ off / bsize = omega arith in
        let r : (off + (a - dst)) % bsize ≡ off % bsize + (a - dst) = omega arith in
        rw (q, r) (ground arith)
    | inr later ↦
        let ge = ltb→le _ _ later in
        let s : off + m + (a - (dst + m)) ≡ off + (a - dst) = omega arith in ground (arith, s)
  ]
]

module _ (fuel : ℕ) (sb : Superblock) (copy : Copy) (user : Bool)
    (works : (m : Bytes) (d : ℕ) (src : Bytes) (s n : ℕ)
      → either_copy copy user m d src s n ≡ (true, copy_over m d src s n))
    (h : Held) where
  readi_loop-file_over :
      (k off tot n left dst : ℕ) (mem : Bytes)
      → tot + left ≡ n
      → left ≤ k
      → off + left ≤ maxfile * bsize
      → ((i : ℕ) → i < off + left → block_of h.ip h.blocks (i / bsize) ≢ 0)
      → (mem' : Bytes) × (readi_loop fuel sb copy user k off tot n dst mem h
          ≡ some (some n, mem', h))
        × ((a : ℕ) → mem' a ≡ file_over mem dst h off left a)
  unfolding readi_loop
  readi_loop-file_over zero off tot n left dst mem sum enough bound there =
      let e : tot ≡ n = omega arith in (mem, rw e refl, λ a. ground arith)
  readi_loop-file_over (suc k) off tot n left dst mem sum enough bound there =
      elim (Bool-cases (ltb tot n)) [
        | inr stop ↦
            let e : tot ≡ n = omega (arith, ltb→le _ _ stop) in
            (mem, rw stop (ap (λ t. some (some t, mem, h)) e), λ a. ground (arith, ltb→le _ _ stop))
        | inl go ↦
            let lt = ltb→lt _ _ go in
            let m = min (n - tot) (bsize - off % bsize) in
            let addr = block_of h.ip h.blocks (off / bsize) in
            let mem1 = copy_over mem dst (bread h.blocks addr) (off % bsize) m in
            let is = there off (omega arith) in
            let found = bmap_there fuel sb (off / bsize) h (omega arith) is in
            let (mem', e, over) =
              readi_loop-file_over k (off + m) (tot + m) n (left - m) (dst + m) mem1 (omega arith)
                (omega arith) (omega arith) (λ i lt'. there i (omega arith)) in
            (
              mem',
              rw (go, found, works mem dst (bread h.blocks addr) (off % bsize) m, ne→== _ _ is) e,
              λ a. over a ∙ chunk_over h off left m dst mem a (omega arith) (omega arith),
            )
      ]

  -- Where the copies to the reader work, the file is no larger than MAXFILE blocks, it has a block
  -- wherever it has a byte, and `off + n` does not overflow, `readi` returns the number of bytes from
  -- `off` on that are both asked for and in the file, puts exactly these bytes of the file at `dst`,
  -- changes nothing else in the reader's memory, and leaves the inode and the disk alone.
  pub readi-file_over :
      (dst off n : ℕ) (mem : Bytes)
      → h.ip.size ≤ maxfile * bsize
      → ((i : ℕ) → i < h.ip.size → block_of h.ip h.blocks (i / bsize) ≢ 0)
      → off + n < 2 ^ 32
      → (mem' : Bytes) × (readi fuel sb copy user dst off n mem h
          ≡ some (some (min n (h.ip.size - off)), mem', h))
        × ((a : ℕ) → mem' a ≡ file_over mem dst h off (min n (h.ip.size - off)) a)
  unfolding readi
  readi-file_over dst off n mem bound there fits =
      let size = h.ip.size in
      let end : (off + n) % 2 ^ 32 ≡ off + n = omega arith in
      let forward : ltb (off + n) off ≡ false = le→ltb _ _ (omega arith) in
      elim (Bool-cases (ltb size off)) [
        | inl past ↦
            let z : min n (size - off) ≡ 0 = omega (arith, ltb→lt _ _ past) in
            (mem, rw (end, past, z) refl, λ a. rw z (ground arith))
        | inr within ↦
            let le = ltb→le _ _ within in
            elim (Bool-cases (ltb size (off + n))) [
              | inl cut ↦
                  let m : min n (size - off) ≡ size - off = omega (arith, ltb→lt _ _ cut) in
                  rw (end, within, forward, cut, m)
                    (readi_loop-file_over (size - off) off 0 (size - off) (size - off) dst mem
                      (omega arith) (omega arith) (omega arith) (λ i lt. there i (omega arith)))
              | inr whole ↦
                  let m : min n (size - off) ≡ n = omega (arith, ltb→le _ _ whole) in
                  rw (end, within, forward, whole, m)
                    (readi_loop-file_over n off 0 n n dst mem (omega arith) (omega arith)
                      (omega (arith, ltb→le _ _ whole))
                      (λ i lt. there i (omega (arith, ltb→le _ _ whole))))
            ]
      ]
