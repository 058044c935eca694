-- ===== src/Fs/Alloc/Take.antt =====
-- balloc of kernel/fs.c against the free map.
use fyp_os.Prelude.{
  ℕ, zero, suc, ◌+◌, ◌-◌, ◌*◌, ◌%◌, ◌^◌, ◌≤◌, ◌<◌, ◌≡◌, ◌≢◌, ◌⊎◌, refl, true, false, Option, none,
  some, arith, ltb, length, if◌then◌else◌, ◌==◌, Bytes, ap, Bool-cases, Option-cases, ltb→lt,
  ltb→le, inl, inr,
}
use fyp_os.Kstring.{memset}
use fyp_os.Kstring.Move.{memset-fill}
use fyp_os.Blocks.{Blocks, bread, bpin}
use fyp_os.Log.{Log, log_write, logsize, absorb}
use fyp_os.Log.Space.{length-absorb}
use fyp_os.Fs.{Superblock, bsize, bpb, bblock}
use fyp_os.Fs.Bits.{in_use, mark, in_use-mark, AllBytes, mark-AllBytes}
use fyp_os.Fs.Alloc.{bzero, find_free, take_block, balloc_loop, balloc}
use fyp_os.Fs.Alloc.Count.{allocated}

-- The log takes `n` more blocks.
pub record HasRoom (n : ℕ) (l : Log) : Type 0 where
  pub slots : length l.lh + n ≤ logsize
  pub large : logsize < l.size
  pub inside : 0 < l.outstanding

pub log_write_ok :
    (b n : ℕ) (v : Bytes) (l : Log) (s : Blocks)
    → HasRoom (suc n) l
    → (l' : Log) × (log_write b v l s ≡ some (l', bpin b v s)) × HasRoom n l'
unfolding log_write
log_write_ok b n v l s room = (
  record l { lh = absorb b l.lh },
  ground (arith, room.slots, room.large, room.inside),
  record {
    slots = omega (arith, length-absorb b l.lh, room.slots);
    large = room.large;
    inside = room.inside;
  },
)

memset-AllBytes : (m : Bytes) (d c n : ℕ) → AllBytes m → AllBytes (memset m d c n)
memset-AllBytes m d c n bytes i = ground (arith, bytes i, memset-fill m d c n i)

pub bread-bpin :
    (b c : ℕ) (v : Bytes) (s : Blocks) → bread (bpin b v s) c ≡ (if b == c then v else bread s c)
unfolding bread bpin
bread-bpin b c v s = ground arith

find_free-some :
    (k : ℕ) (d : Bytes) (b size bi r : ℕ)
    → find_free k d b size bi ≡ some r
    → (bi ≤ r) × (r < bi + k) × (b + r < size) × (in_use d r ≡ false)
unfolding find_free
find_free-some zero d b size bi r e = absurd (cc)
find_free-some (suc k) d b size bi r e = ground (arith, find_free-some k d b size (bi + 1) r)

find_free-none :
    (k : ℕ) (d : Bytes) (b size bi r : ℕ)
    → find_free k d b size bi ≡ none
    → bi ≤ r
    → r < bi + k
    → b + r < size
    → in_use d r ≡ true
unfolding find_free
find_free-none zero d b size bi r e lo hi lt = absurd (omega arith)
find_free-none (suc k) d b size bi r e lo hi lt = elim (Bool-cases (bi == r)) [
  | inl here ↦ ground arith
  | inr later ↦ ground (arith, find_free-none k d b size (bi + 1) r)
]

-- A free map whose own blocks are marked, and whose blocks hold bytes.
pub record IsMapped (sb : Superblock) (s : Blocks) : Type 0 where
  pub marked : (b : ℕ) → b < sb.size → allocated sb s (bblock b sb) ≡ true
  pub inside : (b : ℕ) → b < sb.size → bblock b sb < sb.size
  pub bytes : (b : ℕ) → AllBytes (bread s b)

-- What `balloc` does when it hands out block `r`.
pub record Taken (sb : Superblock) (r : ℕ) (s s' : Blocks) : Type 0 where
  pub in_disk : r < sb.size
  pub was_free : allocated sb s r ≡ false
  pub now : (c : ℕ) → c < sb.size → allocated sb s' c ≡ (if r == c then true else allocated sb s c)
  pub bytes : (b : ℕ) → AllBytes (bread s' b)
  pub zeroed : (i : ℕ) → i < bsize → bread s' r i ≡ 0
  pub others : (c : ℕ) → c ≢ r → c ≢ bblock r sb → bread s' c ≡ bread s c

module _ (sb : Superblock) where
  -- A free block is no block of the free map.
  pub not_bitmap :
      (r c : ℕ) (s : Blocks)
      → IsMapped sb s
      → allocated sb s r ≡ false
      → c < sb.size
      → bblock c sb ≢ r
  not_bitmap r c s mapped free lt e = cc (mapped.marked c lt, ap (allocated sb s) e)

  marked_bits :
      (b bi c : ℕ) (v : Bytes) (s : Blocks)
      → IsMapped sb s
      → b % bpb ≡ 0
      → bi < bpb
      → allocated sb s (b + bi) ≡ false
      → c < sb.size
      → allocated sb (bpin (b + bi) v (bpin (bblock b sb) (mark (bread s (bblock b sb)) bi) s)) c
        ≡ (if b + bi == c then true else allocated sb s c)
  marked_bits b bi c v s mapped al lt free small =
      let d = bread s (bblock b sb) in
      let s1 = bpin (bblock b sb) (mark d bi) s in
      let apart = not_bitmap (b + bi) c s mapped free small in
      let e2 : bread (bpin (b + bi) v s1) (bblock c sb) ≡ bread s1 (bblock c sb) =
        ground (arith, bread-bpin (b + bi) (bblock c sb) v s1) in
      rw (e2, bread-bpin (bblock b sb) (bblock c sb) (mark d bi) s)
        (elim (Bool-cases (bblock b sb == bblock c sb)) [
          | inl same ↦
              rw (same, in_use-mark d bi (c % bpb) (mapped.bytes (bblock b sb))) (ground arith)
          | inr differ ↦ rw differ (ground arith)
        ])

  take_block-Taken :
      (n b bi : ℕ) (l : Log) (s : Blocks)
      → HasRoom (suc (suc n)) l
      → IsMapped sb s
      → b % bpb ≡ 0
      → bi < bpb
      → b + bi < sb.size
      → in_use (bread s (bblock b sb)) bi ≡ false
      → (l' : Log) × (s' : Blocks) × (take_block sb b bi l s ≡ some (b + bi, l', s'))
        × HasRoom n l'
        × Taken sb (b + bi) s s'
  unfolding take_block bzero
  take_block-Taken n b bi l s room mapped al lt in_disk free =
      let bb = bblock b sb in
      let (l1, e1, room1) = log_write_ok bb (suc n) (mark (bread s bb) bi) l s room in
      let s1 = bpin bb (mark (bread s bb) bi) s in
      let (l2, e2, room2) =
        log_write_ok (b + bi) n (memset (bread s1 (b + bi)) 0 0 bsize) l1 s1 room1 in
      let s2 = bpin (b + bi) (memset (bread s1 (b + bi)) 0 0 bsize) s1 in
      let bb' : bblock (b + bi) sb ≡ bb = omega arith in
      let rem : (b + bi) % bpb ≡ bi = omega arith in
      (
        l2,
        s2,
        rw (e1, e2),
        room2,
        record {
          in_disk = in_disk;
          was_free = rw (bb', rem) free;
          now = λ c small. marked_bits b bi c _ s mapped al lt (rw (bb', rem) free) small;
          bytes = λ c. ground (
            arith,
            bread-bpin (b + bi) c (memset (bread s1 (b + bi)) 0 0 bsize) s1,
            bread-bpin bb c (mark (bread s bb) bi) s,
            bread-bpin bb (b + bi) (mark (bread s bb) bi) s,
            mapped.bytes c,
            mark-AllBytes (bread s bb) bi (mapped.bytes bb),
            memset-AllBytes (bread s1 (b + bi)) 0 0 bsize,
          );
          zeroed = λ i small. ground (
            arith,
            bread-bpin (b + bi) (b + bi) (memset (bread s1 (b + bi)) 0 0 bsize) s1,
            memset-fill (bread s1 (b + bi)) 0 0 bsize i,
          );
          others = λ c ne ne'. ground (
            arith,
            bread-bpin (b + bi) c (memset (bread s1 (b + bi)) 0 0 bsize) s1,
            bread-bpin bb c (mark (bread s bb) bi) s,
          );
        },
      )

  -- Every block of the disk is marked, and `balloc` says so by 0.
  abbrev pub IsFull : Log → Blocks → Option (ℕ × Log × Blocks) → Type 0
  IsFull l s r = (r ≡ some (0, l, s)) × ((c : ℕ) → c < sb.size → allocated sb s c ≡ true)

  -- A block is handed out.
  abbrev pub HandsOut : ℕ → Blocks → Option (ℕ × Log × Blocks) → Type 0
  HandsOut n s r =
      (b : ℕ) × (l' : Log) × (s' : Blocks) × (r ≡ some (b, l', s')) × HasRoom n l' × Taken sb b s s'

  block_marked :
      (b : ℕ) (s : Blocks)
      → b % bpb ≡ 0
      → ((c : ℕ) → c < b → c < sb.size → allocated sb s c ≡ true)
      → find_free bpb (bread s (bblock b sb)) b sb.size 0 ≡ none
      → (c : ℕ) → c < b + bpb
      → c < sb.size
      → allocated sb s c ≡ true
  block_marked b s al below none' c hi lt = elim (Bool-cases (ltb c b)) [
    | inl low ↦ below c (ltb→lt _ _ low) lt
    | inr high ↦
        let le = ltb→le _ _ high in
        let same : bblock c sb ≡ bblock b sb = omega arith in
        let rem : c % bpb ≡ c - b = omega arith in
        rw (same, rem)
          (find_free-none bpb (bread s (bblock b sb)) b sb.size 0 (c - b) none' (omega arith)
            (omega arith) (omega arith))
  ]

  balloc_loop_lem :
      (n f b : ℕ) (l : Log) (s : Blocks)
      → HasRoom (suc (suc n)) l
      → IsMapped sb s
      → sb.size + bpb ≤ 2 ^ 31
      → b % bpb ≡ 0
      → ((c : ℕ) → c < b → c < sb.size → allocated sb s c ≡ true)
      → b < sb.size + bpb
      → sb.size + bpb ≤ b + f * bpb
      → IsFull l s (balloc_loop f sb b l s) ⊎ HandsOut n s (balloc_loop f sb b l s)
  unfolding balloc_loop
  balloc_loop_lem n zero b l s room mapped few al below lo fuel = absurd (omega arith)
  balloc_loop_lem n (suc f) b l s room mapped few al below lo fuel =
      elim (Bool-cases (ltb b sb.size)) [
        | inl go ↦ elim (Option-cases (find_free bpb (bread s (bblock b sb)) b sb.size 0)) [
          | inl none' ↦
              let stays : (b + bpb) % 2 ^ 32 ≡ b + bpb = omega (arith, ltb→lt _ _ go) in
              rw (go, none', stays)
                (balloc_loop_lem n f (b + bpb) l s room mapped few (omega arith)
                  (block_marked b s al below none') (omega (arith, ltb→lt _ _ go)) (omega arith))
          | inr (bi, found) ↦
              let at = find_free-some bpb (bread s (bblock b sb)) b sb.size 0 bi found in
              let (l', s', e, room', taken) =
                take_block-Taken n b bi l s room mapped al (omega (arith, at.1)) at.2 at.3 in
              rw (go, found) (inr (b + bi, l', s', e, room', taken))
        ]
        | inr stop ↦ rw stop (inl (refl, λ c lt. below c (omega (arith, ltb→le _ _ stop)) lt))
      ]

  -- With room for two more blocks than `n` in the log, a free map whose own blocks are marked, a disk
  -- of at most 2 ^ 31 - BPB blocks and fuel for a round more than there are bitmap blocks, `balloc` does not panic. It returns 0 and
  -- changes nothing where every block is marked; otherwise it leaves room for `n` blocks, hands out a
  -- block that was free, marks that block and no other, fills it with zeros and changes no block but
  -- it and its bitmap block.
  pub balloc_lem :
      (n f : ℕ) (l : Log) (s : Blocks)
      → HasRoom (suc (suc n)) l
      → IsMapped sb s
      → sb.size + bpb ≤ 2 ^ 31
      → sb.size + bpb ≤ f * bpb
      → IsFull l s (balloc f sb l s) ⊎ HandsOut n s (balloc f sb l s)
  unfolding balloc
  balloc_lem n f l s room mapped few fuel =
      balloc_loop_lem n f 0 l s room mapped few refl (λ c h lt. absurd (omega arith)) (omega arith)
        (omega arith)
