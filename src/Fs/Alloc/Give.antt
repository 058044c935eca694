-- ===== src/Fs/Alloc/Give.antt =====
-- bfree of kernel/fs.c against the free map.
use fyp_os.Prelude.{
  ℕ, ◌%◌, ◌<◌, ◌≡◌, ◌≢◌, ◌⊎◌, true, false, none, some, arith, if◌then◌else◌, ◌==◌, Bool-cases, inl,
  inr,
}
use fyp_os.Fs.Alloc.Take.{HasRoom, log_write_ok, bread-bpin}
use fyp_os.Blocks.{Blocks, bread, bpin}
use fyp_os.Log.{Log}
use fyp_os.Fs.{Superblock, bpb, bblock}
use fyp_os.Fs.Bits.{unmark, in_use-unmark, AllBytes}
use fyp_os.Fs.Alloc.{bfree}
use fyp_os.Fs.Alloc.Count.{allocated}

module _ (sb : Superblock) where
  freed_bits :
      (b c : ℕ) (s : Blocks)
      → AllBytes (bread s (bblock b sb))
      → allocated sb (bpin (bblock b sb) (unmark (bread s (bblock b sb)) (b % bpb)) s) c
        ≡ (if b == c then false else allocated sb s c)
  freed_bits b c s bytes =
      let d = bread s (bblock b sb) in
      rw (bread-bpin (bblock b sb) (bblock c sb) (unmark d (b % bpb)) s)
        (elim (Bool-cases (bblock b sb == bblock c sb)) [
          | inl same ↦ rw (same, in_use-unmark d (b % bpb) (c % bpb) bytes) (ground arith)
          | inr differ ↦ rw differ (ground arith)
        ])

  -- What `bfree` does to a marked block `b`.
  pub record Released (b : ℕ) (s s' : Blocks) : Type 0 where
    pub now :
        (c : ℕ) → c < sb.size → allocated sb s' c ≡ (if b == c then false else allocated sb s c)
    pub others : (c : ℕ) → c ≢ bblock b sb → bread s' c ≡ bread s c

  -- `bfree` of a marked block clears its bit and no other, and changes no block but the bitmap
  -- block; on a free block it panics.
  pub bfree_lem :
      (b : ℕ) (l : Log) (s : Blocks)
      → HasRoom 1 l
      → AllBytes (bread s (bblock b sb))
      → ((allocated sb s b ≡ true)
          × (l' : Log) × (s' : Blocks) × (bfree sb b l s ≡ some (l', s'))
          × Released b s s')
        ⊎ ((allocated sb s b ≡ false) × (bfree sb b l s ≡ none))
  unfolding bfree
  bfree_lem b l s room bytes =
      let bb = bblock b sb in
      let v = unmark (bread s bb) (b % bpb) in
      elim (Bool-cases (allocated sb s b)) [
        | inl marked ↦
            let (l', e, room') = log_write_ok bb 0 v l s room in
            inl (
              marked,
              l',
              bpin bb v s,
              rw marked e,
              record {
                now = λ c lt. freed_bits b c s bytes;
                others = λ c ne. ground (arith, bread-bpin bb c v s);
              },
            )
        | inr free ↦ inr (free, rw free)
      ]
