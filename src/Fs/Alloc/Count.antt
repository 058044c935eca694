-- ===== src/Fs/Alloc/Count.antt =====
-- count_free_blocks of kernel/fs.c counts the free blocks of the disk.
use native.Mathlib.Numerals.{add-one}
use fyp_os.Prelude.{
  ℕ, zero, suc, ◌+◌, ◌*◌, ◌%◌, ◌^◌, ◌≤◌, ◌<◌, ◌≡◌, refl, Bool, some, arith, min, ltb, if◌then◌else◌,
  ap, ◌∙◌, Bool-cases, ltb→lt, ltb→le, inl, inr,
}
use fyp_os.Blocks.{Blocks, bread}
use fyp_os.Fs.{Superblock, bpb, bblock, readsb}
use fyp_os.Fs.Bits.{in_use}
use fyp_os.Fs.Alloc.{count_bits, count_loop, count_free_blocks}

-- Block `b` is marked in the free map.
abbrev pub allocated : Superblock → Blocks → ℕ → Bool
allocated sb s b = in_use (bread s (bblock b sb)) (b % bpb)

-- How many of the blocks below `n` are free.
abbrev pub free_below : Superblock → Blocks → ℕ → ℕ
free_below sb s zero = 0
free_below sb s (suc n) = (if allocated sb s n then 0 else 1) + free_below sb s n

module _ (sb : Superblock) (s : Blocks) where
  free_below_step :
      (n : ℕ)
      → free_below sb s (n + 1)
        ≡ (if allocated sb s n then free_below sb s n else free_below sb s n + 1)
  free_below_step n = ap (free_below sb s) (add-one n) ∙ ground arith

  allocated_bit :
      (b bi : ℕ)
      → b % bpb ≡ 0
      → bi < bpb
      → allocated sb s (b + bi) ≡ in_use (bread s (bblock b sb)) bi
  allocated_bit b bi al lt =
      let e : bblock (b + bi) sb ≡ bblock b sb = omega arith in
      let e' : (b + bi) % bpb ≡ bi = omega arith in rw (e, e')

  count_bits-free_below :
      (k b bi : ℕ)
      → b % bpb ≡ 0
      → bi + k ≡ bpb
      → b + bi ≤ sb.size
      → count_bits k (bread s (bblock b sb)) b sb.size bi (free_below sb s (b + bi))
        ≡ free_below sb s (min sb.size (b + bpb))
  unfolding count_bits
  count_bits-free_below zero b bi al e le = ap (free_below sb s) (omega arith)
  count_bits-free_below (suc k) b bi al e le = elim (Bool-cases (ltb (b + bi) sb.size)) [
    | inl go ↦
        let lt = ltb→lt _ _ go in
        let next : b + (bi + 1) ≡ b + bi + 1 = omega arith in
        let ih = count_bits-free_below k b (bi + 1) al (omega arith) (omega arith) in
        let step = rw (next, free_below_step (b + bi), allocated_bit b bi al (omega arith)) at ih in
        rw go step
    | inr stop ↦ rw stop (ap (free_below sb s) (omega (arith, ltb→le _ _ stop)))
  ]

  count_loop-free_below :
      (f b : ℕ)
      → b % bpb ≡ 0
      → sb.size < 2 ^ 31
      → b < sb.size + bpb
      → sb.size + bpb ≤ b + f * bpb
      → count_loop f sb b (free_below sb s (min sb.size b)) s ≡ some (free_below sb s sb.size)
  unfolding count_loop
  count_loop-free_below zero b al small lo fuel = absurd (omega arith)
  count_loop-free_below (suc f) b al small lo fuel = elim (Bool-cases (ltb b sb.size)) [
    | inl go ↦
        let lt = ltb→lt _ _ go in
        let wrap : (b + bpb) % 2 ^ 32 ≡ b + bpb = omega arith in
        let start : min sb.size b ≡ b + 0 = omega arith in
        let ih =
          count_loop-free_below f (b + bpb) (omega arith) small (omega arith) (omega arith) in
        rw (go, wrap, start, count_bits-free_below bpb b 0 al refl (omega arith)) ih
    | inr stop ↦ rw stop (ap (λ n. some (free_below sb s n)) (omega (arith, ltb→le _ _ stop)))
  ]

-- With a superblock of fewer than 2 ^ 31 blocks, and fuel for a round more than there are bitmap
-- blocks, `count_free_blocks` returns how many blocks of the disk are not marked in the free map.
pub count_free_blocks_lem :
    (f : ℕ) (s : Blocks)
    → (readsb s).size < 2 ^ 31
    → (readsb s).size + bpb ≤ f * bpb
    → count_free_blocks f s ≡ some (free_below (readsb s) s (readsb s).size)
unfolding count_free_blocks
count_free_blocks_lem f s small fuel =
    let e : min (readsb s).size 0 ≡ 0 = omega arith in
    let loop = count_loop-free_below (readsb s) s f 0 refl small (omega arith) (omega arith) in
    rw e at loop
