-- ===== src/Fs/Content/Write.antt =====
-- writei of kernel/fs.c against the bytes of the file.
use fyp_os.Prelude.{
  ℕ, zero, suc, ◌+◌, ◌-◌, ◌*◌, ◌/◌, ◌%◌, ◌^◌, min, ◌≤◌, ◌<◌, ◌≡◌, ◌⊎◌, refl, sym, subst, ◌∙◌, Bool,
  true, false, Option, some, arith, inl, inr, Bytes, ◌==◌, ltb, Bool-cases, ==→eq, ==→ne, ltb→le,
  ltb→lt, copy_over,
}
use fyp_os.Blocks.{bread, bpin}
use fyp_os.Fs.{Superblock, bsize, bpb}
use fyp_os.Fs.Bits.{AllBytes}
use fyp_os.Fs.Alloc.Take.{HasRoom, log_write_ok}
use fyp_os.Fs.Content.{Held, maxfile, Copy, either_copy, writei_loop}
use fyp_os.Fs.Content.Map.{IsFullDisk}
use fyp_os.Fs.Content.Bmap.{bmap-Mapped, HasRoom-weaken}
use fyp_os.Fs.Content.Whole.{IsWhole}
use fyp_os.Fs.Content.Wrote.{
  block_at, Wrote-trans, bmap-Wrote, empty-Wrote, Wrote-after, chunk_at-Wrote, Wrote,
}

module _ (sb : Superblock) (mem : Bytes) where
  positive_suc : (r : ℕ) → 0 < r → (r' : ℕ) × (r ≡ suc r')
  positive_suc zero lt = absurd (omega arith)
  positive_suc (suc r) lt = (r, refl)

  nothing_more :
      (tot off : ℕ) (h : Held)
      → ◌≡◌ {A = Option (ℕ × ℕ × Held)} (some (tot, off, h)) (some (tot + 0, off + 0, h))
  nothing_more tot off h =
      let a : tot + 0 ≡ tot = omega arith in let b : off + 0 ≡ off = omega arith in rw (a, b) refl

  more_after :
      (tot off m t : ℕ) (h : Held)
      → ◌≡◌ {A = Option (ℕ × ℕ × Held)}
          (some (tot + m + t, off + m + t, h))
          (some (tot + (m + t), off + (m + t), h))
  more_after tot off m t h =
      let a : tot + m + t ≡ tot + (m + t) = omega arith in
      let b : off + m + t ≡ off + (m + t) = omega arith in rw (a, b) refl

  module _ (fuel : ℕ) (enough : sb.size + bpb ≤ fuel * bpb) (few : sb.size + bpb ≤ 2 ^ 31)
      (copy : Copy) (user : Bool) where
    -- A copy in one go: all of it, or the copy fails after a part.
    abbrev pub CopiesOrFails : Type 0
    CopiesOrFails =
        (m : Bytes) (d : ℕ) (from : Bytes) (s n : ℕ)
        → (either_copy copy user m d from s n ≡ (true, copy_over m d from s n))
          ⊎ ((j : ℕ) × (j ≤ n)
              × (either_copy copy user m d from s n ≡ (false, copy_over m d from s j)))

    -- Why a write ends early that has `left` bytes left: there is no block for the next byte and none
    -- on the disk is free; or the copy of the next bytes, to the end of their block at most, fails and
    -- leaves `j` of them in the buffer.
    abbrev pub Stopped : ℕ → ℕ → ℕ → ℕ → Held → Type 0
    Stopped src off left j h =
        (j ≡ 0) × (block_at h off ≡ 0) × IsFullDisk sb h
        ⊎ ((m : Bytes) × (either_copy copy user m (off % bsize) mem src
                (min left (bsize - off % bsize))
              ≡ (false, copy_over m (off % bsize) mem src j)))

    -- How a write of `left` bytes ends that returns `tot` and `off`, with the bytes done before it, and
    -- `j` bytes that a copy that failed has left.
    abbrev pub WroteSome : ℕ → ℕ → ℕ → ℕ → ℕ → Held → Option (ℕ × ℕ × Held) → Type 0
    WroteSome room src off tot left h r =
        (t j : ℕ) × (h' : Held) × (t + j ≤ left)
        × (r ≡ some (tot + t, off + t, h'))
        × Wrote sb mem src off (t + j) h h'
        × HasRoom room h'.log
        × ((t ≡ left) × (j ≡ 0) ⊎ Stopped (src + t) (off + t) (left - t) j h')

    moved-Stopped :
        (src off left : ℕ) {src' off' left' : ℕ} (j : ℕ) (h : Held)
        → src ≡ src'
        → off ≡ off'
        → left ≡ left'
        → Stopped src off left j h
        → Stopped src' off' left' j h
    moved-Stopped src off left {src'} {off'} {left'} j h e e' e'' stop =
        subst (λ x. Stopped src' off' x j h) e''
          (subst (λ x. Stopped src' x left j h) e' (subst (λ x. Stopped x off left j h) e stop))

    as_many :
        {src off a b : ℕ} {h h' : Held}
        → a ≡ b
        → Wrote sb mem src off a h h'
        → Wrote sb mem src off b h h'
    as_many {src} {off} {h} {h'} e w = subst (λ x. Wrote sb mem src off x h h') e w

    module _ (honest : CopiesOrFails) (bytes : AllBytes mem) where
      pub writei_loop-WroteSome :
          (k r room src off tot n left : ℕ) (h : Held)
          → tot + left ≡ n
          → left ≤ k
          → off + left ≤ maxfile * bsize
          → (left ≡ 0) ⊎ (off % bsize + left ≤ r * bsize)
          → HasRoom (6 * r + room) h.log
          → IsWhole sb h
          → WroteSome room src off tot left h (writei_loop fuel sb copy user k off tot n src mem h)
      unfolding writei_loop
      writei_loop-WroteSome zero r room src off tot n left h sum ok bound rounds has whole = (
        0,
        0,
        h,
        omega arith,
        nothing_more tot off h,
        empty-Wrote sb mem src off h (omega arith) whole,
        HasRoom-weaken room (6 * r + room) h.log (omega arith) has,
        inl (omega arith, refl),
      )
      writei_loop-WroteSome (suc k) r room src off tot n left h sum ok bound rounds has whole =
          let weak = HasRoom-weaken room (6 * r + room) h.log (omega arith) has in
          elim (Bool-cases (ltb tot n)) [
            | inr stop ↦ (
              0,
              0,
              h,
              omega arith,
              rw stop (nothing_more tot off h),
              empty-Wrote sb mem src off h (omega arith) whole,
              weak,
              inl (omega (arith, ltb→le _ _ stop), refl),
            )
            | inl go ↦
                let lt = ltb→lt _ _ go in
                let m = min (n - tot) (bsize - off % bsize) in
                let (r', er) : (r' : ℕ) × (r ≡ suc r') =
                  positive_suc r
                    (elim rounds [ inl z ↦ absurd (omega arith) | inr le ↦ omega arith ]) in
                let has' : HasRoom (6 * r' + room + 1 + 5) h.log =
                  HasRoom-weaken (6 * r' + room + 1 + 5) (6 * r + room) h.log (omega arith) has in
                let (addr, h1, e, mapped) =
                  bmap-Mapped sb fuel enough few (6 * r' + room + 1) (off / bsize) h has'
                    whole.mapped whole.placed (omega arith) in
                let weak' =
                  HasRoom-weaken room (6 * r' + room + 1) h1.log (omega arith) mapped.room in
                let w1 =
                  bmap-Wrote sb mem (6 * r' + room + 1) addr src off h h1 (omega arith) whole
                    mapped in
                elim (Bool-cases (addr == 0)) [
                  | inl full ↦
                      let none' = ==→eq _ _ full in
                      rw (go, e, full)
                        (
                          0,
                          0,
                          h1,
                          omega arith,
                          nothing_more tot off h1,
                          w1,
                          weak',
                          inr (
                              moved-Stopped src off left 0 h1 (omega arith) (omega arith)
                                (omega arith)
                                (inl (refl, sym mapped.result ∙ none', mapped.full none'))),
                        )
                  | inr is ↦ elim (honest (bread h1.blocks addr) (off % bsize) mem src m) [
                    | inr (j, short, fails) ↦
                        let h2 = record h1 {
                          blocks =
                              bpin addr (copy_over (bread h1.blocks addr) (off % bsize) mem src j)
                                h1.blocks;
                        } in
                        let w2 =
                          chunk_at-Wrote sb mem addr src off j h1 h1.log mapped.result w1.whole
                            (==→ne _ _ is) (omega arith) (omega arith) bytes in
                        rw (go, e, is, fails)
                          (
                            0,
                            j,
                            h2,
                            omega arith,
                            nothing_more tot off h2,
                            as_many (omega arith) (Wrote-after sb mem src off j h h1 h2 w1 w2),
                            weak',
                            inr (
                                moved-Stopped src off (n - tot) j h2 (omega arith) (omega arith)
                                  (omega arith) (inr (bread h1.blocks addr, fails))),
                          )
                    | inl works ↦
                        let v = copy_over (bread h1.blocks addr) (off % bsize) mem src m in
                        let (l2, e2, room2) = log_write_ok addr (6 * r' + room) v h1.log h1.blocks (
                          HasRoom-weaken (suc (6 * r' + room)) (6 * r' + room + 1) h1.log
                            (omega arith) mapped.room) in
                        let span : off % bsize + left ≤ suc r' * bsize = elim rounds [
                          | inl z ↦ absurd (omega arith)
                          | inr le ↦ rw er at le
                        ] in
                        let next_rounds : (left - m ≡ 0)
                            ⊎ ((off + m) % bsize + (left - m) ≤ r' * bsize) =
                          elim (Bool-cases (ltb left (bsize - off % bsize))) [
                            | inl last ↦ inl (omega (arith, ltb→lt _ _ last))
                            | inr more ↦ inr (omega (arith, ltb→le _ _ more))
                          ] in
                        let h2 = record h1 { log = l2; blocks = bpin addr v h1.blocks } in
                        let w2 =
                          chunk_at-Wrote sb mem addr src off m h1 l2 mapped.result w1.whole
                            (==→ne _ _ is) (omega arith) (omega arith) bytes in
                        let (t, j, h3, le, e3, w3, room3, end) =
                          writei_loop-WroteSome k r' room (src + m) (off + m) (tot + m) n (left - m)
                            h2 (omega arith) (omega arith) (omega arith) next_rounds room2
                            w2.whole in
                        rw (go, e, is, works, e2)
                          (
                            m + t,
                            j,
                            h3,
                            omega arith,
                            e3 ∙ more_after tot off m t h3,
                            as_many (omega arith) (
                                Wrote-after sb mem src off (m + (t + j)) h h1 h3 w1
                                  (Wrote-trans sb mem src off m (t + j) h1 h2 h3 w2 w3)),
                            room3,
                            elim end [
                              | inl (all, none') ↦ inl (omega arith, none')
                              | inr stop ↦ inr (
                                  moved-Stopped (src + m + t) (off + m + t) (left - m - t) j h3
                                    (omega arith) (omega arith) (omega arith) stop)
                            ],
                          )
                  ]
                ]
          ]
