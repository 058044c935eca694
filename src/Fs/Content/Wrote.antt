-- ===== src/Fs/Content/Wrote.antt =====
-- What writei of kernel/fs.c does to the bytes of a file, a block at a time.
use fyp_os.Prelude.{
  ℕ, ◌+◌, ◌-◌, ◌*◌, ◌/◌, ◌%◌, ◌≤◌, ◌<◌, ◌≡◌, ◌≢◌, ◌⊎◌, refl, sym, ap, subst, ◌∙◌, arith, inl, inr,
  Bytes, ◌==◌, ltb, Bool-cases, ==→eq, ==→ne, ltb→le, ltb→lt, copy_over,
}
use fyp_os.Blocks.{bread, bpin}
use fyp_os.Log.{Log}
use fyp_os.Fs.{Superblock, bsize}
use fyp_os.Fs.Bits.{AllBytes}
use fyp_os.Fs.Inode.{Inode}
use fyp_os.Fs.Content.{Held, maxfile}
use fyp_os.Fs.Content.Map.{block_of, Mapped}
use fyp_os.Fs.Content.Read.{byte_at}
use fyp_os.Fs.Content.Whole.{
  IsWhole, IsOther, Mapped-IsWhole, Mapped-IsOther, Mapped_there, pinned, pinned_elsewhere,
  pinned_here, pinned_block, pinned-IsWhole, pinned-IsOther,
}

-- The block of the disk with byte `i` of the file.
abbrev pub block_at : Held → ℕ → ℕ
block_at h i = block_of h.ip h.blocks (i / bsize)

module _ (sb : Superblock) (mem : Bytes) where
  -- What the writing of `n` bytes from `src` on does to a file from its byte `off` on.
  pub record Wrote (src off n : ℕ) (h h' : Held) : Type 0 where
    pub bound : off + n ≤ maxfile * bsize
    pub whole : IsWhole sb h'
    pub written :
        (i : ℕ)
        → off ≤ i
        → i < off + n
        → (block_at h' i ≢ 0) × (byte_at h' i ≡ mem (src + (i - off)))
    pub kept :
        (i : ℕ)
        → (i < off) ⊎ (off + n ≤ i)
        → i < maxfile * bsize
        → block_at h i ≢ 0
        → (block_at h' i ≢ 0) × (byte_at h' i ≡ byte_at h i)
    pub others : (c : ℕ) → IsOther sb h c → IsOther sb h' c × (bread h'.blocks c ≡ bread h.blocks c)
    pub frame : h'.ip ≡ record h.ip { addrs = h'.ip.addrs }

  pub Wrote-trans :
      (src off m n : ℕ) (h h1 h2 : Held)
      → Wrote src off m h h1
      → Wrote (src + m) (off + m) n h1 h2
      → Wrote src off (m + n) h h2
  Wrote-trans src off m n h h1 h2 a b = record {
    bound = omega (arith, b.bound);
    whole = b.whole;
    written = λ i lo hi. elim (Bool-cases (ltb i (off + m))) [
      | inl early ↦
          let lt = ltb→lt _ _ early in
          let (there, e) = a.written i lo lt in
          let (there', e') = b.kept i (inl lt) (omega (arith, a.bound)) there in (there', e' ∙ e)
      | inr late ↦
          let ge = ltb→le _ _ late in
          let (there, e) = b.written i ge (omega arith) in
          let at : src + m + (i - (off + m)) ≡ src + (i - off) = omega arith in
          (there, e ∙ ap mem at)
    ];
    kept = λ i out small there.
        let before : (i < off) ⊎ (off + m ≤ i) = elim out [
          | inl lt ↦ inl lt
          | inr ge ↦ inr (omega arith)
        ] in
        let after : (i < off + m) ⊎ (off + m + n ≤ i) = elim out [
          | inl lt ↦ inl (omega arith)
          | inr ge ↦ inr (omega arith)
        ] in
        let (there', e) = a.kept i before small there in
        let (there'', e') = b.kept i after small there' in (there'', e' ∙ e);
    others = λ c o. let (o1, e1) = a.others c o in let (o2, e2) = b.others c o1 in (o2, e2 ∙ e1);
    frame = b.frame ∙ ap (λ (x : Inode). record x { addrs = h2.ip.addrs }) a.frame;
  }

  -- A call of `bmap` writes no byte.
  pub bmap-Wrote :
      (n addr src off : ℕ) (h h' : Held)
      → off < maxfile * bsize
      → IsWhole sb h
      → Mapped sb n (off / bsize) addr h h'
      → Wrote src off 0 h h'
  bmap-Wrote n addr src off h h' small whole m =
      let bn = off / bsize in
      let lt : bn < maxfile = omega arith in
      record {
        bound = omega arith;
        whole = Mapped-IsWhole sb n bn addr h h' lt m whole;
        written = λ i lo hi. absurd (omega arith);
        kept = λ i out small' there.
            let (same, bytes) =
              Mapped_there sb n bn addr h h' lt m whole (i / bsize) (omega arith) there in
            (
              λ z. there (sym same ∙ z),
              ap (λ b. bread h'.blocks b (i % bsize)) same
                  ∙ ap (λ (d : Bytes). d (i % bsize)) bytes,
            );
        others = λ c o. (
          Mapped-IsOther sb n bn addr h h' lt m whole c o,
          m.contents c o.own.inside o.own.marked o.own.no_map o.own.apart,
        );
        frame = m.frame;
      }

  -- A byte of a block after a chunk of `m` bytes is copied to it.
  copied_in :
      (d : Bytes) (at src m i : ℕ)
      → at ≤ i
      → i < at + m
      → copy_over d at mem src m i ≡ mem (src + (i - at))
  copied_in d at src m i lo hi = ground arith

  copied_out :
      (d : Bytes) (at src m i : ℕ) → (i < at) ⊎ (at + m ≤ i) → copy_over d at mem src m i ≡ d i
  copied_out d at src m i out = ground arith

  copied-AllBytes :
      (d : Bytes) (at src m : ℕ) → AllBytes d → AllBytes mem → AllBytes (copy_over d at mem src m)
  copied-AllBytes d at src m old new i = ground (arith, old i, new (src + (i - at)))

  -- The write to the log of a block of the file with a chunk copied to it.
  chunk-Wrote :
      (src off m : ℕ) (h : Held) (l : Log)
      → IsWhole sb h
      → block_at h off ≢ 0
      → off % bsize + m ≤ bsize
      → off < maxfile * bsize
      → AllBytes mem
      → Wrote src off m h (record h {
        log = l;
        blocks =
            bpin
              (block_at h off)
              (copy_over (bread h.blocks (block_at h off)) (off % bsize) mem src m)
              h.blocks;
      })
  chunk-Wrote src off m h l whole there within small bytes =
      let c = block_at h off in
      let v = copy_over (bread h.blocks c) (off % bsize) mem src m in
      let bn : off / bsize < maxfile = omega arith in
      let own = whole.own (off / bsize) bn there in
      let v_bytes =
        copied-AllBytes (bread h.blocks c) (off % bsize) src m (whole.mapped.bytes c) bytes in
      let here = pinned_here sb h c v l whole own v_bytes in
      let same = pinned_block sb h c v l whole own v_bytes in
      let after = pinned sb h c v l whole own v_bytes in
      record {
        bound = omega arith;
        whole = pinned-IsWhole sb h c v l whole own v_bytes;
        written = λ i lo hi.
            let q : i / bsize ≡ off / bsize = omega arith in
            let r : off % bsize + (i - off) ≡ i % bsize = omega arith in
            let blk : block_at after i ≡ c = same (i / bsize) ∙ ap (block_of h.ip h.blocks) q in
            let e : i % bsize - off % bsize ≡ i - off = omega arith in
            (
              λ z. there (sym blk ∙ z),
              ap (λ b. bread after.blocks b (i % bsize)) blk
                  ∙ (ap (λ (d : Bytes). d (i % bsize)) here
                      ∙ (copied_in (bread h.blocks c) (off % bsize) src m (i % bsize) (omega arith)
                            (omega arith)
                          ∙ ap (λ x. mem (src + x)) e)),
            );
        kept = λ i out lt there'.
            let blk = same (i / bsize) in
            (
              λ z. there' (sym blk ∙ z),
              ap (λ b. bread after.blocks b (i % bsize)) blk
                  ∙ elim (Bool-cases (i / bsize == off / bsize)) [
                    | inl eq ↦
                        let q = ==→eq _ _ eq in
                        let outside : (i % bsize < off % bsize) ⊎ (off % bsize + m ≤ i % bsize) =
                          elim out [ inl lo ↦ inl (omega arith) | inr hi ↦ inr (omega arith) ] in
                        ap (λ k. bread after.blocks (block_of h.ip h.blocks k) (i % bsize)) q
                        ∙ (ap (λ (d : Bytes). d (i % bsize)) here
                            ∙ (copied_out (bread h.blocks c) (off % bsize) src m (i % bsize) outside
                                ∙ ap (λ k. bread h.blocks (block_of h.ip h.blocks k) (i % bsize))
                                    (sym q)))
                    | inr ne ↦
                        let apart : c ≢ block_at h i = λ e. ==→ne _ _ ne (
                          sym
                            (whole.distinct (off / bsize) (i / bsize) bn (omega arith) there e)) in
                        ap (λ (d : Bytes). d (i % bsize))
                          (pinned_elsewhere sb h c v l whole own v_bytes (block_at h i) apart)
                  ],
            );
        others = λ d o. (
          pinned-IsOther sb h c v l whole own v_bytes d o,
          pinned_elsewhere sb h c v l whole own v_bytes d (λ e. o.differs (off / bsize) bn (sym e)),
        );
        frame = refl;
      }

  pub empty-Wrote :
      (src off : ℕ) (h : Held) → off ≤ maxfile * bsize → IsWhole sb h → Wrote src off 0 h h
  empty-Wrote src off h small whole = record {
    bound = omega arith;
    whole = whole;
    written = λ i lo hi. absurd (omega arith);
    kept = λ i out lt there. (there, refl);
    others = λ c o. (o, refl);
    frame = refl;
  }

  -- After a change that writes no byte.
  pub Wrote-after :
      (src off n : ℕ) (h h1 h2 : Held)
      → Wrote src off 0 h h1
      → Wrote src off n h1 h2
      → Wrote src off n h h2
  Wrote-after src off n h h1 h2 w1 w2 =
      let a : src + 0 ≡ src = omega arith in
      let b : off + 0 ≡ off = omega arith in
      let c : 0 + n ≡ n = omega arith in
      subst (λ k. Wrote src off k h h2) c (Wrote-trans src off 0 n h h1 h2 w1 (rw (a, b) w2))

  pub chunk_at-Wrote :
      (c src off m : ℕ) (h : Held) (l : Log)
      → c ≡ block_at h off
      → IsWhole sb h
      → c ≢ 0
      → off % bsize + m ≤ bsize
      → off < maxfile * bsize
      → AllBytes mem
      → Wrote src off m h (record h {
        log = l;
        blocks = bpin c (copy_over (bread h.blocks c) (off % bsize) mem src m) h.blocks;
      })
  chunk_at-Wrote c src off m h l e whole ne within small bytes =
      subst
        (λ x. Wrote src off m h (record h {
          log = l;
          blocks = bpin x (copy_over (bread h.blocks x) (off % bsize) mem src m) h.blocks;
        }))
        (sym e) (chunk-Wrote src off m h l whole (λ z. ne (e ∙ z)) within small bytes)
