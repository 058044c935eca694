-- ===== src/Fs/Content/Whole.antt =====
-- The blocks of a file in kernel/fs.c: which blocks are its own, and what bmap and a write to one of
-- them keep.
use fyp_os.Prelude.{
  ℕ, ◌-◌, ◌*◌, ◌<◌, ◌≡◌, ◌≢◌, ◌⊎◌, sym, ap, subst, ◌∙◌, true, arith, inl, inr, Bytes, load, ◌==◌,
  ltb, if◌then◌else◌, Bool-cases, ==→eq, ==→ne, ne→==,
}
use fyp_os.Blocks.{bread, bpin}
use fyp_os.Log.{Log}
use fyp_os.Fs.{Superblock, bblock}
use fyp_os.Fs.Bits.{AllBytes}
use fyp_os.Fs.Alloc.Count.{allocated}
use fyp_os.Fs.Alloc.Take.{IsMapped, bread-bpin, not_bitmap}
use fyp_os.Fs.Inode.{ndirect}
use fyp_os.Fs.Content.{Held, maxfile}
use fyp_os.Fs.Content.Map.{block_of, IsPlaced, Mapped, allocated-bpin}

module _ (sb : Superblock) where
  -- A marked block of the disk that is neither of the free map nor the indirect block.
  pub record IsOwn (h : Held) (c : ℕ) : Type 0 where
    pub inside : c < sb.size
    pub marked : allocated sb h.blocks c ≡ true
    pub apart : c ≢ h.ip.addrs ndirect
    pub no_map : (d : ℕ) → d < sb.size → bblock d sb ≢ c

  -- A file whose blocks are its own and differ from each other, with a sound free map.
  pub record IsWhole (h : Held) : Type 0 where
    pub mapped : IsMapped sb h.blocks
    pub placed : IsPlaced sb h
    pub own :
        (k : ℕ) → k < maxfile → block_of h.ip h.blocks k ≢ 0 → IsOwn h (block_of h.ip h.blocks k)
    pub distinct :
        (j k : ℕ)
        → j < maxfile
        → k < maxfile
        → block_of h.ip h.blocks j ≢ 0
        → block_of h.ip h.blocks j ≡ block_of h.ip h.blocks k
        → j ≡ k

  -- A block of another file, or of an inode.
  pub record IsOther (h : Held) (c : ℕ) : Type 0 where
    pub own : IsOwn h c
    pub differs : (k : ℕ) → k < maxfile → c ≢ block_of h.ip h.blocks k

  module _ (n bn addr : ℕ) (h h' : Held) (lt : bn < maxfile) (m : Mapped sb n bn addr h h') where
    Mapped-IsOwn : (c : ℕ) → IsOwn h c → IsOwn h' c
    Mapped-IsOwn c o = record {
      inside = o.inside;
      marked = m.keeps c o.inside o.marked;
      apart = m.index c o.inside o.marked o.apart;
      no_map = o.no_map;
    }

    module _ (whole : IsWhole h) (absent : block_of h.ip h.blocks bn ≡ 0) where
      -- The block that the file has got, if there was one.
      new-IsOwn : addr ≢ 0 → IsOwn h' addr
      new-IsOwn ne =
          let (inside, free, zeroed) = m.fresh absent ne in
          let (marked, apart) = m.now absent ne in
          record {
            inside = inside;
            marked = marked;
            apart = apart;
            no_map = λ d small. not_bitmap sb addr d h.blocks whole.mapped free small;
          }

      new_differs : (k : ℕ) → k < maxfile → addr ≢ 0 → addr ≢ block_of h.ip h.blocks k
      new_differs k small ne e =
          let (inside, free, zeroed) = m.fresh absent ne in
          let o = whole.own k small (λ z. ne (e ∙ z)) in
          cc (free, o.marked, ap (allocated sb h.blocks) e)

      -- Where block `k` of the file stands after the call.
      block_now :
          (k : ℕ)
          → k < maxfile
          → (k ≡ bn) × (block_of h'.ip h'.blocks k ≡ addr)
            ⊎ (k ≢ bn) × (block_of h'.ip h'.blocks k ≡ block_of h.ip h.blocks k)
      block_now k small = elim (Bool-cases (k == bn)) [
        | inl here ↦
            let e = ==→eq _ _ here in inl (e, ap (block_of h'.ip h'.blocks) e ∙ sym m.result)
        | inr other ↦ let ne = ==→ne _ _ other in inr (ne, m.others k small ne)
      ]

      grown-IsOwn :
          (k : ℕ)
          → k < maxfile
          → block_of h'.ip h'.blocks k ≢ 0
          → IsOwn h' (block_of h'.ip h'.blocks k)
      grown-IsOwn k small ne = elim (block_now k small) [
        | inl (here, e) ↦ subst (IsOwn h') (sym e) (new-IsOwn (λ z. ne (e ∙ z)))
        | inr (other, e) ↦
            subst (IsOwn h') (sym e)
              (Mapped-IsOwn (block_of h.ip h.blocks k) (whole.own k small (λ z. ne (e ∙ z))))
      ]

      grown_distinct :
          (j k : ℕ)
          → j < maxfile
          → k < maxfile
          → block_of h'.ip h'.blocks j ≢ 0
          → block_of h'.ip h'.blocks j ≡ block_of h'.ip h'.blocks k
          → j ≡ k
      grown_distinct j k sj sk ne same = elim (block_now j sj) [
        | inl (here, e) ↦ elim (block_now k sk) [
          | inl (here', e') ↦ here ∙ sym here'
          | inr (other, e') ↦ absurd (new_differs k sk (λ z. ne (e ∙ z)) (sym e ∙ (same ∙ e')))
        ]
        | inr (other, e) ↦ elim (block_now k sk) [
          | inl (here', e') ↦
              absurd (new_differs j sj (λ z. ne (same ∙ (e' ∙ z))) (sym e' ∙ (sym same ∙ e)))
          | inr (other', e') ↦ whole.distinct j k sj sk (λ z. ne (e ∙ z)) (sym e ∙ (same ∙ e'))
        ]
      ]

      grown-IsWhole : IsWhole h'
      grown-IsWhole = record {
        mapped = m.mapped;
        placed = m.placed;
        own = grown-IsOwn;
        distinct = grown_distinct;
      }

      grown-IsOther : (c : ℕ) → IsOther h c → IsOther h' c
      grown-IsOther c o = record {
        own = Mapped-IsOwn c o.own;
        differs = λ k small same. elim (block_now k small) [
          | inl (here, e) ↦ elim (Bool-cases (addr == 0)) [
            | inl z ↦ o.differs bn lt (same ∙ (e ∙ (==→eq _ _ z ∙ sym absent)))
            | inr some' ↦
                let (inside, free, zeroed) = m.fresh absent (==→ne _ _ some') in
                cc (free, o.own.marked, ap (allocated sb h.blocks) (same ∙ e))
          ]
          | inr (other, e) ↦ o.differs k small (same ∙ e)
        ];
      }

    -- What a call of `bmap` keeps.
    pub Mapped-IsWhole : IsWhole h → IsWhole h'
    Mapped-IsWhole whole = elim (Bool-cases (block_of h.ip h.blocks bn == 0)) [
      | inl z ↦ grown-IsWhole whole (==→eq _ _ z)
      | inr there ↦ subst IsWhole (sym (m.kept (==→ne _ _ there))) whole
    ]

    pub Mapped-IsOther : IsWhole h → (c : ℕ) → IsOther h c → IsOther h' c
    Mapped-IsOther whole c o = elim (Bool-cases (block_of h.ip h.blocks bn == 0)) [
      | inl z ↦ grown-IsOther whole (==→eq _ _ z) c o
      | inr there ↦ subst (λ x. IsOther x c) (sym (m.kept (==→ne _ _ there))) o
    ]

    -- A block of the file that was there still is, with its bytes.
    pub Mapped_there :
        IsWhole h
        → (k : ℕ) → k < maxfile
        → block_of h.ip h.blocks k ≢ 0
        → (block_of h'.ip h'.blocks k ≡ block_of h.ip h.blocks k)
          × (bread h'.blocks (block_of h.ip h.blocks k) ≡ bread h.blocks (block_of h.ip h.blocks k))
    Mapped_there whole k small ne =
        let o = whole.own k small ne in
        let same = m.contents (block_of h.ip h.blocks k) o.inside o.marked o.no_map o.apart in
        elim (Bool-cases (k == bn)) [
          | inl here ↦
              let e = ==→eq _ _ here in
              let ne' =
                λ (z : block_of h.ip h.blocks bn ≡ 0). ne (ap (block_of h.ip h.blocks) e ∙ z) in
              (ap (λ (x : Held). block_of x.ip x.blocks k) (m.kept ne'), same)
          | inr other ↦ (m.others k small (==→ne _ _ other), same)
        ]

  -- New contents `v` for a block `c` of the file itself.
  module _ (h : Held) (c : ℕ) (v : Bytes) (l : Log) (whole : IsWhole h) (o : IsOwn h c)
      (bytes : AllBytes v) where
    abbrev pub pinned : Held
    pinned = record h { log = l; blocks = bpin c v h.blocks }

    pinned_allocated :
        (d : ℕ) → d < sb.size → allocated sb pinned.blocks d ≡ allocated sb h.blocks d
    pinned_allocated d small = allocated-bpin sb c d v h.blocks o.no_map small

    pub pinned_elsewhere : (d : ℕ) → c ≢ d → bread pinned.blocks d ≡ bread h.blocks d
    pinned_elsewhere d ne = bread-bpin c d v h.blocks ∙ ground (arith, ne→== _ _ ne)

    pub pinned_here : bread pinned.blocks c ≡ v
    pinned_here = bread-bpin c c v h.blocks ∙ ground arith

    pub pinned_block : (k : ℕ) → block_of h.ip pinned.blocks k ≡ block_of h.ip h.blocks k
    pinned_block k =
        let same = pinned_elsewhere (h.ip.addrs ndirect) (λ e. o.apart e) in
        ap
          (λ (d : Bytes).
            if ltb k ndirect
            then h.ip.addrs k
            else if h.ip.addrs ndirect == 0
            then 0
            else load 4 d (4 * (k - ndirect)))
          same

    pinned-IsOwn : (d : ℕ) → IsOwn h d → IsOwn pinned d
    pinned-IsOwn d p = record {
      inside = p.inside;
      marked = pinned_allocated d p.inside ∙ p.marked;
      apart = p.apart;
      no_map = p.no_map;
    }

    pub pinned-IsWhole : IsWhole pinned
    pinned-IsWhole = record {
      mapped = record {
        marked = λ b lt.
            pinned_allocated (bblock b sb) (whole.mapped.inside b lt) ∙ whole.mapped.marked b lt;
        inside = whole.mapped.inside;
        bytes = λ b. elim (Bool-cases (c == b)) [
          | inl here ↦ rw (bread-bpin c b v h.blocks, here) bytes
          | inr other ↦ rw (bread-bpin c b v h.blocks, other) (whole.mapped.bytes b)
        ];
      };
      placed = record {
        boot = pinned_allocated 0 (omega (arith, o.inside)) ∙ whole.placed.boot;
        marked = λ z. pinned_allocated _ (whole.placed.inside z) ∙ whole.placed.marked z;
        inside = whole.placed.inside;
        apart = whole.placed.apart;
      };
      own = λ k small ne.
          subst (IsOwn pinned) (sym (pinned_block k))
            (pinned-IsOwn _ (whole.own k small (λ z. ne (pinned_block k ∙ z))));
      distinct = λ j k sj sk ne e.
          whole.distinct j k sj sk (λ z. ne (pinned_block j ∙ z))
            (sym (pinned_block j) ∙ (e ∙ pinned_block k));
    }

    pub pinned-IsOther : (d : ℕ) → IsOther h d → IsOther pinned d
    pinned-IsOther d p = record {
      own = pinned-IsOwn d p.own;
      differs = λ k small e. p.differs k small (e ∙ pinned_block k);
    }
