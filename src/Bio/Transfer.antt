-- ===== src/Bio/Transfer.antt =====
-- bread and bwrite of kernel/bio.c between the cache and the disk.
use fyp_os.Prelude.{
  ℕ, ◌≤◌, ◌≡◌, ◌≢◌, ◌⊎◌, refl, ap, ◌∙◌, true, false, none, some, arith, ◌==◌, if◌then◌else◌,
  get_elem?, Bool-cases, Option-cases, inl, inr, ==→eq, Bytes,
}
use fyp_os.Bio.{
  Buf, Bcache, change, search, search_back, is_for, retain, recycle, bget, fetch, bread, bwrite,
}
use fyp_os.Bio.Coherence.{Coherent, entry, changed, change-Coherent}
use fyp_os.Bio.Search.{search-some, search-none, search_back-some, search_back-none}

module _ (dev : ℕ) (v disk : ℕ → Bytes) where
  -- A buffer without references may be given to a block that no buffer is for.
  recycle-Coherent :
      (i b : ℕ) (c : Bcache) (p : Buf)
      → Coherent dev v disk c
      → get_elem? c.bufs i ≡ some p
      → p.refcnt ≡ 0
      → ((j : ℕ) (q : Buf) → get_elem? c.bufs j ≡ some q → is_for dev b q ≡ false)
      → Coherent dev v disk (change i (recycle dev b) c)
  recycle-Coherent i b c p ok at unused absent = record {
    shows = λ j a q at' h val. elim (entry i j (recycle dev b) c p q at at') [
      | inl (e, e') ↦ absurd (ground (arith, e'))
      | inr (ne, old) ↦ ok.shows j a q old h val
    ];
    kept = λ a. elim (ok.kept a) [
      | inl d ↦ inl d
      | inr k ↦
          let other : i ≢ k.slot = λ e. ground (arith, at, k.at, k.in_use) in
          inr (record {
            slot = k.slot;
            buf = k.buf;
            at = changed i k.slot (recycle dev b) c k.buf k.at ∙ ground (arith, other);
            holds = k.holds;
            is_valid = k.is_valid;
            in_use = k.in_use;
          })
    ];
    single = λ j k a q r at1 at2 h1 h2. elim (entry i j (recycle dev b) c p q at at1) [
      | inl (e, e') ↦ elim (entry i k (recycle dev b) c p r at at2) [
        | inl (d, d') ↦ omega (arith, e, d)
        | inr (ne, old) ↦ absurd (ground (arith, e', absent k r old))
      ]
      | inr (ne, old) ↦ elim (entry i k (recycle dev b) c p r at at2) [
        | inl (d, d') ↦ absurd (ground (arith, d', absent j q old))
        | inr (ne', old') ↦ ok.single j k a q r old old' h1 h2
      ]
    ];
    reached = λ j q at'. elim (entry i j (recycle dev b) c p q at at') [
      | inl (e, e') ↦ ground (arith, ok.reached i p at)
      | inr (ne, old) ↦ ok.reached j q old
    ];
  }

  -- What `bget` returns: a buffer for the block, with a reference.
  pub record Got (b i : ℕ) (c : Bcache) : Type 0 where
    pub buf : Buf
    pub at : get_elem? c.bufs i ≡ some buf
    pub holds : is_for dev b buf ≡ true
    pub in_use : 1 ≤ buf.refcnt
    pub coherent : Coherent dev v disk c

  -- No buffer is left: none is for the block, and all have references.
  abbrev pub IsExhausted : ℕ → Bcache → Type 0
  IsExhausted b c =
      (i : ℕ) (p : Buf) → get_elem? c.bufs i ≡ some p → (is_for dev b p ≡ false) × (1 ≤ p.refcnt)

  bget-Got :
      (b : ℕ) (c : Bcache)
      → Coherent dev v disk c
      → (bget dev b c ≡ none) × IsExhausted b c
        ⊎ ((i : ℕ) × (c' : Bcache) × (bget dev b c ≡ some (i, c')) × Got b i c')
  unfolding bget
  bget-Got b c ok = elim (Option-cases (search (is_for dev b) c.bufs c.ring)) [
    | inr (i, found) ↦
        let (p, at, hit) = search-some (is_for dev b) c.bufs c.ring found in
        inr (
          i,
          change i retain c,
          rw (found, bget) refl,
          record {
            buf = retain p;
            at = changed i i retain c p at ∙ ground arith;
            holds = hit;
            in_use = omega arith;
            coherent =
                change-Coherent dev v disk i retain c p ok at (λ a. refl)
                  (λ a h val. ok.shows i a p at h val) (λ h. h) (λ h. omega arith);
          },
        )
    | inl missing ↦
        let absent : (j : ℕ) (q : Buf) → get_elem? c.bufs j ≡ some q → is_for dev b q ≡ false =
          λ j q at. search-none (is_for dev b) c.bufs c.ring j missing (ok.reached j q at) at in
        elim (Option-cases (search_back (λ p. p.refcnt == 0) c.bufs c.ring)) [
          | inl full ↦ inl (
            rw (missing, full, bget) refl,
            λ j q at. (
              absent j q at,
              ground (
                arith,
                search_back-none (λ p. p.refcnt == 0) c.bufs c.ring j full (ok.reached j q at) at,
              ),
            ),
          )
          | inr (i, found) ↦
              let (p, at, hit) = search_back-some (λ p. p.refcnt == 0) c.bufs c.ring found in
              inr (
                i,
                change i (recycle dev b) c,
                rw (missing, found, bget) refl,
                record {
                  buf = recycle dev b p;
                  at = changed i i (recycle dev b) c p at ∙ ground arith;
                  holds = ground arith;
                  in_use = omega arith;
                  coherent = recycle-Coherent i b c p ok at (==→eq _ _ hit) absent;
                },
              )
        ]
  ]

  fetch-Coherent :
      (b i : ℕ) (c : Bcache) (g : Got b i c)
      → Coherent dev v disk (change i (fetch disk) c) × ((fetch disk g.buf).contents ≡ v b)
  fetch-Coherent b i c g = elim (Bool-cases (g.buf.valid)) [
    | inl val ↦
        let same : fetch disk g.buf ≡ g.buf = rw val refl in
        (
          change-Coherent dev v disk i (fetch disk) c g.buf g.coherent g.at (λ a. ground arith)
              (λ a h u. rw same (g.coherent.shows i a g.buf g.at h val)) (λ h. ground arith)
              (λ h. ground arith),
          rw same (g.coherent.shows i b g.buf g.at g.holds val),
        )
    | inr stale ↦
        let on_disk : disk b ≡ v b = elim (g.coherent.kept b) [
          | inl d ↦ d
          | inr k ↦
              let e = g.coherent.single i k.slot b g.buf k.buf g.at k.at g.holds k.holds in
              absurd (ground (arith, g.at, k.at, k.is_valid))
        ] in
        let number : g.buf.blockno ≡ b = ground (arith, g.holds) in
        let read : (fetch disk g.buf).contents ≡ v b = rw (stale, number) on_disk in
        (
          change-Coherent dev v disk i (fetch disk) c g.buf g.coherent g.at (λ a. ground arith)
              (λ a h u. read ∙ ap v (ground (arith, g.holds, h))) (λ h. ground arith)
              (λ h. ground arith),
          read,
        )
  ]

  -- From a coherent cache, `bread` returns a buffer for the block that is valid, has a reference and
  -- shows the block, and keeps the cache coherent; it panics only where no buffer is for the block
  -- and none is without references.
  pub bread-Coherent :
      (b : ℕ) (c : Bcache)
      → Coherent dev v disk c
      → (bread disk dev b c ≡ none) × IsExhausted b c
        ⊎ ((i : ℕ) × (c' : Bcache) × (p : Buf) × (bread disk dev b c ≡ some (i, c'))
            × (get_elem? c'.bufs i ≡ some p)
            × (is_for dev b p ≡ true)
            × (p.valid ≡ true)
            × (1 ≤ p.refcnt)
            × (p.contents ≡ v b)
            × Coherent dev v disk c')
  unfolding bread
  bread-Coherent b c ok = elim (bget-Got b c ok) [
    | inl (e, full) ↦ inl (rw e refl, full)
    | inr (i, c', e, g) ↦
        let (coherent', read) = fetch-Coherent b i c' g in
        inr (
          i,
          change i (fetch disk) c',
          fetch disk g.buf,
          rw e refl,
          changed i i (fetch disk) c' g.buf g.at ∙ ground arith,
          ground (arith, g.holds),
          ground arith,
          ground (arith, g.in_use),
          read,
          coherent',
        )
  ]

  -- In a coherent cache, `bwrite` of a valid buffer brings its block on the disk to what the cache
  -- shows, changes no other block and keeps the cache coherent.
  pub bwrite-Coherent :
      (b i : ℕ) (c : Bcache) (p : Buf)
      → Coherent dev v disk c
      → get_elem? c.bufs i ≡ some p
      → is_for dev b p ≡ true
      → p.valid ≡ true
      → Coherent dev v (bwrite i c disk) c
        × (bwrite i c disk b ≡ v b)
        × ((a : ℕ) → a ≢ b → bwrite i c disk a ≡ disk a)
  unfolding bwrite
  bwrite-Coherent b i c p ok at h val =
      let number : p.blockno ≡ b = ground (arith, h) in
      let shown = ok.shows i b p at h val in
      let after : (a : ℕ) → bwrite i c disk a ≡ (if b == a then v b else disk a) =
        λ a. ground (arith, at, number, shown) in
      (
        record {
          shows = ok.shows;
          kept = λ a. elim (Bool-cases (b == a)) [
            | inl e ↦ inl (after a ∙ ground (arith, ap v (==→eq _ _ e)))
            | inr e ↦ elim (ok.kept a) [ inl d ↦ inl (after a ∙ ground (arith, d)) | inr k ↦ inr k ]
          ];
          single = ok.single;
          reached = ok.reached;
        },
        after b ∙ ground arith,
        λ a ne. after a ∙ ground (arith, ne),
      )
