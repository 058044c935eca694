-- ===== src/Bio/Release.antt =====
-- brelse of kernel/bio.c keeps the cache coherent.
use fyp_os.Prelude.{
  ℕ, ◌-◌, ◌^◌, ◌<◌, ◌≡◌, ◌≢◌, refl, ap, sym, ◌∙◌, true, false, some, List, [], ◌∷◌, ◌++◌, arith,
  ◌==◌, if◌then◌else◌, get_elem?, elem, get_elem?-modify, Bool-cases, inl, inr, ==→eq, ==→ne, eq→==,
  ne→==, Bytes,
}
use fyp_os.Bio.{Buf, Bcache, change, is_for, unretain, brelse, unlink}
use fyp_os.Bio.Coherence.{Coherent, entry, changed}

elem-unlink : (i j : ℕ) (ring : List ℕ) → i ≢ j → elem j ring ≡ true → elem j (unlink i ring) ≡ true
elem-unlink i j [] ne h = h
elem-unlink i j (k ∷ ring) ne h = elim (Bool-cases (k == i)) [
  | inl e ↦ ground (arith, e)
  | inr e ↦ elim (Bool-cases (j == k)) [
    | inl e' ↦ ground (arith, e, e')
    | inr e' ↦ ground (arith, e, e', elem-unlink i j ring ne)
  ]
]

-- What the ring holds before and behind the slot that is taken out.
unlink-split :
    (i : ℕ) (ring : List ℕ)
    → elem i ring ≡ true
    → (xs ys : List ℕ) × (ring ≡ xs ++ (i ∷ ys)) × (unlink i ring ≡ xs ++ ys)
unlink-split i [] h = absurd (cc h)
unlink-split i (k ∷ ring) h = elim (Bool-cases (k == i)) [
  | inl e ↦ ([], ring, ap (λ x. x ∷ ring) (==→eq _ _ e), rw e refl)
  | inr e ↦
      let ne : (i == k) ≡ false = ne→== i k (λ d. ==→ne _ _ e (sym d)) in
      let (xs, ys, whole, left) = unlink-split i ring (rw ne at h) in
      (k ∷ xs, ys, ap (λ l. k ∷ l) whole, rw e (ap (λ l. k ∷ l) left))
]

-- The ring after a release that leaves `n` references.
abbrev ring_after : ℕ → ℕ → List ℕ → List ℕ
ring_after n i ring = if n == 0 then i ∷ unlink i ring else ring

ring_after-elem :
    (n i j : ℕ) (ring : List ℕ) → elem j ring ≡ true → elem j (ring_after n i ring) ≡ true
ring_after-elem n i j ring h = elim (Bool-cases (n == 0)) [
  | inr more ↦ rw more h
  | inl last ↦ rw last (elim (Bool-cases (j == i)) [
    | inl e ↦ rw e refl
    | inr e ↦ rw e (elem-unlink i j ring (λ d. ==→ne _ _ e (sym d)) h)
  ])
]

brelse_eq :
    (i : ℕ) (c : Bcache) (p : Buf)
    → get_elem? c.bufs i ≡ some p
    → brelse i c
      ≡ record { bufs = (change i unretain c).bufs; ring = ring_after (unretain p).refcnt i c.ring }
unfolding brelse
brelse_eq i c p at =
    rw (at, brelse)
      (elim (Bool-cases ((unretain p).refcnt == 0)) [ inl e ↦ rw e refl | inr e ↦ rw e refl ])

-- What a release of slot `i`, that holds `p`, does: the buffer has a reference less, and with its last
-- one it moves to the front of the ring, where the others stand in the order they had.
pub record Released (i : ℕ) (p : Buf) (c c' : Bcache) : Type 0 where
  pub released : get_elem? c'.bufs i ≡ some (record p { refcnt = p.refcnt - 1 })
  pub others : (j : ℕ) → i ≢ j → get_elem? c'.bufs j ≡ get_elem? c.bufs j
  pub front :
      p.refcnt ≡ 1 → (xs ys : List ℕ) × (c.ring ≡ xs ++ (i ∷ ys)) × (c'.ring ≡ i ∷ (xs ++ ys))
  pub stays : p.refcnt ≢ 1 → c'.ring ≡ c.ring

brelse-Released :
    (i : ℕ) (c : Bcache) (p : Buf)
    → get_elem? c.bufs i ≡ some p
    → elem i c.ring ≡ true
    → 0 < p.refcnt
    → p.refcnt < 2 ^ 32
    → Released i p c (brelse i c)
brelse-Released i c p at there used small =
    let one_less : (unretain p).refcnt ≡ p.refcnt - 1 = omega arith in
    rw (brelse_eq i c p at, one_less)
      (record {
        released =
            changed i i unretain c p at
            ∙ rw (eq→== i i refl) (ap (λ n. some (record p { refcnt = n })) one_less);
        others = λ j ne. get_elem?-modify c.bufs i j unretain ∙ rw (ne→== i j ne) refl;
        front = λ last.
            let (xs, ys, whole, left) = unlink-split i c.ring there in
            (xs, ys, whole, rw last (ap (λ l. i ∷ l) left));
        stays = λ more.
            let rest : (p.refcnt - 1 == 0) ≡ false =
              ne→== _ _ (λ e. absurd (omega (arith, more, e))) in
            rw rest refl;
      })

module _ (dev : ℕ) (v disk : ℕ → Bytes) where
  release-Coherent :
      (i : ℕ) (c : Bcache) (p : Buf)
      → Coherent dev v disk c
      → get_elem? c.bufs i ≡ some p
      → 0 < p.refcnt
      → p.refcnt < 2 ^ 32
      → (p.refcnt ≡ 1 → (b : ℕ) → is_for dev b p ≡ true → disk b ≡ v b)
      → Coherent dev v disk (brelse i c)
  release-Coherent i c p ok at used small clean = rw (brelse_eq i c p at) (record {
    shows = λ j b q at' h val. elim (entry i j unretain c p q at at') [
      | inl (e, e') ↦ ground (arith, e', ok.shows i b p at)
      | inr (ne, old) ↦ ok.shows j b q old h val
    ];
    kept = λ b. elim (ok.kept b) [
      | inl d ↦ inl d
      | inr k ↦ elim (Bool-cases (i == k.slot)) [
        | inr e ↦ inr (record {
          slot = k.slot;
          buf = k.buf;
          at = changed i k.slot unretain c k.buf k.at ∙ ground (arith, e);
          holds = k.holds;
          is_valid = k.is_valid;
          in_use = k.in_use;
        })
        | inl e ↦ elim (Bool-cases (p.refcnt == 1)) [
          | inl last ↦ inl (clean (==→eq _ _ last) b (ground (arith, at, k.at, k.holds, e)))
          | inr more ↦ inr (record {
            slot = k.slot;
            buf = unretain k.buf;
            at = changed i k.slot unretain c k.buf k.at ∙ ground (arith, e);
            holds = k.holds;
            is_valid = k.is_valid;
            in_use = ground (arith, at, k.at, k.in_use, e, more);
          })
        ]
      ]
    ];
    single = λ j k b q r at1 at2 h1 h2. elim (entry i j unretain c p q at at1) [
      | inl (e, e') ↦ elim (entry i k unretain c p r at at2) [
        | inl (d, d') ↦ omega (arith, e, d)
        | inr (ne, old) ↦ sym e ∙ ok.single i k b p r at old (ground (arith, e')) h2
      ]
      | inr (ne, old) ↦ elim (entry i k unretain c p r at at2) [
        | inl (d, d') ↦ ok.single j i b q p old at h1 (ground (arith, d')) ∙ d
        | inr (ne', old') ↦ ok.single j k b q r old old' h1 h2
      ]
    ];
    reached = λ j q at'.
        ring_after-elem (unretain p).refcnt i j c.ring (elim (entry i j unretain c p q at at') [
          | inl (e, e') ↦ ground (arith, ok.reached i p at)
          | inr (ne, old) ↦ ok.reached j q old
        ]);
  })

  -- `brelse` of a buffer with 1 to 2 ^ 32 - 1 references takes one away. With its last one the buffer
  -- moves to the front of the ring, and the other buffers keep their order. Otherwise the ring stays as
  -- it was, and so do the other buffers. A coherent cache stays coherent, where a buffer that gives up
  -- its last reference stands on the disk as the cache shows it.
  pub brelse-Coherent :
      (i : ℕ) (c : Bcache) (p : Buf)
      → Coherent dev v disk c
      → get_elem? c.bufs i ≡ some p
      → 0 < p.refcnt
      → p.refcnt < 2 ^ 32
      → (p.refcnt ≡ 1 → (b : ℕ) → is_for dev b p ≡ true → disk b ≡ v b)
      → Coherent dev v disk (brelse i c) × Released i p c (brelse i c)
  brelse-Coherent i c p ok at used small clean = (
    release-Coherent i c p ok at used small clean,
    brelse-Released i c p at (ok.reached i p at) used small,
  )
