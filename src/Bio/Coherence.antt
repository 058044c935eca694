-- ===== src/Bio/Coherence.antt =====
-- The buffer cache of kernel/bio.c shows the blocks of one device as they are meant to be, whether
-- they stand in a buffer or on the disk.
use fyp_os.Prelude.{
  ℕ, ◌≤◌, ◌≡◌, ◌≢◌, ◌⊎◌, sym, ◌∙◌, true, some, arith, ◌==◌, if◌then◌else◌, get_elem?,
  get_elem?-modify, elem, Bool-cases, inl, inr, ==→eq, ==→ne, Bytes,
}
use fyp_os.Bio.{Buf, Bcache, change, is_for}

-- A buffer that holds block `b` of the device and is not to be recycled.
pub record Kept (dev : ℕ) (c : Bcache) (b : ℕ) : Type 0 where
  pub slot : ℕ
  pub buf : Buf
  pub at : get_elem? c.bufs slot ≡ some buf
  pub holds : is_for dev b buf ≡ true
  pub is_valid : buf.valid ≡ true
  pub in_use : 1 ≤ buf.refcnt

-- The cache and the disk together show the blocks `v` of the device: a valid buffer has the
-- contents of its block, a block is on the disk or in a buffer that is in use, no block has two
-- buffers, and the ring reaches every buffer.
pub record Coherent (dev : ℕ) (v disk : ℕ → Bytes) (c : Bcache) : Type 0 where
  pub shows :
      (i b : ℕ) (p : Buf)
      → get_elem? c.bufs i ≡ some p
      → is_for dev b p ≡ true
      → p.valid ≡ true
      → p.contents ≡ v b
  pub kept : (b : ℕ) → (disk b ≡ v b) ⊎ Kept dev c b
  pub single :
      (i j b : ℕ) (p q : Buf)
      → get_elem? c.bufs i ≡ some p
      → get_elem? c.bufs j ≡ some q
      → is_for dev b p ≡ true
      → is_for dev b q ≡ true
      → i ≡ j
  pub reached : (i : ℕ) (p : Buf) → get_elem? c.bufs i ≡ some p → elem i c.ring ≡ true

-- An entry of the changed cache is the changed one, or an old one elsewhere.
pub entry :
    (i j : ℕ) (f : Buf → Buf) (c : Bcache) (p q : Buf)
    → get_elem? c.bufs i ≡ some p
    → get_elem? (change i f c).bufs j ≡ some q
    → (i ≡ j) × (q ≡ f p) ⊎ (i ≢ j) × (get_elem? c.bufs j ≡ some q)
entry i j f c p q at at' = elim (Bool-cases (i == j)) [
  | inl same ↦ inl (==→eq _ _ same, ground (arith, at, get_elem?-modify c.bufs i j f))
  | inr other ↦ inr (==→ne _ _ other, ground (arith, get_elem?-modify c.bufs i j f))
]

pub changed :
    (i j : ℕ) (f : Buf → Buf) (c : Bcache) (q : Buf)
    → get_elem? c.bufs j ≡ some q
    → get_elem? (change i f c).bufs j ≡ some (if i == j then f q else q)
changed i j f c q at = ground (arith, at, get_elem?-modify c.bufs i j f)

module _ (dev : ℕ) (v disk : ℕ → Bytes) where
  -- A change that keeps what a buffer is for and what it shows, and keeps it in use.
  pub change-Coherent :
      (i : ℕ) (f : Buf → Buf) (c : Bcache) (p : Buf)
      → Coherent dev v disk c
      → get_elem? c.bufs i ≡ some p
      → ((b : ℕ) → is_for dev b (f p) ≡ is_for dev b p)
      → ((b : ℕ) → is_for dev b p ≡ true → (f p).valid ≡ true → (f p).contents ≡ v b)
      → (p.valid ≡ true → (f p).valid ≡ true)
      → (1 ≤ p.refcnt → 1 ≤ (f p).refcnt)
      → Coherent dev v disk (change i f c)
  change-Coherent i f c p ok at same good valid' used = record {
    shows = λ j b q at' h val. elim (entry i j f c p q at at') [
      | inl (e, e') ↦ ground (arith, e', same b, good b)
      | inr (ne, old) ↦ ok.shows j b q old h val
    ];
    kept = λ b. elim (ok.kept b) [
      | inl d ↦ inl d
      | inr k ↦ inr (record {
        slot = k.slot;
        buf = if i == k.slot then f k.buf else k.buf;
        at = changed i k.slot f c k.buf k.at;
        holds = ground (arith, at, k.at, k.holds, same b);
        is_valid = ground (arith, at, k.at, k.is_valid);
        in_use = ground (arith, at, k.at, k.in_use);
      })
    ];
    single = λ j k b q r at1 at2 h1 h2. elim (entry i j f c p q at at1) [
      | inl (e, e') ↦ elim (entry i k f c p r at at2) [
        | inl (d, d') ↦ omega (arith, e, d)
        | inr (ne, old) ↦ sym e ∙ ok.single i k b p r at old (ground (arith, e', same b)) h2
      ]
      | inr (ne, old) ↦ elim (entry i k f c p r at at2) [
        | inl (d, d') ↦ ok.single j i b q p old at h1 (ground (arith, d', same b)) ∙ d
        | inr (ne', old') ↦ ok.single j k b q r old old' h1 h2
      ]
    ];
    reached = λ j q at'. elim (entry i j f c p q at at') [
      | inl (e, e') ↦ ground (arith, ok.reached i p at)
      | inr (ne, old) ↦ ok.reached j q old
    ];
  }
