-- ===== src/Kalloc/Chain.antt =====
-- The free list of kernel/kalloc.c as a list of pages, and what kfree and kalloc do to it.
use fyp_os.Prelude.{
  ℕ, ◌+◌, ◌%◌, ◌≤◌, ◌<◌, ◌≡◌, ◌≢◌, ◌⊎◌, refl, false, none, some, List, [], ◌∷◌, arith, Bytes, load,
  store, load_same, load-store, store_outside, span, ◌↔◌, ◌==◌,
}
use fyp_os.Kstring.Move.{memset-fill}
use fyp_os.Kstring.{memset}
use fyp_os.Kalloc.{Kmem, kfree, kalloc, pgsize, phystop}

abbrev pub NotIn : ℕ → List ℕ → Type 0
NotIn x [] = Unit
NotIn x (y ∷ ys) = (x ≢ y) × NotIn x ys

-- Two memories that agree outside the page at `pa`.
abbrev pub SameOutside : ℕ → Bytes → Bytes → Type 0
SameOutside pa m m' = (b : ℕ) → (b < pa) ⊎ (pa + pgsize ≤ b) → m' b ≡ m b

module _ (kernel_end : ℕ) where
  -- A page that `kfree` accepts and that is not the null pointer.
  pub record IsPage (pa : ℕ) : Type 0 where
    pub aligned : pa % pgsize ≡ 0
    pub above : kernel_end ≤ pa
    pub below : pa < phystop
    pub nonnull : 0 < pa

  -- From `p` the links in memory lead through the distinct pages `xs` to the null pointer.
  abbrev pub Chain : Bytes → ℕ → List ℕ → Type 0
  Chain m p [] = p ≡ 0
  Chain m p (x ∷ xs) = (p ≡ x) × IsPage x × NotIn x xs × Chain m (load 8 m x) xs

  pub Chain-frame :
      (m m' : Bytes) (pa p : ℕ) (xs : List ℕ)
      → pa % pgsize ≡ 0
      → SameOutside pa m m'
      → NotIn pa xs
      → Chain m p xs
      → Chain m' p xs
  Chain-frame m m' pa p [] al same out c = c
  Chain-frame m m' pa p (x ∷ xs) al same out (e, pg, fresh, c) =
      let link : load 8 m' x ≡ load 8 m x =
        load_same 8 m' m x (λ i lo hi. same i (apart i lo hi)) in
      (e, pg, fresh, rw link (Chain-frame m m' pa (load 8 m x) xs al same out.1 c))
    where
      apart : (i : ℕ) → x ≤ i → i < x + 8 → (i < pa) ⊎ (pa + pgsize ≤ i)
      apart i lo hi = ground (arith, pg.aligned, out.0)

  Chain-small : (m : Bytes) (p : ℕ) (xs : List ℕ) → Chain m p xs → p < span 8
  Chain-small m p [] c = omega arith
  Chain-small m p (x ∷ xs) c = omega (arith, c.1.below)

  -- What a call of `kfree` on the page `pa` does.
  pub record Freed (pa : ℕ) (xs : List ℕ) (s s' : Kmem) : Type 0 where
    pub chain : Chain s'.mem s'.freelist (pa ∷ xs)
    pub outside : SameOutside pa s.mem s'.mem

  kfree_outside : (m : Bytes) (pa v : ℕ) → SameOutside pa m (store 8 (memset m pa 1 pgsize) pa v)
  kfree_outside m pa v b h =
      ground (arith, store_outside 8 (memset m pa 1 pgsize) pa v b, memset-fill m pa 1 pgsize b)

  -- `kfree` accepts a page that is not on the free list, puts it in front of the list, and writes
  -- to no other page.
  pub kfree-Freed :
      (pa : ℕ) (xs : List ℕ) (s : Kmem)
      → IsPage pa
      → NotIn pa xs
      → Chain s.mem s.freelist xs
      → (s' : Kmem) × (kfree kernel_end pa s ≡ some s') × Freed pa xs s s'
  unfolding kfree
  kfree-Freed pa xs s pg out c = (
    record { mem = store 8 (memset s.mem pa 1 pgsize) pa s.freelist; freelist = pa },
    ground (arith, pg.aligned, pg.above, pg.below),
    record { chain = (refl, pg, out, rw link kept); outside = kfree_outside s.mem pa s.freelist },
  )
    where
      link : load 8 (store 8 (memset s.mem pa 1 pgsize) pa s.freelist) pa ≡ s.freelist
      link = load-store 8 _ pa s.freelist (Chain-small s.mem s.freelist xs c)

      kept : Chain (store 8 (memset s.mem pa 1 pgsize) pa s.freelist) s.freelist xs
      kept =
          Chain-frame s.mem _ pa s.freelist xs pg.aligned (kfree_outside s.mem pa s.freelist) out c

  -- `kfree` panics exactly on an address that is not aligned or lies outside the memory that the
  -- allocator manages.
  pub kfree_panics :
      (pa : ℕ) (s : Kmem)
      → (kfree kernel_end pa s ≡ none) ↔ ((pa % pgsize ≢ 0) ⊎ (pa < kernel_end) ⊎ (phystop ≤ pa))
  unfolding kfree
  kfree_panics pa s = (λ h. ground arith, λ h. ground arith)

  -- What a call of `kalloc` returns when the pages `x ∷ xs` are free.
  pub record Taken (x : ℕ) (xs : List ℕ) (s : Kmem) (out : ℕ × Kmem) : Type 0 where
    pub page : out.0 ≡ x
    pub chain : Chain out.1.mem out.1.freelist xs
    pub junk : (b : ℕ) → x ≤ b → b < x + pgsize → out.1.mem b ≡ 5
    pub outside : SameOutside x s.mem out.1.mem

  kalloc_outside : (m : Bytes) (pa : ℕ) → SameOutside pa m (memset m pa 5 pgsize)
  kalloc_outside m pa b h = ground (arith, memset-fill m pa 5 pgsize b)

  -- With a free page, `kalloc` returns the first one, filled with 5, takes it off the list, and
  -- writes to no other page.
  pub kalloc-Taken :
      (x : ℕ) (xs : List ℕ) (s : Kmem) → Chain s.mem s.freelist (x ∷ xs) → Taken x xs s (kalloc s)
  unfolding kalloc
  kalloc-Taken x xs s (e, pg, fresh, c) =
      let nz : (s.freelist == 0) ≡ false = ground (arith, pg.nonnull) in
      rw (nz, e)
        (record {
          page = refl;
          chain =
              Chain-frame s.mem _ x (load 8 s.mem x) xs pg.aligned (kalloc_outside s.mem x) fresh c;
          junk = λ b lo hi. ground (arith, memset-fill s.mem x 5 pgsize b);
          outside = kalloc_outside s.mem x;
        })

  -- With no free page, `kalloc` returns 0 and changes nothing.
  pub kalloc_empty : (s : Kmem) → Chain s.mem s.freelist [] → kalloc s ≡ (0, s)
  unfolding kalloc
  kalloc_empty s e = rw e
