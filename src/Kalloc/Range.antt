-- ===== src/Kalloc/Range.antt =====
-- freerange and kinit of kernel/kalloc.c: which pages the allocator starts with.
use fyp_os.Prelude.{
  ℕ, zero, suc, ◌+◌, ◌*◌, ◌/◌, ◌%◌, ◌-◌, ◌≤◌, ◌<◌, ◌≡◌, true, false, some, List, [], ◌∷◌, arith,
  leb, length,
}
use fyp_os.Kalloc.{Kmem, freerange_loop, freerange, kinit, pgsize, phystop, pgroundup}
use fyp_os.Kalloc.Chain.{NotIn, Chain, kfree-Freed}

-- The `n` pages from `p` on, the last one first, before those of `acc`.
abbrev pub pages : ℕ → ℕ → List ℕ → List ℕ
pages zero p acc = acc
pages (suc n) p acc = pages n (p + pgsize) (p ∷ acc)

abbrev AllBelow : ℕ → List ℕ → Type 0
AllBelow p [] = Unit
AllBelow p (x ∷ xs) = (x < p) × AllBelow p xs

AllBelow-mono : (p q : ℕ) (xs : List ℕ) → p ≤ q → AllBelow p xs → AllBelow q xs
AllBelow-mono p q [] h a = tt
AllBelow-mono p q (x ∷ xs) h a = (omega arith, AllBelow-mono p q xs h a.1)

NotIn-of_below : (p : ℕ) (xs : List ℕ) → AllBelow p xs → NotIn p xs
NotIn-of_below p [] a = tt
NotIn-of_below p (x ∷ xs) a = (omega arith, NotIn-of_below p xs a.1)

pub length-pages : (n p : ℕ) (acc : List ℕ) → length (pages n p acc) ≡ n + length acc
length-pages zero p acc = omega arith
length-pages (suc n) p acc = omega (arith, length-pages n (p + pgsize) (p ∷ acc))

module _ (kernel_end : ℕ) where
  freerange_loop-pages :
      (n f p e : ℕ) (xs : List ℕ) (s : Kmem)
      → n < f
      → p + n * pgsize ≤ e
      → e < p + n * pgsize + pgsize
      → p % pgsize ≡ 0
      → kernel_end ≤ p
      → 0 < p
      → e ≤ phystop
      → AllBelow p xs
      → Chain kernel_end s.mem s.freelist xs
      → (s' : Kmem) × (freerange_loop kernel_end f p e s ≡ some s')
        × Chain kernel_end s'.mem s'.freelist (pages n p xs)
  unfolding freerange_loop
  freerange_loop-pages n zero p e xs s lt lo hi al ke nz he below c = elim lt [ ]
  freerange_loop-pages zero (suc f) p e xs s lt lo hi al ke nz he below c =
      let stop : leb (p + pgsize) e ≡ false = ground arith in (s, rw stop, c)
  freerange_loop-pages (suc n) (suc f) p e xs s lt lo hi al ke nz he below c =
      let (s1, eq, freed) =
        kfree-Freed kernel_end p xs s
          (record { aligned = al; above = ke; below = omega arith; nonnull = nz })
          (NotIn-of_below p xs below) c in
      let (s', eq', c') =
        freerange_loop-pages n f (p + pgsize) e (p ∷ xs) s1 (omega arith) (omega arith)
          (omega arith) (omega arith) (omega arith) (omega arith) he
          (omega arith, AllBelow-mono p (p + pgsize) xs (omega arith) below) freed.chain in
      let go : leb (p + pgsize) e ≡ true = ground arith in (s', rw (go, eq) eq', c')

  -- `kinit`, started with no free page, frees exactly the aligned pages between the end of the
  -- kernel and PHYSTOP, each once and none of them in use, and does not panic. One round of fuel
  -- more than there are pages is enough.
  pub kinit-pages :
      (f : ℕ) (s : Kmem)
      → 0 < kernel_end
      → kernel_end ≤ phystop
      → (phystop - pgroundup kernel_end) / pgsize < f
      → s.freelist ≡ 0
      → (s' : Kmem) × (kinit kernel_end f s ≡ some s')
        × Chain kernel_end s'.mem s'.freelist
            (pages ((phystop - pgroundup kernel_end) / pgsize) (pgroundup kernel_end) [])
  unfolding kinit freerange
  kinit-pages f s pos room fuel empty =
      freerange_loop-pages ((phystop - pgroundup kernel_end) / pgsize) f (pgroundup kernel_end)
        phystop [] s fuel (omega arith) (omega arith) (omega arith) (omega arith) (omega arith)
        (omega arith) tt empty
