-- ===== src/Kalloc/Tests.antt =====
-- The theorems about kernel/kalloc.c at a kernel that ends two pages below PHYSTOP.
use fyp_os.Prelude.{ℕ, ◌-◌, ◌≡◌, ◌*◌, refl, some, [], ◌∷◌, arith}
use fyp_os.Kalloc.{Kmem, pgsize, phystop, kfree, kinit}
use fyp_os.Kalloc.Chain.{Chain, IsPage, Freed, kfree-Freed}
use fyp_os.Kalloc.Range.{kinit-pages}

abbrev kernel_end : ℕ
kernel_end = phystop - 2 * pgsize - 100

abbrev page : ℕ
page = phystop - pgsize

abbrev fresh : Kmem
fresh = record { mem = λ a. 0; freelist = 0 }

-- A memory whose only free page is `page`.
abbrev one_page : Kmem
one_page = record { mem = λ a. 0; freelist = page }

page-IsPage : IsPage kernel_end page
page-IsPage = omega arith

kfree-Freed_example :
    (s' : Kmem) × (kfree kernel_end page fresh ≡ some s') × Freed kernel_end page [] fresh s'
kfree-Freed_example = kfree-Freed kernel_end page [] fresh page-IsPage tt refl

kinit-pages_example :
    (s' : Kmem) × (kinit kernel_end 10 fresh ≡ some s')
    × Chain kernel_end s'.mem s'.freelist (page ∷ (page - pgsize) ∷ [])
kinit-pages_example = kinit-pages kernel_end 10 fresh (omega arith) (omega arith) (omega arith) refl
