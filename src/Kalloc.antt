-- ===== src/Kalloc.antt =====
-- kernel/kalloc.c: the physical page allocator. The free pages form a list whose links stand in the
-- pages themselves, so the state is physical memory and the list's head. `kmem.lock` makes each
-- call atomic; the lock itself is the module `Spinlock`.
pub mod Chain
pub mod Range
mod Tests
use fyp_os.Prelude.{
  ℕ, zero, suc, ◌+◌, ◌*◌, ◌/◌, ◌%◌, ◌-◌, ◌^◌, Bool, not, ◌||◌, Option, none, some, Bytes, load,
  store, ◌==◌, ltb, leb, if◌then◌else◌, ◌>>=◌,
}
use fyp_os.Kstring.{memset}

-- PGSIZE of kernel/riscv.h
abbrev pub pgsize : ℕ
pgsize = 4096

-- PHYSTOP of kernel/memlayout.h, KERNBASE + 128 MB
abbrev pub phystop : ℕ
phystop = 0x8000_0000 + 128 * 1024 * 1024

-- PGROUNDUP of kernel/riscv.h: a mask of the low 12 bits takes the remainder off.
abbrev pub pgroundup : ℕ → ℕ
pgroundup sz = (sz + pgsize - 1) % 2 ^ 64 / pgsize * pgsize

-- `kmem`, and the physical memory that the links stand in.
pub record Kmem : Type 0 where
  pub mem : Bytes
  pub freelist : ℕ

-- The symbol `end` of kernel.ld: the first address after the kernel.
module _ (kernel_end : ℕ) where
  -- The test of `kfree` that leads to its panic.
  abbrev pub bad_page : ℕ → Bool
  bad_page pa = not (pa % pgsize == 0) || ltb pa kernel_end || leb phystop pa

  -- `none` is `panic("kfree")`.
  unfoldable pub kfree : ℕ → Kmem → Option Kmem
  kfree pa s =
      if bad_page pa
      then none
      else some (record { mem = store 8 (memset s.mem pa 1 pgsize) pa s.freelist; freelist = pa })

  -- The loop of `freerange` from `p` on; out of fuel it stops as a panic does.
  unfoldable pub freerange_loop : ℕ → ℕ → ℕ → Kmem → Option Kmem
  freerange_loop zero p pa_end s = none
  freerange_loop (suc f) p pa_end s =
      let rest = kfree p s >>= freerange_loop f (p + pgsize) pa_end in
      if leb (p + pgsize) pa_end then rest else some s

  unfoldable pub freerange : ℕ → ℕ → ℕ → Kmem → Option Kmem
  freerange fuel pa_start pa_end s = freerange_loop fuel (pgroundup pa_start) pa_end s

  -- `kinit`
  unfoldable pub kinit : ℕ → Kmem → Option Kmem
  kinit fuel s = freerange fuel kernel_end phystop s

-- The returned address is 0 if no page is free.
unfoldable pub kalloc : Kmem → ℕ × Kmem
kalloc s = if s.freelist == 0 then (0, s) else (
  s.freelist,
  record { mem = memset s.mem s.freelist 5 pgsize; freelist = load 8 s.mem s.freelist },
)
