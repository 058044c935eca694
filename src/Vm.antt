-- ===== src/Vm.antt =====
-- kernel/vm.c: the page tables of Sv39 in physical memory. A page table is the address of its page,
-- an entry is the 64-bit word there; `none` is a panic. Physical memory comes with the free list of
-- kernel/kalloc.c.
pub mod Transfer
pub mod Copy
mod Tests
use fyp_os.Prelude.{
  ℕ, zero, suc, ◌+◌, ◌-◌, ◌*◌, ◌/◌, ◌%◌, ◌^◌, min, Bool, true, false, not, ◌&&◌, ◌||◌, Option, none,
  some, Bytes, write, load, store, copy_over, ◌==◌, ltb, leb, if◌then◌else◌, ◌>>=◌, ◌>>◌, unless,
}
use fyp_os.Kstring.{memset, memmove}
use fyp_os.Kalloc.{pgsize, pgroundup, Kmem, kalloc, kfree}

abbrev pub pgrounddown : ℕ → ℕ
pgrounddown a = a / pgsize * pgsize

abbrev pub maxva : ℕ
maxva = 2 ^ 38

-- The flags of an entry: PTE_V, PTE_R, PTE_W, PTE_X and PTE_U.
abbrev pub bit_of : ℕ → ℕ → Bool
bit_of k pte = pte / 2 ^ k % 2 == 1

abbrev pub is_valid : ℕ → Bool
is_valid = bit_of 0

abbrev pub is_user : ℕ → Bool
is_user = bit_of 4

-- An entry whose R, W and X bits are all clear.
abbrev pub is_branch : ℕ → Bool
is_branch pte = pte / 2 % 8 == 0

abbrev pub pa2pte : ℕ → ℕ
pa2pte pa = pa / 2 ^ 12 * 2 ^ 10

abbrev pub pte2pa : ℕ → ℕ
pte2pa pte = pte / 2 ^ 10 * 2 ^ 12 % 2 ^ 64

abbrev pub pte_flags : ℕ → ℕ
pte_flags pte = pte % 2 ^ 10

-- `PA2PTE(pa) | perm | PTE_V` for a `perm` of at most ten bits, which PA2PTE leaves clear.
abbrev pub pte_of : ℕ → ℕ → ℕ
pte_of pa perm = pa2pte pa + (perm / 2 * 2 + 1)

-- PX
abbrev pub px : ℕ → ℕ → ℕ
px level va = va / 2 ^ (12 + 9 * level) % 512

abbrev pub entry_at : ℕ → ℕ → ℕ → ℕ
entry_at pt level va = pt + 8 * px level va

abbrev pub pte_at : Kmem → ℕ → ℕ
pte_at s a = load 8 s.mem a

abbrev pub set_pte : ℕ → ℕ → Kmem → Kmem
set_pte a pte s = record s { mem = store 8 s.mem a pte }

-- A page from `kalloc`, filled with zeros by the caller.
abbrev pub clear_page : ℕ → Kmem → Kmem
clear_page pa s = record s { mem = memset s.mem pa 0 pgsize }

-- The loop of `walk` from `level` down to 0: the address of the entry, or 0.
unfoldable pub walk_loop : ℕ → Bool → ℕ → ℕ → Kmem → ℕ × Kmem
walk_loop zero alloc pt va s = (entry_at pt 0 va, s)
walk_loop (suc l) alloc pt va s =
    let a = entry_at pt (suc l) va in
    let pte = pte_at s a in
    let down = walk_loop l alloc (pte2pa pte) va s in
    let (page, s1) = kalloc s in
    let grown = walk_loop l alloc page va (set_pte a (pa2pte page + 1) (clear_page page s1)) in
    if is_valid pte
    then down
    else if not alloc
    then (0, s)
    else if page == 0
    then (0, s1)
    else grown

unfoldable pub walk : Bool → ℕ → ℕ → Kmem → Option (ℕ × Kmem)
walk alloc pt va s = unless (leb maxva va) >> some (walk_loop 2 alloc pt va s)

-- `walkaddr`, which changes nothing.
unfoldable pub walkaddr : ℕ → ℕ → Kmem → ℕ
walkaddr pt va s =
    let a = (walk_loop 2 false pt va s).0 in
    let pte = pte_at s a in
    if leb maxva va
    then 0
    else if a == 0
    then 0
    else if not (is_valid pte)
    then 0
    else if not (is_user pte)
    then 0
    else pte2pa pte

-- The loop of `mappages` with at most `k` pages left from `a` on: whether it returns 0. Out of fuel
-- it stops as a panic does.
unfoldable pub mappages_loop : ℕ → ℕ → ℕ → ℕ → ℕ → ℕ → Kmem → Option (Bool × Kmem)
mappages_loop zero pt a last pa perm s = none
mappages_loop (suc k) pt a last pa perm s = walk true pt a s >>= λ (p, s1).
    let s2 = set_pte p (pte_of pa perm) s1 in
    let rest = mappages_loop k pt (a + pgsize) last (pa + pgsize) perm s2 in
    if p == 0
    then some (false, s1)
    else if is_valid (pte_at s1 p)
    then none
    else if a == last
    then some (true, s2)
    else rest

unfoldable pub mappages : ℕ → ℕ → ℕ → ℕ → ℕ → Kmem → Option (Bool × Kmem)
mappages pt va size pa perm s =
    let a = pgrounddown va in
    let last = pgrounddown ((va + size - 1) % 2 ^ 64) in
    unless (size == 0) >> mappages_loop ((last - a) / pgsize + 1) pt a last pa perm s

-- `kvmmap`
unfoldable pub kvmmap : ℕ → ℕ → ℕ → ℕ → ℕ → Kmem → Option Kmem
kvmmap pt va pa sz perm s = mappages pt va sz pa perm s >>= λ (ok, s1). if ok then some s1 else none

unfoldable pub uvmcreate : Kmem → ℕ × Kmem
uvmcreate s = let (page, s1) = kalloc s in if page == 0 then (0, s1) else (page, clear_page page s1)

-- `uvmfirst`, with the program of `sz` bytes at `src`.
unfoldable pub uvmfirst : ℕ → ℕ → ℕ → Kmem → Option Kmem
uvmfirst pt src sz s = do
  unless (leb pgsize sz)
  let page = (kalloc s).0
  (ok, s1) ← mappages pt 0 pgsize page 30 (clear_page page (kalloc s).1)
  some (record s1 { mem = memmove s1.mem page src sz })

-- `uvmclear`
unfoldable pub uvmclear : ℕ → ℕ → Kmem → Option Kmem
uvmclear pt va s = walk false pt va s >>= λ (a, s1).
    if a == 0 then none else some (set_pte a (pte_at s1 a - pte_at s1 a / 2 ^ 4 % 2 * 2 ^ 4) s1)

module _ (kernel_end : ℕ) where
  -- The loop of `uvmunmap` with `k` pages left from `a` on.
  unfoldable pub uvmunmap_loop : ℕ → ℕ → ℕ → Bool → Kmem → Option Kmem
  uvmunmap_loop zero pt a do_free s = some s
  uvmunmap_loop (suc k) pt a do_free s = walk false pt a s >>= λ (p, s1).
      let pte = pte_at s1 p in
      let freed = if do_free then kfree kernel_end (pte2pa pte) s1 else some s1 in
      unless ((p == 0) || not (is_valid pte))
      >> (unless (pte_flags pte == 1)
          >> (freed >>= λ s2. uvmunmap_loop k pt (a + pgsize) do_free (set_pte p 0 s2)))

  unfoldable pub uvmunmap : ℕ → ℕ → ℕ → Bool → Kmem → Option Kmem
  uvmunmap pt va npages do_free s =
      unless (not (va % pgsize == 0)) >> uvmunmap_loop npages pt va do_free s

  -- `uvmdealloc`: the new size.
  unfoldable pub uvmdealloc : ℕ → ℕ → ℕ → Kmem → Option (ℕ × Kmem)
  uvmdealloc pt oldsz newsz s =
      let npages = (pgroundup oldsz - pgroundup newsz) / pgsize in
      let unmapped = uvmunmap pt (pgroundup newsz) npages true s >>= λ s1. some (newsz, s1) in
      if leb oldsz newsz
      then some (oldsz, s)
      else if ltb (pgroundup newsz) (pgroundup oldsz)
      then unmapped
      else some (newsz, s)

  -- The loop of `uvmalloc` for an `xperm` of W and X, with at most `k` pages left from `a` on; `start` is where it began. Size 0
  -- is the failure.
  unfoldable pub uvmalloc_loop : ℕ → ℕ → ℕ → ℕ → ℕ → ℕ → Kmem → Option (ℕ × Kmem)
  uvmalloc_loop zero pt start a newsz xperm s = some (newsz, s)
  uvmalloc_loop (suc k) pt start a newsz xperm s =
      let (page, s1) = kalloc s in
      let undo = λ (t : Kmem). uvmdealloc pt a start t >>= λ (n, t'). some (0, t') in
      let one = mappages pt a pgsize page (18 + xperm) (clear_page page s1) >>= λ (ok, s2).
      let rest = uvmalloc_loop k pt start (a + pgsize) newsz xperm s2 in
      if ok then rest else (kfree kernel_end page s2 >>= undo) in
      if ltb a newsz then (if page == 0 then undo s1 else one) else some (newsz, s)

  unfoldable pub uvmalloc : ℕ → ℕ → ℕ → ℕ → Kmem → Option (ℕ × Kmem)
  uvmalloc pt oldsz newsz xperm s =
      let start = pgroundup oldsz in
      if ltb newsz oldsz
      then some (oldsz, s)
      else uvmalloc_loop ((newsz - start + pgsize - 1) / pgsize) pt start start newsz xperm s

  -- The entries of a page table from `i` on, with `k` of the 512 left; `free` frees a table of the
  -- next level.
  unfoldable pub freewalk_loop : (ℕ → Kmem → Option Kmem) → ℕ → ℕ → ℕ → Kmem → Option Kmem
  freewalk_loop free zero pt i s = some s
  freewalk_loop free (suc k) pt i s =
      let pte = pte_at s (pt + 8 * i) in
      let below =
        free (pte2pa pte) s >>= λ s1. freewalk_loop free k pt (i + 1) (set_pte (pt + 8 * i) 0 s1) in
      let rest = freewalk_loop free k pt (i + 1) s in
      if is_valid pte && is_branch pte then below else if is_valid pte then none else rest

  -- `freewalk` on fuel for the levels of the tree.
  unfoldable pub freewalk : ℕ → ℕ → Kmem → Option Kmem
  freewalk zero pt s = none
  freewalk (suc levels) pt s =
      freewalk_loop (freewalk levels) 512 pt 0 s >>= λ s1. kfree kernel_end pt s1

  unfoldable pub uvmfree : ℕ → ℕ → Kmem → Option Kmem
  uvmfree pt sz s =
      (if ltb 0 sz then uvmunmap pt 0 (pgroundup sz / pgsize) true s else some s) >>= λ s1.
      freewalk 3 pt s1

  -- The loop of `uvmcopy` with at most `k` pages left from `i` on: whether it returns 0.
  unfoldable pub uvmcopy_loop : ℕ → ℕ → ℕ → ℕ → ℕ → Kmem → Option (Bool × Kmem)
  uvmcopy_loop zero old new i sz s = some (true, s)
  uvmcopy_loop (suc k) old new i sz s =
      let undo = λ (t : Kmem). uvmunmap new 0 (i / pgsize) true t >>= λ t'. some (false, t') in
      let one = walk false old i s >>= λ (p, s1).
      let pte = pte_at s1 p in
      let (page, s2) = kalloc s1 in
      let s3 = record s2 { mem = memmove s2.mem page (pte2pa pte) pgsize } in
      let mapped = mappages new i pgsize page (pte_flags pte) s3 >>= λ (ok, s4).
      let rest = uvmcopy_loop k old new (i + pgsize) sz s4 in
      if ok then rest else (kfree kernel_end page s4 >>= undo) in
      unless ((p == 0) || not (is_valid pte)) >> (if page == 0 then undo s2 else mapped) in
      if ltb i sz then one else some (true, s)

  unfoldable pub uvmcopy : ℕ → ℕ → ℕ → Kmem → Option (Bool × Kmem)
  uvmcopy old new sz s = uvmcopy_loop ((sz + pgsize - 1) / pgsize) old new 0 sz s
