-- ===== src/Vm/Tests.antt =====
-- A page table whose entries all map their page to the table itself, and copies through it.
use fyp_os.Prelude.{
  ℕ, ◌+◌, ◌*◌, ◌%◌, ◌≡◌, ◌<◌, refl, sym, ◌∙◌, false, arith, inl, inr, Bytes, load, ◌==◌, ltb, leb,
  if◌then◌else◌, Bool-cases,
}
use fyp_os.Kalloc.{Kmem}
use fyp_os.Vm.{walk_loop, walk, walkaddr, maxva, pgrounddown, px}
use fyp_os.Vm.Transfer.{copyin}
use fyp_os.Vm.Copy.{AgreeOutside, IsStable, IsApart, Ends, copyin_lem}

-- Every aligned word from 4096 on holds PA2PTE(4096) with V, R, W and U.
abbrev self_map : Bytes
self_map a = if ltb a 4096 then 0 else if a % 8 == 0 then 23 else if a % 8 == 1 then 4 else 0

abbrev self_state : Bytes → Kmem
self_state m = record { mem = m; freelist = 0 }

cell :
    (m : Bytes) (k j a : ℕ)
    → AgreeOutside 100 103 m self_map
    → j < 8
    → a ≡ 4096 + 8 * k + j
    → m a ≡ (if j == 0 then 23 else if j == 1 then 4 else 0)
cell m k j a agree lt e =
    let rem : a % 8 ≡ j = omega arith in ground (arith, rem, agree a (inr (omega arith)))

word : (m : Bytes) (k : ℕ) → AgreeOutside 100 103 m self_map → load 8 m (4096 + 8 * k) ≡ 1047
unfolding load
word m k agree = omega (
  arith,
  cell m k 0 (4096 + 8 * k) agree (omega arith) (omega arith),
  cell m k 1 (4096 + 8 * k + 1) agree (omega arith) (omega arith),
  cell m k 2 (4096 + 8 * k + 1 + 1) agree (omega arith) (omega arith),
  cell m k 3 (4096 + 8 * k + 1 + 1 + 1) agree (omega arith) (omega arith),
  cell m k 4 (4096 + 8 * k + 1 + 1 + 1 + 1) agree (omega arith) (omega arith),
  cell m k 5 (4096 + 8 * k + 1 + 1 + 1 + 1 + 1) agree (omega arith) (omega arith),
  cell m k 6 (4096 + 8 * k + 1 + 1 + 1 + 1 + 1 + 1) agree (omega arith) (omega arith),
  cell m k 7 (4096 + 8 * k + 1 + 1 + 1 + 1 + 1 + 1 + 1) agree (omega arith) (omega arith),
)

mapped_to :
    (m : Bytes) (va : ℕ)
    → AgreeOutside 100 103 m self_map
    → walkaddr 4096 va (self_state m) ≡ (if leb maxva va then 0 else 4096)
unfolding walkaddr walk walk_loop
mapped_to m va agree = elim (Bool-cases (leb maxva va)) [
  | inl high ↦ rw high refl
  | inr low ↦
      rw (low, word m (px 2 va) agree, word m (px 1 va) agree, word m (px 0 va) agree)
        (ground arith)
]

self-IsStable : IsStable 4096 100 103 (self_state self_map)
self-IsStable m agree va = mapped_to m va agree ∙ sym (mapped_to self_map va (λ b out. refl))

self-IsApart : IsApart 4096 100 103 (self_state self_map) 4100 3
self-IsApart i lt =
    let va = pgrounddown (4100 + i) in
    let low : leb maxva va ≡ false = ground arith in
    let frame : walkaddr 4096 va (self_state self_map) ≡ 4096 =
      rw low at (mapped_to self_map va (λ b out. refl)) in
    inr (omega (arith, frame))

copyin_example :
    Ends 4096
      (self_state self_map)
      100
      4100
      3
      self_map
      (copyin 4096 100 4100 3 (self_state self_map))
copyin_example = copyin_lem 4096 100 4100 3 (self_state self_map) self-IsStable self-IsApart
