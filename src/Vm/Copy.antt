-- ===== src/Vm/Copy.antt =====
-- copyin of kernel/vm.c against the bytes that the page table shows to the user.
use fyp_os.Prelude.{
  ℕ, zero, suc, ◌+◌, ◌-◌, ◌%◌, min, ◌≤◌, ◌<◌, ◌≡◌, ◌≢◌, ◌⊎◌, refl, sym, ap, ◌∙◌, Bool, true, false,
  ◌&&◌, arith, inl, inr, Bytes, ltb, leb, ◌==◌, if◌then◌else◌, Bool-cases, ==→eq, ==→ne, ltb→lt,
  ltb→le,
}
use fyp_os.Kstring.{memmove}
use fyp_os.Kstring.Move.{copied, memmove-copied}
use fyp_os.Kalloc.{pgsize, Kmem}
use fyp_os.Vm.{pgrounddown, walkaddr}
use fyp_os.Vm.Transfer.{copyin_loop, copyin}

-- The physical address of a user address, and the byte there.
abbrev pub frame_of : ℕ → Kmem → ℕ → ℕ
frame_of pt s va = walkaddr pt (pgrounddown va) s

abbrev pub user_byte : ℕ → Kmem → ℕ → ℕ
user_byte pt s va = s.mem (frame_of pt s va + va % pgsize)

abbrev pub Outside : ℕ → ℕ → ℕ → Type 0
Outside lo hi b = (b < lo) ⊎ (hi ≤ b)

abbrev pub AgreeOutside : ℕ → ℕ → Bytes → Bytes → Type 0
AgreeOutside lo hi m m' = (b : ℕ) → Outside lo hi b → m b ≡ m' b

-- Writes between `lo` and `hi` touch no page table that the walks from `pt` read.
abbrev pub IsStable : ℕ → ℕ → ℕ → Kmem → Type 0
IsStable pt lo hi s =
    (m : Bytes)
    → AgreeOutside lo hi m s.mem
    → (va : ℕ) → walkaddr pt va (record s { mem = m }) ≡ walkaddr pt va s

-- The memory `m` after `len` user bytes from `srcva` on have come to `dst`.
abbrev pub user_over : Bytes → ℕ → ℕ → Kmem → ℕ → ℕ → Bytes
user_over m dst pt s srcva len b =
    if leb dst b && ltb b (dst + len) then user_byte pt s (srcva + (b - dst)) else m b

user_over_same :
    (m m' : Bytes) (dst pt : ℕ) (s : Kmem) (srcva len b : ℕ)
    → m b ≡ m' b
    → user_over m dst pt s srcva len b ≡ user_over m' dst pt s srcva len b
user_over_same m m' dst pt s srcva len b e = rw e refl

module _ (pt : ℕ) (s : Kmem) where
  -- How a copy of `len` bytes ends: the bytes before the first one that is not mapped are copied, and
  -- the result is true when these are all.
  abbrev pub Ends : ℕ → ℕ → ℕ → Bytes → Bool × Kmem → Type 0
  Ends dst srcva len m r =
      (c : ℕ) × (m' : Bytes) × (((c ≡ len) × (r ≡ (true, record s { mem = m' })))
        ⊎ ((c < len) × (frame_of pt s (srcva + c) ≡ 0) × (r ≡ (false, record s { mem = m' }))))
      × ((i : ℕ) → i < c → frame_of pt s (srcva + i) ≢ 0)
      × ((b : ℕ) → m' b ≡ user_over m dst pt s srcva c b)

-- Every byte that the user has at the `len` addresses lies outside.
abbrev pub IsApart : ℕ → ℕ → ℕ → Kmem → ℕ → ℕ → Type 0
IsApart pt lo hi s srcva len =
    (i : ℕ) → i < len → Outside lo hi (frame_of pt s (srcva + i) + (srcva + i) % pgsize)

module _ (pt lo hi : ℕ) (s : Kmem) (stable : IsStable pt lo hi s) where
  -- The chunk of `n` bytes in one page, and then the rest.
  chunk_over :
      (m : Bytes) (dst srcva len n left b : ℕ)
      → n + left ≡ len
      → AgreeOutside lo hi m s.mem
      → IsApart pt lo hi s srcva len
      → n ≡ min (pgsize - srcva % pgsize) len
      → user_over
          (copied m dst (frame_of pt s srcva + srcva % pgsize) n)
          (dst + n)
          pt
          s
          (pgrounddown srcva + pgsize)
          left
          b
        ≡ user_over m dst pt s srcva len b
  chunk_over m dst srcva len n left b sum agree apart e = elim (Bool-cases (ltb b dst)) [
    | inl low ↦ ground arith
    | inr high ↦ elim (Bool-cases (ltb b (dst + n))) [
      | inl now ↦
          let ge = ltb→le _ _ high in
          let lt = ltb→lt _ _ now in
          let page : pgrounddown (srcva + (b - dst)) ≡ pgrounddown srcva = omega arith in
          let off : (srcva + (b - dst)) % pgsize ≡ srcva % pgsize + (b - dst) = omega arith in
          let fr : frame_of pt s (srcva + (b - dst)) ≡ frame_of pt s srcva =
            ap (λ p. walkaddr pt p s) page in
          let at : frame_of pt s srcva + srcva % pgsize + (b - dst)
              ≡ frame_of pt s (srcva + (b - dst)) + (srcva + (b - dst)) % pgsize =
            omega arith in
          let left : user_over (copied m dst (frame_of pt s srcva + srcva % pgsize) n) (dst + n) pt
                s (pgrounddown srcva + pgsize) left b
              ≡ m (frame_of pt s srcva + srcva % pgsize + (b - dst)) =
            ground arith in
          let right : user_over m dst pt s srcva len b ≡ user_byte pt s (srcva + (b - dst)) =
            ground arith in
          let middle = ap m at ∙ agree _ (apart (b - dst) (omega arith)) in
          left ∙ middle ∙ sym right
      | inr later ↦
          let ge = ltb→le _ _ later in
          elim (Bool-cases (ltb b (dst + len))) [
            | inl more ↦
                let lt = ltb→lt _ _ more in
                let at : pgrounddown srcva + pgsize + (b - (dst + n)) ≡ srcva + (b - dst) =
                  omega arith in
                ground (arith, at)
            | inr past ↦ ground arith
          ]
    ]
  ]

  -- A chunk of `n` bytes that has been copied, and an end of the rest.
  chunk-Ends :
      (m m1 : Bytes) (dst srcva len n : ℕ) (r : Bool × Kmem)
      → AgreeOutside lo hi m s.mem
      → IsApart pt lo hi s srcva len
      → n ≡ min (pgsize - srcva % pgsize) len
      → frame_of pt s srcva ≢ 0
      → ((b : ℕ) → m1 b ≡ copied m dst (frame_of pt s srcva + srcva % pgsize) n b)
      → Ends pt s (dst + n) (pgrounddown srcva + pgsize) (len - n) m1 r
      → Ends pt s dst srcva len m r
  chunk-Ends m m1 dst srcva len n r agree apart size mapped moved (c, m', how, all, over) =
      let within : c ≤ len - n = elim how [
        | inl (e, r) ↦ omega arith
        | inr (lt, hole, r) ↦ omega arith
      ] in
      let size' : n ≡ min (pgsize - srcva % pgsize) (n + c) = omega arith in
      (
        n + c,
        m',
        elim how [
          | inl (e, r) ↦ inl (omega arith, r)
          | inr (lt, hole, r) ↦
              let at : pgrounddown srcva + pgsize + c ≡ srcva + (n + c) = omega arith in
              inr (omega arith, rw at at hole, r)
        ],
        λ i lt. elim (Bool-cases (ltb i n)) [
          | inl here ↦
              let lt' = ltb→lt _ _ here in
              let page : pgrounddown (srcva + i) ≡ pgrounddown srcva = omega arith in rw page mapped
          | inr later ↦
              let ge = ltb→le _ _ later in
              let same : pgrounddown srcva + pgsize + (i - n) ≡ srcva + i = omega arith in
              rw same at (all (i - n) (omega arith))
        ],
        λ b.
            over b
            ∙ user_over_same m1 (copied m dst (frame_of pt s srcva + srcva % pgsize) n) (dst + n) pt
                s (pgrounddown srcva + pgsize) c b (moved b)
            ∙ chunk_over m dst srcva (n + c) n c b refl agree (λ i lt. apart i (omega arith)) size',
      )

  copyin_loop-Ends :
      (k dst srcva len : ℕ) (m : Bytes)
      → len ≤ k
      → lo ≤ dst
      → dst + len ≤ hi
      → AgreeOutside lo hi m s.mem
      → IsApart pt lo hi s srcva len
      → Ends pt s dst srcva len m (copyin_loop k pt dst srcva len (record s { mem = m }))
  unfolding copyin_loop
  copyin_loop-Ends zero dst srcva len m le low high agree apart =
      (0, m, inl (omega arith, refl), λ i lt. absurd (omega arith), λ b. ground arith)
  copyin_loop-Ends (suc k) dst srcva len m le low high agree apart =
      let va0 = pgrounddown srcva in
      let n = min (pgsize - (srcva - va0)) len in
      let found = stable m agree va0 in
      elim (Bool-cases (ltb 0 len)) [
        | inr stop ↦
            let none_left = ltb→le _ _ stop in
            rw stop (0, m, inl (omega arith, refl), λ i lt. absurd (omega arith), λ b. ground arith)
        | inl go ↦
            let pos = ltb→lt _ _ go in
            let first : srcva + 0 ≡ srcva = omega arith in
            elim (Bool-cases (frame_of pt s srcva == 0)) [
              | inl hole ↦ (
                0,
                m,
                inr (pos, rw first (==→eq _ _ hole), rw (go, found, hole) refl),
                λ i lt. absurd (omega arith),
                λ b. ground arith,
              )
              | inr mapped ↦
                  let src = frame_of pt s srcva + (srcva - va0) in
                  let m1 = memmove m dst src n in
                  let agree1 : AgreeOutside lo hi m1 s.mem =
                    λ b out. memmove-copied m dst src n b ∙ ground (arith, agree b out) in
                  let apart1 : IsApart pt lo hi s (va0 + pgsize) (len - n) = λ i lt.
                    let e : srcva + (n + i) ≡ va0 + pgsize + i = omega arith in
                    rw e at (apart (n + i) (omega arith)) in
                  let size : n ≡ min (pgsize - srcva % pgsize) len = omega arith in
                  let base : src ≡ frame_of pt s srcva + srcva % pgsize = omega arith in
                  rw (go, found, mapped)
                    (chunk-Ends m m1 dst srcva len n _ agree apart size (==→ne _ _ mapped)
                      (λ b. memmove-copied m dst src n b ∙ ap (λ a. copied m dst a n b) base)
                      (copyin_loop-Ends k (dst + n) (va0 + pgsize) (len - n) m1 (omega arith)
                        (omega arith) (omega arith) agree1 apart1))
            ]
      ]

-- copyin, for a destination that holds neither page tables nor the user's bytes: the user bytes before
-- the first one that is not mapped for the user are copied to the destination and nothing else changes;
-- it returns 0 when these are all `len` bytes, and -1 otherwise.
pub copyin_lem :
    (pt dst srcva len : ℕ) (s : Kmem)
    → IsStable pt dst (dst + len) s
    → IsApart pt dst (dst + len) s srcva len
    → Ends pt s dst srcva len s.mem (copyin pt dst srcva len s)
unfolding copyin
copyin_lem pt dst srcva len s stable apart =
    copyin_loop-Ends pt dst (dst + len) s stable len dst srcva len s.mem (omega arith) (omega arith)
      (omega arith) (λ b out. refl) apart
