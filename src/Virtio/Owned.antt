-- ===== src/Virtio/Owned.antt =====
-- Who has each descriptor of kernel/virtio_disk.c: it is free, held by the code, or in a request.
use fyp_os.Prelude.{
  ℕ, zero, suc, ◌+◌, ◌%◌, ◌≡◌, ◌⊎◌, inl, inr, refl, sym, Bool, true, false, none, some, List, [],
  ◌∷◌, ◌++◌, write, ltb, ◌==◌, if◌then◌else◌, arith, Bool-cases, ==→eq, eq→==, ap, ◌∙◌, length,
  length-append,
}
use fyp_os.Virtio.{
  Desc, Driver, num, alloc_loop, alloc_desc, free_desc, free_all, alloc_more, no_desc,
}

abbrev pub one_if : Bool → ℕ
one_if b = if b then 1 else 0

abbrev pub count : ℕ → List ℕ → ℕ
count i [] = 0
count i (j ∷ js) = one_if (j == i) + count i js

-- The three descriptors of a request.
pub record Chain : Type 0 where
  pub head : ℕ
  pub middle : ℕ
  pub last : ℕ

abbrev pub parts : Chain → List ℕ
parts c = c.head ∷ c.middle ∷ c.last ∷ []

abbrev pub uses : ℕ → List Chain → ℕ
uses i [] = 0
uses i (c ∷ cs) = count i (parts c) + uses i cs

pub record IsLinked (desc : ℕ → Desc) (c : Chain) : Type 0 where
  pub first_flags : (desc c.head).flags % 2 ≡ 1
  pub first_next : (desc c.head).next ≡ c.middle
  pub middle_flags : (desc c.middle).flags % 2 ≡ 1
  pub middle_next : (desc c.middle).next ≡ c.last
  pub last_flags : (desc c.last).flags % 2 ≡ 0

abbrev pub Linked : (ℕ → Desc) → List Chain → Type 0
Linked desc [] = Unit
Linked desc (c ∷ cs) = IsLinked desc c × Linked desc cs

-- Each descriptor is free, held, or part of one request, and only once.
pub record IsOwned (held : List ℕ) (chains : List Chain) (d : Driver) : Type 0 where
  pub counted : (i : ℕ) → one_if (d.free i) + count i held + uses i chains ≡ one_if (ltb i num)
  pub linked : Linked d.desc chains

-- The count of a descriptor that changes hands.
taken_count :
    (h u b j i : ℕ) (free : ℕ → Bool)
    → one_if (free j) + h + u ≡ b
    → free i ≡ true
    → one_if (write free i false j) + (one_if (i == j) + h) + u ≡ b
taken_count h u b j i free e here = elim (Bool-cases (i == j)) [
  | inl same ↦ (let at : i ≡ j = ==→eq i j same in rw same (omega (arith, rw (sym at, here) at e)))
  | inr other ↦ rw other (omega (arith, e))
]

given_count :
    (h u b j i : ℕ) (free : ℕ → Bool)
    → one_if (free j) + (one_if (i == j) + h) + u ≡ b
    → free i ≡ false
    → one_if (write free i true j) + h + u ≡ b
given_count h u b j i free e here = elim (Bool-cases (i == j)) [
  | inl same ↦
      (let at : i ≡ j = ==→eq i j same in rw same (omega (arith, rw (same, sym at, here) at e)))
  | inr other ↦ rw other (omega (arith, rw other at e))
]

module _ (held : List ℕ) (chains : List Chain) where
  alloc_loop-IsOwned :
      (k i : ℕ) (d : Driver)
      → k + i ≡ num
      → IsOwned held chains d
      → (alloc_loop k i d ≡ (none, d))
        ⊎ ((j : ℕ) × (d' : Driver) × (alloc_loop k i d ≡ (some j, d'))
            × IsOwned (j ∷ held) chains d')
  unfolding alloc_loop
  alloc_loop-IsOwned zero i d le ok = inl refl
  alloc_loop-IsOwned (suc k) i d le ok = elim (Bool-cases (d.free i)) [
    | inr taken ↦ rw taken (alloc_loop-IsOwned k (i + 1) d (omega arith) ok)
    | inl free ↦ inr (
      i,
      record d { free = write d.free i false },
      rw free refl,
      record {
        counted = λ j. taken_count _ _ _ j i d.free (ok.counted j) free;
        linked = ok.linked;
      },
    )
  ]

  pub alloc_desc-IsOwned :
      (d : Driver)
      → IsOwned held chains d
      → (alloc_desc d ≡ (none, d))
        ⊎ ((j : ℕ) × (d' : Driver) × (alloc_desc d ≡ (some j, d')) × IsOwned (j ∷ held) chains d')
  unfolding alloc_desc
  alloc_desc-IsOwned d ok = alloc_loop-IsOwned num 0 d refl ok

elsewhere : {A : Type 0} (f : ℕ → A) (i j : ℕ) (v : A) → one_if (j == i) ≡ 0 → write f i v j ≡ f j
elsewhere f i j v e = ground arith

IsLinked-write :
    (desc : ℕ → Desc) (c : Chain) (i : ℕ) (v : Desc)
    → count i (parts c) ≡ 0
    → IsLinked desc c
    → IsLinked (write desc i v) c
IsLinked-write desc c i v z ok =
    let a = elsewhere desc i c.head v (omega (arith, z)) in
    let b = elsewhere desc i c.middle v (omega (arith, z)) in
    let e = elsewhere desc i c.last v (omega (arith, z)) in
    record {
      first_flags = ap (λ (x : Desc). x.flags % 2) a ∙ ok.first_flags;
      first_next = ap (λ (x : Desc). x.next) a ∙ ok.first_next;
      middle_flags = ap (λ (x : Desc). x.flags % 2) b ∙ ok.middle_flags;
      middle_next = ap (λ (x : Desc). x.next) b ∙ ok.middle_next;
      last_flags = ap (λ (x : Desc). x.flags % 2) e ∙ ok.last_flags;
    }

pub Linked-write :
    (desc : ℕ → Desc) (cs : List Chain) (i : ℕ) (v : Desc)
    → uses i cs ≡ 0
    → Linked desc cs
    → Linked (write desc i v) cs
Linked-write desc [] i v z ok = tt
Linked-write desc (c ∷ cs) i v z (one, more) = (
  IsLinked-write desc c i v (omega (arith, z)) one,
  Linked-write desc cs i v (omega (arith, z)) more,
)

pub only_held :
    (free inside : Bool) (h u : ℕ)
    → one_if free + (1 + h) + u ≡ one_if inside
    → (inside ≡ true) × (free ≡ false) × (u ≡ 0)
only_held true true h u e = absurd (omega (arith, e))
only_held true false h u e = absurd (omega (arith, e))
only_held false true h u e = (refl, refl, omega (arith, e))
only_held false false h u e = absurd (omega (arith, e))

-- A held descriptor goes back without a panic.
pub free_desc-IsOwned :
    (i : ℕ) (held : List ℕ) (chains : List Chain) (d : Driver)
    → IsOwned (i ∷ held) chains d
    → let d' : Driver = record d { desc = write d.desc i no_desc; free = write d.free i true } in
      (free_desc i d ≡ some d') × IsOwned held chains d'
unfolding free_desc
free_desc-IsOwned i held chains d ok =
    let here : (i == i) ≡ true = eq→== i i refl in
    let (inside, taken, unused) =
      only_held (d.free i) (ltb i num) _ _ (rw here at (ok.counted i)) in
    (
      rw (inside, taken) refl,
      record {
        counted = λ j. given_count _ _ _ j i d.free (ok.counted j) taken;
        linked = Linked-write d.desc chains i no_desc unused ok.linked;
      },
    )

pub free_all-IsOwned :
    (is : List ℕ) (chains : List Chain) (d : Driver)
    → IsOwned is chains d
    → (d' : Driver) × (free_all is d ≡ some d') × IsOwned [] chains d'
unfolding free_all
free_all-IsOwned [] chains d ok = (d, refl, ok)
free_all-IsOwned (i ∷ is) chains d ok =
    let (e, ok1) = free_desc-IsOwned i is chains d ok in
    let (d', e', ok') = free_all-IsOwned is chains _ ok1 in (d', rw e e', ok')

count-append : (i j : ℕ) (xs : List ℕ) → count i (xs ++ (j ∷ [])) ≡ one_if (j == i) + count i xs
count-append i j [] = refl
count-append i j (x ∷ xs) = omega (arith, count-append i j xs)

-- `alloc_more` takes as many descriptors as it is asked to, or gives back those that it has.
pub alloc_more-IsOwned :
    (k : ℕ) (idx : List ℕ) (chains : List Chain) (d : Driver)
    → IsOwned idx chains d
    → ((d' : Driver) × (alloc_more k idx d ≡ some (none, d')) × IsOwned [] chains d')
      ⊎ ((more : List ℕ) × (d' : Driver) × (alloc_more k idx d ≡ some (some more, d'))
          × (length more ≡ length idx + k)
          × IsOwned more chains d')
unfolding alloc_more
alloc_more-IsOwned zero idx chains d ok = inr (idx, d, refl, omega arith, ok)
alloc_more-IsOwned (suc k) idx chains d ok = elim (alloc_desc-IsOwned idx chains d ok) [
  | inl full ↦
      (let (d', e, ok') = free_all-IsOwned idx chains d ok in
        inl (d', rw (full, alloc_more, full, e) refl, ok'))
  | inr (j, d1, e1, ok1) ↦
      let ok2 : IsOwned (idx ++ (j ∷ [])) chains d1 = record {
        counted = λ i. rw (count-append i j idx) (ok1.counted i);
        linked = ok1.linked;
      } in
      elim (alloc_more-IsOwned k (idx ++ (j ∷ [])) chains d1 ok2) [
        | inl (d', e, ok') ↦ inl (d', rw (e1, alloc_more, e1) e, ok')
        | inr (more, d', e, len, ok') ↦ inr (
          more,
          d',
          rw (e1, alloc_more, e1) e,
          omega (arith, len, length-append idx (j ∷ [])),
          ok',
        )
      ]
]
