-- ===== src/File/Counts.antt =====
-- The reference counts of kernel/file.c: each is the number of references that there are.
use fyp_os.Prelude.{
  ℕ, zero, suc, ◌+◌, ◌-◌, ◌≤◌, ◌≡◌, Option, none, some, List, [], ◌∷◌, arith, ◌==◌, if◌then◌else◌,
  ltb, get_elem?, set, modify, get_elem?-modify, Bool-cases, Option-cases, inl, inr,
}
use fyp_os.File.{File, World, Release, nothing, filedup, fileclose, release_of, fd_none}

abbrev pub ref_at : List File → ℕ → ℕ
ref_at t i = elim (get_elem? t i) [ none ↦ 0 | some f ↦ f.ref ]

abbrev pub holds : ℕ → Option ℕ → ℕ
holds i none = 0
holds i (some j) = if j == i then 1 else 0

-- How many descriptors refer to file `i`.
abbrev pub count : ℕ → List (Option ℕ) → ℕ
count i [] = 0
count i (d ∷ ds) = holds i d + count i ds

-- Every file has as many references as it has descriptors of this process and `others`, the
-- references that other processes and calls under way hold.
abbrev pub IsCounted : (ℕ → ℕ) → World → Type 0
IsCounted others w = (i : ℕ) → ref_at w.ftable i ≡ count i w.ofile + others i

pub count-set :
    (i fd : ℕ) (ds : List (Option ℕ)) (d e : Option ℕ)
    → get_elem? ds fd ≡ some d
    → count i (set ds fd e) + holds i d ≡ count i ds + holds i e
count-set i fd [] d e at = absurd (cc)
count-set i zero (x ∷ ds) d e at = ground arith
count-set i (suc fd) (x ∷ ds) d e at = omega (arith, count-set i fd ds d e at)

pub count_positive :
    (i fd : ℕ) (ds : List (Option ℕ)) → get_elem? ds fd ≡ some (some i) → 1 ≤ count i ds
count_positive i fd ds at = ground (arith, count-set i fd ds (some i) none at)

pub ref_at-modify :
    (t : List File) (i j : ℕ) (g : File → File) {f : File}
    → get_elem? t i ≡ some f
    → ref_at (modify t i g) j ≡ (if i == j then (g f).ref else ref_at t j)
ref_at-modify t i j g {f} at = ground (arith, at, get_elem?-modify t i j g)

pub present :
    (t : List File) (i : ℕ) → 1 ≤ ref_at t i → (f : File) × (get_elem? t i ≡ some f) × (1 ≤ f.ref)
present t i h = elim (Option-cases (get_elem? t i)) [
  | inl e ↦ absurd (ground arith)
  | inr (f, e) ↦ (f, e, ground arith)
]

-- With a reference, `filedup` does not panic and counts one more for that file alone.
pub filedup-ref_at :
    (i : ℕ) (t : List File)
    → 1 ≤ ref_at t i
    → (t' : List File) × (filedup i t ≡ some t')
      × ((j : ℕ) → ref_at t' j ≡ ref_at t j + (if i == j then 1 else 0))
unfolding filedup
filedup-ref_at i t h =
    let (f, at, pos) = present t i h in
    let g : File → File = λ f. record f { ref = f.ref + 1 } in
    (modify t i g, ground (arith, at, pos), λ j. ground (arith, at, ref_at-modify t i j g at))

-- With a reference, `fileclose` does not panic and counts one less for that file alone; it releases
-- what the file stands for exactly with the last reference.
pub fileclose-ref_at :
    (i : ℕ) (t : List File)
    → 1 ≤ ref_at t i
    → (r : Release) × (t' : List File) × (f : File) × (fileclose i t ≡ some (r, t'))
      × ((j : ℕ) → ref_at t' j + (if i == j then 1 else 0) ≡ ref_at t j)
      × (get_elem? t i ≡ some f)
      × (r ≡ (if ref_at t' i == 0 then release_of f f.kind else nothing))
unfolding fileclose
fileclose-ref_at i t h =
    let (f, at, pos) = present t i h in
    elim (Bool-cases (ltb 0 (f.ref - 1))) [
      | inl more ↦
          let g : File → File = λ f. record f { ref = f.ref - 1 } in
          (
            nothing,
            modify t i g,
            f,
            ground (arith, at, pos, more),
            λ j. ground (arith, at, ref_at-modify t i j g at),
            at,
            ground (arith, at, ref_at-modify t i i g at),
          )
      | inr last ↦
          let g : File → File = λ f. record f { ref = 0; kind = fd_none } in
          (
            release_of f f.kind,
            modify t i g,
            f,
            ground (arith, at, pos, last),
            λ j. ground (arith, at, ref_at-modify t i j g at),
            at,
            ground (arith, at, ref_at-modify t i i g at),
          )
    ]
