-- ===== src/Fs/Path/Elements.antt =====
-- skipelem of kernel/fs.c against the split of a path at its slashes.
use fyp_os.Prelude.{
  ℕ, zero, suc, ◌≤◌, ◌<◌, ◌≡◌, ◌⊎◌, refl, sym, ap, ◌∙◌, false, Option, none, some, List, [], ◌∷◌,
  map, length, arith, inl, inr, ◌==◌, if◌then◌else◌, Bool-cases, ==→eq, ◌>>=◌,
}
use fyp_os.Fs.Dir.{dirsiz}
use fyp_os.Fs.Path.{slash, skip_slashes, element, after_element, cut, skipelem}

-- The names that repeated calls of `skipelem` give, on fuel.
pub elements : ℕ → List ℕ → Option (List (List ℕ))
elements zero path = none
elements (suc k) path = elim (skipelem path) [
  | none ↦ some []
  | some (name, rest) ↦ elements k rest >>= λ names. some (name ∷ names)
]

-- The pieces of a path between its slashes.
abbrev push : ℕ → List (List ℕ) → List (List ℕ)
push c [] = (c ∷ []) ∷ []
push c (p ∷ ps) = (c ∷ p) ∷ ps

abbrev pub pieces : List ℕ → List (List ℕ)
pieces [] = [] ∷ []
pieces (c ∷ path) = if c == slash then [] ∷ pieces path else push c (pieces path)

abbrev pub nonempty : List (List ℕ) → List (List ℕ)
nonempty [] = []
nonempty ([] ∷ ps) = nonempty ps
nonempty ((c ∷ p) ∷ ps) = (c ∷ p) ∷ nonempty ps

-- The names of a path: its pieces that are not empty, cut at DIRSIZ bytes.
abbrev pub names_of : List ℕ → List (List ℕ)
names_of path = map (cut dirsiz) (nonempty (pieces path))

names_of-skip_slashes : (path : List ℕ) → names_of (skip_slashes path) ≡ names_of path
unfolding skip_slashes
names_of-skip_slashes [] = refl
names_of-skip_slashes (c ∷ path) = elim (Bool-cases (c == slash)) [
  | inl e ↦ rw e (names_of-skip_slashes path)
  | inr e ↦ ap names_of {x = skip_slashes (c ∷ path)} {y = c ∷ path} (rw e refl)
]

-- What follows an element is nothing, or a slash.
after_cases :
    (path : List ℕ) → (after_element path ≡ []) ⊎ ((q : List ℕ) × (after_element path ≡ slash ∷ q))
unfolding after_element
after_cases [] = inl refl
after_cases (c ∷ path) = elim (Bool-cases (c == slash)) [
  | inl e ↦ inr (path, rw e (ap (λ x. x ∷ path) (==→eq _ _ e)))
  | inr e ↦ rw e (after_cases path)
]

abbrev pieces_after : List ℕ → List (List ℕ)
pieces_after [] = []
pieces_after (c ∷ q) = pieces q

pieces-element : (path : List ℕ) → pieces path ≡ element path ∷ pieces_after (after_element path)
unfolding element after_element
pieces-element [] = refl
pieces-element (c ∷ path) = elim (Bool-cases (c == slash)) [
  | inl e ↦ rw e refl
  | inr e ↦ rw (e, pieces-element path) refl
]

pieces_after-nonempty :
    (path : List ℕ)
    → nonempty (pieces_after (after_element path)) ≡ nonempty (pieces (after_element path))
pieces_after-nonempty path = elim (after_cases path) [ inl e ↦ rw e refl | inr (q, e) ↦ rw e refl ]

length-skip_slashes : (path : List ℕ) → length (skip_slashes path) ≤ length path
unfolding skip_slashes
length-skip_slashes [] = omega arith
length-skip_slashes (c ∷ path) = ground (arith, length-skip_slashes path)

length-after_element : (path : List ℕ) → length (after_element path) ≤ length path
unfolding after_element
length-after_element [] = omega arith
length-after_element (c ∷ path) = ground (arith, length-after_element path)

-- What is left of a path after its slashes is empty, or begins with another byte.
skip_cases :
    (path : List ℕ)
    → (skip_slashes path ≡ [])
      ⊎ ((c : ℕ) × (q : List ℕ) × (skip_slashes path ≡ c ∷ q) × ((c == slash) ≡ false))
unfolding skip_slashes
skip_cases [] = inl refl
skip_cases (c ∷ path) = elim (Bool-cases (c == slash)) [
  | inl e ↦ rw e (skip_cases path)
  | inr e ↦ inr (c, path, rw e refl, e)
]

names_of-element :
    (c : ℕ) (q : List ℕ)
    → (c == slash) ≡ false
    → names_of (c ∷ q)
      ≡ cut dirsiz (element (c ∷ q)) ∷ names_of (skip_slashes (after_element (c ∷ q)))
unfolding element after_element
names_of-element c q e =
    rw (names_of-skip_slashes (after_element (c ∷ q)), e, pieces-element q)
      (ap (λ ps. cut dirsiz (c ∷ element q) ∷ map (cut dirsiz) ps) (pieces_after-nonempty q))

shorter_rest :
    (c : ℕ) (q path : List ℕ) (k : ℕ)
    → skip_slashes path ≡ c ∷ q
    → (c == slash) ≡ false
    → length path < suc k
    → length (skip_slashes (after_element (c ∷ q))) < k
unfolding after_element
shorter_rest c q path k e other lt = rw other (
    omega (
      arith,
      length-skip_slashes (after_element q),
      length-after_element q,
      length-skip_slashes path,
      ap length e,
    ))

skipelem-none : (path : List ℕ) → skip_slashes path ≡ [] → skipelem path ≡ none
unfolding skipelem
skipelem-none path e = rw e refl

skipelem-some :
    (path : List ℕ) (c : ℕ) (q : List ℕ)
    → skip_slashes path ≡ c ∷ q
    → skipelem path ≡ some (cut dirsiz (element (c ∷ q)), skip_slashes (after_element (c ∷ q)))
unfolding skipelem
skipelem-some path c q e = rw e refl

-- With fuel for more rounds than the path has bytes, repeated calls of `skipelem` give the names of
-- the path in order: its pieces between slashes that are not empty, each cut at DIRSIZ bytes.
pub elements-names_of :
    (k : ℕ) (path : List ℕ) → length path < k → elements k path ≡ some (names_of path)
unfolding elements
elements-names_of zero path lt = elim lt [ ]
elements-names_of (suc k) path lt = elim (skip_cases path) [
  | inl e ↦
      rw (skipelem-none path e, elements)
        (ap some (ap names_of (sym e) ∙ names_of-skip_slashes path))
  | inr (c, q, e, other) ↦
      let rest = skip_slashes (after_element (c ∷ q)) in
      let shorter : length rest < k = shorter_rest c q path k e other lt in
      let all : names_of path ≡ cut dirsiz (element (c ∷ q)) ∷ names_of rest =
        sym (names_of-skip_slashes path) ∙ ap names_of e ∙ names_of-element c q other in
      rw (skipelem-some path c q e, elements, elements-names_of k rest shorter) (ap some (sym all))
]
