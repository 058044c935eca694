-- ===== src/Prelude/Lists.antt =====
-- Lists measured and indexed by native numbers, under the library's names.
use Prim.Native.Nat.{ℕ, zero, suc, ◌+◌, ◌-◌, ◌≤◌}
use mathlib.Core.Path.{◌≡◌, refl, ap, sym, ◌∙◌}
use mathlib.Core.Logic.{inl, inr}
use mathlib.Core.Bool.{Bool, true, false, ◌||◌}
use mathlib.Core.List.{List, [], ◌∷◌, ◌++◌}
use mathlib.Core.Option.{Option, none, some}
use native.Mathlib.Omega.{arith}
use fyp_os.Prelude.Tests.{Bool-cases, ◌==◌, ltb, if◌then◌else◌}

module _ {ℓ} {A : Type ℓ} where
  abbrev pub length : List A → ℕ
  length [] = 0
  length (x ∷ xs) = suc (length xs)

  abbrev pub get_elem? : List A → ℕ → Option A
  get_elem? [] i = none
  get_elem? (x ∷ xs) zero = some x
  get_elem? (x ∷ xs) (suc i) = get_elem? xs i

  abbrev pub get_or : List A → ℕ → A → A
  get_or [] i d = d
  get_or (x ∷ xs) zero d = x
  get_or (x ∷ xs) (suc i) d = get_or xs i d

  -- A write out of bounds changes nothing.
  abbrev pub set : List A → ℕ → A → List A
  set [] i v = []
  set (x ∷ xs) zero v = v ∷ xs
  set (x ∷ xs) (suc i) v = x ∷ set xs i v

  abbrev pub replicate : ℕ → A → List A
  replicate zero a = []
  replicate (suc n) a = a ∷ replicate n a

  pub length-append : (xs ys : List A) → length (xs ++ ys) ≡ length xs + length ys
  length-append [] ys = omega arith
  length-append (x ∷ xs) ys = omega (arith, length-append xs ys)

  pub length-set : (xs : List A) (i : ℕ) (v : A) → length (set xs i v) ≡ length xs
  length-set [] i v = refl
  length-set (x ∷ xs) zero v = refl
  length-set (x ∷ xs) (suc i) v = ap suc (length-set xs i v)

  pub get_elem?-set :
      (xs : List A) (i j : ℕ) (v : A)
      → get_elem? (set xs i v) j
        ≡ (if i == j then (if ltb i (length xs) then some v else none) else get_elem? xs j)
  get_elem?-set [] i j v = ground arith
  get_elem?-set (x ∷ xs) zero zero v = ground arith
  get_elem?-set (x ∷ xs) zero (suc j) v = ground arith
  get_elem?-set (x ∷ xs) (suc i) zero v = ground arith
  get_elem?-set (x ∷ xs) (suc i) (suc j) v = ground (arith, get_elem?-set xs i j v)

  pub length-replicate : (n : ℕ) (a : A) → length (replicate n a) ≡ n
  length-replicate zero a = refl
  length-replicate (suc n) a = ap suc (length-replicate n a)

-- Membership of a number, as a test.
abbrev pub elem : ℕ → List ℕ → Bool
elem a [] = false
elem a (x ∷ xs) = (a == x) || elem a xs

module _ {ℓ} {A : Type ℓ} where
  abbrev pub map_option : (A → A) → Option A → Option A
  map_option f none = none
  map_option f (some a) = some (f a)

  -- `for` over an array whose body changes the element at hand; the index runs from `i` on.
  unfoldable pub map_from : (ℕ → A → A) → ℕ → List A → List A
  map_from f i [] = []
  map_from f i (x ∷ xs) = f i x ∷ map_from f (i + 1) xs

  -- The first index, counted from `i` on, whose element passes the test.
  unfoldable pub find_from : (A → Bool) → ℕ → List A → Option ℕ
  find_from test i [] = none
  find_from test i (x ∷ xs) =
      let rest = find_from test (i + 1) xs in if test x then some i else rest

  -- The element at an index is changed; out of range nothing is.
  unfoldable pub modify : List A → ℕ → (A → A) → List A
  modify [] i f = []
  modify (x ∷ xs) zero f = f x ∷ xs
  modify (x ∷ xs) (suc i) f = x ∷ modify xs i f

  pub get_elem?-map_from :
      (f : ℕ → A → A) (i : ℕ) (xs : List A) (j : ℕ)
      → get_elem? (map_from f i xs) j ≡ map_option (f (i + j)) (get_elem? xs j)
  unfolding map_from
  get_elem?-map_from f i [] j = refl
  get_elem?-map_from f i (x ∷ xs) zero =
      let e : i + 0 ≡ i = omega arith in ap (λ k. some (f k x)) (sym e)
  get_elem?-map_from f i (x ∷ xs) (suc j) =
      let e : i + 1 + j ≡ i + suc j = omega arith in
      get_elem?-map_from f (i + 1) xs j ∙ ap (λ k. map_option (f k) (get_elem? xs j)) e

  pub get_elem?-modify :
      (xs : List A) (i j : ℕ) (f : A → A)
      → get_elem? (modify xs i f) j
        ≡ (if i == j then map_option f (get_elem? xs j) else get_elem? xs j)
  unfolding modify
  get_elem?-modify [] i j f = ground arith
  get_elem?-modify (x ∷ xs) zero zero f = ground arith
  get_elem?-modify (x ∷ xs) zero (suc j) f = ground arith
  get_elem?-modify (x ∷ xs) (suc i) zero f = ground arith
  get_elem?-modify (x ∷ xs) (suc i) (suc j) f = ground (arith, get_elem?-modify xs i j f)

  -- What a search finds passes the test, and nothing before it does.
  pub find_from-some :
      (test : A → Bool) (i r : ℕ) (xs : List A)
      → find_from test i xs ≡ some r
      → (a : A) × (i ≤ r) × (get_elem? xs (r - i) ≡ some a) × (test a ≡ true)
  unfolding find_from
  find_from-some test i r [] e = absurd (cc)
  find_from-some test i r (x ∷ xs) e = elim (Bool-cases (test x)) [
    | inl hit ↦
        let e' : i ≡ r = ground arith in
        let z : r - i ≡ 0 = omega arith in (x, omega arith, rw z refl, hit)
    | inr miss ↦
        let (a, le, at, t) = find_from-some test (i + 1) r xs (rw miss at e) in
        let s : r - i ≡ suc (r - (i + 1)) = omega arith in (a, omega arith, rw s at, t)
  ]

  pub find_from-none :
      (test : A → Bool) (i j : ℕ) (xs : List A) {a : A}
      → find_from test i xs ≡ none
      → get_elem? xs j ≡ some a
      → test a ≡ false
  unfolding find_from
  find_from-none test i j [] e at = absurd (cc)
  find_from-none test i zero (x ∷ xs) e at = ground arith
  find_from-none test i (suc j) (x ∷ xs) e at = elim (Bool-cases (test x)) [
    | inl hit ↦ absurd (cc (rw hit at e))
    | inr miss ↦ find_from-none test (i + 1) j xs (rw miss at e) at
  ]
