-- ===== src/Bio/Search.antt =====
-- The scans of bget in kernel/bio.c over the ring.
use fyp_os.Prelude.{
  ℕ, ◌≡◌, Bool, true, false, none, some, List, [], ◌∷◌, arith, ◌==◌, get_elem?, elem, Bool-cases,
  Option-cases, inl, inr, ◌∙◌, ==→eq, sym,
}
use fyp_os.Bio.{Buf, search, search_back}

pub search-some :
    (test : Buf → Bool) (bufs : List Buf) (ring : List ℕ) {i : ℕ}
    → search test bufs ring ≡ some i
    → (b : Buf) × (get_elem? bufs i ≡ some b) × (test b ≡ true)
unfolding search
search-some test bufs [] e = absurd (cc)
search-some test bufs (j ∷ ring) e = elim (Option-cases (get_elem? bufs j)) [
  | inl out ↦ search-some test bufs ring (rw (out, search) at e)
  | inr (b, at) ↦ elim (Bool-cases (test b)) [
    | inl hit ↦ (b, ground arith, hit)
    | inr miss ↦ search-some test bufs ring (rw (at, miss, search) at e)
  ]
]

pub search-none :
    (test : Buf → Bool) (bufs : List Buf) (ring : List ℕ) (i : ℕ) {b : Buf}
    → search test bufs ring ≡ none
    → elem i ring ≡ true
    → get_elem? bufs i ≡ some b
    → test b ≡ false
unfolding search
search-none test bufs [] i e here at = absurd (cc)
search-none test bufs (j ∷ ring) i e here at = elim (Bool-cases (i == j)) [
  | inl same ↦ ground arith
  | inr other ↦ elim (Option-cases (get_elem? bufs j)) [
    | inl out ↦ search-none test bufs ring i (rw (out, search) at e) (ground arith) at
    | inr (b, at') ↦ elim (Bool-cases (test b)) [
      | inl hit ↦ absurd (ground arith)
      | inr miss ↦ search-none test bufs ring i (rw (at', miss, search) at e) (ground arith) at
    ]
  ]
]

pub search_back-some :
    (test : Buf → Bool) (bufs : List Buf) (ring : List ℕ) {i : ℕ}
    → search_back test bufs ring ≡ some i
    → (b : Buf) × (get_elem? bufs i ≡ some b) × (test b ≡ true)
unfolding search_back
search_back-some test bufs [] e = absurd (cc)
search_back-some test bufs (j ∷ ring) e = elim (Option-cases (search_back test bufs ring)) [
  | inr (k, later) ↦ search_back-some test bufs ring (later ∙ (rw later at e))
  | inl stop ↦ elim (Option-cases (get_elem? bufs j)) [
    | inl out ↦ absurd (cc (rw (stop, out) at e))
    | inr (b, at) ↦ elim (Bool-cases (test b)) [
      | inl hit ↦ (b, ground arith, hit)
      | inr miss ↦ absurd (cc (rw (stop, at, miss) at e))
    ]
  ]
]

pub search_back-none :
    (test : Buf → Bool) (bufs : List Buf) (ring : List ℕ) (i : ℕ) {b : Buf}
    → search_back test bufs ring ≡ none
    → elem i ring ≡ true
    → get_elem? bufs i ≡ some b
    → test b ≡ false
unfolding search_back
search_back-none test bufs [] i e here at = absurd (cc)
search_back-none test bufs (j ∷ ring) i {b} e here at =
    elim (Option-cases (search_back test bufs ring)) [
      | inr (k, later) ↦ absurd (cc (rw (later, search_back) at e))
      | inl stop ↦ elim (Bool-cases (i == j)) [
        | inr other ↦ search_back-none test bufs ring i stop (ground arith) at
        | inl same ↦
            let there : get_elem? bufs j ≡ some b = rw (sym (==→eq _ _ same)) at in
            elim (Bool-cases (test b)) [
              | inl hit ↦ absurd (cc (rw (stop, there, hit, search_back) at e))
              | inr miss ↦ miss
            ]
      ]
    ]
