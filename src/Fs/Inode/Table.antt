-- ===== src/Fs/Inode/Table.antt =====
-- The table of inodes in kernel/fs.c: one entry for an inode, shared by all who refer to it.
use fyp_os.Prelude.{
  ℕ, ◌+◌, ◌-◌, ◌≤◌, ◌≡◌, ◌≢◌, ◌⊎◌, refl, sym, ◌∙◌, Bool, true, false, not, ◌&&◌, Option, none, some,
  List, [], ◌∷◌, arith, inl, inr, ◌==◌, if◌then◌else◌, is_some, get_elem?, get_elem?-modify, modify,
  find_from, find_from-some, find_from-none, Bool-cases, Option-cases, ==→eq, ==→ne,
}
use fyp_os.Fs.Inode.{Inode, is_for, iget_scan, iget_take, iget}

abbrev is_free : Inode → Bool
is_free p = p.ref == 0

-- What the loop remembers of the empty entries, given what it knew before.
abbrev or_else : Option ℕ → Option ℕ → Option ℕ
or_else none later = later
or_else (some i) later = some i

iget_scan-found :
    (dev inum i : ℕ) (e : Option ℕ) (t : List Inode)
    → (iget_scan dev inum i e t).0 ≡ find_from (is_for dev inum) i t
unfolding iget_scan find_from
iget_scan-found dev inum i e [] = refl
iget_scan-found dev inum i e (p ∷ t) = ground (
  arith,
  iget_scan-found dev inum (i + 1) (if not (is_some e) && (p.ref == 0) then some i else e) t,
)

iget_scan-empty :
    (dev inum i : ℕ) (e : Option ℕ) (t : List Inode)
    → find_from (is_for dev inum) i t ≡ none
    → (iget_scan dev inum i e t).1 ≡ or_else e (find_from is_free i t)
unfolding iget_scan find_from
iget_scan-empty dev inum i none [] h = refl
iget_scan-empty dev inum i (some k) [] h = refl
iget_scan-empty dev inum i none (p ∷ t) h =
    ground
      (arith, iget_scan-empty dev inum (i + 1) (some i) t, iget_scan-empty dev inum (i + 1) none t)
iget_scan-empty dev inum i (some k) (p ∷ t) h =
    ground (arith, iget_scan-empty dev inum (i + 1) (some k) t)

-- The result of `iget` by two plain searches.
iget_searches :
    (dev inum : ℕ) (t : List Inode)
    → iget dev inum t
      ≡ iget_take dev inum (find_from (is_for dev inum) 0 t) (find_from is_free 0 t) t
unfolding iget iget_take
iget_searches dev inum t = elim (Option-cases (find_from (is_for dev inum) 0 t)) [
  | inl missing ↦
      rw (iget_scan-found dev inum 0 none t, missing, iget_scan-empty dev inum 0 none t missing)
        refl
  | inr (i, found) ↦ rw (iget_scan-found dev inum 0 none t, found) refl
]

-- No inode has two entries in use.
abbrev pub IsSingle : List Inode → Type 0
IsSingle t =
    (dev inum i j : ℕ) (p q : Inode)
    → get_elem? t i ≡ some p
    → get_elem? t j ≡ some q
    → is_for dev inum p ≡ true
    → is_for dev inum q ≡ true
    → i ≡ j

-- The change of one entry leaves a table single if the entry, once changed, is for an inode that no
-- other entry is for.
modify-IsSingle :
    (k : ℕ) (f : Inode → Inode) (t : List Inode) (r : Inode)
    → IsSingle t
    → get_elem? t k ≡ some r
    → ((dev inum j : ℕ) (q : Inode)
        → get_elem? t j ≡ some q
        → is_for dev inum (f r) ≡ true
        → is_for dev inum q ≡ true
        → k ≡ j)
    → IsSingle (modify t k f)
modify-IsSingle k f t r single at alone dev inum i j p q at1 at2 h1 h2 =
    let e1 = get_elem?-modify t k i f in
    let e2 = get_elem?-modify t k j f in
    elim (Bool-cases (k == i)) [
      | inl a ↦ elim (Bool-cases (k == j)) [
        | inl b ↦ sym (==→eq _ _ a) ∙ ==→eq _ _ b
        | inr b ↦
            let old : get_elem? t j ≡ some q = ground arith in
            let own : is_for dev inum (f r) ≡ true = ground (arith, at) in
            absurd (==→ne _ _ b (alone dev inum j q old own h2))
      ]
      | inr a ↦ elim (Bool-cases (k == j)) [
        | inl b ↦
            let old : get_elem? t i ≡ some p = ground arith in
            let own : is_for dev inum (f r) ≡ true = ground (arith, at) in
            absurd (==→ne _ _ a (alone dev inum i p old own h1))
        | inr b ↦ single dev inum i j p q (ground arith) (ground arith) h1 h2
      ]
    ]

-- What `iget` does when it returns the entry `i`.
pub record Found (dev inum i : ℕ) (t t' : List Inode) : Type 0 where
  pub old : Inode
  pub new : Inode
  pub was : get_elem? t i ≡ some old
  pub now : get_elem? t' i ≡ some new
  pub is_one : is_for dev inum new ≡ true
  -- The entry was in use for the inode, and gains a reference; or it was free and no entry was.
  pub reason :
      (is_for dev inum old ≡ true) × (new ≡ record old { ref = old.ref + 1 })
      ⊎ (old.ref ≡ 0)
        × (new.ref ≡ 1)
        × (new.valid ≡ false)
        × ((j : ℕ) (q : Inode) → get_elem? t j ≡ some q → is_for dev inum q ≡ false)
  pub others : (j : ℕ) → i ≢ j → get_elem? t' j ≡ get_elem? t j
  pub single : IsSingle t'

-- In a table with one entry for an inode at most, `iget` returns the entry that is in use for the
-- inode, with one more reference, or else takes a free entry for it; no other entry changes, and the
-- table still has one entry for an inode at most. It panics only if no entry is for the inode and
-- all are in use.
pub iget-Found :
    (dev inum : ℕ) (t : List Inode)
    → IsSingle t
    → (iget dev inum t ≡ none)
        × ((j : ℕ) (q : Inode) → get_elem? t j ≡ some q → (is_for dev inum q ≡ false) × (1 ≤ q.ref))
      ⊎ ((i : ℕ) × (t' : List Inode) × (iget dev inum t ≡ some (i, t')) × Found dev inum i t t')
unfolding iget_take
iget-Found dev inum t single = elim (Option-cases (find_from (is_for dev inum) 0 t)) [
  | inr (i, found) ↦
      let (p, le, at, hit) = find_from-some (is_for dev inum) 0 i t found in
      let z : i - 0 ≡ i = omega arith in
      let at' = rw z at at in
      let f : Inode → Inode = λ q. record q { ref = q.ref + 1 } in
      inr (
        i,
        modify t i f,
        rw (iget_searches dev inum t, found) refl,
        record {
          old = p;
          new = f p;
          was = at';
          now = get_elem?-modify t i i f ∙ ground (arith, at');
          is_one = ground arith;
          reason = inl (hit, refl);
          others = λ j ne. get_elem?-modify t i j f ∙ ground (arith, ne);
          single =
              modify-IsSingle i f t p single at'
                λ d m j q at2 h1 h2. single dev inum i j p q at' at2 hit (ground arith);
        },
      )
  | inl missing ↦
      let absent = λ (j : ℕ) (q : Inode) (at : get_elem? t j ≡ some q).
        find_from-none (is_for dev inum) 0 j t missing at in
      elim (Option-cases (find_from is_free 0 t)) [
        | inl full ↦ inl (
          rw (iget_searches dev inum t, missing, full) refl,
          λ j q at. (absent j q at, ground (arith, find_from-none is_free 0 j t full at)),
        )
        | inr (i, found) ↦
            let (p, le, at, hit) = find_from-some is_free 0 i t found in
            let z : i - 0 ≡ i = omega arith in
            let at' = rw z at at in
            let f : Inode → Inode =
              λ q. record q { dev = dev; inum = inum; ref = 1; valid = false } in
            inr (
              i,
              modify t i f,
              rw (iget_searches dev inum t, missing, found) refl,
              record {
                old = p;
                new = f p;
                was = at';
                now = get_elem?-modify t i i f ∙ ground (arith, at');
                is_one = ground arith;
                reason = inr (==→eq _ _ hit, refl, refl, absent);
                others = λ j ne. get_elem?-modify t i j f ∙ ground (arith, ne);
                single =
                    modify-IsSingle i f t p single at'
                      λ d m j q at2 h1 h2. absurd (ground (arith, absent j q at2));
              },
            )
      ]
]
