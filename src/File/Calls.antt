-- ===== src/File/Calls.antt =====
-- dup, close and the taking of a file in kernel/file.c and kernel/sysfile.c keep the counts right.
use fyp_os.Prelude.{
  ℕ, ◌+◌, ◌-◌, ◌≤◌, ◌≡◌, ◌≢◌, ◌⊎◌, refl, Option, none, some, List, arith, ◌==◌, if◌then◌else◌,
  get_elem?, set, modify, find_from, find_from-some, find_from-none, Option-cases, inl, inr, not,
  is_some,
}
use fyp_os.File.{
  File, World, Release, nothing, release_of, filealloc, argfd, fdalloc, sys_dup, sys_close,
}
use fyp_os.File.Counts.{
  ref_at, count, IsCounted, count-set, count_positive, ref_at-modify, filedup-ref_at,
  fileclose-ref_at,
}

argfd-some :
    (fd i : ℕ) (ds : List (Option ℕ)) → argfd fd ds ≡ some i → get_elem? ds fd ≡ some (some i)
unfolding argfd
argfd-some fd i ds e = elim (Option-cases (get_elem? ds fd)) [
  | inl e' ↦ absurd (ground arith)
  | inr (d, e') ↦ ground (arith, e', e)
]

pub fdalloc-some :
    (i : ℕ) (ds : List (Option ℕ)) {r : ℕ × List (Option ℕ)}
    → fdalloc i ds ≡ some r
    → (get_elem? ds r.0 ≡ some none) × (r.1 ≡ set ds r.0 (some i))
unfolding fdalloc
fdalloc-some i ds {r} e = elim (Option-cases (find_from (λ f. not (is_some f)) 0 ds)) [
  | inl e' ↦ absurd (cc (rw (e', fdalloc) at e))
  | inr (fd, e') ↦
      let (d, le, at, empty) = find_from-some (λ f. not (is_some f)) 0 fd ds e' in
      let z : fd - 0 ≡ fd = omega arith in
      let at' = rw z at at in let e'' = rw (e', fdalloc) at e in ground arith
]

pub fdalloc-none :
    (i fd : ℕ) (ds : List (Option ℕ)) → fdalloc i ds ≡ none → get_elem? ds fd ≢ some none
unfolding fdalloc
fdalloc-none i fd ds e at = elim (Option-cases (find_from (λ f. not (is_some f)) 0 ds)) [
  | inl e' ↦ absurd (ground (arith, find_from-none (λ f. not (is_some f)) 0 fd ds e' at))
  | inr (r, e') ↦ absurd (cc (rw (e', fdalloc) at e))
]

module _ (others : ℕ → ℕ) where
  -- What `sys_dup` does when it succeeds: a free descriptor refers to the file of `fd`.
  pub record Duplicated (fd new i : ℕ) (w w' : World) : Type 0 where
    pub old : argfd fd w.ofile ≡ some i
    pub free : get_elem? w.ofile new ≡ some none
    pub now : w'.ofile ≡ set w.ofile new (some i)
    pub counted : IsCounted others w'

  -- Where the counts are right, `sys_dup` does not panic. It fails and changes nothing if the
  -- descriptor is not open or none is free; otherwise a free descriptor refers to the same file, and
  -- the counts are right again.
  pub sys_dup-Duplicated :
      (fd : ℕ) (w : World)
      → IsCounted others w
      → (sys_dup fd w ≡ some (none, w))
          × ((argfd fd w.ofile ≡ none) ⊎ ((new : ℕ) → get_elem? w.ofile new ≢ some none))
        ⊎ ((new i : ℕ) × (w' : World) × (sys_dup fd w ≡ some (some new, w'))
            × Duplicated fd new i w w')
  unfolding sys_dup
  sys_dup-Duplicated fd w ok = elim (Option-cases (argfd fd w.ofile)) [
    | inl shut ↦ rw (shut, sys_dup) (inl (refl, inl refl))
    | inr (i, open') ↦ elim (Option-cases (fdalloc i w.ofile)) [
      | inl full ↦
          rw (open', full, sys_dup) (inl (refl, inr λ new. fdalloc-none i new w.ofile full))
      | inr (r, got) ↦
          let (free', now') = fdalloc-some i w.ofile got in
          let pos = count_positive i fd w.ofile (argfd-some fd i w.ofile open') in
          let (t, e, counts) = filedup-ref_at i w.ftable (omega (arith, ok i, pos)) in
          inr (
            r.0,
            i,
            record { ftable = t; ofile = r.1 },
            rw (open', got, e, sys_dup) refl,
            record {
              old = open';
              free = free';
              now = now';
              counted = λ j.
                  rw now'
                    (ground (arith, ok j, counts j, count-set j r.0 w.ofile none (some i) free'));
            },
          )
    ]
  ]

  -- What `sys_close` does when it succeeds with the release `r`: the descriptor is free, and what the
  -- file stands for is released exactly if no other reference is left.
  pub record Closed (fd i : ℕ) (f : File) (r : Release) (w w' : World) : Type 0 where
    pub old : argfd fd w.ofile ≡ some i
    pub file : get_elem? w.ftable i ≡ some f
    pub now : w'.ofile ≡ set w.ofile fd none
    pub counted : IsCounted others w'
    pub released : r ≡ (if count i w'.ofile + others i == 0 then release_of f f.kind else nothing)

  -- Where the counts are right, `sys_close` does not panic. It fails and changes nothing if the
  -- descriptor is not open; otherwise the descriptor is free, the counts are right again, and the
  -- pipe end or inode is released exactly if no other reference to the file is left.
  pub sys_close-Closed :
      (fd : ℕ) (w : World)
      → IsCounted others w
      → (sys_close fd w ≡ some (none, w)) × (argfd fd w.ofile ≡ none)
        ⊎ ((i : ℕ) × (f : File) × (r : Release) × (w' : World) × (sys_close fd w
              ≡ some (some r, w'))
            × Closed fd i f r w w')
  unfolding sys_close
  sys_close-Closed fd w ok = elim (Option-cases (argfd fd w.ofile)) [
    | inl shut ↦ rw (shut, sys_close) (inl (refl, refl))
    | inr (i, open') ↦
        let at = argfd-some fd i w.ofile open' in
        let pos = count_positive i fd w.ofile at in
        let (r, t, f, e, counts, file', released') =
          fileclose-ref_at i w.ftable (omega (arith, ok i, pos)) in
        let counted' : (j : ℕ) → ref_at t j ≡ count j (set w.ofile fd none) + others j =
          λ j. ground (arith, ok j, counts j, count-set j fd w.ofile (some i) none at) in
        inr (
          i,
          f,
          r,
          record { ftable = t; ofile = set w.ofile fd none },
          rw (open', e, sys_close) refl,
          record {
            old = open';
            file = file';
            now = refl;
            counted = counted';
            released = rw (counted' i) at released';
          },
        )
  ]

  -- Where the counts are right, `filealloc` gives a file to which no one refers and counts the
  -- reference of its caller; or every file has a reference, and it changes nothing.
  pub filealloc-IsCounted :
      (w : World)
      → IsCounted others w
      → ((i : ℕ) × (t : List File) × (filealloc w.ftable ≡ (some i, t))
          × (count i w.ofile + others i ≡ 0)
          × ((j : ℕ) → ref_at t j ≡ count j w.ofile + (others j + (if i == j then 1 else 0))))
        ⊎ (filealloc w.ftable ≡ (none, w.ftable))
          × ((i : ℕ) (f : File) → get_elem? w.ftable i ≡ some f → 1 ≤ f.ref)
  unfolding filealloc
  filealloc-IsCounted w ok = elim (Option-cases (find_from (λ f. f.ref == 0) 0 w.ftable)) [
    | inl e ↦
        rw (e, filealloc)
          (inr (refl, λ i f at. ground (arith, find_from-none (λ f. f.ref == 0) 0 i w.ftable e at)))
    | inr (i, e) ↦
        let g : File → File = λ f. record f { ref = 1 } in
        let (f, le, at, free') = find_from-some (λ f. f.ref == 0) 0 i w.ftable e in
        let z : i - 0 ≡ i = omega arith in
        let at' = rw z at at in
        rw (e, filealloc)
          (inl (
            i,
            modify w.ftable i g,
            refl,
            ground (arith, ok i, at', free'),
            λ j. ground (arith, ok j, ok i, at', free', ref_at-modify w.ftable i j g at'),
          ))
  ]
