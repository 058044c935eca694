-- ===== src/Sysfile/Taken.antt =====
-- The file and the descriptor that open of kernel/sysfile.c takes, and gives back where it cannot have
-- both.
use fyp_os.Prelude.{
  ℕ, ◌+◌, ◌-◌, ◌≡◌, ◌⊎◌, refl, ap, sym, ◌∙◌, true, Option, none, some, List, arith, ◌==◌, get_elem?,
  get_elem?-modify, set, modify, find_from, find_from-some, Option-cases, inl, inr, ==→eq, eq→==,
}
use fyp_os.File.{File, fd_none, World, nothing, filealloc, fdalloc}
use fyp_os.File.Counts.{ref_at, count, IsCounted, count-set, fileclose-ref_at}
use fyp_os.File.Calls.{filealloc-IsCounted, fdalloc-some}
use fyp_os.Sysfile.Open.{take_file, take_descriptor}

-- A file without a reference has no type, as fileclose leaves it.
abbrev pub IsIdle : List File → Type 0
IsIdle t = (i : ℕ) (f : File) → get_elem? t i ≡ some f → f.ref ≡ 0 → f.kind ≡ fd_none

-- The file that `filealloc` returns.
pub filealloc-some :
    (t t' : List File) (i : ℕ)
    → filealloc t ≡ (some i, t')
    → (f : File) × (get_elem? t i ≡ some f)
      × (f.ref ≡ 0)
      × (get_elem? t' i ≡ some (record f { ref = 1 }))
unfolding filealloc
filealloc-some t t' i e = elim (Option-cases (find_from (λ f. f.ref == 0) 0 t)) [
  | inl none' ↦ absurd (cc (rw (none', filealloc) at e))
  | inr (j, found) ↦
      let g : File → File = λ f. record f { ref = 1 } in
      let (f, le, at, free) = find_from-some (λ f. f.ref == 0) 0 j t found in
      let z : j - 0 ≡ j = omega arith in
      let at' = rw z at at in
      let e' : (some j, modify t j g) ≡ (some i, t') = rw (found, filealloc) at e in
      let same : j ≡ i = cc (ap (λ (x : Option ℕ × List File). x.0) e') in
      let table : modify t j g ≡ t' = ap (λ (x : Option ℕ × List File). x.1) e' in
      (
        f,
        rw same at at',
        ==→eq _ _ free,
        ap (λ (x : List File). get_elem? x i) (sym table)
            ∙ ground (arith, get_elem?-modify t j i g, at', same),
      )
]

module _ (others : ℕ → ℕ) where
  -- What `take_file` does when it succeeds: a free descriptor refers to a file that had no reference.
  pub record TookFile (fd f : ℕ) (w w' : World) : Type 0 where
    pub free : get_elem? w.ofile fd ≡ some none
    pub unused : count f w.ofile + others f ≡ 0
    pub now : w'.ofile ≡ set w.ofile fd (some f)
    pub counted : IsCounted others w'

  -- Where the counts are right and no file without a reference has a type, the part of sys_open that
  -- takes a descriptor and a file does not panic: it takes both, and the counts are right again; or it
  -- takes neither, releases nothing, and leaves the descriptors and the counts as they were.
  pub take_file-TookFile :
      (w : World)
      → IsCounted others w
      → IsIdle w.ftable
      → ((w' : World) × (take_file w ≡ some (none, nothing, w'))
          × (w'.ofile ≡ w.ofile)
          × IsCounted others w')
        ⊎ ((fd f : ℕ) × (w' : World) × (take_file w ≡ some (some (fd, f), nothing, w'))
            × TookFile fd f w w')
  unfolding take_file take_descriptor
  take_file-TookFile w ok idle = elim (filealloc-IsCounted others w ok) [
    | inr (e, full) ↦ inl (w, rw (e, take_descriptor) refl, refl, ok)
    | inl (i, t, e, unused, counts) ↦
        let (f0, at, free, at') = filealloc-some w.ftable t i e in
        elim (Option-cases (fdalloc i w.ofile)) [
          | inl none' ↦
              let here = eq→== i i refl in
              let one : ref_at t i ≡ count i w.ofile + (others i + 1) = rw here at (counts i) in
              let (r, t', f, e', counts', at'', released) =
                fileclose-ref_at i t (omega (arith, one)) in
              let less : ref_at t' i + 1 ≡ ref_at t i = rw here at (counts' i) in
              let gone : (ref_at t' i == 0) ≡ true = eq→== _ _ (omega (arith, less, one, unused)) in
              let file : f ≡ record f0 { ref = 1 } = cc (at', at'') in
              let typeless : f.kind ≡ fd_none =
                ap (λ (x : File). x.kind) file ∙ idle i f0 at free in
              let silent : r ≡ nothing = released ∙ rw (gone, typeless) refl in
              inl (
                record w { ftable = t' },
                rw (e, none', e', silent, take_descriptor) refl,
                refl,
                λ j. omega (arith, counts j, counts' j),
              )
          | inr ((fd, ofile), got) ↦
              let (empty, now) = fdalloc-some i w.ofile got in
              inr (
                fd,
                i,
                record { ftable = t; ofile = ofile },
                rw (e, got, take_descriptor) refl,
                record {
                  free = empty;
                  unused = unused;
                  now = now;
                  counted = λ j.
                      rw now (ground (arith, counts j, count-set j fd w.ofile none (some i) empty));
                },
              )
        ]
  ]
