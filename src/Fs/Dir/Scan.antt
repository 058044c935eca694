-- ===== src/Fs/Dir/Scan.antt =====
-- dirlookup of kernel/fs.c finds the first entry of the directory with the name.
use fyp_os.Prelude.{
  ℕ, zero, suc, ◌+◌, ◌-◌, ◌*◌, ◌/◌, ◌%◌, min, ◌≤◌, ◌<◌, ◌≡◌, ◌≢◌, ◌⊎◌, ◌↔◌, refl, sym, ap, ◌∙◌,
  fun_ext, Bool, true, false, Option, none, some, List, [], ◌∷◌, arith, inl, inr, Bytes, load, ltb,
  ◌==◌, Bool-cases, lt→ltb, get_elem?, set, ℤ, pos, negsuc, ◌>>=◌, eq→==,
}
use fyp_os.Kstring.{strncmp}
use fyp_os.Kstring.Names.{chars, chars_same, strncmp_zero}
use fyp_os.Fs.{Superblock, bsize}
use fyp_os.Fs.Inode.{Inode, Files, iget}
use fyp_os.Fs.Content.{Held, maxfile}
use fyp_os.Fs.Content.Map.{block_of}
use fyp_os.Fs.Content.Read.{file_over, readi-file_over}
use fyp_os.Fs.Dir.{
  dirsiz, dirent_size, t_dir, no_copy, empty_memory, is_zero, beside, same_name, hold, put_back,
  read_entry, scan, rounds, is_entry, dirlookup,
}

-- A directory of whole entries, with a block wherever it has a byte.
pub record IsWhole (h : Held) : Type 0 where
  pub bound : h.ip.size ≤ maxfile * bsize
  pub entries : h.ip.size % dirent_size ≡ 0
  pub there : (i : ℕ) → i < h.ip.size → block_of h.ip h.blocks (i / bsize) ≢ 0

-- The entry at `off`, as the file has it.
abbrev pub dirent_at : Held → ℕ → Bytes
dirent_at h off = file_over empty_memory 0 h off dirent_size

-- The entry is in use and has the name.
abbrev pub Names : Bytes → Bytes → Type 0
Names name de = (load 2 de 0 ≢ 0) × (chars dirsiz name 0 ≡ chars dirsiz de 2)

is_zero_iff : (z : ℤ) → (is_zero z ≡ true) ↔ (z ≡ pos 0)
is_zero_iff (pos n) = (λ h. ground arith, λ h. ground arith)
is_zero_iff (negsuc n) = (λ h. cc, λ h. cc)

same_name_iff :
    (name de : Bytes) → (same_name name de ≡ true) ↔ (chars dirsiz name 0 ≡ chars dirsiz de 2)
unfolding same_name
same_name_iff name de =
    let m = beside de name in
    let left : chars dirsiz m dirent_size ≡ chars dirsiz name 0 =
      chars_same dirsiz m name dirent_size 0 (λ i lt. ground arith) in
    let right : chars dirsiz m 2 ≡ chars dirsiz de 2 =
      chars_same dirsiz m de 2 2 (λ i lt. ground arith) in
    let cmp = strncmp_zero dirsiz m dirent_size 2 in
    let z = is_zero_iff (strncmp dirsiz m dirent_size 2) in
    (λ h. sym left ∙ cmp.0 (z.0 h) ∙ right, λ h. z.1 (cmp.1 (left ∙ h ∙ sym right)))

pub is_entry-Names : (name de : Bytes) → (is_entry name de ≡ true) ↔ Names name de
is_entry-Names name de =
    let s = same_name_iff name de in
    (λ h. (ground arith, s.0 (ground arith)), λ h. ground (arith, h.0, s.1 (h.1)))

module _ (fuel : ℕ) (sb : Superblock) (h : Held) (w : IsWhole h) where
  read_entry-dirent_at :
      (off : ℕ)
      → off + dirent_size ≤ h.ip.size
      → read_entry fuel sb off h ≡ some (dirent_at h off, h)
  unfolding read_entry
  read_entry-dirent_at off within =
      let (mem, e, over) =
        readi-file_over fuel sb no_copy false (λ m d src s n. refl) h 0 off dirent_size empty_memory
          (w.bound) (w.there) (omega (arith, w.bound)) in
      let all : min dirent_size (h.ip.size - off) ≡ dirent_size = omega arith in
      let e' = rw all at e in
      let over' = rw all at over in rw e' (ap (λ d. some (d, h)) (fun_ext over'))

  skipped :
      (test : Bytes → Bool) (k off : ℕ)
      → test (dirent_at h off) ≡ false
      → ((i : ℕ) → i < k → test (dirent_at h (off + dirent_size + dirent_size * i)) ≡ false)
      → (i : ℕ) → i < suc k
      → test (dirent_at h (off + dirent_size * i)) ≡ false
  skipped test k off miss before zero lt =
      let here : off + dirent_size * 0 ≡ off = omega arith in rw here miss
  skipped test k off miss before (suc i) lt =
      let at : off + dirent_size * suc i ≡ off + dirent_size + dirent_size * i = omega arith in
      rw at (before i (omega arith))

  -- How a search for the first entry from `off` on ends, of `k` entries.
  abbrev Ends : (Bytes → Bool) → ℕ → ℕ → Option (Option (ℕ × Bytes) × Held) → Type 0
  Ends test k off r =
      (r ≡ some (none, h)) × ((i : ℕ) → i < k → test (dirent_at h (off + dirent_size * i)) ≡ false)
      ⊎ ((j : ℕ) × (j < k)
          × (r ≡ some (some (off + dirent_size * j, dirent_at h (off + dirent_size * j)), h))
          × (test (dirent_at h (off + dirent_size * j)) ≡ true)
          × ((i : ℕ) → i < j → test (dirent_at h (off + dirent_size * i)) ≡ false))

  scan-Ends :
      (test : Bytes → Bool) (k off : ℕ)
      → off + dirent_size * k ≡ h.ip.size
      → Ends test k off (scan fuel sb test k off h)
  unfolding scan
  scan-Ends test zero off e = inl (refl, λ i lt. elim lt [ ])
  scan-Ends test (suc k) off e =
      let go : ltb off h.ip.size ≡ true = lt→ltb _ _ (omega arith) in
      let found = read_entry-dirent_at off (omega arith) in
      let here : off + dirent_size * 0 ≡ off = omega arith in
      elim (Bool-cases (test (dirent_at h off))) [
        | inl hit ↦
            inr (0, omega arith, rw (go, found, hit, here) refl, rw here hit, λ i lt. elim lt [ ])
        | inr miss ↦ elim (scan-Ends test k (off + dirent_size) (omega arith)) [
          | inl (r, before) ↦ inl (rw (go, found, miss) r, skipped test k off miss before)
          | inr (j, lt, r, hit, before) ↦
              let at : off + dirent_size + dirent_size * j ≡ off + dirent_size * suc j =
                omega arith in
              inr (
                suc j,
                omega arith,
                rw (go, found, miss) (rw at at r),
                rw at at hit,
                skipped test j off miss before,
              )
        ]
      ]

set_same {ℓ} :
    {A : Type ℓ} (xs : List A) (i : ℕ) {x : A} → get_elem? xs i ≡ some x → set xs i x ≡ xs
set_same [] i e = refl
set_same (y ∷ xs) zero e = ground arith
set_same (y ∷ xs) (suc i) e = ap (λ r. y ∷ r) (set_same xs i e)

hold_at :
    (dp : ℕ) (p : Inode) (fs : Files)
    → get_elem? fs.itable dp ≡ some p
    → hold dp fs ≡ some (record { ip = p; log = fs.log; blocks = fs.blocks })
unfolding hold
hold_at dp p fs at = rw (at, hold) refl

put_back_same :
    (dp : ℕ) (p : Inode) (fs : Files)
    → get_elem? fs.itable dp ≡ some p
    → put_back dp (record { ip = p; log = fs.log; blocks = fs.blocks }) fs ≡ fs
put_back_same dp p fs at = ap (λ t. record fs { itable = t }) (set_same fs.itable dp at)

module _ (fuel : ℕ) (sb : Superblock) where
  -- In a directory of whole entries that has a block wherever it has a byte, `dirlookup` does not
  -- panic for what it reads and changes nothing there. If no entry has the name it returns 0;
  -- otherwise it returns the offset of the first entry that has it and what `iget` gives for the
  -- inode of that entry.
  pub dirlookup-Names :
      (dp : ℕ) (name : Bytes) (fs : Files) (p : Inode)
      → get_elem? fs.itable dp ≡ some p
      → p.kind ≡ t_dir
      → IsWhole (record { ip = p; log = fs.log; blocks = fs.blocks })
      → let h : Held = record { ip = p; log = fs.log; blocks = fs.blocks } in
        (dirlookup fuel sb dp name fs ≡ some (none, fs))
          × ((i : ℕ) → i < rounds h → Names name (dirent_at h (dirent_size * i)) → ⊥)
        ⊎ ((j : ℕ) × (j < rounds h)
            × Names name (dirent_at h (dirent_size * j))
            × ((i : ℕ) → i < j → Names name (dirent_at h (dirent_size * i)) → ⊥)
            × (dirlookup fuel sb dp name fs ≡ (
                iget p.dev (load 2 (dirent_at h (dirent_size * j)) 0) fs.itable >>= λ (i, t).
                some (some (dirent_size * j, i), record fs { itable = t }))))
  unfolding dirlookup
  dirlookup-Names dp name fs p at is_dir w =
      let h : Held = record { ip = p; log = fs.log; blocks = fs.blocks } in
      let all : 0 + dirent_size * rounds h ≡ h.ip.size = omega (arith, w.entries) in
      let open' : (p.kind == t_dir) ≡ true = eq→== _ _ is_dir in
      let held = hold_at dp p fs at in
      let same = put_back_same dp p fs at in
      elim (scan-Ends fuel sb h w (is_entry name) (rounds h) 0 all) [
        | inl (r, before) ↦ inl (
          rw (held, open', r, same) refl,
          λ i lt n.
              let z : 0 + dirent_size * i ≡ dirent_size * i = omega arith in
              let b = rw z at (before i lt) in cc (b, (is_entry-Names name _).1 n),
        )
        | inr (j, lt, r, hit, before) ↦
            let z : 0 + dirent_size * j ≡ dirent_size * j = omega arith in
            inr (
              j,
              lt,
              (is_entry-Names name _).0 (rw z at hit),
              λ i lt' n.
                  let z' : 0 + dirent_size * i ≡ dirent_size * i = omega arith in
                  let b = rw z' at (before i lt') in cc (b, (is_entry-Names name _).1 n),
              rw (held, open', r, set_same fs.itable dp at, z) refl,
            )
      ]
