-- ===== src/Log/Phases.antt =====
-- The phases of a commit under a power failure: what write_log, install_trans and write_head of
-- kernel/log.c leave on the disk when it stops taking writes at any point.
use fyp_os.Prelude.{
  ℕ, ◌+◌, ◌-◌, ◌≤◌, ◌<◌, ◌≡◌, ◌≢◌, ◌⊎◌, refl, inl, Bool, true, false, none, List, [], ◌∷◌, arith,
  Bytes, length, elem, ◌∙◌,
}
use fyp_os.Blocks.{Blocks, Disk, bread, bwrite, bunpin}
use fyp_os.Log.{install_one, install_loop, write_log_loop}

-- Without power the installing pass leaves the disk as it is.
pub install_loop_off :
    (start : ℕ) (recovering : Bool) (bs : List ℕ) (tail : ℕ) (s : Blocks)
    → s.budget ≡ 0
    → ((install_loop start recovering bs tail s).disk ≡ s.disk)
      × ((install_loop start recovering bs tail s).budget ≡ 0)
unfolding install_loop install_one bwrite bunpin
install_loop_off start recovering [] tail s off = (refl, off)
install_loop_off start recovering (b ∷ bs) tail s off =
    ground (
      arith,
      install_loop_off start recovering bs (tail + 1) (install_one start recovering b tail s),
    )

module _ (start size : ℕ) where
  -- Blocks of the log, its header included, and all others.
  abbrev pub Inside : ℕ → Type 0
  Inside b = (start ≤ b) × (b < start + size)

  abbrev pub Outside : ℕ → Type 0
  Outside b = (b < start) ⊎ (start + size ≤ b)

  abbrev pub AllOutside : List ℕ → Type 0
  AllOutside [] = Unit
  AllOutside (b ∷ bs) = Outside b × AllOutside bs

  -- The log blocks from index `i` on hold the contents that `new` has for the blocks `bs`.
  abbrev pub LogHolds : Disk → List ℕ → ℕ → Disk → Type 0
  LogHolds new [] i d = Unit
  LogHolds new (b ∷ bs) i d = (d (start + i + 1) ≡ new b) × LogHolds new bs (i + 1) d

  pub LogHolds-frame :
      (new d d' : Disk) (bs : List ℕ) (i : ℕ)
      → i + length bs < size
      → ((b : ℕ) → start < b → b < start + size → d' b ≡ d b)
      → LogHolds new bs i d
      → LogHolds new bs i d'
  LogHolds-frame new d d' [] i room same h = tt
  LogHolds-frame new d d' (b ∷ bs) i room same h = (
    same (start + i + 1) (omega arith) (omega arith) ∙ h.0,
    LogHolds-frame new d d' bs (i + 1) (omega arith) same h.1,
  )

  module _ (new : Disk) where
    -- What the processes see outside the log, and no log block pinned.
    pub record Sees (s : Blocks) : Type 0 where
      pub fresh : (b : ℕ) → Outside b → bread s b ≡ new b
      pub loose : (b : ℕ) → Inside b → s.pinned b ≡ none

    pub record LogWritten (bs : List ℕ) (tail : ℕ) (s s' : Blocks) : Type 0 where
      pub sees : Sees s'
      pub spent : s'.budget ≡ s.budget - length bs
      pub elsewhere :
          (b : ℕ) → (b ≤ start + tail) ⊎ (start + tail + length bs < b) → s'.disk b ≡ s.disk b
      pub holds : s'.budget ≢ 0 → LogHolds new bs tail s'.disk

    bwrite-Inside-Sees : (s : Blocks) (b : ℕ) (v : Bytes) → Inside b → Sees s → Sees (bwrite b v s)
    unfolding bwrite bread
    bwrite-Inside-Sees s b v i sees = record {
      fresh = λ c out. ground (arith, sees.fresh c, sees.loose b);
      loose = λ c ins. ground (arith, sees.loose c ins, sees.loose b i);
    }

    pub write_log_loop-LogWritten :
        (bs : List ℕ) (tail : ℕ) (s : Blocks)
        → tail + length bs < size
        → AllOutside bs
        → Sees s
        → LogWritten bs tail s (write_log_loop start bs tail s)
    unfolding write_log_loop bwrite
    write_log_loop-LogWritten [] tail s room out sees = record {
      sees = sees;
      spent = omega arith;
      elsewhere = λ b h. refl;
      holds = λ h. tt;
    }
    write_log_loop-LogWritten (b ∷ bs) tail s room out sees =
        let here = start + tail + 1 in
        let s1 = bwrite here (bread s b) s in
        let rest =
          write_log_loop-LogWritten bs (tail + 1) s1 (omega arith) out.1
            (bwrite-Inside-Sees s here (bread s b) (omega arith, omega arith) sees) in
        record {
          sees = rest.sees;
          spent = omega (arith, rest.spent);
          elsewhere = λ c h. ground (arith, rest.elsewhere c);
          holds = λ on.
              (ground (arith, rest.elsewhere here, rest.spent, sees.fresh b out.0), rest.holds on);
        }

    -- What a pass of `install_trans` over the blocks `bs` does.
    pub record Installed (bs : List ℕ) (s s' : Blocks) : Type 0 where
      pub loose : (b : ℕ) → Inside b → s'.pinned b ≡ none
      pub budget : s'.budget ≡ s.budget - length bs
      pub log_kept : (b : ℕ) → Inside b → s'.disk b ≡ s.disk b
      pub others : (b : ℕ) → elem b bs ≡ false → s'.disk b ≡ s.disk b
      pub either : (b : ℕ) → (s'.disk b ≡ s.disk b) ⊎ (s'.disk b ≡ new b)
      pub homes : s'.budget ≢ 0 → (b : ℕ) → elem b bs ≡ true → s'.disk b ≡ new b

    install_one-Installed :
        (recovering : Bool) (b tail : ℕ) (s : Blocks)
        → tail + 1 < size
        → Outside b
        → ((c : ℕ) → Inside c → s.pinned c ≡ none)
        → s.disk (start + tail + 1) ≡ new b
        → Installed (b ∷ []) s (install_one start recovering b tail s)
    unfolding install_one bwrite bunpin bread
    install_one-Installed recovering b tail s room out loose held = record {
      loose = λ c ins. ground (arith, loose c ins);
      budget = ground arith;
      log_kept = λ c ins. ground arith;
      others = λ c ne. ground arith;
      either = λ c. ground (arith, loose (start + tail + 1) (omega arith, omega arith));
      homes = λ on c e. ground (arith, loose (start + tail + 1) (omega arith, omega arith));
    }

    pub install_loop-Installed :
        (recovering : Bool) (bs : List ℕ) (tail : ℕ) (s : Blocks)
        → tail + length bs < size
        → AllOutside bs
        → ((c : ℕ) → Inside c → s.pinned c ≡ none)
        → LogHolds new bs tail s.disk
        → Installed bs s (install_loop start recovering bs tail s)
    unfolding install_loop
    install_loop-Installed recovering [] tail s room out loose held = record {
      loose = loose;
      budget = omega arith;
      log_kept = λ b i. refl;
      others = λ b e. refl;
      either = λ b. inl refl;
      homes = λ on b e. cc;
    }
    install_loop-Installed recovering (b ∷ bs) tail s room out loose held =
        let s1 = install_one start recovering b tail s in
        let one = install_one-Installed recovering b tail s (omega arith) out.0 loose held.0 in
        let rest =
          install_loop-Installed recovering bs (tail + 1) s1 (omega arith) out.1 one.loose (
            LogHolds-frame new s.disk s1.disk bs (tail + 1) (omega arith)
              (λ c lo hi. one.log_kept c (omega arith, hi)) held.1) in
        record {
          loose = rest.loose;
          budget = omega (arith, rest.budget, one.budget);
          log_kept = λ c ins. rest.log_kept c ins ∙ one.log_kept c ins;
          others = λ c ne. ground (arith, rest.others c, one.others c);
          either = λ c. ground (arith, rest.either c, one.either c);
          homes = λ on c e.
              ground
                (arith, rest.homes on c, rest.either c, one.homes (ground (arith, rest.budget)) c);
        }
