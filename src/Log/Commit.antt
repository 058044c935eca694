-- ===== src/Log/Commit.antt =====
-- commit of kernel/log.c is atomic: the power may fail after any number of disk writes, in the
-- commit and in each boot after it.
use fyp_os.Prelude.{
  ℕ, suc, ◌+◌, ◌-◌, ◌*◌, ◌<◌, ◌≡◌, ◌≢◌, refl, inl, inr, false, Option, none, some, List, [], ◌∷◌,
  ◌++◌, arith, load, length, elem, ltb, ◌==◌, ◌>>=◌, Bool-cases, ==→eq, ==→ne, ltb→le, lt→ltb,
  eq→==, ne→==,
}
use fyp_os.Blocks.{Blocks, Disk, bread, bwrite, boot}
use fyp_os.Log.{initial, Log, commit, write_log, write_head, install_trans, initlog}
use fyp_os.Log.Header.{header-Says}
use fyp_os.Log.Phases.{
  install_loop_off, Inside, AllOutside, LogHolds-frame, Sees, LogWritten, write_log_loop-LogWritten,
  Installed, install_loop-Installed,
}
use fyp_os.Log.Crash.{
  Clean, Committed, Durable, before, IsLogged, Settled, write_head_off, cleared-Durable,
  recover_from_log-Recovers,
}

elem_outside :
    (start size b : ℕ) (bs : List ℕ)
    → AllOutside start size bs
    → Inside start size b
    → elem b bs ≡ false
elem_outside start size b [] out ins = refl
elem_outside start size b (c ∷ bs) out ins = ground (arith, elem_outside start size b bs out.1 ins)

nil_of_length : (bs : List ℕ) → ltb 0 (length bs) ≡ false → bs ≡ []
nil_of_length [] h = refl
nil_of_length (b ∷ bs) h = absurd (omega (arith, ltb→le 0 (suc (length bs)) h))

-- A transaction ready to commit: its blocks are logged and no other block is pinned, and the log on
-- the disk is empty.
pub record IsReady (l : Log) (s : Blocks) : Type 0 where
  pub logged : IsLogged l.start l.size l.lh
  pub clean : load 4 (s.disk l.start) 0 ≡ 0
  pub others : (b : ℕ) → elem b l.lh ≡ false → s.pinned b ≡ none

module _ (l : Log) (s : Blocks) (ready : IsReady l s) where
  abbrev written : Blocks
  written = write_log l s

  abbrev committed : Blocks
  committed = write_head l written

  abbrev installed : Blocks
  installed = install_trans false l committed

  ready-Sees : Sees l.start l.size (bread s) s
  ready-Sees = record {
    fresh = λ b out. refl;
    loose = λ b ins. ready.others b (elem_outside l.start l.size b l.lh ready.logged.outside ins);
  }

  write_log-LogWritten : LogWritten l.start l.size (bread s) l.lh 0 s written
  unfolding write_log
  write_log-LogWritten =
      write_log_loop-LogWritten l.start l.size (bread s) l.lh 0 s (omega (arith, ready.logged.room))
        ready.logged.outside ready-Sees

  -- The header write is the commit point.
  write_head-Committed : written.budget ≢ 0 → Committed l.start l.size l.lh (bread s) committed.disk
  unfolding write_head bwrite bread
  write_head-Committed on = rw (ne→== written.budget 0 on) (record {
    says =
        rw (eq→== l.start l.start refl)
          (header-Says l.lh (bread written l.start) ready.logged.words ready.logged.small);
    holds =
        LogHolds-frame l.start l.size (bread s) written.disk _ l.lh 0
          (omega (arith, ready.logged.room)) (λ b lo hi. ground arith)
          (write_log-LogWritten.holds on);
    others = λ b out ne.
        ground (arith, write_log-LogWritten.elsewhere b, ready.others b ne, ready.logged.room);
  })

  write_head-loose : (b : ℕ) → Inside l.start l.size b → committed.pinned b ≡ none
  unfolding write_head bwrite
  write_head-loose b ins =
      ground (arith, write_log-LogWritten.sees.loose b, write_log-LogWritten.sees.loose l.start)

  write_head_budget : committed.budget ≡ written.budget - 1
  unfolding write_head bwrite
  write_head_budget = refl

  write_log_off-Clean :
      written.budget ≡ 0
      → Clean l.start l.size s.disk (write_head (record l { lh = [] }) installed).disk
  unfolding install_trans
  write_log_off-Clean off =
      let low : committed.budget ≡ 0 = omega (arith, write_head_budget) in
      let idle = install_loop_off l.start false l.lh 0 committed low in
      rw
        (
          write_head_off l.start l.size (record l { lh = [] }) installed idle.1,
          idle.0,
          write_head_off l.start l.size l written off,
        )
        (record {
          empty = ground (arith, write_log-LogWritten.elsewhere l.start, ready.clean);
          agrees = λ b out. write_log-LogWritten.elsewhere b (ground (arith, ready.logged.room));
        })

  installed-Installed :
      written.budget ≢ 0 → Installed l.start l.size (bread s) l.lh committed installed
  unfolding install_trans
  installed-Installed on =
      install_loop-Installed l.start l.size (bread s) false l.lh 0 committed
        (omega (arith, ready.logged.room)) ready.logged.outside write_head-loose
        (write_head-Committed on).holds

  write_log_on-Durable :
      written.budget ≢ 0
      → Durable l.start l.size l.lh s.disk
          (bread s)
          (write_head (record l { lh = [] }) installed).disk
        × (installed.budget ≢ 0
            → Clean l.start l.size (bread s) (write_head (record l { lh = [] }) installed).disk)
  write_log_on-Durable on =
      cleared-Durable l.start l.size l.lh s.disk (bread s) (record l { lh = [] }) committed
        installed ready.logged refl refl (write_head-Committed on) (installed-Installed on)

  -- However many disk writes the power lasts for, a commit leaves a disk of the transaction: the old
  -- contents, a complete log, or the new contents; and the log in memory is empty.
  pub commit-Durable :
      Durable l.start l.size l.lh s.disk (bread s) (commit l s).1.disk × ((commit l s).0.lh ≡ [])
  unfolding commit
  commit-Durable = elim (Bool-cases (ltb 0 (length l.lh))) [
    | inl some' ↦ rw some' (
      elim (Bool-cases (written.budget == 0)) [
        | inl off ↦ before (write_log_off-Clean (==→eq _ 0 off))
        | inr on ↦ (write_log_on-Durable (==→ne _ 0 on)).0
      ],
      refl,
    )
    | inr none' ↦
        rw none' (
          before (record { empty = ready.clean; agrees = λ b out. refl }),
          nil_of_length l.lh none',
        )
  ]

  -- Where the power lasts, a commit brings every block outside the log to its new contents, and
  -- leaves the log empty on the disk.
  pub commit_installs :
      length l.lh ≢ 0
      → 2 * length l.lh + 1 < s.budget
      → Clean l.start l.size (bread s) (commit l s).1.disk
  unfolding commit
  commit_installs some' power =
      let on : written.budget ≢ 0 = omega (arith, write_log-LogWritten.spent) in
      rw (lt→ltb 0 (length l.lh) (omega arith)) (
        (write_log_on-Durable on).1 (
          omega (
            arith,
            write_log-LogWritten.spent,
            write_head_budget,
            (installed-Installed on).budget,
          )))

-- The machine boots from a disk again and again; each boot's power lasts for the writes listed.
unfoldable pub boots : ℕ → ℕ → List ℕ → Disk → Option Disk
boots logstart nlog [] d = some d
boots logstart nlog (k ∷ ks) d =
    initlog logstart nlog (boot d k) >>= λ (l, s). boots logstart nlog ks s.disk

module _ (start size : ℕ) (lh : List ℕ) (old new : Disk) (logged : IsLogged start size lh) where
  boots-Settled :
      (ks : List ℕ) (k : ℕ) (d : Disk)
      → length lh < k
      → Durable start size lh old new d
      → (d' : Disk) × (boots start size (ks ++ (k ∷ [])) d ≡ some d')
        × Settled start size old new d'
  unfolding boots initlog
  boots-Settled [] k d enough h =
      let (l', s', e, _, _, settled) =
        recover_from_log-Recovers start size lh old new logged (initial start size) refl d k h in
      (s'.disk, rw e, settled enough)
  boots-Settled (j ∷ ks) k d enough h =
      let (l', s', e, _, durable, _) =
        recover_from_log-Recovers start size lh old new logged (initial start size) refl d j h in
      let (d', e', settled) = boots-Settled ks k s'.disk enough durable in (d', rw e e', settled)

-- Crash atomicity: the power fails after any number of writes of a commit, and then in any number of
-- boots; the first boot whose power lasts finds, in every block outside the log, either all of the
-- contents from before the transaction or all of those that it wrote, and leaves the log empty.
pub commit_atomic :
    (l : Log) (s : Blocks) (ks : List ℕ) (k : ℕ)
    → IsReady l s
    → length l.lh < k
    → (d : Disk) × (boots l.start l.size (ks ++ (k ∷ [])) (commit l s).1.disk ≡ some d)
      × Settled l.start l.size s.disk (bread s) d
commit_atomic l s ks k ready enough =
    boots-Settled l.start l.size l.lh s.disk (bread s) ready.logged ks k (commit l s).1.disk enough
      (commit-Durable l s ready).0
