-- ===== src/Log/Crash.antt =====
-- Recovery of kernel/log.c after a power failure: what initlog makes of every disk that a commit
-- can leave.
use fyp_os.Prelude.{
  ℕ, ◌≤◌, ◌<◌, ◌≡◌, ◌≢◌, ◌⊎◌, refl, inl, inr, true, false, Option, some, List, [], arith, load,
  length, elem, ltb, ◌==◌, ◌∙◌, Bool-cases, ==→eq, ==→ne,
}
use fyp_os.Blocks.{Blocks, Disk, bread, bwrite, boot}
use fyp_os.Log.{
  Log, install_trans, install_loop, read_head, rounds, read_blocks, write_head, recover_from_log,
  logsize,
}
use fyp_os.Log.Header.{AllWords, Says, header-Says}
use fyp_os.Log.Phases.{
  Inside, Outside, AllOutside, LogHolds, LogHolds-frame, Installed, install_loop-Installed,
}

module _ (start size : ℕ) where
  -- The home blocks hold what `view` says, and the header block says that nothing is logged.
  pub record Clean (view d : Disk) : Type 0 where
    pub empty : load 4 (d start) 0 ≡ 0
    pub agrees : (b : ℕ) → Outside start size b → d b ≡ view b

  -- The header names the blocks `lh`, and the log holds their new contents; their home blocks may
  -- hold anything.
  pub record Committed (lh : List ℕ) (new d : Disk) : Type 0 where
    pub says : Says (d start) lh
    pub holds : LogHolds start size new lh 0 d
    pub others : (b : ℕ) → Outside start size b → elem b lh ≡ false → d b ≡ new b

  -- The disks that a transaction from `old` to `new` may leave behind.
  pub data Durable (lh : List ℕ) (old new d : Disk) : Type 0 where
    before : Clean old d → Durable lh old new d
    during : Committed lh new d → Durable lh old new d
    after : Clean new d → Durable lh old new d

  -- The blocks of a transaction that log_write accepts.
  pub record IsLogged (lh : List ℕ) : Type 0 where
    pub outside : AllOutside start size lh
    pub room : length lh < size
    pub small : length lh ≤ logsize
    pub words : AllWords lh

  pub write_head_empty :
      (l : Log) (view : Disk) (s : Blocks)
      → l.start ≡ start
      → l.lh ≡ []
      → 0 < size
      → ((b : ℕ) → Outside start size b → s.disk b ≡ view b)
      → s.budget ≢ 0
      → Clean view (write_head l s).disk
  unfolding write_head bwrite
  write_head_empty l view s e e' pos same on =
      let hd = bread s start in
      let says = header-Says [] hd tt (omega arith) in
      rw (e, e')
        (record {
          empty = ground (arith, says.count);
          agrees = λ b out. ground (arith, same b out);
        })

  pub write_head_off : (l : Log) (s : Blocks) → s.budget ≡ 0 → (write_head l s).disk ≡ s.disk
  unfolding write_head bwrite
  write_head_off l s off = rw off

  pub read_head-Says :
      (l : Log) (d : Disk) (k : ℕ) (lh : List ℕ)
      → l.start ≡ start
      → Says (d start) lh
      → length lh ≤ logsize
      → read_head l (boot d k) ≡ some (record l { lh = lh })
  unfolding read_head bread
  read_head-Says l d k lh e says small =
      let n : rounds (load 4 (d start) 0) ≡ length lh = ground (arith, says.count) in
      let fits : ltb logsize (length lh) ≡ false = ground arith in rw (e, n, fits, says.entries)

  pub Committed-frame :
      (lh : List ℕ) (new d d' : Disk)
      → IsLogged lh
      → ((b : ℕ) → Inside start size b → d' b ≡ d b)
      → ((b : ℕ) → elem b lh ≡ false → d' b ≡ d b)
      → Committed lh new d
      → Committed lh new d'
  Committed-frame lh new d d' logged same others c = record {
    says = rw (same start (omega arith, omega (arith, logged.room))) c.says;
    holds =
        LogHolds-frame start size new d d' lh 0 (omega (arith, logged.room))
          (λ b lo hi. same b (omega arith, hi)) c.holds;
    others = λ b out ne. others b ne ∙ c.others b out ne;
  }

  -- After an installing pass that the power survived, every home block is new.
  pub Installed-new :
      (lh : List ℕ) (new : Disk) (s s' : Blocks)
      → Committed lh new s.disk
      → Installed start size new lh s s'
      → s'.budget ≢ 0
      → (b : ℕ) → Outside start size b
      → s'.disk b ≡ new b
  Installed-new lh new s s' c inst on b out = elim (Bool-cases (elem b lh)) [
    | inl yes' ↦ inst.homes on b yes'
    | inr no' ↦ inst.others b no' ∙ c.others b out no'
  ]

  -- The header is cleared after an installing pass: the log is still committed, or all is new.
  pub cleared-Durable :
      (lh : List ℕ) (old new : Disk) (l : Log) (s s' : Blocks)
      → IsLogged lh
      → l.start ≡ start
      → l.lh ≡ []
      → Committed lh new s.disk
      → Installed start size new lh s s'
      → Durable lh old new (write_head l s').disk
        × (s'.budget ≢ 0 → Clean new (write_head l s').disk)
  cleared-Durable lh old new l s s' logged e e' c inst = elim (Bool-cases (s'.budget == 0)) [
    | inl off ↦ (
      rw (write_head_off l s' (==→eq _ 0 off))
          (during (Committed-frame lh new s.disk s'.disk logged inst.log_kept inst.others c)),
      λ on. absurd (on (==→eq _ 0 off)),
    )
    | inr on ↦
        let done =
          write_head_empty l new s' e e' (omega (arith, logged.room))
            (Installed-new lh new s s' c inst (==→ne _ 0 on)) (==→ne _ 0 on) in
        (after done, λ _. done)
  ]

  -- The state of the block layer after the installing pass of a recovery.
  replayed : List ℕ → Log → Disk → ℕ → Blocks
  replayed lh l d k = install_trans true (record l { lh = lh }) (boot d k)

  recover_from_log-Says :
      (l : Log) (d : Disk) (k : ℕ) (lh : List ℕ)
      → l.start ≡ start
      → Says (d start) lh
      → length lh ≤ logsize
      → recover_from_log l (boot d k)
        ≡ some (record l { lh = [] }, write_head (record l { lh = [] }) (replayed lh l d k))
  unfolding recover_from_log replayed
  recover_from_log-Says l d k lh e says small = rw (read_head-Says l d k lh e says small)

  -- Either all of the old contents or all of the new ones, and an empty log.
  abbrev pub Settled : Disk → Disk → Disk → Type 0
  Settled old new d = Clean old d ⊎ Clean new d

  -- What a boot makes of a disk: it does not panic, the disk is again one that the transaction may
  -- leave, and it is settled if the power lasts for one write more than blocks are logged.
  abbrev pub Recovers : List ℕ → Disk → Disk → ℕ → Option (Log × Blocks) → Type 0
  Recovers lh old new k r =
      (l' : Log) × (s' : Blocks) × (r ≡ some (l', s'))
      × (l'.lh ≡ [])
      × Durable lh old new s'.disk
      × (length lh < k → Settled old new s'.disk)

  module _ (lh : List ℕ) (old new : Disk) (logged : IsLogged lh) (l : Log)
      (e : l.start ≡ start) where
    abbrev clear : Log
    clear = record l { lh = [] }

    -- Recovery from an empty log only rewrites the header.
    Clean-disk :
        (view d : Disk) (k : ℕ)
        → Clean view d
        → Clean view (write_head clear (replayed [] l d k)).disk
    unfolding replayed install_trans install_loop
    Clean-disk view d k c = elim (Bool-cases (k == 0)) [
      | inl off ↦ rw (write_head_off clear (boot d k) (==→eq k 0 off)) c
      | inr on ↦
          write_head_empty clear view (boot d k) e refl (omega (arith, logged.room)) c.agrees
            (==→ne k 0 on)
    ]

    Clean-Says : (view d : Disk) → Clean view d → Says (d start) []
    unfolding read_blocks
    Clean-Says view d c = record { count = c.empty; entries = refl }

    replayed-Installed :
        (d : Disk) (k : ℕ)
        → Committed lh new d
        → Installed start size new lh (boot d k) (replayed lh l d k)
    unfolding replayed install_trans
    replayed-Installed d k c = rw e (
        install_loop-Installed start size new true lh 0 (boot d k) (omega (arith, logged.room))
          logged.outside (λ b i. refl) c.holds)

    -- A boot from any disk that the transaction may leave.
    pub recover_from_log-Recovers :
        (d : Disk) (k : ℕ)
        → Durable lh old new d
        → Recovers lh old new k (recover_from_log l (boot d k))
    recover_from_log-Recovers d k (before c) = (
      clear,
      write_head clear (replayed [] l d k),
      recover_from_log-Says l d k [] e (Clean-Says old d c) (omega arith),
      refl,
      before (Clean-disk old d k c),
      λ _. inl (Clean-disk old d k c),
    )
    recover_from_log-Recovers d k (during c) =
        let inst = replayed-Installed d k c in
        let out =
          cleared-Durable lh old new clear (boot d k) (replayed lh l d k) logged e refl c inst in
        (
          clear,
          write_head clear (replayed lh l d k),
          recover_from_log-Says l d k lh e c.says logged.small,
          refl,
          out.0,
          λ enough. inr (out.1 (ground (arith, inst.budget))),
        )
    recover_from_log-Recovers d k (after c) = (
      clear,
      write_head clear (replayed [] l d k),
      recover_from_log-Says l d k [] e (Clean-Says new d c) (omega arith),
      refl,
      after (Clean-disk new d k c),
      λ _. inr (Clean-disk new d k c),
    )
