-- ===== src/Proc/Family.antt =====
-- exit of kernel/proc.c: what becomes of the children and of the waiting parent.
use fyp_os.Prelude.{
  ℕ, zero, suc, ◌+◌, ◌≤◌, ◌<◌, ◌≡◌, ◌≢◌, ◌⊎◌, refl, ◌∙◌, true, false, none, some, arith, get_elem?,
  length, ◌==◌, if◌then◌else◌, Option-cases, Bool-cases, inl, inr, ==→eq, ne→==, List, [], ◌∷◌, ltb,
  ltb→lt, ltb→le,
}
use fyp_os.Proc.{
  Proc, Table, sleeping, runnable, zombie, is_sleeping, is_parent, wake, wakeup, change,
  reparent_one, reparent_loop, reparent, exit, parent_address,
}
use fyp_os.Proc.Wakeup.{get_elem?-change, wakeup_exact}

-- What the exit of process `i` may do to another entry before the last wakeup: a process that is no
-- child of `i` keeps its parent, one that sleeps may be woken, and all else stays.
pub record Fate (i : ℕ) (p q : Proc) : Type 0 where
  pub parent : is_parent i p ≡ false → q.parent ≡ p.parent
  pub same_pid : q.pid ≡ p.pid
  pub state :
      (q.state ≡ p.state) × (q.chan ≡ p.chan) ⊎ (is_sleeping p.state ≡ true) × (q.state ≡ runnable)

abbrev pub Fates : ℕ → Table → Table → Type 0
Fates i t t' =
    (k : ℕ) (p : Proc)
    → get_elem? t.procs k ≡ some p
    → (q : Proc) × (get_elem? t'.procs k ≡ some q) × Fate i p q

Fates-trans : (i : ℕ) (t u v : Table) → Fates i t u → Fates i u v → Fates i t v
Fates-trans i t u v h k n p at =
    let (q, at', f) = h n p at in
    let (r, at'', g) = k n q at' in
    (
      r,
      at'',
      record {
        parent = λ e. g.parent (ground (arith, f.parent e)) ∙ f.parent e;
        same_pid = g.same_pid ∙ f.same_pid;
        state = ground (arith, f.state, g.state);
      },
    )

wakeup-Fates : (chan me i : ℕ) (t : Table) → Fates i t (wakeup chan me t)
wakeup-Fates chan me i t k p at = (
  wake chan me k p,
  ground (arith, at, wakeup_exact chan me k t),
  record { parent = λ e. ground arith; same_pid = ground arith; state = ground arith },
)

adopt-Fates :
    (i j : ℕ) (t : Table) (p : Proc)
    → get_elem? t.procs j ≡ some p
    → is_parent i p ≡ true
    → Fates i t (change j (λ q. record q { parent = some t.initproc }) t)
adopt-Fates i j t p at child k q at' = elim (Bool-cases (j == k)) [
  | inl same ↦ (
    record q { parent = some t.initproc },
    ground (arith, at', get_elem?-change j k (λ q. record q { parent = some t.initproc }) t),
    record { parent = λ e. absurd (ground arith); same_pid = refl; state = inl (refl, refl) },
  )
  | inr other ↦ (
    q,
    ground (arith, at', get_elem?-change j k (λ q. record q { parent = some t.initproc }) t),
    record { parent = λ e. refl; same_pid = refl; state = inl (refl, refl) },
  )
]

Fates-refl : (i : ℕ) (t : Table) → Fates i t t
Fates-refl i t k p at =
    (p, at, record { parent = λ e. refl; same_pid = refl; state = inl (refl, refl) })

-- The entry `k` is no child of `i`.
abbrev pub IsOrphan : ℕ → ℕ → Table → Type 0
IsOrphan i k t = (p : Proc) → get_elem? t.procs k ≡ some p → is_parent i p ≡ false

wakeup-IsOrphan : (chan me i k : ℕ) (t : Table) → IsOrphan i k t → IsOrphan i k (wakeup chan me t)
wakeup-IsOrphan chan me i k t h q at = elim (Option-cases (get_elem? t.procs k)) [
  | inl e ↦ absurd (ground (arith, wakeup_exact chan me k t))
  | inr (p, e) ↦ ground (arith, wakeup_exact chan me k t, h p)
]

module _ (address : ℕ → ℕ) (i : ℕ) where
  reparent_one_child :
      (j : ℕ) (t : Table) (p : Proc)
      → get_elem? t.procs j ≡ some p
      → reparent_one address i j t ≡ (
          if is_parent i p
          then wakeup
              (address t.initproc)
              i
              (change j (λ p. record p { parent = some t.initproc }) t)
          else t)
  unfolding reparent_one
  reparent_one_child j t p e = rw (e, reparent_one)

  reparent_one-none :
      (j : ℕ) (t : Table) → get_elem? t.procs j ≡ none → reparent_one address i j t ≡ t
  unfolding reparent_one
  reparent_one-none j t e = rw (e, reparent_one)

  reparent_one-Fates : (j : ℕ) (t : Table) → Fates i t (reparent_one address i j t)
  reparent_one-Fates j t = elim (Option-cases (get_elem? t.procs j)) [
    | inl e ↦ rw (reparent_one-none j t e) (Fates-refl i t)
    | inr (p, e) ↦
        let t1 = change j (λ q. record q { parent = some t.initproc }) t in
        rw (reparent_one_child j t p e) (elim (Bool-cases (is_parent i p)) [
          | inl child ↦ rw child (
              Fates-trans i t t1 (wakeup (address t.initproc) i t1) (adopt-Fates i j t p e child)
                (wakeup-Fates _ i i t1))
          | inr other ↦ rw other (Fates-refl i t)
        ])
  ]

  reparent_one_initproc : (j : ℕ) (t : Table) → (reparent_one address i j t).initproc ≡ t.initproc
  unfolding wakeup
  reparent_one_initproc j t = elim (Option-cases (get_elem? t.procs j)) [
    | inl e ↦ rw (reparent_one-none j t e)
    | inr (p, e) ↦ rw (reparent_one_child j t p e) (ground arith)
  ]

  adopt-IsOrphan :
      (j k : ℕ) (t : Table)
      → i ≢ t.initproc
      → IsOrphan i k t ⊎ (j ≡ k)
      → IsOrphan i k (change j (λ q. record q { parent = some t.initproc }) t)
  adopt-IsOrphan j k t ne h q at = elim (Option-cases (get_elem? t.procs k)) [
    | inl e ↦
        absurd (ground (arith, get_elem?-change j k (λ q. record q { parent = some t.initproc }) t))
    | inr (p, e) ↦ elim h [
      | inl orphan ↦
          ground
            (arith, orphan p e, get_elem?-change j k (λ q. record q { parent = some t.initproc }) t)
      | inr here ↦
          ground (arith, get_elem?-change j k (λ q. record q { parent = some t.initproc }) t)
    ]
  ]

  reparent_one-IsOrphan :
      (j k : ℕ) (t : Table)
      → i ≢ t.initproc
      → IsOrphan i k t ⊎ (j ≡ k)
      → IsOrphan i k (reparent_one address i j t)
  reparent_one-IsOrphan j k t ne h = elim (Option-cases (get_elem? t.procs j)) [
    | inl e ↦
        rw (reparent_one-none j t e)
          (λ p at. elim h [ inl orphan ↦ orphan p at | inr here ↦ absurd (ground arith) ])
    | inr (p, e) ↦
        let t1 = change j (λ q. record q { parent = some t.initproc }) t in
        rw (reparent_one_child j t p e) (elim (Bool-cases (is_parent i p)) [
          | inl child ↦
              rw child (wakeup-IsOrphan (address t.initproc) i i k t1 (adopt-IsOrphan j k t ne h))
          | inr other ↦
              rw other (λ q at. elim h [ inl orphan ↦ orphan q at | inr here ↦ ground arith ])
        ])
  ]

  reparent_loop-Fates : (n j : ℕ) (t : Table) → Fates i t (reparent_loop address n i j t)
  unfolding reparent_loop
  reparent_loop-Fates zero j t = Fates-refl i t
  reparent_loop-Fates (suc n) j t =
      Fates-trans i t (reparent_one address i j t)
        (reparent_loop address n i (j + 1) (reparent_one address i j t)) (reparent_one-Fates j t)
        (reparent_loop-Fates n (j + 1) (reparent_one address i j t))

  reparent_loop-IsOrphan :
      (n j k : ℕ) (t : Table)
      → i ≢ t.initproc
      → IsOrphan i k t ⊎ ((j ≤ k) × (k < j + n))
      → IsOrphan i k (reparent_loop address n i j t)
  unfolding reparent_loop
  reparent_loop-IsOrphan zero j k t ne h = elim h [
    | inl orphan ↦ orphan
    | inr (le, lt) ↦ absurd (omega arith)
  ]
  reparent_loop-IsOrphan (suc n) j k t ne h =
      let t1 = reparent_one address i j t in
      let ne' : i ≢ t1.initproc = rw (reparent_one_initproc j t) ne in
      reparent_loop-IsOrphan n (j + 1) k t1 ne' (elim h [
        | inl orphan ↦ inl (reparent_one-IsOrphan j k t ne (inl orphan))
        | inr (le, lt) ↦ elim (Bool-cases (j == k)) [
          | inl here ↦ inl (reparent_one-IsOrphan j k t ne (inr (==→eq _ _ here)))
          | inr later ↦ inr (ground arith, omega arith)
        ]
      ])

  past_end : (xs : List Proc) (k : ℕ) → length xs ≤ k → get_elem? xs k ≡ none
  past_end [] k h = refl
  past_end (x ∷ xs) zero h = absurd (omega arith)
  past_end (x ∷ xs) (suc k) h = past_end xs k (omega arith)

  -- After `reparent` no process has `i` for its parent.
  pub reparent-IsOrphan : (k : ℕ) (t : Table) → i ≢ t.initproc → IsOrphan i k (reparent address i t)
  unfolding reparent
  reparent-IsOrphan k t ne = elim (Bool-cases (ltb k (length t.procs))) [
    | inl inside ↦
        reparent_loop-IsOrphan (length t.procs) 0 k t ne
          (inr (omega arith, omega (arith, ltb→lt _ _ inside)))
    | inr outside ↦
        reparent_loop-IsOrphan (length t.procs) 0 k t ne
          (inl λ p at. cc (past_end t.procs k (ltb→le _ _ outside)))
  ]

  pub reparent-Fates : (t : Table) → Fates i t (reparent address i t)
  unfolding reparent
  reparent-Fates t = reparent_loop-Fates (length t.procs) 0 t

  parent_address_lem :
      (t : Table) (j q : ℕ) (p : Proc)
      → get_elem? t.procs j ≡ some p
      → p.parent ≡ some q
      → parent_address address t.procs j ≡ address q
  parent_address_lem t j q p at kin = ground (arith, at, kin)

  ended-IsOrphan :
      (k status : ℕ) (t : Table)
      → IsOrphan i k t
      → IsOrphan i k (change i (λ r. record r { xstate = status; state = zombie }) t)
  ended-IsOrphan k status t h r at = elim (Option-cases (get_elem? t.procs k)) [
    | inl e ↦
        absurd (
          ground
            (arith, get_elem?-change i k (λ r. record r { xstate = status; state = zombie }) t))
    | inr (p, e) ↦
        ground
          (arith, h p e, get_elem?-change i k (λ r. record r { xstate = status; state = zombie }) t)
  ]

  -- What a table looks like after the exit of `i` with a status, where the parent `q` slept in `wait`.
  pub record Exited (status q : ℕ) (t t' : Table) : Type 0 where
    pub child : Proc
    pub ended : get_elem? t'.procs i ≡ some child
    pub is_ended : (child.state ≡ zombie) × (child.xstate ≡ status)
    pub orphans : (k : ℕ) → IsOrphan i k t'
    pub waiter : Proc
    pub waits : get_elem? t'.procs q ≡ some waiter
    pub woken : waiter.state ≡ runnable

  -- A process other than init that exits while its parent sleeps in `wait` becomes a zombie with its
  -- status, leaves no process with it for a parent, and makes its parent runnable.
  pub exit-Exited :
      (status q : ℕ) (t : Table) (p w : Proc)
      → i ≢ t.initproc
      → i ≢ q
      → get_elem? t.procs i ≡ some p
      → p.parent ≡ some q
      → get_elem? t.procs q ≡ some w
      → w.state ≡ sleeping
      → w.chan ≡ address q
      → (t' : Table) × (exit address status i t ≡ some t') × Exited status q t t'
  unfolding exit
  exit-Exited status q t p w ne ne' at kin at' asleep chan =
      let end : Proc → Proc = λ r. record r { xstate = status; state = zombie } in
      let t1 = reparent address i t in
      let (p1, at1, f1) = reparent-Fates t i p at in
      let (w1, atw, fw) = reparent-Fates t q w at' in
      let own : is_parent i p ≡ false = ground arith in
      let kin1 : p1.parent ≡ some q = f1.parent own ∙ kin in
      let there : parent_address address t1.procs i ≡ address q =
        parent_address_lem t1 i q p1 at1 kin1 in
      let t2 = wakeup (address q) i t1 in
      let go : (i == t.initproc) ≡ false = ne→== _ _ ne in
      (
        change i end t2,
        rw (go, there) refl,
        record {
          child = end p1;
          ended = ground (arith, at1, wakeup_exact (address q) i i t1, get_elem?-change i i end t2);
          is_ended = (refl, refl);
          orphans = λ k.
              ended-IsOrphan k status t2
                (wakeup-IsOrphan (address q) i i k t1 (reparent-IsOrphan k t ne));
          waiter = wake (address q) i q w1;
          waits = ground (arith, atw, wakeup_exact (address q) i q t1, get_elem?-change i q end t2);
          woken = ground (arith, fw.state);
        },
      )
