-- ===== src/Proc/Pids.antt =====
-- The pids of kernel/proc.c: distinct, fresh, and 0 exactly on unused entries.
use fyp_os.Prelude.{
  ℕ, zero, suc, ◌+◌, ◌%◌, ◌^◌, ◌<◌, ◌≡◌, ◌≢◌, ◌⊎◌, refl, subst, length, sym, ◌∙◌, Bool, true, false,
  none, some, arith, get_elem?, map_option, find_from, ◌==◌, if◌then◌else◌, Option-cases,
  Bool-cases, inl, inr,
}
use fyp_os.Proc.{
  zombie, Proc, Table, is_unused, is_parent, wake, wakeup, kill, kill_one, change, exit, reparent,
  reparent_loop, reparent_one, parent_address,
}
use fyp_os.Proc.Wakeup.{get_elem?-change, wakeup_exact, named, kill_found, kill_missing}

pub record IsSound (t : Table) : Type 0 where
  pub unused_zero :
      (j : ℕ) (p : Proc) → get_elem? t.procs j ≡ some p → is_unused p.state ≡ (p.pid == 0)
  pub below : (j : ℕ) (p : Proc) → get_elem? t.procs j ≡ some p → p.pid < t.nextpid
  pub positive : 0 < t.nextpid
  pub distinct :
      (i j : ℕ) (p q : Proc)
      → get_elem? t.procs i ≡ some p
      → get_elem? t.procs j ≡ some q
      → p.pid ≢ 0
      → p.pid ≡ q.pid
      → i ≡ j

-- An entry keeps its pid and whether it is used, or it is freed where `frees` allows it.
abbrev pub KeepsProc : Bool → Proc → Proc → Type 0
KeepsProc frees p q =
    (q.pid ≡ p.pid) × (is_unused q.state ≡ is_unused p.state)
    ⊎ (frees ≡ true) × (q.pid ≡ 0) × (is_unused q.state ≡ true)

pub record Keeps (frees : Bool) (t t' : Table) : Type 0 where
  pub next : t'.nextpid ≡ t.nextpid
  pub entries :
      (j : ℕ) (q : Proc)
      → get_elem? t'.procs j ≡ some q
      → (p : Proc) × (get_elem? t.procs j ≡ some p) × KeepsProc frees p q

pub Keeps-refl : (frees : Bool) (t : Table) → Keeps frees t t
Keeps-refl frees t = record { next = refl; entries = λ j q at. (q, at, inl (refl, refl)) }

pub Keeps-trans :
    (frees : Bool) (t u v : Table) → Keeps frees t u → Keeps frees u v → Keeps frees t v
Keeps-trans frees t u v h k = record {
  next = k.next ∙ h.next;
  entries = λ j q at.
      let (p, at', e) = k.entries j q at in
      let (o, at'', e') = h.entries j p at' in (o, at'', ground arith);
}

pub Keeps-IsSound : (frees : Bool) (t t' : Table) → Keeps frees t t' → IsSound t → IsSound t'
Keeps-IsSound frees t t' k s = record {
  unused_zero =
      λ j q at. let (p, at', e) = k.entries j q at in ground (arith, s.unused_zero j p at');
  below = λ j q at.
      let (p, at', e) = k.entries j q at in ground (arith, s.below j p at', k.next, s.positive);
  positive = rw k.next s.positive;
  distinct = λ i j p q at at' ne same.
      let (p', pt, e) = k.entries i p at in
      let (q', qt, e') = k.entries j q at' in ground (arith, s.distinct i j p' q' pt qt);
}

pub change-Keeps :
    (frees : Bool) (i : ℕ) (f : Proc → Proc) (t : Table)
    → ((p : Proc) → get_elem? t.procs i ≡ some p → KeepsProc frees p (f p))
    → Keeps frees t (change i f t)
change-Keeps frees i f t keep = record {
  next = refl;
  entries = λ j q at. entry j q (Option-cases (get_elem? t.procs j)) (get_elem?-change i j f t) at;
}
  where
    entry :
        (j : ℕ) (q : Proc)
        → (get_elem? t.procs j ≡ none) ⊎ ((p : Proc) × (get_elem? t.procs j ≡ some p))
        → get_elem? (change i f t).procs j
          ≡ (if i == j then map_option f (get_elem? t.procs j) else get_elem? t.procs j)
        → get_elem? (change i f t).procs j ≡ some q
        → (p : Proc) × (get_elem? t.procs j ≡ some p) × KeepsProc frees p q
    entry j q (inl e) g at = absurd (ground arith)
    entry j q (inr (p, e)) g at = (p, e, ground (arith, keep p))

pub wakeup-Keeps : (frees : Bool) (chan me : ℕ) (t : Table) → Keeps frees t (wakeup chan me t)
wakeup-Keeps frees chan me t = record {
  next = unfold wakeup in refl;
  entries = λ j q at. entry j q (Option-cases (get_elem? t.procs j)) (wakeup_exact chan me j t) at;
}
  where
    entry :
        (j : ℕ) (q : Proc)
        → (get_elem? t.procs j ≡ none) ⊎ ((p : Proc) × (get_elem? t.procs j ≡ some p))
        → get_elem? (wakeup chan me t).procs j ≡ map_option (wake chan me j) (get_elem? t.procs j)
        → get_elem? (wakeup chan me t).procs j ≡ some q
        → (p : Proc) × (get_elem? t.procs j ≡ some p) × KeepsProc frees p q
    entry j q (inl e) g at = absurd (ground arith)
    entry j q (inr (p, e)) g at = (p, e, ground arith)

pub kill-Keeps : (pid : ℕ) (t : Table) → Keeps false t (kill pid t).1
kill-Keeps pid t = elim (Option-cases (find_from (named pid) 0 t.procs)) [
  | inl none' ↦ rw (kill_missing pid t none') (Keeps-refl false t)
  | inr (i, found) ↦
      rw (kill_found pid i t found)
        (change-Keeps false i kill_one t λ p at. inl (refl, ground arith))
]

pub reparent_one-Keeps :
    (address : ℕ → ℕ) (i j : ℕ) (t : Table) → Keeps false t (reparent_one address i j t)
unfolding reparent_one
reparent_one-Keeps address i j t = elim (Option-cases (get_elem? t.procs j)) [
  | inl e ↦ rw (e, reparent_one) (Keeps-refl false t)
  | inr (p, e) ↦ elim (Bool-cases (is_parent i p)) [
    | inl child ↦
        let t1 = change j (λ q. record q { parent = some t.initproc }) t in
        rw (e, reparent_one, child)
          (Keeps-trans false t t1 _ (change-Keeps false j _ t λ q at. inl (refl, refl))
            (wakeup-Keeps false _ i t1))
    | inr other ↦ rw (e, reparent_one, other) (Keeps-refl false t)
  ]
]

pub reparent_loop-Keeps :
    (address : ℕ → ℕ) (n i j : ℕ) (t : Table) → Keeps false t (reparent_loop address n i j t)
unfolding reparent_loop
reparent_loop-Keeps address zero i j t = Keeps-refl false t
reparent_loop-Keeps address (suc n) i j t =
    Keeps-trans false t (reparent_one address i j t) _ (reparent_one-Keeps address i j t)
      (reparent_loop-Keeps address n i (j + 1) (reparent_one address i j t))

-- A new pid is given to an unused entry, where the counter does not overflow.
pub assign-IsSound :
    (i : ℕ) (f : Proc → Proc) (t : Table) (p : Proc)
    → IsSound t
    → get_elem? t.procs i ≡ some p
    → (f p).pid ≡ t.nextpid
    → is_unused (f p).state ≡ false
    → t.nextpid + 1 < 2 ^ 31
    → IsSound (change i f (record t { nextpid = (t.nextpid + 1) % 2 ^ 32 }))
assign-IsSound i f t p s at fresh in_use small = record {
  unused_zero = λ j q g. ground (arith, entry j, s.unused_zero j q, s.positive);
  below = λ j q g. rw next (ground (arith, entry j, s.below j q));
  positive = rw next (omega arith);
  distinct = λ j k q r g h ne e.
      ground (arith, entry j, entry k, s.below j q, s.below k r, s.distinct j k q r);
}
  where
    next : (t.nextpid + 1) % 2 ^ 32 ≡ t.nextpid + 1
    next = omega arith

    entry :
        (j : ℕ)
        → get_elem? (change i f t).procs j
          ≡ (if i == j then map_option f (get_elem? t.procs j) else get_elem? t.procs j)
    entry j = get_elem?-change i j f t

abbrev pub IsUsed : ℕ → Table → Type 0
IsUsed i t = (p : Proc) → get_elem? t.procs i ≡ some p → is_unused p.state ≡ false

IsUsed-Keeps : (i : ℕ) (t t' : Table) → Keeps false t t' → IsUsed i t → IsUsed i t'
IsUsed-Keeps i t t' k u q at = let (p, at', e) = k.entries i q at in ground (arith, u p at')

pub exit-Keeps :
    (address : ℕ → ℕ) (status i : ℕ) (t t' : Table)
    → IsUsed i t
    → exit address status i t ≡ some t'
    → Keeps false t t'
unfolding exit reparent
exit-Keeps address status i t t' u e =
    let t1 = reparent address i t in
    let chan = parent_address address t1.procs i in
    let t2 = wakeup chan i t1 in
    let k1 = reparent_loop-Keeps address (length t.procs) i 0 t in
    let k2 = Keeps-trans false t t1 t2 k1 (wakeup-Keeps false chan i t1) in
    let k3 =
      change-Keeps false i (λ p. record p { xstate = status; state = zombie }) t2
        λ p at. inl (refl, sym (IsUsed-Keeps i t t2 k2 u p at)) in
    let k = Keeps-trans false t t2 _ k2 k3 in
    elim (Bool-cases (i == t.initproc)) [
      | inl init ↦ absurd (ground arith)
      | inr other ↦ subst (Keeps false t) (ground arith) k
    ]
