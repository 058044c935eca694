-- ===== src/Proc/Life.antt =====
-- Whatever the processes do, the table of kernel/proc.c keeps its pids sound.
use fyp_os.Prelude.{
  ℕ, ◌+◌, ◌-◌, ◌%◌, ◌^◌, ◌<◌, ◌≡◌, refl, subst, sym, Bool, true, false, not, Option, none, some,
  arith, get_elem?, find_from, find_from-some, if◌then◌else◌, Option-cases, Bool-cases, inl, inr,
  is_some, ◌||◌, ◌&&◌,
}
use fyp_os.Proc.{
  Table, used, is_unused, is_zombie, is_parent, wakeup, sleep, sleep_return, yield, kill, change,
  freeproc, allocproc, allocpid, scheduler_turn, setkilled, is_killed, fork, fork_from, exit,
  wait_pass, running, sleeping, runnable, is_runnable,
}
use fyp_os.Proc.Wakeup.{get_elem?-change}
use fyp_os.Proc.Pids.{
  IsSound, Keeps, Keeps-refl, Keeps-IsSound, change-Keeps, wakeup-Keeps, kill-Keeps, exit-Keeps,
  assign-IsSound, IsUsed,
}

freeproc-Keeps : (i : ℕ) (t : Table) → Keeps true t (change i freeproc t)
unfolding freeproc
freeproc-Keeps i t = change-Keeps true i freeproc t λ p at. inr (refl, refl, refl)

allocproc-none :
    (kalloc pages : Bool) (t : Table)
    → find_from (λ p. is_unused p.state) 0 t.procs ≡ none
    → allocproc kalloc pages t ≡ (none, t)
unfolding allocproc
allocproc-none kalloc pages t e = rw (e, allocproc)

-- The new entry with its pid, and after it has its page table.
abbrev pub with_pid : Bool → ℕ → Table → Table
with_pid kalloc i t =
    change i (λ p. record p { pid = t.nextpid; state = used; trapframe = kalloc })
      (record t { nextpid = (t.nextpid + 1) % 2 ^ 32 })

abbrev pub with_pages : Bool → Bool → ℕ → Table → Table
with_pages kalloc pages i t = change i (λ p. record p { pagetable = pages }) (with_pid kalloc i t)

pub allocproc-some :
    (kalloc pages : Bool) (i : ℕ) (t : Table)
    → find_from (λ p. is_unused p.state) 0 t.procs ≡ some i
    → allocproc kalloc pages t ≡ (
        if not kalloc
        then (none, change i freeproc (with_pid kalloc i t))
        else if not pages
        then (none, change i freeproc (with_pages kalloc pages i t))
        else (some i, with_pages kalloc pages i t))
unfolding allocproc allocpid
allocproc-some kalloc pages i t e = rw (e, allocproc)

pub allocproc-IsSound :
    (kalloc pages : Bool) (t : Table)
    → IsSound t
    → t.nextpid + 1 < 2 ^ 31
    → IsSound (allocproc kalloc pages t).1
allocproc-IsSound kalloc pages t s small =
    elim (Option-cases (find_from (λ p. is_unused p.state) 0 t.procs)) [
      | inl none' ↦ rw (allocproc-none kalloc pages t none') s
      | inr (i, found) ↦
          let (p, le, at, hit) = find_from-some (λ p. is_unused p.state) 0 i t.procs found in
          let z : i - 0 ≡ i = omega arith in
          let s2 =
            assign-IsSound i (λ p. record p { pid = t.nextpid; state = used; trapframe = kalloc }) t
              p s (rw z at at) refl refl small in
          let k3 =
            change-Keeps true i (λ p. record p { pagetable = pages }) (with_pid kalloc i t)
              λ p at. inl (refl, refl) in
          let s3 = Keeps-IsSound true _ _ k3 s2 in
          rw (allocproc-some kalloc pages i t found) (elim (Bool-cases kalloc) [
            | inl have ↦ elim (Bool-cases pages) [
              | inl have' ↦ subst (λ r. IsSound r) (ground arith) s3
              | inr miss' ↦
                  subst (λ r. IsSound r) (ground arith)
                    (Keeps-IsSound true _ _ (freeproc-Keeps i (with_pages kalloc pages i t)) s3)
            ]
            | inr miss ↦
                subst (λ r. IsSound r) (ground arith)
                  (Keeps-IsSound true _ _ (freeproc-Keeps i (with_pid kalloc i t)) s2)
          ])
    ]

allocproc-IsUsed :
    (kalloc pages : Bool) (c : ℕ) (t : Table)
    → (allocproc kalloc pages t).0 ≡ some c
    → IsUsed c (allocproc kalloc pages t).1
allocproc-IsUsed kalloc pages c t =
    elim (Option-cases (find_from (λ p. is_unused p.state) 0 t.procs)) [
      | inl none' ↦ rw (allocproc-none kalloc pages t none') (λ e. absurd (cc))
      | inr (i, found) ↦ rw (allocproc-some kalloc pages i t found) λ e p at. ground (
        arith,
        get_elem?-change i c (λ p. record p { pagetable = pages }) (with_pid kalloc i t),
        get_elem?-change i c (λ p. record p { pid = t.nextpid; state = used; trapframe = kalloc })
            (record t { nextpid = (t.nextpid + 1) % 2 ^ 32 }),
      )
    ]

fork_from-Keeps :
    (copied : Bool) (i : ℕ) (child : Option ℕ) (t : Table)
    → ((c : ℕ) → child ≡ some c → IsUsed c t)
    → Keeps true t (fork_from copied i child t).1
unfolding fork_from
fork_from-Keeps copied i none t u = Keeps-refl true t
fork_from-Keeps copied i (some c) t u = elim (Option-cases (get_elem? t.procs i)) [
  | inl e ↦ rw (e, fork_from) (Keeps-refl true t)
  | inr (p, e) ↦ elim (Option-cases (get_elem? t.procs c)) [
    | inl e' ↦ rw (e, fork_from, e') (Keeps-refl true t)
    | inr (np, e') ↦
        rw (e, fork_from, e')
          (elim (Bool-cases copied) [
            | inl ok ↦ rw ok (
                change-Keeps true c (λ q. record q { sz = p.sz; parent = some i; state = runnable })
                  t λ q at. inl (refl, sym (u c refl q at)))
            | inr miss ↦ rw miss (freeproc-Keeps c t)
          ])
  ]
]

pub fork-IsSound :
    (kalloc pages copied : Bool) (i : ℕ) (t : Table)
    → IsSound t
    → t.nextpid + 1 < 2 ^ 31
    → IsSound (fork kalloc pages copied i t).1
unfolding fork
fork-IsSound kalloc pages copied i t s small =
    let (child, t1) = allocproc kalloc pages t in
    Keeps-IsSound true t1 _
      (fork_from-Keeps copied i child t1 (λ c. allocproc-IsUsed kalloc pages c t))
      (allocproc-IsSound kalloc pages t s small)

wait_pass-Keeps :
    (address : ℕ → ℕ) (wants copyout : Bool) (i : ℕ) (t : Table)
    → IsUsed i t
    → Keeps true t (wait_pass address wants copyout i t).1
unfolding wait_pass sleep
wait_pass-Keeps address wants copyout i t u =
    elim (Option-cases (find_from (λ p. is_parent i p && is_zombie p.state) 0 t.procs)) [
      | inl e ↦
          rw (e, wait_pass)
            (elim (Bool-cases
              (not (is_some (find_from (is_parent i) 0 t.procs)) || is_killed i t)) [
                | inl done ↦ rw done (Keeps-refl true t)
                | inr more ↦ rw more (
                    change-Keeps true i (λ p. record p { chan = address i; state = sleeping }) t
                      λ p at. inl (refl, sym (u p at)))
              ])
      | inr (j, e) ↦
          rw (e, wait_pass)
            (elim (Bool-cases (wants && not copyout)) [
              | inl bad ↦ rw bad (Keeps-refl true t)
              | inr good ↦ rw good (elim (Option-cases (get_elem? t.procs j)) [
                | inl e' ↦ rw e' (Keeps-refl true t)
                | inr (pp, e') ↦ rw e' (freeproc-Keeps j t)
              ])
            ])
    ]

scheduler_turn-Keeps : (i : ℕ) (t : Table) → Keeps true t (scheduler_turn i t).1
unfolding scheduler_turn
scheduler_turn-Keeps i t = elim (Option-cases (get_elem? t.procs i)) [
  | inl e ↦ rw (e, scheduler_turn) (Keeps-refl true t)
  | inr (p, e) ↦ elim (Bool-cases (is_runnable p.state)) [
    | inl go ↦
        rw (e, scheduler_turn, go)
          (change-Keeps true i (λ q. record q { state = running }) t
            λ q at. inl (refl, ground arith))
    | inr stay ↦ rw (e, scheduler_turn, stay) (Keeps-refl true t)
  ]
]

-- The steps of the process table: a call by a process that is in use, or a turn of the scheduler. A
-- fork stands here as long as `nextpid++` does not overflow.
pub data Step (address : ℕ → ℕ) (t : Table) : Table → Type 0 where
  forks :
      (kalloc pages copied : Bool) (i : ℕ)
      → t.nextpid + 1 < 2 ^ 31
      → Step address t (fork kalloc pages copied i t).1
  exits :
      {t' : Table} (status i : ℕ)
      → IsUsed i t
      → exit address status i t ≡ some t'
      → Step address t t'
  waits :
      (wants copyout : Bool) (i : ℕ)
      → IsUsed i t
      → Step address t (wait_pass address wants copyout i t).1
  sleeps : (chan i : ℕ) → IsUsed i t → Step address t (sleep chan i t)
  returns : (i : ℕ) → Step address t (sleep_return i t)
  wakes : (chan me : ℕ) → Step address t (wakeup chan me t)
  yields : (i : ℕ) → IsUsed i t → Step address t (yield i t)
  kills : (pid : ℕ) → Step address t (kill pid t).1
  marks : (i : ℕ) → Step address t (setkilled i t)
  schedules : (i : ℕ) → Step address t (scheduler_turn i t).1

pub data Reach (address : ℕ → ℕ) (t : Table) : Table → Type 0 where
  here : Reach address t t
  next : {u v : Table} → Reach address t u → Step address u v → Reach address t v

Step-IsSound : {address : ℕ → ℕ} {t t' : Table} → IsSound t → Step address t t' → IsSound t'
unfolding sleep sleep_return yield setkilled
Step-IsSound {t} s (forks kalloc pages copied i small) =
    fork-IsSound kalloc pages copied i t s small
Step-IsSound {address} {t} s (exits {t'} status i u e) =
    Keeps-IsSound false t t' (exit-Keeps address status i t t' u e) s
Step-IsSound {address} {t} s (waits wants copyout i u) =
    Keeps-IsSound true t _ (wait_pass-Keeps address wants copyout i t u) s
Step-IsSound {t} s (sleeps chan i u) =
    Keeps-IsSound false t _
      (change-Keeps false i (λ p. record p { chan = chan; state = sleeping }) t
        λ p at. inl (refl, sym (u p at)))
      s
Step-IsSound {t} s (returns i) =
    Keeps-IsSound false t _
      (change-Keeps false i (λ p. record p { chan = 0 }) t λ p at. inl (refl, refl)) s
Step-IsSound {t} s (wakes chan me) = Keeps-IsSound false t _ (wakeup-Keeps false chan me t) s
Step-IsSound {t} s (yields i u) =
    Keeps-IsSound false t _
      (change-Keeps false i (λ p. record p { state = runnable }) t λ p at. inl (refl, sym (u p at)))
      s
Step-IsSound {t} s (kills pid) = Keeps-IsSound false t _ (kill-Keeps pid t) s
Step-IsSound {t} s (marks i) =
    Keeps-IsSound false t _
      (change-Keeps false i (λ p. record p { killed = true }) t λ p at. inl (refl, refl)) s
Step-IsSound {t} s (schedules i) = Keeps-IsSound true t _ (scheduler_turn-Keeps i t) s

-- However processes fork, exit, wait, sleep, wake, yield, are killed and scheduled, as long as each
-- fork starts with `nextpid` below 2 ^ 31 - 1, so that it does not overflow, a sound table stays
-- sound: an entry has pid 0 exactly if it is unused, every other pid is below the next one to
-- give out, and no two entries share a pid that is not 0.
pub Reach-IsSound : {address : ℕ → ℕ} {t t' : Table} → IsSound t → Reach address t t' → IsSound t'
Reach-IsSound s here = s
Reach-IsSound s (next r st) = Step-IsSound (Reach-IsSound s r) st
