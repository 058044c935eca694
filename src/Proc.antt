-- ===== src/Proc.antt =====
-- kernel/proc.c: the process table. A process is an index into the table; the loops over the table
-- run as one pass, as they do while the callers' locks keep the fields at hand. What other parts
-- decide (whether pages are to be had, whether a copy works) comes in as an argument.
pub mod Wakeup
pub mod Family
pub mod Pids
pub mod Life
pub mod KillZero
mod Tests
use fyp_os.Prelude.{
  ℕ, zero, suc, ◌+◌, ◌%◌, ◌^◌, length, Bool, true, false, not, ◌&&◌, ◌||◌, Option, none, some, List,
  [], ◌∷◌, ◌==◌, if◌then◌else◌, get_elem?, map_from, find_from, modify, unless, ◌>>=◌, ◌>>◌,
  is_some,
}

pub data State : Type 0 where
  unused used sleeping runnable running zombie : State

abbrev pub is_unused : State → Bool
is_unused unused = true
is_unused _ = false

abbrev pub is_sleeping : State → Bool
is_sleeping sleeping = true
is_sleeping _ = false

abbrev pub is_runnable : State → Bool
is_runnable runnable = true
is_runnable _ = false

abbrev pub is_running : State → Bool
is_running running = true
is_running _ = false

abbrev pub is_zombie : State → Bool
is_zombie zombie = true
is_zombie _ = false

-- `struct proc`, as far as scheduling and the family of processes go. `parent` is an index.
pub record Proc : Type 0 where
  pub state : State
  pub chan : ℕ
  pub killed : Bool
  pub xstate : ℕ
  pub pid : ℕ
  pub parent : Option ℕ
  pub sz : ℕ
  pub trapframe : Bool
  pub pagetable : Bool

-- `proc`, `nextpid` and `initproc`
pub record Table : Type 0 where
  pub procs : List Proc
  pub nextpid : ℕ
  pub initproc : ℕ

abbrev pub on_procs : (List Proc → List Proc) → Table → Table
on_procs f t = record t { procs = f t.procs }

abbrev pub change : ℕ → (Proc → Proc) → Table → Table
change i f t = record t { procs = modify t.procs i f }

-- The pid that `allocpid` returns, and the table after it. `nextpid` is a 32-bit `int`, written as an
-- unsigned one.
unfoldable pub allocpid : Table → ℕ × Table
allocpid t = (t.nextpid, record t { nextpid = (t.nextpid + 1) % 2 ^ 32 })

-- `freeproc`, less the pages that go back to the allocator.
unfoldable pub freeproc : Proc → Proc
freeproc p = record {
  state = unused;
  chan = 0;
  killed = false;
  xstate = 0;
  pid = 0;
  parent = none;
  sz = 0;
  trapframe = false;
  pagetable = false;
}

-- `allocproc`: `kalloc` says whether there is a trapframe page, `pages` whether `proc_pagetable`
-- succeeds. The result is the index of the new process.
unfoldable pub allocproc : Bool → Bool → Table → Option ℕ × Table
allocproc kalloc pages t = elim (find_from (λ p. is_unused p.state) 0 t.procs) [
  | none ↦ (none, t)
  | some i ↦
      let (pid, t1) = allocpid t in
      let t2 = change i (λ p. record p { pid = pid; state = used; trapframe = kalloc }) t1 in
      let t3 = change i (λ p. record p { pagetable = pages }) t2 in
      if not kalloc
      then (none, change i freeproc t2)
      else if not pages
      then (none, change i freeproc t3)
      else (some i, t3)
]

abbrev pub wake : ℕ → ℕ → ℕ → Proc → Proc
wake chan me i p =
    if not (i == me) && (is_sleeping p.state && (p.chan == chan))
    then record p { state = runnable }
    else p

-- `wakeup`, called by process `me`.
unfoldable pub wakeup : ℕ → ℕ → Table → Table
wakeup chan me = on_procs (map_from (wake chan me) 0)

abbrev pub kill_one : Proc → Proc
kill_one p = record p { killed = true; state = if is_sleeping p.state then runnable else p.state }

-- `kill`; the result says whether it returns 0.
unfoldable pub kill : ℕ → Table → Bool × Table
kill pid t = elim (find_from (λ p. p.pid == pid) 0 t.procs) [
  | none ↦ (false, t)
  | some i ↦ (true, change i kill_one t)
]

unfoldable pub setkilled : ℕ → Table → Table
setkilled i = change i (λ p. record p { killed = true })

-- `killed`
abbrev pub is_killed : ℕ → Table → Bool
is_killed i t = elim (get_elem? t.procs i) [ none ↦ false | some p ↦ p.killed ]

-- `sleep` up to its call of `sched`, and from its return on.
unfoldable pub sleep : ℕ → ℕ → Table → Table
sleep chan i = change i (λ p. record p { chan = chan; state = sleeping })

unfoldable pub sleep_return : ℕ → Table → Table
sleep_return i = change i (λ p. record p { chan = 0 })

unfoldable pub yield : ℕ → Table → Table
yield i = change i (λ p. record p { state = runnable })

-- The scheduler's turn at process `i`: whether it switches to it.
unfoldable pub scheduler_turn : ℕ → Table → Bool × Table
scheduler_turn i t = elim (get_elem? t.procs i) [
  | none ↦ (false, t)
  | some p ↦
      if is_runnable p.state
      then (true, change i (λ p. record p { state = running }) t)
      else (false, t)
]

-- The checks of `sched`: whether `p->lock` is held, `noff`, and whether interrupts are on.
unfoldable pub sched_panics : Bool → ℕ → Bool → Proc → Bool
sched_panics holding noff intr p = not holding || (not (noff == 1) || (is_running p.state || intr))

abbrev pub is_parent : ℕ → Proc → Bool
is_parent i p = elim p.parent [ none ↦ false | some j ↦ j == i ]

-- `growproc` once `uvmalloc` or `uvmdealloc` has given the new size; `none` is its failure.
unfoldable pub growproc : Option ℕ → ℕ → Table → Bool × Table
growproc none i t = (false, t)
growproc (some sz) i t = (true, change i (λ p. record p { sz = sz }) t)

-- The rest of `fork` after its call of `allocproc`, less the files and registers: `copied` says
-- whether `uvmcopy` succeeds.
unfoldable pub fork_from : Bool → ℕ → Option ℕ → Table → Option ℕ × Table
fork_from copied i none t = (none, t)
fork_from copied i (some c) t = elim (get_elem? t.procs i) [
  | none ↦ (none, t)
  | some p ↦ elim (get_elem? t.procs c) [
    | none ↦ (none, t)
    | some np ↦ if not copied then (none, change c freeproc t) else (
      some np.pid,
      change c (λ q. record q { sz = p.sz; parent = some i; state = runnable }) t,
    )
  ]
]

-- `fork` by process `i`; the result is the child's pid.
unfoldable pub fork : Bool → Bool → Bool → ℕ → Table → Option ℕ × Table
fork kalloc pages copied i t =
    let (child, t1) = allocproc kalloc pages t in fork_from copied i child t1

-- How a pass of `wait` over the table ends: with the pid and the exit status of a child, with -1, or
-- asleep.
pub data Waited : Type 0 where
  reaped : ℕ → ℕ → Waited
  failed : Waited
  asleep : Waited

-- Processes sleep on addresses, and a parent in `wait` sleeps on that of its own entry.
module _ (address : ℕ → ℕ) where
  -- The body of the loop of `reparent` for the exiting process `i`.
  unfoldable pub reparent_one : ℕ → ℕ → Table → Table
  reparent_one i j t = elim (get_elem? t.procs j) [
    | none ↦ t
    | some pp ↦
        if is_parent i pp
        then wakeup (address t.initproc) i (change j (λ p. record p { parent = some t.initproc }) t)
        else t
  ]

  unfoldable pub reparent_loop : ℕ → ℕ → ℕ → Table → Table
  reparent_loop zero i j t = t
  reparent_loop (suc n) i j t = reparent_loop n i (j + 1) (reparent_one i j t)

  unfoldable pub reparent : ℕ → Table → Table
  reparent i t = reparent_loop (length t.procs) i 0 t

  abbrev pub parent_address : List Proc → ℕ → ℕ
  parent_address ps i = elim (get_elem? ps i) [
    | none ↦ 0
    | some p ↦ elim p.parent [ none ↦ 0 | some j ↦ address j ]
  ]

  -- `exit` from `reparent` on, up to its call of `sched`; `none` is `panic("init exiting")`.
  unfoldable pub exit : ℕ → ℕ → Table → Option Table
  exit status i t =
      if i == t.initproc
      then none
      else (let t1 = reparent i t in
          let t2 = wakeup (parent_address t1.procs i) i t1 in
          some (change i (λ p. record p { xstate = status; state = zombie }) t2))

  -- One pass of `wait`: the first child that is a zombie is freed, unless its status is wanted and
  -- cannot be copied out.
  unfoldable pub wait_pass : Bool → Bool → ℕ → Table → Waited × Table
  wait_pass wants_status copyout i t =
      elim (find_from (λ p. is_parent i p && is_zombie p.state) 0 t.procs) [
        | none ↦
            if not (is_some (find_from (is_parent i) 0 t.procs)) || is_killed i t
            then (failed, t)
            else (asleep, sleep (address i) i t)
        | some j ↦ if wants_status && not copyout then (failed, t) else elim (get_elem? t.procs j) [
          | none ↦ (failed, t)
          | some pp ↦ (reaped pp.pid pp.xstate, change j freeproc t)
        ]
      ]
