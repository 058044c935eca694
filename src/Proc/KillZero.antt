-- ===== src/Proc/KillZero.antt =====
-- A call of kill of kernel/proc.c with pid 0, which is the pid of every unused entry.
use fyp_os.Prelude.{
  ℕ, zero, suc, ◌+◌, ◌-◌, ◌%◌, ◌^◌, ◌≡◌, refl, ◌∙◌, sym, Bool, true, some, List, [], ◌∷◌, arith,
  get_elem?, find_from, find_from-some, modify,
}
use fyp_os.Proc.{Proc, Table, used, is_unused, kill, kill_one, change, allocproc}
use fyp_os.Proc.Wakeup.{get_elem?-change, named, kill_found}
use fyp_os.Proc.Pids.{IsSound}
use fyp_os.Proc.Life.{allocproc-some, with_pid}

find_from_same :
    (test test' : Proc → Bool) (i : ℕ) (xs : List Proc)
    → ((j : ℕ) (a : Proc) → get_elem? xs j ≡ some a → test a ≡ test' a)
    → find_from test i xs ≡ find_from test' i xs
unfolding find_from
find_from_same test test' i [] h = refl
find_from_same test test' i (x ∷ xs) h =
    ground (arith, h 0 x, find_from_same test test' (i + 1) xs (λ j a at. h (suc j) a at))

find_from-modify :
    (test : Proc → Bool) (f : Proc → Proc) (k i : ℕ) (xs : List Proc)
    → ((a : Proc) → test (f a) ≡ test a)
    → find_from test k (modify xs i f) ≡ find_from test k xs
unfolding find_from modify
find_from-modify test f k i [] h = refl
find_from-modify test f k zero (x ∷ xs) h = ground (arith, h x)
find_from-modify test f k (suc i) (x ∷ xs) h =
    ground (arith, find_from-modify test f (k + 1) i xs h)

unused_of_kill : (p : Proc) → is_unused (kill_one p).state ≡ is_unused p.state
unused_of_kill p = ground arith

-- In a sound table with an unused entry, a `kill` of pid 0 returns 0, and the next process that
-- `allocproc` makes is born with its flag `killed` set.
pub kill-allocproc :
    (t : Table) (i : ℕ)
    → IsSound t
    → find_from (λ p. is_unused p.state) 0 t.procs ≡ some i
    → ((kill 0 t).0 ≡ true)
      × ((allocproc true true (kill 0 t).1).0 ≡ some i)
      × (p : Proc) × (get_elem? (allocproc true true (kill 0 t).1).1.procs i ≡ some p)
      × (p.killed ≡ true)
      × (p.state ≡ used)
kill-allocproc t i s found =
    let test : Proc → Bool = λ p. is_unused p.state in
    let zero_pid : find_from (named 0) 0 t.procs ≡ some i =
      find_from_same (named 0) test 0 t.procs (λ j a at. sym (s.unused_zero j a at)) ∙ found in
    let t1 = change i kill_one t in
    let found' : find_from test 0 t1.procs ≡ some i =
      find_from-modify test kill_one 0 i t.procs unused_of_kill ∙ found in
    let (p, le, at, hit) = find_from-some test 0 i t.procs found in
    let z : i - 0 ≡ i = omega arith in
    let at' = rw z at at in
    rw (kill_found 0 i t zero_pid, allocproc-some true true i t1 found')
      (
        refl,
        refl,
        record (kill_one p) { pid = t.nextpid; state = used; trapframe = true; pagetable = true },
        ground (
          arith,
          at',
          get_elem?-change i i kill_one t,
          get_elem?-change i i (λ q. record q { pagetable = true }) (with_pid true i t1),
          get_elem?-change i i (λ q. record q { pid = t1.nextpid; state = used; trapframe = true })
              (record t1 { nextpid = (t1.nextpid + 1) % 2 ^ 32 }),
        ),
        refl,
        refl,
      )
