-- ===== src/Proc/Wakeup.antt =====
-- wakeup, sleep and kill of kernel/proc.c: who becomes runnable.
use fyp_os.Prelude.{
  ℕ, ◌≡◌, ◌≢◌, refl, ap, ◌∙◌, Bool, true, false, none, some, arith, get_elem?, map_option,
  find_from, get_elem?-map_from, get_elem?-modify, find_from-some, find_from-none, ◌==◌,
  if◌then◌else◌, ==→eq, ==→ne, ◌⊎◌, ◌-◌, Option-cases, inl, inr,
}
use fyp_os.Proc.{Proc, Table, sleeping, runnable, wake, wakeup, sleep, kill, kill_one, change}

-- The entry `j` after one entry is changed.
pub get_elem?-change :
    (i j : ℕ) (f : Proc → Proc) (t : Table)
    → get_elem? (change i f t).procs j
      ≡ (if i == j then map_option f (get_elem? t.procs j) else get_elem? t.procs j)
get_elem?-change i j f t = get_elem?-modify t.procs i j f

-- `wakeup` makes runnable exactly the processes other than the caller that sleep on the channel, and
-- changes nothing else of any process.
pub wakeup_exact :
    (chan me j : ℕ) (t : Table)
    → get_elem? (wakeup chan me t).procs j ≡ map_option (wake chan me j) (get_elem? t.procs j)
unfolding wakeup
wakeup_exact chan me j t =
    get_elem?-map_from (wake chan me) 0 t.procs j
    ∙ ap (λ k. map_option (wake chan me k) (get_elem? t.procs j)) (omega arith)

-- A process that went to sleep on a channel is runnable after a wakeup of that channel by another
-- process, and keeps all its other fields.
pub sleep-wakeup :
    (chan i me : ℕ) (t : Table) {p : Proc}
    → get_elem? t.procs i ≡ some p
    → i ≢ me
    → get_elem? (wakeup chan me (sleep chan i t)).procs i
      ≡ some (record p { chan = chan; state = runnable })
unfolding sleep
sleep-wakeup chan i me t {p} at ne =
    let slept = get_elem?-change i i (λ q. record q { chan = chan; state = sleeping }) t in
    wakeup_exact chan me i _ ∙ ap (map_option (wake chan me i)) slept ∙ ground (arith, at, ne)

abbrev pub named : ℕ → Proc → Bool
named pid p = p.pid == pid

pub kill_found :
    (pid i : ℕ) (t : Table)
    → find_from (named pid) 0 t.procs ≡ some i
    → kill pid t ≡ (true, change i kill_one t)
unfolding kill
kill_found pid i t e = rw (e, kill)

pub kill_missing :
    (pid : ℕ) (t : Table) → find_from (named pid) 0 t.procs ≡ none → kill pid t ≡ (false, t)
unfolding kill
kill_missing pid t e = rw (e, kill)

-- What `kill` does when it succeeds: one entry with the pid is marked as killed and, if it sleeps,
-- made runnable; no other entry changes.
pub record Killed (pid : ℕ) (t t' : Table) : Type 0 where
  pub index : ℕ
  pub victim : Proc
  pub at : get_elem? t.procs index ≡ some victim
  pub named : victim.pid ≡ pid
  pub marked : get_elem? t'.procs index ≡ some (kill_one victim)
  pub others : (j : ℕ) → index ≢ j → get_elem? t'.procs j ≡ get_elem? t.procs j

found-Killed :
    (pid i : ℕ) (t : Table)
    → find_from (named pid) 0 t.procs ≡ some i
    → Killed pid t (change i kill_one t)
found-Killed pid i t e =
    let (p, le, at, hit) = find_from-some (named pid) 0 i t.procs e in
    let z : i - 0 ≡ i = omega arith in
    let at' = rw z at at in
    record {
      index = i;
      victim = p;
      at = at';
      named = ==→eq _ _ hit;
      marked = get_elem?-change i i kill_one t ∙ ground (arith, at');
      others = λ j ne. get_elem?-change i j kill_one t ∙ ground (arith, ne);
    }

-- `kill` either returns 0, marks one entry with the pid as killed, makes it runnable if it sleeps
-- and changes no other; or no entry has the pid, and it returns -1 and changes nothing.
pub kill_lem :
    (pid : ℕ) (t : Table)
    → (((kill pid t).0 ≡ true) × Killed pid t (kill pid t).1)
      ⊎ (kill pid t ≡ (false, t))
        × ((j : ℕ) (p : Proc) → get_elem? t.procs j ≡ some p → p.pid ≢ pid)
kill_lem pid t = elim (Option-cases (find_from (named pid) 0 t.procs)) [
  | inl none' ↦ inr (
    kill_missing pid t none',
    λ j p at. ==→ne _ _ (find_from-none (named pid) 0 j t.procs none' at),
  )
  | inr (i, found) ↦ rw (kill_found pid i t found) (inl (refl, found-Killed pid i t found))
]
