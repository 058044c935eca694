-- ===== src/Sleeplock/Waiters.antt =====
-- Processes that share a lock of kernel/sleeplock.c, interleaved in any order.
use fyp_os.Prelude.{
  ℕ, ◌≡◌, ◌≢◌, refl, sym, ap, ◌∙◌, Bool, true, false, write, none, some, inl, inr, arith, get_elem?,
  ◌==◌, ◌&&◌, ◌||◌, eq→==, Bool-cases, Option-cases, ==→eq, ==→ne,
}
use fyp_os.Proc.{Proc, Table, sleep_return, is_sleeping, sleeping, running, wake, wakeup}
use fyp_os.Proc.Wakeup.{wakeup_exact}
use fyp_os.Sleeplock.{Sleeplock, initsleeplock, acquiresleep, acquiresleep_again, releasesleep}

-- The lock, the process table, and which entries have returned from acquiresleep and not called
-- releasesleep since.
pub record Waiters : Type 0 where
  pub lock : Sleeplock
  pub table : Table
  pub holds : ℕ → Bool

abbrev pub IsRunning : ℕ → Table → Type 0
IsRunning i t = (p : Proc) × (get_elem? t.procs i ≡ some p) × (p.state ≡ running)

abbrev pub SleepsOn : ℕ → ℕ → Table → Type 0
SleepsOn chan i t =
    (p : Proc) × (get_elem? t.procs i ≡ some p) × (p.state ≡ sleeping) × (p.chan ≡ chan)

abbrev pub acquired : ℕ → Bool × Sleeplock × Table → Waiters → Waiters
acquired i (got, lk, t) s = record {
  lock = lk;
  table = t;
  holds = write s.holds i (got || s.holds i);
}

-- A running process calls acquiresleep or takes it up again after a sleep, or the lock's holder calls
-- releasesleep; or the table changes in any way that puts no process to sleep on the lock.
pub data Step (chan : ℕ) (s : Waiters) : Waiters → Type 0 where
  acquire :
      (i : ℕ)
      → IsRunning i s.table
      → Step chan s (acquired i (acquiresleep chan i s.lock s.table) s)
  acquire_again :
      (i : ℕ)
      → IsRunning i s.table
      → Step chan s (acquired i (acquiresleep_again chan i s.lock s.table) s)
  release :
      (i : ℕ)
      → IsRunning i s.table
      → s.holds i ≡ true
      → Step chan s (record {
        lock = (releasesleep chan i s.lock s.table).0;
        table = (releasesleep chan i s.lock s.table).1;
        holds = write s.holds i false;
      })
  elsewhere :
      (t : Table)
      → ((j : ℕ) → SleepsOn chan j t → SleepsOn chan j s.table)
      → Step chan s (record s { table = t })

-- The lock as it is initialised, with no process asleep on it.
abbrev pub init : ℕ → ℕ → Table → Waiters
init inner name t = record { lock = initsleeplock inner name; table = t; holds = λ i. false }

pub data Reach (chan inner name : ℕ) (t : Table) : Waiters → Type 0 where
  start : ((j : ℕ) → ¬ SleepsOn chan j t) → Reach chan inner name t (init inner name t)
  later : {s u : Waiters} → Reach chan inner name t s → Step chan s u → Reach chan inner name t u

pub record Inv (chan : ℕ) (s : Waiters) : Type 0 where
  pub free : s.lock.locked ≡ 0 → (j : ℕ) → s.holds j ≡ false
  pub taken : s.lock.locked ≢ 0 → (j : ℕ) × (s.holds j ≡ true)
  pub unique : (j k : ℕ) → s.holds j ≡ true → s.holds k ≡ true → j ≡ k
  pub no_sleeper : s.lock.locked ≡ 0 → (j : ℕ) → ¬ SleepsOn chan j s.table

abbrev sleeps : ℕ → Proc → Bool
sleeps chan p = is_sleeping p.state && (p.chan == chan)

sleeps-wake :
    (chan me j : ℕ) (p : Proc) → sleeps chan (wake chan me j p) ≡ ((j == me) && sleeps chan p)
sleeps-wake chan me j p = elim (Bool-cases (j == me)) [
  | inl here ↦ rw here refl
  | inr other ↦ elim (Bool-cases (is_sleeping p.state)) [
    | inr awake ↦ rw (other, awake) (rw awake refl)
    | inl asleep ↦ elim (Bool-cases (p.chan == chan)) [
      | inl on ↦ rw (other, asleep, on) refl
      | inr off ↦ rw (other, asleep, off) (rw (asleep, off) refl)
    ]
  ]
]

SleepsOn-sleeps : (chan : ℕ) (p : Proc) → p.state ≡ sleeping → p.chan ≡ chan → sleeps chan p ≡ true
SleepsOn-sleeps chan p asleep on = rw (asleep, eq→== _ _ on) refl

-- After a wakeup by a running process no one sleeps on the channel.
wakeup-SleepsOn :
    (chan me j : ℕ) (t : Table) → IsRunning me t → ¬ SleepsOn chan j (wakeup chan me t)
wakeup-SleepsOn chan me j t (q, at_me, run) (p, at, asleep, on) =
    let entry = sym (wakeup_exact chan me j t) ∙ at in
    elim (Option-cases (get_elem? t.procs j)) [
      | inl none' ↦ let gone : none ≡ some p = rw none' at entry in absurd (cc gone)
      | inr (r, old) ↦
          let found : some (wake chan me j r) ≡ some p = rw old at entry in
          let same : wake chan me j r ≡ p = cc found in
          let still =
            sym (sleeps-wake chan me j r)
            ∙ (ap (sleeps chan) same ∙ SleepsOn-sleeps chan p asleep on) in
          elim (Bool-cases (j == me)) [
            | inl here ↦
                let is_me = ==→eq _ _ here in
                let mine : r ≡ q = cc (old, at_me, is_me) in
                let idle : sleeps chan r ≡ false = rw (mine, run) refl in
                let busy : sleeps chan r ≡ true = rw here at still in absurd (ground arith)
            | inr other ↦ let no' : false ≡ true = rw other at still in absurd (ground arith)
          ]
    ]

acquired-Inv :
    (chan i : ℕ) (s : Waiters) (t : Table)
    → Inv chan s
    → Inv chan (acquired i (acquiresleep chan i s.lock t) s)
unfolding acquiresleep
acquired-Inv chan i s t inv = elim (Bool-cases (s.lock.locked == 0)) [
  | inl z ↦
      let none' = inv.free (==→eq _ _ z) in
      let here : (j : ℕ) → write s.holds i true j ≡ true → j ≡ i = λ j own.
        elim (Bool-cases (i == j)) [
          | inl at ↦ sym (==→eq _ _ at)
          | inr other ↦ absurd (ground (arith, none' j))
        ] in
      rw z (record {
        free = λ e. absurd (omega arith);
        taken = λ e. (i, rw (eq→== i i refl) refl);
        unique = λ j k a b. here j a ∙ sym (here k b);
        no_sleeper = λ e. absurd (omega arith);
      })
  | inr nz ↦
      let ne = ==→ne _ _ nz in
      let same : (j : ℕ) → write s.holds i (s.holds i) j ≡ s.holds j = λ j.
        elim (Bool-cases (i == j)) [
          | inl at ↦ let e = ==→eq _ _ at in rw (at, e) refl
          | inr other ↦ rw other refl
        ] in
      rw nz (record {
        free = λ e. absurd (ne e);
        taken = λ e. let (j, own) = inv.taken ne in (j, same j ∙ own);
        unique = λ j k a b. inv.unique j k (sym (same j) ∙ a) (sym (same k) ∙ b);
        no_sleeper = λ e. absurd (ne e);
      })
]

Step-Inv : (chan : ℕ) (s u : Waiters) → Step chan s u → Inv chan s → Inv chan u
unfolding acquiresleep_again releasesleep
Step-Inv chan s u (acquire i run) inv = acquired-Inv chan i s s.table inv
Step-Inv chan s u (acquire_again i run) inv = acquired-Inv chan i s (sleep_return i s.table) inv
Step-Inv chan s u (release i run own) inv =
    let none' : (j : ℕ) → write s.holds i false j ≡ false = λ j. elim (Bool-cases (i == j)) [
      | inl at ↦ rw at refl
      | inr other ↦ elim (Bool-cases (s.holds j)) [
        | inl also ↦ absurd (==→ne _ _ other (inv.unique i j own also))
        | inr not' ↦ rw (other, not') refl
      ]
    ] in
    record {
      free = λ e. none';
      taken = λ e. absurd (e refl);
      unique = λ j k a b. absurd (ground (arith, none' j));
      no_sleeper = λ e j. wakeup-SleepsOn chan i j s.table run;
    }
Step-Inv chan s u (elsewhere t fewer) inv = record {
  free = inv.free;
  taken = inv.taken;
  unique = inv.unique;
  no_sleeper = λ e j asleep. inv.no_sleeper e j (fewer j asleep);
}

Reach-Inv : {chan inner name : ℕ} {t : Table} {s : Waiters} → Reach chan inner name t s → Inv chan s
unfolding initsleeplock
Reach-Inv (start nobody) = record {
  free = λ e j. refl;
  taken = λ e. absurd (e refl);
  unique = λ j k a b. absurd (ground arith);
  no_sleeper = λ e. nobody;
}
Reach-Inv (later {s = s} {u = u} r step) = Step-Inv _ s u step (Reach-Inv r)

-- However processes acquire, sleep, are woken and release, two never hold a sleep-lock at once.
pub sleep_exclusion :
    {chan inner name : ℕ} {t : Table} {s : Waiters}
    → Reach chan inner name t s
    → (i j : ℕ) → s.holds i ≡ true
    → s.holds j ≡ true
    → i ≡ j
sleep_exclusion r = (Reach-Inv r).unique

-- No wakeup of a sleep-lock is lost: whenever a process sleeps on the lock, some process holds it, whose
-- release will wake the sleeper.
pub no_lost_wakeup :
    {chan inner name : ℕ} {t : Table} {s : Waiters}
    → Reach chan inner name t s
    → (i : ℕ) → SleepsOn chan i s.table
    → (j : ℕ) × (s.holds j ≡ true)
      × (IsRunning j s.table → ¬ SleepsOn chan i (releasesleep chan j s.lock s.table).1)
unfolding releasesleep
no_lost_wakeup {chan} {s = s} r i asleep =
    let inv = Reach-Inv r in
    let (j, own) = inv.taken (λ e. inv.no_sleeper e i asleep) in
    (j, own, λ run. wakeup-SleepsOn chan j i s.table run)
