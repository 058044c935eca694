-- ===== src/Pipe/Transfer.antt =====
-- pipewrite and piperead of kernel/pipe.c against the queue of the pipe's bytes.
use fyp_os.Prelude.{
  ℕ, zero, suc, ◌+◌, ◌%◌, ◌≡◌, ◌≢◌, refl, ap, sym, ◌∙◌, Bool, true, false, ◌&&◌, ◌⊎◌, Option, none,
  some, List, [], ◌∷◌, ◌++◌, arith, length, min, ◌==◌, if◌then◌else◌, Bool-cases, Option-cases, inl,
  inr,
}
use mathlib.Core.List.{append_assoc, append-nil}
use fyp_os.Pipe.{
  Pipe, pipesize, put, take_one, full, Outcome, returned, sleeps, pipewrite, piperead_copy,
  piperead,
}
use fyp_os.Pipe.Queue.{
  used, IsValid, contents, length-contents, full_iff_used, put-IsValid, used-put, contents-put,
  take_one-IsValid, used-take_one, contents-take_one,
}

module _ (copyin : ℕ → Option ℕ) where
  -- The bytes that a writer of `n` bytes, from index `i` on, gets into a ring with `room` free
  -- places: up to the first that it cannot read from its memory.
  abbrev pub accepted : ℕ → ℕ → ℕ → List ℕ
  accepted zero room i = []
  accepted (suc n) zero i = []
  accepted (suc n) (suc room) i = elim (copyin i) [
    | none ↦ []
    | some ch ↦ ch ∷ accepted n room (i + 1)
  ]

  -- How the writer stops after `k` of `n` bytes.
  abbrev pub ending : ℕ → ℕ → ℕ → ℕ → Outcome
  ending n i room k =
      if k == n
      then returned (some (i + k))
      else if k == room
      then sleeps (i + k)
      else returned (some (i + k))

  accepted-none : (n room i : ℕ) → copyin i ≡ none → accepted (suc n) (suc room) i ≡ []
  accepted-none n room i e = ground arith

  accepted-some :
      (n room i ch : ℕ)
      → copyin i ≡ some ch
      → accepted (suc n) (suc room) i ≡ ch ∷ accepted n room (i + 1)
  accepted-some n room i ch e = ground arith

  pub record Wrote (n i room : ℕ) (pi : Pipe) (out : Outcome × Pipe) : Type 0 where
    pub valid : IsValid out.1
    pub queue : contents out.1 ≡ contents pi ++ accepted n room i
    pub result : out.0 ≡ ending n i room (length (accepted n room i))

  pipewrite_step :
      (n i : ℕ) (pi : Pipe) (ch : ℕ)
      → pi.readopen ≡ true
      → full pi ≡ false
      → copyin i ≡ some ch
      → pipewrite copyin false (suc n) i pi ≡ pipewrite copyin false n (i + 1) (put ch pi)
  unfolding pipewrite
  pipewrite_step n i pi ch open' room e = ground arith

  pipewrite-full :
      (n i : ℕ) (pi : Pipe)
      → pi.readopen ≡ true
      → full pi ≡ true
      → pipewrite copyin false (suc n) i pi ≡ (sleeps i, pi)
  unfolding pipewrite
  pipewrite-full n i pi open' room = ground arith

  pipewrite_fault :
      (n i : ℕ) (pi : Pipe)
      → pi.readopen ≡ true
      → full pi ≡ false
      → copyin i ≡ none
      → pipewrite copyin false (suc n) i pi ≡ (returned (some i), pi)
  unfolding pipewrite
  pipewrite_fault n i pi open' room e = ground arith

  -- A writer that is not killed and whose reader is there appends the bytes that it can read from
  -- its memory, in order, until all are written or the ring is full, and then returns their number
  -- or sleeps.
  pub pipewrite-Wrote :
      (n i room : ℕ) (pi : Pipe)
      → IsValid pi
      → pi.readopen ≡ true
      → room + used pi ≡ pipesize
      → Wrote n i room pi (pipewrite copyin false n i pi)
  pipewrite-Wrote zero i room pi v o e =
      unfold pipewrite in
      record { valid = v; queue = sym (append-nil (contents pi)); result = ground arith }
  pipewrite-Wrote (suc n) i zero pi v o e =
      rw (pipewrite-full n i pi o (ground (arith, full_iff_used pi v)))
        (record { valid = v; queue = sym (append-nil (contents pi)); result = ground arith })
  pipewrite-Wrote (suc n) i (suc room) pi v o e =
      let f : full pi ≡ false = ground (arith, full_iff_used pi v) in
      elim (Option-cases (copyin i)) [
        | inl stop ↦ rw (pipewrite_fault n i pi o f stop) (record {
          valid = v;
          queue = rw (accepted-none n room i stop) (sym (append-nil (contents pi)));
          result = rw (accepted-none n room i stop) (ground arith);
        })
        | inr (ch, got) ↦
            let rest =
              pipewrite-Wrote n (i + 1) room (put ch pi) (put-IsValid ch pi v (omega arith))
                (unfold put in o) (omega (arith, used-put ch pi v (omega arith))) in
            rw (pipewrite_step n i pi ch o f got) (record {
              valid = rest.valid;
              queue = rw (accepted-some n room i ch got) (
                  rest.queue
                  ∙ ap (λ q. q ++ accepted n room (i + 1)) (contents-put ch pi v (omega arith))
                  ∙ append_assoc (contents pi) (ch ∷ []) (accepted n room (i + 1)));
              result = rw (accepted-some n room i ch got) (rest.result ∙ ground arith);
            })
      ]

module _ (copyout : ℕ → Bool) (works : (i : ℕ) → copyout i ≡ true) where
  piperead_copy_step :
      (n i : ℕ) (pi : Pipe)
      → (pi.nread == pi.nwrite) ≡ false
      → let (out, i', pi') = piperead_copy copyout n (i + 1) (take_one pi) in
        piperead_copy copyout (suc n) i pi ≡ (pi.bytes (pi.nread % pipesize) ∷ out, i', pi')
  unfolding piperead_copy
  piperead_copy_step n i pi some' = ground (arith, works i)

  pub record Read (n i : ℕ) (pi : Pipe) (r : List ℕ × ℕ × Pipe) : Type 0 where
    pub valid : IsValid r.2
    pub fifo : contents pi ≡ r.0 ++ contents r.2
    pub count : length r.0 ≡ min n (used pi)
    pub index : r.1 ≡ i + length r.0

  piperead_copy-Read :
      (n i : ℕ) (pi : Pipe) → IsValid pi → Read n i pi (piperead_copy copyout n i pi)
  piperead_copy-Read zero i pi v =
      unfold piperead_copy in
      record { valid = v; fifo = refl; count = omega arith; index = omega arith }
  piperead_copy-Read (suc n) i pi v = elim (Bool-cases (pi.nread == pi.nwrite)) [
    | inl none' ↦
        let e : used pi ≡ 0 = ground arith in
        unfold piperead_copy in
        rw none' (record { valid = v; fifo = refl; count = omega arith; index = omega arith })
    | inr some' ↦
        let ne : used pi ≢ 0 = ground (arith, v.read_word, v.write_word) in
        let rest = piperead_copy-Read n (i + 1) (take_one pi) (take_one-IsValid pi v ne) in
        rw (piperead_copy_step n i pi some') (record {
          valid = rest.valid;
          fifo = contents-take_one pi v ne ∙ ap (λ q. pi.bytes (pi.nread % pipesize) ∷ q) rest.fifo;
          count = omega (arith, rest.count, used-take_one pi v ne);
          index = omega (arith, rest.index);
        })
  ]

  -- Where every copy to the reader's memory works and the pipe has a byte or has lost its writer,
  -- `piperead` hands over the oldest bytes of the pipe in order, as many as are there and asked for,
  -- leaves the rest in order and returns their number.
  pub piperead_fifo :
      (killed : Bool) (n : ℕ) (pi : Pipe)
      → IsValid pi
      → (used pi ≢ 0) ⊎ (pi.writeopen ≡ false)
      → let (o, out, pi') = piperead copyout killed n pi in
        (contents pi ≡ out ++ contents pi')
        × IsValid pi'
        × (length out ≡ min n (used pi))
        × (o ≡ returned (some (length out)))
  unfolding piperead
  piperead_fifo killed n pi v h =
      let r = piperead_copy-Read n 0 pi v in
      let go : (pi.nread == pi.nwrite && pi.writeopen) ≡ false =
        ground (arith, v.read_word, v.write_word) in
      rw go (r.fifo, r.valid, r.count, ap (λ k. returned (some k)) (omega (arith, r.index)))

-- An empty pipe with a writer makes the reader sleep, or fail if it is killed, and stays as it is.
pub piperead_waits :
    (copyout : ℕ → Bool) (killed : Bool) (n : ℕ) (pi : Pipe)
    → IsValid pi
    → contents pi ≡ []
    → pi.writeopen ≡ true
    → piperead copyout killed n pi ≡ ((if killed then returned none else sleeps 0), [], pi)
unfolding piperead
piperead_waits copyout killed n pi v none' open' =
    let e : used pi ≡ 0 = omega (arith, ap length none', length-contents pi) in
    ground (arith, v.read_word, v.write_word)
