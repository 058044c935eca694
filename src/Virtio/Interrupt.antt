-- ===== src/Virtio/Interrupt.antt =====
-- What the interrupt handler of kernel/virtio_disk.c does with the requests that the device has ended.
use fyp_os.Prelude.{
  ℕ, zero, suc, ◌+◌, ◌%◌, ◌^◌, ◌<◌, ◌≤◌, ◌≡◌, refl, sym, ap, ◌∙◌, true, false, some, write, ◌==◌,
  arith, eq→==, ne→==,
}
use fyp_os.Virtio.{Driver, num, intr_loop, virtio_disk_intr}

module _ (ids bufs : ℕ → ℕ) where
  -- The `m` entries of the used ring from the driver's index on name requests that have succeeded, for
  -- the buffers that `bufs` has at their slots.
  abbrev pub Succeeded : ℕ → Driver → Type 0
  Succeeded m d =
      (j : ℕ)
      → j < m
      → ((d.info (ids ((d.used_idx + j) % 2 ^ 16 % num))).status ≡ 0)
        × ((d.info (ids ((d.used_idx + j) % 2 ^ 16 % num))).buf
            ≡ some (bufs ((d.used_idx + j) % 2 ^ 16 % num)))

  -- The buffers of `m` entries from the driver's index on are done with, the others wait as before.
  pub record Handled (m : ℕ) (d d' : Driver) : Type 0 where
    pub reached : d'.used_idx ≡ (d.used_idx + m) % 2 ^ 16
    pub ended : (j : ℕ) → j < m → d'.pending (bufs ((d.used_idx + j) % 2 ^ 16 % num)) ≡ false
    pub others :
        (b : ℕ)
        → ((j : ℕ) → j < m → (bufs ((d.used_idx + j) % 2 ^ 16 % num) == b) ≡ false)
        → d'.pending b ≡ d.pending b
    pub kept : (b : ℕ) → d.pending b ≡ false → d'.pending b ≡ false
    pub same_free : d'.free ≡ d.free
    pub same_desc : d'.desc ≡ d.desc

  stops : (k used : ℕ) (d : Driver) → (d.used_idx == used) ≡ true → intr_loop k ids used d ≡ some d
  unfolding intr_loop
  stops zero used d e = refl
  stops (suc k) used d e = rw e refl

  -- The driver after the first entry of the used ring.
  abbrev handled_one : Driver → Driver
  handled_one d = record d {
    pending = write d.pending (bufs (d.used_idx % num)) false;
    used_idx = (d.used_idx + 1) % 2 ^ 16;
  }

  later : (u j : ℕ) → ((u + 1) % 2 ^ 16 + j) % 2 ^ 16 % num ≡ (u + suc j) % 2 ^ 16 % num
  later u j = ap (λ x. x % num) (omega arith)

  first : (u : ℕ) → u < 2 ^ 16 → (u + 0) % 2 ^ 16 % num ≡ u % num
  first u lt = ap (λ x. x % num) (omega arith)

  step-Handled :
      (m : ℕ) (d d' : Driver)
      → d.used_idx < 2 ^ 16
      → Handled m (handled_one d) d'
      → Handled (suc m) d d'
  step-Handled m d d' small h =
      let cleared : d'.pending (bufs (d.used_idx % num)) ≡ false =
        h.kept _ (rw (eq→== (bufs (d.used_idx % num)) _ refl) refl) in
      record {
        reached = h.reached ∙ omega arith;
        ended = λ j lt. ended_at j lt cleared;
        others = λ b f.
            h.others b (λ j lt. rw (later d.used_idx j) (f (suc j) (omega arith)))
            ∙ missed b (rw (first d.used_idx small) at (f 0 (omega arith)));
        kept = λ b e. h.kept b (still b e);
        same_free = h.same_free;
        same_desc = h.same_desc;
      }
    where
      ended_at :
          (j : ℕ)
          → j < suc m
          → d'.pending (bufs (d.used_idx % num)) ≡ false
          → d'.pending (bufs ((d.used_idx + j) % 2 ^ 16 % num)) ≡ false
      ended_at zero lt cleared = rw (first d.used_idx small) cleared
      ended_at (suc j) lt cleared = rw (sym (later d.used_idx j)) (h.ended j (omega arith))

      missed :
          (b : ℕ) → (bufs (d.used_idx % num) == b) ≡ false → (handled_one d).pending b ≡ d.pending b
      missed b ne = rw ne refl

      still : (b : ℕ) → d.pending b ≡ false → (handled_one d).pending b ≡ false
      still b e = ground (arith, e)

  intr_loop-Handled :
      (k m used : ℕ) (d : Driver)
      → m ≤ k
      → m < 2 ^ 16
      → d.used_idx < 2 ^ 16
      → used ≡ (d.used_idx + m) % 2 ^ 16
      → Succeeded m d
      → (d' : Driver) × (intr_loop k ids used d ≡ some d') × Handled m d d'
  unfolding intr_loop
  intr_loop-Handled k zero used d le lt small e ok =
      let stop : (d.used_idx == used) ≡ true = eq→== _ _ (omega (arith, e)) in
      (
        d,
        stops k used d stop,
        record {
          reached = omega arith;
          ended = λ j lt. absurd (omega (arith, lt));
          others = λ b f. refl;
          kept = λ b e. e;
          same_free = refl;
          same_desc = refl;
        },
      )
  intr_loop-Handled zero (suc m) used d le lt small e ok = absurd (omega (arith, le))
  intr_loop-Handled (suc k) (suc m) used d le lt small e ok =
      let slot = d.used_idx % num in
      let (good, buf) = rw (first d.used_idx small) at (ok 0 (omega arith)) in
      let ne : (d.used_idx == used) ≡ false = ne→== _ _ (λ same. absurd (omega (arith, e, same))) in
      let d1 : Driver = record d {
        pending = write d.pending (bufs slot) false;
        used_idx = (d.used_idx + 1) % 2 ^ 16;
      } in
      let (d', e', h) =
        intr_loop-Handled k m used d1 (omega arith) (omega arith) (omega arith) (omega (arith, e))
          (λ j below. rw (later d.used_idx j) (ok (suc j) (omega arith))) in
      (d', rw (ne, good, buf) e', step-Handled m d d' small h)

  -- Where the device has put `m` more entries in the used ring, fewer than 2 ^ 16, for requests that
  -- have succeeded, virtio_disk_intr ends without a panic. It has looked at all of them: it ends the wait
  -- of their buffers, also where an index wraps around, and of no others, and frees no descriptor.
  pub virtio_disk_intr-Handled :
      (m : ℕ) (d : Driver)
      → m < 2 ^ 16
      → d.used_idx < 2 ^ 16
      → Succeeded m d
      → (d' : Driver) × (virtio_disk_intr ids ((d.used_idx + m) % 2 ^ 16) d ≡ some d')
        × Handled m d d'
  unfolding virtio_disk_intr
  virtio_disk_intr-Handled m d lt small ok =
      intr_loop-Handled (2 ^ 16) m ((d.used_idx + m) % 2 ^ 16) d (omega arith) lt small refl ok
