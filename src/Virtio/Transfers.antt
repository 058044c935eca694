-- ===== src/Virtio/Transfers.antt =====
-- A request of kernel/virtio_disk.c from its start to its end: no descriptor is lost or freed twice.
use fyp_os.Prelude.{
  ℕ, suc, ◌+◌, ◌%◌, ◌≡◌, ◌⊎◌, inl, inr, refl, ◌∙◌, Bool, true, false, none, some, List, [], ◌∷◌,
  ◌++◌, write, ltb, ◌==◌, if◌then◌else◌, arith, eq→==, length,
}
use fyp_os.Virtio.{
  Desc, Driver, Layout, num, alloc3_desc, free_desc, free_chain, format, virtio_disk_rw,
  virtio_disk_rw_done,
}
use fyp_os.Virtio.Owned.{
  Chain, IsLinked, Linked, IsOwned, one_if, count, uses, parts, Linked-write, free_desc-IsOwned,
  alloc_more-IsOwned,
}

-- What is held is unused elsewhere and held once.
held_apart :
    (i : ℕ) (held : List ℕ) (chains : List Chain) (d : Driver)
    → IsOwned (i ∷ held) chains d
    → (count i held ≡ 0) × (uses i chains ≡ 0)
held_apart i held chains d ok =
    apart (d.free i) (ltb i num) _ _ (rw (eq→== i i refl) at (ok.counted i))
  where
    apart :
        (free inside : Bool) (h u : ℕ)
        → one_if free + (1 + h) + u ≡ one_if inside
        → (h ≡ 0) × (u ≡ 0)
    apart true true h u e = (omega (arith, e), omega (arith, e))
    apart true false h u e = (omega (arith, e), omega (arith, e))
    apart false true h u e = (omega (arith, e), omega (arith, e))
    apart false false h u e = (omega (arith, e), omega (arith, e))

miss : (x : Bool) (k : ℕ) → one_if x + k ≡ 0 → x ≡ false
miss true k e = absurd (omega (arith, e))
miss false k e = refl

flip : (a b : ℕ) → (a == b) ≡ false → (b == a) ≡ false
flip a b h = ground arith

odd : (x : Bool) → ((if x then 0 else 2) + 1) % 2 ≡ 1
odd true = refl
odd false = refl

-- The order of what is held does not matter.
swap_held :
    {i j : ℕ} {held : List ℕ} {chains : List Chain} {d : Driver}
    → IsOwned (i ∷ j ∷ held) chains d
    → IsOwned (j ∷ i ∷ held) chains d
swap_held ok = record { counted = λ k. omega (arith, ok.counted k); linked = ok.linked }

-- What a request is when it is started.
pub record Started (b : ℕ) (chains : List Chain) (c : Chain) (d : Driver) : Type 0 where
  pub owned : IsOwned [] (c ∷ chains) d
  pub waits : d.pending b ≡ true
  pub recorded : (d.info c.head).buf ≡ some b

module _ (at : Layout) (b blockno : ℕ) (writes : Bool) where
  format-Started :
      (idx : List ℕ) (chains : List Chain) (d : Driver)
      → length idx ≡ 3
      → IsOwned idx chains d
      → (c : Chain) × (d' : Driver) × (format at b blockno writes idx d ≡ some (some c.head, d'))
        × Started b chains c d'
  unfolding format
  format-Started [] chains d len ok = absurd (omega (arith, len))
  format-Started (i0 ∷ []) chains d len ok = absurd (omega (arith, len))
  format-Started (i0 ∷ i1 ∷ []) chains d len ok = absurd (omega (arith, len))
  format-Started (i0 ∷ i1 ∷ i2 ∷ i3 ∷ is) chains d len ok = absurd (omega (arith, len))
  format-Started (i0 ∷ i1 ∷ i2 ∷ []) chains d len ok =
      let (z0, u0) = held_apart i0 (i1 ∷ i2 ∷ []) chains d ok in
      let (z1, u1) = held_apart i1 (i0 ∷ i2 ∷ []) chains d (swap_held ok) in
      let (z2, u2) =
        held_apart i2 (i0 ∷ i1 ∷ []) chains d
          (record { counted = λ k. omega (arith, ok.counted k); linked = ok.linked }) in
      let n01 : (i1 == i0) ≡ false = miss _ _ z0 in
      let n02 : (i2 == i0) ≡ false = miss _ (one_if (i1 == i0)) (omega (arith, z0)) in
      let n12 : (i2 == i1) ≡ false = miss _ (one_if (i0 == i1)) (omega (arith, z1)) in
      let h0 = eq→== i0 i0 refl in
      let h1 = eq→== i1 i1 refl in
      let h2 = eq→== i2 i2 refl in
      (
        record { head = i0; middle = i1; last = i2 },
        _,
        refl,
        record {
          owned = record {
            counted = λ i. omega (arith, ok.counted i);
            linked = (
              record {
                first_flags = rw (n02, n01, h0) refl;
                first_next = rw (n02, n01, h0) refl;
                middle_flags = rw (n12, h1) (odd writes);
                middle_next = rw (n12, h1) refl;
                last_flags = rw h2 refl;
              },
              Linked-write _ chains i2 _ u2
                  (Linked-write _ chains i1 _ u1 (Linked-write _ chains i0 _ u0 ok.linked)),
            );
          };
          waits = rw (eq→== b b refl) refl;
          recorded = rw (eq→== i0 i0 refl) refl;
        },
      )

  -- Where each descriptor is free or in one request, virtio_disk_rw does not panic. It starts a request
  -- of its own for the buffer, whose three descriptors were free, and each is still free or in one
  -- request; or it sleeps, each descriptor is as free as it was, and all requests stay.
  pub virtio_disk_rw-Started :
      (chains : List Chain) (d : Driver)
      → IsOwned [] chains d
      → ((d' : Driver) × (virtio_disk_rw at b blockno writes d ≡ some (none, d'))
          × IsOwned [] chains d')
        ⊎ ((c : Chain) × (d' : Driver) × (virtio_disk_rw at b blockno writes d
              ≡ some (some c.head, d'))
            × Started b chains c d')
  unfolding virtio_disk_rw alloc3_desc
  virtio_disk_rw-Started chains d ok = elim (alloc_more-IsOwned 3 [] chains d ok) [
    | inl (d', e, ok') ↦ inl (d', rw e refl, ok')
    | inr (idx, d1, e, len, ok1) ↦
        let (c, d', e', started) = format-Started idx chains d1 len ok1 in
        inr (c, d', rw e e', started)
  ]

-- A chain in the middle of the requests.
uses-append : (i : ℕ) (xs ys : List Chain) → uses i (xs ++ ys) ≡ uses i xs + uses i ys
uses-append i [] ys = omega arith
uses-append i (c ∷ xs) ys = omega (arith, uses-append i xs ys)

Linked-middle :
    (desc : ℕ → Desc) (xs : List Chain) (c : Chain) (ys : List Chain)
    → Linked desc (xs ++ (c ∷ ys))
    → IsLinked desc c × Linked desc (xs ++ ys)
Linked-middle desc [] c ys ok = ok
Linked-middle desc (x ∷ xs) c ys (one, more) =
    let (here, rest) = Linked-middle desc xs c ys more in (here, (one, rest))

chain_next :
    (k i j : ℕ) (d d' : Driver)
    → free_desc i d ≡ some d'
    → (d.desc i).flags % 2 ≡ 1
    → (d.desc i).next ≡ j
    → free_chain (suc k) i d ≡ free_chain k j d'
unfolding free_chain
chain_next k i j d d' e flag next = rw (e, flag, next) refl

chain_last :
    (k i : ℕ) (d d' : Driver)
    → free_desc i d ≡ some d'
    → (d.desc i).flags % 2 ≡ 0
    → free_chain (suc k) i d ≡ some d'
unfolding free_chain
chain_last k i d d' e flag = rw (e, flag) refl

-- `free_chain` of a request in flight.
free_chain-IsOwned :
    (c : Chain) (chains : List Chain) (d : Driver)
    → IsLinked d.desc c
    → IsOwned (parts c) chains d
    → (d' : Driver) × (free_chain num c.head d ≡ some d') × IsOwned [] chains d'
free_chain-IsOwned c chains d link ok =
    let (z0, u0) = held_apart c.head (c.middle ∷ c.last ∷ []) chains d ok in
    let (e0, ok0) = free_desc-IsOwned c.head (c.middle ∷ c.last ∷ []) chains d ok in
    let (z1, u1) = held_apart c.middle (c.last ∷ []) chains _ ok0 in
    let (e1, ok1) = free_desc-IsOwned c.middle (c.last ∷ []) chains _ ok0 in
    let (e2, ok2) = free_desc-IsOwned c.last [] chains _ ok1 in
    let n01 : (c.head == c.middle) ≡ false = flip c.middle c.head (miss _ _ z0) in
    let n02 : (c.head == c.last) ≡ false =
      flip c.last c.head (miss _ (one_if (c.middle == c.head)) (omega (arith, z0))) in
    let n12 : (c.middle == c.last) ≡ false = flip c.last c.middle (miss _ _ z1) in
    (
      _,
      chain_next 7 c.head c.middle d _ e0 link.first_flags link.first_next
          ∙ chain_next 6 c.middle c.last _ _ e1 (rw n01 link.middle_flags) (rw n01 link.middle_next)
          ∙ chain_last 5 c.last _ _ e2 (rw (n12, n02) link.last_flags),
      ok2,
    )

-- Where each descriptor is free or in one request, the end of virtio_disk_rw for a request that is in
-- flight and whose buffer the device is done with does not panic. It frees the descriptors of the
-- request, and each descriptor is still free or in one of the other requests.
pub virtio_disk_rw_done-IsOwned :
    (b : ℕ) (c : Chain) (before after : List Chain) (d : Driver)
    → IsOwned [] (before ++ (c ∷ after)) d
    → d.pending b ≡ false
    → (d' : Driver) × (virtio_disk_rw_done b c.head d ≡ some (true, d'))
      × IsOwned [] (before ++ after) d'
unfolding virtio_disk_rw_done
virtio_disk_rw_done-IsOwned b c before after d ok ended =
    let (link, rest) = Linked-middle d.desc before c after ok.linked in
    let held : IsOwned (parts c) (before ++ after) d = record {
      counted = λ i.
          omega (arith, ok.counted i, uses-append i before (c ∷ after), uses-append i before after);
      linked = rest;
    } in
    let d1 : Driver = record d {
      info = write d.info c.head (record (d.info c.head) { buf = none });
    } in
    let (d', e, ok') =
      free_chain-IsOwned c (before ++ after) d1 link
        (record { counted = held.counted; linked = rest }) in
    (d', rw (ended, e) refl, ok')
