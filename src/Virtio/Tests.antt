-- ===== src/Virtio/Tests.antt =====
-- The queue of the disk with one request in flight.
use fyp_os.Prelude.{
  ℕ, ◌+◌, ◌%◌, ◌^◌, ◌≡◌, ◌⊎◌, refl, true, false, not, none, some, [], ◌∷◌, ltb, ◌==◌, if◌then◌else◌,
  ◌&&◌, arith,
}
use fyp_os.Virtio.{
  Driver, Layout, num, no_desc, virtio_disk_intr, virtio_disk_rw, virtio_disk_rw_done,
}
use fyp_os.Virtio.Owned.{Chain, IsOwned}
use fyp_os.Virtio.Interrupt.{Handled, virtio_disk_intr-Handled}
use fyp_os.Virtio.Transfers.{Started, virtio_disk_rw-Started, virtio_disk_rw_done-IsOwned}

abbrev layout : Layout
layout = record { ops_at = λ i. 4096 + i; status_at = λ i. 8192 + i; data_at = λ b. 12288 + b }

abbrev one_request : Chain
one_request = record { head = 2; middle = 0; last = 5 }

abbrev busy : Driver
busy = record {
  desc = λ i.
      if i == 2
      then record { addr = 4098; len = 16; flags = 1; next = 0 }
      else if i == 0
      then record { addr = 12288; len = 1024; flags = 3; next = 5 }
      else if i == 5
      then record { addr = 8194; len = 1; flags = 2; next = 0 }
      else no_desc;
  avail_idx = 1;
  avail_ring = λ i. 2;
  free = λ i. ltb i num && not (i == 2) && not (i == 0) && not (i == 5);
  used_idx = 1;
  info = λ i. record { buf = if i == 2 then some 0 else none; status = 0 };
  ops = λ i. record { kind = 0; reserved = 0; sector = 0 };
  pending = λ b. false;
}

busy-IsOwned : IsOwned [] (one_request ∷ []) busy
busy-IsOwned = record {
  counted = λ i. ground arith;
  linked = (
    record {
      first_flags = refl;
      first_next = refl;
      middle_flags = refl;
      middle_next = refl;
      last_flags = refl;
    },
    tt,
  );
}

virtio_disk_rw-Started_example :
    ((d' : Driver) × (virtio_disk_rw layout 1 7 true busy ≡ some (none, d'))
      × IsOwned [] (one_request ∷ []) d')
    ⊎ ((c : Chain) × (d' : Driver) × (virtio_disk_rw layout 1 7 true busy ≡ some (some c.head, d'))
        × Started 1 (one_request ∷ []) c d')
virtio_disk_rw-Started_example =
    virtio_disk_rw-Started layout 1 7 true (one_request ∷ []) busy busy-IsOwned

virtio_disk_rw_done-IsOwned_example :
    (d' : Driver) × (virtio_disk_rw_done 0 2 busy ≡ some (true, d')) × IsOwned [] [] d'
virtio_disk_rw_done-IsOwned_example =
    virtio_disk_rw_done-IsOwned 0 one_request [] [] busy busy-IsOwned refl

abbrev two : ℕ → ℕ
two i = 2

abbrev zeros : ℕ → ℕ
zeros i = 0

virtio_disk_intr-Handled_example :
    (d' : Driver) × (virtio_disk_intr two ((1 + 1) % 2 ^ 16) busy ≡ some d')
    × Handled two zeros 1 busy d'
virtio_disk_intr-Handled_example =
    virtio_disk_intr-Handled two zeros 1 busy (omega arith) (omega arith) (λ j lt. (refl, refl))
