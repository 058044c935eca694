-- ===== src/Virtio.antt =====
-- kernel/virtio_disk.c: the driver's queue of descriptors. Buffers are numbered, `pending` is their
-- `b->disk`, and the lock makes the code between two sleeps one step. The wakeups belong to the process
-- table, and the registers of the device are left out. `none` is a panic.
pub mod Owned
pub mod Transfers
pub mod Interrupt
mod Tests
use fyp_os.Prelude.{
  ℕ, zero, suc, ◌+◌, ◌*◌, ◌/◌, ◌%◌, ◌^◌, Bool, true, false, not, Option, none, some, List, [], ◌∷◌,
  ◌++◌, write, ltb, ◌==◌, if◌then◌else◌, ◌>>=◌, ◌>>◌, unless,
}
use fyp_os.Fs.{bsize}

-- NUM of kernel/virtio.h
abbrev pub num : ℕ
num = 8

abbrev pub f_next : ℕ
f_next = 1

abbrev pub f_write : ℕ
f_write = 2

pub record Desc : Type 0 where
  pub addr : ℕ
  pub len : ℕ
  pub flags : ℕ
  pub next : ℕ

-- struct virtio_blk_req
pub record Request : Type 0 where
  pub kind : ℕ
  pub reserved : ℕ
  pub sector : ℕ

pub record Info : Type 0 where
  pub buf : Option ℕ
  pub status : ℕ

-- `disk`, less the used ring, which the device writes.
pub record Driver : Type 0 where
  pub desc : ℕ → Desc
  pub avail_idx : ℕ
  pub avail_ring : ℕ → ℕ
  pub free : ℕ → Bool
  pub used_idx : ℕ
  pub info : ℕ → Info
  pub ops : ℕ → Request
  pub pending : ℕ → Bool

-- The loop of `alloc_desc` with `k` rounds left, from index `i` on.
unfoldable pub alloc_loop : ℕ → ℕ → Driver → Option ℕ × Driver
alloc_loop zero i d = (none, d)
alloc_loop (suc k) i d =
    let rest = alloc_loop k (i + 1) d in
    if d.free i then (some i, record d { free = write d.free i false }) else rest

unfoldable pub alloc_desc : Driver → Option ℕ × Driver
alloc_desc = alloc_loop num 0

abbrev pub no_desc : Desc
no_desc = record { addr = 0; len = 0; flags = 0; next = 0 }

unfoldable pub free_desc : ℕ → Driver → Option Driver
free_desc i d =
    unless (not (ltb i num))
    >> (unless (d.free i)
        >> some (record d { desc = write d.desc i no_desc; free = write d.free i true }))

-- `free_chain` with fuel for the descriptors of the chain.
unfoldable pub free_chain : ℕ → ℕ → Driver → Option Driver
free_chain zero i d = none
free_chain (suc k) i d =
    let old = d.desc i in
    free_desc i d >>= λ d'.
    let rest = free_chain k old.next d' in if old.flags % 2 == f_next then rest else some d'

unfoldable pub free_all : List ℕ → Driver → Option Driver
free_all [] d = some d
free_all (i ∷ is) d = free_desc i d >>= λ d'. free_all is d'

-- The loop of `alloc3_desc` with `k` rounds left, where `idx` holds what it has.
unfoldable pub alloc_more : ℕ → List ℕ → Driver → Option (Option (List ℕ) × Driver)
alloc_more zero idx d = some (some idx, d)
alloc_more (suc k) idx d =
    let (r, d') = alloc_desc d in
    elim r [
      | none ↦ free_all idx d' >>= λ d''. some (none, d'')
      | some i ↦ alloc_more k (idx ++ (i ∷ [])) d'
    ]

unfoldable pub alloc3_desc : Driver → Option (Option (List ℕ) × Driver)
alloc3_desc = alloc_more 3 []

-- The addresses of `ops[i]`, of `info[i].status` and of the data of a buffer.
pub record Layout : Type 0 where
  pub ops_at : ℕ → ℕ
  pub status_at : ℕ → ℕ
  pub data_at : ℕ → ℕ

-- The three descriptors of a request in `idx`, and its head in the avail ring.
unfoldable pub format : Layout → ℕ → ℕ → Bool → List ℕ → Driver → Option (Option ℕ × Driver)
format at b blockno writes (i0 ∷ i1 ∷ i2 ∷ []) d =
    let op : Request = record {
      kind = if writes then 1 else 0;
      reserved = 0;
      sector = blockno * (bsize / 512) % 2 ^ 32;
    } in
    let desc0 : Desc = record { addr = at.ops_at i0; len = 16; flags = f_next; next = i1 } in
    let desc1 : Desc = record {
      addr = at.data_at b;
      len = bsize;
      flags = (if writes then 0 else f_write) + f_next;
      next = i2;
    } in
    let desc2 : Desc = record { addr = at.status_at i0; len = 1; flags = f_write; next = 0 } in
    some (
      some i0,
      record d {
        ops = write d.ops i0 op;
        desc = write (write (write d.desc i0 desc0) i1 desc1) i2 desc2;
        pending = write d.pending b true;
        info = write d.info i0 (record { buf = some b; status = 255 });
        avail_ring = write d.avail_ring (d.avail_idx % num) i0;
        avail_idx = (d.avail_idx + 1) % 2 ^ 16;
      },
    )
format at b blockno writes idx d = none

-- `virtio_disk_rw` up to its wait for the device: the head of the request, or none where it sleeps for
-- descriptors.
unfoldable pub virtio_disk_rw : Layout → ℕ → ℕ → Bool → Driver → Option (Option ℕ × Driver)
virtio_disk_rw at b blockno writes d = alloc3_desc d >>= λ (r, d'). elim r [
  | none ↦ some (none, d')
  | some idx ↦ format at b blockno writes idx d'
]

-- The rest of `virtio_disk_rw` for the request at `head`: whether it returns, or sleeps on.
unfoldable pub virtio_disk_rw_done : ℕ → ℕ → Driver → Option (Bool × Driver)
virtio_disk_rw_done b head d =
    let old = d.info head in
    let freed =
      free_chain num head (record d { info = write d.info head (record old { buf = none }) })
      >>= λ d'. some (true, d') in
    if d.pending b then some (false, d) else freed

-- The loop of `virtio_disk_intr` with `k` rounds left. The device has put `ids` in the used ring,
-- and its index is `used`.
unfoldable pub intr_loop : ℕ → (ℕ → ℕ) → ℕ → Driver → Option Driver
intr_loop zero ids used d = some d
intr_loop (suc k) ids used d =
    let request = d.info (ids (d.used_idx % num)) in
    let round : Option Driver = elim request.buf [
      | none ↦ none
      | some b ↦
          intr_loop k ids used
            (record d { pending = write d.pending b false; used_idx = (d.used_idx + 1) % 2 ^ 16 })
    ] in
    if d.used_idx == used then some d else unless (not (request.status == 0)) >> round

-- A 16-bit index meets every other within 2 ^ 16 rounds.
unfoldable pub virtio_disk_intr : (ℕ → ℕ) → ℕ → Driver → Option Driver
virtio_disk_intr = intr_loop (2 ^ 16)
