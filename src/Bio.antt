-- ===== src/Bio.antt =====
-- kernel/bio.c: the buffer cache. A buffer is a slot of `bcache.buf`; the ring of the buffers is the
-- list of the slots from `head.next` to `head.prev`, the most recently used first. Locks are left
-- out: a caller uses the buffer of its own bread.
pub mod Search
pub mod Coherence
pub mod Transfer
pub mod Release
mod Tests
use fyp_os.Prelude.{
  ℕ, zero, suc, ◌+◌, ◌-◌, ◌%◌, ◌^◌, Bool, true, false, not, ◌&&◌, Option, none, some, List, [], ◌∷◌,
  ◌==◌, if◌then◌else◌, get_elem?, modify, ◌>>=◌, Bytes, write,
}

-- `struct buf`, less its place in the ring.
pub record Buf : Type 0 where
  pub valid : Bool
  pub dev : ℕ
  pub blockno : ℕ
  pub refcnt : ℕ
  pub contents : Bytes

-- `bcache`
pub record Bcache : Type 0 where
  pub bufs : List Buf
  pub ring : List ℕ

abbrev pub change : ℕ → (Buf → Buf) → Bcache → Bcache
change i f c = record c { bufs = modify c.bufs i f }

-- `binit`: each buffer in turn is put at the front of the ring.
unfoldable pub binit_loop : ℕ → ℕ → List ℕ → List ℕ
binit_loop zero i ring = ring
binit_loop (suc n) i ring = binit_loop n (i + 1) (i ∷ ring)

unfoldable pub binit : ℕ → Bcache → Bcache
binit nbuf c = record c { ring = binit_loop nbuf 0 [] }

-- The first slot of the ring whose buffer passes the test.
unfoldable pub search : (Buf → Bool) → List Buf → List ℕ → Option ℕ
search test bufs [] = none
search test bufs (i ∷ ring) =
    let rest = search test bufs ring in
    elim (get_elem? bufs i) [ none ↦ rest | some b ↦ if test b then some i else rest ]

-- The same from the other end.
unfoldable pub search_back : (Buf → Bool) → List Buf → List ℕ → Option ℕ
search_back test bufs [] = none
search_back test bufs (i ∷ ring) = elim (search_back test bufs ring) [
  | some j ↦ some j
  | none ↦ elim (get_elem? bufs i) [ none ↦ none | some b ↦ if test b then some i else none ]
]

abbrev pub is_for : ℕ → ℕ → Buf → Bool
is_for dev blockno b = (b.dev == dev) && (b.blockno == blockno)

abbrev pub retain : Buf → Buf
retain b = record b { refcnt = b.refcnt + 1 }

abbrev pub recycle : ℕ → ℕ → Buf → Buf
recycle dev blockno b = record b { dev = dev; blockno = blockno; valid = false; refcnt = 1 }

-- `bget`; `none` is `panic("bget: no buffers")`.
unfoldable pub bget : ℕ → ℕ → Bcache → Option (ℕ × Bcache)
bget dev blockno c = elim (search (is_for dev blockno) c.bufs c.ring) [
  | some i ↦ some (i, change i retain c)
  | none ↦ elim (search_back (λ b. b.refcnt == 0) c.bufs c.ring) [
    | none ↦ none
    | some i ↦ some (i, change i (recycle dev blockno) c)
  ]
]

-- What `bread` does with the buffer: `virtio_disk_rw` fills it unless it is valid.
abbrev pub fetch : (ℕ → Bytes) → Buf → Buf
fetch disk b = if b.valid then b else record b { contents = disk b.blockno; valid = true }

unfoldable pub bread : (ℕ → Bytes) → ℕ → ℕ → Bcache → Option (ℕ × Bcache)
bread disk dev blockno c = bget dev blockno c >>= λ (i, c1). some (i, change i (fetch disk) c1)

-- `bwrite`: the disk after it.
unfoldable pub bwrite : ℕ → Bcache → (ℕ → Bytes) → ℕ → Bytes
bwrite i c disk = elim (get_elem? c.bufs i) [
  | none ↦ disk
  | some b ↦ write disk b.blockno b.contents
]

abbrev pub unlink : ℕ → List ℕ → List ℕ
unlink i [] = []
unlink i (j ∷ ring) = if j == i then ring else j ∷ unlink i ring

-- `b->refcnt--` of an unsigned int.
abbrev pub unretain : Buf → Buf
unretain b = record b { refcnt = (b.refcnt + 2 ^ 32 - 1) % 2 ^ 32 }

-- `brelse`: a buffer without references moves to the front of the ring.
unfoldable pub brelse : ℕ → Bcache → Bcache
brelse i c = elim (get_elem? c.bufs i) [
  | none ↦ c
  | some b ↦
      let c1 = change i unretain c in
      if (unretain b).refcnt == 0 then record c1 { ring = i ∷ unlink i c1.ring } else c1
]

unfoldable pub bpin : ℕ → Bcache → Bcache
bpin i = change i retain

unfoldable pub bunpin : ℕ → Bcache → Bcache
bunpin i = change i unretain
