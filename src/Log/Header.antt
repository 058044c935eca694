-- ===== src/Log/Header.antt =====
-- The header block of the log: what write_head puts there is what read_head finds.
use fyp_os.Prelude.{
  ℕ, ◌+◌, ◌*◌, ◌^◌, ◌≤◌, ◌<◌, ◌≡◌, refl, inl, List, [], ◌∷◌, arith, Bytes, load, store, length,
  load-store, load-store_ne, ◌∙◌,
}
use fyp_os.Log.{read_blocks, write_blocks, header, logsize}

-- Block numbers that fit in 32 bits.
abbrev pub AllWords : List ℕ → Type 0
AllWords [] = Unit
AllWords (b ∷ bs) = (b < 2 ^ 32) × AllWords bs

write_blocks_before :
    (bs : List ℕ) (hd : Bytes) (i o : ℕ)
    → o + 4 ≤ 4 + 4 * i
    → load 4 (write_blocks bs hd i) o ≡ load 4 hd o
unfolding write_blocks
write_blocks_before [] hd i o h = refl
write_blocks_before (b ∷ bs) hd i o h =
    write_blocks_before bs (store 4 hd (4 + 4 * i) b) (i + 1) o (omega arith)
    ∙ load-store_ne 4 4 hd (4 + 4 * i) o b (inl (omega arith))

read_blocks-write_blocks :
    (bs : List ℕ) (hd : Bytes) (i : ℕ)
    → AllWords bs
    → read_blocks (length bs) (write_blocks bs hd i) i ≡ bs
unfolding read_blocks write_blocks
read_blocks-write_blocks [] hd i w = refl
read_blocks-write_blocks (b ∷ bs) hd i w = ground (
  arith,
  write_blocks_before bs (store 4 hd (4 + 4 * i) b) (i + 1) (4 + 4 * i),
  load-store 4 hd (4 + 4 * i) b,
  read_blocks-write_blocks bs (store 4 hd (4 + 4 * i) b) (i + 1) w.1,
)

-- What a header block says: the number of entries and the entries.
pub record Says (hd : Bytes) (lh : List ℕ) : Type 0 where
  pub count : load 4 hd 0 ≡ length lh
  pub entries : read_blocks (length lh) hd 0 ≡ lh

pub header-Says :
    (lh : List ℕ) (hd : Bytes) → AllWords lh → length lh ≤ logsize → Says (header lh hd) lh
unfolding header
header-Says lh hd w small = record {
  count =
      write_blocks_before lh (store 4 hd 0 (length lh)) 0 0 (omega arith)
      ∙ load-store 4 hd 0 (length lh) (omega arith);
  entries = read_blocks-write_blocks lh (store 4 hd 0 (length lh)) 0 w;
}
