-- ===== src/Fs/Inode/Dinode.antt =====
-- iupdate and ilock of kernel/fs.c: what stands on the disk is what comes back.
use fyp_os.Prelude.{
  ℕ, zero, suc, ◌+◌, ◌*◌, ◌^◌, ◌≤◌, ◌<◌, ◌≡◌, ◌≢◌, ◌⊎◌, refl, sym, ap, ◌∙◌, true, false, some,
  arith, inl, inr, Bytes, load, store, load-store, load-store_ne, store_outside, load_same, ◌==◌,
  Bool-cases, ==→eq,
}
use fyp_os.Blocks.{Blocks, bread, bpin}
use fyp_os.Log.{Log}
use fyp_os.Fs.{Superblock}
use fyp_os.Fs.Alloc.Take.{bread-bpin, HasRoom, log_write_ok}
use fyp_os.Fs.Inode.{
  Inode, ndirect, place, iblock, store_words, put_dinode, get_dinode, iupdate, ilock,
}

-- The fields fit in their places on the disk.
pub record IsStorable (ip : Inode) : Type 0 where
  pub kind : ip.kind < 2 ^ 16
  pub major : ip.major < 2 ^ 16
  pub minor : ip.minor < 2 ^ 16
  pub nlink : ip.nlink < 2 ^ 16
  pub size : ip.size < 2 ^ 32
  pub addrs : (i : ℕ) → ip.addrs i < 2 ^ 32

-- Two inodes have the same contents as far as the disk goes.
pub record SameDinode (p q : Inode) : Type 0 where
  pub kind : p.kind ≡ q.kind
  pub major : p.major ≡ q.major
  pub minor : p.minor ≡ q.minor
  pub nlink : p.nlink ≡ q.nlink
  pub size : p.size ≡ q.size
  pub addrs : (i : ℕ) → i ≤ ndirect → p.addrs i ≡ q.addrs i

store_words_outside :
    (k : ℕ) (m : Bytes) (a : ℕ) (f : ℕ → ℕ) (b : ℕ)
    → (b < a) ⊎ (a + 4 * k ≤ b)
    → store_words k m a f b ≡ m b
unfolding store_words
store_words_outside zero m a f b h = refl
store_words_outside (suc k) m a f b h = ground (
  arith,
  store_words_outside k (store 4 m a (f 0)) (a + 4) (λ i. f (i + 1)) b,
  store_outside 4 m a (f 0) b,
)

load-store_words_ne :
    (j k : ℕ) (m : Bytes) (a : ℕ) (f : ℕ → ℕ) (b : ℕ)
    → b + j ≤ a
    → load j (store_words k m a f) b ≡ load j m b
load-store_words_ne j k m a f b h =
    load_same j (store_words k m a f) m b λ i p q. store_words_outside k m a f i (inl (omega arith))

load-store_words :
    (k : ℕ) (m : Bytes) (a : ℕ) (f : ℕ → ℕ) (i : ℕ)
    → i < k
    → ((i : ℕ) → f i < 2 ^ 32)
    → load 4 (store_words k m a f) (a + 4 * i) ≡ f i
unfolding store_words
load-store_words zero m a f i lt fits = elim lt [ ]
load-store_words (suc k) m a f zero lt fits =
    let e : a + 4 * 0 ≡ a = omega arith in
    rw e (
      load-store_words_ne 4 k (store 4 m a (f 0)) (a + 4) (λ i. f (i + 1)) a (omega arith)
      ∙ load-store 4 m a (f 0) (fits 0))
load-store_words (suc k) m a f (suc i) lt fits =
    let e : a + 4 * suc i ≡ a + 4 + 4 * i = omega arith in
    let e' : i + 1 ≡ suc i = omega arith in
    rw e (
      load-store_words k (store 4 m a (f 0)) (a + 4) (λ i. f (i + 1)) i (omega arith)
        (λ i. fits (i + 1))
      ∙ ap f e')

-- A dinode that is written touches the 64 bytes of its place only.
put_dinode_outside :
    (ip : Inode) (d : Bytes) (o b : ℕ) → (b < o) ⊎ (o + 64 ≤ b) → put_dinode ip d o b ≡ d b
unfolding put_dinode
put_dinode_outside ip d o b h =
    let d1 = store 2 d o ip.kind in
    let d2 = store 2 d1 (o + 2) ip.major in
    let d3 = store 2 d2 (o + 4) ip.minor in
    let d4 = store 2 d3 (o + 6) ip.nlink in
    let d5 = store 4 d4 (o + 8) ip.size in
    ground (
      arith,
      store_words_outside 13 d5 (o + 12) ip.addrs b,
      store_outside 4 d4 (o + 8) ip.size b,
      store_outside 2 d3 (o + 6) ip.nlink b,
      store_outside 2 d2 (o + 4) ip.minor b,
      store_outside 2 d1 (o + 2) ip.major b,
      store_outside 2 d o ip.kind b,
    )

get_dinode-put_dinode :
    (ip q : Inode) (d : Bytes) (o : ℕ)
    → IsStorable ip
    → SameDinode (get_dinode q (put_dinode ip d o) o) ip
unfolding get_dinode put_dinode
get_dinode-put_dinode ip q d o fits =
    let d1 = store 2 d o ip.kind in
    let d2 = store 2 d1 (o + 2) ip.major in
    let d3 = store 2 d2 (o + 4) ip.minor in
    let d4 = store 2 d3 (o + 6) ip.nlink in
    let d5 = store 4 d4 (o + 8) ip.size in
    let words =
      λ (j b : ℕ) (h : b + j ≤ o + 12). load-store_words_ne j 13 d5 (o + 12) ip.addrs b h in
    record {
      kind =
          words 2 o (omega arith)
          ∙ load-store_ne 2 4 d4 (o + 8) o ip.size (inl (omega arith))
          ∙ load-store_ne 2 2 d3 (o + 6) o ip.nlink (inl (omega arith))
          ∙ load-store_ne 2 2 d2 (o + 4) o ip.minor (inl (omega arith))
          ∙ load-store_ne 2 2 d1 (o + 2) o ip.major (inl (omega arith))
          ∙ load-store 2 d o ip.kind (fits.kind);
      major =
          words 2 (o + 2) (omega arith)
          ∙ load-store_ne 2 4 d4 (o + 8) (o + 2) ip.size (inl (omega arith))
          ∙ load-store_ne 2 2 d3 (o + 6) (o + 2) ip.nlink (inl (omega arith))
          ∙ load-store_ne 2 2 d2 (o + 4) (o + 2) ip.minor (inl (omega arith))
          ∙ load-store 2 d1 (o + 2) ip.major (fits.major);
      minor =
          words 2 (o + 4) (omega arith)
          ∙ load-store_ne 2 4 d4 (o + 8) (o + 4) ip.size (inl (omega arith))
          ∙ load-store_ne 2 2 d3 (o + 6) (o + 4) ip.nlink (inl (omega arith))
          ∙ load-store 2 d2 (o + 4) ip.minor (fits.minor);
      nlink =
          words 2 (o + 6) (omega arith)
          ∙ load-store_ne 2 4 d4 (o + 8) (o + 6) ip.size (inl (omega arith))
          ∙ load-store 2 d3 (o + 6) ip.nlink (fits.nlink);
      size = words 4 (o + 8) (omega arith) ∙ load-store 4 d4 (o + 8) ip.size (fits.size);
      addrs = λ i le. load-store_words 13 d5 (o + 12) ip.addrs i (omega arith) fits.addrs;
    }

get_dinode_same :
    (p q : Inode) (d e : Bytes) (o : ℕ)
    → ((i : ℕ) → o ≤ i → i < o + 64 → d i ≡ e i)
    → SameDinode (get_dinode p d o) (get_dinode q e o)
unfolding get_dinode
get_dinode_same p q d e o h = record {
  kind = load_same 2 d e o (λ i lo hi. h i lo (omega arith));
  major = load_same 2 d e (o + 2) (λ i lo hi. h i (omega arith) (omega arith));
  minor = load_same 2 d e (o + 4) (λ i lo hi. h i (omega arith) (omega arith));
  nlink = load_same 2 d e (o + 6) (λ i lo hi. h i (omega arith) (omega arith));
  size = load_same 4 d e (o + 8) (λ i lo hi. h i (omega arith) (omega arith));
  addrs = λ j le. load_same 4 d e (o + 12 + 4 * j) (λ i lo hi. h i (omega arith) (omega arith));
}

get_dinode_ref : (p : Inode) (d : Bytes) (o : ℕ) → (get_dinode p d o).ref ≡ p.ref
unfolding get_dinode
get_dinode_ref p d o = refl

-- The dinode of inode `inum` as the blocks show it.
abbrev pub on_disk : Superblock → Inode → ℕ → Blocks → Inode
on_disk sb p inum s = get_dinode p (bread s (iblock inum sb)) (place inum)

-- With room in the log, `iupdate` does not panic, brings the inode's fields to its place on the disk,
-- from where they read back as they are, and leaves the dinode of every other inode as it was.
pub iupdate-on_disk :
    (n : ℕ) (sb : Superblock) (ip p : Inode) (l : Log) (s : Blocks)
    → HasRoom (suc n) l
    → IsStorable ip
    → (l' : Log) × (s' : Blocks) × (iupdate sb ip l s ≡ some (l', s'))
      × HasRoom n l'
      × SameDinode (on_disk sb p ip.inum s') ip
      × ((inum : ℕ) → inum ≢ ip.inum → SameDinode (on_disk sb p inum s') (on_disk sb p inum s))
unfolding iupdate
iupdate-on_disk n sb ip p l s room fits =
    let b = iblock ip.inum sb in
    let v = put_dinode ip (bread s b) (place ip.inum) in
    let (l', e, room') = log_write_ok b n v l s room in
    let here : bread (bpin b v s) b ≡ v = bread-bpin b b v s ∙ ground arith in
    (
      l',
      bpin b v s,
      e,
      room',
      rw here (get_dinode-put_dinode ip p (bread s b) (place ip.inum) fits),
      λ inum ne.
          get_dinode_same p p (bread (bpin b v s) (iblock inum sb)) (bread s (iblock inum sb))
            (place inum)
            λ i lo hi. elim (Bool-cases (b == iblock inum sb)) [
              | inr other ↦ ground (arith, bread-bpin b (iblock inum sb) v s)
              | inl same ↦
                  let e' = ==→eq _ _ same in
                  ground (
                    arith,
                    bread-bpin b (iblock inum sb) v s,
                    put_dinode_outside ip (bread s b) (place ip.inum) i,
                  )
            ],
    )

-- With room in the log, an inode that `iupdate` wrote comes back whole: `ilock` of an entry that is
-- referenced, for the same inode and not valid does not panic, unless the inode has no type, and
-- fills the entry with the fields that were written.
pub ilock-iupdate :
    (n : ℕ) (sb : Superblock) (ip p : Inode) (l : Log) (s : Blocks)
    → HasRoom (suc n) l
    → IsStorable ip
    → ip.kind ≢ 0
    → p.inum ≡ ip.inum
    → p.valid ≡ false
    → 1 ≤ p.ref
    → (l' : Log) × (s' : Blocks) × (q : Inode) × (iupdate sb ip l s ≡ some (l', s'))
      × (ilock sb p s' ≡ some q)
      × SameDinode q ip
      × (q.valid ≡ true)
      × (q.ref ≡ p.ref)
unfolding ilock
ilock-iupdate n sb ip p l s room fits typed same stale held =
    let (l', s', e, room', back, rest) = iupdate-on_disk n sb ip p l s room fits in
    let q = record (on_disk sb p ip.inum s') { valid = true } in
    let kind' : (on_disk sb p ip.inum s').kind ≢ 0 = λ z. typed (sym (back.kind) ∙ z) in
    (
      l',
      s',
      q,
      e,
      rw same (ground (arith, stale, held, kind')),
      record {
        kind = back.kind;
        major = back.major;
        minor = back.minor;
        nlink = back.nlink;
        size = back.size;
        addrs = back.addrs;
      },
      refl,
      get_dinode_ref p _ _,
    )
