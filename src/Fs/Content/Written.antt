-- ===== src/Fs/Content/Written.antt =====
-- writei of kernel/fs.c as a whole: the bytes, the size and the inode on the disk.
use fyp_os.Prelude.{
  ℕ, zero, suc, ◌+◌, ◌-◌, ◌*◌, ◌/◌, ◌%◌, ◌^◌, ◌≤◌, ◌<◌, ◌≡◌, ◌≢◌, ◌⊎◌, refl, sym, ap, subst, ◌∙◌,
  Bool, true, false, ◌&&◌, some, arith, inl, inr, Bytes, ltb, leb, if◌then◌else◌, Bool-cases,
  ltb→le, ltb→lt, le→ltb, min, store, copy_over,
}
use fyp_os.Blocks.{bread, bpin}
use fyp_os.Log.{Log}
use fyp_os.Fs.{Superblock, bsize, bpb}
use fyp_os.Fs.Bits.{AllBytes, store-AllBytes}
use fyp_os.Fs.Alloc.Count.{allocated}
use fyp_os.Fs.Alloc.Take.{HasRoom, log_write_ok}
use fyp_os.Fs.Inode.{Inode, ndirect, iupdate, iblock, place, put_dinode, store_words}
use fyp_os.Fs.Content.{Held, maxfile, Copy, either_copy, writei, readi}
use fyp_os.Fs.Content.Map.{block_of, IsFullDisk, allocated-bpin}
use fyp_os.Fs.Content.Read.{byte_at, file_over, readi-file_over}
use fyp_os.Fs.Content.Whole.{
  IsOwn, IsWhole, IsOther, pinned, pinned_elsewhere, pinned_here, pinned_block, pinned-IsWhole,
  pinned-IsOther,
}
use fyp_os.Fs.Content.Wrote.{block_at, Wrote}
use fyp_os.Fs.Content.Write.{CopiesOrFails, Stopped, writei_loop-WroteSome}

abbrev pub larger : ℕ → ℕ → ℕ
larger size end = if ltb size end then end else size

store_words-AllBytes :
    (k : ℕ) (m : Bytes) (a : ℕ) (f : ℕ → ℕ) → AllBytes m → AllBytes (store_words k m a f)
unfolding store_words
store_words-AllBytes zero m a f bytes = bytes
store_words-AllBytes (suc k) m a f bytes =
    store_words-AllBytes k (store 4 m a (f 0)) (a + 4) (λ i. f (i + 1))
      (store-AllBytes 4 m a (f 0) bytes)

put_dinode-AllBytes : (ip : Inode) (d : Bytes) (o : ℕ) → AllBytes d → AllBytes (put_dinode ip d o)
unfolding put_dinode
put_dinode-AllBytes ip d o bytes = store_words-AllBytes (ndirect + 1) _ (o + 12) ip.addrs (
    store-AllBytes 4 _ (o + 8) ip.size (
      store-AllBytes 2 _ (o + 6) ip.nlink (
        store-AllBytes 2 _ (o + 4) ip.minor
          (store-AllBytes 2 _ (o + 2) ip.major (store-AllBytes 2 d o ip.kind bytes)))))

module _ (sb : Superblock) (mem : Bytes) where
  -- A new size is no change to the blocks of a file.
  sized-IsOwn :
      (z c : ℕ) (h : Held) → IsOwn sb h c → IsOwn sb (record h { ip = record h.ip { size = z } }) c
  sized-IsOwn z c h o = record {
    inside = o.inside;
    marked = o.marked;
    apart = o.apart;
    no_map = o.no_map;
  }

  sized-IsWhole :
      (z : ℕ) (h : Held) → IsWhole sb h → IsWhole sb (record h { ip = record h.ip { size = z } })
  sized-IsWhole z h whole = record {
    mapped = whole.mapped;
    placed = record {
      boot = whole.placed.boot;
      marked = whole.placed.marked;
      inside = whole.placed.inside;
      apart = whole.placed.apart;
    };
    own = λ k lt ne. sized-IsOwn z _ h (whole.own k lt ne);
    distinct = whole.distinct;
  }

  sized-IsOther :
      (z c : ℕ) (h : Held)
      → IsOther sb h c
      → IsOther sb (record h { ip = record h.ip { size = z } }) c
  sized-IsOther z c h o = record { own = sized-IsOwn z c h o.own; differs = o.differs }

  -- What `writei` does when it returns `n`, where a copy that failed has left `j` bytes more in the
  -- buffers: they are read in the place of the old ones, but the size does not count them.
  pub record Written (src off n j : ℕ) (h h' : Held) : Type 0 where
    pub whole : IsWhole sb h'
    pub written :
        (i : ℕ)
        → off ≤ i
        → i < off + (n + j)
        → (block_at h' i ≢ 0) × (byte_at h' i ≡ mem (src + (i - off)))
    pub kept :
        (i : ℕ)
        → (i < off) ⊎ (off + (n + j) ≤ i)
        → i < maxfile * bsize
        → block_at h i ≢ 0
        → (block_at h' i ≢ 0) × (byte_at h' i ≡ byte_at h i)
    pub others :
        (c : ℕ)
        → IsOther sb h c
        → c ≢ iblock h.ip.inum sb
        → IsOther sb h' c × (bread h'.blocks c ≡ bread h.blocks c)
    pub inode : h'.ip ≡ record h.ip { addrs = h'.ip.addrs; size = larger h.ip.size (off + n) }
    pub on_disk :
        bread h'.blocks (iblock h.ip.inum sb)
        ≡ put_dinode h'.ip (bread h.blocks (iblock h.ip.inum sb)) (place h.ip.inum)

  -- The update of the inode after the loop.
  iupdate-Written :
      (src off n j : ℕ) (h h1 : Held) (l : Log)
      → IsOther sb h (iblock h.ip.inum sb)
      → Wrote sb mem src off (n + j) h h1
      → let ip = record h1.ip { size = larger h1.ip.size (off + n) } in
        let s =
          bpin
            (iblock h1.ip.inum sb)
            (put_dinode ip (bread h1.blocks (iblock h1.ip.inum sb)) (place h1.ip.inum))
            h1.blocks in
        Written src off n j h (record { ip = ip; log = l; blocks = s })
        × ((k : ℕ) → block_of ip s k ≡ block_of h1.ip h1.blocks k)
  iupdate-Written src off n j h h1 l ino w =
      let num : h1.ip.inum ≡ h.ip.inum = ap (λ (x : Inode). x.inum) w.frame in
      let old_size : h1.ip.size ≡ h.ip.size = ap (λ (x : Inode). x.size) w.frame in
      let z = larger h1.ip.size (off + n) in
      let ib = iblock h1.ip.inum sb in
      let v = put_dinode (record h1.ip { size = z }) (bread h1.blocks ib) (place h1.ip.inum) in
      let same_ib : iblock h.ip.inum sb ≡ ib = ap (λ x. iblock x sb) (sym num) in
      let (o', e') = w.others (iblock h.ip.inum sb) ino in
      let o1 = subst (IsOther sb h1) same_ib o' in
      let h2 = record h1 { ip = record h1.ip { size = z } } in
      let o2 = sized-IsOther z ib h1 o1 in
      let whole2 = sized-IsWhole z h1 w.whole in
      let bytes =
        put_dinode-AllBytes (record h1.ip { size = z }) (bread h1.blocks ib) (place h1.ip.inum)
          (w.whole.mapped.bytes ib) in
      let same = pinned_block sb h2 ib v l whole2 o2.own bytes in
      let after = pinned sb h2 ib v l whole2 o2.own bytes in
      let byte : (i : ℕ) → i < maxfile * bsize → byte_at after i ≡ byte_at h1 i = λ i lt.
        ap (λ b. bread after.blocks b (i % bsize)) (same (i / bsize))
        ∙ ap (λ (d : Bytes). d (i % bsize))
            (pinned_elsewhere sb h2 ib v l whole2 o2.own bytes (block_at h1 i)
              (o1.differs (i / bsize) (omega arith))) in
      (
        record {
          whole = pinned-IsWhole sb h2 ib v l whole2 o2.own bytes;
          written = λ i lo hi.
              let (there, e) = w.written i lo hi in
              (λ q. there (sym (same (i / bsize)) ∙ q), byte i (omega (arith, w.bound)) ∙ e);
          kept = λ i out lt there.
              let (there', e) = w.kept i out lt there in
              (λ q. there' (sym (same (i / bsize)) ∙ q), byte i lt ∙ e);
          others = λ c o ne.
              let (o3, e) = w.others c o in
              (
                pinned-IsOther sb h2 ib v l whole2 o2.own bytes c (sized-IsOther z c h1 o3),
                pinned_elsewhere sb h2 ib v l whole2 o2.own bytes c (λ q. ne (sym q ∙ sym same_ib))
                    ∙ e,
              );
          inode =
              ap (λ (x : Inode). record x { size = z }) w.frame
              ∙ ap (λ x. record h.ip { addrs = h1.ip.addrs; size = larger x (off + n) }) old_size;
          on_disk =
              ap (bread after.blocks) same_ib
              ∙ (pinned_here sb h2 ib v l whole2 o2.own bytes
                  ∙ (ap (λ (d : Bytes). put_dinode (record h1.ip { size = z }) d (place h1.ip.inum))
                        (ap (bread h1.blocks) (sym same_ib) ∙ e')
                      ∙ ap
                          (λ x.
                            put_dinode (record h1.ip { size = z })
                              (bread h.blocks (iblock h.ip.inum sb)) (place x))
                          num));
        },
        same,
      )

  -- The inode's block marks nothing.
  full_after :
      (h : Held) (b : ℕ) (v : Bytes)
      → IsFullDisk sb h
      → IsOther sb h b
      → (c : ℕ) → c < sb.size
      → allocated sb (bpin b v h.blocks) c ≡ true
  full_after h b v full o c lt = allocated-bpin sb b c v h.blocks o.own.no_map lt ∙ full c lt

  -- A reader's memory with the bytes that were written.
  file_over-Written :
      (src off n j dst a : ℕ) (h h' : Held) (to : Bytes)
      → Written src off n j h h'
      → file_over to dst h' off n a ≡ copy_over to dst mem src n a
  file_over-Written src off n j dst a h h' to w = elim (Bool-cases (leb dst a && ltb a (dst + n))) [
    | inl inside ↦
        let lo : dst ≤ a = ground arith in
        let hi : a < dst + n = ground arith in
        let (there, e) = w.written (off + (a - dst)) (omega arith) (omega arith) in
        let at : src + (off + (a - dst) - off) ≡ src + (a - dst) = omega arith in
        rw inside (e ∙ ap mem at)
    | inr outside ↦ rw outside refl
  ]

  Written-readi :
      (fuel : ℕ) (copy : Copy) (user : Bool)
      → ((m : Bytes) (d : ℕ) (from : Bytes) (s k : ℕ)
          → either_copy copy user m d from s k ≡ (true, copy_over m d from s k))
      → (src off n j dst : ℕ) (h h' : Held) (to : Bytes) → Written src off n j h h'
      → off ≤ h.ip.size
      → h.ip.size ≤ maxfile * bsize
      → ((i : ℕ) → i < h.ip.size → block_at h i ≢ 0)
      → off + n ≤ maxfile * bsize
      → (back : Bytes) × (readi fuel sb copy user dst off n to h' ≡ some (some n, back, h'))
        × ((a : ℕ) → back a ≡ copy_over to dst mem src n a)
  Written-readi fuel copy user works src off n j dst h h' to w start small there bound =
      let size' : h'.ip.size ≡ larger h.ip.size (off + n) = ap (λ (x : Inode). x.size) w.inode in
      let fits : h'.ip.size ≤ maxfile * bsize = ground arith in
      let covers : off + n ≤ h'.ip.size = ground arith in
      let either : (h'.ip.size ≡ h.ip.size) ⊎ (h'.ip.size ≡ off + n) = ground arith in
      let there' : (i : ℕ) → i < h'.ip.size → block_at h' i ≢ 0 = λ i lt.
        elim (Bool-cases (ltb i off)) [
          | inl before ↦
              let b = ltb→lt _ _ before in
              (w.kept i (inl b) (omega arith) (there i (omega arith))).0
          | inr from ↦ elim (Bool-cases (ltb i (off + (n + j)))) [
            | inl now ↦ (w.written i (ltb→le _ _ from) (ltb→lt _ _ now)).0
            | inr after ↦
                let ge = ltb→le _ _ after in
                let old : i < h.ip.size = elim either [
                  | inl same ↦ omega arith
                  | inr grown ↦ absurd (omega arith)
                ] in
                (w.kept i (inr ge) (omega arith) (there i old)).0
          ]
        ] in
      let (back, e, over) =
        readi-file_over fuel sb copy user works h' dst off n to fits there' (omega arith) in
      let all : min n (h'.ip.size - off) ≡ n = omega arith in
      (back, rw all at e, λ a. rw all at (over a) ∙ file_over-Written src off n j dst a h h' to w)

  module _ (fuel : ℕ) (enough : sb.size + bpb ≤ fuel * bpb) (few : sb.size + bpb ≤ 2 ^ 31)
      (copy : Copy) (user : Bool) where
    -- writei of `n` bytes at `off` of a file with sound blocks, no hole before `off` and no overflow,
    -- with room in the log for six blocks for each round and one more, on a disk of at most 2 ^ 31 - BPB
    -- blocks, does not panic. It returns how many bytes it wrote: all, or fewer, and then every block of
    -- the disk is marked and the next byte has none, or the copy of the next bytes failed. The file then holds these bytes and
    -- keeps its others, but for bytes of the failed copy behind those that were written, which are in the
    -- buffer. Its size covers what was written and stands with it on the disk; its blocks stay sound, and
    -- no block of another file changes but in the inode's block.
    pub writei-Written :
        (r src off n : ℕ) (h : Held)
        → CopiesOrFails sb mem fuel enough few copy user
        → AllBytes mem
        → IsWhole sb h
        → IsOther sb h (iblock h.ip.inum sb)
        → off ≤ h.ip.size
        → off + n ≤ maxfile * bsize
        → (n ≡ 0) ⊎ (off % bsize + n ≤ r * bsize)
        → HasRoom (6 * r + 1) h.log
        → (t j : ℕ) × (h' : Held) × (t + j ≤ n)
          × (writei fuel sb copy user src off n mem h ≡ some (some t, h'))
          × Written src off t j h h'
          × ((t ≡ n) × (j ≡ 0)
              ⊎ Stopped sb mem fuel enough few copy user (src + t) (off + t) (n - t) j h')
    unfolding writei iupdate
    writei-Written r src off n h honest bytes whole ino start bound rounds room =
        let (t, j, h1, le, e, w, room1, end) =
          writei_loop-WroteSome sb mem fuel enough few copy user honest bytes n r 1 src off 0 n n h
            (omega arith) (omega arith) bound rounds room whole in
        let ino1 : IsOther sb h1 (iblock h1.ip.inum sb) =
          subst (IsOther sb h1) (ap (λ (x : Inode). iblock x.inum sb) (sym w.frame))
            (w.others (iblock h.ip.inum sb) ino).0 in
        let z = larger h1.ip.size (off + t) in
        let ip = record h1.ip { size = z } in
        let ib = iblock h1.ip.inum sb in
        let (l2, e2, room2) =
          log_write_ok ib 0 (put_dinode ip (bread h1.blocks ib) (place h1.ip.inum)) h1.log h1.blocks
            room1 in
        let (written, same) = iupdate-Written src off t j h h1 l2 ino w in
        let whole_word : (off + n) % 2 ^ 32 ≡ off + n = omega arith in
        let c1 : ltb h.ip.size off ≡ false = le→ltb _ _ start in
        let c2 : ltb (off + n) off ≡ false = le→ltb _ _ (omega arith) in
        let c3 : ltb (maxfile * bsize) (off + n) ≡ false = le→ltb _ _ bound in
        let zero_on : 0 + t ≡ t = omega arith in
        (
          t,
          j,
          record { ip = ip; log = l2; blocks = _ },
          le,
          rw (whole_word, c1, c2, c3, e, e2, zero_on) refl,
          written,
          elim end [
            | inl all ↦ inl all
            | inr (inl (zero', hole, full)) ↦
                inr (inl (zero', same ((off + t) / bsize) ∙ hole, full_after h1 ib _ full ino1))
            | inr (inr fails) ↦ inr (inr fails)
          ],
        )

    -- What writei wrote, readi reads back. Under the conditions of a writei that does not panic, and in a
    -- file that has a block wherever it has a byte, writei writes all `n` bytes, or fewer because the disk
    -- is full or the copy of the next bytes failed; and a readi at the same place of as many bytes as were written returns this
    -- number and exactly these bytes, for any reader whose copies work.
    pub writei-readi :
        (r src off n dst : ℕ) (h : Held) (to : Bytes) (copy' : Copy) (user' : Bool)
        → CopiesOrFails sb mem fuel enough few copy user
        → ((m : Bytes) (d : ℕ) (from : Bytes) (s k : ℕ)
            → either_copy copy' user' m d from s k ≡ (true, copy_over m d from s k))
        → AllBytes mem
        → IsWhole sb h
        → IsOther sb h (iblock h.ip.inum sb)
        → off ≤ h.ip.size
        → h.ip.size ≤ maxfile * bsize
        → ((i : ℕ) → i < h.ip.size → block_at h i ≢ 0)
        → off + n ≤ maxfile * bsize
        → (n ≡ 0) ⊎ (off % bsize + n ≤ r * bsize)
        → HasRoom (6 * r + 1) h.log
        → (t j : ℕ) × (h' : Held) × (back : Bytes) × (t + j ≤ n)
          × ((t ≡ n) × (j ≡ 0)
              ⊎ Stopped sb mem fuel enough few copy user (src + t) (off + t) (n - t) j h')
          × (writei fuel sb copy user src off n mem h ≡ some (some t, h'))
          × (readi fuel sb copy' user' dst off t to h' ≡ some (some t, back, h'))
          × ((a : ℕ) → back a ≡ copy_over to dst mem src t a)
    writei-readi r src off n dst h to copy' user' honest works bytes whole ino start small there
          bound rounds room =
        let (t, j, h', le, e, w, end) =
          writei-Written r src off n h honest bytes whole ino start bound rounds room in
        let (back, e', over) =
          Written-readi fuel copy' user' works src off t j dst h h' to w start small there
            (omega arith) in
        (t, j, h', back, le, end, e, e', over)
