-- ===== src/Fs/Content/Bmap.antt =====
-- bmap of kernel/fs.c on every branch, the new indirect block included.
use fyp_os.Prelude.{
  ℕ, suc, ◌+◌, ◌-◌, ◌*◌, ◌^◌, ◌≤◌, ◌<◌, ◌≡◌, ◌≢◌, refl, sym, ap, ◌∙◌, true, false, some, arith, inl,
  inr, Bytes, load, load_same, ltb, ◌==◌, Bool-cases, ltb→lt, ltb→le, eq→==, ne→==, lt→ltb, le→ltb,
}
use fyp_os.Blocks.{Blocks, bread}
use fyp_os.Log.{Log}
use fyp_os.Fs.{Superblock, bpb, bblock, bsize}
use fyp_os.Fs.Alloc.Count.{allocated}
use fyp_os.Fs.Alloc.Take.{HasRoom, IsMapped, Taken, not_bitmap}
use fyp_os.Fs.Inode.{Inode, ndirect}
use fyp_os.Fs.Content.{Held, bmap_entry, bmap, set_addr, nindirect, maxfile}
use fyp_os.Fs.Content.Map.{
  entry_of, block_of, IsPlaced, Taken-IsMapped, Taken-allocated, Taken-bread, Mapped,
  unchanged-Mapped, direct-Mapped, indirect-Mapped, ensure-Ensured, bmap_entry-Entered,
}

load_zero :
    (d : Bytes) (k : ℕ) → ((i : ℕ) → i < bsize → d i ≡ 0) → k < nindirect → load 4 d (4 * k) ≡ 0
unfolding load
load_zero d k h lt = load_same 4 d (λ i. 0) (4 * k) (λ i lo hi. h i (omega arith)) ∙ refl

pub HasRoom-weaken : (n m : ℕ) (l : Log) → n ≤ m → HasRoom m l → HasRoom n l
HasRoom-weaken n m l le room = record {
  slots = omega (arith, room.slots);
  large = room.large;
  inside = room.inside;
}

module _ (sb : Superblock) where
  -- A file that had no indirect block and was given the empty block `b` for one.
  record Grown (b : ℕ) (h h' : Held) : Type 0 where
    mapped : IsMapped sb h'.blocks
    placed : IsPlaced sb h'
    same : (k : ℕ) → k < maxfile → block_of h'.ip h'.blocks k ≡ block_of h.ip h.blocks k
    keeps : (c : ℕ) → c < sb.size → allocated sb h.blocks c ≡ true → allocated sb h'.blocks c ≡ true
    contents :
        (c : ℕ)
        → allocated sb h.blocks c ≡ true
        → ((d : ℕ) → d < sb.size → bblock d sb ≢ c)
        → (c ≢ b) × (bread h'.blocks c ≡ bread h.blocks c)
    new : allocated sb h.blocks b ≡ false
    frame : h'.ip ≡ record h.ip { addrs = h'.ip.addrs }

  grow :
      (b : ℕ) (h : Held) (l : Log) (s : Blocks)
      → h.ip.addrs ndirect ≡ 0
      → b ≢ 0
      → IsMapped sb h.blocks
      → IsPlaced sb h
      → Taken sb b h.blocks s
      → Grown b h (set_addr ndirect b (record h { log = l; blocks = s }))
  grow b h l s none' ne mapped placed taken = record {
    mapped = Taken-IsMapped sb b h.blocks s mapped taken;
    placed = record {
      boot = Taken-allocated sb b 0 h.blocks s taken (omega (arith, taken.in_disk)) placed.boot;
      marked = λ z. taken.now b (taken.in_disk) ∙ ground arith;
      inside = λ z. taken.in_disk;
      apart = λ z c lt e. not_bitmap sb b c h.blocks mapped (taken.was_free) lt e;
    };
    same = λ k lt. elim (Bool-cases (ltb k ndirect)) [
      | inl e ↦ ground (arith, ltb→lt _ _ e)
      | inr e ↦
          let z : (b == 0) ≡ false = ne→== _ _ ne in
          let z' : (h.ip.addrs ndirect == 0) ≡ true = eq→== _ _ none' in
          rw (e, z, z')
            (load_zero (bread s b) (k - ndirect) taken.zeroed (omega (arith, ltb→le _ _ e)))
    ];
    keeps = λ c lt al. Taken-allocated sb b c h.blocks s taken lt al;
    contents = λ c al apart. (
      λ e. cc (taken.was_free, al, ap (allocated sb h.blocks) e),
      Taken-bread sb b c h.blocks s taken al apart,
    );
    new = taken.was_free;
    frame = refl;
  }

  Grown-Mapped :
      (n bn addr b : ℕ) (h h1 h' : Held)
      → ndirect ≤ bn
      → bn < maxfile
      → h.ip.addrs ndirect ≡ 0
      → h1.ip.addrs ndirect ≡ b
      → Grown b h h1
      → Mapped sb n bn addr h1 h'
      → Mapped sb n bn addr h h'
  Grown-Mapped n bn addr b h h1 h' ge lt none' ind g m =
      let gone : block_of h.ip h.blocks bn ≡ 0 = ground arith in
      record {
        room = m.room;
        mapped = m.mapped;
        placed = m.placed;
        result = m.result;
        full = m.full;
        others = λ k lt' ne. m.others k lt' ne ∙ g.same k lt';
        kept = λ z. absurd (z gone);
        fresh = λ e z.
            let (small, free, zeroed) = m.fresh (g.same bn lt ∙ gone) z in
            (
              small,
              elim (Bool-cases (allocated sb h.blocks addr)) [
                | inl al ↦ cc (g.keeps addr small al)
                | inr al ↦ al
              ],
              zeroed,
            );
        contents = λ c lt' al apart ne.
            let (ne', e) = g.contents c al apart in
            m.contents c lt' (g.keeps c lt' al) apart (λ q. ne' (q ∙ ind)) ∙ e;
        keeps = λ c lt' al. m.keeps c lt' (g.keeps c lt' al);
        now = λ e z. m.now (g.same bn lt ∙ gone) z;
        index = λ c lt' al ne.
            m.index c lt' (g.keeps c lt' al)
              λ q. cc (g.new, al, ap (allocated sb h.blocks) (q ∙ ind));
        frame = m.frame ∙ ap (λ (i : Inode). record i { addrs = h'.ip.addrs }) g.frame;
      }

  module _ (fuel : ℕ) (enough : sb.size + bpb ≤ fuel * bpb) (small : sb.size + bpb ≤ 2 ^ 31) where
    entry-Mapped :
        (n bn : ℕ) (h : Held)
        → HasRoom (n + 3) h.log
        → IsMapped sb h.blocks
        → IsPlaced sb h
        → ndirect ≤ bn
        → bn < maxfile
        → h.ip.addrs ndirect ≢ 0
        → (addr : ℕ) × (h' : Held) × (bmap_entry fuel sb (h.ip.addrs ndirect) (bn - ndirect) h
            ≡ some (addr, h'))
          × Mapped sb n bn addr h h'
    entry-Mapped n bn h room mapped placed ge lt is =
        let a = h.ip.addrs ndirect in
        let entry : block_of h.ip h.blocks bn ≡ entry_of h.blocks a (bn - ndirect) =
          rw (le→ltb bn ndirect ge, ne→== a 0 is) refl in
        let room3 = HasRoom-weaken (suc (suc (suc n))) (n + 3) h.log (omega arith) room in
        let same = unchanged-Mapped sb n (n + 3) bn h (omega arith) room mapped placed in
        elim (bmap_entry-Entered sb fuel enough small n a (bn - ndirect) h room3 mapped
          placed.boot) [
            | inl (there, e) ↦ (
              block_of h.ip h.blocks bn,
              h,
              e ∙ rw entry refl,
              same (λ z. absurd (there (sym entry ∙ z))),
            )
            | inr (inl (absent, e, full)) ↦
                (block_of h.ip h.blocks bn, h, e ∙ rw (entry, absent) refl, same (λ z. full))
            | inr (inr (b, l, s, absent, e, room', taken, ne)) ↦ (
              b,
              record h { log = l; blocks = _ },
              e,
              indirect-Mapped sb n n bn b h l s small ge lt is (entry ∙ absent) (omega arith) room'
                  mapped placed taken ne,
            )
          ]

    -- With room for five more blocks than `n` in the log, `bmap` of a block below MAXFILE does not
    -- panic, on a disk of at most 2 ^ 31 - BPB blocks. It returns the disk block to which the file then
    -- maps the block, and 0 only if there is none and every block of the disk is marked; every other block of the file stays where it was; a block that was mapped stays as it
    -- was, and nothing changes; a new block was free and is zero; and no other marked block outside
    -- the free map changes but the indirect block.
    pub bmap-Mapped :
        (n bn : ℕ) (h : Held)
        → HasRoom (n + 5) h.log
        → IsMapped sb h.blocks
        → IsPlaced sb h
        → bn < maxfile
        → (addr : ℕ) × (h' : Held) × (bmap fuel sb bn h ≡ some (addr, h'))
          × Mapped sb n bn addr h h'
    unfolding bmap
    bmap-Mapped n bn h room mapped placed lt = elim (Bool-cases (ltb bn ndirect)) [
      | inl low ↦
          let room2 = HasRoom-weaken (suc (suc n)) (n + 5) h.log (omega arith) room in
          let same = unchanged-Mapped sb n (n + 5) bn h (omega arith) room mapped placed in
          elim (ensure-Ensured sb fuel enough small n bn h room2 mapped placed.boot) [
            | inl (there, e) ↦
                (block_of h.ip h.blocks bn, h, rw low e, same (λ z. absurd (there (rw low at z))))
            | inr (inl (absent, e, full)) ↦
                (block_of h.ip h.blocks bn, h, rw (low, absent) e, same (λ z. full))
            | inr (inr (b, l, s, absent, e, room', taken, ne)) ↦ (
              b,
              set_addr bn b (record h { log = l; blocks = s }),
              rw low e,
              direct-Mapped sb n n bn b h l s (ltb→lt _ _ low) absent (omega arith) room' mapped
                  placed taken ne,
            )
          ]
      | inr high ↦
          let ge = ltb→le _ _ high in
          let mid : ltb (bn - ndirect) nindirect ≡ true = lt→ltb _ _ (omega arith) in
          let room2 = HasRoom-weaken (suc (suc (n + 3))) (n + 5) h.log (omega arith) room in
          let same = unchanged-Mapped sb n (n + 5) bn h (omega arith) room mapped placed in
          elim (ensure-Ensured sb fuel enough small (n + 3) ndirect h room2 mapped placed.boot) [
            | inl (there, e) ↦
                let (addr, h', e', m) =
                  entry-Mapped n bn h (HasRoom-weaken (n + 3) (n + 5) h.log (omega arith) room)
                    mapped placed ge lt there in
                (addr, h', rw (high, mid, e, ne→== _ _ there) e', m)
            | inr (inl (absent, e, full)) ↦
                (block_of h.ip h.blocks bn, h, rw (high, mid, e, absent) refl, same (λ z. full))
            | inr (inr (b, l, s, absent, e, room', taken, ne)) ↦
                let h1 = set_addr ndirect b (record h { log = l; blocks = s }) in
                let g = grow b h l s absent ne mapped placed taken in
                let (addr, h', e', m) = entry-Mapped n bn h1 room' g.mapped g.placed ge lt ne in
                (
                  addr,
                  h',
                  rw (high, mid, e, ne→== _ _ ne) e',
                  Grown-Mapped n bn addr b h h1 h' ge lt absent refl g m,
                )
          ]
    ]
