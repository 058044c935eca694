-- ===== src/Fs/Content/Map.antt =====
-- bmap of kernel/fs.c: from the blocks of a file to the blocks of the disk.
use fyp_os.Prelude.{
  ℕ, suc, ◌+◌, ◌-◌, ◌*◌, ◌^◌, ◌≤◌, ◌<◌, ◌≡◌, ◌≢◌, ◌⊎◌, refl, sym, ap, ◌∙◌, true, false, Option,
  some, arith, inl, inr, Bytes, load, store, load-store, load-store_ne, ltb, ◌==◌, if◌then◌else◌,
  Bool-cases, ==→eq, ==→ne, ltb→le, ne→==,
}
use fyp_os.Blocks.{Blocks, bread, bpin}
use fyp_os.Log.{Log}
use fyp_os.Fs.{Superblock, bpb, bblock, bsize}
use fyp_os.Fs.Bits.{store-AllBytes}
use fyp_os.Fs.Alloc.Count.{allocated}
use fyp_os.Fs.Alloc.Take.{HasRoom, IsMapped, Taken, balloc_lem, log_write_ok, bread-bpin}
use fyp_os.Fs.Inode.{Inode, ndirect}
use fyp_os.Fs.Content.{Held, ensure, bmap_entry, set_addr, maxfile}

abbrev pub entry_of : Blocks → ℕ → ℕ → ℕ
entry_of s a k = load 4 (bread s a) (4 * k)

-- The block of the disk that holds block `bn` of the file; 0 if there is none.
abbrev pub block_of : Inode → Blocks → ℕ → ℕ
block_of ip s bn =
    if ltb bn ndirect
    then ip.addrs bn
    else if ip.addrs ndirect == 0
    then 0
    else entry_of s (ip.addrs ndirect) (bn - ndirect)

-- The boot block is marked, and the indirect block, if there is one, is a marked block of the disk
-- that is not of the free map.
pub record IsPlaced (sb : Superblock) (h : Held) : Type 0 where
  pub boot : allocated sb h.blocks 0 ≡ true
  pub marked : h.ip.addrs ndirect ≢ 0 → allocated sb h.blocks (h.ip.addrs ndirect) ≡ true
  pub inside : h.ip.addrs ndirect ≢ 0 → h.ip.addrs ndirect < sb.size
  pub apart : h.ip.addrs ndirect ≢ 0 → (c : ℕ) → c < sb.size → bblock c sb ≢ h.ip.addrs ndirect

module _ (sb : Superblock) where
  pub Taken-IsMapped : (r : ℕ) (s s' : Blocks) → IsMapped sb s → Taken sb r s s' → IsMapped sb s'
  Taken-IsMapped r s s' mapped taken = record {
    marked =
        λ b lt. taken.now (bblock b sb) (mapped.inside b lt) ∙ ground (arith, mapped.marked b lt);
    inside = mapped.inside;
    bytes = taken.bytes;
  }

  pub Taken-allocated :
      (r c : ℕ) (s s' : Blocks)
      → Taken sb r s s'
      → c < sb.size
      → allocated sb s c ≡ true
      → allocated sb s' c ≡ true
  Taken-allocated r c s s' taken lt al = taken.now c lt ∙ ground (arith, al)

  -- A marked block that is not of the free map keeps its contents when another is taken.
  pub Taken-bread :
      (r c : ℕ) (s s' : Blocks)
      → Taken sb r s s'
      → allocated sb s c ≡ true
      → ((d : ℕ) → d < sb.size → bblock d sb ≢ c)
      → bread s' c ≡ bread s c
  Taken-bread r c s s' taken al apart =
      taken.others c (λ e. cc (taken.was_free, al, ap (allocated sb s) e))
        (λ e. apart r (taken.in_disk) (sym e))

  -- No block of the disk is free.
  abbrev pub IsFullDisk : Held → Type 0
  IsFullDisk h = (c : ℕ) → c < sb.size → allocated sb h.blocks c ≡ true

  -- What `ensure` and `bmap_entry` do: the block is there; or none is free; or a free one is taken.
  abbrev pub Ensured : ℕ → ℕ → Held → Option (ℕ × Held) → Type 0
  Ensured n i h r =
      (h.ip.addrs i ≢ 0) × (r ≡ some (h.ip.addrs i, h))
      ⊎ (h.ip.addrs i ≡ 0) × (r ≡ some (0, h)) × IsFullDisk h
      ⊎ ((b : ℕ) × (l : Log) × (s : Blocks) × (h.ip.addrs i ≡ 0)
          × (r ≡ some (b, set_addr i b (record h { log = l; blocks = s })))
          × HasRoom n l
          × Taken sb b h.blocks s
          × (b ≢ 0))

  abbrev pub Entered : ℕ → ℕ → ℕ → Held → Option (ℕ × Held) → Type 0
  Entered n a k h r =
      (entry_of h.blocks a k ≢ 0) × (r ≡ some (entry_of h.blocks a k, h))
      ⊎ (entry_of h.blocks a k ≡ 0) × (r ≡ some (0, h)) × IsFullDisk h
      ⊎ ((b : ℕ) × (l : Log) × (s : Blocks) × (entry_of h.blocks a k ≡ 0)
          × (r ≡ some (b, record h { log = l; blocks = bpin a (store 4 (bread s a) (4 * k) b) s }))
          × HasRoom n l
          × Taken sb b h.blocks s
          × (b ≢ 0))

  module _ (fuel : ℕ) (enough : sb.size + bpb ≤ fuel * bpb) (few : sb.size + bpb ≤ 2 ^ 31) where
    pub ensure-Ensured :
        (n i : ℕ) (h : Held)
        → HasRoom (suc (suc n)) h.log
        → IsMapped sb h.blocks
        → allocated sb h.blocks 0 ≡ true
        → Ensured n i h (ensure fuel sb i h)
    unfolding ensure
    ensure-Ensured n i h room mapped boot = elim (Bool-cases (h.ip.addrs i == 0)) [
      | inr there ↦ inl (==→ne _ _ there, rw there refl)
      | inl absent ↦ elim (balloc_lem sb n fuel h.log h.blocks room mapped few enough) [
        | inl (e, full) ↦ inr (inl (==→eq _ _ absent, rw (absent, e) refl, full))
        | inr (b, l, s, e, room', taken) ↦
            let ne : b ≢ 0 = λ z. cc (taken.was_free, boot, ap (allocated sb h.blocks) z) in
            inr
              (inr (b, l, s, ==→eq _ _ absent, rw (absent, e, ne→== _ _ ne) refl, room', taken, ne))
      ]
    ]

    pub bmap_entry-Entered :
        (n a k : ℕ) (h : Held)
        → HasRoom (suc (suc (suc n))) h.log
        → IsMapped sb h.blocks
        → allocated sb h.blocks 0 ≡ true
        → Entered n a k h (bmap_entry fuel sb a k h)
    unfolding bmap_entry
    bmap_entry-Entered n a k h room mapped boot = elim (Bool-cases (entry_of h.blocks a k == 0)) [
      | inr there ↦ inl (==→ne _ _ there, rw there refl)
      | inl absent ↦ elim (balloc_lem sb (suc n) fuel h.log h.blocks room mapped few enough) [
        | inl (e, full) ↦ inr (inl (==→eq _ _ absent, rw (absent, e) refl, full))
        | inr (b, l, s, e, room', taken) ↦
            let ne : b ≢ 0 = λ z. cc (taken.was_free, boot, ap (allocated sb h.blocks) z) in
            let (l', e', room'') = log_write_ok a n (store 4 (bread s a) (4 * k) b) l s room' in
            inr (
              inr (
                b,
                l',
                s,
                ==→eq _ _ absent,
                rw (absent, e, ne→== _ _ ne, e') refl,
                room'',
                taken,
                ne,
              ))
      ]
    ]

  -- What `bmap` does for block `bn` of a file when it returns `addr` and leaves room for `n` blocks.
  pub record Mapped (n bn addr : ℕ) (h h' : Held) : Type 0 where
    pub room : HasRoom n h'.log
    pub mapped : IsMapped sb h'.blocks
    pub placed : IsPlaced sb h'
    pub result : addr ≡ block_of h'.ip h'.blocks bn
    pub full : addr ≡ 0 → IsFullDisk h'
    pub others :
        (k : ℕ) → k < maxfile → k ≢ bn → block_of h'.ip h'.blocks k ≡ block_of h.ip h.blocks k
    pub kept : block_of h.ip h.blocks bn ≢ 0 → h' ≡ h
    pub fresh :
        block_of h.ip h.blocks bn ≡ 0
        → addr ≢ 0
        → (addr < sb.size)
          × (allocated sb h.blocks addr ≡ false)
          × ((i : ℕ) → i < bsize → bread h'.blocks addr i ≡ 0)
    pub contents :
        (c : ℕ)
        → c < sb.size
        → allocated sb h.blocks c ≡ true
        → ((d : ℕ) → d < sb.size → bblock d sb ≢ c)
        → c ≢ h.ip.addrs ndirect
        → bread h'.blocks c ≡ bread h.blocks c
    pub keeps :
        (c : ℕ) → c < sb.size → allocated sb h.blocks c ≡ true → allocated sb h'.blocks c ≡ true
    pub now :
        block_of h.ip h.blocks bn ≡ 0
        → addr ≢ 0
        → (allocated sb h'.blocks addr ≡ true) × (addr ≢ h'.ip.addrs ndirect)
    pub index :
        (c : ℕ)
        → c < sb.size
        → allocated sb h.blocks c ≡ true
        → c ≢ h.ip.addrs ndirect
        → c ≢ h'.ip.addrs ndirect
    pub frame : h'.ip ≡ record h.ip { addrs = h'.ip.addrs }

  pub unchanged-Mapped :
      (n m bn : ℕ) (h : Held)
      → n ≤ m
      → HasRoom m h.log
      → IsMapped sb h.blocks
      → IsPlaced sb h
      → (block_of h.ip h.blocks bn ≡ 0 → IsFullDisk h)
      → Mapped n bn (block_of h.ip h.blocks bn) h h
  unchanged-Mapped n m bn h le room mapped placed full = record {
    room = record { slots = omega (arith, room.slots); large = room.large; inside = room.inside };
    mapped = mapped;
    placed = placed;
    result = refl;
    full = full;
    others = λ k lt ne. refl;
    kept = λ ne. refl;
    fresh = λ e ne. absurd (ne e);
    contents = λ c lt al apart ne. refl;
    keeps = λ c lt al. al;
    now = λ e ne. absurd (ne e);
    index = λ c lt al ne. ne;
    frame = refl;
  }

  pub direct-Mapped :
      (n m bn b : ℕ) (h : Held) (l : Log) (s : Blocks)
      → bn < ndirect
      → h.ip.addrs bn ≡ 0
      → n ≤ m
      → HasRoom m l
      → IsMapped sb h.blocks
      → IsPlaced sb h
      → Taken sb b h.blocks s
      → b ≢ 0
      → Mapped n bn b h (set_addr bn b (record h { log = l; blocks = s }))
  direct-Mapped n m bn b h l s lt none' le room mapped placed taken ne =
      let ind = h.ip.addrs ndirect in
      let same : ind ≢ 0 → bread s ind ≡ bread h.blocks ind =
        λ z. Taken-bread b ind h.blocks s taken (placed.marked z) (placed.apart z) in
      let far : (bn == ndirect) ≡ false = ground arith in
      record {
        room = record {
          slots = omega (arith, room.slots);
          large = room.large;
          inside = room.inside;
        };
        mapped = Taken-IsMapped b h.blocks s mapped taken;
        placed = record {
          boot = Taken-allocated b 0 h.blocks s taken (omega (arith, taken.in_disk)) placed.boot;
          marked = λ z. ground (
            arith,
            Taken-allocated b ind h.blocks s taken (placed.inside (ground arith))
                (placed.marked (ground arith)),
          );
          inside = λ z. ground (arith, placed.inside);
          apart = λ z c lt'. ground (arith, placed.apart (ground arith) c lt');
        };
        result = ground arith;
        full = λ z. absurd (ne z);
        others = λ k lt' ne'. elim (Bool-cases (ind == 0)) [
          | inl z ↦ ground arith
          | inr z ↦ ground (arith, same (==→ne _ _ z))
        ];
        kept = λ z. absurd (ground arith);
        fresh = λ e z. (taken.in_disk, taken.was_free, taken.zeroed);
        contents = λ c lt' al apart z. Taken-bread b c h.blocks s taken al apart;
        keeps = λ c lt' al. Taken-allocated b c h.blocks s taken lt' al;
        now = λ e z. (
          taken.now b taken.in_disk ∙ ground arith,
          λ q. elim (Bool-cases (ind == 0)) [
            | inl z' ↦ ground arith
            | inr z' ↦
                let same' : b ≡ ind = rw far at q in
                cc (taken.was_free, placed.marked (==→ne _ _ z'), ap (allocated sb h.blocks) same')
          ],
        );
        index = λ c lt' al z. rw far z;
        frame = refl;
      }

  -- A write to a block outside the free map changes no mark.
  pub allocated-bpin :
      (a c : ℕ) (v : Bytes) (s : Blocks)
      → ((d : ℕ) → d < sb.size → bblock d sb ≢ a)
      → c < sb.size
      → allocated sb (bpin a v s) c ≡ allocated sb s c
  allocated-bpin a c v s apart lt =
      let ne = apart c lt in
      let e : bread (bpin a v s) (bblock c sb) ≡ bread s (bblock c sb) =
        bread-bpin a (bblock c sb) v s ∙ ground arith in
      rw e

  pub indirect-Mapped :
      (n m bn b : ℕ) (h : Held) (l : Log) (s : Blocks)
      → sb.size + bpb ≤ 2 ^ 31
      → ndirect ≤ bn
      → bn < maxfile
      → h.ip.addrs ndirect ≢ 0
      → block_of h.ip h.blocks bn ≡ 0
      → n ≤ m
      → HasRoom m l
      → IsMapped sb h.blocks
      → IsPlaced sb h
      → Taken sb b h.blocks s
      → b ≢ 0
      → let a = h.ip.addrs ndirect in
        Mapped n bn b h
          (record h { log = l; blocks = bpin a (store 4 (bread s a) (4 * (bn - ndirect)) b) s })
  indirect-Mapped n m bn b h l s small ge lt is none' le room mapped placed taken ne =
      let a = h.ip.addrs ndirect in
      let k = bn - ndirect in
      let v = store 4 (bread s a) (4 * k) b in
      let s' = bpin a v s in
      let apart = placed.apart is in
      let mapped1 = Taken-IsMapped b h.blocks s mapped taken in
      let here : bread s' a ≡ v = bread-bpin a a v s ∙ ground arith in
      let old : bread s a ≡ bread h.blocks a =
        Taken-bread b a h.blocks s taken (placed.marked is) apart in
      let alloc = λ (c : ℕ) (small' : c < sb.size). allocated-bpin a c v s apart small' in
      let back = load-store 4 (bread s a) (4 * k) b (omega (arith, taken.in_disk)) in
      let low : ltb bn ndirect ≡ false = ground arith in
      let no_zero : (a == 0) ≡ false = ne→== _ _ is in
      let other : a ≢ b =
        λ q. cc (taken.was_free, placed.marked is, ap (allocated sb h.blocks) q) in
      let beside : bread s' b ≡ bread s b = bread-bpin a b v s ∙ ground (arith, other) in
      record {
        room = record {
          slots = omega (arith, room.slots);
          large = room.large;
          inside = room.inside;
        };
        mapped = record {
          marked = λ c lt'. alloc (bblock c sb) (mapped.inside c lt') ∙ mapped1.marked c lt';
          inside = mapped.inside;
          bytes = λ c. elim (Bool-cases (a == c)) [
            | inl e ↦
                rw (bread-bpin a c v s, e)
                  (store-AllBytes 4 (bread s a) (4 * k) b (mapped1.bytes a))
            | inr e ↦ rw (bread-bpin a c v s, e) (mapped1.bytes c)
          ];
        };
        placed = record {
          boot =
              alloc 0 (omega (arith, taken.in_disk))
              ∙ Taken-allocated b 0 h.blocks s taken (omega (arith, taken.in_disk)) placed.boot;
          marked = λ z.
              alloc a (placed.inside is)
              ∙ Taken-allocated b a h.blocks s taken (placed.inside is) (placed.marked is);
          inside = placed.inside;
          apart = placed.apart;
        };
        result = sym (rw (low, no_zero, here) back);
        full = λ z. absurd (ne z);
        others = λ j lt' ne'. elim (Bool-cases (ltb j ndirect)) [
          | inl e ↦ rw e refl
          | inr e ↦
              let apart' : (4 * (j - ndirect) + 4 ≤ 4 * k) ⊎ (4 * k + 4 ≤ 4 * (j - ndirect)) =
                ground (arith, ltb→le _ _ e) in
              rw (e, here)
                (ground
                  (arith, load-store_ne 4 4 (bread s a) (4 * k) (4 * (j - ndirect)) b apart', old))
        ];
        kept = λ z. absurd (z none');
        fresh = λ e z. (taken.in_disk, taken.was_free, λ i lt'. rw beside (taken.zeroed i lt'));
        contents = λ c lt' al far z.
            bread-bpin a c v s ∙ ground (arith, Taken-bread b c h.blocks s taken al far);
        keeps = λ c lt' al. alloc c lt' ∙ Taken-allocated b c h.blocks s taken lt' al;
        now = λ e z. (
          alloc b taken.in_disk ∙ (taken.now b taken.in_disk ∙ ground arith),
          λ q. other (sym q),
        );
        index = λ c lt' al z. z;
        frame = refl;
      }
