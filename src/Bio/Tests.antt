-- ===== src/Bio/Tests.antt =====
-- The theorems about kernel/bio.c at a cache of two buffers: one holds block 5 of device 1, the
-- other is free.
use fyp_os.Prelude.{
  ℕ, ◌≡◌, ◌⊎◌, ◌≤◌, refl, true, false, none, some, [], ◌∷◌, get_elem?, arith, Bytes, inl,
}
use fyp_os.Bio.{Buf, Bcache, is_for, bread, brelse}
use fyp_os.Bio.Coherence.{Coherent}
use fyp_os.Bio.Transfer.{IsExhausted, bread-Coherent}
use fyp_os.Bio.Release.{Released, brelse-Coherent}

abbrev held : Buf
held = record { valid = true; dev = 1; blockno = 5; refcnt = 1; contents = λ i. 5 }

abbrev cache : Bcache
cache = record {
  bufs = held ∷ record { valid = false; dev = 0; blockno = 0; refcnt = 0; contents = λ i. 0 } ∷ [];
  ring = 1 ∷ 0 ∷ [];
}

abbrev blocks : ℕ → Bytes
blocks b i = b

coherent : Coherent 1 blocks blocks cache
coherent = record {
  shows = λ i b p at h val. ground arith;
  kept = λ b. inl refl;
  single = λ i j b p q at at' h h'. ground arith;
  reached = λ i p at. ground arith;
}

bread-Coherent_example :
    (bread blocks 1 7 cache ≡ none) × IsExhausted 1 blocks blocks 7 cache
    ⊎ ((i : ℕ) × (c' : Bcache) × (p : Buf) × (bread blocks 1 7 cache ≡ some (i, c'))
        × (get_elem? c'.bufs i ≡ some p)
        × (is_for 1 7 p ≡ true)
        × (p.valid ≡ true)
        × (1 ≤ p.refcnt)
        × (p.contents ≡ blocks 7)
        × Coherent 1 blocks blocks c')
bread-Coherent_example = bread-Coherent 1 blocks blocks 7 cache coherent

brelse-Coherent_example :
    Coherent 1 blocks blocks (brelse 0 cache) × Released 0 held cache (brelse 0 cache)
brelse-Coherent_example =
    brelse-Coherent 1 blocks blocks 0 cache held coherent refl (omega arith) (omega arith)
      (λ e b h. refl)
