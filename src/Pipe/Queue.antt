-- ===== src/Pipe/Queue.antt =====
-- The ring of kernel/pipe.c as a queue of bytes.
use fyp_os.Prelude.{
  ℕ, zero, suc, ◌+◌, ◌-◌, ◌%◌, ◌^◌, ◌≤◌, ◌<◌, ◌≡◌, ◌≢◌, refl, ap, sym, ◌∙◌, List, [], ◌∷◌, ◌++◌,
  arith, Bytes, write, length, ◌==◌,
}
use native.Mathlib.Numerals.{add-one}
use fyp_os.Pipe.{Pipe, pipesize, inc, put, take_one, full}

-- The number of bytes in the ring; the counters run modulo 2 ^ 32.
abbrev pub used : Pipe → ℕ
used pi = (pi.nwrite + 2 ^ 32 - pi.nread) % 2 ^ 32

pub record IsValid (pi : Pipe) : Type 0 where
  pub read_word : pi.nread < 2 ^ 32
  pub write_word : pi.nwrite < 2 ^ 32
  pub fits : used pi ≤ pipesize

-- `n` bytes from the counter value `r` on.
abbrev pub window : Bytes → ℕ → ℕ → List ℕ
window bytes r zero = []
window bytes r (suc n) = bytes (r % pipesize) ∷ window bytes (inc r) n

-- The bytes in the ring, oldest first.
abbrev pub contents : Pipe → List ℕ
contents pi = window pi.bytes pi.nread (used pi)

length-window : (bytes : Bytes) (r n : ℕ) → length (window bytes r n) ≡ n
length-window bytes r zero = refl
length-window bytes r (suc n) = ap suc (length-window bytes (inc r) n)

pub length-contents : (pi : Pipe) → length (contents pi) ≡ used pi
length-contents pi = length-window pi.bytes pi.nread (used pi)

window-write :
    (bytes : Bytes) (r n i ch : ℕ)
    → n < pipesize
    → i ≡ (r + n) % pipesize
    → window (write bytes i ch) r (suc n) ≡ window bytes r n ++ (ch ∷ [])
window-write bytes r zero i ch lt e = ground arith
window-write bytes r (suc n) i ch lt e =
    ground (arith, window-write bytes (inc r) n i ch (omega arith) (omega arith))

window_of_pos :
    (bytes : Bytes) (r n : ℕ)
    → n ≢ 0
    → window bytes r n ≡ bytes (r % pipesize) ∷ window bytes (inc r) (n - 1)
window_of_pos bytes r zero h = absurd (h refl)
window_of_pos bytes r (suc n) h = ap (λ k. window bytes r (suc k)) (omega arith)

pub full_iff_used : (pi : Pipe) → IsValid pi → full pi ≡ (used pi == pipesize)
full_iff_used pi v = ground arith

pub used-put :
    (ch : ℕ) (pi : Pipe) → IsValid pi → used pi < pipesize → used (put ch pi) ≡ used pi + 1
unfolding put
used-put ch pi v lt = omega arith

pub put-IsValid : (ch : ℕ) (pi : Pipe) → IsValid pi → used pi < pipesize → IsValid (put ch pi)
unfolding put
put-IsValid ch pi v lt = omega arith

-- A byte put into a ring that is not full comes last.
pub contents-put :
    (ch : ℕ) (pi : Pipe)
    → IsValid pi
    → used pi < pipesize
    → contents (put ch pi) ≡ contents pi ++ (ch ∷ [])
unfolding put
contents-put ch pi v lt =
    ap (window (put ch pi).bytes pi.nread) (used-put ch pi v lt ∙ add-one (used pi))
    ∙ window-write pi.bytes pi.nread (used pi) (pi.nwrite % pipesize) ch lt (ground (arith, v.fits))

pub used-take_one : (pi : Pipe) → IsValid pi → used pi ≢ 0 → used (take_one pi) ≡ used pi - 1
unfolding take_one
used-take_one pi v ne = omega arith

pub take_one-IsValid : (pi : Pipe) → IsValid pi → used pi ≢ 0 → IsValid (take_one pi)
unfolding take_one
take_one-IsValid pi v ne = omega arith

-- The byte that the reader takes is the first.
pub contents-take_one :
    (pi : Pipe)
    → IsValid pi
    → used pi ≢ 0
    → contents pi ≡ pi.bytes (pi.nread % pipesize) ∷ contents (take_one pi)
unfolding take_one
contents-take_one pi v ne =
    window_of_pos pi.bytes pi.nread (used pi) ne
    ∙ ap (λ k. pi.bytes (pi.nread % pipesize) ∷ window pi.bytes (inc pi.nread) k)
        (sym (used-take_one pi v ne))
