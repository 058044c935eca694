-- ===== src/Console/Buffer.antt =====
-- The indices of the input buffer of kernel/console.c, and the text that stands between them.
use fyp_os.Prelude.{
  ℕ, zero, suc, ◌+◌, ◌-◌, ◌%◌, ◌^◌, ◌≤◌, ◌<◌, ◌≡◌, ◌≢◌, refl, ap, ◌∙◌, List, [], ◌∷◌, inl, inr,
  Bool-cases, ==→eq, ==→ne, eq→==, ne→==, arith, Bytes, write, length, ◌==◌,
}
use fyp_os.Console.{Cons, less, inc, input_buf_size, line_feed, append}

-- The characters in the buffer, and how many of the newest belong to the line that is being edited.
abbrev pub used : Cons → ℕ
used s = less s.e s.r

abbrev pub pending : Cons → ℕ
pending s = less s.e s.w

-- The `n` characters before the index `e`, newest first.
abbrev pub back : Bytes → ℕ → ℕ → List ℕ
back buf e zero = []
back buf e (suc n) = buf (less e 1 % input_buf_size) ∷ back buf (less e 1) n

abbrev pub typed : Cons → List ℕ
typed s = back s.buf s.e (used s)

-- No character of the line that is being edited ends it.
pub record IsValid (s : Cons) : Type 0 where
  pub words : (s.r < 2 ^ 32) × (s.w < 2 ^ 32) × (s.e < 2 ^ 32)
  pub room : (pending s ≤ used s) × (used s ≤ input_buf_size)
  pub open_line : (i : ℕ) → i < pending s → s.buf (less s.e (i + 1) % input_buf_size) ≢ line_feed

-- The editor: its text, newest character first, and how many of them can still be edited.
abbrev pub Text : Type 0
Text = List ℕ × ℕ

abbrev pub text : Cons → Text
text s = (typed s, pending s)

abbrev pub rest : List ℕ → List ℕ
rest [] = []
rest (x ∷ xs) = xs

abbrev pub drop : ℕ → List ℕ → List ℕ
drop zero xs = xs
drop (suc n) xs = drop n (rest xs)

pub length-back : (buf : Bytes) (e n : ℕ) → length (back buf e n) ≡ n
length-back buf e zero = refl
length-back buf e (suc n) = ap suc (length-back buf (less e 1) n)

less-less : (e i : ℕ) → e < 2 ^ 32 → i < 2 ^ 31 → less (less e 1) i ≡ less e (i + 1)
less-less e i lt small = omega arith

back_same :
    (buf buf' : Bytes) (e n : ℕ)
    → e < 2 ^ 32
    → n < 2 ^ 31
    → ((i : ℕ)
        → i < n
        → buf (less e (i + 1) % input_buf_size) ≡ buf' (less e (i + 1) % input_buf_size))
    → back buf e n ≡ back buf' e n
back_same buf buf' e zero lt small same = refl
back_same buf buf' e (suc n) lt small same =
    let here = same 0 (omega arith) in
    let ih =
      back_same buf buf' (less e 1) n (omega arith) (omega arith)
        λ i below. rw (less-less e (i + 1) lt (omega arith)) (same (i + 1) (omega arith)) in
    rw (here, ih) refl

-- A character more.
back-append :
    (buf : Bytes) (e n c : ℕ)
    → e < 2 ^ 32
    → n < input_buf_size
    → back (write buf (e % input_buf_size) c) (inc e) (suc n) ≡ c ∷ back buf e n
back-append buf e n c lt small =
    let down : less (inc e) 1 ≡ e = omega arith in
    let here = eq→== (e % input_buf_size) (e % input_buf_size) refl in
    let others =
      back_same (write buf (e % input_buf_size) c) buf e n lt (omega arith)
        λ i below. ground arith in
    rw (down, here, others) refl

back-drop :
    (buf : Bytes) (k e m n : ℕ)
    → e < 2 ^ 32
    → m < 2 ^ 31
    → m ≡ k + n
    → drop k (back buf e m) ≡ back buf (less e k) n
back-drop buf zero e m n lt small sum =
    let same : m ≡ n = omega arith in let stay : less e 0 ≡ e = omega arith in rw (same, stay) refl
back-drop buf (suc k) e zero n lt small sum = absurd (omega arith)
back-drop buf (suc k) e (suc m) n lt small sum =
    let there : less (less e 1) k ≡ less e (suc k) = omega arith in
    back-drop buf k (less e 1) m n (omega arith) (omega arith) (omega arith) ∙ rw there refl

-- The buffer after the newest `k` characters are taken back.
abbrev pub erased : ℕ → Cons → Cons
erased k s = record s { e = less s.e k }

pub erased-Text :
    (k : ℕ) (s : Cons)
    → IsValid s
    → k ≤ pending s
    → IsValid (erased k s) × (text (erased k s) ≡ (drop k (typed s), pending s - k))
erased-Text k s v le =
    let (rw', ww, ew) = v.words in
    let (sub, fit) = v.room in
    let left : pending (erased k s) ≡ pending s - k = omega arith in
    let used' : used s ≡ k + used (erased k s) = omega arith in
    let rest' = back-drop s.buf k s.e (used s) (used (erased k s)) ew (omega arith) used' in
    (
      record {
        words = (rw', ww, omega arith);
        room = (omega arith, omega arith);
        open_line = λ i below.
            let at : less (less s.e k) (i + 1) ≡ less s.e (k + i + 1) = omega arith in
            rw at (v.open_line (k + i) (omega arith));
      },
      rw (rest', left) refl,
    )

-- The buffer with a character more, before the line ends with it or not.
pub append-Text :
    (c : ℕ) (s : Cons)
    → IsValid s
    → c < 256
    → used s < input_buf_size
    → (typed (append c s) ≡ c ∷ typed s)
      × (used (append c s) ≡ used s + 1)
      × (pending (append c s) ≡ pending s + 1)
unfolding append
append-Text c s v byte lt =
    let (rw', ww, ew) = v.words in
    let (sub, fit) = v.room in
    let more : less (inc s.e) s.r ≡ suc (used s) = omega arith in
    let same : c % 256 ≡ c = omega arith in
    (
      ap (back (append c s).buf (inc s.e)) more
          ∙ (ap (λ x. back (write s.buf (s.e % input_buf_size) x) (inc s.e) (suc (used s))) same
              ∙ back-append s.buf s.e (used s) c ew lt),
      omega arith,
      omega arith,
    )

pub ended-IsValid :
    (c : ℕ) (s : Cons)
    → IsValid s
    → used s < input_buf_size
    → IsValid (record (append c s) { w = (append c s).e })
unfolding append
ended-IsValid c s v lt =
    let (rw', ww, ew) = v.words in
    let none' : less (inc s.e) (inc s.e) ≡ 0 = omega arith in
    record {
      words = (rw', omega arith, omega arith);
      room = (omega arith, omega arith);
      open_line = λ i below. absurd (omega (arith, none'));
    }

pub append-IsValid :
    (c : ℕ) (s : Cons)
    → IsValid s
    → c < 256
    → used s < input_buf_size
    → c ≢ line_feed
    → IsValid (append c s)
unfolding append
append-IsValid c s v byte lt ne =
    let (rw', ww, ew) = v.words in
    let (sub, fit) = v.room in
    record {
      words = (rw', ww, omega arith);
      room = (omega arith, omega arith);
      open_line = λ i below. elim (Bool-cases (i == 0)) [
        | inl newest ↦
            let at : less (inc s.e) (i + 1) ≡ s.e = omega (arith, ==→eq _ _ newest) in
            let here = eq→== (s.e % input_buf_size) (s.e % input_buf_size) refl in
            let same : c % 256 ≡ c = omega arith in rw (at, here, same) ne
        | inr older ↦
            let ne' = ==→ne _ _ older in
            let at : less (inc s.e) (i + 1) ≡ less s.e (i - 1 + 1) = omega arith in
            let apart =
              ne→== (s.e % input_buf_size) (less s.e (i - 1 + 1) % input_buf_size)
                (λ e. absurd (omega arith)) in
            rw (at, apart) (v.open_line (i - 1) (omega arith))
      ];
    }
