-- ===== src/Console/Editing.antt =====
-- The input buffer of kernel/console.c as a list of characters, newest first.
use fyp_os.Prelude.{
  ℕ, Bool, zero, suc, ◌+◌, ◌-◌, ◌<◌, ◌≡◌, ◌≢◌, refl, ap, ◌∙◌, true, false, not, ◌&&◌, ◌||◌, List,
  [], ◌∷◌, inl, inr, ltb, if◌then◌else◌, Bool-cases, eq→==, ne→==, arith, length, ◌==◌,
}
use fyp_os.Console.{
  Cons, Effect, backspace, less, input_buf_size, line_feed, ctrl_p, ctrl_u, ctrl_h, delete,
  ends_line, append, type_char, kill_line, consoleintr,
}
use fyp_os.Console.Buffer.{
  used, pending, typed, IsValid, Text, text, rest, drop, length-back, erased, erased-Text,
  append-Text, ended-IsValid, append-IsValid,
}

-- The character that a key puts into the text: a line feed for a carriage return, else its own.
abbrev pub char_of : ℕ → ℕ
char_of c = if c == 13 then 10 else c

-- Whether a character ends the line: a line feed, C('D'), or the one that makes 128 characters.
abbrev pub ends : ℕ → ℕ → Bool
ends ch n = (ch == 10) || ((ch == 4) || (n == 128))

-- What a key does to the text: nothing for C('P'), the line away for C('U'), its last character away for
-- C('H') and delete, or a character more.
abbrev pub edit : ℕ → Text → Text
edit c (xs, n) =
    if c == 16
    then (xs, n)
    else if c == 21
    then (drop n xs, 0)
    else if (c == 8) || (c == 127)
    then (if n == 0 then (xs, n) else (rest xs, n - 1))
    else if not (c == 0) && ltb (length xs) 128
    then (char_of c ∷ xs, if ends (char_of c) (length xs + 1) then 0 else n + 1)
    else (xs, n)

-- Backspace, blank, backspace for each of `n` characters.
abbrev pub rubout : ℕ → List ℕ
rubout zero = []
rubout (suc n) = 8 ∷ 32 ∷ 8 ∷ rubout n

-- What a key makes the handler do besides: the echo, a wakeup of the readers, and a procdump.
abbrev pub answer : ℕ → Text → Effect
answer c (xs, n) =
    if c == 16
    then record { echo = []; wakes = false; dumps = true }
    else if c == 21
    then record { echo = rubout n; wakes = false; dumps = false }
    else if (c == 8) || (c == 127)
    then record { echo = (if n == 0 then [] else rubout 1); wakes = false; dumps = false }
    else if not (c == 0) && ltb (length xs) 128
    then record { echo = char_of c ∷ []; wakes = ends (char_of c) (length xs + 1); dumps = false }
    else record { echo = []; wakes = false; dumps = false }

kill_line-erased :
    (k : ℕ) (s : Cons)
    → IsValid s
    → pending s ≡ k
    → ((kill_line k s).0 ≡ rubout k) × ((kill_line k s).1 ≡ erased k s)
unfolding kill_line
kill_line-erased zero s v e =
    let (rw', ww, ew) = v.words in
    let stay : s.e ≡ less s.e 0 = omega arith in (refl, ap (λ x. record s { e = x }) stay)
kill_line-erased (suc k) s v e =
    let (rw', ww, ew) = v.words in
    let open' : (s.e == s.w) ≡ false = ground arith in
    let char = ne→== _ _ (v.open_line 0 (omega arith)) in
    let (v', t') = erased-Text 1 s v (omega arith) in
    let (echo, left) = kill_line-erased k (erased 1 s) v' (omega arith) in
    let there : less (less s.e 1) k ≡ less s.e (suc k) = omega arith in
    rw (open', char) (ap (λ l. 8 ∷ 32 ∷ 8 ∷ l) echo, left ∙ ap (λ x. record s { e = x }) there)

pair_same : {a b : List ℕ} {m n : ℕ} → a ≡ b → m ≡ n → ◌≡◌ {A = Text} (a, m) (b, n)
pair_same e f = rw (e, f) refl

abbrev pub Edits : ℕ → Cons → Effect → Cons → Type 0
Edits c s effect s' = IsValid s' × (text s' ≡ edit c (text s)) × (effect ≡ answer c (text s))

-- A character that is neither a key of the editor nor 0, with room for it.
type_char-Text :
    (c : ℕ) (s : Cons)
    → IsValid s
    → c < 256
    → (not (c == 0) && ltb (used s) input_buf_size) ≡ true
    → IsValid (type_char c s).1
      × (text (type_char c s).1 ≡ (
        char_of c ∷ typed s,
        if ends (char_of c) (length (typed s) + 1) then 0 else pending s + 1,
      ))
      × ((type_char c s).0 ≡ record {
        echo = char_of c ∷ [];
        wakes = ends (char_of c) (length (typed s) + 1);
        dumps = false;
      })
unfolding type_char ends_line
type_char-Text c s v byte go =
    let room' : used s < input_buf_size = ground arith in
    let small : char_of c < 256 = ground arith in
    let (more, used', pending') = append-Text (char_of c) s v small room' in
    let len = length-back s.buf s.e (used s) in
    let count : used (append (char_of c) s) ≡ length (typed s) + 1 = omega arith in
    let shown : (char_of c == backspace) ≡ false = ne→== _ _ (λ e. absurd (omega arith)) in
    elim (Bool-cases (ends (char_of c) (length (typed s) + 1))) [
      | inl over ↦
          let (rw', ww, ew) = v.words in
          let none' : less (append (char_of c) s).e (append (char_of c) s).e ≡ 0 = omega arith in
          rw (go, count, over, shown)
            (ended-IsValid (char_of c) s v room', pair_same more none', refl)
      | inr open' ↦
          let plain : char_of c ≢ line_feed =
            λ e. (let here = eq→== _ _ e in absurd (ground arith)) in
          rw (go, count, open', shown)
            (append-IsValid (char_of c) s v small room' plain, pair_same more pending', refl)
    ]

type_char_stop :
    (c : ℕ) (s : Cons)
    → (not (c == 0) && ltb (used s) input_buf_size) ≡ false
    → type_char c s ≡ (record { echo = []; wakes = false; dumps = false }, s)
unfolding type_char
type_char_stop c s stop = rw stop refl

-- The interrupt handler of the console, from a buffer in which no character of the open line is a line
-- feed: the buffer stays so, and its text becomes what the editor makes of it for the key. C('U') takes
-- the whole open line away and no more, C('H') or delete its last character; C('P') nothing; any other
-- key but 0 adds a character while there is room, which ends the line if it is a line feed, a carriage
-- return or C('D'), or fills the buffer. The readers are woken exactly when a line ends. A character
-- that is added is echoed, and backspace, blank, backspace for each one that is taken away.
pub consoleintr-edit :
    (c : ℕ) (s : Cons) → IsValid s → c < 256 → Edits c s (consoleintr c s).0 (consoleintr c s).1
unfolding consoleintr
consoleintr-edit c s v byte = elim (Bool-cases (c == ctrl_p)) [
  | inl p ↦ rw p (v, refl, refl)
  | inr not_p ↦ elim (Bool-cases (c == ctrl_u)) [
    | inl u ↦
        let (sub, fit) = v.room in
        let (v', t') = erased-Text (pending s) s v (omega arith) in
        let none' : pending s - pending s ≡ 0 = omega arith in
        let (echo, left) = kill_line-erased (pending s) s v refl in
        rw (not_p, u, left, echo) (v', t' ∙ pair_same refl none', refl)
    | inr not_u ↦ elim (Bool-cases ((c == ctrl_h) || (c == delete))) [
      | inl h ↦ elim (Bool-cases (s.e == s.w)) [
        | inl at ↦
            let none' : (pending s == 0) ≡ true = ground arith in
            rw (not_p, not_u, h, at, none') (v, refl, refl)
        | inr more ↦
            let some' : (pending s == 0) ≡ false = ground arith in
            let (v', t') = erased-Text 1 s v (ground arith) in
            rw (not_p, not_u, h, more, some') (v', t', refl)
      ]
      | inr not_h ↦
          let len = length-back s.buf s.e (used s) in
          elim (Bool-cases (not (c == 0) && ltb (used s) input_buf_size)) [
            | inl go ↦ rw (not_p, not_u, not_h, len, go) (rw len at (type_char-Text c s v byte go))
            | inr stop ↦
                rw (not_p, not_u, not_h, len, stop, type_char_stop c s stop) (v, refl, refl)
          ]
    ]
  ]
]
