-- ===== src/Console.antt =====
-- kernel/console.c: the input buffer with line editing, which the interrupt handler fills, and the
-- calls that read and write the console. `cons.lock` makes the handler, and a call up to its sleep, one
-- step.
pub mod Buffer
pub mod Editing
pub mod Reading
mod Tests
use fyp_os.Prelude.{
  ℕ, zero, suc, ◌+◌, ◌-◌, ◌%◌, ◌^◌, Bool, true, false, not, ◌&&◌, ◌||◌, Option, none, some, Bytes,
  write, ◌==◌, ltb, if◌then◌else◌, List, [], ◌∷◌, ◌++◌,
}

abbrev pub backspace : ℕ
backspace = 0x100

abbrev pub input_buf_size : ℕ
input_buf_size = 128

-- The codes of the keys: C('D'), C('H'), line feed, carriage return, C('P'), C('U') and delete.
abbrev pub ctrl_d : ℕ
ctrl_d = 4

abbrev pub ctrl_h : ℕ
ctrl_h = 8

abbrev pub line_feed : ℕ
line_feed = 10

abbrev pub carriage_return : ℕ
carriage_return = 13

abbrev pub ctrl_p : ℕ
ctrl_p = 16

abbrev pub ctrl_u : ℕ
ctrl_u = 21

abbrev pub delete : ℕ
delete = 127

-- `cons`
pub record Cons : Type 0 where
  pub buf : Bytes
  pub r : ℕ
  pub w : ℕ
  pub e : ℕ

-- `uint` arithmetic on the indices
abbrev pub less : ℕ → ℕ → ℕ
less a b = (a + 2 ^ 32 - b) % 2 ^ 32

abbrev pub inc : ℕ → ℕ
inc a = (a + 1) % 2 ^ 32

-- `consputc`: the characters that go to the uart.
abbrev pub consputc : ℕ → List ℕ
consputc c = if c == backspace then 8 ∷ 32 ∷ 8 ∷ [] else c ∷ []

-- The loop of the kill key with `k` characters of the line left: the echo and the buffer.
unfoldable pub kill_line : ℕ → Cons → List ℕ × Cons
kill_line zero s = ([], s)
kill_line (suc k) s =
    let (echo, s') = kill_line k (record s { e = less s.e 1 }) in
    if not (s.e == s.w) && not (s.buf (less s.e 1 % input_buf_size) == line_feed)
    then (consputc backspace ++ echo, s')
    else ([], s)

-- What the handler does besides: the echo, whether it wakes the readers, and whether it calls `procdump`.
pub record Effect : Type 0 where
  pub echo : List ℕ
  pub wakes : Bool
  pub dumps : Bool

abbrev pub silent : List ℕ → Effect
silent echo = record { echo = echo; wakes = false; dumps = false }

-- `c = (c == '\r') ? '\n' : c`
abbrev pub translate : ℕ → ℕ
translate c = if c == carriage_return then line_feed else c

-- `cons.buf[cons.e++ % INPUT_BUF_SIZE] = c`
unfoldable pub append : ℕ → Cons → Cons
append c s = record s { buf = write s.buf (s.e % input_buf_size) (c % 256); e = inc s.e }

-- A line feed or C('D'), or `n` characters that fill the buffer.
unfoldable pub ends_line : ℕ → ℕ → Bool
ends_line ch n = (ch == line_feed) || ((ch == ctrl_d) || (n == input_buf_size))

-- The default case of `consoleintr`.
unfoldable pub type_char : ℕ → Cons → Effect × Cons
type_char c s =
    let ch = translate c in
    let s1 = append ch s in
    if not (c == 0) && ltb (less s.e s.r) input_buf_size
    then (if ends_line ch (less s1.e s1.r)
        then (record { echo = consputc ch; wakes = true; dumps = false }, record s1 { w = s1.e })
        else (silent (consputc ch), s1))
    else (silent [], s)

unfoldable pub consoleintr : ℕ → Cons → Effect × Cons
consoleintr c s =
    let (echo, s') = kill_line (less s.e s.w) s in
    if c == ctrl_p
    then (record { echo = []; wakes = false; dumps = true }, s)
    else if c == ctrl_u
    then (silent echo, s')
    else if (c == ctrl_h) || (c == delete)
    then (if s.e == s.w
        then (silent [], s)
        else (silent (consputc backspace), record s { e = less s.e 1 }))
    else type_char c s

-- How a run of the reader's loop ends: the call returns what it has read, or -1 where it was killed;
-- or it sleeps with so many bytes left to read.
pub data Outcome : Type 0 where
  returned : Outcome
  failed : Outcome
  sleeps : ℕ → Outcome

-- The loop of `consoleread` while it does not sleep, with `n` bytes left of `target`; the bytes that
-- `copyout` takes at each index, in order. `killed` is the flag of the process.
module _ (copyout : ℕ → Bool) (killed : Bool) (target : ℕ) where
  unfoldable pub consoleread : ℕ → Cons → List ℕ × Outcome × Cons
  consoleread zero s = ([], returned, s)
  consoleread (suc n) s =
      let c = s.buf (s.r % input_buf_size) in
      let s1 = record s { r = inc s.r } in
      let rest = consoleread n s1 in
      if s.r == s.w
      then ([], if killed then failed else sleeps (suc n), s)
      else if c == ctrl_d
      then ([], returned, if ltb (suc n) target then s else s1)
      else if not (copyout (target - suc n))
      then ([], returned, s1)
      else if c == line_feed
      then (c ∷ [], returned, s1)
      else (c ∷ rest.0, rest.1, rest.2)

-- `consolewrite` with `n` bytes left from index `i` on: what goes to the uart, and how many bytes.
-- `copyin` gives the byte at an index, or fails.
unfoldable pub consolewrite : (ℕ → Option ℕ) → ℕ → ℕ → List ℕ × ℕ
consolewrite copyin zero i = ([], i)
consolewrite copyin (suc n) i = elim (copyin i) [
  | none ↦ ([], i)
  | some c ↦ let rest = consolewrite copyin n (i + 1) in (c ∷ rest.0, rest.1)
]
