-- ===== src/Console/Tests.antt =====
-- A console buffer whose indices have run past 2 ^ 32, with an open line of two characters.
use fyp_os.Prelude.{◌-◌, ◌^◌, ◌≡◌, arith, true, false}
use fyp_os.Console.{Cons, consoleintr, consoleread}
use fyp_os.Console.Reading.{view, ready, read_line, consoleread-read_line}
use fyp_os.Console.Buffer.{IsValid}
use fyp_os.Console.Editing.{Edits, consoleintr-edit}

-- Characters at the indices 2 ^ 32 - 1 and 0.
abbrev wrapped : Cons
wrapped = record { buf = λ i. 97; r = 2 ^ 32 - 1; w = 2 ^ 32 - 1; e = 1 }

wrapped-IsValid : IsValid wrapped
wrapped-IsValid = record {
  words = (omega arith, omega arith, omega arith);
  room = (omega arith, omega arith);
  open_line = λ i below. omega arith;
}

consoleintr-edit_example : Edits 21 wrapped (consoleintr 21 wrapped).0 (consoleintr 21 wrapped).1
consoleintr-edit_example = consoleintr-edit 21 wrapped wrapped-IsValid (omega arith)

-- Two characters of a line that has ended.
abbrev waiting : Cons
waiting = record { buf = λ i. 97; r = 2 ^ 32 - 1; w = 1; e = 1 }

consoleread-read_line_example :
    view (consoleread (λ i. true) false 1 1 waiting) ≡ read_line true 1 (ready waiting)
consoleread-read_line_example =
    consoleread-read_line 1 1 waiting (omega arith) (omega arith, omega arith)
