-- ===== src/Pipe/Tests.antt =====
-- Runs of kernel/pipe.c, and its theorems at a pipe that holds two bytes.
use fyp_os.Prelude.{◌+◌, ◌≡◌, refl, inl, true, false, some, [], ◌∷◌, ◌++◌, arith, get_elem?, length}
use fyp_os.Pipe.{Pipe, pipewrite, piperead, returned}
use fyp_os.Pipe.Queue.{IsValid, contents}
use fyp_os.Pipe.Transfer.{Wrote, pipewrite-Wrote, piperead_fifo}

abbrev two : Pipe
two = record { bytes = λ i. i + 1; nread = 511; nwrite = 513; readopen = true; writeopen = true }

two-IsValid : IsValid two
two-IsValid = omega arith

contents-two : contents two ≡ 512 ∷ 1 ∷ []
contents-two = refl

pipewrite-Wrote_example :
    Wrote
      (λ i. get_elem? (8 ∷ 9 ∷ []) i)
      2
      0
      510
      two
      (pipewrite (λ i. get_elem? (8 ∷ 9 ∷ []) i) false 2 0 two)
pipewrite-Wrote_example =
    pipewrite-Wrote (λ i. get_elem? (8 ∷ 9 ∷ []) i) 2 0 510 two two-IsValid refl refl

piperead_fifo_example :
    let (o, out, pi') = piperead (λ i. true) false 1 two in
    (contents two ≡ out ++ contents pi')
    × IsValid pi'
    × (length out ≡ 1)
    × (o ≡ returned (some (length out)))
piperead_fifo_example =
    piperead_fifo (λ i. true) (λ i. refl) false 1 two two-IsValid (inl (omega arith))

abbrev empty : Pipe
empty = record two { nread = 513 }
