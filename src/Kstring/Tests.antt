-- ===== src/Kstring/Tests.antt =====
-- Runs of kernel/string.c, and its theorems at concrete strings.
use fyp_os.Prelude.{◌≡◌, refl, Bytes, get_or, [], ◌∷◌}
use fyp_os.Kstring.{memmove}
use fyp_os.Kstring.Names.{chars}

-- "abc" at 10 and "abd" at 20.
abbrev mem : Bytes
mem a =
    get_or
      (0 ∷ 0 ∷ 0 ∷ 0 ∷ 0 ∷ 0 ∷ 0 ∷ 0 ∷ 0 ∷ 0 ∷ 97 ∷ 98 ∷ 99 ∷ 0 ∷ 7 ∷ 7 ∷ 7 ∷ 7 ∷ 7 ∷ 7 ∷ 97 ∷ 98
        ∷ 100 ∷ [])
      a 0

memmove_overlap_run : memmove mem 11 10 3 12 ≡ 98
unfolding memmove
memmove_overlap_run = refl

chars-mem : chars 9 mem 10 ≡ 97 ∷ 98 ∷ 99 ∷ []
unfolding chars
chars-mem = refl
