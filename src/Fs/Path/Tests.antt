-- ===== src/Fs/Path/Tests.antt =====
-- The theorem about skipelem at the path "/a//bc".
use fyp_os.Prelude.{ℕ, ◌≡◌, some, List, [], ◌∷◌, arith}
use fyp_os.Fs.Path.Elements.{elements, names_of, elements-names_of}

abbrev path : List ℕ
path = b'/' ∷ b'a' ∷ b'/' ∷ b'/' ∷ b'b' ∷ b'c' ∷ []

elements-names_of_example : elements 7 path ≡ some (names_of path)
elements-names_of_example = elements-names_of 7 path (omega arith)
