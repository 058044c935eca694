-- ===== src/Grep/Tests.antt =====
-- The matcher at the pattern `^a*b.$` and the text `aabc`.
use fyp_os.Prelude.{ℕ, List, [], ◌∷◌}
use fyp_os.Grep.{match_text}
use fyp_os.Grep.Language.{Matches, Decides, match_text-Decides}

abbrev pattern_bytes : List ℕ
pattern_bytes = b'^' ∷ b'a' ∷ b'*' ∷ b'b' ∷ b'.' ∷ b'$' ∷ []

abbrev text_bytes : List ℕ
text_bytes = b'a' ∷ b'a' ∷ b'b' ∷ b'c' ∷ []

match_text-Decides_example :
    Decides (match_text pattern_bytes text_bytes) (Matches pattern_bytes text_bytes)
match_text-Decides_example = match_text-Decides pattern_bytes text_bytes
