-- ===== src/Grep.antt =====
-- The pattern matcher of user/grep.c. A string is the list of its bytes before the NUL.
pub mod Language
mod Tests
use fyp_os.Prelude.{ℕ, Bool, true, false, ◌&&◌, ◌||◌, List, [], ◌∷◌, ◌==◌, if◌then◌else◌}

-- `*text != '\0' && (re[0] == '.' || re[0] == *text)`, and `matchhere` of the rest by `here`.
unfoldable pub matchone : (List ℕ → Bool) → ℕ → List ℕ → Bool
matchone here c [] = false
matchone here c (t ∷ text) = ((c == b'.') || (c == t)) && here text

-- `matchstar`, where `here` is `matchhere` of the rest of the pattern.
unfoldable pub matchstar : (List ℕ → Bool) → ℕ → List ℕ → Bool
matchstar here c [] = here []
matchstar here c (t ∷ text) =
    here (t ∷ text) || (((t == c) || (c == b'.')) && matchstar here c text)

abbrev pub is_end : List ℕ → Bool
is_end [] = true
is_end (_ ∷ _) = false

unfoldable pub matchhere : List ℕ → List ℕ → Bool
matchhere [] text = true
matchhere (c ∷ []) text = if c == b'$' then is_end text else matchone (matchhere []) c text
matchhere (c ∷ d ∷ re) text =
    let starred = matchstar (matchhere re) c text in
    let plain = matchone (matchhere (d ∷ re)) c text in if d == b'*' then starred else plain

-- The loop of `match` over the ends of the text, the empty one too.
unfoldable pub match_loop : List ℕ → List ℕ → Bool
match_loop re [] = matchhere re []
match_loop re (t ∷ text) = matchhere re (t ∷ text) || match_loop re text

-- `match`
unfoldable pub match_text : List ℕ → List ℕ → Bool
match_text [] text = match_loop [] text
match_text (c ∷ re) text = if c == b'^' then matchhere re text else match_loop (c ∷ re) text
