-- ===== src/Shell/Tests.antt =====
-- The shell reads `ls 2>>e|wc`.
use fyp_os.Prelude.{ℕ, ◌≡◌, refl, some, List, [], ◌∷◌}
use fyp_os.Shell.{
  execcmd, redircmd, pipecmd, gettoken, skip_space, lex, take_word, peek, parseredirs, redirection,
  parseargs, parseexec, parsepipe, parseline, parseback, parsecmd,
}
use fyp_os.Shell.Tokens.{Split, gettoken-Split}

abbrev line : List ℕ
line = b'l' ∷ b's' ∷ b' ' ∷ b'2' ∷ b'>' ∷ b'>' ∷ b'e' ∷ b'|' ∷ b'w' ∷ b'c' ∷ []

parsecmd_run :
    parsecmd line
    ≡ some (
        pipecmd
          (redircmd
            (record { file = b'e' ∷ []; mode = 0x201; fd = 2 })
            (execcmd ((b'l' ∷ b's' ∷ []) ∷ [])))
          (execcmd ((b'w' ∷ b'c' ∷ []) ∷ [])))
unfolding parsecmd parseline parsepipe parseexec parseargs parseredirs redirection parseback peek
    gettoken lex take_word skip_space
parsecmd_run = refl

gettoken-Split_example :
    Split
      (b' ' ∷ line)
      (gettoken (b' ' ∷ line)).0
      (gettoken (b' ' ∷ line)).1
      (gettoken (b' ' ∷ line)).2
gettoken-Split_example = gettoken-Split (b' ' ∷ line) refl
