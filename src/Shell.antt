-- ===== src/Shell.antt =====
-- The parser of user/sh.c. A text is the list of the bytes from `*ps` to `es`, and a word is the list of
-- its bytes, which nulterminate cuts off in the code. `none` is the panic of the shell.
pub mod Kinds
pub mod Tokens
mod Tests
use fyp_os.Prelude.{
  ℕ, zero, suc, ◌+◌, ◌*◌, ◌^◌, Bool, true, false, not, ◌&&◌, ◌||◌, Option, none, some, List, [],
  ◌∷◌, ◌++◌, leb, length, elem, ◌==◌, if◌then◌else◌, ◌>>=◌,
}

-- MAXARGS
abbrev pub maxargs : ℕ
maxargs = 10

abbrev pub token_2gt : ℕ
token_2gt = b'2' * 2 ^ 8 + b'>'

abbrev pub token_2gtgt : ℕ
token_2gtgt = b'2' * 2 ^ 16 + b'>' * 2 ^ 8 + b'>'

-- Space, tab, carriage return, line feed and vertical tab.
abbrev pub whitespace : List ℕ
whitespace = b' ' ∷ 9 ∷ 13 ∷ 10 ∷ 11 ∷ []

abbrev pub symbols : List ℕ
symbols = b'<' ∷ b'|' ∷ b'>' ∷ b'&' ∷ b';' ∷ b'(' ∷ b')' ∷ []

unfoldable pub skip_space : List ℕ → List ℕ
skip_space [] = []
skip_space (c ∷ s) = let rest = skip_space s in if elem c whitespace then rest else c ∷ s

-- The loop under `default_label`: the word and what follows it.
unfoldable pub take_word : List ℕ → List ℕ × List ℕ
take_word [] = ([], [])
take_word (c ∷ s) =
    let (w, rest) = take_word s in
    if elem c whitespace || elem c symbols then ([], c ∷ s) else (c ∷ w, rest)

-- How many `>` the text begins with, of two that are looked at.
abbrev pub arrows : List ℕ → ℕ
arrows [] = 0
arrows (c ∷ []) = if c == b'>' then 1 else 0
arrows (c ∷ d ∷ s) = if c == b'>' then (if d == b'>' then 2 else 1) else 0

abbrev pub split_at : ℕ → List ℕ → List ℕ × List ℕ
split_at zero s = ([], s)
split_at (suc n) [] = ([], [])
split_at (suc n) (c ∷ s) = let (q, rest) = split_at n s in (c ∷ q, rest)

-- The `switch` of `gettoken`: the token, its bytes and what follows them.
unfoldable pub lex : List ℕ → ℕ × List ℕ × List ℕ
lex [] = (0, [], [])
lex (c ∷ s) =
    let single : ℕ × List ℕ × List ℕ = (c, c ∷ [], s) in
    let (w, after) = take_word (c ∷ s) in
    let word : ℕ × List ℕ × List ℕ = (b'a', w, after) in
    let (q, rest) = split_at (arrows s) s in
    let error : ℕ × List ℕ × List ℕ =
      if arrows s == 2 then (token_2gtgt, c ∷ q, rest) else (token_2gt, c ∷ q, rest) in
    let (q1, rest1) = split_at 1 s in
    let arrow : ℕ × List ℕ × List ℕ = if arrows s == 0 then single else (b'+', c ∷ q1, rest1) in
    if c == b'2'
    then (if arrows s == 0 then word else error)
    else if c == b'>'
    then arrow
    else if elem c symbols
    then single
    else word

-- `gettoken`: the token, its bytes and the text behind it.
unfoldable pub gettoken : List ℕ → ℕ × List ℕ × List ℕ
gettoken text = let (tok, q, rest) = lex (skip_space text) in (tok, q, skip_space rest)

abbrev pub begins_in : List ℕ → List ℕ → Bool
begins_in toks [] = false
begins_in toks (c ∷ s) = elem c toks

unfoldable pub peek : List ℕ → List ℕ → Bool × List ℕ
peek toks text = let s = skip_space text in (begins_in toks s, s)

-- struct cmd, and a redirection less its command.
pub record Redir : Type 0 where
  pub file : List ℕ
  pub mode : ℕ
  pub fd : ℕ

pub data Cmd : Type 0 where
  execcmd : List (List ℕ) → Cmd
  redircmd : Redir → Cmd → Cmd
  pipecmd listcmd : Cmd → Cmd → Cmd
  backcmd : Cmd → Cmd

-- The flags of an open for each redirection; none for a token that is not one.
unfoldable pub redirection : ℕ → List ℕ → Option Redir
redirection tok q =
    if tok == b'<'
    then some (record { file = q; mode = 0; fd = 0 })
    else if tok == b'>'
    then some (record { file = q; mode = 0x001 + 0x200 + 0x400; fd = 1 })
    else if tok == b'+'
    then some (record { file = q; mode = 0x001 + 0x200; fd = 1 })
    else if tok == token_2gt
    then some (record { file = q; mode = 0x001 + 0x200 + 0x400; fd = 2 })
    else if tok == token_2gtgt
    then some (record { file = q; mode = 0x001 + 0x200; fd = 2 })
    else none

-- `parseredirs` with `k` rounds left: the redirections around the command, the innermost first.
unfoldable pub parseredirs : ℕ → List ℕ → Option (List Redir × List ℕ)
parseredirs zero text = some ([], text)
parseredirs (suc k) text =
    let (found, s) = peek (b'<' ∷ b'>' ∷ b'2' ∷ []) text in
    let (tok, q0, s1) = gettoken s in
    let (kind, q, s2) = gettoken s1 in
    let more : Option (List Redir × List ℕ) = elim (redirection tok q) [
      | none ↦ some ([], s)
      | some r ↦
          let rest = parseredirs k s2 >>= λ (rs, s3). some (r ∷ rs, s3) in
          if kind == b'a' then rest else none
    ] in
    if found then more else some ([], s)

abbrev pub wrap : List Redir → Cmd → Cmd
wrap [] c = c
wrap (r ∷ rs) c = wrap rs (redircmd r c)

-- The loop of `parseexec` with `k` rounds left: the arguments and the redirections among them.
unfoldable pub parseargs : ℕ → List (List ℕ) → List Redir → List ℕ → Option (Cmd × List ℕ)
parseargs zero args rs text = some (wrap rs (execcmd args), text)
parseargs (suc k) args rs text =
    let (ends, s) = peek (b'|' ∷ b')' ∷ b'&' ∷ b';' ∷ []) text in
    let (tok, q, s1) = gettoken s in
    let args' = args ++ (q ∷ []) in
    let more = parseredirs (suc k) s1 >>= λ (rs', s2). parseargs k args' (rs ++ rs') s2 in
    if ends
    then some (wrap rs (execcmd args), s)
    else if tok == 0
    then some (wrap rs (execcmd args), s1)
    else if not (tok == b'a') || leb maxargs (length args')
    then none
    else more

-- `parseblock` and `parseexec`, where `line` is `parseline`.
unfoldable pub parseblock : (List ℕ → Option (Cmd × List ℕ)) → List ℕ → Option (Cmd × List ℕ)
parseblock line text =
    let (opens, s) = peek (b'(' ∷ []) text in
    let (tok, q, s1) = gettoken s in
    let block = line s1 >>= λ (c, s2).
    let (closes, s3) = peek (b')' ∷ []) s2 in
    let (tok', q', s4) = gettoken s3 in
    let ended = parseredirs (length s4) s4 >>= λ (rs, s5). some (wrap rs c, s5) in
    if closes then ended else none in
    if opens then block else none

unfoldable pub parseexec : (List ℕ → Option (Cmd × List ℕ)) → List ℕ → Option (Cmd × List ℕ)
parseexec line text =
    let (opens, s) = peek (b'(' ∷ []) text in
    let simple = parseredirs (length s) s >>= λ (rs, s1). parseargs (length s1) [] rs s1 in
    if opens then parseblock line s else simple

-- `parsepipe` with `k` bars left.
unfoldable pub parsepipe : (List ℕ → Option (Cmd × List ℕ)) → ℕ → List ℕ → Option (Cmd × List ℕ)
parsepipe line zero text = none
parsepipe line (suc k) text = parseexec line text >>= λ (c, s).
    let (bar, s1) = peek (b'|' ∷ []) s in
    let (tok, q, s2) = gettoken s1 in
    let right = parsepipe line k s2 >>= λ (c', s3). some (pipecmd c c', s3) in
    if bar then right else some (c, s1)

-- The loop of `parseline` over `&`.
unfoldable pub parseback : ℕ → Cmd → List ℕ → Cmd × List ℕ
parseback zero c text = (c, text)
parseback (suc k) c text =
    let (amp, s) = peek (b'&' ∷ []) text in
    let (tok, q, s1) = gettoken s in
    let rest = parseback k (backcmd c) s1 in if amp then rest else (c, s)

-- `parseline` with `k` lists and blocks left.
unfoldable pub parseline : ℕ → List ℕ → Option (Cmd × List ℕ)
parseline zero text = none
parseline (suc k) text = parsepipe (parseline k) (suc k) text >>= λ (c, s).
    let (c1, s1) = parseback (length s) c s in
    let (semi, s2) = peek (b';' ∷ []) s1 in
    let (tok, q, s3) = gettoken s2 in
    let rest = parseline k s3 >>= λ (c2, s4). some (listcmd c1 c2, s4) in
    if semi then rest else some (c1, s2)

-- `parsecmd`; each list, block and bar takes one byte of the text at least.
unfoldable pub parsecmd : List ℕ → Option Cmd
parsecmd text =
    parseline (length text + 1) text >>= λ (c, s). elim (peek [] s).1 [ [] ↦ some c | _ ∷ _ ↦ none ]
