-- ===== src/Shell/Tokens.antt =====
-- How gettoken of user/sh.c splits a text.
use fyp_os.Prelude.{
  ℕ, ◌<◌, ◌≡◌, ◌≢◌, ◌⊎◌, inl, inr, refl, sym, ap, ◌∙◌, subst, true, false, List, [], ◌∷◌, ◌++◌,
  elem, length, arith, Bool-cases, length-append,
}
use fyp_os.Shell.{whitespace, skip_space, lex, gettoken}
use fyp_os.Shell.Kinds.{IsToken, end_of_text, Lexed, lex-Lexed}

abbrev pub IsBlank : List ℕ → Type 0
IsBlank [] = Unit
IsBlank (c ∷ s) = (elem c whitespace ≡ true) × IsBlank s

-- A text that is empty or starts with a byte that is not blank.
abbrev pub Starts : List ℕ → Type 0
Starts [] = Unit
Starts (c ∷ s) = elem c whitespace ≡ false

-- A token `tok` with the bytes `q`, between blanks, and the text behind it.
pub record Split (text : List ℕ) (tok : ℕ) (q rest : List ℕ) : Type 0 where
  pub before : List ℕ
  pub after : List ℕ
  pub whole : text ≡ before ++ (q ++ (after ++ rest))
  pub blank_before : IsBlank before
  pub blank_after : IsBlank after
  pub starts : Starts rest
  pub token : IsToken tok q (after ++ rest)
  pub progress : (tok ≡ 0) × (q ≡ []) × (rest ≡ []) ⊎ (tok ≢ 0) × (length rest < length text)

skip_space-IsBlank :
    (s : List ℕ)
    → (before : List ℕ) × (s ≡ before ++ skip_space s) × IsBlank before × Starts (skip_space s)
unfolding skip_space
skip_space-IsBlank [] = ([], refl, tt, tt)
skip_space-IsBlank (c ∷ s) = elim (Bool-cases (elem c whitespace)) [
  | inl blank ↦
      let (before, e, bs, st) = skip_space-IsBlank s in
      (c ∷ before, rw blank (ap (λ l. c ∷ l) e), (blank, bs), rw blank st)
  | inr ink ↦ ([], rw ink refl, tt, rw ink ink)
]

elem-behind : (xs ys : List ℕ) → elem 0 (xs ++ ys) ≡ false → elem 0 ys ≡ false
elem-behind [] ys e = e
elem-behind (x ∷ xs) ys e = elem-behind xs ys (ground (arith, e))

whole_token :
    (after rest : List ℕ) {c : ℕ} {p q s t : List ℕ}
    → q ≡ c ∷ p
    → s ≡ p ++ t
    → t ≡ after ++ rest
    → (c ∷ s) ≡ q ++ (after ++ rest)
whole_token after rest {c} {p} here e e' =
    ap (λ l. c ∷ l) (e ∙ ap (λ l. p ++ l) e') ∙ ap (λ l. l ++ (after ++ rest)) (sym here)

shorter :
    (before : List ℕ) (c : ℕ) (p after rest : List ℕ) {text : List ℕ}
    → text ≡ before ++ (c ∷ (p ++ (after ++ rest)))
    → length rest < length text
shorter before c p after rest {text} e =
    let total : length text ≡ length (before ++ (c ∷ (p ++ (after ++ rest)))) = ap length e in
    omega (
      arith,
      total,
      length-append before (c ∷ (p ++ (after ++ rest))),
      length-append p (after ++ rest),
      length-append after rest,
    )

token_behind :
    (text before : List ℕ) (c : ℕ) (s : List ℕ)
    → text ≡ before ++ (c ∷ s)
    → IsBlank before
    → (r : ℕ × List ℕ × List ℕ) → Lexed c s r
    → Split text r.0 r.1 (skip_space r.2)
token_behind text before c s e blank (tok, q, t) (nz, (p, here, rest), is) =
    let (after, e', ba, st) = skip_space-IsBlank t in
    record {
      before = before;
      after = after;
      whole = e ∙ ap (λ l. before ++ l) (whole_token after (skip_space t) here rest e');
      blank_before = blank;
      blank_after = ba;
      starts = st;
      token = subst (λ l. IsToken tok q l) e' is;
      progress = inr (
        nz,
        shorter before c p after (skip_space t)
            (e ∙ ap (λ l. before ++ (c ∷ l)) (rest ∙ ap (λ l. p ++ l) e')),
      );
    }

lex-Split :
    (text before t : List ℕ)
    → text ≡ before ++ t
    → IsBlank before
    → Starts t
    → elem 0 t ≡ false
    → Split text (lex t).0 (lex t).1 (skip_space (lex t).2)
unfolding lex skip_space
lex-Split text before [] e blank st no_nul = record {
  before = before;
  after = [];
  whole = e;
  blank_before = blank;
  blank_after = tt;
  starts = tt;
  token = end_of_text;
  progress = inl (refl, refl, refl);
}
lex-Split text before (c ∷ s) e blank st no_nul =
    let nz : c ≢ 0 =
      λ z. (let zero_here : true ≡ false = rw z at no_nul in absurd (cc zero_here)) in
    token_behind text before c s e blank (lex (c ∷ s)) (lex-Lexed c s nz st)

-- In a text without a NUL, gettoken loses no byte but blanks and leaves no blank in front of what
-- follows. It takes at least one byte, unless nothing but blanks is left, where it returns 0. What it
-- returns is the kind of the bytes that it takes: `a` for a word without blanks and symbols that ends at
-- the end of the text or in front of a blank or a symbol; one symbol, which is its own kind; or `>>`,
-- `2>` or `2>>`. Of `>`, `>>`, `2>` and `2>>`, and the word 2, it takes the longest that is there.
pub gettoken-Split :
    (text : List ℕ)
    → elem 0 text ≡ false
    → Split text (gettoken text).0 (gettoken text).1 (gettoken text).2
unfolding gettoken
gettoken-Split text no_nul =
    let (before, e, blank, st) = skip_space-IsBlank text in
    lex-Split text before (skip_space text) e blank st
      (elem-behind before (skip_space text) (subst (λ l. elem 0 l ≡ false) e no_nul))
