-- ===== src/Shell/Kinds.antt =====
-- The kinds of tokens that gettoken of user/sh.c tells apart.
use fyp_os.Prelude.{
  ℕ, zero, suc, ◌≡◌, ◌≢◌, inl, inr, refl, ap, subst, Bool, true, false, ◌||◌, List, [], ◌∷◌, ◌++◌,
  elem, ◌==◌, if◌then◌else◌, arith, Bool-cases, ==→eq, ==→ne, eq→==,
}
use fyp_os.Shell.{token_2gt, token_2gtgt, whitespace, symbols, take_word, arrows, split_at, lex}

-- A word of bytes that are neither blanks nor symbols.
abbrev pub IsWord : List ℕ → Type 0
IsWord [] = Unit
IsWord (c ∷ s) = (elem c whitespace ≡ false) × (elem c symbols ≡ false) × IsWord s

-- A text in front of which a word ends.
abbrev pub Breaks : List ℕ → Type 0
Breaks [] = Unit
Breaks (c ∷ s) = (elem c whitespace || elem c symbols) ≡ true

-- A text that does not start with `>`.
abbrev pub NoArrow : List ℕ → Type 0
NoArrow [] = Unit
NoArrow (c ∷ s) = c ≢ b'>'

-- The tokens by their kind, their bytes and the text right behind these. A word is as long as it can
-- be, and `>`, `>>`, `2>` and `2>>` are told apart by the longest.
pub data IsToken : ℕ → List ℕ → List ℕ → Type 0 where
  end_of_text : IsToken 0 [] []
  word_token :
      (c : ℕ) (p t : List ℕ)
      → IsWord (c ∷ p)
      → Breaks t
      → (c ≡ b'2' → NoArrow (p ++ t))
      → IsToken b'a' (c ∷ p) t
  symbol_token :
      (c : ℕ) (t : List ℕ) → elem c symbols ≡ true → (c ≡ b'>' → NoArrow t) → IsToken c (c ∷ []) t
  append_token : (t : List ℕ) → IsToken b'+' (b'>' ∷ b'>' ∷ []) t
  error_token : (t : List ℕ) → NoArrow t → IsToken token_2gt (b'2' ∷ b'>' ∷ []) t
  error_append_token : (t : List ℕ) → IsToken token_2gtgt (b'2' ∷ b'>' ∷ b'>' ∷ []) t

take_word-append : (s : List ℕ) → s ≡ (take_word s).0 ++ (take_word s).1
unfolding take_word
take_word-append [] = refl
take_word-append (c ∷ s) = elim (Bool-cases (elem c whitespace || elem c symbols)) [
  | inl stop ↦ rw stop refl
  | inr plain ↦ rw plain (ap (λ l. c ∷ l) (take_word-append s))
]

take_word-IsWord : (s : List ℕ) → IsWord (take_word s).0 × Breaks (take_word s).1
unfolding take_word
take_word-IsWord [] = (tt, tt)
take_word-IsWord (c ∷ s) = elim (Bool-cases (elem c whitespace || elem c symbols)) [
  | inl stop ↦ rw stop (tt, stop)
  | inr plain ↦ let (w, b) = take_word-IsWord s in rw plain ((ground arith, ground arith, w), b)
]

split_at-append : (n : ℕ) (s : List ℕ) → s ≡ (split_at n s).0 ++ (split_at n s).1
split_at-append zero s = refl
split_at-append (suc n) [] = refl
split_at-append (suc n) (c ∷ s) = ap (λ l. c ∷ l) (split_at-append n s)

arrows-none : (s : List ℕ) → arrows s ≡ 0 → NoArrow s
arrows-none [] e = tt
arrows-none (c ∷ []) e = λ here. absurd (ground (arith, eq→== c b'>' here))
arrows-none (c ∷ d ∷ s) e = λ here. elim (Bool-cases (d == b'>')) [
  | inl more ↦ absurd (ground (arith, eq→== c b'>' here, more))
  | inr one ↦ absurd (ground (arith, eq→== c b'>' here, one))
]

arrows-some : (s : List ℕ) → arrows s ≢ 0 → (t : List ℕ) × (s ≡ b'>' ∷ t)
arrows-some [] ne = absurd (ne refl)
arrows-some (c ∷ []) ne = elim (Bool-cases (c == b'>')) [
  | inl e ↦ ([], ap (λ x. x ∷ []) (==→eq _ _ e))
  | inr e ↦ absurd (ne (rw e refl))
]
arrows-some (c ∷ d ∷ s) ne = elim (Bool-cases (c == b'>')) [
  | inl e ↦ (d ∷ s, ap (λ x. x ∷ d ∷ s) (==→eq _ _ e))
  | inr e ↦ absurd (ne (rw e refl))
]

-- Behind one `>`, the second is counted.
arrows-second : (t : List ℕ) → arrows (b'>' ∷ t) ≢ 2 → NoArrow t
arrows-second [] ne = tt
arrows-second (d ∷ t) ne = λ here. ne (rw (eq→== d b'>' here) refl)

arrows-two : (t : List ℕ) → arrows (b'>' ∷ t) ≡ 2 → (u : List ℕ) × (t ≡ b'>' ∷ u)
arrows-two [] e = absurd (omega (arith, e))
arrows-two (d ∷ t) e = elim (Bool-cases (d == b'>')) [
  | inl more ↦ (t, ap (λ x. x ∷ t) (==→eq _ _ more))
  | inr one ↦ absurd (omega (arith, rw one at e))
]

arrows-one : (t : List ℕ) → arrows (b'>' ∷ t) ≢ 2 → arrows (b'>' ∷ t) ≡ 1
arrows-one [] ne = refl
arrows-one (d ∷ t) ne = elim (Bool-cases (d == b'>')) [
  | inl more ↦ absurd (ne (rw more refl))
  | inr one ↦ rw one refl
]

-- What `lex` takes of a text that starts with a byte that is neither blank nor 0.
abbrev pub Lexed : ℕ → List ℕ → ℕ × List ℕ × List ℕ → Type 0
Lexed c s r = (r.0 ≢ 0) × ((p : List ℕ) × (r.1 ≡ c ∷ p) × (s ≡ p ++ r.2)) × IsToken r.0 r.1 r.2

word_part :
    (c : ℕ) (s : List ℕ)
    → (elem c whitespace || elem c symbols) ≡ false
    → (c ≡ b'2' → NoArrow s)
    → Lexed c s (b'a', (take_word (c ∷ s)).0, (take_word (c ∷ s)).1)
unfolding take_word
word_part c s ink lone =
    let (w, b) = take_word-IsWord s in
    let whole = take_word-append s in
    rw ink (
      λ e. absurd (omega (arith, e)),
      ((take_word s).0, refl, whole),
      word_token c (take_word s).0 (take_word s).1 (ground arith, ground arith, w) b
          (λ two. subst NoArrow whole (lone two)),
    )

two_ink : (c : ℕ) → c ≡ b'2' → (elem c whitespace || elem c symbols) ≡ false
two_ink c e = rw e refl

split_part :
    (c : ℕ) (s : List ℕ) (tok n : ℕ)
    → tok ≢ 0
    → IsToken tok (c ∷ (split_at n s).0) (split_at n s).1
    → Lexed c s (tok, c ∷ (split_at n s).0, (split_at n s).1)
split_part c s tok n nz is = (nz, ((split_at n s).0, refl, split_at-append n s), is)

-- `2>>`, `2>` and `>>`, at a byte behind which there are arrows.
error_append_part :
    (s : List ℕ)
    → arrows s ≡ 2
    → IsToken token_2gtgt (b'2' ∷ (split_at (arrows s) s).0) (split_at (arrows s) s).1
error_append_part s two =
    let (t, e) = arrows-some s (λ z. absurd (omega (arith, z, two))) in
    let (u, e') = arrows-two t (rw e at two) in rw (e, e') (error_append_token u)

error_part :
    (s : List ℕ)
    → arrows s ≢ 0
    → arrows s ≢ 2
    → IsToken token_2gt (b'2' ∷ (split_at (arrows s) s).0) (split_at (arrows s) s).1
error_part s some_arrow few =
    let (t, e) = arrows-some s some_arrow in
    let few' = subst (λ l. arrows l ≢ 2) e few in
    let one : arrows s ≡ 1 = rw e (arrows-one t few') in
    rw (one, e) (error_token t (arrows-second t few'))

append_part : (s : List ℕ) → arrows s ≢ 0 → IsToken b'+' (b'>' ∷ (split_at 1 s).0) (split_at 1 s).1
append_part s some_arrow = let (t, e) = arrows-some s some_arrow in rw e (append_token t)

if_Lexed :
    (c : ℕ) (s : List ℕ) (b : Bool) (x y : ℕ × List ℕ × List ℕ)
    → (b ≡ true → Lexed c s x)
    → (b ≡ false → Lexed c s y)
    → Lexed c s (if b then x else y)
if_Lexed c s true x y f g = f refl
if_Lexed c s false x y f g = g refl

pub lex-Lexed : (c : ℕ) (s : List ℕ) → c ≢ 0 → elem c whitespace ≡ false → Lexed c s (lex (c ∷ s))
unfolding lex
lex-Lexed c s nz ink =
    if_Lexed c s (c == b'2') _ _
      (λ two.
        let here = ==→eq _ _ two in
        if_Lexed c s (arrows s == 0) _ _
          (λ e. word_part c s (two_ink c here) (λ h. arrows-none s (==→eq _ _ e)))
          (λ e.
            if_Lexed c s (arrows s == 2) _ _
              (λ e'.
                split_part c s _ (arrows s) (λ z. absurd (omega (arith, z)))
                  (rw here (error_append_part s (==→eq _ _ e'))))
              (λ e'.
                split_part c s _ (arrows s) (λ z. absurd (omega (arith, z)))
                  (rw here (error_part s (==→ne _ _ e) (==→ne _ _ e'))))))
      (λ other.
        if_Lexed c s (c == b'>') _ _
          (λ arrow.
            let here = ==→eq _ _ arrow in
            if_Lexed c s (arrows s == 0) _ _
              (λ e.
                split_part c s c 0 nz
                  (symbol_token c s (rw here refl) (λ h. arrows-none s (==→eq _ _ e))))
              (λ e.
                split_part c s _ 1 (λ z. absurd (omega (arith, z)))
                  (rw here (append_part s (==→ne _ _ e)))))
          (λ no_arrow.
            if_Lexed c s (elem c symbols) _ _
              (λ e. split_part c s c 0 nz (symbol_token c s e (λ h. absurd (==→ne _ _ no_arrow h))))
              (λ e. word_part c s (rw (ink, e) refl) (λ h. absurd (==→ne _ _ other h)))))
