-- ===== src/Grep/Language.antt =====
-- The patterns of user/grep.c as a language, and that the matcher decides it.
use fyp_os.Prelude.{
  ℕ, ◌≡◌, ◌⊎◌, inl, inr, refl, ap, sym, subst, Bool, true, false, ◌&&◌, ◌||◌, List, [], ◌∷◌, ◌++◌,
  ◌==◌, if◌then◌else◌, arith, Bool-cases,
}
use fyp_os.Grep.{matchone, matchstar, matchhere, match_loop, match_text, is_end}

-- A piece of a pattern: a character, a run of a character, or the end of the text.
pub data Piece : Type 0 where
  single many : ℕ → Piece
  ending : Piece

-- `*` after a character makes a run of it, and a last `$` is the end of the text.
unfoldable pub pieces : List ℕ → List Piece
pieces [] = []
pieces (c ∷ []) = if c == b'$' then ending ∷ [] else single c ∷ []
pieces (c ∷ d ∷ re) =
    let run = pieces re in
    let rest = pieces (d ∷ re) in if d == b'*' then many c ∷ run else single c ∷ rest

-- `.` stands for any character.
abbrev pub Accepts : ℕ → ℕ → Type 0
Accepts c t = (c ≡ b'.') ⊎ (c ≡ t)

abbrev pub IsRun : ℕ → List ℕ → Type 0
IsRun c [] = Unit
IsRun c (t ∷ ts) = Accepts c t × IsRun c ts

-- A text that begins with a match of the pieces.
abbrev pub Begins : List Piece → List ℕ → Type 0
Begins [] text = Unit
Begins (single c ∷ ps) text =
    (t : ℕ) × (rest : List ℕ) × (text ≡ t ∷ rest) × Accepts c t × Begins ps rest
Begins (many c ∷ ps) text =
    (run rest : List ℕ) × (text ≡ run ++ rest) × IsRun c run × Begins ps rest
Begins (ending ∷ ps) text = (text ≡ []) × Begins ps text

-- A text that has a match: at its beginning where the pattern starts with `^`, or else anywhere.
abbrev pub Has : List ℕ → List ℕ → Type 0
Has re text = (before rest : List ℕ) × (text ≡ before ++ rest) × Begins (pieces re) rest

abbrev pub Matches : List ℕ → List ℕ → Type 0
Matches [] text = Has [] text
Matches (c ∷ re) text = if c == b'^' then Begins (pieces re) text else Has (c ∷ re) text

abbrev pub Decides : Bool → Type 0 → Type 0
Decides b P = (b ≡ true) × P ⊎ (b ≡ false) × ¬ P

decides : {P Q : Type 0} (b : Bool) → Decides b P → (P → Q) → (Q → P) → Decides b Q
decides b (inl (e, p)) to from = inl (e, to p)
decides b (inr (e, np)) to from = inr (e, λ q. np (from q))

Begins-first :
    (c d t : ℕ) (text rest : List ℕ) (ps : List Piece)
    → (t ∷ text) ≡ (d ∷ rest)
    → Accepts c d × Begins ps rest
    → Accepts c t × Begins ps text
Begins-first c d t text rest ps e (a, p) =
    let same : d ≡ t = cc e in
    let tail : rest ≡ text = cc e in (subst (Accepts c) same a, subst (Begins ps) tail p)

accepts : (c t : ℕ) → Decides ((c == b'.') || (c == t)) (Accepts c t)
accepts c t = ground arith

either_order : (c t : ℕ) → Decides ((t == c) || (c == b'.')) (Accepts c t)
either_order c t = ground arith

decides_and : {P Q : Type 0} (a b : Bool) → Decides a P → Decides b Q → Decides (a && b) (P × Q)
decides_and a b (inl (e, p)) (inl (e', q)) = inl (rw (e, e') refl, (p, q))
decides_and a b (inl (e, p)) (inr (e', nq)) = inr (rw (e, e') refl, λ (p', q). nq q)
decides_and a b (inr (e, np)) d = inr (rw e refl, λ (p, q). np p)

decides_or : {P Q : Type 0} (a b : Bool) → Decides a P → Decides b Q → Decides (a || b) (P ⊎ Q)
decides_or a b (inl (e, p)) d = inl (rw e refl, inl p)
decides_or a b (inr (e, np)) (inl (e', q)) = inl (rw (e, e') refl, inr q)
decides_or a b (inr (e, np)) (inr (e', nq)) =
    inr (rw (e, e') refl, λ x. elim x [ inl p ↦ np p | inr q ↦ nq q ])

matchone-Decides :
    (here : List ℕ → Bool) (ps : List Piece)
    → ((text : List ℕ) → Decides (here text) (Begins ps text))
    → (c : ℕ) (text : List ℕ) → Decides (matchone here c text) (Begins (single c ∷ ps) text)
unfolding matchone
matchone-Decides here ps each c [] = inr (refl, λ (t, rest, e, a, p). absurd (cc e))
matchone-Decides here ps each c (t ∷ text) =
    decides _ (decides_and _ _ (accepts c t) (each text)) (λ (a, p). (t, text, refl, a, p))
      (λ (d, rest, e, a, p). Begins-first c d t text rest ps e (a, p))

run_first :
    (ps : List Piece) (c t : ℕ) (text run rest : List ℕ)
    → (t ∷ text) ≡ run ++ rest
    → IsRun c run
    → Begins ps rest
    → Begins ps (t ∷ text) ⊎ Accepts c t × Begins (many c ∷ ps) text
run_first ps c t text [] rest e r p = inl (subst (Begins ps) (sym e) p)
run_first ps c t text (x ∷ run) rest e (a, r) p =
    let same : x ≡ t = cc e in
    let tail : text ≡ run ++ rest = cc e in inr (subst (Accepts c) same a, (run, rest, tail, r, p))

matchstar-Decides :
    (here : List ℕ → Bool) (ps : List Piece)
    → ((text : List ℕ) → Decides (here text) (Begins ps text))
    → (c : ℕ) (text : List ℕ) → Decides (matchstar here c text) (Begins (many c ∷ ps) text)
unfolding matchstar
matchstar-Decides here ps each c [] =
    decides _ (each []) (λ p. ([], [], refl, tt, p)) (λ (run, rest, e, r, p). nil run rest e p)
  where
    nil : (run rest : List ℕ) → [] ≡ run ++ rest → Begins ps rest → Begins ps []
    nil [] rest e p = subst (Begins ps) (sym e) p
    nil (x ∷ run) rest e p = absurd (cc e)
matchstar-Decides here ps each c (t ∷ text) =
    decides _
      (decides_or _ _ (each (t ∷ text))
        (decides_and _ _ (either_order c t) (matchstar-Decides here ps each c text)))
      (λ x. elim x [
        | inl p ↦ ([], t ∷ text, refl, tt, p)
        | inr (a, (run, rest, e, r, p)) ↦ (t ∷ run, rest, ap (λ l. t ∷ l) e, (a, r), p)
      ])
      (λ (run, rest, e, r, p). run_first ps c t text run rest e r p)

ends : (text : List ℕ) → Decides (is_end text) (Begins (ending ∷ []) text)
ends [] = inl (refl, (refl, tt))
ends (t ∷ text) = inr (refl, λ (e, p). absurd (cc e))

matchhere-Decides : (re text : List ℕ) → Decides (matchhere re text) (Begins (pieces re) text)
unfolding matchhere pieces
matchhere-Decides [] text = inl (refl, tt)
matchhere-Decides (c ∷ []) text = elim (Bool-cases (c == b'$')) [
  | inl end ↦ rw end (ends text)
  | inr plain ↦ rw plain (matchone-Decides (matchhere []) [] (matchhere-Decides []) c text)
]
matchhere-Decides (c ∷ d ∷ re) text = elim (Bool-cases (d == b'*')) [
  | inl star ↦ rw star (matchstar-Decides (matchhere re) (pieces re) (matchhere-Decides re) c text)
  | inr plain ↦
      rw plain (
        matchone-Decides (matchhere (d ∷ re)) (pieces (d ∷ re)) (matchhere-Decides (d ∷ re)) c text)
]

match_loop-Decides : (re text : List ℕ) → Decides (match_loop re text) (Has re text)
unfolding match_loop
match_loop-Decides re [] =
    decides _ (matchhere-Decides re []) (λ p. ([], [], refl, p))
      (λ (before, rest, e, p). only before rest e p)
  where
    only :
        (before rest : List ℕ)
        → [] ≡ before ++ rest
        → Begins (pieces re) rest
        → Begins (pieces re) []
    only [] rest e p = subst (Begins (pieces re)) (sym e) p
    only (x ∷ before) rest e p = absurd (cc e)
match_loop-Decides re (t ∷ text) =
    decides _ (decides_or _ _ (matchhere-Decides re (t ∷ text)) (match_loop-Decides re text))
      (λ x. elim x [
        | inl p ↦ ([], t ∷ text, refl, p)
        | inr (before, rest, e, p) ↦ (t ∷ before, rest, ap (λ l. t ∷ l) e, p)
      ])
      (λ (before, rest, e, p). first before rest e p)
  where
    first :
        (before rest : List ℕ)
        → (t ∷ text) ≡ before ++ rest
        → Begins (pieces re) rest
        → Begins (pieces re) (t ∷ text) ⊎ Has re text
    first [] rest e p = inl (subst (Begins (pieces re)) (sym e) p)
    first (x ∷ before) rest e p = inr (before, rest, cc e, p)

-- match says whether the text has a match of the pattern: at its beginning where the pattern starts
-- with `^`, and anywhere otherwise. Here `.` stands for any character, `*` makes any number of the
-- character before it, a last `$` is the end of the text, and any other character stands for itself.
pub match_text-Decides : (re text : List ℕ) → Decides (match_text re text) (Matches re text)
unfolding match_text
match_text-Decides [] text = match_loop-Decides [] text
match_text-Decides (c ∷ re) text = elim (Bool-cases (c == b'^')) [
  | inl start ↦ rw start (matchhere-Decides re text)
  | inr any ↦ rw any (match_loop-Decides (c ∷ re) text)
]
