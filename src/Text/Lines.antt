-- ===== src/Text/Lines.antt =====
-- Laws of lines, words and white space.
use kmflow.Prelude.{
  All, Bool, List, [], ap, arith, false, refl, replicate, some, suc, true, zero, ℕ, ◌++◌, ◌∙◌, ◌∷◌,
  ◌≡◌, ◌≢◌,
}
use kmflow.Prelude.Eq.{nat_eq}
use kmflow.Text.Words.{
  is_whitespace, lines, split_once, trim, trim_end_if, trim_start, until_whitespace,
}

-- Lines that are written one below the other.
abbrev pub join_lines : List (List ℕ) → List ℕ
join_lines [] = []
join_lines (line ∷ rest) = line ++ 10 ∷ join_lines rest

-- Neither a line feed nor a carriage return.
abbrev pub IsLine : List ℕ → Type 0
IsLine = All (λ c. (c ≢ 10) × (c ≢ 13))

lines_front :
    (line : List ℕ) (text : List ℕ) → IsLine line → lines (line ++ 10 ∷ text) ≡ line ∷ lines text
unfolding lines
lines_front [] text h = refl
lines_front (c ∷ line) text h = ground (arith, h.0, lines_front line text h.1)

pub lines-join_lines : (ls : List (List ℕ)) → All IsLine ls → lines (join_lines ls) ≡ ls
unfolding lines
lines-join_lines [] h = refl
lines-join_lines (line ∷ rest) h =
    lines_front line (join_lines rest) h.0
    ∙ ap (λ (t : List (List ℕ)). line ∷ t) (lines-join_lines rest h.1)

-- A text that ends in something else than white space.
abbrev pub IsTrimmed : List ℕ → Type 0
IsTrimmed text = (text ≢ []) × (trim_end_if is_whitespace text ≡ text)

trim_end_if-append :
    (test : ℕ → Bool) (xs ys : List ℕ)
    → ys ≢ []
    → trim_end_if test ys ≡ ys
    → trim_end_if test (xs ++ ys) ≡ xs ++ ys
unfolding trim_end_if
trim_end_if-append test [] ys some_left h = h
trim_end_if-append test (x ∷ []) [] some_left h = absurd (some_left refl)
trim_end_if-append test (x ∷ []) (y ∷ ys) some_left h = rw h refl
trim_end_if-append test (x ∷ x' ∷ xs) ys some_left h =
    rw (trim_end_if-append test (x' ∷ xs) ys some_left h) refl

pub trim_start-spaces :
    (n c : ℕ) (text : List ℕ)
    → is_whitespace c ≡ false
    → trim_start (replicate n 32 ++ c ∷ text) ≡ c ∷ text
unfolding trim_start is_whitespace
trim_start-spaces zero c text h = ground (arith, h)
trim_start-spaces (suc n) c text h = trim_start-spaces n c text h

-- Indentation is dropped from a text that begins and ends with something else.
pub trim-indented :
    (n c : ℕ) (text : List ℕ)
    → is_whitespace c ≡ false
    → IsTrimmed (c ∷ text)
    → trim (replicate n 32 ++ c ∷ text) ≡ c ∷ text
unfolding trim
trim-indented n c text h (some_left, trimmed) =
    ap trim_start (trim_end_if-append is_whitespace (replicate n 32) (c ∷ text) some_left trimmed)
    ∙ trim_start-spaces n c text h

pub IsTrimmed-append : (xs ys : List ℕ) → IsTrimmed ys → IsTrimmed (xs ++ ys)
IsTrimmed-append [] ys h = h
IsTrimmed-append (x ∷ xs) ys h = (λ e. cc e, trim_end_if-append is_whitespace (x ∷ xs) ys h.0 h.1)

trim_end_if-none :
    (test : ℕ → Bool) (xs : List ℕ) → All (λ c. test c ≡ false) xs → trim_end_if test xs ≡ xs
unfolding trim_end_if
trim_end_if-none test [] h = refl
trim_end_if-none test (x ∷ []) h = rw h.0 refl
trim_end_if-none test (x ∷ y ∷ xs) h = rw (trim_end_if-none test (y ∷ xs) h.1) refl

-- One character is dropped at the end, and no more before it.
pub trim_end_if-last :
    (test : ℕ → Bool) (xs : List ℕ) (c : ℕ)
    → All (λ d. test d ≡ false) xs
    → test c ≡ true
    → trim_end_if test (xs ++ c ∷ []) ≡ xs
unfolding trim_end_if
trim_end_if-last test [] c h t = rw t refl
trim_end_if-last test (x ∷ []) c h t = ground (arith, t, h.0)
trim_end_if-last test (x ∷ y ∷ xs) c h t = rw (trim_end_if-last test (y ∷ xs) c h.1 t) refl

pub until_whitespace-append :
    (word : List ℕ) (c : ℕ) (text : List ℕ)
    → All (λ d. is_whitespace d ≡ false) word
    → is_whitespace c ≡ true
    → until_whitespace (word ++ c ∷ text) ≡ word
unfolding until_whitespace
until_whitespace-append [] c text h t = ground (arith, t)
until_whitespace-append (d ∷ word) c text h t =
    ground (arith, h.0, until_whitespace-append word c text h.1 t)

pub split_once-append :
    (sep : ℕ) (before after : List ℕ)
    → All (λ d. d ≢ sep) before
    → split_once sep (before ++ sep ∷ after) ≡ some (before, after)
unfolding split_once
split_once-append sep [] after h = ground arith
split_once-append sep (d ∷ before) after h =
    ground (arith, h.0, split_once-append sep before after h.1)
