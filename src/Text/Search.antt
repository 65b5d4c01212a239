-- ===== src/Text/Search.antt =====
-- Laws of search and prefixes.
use kmflow.Prelude.{
  All, List, [], arith, false, if◌then◌else◌, none, refl, some, true, ℕ, ◌++◌, ◌>>=◌, ◌∷◌, ◌≡◌, ◌≢◌,
}
use kmflow.Prelude.Eq.{nat_eq}
use kmflow.Text.{before_first, bytes_beq, contains_text, starts_with, strip_prefix}

pub starts_with-append : (prefix rest : List ℕ) → starts_with (prefix ++ rest) prefix ≡ true
unfolding starts_with strip_prefix
starts_with-append [] rest = refl
starts_with-append (p ∷ prefix) rest = ground (arith, starts_with-append prefix rest)

starts_with_contains :
    (text pattern : List ℕ) → starts_with text pattern ≡ true → contains_text text pattern ≡ true
unfolding contains_text
starts_with_contains [] pattern h = h
starts_with_contains (c ∷ text) pattern h = ground (arith, h)

-- What is written into a text is found in it.
pub contains_text-append :
    (before pattern after : List ℕ) → contains_text (before ++ (pattern ++ after)) pattern ≡ true
unfolding contains_text
contains_text-append [] pattern after =
    starts_with_contains (pattern ++ after) pattern (starts_with-append pattern after)
contains_text-append (c ∷ before) pattern after =
    ground (arith, contains_text-append before pattern after)

starts_with_longer :
    (text more prefix : List ℕ)
    → starts_with text prefix ≡ true
    → starts_with (text ++ more) prefix ≡ true
unfolding starts_with strip_prefix
starts_with_longer text more [] h = refl
starts_with_longer [] more (p ∷ prefix) h = absurd (cc)
starts_with_longer (c ∷ text) more (p ∷ prefix) h =
    ground (arith, starts_with_longer text more prefix)

-- What was found stays found when the text grows.
pub contains_text_longer :
    (text more pattern : List ℕ)
    → contains_text text pattern ≡ true
    → contains_text (text ++ more) pattern ≡ true
unfolding contains_text
contains_text_longer [] more pattern h =
    starts_with_contains more pattern (starts_with_longer [] more pattern h)
contains_text_longer (c ∷ text) more pattern h =
    ground
      (arith, h, starts_with_longer (c ∷ text) more pattern, contains_text_longer text more pattern)

module _ (sep : ℕ) where
  -- Up to the first separator stands the first part.
  pub before_first-append :
      (part rest : List ℕ) → All (λ c. c ≢ sep) part → before_first sep (part ++ sep ∷ rest) ≡ part
  unfolding before_first
  before_first-append [] rest h = ground arith
  before_first-append (c ∷ part) rest h = ground (arith, before_first-append part rest h.1)

  -- A prefix that ends with the first separator fixes the first part.
  pub strip_prefix_part :
      (part rest other : List ℕ)
      → All (λ c. c ≢ sep) part
      → All (λ c. c ≢ sep) other
      → strip_prefix (other ++ sep ∷ []) (part ++ sep ∷ rest)
        ≡ (if bytes_beq other part then some rest else none)
  unfolding strip_prefix bytes_beq
  strip_prefix_part [] rest [] h k = ground arith
  strip_prefix_part [] rest (o ∷ other) h k = ground arith
  strip_prefix_part (c ∷ part) rest [] h k = ground arith
  strip_prefix_part (c ∷ part) rest (o ∷ other) h k =
      ground (arith, strip_prefix_part part rest other h.1 k.1)

pub strip_prefix-append :
    (first second text : List ℕ)
    → strip_prefix (first ++ second) text ≡ (strip_prefix first text >>= strip_prefix second)
unfolding strip_prefix
strip_prefix-append [] second text = refl
strip_prefix-append (p ∷ first) second [] = refl
strip_prefix-append (p ∷ first) second (c ∷ text) =
    ground (arith, strip_prefix-append first second text)

-- A pattern is nowhere in a text that lacks its first character.
pub contains_text-absent :
    (c : ℕ) (pattern text : List ℕ)
    → All (λ d. d ≢ c) text
    → contains_text text (c ∷ pattern) ≡ false
unfolding contains_text starts_with strip_prefix
contains_text-absent c pattern [] h = refl
contains_text-absent c pattern (d ∷ text) h =
    ground (arith, h.0, contains_text-absent c pattern text h.1)

-- What is found in a text is found behind a prefix too.
pub contains_text-behind :
    (before text pattern : List ℕ)
    → contains_text text pattern ≡ true
    → contains_text (before ++ text) pattern ≡ true
unfolding contains_text
contains_text-behind [] text pattern h = h
contains_text-behind (c ∷ before) text pattern h =
    ground (arith, contains_text-behind before text pattern h)

module _ (c : ℕ) where
  starts_with-last :
      (text pattern : List ℕ)
      → All (λ d. d ≢ c) pattern
      → starts_with (text ++ c ∷ []) pattern ≡ starts_with text pattern
  unfolding starts_with strip_prefix
  starts_with-last text [] h = refl
  starts_with-last [] (p ∷ pattern) h = ground (arith, h.0)
  starts_with-last (d ∷ text) (p ∷ pattern) h = ground (arith, starts_with-last text pattern h.1)

  -- A last character that the pattern lacks does not matter.
  pub contains_text-last :
      (text pattern : List ℕ)
      → All (λ d. d ≢ c) pattern
      → contains_text (text ++ c ∷ []) pattern ≡ contains_text text pattern
  unfolding contains_text
  contains_text-last [] pattern h = ground (arith, starts_with-last [] pattern h)
  contains_text-last (d ∷ text) pattern h =
      ground (arith, starts_with-last (d ∷ text) pattern h, contains_text-last text pattern h)
