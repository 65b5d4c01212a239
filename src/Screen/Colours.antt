-- ===== src/Screen/Colours.antt =====
-- lib.rs, parse_cosmic_randr: the colours of a report are taken out.
use kmflow.Prelude.{All, List, [], ap, arith, false, refl, true, ℕ, ◌++◌, ◌∙◌, ◌∷◌, ◌≡◌, ◌≢◌}
use kmflow.Prelude.Eq.{nat_eq}
use kmflow.Screen.{strip_ansi}

abbrev pub Without : ℕ → List ℕ → Type 0
Without c = All (λ d. d ≢ c)

-- A coloured text: escape codes, each with what is printed up to the next one.
abbrev pub painted : List (List ℕ × List ℕ) → List ℕ
painted [] = []
painted ((code, run) ∷ rest) = 27 ∷ code ++ (b'm' ∷ run ++ painted rest)

abbrev pub plain : List (List ℕ × List ℕ) → List ℕ
plain [] = []
plain ((code, run) ∷ rest) = run ++ plain rest

-- No code has an "m" before its end, and what is printed has no escape.
abbrev pub IsPainted : List (List ℕ × List ℕ) → Type 0
IsPainted = All (λ p. Without b'm' p.0 × Without 27 p.1)

strip_ansi-code :
    (code text : List ℕ)
    → Without b'm' code
    → strip_ansi true (code ++ b'm' ∷ text) ≡ strip_ansi false text
unfolding strip_ansi
strip_ansi-code [] text h = refl
strip_ansi-code (c ∷ code) text h = ground (arith, h.0, strip_ansi-code code text h.1)

strip_ansi-run :
    (run text : List ℕ)
    → Without 27 run
    → strip_ansi false (run ++ text) ≡ run ++ strip_ansi false text
unfolding strip_ansi
strip_ansi-run [] text h = refl
strip_ansi-run (c ∷ run) text h = ground (arith, h.0, strip_ansi-run run text h.1)

strip_ansi-codes :
    (ps : List (List ℕ × List ℕ)) → IsPainted ps → strip_ansi false (painted ps) ≡ plain ps
unfolding strip_ansi
strip_ansi-codes [] h = refl
strip_ansi-codes ((code, run) ∷ rest) h =
    strip_ansi-code code (run ++ painted rest) h.0.0
    ∙ strip_ansi-run run (painted rest) h.0.1
    ∙ ap (λ (t : List ℕ). run ++ t) (strip_ansi-codes rest h.1)

-- The codes of a coloured text go, and what is printed stays.
pub strip_ansi-painted :
    (first : List ℕ) (ps : List (List ℕ × List ℕ))
    → Without 27 first
    → IsPainted ps
    → strip_ansi false (first ++ painted ps) ≡ first ++ plain ps
strip_ansi-painted first ps h k =
    strip_ansi-run first (painted ps) h ∙ ap (λ (t : List ℕ). first ++ t) (strip_ansi-codes ps k)
