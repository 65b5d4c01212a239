-- ===== src/Prelude/Eq.antt =====
-- Decidable equality of keys as an instance argument.
use Prim.Native.String.{String}
use text.Mathlib.Text.{◌==◌ as text_beq}
use text.Mathlib.TextEquality.{eq_iff}
use kmflow.Prelude.{◌==◌ as nat_beq, ==_iff, Bool, refl, true, ℕ, ◌↔◌, ◌≡◌}

pub record HasEq {ℓ} (K : Type ℓ) : Type ℓ where
  pub beq : K → K → Bool
  pub beq_iff : (x y : K) → (beq x y ≡ true) ↔ (x ≡ y)

-- Texts, as the keys of the tables of peers; then scancodes.
instance abbrev pub string_eq : HasEq String
string_eq = record { beq_iff = eq_iff; beq = text_beq }

instance abbrev pub nat_eq : HasEq ℕ
nat_eq = record { beq_iff = ==_iff; beq = nat_beq }

module _ {ℓ} {K : Type ℓ} ⦃same : HasEq K⦄ where
  infix 50 ◌==◌
  abbrev pub ◌==◌ : K → K → Bool
  x == y = same.beq x y

  pub beq_refl : (x : K) → (x == x) ≡ true
  beq_refl x = (same.beq_iff x x).1 refl
