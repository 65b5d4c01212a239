-- ===== src/HashSet.antt =====
-- std::collections::HashSet as a list without repetition: what the daemon and the evdev capture
-- use of it (contains, insert, remove, clear by `[]`, iteration in an unspecified order).
use kmflow.Prelude.{
  Bool, Bool-cases, List, [], arith, false, if◌then◌else◌, inl, inr, not, refl, true, ◌&&◌, ◌||◌,
  ◌∷◌, ◌≡◌,
}
use kmflow.Prelude.Eq.{HasEq, beq_refl, ◌==◌}

module _ {ℓ} {A : Type ℓ} ⦃e : HasEq A⦄ where
  unfoldable pub contains : List A → A → Bool
  contains [] a = false
  contains (x ∷ xs) a = x == a || contains xs a

  unfoldable pub insert : A → List A → List A
  unfolding contains
  insert a xs = if contains xs a then xs else a ∷ xs

  unfoldable pub remove : A → List A → List A
  remove a [] = []
  remove a (x ∷ xs) = if x == a then remove a xs else x ∷ remove a xs

  abbrev pub IsDistinct : List A → Type 0
  IsDistinct [] = Unit {0}
  IsDistinct (x ∷ xs) = (contains xs x ≡ false) × IsDistinct xs

  pub contains-insert :
      (a b : A) (xs : List A) → contains (insert a xs) b ≡ (a == b || contains xs b)
  unfolding insert
  contains-insert a b xs = ground (arith, e.beq_iff a b)

  pub contains-remove :
      (a b : A) (xs : List A) → contains (remove a xs) b ≡ (not (a == b) && contains xs b)
  unfolding contains remove
  contains-remove a b [] = ground arith
  contains-remove a b (x ∷ xs) =
      ground (arith, contains-remove a b xs, e.beq_iff x a, e.beq_iff x b, e.beq_iff a b)

  pub insert-IsDistinct : (a : A) (xs : List A) → IsDistinct xs → IsDistinct (insert a xs)
  unfolding insert
  insert-IsDistinct a xs d = elim (Bool-cases (contains xs a)) [
    | inl old ↦ rw old d
    | inr new ↦ rw new (new, d)
  ]

  pub remove-IsDistinct : (a : A) (xs : List A) → IsDistinct xs → IsDistinct (remove a xs)
  unfolding remove
  remove-IsDistinct a [] d = tt
  remove-IsDistinct a (x ∷ xs) d =
      ground (arith, remove-IsDistinct a xs d.1, contains-remove a x xs)

module _ {ℓ} {A : Type ℓ} ⦃e : HasEq A⦄ where
  pub empty_of_contains : (xs : List A) → ((a : A) → contains xs a ≡ false) → xs ≡ []
  unfolding contains
  empty_of_contains [] h = refl
  empty_of_contains (x ∷ xs) h = absurd (ground (arith, h x, beq_refl x))

  pub cons_of_contains :
      (a : A) (xs : List A) → contains xs a ≡ true → (x : A) × (ys : List A) × (xs ≡ x ∷ ys)
  unfolding contains
  cons_of_contains a [] h = absurd (cc)
  cons_of_contains a (x ∷ xs) h = (x, xs, refl)
