-- ===== src/HashMap.antt =====
-- std::collections::HashMap as an association list without repeated keys: what the daemon and the
-- discovery use of it. The order of iteration is unspecified.
use mathlib.Core.Option
use kmflow.Prelude.{
  Bool, List, Option, [], arith, false, if◌then◌else◌, none, refl, some, true, ◌||◌, ◌↔◌, ◌∷◌, ◌≡◌,
  ◌≢◌,
}
use kmflow.Prelude.Eq.{HasEq, ◌==◌}

module _ {ℓ} {K : Type 0} {V : Type ℓ} ⦃e : HasEq K⦄ where
  unfoldable pub insert : K → V → List (K × V) → List (K × V)
  insert key value [] = (key, value) ∷ []
  insert key value ((old, w) ∷ rest) =
      if old == key then (key, value) ∷ rest else (old, w) ∷ insert key value rest

  unfoldable pub contains_key : K → List (K × V) → Bool
  contains_key key [] = false
  contains_key key ((old, w) ∷ rest) = old == key || contains_key key rest

  unfoldable pub lookup : K → List (K × V) → Option V
  lookup key [] = none
  lookup key ((old, w) ∷ rest) = if old == key then some w else lookup key rest

  -- `if let Some(v) = map.get_mut(k) { *v = f(*v) }`.
  unfoldable pub update : K → (V → V) → List (K × V) → List (K × V)
  update k f [] = []
  update k f ((j, v) ∷ m) = if j == k then (j, f v) ∷ m else (j, v) ∷ update k f m

  unfoldable pub retain : (V → Bool) → List (K × V) → List (K × V)
  retain keep [] = []
  retain keep ((j, v) ∷ m) = if keep v then (j, v) ∷ retain keep m else retain keep m

  unfoldable pub values : List (K × V) → List V
  values [] = []
  values ((j, v) ∷ m) = v ∷ values m

  abbrev pub HasDistinctKeys : List (K × V) → Type 0
  HasDistinctKeys [] = Unit {0}
  HasDistinctKeys ((j, v) ∷ m) = (contains_key j m ≡ false) × HasDistinctKeys m

  pub lookup-insert :
      (key asked : K) (value : V) (map : List (K × V))
      → lookup asked (insert key value map)
        ≡ (if key == asked then some value else lookup asked map)
  unfolding insert lookup
  lookup-insert key asked value [] = refl
  lookup-insert key asked value ((old, w) ∷ rest) = ground (
    arith,
    lookup-insert key asked value rest,
    e.beq_iff old asked,
    e.beq_iff old key,
    e.beq_iff key asked,
  )

  pub lookup-update :
      (k j : K) (f : V → V) (m : List (K × V))
      → lookup j (update k f m) ≡ (if k == j then Option.map f (lookup j m) else lookup j m)
  unfolding lookup update
  lookup-update k j f [] = ground arith
  lookup-update k j f ((i, w) ∷ m) =
      ground (arith, e.beq_iff k j, e.beq_iff i k, e.beq_iff i j, lookup-update k j f m)

  pub contains_key-lookup :
      (k : K) (m : List (K × V)) → (contains_key k m ≡ true) ↔ (lookup k m ≢ none)
  unfolding lookup contains_key
  contains_key-lookup k [] = ground arith
  contains_key-lookup k ((j, v) ∷ m) = ground (arith, contains_key-lookup k m)

  pub contains_key-insert :
      (k j : K) (v : V) (m : List (K × V))
      → contains_key j (insert k v m) ≡ (k == j || contains_key j m)
  unfolding contains_key insert
  contains_key-insert k j v [] = refl
  contains_key-insert k j v ((i, w) ∷ m) =
      ground (arith, e.beq_iff k j, e.beq_iff i k, e.beq_iff i j, contains_key-insert k j v m)

  pub insert-HasDistinctKeys :
      (k : K) (v : V) (m : List (K × V)) → HasDistinctKeys m → HasDistinctKeys (insert k v m)
  unfolding insert contains_key
  insert-HasDistinctKeys k v [] h = (refl, tt)
  insert-HasDistinctKeys k v ((j, w) ∷ m) h = ground (
    arith,
    insert-HasDistinctKeys k v m h.1,
    contains_key-insert k j v m,
    e.beq_iff j k,
    e.beq_iff k j,
  )

  -- What is kept is found; nothing is said of keys that are dropped.
  pub lookup-retain :
      (k : K) (v : V) (keep : V → Bool) (m : List (K × V))
      → lookup k m ≡ some v
      → keep v ≡ true
      → lookup k (retain keep m) ≡ some v
  unfolding lookup retain
  lookup-retain k v keep [] h kept = absurd (cc)
  lookup-retain k v keep ((j, w) ∷ m) h kept = ground (arith, lookup-retain k v keep m)

  contains_key-retain :
      (k : K) (keep : V → Bool) (m : List (K × V))
      → contains_key k m ≡ false
      → contains_key k (retain keep m) ≡ false
  unfolding contains_key retain
  contains_key-retain k keep [] h = refl
  contains_key-retain k keep ((j, v) ∷ m) h = ground (arith, contains_key-retain k keep m)

  lookup_absent : (k : K) (m : List (K × V)) → contains_key k m ≡ false → lookup k m ≡ none
  unfolding contains_key lookup
  lookup_absent k [] h = refl
  lookup_absent k ((j, v) ∷ m) h = ground (arith, lookup_absent k m)

  -- Without repeated keys, an entry goes exactly if it is not to be kept.
  pub lookup-retain_distinct :
      (k : K) (v : V) (keep : V → Bool) (m : List (K × V))
      → HasDistinctKeys m
      → lookup k m ≡ some v
      → lookup k (retain keep m) ≡ (if keep v then some v else none)
  unfolding lookup retain
  lookup-retain_distinct k v keep [] d h = absurd (cc)
  lookup-retain_distinct k v keep ((j, w) ∷ m) d h = ground (
    arith,
    e.beq_iff j k,
    d,
    lookup-retain_distinct k v keep m d.1,
    lookup_absent k (retain keep m),
    contains_key-retain k keep m,
  )

  pub retain-HasDistinctKeys :
      (keep : V → Bool) (m : List (K × V)) → HasDistinctKeys m → HasDistinctKeys (retain keep m)
  unfolding retain
  retain-HasDistinctKeys keep [] d = tt
  retain-HasDistinctKeys keep ((j, v) ∷ m) d =
      ground (arith, retain-HasDistinctKeys keep m d.1, contains_key-retain j keep m d.0)

  contains_key-update :
      (k j : K) (f : V → V) (m : List (K × V)) → contains_key j (update k f m) ≡ contains_key j m
  unfolding contains_key update
  contains_key-update k j f [] = refl
  contains_key-update k j f ((i, w) ∷ m) = ground (arith, contains_key-update k j f m)

  pub update-HasDistinctKeys :
      (k : K) (f : V → V) (m : List (K × V)) → HasDistinctKeys m → HasDistinctKeys (update k f m)
  unfolding update
  update-HasDistinctKeys k f [] d = tt
  update-HasDistinctKeys k f ((j, w) ∷ m) d =
      ground (arith, update-HasDistinctKeys k f m d.1, contains_key-update k j f m, d.0)
