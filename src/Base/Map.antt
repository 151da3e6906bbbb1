-- ===== src/Base/Map.antt =====
-- Go's `map[string]V` as an association list: a write replaces the entry of its key, or adds one. The
-- order of the list is the order of insertion; Go's iteration order is a `MapOrder` of its own.
use Prim.Native.Nat.{ℕ, ◌+◌, ◌≤◌}
use mathlib.Core.Path.{◌≡◌, refl}
use mathlib.Core.Bool.{false}
use mathlib.Core.Logic.{◌≢◌, ◌⊎◌, inl, inr}
use mathlib.Core.Option.{Option, none, some}
use mathlib.Core.List.{List, [], ◌∷◌, Permᴰ}
use native.Mathlib.Omega.{arith}
use inventory_reservation_sy.Base.Tests.{if◌then◌else◌, Bool-cases}
use inventory_reservation_sy.Base.Lists.{All, All-map, Apart, sum_of}
use inventory_reservation_sy.Base.Text.{Text, text_eq, eq_iff, text_eq_self}

abbrev pub Map {ℓ} : Type ℓ → Type ℓ
Map V = List (Text × V)

-- One iteration over a map or the list drawn from it: the entries, once each, in some order.
pub record MapOrder {ℓ} (A : Type ℓ) : Type ℓ where
  pub arrange : List A → List A
  pub arrange-perm : (xs : List A) → Permᴰ xs (arrange xs)

module _ {ℓ} {V : Type ℓ} where
  unfoldable pub values : Map V → List V
  values [] = []
  values ((key, v) ∷ rest) = v ∷ values rest

  -- m[key], with its second result as the option.
  unfoldable pub lookup : Text → Map V → Option V
  lookup key [] = none
  lookup key ((first, v) ∷ rest) = if text_eq first key then some v else lookup key rest

  -- m[key] = v
  unfoldable pub insert : Text → V → Map V → Map V
  insert key v [] = (key, v) ∷ []
  insert key v ((first, old) ∷ rest) =
      if text_eq first key then (key, v) ∷ rest else (first, old) ∷ insert key v rest

  pub lookup-insert :
      (key wanted : Text) (v : V) (m : Map V)
      → lookup wanted (insert key v m) ≡ (if text_eq key wanted then some v else lookup wanted m)
  unfolding lookup insert
  lookup-insert key wanted v [] = refl
  lookup-insert key wanted v ((first, old) ∷ rest) = ground (
    arith,
    lookup-insert key wanted v rest,
    eq_iff first wanted,
    eq_iff first key,
    eq_iff key wanted,
  )

  pub lookup-insert_self : (k : Text) (v : V) (m : Map V) → lookup k (insert k v m) ≡ some v
  lookup-insert_self k v m = ground (arith, lookup-insert k k v m, text_eq_self k)

  pub lookup-insert_ne :
      (k j : Text) (v : V) (m : Map V) → k ≢ j → lookup j (insert k v m) ≡ lookup j m
  lookup-insert_ne k j v m h = ground (arith, lookup-insert k j v m, eq_iff k j)

  -- What a write does to a sum over the values: the old weight of the key goes, the new one comes.
  pub sum_of-insert_old :
      (w : V → ℕ) (k : Text) (v o : V) (m : Map V)
      → lookup k m ≡ some o
      → sum_of w (values (insert k v m)) + w o ≡ sum_of w (values m) + w v
  unfolding lookup insert values sum_of
  sum_of-insert_old w k v o [] h = absurd (cc)
  sum_of-insert_old w k v o ((j, x) ∷ m) h = ground (arith, sum_of-insert_old w k v o m)

  pub sum_of-insert_new :
      (w : V → ℕ) (k : Text) (v : V) (m : Map V)
      → lookup k m ≡ none
      → sum_of w (values (insert k v m)) ≡ sum_of w (values m) + w v
  unfolding lookup insert values sum_of
  sum_of-insert_new w k v [] h = omega arith
  sum_of-insert_new w k v ((j, x) ∷ m) h = ground (arith, sum_of-insert_new w k v m)

  -- No key stands twice.
  abbrev pub Distinct : Map V → Type ℓ
  Distinct [] = Unit
  Distinct ((k, v) ∷ m) = (lookup k m ≡ none) × Distinct m

  pub insert-Distinct : (k : Text) (v : V) (m : Map V) → Distinct m → Distinct (insert k v m)
  unfolding lookup insert
  insert-Distinct k v [] d = (refl, tt)
  insert-Distinct k v ((j, w) ∷ m) d =
      ground (arith, insert-Distinct k v m d.1, lookup-insert k j v m, eq_iff j k, eq_iff k j)

-- A value that is stored under the name it carries.
module _ {ℓ} {V : Type ℓ} (name : V → Text) where
  abbrev pub Named : Map V → Type ℓ
  Named m = (k : Text) (v : V) → lookup k m ≡ some v → name v ≡ k

  abbrev pub Stored : Map V → V → Type ℓ
  Stored m v = lookup (name v) m ≡ some v

  abbrev pub NamesDiffer : V → V → Type 0
  NamesDiffer v w = name v ≢ name w

  -- The keys that the entries carry are the keys under which they stand.
  Keyed : Map V → Type 0
  Keyed [] = Unit
  Keyed ((k, v) ∷ m) = (name v ≡ k) × Keyed m

  Named-Keyed : (m : Map V) → Distinct m → Named m → Keyed m
  unfolding Keyed lookup
  Named-Keyed [] d n = tt
  Named-Keyed ((k, v) ∷ m) d n = (n k v (ground (arith, text_eq_self k)), Named-Keyed m d.1 rest)
    where
      rest : Named m
      rest j w e = n j w (ground (arith, eq_iff k j))

  values-All_of_Keyed : (m : Map V) → Distinct m → Keyed m → All (Stored m) (values m)
  unfolding Keyed lookup values
  values-All_of_Keyed [] d n = tt
  values-All_of_Keyed ((k, v) ∷ m) d n =
      (ground (arith, eq_iff k (name v)), All-map (values m) later (values-All_of_Keyed m d.1 n.1))
    where
      later : (w : V) → Stored m w → Stored ((k, v) ∷ m) w
      later w e = ground (arith, eq_iff k (name w))

  values-NamesDiffer :
      (k : Text) (v : V) (m : Map V)
      → lookup k m ≡ none
      → name v ≡ k
      → Keyed m
      → All (NamesDiffer v) (values m)
  unfolding Keyed lookup values
  values-NamesDiffer k v [] h e n = tt
  values-NamesDiffer k v ((j, w) ∷ m) h e n =
      (λ p. grind (arith, eq_iff j k), values-NamesDiffer k v m (ground (arith, eq_iff j k)) e n.1)

  values-Apart_of_Keyed : (m : Map V) → Distinct m → Keyed m → Apart NamesDiffer (values m)
  unfolding Keyed values
  values-Apart_of_Keyed [] d n = tt
  values-Apart_of_Keyed ((k, v) ∷ m) d n =
      (values-NamesDiffer k v m d.0 n.0 n.1, values-Apart_of_Keyed m d.1 n.1)

  -- Every value listed is the one that its own name looks up.
  pub values-Stored : (m : Map V) → Distinct m → Named m → All (Stored m) (values m)
  values-Stored m d n = values-All_of_Keyed m d (Named-Keyed m d n)

  -- No two values listed carry one name.
  pub values-Apart : (m : Map V) → Distinct m → Named m → Apart NamesDiffer (values m)
  values-Apart m d n = values-Apart_of_Keyed m d (Named-Keyed m d n)

module _ {ℓ} {V : Type ℓ} where
  -- What is stored counts.
  pub sum_of-ge :
      (w : V → ℕ) (k : Text) (v : V) (m : Map V) → lookup k m ≡ some v → w v ≤ sum_of w (values m)
  unfolding lookup values sum_of
  sum_of-ge w k v [] h = absurd (cc)
  sum_of-ge w k v ((j, x) ∷ m) h = ground (arith, sum_of-ge w k v m)

  -- A key found after a write is the key written, or was there before.
  pub insert-cases :
      (k j : Text) (v w : V) (m : Map V)
      → lookup j (insert k v m) ≡ some w
      → ((k ≡ j) × (v ≡ w)) ⊎ ((text_eq k j ≡ false) × (lookup j m ≡ some w))
  insert-cases k j v w m h = elim (Bool-cases (text_eq k j)) [
    | inl same ↦ inl ((eq_iff k j).0 same, ground (arith, lookup-insert k j v m))
    | inr differ ↦ inr (differ, ground (arith, lookup-insert k j v m))
  ]

  -- A write loses no key.
  pub insert-known :
      (k j : Text) (v w : V) (m : Map V)
      → lookup j m ≡ some w
      → (u : V) × (lookup j (insert k v m) ≡ some u)
  insert-known k j v w m h = elim (Bool-cases (text_eq k j)) [
    | inl same ↦ (v, ground (arith, lookup-insert k j v m))
    | inr differ ↦ (w, ground (arith, lookup-insert k j v m))
  ]

  pub lookup-insert_apart :
      (k j : Text) (v : V) (m : Map V) → text_eq k j ≡ false → lookup j (insert k v m) ≡ lookup j m
  lookup-insert_apart k j v m h = ground (arith, lookup-insert k j v m)
