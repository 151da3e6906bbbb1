-- ===== src/Base/Entries.antt =====
-- Go's maps entry by entry: their keys, a function applied to every value, and when two maps are
-- the same.
use mathlib.Core.Path.{◌≡◌, refl, ap}
use mathlib.Core.Option.{Option, none, some}
use mathlib.Core.List.{List, [], ◌∷◌}
use native.Mathlib.Omega.{arith}
use inventory_reservation_sy.Base.Text.{Text, eq_iff, text_eq_self}
use inventory_reservation_sy.Base.Map.{Map, lookup, insert, Distinct}

module _ {V : Type 0} where
  unfoldable pub keys : Map V → List Text
  keys [] = []
  keys ((k, v) ∷ m) = k ∷ keys m

  unfoldable pub map_values : (V → V) → Map V → Map V
  map_values f [] = []
  map_values f ((k, v) ∷ m) = (k, f v) ∷ map_values f m

  abbrev pub map_option : (V → V) → Option V → Option V
  map_option f none = none
  map_option f (some v) = some (f v)

  pub lookup-map_values :
      (f : V → V) (k : Text) (m : Map V) → lookup k (map_values f m) ≡ map_option f (lookup k m)
  unfolding lookup map_values
  lookup-map_values f k [] = refl
  lookup-map_values f k ((j, v) ∷ m) = ground (arith, lookup-map_values f k m)

  pub keys-map_values : (f : V → V) (m : Map V) → keys (map_values f m) ≡ keys m
  unfolding keys map_values
  keys-map_values f [] = refl
  keys-map_values f ((j, v) ∷ m) = ap (λ ks. j ∷ ks) (keys-map_values f m)

  pub keys-insert_old :
      (k : Text) (v o : V) (m : Map V) → lookup k m ≡ some o → keys (insert k v m) ≡ keys m
  unfolding keys lookup insert
  keys-insert_old k v o [] h = absurd (cc)
  keys-insert_old k v o ((j, w) ∷ m) h = ground (arith, keys-insert_old k v o m, eq_iff j k)

  -- Whether a key stands in a map depends on its keys only.
  keys-none : (k : Text) (m n : Map V) → keys m ≡ keys n → lookup k m ≡ none → lookup k n ≡ none
  unfolding keys lookup
  keys-none k [] [] e h = refl
  keys-none k [] ((i, w) ∷ n) e h = absurd (cc)
  keys-none k ((j, v) ∷ m) [] e h = absurd (cc)
  keys-none k ((j, v) ∷ m) ((i, w) ∷ n) e h =
      ground (arith, e, h, keys-none k m n, eq_iff j k, eq_iff i k)

  pub keys-Distinct : (m n : Map V) → keys m ≡ keys n → Distinct m → Distinct n
  unfolding keys
  keys-Distinct [] [] e d = tt
  keys-Distinct [] ((i, w) ∷ n) e d = absurd (cc)
  keys-Distinct ((j, v) ∷ m) [] e d = absurd (cc)
  keys-Distinct ((j, v) ∷ m) ((i, w) ∷ n) e d =
      let tails : keys m ≡ keys n = cc in
      (ground (arith, e, keys-none j m n tails d.0), keys-Distinct m n tails d.1)

  -- The same keys in the same order, once each, with the same values.
  pub same_entries :
      (m n : Map V) → keys m ≡ keys n → Distinct m → ((k : Text) → lookup k m ≡ lookup k n) → m ≡ n
  unfolding keys lookup
  same_entries [] [] e d same = refl
  same_entries [] ((i, w) ∷ n) e d same = absurd (cc)
  same_entries ((j, v) ∷ m) [] e d same = absurd (cc)
  same_entries ((j, v) ∷ m) ((i, w) ∷ n) e d same =
      let tails : keys m ≡ keys n = cc in
      let gone = keys-none j m n tails d.0 in
      let rest : m ≡ n =
        same_entries m n tails d.1
          (λ k. ground (arith, same k, d.0, gone, eq_iff j k, eq_iff i k, e)) in
      let first : some v ≡ some w = ground (arith, same j, text_eq_self j, e) in
      ground (arith, first, e, rest)
