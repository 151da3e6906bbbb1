-- ===== src/Base/Lists.antt =====
-- Lists measured by native numbers, tests and predicates over their elements, and reorderings.
use Prim.Native.Nat.{ℕ, suc, ◌+◌}
use mathlib.Core.Path.{◌≡◌, refl, ap, ◌∙◌, subst}
use mathlib.Core.Bool.{Bool, true}
use mathlib.Core.List.{List, [], ◌∷◌, ◌++◌, map, Permᴰ}
use native.Mathlib.Omega.{arith}
use inventory_reservation_sy.Base.Tests.{if◌then◌else◌, to_num}

module _ {ℓ} {A : Type ℓ} where
  abbrev pub length : List A → ℕ
  length [] = 0
  length (x ∷ xs) = suc (length xs)

  -- The elements that pass the test, in order.
  unfoldable pub select : (A → Bool) → List A → List A
  select p [] = []
  select p (x ∷ xs) = if p x then x ∷ select p xs else select p xs

  -- The sum of the weights.
  unfoldable pub sum_of : (A → ℕ) → List A → ℕ
  sum_of w [] = 0
  sum_of w (x ∷ xs) = w x + sum_of w xs

  pub length-append : (xs ys : List A) → length (xs ++ ys) ≡ length xs + length ys
  length-append [] ys = omega arith
  length-append (x ∷ xs) ys = omega (arith, length-append xs ys)

  pub length-select :
      (p : A → Bool) (xs : List A) → length (select p xs) ≡ sum_of (λ x. to_num (p x)) xs
  unfolding select sum_of
  length-select p [] = refl
  length-select p (x ∷ xs) = ground (arith, length-select p xs)

  pub select-append :
      (p : A → Bool) (xs ys : List A) → select p (xs ++ ys) ≡ select p xs ++ select p ys
  unfolding select
  select-append p [] ys = refl
  select-append p (x ∷ xs) ys = ground (arith, select-append p xs ys)

  pub sum_of-append : (w : A → ℕ) (xs ys : List A) → sum_of w (xs ++ ys) ≡ sum_of w xs + sum_of w ys
  unfolding sum_of
  sum_of-append w [] ys = omega arith
  sum_of-append w (x ∷ xs) ys = omega (arith, sum_of-append w xs ys)

  pub sum_of-perm : {xs ys : List A} (w : A → ℕ) → Permᴰ xs ys → sum_of w xs ≡ sum_of w ys
  unfolding sum_of
  sum_of-perm w Permᴰ.nil = refl
  sum_of-perm w (Permᴰ.cons e p) = omega (arith, ap w e, sum_of-perm w p)
  sum_of-perm w (Permᴰ.swap e f) = omega (arith, ap w e, ap w f)
  sum_of-perm w (Permᴰ.trans p q) = sum_of-perm w p ∙ sum_of-perm w q

module _ {ℓ κ} {A : Type ℓ} where
  abbrev pub All : (A → Type κ) → List A → Type κ
  All P [] = Unit
  All P (x ∷ xs) = P x × All P xs

  pub All-perm : (P : A → Type κ) {xs ys : List A} → Permᴰ xs ys → All P xs → All P ys
  All-perm P Permᴰ.nil h = tt
  All-perm P (Permᴰ.cons e p) h = (subst P e h.0, All-perm P p h.1)
  All-perm P (Permᴰ.swap e f) h = (subst P f h.1.0, (subst P e h.0, h.1.1))
  All-perm P (Permᴰ.trans p q) h = All-perm P q (All-perm P p h)

  pub All-map : {P Q : A → Type κ} (xs : List A) → ((x : A) → P x → Q x) → All P xs → All Q xs
  All-map [] f h = tt
  All-map (x ∷ xs) f h = (f x h.0, All-map xs f h.1)

  pub All-append : (P : A → Type κ) (xs ys : List A) → All P xs → All P ys → All P (xs ++ ys)
  All-append P [] ys h k = k
  All-append P (x ∷ xs) ys h k = (h.0, All-append P xs ys h.1 k)

  pub All-select : (P : A → Type κ) (p : A → Bool) (xs : List A) → All P xs → All P (select p xs)
  unfolding select
  All-select P p [] h = tt
  All-select P p (x ∷ xs) h = ground (arith, All-select P p xs h.1)

  -- The elements that pass, with what the test tells of them.
  pub All-select_of :
      (P Q : A → Type κ) (p : A → Bool) (xs : List A)
      → ((x : A) → p x ≡ true → P x → Q x)
      → All P xs
      → All Q (select p xs)
  unfolding select
  All-select_of P Q p [] f h = tt
  All-select_of P Q p (x ∷ xs) f h = ground (arith, f x, All-select_of P Q p xs f h.1)

-- No two elements of the list are related.
module _ {ℓ κ} {A : Type ℓ} where
  abbrev pub Apart : (A → A → Type κ) → List A → Type κ
  Apart R [] = Unit
  Apart R (x ∷ xs) = All (R x) xs × Apart R xs

  pub Apart-perm :
      {R : A → A → Type κ} {xs ys : List A}
      → ((a b : A) → R a b → R b a)
      → Permᴰ xs ys
      → Apart R xs
      → Apart R ys
  Apart-perm sy Permᴰ.nil h = tt
  Apart-perm {R} sy (Permᴰ.cons {a = a} {l₂ = zs} e p) h =
      (subst (λ a. All (R a) zs) e (All-perm (R a) p h.0), Apart-perm sy p h.1)
  Apart-perm {R} sy (Permᴰ.swap {a = a} {b = b} {l = l} e f) h = (
    (subst (R _) e (subst (λ c. R c a) f (sy a b h.0.0)), subst (λ c. All (R c) l) f h.1.0),
    (subst (λ c. All (R c) l) e h.0.1, h.1.1),
  )
  Apart-perm sy (Permᴰ.trans p q) h = Apart-perm sy q (Apart-perm sy p h)

  pub Apart-select :
      (R : A → A → Type κ) (p : A → Bool) (xs : List A) → Apart R xs → Apart R (select p xs)
  unfolding select
  Apart-select R p [] h = tt
  Apart-select R p (x ∷ xs) h = ground (arith, All-select (R x) p xs h.0, Apart-select R p xs h.1)

module _ {ℓ} {A : Type ℓ} where
  pub length-perm : {xs ys : List A} → Permᴰ xs ys → length xs ≡ length ys
  length-perm Permᴰ.nil = refl
  length-perm (Permᴰ.cons e p) = ap suc (length-perm p)
  length-perm (Permᴰ.swap e f) = refl
  length-perm (Permᴰ.trans p q) = length-perm p ∙ length-perm q

  pub map-append {κ} :
      {B : Type κ} (f : A → B) (xs ys : List A) → map f (xs ++ ys) ≡ map f xs ++ map f ys
  map-append f [] ys = refl
  map-append f (x ∷ xs) ys = ap (λ zs. f x ∷ zs) (map-append f xs ys)

  pub length-map {κ} : {B : Type κ} (f : A → B) (xs : List A) → length (map f xs) ≡ length xs
  length-map f [] = refl
  length-map f (x ∷ xs) = ap suc (length-map f xs)

module _ {ℓ κ ν} {A : Type ℓ} {B : Type κ} where
  -- Of a mapped list, from the list.
  pub All-of_map :
      (P : B → Type ν) (f : A → B) (xs : List A) → All (λ x. P (f x)) xs → All P (map f xs)
  All-of_map P f [] h = tt
  All-of_map P f (x ∷ xs) h = (h.0, All-of_map P f xs h.1)

  pub Apart-of_map :
      (R : B → B → Type ν) (f : A → B) (xs : List A)
      → Apart (λ x y. R (f x) (f y)) xs
      → Apart R (map f xs)
  Apart-of_map R f [] h = tt
  Apart-of_map R f (x ∷ xs) h = (All-of_map (R (f x)) f xs h.0, Apart-of_map R f xs h.1)
