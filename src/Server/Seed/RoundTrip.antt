-- ===== src/Server/Seed/RoundTrip.antt =====
-- cmd/server/main.go, parseSeed, on lists of seeds that are written out.
use inventory_reservation_sy.Base.{
  ℕ, zero, suc, ◌+◌, ◌/◌, ◌%◌, ◌≡◌, ◌≢◌, ◌<◌, refl, ap, ◌∙◌, true, false, List, [], ◌∷◌, ◌++◌, some,
  All, All-map, All-append, arith,
}
use inventory_reservation_sy.Base.Text.{Text, text_eq, number, digits, decimal, number-decimal}
use inventory_reservation_sy.Base.Int64.{sign}
use inventory_reservation_sy.Domain.Errors.{ok}
use inventory_reservation_sy.Http.ExternalId.{is_space, trim_left, trim_right, trim_space}
use inventory_reservation_sy.Server.Seed.{
  split_on, split_two, all_digits, atoi, parse_entry, parse_parts, parse_seed, seed_of_pair,
}

-- A byte that parseSeed takes as it is: no space, no comma, no colon.
abbrev pub IsPlain : ℕ → Type 0
IsPlain c = (is_space c ≡ false) × (c ≢ 44) × (c ≢ 58)

abbrev IsInk : ℕ → Type 0
IsInk c = is_space c ≡ false

-- How a seed and a list of seeds are written.
abbrev pub written_seed : Text × ℕ → Text
written_seed (id, stock) = id ++ 58 ∷ decimal stock

unfoldable pub written_seeds : List (Text × ℕ) → Text
unfolding decimal
written_seeds [] = []
written_seeds (seed ∷ []) = written_seed seed
written_seeds (seed ∷ next ∷ seeds) = written_seed seed ++ 44 ∷ written_seeds (next ∷ seeds)

trim_left_ink : (t : Text) → All IsInk t → trim_left t ≡ t
unfolding trim_left
trim_left_ink [] a = refl
trim_left_ink (c ∷ t) a = ground (arith, a.0)

trim_right_ink : (t : Text) → All IsInk t → trim_right t ≡ t
unfolding trim_right
trim_right_ink [] a = refl
trim_right_ink (c ∷ []) a = ground (arith, a.0)
trim_right_ink (c ∷ d ∷ t) a = ground (arith, trim_right_ink (d ∷ t) a.1)

trim_space_ink : (t : Text) → All IsInk t → trim_space t ≡ t
trim_space_ink t a = unfold trim_space in (ap trim_right (trim_left_ink t a) ∙ trim_right_ink t a)

split_on-piece :
    (sep : ℕ) (p t : Text) → All (λ c. c ≢ sep) p → split_on sep (p ++ sep ∷ t) ≡ p ∷ split_on sep t
unfolding split_on
split_on-piece sep [] t a = ground arith
split_on-piece sep (c ∷ p) t a = ground (arith, a.0, split_on-piece sep p t a.1)

split_on_last : (sep : ℕ) (p : Text) → All (λ c. c ≢ sep) p → split_on sep p ≡ p ∷ []
unfolding split_on
split_on_last sep [] a = refl
split_on_last sep (c ∷ p) a = ground (arith, a.0, split_on_last sep p a.1)

split_two-piece :
    (sep : ℕ) (p t : Text) → All (λ c. c ≢ sep) p → split_two sep (p ++ sep ∷ t) ≡ some (p, t)
unfolding split_two
split_two-piece sep [] t a = ground arith
split_two-piece sep (c ∷ p) t a = ground (arith, a.0, split_two-piece sep p t a.1)

-- The bytes of a numeral.
digits-all_digits :
    (f n : ℕ) (t : Text) → n < f → all_digits t ≡ true → all_digits (digits f n t) ≡ true
unfolding digits all_digits
digits-all_digits zero n t h a = elim h [ ]
digits-all_digits (suc f) n t h a = ground (arith, digits-all_digits f (n / 10) ((48 + n % 10) ∷ t))

digits_not_empty : (f n : ℕ) (t : Text) → n < f → text_eq (digits f n t) [] ≡ false
unfolding digits text_eq
digits_not_empty zero n t h = elim h [ ]
digits_not_empty (suc f) n t h = ground (arith, digits_not_empty f (n / 10) ((48 + n % 10) ∷ t))

all_digits-IsPlain : (t : Text) → all_digits t ≡ true → All IsPlain t
unfolding all_digits is_space
all_digits-IsPlain [] h = tt
all_digits-IsPlain (c ∷ t) h =
    ((ground arith, (λ e. ground arith), (λ e. ground arith)), all_digits-IsPlain t (ground arith))

atoi_digits :
    (t : Text)
    → text_eq t [] ≡ false
    → all_digits t ≡ true
    → number 0 t < sign
    → atoi t ≡ some (number 0 t)
unfolding atoi all_digits text_eq number
atoi_digits [] some_digit good fits = absurd (ground arith)
atoi_digits (c ∷ t) some_digit good fits = ground arith

decimal-all_digits : (n : ℕ) → all_digits (decimal n) ≡ true
unfolding decimal all_digits
decimal-all_digits n = digits-all_digits (suc n) n [] (omega arith) refl

decimal_not_empty : (n : ℕ) → text_eq (decimal n) [] ≡ false
unfolding decimal
decimal_not_empty n = digits_not_empty (suc n) n [] (omega arith)

atoi-decimal : (n : ℕ) → n < sign → atoi (decimal n) ≡ some n
atoi-decimal n fits =
    atoi_digits (decimal n) (decimal_not_empty n) (decimal-all_digits n)
      (rw (number-decimal n) fits)
    ∙ ap some (number-decimal n)

decimal-IsPlain : (n : ℕ) → All IsPlain (decimal n)
decimal-IsPlain n = all_digits-IsPlain (decimal n) (decimal-all_digits n)

-- What can be written: a plain id that is not empty, and a stock that fits.
abbrev pub IsWritable : Text × ℕ → Type 0
IsWritable (id, stock) = All IsPlain id × (text_eq id [] ≡ false) × (stock < sign)

trim_space_plain : (t : Text) → All IsPlain t → trim_space t ≡ t
trim_space_plain t a = trim_space_ink t (All-map t (λ c p. p.0) a)

written_seed-IsInk : (seed : Text × ℕ) → IsWritable seed → All IsInk (written_seed seed)
written_seed-IsInk (id, stock) w =
    All-append IsInk id (58 ∷ decimal stock) (All-map id (λ c p. p.0) w.0)
      (unfold is_space in refl, All-map (decimal stock) (λ c p. p.0) (decimal-IsPlain stock))

parse_entry-written_seed :
    (seed : Text × ℕ) → IsWritable seed → parse_entry (written_seed seed) ≡ ok seed
unfolding parse_entry
parse_entry-written_seed (id, stock) w =
    rw
      (
        trim_space_ink (id ++ 58 ∷ decimal stock) (written_seed-IsInk (id, stock) w),
        split_two-piece 58 id (decimal stock) (All-map id (λ c p. p.2) w.0),
        seed_of_pair,
        trim_space_plain id w.0,
        trim_space_plain (decimal stock) (decimal-IsPlain stock),
        w.1,
        atoi-decimal stock w.2,
      )
      (ground (arith, w.2))

-- No comma stands in a written seed.
written_seed_no_comma : (seed : Text × ℕ) → IsWritable seed → All (λ c. c ≢ 44) (written_seed seed)
written_seed_no_comma (id, stock) w =
    All-append (λ c. c ≢ 44) id (58 ∷ decimal stock) (All-map id (λ c p. p.1) w.0)
      ((λ e. ground arith), All-map (decimal stock) (λ c p. p.1) (decimal-IsPlain stock))

parse_parts-written_seeds :
    (seed : Text × ℕ) (seeds : List (Text × ℕ))
    → All IsWritable (seed ∷ seeds)
    → parse_parts (split_on 44 (written_seeds (seed ∷ seeds))) ≡ ok (seed ∷ seeds)
unfolding written_seeds parse_parts
parse_parts-written_seeds seed [] w =
    rw
      (
        split_on_last 44 (written_seed seed) (written_seed_no_comma seed w.0),
        parse_entry-written_seed seed w.0,
      )
      refl
parse_parts-written_seeds seed (next ∷ seeds) w =
    rw
      (
        split_on-piece 44 (written_seed seed) (written_seeds (next ∷ seeds))
            (written_seed_no_comma seed w.0),
        parse_entry-written_seed seed w.0,
        parse_parts-written_seeds next seeds w.1,
      )
      refl

written_seeds-IsInk :
    (seed : Text × ℕ) (seeds : List (Text × ℕ))
    → All IsWritable (seed ∷ seeds)
    → All IsInk (written_seeds (seed ∷ seeds))
unfolding written_seeds
written_seeds-IsInk seed [] w = written_seed-IsInk seed w.0
written_seeds-IsInk seed (next ∷ seeds) w =
    All-append IsInk (written_seed seed) (44 ∷ written_seeds (next ∷ seeds))
      (written_seed-IsInk seed w.0) (unfold is_space in refl, written_seeds-IsInk next seeds w.1)

written_seeds_not_empty :
    (seed : Text × ℕ) (seeds : List (Text × ℕ))
    → IsWritable seed
    → text_eq (written_seeds (seed ∷ seeds)) [] ≡ false
unfolding written_seeds text_eq
written_seeds_not_empty ([], stock) seeds w = absurd (ground (arith, w.1))
written_seeds_not_empty (c ∷ id, stock) [] w = refl
written_seeds_not_empty (c ∷ id, stock) (next ∷ seeds) w = refl

-- parseSeed reads a list of seeds back from its written form, if it has a seed, the ids are not empty
-- and have no space, comma or colon, and the stocks fit an `int`.
pub parse_seed-written_seeds :
    (seed : Text × ℕ) (seeds : List (Text × ℕ))
    → All IsWritable (seed ∷ seeds)
    → parse_seed (written_seeds (seed ∷ seeds)) ≡ ok (seed ∷ seeds)
unfolding parse_seed
parse_seed-written_seeds seed seeds w =
    rw
      (
        trim_space_ink (written_seeds (seed ∷ seeds)) (written_seeds-IsInk seed seeds w),
        written_seeds_not_empty seed seeds w.0,
      )
      (parse_parts-written_seeds seed seeds w)
