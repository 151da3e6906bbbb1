-- ===== src/Server/Seed.antt =====
-- cmd/server/main.go, parseSeed: the products of the --seed flag, "sku:stock,sku:stock". strings.Split,
-- strings.SplitN and strconv.Atoi are Go's, written out on bytes.
pub mod RoundTrip
use inventory_reservation_sy.Base.{
  ℕ, ◌≡◌, ◌<◌, ◌==◌, ltb, leb, if◌then◌else◌, Bool, true, false, not, ◌&&◌, ◌||◌, List, [], ◌∷◌,
  Option, none, some, All, Bool-cases, Option-cases, inl, inr, arith,
}
use inventory_reservation_sy.Base.Text.{Text, codes, text_eq, number}
use inventory_reservation_sy.Base.Int64.{sign, sub_int, is_negative}
use inventory_reservation_sy.Base.Time.{Duration}
use inventory_reservation_sy.Domain.Errors.{other, Result, ok, err}
use inventory_reservation_sy.Http.ExternalId.{trim_space}
use inventory_reservation_sy.Application.Invariant.{IsSound}
use inventory_reservation_sy.Application.History.{start}
use inventory_reservation_sy.Application.History.Stock.{FitsInt, start-IsSound}

-- strings.Split on a separator of one byte.
abbrev add_to_first : ℕ → List Text → List Text
add_to_first c [] = (c ∷ []) ∷ []
add_to_first c (piece ∷ pieces) = (c ∷ piece) ∷ pieces

unfoldable pub split_on : ℕ → Text → List Text
split_on sep [] = [] ∷ []
split_on sep (c ∷ t) =
    let pieces = split_on sep t in if c == sep then [] ∷ pieces else add_to_first c pieces

-- strings.SplitN with a limit of two: nothing if the separator is missing, and so there is one piece.
abbrev after_first : ℕ → Option (Text × Text) → Option (Text × Text)
after_first c none = none
after_first c (some (key, value)) = some (c ∷ key, value)

unfoldable pub split_two : ℕ → Text → Option (Text × Text)
split_two sep [] = none
split_two sep (c ∷ t) =
    let pieces = split_two sep t in if c == sep then some ([], t) else after_first c pieces

-- strconv.Atoi: an optional sign and decimal digits, within the range of `int`.
unfoldable pub all_digits : Text → Bool
all_digits [] = true
all_digits (c ∷ t) = (leb 48 c && leb c 57) && all_digits t

abbrev pub magnitude : Text → Option ℕ
magnitude t = if text_eq t [] || not (all_digits t) then none else some (number 0 t)

abbrev pub non_negative : Option ℕ → Option ℕ
non_negative none = none
non_negative (some n) = if ltb n sign then some n else none

abbrev negated : Option ℕ → Option ℕ
negated none = none
negated (some n) = if leb n sign then some (sub_int 0 n) else none

unfoldable pub atoi : Text → Option ℕ
unfolding all_digits text_eq number
atoi [] = none
atoi (c ∷ t) =
    if c == 45
    then negated (magnitude t)
    else if c == 43
    then non_negative (magnitude t)
    else non_negative (magnitude (c ∷ t))

abbrev bad_entry : Result (Text × ℕ)
bad_entry = err (other (codes "seed entries must be <productId>:<stock>"))

abbrev bad_stock : Result (Text × ℕ)
bad_stock = err (other (codes "seed stock must be a non-negative integer"))

abbrev pub seed_with : Text → Option ℕ → Result (Text × ℕ)
seed_with id none = bad_stock
seed_with id (some n) = if is_negative n then bad_stock else ok (id, n)

abbrev pub seed_of_pair : Option (Text × Text) → Result (Text × ℕ)
seed_of_pair none = bad_entry
seed_of_pair (some (key, value)) =
    if text_eq (trim_space key) []
    then bad_entry
    else seed_with (trim_space key) (atoi (trim_space value))

-- One round of the loop.
unfoldable pub parse_entry : Text → Result (Text × ℕ)
unfolding atoi split_two
parse_entry part = seed_of_pair (split_two 58 (trim_space part))

abbrev add_seed : Result (Text × ℕ) → Result (List (Text × ℕ)) → Result (List (Text × ℕ))
add_seed (err e) rest = err e
add_seed (ok seed) (err e) = err e
add_seed (ok seed) (ok seeds) = ok (seed ∷ seeds)

unfoldable pub parse_parts : List Text → Result (List (Text × ℕ))
parse_parts [] = ok []
parse_parts (part ∷ parts) = add_seed (parse_entry part) (parse_parts parts)

unfoldable pub parse_seed : Text → Result (List (Text × ℕ))
unfolding parse_parts split_on
parse_seed s = if text_eq (trim_space s) [] then ok [] else parse_parts (split_on 44 s)

-- What the loop promises of an entry.
abbrev pub IsSeed : Text × ℕ → Type 0
IsSeed (id, stock) = (stock < sign) × (text_eq id [] ≡ false)

seed_with-IsSeed :
    (id : Text) (n : Option ℕ) (seed : Text × ℕ)
    → text_eq id [] ≡ false
    → seed_with id n ≡ ok seed
    → IsSeed seed
seed_with-IsSeed id none seed named h = absurd (cc)
seed_with-IsSeed id (some n) (k, stock) named h = ground arith

seed_of_pair-IsSeed :
    (pair : Option (Text × Text)) (seed : Text × ℕ) → seed_of_pair pair ≡ ok seed → IsSeed seed
seed_of_pair-IsSeed none seed h = absurd (cc)
seed_of_pair-IsSeed (some (key, value)) seed h = elim (Bool-cases (text_eq (trim_space key) [])) [
  | inl blank ↦ absurd (ground arith)
  | inr named ↦
      seed_with-IsSeed (trim_space key) (atoi (trim_space value)) seed named (ground arith)
]

parse_parts-IsSeed :
    (parts : List Text) (seeds : List (Text × ℕ)) → parse_parts parts ≡ ok seeds → All IsSeed seeds
unfolding parse_parts parse_entry
parse_parts-IsSeed [] [] h = tt
parse_parts-IsSeed [] (seed ∷ seeds) h = absurd (cc)
parse_parts-IsSeed (part ∷ parts) seeds h =
    added (seed_of_pair (split_two 58 (trim_space part))) (parse_parts parts)
      (seed_of_pair-IsSeed (split_two 58 (trim_space part))) (parse_parts-IsSeed parts) seeds h
  where
    added :
        (first : Result (Text × ℕ)) (rest : Result (List (Text × ℕ)))
        → ((seed : Text × ℕ) → first ≡ ok seed → IsSeed seed)
        → ((seeds : List (Text × ℕ)) → rest ≡ ok seeds → All IsSeed seeds)
        → (seeds : List (Text × ℕ)) → add_seed first rest ≡ ok seeds
        → All IsSeed seeds
    added (err e) rest one more seeds h = absurd (cc)
    added (ok seed) (err e) one more seeds h = absurd (cc)
    added (ok seed) (ok tail) one more [] h = tt
    added (ok seed) (ok tail) one more (first ∷ later) h =
        let same : seed ∷ tail ≡ first ∷ later = cc in (one first (cc), more later (cc))

-- Every product that parseSeed returns has a stock that is no negative `int` and an id that is not
-- empty, so the service that is built from them is sound.
pub parse_seed-IsSound :
    (s : Text) (hold_for : Duration) (seeds : List (Text × ℕ))
    → parse_seed s ≡ ok seeds
    → All IsSeed seeds × IsSound 0 (start seeds hold_for)
unfolding parse_seed
parse_seed-IsSound s hold_for seeds h = (good, start-IsSound seeds hold_for (all_fit seeds good))
  where
    good : All IsSeed seeds
    good = elim (Bool-cases (text_eq (trim_space s) [])) [
      | inl blank ↦ parse_parts-IsSeed [] seeds (unfold parse_parts in ground arith)
      | inr given ↦ parse_parts-IsSeed (split_on 44 s) seeds (ground arith)
    ]

    all_fit : (ks : List (Text × ℕ)) → All IsSeed ks → All FitsInt ks
    all_fit [] a = tt
    all_fit (k ∷ ks) a = (a.0.0, all_fit ks a.1)
