-- ===== src/Base/Strings.antt =====
-- What the code uses of Go's package strings, and the order of strings, on bytes.
use Prim.Native.Nat.{ℕ}
use mathlib.Core.Path.{◌≡◌, refl, ap}
use mathlib.Core.Bool.{Bool, true, false, ◌&&◌, ◌||◌}
use mathlib.Core.List.{[], ◌∷◌, ◌++◌}
use native.Mathlib.Omega.{arith}
use inventory_reservation_sy.Base.Tests.{◌==◌, ltb, if◌then◌else◌}
use inventory_reservation_sy.Base.Text.{Text, text_eq, eq_iff, text_eq_self}

-- strings.HasPrefix and strings.HasSuffix.
unfoldable pub has_prefix : Text → Text → Bool
has_prefix t [] = true
has_prefix [] (b ∷ prefix) = false
has_prefix (a ∷ t) (b ∷ prefix) = (a == b) && has_prefix t prefix

unfoldable pub has_suffix : Text → Text → Bool
has_suffix [] suffix = text_eq [] suffix
has_suffix (a ∷ t) suffix = text_eq (a ∷ t) suffix || has_suffix t suffix

-- `<` on strings.
unfoldable pub text_lt : Text → Text → Bool
text_lt s [] = false
text_lt [] (b ∷ t) = true
text_lt (a ∷ s) (b ∷ t) = if a == b then text_lt s t else ltb a b

pub has_suffix-append : (s suffix : Text) → has_suffix (s ++ suffix) suffix ≡ true
unfolding has_suffix text_eq
has_suffix-append [] [] = refl
has_suffix-append [] (b ∷ t) = ground (arith, text_eq_self (b ∷ t))
has_suffix-append (a ∷ s) suffix = ground (arith, has_suffix-append s suffix)

-- The last byte, or `c` if there is none.
abbrev pub last_of : ℕ → Text → ℕ
last_of c [] = c
last_of c (b ∷ t) = last_of b t

pub last_of-append : (c b : ℕ) (s t : Text) → last_of c (s ++ b ∷ t) ≡ last_of b t
last_of-append c b [] t = refl
last_of-append c b (a ∷ s) t = last_of-append a b s t

-- A suffix ends as the text does.
pub suffix_last :
    (t : Text) (c b : ℕ) (suffix : Text)
    → has_suffix t (b ∷ suffix) ≡ true
    → last_of c t ≡ last_of b suffix
unfolding has_suffix text_eq
suffix_last [] c b suffix h = absurd (cc)
suffix_last (a ∷ t) c b suffix h = ground (
  arith,
  suffix_last t a b suffix,
  eq_iff (a ∷ t) (b ∷ suffix),
  ap (last_of c) {x = a ∷ t} {y = b ∷ suffix},
)

pub text_lt_asym : (s t : Text) → text_lt s t ≡ true → text_lt t s ≡ false
unfolding text_lt
text_lt_asym s [] h = ground arith
text_lt_asym [] (b ∷ t) h = ground arith
text_lt_asym (a ∷ s) (b ∷ t) h = ground (arith, text_lt_asym s t)

pub text_lt_total : (s t : Text) → text_lt s t ≡ false → text_lt t s ≡ false → s ≡ t
unfolding text_lt
text_lt_total [] [] h k = refl
text_lt_total [] (b ∷ t) h k = ground arith
text_lt_total (a ∷ s) [] h k = ground arith
text_lt_total (a ∷ s) (b ∷ t) h k = ground (arith, text_lt_total s t)

pub text_lt_trans : (s t u : Text) → text_lt s t ≡ true → text_lt t u ≡ true → text_lt s u ≡ true
unfolding text_lt
text_lt_trans s t [] h k = ground arith
text_lt_trans [] t (c ∷ u) h k = ground arith
text_lt_trans (a ∷ s) [] (c ∷ u) h k = ground arith
text_lt_trans (a ∷ s) (b ∷ t) (c ∷ u) h k = ground (arith, text_lt_trans s t u)
