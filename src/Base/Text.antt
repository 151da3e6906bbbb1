-- ===== src/Base/Text.antt =====
-- Go strings: sequences of bytes. Equality of strings, and decimal numerals as `fmt` prints them.
use Prim.Native.Nat.{ℕ, zero, suc, ◌+◌, ◌-◌, ◌*◌, ◌/◌, ◌%◌, ◌<◌}
use Prim.Native.Char.{code}
use Prim.Native.String.{String}
use mathlib.Core.Path.{◌≡◌, refl, sym, ap, ◌∙◌}
use mathlib.Core.Logic.{◌↔◌, ◌≢◌}
use mathlib.Core.Bool.{Bool, true, false, ◌&&◌}
use mathlib.Core.List.{List, [], ◌∷◌, ◌++◌}
use native.Mathlib.Omega.{arith}
use inventory_reservation_sy.Base.Tests.{◌==◌, ltb, if◌then◌else◌}

abbrev pub Text : Type 0
Text = List ℕ

-- The bytes of an ASCII literal.
abbrev pub codes : String → Text
codes String.[] = []
codes (String.◌∷◌ first rest) = code first ∷ codes rest

unfoldable pub text_eq : Text → Text → Bool
text_eq [] [] = true
text_eq [] (b ∷ t) = false
text_eq (a ∷ s) [] = false
text_eq (a ∷ s) (b ∷ t) = (a == b) && text_eq s t

pub eq_iff : (s t : Text) → (text_eq s t ≡ true) ↔ (s ≡ t)
unfolding text_eq
eq_iff [] [] = ground arith
eq_iff [] (b ∷ t) = ground arith
eq_iff (a ∷ s) [] = ground arith
eq_iff (a ∷ s) (b ∷ t) = ground (arith, eq_iff s t)

pub text_eq_self : (s : Text) → text_eq s s ≡ true
text_eq_self s = (eq_iff s s).1 refl

pub text_eq_ne : (s t : Text) → s ≢ t → text_eq s t ≡ false
text_eq_ne s t h = ground (arith, eq_iff s t)

-- Decimal digits: fuel `n` is enough, since each round divides by ten.
unfoldable pub digits : ℕ → ℕ → Text → Text
digits zero n acc = acc
digits (suc f) n acc =
    let rest = digits f (n / 10) ((48 + n % 10) ∷ acc) in if ltb n 10 then (48 + n) ∷ acc else rest

-- The verb %d of `fmt` at an unsigned number.
unfoldable pub decimal : ℕ → Text
unfolding digits
decimal n = digits (suc n) n []

-- The number that a run of digits stands for, read on from `acc`.
unfoldable pub number : ℕ → Text → ℕ
number acc [] = acc
number acc (c ∷ t) = number (acc * 10 + (c - 48)) t

-- Reading the digits gives the number back.
number-digits : (f n : ℕ) (acc : Text) → n < f → number 0 (digits f n acc) ≡ number n acc
unfolding digits number
number-digits zero n acc h = elim h [ ]
number-digits (suc f) n acc h =
    ground
      (arith, number-digits f (n / 10) ((48 + n % 10) ∷ acc), ap (λ (k : ℕ). number k acc) (back n))
  where
    back : (n : ℕ) → n / 10 * 10 + n % 10 ≡ n
    back n = omega arith

pub number-decimal : (n : ℕ) → number 0 (decimal n) ≡ n
unfolding decimal number
number-decimal n = number-digits (suc n) n [] (omega arith)

pub decimal-injective : (m n : ℕ) → decimal m ≡ decimal n → m ≡ n
decimal-injective m n h = sym (number-decimal m) ∙ ap (number 0) h ∙ number-decimal n

pub append_cancel_left : (p s t : Text) → p ++ s ≡ p ++ t → s ≡ t
append_cancel_left [] s t h = h
append_cancel_left (b ∷ p) s t h = append_cancel_left p s t (cc)
