-- ===== src/Base/Int64.antt =====
-- Go's `int` and `uint64` as 64-bit patterns: arithmetic wraps, and a pattern from 2 ^ 63 on is negative
-- when it is read as an `int`.
use Prim.Native.Nat.{ℕ, ◌+◌, ◌-◌, ◌%◌, ◌^◌}
use mathlib.Core.Bool.{Bool, not, ◌||◌}
use inventory_reservation_sy.Base.Tests.{leb, ◌==◌}

abbrev pub word : ℕ
word = 2 ^ 64

-- The first pattern that is negative as an `int`.
abbrev pub sign : ℕ
sign = 2 ^ 63

abbrev pub add_int : ℕ → ℕ → ℕ
add_int a b = (a + b) % word

abbrev pub sub_int : ℕ → ℕ → ℕ
sub_int a b = (a + (word - b)) % word

abbrev pub is_negative : ℕ → Bool
is_negative a = leb sign a

-- `a <= 0`
abbrev pub is_nonpositive : ℕ → Bool
is_nonpositive a = (a == 0) || leb sign a

-- `a > 0`
abbrev pub is_positive : ℕ → Bool
is_positive a = not (is_nonpositive a)
