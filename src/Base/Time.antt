-- ===== src/Base/Time.antt =====
-- Go's `time`: an instant counts nanoseconds from the zero time, and a duration is signed. The instants
-- of a running service lie two thousand years after the zero time, so no sum falls below it.
use Prim.Native.Nat.{ℕ, suc, ◌+◌, ◌-◌, ◌*◌}
use mathlib.Core.Bool.{Bool}
use inventory_reservation_sy.Base.Tests.{ltb}

-- `negsuc n` is -(n + 1).
pub data ℤ : Type 0 where
  pos : ℕ → ℤ
  negsuc : ℕ → ℤ

abbrev pub Time : Type 0
Time = ℕ

abbrev pub Duration : Type 0
Duration = ℤ

-- time.Minute
abbrev pub minute : ℕ
minute = 60 * 1_000_000_000

-- t.Add(d)
abbrev pub add_time : Time → Duration → Time
add_time t (pos n) = t + n
add_time t (negsuc n) = t - suc n

-- t.Before(u)
abbrev pub before : Time → Time → Bool
before t u = ltb t u
