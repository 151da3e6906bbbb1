-- ===== src/Infrastructure/Clock.antt =====
-- internal/infrastructure/clock.go: the settable clock. The system clock is a parameter everywhere: its
-- readings are arguments.
use inventory_reservation_sy.Base.Time.{Time, Duration, add_time}

pub record FakeClock : Type 0 where
  pub current : Time

unfoldable pub new_fake_clock : Time → FakeClock
new_fake_clock t = record { current = t }

unfoldable pub now : FakeClock → Time
now c = c.current

unfoldable pub advance_clock : Duration → FakeClock → FakeClock
advance_clock d c = record c { current = add_time c.current d }
