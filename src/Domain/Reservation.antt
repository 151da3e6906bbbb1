-- ===== src/Domain/Reservation.antt =====
-- internal/domain/reservation.go.
use inventory_reservation_sy.Base.{Bool, true, false, Option, none, []}
use inventory_reservation_sy.Base.Text.{Text}
use inventory_reservation_sy.Base.Time.{Time}

-- The Go type is a string: `unset` is its zero value "", which only a zero `Reservation{}` carries.
pub data ReservationState : Type 0 where
  active confirmed cancelled expired unset : ReservationState

pub record Reservation : Type 0 where
  pub reservation_id : Text
  pub product_id : Text
  pub user_id : Text
  pub state : ReservationState
  pub created_at : Time
  pub expires_at : Time
  pub confirmed_at : Option Time
  pub cancelled_at : Option Time
  pub expired_at : Option Time

-- Reservation{}
abbrev pub zero_reservation : Reservation
zero_reservation = record {
  reservation_id = [];
  product_id = [];
  user_id = [];
  state = unset;
  created_at = 0;
  expires_at = 0;
  confirmed_at = none;
  cancelled_at = none;
  expired_at = none;
}

-- state == StateActive
abbrev pub equals_active : ReservationState → Bool
equals_active active = true
equals_active _ = false

abbrev pub is_active : Reservation → Bool
is_active r = equals_active r.state

-- The value that a Go caller has when it ignores `ok`.
abbrev pub or_zero : Option Reservation → Reservation
or_zero none = zero_reservation
or_zero (Option.some r) = r
