-- ===== src/Application/State.antt =====
-- internal/application/reservation_service.go: the service's own state, the ids that it hands out, the
-- callbacks that it passes to the repository and the events that it records.
use inventory_reservation_sy.Base.{
  ℕ, ◌≡◌, ◌*◌, ◌==◌, if◌then◌else◌, List, [], ◌∷◌, ◌++◌, Option, none, some,
}
use inventory_reservation_sy.Base.Text.{Text, codes, decimal, decimal-injective, append_cancel_left}
use inventory_reservation_sy.Base.Int64.{add_int, sub_int}
use inventory_reservation_sy.Base.Time.{Time, Duration, pos, negsuc, minute}
use inventory_reservation_sy.Domain.Inventory.{ProductInventory}
use inventory_reservation_sy.Domain.Reservation.{
  confirmed, cancelled, expired, Reservation, zero_reservation,
}
use inventory_reservation_sy.Domain.Event.{
  InventoryEvent, InventoryEventType, event_reserve_rejected,
}
use inventory_reservation_sy.Domain.Errors.{Error}
use inventory_reservation_sy.Application.Shadow.{ShadowRecord}

abbrev pub default_hold_duration : Duration
default_hold_duration = pos (2 * minute)

pub record Service (R : Type 0) : Type 0 where
  pub repo : R
  pub hold_for : Duration
  pub shadow_recorder : List ShadowRecord
  pub id_counter : ℕ

abbrev or_default : Duration → Duration
or_default (pos n) = if n == 0 then default_hold_duration else pos n
or_default (negsuc n) = negsuc n

module _ {R : Type 0} where
  -- A new service has no recorder of its own: `NoopShadowRecorder` stands in for nil.
  abbrev pub new_reservation_service : R → Duration → Service R
  new_reservation_service repo hold_for = record {
    repo = repo;
    hold_for = or_default hold_for;
    shadow_recorder = [];
    id_counter = 0;
  }

  abbrev pub set_repo : R → Service R → Service R
  set_repo r s = record s { repo = r }

-- fmt.Sprintf("%s-%d", prefix, n)
unfoldable pub format_id : Text → ℕ → Text
format_id prefix n = prefix ++ b'-' ∷ decimal n

abbrev pub res_prefix : Text
res_prefix = codes "res"

abbrev pub evt_prefix : Text
evt_prefix = codes "evt"

-- Numbers that differ give ids that differ.
pub format_id-injective :
    (prefix : Text) (m n : ℕ) → format_id prefix m ≡ format_id prefix n → m ≡ n
unfolding format_id
format_id-injective prefix m n h =
    let tails = append_cancel_left prefix (b'-' ∷ decimal m) (b'-' ∷ decimal n) h in
    decimal-injective m n (cc)

unfoldable pub next_id : {R : Type 0} → Text → Service R → Text × Service R
next_id prefix s =
    let n = add_int s.id_counter 1 in (format_id prefix n, record s { id_counter = n })

-- The callbacks that the operations hand to the repository.
unfoldable pub mark_confirmed : Time → Reservation → Reservation
mark_confirmed now r = record r { state = confirmed; confirmed_at = some now }

unfoldable pub mark_cancelled : Time → Reservation → Reservation
mark_cancelled now r = record r { state = cancelled; cancelled_at = some now }

unfoldable pub mark_expired : Time → Reservation → Reservation
mark_expired now r = record r { state = expired; expired_at = some now }

unfoldable pub add_hold : ProductInventory → ProductInventory
add_hold p = record p { active_reservation_count = add_int p.active_reservation_count 1 }

unfoldable pub release_hold : ProductInventory → ProductInventory
release_hold p = record p { active_reservation_count = sub_int p.active_reservation_count 1 }

unfoldable pub sell_hold : ProductInventory → ProductInventory
sell_hold p = record p {
  active_reservation_count = sub_int p.active_reservation_count 1;
  confirmed_count = add_int p.confirmed_count 1;
}

-- A callback that returns nil.
abbrev pub returning_nil : {A : Type 0} → (A → A) → A → A × Option Error
returning_nil f a = (f a, none)

-- The event of a transition, before it has its id.
abbrev pub event_of : InventoryEventType → Reservation → Time → InventoryEvent
event_of kind r now = record {
  event_id = [];
  kind = kind;
  product_id = r.product_id;
  reservation_id = some r.reservation_id;
  user_id = some r.user_id;
  reason = none;
  occurred_at = now;
}

abbrev pub rejection : Text → Text → Time → InventoryEvent
rejection product_id user_id now = record {
  event_id = [];
  kind = event_reserve_rejected;
  product_id = product_id;
  reservation_id = none;
  user_id = some user_id;
  reason = some (codes "out of stock");
  occurred_at = now;
}

-- What a callback leaves in `result`: the updated reservation, or the zero value if it did not run.
abbrev pub captured : (Reservation → Reservation) → Option Reservation → Reservation
captured f none = zero_reservation
captured f (some r) = f r
