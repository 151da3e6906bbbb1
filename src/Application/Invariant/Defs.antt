-- ===== src/Application/Invariant/Defs.antt =====
-- The invariant of internal/application/reservation_service.go over the in-memory repository: it ties the
-- product counters to the reservations.
use inventory_reservation_sy.Base.{
  ℕ, ◌+◌, ◌≤◌, ◌<◌, ◌≡◌, Bool, true, false, ◌&&◌, Option, none, some, to_num, sum_of,
}
use inventory_reservation_sy.Base.Text.{Text, text_eq}
use inventory_reservation_sy.Base.Int64.{sign}
use inventory_reservation_sy.Base.Map.{Map, lookup, values, Distinct}
use inventory_reservation_sy.Domain.Inventory.{ProductInventory}
use inventory_reservation_sy.Domain.Reservation.{
  ReservationState, confirmed, cancelled, expired, unset, Reservation, is_active,
}
use inventory_reservation_sy.Infrastructure.InMemory.{InMemoryRepository}
use inventory_reservation_sy.Application.State.{Service, format_id, res_prefix}

abbrev pub equals_confirmed : ReservationState → Bool
equals_confirmed confirmed = true
equals_confirmed _ = false

abbrev pub equals_cancelled : ReservationState → Bool
equals_cancelled cancelled = true
equals_cancelled _ = false

abbrev pub equals_expired : ReservationState → Bool
equals_expired expired = true
equals_expired _ = false

abbrev pub equals_unset : ReservationState → Bool
equals_unset unset = true
equals_unset _ = false

abbrev pub is_some : {A : Type 0} → Option A → Bool
is_some none = false
is_some (some a) = true

-- What a reservation adds to the held and to the sold units of a product.
abbrev pub holds : Text → Reservation → ℕ
holds k r = to_num (text_eq r.product_id k && is_active r)

abbrev pub sales : Text → Reservation → ℕ
sales k r = to_num (text_eq r.product_id k && equals_confirmed r.state)

abbrev pub held : Text → Map Reservation → ℕ
held k rs = sum_of (holds k) (values rs)

abbrev pub sold : Text → Map Reservation → ℕ
sold k rs = sum_of (sales k) (values rs)

-- A reservation has a proper state, and just the timestamp of its terminal state.
pub record IsStamped (r : Reservation) : Type 0 where
  pub proper : equals_unset r.state ≡ false
  pub on_confirm : is_some r.confirmed_at ≡ equals_confirmed r.state
  pub on_cancel : is_some r.cancelled_at ≡ equals_cancelled r.state
  pub on_expiry : is_some r.expired_at ≡ equals_expired r.state

-- The counters of one product agree with the reservations, and fit its stock.
pub record Agrees (k : Text) (p : ProductInventory) (rs : Map Reservation) : Type 0 where
  pub named : p.product_id ≡ k
  pub holds_counted : p.active_reservation_count ≡ held k rs
  pub sales_counted : p.confirmed_count ≡ sold k rs
  pub within : p.confirmed_count + p.active_reservation_count ≤ p.total_stock
  pub small : p.total_stock < sign

-- A reservation stands under its id, for a product that exists.
pub record IsFiled (ps : Map ProductInventory) (k : Text) (r : Reservation) : Type 0 where
  pub named : r.reservation_id ≡ k
  pub owner : ProductInventory
  pub known : lookup r.product_id ps ≡ some owner
  pub stamped : IsStamped r

pub record IsConsistent (ps : Map ProductInventory) (rs : Map Reservation) (n : ℕ) : Type 0 where
  pub agrees : (k : Text) (p : ProductInventory) → lookup k ps ≡ some p → Agrees k p rs
  pub filed : (k : Text) (r : Reservation) → lookup k rs ≡ some r → IsFiled ps k r
  pub distinct : Distinct rs
  pub fresh : (m : ℕ) → n < m → lookup (format_id res_prefix m) rs ≡ none

-- The invariant of a service.
abbrev pub IsValid : Service InMemoryRepository → Type 0
IsValid s = IsConsistent s.repo.products s.repo.reservations s.id_counter

-- The number of active reservations.
abbrev pub live : Reservation → ℕ
live r = to_num (is_active r)

abbrev pub live_total : Map Reservation → ℕ
live_total rs = sum_of live (values rs)

-- The invariant, with a budget of ids: each active reservation still takes one id, for the event that
-- ends it. While the budget stays below 2 ^ 64 the counter has not wrapped.
pub record IsSound (budget : ℕ) (s : Service InMemoryRepository) : Type 0 where
  pub valid : IsValid s
  pub spent : s.id_counter + live_total s.repo.reservations ≤ budget
