-- ===== src/Infrastructure/Tables.antt =====
-- internal/infrastructure/postgres/migrations/0001_shadow_persistence.sql: the three tables that
-- postgres_repository.go reads and writes, with their constraints. A table with a primary key is a map. A
-- row has the columns that are read back: `updated_at`, the payload and the publication columns of the
-- outbox are never selected. `outbox_id` is the position of a row. The TEXT column `state` holds the same
-- string as the Go type ReservationState.
use inventory_reservation_sy.Base.{
  ℕ, ◌+◌, ◌^◌, ltb, leb, Bool, true, false, not, ◌&&◌, List, [], ◌∷◌, Option, none, some, ◌||◌,
}
use inventory_reservation_sy.Base.Text.{Text, text_eq}
use inventory_reservation_sy.Base.Time.{before}
use inventory_reservation_sy.Base.Map.{Map, lookup}
use inventory_reservation_sy.Domain.Inventory.{ProductInventory}
use inventory_reservation_sy.Domain.Reservation.{
  ReservationState, active, confirmed, cancelled, expired, unset, Reservation,
}
use inventory_reservation_sy.Domain.Event.{InventoryEvent}

pub record Tables : Type 0 where
  pub inventory_items : Map ProductInventory
  pub reservations : Map Reservation
  pub outbox_events : List InventoryEvent

abbrev pub no_rows : Tables
no_rows = record { inventory_items = []; reservations = []; outbox_events = [] }

-- The first number that an INTEGER column does not hold.
abbrev pub integer_limit : ℕ
integer_limit = 2 ^ 31

-- An `int` that an INTEGER column with a CHECK (... >= 0) takes.
abbrev pub fits_column : ℕ → Bool
fits_column n = ltb n integer_limit

-- The constraints of inventory_items.
unfoldable pub item_checks : ProductInventory → Bool
item_checks p =
    (fits_column p.total_stock
      && (fits_column p.confirmed_count && fits_column p.active_reservation_count))
    && leb (p.confirmed_count + p.active_reservation_count) p.total_stock

abbrev pub is_present : {A : Type 0} → Option A → Bool
is_present none = false
is_present (some a) = true

-- The CHECK on `state`, and the three that tie it to the timestamps.
abbrev pub stamps_check : ReservationState → Bool → Bool → Bool → Bool
stamps_check active on_confirm on_cancel on_expiry =
    not on_confirm && (not on_cancel && not on_expiry)
stamps_check confirmed on_confirm on_cancel on_expiry =
    on_confirm && (not on_cancel && not on_expiry)
stamps_check cancelled on_confirm on_cancel on_expiry =
    not on_confirm && (on_cancel && not on_expiry)
stamps_check expired on_confirm on_cancel on_expiry = not on_confirm && (not on_cancel && on_expiry)
stamps_check unset on_confirm on_cancel on_expiry = false

-- The CHECK constraints of reservations.
unfoldable pub reservation_checks : Reservation → Bool
reservation_checks r =
    before r.created_at r.expires_at
    && stamps_check r.state (is_present r.confirmed_at) (is_present r.cancelled_at)
        (is_present r.expired_at)

-- A nullable foreign key into reservations.
abbrev pub refers_to : Map Reservation → Option Text → Bool
refers_to rs none = true
refers_to rs (some id) = is_present (lookup id rs)

-- The UNIQUE constraint on `event_id`.
unfoldable pub has_event : Text → List InventoryEvent → Bool
has_event id [] = false
has_event id (e ∷ rest) = text_eq e.event_id id || has_event id rest
