-- ===== src/Infrastructure/Statements.antt =====
-- internal/infrastructure/postgres_repository.go: its statements with the values bound to them, the
-- database that they are sent to, and what their assignments make of a row. What PostgreSQL and its
-- driver do beyond the statements is the parameter `Driver`: it may refuse any statement, with or
-- without having applied it, it reports violated constraints by errors of its own, it rounds
-- timestamps to what a column keeps, and it hands the rows of a SELECT over in some order, all of
-- them or not.
use inventory_reservation_sy.Base.{Bool, false, List, Option, none, some}
use inventory_reservation_sy.Base.Text.{Text}
use inventory_reservation_sy.Base.Time.{Time}
use inventory_reservation_sy.Base.Map.{MapOrder, insert}
use inventory_reservation_sy.Domain.Inventory.{ProductInventory}
use inventory_reservation_sy.Domain.Reservation.{Reservation}
use inventory_reservation_sy.Domain.Event.{InventoryEvent}
use inventory_reservation_sy.Domain.Errors.{Error}
use inventory_reservation_sy.Infrastructure.Tables.{Tables}

-- The statements of the file, with the values bound to their placeholders.
pub data Statement : Type 0 where
  begin_tx commit select_events select_active : Statement
  insert_event : InventoryEvent → Statement
  upsert_item update_item : ProductInventory → Statement
  select_item lock_item select_reservation lock_reservation select_active_of : Text → Statement
  upsert_reservation update_reservation_row : Reservation → Statement

pub record Driver : Type 0 where
  pub refuses : Statement → Tables → Option Error
  pub applied : Statement → Tables → Bool
  pub violation : Statement → Error
  pub to_column : Time → Time
  pub scan : Statement → Tables → List Reservation → List Reservation
  pub scan_events : Tables → List InventoryEvent → List InventoryEvent

-- A database that takes every statement and hands all rows over, reservations in the order given.
abbrev pub undisturbed : MapOrder Reservation → (Statement → Error) → (Time → Time) → Driver
undisturbed order violation to_column = record {
  refuses = λ st t. none;
  applied = λ st t. false;
  violation = violation;
  to_column = to_column;
  scan = λ st t rows. order.arrange rows;
  scan_events = λ t rows. rows;
}

-- The assignments of the two upserts and of the two updates.
abbrev pub set_counters : ProductInventory → ProductInventory → ProductInventory
set_counters p row = record row {
  total_stock = p.total_stock;
  confirmed_count = p.confirmed_count;
  active_reservation_count = p.active_reservation_count;
}

abbrev pub set_state : Reservation → Reservation → Reservation
set_state r row = record row {
  state = r.state;
  confirmed_at = r.confirmed_at;
  cancelled_at = r.cancelled_at;
  expired_at = r.expired_at;
}

abbrev pub column_option : (Time → Time) → Option Time → Option Time
column_option to_column none = none
column_option to_column (some t) = some (to_column t)

-- A reservation as its row keeps it.
abbrev pub as_row : (Time → Time) → Reservation → Reservation
as_row to_column r = record r {
  created_at = to_column r.created_at;
  expires_at = to_column r.expires_at;
  confirmed_at = column_option to_column r.confirmed_at;
  cancelled_at = column_option to_column r.cancelled_at;
  expired_at = column_option to_column r.expired_at;
}

abbrev pub put_item : ProductInventory → Tables → Tables
put_item p t = record t { inventory_items = insert p.product_id p t.inventory_items }

abbrev pub put_reservation : Reservation → Tables → Tables
put_reservation r t = record t { reservations = insert r.reservation_id r t.reservations }
