-- ===== src/Infrastructure/Postgres.antt =====
-- internal/infrastructure/postgres_repository.go over the tables of the schema. Log lines are left
-- out, and so is the payload, which nothing reads.
pub mod Stored
pub mod Kept
pub use inventory_reservation_sy.Infrastructure.Statements.{
  Statement, begin_tx, commit, select_events, select_active, insert_event, upsert_item, update_item,
  select_item, lock_item, select_reservation, lock_reservation, select_active_of,
  upsert_reservation, update_reservation_row, Driver, undisturbed, set_counters, set_state,
  column_option, as_row, put_item, put_reservation,
}
use inventory_reservation_sy.Base.{
  Bool, false, if◌then◌else◌, ◌&&◌, select, List, [], ◌∷◌, ◌++◌, Option, none, some,
}
use inventory_reservation_sy.Base.Text.{Text, text_eq}
use inventory_reservation_sy.Base.Time.{Time}
use inventory_reservation_sy.Base.Map.{MapOrder, lookup, insert, values}
use inventory_reservation_sy.Domain.Inventory.{ProductInventory}
use inventory_reservation_sy.Domain.Reservation.{Reservation, is_active}
use inventory_reservation_sy.Domain.Event.{InventoryEvent}
use inventory_reservation_sy.Domain.Errors.{Error, err_product_not_found, err_reservation_not_found}
use inventory_reservation_sy.Infrastructure.Repository.{Repository}
use inventory_reservation_sy.Infrastructure.Tables.{
  Tables, item_checks, reservation_checks, refers_to, has_event, is_present,
}

-- If a transaction's step fails, what stood before is rolled back to.
abbrev pub stop_on : Tables → Option Error → Tables × Option Error → Tables × Option Error
stop_on t none next = next
stop_on t (some e) next = (t, some e)

module _ (d : Driver) where
  open d use {refuses, applied, violation, to_column, scan, scan_events}

  -- One row more, or changed, if its constraints hold.
  abbrev pub checked : Statement → Bool → Tables → Tables → Tables × Option Error
  checked st holds t t' = if holds then (t', none) else (t, some (violation st))

  abbrev pub event_row : InventoryEvent → InventoryEvent
  event_row e = record e { occurred_at = to_column e.occurred_at }

  -- ON CONFLICT (event_id) DO NOTHING
  unfoldable pub run_insert_event : InventoryEvent → Tables → Tables × Option Error
  run_insert_event e t =
      if has_event e.event_id t.outbox_events
      then (t, none)
      else checked (insert_event e) (refers_to t.reservations e.reservation_id) t
          (record t { outbox_events = t.outbox_events ++ event_row e ∷ [] })

  -- ON CONFLICT (product_id) DO UPDATE; all columns are set.
  unfoldable pub run_upsert_item : ProductInventory → Tables → Tables × Option Error
  run_upsert_item p t = checked (upsert_item p) (item_checks p) t (put_item p t)

  unfoldable pub run_update_item : ProductInventory → Tables → Tables × Option Error
  run_update_item p t = elim (lookup p.product_id t.inventory_items) [
    | none ↦ (t, none)
    | some row ↦
        checked (update_item p) (item_checks (set_counters p row)) t
          (put_item (set_counters p row) t)
  ]

  -- ON CONFLICT (reservation_id) DO UPDATE; the product, the user and the two times stay. The proposed
  -- row is checked first.
  unfoldable pub run_upsert_reservation : Reservation → Tables → Tables × Option Error
  run_upsert_reservation r t =
      let new = as_row to_column r in
      if reservation_checks new
      then elim (lookup r.reservation_id t.reservations) [
        | none ↦
            checked (upsert_reservation r) (is_present (lookup r.product_id t.inventory_items)) t
              (put_reservation new t)
        | some row ↦
            checked (upsert_reservation r) (reservation_checks (set_state new row)) t
              (put_reservation (set_state new row) t)
      ]
      else (t, some (violation (upsert_reservation r)))

  unfoldable pub run_update_reservation : Reservation → Tables → Tables × Option Error
  run_update_reservation r t = elim (lookup r.reservation_id t.reservations) [
    | none ↦ (t, none)
    | some row ↦
        let new = set_state (as_row to_column r) row in
        checked (update_reservation_row r) (reservation_checks new) t (put_reservation new t)
  ]

  -- ExecContext outside a transaction, whose error is only logged.
  abbrev pub exec : Statement → (Tables → Tables × Option Error) → Tables → Tables
  exec st run t = elim (refuses st t) [
    | none ↦ (run t).0
    | some e ↦ if applied st t then (run t).0 else t
  ]

  -- The end of a transaction that began at `t`: COMMIT, unless its last statement failed.
  abbrev pub commit_from : Tables → Tables × Option Error → Tables × Option Error
  commit_from t (t', some e) = (t, some e)
  commit_from t (t', none) = elim (refuses commit t') [
    | none ↦ (t', none)
    | some e ↦ (if applied commit t' then t' else t, some e)
  ]

  unfoldable pub append_event : InventoryEvent → Tables → Tables
  append_event e t = exec (insert_event e) (run_insert_event e) t

  unfoldable pub all_events : Tables → List InventoryEvent
  all_events t = elim (refuses select_events t) [
    | none ↦ scan_events t t.outbox_events
    | some e ↦ []
  ]

  unfoldable pub add_product : ProductInventory → Tables → Tables
  add_product p t = exec (upsert_item p) (run_upsert_item p) t

  unfoldable pub get_product : Text → Tables → Option ProductInventory
  get_product id t = elim (refuses (select_item id) t) [
    | none ↦ lookup id t.inventory_items
    | some e ↦ none
  ]

  abbrev pub write_item : ProductInventory × Option Error → Tables → Tables × Option Error
  write_item (p, some e) t = (t, some e)
  write_item (p, none) t =
      commit_from t (stop_on t (refuses (update_item p) t) (run_update_item p t))

  unfoldable pub update_product :
      Text → (ProductInventory → ProductInventory × Option Error) → Tables → Tables × Option Error
  update_product id fn t = stop_on t (refuses begin_tx t) (
      stop_on t (refuses (lock_item id) t) (elim (lookup id t.inventory_items) [
        | none ↦ (t, some err_product_not_found)
        | some p ↦ write_item (fn p) t
      ]))

  unfoldable pub save_reservation : Reservation → Tables → Tables
  save_reservation r t = exec (upsert_reservation r) (run_upsert_reservation r) t

  unfoldable pub get_reservation : Text → Tables → Option Reservation
  get_reservation id t = elim (refuses (select_reservation id) t) [
    | none ↦ lookup id t.reservations
    | some e ↦ none
  ]

  abbrev pub write_reservation : Reservation × Option Error → Tables → Tables × Option Error
  write_reservation (r, some e) t = (t, some e)
  write_reservation (r, none) t =
      commit_from t (stop_on t (refuses (update_reservation_row r) t) (run_update_reservation r t))

  -- The transaction has to begin and the row to be locked before the callback is called.
  unfoldable pub handed_reservation : Text → Tables → Option Reservation
  handed_reservation id t = elim (refuses begin_tx t) [
    | none ↦ elim (refuses (lock_reservation id) t) [
      | none ↦ lookup id t.reservations
      | some e ↦ none
    ]
    | some e ↦ none
  ]

  unfoldable pub update_reservation :
      Text → (Reservation → Reservation × Option Error) → Tables → Tables × Option Error
  update_reservation id fn t = stop_on t (refuses begin_tx t) (
      stop_on t (refuses (lock_reservation id) t) (elim (lookup id t.reservations) [
        | none ↦ (t, some err_reservation_not_found)
        | some r ↦ write_reservation (fn r) t
      ]))

  unfoldable pub active_reservations_by_product : Text → Tables → List Reservation
  active_reservations_by_product product_id t = elim (refuses (select_active_of product_id) t) [
    | none ↦
        select (λ r. text_eq r.product_id product_id && is_active r)
          (scan (select_active_of product_id) t (values t.reservations))
    | some e ↦ []
  ]

  unfoldable pub all_active_reservations : Tables → List Reservation
  all_active_reservations t = elim (refuses select_active t) [
    | none ↦ select is_active (scan select_active t (values t.reservations))
    | some e ↦ []
  ]

  -- PostgresRepository as the service sees it.
  abbrev pub postgres : Repository Tables
  postgres = record {
    append_event = append_event;
    all_events = all_events;
    add_product = add_product;
    get_product = get_product;
    update_product = update_product;
    save_reservation = save_reservation;
    get_reservation = get_reservation;
    handed_reservation = handed_reservation;
    update_reservation = update_reservation;
    active_reservations_by_product = active_reservations_by_product;
    all_active_reservations = all_active_reservations;
  }
