-- ===== src/Application/Durable/Restart.antt =====
-- cmd/server/main.go with DATABASE_URL set and tables that an earlier process has left: the service,
-- whose ids start again at 1. The seed loop is in `Reseeded`.
use inventory_reservation_sy.Base.{◌≡◌, refl, ap, ◌∙◌, true, false, [], some, arith}
use inventory_reservation_sy.Base.Text.{Text}
use inventory_reservation_sy.Base.Int64.{is_nonpositive}
use inventory_reservation_sy.Base.Time.{Time, Duration}
use inventory_reservation_sy.Base.Map.{MapOrder, lookup, lookup-insert_self}
use inventory_reservation_sy.Domain.Inventory.{ProductInventory, available_stock}
use inventory_reservation_sy.Domain.Reservation.{Reservation}
use inventory_reservation_sy.Domain.Errors.{Error, ok}
use inventory_reservation_sy.Infrastructure.Tables.{Tables, reservation_checks}
use inventory_reservation_sy.Infrastructure.Postgres.{
  Statement, undisturbed, postgres, set_state, as_row, active_reservations_by_product, get_product,
  save_reservation, run_upsert_reservation, get_reservation,
}
use inventory_reservation_sy.Application.State.{new_reservation_service, format_id, res_prefix}
use inventory_reservation_sy.Application.Service.{reserve_item, find_reservation}
use inventory_reservation_sy.Application.Effects.{new_reservation}
use inventory_reservation_sy.Application.Durable.Faults.{grant_table, reserve_item-granted}

module _ (violation : Statement → Error) (to_column : Time → Time)
    (order : MapOrder Reservation) where
  -- An upsert that meets a row of its id.
  second_upsert :
      (id : Text) (new row : Reservation) (t : Tables)
      → new.reservation_id ≡ id
      → lookup id t.reservations ≡ some row
      → row.reservation_id ≡ id
      → reservation_checks (as_row to_column new) ≡ true
      → reservation_checks (set_state (as_row to_column new) row) ≡ true
      → lookup id (save_reservation (undisturbed order violation to_column) new t).reservations
        ≡ some (set_state (as_row to_column new) row)
  unfolding save_reservation run_upsert_reservation
  second_upsert id new row t own taken named proposed valid = ground (
    arith,
    own,
    taken,
    named,
    proposed,
    valid,
    lookup-insert_self id (set_state (as_row to_column new) row) t.reservations,
  )

  -- The tables have a reservation with the id that a new process draws first, and its row may become
  -- active again; a product with stock left has no active one. Then the first reservation of the new
  -- process succeeds, but under its id the tables keep the product, the user and the times of
  -- the earlier row, with the state of the new one.
  pub reused_id :
      (hold_for : Duration) (k user_id : Text) (now : Time) (t : Tables) (row : Reservation)
      (p : ProductInventory)
      → let d = undisturbed order violation to_column in
        let s = new_reservation_service t hold_for in
        let new = new_reservation k user_id now s in
        lookup (format_id res_prefix 1) t.reservations ≡ some row
        → row.reservation_id ≡ format_id res_prefix 1
        → active_reservations_by_product d k t ≡ []
        → lookup k t.inventory_items ≡ some p
        → is_nonpositive (available_stock p) ≡ false
        → reservation_checks (as_row to_column new) ≡ true
        → reservation_checks (set_state (as_row to_column new) row) ≡ true
        → let (result, s') = reserve_item (postgres d) k user_id now s in
          (result ≡ ok new)
          × (find_reservation (postgres d) (format_id res_prefix 1) s'
              ≡ some (set_state (as_row to_column new) row))
  unfolding find_reservation get_reservation get_product
  reused_id hold_for k user_id now t row p taken named quiet found left proposed valid =
      let d = undisturbed order violation to_column in
      let s = new_reservation_service t hold_for in
      let new = new_reservation k user_id now s in
      let granted = grant_table d k user_id now s in
      rw (reserve_item-granted d k user_id now s p quiet found left) (
        granted.0,
        ap (lookup (format_id res_prefix 1)) granted.1
            ∙ second_upsert (format_id res_prefix 1) new row t refl taken named proposed valid,
      )
