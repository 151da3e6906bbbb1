-- ===== src/Application/Durable/Faults.antt =====
-- internal/application/reservation_service.go over a database that refuses a statement:
-- internal/infrastructure/postgres_repository.go logs the error and goes on.
use inventory_reservation_sy.Base.{[], ◌≡◌, refl, ap, ◌∙◌, false, none, some, arith}
use inventory_reservation_sy.Base.Text.{Text}
use inventory_reservation_sy.Base.Int64.{is_nonpositive}
use inventory_reservation_sy.Base.Time.{Time}
use inventory_reservation_sy.Base.Map.{lookup}
use inventory_reservation_sy.Domain.Inventory.{ProductInventory, available_stock}
use inventory_reservation_sy.Domain.Event.{InventoryEvent}
use inventory_reservation_sy.Domain.Errors.{Error, ok, err, err_reservation_not_found}
use inventory_reservation_sy.Infrastructure.Tables.{Tables}
use inventory_reservation_sy.Infrastructure.Postgres
use inventory_reservation_sy.Infrastructure.Postgres.{
  Statement, active_reservations_by_product, get_reservation, select_item, upsert_reservation,
  Driver, postgres, get_product, update_product, save_reservation, run_update_item,
  run_insert_event,
}
use inventory_reservation_sy.Domain.Reservation.{Reservation}
use inventory_reservation_sy.Application.Preserved.{record_shadow-repo}
use inventory_reservation_sy.Application.State.{Service, add_hold, returning_nil, next_id}
use inventory_reservation_sy.Application.Service.{
  grant, append_event, change_product, reserve_checked, reserve_item, expire_for_product_locked,
  expire_stale, confirm_reservation,
}
use inventory_reservation_sy.Application.Effects.{new_reservation}

module _ (d : Driver) where
  -- An event touches the outbox only, whatever the database does.
  append_event_reservations :
      (e : InventoryEvent) (t : Tables)
      → (Postgres.append_event d e t).reservations ≡ t.reservations
  unfolding Postgres.append_event run_insert_event
  append_event_reservations e t = ground arith

  append_event_items :
      (e : InventoryEvent) (t : Tables)
      → (Postgres.append_event d e t).inventory_items ≡ t.inventory_items
  unfolding Postgres.append_event run_insert_event
  append_event_items e t = ground arith

  -- A product's update touches no reservation.
  update_product_reservations :
      (k : Text) (f : ProductInventory → ProductInventory) (t : Tables)
      → (update_product d k (returning_nil f) t).0.reservations ≡ t.reservations
  unfolding update_product run_update_item
  update_product_reservations k f t = ground arith

  module _ (k user_id : Text) (now : Time) (s : Service Tables) where
    -- A grant answers with the new reservation, and the table of reservations is what the upsert left.
    pub grant_table :
        ((grant (postgres d) k user_id now s).0 ≡ ok (new_reservation k user_id now s))
        × ((grant (postgres d) k user_id now s).1.repo.reservations
            ≡ (save_reservation d (new_reservation k user_id now s) s.repo).reservations)
    unfolding grant append_event next_id change_product
    grant_table = (
      refl,
      ap (λ t. t.reservations) (record_shadow-repo (postgres d) _ _ _ _)
          ∙ append_event_reservations _ _
          ∙ update_product_reservations k add_hold _,
    )

    -- And the table of items is what the upsert and the product's update left.
    pub grant_items :
        (grant (postgres d) k user_id now s).1.repo.inventory_items
        ≡ (update_product d k
            (returning_nil add_hold)
            (save_reservation d (new_reservation k user_id now s) s.repo)).0.inventory_items
    unfolding grant append_event next_id change_product
    grant_items =
        ap (λ t. t.inventory_items) (record_shadow-repo (postgres d) _ _ _ _)
        ∙ append_event_items _ _

    -- With nothing to expire and stock left, ReserveItem is a grant.
    pub reserve_item-granted :
        (p : ProductInventory)
        → active_reservations_by_product d k s.repo ≡ []
        → get_product d k s.repo ≡ some p
        → is_nonpositive (available_stock p) ≡ false
        → reserve_item (postgres d) k user_id now s ≡ grant (postgres d) k user_id now s
    unfolding reserve_item reserve_checked expire_for_product_locked expire_stale
    reserve_item-granted p quiet found left = ground (arith, quiet, found, left)

  -- No row, so nothing to confirm.
  unread_confirm :
      (id : Text) (later : Time) (s : Service Tables)
      → lookup id s.repo.reservations ≡ none
      → (confirm_reservation (postgres d) id later s).0 ≡ err err_reservation_not_found
  unfolding confirm_reservation get_reservation
  unread_confirm id later s absent = ground (arith, absent)

  -- A refused upsert that was not applied.
  refused_upsert :
      (r : Reservation) (e : Error) (t : Tables)
      → d.refuses (upsert_reservation r) t ≡ some e
      → d.applied (upsert_reservation r) t ≡ false
      → save_reservation d r t ≡ t
  unfolding save_reservation
  refused_upsert r e t refused lost = ground (arith, refused, lost)

module _ (d : Driver) where
  -- Nothing of the product is active, it can be read and has stock left, no row has the new
  -- reservation's id, and the database refuses the upsert of that reservation without applying it.
  -- Then ReserveItem still answers with the new reservation, and over any driver, at any time,
  -- ConfirmReservation of that reservation answers that it is not found.
  pub refused_save :
      (k user_id : Text) (now : Time) (s : Service Tables) (p : ProductInventory) (e : Error)
      → active_reservations_by_product d k s.repo ≡ []
      → get_product d k s.repo ≡ some p
      → is_nonpositive (available_stock p) ≡ false
      → d.refuses (upsert_reservation (new_reservation k user_id now s)) s.repo ≡ some e
      → d.applied (upsert_reservation (new_reservation k user_id now s)) s.repo ≡ false
      → lookup (new_reservation k user_id now s).reservation_id s.repo.reservations ≡ none
      → let (result, s') = reserve_item (postgres d) k user_id now s in
        (result ≡ ok (new_reservation k user_id now s))
        × ((later_driver : Driver) (later : Time)
            → (confirm_reservation
                (postgres later_driver)
                (new_reservation k user_id now s).reservation_id
                later
                s').0
              ≡ err err_reservation_not_found)
  refused_save k user_id now s p e quiet found left refused lost absent =
      let granted = grant_table d k user_id now s in
      let id = (new_reservation k user_id now s).reservation_id in
      rw (reserve_item-granted d k user_id now s p quiet found left) (
        granted.0,
        λ later_driver later.
            unread_confirm later_driver id later (grant (postgres d) k user_id now s).1 (
              ap (lookup id) granted.1
              ∙ ap (λ t. lookup id t.reservations)
                  (refused_upsert d (new_reservation k user_id now s) e s.repo refused lost)
              ∙ absent),
      )
