-- ===== src/Infrastructure/Postgres/Stored.antt =====
-- internal/infrastructure/postgres_repository.go over an undisturbed database, next to
-- internal/infrastructure/in_memory_repository.go: one operation at a time.
use inventory_reservation_sy.Base.{
  ◌≡◌, refl, sym, subst, ◌∙◌, true, false, [], ◌∷◌, ◌++◌, Option, none, some, arith,
}
use inventory_reservation_sy.Base.Text.{Text}
use inventory_reservation_sy.Base.Time.{Time}
use inventory_reservation_sy.Base.Map.{MapOrder, lookup, insert}
use inventory_reservation_sy.Domain.Inventory.{ProductInventory}
use inventory_reservation_sy.Domain.Reservation.{Reservation}
use inventory_reservation_sy.Domain.Event.{InventoryEvent}
use inventory_reservation_sy.Domain.Errors.{Error}
use inventory_reservation_sy.Infrastructure.InMemory.{InMemoryRepository}
use inventory_reservation_sy.Infrastructure.Tables.{
  Tables, item_checks, reservation_checks, refers_to, has_event,
}
use inventory_reservation_sy.Infrastructure.Postgres.{
  Statement, Driver, undisturbed, as_row, column_option, set_counters, set_state, put_item,
  put_reservation, append_event, add_product, update_product, save_reservation, update_reservation,
  run_insert_event, run_upsert_item, run_update_item, run_upsert_reservation,
  run_update_reservation,
}

-- The tables with the same content.
abbrev pub stored : InMemoryRepository → Tables
stored r = record {
  inventory_items = r.products;
  reservations = r.reservations;
  outbox_events = r.events;
}

-- The times of a reservation are kept by its columns.
pub record IsKept (to_column : Time → Time) (r : Reservation) : Type 0 where
  pub on_create : to_column r.created_at ≡ r.created_at
  pub on_expire : to_column r.expires_at ≡ r.expires_at
  pub on_confirmed : column_option to_column r.confirmed_at ≡ r.confirmed_at
  pub on_cancelled : column_option to_column r.cancelled_at ≡ r.cancelled_at
  pub on_expired : column_option to_column r.expired_at ≡ r.expired_at

-- The callback leaves what the UPDATE does not write.
pub record Transitions (f : Reservation → Reservation) (r : Reservation) : Type 0 where
  pub same_id : (f r).reservation_id ≡ r.reservation_id
  pub same_product : (f r).product_id ≡ r.product_id
  pub same_user : (f r).user_id ≡ r.user_id
  pub same_creation : (f r).created_at ≡ r.created_at
  pub same_expiry : (f r).expires_at ≡ r.expires_at

set_counters_all : (q p : ProductInventory) → q.product_id ≡ p.product_id → set_counters q p ≡ q
set_counters_all q p e = ground arith

set_state_all :
    (to_column : Time → Time) (f : Reservation → Reservation) (r : Reservation)
    → IsKept to_column (f r)
    → Transitions f r
    → set_state (as_row to_column (f r)) r ≡ f r
set_state_all to_column f r kept t = ground (arith, kept, t)

as_row_kept :
    (to_column : Time → Time) (r : Reservation) → IsKept to_column r → as_row to_column r ≡ r
as_row_kept to_column r kept = ground (arith, kept)

-- A callback that returns nil.
abbrev without_error : {A : Type 0} → (A → A) → A → A × Option Error
without_error f a = (f a, none)

module _ (order : MapOrder Reservation) (violation : Statement → Error) (to_column : Time → Time)
    (m : InMemoryRepository) where
  abbrev database : Driver
  database = undisturbed order violation to_column

  pub append_event-stored :
      (e : InventoryEvent)
      → has_event e.event_id m.events ≡ false
      → refers_to m.reservations e.reservation_id ≡ true
      → to_column e.occurred_at ≡ e.occurred_at
      → append_event database e (stored m) ≡ stored (record m { events = m.events ++ e ∷ [] })
  unfolding append_event run_insert_event has_event
  append_event-stored e new refers whole = rw (new, refers, whole) refl

  run_update_item_lem :
      (p q : ProductInventory)
      → lookup q.product_id m.products ≡ some p
      → q.product_id ≡ p.product_id
      → item_checks q ≡ true
      → run_update_item database q (stored m) ≡ (put_item q (stored m), none)
  unfolding run_update_item
  run_update_item_lem p q known same fine = ground (arith, known, same, fine)

  pub update_product-stored :
      (id : Text) (f : ProductInventory → ProductInventory) (p : ProductInventory)
      → lookup id m.products ≡ some p
      → (f p).product_id ≡ id
      → p.product_id ≡ id
      → item_checks (f p) ≡ true
      → (update_product database id (without_error f) (stored m)).0
        ≡ stored (record m { products = insert id (f p) m.products })
  unfolding update_product
  update_product-stored id f p known same named fine =
      let known' : lookup (f p).product_id m.products ≡ some p =
        subst (λ k. lookup k m.products ≡ some p) (sym same) known in
      ground (arith, known, same, run_update_item_lem p (f p) known' (same ∙ sym named) fine)

  run_update_reservation_lem :
      (r t : Reservation)
      → lookup t.reservation_id m.reservations ≡ some r
      → set_state (as_row to_column t) r ≡ t
      → reservation_checks t ≡ true
      → run_update_reservation database t (stored m) ≡ (put_reservation t (stored m), none)
  unfolding run_update_reservation
  run_update_reservation_lem r t found same fine = ground (arith, found, same, fine)

  pub update_reservation-stored :
      (id : Text) (f : Reservation → Reservation) (r : Reservation)
      → lookup id m.reservations ≡ some r
      → r.reservation_id ≡ id
      → Transitions f r
      → IsKept to_column (f r)
      → reservation_checks (f r) ≡ true
      → (update_reservation database id (without_error f) (stored m)).0
        ≡ stored (record m { reservations = insert id (f r) m.reservations })
  unfolding update_reservation
  update_reservation-stored id f r found named t kept fine =
      let same : (f r).reservation_id ≡ id = t.same_id ∙ named in
      let found' : lookup (f r).reservation_id m.reservations ≡ some r =
        subst (λ k. lookup k m.reservations ≡ some r) (sym same) found in
      ground (
        arith,
        found,
        same,
        run_update_reservation_lem r (f r) found' (set_state_all to_column f r kept t) fine,
      )

  pub save_reservation-stored :
      (r : Reservation) (p : ProductInventory)
      → lookup r.reservation_id m.reservations ≡ none
      → lookup r.product_id m.products ≡ some p
      → IsKept to_column r
      → reservation_checks r ≡ true
      → save_reservation database r (stored m)
        ≡ stored (record m { reservations = insert r.reservation_id r m.reservations })
  unfolding save_reservation run_upsert_reservation
  save_reservation-stored r p new known kept fine =
      ground (arith, as_row_kept to_column r kept, fine, new, known)

  pub add_product-stored :
      (p : ProductInventory)
      → item_checks p ≡ true
      → add_product database p (stored m)
        ≡ stored (record m { products = insert p.product_id p m.products })
  unfolding add_product run_upsert_item
  add_product-stored p fine = ground (arith, fine)
