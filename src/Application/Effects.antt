-- ===== src/Application/Effects.antt =====
-- internal/application/reservation_service.go over the in-memory repository: an independent
-- description of the state after each transition, every field of it.
use inventory_reservation_sy.Base.{◌≡◌, refl, [], ◌∷◌, ◌++◌, none, some, arith}
use inventory_reservation_sy.Base.Text.{Text}
use inventory_reservation_sy.Base.Int64.{add_int}
use inventory_reservation_sy.Base.Map.{MapOrder, lookup, insert, lookup-insert_self}
use inventory_reservation_sy.Base.Time.{Time, add_time}
use inventory_reservation_sy.Domain.Inventory.{ProductInventory}
use inventory_reservation_sy.Domain.Reservation.{active, Reservation}
use inventory_reservation_sy.Domain.Event.{
  InventoryEvent, event_reserved, event_confirmed, event_cancelled, event_expired,
}
use inventory_reservation_sy.Domain.Errors.{err_out_of_stock, ok, err}
use inventory_reservation_sy.Infrastructure.InMemory.{
  InMemoryRepository, in_memory, append_event, get_product, update_product, save_reservation,
  handed_reservation, get_reservation, update_reservation,
}
use inventory_reservation_sy.Application.Shadow.{
  ShadowAction, shadow_reserved, shadow_confirmed, shadow_cancelled, shadow_expired,
}
use inventory_reservation_sy.Application.State.{
  Service, res_prefix, evt_prefix, format_id, mark_confirmed, mark_cancelled, mark_expired,
  add_hold, release_hold, sell_hold, event_of, rejection,
}
use inventory_reservation_sy.Application.Service.{
  expire_reservation_locked, confirm_active, cancel_active, grant, reject,
}

-- The event with the id that the counter gives next.
abbrev pub numbered : InventoryEvent → Service InMemoryRepository → InventoryEvent
numbered e s = record e { event_id = format_id evt_prefix (add_int s.id_counter 1) }

-- The state after the product `p` and the reservation `r` are written, the event `e` is recorded and
-- the shadow recorder is told.
abbrev pub written :
    ShadowAction
    → ProductInventory
    → Text
    → Reservation
    → InventoryEvent
    → Service InMemoryRepository
    → Service InMemoryRepository
written action p id r e s = record s {
  repo = record {
    products = insert r.product_id p s.repo.products;
    reservations = insert id r s.repo.reservations;
    events = s.repo.events ++ numbered e s ∷ [];
  };
  shadow_recorder =
      s.shadow_recorder
      ++ (record { action = action; product = p; reservation = r; event = numbered e s }) ∷ [];
  id_counter = add_int s.id_counter 1;
}

module _ (order : MapOrder Reservation) (id : Text) (now : Time) (s : Service InMemoryRepository)
    (r : Reservation) (found : lookup id s.repo.reservations ≡ some r) (p : ProductInventory)
    (owned : lookup r.product_id s.repo.products ≡ some p) where
  pub expire-written :
      expire_reservation_locked (in_memory order) id now s
      ≡ written shadow_expired
          (release_hold p)
          id
          (mark_expired now r)
          (event_of event_expired r now)
          s
  unfolding expire_reservation_locked get_product update_product handed_reservation get_reservation
      update_reservation append_event mark_expired
  expire-written = ground (
    arith,
    found,
    owned,
    lookup-insert_self id (mark_expired now r) s.repo.reservations,
    lookup-insert_self r.product_id (release_hold p) s.repo.products,
  )

  pub confirm-written : confirm_active (in_memory order) id r now s ≡ (
    ok (mark_confirmed now r),
    written shadow_confirmed
        (sell_hold p)
        id
        (mark_confirmed now r)
        (event_of event_confirmed r now)
        s,
  )
  unfolding confirm_active get_product update_product handed_reservation get_reservation
      update_reservation append_event mark_confirmed
  confirm-written =
      ground (arith, found, owned, lookup-insert_self r.product_id (sell_hold p) s.repo.products)

  pub cancel-written : cancel_active (in_memory order) id r now s ≡ (
    ok (mark_cancelled now r),
    written shadow_cancelled
        (release_hold p)
        id
        (mark_cancelled now r)
        (event_of event_cancelled r now)
        s,
  )
  unfolding cancel_active get_product update_product handed_reservation get_reservation
      update_reservation append_event mark_cancelled
  cancel-written =
      ground (arith, found, owned, lookup-insert_self r.product_id (release_hold p) s.repo.products)

-- The reservation that `ReserveItem` creates.
abbrev pub new_reservation : {R : Type 0} → Text → Text → Time → Service R → Reservation
new_reservation product_id user_id now s = record {
  reservation_id = format_id res_prefix (add_int s.id_counter 1);
  product_id = product_id;
  user_id = user_id;
  state = active;
  created_at = now;
  expires_at = add_time now s.hold_for;
  confirmed_at = none;
  cancelled_at = none;
  expired_at = none;
}

-- The state once a reservation id is drawn.
abbrev pub drawn : Service InMemoryRepository → Service InMemoryRepository
drawn s = record s { id_counter = add_int s.id_counter 1 }

abbrev pub granted :
    Text → Text → Time → ProductInventory → Service InMemoryRepository → Service InMemoryRepository
granted product_id user_id now p s =
    let r = new_reservation product_id user_id now s in
    written shadow_reserved (add_hold p) r.reservation_id r (event_of event_reserved r now)
      (drawn s)

-- The state after a rejected reservation: only the log and the counter move.
abbrev pub rejected : Text → Text → Time → Service InMemoryRepository → Service InMemoryRepository
rejected product_id user_id now s = record s {
  repo = record (s.repo) {
    events = s.repo.events ++ numbered (rejection product_id user_id now) s ∷ [];
  };
  id_counter = add_int s.id_counter 1;
}

module _ (order : MapOrder Reservation) (product_id user_id : Text) (now : Time)
    (s : Service InMemoryRepository) (p : ProductInventory) where
  pub grant-granted :
      lookup product_id s.repo.products ≡ some p
      → grant (in_memory order) product_id user_id now s
        ≡ (ok (new_reservation product_id user_id now s), granted product_id user_id now p s)
  unfolding grant get_product update_product save_reservation append_event
  grant-granted known =
      ground (arith, known, lookup-insert_self product_id (add_hold p) s.repo.products)

  pub reject-rejected :
      reject (in_memory order) product_id user_id now s
      ≡ (err err_out_of_stock, rejected product_id user_id now s)
  unfolding reject append_event
  reject-rejected = refl
