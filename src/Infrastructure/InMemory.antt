-- ===== src/Infrastructure/InMemory.antt =====
-- internal/infrastructure/in_memory_repository.go. The maps are association lists, and the order in
-- which a `range` visits the reservations is the parameter `order`. The repository's own mutex makes
-- each operation one atomic step, so it has no state here.
use inventory_reservation_sy.Base.{select, List, [], ◌∷◌, ◌++◌, Option, none, some, ◌&&◌}
use inventory_reservation_sy.Base.Text.{Text, text_eq}
use inventory_reservation_sy.Base.Map.{Map, MapOrder, lookup, insert, values}
use inventory_reservation_sy.Domain.Inventory.{ProductInventory}
use inventory_reservation_sy.Domain.Reservation.{Reservation, is_active}
use inventory_reservation_sy.Domain.Event.{InventoryEvent}
use inventory_reservation_sy.Domain.Errors.{Error, err_product_not_found, err_reservation_not_found}
use inventory_reservation_sy.Infrastructure.Repository.{Repository}

pub record InMemoryRepository : Type 0 where
  pub products : Map ProductInventory
  pub reservations : Map Reservation
  pub events : List InventoryEvent

abbrev pub new_in_memory_repository : InMemoryRepository
new_in_memory_repository = record { products = []; reservations = []; events = [] }

unfoldable pub append_event : InventoryEvent → InMemoryRepository → InMemoryRepository
append_event e r = record r { events = r.events ++ e ∷ [] }

unfoldable pub all_events : InMemoryRepository → List InventoryEvent
all_events r = r.events

unfoldable pub add_product : ProductInventory → InMemoryRepository → InMemoryRepository
add_product p r = record r { products = insert p.product_id p r.products }

unfoldable pub get_product : Text → InMemoryRepository → Option ProductInventory
get_product id r = lookup id r.products

-- The callback writes through the pointer, so what it wrote stays, whatever error it returns.
unfoldable pub update_product :
    Text
    → (ProductInventory → ProductInventory × Option Error)
    → InMemoryRepository
    → InMemoryRepository × Option Error
update_product id fn r = elim (lookup id r.products) [
  | none ↦ (r, some err_product_not_found)
  | some p ↦ (record r { products = insert id (fn p).0 r.products }, (fn p).1)
]

unfoldable pub save_reservation : Reservation → InMemoryRepository → InMemoryRepository
save_reservation res r = record r { reservations = insert res.reservation_id res r.reservations }

unfoldable pub get_reservation : Text → InMemoryRepository → Option Reservation
get_reservation id r = lookup id r.reservations

-- What UpdateReservation hands to its callback.
unfoldable pub handed_reservation : Text → InMemoryRepository → Option Reservation
handed_reservation id r = lookup id r.reservations

unfoldable pub update_reservation :
    Text
    → (Reservation → Reservation × Option Error)
    → InMemoryRepository
    → InMemoryRepository × Option Error
update_reservation id fn r = elim (lookup id r.reservations) [
  | none ↦ (r, some err_reservation_not_found)
  | some res ↦ (record r { reservations = insert id (fn res).0 r.reservations }, (fn res).1)
]

module _ (order : MapOrder Reservation) where
  unfoldable pub active_reservations_by_product : Text → InMemoryRepository → List Reservation
  active_reservations_by_product product_id r =
      select (λ res. text_eq res.product_id product_id && is_active res)
        (order.arrange (values r.reservations))

  unfoldable pub all_active_reservations : InMemoryRepository → List Reservation
  all_active_reservations r = select is_active (order.arrange (values r.reservations))

  -- The repository as the service sees it, with one order of iteration.
  abbrev pub in_memory : Repository InMemoryRepository
  in_memory = record {
    append_event = append_event;
    all_events = all_events;
    add_product = add_product;
    get_product = get_product;
    update_product = update_product;
    save_reservation = save_reservation;
    get_reservation = get_reservation;
    handed_reservation = handed_reservation;
    update_reservation = update_reservation;
    active_reservations_by_product = active_reservations_by_product;
    all_active_reservations = all_active_reservations;
  }
