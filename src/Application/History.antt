-- ===== src/Application/History.antt =====
-- Whole histories of the service over the in-memory repository: the calls of
-- internal/application/reservation_service.go in the order in which they take their locks, each with the
-- time that its clock reads and the orders in which it visits the maps. A sweep is one call here; what
-- happens between its listing and its locks is in `Race`.
pub mod Stock
pub mod Refinement
pub mod Race
use inventory_reservation_sy.Base.{ℕ, zero, List, [], ◌∷◌}
use inventory_reservation_sy.Base.Text.{Text}
use inventory_reservation_sy.Base.Map.{MapOrder}
use inventory_reservation_sy.Base.Time.{Time, Duration}
use inventory_reservation_sy.Domain.Inventory.{ProductInventory}
use inventory_reservation_sy.Domain.Reservation.{Reservation}
use inventory_reservation_sy.Infrastructure.InMemory.{
  InMemoryRepository, new_in_memory_repository, in_memory, add_product,
}
use inventory_reservation_sy.Application.State.{Service, new_reservation_service}
use inventory_reservation_sy.Application.Service.{
  reserve_item, confirm_reservation, cancel_reservation,
}
use inventory_reservation_sy.Application.Sweep.{expire_reservations}

pub data Call : Type 0 where
  reserve : MapOrder Reservation → Text → Text → Time → Call
  confirm cancel : MapOrder Reservation → Text → Time → Call
  sweep : MapOrder Reservation → MapOrder (Text × List Text) → Time → Call

unfoldable pub perform : Call → Service InMemoryRepository → Service InMemoryRepository
perform (reserve order product_id user_id now) s =
    (reserve_item (in_memory order) product_id user_id now s).1
perform (confirm order id now) s = (confirm_reservation (in_memory order) id now s).1
perform (cancel order id now) s = (cancel_reservation (in_memory order) id now s).1
perform (sweep order groups now) s = (expire_reservations (in_memory order) groups now s).1

unfoldable pub run : List Call → Service InMemoryRepository → Service InMemoryRepository
run [] s = s
run (c ∷ calls) s = run calls (perform c s)

-- cmd/server/main.go: each seed entry becomes a product with no sales and no holds.
abbrev pub seeded_product : Text → ℕ → ProductInventory
seeded_product id stock = record {
  product_id = id;
  total_stock = stock;
  confirmed_count = 0;
  active_reservation_count = 0;
}

unfoldable pub add_seeds : List (Text × ℕ) → InMemoryRepository → InMemoryRepository
unfolding add_product
add_seeds [] repo = repo
add_seeds ((id, stock) ∷ seeds) repo = add_seeds seeds (add_product (seeded_product id stock) repo)

-- The service as `main` builds it.
unfoldable pub start : List (Text × ℕ) → Duration → Service InMemoryRepository
unfolding add_seeds
start seeds hold_for = new_reservation_service (add_seeds seeds new_in_memory_repository) hold_for
