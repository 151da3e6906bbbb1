-- ===== src/Application/Durable.antt =====
-- internal/application/reservation_service.go over internal/infrastructure/postgres_repository.go: the
-- states in which the schema's constraints let the service write what it means to.
pub mod Numbers
pub mod Steps
pub mod Opening
pub mod Calls
pub mod Reserving
pub mod Finals
pub mod History
pub mod Restart
pub mod Reseeded
pub mod Ended
pub mod Faults
pub mod Replicas
use inventory_reservation_sy.Base.{ℕ, ◌≤◌, ◌<◌, ◌≡◌, true, some, All}
use inventory_reservation_sy.Base.Text.{Text}
use inventory_reservation_sy.Base.Time.{Time, before}
use inventory_reservation_sy.Base.Map.{lookup}
use inventory_reservation_sy.Domain.Inventory.{ProductInventory}
use inventory_reservation_sy.Domain.Reservation.{Reservation}
use inventory_reservation_sy.Domain.Event.{InventoryEvent}
use inventory_reservation_sy.Infrastructure.InMemory.{InMemoryRepository}
use inventory_reservation_sy.Infrastructure.Tables.{Tables, integer_limit}
use inventory_reservation_sy.Infrastructure.Postgres.Stored.{stored, IsKept}
use inventory_reservation_sy.Application.State.{Service, format_id, evt_prefix}

-- The service with the same content in its tables.
abbrev pub over : Service InMemoryRepository → Service Tables
over s = record {
  repo = stored s.repo;
  hold_for = s.hold_for;
  shadow_recorder = s.shadow_recorder;
  id_counter = s.id_counter;
}

-- The id of an event was drawn from the counter.
abbrev pub IsNumbered : ℕ → InventoryEvent → Type 0
IsNumbered n e = (m : ℕ) × (e.event_id ≡ format_id evt_prefix m) × (m ≤ n)

-- Stocks fit their column, holds last some time, timestamps fit theirs, and events are numbered.
pub record IsStorable (to_column : Time → Time) (s : Service InMemoryRepository) : Type 0 where
  pub small :
      (k : Text) (p : ProductInventory)
      → lookup k s.repo.products ≡ some p
      → p.total_stock < integer_limit
  pub kept :
      (id : Text) (r : Reservation) → lookup id s.repo.reservations ≡ some r → IsKept to_column r
  pub timed :
      (id : Text) (r : Reservation)
      → lookup id s.repo.reservations ≡ some r
      → before r.created_at r.expires_at ≡ true
  pub numbered : All (IsNumbered s.id_counter) s.repo.events
