-- ===== src/Infrastructure/Repository.antt =====
-- internal/infrastructure/repository.go: the persistence contract, over a state `R`. A lookup that
-- returns `ok` beside its value is an `Option`; a callback on a pointer returns the new value and its
-- error. A callback may also write to variables that it captures: `handed_reservation` is what
-- UpdateReservation hands to its callback, or nothing if it does not call it.
use inventory_reservation_sy.Base.{List, Option}
use inventory_reservation_sy.Base.Text.{Text}
use inventory_reservation_sy.Domain.Inventory.{ProductInventory}
use inventory_reservation_sy.Domain.Reservation.{Reservation}
use inventory_reservation_sy.Domain.Event.{InventoryEvent}
use inventory_reservation_sy.Domain.Errors.{Error}

pub record Repository (R : Type 0) : Type 0 where
  pub append_event : InventoryEvent → R → R
  pub all_events : R → List InventoryEvent
  pub add_product : ProductInventory → R → R
  pub get_product : Text → R → Option ProductInventory
  pub update_product :
      Text → (ProductInventory → ProductInventory × Option Error) → R → R × Option Error
  pub save_reservation : Reservation → R → R
  pub get_reservation : Text → R → Option Reservation
  pub handed_reservation : Text → R → Option Reservation
  pub update_reservation : Text → (Reservation → Reservation × Option Error) → R → R × Option Error
  pub active_reservations_by_product : Text → R → List Reservation
  pub all_active_reservations : R → List Reservation
