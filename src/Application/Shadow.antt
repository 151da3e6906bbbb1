-- ===== src/Application/Shadow.antt =====
-- internal/application/shadow_recorder.go. The recorder is an observer behind an interface: the model
-- keeps the calls that it gets, in order. `NoopShadowRecorder` ignores them, so nothing reads them back.
use inventory_reservation_sy.Domain.Inventory.{ProductInventory}
use inventory_reservation_sy.Domain.Reservation.{Reservation}
use inventory_reservation_sy.Domain.Event.{InventoryEvent}

pub data ShadowAction : Type 0 where
  shadow_reserved shadow_confirmed shadow_cancelled shadow_expired : ShadowAction

pub record ShadowRecord : Type 0 where
  pub action : ShadowAction
  pub product : ProductInventory
  pub reservation : Reservation
  pub event : InventoryEvent
