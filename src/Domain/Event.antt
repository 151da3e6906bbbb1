-- ===== src/Domain/Event.antt =====
-- internal/domain/event.go.
use inventory_reservation_sy.Base.{Option}
use inventory_reservation_sy.Base.Text.{Text}
use inventory_reservation_sy.Base.Time.{Time}

pub data InventoryEventType : Type 0 where
  event_reserved event_reserve_rejected event_confirmed event_cancelled event_expired :
      InventoryEventType

pub record InventoryEvent : Type 0 where
  pub event_id : Text
  pub kind : InventoryEventType
  pub product_id : Text
  pub reservation_id : Option Text
  pub user_id : Option Text
  pub reason : Option Text
  pub occurred_at : Time
