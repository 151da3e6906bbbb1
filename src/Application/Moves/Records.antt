-- ===== src/Application/Moves/Records.antt =====
-- internal/application/shadow_recorder.go, what the recorder is handed, next to the event log.
use inventory_reservation_sy.Base.{
  ◌≡◌, refl, ◌∙◌, Bool, true, false, [], ◌∷◌, map, select, some, All, All-append, sym, map-append,
  select-append, append-nil,
}
use inventory_reservation_sy.Base.Text.{Text}
use inventory_reservation_sy.Infrastructure.InMemory.{InMemoryRepository}
use inventory_reservation_sy.Domain.Reservation.{
  Reservation, ReservationState, active, confirmed, cancelled, expired,
}
use inventory_reservation_sy.Domain.Event.{
  InventoryEvent, InventoryEventType, event_reserved, event_reserve_rejected, event_confirmed,
  event_cancelled, event_expired,
}
use inventory_reservation_sy.Application.Shadow.{
  ShadowAction, ShadowRecord, shadow_reserved, shadow_confirmed, shadow_cancelled, shadow_expired,
}
use inventory_reservation_sy.Application.State.{
  Service, event_of, rejection, mark_confirmed, mark_cancelled, mark_expired,
}
use inventory_reservation_sy.Application.Effects.{written, numbered, drawn, new_reservation}
use inventory_reservation_sy.Domain.Inventory.{ProductInventory}
use inventory_reservation_sy.Application.Moves.{
  Move, Moves, expires, confirms, cancels, grants, rejects, here, then,
}

-- The event of each action, and the state in which the reservation is then.
abbrev pub kind_of : ShadowAction → InventoryEventType
kind_of shadow_reserved = event_reserved
kind_of shadow_confirmed = event_confirmed
kind_of shadow_cancelled = event_cancelled
kind_of shadow_expired = event_expired

abbrev pub state_of : ShadowAction → ReservationState
state_of shadow_reserved = active
state_of shadow_confirmed = confirmed
state_of shadow_cancelled = cancelled
state_of shadow_expired = expired

abbrev pub concerns_reservation : InventoryEventType → Bool
concerns_reservation event_reserve_rejected = false
concerns_reservation _ = true

-- A record whose parts are about the same transition.
pub record IsCoherent (r : ShadowRecord) : Type 0 where
  pub same_kind : r.event.kind ≡ kind_of r.action
  pub same_state : r.reservation.state ≡ state_of r.action
  pub same_reservation : r.event.reservation_id ≡ some r.reservation.reservation_id
  pub same_product : r.event.product_id ≡ r.reservation.product_id
  pub same_user : r.event.user_id ≡ some r.reservation.user_id

pub record IsRecorded (s : Service InMemoryRepository) : Type 0 where
  pub events :
      map (λ r. r.event) s.shadow_recorder ≡ select (λ e. concerns_reservation e.kind) s.repo.events
  pub coherent : All IsCoherent s.shadow_recorder

-- One more record, with its event.
written-IsRecorded :
    (s : Service InMemoryRepository) (action : ShadowAction) (p : ProductInventory) (id : Text)
    (r : Reservation) (e : InventoryEvent)
    → IsRecorded s
    → concerns_reservation e.kind ≡ true
    → IsCoherent (record { action = action; product = p; reservation = r; event = numbered e s })
    → IsRecorded (written action p id r e s)
unfolding select
written-IsRecorded s action p id r e v concerns coherent = record {
  events =
      rw
        (
          map-append (λ x. x.event) s.shadow_recorder _,
          select-append (λ x. concerns_reservation x.kind) s.repo.events (numbered e s ∷ []),
          v.events,
          concerns,
        )
        refl;
  coherent = All-append IsCoherent s.shadow_recorder _ v.coherent (coherent, tt);
}

Move-IsRecorded : {s t : Service InMemoryRepository} → Move s t → IsRecorded s → IsRecorded t
unfolding mark_confirmed mark_cancelled mark_expired select
Move-IsRecorded {s} (expires j r p now h late) v =
    written-IsRecorded s _ _ _ _ (event_of event_expired r now) v refl (record {
      same_kind = refl;
      same_state = refl;
      same_reservation = refl;
      same_product = refl;
      same_user = refl;
    })
Move-IsRecorded {s} (confirms j r p now h early) v =
    written-IsRecorded s _ _ _ _ (event_of event_confirmed r now) v refl (record {
      same_kind = refl;
      same_state = refl;
      same_reservation = refl;
      same_product = refl;
      same_user = refl;
    })
Move-IsRecorded {s} (cancels j r p now h) v =
    written-IsRecorded s _ _ _ _ (event_of event_cancelled r now) v refl (record {
      same_kind = refl;
      same_state = refl;
      same_reservation = refl;
      same_product = refl;
      same_user = refl;
    })
Move-IsRecorded {s} (grants j u p now known left unused) v =
    written-IsRecorded (drawn s) _ _ _ _ (event_of event_reserved (new_reservation j u now s) now)
      (record { events = v.events; coherent = v.coherent }) refl
      (record {
        same_kind = refl;
        same_state = refl;
        same_reservation = refl;
        same_product = refl;
        same_user = refl;
      })
Move-IsRecorded {s} (rejects j u p now known out) v = record {
  events =
      v.events
      ∙ sym (
          select-append (λ x. concerns_reservation x.kind) s.repo.events
            (numbered (rejection j u now) s ∷ [])
          ∙ append-nil _);
  coherent = v.coherent;
}

pub Moves-IsRecorded : {s t : Service InMemoryRepository} → Moves s t → IsRecorded s → IsRecorded t
Moves-IsRecorded here v = v
Moves-IsRecorded (then m ms) v = Moves-IsRecorded ms (Move-IsRecorded m v)
