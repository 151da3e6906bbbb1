-- ===== src/Application/Durable/Numbers.antt =====
-- The ids that appendEvent of internal/application/reservation_service.go gives to the events of a log.
use inventory_reservation_sy.Base.{
  ℕ, ◌≤◌, ◌<◌, ◌≡◌, refl, false, List, [], ◌∷◌, ◌++◌, All, All-map, All-append, arith,
}
use inventory_reservation_sy.Base.Text.{eq_iff}
use inventory_reservation_sy.Domain.Event.{InventoryEvent}
use inventory_reservation_sy.Infrastructure.Tables.{has_event}
use inventory_reservation_sy.Application.State.{format_id, format_id-injective, evt_prefix}
use inventory_reservation_sy.Application.Durable.{IsNumbered}

-- A later event id is not in the log.
pub fresh_event :
    (n later : ℕ) (es : List InventoryEvent)
    → n < later
    → All (IsNumbered n) es
    → has_event (format_id evt_prefix later) es ≡ false
unfolding has_event
fresh_event n later [] more a = refl
fresh_event n later (e ∷ es) more a = ground (
  arith,
  fresh_event n later es more a.1,
  eq_iff e.event_id (format_id evt_prefix later),
  a.0.1,
  a.0.2,
  format_id-injective evt_prefix a.0.0 later,
)

-- The log after an event that has been given the next number.
pub log_grows :
    (n n' : ℕ)
    → n ≤ n'
    → (es : List InventoryEvent) (e : InventoryEvent) → All (IsNumbered n) es
    → e.event_id ≡ format_id evt_prefix n'
    → All (IsNumbered n') (es ++ e ∷ [])
log_grows n n' more es e a same =
    All-append (IsNumbered n') es (e ∷ []) (All-map es (λ x m. (m.0, m.1, omega (arith, m.2))) a)
      ((n', same, omega arith), tt)
