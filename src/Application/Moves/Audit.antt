-- ===== src/Application/Moves/Audit.antt =====
-- Moves and the event log of internal/domain/event.go.
use inventory_reservation_sy.Base.{
  ℕ, ◌+◌, ◌≡◌, refl, sym, ap, none, ◌∙◌, Bool, true, false, ◌&&◌, List, [], ◌∷◌, ◌++◌, append-nil,
  append_assoc, some, arith, to_num, sum_of, sum_of-append,
}
use inventory_reservation_sy.Base.Text.{Text, text_eq}
use inventory_reservation_sy.Base.Map.{Map, lookup, insert, sum_of-insert_old, sum_of-insert_new}
use inventory_reservation_sy.Domain.Reservation.{ReservationState, Reservation, is_active}
use inventory_reservation_sy.Domain.Event.{
  InventoryEventType, event_reserved, event_reserve_rejected, event_confirmed, event_cancelled,
  event_expired, InventoryEvent,
}
use inventory_reservation_sy.Infrastructure.InMemory.{InMemoryRepository}
use inventory_reservation_sy.Application.State.{
  Service, mark_confirmed, mark_cancelled, mark_expired, event_of, rejection,
}
use inventory_reservation_sy.Application.Effects.{numbered, new_reservation, drawn}
use inventory_reservation_sy.Application.Invariant.{equals_confirmed, holds, sales, held, sold}
use inventory_reservation_sy.Application.Moves.{
  Move, expires, confirms, cancels, grants, rejects, Moves, here, then,
}

-- The kinds of events that open a hold, close one, and sell a unit.
abbrev pub opens : InventoryEventType → Bool
opens event_reserved = true
opens _ = false

abbrev pub closes : InventoryEventType → Bool
closes event_confirmed = true
closes event_cancelled = true
closes event_expired = true
closes _ = false

abbrev pub sells : InventoryEventType → Bool
sells event_confirmed = true
sells _ = false

-- How many events of these kinds the log has for a product.
abbrev pub logged : (InventoryEventType → Bool) → Text → List InventoryEvent → ℕ
logged p k = sum_of (λ e. to_num (text_eq e.product_id k && p e.kind))

-- Reserved events are the holds that are open and those that were closed, and confirmed events are the
-- sales.
pub record Tallies (k : Text) (rs : Map Reservation) (es : List InventoryEvent) : Type 0 where
  pub holds_logged : held k rs + logged closes k es ≡ logged opens k es
  pub sales_logged : sold k rs ≡ logged sells k es

abbrev pub IsAudited : Text → Service InMemoryRepository → Type 0
IsAudited k s = Tallies k s.repo.reservations s.repo.events

logged-append :
    (p : InventoryEventType → Bool) (k : Text) (es : List InventoryEvent) (e : InventoryEvent)
    → logged p k (es ++ e ∷ []) ≡ logged p k es + to_num (text_eq e.product_id k && p e.kind)
unfolding sum_of
logged-append p k es e = omega (
  arith,
  sum_of-append (λ (x : InventoryEvent). to_num (text_eq x.product_id k && p x.kind)) es (e ∷ []),
)

module _ (k : Text) (rs : Map Reservation) (es : List InventoryEvent) (a : Tallies k rs es) where
  settle-Tallies :
      (j : Text) (r r' : Reservation) (e : InventoryEvent)
      → lookup j rs ≡ some r
      → is_active r ≡ true
      → is_active r' ≡ false
      → r'.product_id ≡ r.product_id
      → e.product_id ≡ r.product_id
      → opens e.kind ≡ false
      → closes e.kind ≡ true
      → sells e.kind ≡ equals_confirmed r'.state
      → Tallies k (insert j r' rs) (es ++ e ∷ [])
  settle-Tallies j r r' e found active ended same same_product no_open close sell = ground (
    arith,
    a,
    sum_of-insert_old (holds k) j r' r rs found,
    sum_of-insert_old (sales k) j r' r rs found,
    logged-append opens k es e,
    logged-append closes k es e,
    logged-append sells k es e,
  )

  open-Tallies :
      (j : Text) (r : Reservation) (e : InventoryEvent)
      → lookup j rs ≡ none
      → r.state ≡ ReservationState.active
      → e.product_id ≡ r.product_id
      → e.kind ≡ event_reserved
      → Tallies k (insert j r rs) (es ++ e ∷ [])
  open-Tallies j r e unused active same_product reserved = ground (
    arith,
    a,
    sum_of-insert_new (holds k) j r rs unused,
    sum_of-insert_new (sales k) j r rs unused,
    logged-append opens k es e,
    logged-append closes k es e,
    logged-append sells k es e,
  )

  reject-Tallies :
      (e : InventoryEvent) → e.kind ≡ event_reserve_rejected → Tallies k rs (es ++ e ∷ [])
  reject-Tallies e rejected = ground (
    arith,
    a,
    logged-append opens k es e,
    logged-append closes k es e,
    logged-append sells k es e,
  )

Move-IsAudited :
    {s t : Service InMemoryRepository} → Move s t → (k : Text) → IsAudited k s → IsAudited k t
unfolding mark_expired mark_confirmed mark_cancelled
Move-IsAudited {s} (expires j r p now h late) k a =
    settle-Tallies k s.repo.reservations s.repo.events a j r (mark_expired now r)
      (numbered (event_of event_expired r now) s) h.found h.active refl refl refl refl refl refl
Move-IsAudited {s} (confirms j r p now h early) k a =
    settle-Tallies k s.repo.reservations s.repo.events a j r (mark_confirmed now r)
      (numbered (event_of event_confirmed r now) s) h.found h.active refl refl refl refl refl refl
Move-IsAudited {s} (cancels j r p now h) k a =
    settle-Tallies k s.repo.reservations s.repo.events a j r (mark_cancelled now r)
      (numbered (event_of event_cancelled r now) s) h.found h.active refl refl refl refl refl refl
Move-IsAudited {s} (grants j u p now known left unused) k a =
    open-Tallies k s.repo.reservations s.repo.events a _ (new_reservation j u now s)
      (numbered (event_of event_reserved (new_reservation j u now s) now) (drawn s)) unused refl
      refl refl
Move-IsAudited {s} (rejects j u p now known out) k a =
    reject-Tallies k s.repo.reservations s.repo.events a (numbered (rejection j u now) s) refl

pub Moves-IsAudited :
    {s t : Service InMemoryRepository} → Moves s t → (k : Text) → IsAudited k s → IsAudited k t
Moves-IsAudited here k a = a
Moves-IsAudited (then m ms) k a = Moves-IsAudited ms k (Move-IsAudited m k a)

Move-appends :
    {s t : Service InMemoryRepository}
    → Move s t
    → (e : InventoryEvent) × (t.repo.events ≡ s.repo.events ++ e ∷ [])
Move-appends (expires j r p now h late) = (_, refl)
Move-appends (confirms j r p now h early) = (_, refl)
Move-appends (cancels j r p now h) = (_, refl)
Move-appends (grants j u p now known left unused) = (_, refl)
Move-appends (rejects j u p now known out) = (_, refl)

-- Events are only ever added, at the end of the log.
pub Moves-appends :
    {s t : Service InMemoryRepository}
    → Moves s t
    → (es : List InventoryEvent) × (t.repo.events ≡ s.repo.events ++ es)
Moves-appends {s} here = ([], sym (append-nil s.repo.events))
Moves-appends {s} (then m ms) =
    let (e, p) = Move-appends m in
    let (es, q) = Moves-appends ms in
    (
      e ∷ es,
      q ∙ ap (λ (l : List InventoryEvent). l ++ es) p ∙ append_assoc s.repo.events (e ∷ []) es,
    )
