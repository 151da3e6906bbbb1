-- ===== src/Application/Moves.antt =====
-- The specification of the service as a step relation, from specs/02-reservation-lifecycle.md. Each move
-- says when it may happen and gives the whole state after it. A grant stores its reservation under an id
-- that no reservation has.
pub mod Calls
pub mod Lifecycle
pub mod Audit
pub mod Records
use inventory_reservation_sy.Base.{◌≡◌, Bool, true, false, none, some}
use inventory_reservation_sy.Base.Text.{Text}
use inventory_reservation_sy.Base.Int64.{is_nonpositive}
use inventory_reservation_sy.Base.Map.{lookup}
use inventory_reservation_sy.Base.Time.{Time, before}
use inventory_reservation_sy.Domain.Inventory.{ProductInventory, available_stock}
use inventory_reservation_sy.Domain.Reservation.{Reservation, is_active}
use inventory_reservation_sy.Domain.Event.{event_confirmed, event_cancelled, event_expired}
use inventory_reservation_sy.Infrastructure.InMemory.{InMemoryRepository}
use inventory_reservation_sy.Application.Shadow.{shadow_confirmed, shadow_cancelled, shadow_expired}
use inventory_reservation_sy.Application.State.{
  Service, mark_confirmed, mark_cancelled, mark_expired, release_hold, sell_hold, event_of,
}
use inventory_reservation_sy.Application.Effects.{written, new_reservation, granted, rejected}

-- An active reservation under an id, and the product that it holds a unit of.
pub record IsHeld (s : Service InMemoryRepository) (id : Text) (r : Reservation)
    (p : ProductInventory) : Type 0 where
  pub found : lookup id s.repo.reservations ≡ some r
  pub active : is_active r ≡ true
  pub owned : lookup r.product_id s.repo.products ≡ some p

pub data Move (s : Service InMemoryRepository) : Service InMemoryRepository → Type 0 where
  expires :
      (id : Text) (r : Reservation) (p : ProductInventory) (now : Time)
      → IsHeld s id r p
      → before now r.expires_at ≡ false
      → Move s (
          written shadow_expired
            (release_hold p)
            id
            (mark_expired now r)
            (event_of event_expired r now)
            s)
  confirms :
      (id : Text) (r : Reservation) (p : ProductInventory) (now : Time)
      → IsHeld s id r p
      → before now r.expires_at ≡ true
      → Move s (
          written shadow_confirmed
            (sell_hold p)
            id
            (mark_confirmed now r)
            (event_of event_confirmed r now)
            s)
  cancels :
      (id : Text) (r : Reservation) (p : ProductInventory) (now : Time)
      → IsHeld s id r p
      → Move s (
          written shadow_cancelled
            (release_hold p)
            id
            (mark_cancelled now r)
            (event_of event_cancelled r now)
            s)
  grants :
      (product_id user_id : Text) (p : ProductInventory) (now : Time)
      → lookup product_id s.repo.products ≡ some p
      → is_nonpositive (available_stock p) ≡ false
      → lookup (new_reservation product_id user_id now s).reservation_id s.repo.reservations ≡ none
      → Move s (granted product_id user_id now p s)
  rejects :
      (product_id user_id : Text) (p : ProductInventory) (now : Time)
      → lookup product_id s.repo.products ≡ some p
      → is_nonpositive (available_stock p) ≡ true
      → Move s (rejected product_id user_id now s)

-- Any number of moves.
pub data Moves : Service InMemoryRepository → Service InMemoryRepository → Type 0 where
  here : {s : Service InMemoryRepository} → Moves s s
  then : {s t u : Service InMemoryRepository} → Move s t → Moves t u → Moves s u

pub Moves-trans : {s t u : Service InMemoryRepository} → Moves s t → Moves t u → Moves s u
Moves-trans here n = n
Moves-trans (then m ms) n = then m (Moves-trans ms n)
