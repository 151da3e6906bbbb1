-- ===== src/Application/Service.antt =====
-- internal/application/reservation_service.go: the operations, over any repository. Each one takes the
-- time that the clock returns to it, and returns its result and the new state. The body of a critical
-- section is a function of its own (`..._locked`); the lock and the context have no state here.
use inventory_reservation_sy.Base.{
  ℕ, if◌then◌else◌, not, ◌&&◌, List, [], ◌∷◌, ◌++◌, Option, none, some,
}
use inventory_reservation_sy.Base.Text.{Text}
use inventory_reservation_sy.Base.Int64.{is_nonpositive}
use inventory_reservation_sy.Base.Time.{Time, add_time, before}
use inventory_reservation_sy.Domain.Inventory.{ProductInventory, available_stock}
use inventory_reservation_sy.Domain.Reservation.{
  ReservationState, active, expired, Reservation, is_active, or_zero,
}
use inventory_reservation_sy.Domain.Event.{
  InventoryEvent, event_reserved, event_confirmed, event_cancelled, event_expired,
}
use inventory_reservation_sy.Domain.Errors.{
  Error, err_out_of_stock, err_reservation_not_found, err_reservation_already_finalized,
  err_reservation_expired, err_product_not_found, Result, ok, err,
}
use inventory_reservation_sy.Infrastructure.Repository.{Repository}
use inventory_reservation_sy.Application.Shadow.{
  ShadowAction, shadow_reserved, shadow_confirmed, shadow_cancelled, shadow_expired,
}
use inventory_reservation_sy.Application.State.{
  Service, set_repo, res_prefix, evt_prefix, next_id, mark_confirmed, mark_cancelled, mark_expired,
  add_hold, release_hold, sell_hold, returning_nil, event_of, rejection, captured,
}

module _ {R : Type 0} (repository : Repository R) where
  open repository use {
    get_product, update_product, save_reservation, get_reservation, handed_reservation,
    update_reservation, active_reservations_by_product, all_active_reservations, all_events,
  }

  unfoldable pub append_event : InventoryEvent → Service R → InventoryEvent × Service R
  unfolding next_id
  append_event e s =
      let (id, s') = next_id evt_prefix s in
      let e' = record e { event_id = id } in (e', set_repo (repository.append_event e' s'.repo) s')

  unfoldable pub record_shadow : ShadowAction → Reservation → InventoryEvent → Service R → Service R
  record_shadow action reservation event s = elim (get_product reservation.product_id s.repo) [
    | none ↦ s
    | some product ↦ record s {
      shadow_recorder =
          s.shadow_recorder
          ++ (record {
            action = action;
            product = product;
            reservation = reservation;
            event = event;
          })
            ∷ [];
    }
  ]

  unfoldable pub change_reservation : Text → (Reservation → Reservation) → Service R → Service R
  change_reservation id f s = set_repo (update_reservation id (returning_nil f) s.repo).0 s

  unfoldable pub change_product :
      Text → (ProductInventory → ProductInventory) → Service R → Service R
  change_product id f s = set_repo (update_product id (returning_nil f) s.repo).0 s

  -- The caller holds the lock of the reservation's product.
  unfoldable pub expire_reservation_locked : Text → Time → Service R → Service R
  unfolding append_event record_shadow change_reservation change_product
  expire_reservation_locked reservation_id now s =
      let current = or_zero (get_reservation reservation_id s.repo) in
      let s₁ = change_reservation reservation_id (mark_expired now) s in
      let s₂ = change_product current.product_id release_hold s₁ in
      let (event, s₃) = append_event (event_of event_expired current now) s₂ in
      record_shadow shadow_expired (or_zero (get_reservation reservation_id s₃.repo)) event s₃

  -- The loop of `expireForProductLocked` over the reservations listed.
  unfoldable pub expire_stale : Time → List Reservation → Service R → Service R
  expire_stale now [] s = s
  expire_stale now (r ∷ rest) s = expire_stale now rest (
      if not (before now r.expires_at) then expire_reservation_locked r.reservation_id now s else s)

  unfoldable pub expire_for_product_locked : Text → Time → Service R → Service R
  expire_for_product_locked product_id now s =
      expire_stale now (active_reservations_by_product product_id s.repo) s

  unfoldable pub reject : Text → Text → Time → Service R → Result Reservation × Service R
  unfolding append_event
  reject product_id user_id now s =
      (err err_out_of_stock, (append_event (rejection product_id user_id now) s).1)

  unfoldable pub grant : Text → Text → Time → Service R → Result Reservation × Service R
  unfolding next_id append_event record_shadow change_product
  grant product_id user_id now s =
      let (id, s₁) = next_id res_prefix s in
      let res : Reservation = record {
        reservation_id = id;
        product_id = product_id;
        user_id = user_id;
        state = active;
        created_at = now;
        expires_at = add_time now s.hold_for;
        confirmed_at = none;
        cancelled_at = none;
        expired_at = none;
      } in
      let s₂ = set_repo (save_reservation res s₁.repo) s₁ in
      let s₃ = change_product product_id add_hold s₂ in
      let (event, s₄) = append_event (event_of event_reserved res now) s₃ in
      (ok res, record_shadow shadow_reserved res event s₄)

  unfoldable pub reserve_checked :
      Text → Text → Time → Option ProductInventory → Service R → Result Reservation × Service R
  reserve_checked product_id user_id now none s = (err err_product_not_found, s)
  reserve_checked product_id user_id now (some product) s =
      if is_nonpositive (available_stock product)
      then reject product_id user_id now s
      else grant product_id user_id now s

  unfoldable pub reserve_item : Text → Text → Time → Service R → Result Reservation × Service R
  reserve_item product_id user_id now s =
      let s₁ = expire_for_product_locked product_id now s in
      reserve_checked product_id user_id now (get_product product_id s₁.repo) s₁

  unfoldable pub confirm_active :
      Text → Reservation → Time → Service R → Result Reservation × Service R
  unfolding append_event record_shadow change_reservation change_product
  confirm_active reservation_id current now s =
      let result = captured (mark_confirmed now) (handed_reservation reservation_id s.repo) in
      let s₁ = change_reservation reservation_id (mark_confirmed now) s in
      let s₂ = change_product current.product_id sell_hold s₁ in
      let (event, s₃) = append_event (event_of event_confirmed current now) s₂ in
      (ok result, record_shadow shadow_confirmed result event s₃)

  abbrev finalized_error : ReservationState → Error
  finalized_error expired = err_reservation_expired
  finalized_error _ = err_reservation_already_finalized

  unfoldable pub confirm_locked : Text → Time → Service R → Result Reservation × Service R
  confirm_locked reservation_id now s =
      let current = or_zero (get_reservation reservation_id s.repo) in
      if is_active current && not (before now current.expires_at)
      then (err err_reservation_expired, expire_reservation_locked current.reservation_id now s)
      else if not (is_active current)
      then (err (finalized_error current.state), s)
      else confirm_active reservation_id current now s

  unfoldable pub confirm_reservation : Text → Time → Service R → Result Reservation × Service R
  confirm_reservation reservation_id now s = elim (get_reservation reservation_id s.repo) [
    | none ↦ (err err_reservation_not_found, s)
    | some _ ↦ confirm_locked reservation_id now s
  ]

  unfoldable pub cancel_active :
      Text → Reservation → Time → Service R → Result Reservation × Service R
  unfolding append_event record_shadow change_reservation change_product
  cancel_active reservation_id current now s =
      let result = captured (mark_cancelled now) (handed_reservation reservation_id s.repo) in
      let s₁ = change_reservation reservation_id (mark_cancelled now) s in
      let s₂ = change_product current.product_id release_hold s₁ in
      let (event, s₃) = append_event (event_of event_cancelled current now) s₂ in
      (ok result, record_shadow shadow_cancelled result event s₃)

  unfoldable pub cancel_locked : Text → Time → Service R → Result Reservation × Service R
  cancel_locked reservation_id now s =
      let current = or_zero (get_reservation reservation_id s.repo) in
      if not (is_active current)
      then (err err_reservation_already_finalized, s)
      else cancel_active reservation_id current now s

  unfoldable pub cancel_reservation : Text → Time → Service R → Result Reservation × Service R
  cancel_reservation reservation_id now s = elim (get_reservation reservation_id s.repo) [
    | none ↦ (err err_reservation_not_found, s)
    | some _ ↦ cancel_locked reservation_id now s
  ]

  unfoldable pub get_available_stock : Text → Service R → Result ℕ
  get_available_stock product_id s = elim (get_product product_id s.repo) [
    | none ↦ err err_product_not_found
    | some p ↦ ok (available_stock p)
  ]

  unfoldable pub find_reservation : Text → Service R → Option Reservation
  find_reservation reservation_id s = get_reservation reservation_id s.repo

  unfoldable pub events : Service R → List InventoryEvent
  events s = all_events s.repo
