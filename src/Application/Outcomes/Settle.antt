-- ===== src/Application/Outcomes/Settle.antt =====
-- ConfirmReservation and CancelReservation against the decision tables of
-- specs/04-confirm-cancel.md, by the state of the reservation.
use inventory_reservation_sy.Base.{
  ◌≡◌, sym, subst, none, some, if◌then◌else◌, arith, inl, inr, Option-cases,
}
use inventory_reservation_sy.Base.Text.{Text}
use inventory_reservation_sy.Base.Map.{MapOrder, lookup}
use inventory_reservation_sy.Base.Time.{Time, before}
use inventory_reservation_sy.Domain.Inventory.{ProductInventory, zero_product}
use inventory_reservation_sy.Domain.Reservation.{ReservationState, active, expired, Reservation}
use inventory_reservation_sy.Domain.Event.{event_confirmed, event_cancelled, event_expired}
use inventory_reservation_sy.Domain.Errors.{
  err_reservation_not_found, err_reservation_already_finalized, err_reservation_expired, Result, ok,
  err,
}
use inventory_reservation_sy.Infrastructure.InMemory.{
  InMemoryRepository, in_memory, get_reservation,
}
use inventory_reservation_sy.Application.Shadow.{shadow_confirmed, shadow_cancelled, shadow_expired}
use inventory_reservation_sy.Application.State.{
  Service, mark_confirmed, mark_cancelled, mark_expired, release_hold, sell_hold, event_of,
}
use inventory_reservation_sy.Application.Service.{
  confirm_locked, confirm_reservation, cancel_locked, cancel_reservation,
}
use inventory_reservation_sy.Application.Effects.{
  written, expire-written, confirm-written, cancel-written,
}
use inventory_reservation_sy.Application.Invariant.{IsValid}

abbrev State : Type 0
State = Service InMemoryRepository

-- The product of a reservation; the zero value stands for one that is missing.
abbrev product_of : Reservation → State → ProductInventory
product_of r s = elim (lookup r.product_id s.repo.products) [ none ↦ zero_product | some p ↦ p ]

-- CC-R2, CC-R3 and CC-R4.
abbrev pub confirm_row :
    ReservationState → Text → Reservation → Time → State → Result Reservation × State
confirm_row active id r now s =
    if before now r.expires_at
    then (
      ok (mark_confirmed now r),
      written shadow_confirmed (sell_hold (product_of r s)) id (mark_confirmed now r)
          (event_of event_confirmed r now) s,
    )
    else (
      err err_reservation_expired,
      written shadow_expired (release_hold (product_of r s)) id (mark_expired now r)
          (event_of event_expired r now) s,
    )
confirm_row expired id r now s = (err err_reservation_expired, s)
confirm_row _ id r now s = (err err_reservation_already_finalized, s)

-- CC-R5 and CC-R6.
abbrev pub cancel_row :
    ReservationState → Text → Reservation → Time → State → Result Reservation × State
cancel_row active id r now s = (
  ok (mark_cancelled now r),
  written shadow_cancelled (release_hold (product_of r s)) id (mark_cancelled now r)
      (event_of event_cancelled r now) s,
)
cancel_row _ id r now s = (err err_reservation_already_finalized, s)

abbrev pub by_state :
    (ReservationState → Text → Reservation → Time → State → Result Reservation × State)
    → Text
    → Time
    → State
    → Result Reservation × State
by_state row id now s = elim (lookup id s.repo.reservations) [
  | none ↦ (err err_reservation_not_found, s)
  | some r ↦ row r.state id r now s
]

module _ (order : MapOrder Reservation) (id : Text) (now : Time) (s : State) (v : IsValid s) where
  module _ (r : Reservation) (found : lookup id s.repo.reservations ≡ some r) where
    abbrev owner : ProductInventory
    owner = (v.filed id r found).owner

    owned : lookup r.product_id s.repo.products ≡ some owner
    owned = (v.filed id r found).known

    stored_self : lookup r.reservation_id s.repo.reservations ≡ some r
    stored_self =
        subst (λ k. lookup k s.repo.reservations ≡ some r) (sym (v.filed id r found).named) found

    confirm_locked-row : confirm_locked (in_memory order) id now s ≡ confirm_row r.state id r now s
    unfolding confirm_locked get_reservation
    confirm_locked-row = ground (
      arith,
      found,
      owned,
      (v.filed id r found).named,
      confirm-written order id now s r found owner owned,
      expire-written order r.reservation_id now s r stored_self owner owned,
    )

    cancel_locked-row : cancel_locked (in_memory order) id now s ≡ cancel_row r.state id r now s
    unfolding cancel_locked get_reservation
    cancel_locked-row =
        ground (arith, found, owned, cancel-written order id now s r found owner owned)

  -- Under the invariant, a confirmation answers and acts by the state of the reservation: an unknown id
  -- is not found; an active one is confirmed before its expiry, and from its expiry on it is expired and
  -- reported as expired; an expired one is reported as expired and any other as already finalized, and
  -- these three change nothing.
  pub confirm_table : confirm_reservation (in_memory order) id now s ≡ by_state confirm_row id now s
  unfolding confirm_reservation get_reservation
  confirm_table = elim (Option-cases (lookup id s.repo.reservations)) [
    | inl missing ↦ rw (missing, confirm_reservation, by_state)
    | inr (r, found) ↦ rw (found, confirm_reservation, by_state) (confirm_locked-row r found)
  ]

  -- Under the invariant, a cancellation of an unknown id is not found, of an active reservation cancels
  -- it, whether or not its hold has run out, and of any other is refused as already finalized; the
  -- refusals change nothing.
  pub cancel_table : cancel_reservation (in_memory order) id now s ≡ by_state cancel_row id now s
  unfolding cancel_reservation get_reservation
  cancel_table = elim (Option-cases (lookup id s.repo.reservations)) [
    | inl missing ↦ rw (missing, cancel_reservation, by_state)
    | inr (r, found) ↦ rw (found, cancel_reservation, by_state) (cancel_locked-row r found)
  ]
