-- ===== src/Http/Handler/Internal.antt =====
-- internal/interface/http/handler.go over the in-memory repository: the default case of
-- writeServiceError.
use inventory_reservation_sy.Base.{
  ℕ, ◌+◌, ◌<◌, ◌≡◌, ◌≢◌, refl, ap, ◌∙◌, Bool, true, false, Option, none, some, arith, inl, inr,
  Option-cases,
}
use inventory_reservation_sy.Base.Text.{Text}
use inventory_reservation_sy.Base.Int64.{word}
use inventory_reservation_sy.Base.Map.{MapOrder, lookup}
use inventory_reservation_sy.Base.Time.{Time}
use inventory_reservation_sy.Domain.Reservation.{
  ReservationState, active, confirmed, cancelled, expired, unset, Reservation,
}
use inventory_reservation_sy.Domain.Errors.{
  Error, err_out_of_stock, err_reservation_not_found, err_reservation_already_finalized,
  err_reservation_expired, err_product_not_found, other, Result, ok, err,
}
use inventory_reservation_sy.Infrastructure.InMemory.{InMemoryRepository, in_memory, get_product}
use inventory_reservation_sy.Application.State.{Service}
use inventory_reservation_sy.Application.Service.{
  reserve_item, confirm_reservation, cancel_reservation, find_reservation, get_available_stock,
}
use inventory_reservation_sy.Application.Invariant.{sold, IsSound}
use inventory_reservation_sy.Application.Outcomes.Reserve.{
  error_of, kept, reserve_error, reserve_outcome,
}
use inventory_reservation_sy.Application.Moves.Lifecycle.{stock_in}
use inventory_reservation_sy.Application.Outcomes.Settle.{
  confirm_row, cancel_row, by_state, confirm_table, cancel_table,
}
use inventory_reservation_sy.Http.Handler.{
  malformed, followed, complete, write_service_error, write_result, reserve, reserve_request,
  confirm, cancel, Request, post_reservation, post_confirm, post_cancel, get_reservation_by,
  get_stock, handle, show_reservation, stock,
}
use inventory_reservation_sy.Http.Handler.Statuses.{in_memory_service}

-- An error that is none of the domain's sentinels.
abbrev is_other : Option Error → Bool
is_other (some (other _)) = true
is_other _ = false

write_result-ne-500 :
    (status : ℕ) (result : Result Reservation)
    → status ≢ 500
    → is_other (error_of result) ≡ false
    → (write_result status result).status ≢ 500
unfolding write_result write_service_error error_of
write_result-ne-500 status (ok r) fine h = fine
write_result-ne-500 status (err err_out_of_stock) fine h = ground arith
write_result-ne-500 status (err err_reservation_not_found) fine h = ground arith
write_result-ne-500 status (err err_reservation_already_finalized) fine h = ground arith
write_result-ne-500 status (err err_reservation_expired) fine h = ground arith
write_result-ne-500 status (err err_product_not_found) fine h = ground arith
write_result-ne-500 status (err (other e)) fine h = absurd (cc)

reserve_error-known : (total : Option ℕ) (used : ℕ) → is_other (reserve_error total used) ≡ false
unfolding reserve_error
reserve_error-known none used = refl
reserve_error-known (some total) used = ground arith

by_state-known :
    (row : ReservationState
      → Text
      → Reservation
      → Time
      → Service InMemoryRepository
      → Result Reservation × Service InMemoryRepository)
    (id : Text) (now : Time) (s : Service InMemoryRepository)
    → ((st : ReservationState) (r : Reservation)
        → is_other (error_of (row st id r now s).0) ≡ false)
    → is_other (error_of (by_state row id now s).0) ≡ false
unfolding error_of
by_state-known row id now s rows = elim (Option-cases (lookup id s.repo.reservations)) [
  | inl missing ↦ rw (missing, by_state, is_other) refl
  | inr (r, found) ↦ rw (found, by_state, is_other) (rows r.state r)
]

confirm_row-known :
    (id : Text) (now : Time) (s : Service InMemoryRepository) (st : ReservationState)
    (r : Reservation)
    → is_other (error_of (confirm_row st id r now s).0) ≡ false
unfolding error_of
confirm_row-known id now s active r = ground arith
confirm_row-known id now s confirmed r = refl
confirm_row-known id now s cancelled r = refl
confirm_row-known id now s expired r = refl
confirm_row-known id now s unset r = refl

cancel_row-known :
    (id : Text) (now : Time) (s : Service InMemoryRepository) (st : ReservationState)
    (r : Reservation)
    → is_other (error_of (cancel_row st id r now s).0) ≡ false
unfolding error_of
cancel_row-known id now s active r = refl
cancel_row-known id now s confirmed r = refl
cancel_row-known id now s cancelled r = refl
cancel_row-known id now s expired r = refl
cancel_row-known id now s unset r = refl

-- From a sound state and while ids last, the service over the in-memory repository never makes a
-- handler answer with 500: every error it returns is one of the domain's.
pub no_internal_error :
    (order : MapOrder Reservation) (q : Request) (now : Time) (s : Service InMemoryRepository)
    (b : ℕ)
    → b + 3 < word
    → IsSound b s
    → (handle (in_memory_service order) q now s).0.status ≢ 500
unfolding handle reserve
no_internal_error order (post_reservation malformed) now s b few v = ground arith
no_internal_error order (post_reservation (followed req)) now s b few v = ground arith
no_internal_error order (post_reservation (complete req)) now s b few v =
    unfold reserve_request in
    ground (
      arith,
      write_result-ne-500 201 (reserve_item (in_memory order) req.product_id req.user_id now s).0
          (λ e. ground arith)
          (ap is_other (reserve_outcome order req.product_id req.user_id now s b few v)
            ∙ reserve_error-known (stock_in req.product_id s.repo.products) (
                sold req.product_id s.repo.reservations
                + kept req.product_id now s.repo.reservations)),
    )
no_internal_error order (post_confirm id) now s b few v =
    unfold confirm in
    ground (
      arith,
      write_result-ne-500 200 (confirm_reservation (in_memory order) id now s).0 (λ e. ground arith)
          (ap (λ x. is_other (error_of x.0)) (confirm_table order id now s v.valid)
            ∙ by_state-known confirm_row id now s (confirm_row-known id now s)),
    )
no_internal_error order (post_cancel id) now s b few v =
    unfold cancel in
    ground (
      arith,
      write_result-ne-500 200 (cancel_reservation (in_memory order) id now s).0 (λ e. ground arith)
          (ap (λ x. is_other (error_of x.0)) (cancel_table order id now s v.valid)
            ∙ by_state-known cancel_row id now s (cancel_row-known id now s)),
    )
no_internal_error order (get_reservation_by id) now s b few v =
    unfold show_reservation in
    elim (Option-cases (find_reservation (in_memory order) id s)) [
      | inl missing ↦ rw missing (ground arith)
      | inr (r, found) ↦ rw found (ground arith)
    ]
no_internal_error order (get_stock id) now s b few v =
    unfold stock get_available_stock write_service_error in
    elim (Option-cases (get_product id s.repo)) [
      | inl missing ↦ rw missing (ground arith)
      | inr (p, known) ↦ rw known (ground arith)
    ]
