-- ===== src/Http/Handler/Statuses.antt =====
-- internal/interface/http/handler.go, the statuses of the answers, with any service and with the service
-- over the in-memory repository.
use inventory_reservation_sy.Base.{
  ℕ, ◌+◌, ◌<◌, ◌≡◌, ◌≢◌, refl, ap, ◌∙◌, true, false, [], Option, none, some, arith,
}
use inventory_reservation_sy.Base.Text.{Text, text_eq, eq_iff}
use inventory_reservation_sy.Base.Int64.{word}
use inventory_reservation_sy.Base.Map.{MapOrder}
use inventory_reservation_sy.Base.Time.{Time}
use inventory_reservation_sy.Domain.Reservation.{Reservation}
use inventory_reservation_sy.Domain.Errors.{
  Error, err_out_of_stock, err_reservation_not_found, err_reservation_already_finalized,
  err_reservation_expired, err_product_not_found, other, Result, ok, err,
}
use inventory_reservation_sy.Infrastructure.InMemory.{InMemoryRepository, in_memory}
use inventory_reservation_sy.Application.State.{Service}
use inventory_reservation_sy.Application.Service
use inventory_reservation_sy.Application.Service.{
  reserve_item, confirm_reservation, cancel_reservation, find_reservation, get_available_stock,
}
use inventory_reservation_sy.Application.Invariant.{sold, IsSound}
use inventory_reservation_sy.Application.Outcomes.Reserve.{
  error_of, kept, reserve_error, reserve_outcome,
}
use inventory_reservation_sy.Application.Moves.Lifecycle.{stock_in}
use inventory_reservation_sy.Http.ExternalId.{trim_space, valid_external_id}
use inventory_reservation_sy.Http.Handler.{
  ReservationService, ReserveRequest, malformed, followed, complete, write_service_error,
  write_result, reserve, reserve_request, confirm, cancel, Request, post_reservation, post_confirm,
  post_cancel, get_reservation_by, get_stock, handle,
}

-- The application's service over the in-memory repository, as the handlers see it.
abbrev pub in_memory_service :
    MapOrder Reservation → ReservationService (Service InMemoryRepository)
in_memory_service order = record {
  reserve_item = Service.reserve_item (in_memory order);
  confirm_reservation = Service.confirm_reservation (in_memory order);
  cancel_reservation = Service.cancel_reservation (in_memory order);
  get_available_stock = Service.get_available_stock (in_memory order);
  get_reservation = Service.find_reservation (in_memory order);
}

write_result-ne-400 :
    (status : ℕ) (r : Result Reservation) → status ≢ 400 → (write_result status r).status ≢ 400
unfolding write_result
write_result-ne-400 status (ok r) h = h
write_result-ne-400 status (err e) h = ground arith

module _ {S : Type 0} (svc : ReservationService S) (now : Time) (s : S) where
  -- Whatever the service, a request that is answered with 400 has not changed its state.
  pub bad_request_unchanged :
      (q : Request) → (handle svc q now s).0.status ≡ 400 → (handle svc q now s).1 ≡ s
  unfolding handle reserve reserve_request confirm cancel
  bad_request_unchanged (post_reservation malformed) h = refl
  bad_request_unchanged (post_reservation (followed req)) h = refl
  bad_request_unchanged (post_reservation (complete req)) h =
      ground (arith, write_result-ne-400 201 (svc.reserve_item req.product_id req.user_id now s).0)
  bad_request_unchanged (post_confirm id) h =
      ground (arith, write_result-ne-400 200 (svc.confirm_reservation id now s).0)
  bad_request_unchanged (post_cancel id) h =
      ground (arith, write_result-ne-400 200 (svc.cancel_reservation id now s).0)
  bad_request_unchanged (get_reservation_by id) h = refl
  bad_request_unchanged (get_stock id) h = refl

-- The status of an answer to POST /reservations.
abbrev pub status_of : Option Error → ℕ
status_of none = 201
status_of (some err_product_not_found) = 404
status_of (some err_reservation_not_found) = 404
status_of (some (other _)) = 500
status_of (some _) = 409

status_of-result :
    (result : Result Reservation) → (write_result 201 result).status ≡ status_of (error_of result)
unfolding write_result write_service_error error_of
status_of-result (ok r) = refl
status_of-result (err err_out_of_stock) = refl
status_of-result (err err_reservation_not_found) = refl
status_of-result (err err_reservation_already_finalized) = refl
status_of-result (err err_reservation_expired) = refl
status_of-result (err err_product_not_found) = refl
status_of-result (err (other e)) = refl

valid-not_blank : (t : Text) → valid_external_id t ≡ true → text_eq (trim_space t) [] ≡ false
unfolding valid_external_id
valid-not_blank t h = ground (arith, h, eq_iff (trim_space t) t)

-- In a sound state and while ids last, a reservation request whose ids are valid is answered with 404
-- if there is no such product, with 409 if sales and holds that have not run out fill its stock, and
-- with 201 otherwise.
pub reserve_status :
    (order : MapOrder Reservation) (req : ReserveRequest) (now : Time)
    (s : Service InMemoryRepository) (b : ℕ)
    → b + 3 < word
    → IsSound b s
    → valid_external_id req.product_id ≡ true
    → valid_external_id req.user_id ≡ true
    → (handle (in_memory_service order) (post_reservation (complete req)) now s).0.status
      ≡ status_of (
          reserve_error
            (stock_in req.product_id s.repo.products)
            (sold req.product_id s.repo.reservations + kept req.product_id now s.repo.reservations))
unfolding handle reserve reserve_request
reserve_status order req now s b few v good_product good_user =
    let answer = reserve_item (in_memory order) req.product_id req.user_id now s in
    rw
      (
        valid-not_blank req.product_id good_product,
        valid-not_blank req.user_id good_user,
        good_product,
        good_user,
      )
      (status_of-result answer.0
        ∙ ap status_of (reserve_outcome order req.product_id req.user_id now s b few v))
