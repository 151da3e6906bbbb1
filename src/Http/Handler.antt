-- ===== src/Http/Handler.antt =====
-- internal/interface/http/handler.go: the handlers over any service with the methods of the interface
-- ReservationService. A handler takes its request and the time that the service's clock reads, and
-- returns the response and the service's new state. The JSON decoder and encoder are the boundary: a body
-- comes as what the two Decode calls made of it, and a response as the value that is encoded.
pub mod Statuses
pub mod Internal
use inventory_reservation_sy.Base.{ℕ, Bool, if◌then◌else◌, not, ◌||◌, List, [], Option, none, some}
use inventory_reservation_sy.Base.Text.{Text, text_eq, codes}
use inventory_reservation_sy.Base.Time.{Time}
use inventory_reservation_sy.Domain.Reservation.{
  ReservationState, active, confirmed, cancelled, expired, unset, Reservation,
}
use inventory_reservation_sy.Domain.Errors.{
  Error, err_out_of_stock, err_reservation_not_found, err_reservation_already_finalized,
  err_reservation_expired, err_product_not_found, other, message, Result, ok, err,
}
use inventory_reservation_sy.Http.ExternalId.{trim_space, valid_external_id}

pub record ReservationService (S : Type 0) : Type 0 where
  pub reserve_item : Text → Text → Time → S → Result Reservation × S
  pub confirm_reservation : Text → Time → S → Result Reservation × S
  pub cancel_reservation : Text → Time → S → Result Reservation × S
  pub get_available_stock : Text → S → Result ℕ
  pub get_reservation : Text → S → Option Reservation

pub record ReserveRequest : Type 0 where
  pub product_id : Text
  pub user_id : Text

-- The first Decode fails; it succeeds and the second does not hit the end of the body; or it succeeds
-- and the second does.
pub data DecodedBody : Type 0 where
  malformed : DecodedBody
  followed complete : ReserveRequest → DecodedBody

pub record ReservationResponse : Type 0 where
  pub reservation_id : Text
  pub product_id : Text
  pub user_id : Text
  pub state : Text
  pub created_at : Time
  pub expires_at : Time

pub data Body : Type 0 where
  reservation_body : ReservationResponse → Body
  stock_body : Text → ℕ → Body
  error_body : Text → Body

-- A request that the mux of Routes has matched with a service's handler, with its path value.
pub data Request : Type 0 where
  post_reservation : DecodedBody → Request
  post_confirm post_cancel get_reservation_by get_stock : Text → Request

pub record Response : Type 0 where
  pub status : ℕ
  pub body : Body

-- string(r.State)
unfoldable pub state_text : ReservationState → Text
state_text active = codes "Active"
state_text confirmed = codes "Confirmed"
state_text cancelled = codes "Cancelled"
state_text expired = codes "Expired"
state_text unset = []

unfoldable pub to_response : Reservation → ReservationResponse
unfolding state_text
to_response r = record {
  reservation_id = r.reservation_id;
  product_id = r.product_id;
  user_id = r.user_id;
  state = state_text r.state;
  created_at = r.created_at;
  expires_at = r.expires_at;
}

abbrev pub write_error : ℕ → Text → Response
write_error status msg = record { status = status; body = error_body msg }

unfoldable pub write_service_error : Error → Response
unfolding message
write_service_error err_product_not_found = write_error 404 (message err_product_not_found)
write_service_error err_reservation_not_found = write_error 404 (message err_reservation_not_found)
write_service_error err_out_of_stock = write_error 409 (message err_out_of_stock)
write_service_error err_reservation_already_finalized =
    write_error 409 (message err_reservation_already_finalized)
write_service_error err_reservation_expired = write_error 409 (message err_reservation_expired)
write_service_error (other _) = write_error 500 (codes "internal error")

-- The end of a handler: the error, or the reservation under the status of success.
unfoldable pub write_result : ℕ → Result Reservation → Response
unfolding write_service_error to_response
write_result status (ok r) = record { status = status; body = reservation_body (to_response r) }
write_result status (err e) = write_service_error e

module _ {S : Type 0} (svc : ReservationService S) where
  open svc use {
    reserve_item, confirm_reservation, cancel_reservation, get_available_stock, get_reservation,
  }

  unfoldable pub reserve_request : ReserveRequest → Time → S → Response × S
  unfolding write_result
  reserve_request req now s =
      if text_eq (trim_space req.product_id) [] || text_eq (trim_space req.user_id) []
      then (write_error 400 (codes "productId and userId are required"), s)
      else if not (valid_external_id req.product_id) || not (valid_external_id req.user_id)
      then (write_error 400 (codes "productId and userId must use letters, digits, '-' or '_'"), s)
      else let (result, s') = reserve_item req.product_id req.user_id now s in
        (write_result 201 result, s')

  unfoldable pub reserve : DecodedBody → Time → S → Response × S
  unfolding reserve_request
  reserve malformed now s = (write_error 400 (codes "invalid json body"), s)
  reserve (followed req) now s = (write_error 400 (codes "invalid json body"), s)
  reserve (complete req) now s = reserve_request req now s

  unfoldable pub confirm : Text → Time → S → Response × S
  unfolding write_result
  confirm id now s =
      if not (valid_external_id id)
      then (write_error 400 (codes "reservation id is invalid"), s)
      else let (result, s') = confirm_reservation id now s in (write_result 200 result, s')

  unfoldable pub cancel : Text → Time → S → Response × S
  unfolding write_result
  cancel id now s =
      if not (valid_external_id id)
      then (write_error 400 (codes "reservation id is invalid"), s)
      else let (result, s') = cancel_reservation id now s in (write_result 200 result, s')

  unfoldable pub show_reservation : Text → S → Response
  unfolding to_response
  show_reservation id s =
      if not (valid_external_id id)
      then write_error 400 (codes "reservation id is invalid")
      else elim (get_reservation id s) [
        | none ↦ write_error 404 (message err_reservation_not_found)
        | some r ↦ record { status = 200; body = reservation_body (to_response r) }
      ]

  unfoldable pub stock : Text → S → Response
  unfolding write_service_error
  stock id s =
      if not (valid_external_id id)
      then write_error 400 (codes "product id is invalid")
      else elim (get_available_stock id s) [
        | err e ↦ write_service_error e
        | ok available ↦ record { status = 200; body = stock_body id available }
      ]

  unfoldable pub handle : Request → Time → S → Response × S
  handle (post_reservation body) now s = reserve body now s
  handle (post_confirm id) now s = confirm id now s
  handle (post_cancel id) now s = cancel id now s
  handle (get_reservation_by id) now s = (show_reservation id s, s)
  handle (get_stock id) now s = (stock id s, s)
