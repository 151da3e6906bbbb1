-- ===== src/Examples/Boundary.antt =====
-- The theorems on the race of the sweep, on the demo and on the HTTP boundary, at concrete inputs.
use inventory_reservation_sy.Base.{
  ◌+◌, ◌*◌, ◌≤◌, ◌≡◌, ◌≢◌, ◌↔◌, refl, List, [], ◌∷◌, some, All, true, select, length, arith,
}
use inventory_reservation_sy.Base.Text.{Text, codes, text_eq, decimal}
use inventory_reservation_sy.Base.Int64.{add_int}
use inventory_reservation_sy.Base.Time.{Time, minute}
use inventory_reservation_sy.Base.Map.{lookup, insert, values}
use inventory_reservation_sy.Domain.Inventory.{ProductInventory, available_stock}
use inventory_reservation_sy.Domain.Reservation.{cancelled, Reservation}
use inventory_reservation_sy.Infrastructure.InMemory.{
  get_product, handed_reservation, get_reservation, update_product, update_reservation,
  save_reservation, append_event, all_active_reservations, active_reservations_by_product,
}
use inventory_reservation_sy.Application.State.{
  format_id, mark_expired, mark_cancelled, add_hold, release_hold,
}
use inventory_reservation_sy.Application.Service.{
  reserve_item, reserve_checked, expire_for_product_locked, expire_stale, grant, cancel_reservation,
  cancel_locked, cancel_active,
}
use inventory_reservation_sy.Application.Sweep.{add_to_group, group_due}
use inventory_reservation_sy.Application.Sweep.Groups.{ids_of}
use inventory_reservation_sy.Application.Invariant.{sold, IsValid}
use inventory_reservation_sy.Application.Moves.Lifecycle.{stock_in}
use inventory_reservation_sy.Application.Outcomes.Reserve.{kept, reserve_error}
use inventory_reservation_sy.Application.Sweep.Totals.{swept}
use inventory_reservation_sy.Application.History.{Call, cancel, perform, run, add_seeds, start}
use inventory_reservation_sy.Application.History.Race.{expire_across, double_release}
use inventory_reservation_sy.Demo.{Attempt, demo_run, passed}
use inventory_reservation_sy.Demo.Contention.{demo_passes}
use inventory_reservation_sy.Http.ExternalId.{valid_external_id, IsIdChar, valid_external_id_iff}
use inventory_reservation_sy.Http.Handler.{
  post_reservation, post_confirm, complete, ReserveRequest, handle, confirm,
}
use inventory_reservation_sy.Http.Handler.Statuses.{
  in_memory_service, bad_request_unchanged, status_of, reserve_status,
}
use inventory_reservation_sy.Http.Handler.Internal.{no_internal_error}
use inventory_reservation_sy.Examples.Scenario.{
  as_inserted, sku, first_id, held_once, after, held_once-IsSound, after-IsSound, first_hold,
}

-- The user cancels after the sweep has listed the hold.
abbrev due_time : Time
due_time = 10 + 2 * minute

abbrev cancel_between : List Call
cancel_between = cancel as_inserted first_id (due_time + 1) ∷ []

abbrev cancelled_hold : Reservation
cancelled_hold = record first_hold { state = cancelled; cancelled_at = some (due_time + 1) }

abbrev released_product : ProductInventory
released_product = record {
  product_id = sku;
  total_stock = 2;
  confirmed_count = 0;
  active_reservation_count = 0;
}

listed : swept as_inserted as_inserted due_time held_once ≡ first_id ∷ []
unfolding ids_of group_due add_to_group lookup insert values select text_eq decimal format_id run
    perform add_seeds start get_product handed_reservation get_reservation update_product
    update_reservation save_reservation append_event all_active_reservations
    active_reservations_by_product available_stock add_hold release_hold mark_cancelled reserve_item
    reserve_checked expire_for_product_locked expire_stale grant cancel_reservation cancel_locked
    cancel_active
listed = refl

cancelled_stored :
    lookup first_id (run cancel_between held_once).repo.reservations ≡ some cancelled_hold
unfolding lookup insert values select text_eq decimal format_id run perform add_seeds start
    get_product handed_reservation get_reservation update_product update_reservation
    save_reservation append_event all_active_reservations active_reservations_by_product
    available_stock add_hold release_hold mark_cancelled reserve_item reserve_checked
    expire_for_product_locked expire_stale grant cancel_reservation cancel_locked cancel_active
cancelled_stored = refl

released_stored : lookup sku (run cancel_between held_once).repo.products ≡ some released_product
unfolding lookup insert values select text_eq decimal format_id run perform add_seeds start
    get_product handed_reservation get_reservation update_product update_reservation
    save_reservation append_event all_active_reservations active_reservations_by_product
    available_stock add_hold release_hold mark_cancelled reserve_item reserve_checked
    expire_for_product_locked expire_stale grant cancel_reservation cancel_locked cancel_active
released_stored = refl

double_release_example :
    let t = (expire_across as_inserted as_inserted due_time cancel_between held_once).1 in
    (lookup first_id t.repo.reservations ≡ some (mark_expired due_time cancelled_hold))
    × (lookup sku t.repo.products ≡ some (release_hold released_product))
    × (available_stock (release_hold released_product)
        ≡ add_int (available_stock released_product) 1)
    × (¬ IsValid t)
double_release_example =
    double_release as_inserted as_inserted due_time cancel_between 3 held_once (omega arith)
      held_once-IsSound first_id cancelled_hold released_product listed cancelled_stored refl
      released_stored

abbrev attempt : Text → Time → Attempt
attempt user at = record { order = as_inserted; user_id = user; at = at }

abbrev attempts : List Attempt
attempts =
    attempt (codes "user-0") 10 ∷ attempt (codes "user-2") 11 ∷ attempt (codes "user-1") 12 ∷ []

demo_passes_example : demo_run as_inserted 2 attempts ≡ passed
demo_passes_example =
    demo_passes as_inserted 20 2 attempts (omega arith) (omega arith)
      ((omega arith, omega arith), ((omega arith, omega arith), ((omega arith, omega arith), tt)))

valid_external_id_iff_example :
    (valid_external_id (codes "res-1") ≡ true)
    ↔ (1 ≤ length (codes "res-1")) × (length (codes "res-1") ≤ 64) × All IsIdChar (codes "res-1")
valid_external_id_iff_example = valid_external_id_iff (codes "res-1")

-- An id with a space in it.
bad_request_unchanged_example :
    (handle (in_memory_service as_inserted) (post_confirm (codes "res 1")) 20 held_once).1
    ≡ held_once
unfolding handle confirm valid_external_id text_eq
bad_request_unchanged_example =
    bad_request_unchanged (in_memory_service as_inserted) 20 held_once
      (post_confirm (codes "res 1")) refl

abbrev request : ReserveRequest
request = record { product_id = sku; user_id = codes "dan" }

sku_valid : valid_external_id sku ≡ true
unfolding valid_external_id text_eq
sku_valid = refl

dan_valid : valid_external_id (codes "dan") ≡ true
unfolding valid_external_id text_eq
dan_valid = refl

reserve_status_example :
    (handle (in_memory_service as_inserted) (post_reservation (complete request)) 50 after).0.status
    ≡ status_of (
        reserve_error
          (stock_in sku after.repo.products)
          (sold sku after.repo.reservations + kept sku 50 after.repo.reservations))
reserve_status_example =
    reserve_status as_inserted request 50 after 12 (omega arith) after-IsSound sku_valid dan_valid

no_internal_error_example :
    (handle (in_memory_service as_inserted) (post_confirm first_id) 20 held_once).0.status ≢ 500
no_internal_error_example =
    no_internal_error as_inserted (post_confirm first_id) 20 held_once 3 (omega arith)
      held_once-IsSound
