-- ===== src/Demo.antt =====
-- cmd/contention-demo/main.go: many goroutines try to reserve one product. Their calls take the
-- product's lock one after the other, so a run is a list of attempts in that order, each with the time
-- that its clock reads and the order in which it visits the reservations. The counters are atomic. The
-- line that is printed is left out.
pub mod Selling
pub mod Contention
use inventory_reservation_sy.Base.{
  ℕ, ◌+◌, ◌-◌, ◌*◌, ◌==◌, if◌then◌else◌, leb, not, ◌&&◌, ◌||◌, List, [], ◌∷◌, length,
}
use inventory_reservation_sy.Base.Text.{Text, codes}
use inventory_reservation_sy.Base.Int64.{is_nonpositive, is_negative}
use inventory_reservation_sy.Base.Map.{MapOrder}
use inventory_reservation_sy.Base.Time.{Time, Duration, pos, minute}
use inventory_reservation_sy.Domain.Inventory.{ProductInventory}
use inventory_reservation_sy.Domain.Reservation.{Reservation}
use inventory_reservation_sy.Domain.Errors.{Error, err_out_of_stock, Result, ok, err}
use inventory_reservation_sy.Infrastructure.InMemory.{
  InMemoryRepository, new_in_memory_repository, in_memory, add_product,
}
use inventory_reservation_sy.Application.State.{Service, new_reservation_service}
use inventory_reservation_sy.Application.Service.{reserve_item, get_available_stock}

pub record Attempt : Type 0 where
  pub order : MapOrder Reservation
  pub user_id : Text
  pub at : Time

pub record Tally : Type 0 where
  pub successes : ℕ
  pub out_of_stock : ℕ
  pub other_errors : ℕ

unfoldable pub tally_result : Result Reservation → Tally → Tally
tally_result (ok _) t = record t { successes = t.successes + 1 }
tally_result (err err_out_of_stock) t = record t { out_of_stock = t.out_of_stock + 1 }
tally_result (err _) t = record t { other_errors = t.other_errors + 1 }

abbrev pub sku_hot : Text
sku_hot = codes "sku-hot"

unfoldable pub attempt_all :
    List Attempt → Tally → Service InMemoryRepository → Tally × Service InMemoryRepository
attempt_all [] t s = (t, s)
attempt_all (a ∷ rest) t s =
    let (result, s') = reserve_item (in_memory a.order) sku_hot a.user_id a.at s in
    attempt_all rest (tally_result result t) s'

abbrev pub hot_product : ℕ → ProductInventory
hot_product stock = record {
  product_id = sku_hot;
  total_stock = stock;
  confirmed_count = 0;
  active_reservation_count = 0;
}

unfoldable pub demo_service : ℕ → Service InMemoryRepository
unfolding add_product
demo_service stock =
    new_reservation_service (add_product (hot_product stock) new_in_memory_repository)
      (pos (2 * minute))

-- What `run` returns: nil, or one of its three errors.
pub data Outcome : Type 0 where
  passed bad_arguments invariant_failed : Outcome
  no_product : Error → Outcome

-- The last test of `run`, on counters and stock.
unfoldable pub check_tally : ℕ → ℕ → Tally → Result ℕ → Outcome
check_tally requests stock t (err e) = no_product e
check_tally requests stock t (ok available) =
    if not (t.successes == stock)
      || (not (t.out_of_stock == requests - stock)
          || (not (t.other_errors == 0) || not (available == 0)))
    then invariant_failed
    else passed

-- `requests` is the number of attempts; both arguments are patterns of Go's `int`. The test on
-- `requests <= stock` is reached only when neither is negative, as is the difference.
unfoldable pub demo_run : MapOrder Reservation → ℕ → List Attempt → Outcome
demo_run order stock attempts =
    if is_nonpositive (length attempts) || (is_negative stock || leb (length attempts) stock)
    then bad_arguments
    else let (t, s) =
        attempt_all attempts (record { successes = 0; out_of_stock = 0; other_errors = 0 })
          (demo_service stock) in
      check_tally (length attempts) stock t (get_available_stock (in_memory order) sku_hot s)
