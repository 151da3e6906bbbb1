-- ===== src/Examples/Metrics.antt =====
-- The theorems on the metrics and on the sweeper that reports to them, at concrete requests and ticks.

use inventory_reservation_sy.Base.{
  ℕ, ◌+◌, ◌*◌, ◌%◌, ◌≤◌, ◌≡◌, leb, List, [], ◌∷◌, length, map, sum_of, select, if◌then◌else◌, refl,
  arith,
}
use inventory_reservation_sy.Base.Text.{codes, decimal, digits, text_eq}
use inventory_reservation_sy.Base.Int64.{word}
use inventory_reservation_sy.Base.Time.{Duration, pos, negsuc, minute}
use inventory_reservation_sy.Infrastructure.InMemory.{
  in_memory, get_product, active_reservations_by_product, append_event, add_product,
  all_active_reservations, get_reservation, save_reservation, update_product, update_reservation,
}
use inventory_reservation_sy.Http.Handler.{post_cancel}
use inventory_reservation_sy.Http.Metrics.{
  Float64, MetricKey, Observation, new_metrics, or_fresh, find_stats, record_all,
}
use inventory_reservation_sy.Http.Metrics.Tally.{
  tally, requests_of, Rising, RisingTo, stats_tally, buckets_cumulative,
}
use inventory_reservation_sy.Http.Metrics.Render.{render}
use inventory_reservation_sy.Http.Metrics.Order.{render_same}
use inventory_reservation_sy.Http.Metrics.Routes.{
  to_service, route_label, method_of, path_of, pattern_of, is_service_call, route_label-pattern,
}
use inventory_reservation_sy.Server.Sweeper.{
  Beat, tick_of, run_expiry_sweeper, due_at_ticks, sweeper_metrics,
}
use inventory_reservation_sy.Examples.Scenario.{
  as_inserted, last_first, sku, seeds, two_minutes, first_call, fresh, seeds-FitsInt,
}
use inventory_reservation_sy.Application.History.{reserve, run, perform, start, add_seeds}
use inventory_reservation_sy.Application.State.{mark_expired, release_hold, add_hold, format_id}
use inventory_reservation_sy.Application.Service.{
  reserve_item, reserve_checked, expire_for_product_locked, expire_stale, grant,
  expire_reservation_locked,
}
use inventory_reservation_sy.Application.Sweep.{
  add_to_group, expire_group, expire_groups, expire_reservations, group_due,
}
use inventory_reservation_sy.Domain.Inventory.{available_stock}
use inventory_reservation_sy.Base.Map.{lookup, insert, values}

-- Seconds as whole nanoseconds.
abbrev nanos : Duration → ℕ
nanos (pos n) = n
nanos (negsuc n) = 0

abbrev in_nanos : Float64 ℕ
in_nanos = record {
  zero_seconds = 0;
  plus = λ a b. a + b;
  at_most = λ a b. leb a b;
  thousandths = λ n. n * 1_000_000;
  seconds = λ d. nanos d;
  format_float = λ x. decimal x;
  nine_decimals = λ x. decimal x;
}

abbrev request_of : ℕ → ℕ → Observation
request_of status millis = record {
  method = codes "POST";
  route = codes "/reservations";
  status = status;
  duration = pos (millis * 1_000_000);
}

abbrev requests : List Observation
requests = request_of 500 30 ∷ request_of 201 7 ∷ request_of 201 4 ∷ []

abbrev created : MetricKey
created = record { method = codes "POST"; route = codes "/reservations"; status = codes "201" }

stats_tally_example :
    let m = record_all in_nanos requests in
    or_fresh in_nanos m.boundaries (find_stats created m.stats)
    ≡ tally in_nanos m.boundaries (requests_of in_nanos created requests)
stats_tally_example = stats_tally in_nanos requests created (omega arith)

default-Rising : Rising in_nanos (new_metrics in_nanos).boundaries
default-Rising = (
  λ x h. ground arith,
  (
    λ x h. ground arith,
    (
      λ x h. ground arith,
      (
        λ x h. ground arith,
        (
          λ x h. ground arith,
          (
            λ x h. ground arith,
            (λ x h. ground arith, (λ x h. ground arith, (λ x h. ground arith, tt))),
          ),
        ),
      ),
    ),
  ),
)

buckets_cumulative_example :
    let m = record_all in_nanos requests in
    let stats = or_fresh in_nanos m.boundaries (find_stats created m.stats) in
    RisingTo in_nanos stats.count stats.buckets × (stats.errors ≤ stats.count)
buckets_cumulative_example =
    buckets_cumulative in_nanos requests created (omega arith) default-Rising

render_same_example :
    render in_nanos as_inserted (record_all in_nanos requests)
    ≡ render in_nanos last_first (record_all in_nanos requests)
render_same_example = render_same in_nanos as_inserted last_first (record_all in_nanos requests)

route_label-pattern_example :
    let r = to_service (post_cancel (codes "res-1")) in
    route_label (method_of r) (path_of r)
    ≡ (if is_service_call r then pattern_of r else codes "unknown")
route_label-pattern_example = route_label-pattern (to_service (post_cancel (codes "res-1")))

-- A hold is taken before the first tick, and runs out before the second; a second unit is sold.
abbrev beats : List Beat
beats =
    record { calls = first_call; groups = as_inserted; now = minute }
    ∷ record {
      calls = reserve as_inserted sku (codes "ben") minute ∷ [];
      groups = as_inserted;
      now = 2 * minute + 20;
    }
    ∷ []

one_due : due_at_ticks as_inserted (map tick_of beats) fresh ≡ 1
unfolding due_at_ticks sum_of values run perform reserve_item reserve_checked get_product lookup
    expire_for_product_locked expire_stale active_reservations_by_product select start insert
    text_eq available_stock grant add_seeds append_event expire_reservation_locked mark_expired
    release_hold format_id decimal digits add_to_group expire_group expire_groups
    expire_reservations group_due add_product all_active_reservations get_reservation
    save_reservation update_product update_reservation add_hold
one_due = refl

sweeper_metrics_example :
    let ticks = map tick_of beats in
    let m = (run_expiry_sweeper (in_memory as_inserted) ticks (fresh, new_metrics in_nanos)).1 in
    (m.expiry_sweeps ≡ length ticks % word)
    × (m.expired_reservations ≡ due_at_ticks as_inserted ticks fresh % word)
unfolding sum_of
sweeper_metrics_example =
    sweeper_metrics as_inserted in_nanos seeds two_minutes beats seeds-FitsInt (omega arith)
