-- ===== src/Examples/Calls.antt =====
-- The theorems on the service's calls, at the states of the scenario.
use inventory_reservation_sy.Base.{
  ◌+◌, ◌-◌, ◌*◌, ◌≤◌, ◌≡◌, List, [], ◌∷◌, ◌++◌, map, select, All, arith,
}
use inventory_reservation_sy.Base.Text.{Text, codes, text_eq}
use inventory_reservation_sy.Base.Time.{minute}
use inventory_reservation_sy.Domain.Event.{InventoryEvent}
use inventory_reservation_sy.Domain.Errors.{ok}
use inventory_reservation_sy.Infrastructure.InMemory.{in_memory}
use inventory_reservation_sy.Application.Service.{
  get_available_stock, reserve_item, confirm_reservation, cancel_reservation,
}
use inventory_reservation_sy.Application.Sweep.{expire_reservations}
use inventory_reservation_sy.Application.Invariant.{held, sold, IsSound}
use inventory_reservation_sy.Application.Moves.{Moves}
use inventory_reservation_sy.Application.Moves.Lifecycle.{Follows, stock_in}
use inventory_reservation_sy.Application.Moves.Audit.{opens, closes, sells, logged}
use inventory_reservation_sy.Application.Outcomes.Reserve.{
  error_of, kept, reserve_error, reserve_outcome,
}
use inventory_reservation_sy.Application.Outcomes.Settle.{
  confirm_row, cancel_row, by_state, confirm_table, cancel_table,
}
use inventory_reservation_sy.Application.Sweep.Due.{due_total}
use inventory_reservation_sy.Application.Sweep.Totals.{sweep_complete}
use inventory_reservation_sy.Application.Sweep.Reference.{settled, sweep_reference, sweep_any_order}
use inventory_reservation_sy.Application.Moves.Records.{IsCoherent, concerns_reservation}
use inventory_reservation_sy.Base.Entries.{map_values}
use inventory_reservation_sy.Base.Map.{lookup}
use inventory_reservation_sy.Application.History.{Call, cancel, sweep, run}
use inventory_reservation_sy.Application.History.Stock.{never_oversold, run-IsSound}
use inventory_reservation_sy.Application.History.Refinement.{
  shadow_follows_log, run-Moves, lifecycle, stock_and_log, log_gives_counters,
}
use inventory_reservation_sy.Examples.Scenario.{
  as_inserted, last_first, sku, seeds, first_id, two_minutes, calls, fresh, held_once, after,
  seeds-FitsInt, fresh-IsSound, held_once-IsSound, after-IsSound, half_sold, after_product,
  first_hold, first_stored,
}

never_oversold_example :
    (sold sku after.repo.reservations + held sku after.repo.reservations ≤ 2)
    × (get_available_stock (in_memory as_inserted) sku after
        ≡ ok (2 - (sold sku after.repo.reservations + held sku after.repo.reservations)))
never_oversold_example =
    never_oversold seeds two_minutes calls seeds-FitsInt (omega arith) as_inserted sku half_sold
      after_product

run-IsSound_example : IsSound 12 after
run-IsSound_example = run-IsSound calls 0 fresh (omega arith) fresh-IsSound

run-Moves_example : Moves fresh after
run-Moves_example = run-Moves calls 0 fresh (omega arith) fresh-IsSound

-- The first hold is cancelled, then cancelled again, and then the sweep runs.
abbrev later_calls : List Call
later_calls =
    cancel as_inserted first_id 20
    ∷ cancel as_inserted first_id 30
    ∷ sweep as_inserted as_inserted (10 + 2 * minute)
    ∷ []

lifecycle_example : Follows first_id first_hold (run later_calls held_once).repo.reservations
lifecycle_example =
    lifecycle later_calls 3 held_once (omega arith) held_once-IsSound first_id first_hold
      first_stored

stock_and_log_example :
    ((k : Text) → stock_in k after.repo.products ≡ stock_in k fresh.repo.products)
    × ((es : List InventoryEvent) × (after.repo.events ≡ fresh.repo.events ++ es))
stock_and_log_example = stock_and_log calls 0 fresh (omega arith) fresh-IsSound

log_gives_counters_example :
    (1 + logged closes sku after.repo.events ≡ logged opens sku after.repo.events)
    × (1 ≡ logged sells sku after.repo.events)
log_gives_counters_example =
    log_gives_counters seeds two_minutes calls seeds-FitsInt (omega arith) sku half_sold
      after_product

-- The hold has run out when the sweep comes.
sweep_complete_example :
    let t = expire_reservations (in_memory as_inserted) as_inserted (10 + 2 * minute) held_once in
    (t.0 ≡ due_total (10 + 2 * minute) held_once.repo.reservations)
    × (due_total (10 + 2 * minute) t.1.repo.reservations ≡ 0)
    × ((expire_reservations (in_memory as_inserted) as_inserted (10 + 2 * minute) t.1).0 ≡ 0)
sweep_complete_example =
    sweep_complete as_inserted as_inserted as_inserted as_inserted (10 + 2 * minute) held_once 3
      (omega arith) held_once-IsSound

-- The stock is out.
reserve_outcome_example :
    error_of (reserve_item (in_memory as_inserted) sku (codes "dan") 50 after).0
    ≡ reserve_error
        (stock_in sku after.repo.products)
        (sold sku after.repo.reservations + kept sku 50 after.repo.reservations)
reserve_outcome_example =
    reserve_outcome as_inserted sku (codes "dan") 50 after 12 (omega arith) after-IsSound

confirm_table_example :
    confirm_reservation (in_memory as_inserted) first_id 20 held_once
    ≡ by_state confirm_row first_id 20 held_once
confirm_table_example = confirm_table as_inserted first_id 20 held_once held_once-IsSound.valid

cancel_table_example :
    cancel_reservation (in_memory as_inserted) first_id 20 held_once
    ≡ by_state cancel_row first_id 20 held_once
cancel_table_example = cancel_table as_inserted first_id 20 held_once held_once-IsSound.valid

shadow_follows_log_example :
    ((k : Text)
      → select (λ e. text_eq k e.product_id) (map (λ r. r.event) after.shadow_recorder)
        ≡ select
            (λ e. text_eq k e.product_id)
            (select (λ e. concerns_reservation e.kind) after.repo.events))
    × All IsCoherent after.shadow_recorder
shadow_follows_log_example = shadow_follows_log seeds two_minutes calls seeds-FitsInt (omega arith)

sweep_reference_example :
    (expire_reservations
      (in_memory as_inserted)
      as_inserted
      (10 + 2 * minute)
      held_once).1.repo.reservations
    ≡ map_values (settled (10 + 2 * minute)) held_once.repo.reservations
sweep_reference_example =
    sweep_reference as_inserted as_inserted (10 + 2 * minute) held_once 3 (omega arith)
      held_once-IsSound

sweep_any_order_example :
    let (n, t) =
      expire_reservations (in_memory as_inserted) as_inserted (10 + 2 * minute) held_once in
    let (n', t') =
      expire_reservations (in_memory last_first) last_first (10 + 2 * minute) held_once in
    (n ≡ n')
    × (t.repo.reservations ≡ t'.repo.reservations)
    × ((k : Text) → lookup k t.repo.products ≡ lookup k t'.repo.products)
sweep_any_order_example =
    sweep_any_order as_inserted last_first as_inserted last_first (10 + 2 * minute) held_once 3
      (omega arith) held_once-IsSound
