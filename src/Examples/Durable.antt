-- ===== src/Examples/Durable.antt =====
-- The theorems on the service over PostgreSQL, at concrete tables and calls.
use inventory_reservation_sy.Base.{
  ◌+◌, ◌-◌, ◌*◌, ◌%◌, ◌≡◌, refl, ap, ◌∙◌, false, true, List, [], ◌∷◌, Option, none, some, select,
  ◌≢◌, arith,
}
use inventory_reservation_sy.Base.Text.{Text, codes, text_eq, eq_iff, decimal}
use inventory_reservation_sy.Base.Int64.{is_nonpositive}
use inventory_reservation_sy.Base.Time.{Time, minute}
use inventory_reservation_sy.Base.Map.{insert, lookup, values}
use inventory_reservation_sy.Domain.Inventory.{ProductInventory, available_stock}
use inventory_reservation_sy.Domain.Reservation.{active, cancelled, Reservation}
use inventory_reservation_sy.Domain.Errors.{Error, other, ok, err, err_reservation_not_found}
use inventory_reservation_sy.Infrastructure.Tables.{
  has_event, Tables, no_rows, reservation_checks, item_checks,
}
use inventory_reservation_sy.Infrastructure.Postgres.{
  append_event, update_product, run_update_item, run_insert_event, run_update_reservation,
  update_reservation, get_reservation, Statement, commit, select_active, select_active_of,
  upsert_reservation, Driver, undisturbed, postgres, set_state, as_row,
  active_reservations_by_product, get_product,
}
use inventory_reservation_sy.Application.State.{
  Service, set_repo, add_hold, mark_expired, release_hold, sell_hold, mark_confirmed,
  new_reservation_service, format_id,
}
use inventory_reservation_sy.Application.Service.{
  reserve_item, reserve_checked, grant, expire_for_product_locked, expire_stale,
  expire_reservation_locked, confirm_reservation, confirm_locked, confirm_active,
  cancel_reservation, find_reservation,
}
use inventory_reservation_sy.Application.Sweep.{expire_reservations}
use inventory_reservation_sy.Infrastructure.InMemory
use inventory_reservation_sy.Application.Effects.{new_reservation}
use inventory_reservation_sy.Application.History.{
  Call, reserve, confirm, sweep, perform, run, add_seeds, start,
}
use inventory_reservation_sy.Application.Durable.{over}
use inventory_reservation_sy.Application.Durable.History.{run_stored, start_stored, durable_refines}
use inventory_reservation_sy.Application.Durable.Faults.{refused_save}
use inventory_reservation_sy.Application.Durable.Restart.{reused_id}
use inventory_reservation_sy.Application.Durable.Reseeded.{IsReset, reseeded}
use inventory_reservation_sy.Application.Durable.Replicas.{two_holds_one_unit}
use inventory_reservation_sy.Application.Durable.Ended.{IsNamed, HandsStored, ended_stays}
use inventory_reservation_sy.Examples.Scenario.{as_inserted, sku, seeds, first_id, two_minutes}

-- A column keeps microseconds.
abbrev to_micros : Time → Time
to_micros t = t - t % 1_000

abbrev violated : Statement → Error
violated st = other (codes "check violation")

abbrev stored_calls : List Call
stored_calls =
    reserve as_inserted sku (codes "ann") 10_000
    ∷ confirm as_inserted first_id 20_000
    ∷ reserve as_inserted sku (codes "ben") 30_000
    ∷ reserve as_inserted sku (codes "cy") 40_000
    ∷ sweep as_inserted as_inserted (40_000 + 2 * minute)
    ∷ []

durable_refines_example :
    run_stored violated to_micros stored_calls
      (start_stored violated to_micros as_inserted seeds two_minutes no_rows)
    ≡ over (run stored_calls (start seeds two_minutes))
unfolding start
durable_refines_example =
    durable_refines violated to_micros as_inserted seeds two_minutes stored_calls (omega arith, tt)
      (omega arith)
      ((refl, refl, refl), (refl, ((refl, refl, refl), ((refl, refl, refl), (refl, tt)))))

abbrev last_unit : ProductInventory
last_unit = record {
  product_id = sku;
  total_stock = 1;
  confirmed_count = 0;
  active_reservation_count = 0;
}

abbrev one_item : Tables
one_item = record no_rows { inventory_items = (sku, last_unit) ∷ [] }

abbrev refusal : Statement → Option Error
refusal (upsert_reservation r) = some (other (codes "disk full"))
refusal _ = none

-- The database takes everything but new reservations.
abbrev full_disk : Driver
full_disk = record (undisturbed as_inserted violated to_micros) { refuses = λ st t. refusal st }

abbrev begun : Service Tables
begun = new_reservation_service one_item two_minutes

nothing_active : active_reservations_by_product full_disk sku one_item ≡ []
unfolding active_reservations_by_product values select
nothing_active = refl

item_read : get_product full_disk sku one_item ≡ some last_unit
unfolding get_product lookup text_eq
item_read = refl

item_left : is_nonpositive (available_stock last_unit) ≡ false
unfolding available_stock
item_left = refl

unused_id :
    lookup (new_reservation sku (codes "ann") 10_000 begun).reservation_id one_item.reservations
    ≡ none
unfolding lookup
unused_id = refl

refused_save_example :
    let (result, s') = reserve_item (postgres full_disk) sku (codes "ann") 10_000 begun in
    (result ≡ ok (new_reservation sku (codes "ann") 10_000 begun))
    × ((later_driver : Driver) (later : Time)
        → (confirm_reservation
            (postgres later_driver)
            (new_reservation sku (codes "ann") 10_000 begun).reservation_id
            later
            s').0
          ≡ err err_reservation_not_found)
refused_save_example =
    refused_save full_disk sku (codes "ann") 10_000 begun last_unit (other (codes "disk full"))
      nothing_active item_read item_left refl refl unused_id

-- An earlier process has left a cancelled reservation of another product.
abbrev old_row : Reservation
old_row = record {
  reservation_id = first_id;
  product_id = codes "sku-0";
  user_id = codes "zoe";
  state = cancelled;
  created_at = 1_000;
  expires_at = 9_000;
  confirmed_at = none;
  cancelled_at = some 2_000;
  expired_at = none;
}

abbrev left_behind : Tables
left_behind = record one_item {
  inventory_items =
      (codes "sku-0", record last_unit { product_id = codes "sku-0" }) ∷ (sku, last_unit) ∷ [];
  reservations = (first_id, old_row) ∷ [];
}

abbrev restarted : Service Tables
restarted = new_reservation_service left_behind two_minutes

row_left : lookup first_id left_behind.reservations ≡ some old_row
unfolding lookup format_id decimal text_eq
row_left = refl

none_active :
    active_reservations_by_product (undisturbed as_inserted violated to_micros) sku left_behind ≡ []
unfolding active_reservations_by_product values select text_eq
none_active = refl

row_read : lookup sku left_behind.inventory_items ≡ some last_unit
unfolding lookup text_eq
row_read = refl

new_row_fine :
    reservation_checks (as_row to_micros (new_reservation sku (codes "ann") 10_000 restarted))
    ≡ true
unfolding reservation_checks
new_row_fine = refl

set_row_fine :
    reservation_checks
      (set_state (as_row to_micros (new_reservation sku (codes "ann") 10_000 restarted)) old_row)
    ≡ true
unfolding reservation_checks
set_row_fine = refl

reused_id_example :
    let d = undisturbed as_inserted violated to_micros in
    let new = new_reservation sku (codes "ann") 10_000 restarted in
    let (result, s') = reserve_item (postgres d) sku (codes "ann") 10_000 restarted in
    (result ≡ ok new)
    × (find_reservation (postgres d) first_id s' ≡ some (set_state (as_row to_micros new) old_row))
reused_id_example =
    reused_id violated to_micros as_inserted two_minutes sku (codes "ann") 10_000 left_behind
      old_row last_unit row_left refl none_active row_read item_left new_row_fine set_row_fine

-- One of two units is sold, and the server is started again.
abbrev sold_calls : List Call
sold_calls = reserve as_inserted sku (codes "ann") 10_000 ∷ confirm as_inserted first_id 20_000 ∷ []

abbrev one_sold : ProductInventory
one_sold = record {
  product_id = sku;
  total_stock = 2;
  confirmed_count = 1;
  active_reservation_count = 0;
}

sold_in_memory : lookup sku (run sold_calls (start seeds two_minutes)).repo.products ≡ some one_sold
unfolding lookup run perform reserve_item reserve_checked expire_for_product_locked expire_stale
    InMemory.active_reservations_by_product select start add_seeds confirm_reservation
    confirm_locked confirm_active InMemory.handed_reservation InMemory.get_reservation grant insert
    values text_eq available_stock InMemory.append_event InMemory.update_product
    InMemory.save_reservation format_id decimal InMemory.update_reservation mark_confirmed sell_hold
    add_hold InMemory.get_product
sold_in_memory = refl

sold_stored :
    lookup sku
      (run_stored violated to_micros sold_calls (
        start_stored violated to_micros as_inserted seeds two_minutes no_rows)).repo.inventory_items
    ≡ some one_sold
unfolding start
sold_stored =
    ap (λ s. lookup sku s.repo.inventory_items)
      (durable_refines violated to_micros as_inserted seeds two_minutes sold_calls (omega arith, tt)
        (omega arith) ((refl, refl, refl), (refl, tt)))
    ∙ sold_in_memory

reseeded_example :
    let begin_on = start_stored violated to_micros as_inserted seeds two_minutes in
    let t = (run_stored violated to_micros sold_calls (begin_on no_rows)).repo in
    IsReset violated to_micros as_inserted sku one_sold t (begin_on t)
unfolding start
reseeded_example =
    reseeded violated to_micros as_inserted seeds two_minutes sold_calls sku one_sold
      (omega arith, tt) (omega arith) ((refl, refl, refl), (refl, tt)) sold_stored (omega arith)

-- The other process has drawn seven ids already.
abbrev other_process : Service Tables
other_process = record begun { id_counter = 7 }

ids_differ :
    (new_reservation sku (codes "ann") 10_000 begun).reservation_id
    ≢ (new_reservation sku (codes "ben") 20_000 other_process).reservation_id
unfolding format_id decimal
ids_differ = ground arith

other_unused :
    lookup
      (new_reservation sku (codes "ben") 20_000 other_process).reservation_id
      one_item.reservations
    ≡ none
unfolding lookup
other_unused = refl

item_known : lookup sku one_item.inventory_items ≡ some last_unit
unfolding lookup text_eq
item_known = refl

item_fine : item_checks last_unit ≡ true
unfolding item_checks
item_fine = refl

first_row_fine :
    reservation_checks (as_row to_micros (new_reservation sku (codes "ann") 10_000 begun)) ≡ true
unfolding reservation_checks
first_row_fine = refl

other_row_fine :
    reservation_checks (as_row to_micros (new_reservation sku (codes "ben") 20_000 other_process))
    ≡ true
unfolding reservation_checks
other_row_fine = refl

two_holds_one_unit_example :
    let d = undisturbed as_inserted violated to_micros in
    let hold_a = new_reservation sku (codes "ann") 10_000 begun in
    let hold_b = new_reservation sku (codes "ben") 20_000 other_process in
    let (answer_a, a') =
      reserve_checked (postgres d) sku (codes "ann") 10_000 (some last_unit) begun in
    let (answer_b, b') =
      reserve_checked
        (postgres d)
        sku
        (codes "ben")
        20_000
        (some last_unit)
        (set_repo a'.repo other_process) in
    (answer_a ≡ ok hold_a)
    × (answer_b ≡ ok hold_b)
    × (lookup hold_a.reservation_id b'.repo.reservations ≡ some (as_row to_micros hold_a))
    × (lookup hold_b.reservation_id b'.repo.reservations ≡ some (as_row to_micros hold_b))
    × (lookup sku b'.repo.inventory_items ≡ some (add_hold last_unit))
two_holds_one_unit_example =
    two_holds_one_unit violated to_micros as_inserted last_unit (codes "ann") (codes "ben") 10_000
      20_000 begun other_process item_fine refl item_known ids_differ unused_id other_unused
      first_row_fine other_row_fine

-- Next to the cancelled reservation there is an active one.
abbrev second_id : Text
second_id = codes "res-2"

abbrev held_row : Reservation
held_row = record old_row { reservation_id = second_id; state = active; cancelled_at = none }

abbrev two_rows : Tables
two_rows = record left_behind { reservations = (first_id, old_row) ∷ (second_id, held_row) ∷ [] }

abbrev lost_answer : Statement → Option Error
lost_answer commit = some (other (codes "connection reset"))
lost_answer _ = none

-- Commits are carried out, but their answers do not arrive.
abbrev unanswered : Driver
unanswered = record (undisturbed as_inserted violated to_micros) {
  refuses = λ st t. lost_answer st;
  applied = λ st t. true;
}

two_rows-IsNamed : IsNamed two_rows
unfolding lookup
two_rows-IsNamed k x h = ground (arith, eq_iff first_id k, eq_iff second_id k)

two_rows-HandsStored : HandsStored unanswered select_active two_rows
unfolding lookup values format_id decimal text_eq
two_rows-HandsStored = (refl, (refl, tt))

cancelled_there : lookup first_id two_rows.reservations ≡ some old_row
unfolding lookup format_id decimal text_eq
cancelled_there = refl

two_rows-HandsStored_of : HandsStored unanswered (select_active_of (codes "sku-0")) two_rows
unfolding lookup values format_id decimal text_eq
two_rows-HandsStored_of = (refl, (refl, tt))

-- An hour later, by a process that has drawn two ids already.
abbrev an_hour : Time
an_hour = 60 * minute

abbrev over_two_rows : Service Tables
over_two_rows = record (new_reservation_service two_rows two_minutes) { id_counter = 2 }

third_id :
    (new_reservation (codes "sku-0") (codes "ann") an_hour (
      expire_for_product_locked
        (postgres unanswered)
        (codes "sku-0")
        an_hour
        over_two_rows)).reservation_id
    ≢ first_id
unfolding expire_for_product_locked expire_stale active_reservations_by_product values select
    text_eq expire_reservation_locked append_event get_reservation update_reservation update_product
    get_product lookup insert run_update_item run_update_reservation run_insert_event item_checks
    reservation_checks has_event mark_expired release_hold format_id decimal
third_id = ground arith

ended_stays_example :
    (lookup first_id
        (reserve_item
          (postgres unanswered)
          (codes "sku-0")
          (codes "ann")
          an_hour
          over_two_rows).1.repo.reservations
      ≡ some old_row)
    × (lookup first_id
          (confirm_reservation
            (postgres unanswered)
            first_id
            an_hour
            over_two_rows).1.repo.reservations
        ≡ some old_row)
    × (lookup first_id
          (cancel_reservation
            (postgres unanswered)
            first_id
            an_hour
            over_two_rows).1.repo.reservations
        ≡ some old_row)
    × (lookup first_id
          (expire_reservations
            (postgres unanswered)
            as_inserted
            an_hour
            over_two_rows).1.repo.reservations
        ≡ some old_row)
ended_stays_example =
    ended_stays unanswered over_two_rows first_id old_row (codes "sku-0") (codes "ann") first_id
      an_hour as_inserted two_rows-IsNamed two_rows-HandsStored two_rows-HandsStored_of
      cancelled_there refl third_id
