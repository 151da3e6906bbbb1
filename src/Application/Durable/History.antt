-- ===== src/Application/Durable/History.antt =====
-- Whole histories of the service over PostgreSQL: cmd/server/main.go with DATABASE_URL set and an empty
-- database, and the calls of internal/application/reservation_service.go in the order of their locks.
use inventory_reservation_sy.Base.{
  ℕ, ◌+◌, ◌*◌, ◌<◌, ◌≡◌, refl, true, List, [], ◌∷◌, some, All, length, arith, inl, inr,
}
use inventory_reservation_sy.Base.Text.{Text}
use inventory_reservation_sy.Base.Int64.{word}
use inventory_reservation_sy.Base.Time.{Time, Duration, before, add_time}
use inventory_reservation_sy.Base.Map.{MapOrder, lookup, insert-cases}
use inventory_reservation_sy.Domain.Inventory.{ProductInventory}
use inventory_reservation_sy.Domain.Reservation.{Reservation}
use inventory_reservation_sy.Domain.Errors.{Error}
use inventory_reservation_sy.Infrastructure.InMemory
use inventory_reservation_sy.Infrastructure.InMemory.{InMemoryRepository, new_in_memory_repository}
use inventory_reservation_sy.Infrastructure.Tables.{Tables, no_rows, integer_limit, item_checks}
use inventory_reservation_sy.Infrastructure.Postgres.{Statement, undisturbed, postgres, add_product}
use inventory_reservation_sy.Infrastructure.Postgres.Stored.{stored, add_product-stored}
use inventory_reservation_sy.Application.State.{Service, new_reservation_service}
use inventory_reservation_sy.Application.Service.{
  reserve_item, confirm_reservation, cancel_reservation,
}
use inventory_reservation_sy.Application.Sweep.{expire_reservations}
use inventory_reservation_sy.Application.Invariant.{IsSound}
use inventory_reservation_sy.Application.History.{
  Call, reserve, confirm, cancel, sweep, perform, run, seeded_product, add_seeds, start,
}
use inventory_reservation_sy.Application.History.Stock.{
  FitsInt, perform-IsSound, start-IsSound, reservations-add_seeds,
}
use inventory_reservation_sy.Application.History.Refinement.{events-add_seeds}
use inventory_reservation_sy.Application.Durable.{over, IsStorable}
use inventory_reservation_sy.Application.Durable.Calls.{Mirrors}
use inventory_reservation_sy.Application.Durable.Reserving.{reserve_item-MirrorsCall}
use inventory_reservation_sy.Application.Durable.Finals.{
  confirm_reservation-MirrorsCall, cancel_reservation-MirrorsCall, expire_reservations-MirrorsCall,
}

-- The time of a call fits the columns; a new hold lasts some time, and its end fits them.
abbrev pub IsTimely : (Time → Time) → Duration → Call → Type 0
IsTimely to_column hold_for (reserve order k user_id now) =
    (to_column now ≡ now)
    × (before now (add_time now hold_for) ≡ true)
    × (to_column (add_time now hold_for) ≡ add_time now hold_for)
IsTimely to_column hold_for (confirm order id now) = to_column now ≡ now
IsTimely to_column hold_for (cancel order id now) = to_column now ≡ now
IsTimely to_column hold_for (sweep order groups now) = to_column now ≡ now

abbrev pub FitsColumn : Text × ℕ → Type 0
FitsColumn (id, stock) = stock < integer_limit

pub fits_int : (seeds : List (Text × ℕ)) → All FitsColumn seeds → All FitsInt seeds
fits_int [] w = tt
fits_int ((id, stock) ∷ seeds) w = (omega (arith, w.0), fits_int seeds w.1)

pub seeded_checks :
    (id : Text) (stock : ℕ) → stock < integer_limit → item_checks (seeded_product id stock) ≡ true
unfolding item_checks
seeded_checks id stock w = ground arith

seeds_small :
    (seeds : List (Text × ℕ)) (m : InMemoryRepository)
    → All FitsColumn seeds
    → ((k : Text) (p : ProductInventory)
        → lookup k m.products ≡ some p
        → p.total_stock < integer_limit)
    → (k : Text) (p : ProductInventory) → lookup k (add_seeds seeds m).products ≡ some p
    → p.total_stock < integer_limit
unfolding add_seeds
seeds_small [] m w small = small
seeds_small ((id, stock) ∷ seeds) m w small = seeds_small seeds _ w.1 (λ k p e.
    elim (insert-cases id k (seeded_product id stock) p m.products e) [
      | inl (same, new) ↦ rw (← new) w.0
      | inr (differ, old) ↦ small k p old
    ])

start-IsStorable :
    (to_column : Time → Time) (seeds : List (Text × ℕ)) (hold_for : Duration)
    → All FitsColumn seeds
    → IsStorable to_column (start seeds hold_for)
unfolding start lookup
start-IsStorable to_column seeds hold_for w =
    let none_kept : (add_seeds seeds new_in_memory_repository).reservations ≡ [] =
      reservations-add_seeds seeds new_in_memory_repository in
    let none_logged : (add_seeds seeds new_in_memory_repository).events ≡ [] =
      events-add_seeds seeds new_in_memory_repository in
    record {
      small = seeds_small seeds new_in_memory_repository w (λ k p e. absurd (cc));
      kept = rw none_kept (λ id r e. absurd (cc));
      timed = rw none_kept (λ id r e. absurd (cc));
      numbered = rw none_logged tt;
    }

module _ (violation : Statement → Error) (to_column : Time → Time) where
  -- The rows come in the order that the call names.
  unfoldable pub perform_stored : Call → Service Tables → Service Tables
  perform_stored (reserve order k user_id now) s =
      (reserve_item (postgres (undisturbed order violation to_column)) k user_id now s).1
  perform_stored (confirm order id now) s =
      (confirm_reservation (postgres (undisturbed order violation to_column)) id now s).1
  perform_stored (cancel order id now) s =
      (cancel_reservation (postgres (undisturbed order violation to_column)) id now s).1
  perform_stored (sweep order groups now) s =
      (expire_reservations (postgres (undisturbed order violation to_column)) groups now s).1

  unfoldable pub run_stored : List Call → Service Tables → Service Tables
  run_stored [] s = s
  run_stored (c ∷ calls) s = run_stored calls (perform_stored c s)

  perform_stored-Mirrors :
      (hold_for : Duration) (c : Call) (s : Service InMemoryRepository) (b : ℕ)
      → b + 3 < word
      → IsSound b s
      → IsStorable to_column s
      → s.hold_for ≡ hold_for
      → IsTimely to_column hold_for c
      → Mirrors to_column hold_for (perform_stored c (over s)) (perform c s)
  unfolding perform_stored perform
  perform_stored-Mirrors hold_for (reserve order k user_id now) s b few v h held w =
      (reserve_item-MirrorsCall order violation to_column hold_for now w.0 w.1 w.2 k user_id s b few
        v h held).state
  perform_stored-Mirrors hold_for (confirm order id now) s b few v h held w =
      (confirm_reservation-MirrorsCall order violation to_column hold_for now w s b (omega arith) v
        h held id).state
  perform_stored-Mirrors hold_for (cancel order id now) s b few v h held w =
      (cancel_reservation-MirrorsCall order violation to_column hold_for now w s b (omega arith) v h
        held id).state
  perform_stored-Mirrors hold_for (sweep order groups now) s b few v h held w =
      (expire_reservations-MirrorsCall order violation to_column hold_for now w groups s b
        (omega arith) v h held).state

  run_stored-Mirrors :
      (hold_for : Duration) (calls : List Call) (s : Service InMemoryRepository) (b : ℕ)
      → b + 3 * length calls < word
      → IsSound b s
      → IsStorable to_column s
      → s.hold_for ≡ hold_for
      → All (IsTimely to_column hold_for) calls
      → Mirrors to_column hold_for (run_stored calls (over s)) (run calls s)
  unfolding run_stored run
  run_stored-Mirrors hold_for [] s b few v h held w = record {
    same = refl;
    storable = h;
    holds = held;
  }
  run_stored-Mirrors hold_for (c ∷ calls) s b few v h held w =
      let m = perform_stored-Mirrors hold_for c s b (omega arith) v h held w.0 in
      rw m.same (
        run_stored-Mirrors hold_for calls (perform c s) (b + 3) (omega arith)
          (perform-IsSound c b s (omega arith) v) m.storable m.holds w.1)

  module _ (order : MapOrder Reservation) where
    -- The seed loop and the service of `main`, over the tables that the server finds.
    unfoldable pub add_stored_seeds : List (Text × ℕ) → Tables → Tables
    add_stored_seeds [] t = t
    add_stored_seeds ((id, stock) ∷ seeds) t =
        add_stored_seeds seeds
          (add_product (undisturbed order violation to_column) (seeded_product id stock) t)

    unfoldable pub start_stored : List (Text × ℕ) → Duration → Tables → Service Tables
    unfolding add_stored_seeds
    start_stored seeds hold_for t = new_reservation_service (add_stored_seeds seeds t) hold_for

    pub add_stored_seeds-stored :
        (seeds : List (Text × ℕ)) (m : InMemoryRepository)
        → All FitsColumn seeds
        → add_stored_seeds seeds (stored m) ≡ stored (add_seeds seeds m)
    unfolding add_stored_seeds add_seeds InMemory.add_product
    add_stored_seeds-stored [] m w = refl
    add_stored_seeds-stored ((id, stock) ∷ seeds) m w =
        rw
          (add_product-stored order violation to_column m (seeded_product id stock)
            (seeded_checks id stock w.0))
          (add_stored_seeds-stored seeds (InMemory.add_product (seeded_product id stock) m) w.1)

    -- From seeds that fit their columns, and calls at times that fit theirs, fewer than a third of
    -- 2 ^ 64, where a new hold ends after it begins, at a time that fits too: over an undisturbed
    -- database that starts empty, the service ends in the state that it has in memory, with the
    -- same products, reservations, events and shadow records, whatever the calls are.
    pub durable_refines :
        (seeds : List (Text × ℕ)) (hold_for : Duration) (calls : List Call)
        → All FitsColumn seeds
        → 3 * length calls < word
        → All (IsTimely to_column (start seeds hold_for).hold_for) calls
        → run_stored calls (start_stored seeds hold_for no_rows)
          ≡ over (run calls (start seeds hold_for))
    unfolding start_stored start
    durable_refines seeds hold_for calls fits few timely =
        let begun : add_stored_seeds seeds no_rows
            ≡ stored (add_seeds seeds new_in_memory_repository) =
          add_stored_seeds-stored seeds new_in_memory_repository fits in
        rw begun
          (run_stored-Mirrors (start seeds hold_for).hold_for calls (start seeds hold_for) 0
            (omega arith) (start-IsSound seeds hold_for (fits_int seeds fits))
            (start-IsStorable to_column seeds hold_for fits) refl timely).same
