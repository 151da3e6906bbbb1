-- ===== src/Application/History/Stock.antt =====
-- internal/application/reservation_service.go, histories of calls from a seeded start: the counters of
-- the products.
use inventory_reservation_sy.Base.{
  ℕ, ◌+◌, ◌-◌, ◌*◌, ◌≤◌, ◌<◌, ◌≡◌, refl, ap, sum_of, List, [], ◌∷◌, some, All, length, arith, inl,
  inr,
}
use inventory_reservation_sy.Base.Text.{Text}
use inventory_reservation_sy.Base.Int64.{word, sign}
use inventory_reservation_sy.Base.Map.{Map, MapOrder, lookup, values, insert-cases}
use inventory_reservation_sy.Base.Time.{Duration}
use inventory_reservation_sy.Domain.Inventory.{ProductInventory, available_stock}
use inventory_reservation_sy.Domain.Reservation.{Reservation}
use inventory_reservation_sy.Domain.Errors.{ok}
use inventory_reservation_sy.Infrastructure.InMemory.{
  InMemoryRepository, new_in_memory_repository, in_memory, get_product,
}
use inventory_reservation_sy.Application.State.{Service}
use inventory_reservation_sy.Application.Service.{get_available_stock}
use inventory_reservation_sy.Application.Invariant.{held, sold, Agrees, IsConsistent, IsSound}
use inventory_reservation_sy.Application.Invariant.Calls.{
  IsSound-mono, reserve_item-IsSound, confirm_reservation-IsSound, cancel_reservation-IsSound,
}
use inventory_reservation_sy.Application.Sweep.Totals.{expire_reservations-Expires}
use inventory_reservation_sy.Application.History.{
  Call, reserve, confirm, cancel, sweep, perform, run, seeded_product, add_seeds, start,
}

-- One call takes at most three ids out of the budget, and keeps the invariant.
pub perform-IsSound :
    (c : Call) (b : ℕ) (s : Service InMemoryRepository)
    → b + 3 < word
    → IsSound b s
    → IsSound (b + 3) (perform c s)
unfolding perform
perform-IsSound (reserve order product_id user_id now) b s few v =
    reserve_item-IsSound order b now product_id user_id few s v
perform-IsSound (confirm order id now) b s few v =
    IsSound-mono b (b + 3) (omega arith)
      (confirm_reservation-IsSound order b now s v (omega arith) id)
perform-IsSound (cancel order id now) b s few v =
    IsSound-mono b (b + 3) (omega arith)
      (cancel_reservation-IsSound order b now s v (omega arith) id)
perform-IsSound (sweep order groups now) b s few v =
    IsSound-mono b (b + 3) (omega arith)
      (expire_reservations-Expires order groups now s b (omega arith) v).sound

-- From a sound state, after any calls for which ids last, the state is sound: product counters are the
-- numbers of active and of confirmed reservations and fit the total stock, every reservation stands under
-- its own id for a product that exists with just the timestamp of its terminal state, and no id that is
-- still to be drawn is taken.
pub run-IsSound :
    (calls : List Call) (b : ℕ) (s : Service InMemoryRepository)
    → b + 3 * length calls < word
    → IsSound b s
    → IsSound (b + 3 * length calls) (run calls s)
unfolding run
run-IsSound [] b s few v = IsSound-mono b _ (omega arith) v
run-IsSound (c ∷ calls) b s few v =
    IsSound-mono (b + 3 + 3 * length calls) _ (omega arith) (
      run-IsSound calls (b + 3) (perform c s) (omega arith) (perform-IsSound c b s (omega arith) v))

abbrev pub FitsInt : Text × ℕ → Type 0
FitsInt (id, stock) = stock < sign

no_reservations : (k : Text) (r : Reservation) → lookup k [] ≡ some r → ⊥
unfolding lookup
no_reservations k r e = cc

-- A fresh product agrees with a store that has no reservations.
seeded-Agrees : (k : Text) (stock : ℕ) → stock < sign → Agrees k (seeded_product k stock) []
unfolding values sum_of
seeded-Agrees k stock fits = record {
  named = refl;
  holds_counted = refl;
  sales_counted = refl;
  within = omega arith;
  small = fits;
}

seeds-Agrees :
    (seeds : List (Text × ℕ)) (repo : InMemoryRepository)
    → All FitsInt seeds
    → ((k : Text) (p : ProductInventory) → lookup k repo.products ≡ some p → Agrees k p [])
    → (k : Text) (p : ProductInventory) → lookup k (add_seeds seeds repo).products ≡ some p
    → Agrees k p []
unfolding add_seeds
seeds-Agrees [] repo fits a = a
seeds-Agrees ((id, stock) ∷ seeds) repo fits a = seeds-Agrees seeds _ fits.1 (λ k p e.
    elim (insert-cases id k (seeded_product id stock) p repo.products e) [
      | inl (same, new) ↦ rw (← same, ← new) (seeded-Agrees id stock fits.0)
      | inr (differ, old) ↦ a k p old
    ])

pub reservations-add_seeds :
    (seeds : List (Text × ℕ)) (repo : InMemoryRepository)
    → (add_seeds seeds repo).reservations ≡ repo.reservations
unfolding add_seeds
reservations-add_seeds [] repo = refl
reservations-add_seeds ((id, stock) ∷ seeds) repo = reservations-add_seeds seeds _

empty-IsConsistent :
    (ps : Map ProductInventory)
    → ((k : Text) (p : ProductInventory) → lookup k ps ≡ some p → Agrees k p [])
    → IsConsistent ps [] 0
unfolding lookup
empty-IsConsistent ps a = record {
  agrees = a;
  filed = λ k r e. absurd (no_reservations k r e);
  distinct = tt;
  fresh = λ m h. refl;
}

pub start-IsSound :
    (seeds : List (Text × ℕ)) (hold_for : Duration)
    → All FitsInt seeds
    → IsSound 0 (start seeds hold_for)
unfolding start values sum_of
start-IsSound seeds hold_for fits = record {
  valid = rw empty (empty-IsConsistent _ agreed);
  spent = rw empty (omega arith);
}
  where
    empty : (add_seeds seeds new_in_memory_repository).reservations ≡ []
    empty = reservations-add_seeds seeds new_in_memory_repository

    agreed :
        (k : Text) (p : ProductInventory)
        → lookup k (add_seeds seeds new_in_memory_repository).products ≡ some p
        → Agrees k p []
    agreed = seeds-Agrees seeds new_in_memory_repository fits (λ k p e. absurd (none_stored k p e))
      where
        none_stored : (k : Text) (p : ProductInventory) → lookup k [] ≡ some p → ⊥
        none_stored k p e = unfold lookup in cc

-- The stock that a client reads is what the invariant counts.
pub available_of_Agrees :
    (k : Text) (p : ProductInventory) (rs : Map Reservation)
    → Agrees k p rs
    → available_stock p ≡ p.total_stock - (sold k rs + held k rs)
unfolding available_stock
available_of_Agrees k p rs a = omega (arith, a)

-- From a seeded start whose stocks fit an `int`, after any calls, fewer than a third of 2 ^ 64, the
-- reservations of a product that are active or confirmed are at most its total stock, and the stock that
-- the service reports is exactly what they leave: it never is negative.
pub never_oversold :
    (seeds : List (Text × ℕ)) (hold_for : Duration) (calls : List Call)
    → All FitsInt seeds
    → 3 * length calls < word
    → (order : MapOrder Reservation) (k : Text) (p : ProductInventory)
    → get_product k (run calls (start seeds hold_for)).repo ≡ some p
    → let rs = (run calls (start seeds hold_for)).repo.reservations in
      (sold k rs + held k rs ≤ p.total_stock)
      × (get_available_stock (in_memory order) k (run calls (start seeds hold_for))
          ≡ ok (p.total_stock - (sold k rs + held k rs)))
unfolding get_available_stock get_product
never_oversold seeds hold_for calls fits few order k p known =
    let s = run calls (start seeds hold_for) in
    let v : IsSound (0 + 3 * length calls) s =
      run-IsSound calls 0 (start seeds hold_for) (omega arith)
        (start-IsSound seeds hold_for fits) in
    let a : Agrees k p s.repo.reservations = v.valid.agrees k p known in
    (
      omega (arith, a),
      rw (known, get_available_stock) (ap ok (available_of_Agrees k p s.repo.reservations a)),
    )
