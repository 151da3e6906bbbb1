-- ===== src/Demo/Contention.antt =====
-- cmd/contention-demo/main.go, the attempts of one run: their counters against the stock.
use Prim.Native.Nat.{min}
use native.Mathlib.Decide.{dec_lt}
use inventory_reservation_sy.Base.{
  ℕ, suc, ◌+◌, ◌-◌, ◌*◌, ◌≤◌, ◌<◌, ◌≡◌, refl, ap, subst, List, [], ◌∷◌, All, length, arith,
}
use inventory_reservation_sy.Base.Text.{text_eq}
use inventory_reservation_sy.Base.Int64.{word, sign}
use inventory_reservation_sy.Base.Map.{MapOrder, lookup, insert}
use inventory_reservation_sy.Base.Time.{Time, pos, minute}
use inventory_reservation_sy.Domain.Inventory.{available_stock}
use inventory_reservation_sy.Domain.Reservation.{Reservation}
use inventory_reservation_sy.Domain.Errors.{ok}
use inventory_reservation_sy.Infrastructure.InMemory.{InMemoryRepository, in_memory, get_product}
use inventory_reservation_sy.Application.State.{Service}
use inventory_reservation_sy.Application.Service.{reserve_item, get_available_stock}
use inventory_reservation_sy.Application.Invariant.{IsSound}
use inventory_reservation_sy.Application.Invariant.Calls.{reserve_item-IsSound}
use inventory_reservation_sy.Application.History.{start}
use inventory_reservation_sy.Application.History.Stock.{start-IsSound}
use inventory_reservation_sy.Demo.{
  Attempt, Tally, tally_result, sku_hot, attempt_all, hot_product, demo_service, passed,
  check_tally, demo_run,
}
use inventory_reservation_sy.Demo.Selling.{IsSelling, granted_outcome, rejected_outcome}

-- The attempts come while the first hold lasts.
abbrev pub IsInWindow : Time → Attempt → Type 0
IsInWindow limit a = (limit ≤ a.at + 2 * minute) × (a.at < limit)

-- What the loop counts, from `n` units held on.
record Counts (limit : Time) (stock n k : ℕ) (t t' : Tally) (s : Service InMemoryRepository)
    : Type 0 where
  granted_count : t'.successes ≡ t.successes + min k (stock - n)
  rejected_count : t'.out_of_stock ≡ t.out_of_stock + (k - (stock - n))
  no_errors : t'.other_errors ≡ t.other_errors
  selling : IsSelling limit stock (n + min k (stock - n)) s

-- The counts of the rest, seen from one attempt earlier.
Counts-granted :
    (limit : Time) (stock n k : ℕ) (t t' : Tally) (s : Service InMemoryRepository)
    → n < stock
    → Counts limit stock (n + 1) k (record t { successes = t.successes + 1 }) t' s
    → Counts limit stock n (suc k) t t' s
Counts-granted limit stock n k t t' s left c = record {
  granted_count = omega (arith, c.granted_count);
  rejected_count = omega (arith, c.rejected_count);
  no_errors = c.no_errors;
  selling =
      let e : n + 1 + min k (stock - (n + 1)) ≡ n + min (suc k) (stock - n) = omega arith in
      subst (λ m. IsSelling limit stock m s) e c.selling;
}

Counts-rejected :
    (limit : Time) (stock n k : ℕ) (t t' : Tally) (s : Service InMemoryRepository)
    → n ≡ stock
    → Counts limit stock n k (record t { out_of_stock = t.out_of_stock + 1 }) t' s
    → Counts limit stock n (suc k) t t' s
Counts-rejected limit stock n k t t' s full c = record {
  granted_count = omega (arith, c.granted_count);
  rejected_count = omega (arith, c.rejected_count);
  no_errors = c.no_errors;
  selling =
      let e : n + min k (stock - n) ≡ n + min (suc k) (stock - n) = omega arith in
      subst (λ m. IsSelling limit stock m s) e c.selling;
}

attempt_all-Counts :
    (limit : Time) (stock : ℕ) (attempts : List Attempt) (n b : ℕ) (t : Tally)
    (s : Service InMemoryRepository)
    → All (IsInWindow limit) attempts
    → b + 3 * length attempts < word
    → IsSound b s
    → IsSelling limit stock n s
    → let r = attempt_all attempts t s in Counts limit stock n (length attempts) t r.0 r.1
unfolding attempt_all tally_result
attempt_all-Counts limit stock [] n b t s w few v h = record {
  granted_count = omega arith;
  rejected_count = omega arith;
  no_errors = refl;
  selling =
      let e : n ≡ n + min 0 (stock - n) = omega arith in subst (λ m. IsSelling limit stock m s) e h;
}
attempt_all-Counts limit stock (a ∷ rest) n b t s w few v h =
    let s' = (reserve_item (in_memory a.order) sku_hot a.user_id a.at s).1 in
    let v' : IsSound (b + 3) s' =
      reserve_item-IsSound a.order b a.at sku_hot a.user_id (omega arith) s v in
    elim (dec_lt n stock) [
      | yes left ↦
          let g = granted_outcome limit a stock n s w.0.0 w.0.1 v.valid h left in
          rw (g.0, attempt_all, tally_result)
            (Counts-granted limit stock n (length rest) t _ _ left
              (attempt_all-Counts limit stock rest (n + 1) (b + 3) _ s' w.1 (omega arith) v' g.1))
      | no none_left ↦
          let full : n ≡ stock = omega (arith, h.room) in
          let g = rejected_outcome limit a stock n s w.0.0 w.0.1 v.valid h full in
          rw (g.0, attempt_all, tally_result)
            (Counts-rejected limit stock n (length rest) t _ _ full
              (attempt_all-Counts limit stock rest n (b + 3) _ s' w.1 (omega arith) v' g.1))
    ]

demo_service-IsSound : (stock : ℕ) → stock < sign → IsSound 0 (demo_service stock)
unfolding demo_service
demo_service-IsSound stock small =
    unfold start in start-IsSound ((sku_hot, stock) ∷ []) (pos (2 * minute)) (small, tt)

demo_service-IsSelling :
    (limit : Time) (stock : ℕ) → stock < sign → IsSelling limit stock 0 (demo_service stock)
unfolding demo_service insert lookup text_eq
demo_service-IsSelling limit stock small = record {
  hold = refl;
  lasts = λ id r e. absurd (cc);
  product = hot_product stock;
  known = refl;
  total = refl;
  unsold = refl;
  taken = refl;
  room = omega arith;
  small = small;
}

sold_out :
    (order : MapOrder Reservation) (limit : Time) (stock : ℕ) (s : Service InMemoryRepository)
    → IsSelling limit stock stock s
    → get_available_stock (in_memory order) sku_hot s ≡ ok 0
unfolding get_available_stock get_product available_stock
sold_out order limit stock s h =
    rw (h.known, get_available_stock) (ap ok (omega (arith, h.total, h.unsold, h.taken, h.small)))

-- With more attempts than stock, fewer than a third of 2 ^ 63, all made within two minutes so that
-- no hold runs out, in whatever order they take the lock: exactly `stock` attempts succeed, all
-- others are told that the stock is out, none has another error, and no stock is left. So the demo
-- passes.
pub demo_passes :
    (order : MapOrder Reservation) (limit : Time) (stock : ℕ) (attempts : List Attempt)
    → stock < length attempts
    → 3 * length attempts < sign
    → All (IsInWindow limit) attempts
    → demo_run order stock attempts ≡ passed
unfolding demo_run check_tally
demo_passes order limit stock attempts more few w =
    let t₀ : Tally = record { successes = 0; out_of_stock = 0; other_errors = 0 } in
    let r = attempt_all attempts t₀ (demo_service stock) in
    let c : Counts limit stock 0 (length attempts) t₀ r.0 r.1 =
      attempt_all-Counts limit stock attempts 0 0 t₀ (demo_service stock) w (omega arith)
        (demo_service-IsSound stock (omega arith))
        (demo_service-IsSelling limit stock (omega arith)) in
    let all_taken : 0 + min (length attempts) (stock - 0) ≡ stock = omega arith in
    let h : IsSelling limit stock stock r.1 =
      subst (λ m. IsSelling limit stock m r.1) all_taken c.selling in
    rw (sold_out order limit stock r.1 h)
      (ground (arith, c.granted_count, c.rejected_count, c.no_errors))
