-- ===== src/Application/History/Race.antt =====
-- internal/application/reservation_service.go: ExpireReservations lists the due reservations before it
-- takes any lock, and expireReservationLocked does not look at the state again. What other calls do in
-- between is modelled here.
use inventory_reservation_sy.Base.{ℕ, ◌+◌, ◌*◌, ◌<◌, ◌≡◌, false, List, [], ◌∷◌, some, length, arith}
use inventory_reservation_sy.Base.Text.{Text}
use inventory_reservation_sy.Base.Int64.{word, add_int}
use inventory_reservation_sy.Base.Map.{
  Map, MapOrder, lookup, insert, lookup-insert_self, sum_of-insert_old,
}
use inventory_reservation_sy.Base.Time.{Time}
use inventory_reservation_sy.Domain.Inventory.{ProductInventory, available_stock}
use inventory_reservation_sy.Domain.Reservation.{Reservation, is_active}
use inventory_reservation_sy.Infrastructure.InMemory.{
  InMemoryRepository, in_memory, all_active_reservations,
}
use inventory_reservation_sy.Application.State.{Service, mark_expired, release_hold, event_of}
use inventory_reservation_sy.Application.Effects.{written, expire-written}
use inventory_reservation_sy.Application.Shadow.{shadow_expired}
use inventory_reservation_sy.Domain.Event.{event_expired}
use inventory_reservation_sy.Application.Sweep.{group_due, expire_group, expire_groups}
use inventory_reservation_sy.Application.Sweep.Totals.{swept, expire_groups-flat}
use inventory_reservation_sy.Application.Invariant.{holds, IsConsistent, IsValid, IsSound}
use inventory_reservation_sy.Application.History.{Call, run}
use inventory_reservation_sy.Application.History.Stock.{run-IsSound}

-- ExpireReservations, with the calls that other goroutines complete after the due reservations are
-- listed and before the first lock is taken.
unfoldable pub expire_across :
    MapOrder Reservation
    → MapOrder (Text × List Text)
    → Time
    → List Call
    → Service InMemoryRepository
    → ℕ × Service InMemoryRepository
expire_across order groups now between s =
    let by_product = group_due now (all_active_reservations order s.repo) [] in
    expire_groups (in_memory order) now (groups.arrange by_product) (0, run between s)

-- What the sweep does to a reservation that has ended.
module _ (s : Service InMemoryRepository) (v : IsValid s) (id : Text) (r : Reservation)
    (found : lookup id s.repo.reservations ≡ some r) (ended : is_active r ≡ false)
    (p : ProductInventory) (owned : lookup r.product_id s.repo.products ≡ some p) where
  abbrev products : Map ProductInventory
  products = insert r.product_id (release_hold p) s.repo.products

  abbrev reservations : (now : Time) → Map Reservation
  reservations now = insert id (mark_expired now r) s.repo.reservations

  -- No hold went away, and yet the count of holds did.
  not-IsConsistent : (now : Time) (n : ℕ) → ¬ IsConsistent products (reservations now) n
  unfolding mark_expired release_hold
  not-IsConsistent now n c = ground (
    arith,
    v.agrees r.product_id p owned,
    c.agrees r.product_id (release_hold p)
        (lookup-insert_self r.product_id (release_hold p) s.repo.products),
    sum_of-insert_old (holds r.product_id) id (mark_expired now r) r s.repo.reservations found,
  )

  one_more : available_stock (release_hold p) ≡ add_int (available_stock p) 1
  unfolding available_stock release_hold
  one_more = omega (arith, v.agrees r.product_id p owned)

-- The state after such a sweep that has collected one id.
across-written :
    (order : MapOrder Reservation) (groups : MapOrder (Text × List Text)) (now : Time)
    (between : List Call) (s : Service InMemoryRepository) (id : Text) (r : Reservation)
    (p : ProductInventory)
    → swept order groups now s ≡ id ∷ []
    → lookup id (run between s).repo.reservations ≡ some r
    → lookup r.product_id (run between s).repo.products ≡ some p
    → (expire_across order groups now between s).1
      ≡ written shadow_expired
          (release_hold p)
          id
          (mark_expired now r)
          (event_of event_expired r now)
          (run between s)
unfolding expire_across expire_group
across-written order groups now between s id r p listed found owned =
    let flat =
      expire_groups-flat (in_memory order) now
        (groups.arrange (group_due now (all_active_reservations order s.repo) []))
        (0, run between s) in
    rw (flat, listed) (expire-written order id now (run between s) r found p owned)

-- From a sound state and while ids last, a sweep has listed one due reservation, and calls that come
-- between its listing and its lock end that reservation. The sweep then expires it all the same: whatever
-- terminal state it has got becomes Expired, the product's available stock grows by one although no hold
-- is released, and the counters no longer agree with the reservations.
pub double_release :
    (order : MapOrder Reservation) (groups : MapOrder (Text × List Text)) (now : Time)
    (between : List Call) (b : ℕ) (s : Service InMemoryRepository)
    → b + 3 * length between < word
    → IsSound b s
    → (id : Text) (r : Reservation) (p : ProductInventory) → swept order groups now s ≡ id ∷ []
    → lookup id (run between s).repo.reservations ≡ some r
    → is_active r ≡ false
    → lookup r.product_id (run between s).repo.products ≡ some p
    → let t = (expire_across order groups now between s).1 in
      (lookup id t.repo.reservations ≡ some (mark_expired now r))
      × (lookup r.product_id t.repo.products ≡ some (release_hold p))
      × (available_stock (release_hold p) ≡ add_int (available_stock p) 1)
      × (¬ IsValid t)
unfolding mark_expired
double_release order groups now between b s few v id r p listed found ended owned =
    let s₁ = run between s in
    let v₁ : IsValid s₁ = (run-IsSound between b s few v).valid in
    rw (across-written order groups now between s id r p listed found owned) (
      lookup-insert_self id (mark_expired now r) s₁.repo.reservations,
      lookup-insert_self r.product_id (release_hold p) s₁.repo.products,
      one_more s₁ v₁ id r found ended p owned,
      not-IsConsistent s₁ v₁ id r found ended p owned now _,
    )
