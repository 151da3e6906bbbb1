-- ===== src/Application/Durable/Reseeded.antt =====
-- cmd/server/main.go with DATABASE_URL set, started again with the seeds of the earlier process: the seed
-- loop over the tables that the earlier process has left.
use inventory_reservation_sy.Base.{
  ℕ, ◌+◌, ◌*◌, ◌<◌, ◌≡◌, ◌⊎◌, refl, ap, subst, sym, ◌∙◌, List, [], ◌∷◌, All, length, some, inl, inr,
  Bool-cases, arith,
}
use inventory_reservation_sy.Base.Text.{Text, text_eq, eq_iff}
use inventory_reservation_sy.Base.Int64.{word}
use inventory_reservation_sy.Base.Time.{Time, Duration}
use inventory_reservation_sy.Base.Map.{MapOrder, lookup, lookup-insert}
use inventory_reservation_sy.Domain.Inventory.{ProductInventory, available_stock}
use inventory_reservation_sy.Domain.Reservation.{Reservation}
use inventory_reservation_sy.Domain.Errors.{Error, ok}
use inventory_reservation_sy.Infrastructure.InMemory
use inventory_reservation_sy.Infrastructure.InMemory.{InMemoryRepository, new_in_memory_repository}
use inventory_reservation_sy.Infrastructure.Tables.{Tables, no_rows}
use inventory_reservation_sy.Infrastructure.Postgres.{Statement, undisturbed, postgres, get_product}
use inventory_reservation_sy.Infrastructure.Postgres.Stored.{stored}
use inventory_reservation_sy.Application.State.{Service}
use inventory_reservation_sy.Application.Service.{get_available_stock}
use inventory_reservation_sy.Application.Invariant.{Agrees, sold, held}
use inventory_reservation_sy.Application.Moves.Lifecycle.{stock_in}
use inventory_reservation_sy.Application.History.{Call, run, seeded_product, add_seeds, start}
use inventory_reservation_sy.Application.History.Stock.{
  run-IsSound, start-IsSound, reservations-add_seeds,
}
use inventory_reservation_sy.Application.History.Refinement.{stock_and_log}
use inventory_reservation_sy.Application.Durable.History.{
  FitsColumn, IsTimely, fits_int, run_stored, start_stored, add_stored_seeds-stored,
  durable_refines,
}

-- The seed loop over two stores: it leaves the same fresh row of a product in both, or the row of each.
abbrev SameSeeding : Text → List (Text × ℕ) → InMemoryRepository → InMemoryRepository → Type 0
SameSeeding k seeds m n =
    ((stock : ℕ) × (lookup k (add_seeds seeds m).products ≡ some (seeded_product k stock))
      × (lookup k (add_seeds seeds n).products ≡ some (seeded_product k stock)))
    ⊎ ((lookup k (add_seeds seeds m).products ≡ lookup k m.products)
        × (lookup k (add_seeds seeds n).products ≡ lookup k n.products))

same_seeding :
    (k : Text) (seeds : List (Text × ℕ)) (m n : InMemoryRepository) → SameSeeding k seeds m n
unfolding add_seeds InMemory.add_product
same_seeding k [] m n = inr (refl, refl)
same_seeding k ((id, stock) ∷ seeds) m n =
    elim (same_seeding k seeds (InMemory.add_product (seeded_product id stock) m)
      (InMemory.add_product (seeded_product id stock) n)) [
        | inl both ↦ inl both
        | inr (in_m, in_n) ↦ elim (Bool-cases (text_eq id k)) [
          | inl same ↦ inl (
            stock,
            in_m
                ∙ ground (
                  arith,
                  same,
                  eq_iff id k,
                  lookup-insert id k (seeded_product id stock) m.products,
                ),
            in_n
                ∙ ground (
                  arith,
                  same,
                  eq_iff id k,
                  lookup-insert id k (seeded_product id stock) n.products,
                ),
          )
          | inr differ ↦ inr (
            in_m ∙ ground (arith, differ, lookup-insert id k (seeded_product id stock) m.products),
            in_n ∙ ground (arith, differ, lookup-insert id k (seeded_product id stock) n.products),
          )
        ]
      ]

module _ (k : Text) (seeds : List (Text × ℕ)) (m : InMemoryRepository) (p : ProductInventory) where
  -- A product that has the total stock that a fresh seeding gives it is set back to that seeding.
  set_back :
      lookup k m.products ≡ some p
      → stock_in k m.products ≡ stock_in k (add_seeds seeds new_in_memory_repository).products
      → lookup k (add_seeds seeds m).products ≡ some (seeded_product k p.total_stock)
  unfolding lookup
  set_back found kept = elim (same_seeding k seeds m new_in_memory_repository) [
    | inl (stock, in_m, in_new) ↦
        in_m ∙ ap (λ n. some (seeded_product k n)) (ground (arith, found, kept, in_new))
    | inr (in_m, in_new) ↦ absurd (ground (arith, found, kept, in_new))
  ]

module _ (violation : Statement → Error) (to_column : Time → Time)
    (order : MapOrder Reservation) where
  -- The seeds are loaded over the tables `t`, and `s` starts from them: the row of the product has
  -- nothing sold or held, the reservations are as they were, and the stock that the service reports
  -- and the units that the reservations have sold or hold are together more than there is.
  abbrev pub IsReset : Text → ProductInventory → Tables → Service Tables → Type 0
  IsReset k p t s =
      (lookup k s.repo.inventory_items ≡ some (seeded_product k p.total_stock))
      × (s.repo.reservations ≡ t.reservations)
      × ((n : ℕ) × (get_available_stock (postgres (undisturbed order violation to_column)) k s
            ≡ ok n)
          × (p.total_stock < n + (sold k s.repo.reservations + held k s.repo.reservations)))

  reloaded :
      (seeds : List (Text × ℕ)) (hold_for : Duration) (m : InMemoryRepository) (k : Text)
      (p : ProductInventory)
      → All FitsColumn seeds
      → Agrees k p m.reservations
      → stock_in k m.products ≡ stock_in k (add_seeds seeds new_in_memory_repository).products
      → 0 < p.confirmed_count + p.active_reservation_count
      → lookup k m.products ≡ some p
      → IsReset k p (stored m) (start_stored violation to_column order seeds hold_for (stored m))
  unfolding start_stored get_available_stock get_product available_stock
  reloaded seeds hold_for m k p fits a kept units found =
      let again = set_back k seeds m p found kept in
      let whole = reservations-add_seeds seeds m in
      rw (add_stored_seeds-stored violation to_column order seeds m fits, again, whole)
        (
          refl,
          refl,
          (
            available_stock (seeded_product k p.total_stock),
            ground (arith, again),
            omega (arith, a, units),
          ),
        )

  -- From seeds that fit their columns, and calls at times that fit theirs, fewer than a third of 2 ^ 64,
  -- over an undisturbed database that starts empty: when the server is started again with the same seeds
  -- on the tables that these calls have left, a product whose row counts units sold or held gets the row
  -- back that has none, with the same total stock; the reservations stay as they are; and the stock that
  -- the service reports and the units that the reservations have sold or hold are together more than the
  -- total stock.
  pub reseeded :
      (seeds : List (Text × ℕ)) (hold_for : Duration) (calls : List Call) (k : Text)
      (p : ProductInventory)
      → All FitsColumn seeds
      → 3 * length calls < word
      → All (IsTimely to_column (start seeds hold_for).hold_for) calls
      → let begin_on = start_stored violation to_column order seeds hold_for in
        let t = (run_stored violation to_column calls (begin_on no_rows)).repo in
        lookup k t.inventory_items ≡ some p
        → 0 < p.confirmed_count + p.active_reservation_count
        → IsReset k p t (begin_on t)
  unfolding start
  reseeded seeds hold_for calls k p fits few timely found units =
      let s₀ = start seeds hold_for in
      let m = (run calls s₀).repo in
      let v = start-IsSound seeds hold_for (fits_int seeds fits) in
      let begin_on = start_stored violation to_column order seeds hold_for in
      let t = (run_stored violation to_column calls (begin_on no_rows)).repo in
      let e : t ≡ stored m =
        ap (λ s. s.repo)
          (durable_refines violation to_column order seeds hold_for calls fits few timely) in
      let known : lookup k m.products ≡ some p =
        subst (λ u. lookup k u.inventory_items ≡ some p) e found in
      let a = (run-IsSound calls 0 s₀ (omega arith) v).valid.agrees k p known in
      let kept = (stock_and_log calls 0 s₀ (omega arith) v).0 k in
      subst (λ u. IsReset k p u (begin_on u)) (sym e)
        (reloaded seeds hold_for m k p fits a kept units known)
