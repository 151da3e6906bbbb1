-- ===== src/Infrastructure/Postgres/Kept.antt =====
-- internal/infrastructure/postgres_repository.go over any database: a property of the tables that
-- the statements of an operation keep is kept by the operation, whatever is refused, with or
-- without having been applied.
use inventory_reservation_sy.Base.{
  ◌≡◌, true, false, Bool, Option, none, some, Option-cases, inl, inr, if◌then◌else◌,
}
use inventory_reservation_sy.Base.Text.{Text}
use inventory_reservation_sy.Base.Map.{lookup}
use inventory_reservation_sy.Domain.Inventory.{ProductInventory}
use inventory_reservation_sy.Domain.Reservation.{Reservation}
use inventory_reservation_sy.Domain.Errors.{Error}
use inventory_reservation_sy.Infrastructure.Tables.{Tables}
use inventory_reservation_sy.Application.State.{returning_nil}
use inventory_reservation_sy.Infrastructure.Postgres.{
  Driver, Statement, begin_tx, lock_item, lock_reservation, commit, update_item,
  update_reservation_row, checked, exec, commit_from, stop_on, run_update_item,
  run_update_reservation, update_product, update_reservation, write_item, write_reservation,
}

module _ (d : Driver) (P : Tables → Type 0) where
  -- Applied or not.
  either-Kept : (b : Bool) (t t' : Tables) → P t → P t' → P (if b then t' else t)
  either-Kept true t t' v w = w
  either-Kept false t t' v w = v

  pub checked-Kept :
      (st : Statement) (holds : Bool) (t t' : Tables) → P t → P t' → P (checked d st holds t t').0
  checked-Kept st true t t' v w = w
  checked-Kept st false t t' v w = v

  pub exec-Kept :
      (st : Statement) (run : Tables → Tables × Option Error) (t : Tables)
      → P t
      → P (run t).0
      → P (exec d st run t)
  exec-Kept st run t v w = elim (Option-cases (d.refuses st t)) [
    | inl taken ↦ rw (exec, taken) w
    | inr (e, refused) ↦ rw (exec, refused) (either-Kept (d.applied st t) t (run t).0 v w)
  ]

  commit-Kept : (t : Tables) (r : Tables × Option Error) → P t → P r.0 → P (commit_from d t r).0
  commit-Kept t (t', some e) v w = v
  commit-Kept t (t', none) v w = elim (Option-cases (d.refuses commit t')) [
    | inl taken ↦ rw (commit_from, taken) w
    | inr (e, refused) ↦ rw (commit_from, refused) (either-Kept (d.applied commit t') t t' v w)
  ]

  stop_on-Kept :
      (t : Tables) (o : Option Error) (r : Tables × Option Error)
      → P t
      → P r.0
      → P (stop_on t o r).0
  stop_on-Kept t none r v w = w
  stop_on-Kept t (some e) r v w = v

  write_item-Kept :
      (c : ProductInventory × Option Error) (t : Tables)
      → P t
      → ((p : ProductInventory) → P (run_update_item d p t).0)
      → P (write_item d c t).0
  write_item-Kept (p, some e) t v w = v
  write_item-Kept (p, none) t v w =
      commit-Kept t _ v (stop_on-Kept t (d.refuses (update_item p) t) _ v (w p))

  pub update_product-Kept :
      (id : Text) (fn : ProductInventory → ProductInventory × Option Error) (t : Tables)
      → P t
      → ((p : ProductInventory) → P (run_update_item d p t).0)
      → P (update_product d id fn t).0
  unfolding update_product
  update_product-Kept id fn t v w = stop_on-Kept t (d.refuses begin_tx t) _ v (
      stop_on-Kept t (d.refuses (lock_item id) t) _ v
        (elim (Option-cases (lookup id t.inventory_items)) [
          | inl missing ↦ rw missing v
          | inr (p, found) ↦ rw found (write_item-Kept (fn p) t v w)
        ]))

  write_reservation-Kept :
      (r : Reservation) (t : Tables)
      → P t
      → P (run_update_reservation d r t).0
      → P (write_reservation d (r, none) t).0
  write_reservation-Kept r t v w =
      commit-Kept t _ v (stop_on-Kept t (d.refuses (update_reservation_row r) t) _ v w)

  pub update_reservation-Kept :
      (id : Text) (f : Reservation → Reservation) (t : Tables)
      → P t
      → ((r : Reservation)
          → lookup id t.reservations ≡ some r
          → P (run_update_reservation d (f r) t).0)
      → P (update_reservation d id (returning_nil f) t).0
  unfolding update_reservation
  update_reservation-Kept id f t v w = stop_on-Kept t (d.refuses begin_tx t) _ v (
      stop_on-Kept t (d.refuses (lock_reservation id) t) _ v
        (elim (Option-cases (lookup id t.reservations)) [
          | inl missing ↦ rw missing v
          | inr (r, found) ↦ rw found (write_reservation-Kept (f r) t v (w r found))
        ]))
