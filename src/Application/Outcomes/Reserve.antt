-- ===== src/Application/Outcomes/Reserve.antt =====
-- ReserveItem against RI-R1 to RI-R4 of specs/03-reserve-item.md.
use mathlib.Core.Path.{ap₂}
use inventory_reservation_sy.Base.{
  ℕ, ◌+◌, ◌<◌, ◌≡◌, refl, ◌∙◌, Bool, true, not, ◌&&◌, List, [], ◌∷◌, Option, none, some, arith, inl,
  inr, Bool-cases, Option-cases, ltb, if◌then◌else◌, to_num, All, All-select_of, select, length,
  sum_of, sum_of-perm,
}
use inventory_reservation_sy.Base.Text.{Text, text_eq}
use inventory_reservation_sy.Base.Int64.{word}
use inventory_reservation_sy.Base.Map.{Map, MapOrder, lookup, values, sum_of-insert_old}
use inventory_reservation_sy.Base.Time.{Time, before}
use inventory_reservation_sy.Domain.Inventory.{ProductInventory, available_stock}
use inventory_reservation_sy.Domain.Reservation.{Reservation, is_active}
use inventory_reservation_sy.Domain.Errors.{
  Error, err_out_of_stock, err_product_not_found, Result, ok, err,
}
use inventory_reservation_sy.Infrastructure.InMemory.{
  InMemoryRepository, in_memory, get_product, active_reservations_by_product,
}
use inventory_reservation_sy.Application.State.{Service, mark_expired}
use inventory_reservation_sy.Application.Service.{
  expire_reservation_locked, expire_stale, expire_for_product_locked, reserve_checked, reserve_item,
}
use inventory_reservation_sy.Application.Effects.{expire-written, grant-granted, reject-rejected}
use inventory_reservation_sy.Application.Invariant.{
  holds, sales, held, sold, Agrees, IsValid, IsSound,
}
use inventory_reservation_sy.Application.Invariant.Operations.{expire-IsSound}
use inventory_reservation_sy.Application.Invariant.Snapshot.{
  IsListed, IsSnapshot, others-IsListed, by_product-IsSnapshot, expire_for_product-IsSound,
}
use inventory_reservation_sy.Application.Moves.Lifecycle.{stock_in, Moves-stock}
use inventory_reservation_sy.Application.Moves.Calls.{expire_for_product-Moves}

-- The error that a result carries.
unfoldable pub error_of : {A : Type 0} → Result A → Option Error
error_of (ok a) = none
error_of (err e) = some e

-- Holds of a product that have not run out, and those that have.
abbrev pub keeps : Text → Time → Reservation → ℕ
keeps k now r = to_num ((text_eq r.product_id k && is_active r) && before now r.expires_at)

abbrev pub kept : Text → Time → Map Reservation → ℕ
kept k now rs = sum_of (keeps k now) (values rs)

abbrev stale : Text → Time → Reservation → ℕ
stale k now r = to_num ((text_eq r.product_id k && is_active r) && not (before now r.expires_at))

abbrev stale_total : Text → Time → Map Reservation → ℕ
stale_total k now rs = sum_of (stale k now) (values rs)

abbrev late : Time → Reservation → Bool
late now r = not (before now r.expires_at)

-- Every hold is kept or stale.
held_split :
    (k : Text) (now : Time) (xs : List Reservation)
    → sum_of (holds k) xs ≡ sum_of (keeps k now) xs + sum_of (stale k now) xs
unfolding sum_of
held_split k now [] = refl
held_split k now (r ∷ xs) = ground (arith, held_split k now xs)

stale_count :
    (k : Text) (now : Time) (xs : List Reservation)
    → length (select (late now) (select (λ r. text_eq r.product_id k && is_active r) xs))
      ≡ sum_of (stale k now) xs
unfolding select sum_of
stale_count k now [] = refl
stale_count k now (r ∷ xs) = ground (arith, stale_count k now xs)

-- All of the list belong to the product.
abbrev Owned : Text → List Reservation → Type 0
Owned k = All (λ r. text_eq r.product_id k ≡ true)

-- What a run of the loop does to the counts of the product.
record Clears (k : Text) (now : Time) (n : ℕ) (s t : Service InMemoryRepository) : Type 0 where
  keeps_same : kept k now t.repo.reservations ≡ kept k now s.repo.reservations
  sales_same : sold k t.repo.reservations ≡ sold k s.repo.reservations
  fewer : stale_total k now t.repo.reservations + n ≡ stale_total k now s.repo.reservations

module _ (order : MapOrder Reservation) (k : Text) (now : Time) where
  expire-Clears :
      (s : Service InMemoryRepository) (v : IsValid s) (r : Reservation)
      → IsListed s.repo.reservations r
      → text_eq r.product_id k ≡ true
      → late now r ≡ true
      → Clears k now 1 s (expire_reservation_locked (in_memory order) r.reservation_id now s)
  unfolding mark_expired
  expire-Clears s v r l own due =
      let id = r.reservation_id in
      let f = v.filed id r l.stored in
      let rs = s.repo.reservations in
      rw (expire-written order id now s r l.stored f.owner f.known) (
        ground (
          arith,
          l.active,
          sum_of-insert_old (keeps k now) id (mark_expired now r) r rs l.stored,
          sum_of-insert_old (stale k now) id (mark_expired now r) r rs l.stored,
          sum_of-insert_old (sales k) id (mark_expired now r) r rs l.stored,
        ))

  expire_stale-Clears :
      (todo : List Reservation) (s : Service InMemoryRepository) (b : ℕ)
      → b < word
      → IsSound b s
      → IsSnapshot s.repo.reservations todo
      → Owned k todo
      → Clears k now (length (select (late now) todo)) s (expire_stale (in_memory order) now todo s)
  unfolding expire_stale select
  expire_stale-Clears [] s b few v t own = record {
    keeps_same = refl;
    sales_same = refl;
    fewer = omega arith;
  }
  expire_stale-Clears (r ∷ rest) s b few v t own = elim (Bool-cases (before now r.expires_at)) [
    | inl early ↦ rw early (
        expire_stale-Clears rest s b few v (record { listed = t.listed.1; apart = t.apart.1 })
          own.1)
    | inr due ↦
        let first = expire-Clears s v.valid r t.listed.0 own.0 (ground arith) in
        let later =
          expire_stale-Clears rest
            (expire_reservation_locked (in_memory order) r.reservation_id now s) b few
            (expire-IsSound s b v few r.reservation_id r t.listed.0.stored t.listed.0.active order
              now)
            (record {
              listed =
                  others-IsListed order now s r v.valid t.listed.0.stored rest t.apart.0 t.listed.1;
              apart = t.apart.1;
            })
            own.1 in
        rw due (record {
          keeps_same = later.keeps_same ∙ first.keeps_same;
          sales_same = later.sales_same ∙ first.sales_same;
          fewer = omega (arith, first.fewer, later.fewer);
        })
  ]

  -- After lazy expiry the holds of the product are those that have not run out.
  expired_counts :
      (s : Service InMemoryRepository) (b : ℕ)
      → b < word
      → IsSound b s
      → let t = expire_for_product_locked (in_memory order) k now s in
        (held k t.repo.reservations ≡ kept k now s.repo.reservations)
        × (sold k t.repo.reservations ≡ sold k s.repo.reservations)
  unfolding expire_for_product_locked active_reservations_by_product
  expired_counts s b few v =
      let xs = order.arrange (values s.repo.reservations) in
      let listing = active_reservations_by_product order k s.repo in
      let c =
        expire_stale-Clears listing s b few v (by_product-IsSnapshot v.valid order k s.repo refl)
          (All-select_of (λ _. Unit {0}) _ _ xs (λ r p _. ground arith) (everything xs)) in
      let t = expire_stale (in_memory order) now listing s in
      (
        omega (
          arith,
          c.keeps_same,
          c.fewer,
          stale_count k now xs,
          sum_of-perm (stale k now) (order.arrange-perm (values s.repo.reservations)),
          held_split k now (values t.repo.reservations),
        ),
        c.sales_same,
      )
    where
      everything : (ys : List Reservation) → All (λ _. Unit {0}) ys
      everything [] = tt
      everything (y ∷ ys) = (tt, everything ys)

  reserve_checked-error :
      (user_id : Text) (p : ProductInventory) (t : Service InMemoryRepository)
      → lookup k t.repo.products ≡ some p
      → Agrees k p t.repo.reservations
      → error_of (reserve_checked (in_memory order) k user_id now (lookup k t.repo.products) t).0
        ≡ (if ltb (sold k t.repo.reservations + held k t.repo.reservations) p.total_stock
            then none
            else some err_out_of_stock)
  unfolding error_of reserve_checked available_stock
  reserve_checked-error user_id p t known a = ground (
    arith,
    known,
    a,
    grant-granted order k user_id now t p known,
    reject-rejected order k user_id now t p,
  )

-- The error that a reservation is to get, by the product's total stock and the units in use.
unfoldable pub reserve_error : Option ℕ → ℕ → Option Error
reserve_error none used = some err_product_not_found
reserve_error (some total) used = if ltb used total then none else some err_out_of_stock

module _ (order : MapOrder Reservation) (k user_id : Text) (now : Time) where
  checked-reserve_error :
      (t : Service InMemoryRepository)
      → IsValid t
      → error_of (reserve_checked (in_memory order) k user_id now (lookup k t.repo.products) t).0
        ≡ reserve_error
            (stock_in k t.repo.products)
            (sold k t.repo.reservations + held k t.repo.reservations)
  unfolding reserve_error
  checked-reserve_error t v = elim (Option-cases (lookup k t.repo.products)) [
    | inl missing ↦ unfold error_of reserve_checked in ground (arith, missing)
    | inr (p, known) ↦
        ground
          (arith, known, reserve_checked-error order k now user_id p t known (v.agrees k p known))
  ]

  -- In a sound state and while ids last, a reservation is refused as not found exactly if there is no
  -- such product, and as out of stock exactly if the sales and the holds that have not run out at `now`
  -- fill the total stock; else it succeeds. Holds that have run out do not count.
  pub reserve_outcome :
      (s : Service InMemoryRepository) (b : ℕ)
      → b + 3 < word
      → IsSound b s
      → error_of (reserve_item (in_memory order) k user_id now s).0
        ≡ reserve_error
            (stock_in k s.repo.products)
            (sold k s.repo.reservations + kept k now s.repo.reservations)
  unfolding reserve_item get_product
  reserve_outcome s b few v =
      let t = expire_for_product_locked (in_memory order) k now s in
      let c = expired_counts order k now s b (omega arith) v in
      let w = expire_for_product-IsSound order now k s b (omega arith) v in
      let m = expire_for_product-Moves order now k s b (omega arith) v in
      checked-reserve_error t w.valid ∙ ap₂ reserve_error (Moves-stock m k) (ap₂ ◌+◌ c.1 c.0)
