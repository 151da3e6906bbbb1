-- ===== src/Demo/Selling.antt =====
-- cmd/contention-demo/main.go, one attempt: what it answers while no hold runs out.
use inventory_reservation_sy.Base.{
  ℕ, ◌+◌, ◌*◌, ◌≤◌, ◌<◌, ◌≡◌, refl, true, false, List, [], ◌∷◌, some, All, arith, inl, inr,
}
use inventory_reservation_sy.Base.Text.{Text}
use inventory_reservation_sy.Base.Int64.{sign, is_nonpositive}
use inventory_reservation_sy.Base.Map.{Map, MapOrder, lookup, lookup-insert_self, insert-cases}
use inventory_reservation_sy.Base.Time.{Time, pos, minute, before}
use inventory_reservation_sy.Domain.Inventory.{ProductInventory, available_stock}
use inventory_reservation_sy.Domain.Reservation.{Reservation}
use inventory_reservation_sy.Domain.Errors.{err_out_of_stock, Result, ok, err}
use inventory_reservation_sy.Infrastructure.InMemory.{
  InMemoryRepository, in_memory, get_product, active_reservations_by_product,
}
use inventory_reservation_sy.Application.State.{Service, add_hold}
use inventory_reservation_sy.Application.Service.{
  expire_stale, expire_for_product_locked, reserve_checked, reserve_item,
}
use inventory_reservation_sy.Application.Effects.{
  new_reservation, granted, grant-granted, reject-rejected,
}
use inventory_reservation_sy.Application.Invariant.{IsValid}
use inventory_reservation_sy.Application.Invariant.Snapshot.{IsListed, by_product-IsSnapshot}
use inventory_reservation_sy.Demo.{Attempt, sku_hot}

-- No stored reservation runs out before `limit`.
abbrev pub LastsUntil : Time → Map Reservation → Type 0
LastsUntil limit rs = (id : Text) (r : Reservation) → lookup id rs ≡ some r → limit ≤ r.expires_at

-- With nothing due, lazy expiry does nothing.
expire_stale-idle :
    (order : MapOrder Reservation) (now limit : Time) (todo : List Reservation)
    (s : Service InMemoryRepository)
    → now < limit
    → LastsUntil limit s.repo.reservations
    → All (IsListed s.repo.reservations) todo
    → expire_stale (in_memory order) now todo s ≡ s
unfolding expire_stale
expire_stale-idle order now limit [] s early lasts listed = refl
expire_stale-idle order now limit (r ∷ rest) s early lasts listed =
    let e : before now r.expires_at ≡ true =
      ground (arith, lasts r.reservation_id r listed.0.stored) in
    rw e (expire_stale-idle order now limit rest s early lasts listed.1)

-- The state of the sale: `n` units are held, none is sold.
pub record IsSelling (limit : Time) (stock n : ℕ) (s : Service InMemoryRepository) : Type 0 where
  pub hold : s.hold_for ≡ pos (2 * minute)
  pub lasts : LastsUntil limit s.repo.reservations
  pub product : ProductInventory
  pub known : lookup sku_hot s.repo.products ≡ some product
  pub total : product.total_stock ≡ stock
  pub unsold : product.confirmed_count ≡ 0
  pub taken : product.active_reservation_count ≡ n
  pub room : n ≤ stock
  pub small : stock < sign

module _ (limit : Time) (a : Attempt) (stock n : ℕ) (s : Service InMemoryRepository)
    (from : limit ≤ a.at + 2 * minute) (early : a.at < limit) (v : IsValid s)
    (h : IsSelling limit stock n s) where
  abbrev outcome : Result Reservation × Service InMemoryRepository
  outcome = reserve_item (in_memory a.order) sku_hot a.user_id a.at s

  idle : expire_for_product_locked (in_memory a.order) sku_hot a.at s ≡ s
  unfolding expire_for_product_locked
  idle =
      expire_stale-idle a.order a.at limit (active_reservations_by_product a.order sku_hot s.repo) s
        early h.lasts (by_product-IsSnapshot v a.order sku_hot s.repo refl).listed

  new_lasts : LastsUntil limit (granted sku_hot a.user_id a.at h.product s).repo.reservations
  new_lasts id r e =
      let new = new_reservation sku_hot a.user_id a.at s in
      elim (insert-cases new.reservation_id id new r s.repo.reservations e) [
        | inl (same, one) ↦ rw (← one, h.hold) from
        | inr (differ, old) ↦ h.lasts id r old
      ]

  -- While a unit is left, the attempt gets it.
  pub granted_outcome :
      n < stock
      → (outcome.0 ≡ ok (new_reservation sku_hot a.user_id a.at s))
        × IsSelling limit stock (n + 1) outcome.1
  unfolding reserve_item get_product reserve_checked add_hold
  granted_outcome left =
      let open_ : is_nonpositive (available_stock h.product) ≡ false =
        unfold available_stock in ground (arith, h) in
      rw (idle, h.known, open_, grant-granted a.order sku_hot a.user_id a.at s h.product h.known)
        (
          refl,
          record {
            hold = h.hold;
            lasts = new_lasts;
            product = add_hold h.product;
            known = lookup-insert_self sku_hot (add_hold h.product) s.repo.products;
            total = h.total;
            unsold = h.unsold;
            taken = omega (arith, h);
            room = omega arith;
            small = h.small;
          },
        )

  -- When none is left, it is told so.
  pub rejected_outcome :
      n ≡ stock → (outcome.0 ≡ err err_out_of_stock) × IsSelling limit stock n outcome.1
  unfolding reserve_item get_product reserve_checked
  rejected_outcome full =
      let out : is_nonpositive (available_stock h.product) ≡ true =
        unfold available_stock in ground (arith, h) in
      rw (idle, h.known, out, reject-rejected a.order sku_hot a.user_id a.at s h.product)
        (
          refl,
          record {
            hold = h.hold;
            lasts = h.lasts;
            product = h.product;
            known = h.known;
            total = h.total;
            unsold = h.unsold;
            taken = h.taken;
            room = h.room;
            small = h.small;
          },
        )
