-- ===== src/Application/Sweep.antt =====
-- internal/application/reservation_service.go, ExpireReservations: the due reservations are listed and
-- grouped by product without a lock, and then each product's group is expired under its lock. The order
-- in which the groups are visited is the parameter `groups`. The total counts the elements of slices in
-- memory, so it stays far below 2 ^ 63 and is a plain number.
pub mod Groups
pub mod Due
pub mod Totals
pub mod Reference
use inventory_reservation_sy.Base.{
  ℕ, ◌+◌, if◌then◌else◌, not, List, [], ◌∷◌, ◌++◌, Option, none, some,
}
use inventory_reservation_sy.Base.Text.{Text}
use inventory_reservation_sy.Base.Map.{Map, MapOrder, lookup, insert}
use inventory_reservation_sy.Base.Time.{Time, before}
use inventory_reservation_sy.Domain.Reservation.{Reservation}
use inventory_reservation_sy.Infrastructure.Repository.{Repository}
use inventory_reservation_sy.Application.State.{Service}
use inventory_reservation_sy.Application.Service.{expire_reservation_locked}

-- A missing key reads as the nil slice.
abbrev pub or_empty : Option (List Text) → List Text
or_empty none = []
or_empty (some ids) = ids

unfoldable pub add_to_group : Text → Text → Map (List Text) → Map (List Text)
add_to_group product_id id by_product =
    insert product_id (or_empty (lookup product_id by_product) ++ id ∷ []) by_product

-- The first loop.
unfoldable pub group_due : Time → List Reservation → Map (List Text) → Map (List Text)
group_due now [] by_product = by_product
group_due now (r ∷ rest) by_product = group_due now rest (
    if not (before now r.expires_at)
    then add_to_group r.product_id r.reservation_id by_product
    else by_product)

module _ {R : Type 0} (repository : Repository R) where
  -- One product's group, under its lock.
  unfoldable pub expire_group : Time → List Text → ℕ × Service R → ℕ × Service R
  expire_group now [] (total, s) = (total, s)
  expire_group now (id ∷ rest) (total, s) =
      expire_group now rest (total + 1, expire_reservation_locked repository id now s)

  -- The second loop.
  unfoldable pub expire_groups : Time → Map (List Text) → ℕ × Service R → ℕ × Service R
  expire_groups now [] t = t
  expire_groups now ((product_id, ids) ∷ rest) t = expire_groups now rest (expire_group now ids t)

  unfoldable pub expire_reservations :
      MapOrder (Text × List Text) → Time → Service R → ℕ × Service R
  expire_reservations groups now s =
      let by_product = group_due now (repository.all_active_reservations s.repo) [] in
      expire_groups now (groups.arrange by_product) (0, s)
