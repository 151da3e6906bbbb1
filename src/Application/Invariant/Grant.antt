-- ===== src/Application/Invariant/Grant.antt =====
-- The invariant at a new reservation under a fresh id, for a product with a unit left.
use inventory_reservation_sy.Base.{ℕ, ◌+◌, ◌<◌, ◌≡◌, false, none, some, arith, inl, inr}
use inventory_reservation_sy.Base.Text.{Text, text_eq, eq_iff, text_eq_self}
use inventory_reservation_sy.Base.Map.{
  Map, lookup, insert, lookup-insert, sum_of-insert_new, insert-Distinct, insert-cases,
  insert-known, lookup-insert_self,
}
use inventory_reservation_sy.Domain.Inventory.{ProductInventory}
use inventory_reservation_sy.Domain.Reservation.{ReservationState, Reservation}
use inventory_reservation_sy.Application.State.{format_id, res_prefix, format_id-injective}
use inventory_reservation_sy.Application.Invariant.Defs.{
  holds, sales, held, sold, IsStamped, Agrees, IsFiled, IsConsistent,
}

pub record Opens (id : Text) (p p' : ProductInventory) (r : Reservation) : Type 0 where
  pub named : r.reservation_id ≡ id
  pub live : r.state ≡ ReservationState.active
  pub stamped : IsStamped r
  pub same_name : p'.product_id ≡ p.product_id
  pub same_total : p'.total_stock ≡ p.total_stock
  pub raised : p'.active_reservation_count ≡ p.active_reservation_count + 1
  pub same_sales : p'.confirmed_count ≡ p.confirmed_count
  pub room : p.confirmed_count + p.active_reservation_count < p.total_stock

module _ {ps : Map ProductInventory} {rs : Map Reservation} {n : ℕ} (c : IsConsistent ps rs n)
    (p p' : ProductInventory) (r : Reservation) (owned : lookup r.product_id ps ≡ some p)
    (o : Opens (format_id res_prefix (n + 1)) p p' r) where
  abbrev id : Text
  id = format_id res_prefix (n + 1)

  opened_counts :
      (k : Text)
      → (held k (insert id r rs) ≡ held k rs + holds k r) × (sold k (insert id r rs) ≡ sold k rs)
  opened_counts k = ground (
    arith,
    c.fresh (n + 1) (omega arith),
    o,
    sum_of-insert_new (holds k) id r rs,
    sum_of-insert_new (sales k) id r rs,
  )

  opened-Agrees_owner : Agrees r.product_id p' (insert id r rs)
  opened-Agrees_owner = ground (
    arith,
    o,
    opened_counts r.product_id,
    c.agrees r.product_id p owned,
    text_eq_self r.product_id,
  )

  opened-Agrees_other :
      (k : Text) (q : ProductInventory)
      → text_eq r.product_id k ≡ false
      → lookup k ps ≡ some q
      → Agrees k q (insert id r rs)
  opened-Agrees_other k q differ e = ground (arith, o, opened_counts k, c.agrees k q e)

  opened-Agrees :
      (k : Text) (q : ProductInventory)
      → lookup k (insert r.product_id p' ps) ≡ some q
      → Agrees k q (insert id r rs)
  opened-Agrees k q e = elim (insert-cases r.product_id k p' q ps e) [
    | inl (same, new) ↦ rw (← same, ← new) opened-Agrees_owner
    | inr (differ, old) ↦ opened-Agrees_other k q differ old
  ]

  still-IsFiled :
      (k : Text) (t : Reservation) → IsFiled ps k t → IsFiled (insert r.product_id p' ps) k t
  still-IsFiled k t f =
      let (u, e) = insert-known r.product_id t.product_id p' f.owner ps f.known in
      record { named = f.named; owner = u; known = e; stamped = f.stamped }

  opened-IsFiled_self : IsFiled (insert r.product_id p' ps) id r
  opened-IsFiled_self = record {
    named = o.named;
    owner = p';
    known = lookup-insert_self r.product_id p' ps;
    stamped = o.stamped;
  }

  opened-IsFiled :
      (k : Text) (t : Reservation)
      → lookup k (insert id r rs) ≡ some t
      → IsFiled (insert r.product_id p' ps) k t
  opened-IsFiled k t e = elim (insert-cases id k r t rs e) [
    | inl (same, new) ↦ rw (← same, ← new) opened-IsFiled_self
    | inr (differ, old) ↦ still-IsFiled k t (c.filed k t old)
  ]

  opened-fresh : (m : ℕ) → n + 1 < m → lookup (format_id res_prefix m) (insert id r rs) ≡ none
  opened-fresh m h = ground (
    arith,
    c.fresh m (omega arith),
    lookup-insert id (format_id res_prefix m) r rs,
    eq_iff id (format_id res_prefix m),
    format_id-injective res_prefix (n + 1) m,
  )

  -- The state with the new reservation satisfies the invariant.
  pub open-IsConsistent : IsConsistent (insert r.product_id p' ps) (insert id r rs) (n + 1)
  open-IsConsistent = record {
    agrees = opened-Agrees;
    filed = opened-IsFiled;
    distinct = insert-Distinct id r rs c.distinct;
    fresh = opened-fresh;
  }
