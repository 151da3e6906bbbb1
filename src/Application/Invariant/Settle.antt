-- ===== src/Application/Invariant/Settle.antt =====
-- The invariant at the one move behind confirm, cancel and expire: an active reservation gets a terminal
-- state, and its product gives up the hold.
use inventory_reservation_sy.Base.{
  ℕ, ◌+◌, ◌≤◌, ◌<◌, ◌≡◌, ◌∙◌, false, true, none, some, to_num, arith, inl, inr,
}
use inventory_reservation_sy.Base.Text.{Text, text_eq, eq_iff, text_eq_self}
use inventory_reservation_sy.Base.Map.{
  Map, lookup, insert, lookup-insert, sum_of-insert_old, sum_of-ge, insert-Distinct, insert-cases,
  insert-known, lookup-insert_self,
}
use inventory_reservation_sy.Domain.Inventory.{ProductInventory}
use inventory_reservation_sy.Domain.Reservation.{Reservation, is_active}
use inventory_reservation_sy.Application.State.{format_id, res_prefix}
use inventory_reservation_sy.Application.Invariant.Defs.{
  equals_confirmed, holds, sales, held, sold, IsStamped, Agrees, IsFiled, IsConsistent,
}

pub record Settles (p p' : ProductInventory) (r r' : Reservation) : Type 0 where
  pub same_reservation : r'.reservation_id ≡ r.reservation_id
  pub same_product : r'.product_id ≡ r.product_id
  pub inactive : is_active r' ≡ false
  pub stamped : IsStamped r'
  pub same_name : p'.product_id ≡ p.product_id
  pub same_total : p'.total_stock ≡ p.total_stock
  pub released : p'.active_reservation_count + 1 ≡ p.active_reservation_count
  pub counted : p'.confirmed_count ≡ p.confirmed_count + to_num (equals_confirmed r'.state)

module _ {ps : Map ProductInventory} {rs : Map Reservation} {n : ℕ} (c : IsConsistent ps rs n) where
  -- Ids that the counter has passed stay passed.
  pub later-IsConsistent : (m : ℕ) → n ≤ m → IsConsistent ps rs m
  later-IsConsistent m h = record {
    agrees = c.agrees;
    filed = c.filed;
    distinct = c.distinct;
    fresh = λ k lt. c.fresh k (omega arith);
  }

  module _ (id : Text) (r : Reservation) (found : lookup id rs ≡ some r) (live : is_active r ≡ true)
      (p : ProductInventory) (owned : lookup r.product_id ps ≡ some p) where
    -- An active reservation is counted by its product.
    pub hold_counted : 1 ≤ p.active_reservation_count
    hold_counted = ground (
      arith,
      c.agrees r.product_id p owned,
      sum_of-ge (holds r.product_id) id r rs found,
      text_eq_self r.product_id,
    )

    module _ (p' : ProductInventory) (r' : Reservation) (s : Settles p p' r r') where
      settled_counts :
          (k : Text)
          → (held k (insert id r' rs) + holds k r ≡ held k rs)
            × (sold k (insert id r' rs) ≡ sold k rs + sales k r')
      settled_counts k = ground (
        arith,
        sum_of-insert_old (holds k) id r' r rs found,
        sum_of-insert_old (sales k) id r' r rs found,
      )

      settled-Agrees_owner : Agrees r.product_id p' (insert id r' rs)
      settled-Agrees_owner = ground (
        arith,
        s,
        settled_counts r.product_id,
        c.agrees r.product_id p owned,
        text_eq_self r.product_id,
      )

      settled-Agrees_other :
          (k : Text) (q : ProductInventory)
          → text_eq r.product_id k ≡ false
          → lookup k ps ≡ some q
          → Agrees k q (insert id r' rs)
      settled-Agrees_other k q differ e = ground (arith, s, settled_counts k, c.agrees k q e)

      settled-Agrees :
          (k : Text) (q : ProductInventory)
          → lookup k (insert r.product_id p' ps) ≡ some q
          → Agrees k q (insert id r' rs)
      settled-Agrees k q e = elim (insert-cases r.product_id k p' q ps e) [
        | inl (same, new) ↦ rw (← same, ← new) settled-Agrees_owner
        | inr (differ, old) ↦ settled-Agrees_other k q differ old
      ]

      still-IsFiled :
          (k : Text) (t : Reservation) → IsFiled ps k t → IsFiled (insert r.product_id p' ps) k t
      still-IsFiled k t f =
          let (u, e) = insert-known r.product_id t.product_id p' f.owner ps f.known in
          record { named = f.named; owner = u; known = e; stamped = f.stamped }

      settled-IsFiled_self : IsFiled (insert r.product_id p' ps) id r'
      settled-IsFiled_self = record {
        named = s.same_reservation ∙ (c.filed id r found).named;
        owner = p';
        known = rw s.same_product (lookup-insert_self r.product_id p' ps);
        stamped = s.stamped;
      }

      settled-IsFiled :
          (k : Text) (t : Reservation)
          → lookup k (insert id r' rs) ≡ some t
          → IsFiled (insert r.product_id p' ps) k t
      settled-IsFiled k t e = elim (insert-cases id k r' t rs e) [
        | inl (same, new) ↦ rw (← same, ← new) settled-IsFiled_self
        | inr (differ, old) ↦ still-IsFiled k t (c.filed k t old)
      ]

      settled-fresh : (m : ℕ) → n < m → lookup (format_id res_prefix m) (insert id r' rs) ≡ none
      settled-fresh m h = ground (
        arith,
        c.fresh m h,
        found,
        lookup-insert id (format_id res_prefix m) r' rs,
        eq_iff id (format_id res_prefix m),
      )

      -- The settled state satisfies the invariant.
      pub settle-IsConsistent : IsConsistent (insert r.product_id p' ps) (insert id r' rs) n
      settle-IsConsistent = record {
        agrees = settled-Agrees;
        filed = settled-IsFiled;
        distinct = insert-Distinct id r' rs c.distinct;
        fresh = settled-fresh;
      }
