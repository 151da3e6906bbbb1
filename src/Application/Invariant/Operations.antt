-- ===== src/Application/Invariant/Operations.antt =====
-- internal/application/reservation_service.go, the single transitions (expire, confirm, cancel, grant and
-- reject) and the invariant.
use inventory_reservation_sy.Base.{
  ℕ, ◌+◌, ◌≤◌, ◌<◌, ◌≡◌, refl, sym, ap, subst, false, true, none, some, arith,
}
use inventory_reservation_sy.Base.Text.{Text}
use inventory_reservation_sy.Base.Int64.{word, add_int, is_nonpositive}
use inventory_reservation_sy.Base.Time.{Time}
use inventory_reservation_sy.Base.Map.{
  MapOrder, lookup, insert, sum_of-insert_old, sum_of-insert_new, sum_of-ge,
}
use inventory_reservation_sy.Domain.Inventory.{ProductInventory, available_stock}
use inventory_reservation_sy.Domain.Reservation.{Reservation, is_active}
use inventory_reservation_sy.Infrastructure.InMemory.{InMemoryRepository, in_memory}
use inventory_reservation_sy.Application.State.{
  Service, mark_confirmed, mark_cancelled, mark_expired, add_hold, release_hold, sell_hold,
  format_id, res_prefix,
}
use inventory_reservation_sy.Application.Service.{
  expire_reservation_locked, confirm_active, cancel_active, grant, reject,
}
use inventory_reservation_sy.Application.Effects.{
  expire-written, confirm-written, cancel-written, grant-granted, reject-rejected, new_reservation,
}
use inventory_reservation_sy.Application.Invariant.Defs.{
  Agrees, IsConsistent, IsSound, live, live_total,
}
use inventory_reservation_sy.Application.Invariant.Settle.{
  Settles, hold_counted, later-IsConsistent, settle-IsConsistent,
}
use inventory_reservation_sy.Application.Invariant.Grant.{Opens, open-IsConsistent}

module _ (s : Service InMemoryRepository) (b : ℕ) (v : IsSound b s) (few : b < word) (id : Text)
    (r : Reservation) (found : lookup id s.repo.reservations ≡ some r)
    (active : is_active r ≡ true) where
  abbrev pub owner : ProductInventory
  owner = (v.valid.filed id r found).owner

  pub owned : lookup r.product_id s.repo.products ≡ some owner
  owned = (v.valid.filed id r found).known

  -- What `omega` needs to know of the owner's counters.
  owner_counts :
      (1 ≤ owner.active_reservation_count) × Agrees r.product_id owner s.repo.reservations
  owner_counts =
      (hold_counted v.valid id r found active owner owned, v.valid.agrees r.product_id owner owned)

  settled-IsConsistent :
      (p' : ProductInventory) (r' : Reservation)
      → Settles owner p' r r'
      → IsConsistent
          (insert r.product_id p' s.repo.products)
          (insert id r' s.repo.reservations)
          (add_int s.id_counter 1)
  settled-IsConsistent p' r' t =
      later-IsConsistent (settle-IsConsistent v.valid id r found active owner owned p' r' t) _
        (omega (arith, v.spent, few, sum_of-ge live id r s.repo.reservations found, active_weight))
    where
      active_weight : live r ≡ 1
      active_weight = ground arith

  settled_spent :
      (r' : Reservation)
      → is_active r' ≡ false
      → add_int s.id_counter 1 + live_total (insert id r' s.repo.reservations) ≤ b
  settled_spent r' ended =
      ground (arith, v.spent, few, sum_of-insert_old live id r' r s.repo.reservations found)

  expire-Settles : (now : Time) → Settles owner (release_hold owner) r (mark_expired now r)
  unfolding release_hold mark_expired
  expire-Settles now = ground (arith, (v.valid.filed id r found).stamped, owner_counts)

  confirm-Settles : (now : Time) → Settles owner (sell_hold owner) r (mark_confirmed now r)
  unfolding sell_hold mark_confirmed
  confirm-Settles now = ground (arith, (v.valid.filed id r found).stamped, owner_counts)

  cancel-Settles : (now : Time) → Settles owner (release_hold owner) r (mark_cancelled now r)
  unfolding release_hold mark_cancelled
  cancel-Settles now = ground (arith, (v.valid.filed id r found).stamped, owner_counts)

  module _ (order : MapOrder Reservation) (now : Time) where
    pub expire-IsSound : IsSound b (expire_reservation_locked (in_memory order) id now s)
    unfolding mark_expired
    expire-IsSound = rw (expire-written order id now s r found owner owned) (record {
      valid = settled-IsConsistent _ (mark_expired now r) (expire-Settles now);
      spent = settled_spent (mark_expired now r) refl;
    })

    pub confirm_active-IsSound : IsSound b (confirm_active (in_memory order) id r now s).1
    unfolding mark_confirmed
    confirm_active-IsSound = rw (confirm-written order id now s r found owner owned) (record {
      valid = settled-IsConsistent _ (mark_confirmed now r) (confirm-Settles now);
      spent = settled_spent (mark_confirmed now r) refl;
    })

    pub cancel_active-IsSound : IsSound b (cancel_active (in_memory order) id r now s).1
    unfolding mark_cancelled
    cancel_active-IsSound = rw (cancel-written order id now s r found owner owned) (record {
      valid = settled-IsConsistent _ (mark_cancelled now r) (cancel-Settles now);
      spent = settled_spent (mark_cancelled now r) refl;
    })

module _ (s : Service InMemoryRepository) (b : ℕ) (v : IsSound b s) (few : b + 3 < word)
    (order : MapOrder Reservation) (product_id user_id : Text) (now : Time) where
  next_ids :
      (add_int s.id_counter 1 ≡ s.id_counter + 1)
      × (add_int (s.id_counter + 1) 1 ≡ s.id_counter + 2)
  next_ids = omega (arith, v.spent)

  pub reject-IsSound :
      (p : ProductInventory) → IsSound (b + 3) (reject (in_memory order) product_id user_id now s).1
  reject-IsSound p = rw (reject-rejected order product_id user_id now s p) (record {
    valid = later-IsConsistent v.valid (add_int s.id_counter 1) (omega (arith, next_ids));
    spent = omega (arith, v.spent, next_ids);
  })

  module _ (p : ProductInventory) (known : lookup product_id s.repo.products ≡ some p)
      (left : is_nonpositive (available_stock p) ≡ false) where
    grant-Opens :
        Opens
          (format_id res_prefix (s.id_counter + 1))
          p
          (add_hold p)
          (new_reservation product_id user_id now s)
    unfolding available_stock add_hold
    grant-Opens = record {
      named = ap (format_id res_prefix) next_ids.0;
      live = refl;
      stamped = record { proper = refl; on_confirm = refl; on_cancel = refl; on_expiry = refl };
      same_name = refl;
      same_total = refl;
      raised = omega (arith, v.valid.agrees product_id p known);
      same_sales = refl;
      room = ground (arith, v.valid.agrees product_id p known);
    }

    abbrev pub opened : Reservation
    opened = new_reservation product_id user_id now s

    granted-IsConsistent :
        IsConsistent
          (insert product_id (add_hold p) s.repo.products)
          (insert opened.reservation_id opened s.repo.reservations)
          (s.id_counter + 1)
    granted-IsConsistent =
        subst
          (λ m.
            IsConsistent (insert product_id (add_hold p) s.repo.products)
              (insert (format_id res_prefix m) opened s.repo.reservations) (s.id_counter + 1))
          (sym next_ids.0) (open-IsConsistent v.valid p (add_hold p) opened known grant-Opens)

    pub unused : lookup opened.reservation_id s.repo.reservations ≡ none
    unused =
        subst (λ m. lookup (format_id res_prefix m) s.repo.reservations ≡ none) (sym next_ids.0)
          (v.valid.fresh (s.id_counter + 1) (omega arith))

    pub grant-IsSound : IsSound (b + 3) (grant (in_memory order) product_id user_id now s).1
    grant-IsSound = rw (grant-granted order product_id user_id now s p known) (record {
      valid = later-IsConsistent granted-IsConsistent _ (omega (arith, next_ids));
      spent = omega (
        arith,
        v.spent,
        next_ids,
        sum_of-insert_new live opened.reservation_id opened s.repo.reservations unused,
      );
    })
