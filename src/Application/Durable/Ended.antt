-- ===== src/Application/Durable/Ended.antt =====
-- internal/application/reservation_service.go over a database that may refuse any statement of a
-- call: what becomes of a reservation that is not active.
use inventory_reservation_sy.Base.{
  ◌&&◌, ◌≡◌, ◌≢◌, sym, subst, ◌∙◌, List, some, Option-cases, Bool-cases, inl, inr, true, false,
  arith, All, All-select_of,
}
use inventory_reservation_sy.Base.Text.{Text, text_eq, eq_iff}
use inventory_reservation_sy.Base.Map.{MapOrder, lookup, lookup-insert, values}
use inventory_reservation_sy.Base.Time.{Time}
use inventory_reservation_sy.Domain.Inventory.{ProductInventory}
use inventory_reservation_sy.Domain.Reservation.{Reservation, is_active}
use inventory_reservation_sy.Domain.Event.{InventoryEvent}
use inventory_reservation_sy.Infrastructure.Tables.{Tables, is_present, reservation_checks}
use inventory_reservation_sy.Infrastructure.Postgres.{
  Driver, Statement, select_active, select_active_of, upsert_reservation, run_upsert_reservation,
  save_reservation, active_reservations_by_product, insert_event, postgres, put_reservation,
  set_state, as_row, run_insert_event, run_update_item, run_update_reservation, append_event,
  get_reservation, all_active_reservations,
}
use inventory_reservation_sy.Infrastructure.Postgres.Kept.{
  checked-Kept, exec-Kept, update_product-Kept, update_reservation-Kept,
}
use inventory_reservation_sy.Application.State.{Service}
use inventory_reservation_sy.Application.Service.{
  expire_for_product_locked, reserve_item, confirm_reservation, cancel_reservation,
}
use inventory_reservation_sy.Application.Effects.{new_reservation}
use inventory_reservation_sy.Application.Sweep.{expire_reservations}
use inventory_reservation_sy.Application.Sweep.Groups.{id_of}
use inventory_reservation_sy.Application.Preserved.{
  KeptBy, reserve_item-Kept, confirm_reservation-Kept, cancel_reservation-Kept,
  expire_reservations-Kept,
}

-- Every row stands under its own id.
abbrev pub IsNamed : Tables → Type 0
IsNamed t = (k : Text) (x : Reservation) → lookup k t.reservations ≡ some x → x.reservation_id ≡ k

-- The rows that a SELECT hands over are rows of the table.
abbrev pub HandsStored : Driver → Statement → Tables → Type 0
HandsStored d st t =
    All (λ x. lookup x.reservation_id t.reservations ≡ some x) (d.scan st t (values t.reservations))

module _ (d : Driver) (id : Text) (r : Reservation) where
  record Stays (t : Tables) : Type 0 where
    named : IsNamed t
    there : lookup id t.reservations ≡ some r

  same-Stays : (t t' : Tables) → t'.reservations ≡ t.reservations → Stays t → Stays t'
  same-Stays t t' same v = record { named = rw same v.named; there = rw same v.there }

  put_reservation-Stays :
      (new : Reservation) (t : Tables)
      → new.reservation_id ≢ id
      → Stays t
      → Stays (put_reservation new t)
  put_reservation-Stays new t other v = record {
    named = λ k x h. ground (
      arith,
      v.named k x,
      lookup-insert new.reservation_id k new t.reservations,
      eq_iff new.reservation_id k,
    );
    there = ground (
      arith,
      v.there,
      lookup-insert new.reservation_id id new t.reservations,
      eq_iff new.reservation_id id,
    );
  }

  event-rows :
      (e : InventoryEvent) (t : Tables) → (run_insert_event d e t).0.reservations ≡ t.reservations
  unfolding run_insert_event
  event-rows e t = ground arith

  item-rows :
      (p : ProductInventory) (t : Tables) → (run_update_item d p t).0.reservations ≡ t.reservations
  unfolding run_update_item
  item-rows p t = ground arith

  update_row-Stays :
      (id' : Text) (new row : Reservation) (t : Tables)
      → id' ≢ id
      → new.reservation_id ≡ row.reservation_id
      → lookup id' t.reservations ≡ some row
      → Stays t
      → Stays (run_update_reservation d new t).0
  unfolding run_update_reservation
  update_row-Stays id' new row t other same found v =
      let at : new.reservation_id ≡ id' = same ∙ v.named id' row found in
      let set = set_state (as_row d.to_column new) row in
      elim (Bool-cases (reservation_checks set)) [
        | inl fine ↦
            rw (run_update_reservation, at, found, fine)
              (put_reservation-Stays set t (λ e. other (sym (v.named id' row found) ∙ e)) v)
        | inr broken ↦ rw (run_update_reservation, at, found, broken) v
      ]

  upsert-Stays :
      (x : Reservation) (t : Tables)
      → x.reservation_id ≢ id
      → Stays t
      → Stays (run_upsert_reservation d x t).0
  unfolding run_upsert_reservation
  upsert-Stays x t other v =
      let new = as_row d.to_column x in
      elim (Bool-cases (reservation_checks new)) [
        | inl fine ↦ elim (Option-cases (lookup x.reservation_id t.reservations)) [
          | inl missing ↦
              rw (fine, missing)
                (checked-Kept d Stays (upsert_reservation x)
                  (is_present (lookup x.product_id t.inventory_items)) t (put_reservation new t) v
                  (put_reservation-Stays new t other v))
          | inr (row, found) ↦
              rw (fine, found)
                (checked-Kept d Stays (upsert_reservation x)
                  (reservation_checks (set_state new row)) t (put_reservation (set_state new row) t)
                  v
                  (put_reservation-Stays (set_state new row) t
                    (λ e. other (sym (v.named x.reservation_id row found) ∙ e)) v))
        ]
        | inr broken ↦ rw broken v
      ]

  reads_stored :
      (k : Text) (x : Reservation) (t : Tables)
      → get_reservation d k t ≡ some x
      → lookup k t.reservations ≡ some x
  unfolding get_reservation
  reads_stored k x t h = ground arith

  module _ (ended : is_active r ≡ false) where
    other_id :
        (k : Text) (x : Reservation) (t : Tables)
        → Stays t
        → lookup k t.reservations ≡ some x
        → is_active x ≡ true
        → k ≢ id
    other_id k x t v found active same = ground (arith, v.there, found, ended, active, same)

    writes-Stays : KeptBy (postgres d) Stays (λ k. k ≢ id)
    unfolding append_event save_reservation
    writes-Stays = record {
      by_append = λ e t v.
          exec-Kept d Stays (insert_event e) (run_insert_event d e) t v
            (same-Stays t (run_insert_event d e t).0 (event-rows e t) v);
      by_save = λ x t other v.
          exec-Kept d Stays (upsert_reservation x) (run_upsert_reservation d x) t v
            (upsert-Stays x t other v);
      by_product = λ k fn t v.
          update_product-Kept d Stays k fn t v
            (λ p. same-Stays t (run_update_item d p t).0 (item-rows p t) v);
      by_reservation = λ k f t other same v.
          update_reservation-Kept d Stays k f t v
            (λ x found. update_row-Stays k (f x) x t other (same x) found v);
      by_reading = λ k x t v read active.
          let found = reads_stored k x t read in
          let other = other_id k x t v found active in
          (other, subst (λ j. j ≢ id) (sym (v.named k x found)) other);
    }

    listed-others :
        (t : Tables)
        → HandsStored d select_active t
        → Stays t
        → All (λ x. id_of x ≢ id) (all_active_reservations d t)
    unfolding all_active_reservations
    listed-others t handed v = elim (Option-cases (d.refuses select_active t)) [
      | inl taken ↦
          rw (all_active_reservations, taken)
            (All-select_of (λ x. lookup x.reservation_id t.reservations ≡ some x)
              (λ x. id_of x ≢ id) is_active _
              (λ x active found. other_id x.reservation_id x t v found active) handed)
      | inr (e, refused) ↦ rw (all_active_reservations, refused) tt
    ]

    listed_of-others :
        (k : Text) (t : Tables)
        → HandsStored d (select_active_of k) t
        → Stays t
        → All (λ x. id_of x ≢ id) (active_reservations_by_product d k t)
    unfolding active_reservations_by_product
    listed_of-others k t handed v = elim (Option-cases (d.refuses (select_active_of k) t)) [
      | inl taken ↦
          rw (active_reservations_by_product, taken)
            (All-select_of (λ x. lookup x.reservation_id t.reservations ≡ some x)
              (λ x. id_of x ≢ id) (λ x. text_eq x.product_id k && is_active x) _
              (λ x chosen found. other_id x.reservation_id x t v found (ground (arith, chosen)))
              handed)
      | inr (e, refused) ↦ rw (active_reservations_by_product, refused) tt
    ]

-- Whichever statements the database refuses, with or without having applied them: a row that is not
-- active is as it was after any one call, a reservation, a confirmation, a cancellation or a sweep,
-- of whatever id and at whatever time. The rows have to stand under their own ids, the rows that
-- the SELECTs of active reservations hand over have to be rows of the table, and the id that
-- ReserveItem draws, after its lazy expiry, has to be another one.
pub ended_stays :
    (d : Driver) (s : Service Tables) (id : Text) (r : Reservation) (k user_id j : Text)
    (now : Time) (groups : MapOrder (Text × List Text))
    → IsNamed s.repo
    → HandsStored d select_active s.repo
    → HandsStored d (select_active_of k) s.repo
    → lookup id s.repo.reservations ≡ some r
    → is_active r ≡ false
    → (new_reservation k user_id now
        (expire_for_product_locked (postgres d) k now s)).reservation_id
      ≢ id
    → (lookup id (reserve_item (postgres d) k user_id now s).1.repo.reservations ≡ some r)
      × (lookup id (confirm_reservation (postgres d) j now s).1.repo.reservations ≡ some r)
      × (lookup id (cancel_reservation (postgres d) j now s).1.repo.reservations ≡ some r)
      × (lookup id (expire_reservations (postgres d) groups now s).1.repo.reservations ≡ some r)
ended_stays d s id r k user_id j now groups named handed handed_of there ended other =
    let v : Stays d id r s.repo = record { named = named; there = there } in
    let kept = writes-Stays d id r ended in
    (
      (reserve_item-Kept (postgres d) (Stays d id r) (λ i. i ≢ id) kept k user_id now s
          (listed_of-others d id r ended k s.repo handed_of v) other
          (record { here = v })).here.there,
      (confirm_reservation-Kept (postgres d) (Stays d id r) (λ i. i ≢ id) kept j now s
          (record { here = v })).here.there,
      (cancel_reservation-Kept (postgres d) (Stays d id r) (λ i. i ≢ id) kept j now s
          (record { here = v })).here.there,
      (expire_reservations-Kept (postgres d) (Stays d id r) (λ i. i ≢ id) kept groups now s
          (listed-others d id r ended s.repo handed v) (record { here = v })).here.there,
    )
