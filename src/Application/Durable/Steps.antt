-- ===== src/Application/Durable/Steps.antt =====
-- The single transitions of internal/application/reservation_service.go over an undisturbed database.
use inventory_reservation_sy.Base.{
  ℕ, ◌+◌, ◌≤◌, ◌<◌, ◌≡◌, refl, subst, ◌∙◌, true, false, [], ◌∷◌, ◌++◌, some, arith, inl, inr,
}
use inventory_reservation_sy.Base.Text.{Text}
use inventory_reservation_sy.Base.Int64.{word, add_int}
use inventory_reservation_sy.Base.Time.{Time}
use inventory_reservation_sy.Base.Map.{
  MapOrder, lookup, insert, lookup-insert_self, insert-cases, sum_of-ge,
}
use inventory_reservation_sy.Domain.Inventory.{ProductInventory}
use inventory_reservation_sy.Domain.Reservation.{Reservation, is_active}
use inventory_reservation_sy.Domain.Event.{
  InventoryEvent, InventoryEventType, event_expired, event_confirmed, event_cancelled,
}
use inventory_reservation_sy.Domain.Errors.{Error, ok}
use inventory_reservation_sy.Infrastructure.InMemory.{InMemoryRepository}
use inventory_reservation_sy.Infrastructure.Tables.{item_checks, reservation_checks, has_event}
use inventory_reservation_sy.Infrastructure.Postgres
use inventory_reservation_sy.Infrastructure.Postgres.{
  update_product, update_reservation, Statement, Driver, undisturbed, postgres, get_product,
  handed_reservation, get_reservation,
}
use inventory_reservation_sy.Infrastructure.Postgres.Stored.{
  stored, IsKept, Transitions, append_event-stored, update_product-stored,
  update_reservation-stored,
}
use inventory_reservation_sy.Application.State.{
  Service, mark_confirmed, mark_cancelled, mark_expired, release_hold, sell_hold, event_of,
  returning_nil,
}
use inventory_reservation_sy.Application.Service.{
  expire_reservation_locked, confirm_active, cancel_active, append_event,
}
use inventory_reservation_sy.Application.Effects.{written, numbered}
use inventory_reservation_sy.Application.Shadow.{
  ShadowAction, shadow_expired, shadow_confirmed, shadow_cancelled,
}
use inventory_reservation_sy.Application.Invariant.{Agrees, IsStamped, IsSound, live, hold_counted}
use inventory_reservation_sy.Application.Durable.{over, IsStorable}
use inventory_reservation_sy.Application.Durable.Numbers.{fresh_event, log_grows}

module _ (order : MapOrder Reservation) (violation : Statement → Error) (to_column : Time → Time)
    (now : Time) (whole : to_column now ≡ now) (s : Service InMemoryRepository) (b : ℕ)
    (few : b < word) (v : IsSound b s) (h : IsStorable to_column s) (id : Text) (r : Reservation)
    (found : lookup id s.repo.reservations ≡ some r) (active : is_active r ≡ true) where
  abbrev db : Driver
  db = undisturbed order violation to_column

  abbrev p : ProductInventory
  p = (v.valid.filed id r found).owner

  owned : lookup r.product_id s.repo.products ≡ some p
  owned = (v.valid.filed id r found).known

  named : r.reservation_id ≡ id
  named = (v.valid.filed id r found).named

  -- The id of the next event, and that the counter does not wrap.
  next_number : add_int s.id_counter 1 ≡ s.id_counter + 1
  next_number = ground (arith, v.spent, few, sum_of-ge live id r s.repo.reservations found, active)

  abbrev event : InventoryEventType → InventoryEvent
  event kind = numbered (event_of kind r now) s

  event_fresh : (kind : InventoryEventType) → has_event (event kind).event_id s.repo.events ≡ false
  event_fresh kind =
      fresh_event s.id_counter (add_int s.id_counter 1) s.repo.events (omega (arith, next_number))
        h.numbered

  -- The three writes of a transition, one after the other.
  module _ (f : Reservation → Reservation) (g : ProductInventory → ProductInventory)
      (changes : Transitions f r) (kept : IsKept to_column (f r))
      (row_fine : reservation_checks (f r) ≡ true) (same_name : (g p).product_id ≡ p.product_id)
      (item_fine : item_checks (g p) ≡ true) where
    abbrev first : InMemoryRepository
    first = record (s.repo) { reservations = insert id (f r) s.repo.reservations }

    abbrev second : InMemoryRepository
    second = record first { products = insert r.product_id (g p) s.repo.products }

    first_write : (update_reservation db id (returning_nil f) (stored s.repo)).0 ≡ stored first
    first_write =
        update_reservation-stored order violation to_column s.repo id f r found named changes kept
          row_fine

    second_write :
        (update_product db r.product_id (returning_nil g) (stored first)).0 ≡ stored second
    second_write =
        let agreed = v.valid.agrees r.product_id p owned in
        update_product-stored order violation to_column first r.product_id g p owned
          (same_name ∙ agreed.named) agreed.named item_fine

    third_write :
        (kind : InventoryEventType)
        → Postgres.append_event db (event kind) (stored second)
          ≡ stored (record second { events = s.repo.events ++ event kind ∷ [] })
    third_write kind =
        append_event-stored order violation to_column second (event kind) (event_fresh kind)
          (ground (arith, named, lookup-insert_self id (f r) s.repo.reservations)) whole

    three_writes :
        (kind : InventoryEventType)
        → ((update_reservation db id (returning_nil f) (stored s.repo)).0 ≡ stored first)
          × ((update_product db r.product_id (returning_nil g) (stored first)).0 ≡ stored second)
          × (Postgres.append_event db (event kind) (stored second)
              ≡ stored (record second { events = s.repo.events ++ event kind ∷ [] }))
    three_writes kind = (first_write, second_write, third_write kind)

  released_name : (release_hold p).product_id ≡ p.product_id
  unfolding release_hold
  released_name = refl

  sold_name : (sell_hold p).product_id ≡ p.product_id
  unfolding sell_hold
  sold_name = refl

  -- What each transition asks of the constraints.
  was : IsStamped r
  was = (v.valid.filed id r found).stamped

  pub expired-IsKept : IsKept to_column (mark_expired now r)
  unfolding mark_expired
  expired-IsKept = ground (arith, h.kept id r found, whole)

  pub confirmed-IsKept : IsKept to_column (mark_confirmed now r)
  unfolding mark_confirmed
  confirmed-IsKept = ground (arith, h.kept id r found, whole)

  pub cancelled-IsKept : IsKept to_column (mark_cancelled now r)
  unfolding mark_cancelled
  cancelled-IsKept = ground (arith, h.kept id r found, whole)

  expired_checks : reservation_checks (mark_expired now r) ≡ true
  unfolding mark_expired reservation_checks
  expired_checks = ground (arith, h.timed id r found, was, active)

  confirmed_checks : reservation_checks (mark_confirmed now r) ≡ true
  unfolding mark_confirmed reservation_checks
  confirmed_checks = ground (arith, h.timed id r found, was, active)

  cancelled_checks : reservation_checks (mark_cancelled now r) ≡ true
  unfolding mark_cancelled reservation_checks
  cancelled_checks = ground (arith, h.timed id r found, was, active)

  counts : (1 ≤ p.active_reservation_count) × Agrees r.product_id p s.repo.reservations
  counts = (hold_counted v.valid id r found active p owned, v.valid.agrees r.product_id p owned)

  released_checks : item_checks (release_hold p) ≡ true
  unfolding item_checks release_hold
  released_checks = ground (arith, counts, h.small r.product_id p owned)

  sold_checks : item_checks (sell_hold p) ≡ true
  unfolding item_checks sell_hold
  sold_checks = ground (arith, counts, h.small r.product_id p owned)

  pub expired-Transitions : Transitions (mark_expired now) r
  unfolding mark_expired
  expired-Transitions = ground arith

  pub confirmed-Transitions : Transitions (mark_confirmed now) r
  unfolding mark_confirmed
  confirmed-Transitions = ground arith

  pub cancelled-Transitions : Transitions (mark_cancelled now) r
  unfolding mark_cancelled
  cancelled-Transitions = ground arith

  pub expire-over :
      expire_reservation_locked (postgres db) id now (over s)
      ≡ over (
          written shadow_expired
            (release_hold p)
            id
            (mark_expired now r)
            (event_of event_expired r now)
            s)
  unfolding expire_reservation_locked append_event get_product handed_reservation get_reservation
      mark_expired
  expire-over =
      let w =
        three_writes (mark_expired now) release_hold expired-Transitions expired-IsKept
          expired_checks released_name released_checks event_expired in
      ground (
        arith,
        found,
        w,
        lookup-insert_self id (mark_expired now r) s.repo.reservations,
        lookup-insert_self r.product_id (release_hold p) s.repo.products,
      )

  pub confirm_active-over : confirm_active (postgres db) id r now (over s) ≡ (
    ok (mark_confirmed now r),
    over (
        written shadow_confirmed
          (sell_hold p)
          id
          (mark_confirmed now r)
          (event_of event_confirmed r now)
          s),
  )
  unfolding confirm_active append_event get_product handed_reservation get_reservation
      mark_confirmed
  confirm_active-over =
      let w =
        three_writes (mark_confirmed now) sell_hold confirmed-Transitions confirmed-IsKept
          confirmed_checks sold_name sold_checks event_confirmed in
      ground (arith, found, w, lookup-insert_self r.product_id (sell_hold p) s.repo.products)

  pub cancel_active-over : cancel_active (postgres db) id r now (over s) ≡ (
    ok (mark_cancelled now r),
    over (
        written shadow_cancelled
          (release_hold p)
          id
          (mark_cancelled now r)
          (event_of event_cancelled r now)
          s),
  )
  unfolding cancel_active append_event get_product handed_reservation get_reservation mark_cancelled
  cancel_active-over =
      let w =
        three_writes (mark_cancelled now) release_hold cancelled-Transitions cancelled-IsKept
          cancelled_checks released_name released_checks event_cancelled in
      ground (arith, found, w, lookup-insert_self r.product_id (release_hold p) s.repo.products)

  -- A transition keeps the tables writable.
  pub settled-IsStorable :
      (action : ShadowAction) (f : Reservation → Reservation)
      (g : ProductInventory → ProductInventory) (kind : InventoryEventType)
      → Transitions f r
      → IsKept to_column (f r)
      → (g p).total_stock ≡ p.total_stock
      → IsStorable to_column (written action (g p) id (f r) (event_of kind r now) s)
  settled-IsStorable action f g kind changes kept same = record {
    small = λ k q e. elim (insert-cases (f r).product_id k (g p) q s.repo.products e) [
      | inl (here, new) ↦ ground (arith, new, same, h.small r.product_id p owned)
      | inr (apart, old) ↦ h.small k q old
    ];
    kept = λ k t e. elim (insert-cases id k (f r) t s.repo.reservations e) [
      | inl (here, new) ↦ subst (IsKept to_column) new kept
      | inr (apart, old) ↦ h.kept k t old
    ];
    timed = λ k t e. elim (insert-cases id k (f r) t s.repo.reservations e) [
      | inl (here, new) ↦ rw (← new) (ground (arith, changes, h.timed id r found))
      | inr (apart, old) ↦ h.timed k t old
    ];
    numbered =
        log_grows s.id_counter (add_int s.id_counter 1) (omega (arith, next_number)) s.repo.events
          (event kind) h.numbered refl;
  }
