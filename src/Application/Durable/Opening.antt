-- ===== src/Application/Durable/Opening.antt =====
-- A granted and a rejected reservation of internal/application/reservation_service.go over an undisturbed
-- database.
use inventory_reservation_sy.Base.{
  ℕ, ◌+◌, ◌<◌, ◌≡◌, refl, subst, true, false, [], ◌∷◌, ◌++◌, some, arith, inl, inr,
}
use inventory_reservation_sy.Base.Text.{Text}
use inventory_reservation_sy.Base.Int64.{word, add_int, is_nonpositive}
use inventory_reservation_sy.Base.Time.{Time, before, add_time}
use inventory_reservation_sy.Base.Map.{MapOrder, lookup, insert, lookup-insert_self, insert-cases}
use inventory_reservation_sy.Domain.Inventory.{ProductInventory, available_stock}
use inventory_reservation_sy.Domain.Reservation.{Reservation}
use inventory_reservation_sy.Domain.Event.{InventoryEvent, event_reserved}
use inventory_reservation_sy.Domain.Errors.{Error, err_out_of_stock, ok, err}
use inventory_reservation_sy.Infrastructure.InMemory.{InMemoryRepository}
use inventory_reservation_sy.Infrastructure.Tables.{item_checks, reservation_checks}
use inventory_reservation_sy.Infrastructure.Postgres
use inventory_reservation_sy.Infrastructure.Postgres.{
  Statement, Driver, undisturbed, postgres, get_product, update_product, save_reservation,
}
use inventory_reservation_sy.Infrastructure.Postgres.Stored.{
  stored, IsKept, append_event-stored, update_product-stored, save_reservation-stored,
}
use inventory_reservation_sy.Application.State.{
  Service, add_hold, event_of, rejection, returning_nil,
}
use inventory_reservation_sy.Application.Service.{grant, reject, append_event}
use inventory_reservation_sy.Application.Effects.{
  numbered, drawn, new_reservation, granted, rejected,
}
use inventory_reservation_sy.Application.Invariant.{Agrees, IsSound}
use inventory_reservation_sy.Application.Invariant.Operations.{unused}
use inventory_reservation_sy.Application.Durable.{over, IsStorable}
use inventory_reservation_sy.Application.Durable.Numbers.{fresh_event, log_grows}

module _ (order : MapOrder Reservation) (violation : Statement → Error) (to_column : Time → Time)
    (now : Time) (whole : to_column now ≡ now) (s : Service InMemoryRepository) (b : ℕ)
    (few : b + 3 < word) (v : IsSound b s) (h : IsStorable to_column s) (k user_id : Text)
    (p : ProductInventory) where
  abbrev db : Driver
  db = undisturbed order violation to_column

  first_number : add_int s.id_counter 1 ≡ s.id_counter + 1
  first_number = omega (arith, v.spent)

  second_number : add_int (add_int s.id_counter 1) 1 ≡ s.id_counter + 2
  second_number = omega (arith, v.spent)

  abbrev refusal : InventoryEvent
  refusal = numbered (rejection k user_id now) s

  pub reject-over :
      reject (postgres db) k user_id now (over s)
      ≡ (err err_out_of_stock, over (rejected k user_id now s))
  unfolding reject append_event
  reject-over = ground (
    arith,
    append_event-stored order violation to_column s.repo refusal
        (fresh_event s.id_counter (add_int s.id_counter 1) s.repo.events
          (omega (arith, first_number)) h.numbered)
        refl whole,
  )

  pub rejected-IsStorable : IsStorable to_column (rejected k user_id now s)
  rejected-IsStorable = record {
    small = h.small;
    kept = h.kept;
    timed = h.timed;
    numbered =
        log_grows s.id_counter (add_int s.id_counter 1) (omega (arith, first_number)) s.repo.events
          refusal h.numbered refl;
  }

  module _ (known : lookup k s.repo.products ≡ some p)
      (left : is_nonpositive (available_stock p) ≡ false)
      (lasting : before now (add_time now s.hold_for) ≡ true)
      (whole_end : to_column (add_time now s.hold_for) ≡ add_time now s.hold_for) where
    abbrev opened : Reservation
    opened = new_reservation k user_id now s

    abbrev first : InMemoryRepository
    first = record (s.repo) {
      reservations = insert opened.reservation_id opened s.repo.reservations;
    }

    abbrev second : InMemoryRepository
    second = record first { products = insert k (add_hold p) s.repo.products }

    abbrev event : InventoryEvent
    event = numbered (event_of event_reserved opened now) (drawn s)

    new-IsKept : IsKept to_column opened
    new-IsKept = record {
      on_create = whole;
      on_expire = whole_end;
      on_confirmed = refl;
      on_cancelled = refl;
      on_expired = refl;
    }

    new_checks : reservation_checks opened ≡ true
    unfolding reservation_checks
    new_checks = ground (arith, lasting)

    agreed : Agrees k p s.repo.reservations
    agreed = v.valid.agrees k p known

    held_name : (add_hold p).product_id ≡ k
    unfolding add_hold
    held_name = agreed.named

    held_checks : item_checks (add_hold p) ≡ true
    unfolding item_checks add_hold available_stock
    held_checks = ground (arith, agreed, h.small k p known, left)

    first_write : save_reservation db opened (stored s.repo) ≡ stored first
    first_write =
        save_reservation-stored order violation to_column s.repo opened p
          (unused s b v few order k user_id now p known left) known new-IsKept new_checks

    second_write : (update_product db k (returning_nil add_hold) (stored first)).0 ≡ stored second
    second_write =
        update_product-stored order violation to_column first k add_hold p known held_name
          agreed.named held_checks

    third_write :
        Postgres.append_event db event (stored second)
        ≡ stored (record second { events = s.repo.events ++ event ∷ [] })
    third_write =
        append_event-stored order violation to_column second event
          (fresh_event s.id_counter (add_int (add_int s.id_counter 1) 1) s.repo.events
            (omega (arith, second_number)) h.numbered)
          (ground (arith, lookup-insert_self opened.reservation_id opened s.repo.reservations))
          whole

    pub grant-over :
        grant (postgres db) k user_id now (over s) ≡ (ok opened, over (granted k user_id now p s))
    unfolding grant append_event get_product
    grant-over = ground (
      arith,
      first_write,
      second_write,
      third_write,
      lookup-insert_self k (add_hold p) s.repo.products,
    )

    same_stock : (add_hold p).total_stock ≡ p.total_stock
    unfolding add_hold
    same_stock = refl

    pub granted-IsStorable : IsStorable to_column (granted k user_id now p s)
    granted-IsStorable = record {
      small = λ j q e. elim (insert-cases k j (add_hold p) q s.repo.products e) [
        | inl (here, new) ↦ ground (arith, new, same_stock, h.small k p known)
        | inr (apart, old) ↦ h.small j q old
      ];
      kept = λ j t e. elim (insert-cases opened.reservation_id j opened t s.repo.reservations e) [
        | inl (here, new) ↦ subst (IsKept to_column) new new-IsKept
        | inr (apart, old) ↦ h.kept j t old
      ];
      timed = λ j t e. elim (insert-cases opened.reservation_id j opened t s.repo.reservations e) [
        | inl (here, new) ↦ rw (← new) lasting
        | inr (apart, old) ↦ h.timed j t old
      ];
      numbered =
          log_grows s.id_counter (add_int (add_int s.id_counter 1) 1) (omega (arith, second_number))
            s.repo.events event h.numbered refl;
    }
