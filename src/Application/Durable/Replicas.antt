-- ===== src/Application/Durable/Replicas.antt =====
-- ReserveItem of internal/application/reservation_service.go in two processes that share one
-- database, each with a lock manager of its own.
use inventory_reservation_sy.Base.{◌+◌, ◌≡◌, ◌≢◌, ap, sym, ◌∙◌, true, false, none, some, arith}
use inventory_reservation_sy.Base.Text.{Text}
use inventory_reservation_sy.Base.Int64.{is_nonpositive}
use inventory_reservation_sy.Base.Time.{Time}
use inventory_reservation_sy.Base.Map.{
  MapOrder, lookup, insert, lookup-insert_self, lookup-insert_ne,
}
use inventory_reservation_sy.Domain.Inventory.{ProductInventory, available_stock}
use inventory_reservation_sy.Domain.Reservation.{Reservation}
use inventory_reservation_sy.Domain.Errors.{Error, ok}
use inventory_reservation_sy.Infrastructure.Tables.{Tables, item_checks, reservation_checks}
use inventory_reservation_sy.Infrastructure.Postgres.{
  Statement, Driver, undisturbed, postgres, as_row, put_item, put_reservation, update_product,
  save_reservation, run_upsert_reservation, run_update_item,
}
use inventory_reservation_sy.Application.State.{Service, set_repo, add_hold, returning_nil}
use inventory_reservation_sy.Application.Service.{reserve_checked, grant}
use inventory_reservation_sy.Application.Effects.{new_reservation}
use inventory_reservation_sy.Application.Durable.Faults.{grant_table, grant_items}

module _ (p : ProductInventory) (fine : item_checks p ≡ true)
    (one_left : p.confirmed_count + p.active_reservation_count + 1 ≡ p.total_stock) where
  one_available : is_nonpositive (available_stock p) ≡ false
  unfolding available_stock item_checks
  one_available = ground arith

  hold_fits : item_checks (add_hold p) ≡ true
  unfolding item_checks add_hold
  hold_fits = ground arith

  second_hold_refused : item_checks (add_hold (add_hold p)) ≡ false
  unfolding item_checks add_hold
  second_hold_refused = ground arith

module _ (violation : Statement → Error) (to_column : Time → Time)
    (order : MapOrder Reservation) where
  abbrev db : Driver
  db = undisturbed order violation to_column

  -- A new row.
  save_new :
      (r : Reservation) (p : ProductInventory) (t : Tables)
      → lookup r.reservation_id t.reservations ≡ none
      → lookup r.product_id t.inventory_items ≡ some p
      → reservation_checks (as_row to_column r) ≡ true
      → save_reservation db r t ≡ put_reservation (as_row to_column r) t
  unfolding save_reservation run_upsert_reservation
  save_new r p t absent known fine = ground (arith, absent, known, fine)

  -- The increment is written, or refused for the CHECK.
  hold_written :
      (p : ProductInventory) (t : Tables)
      → lookup p.product_id t.inventory_items ≡ some p
      → item_checks (add_hold p) ≡ true
      → (update_product db p.product_id (returning_nil add_hold) t).0 ≡ put_item (add_hold p) t
  unfolding update_product run_update_item add_hold
  hold_written p t known fine = ground (arith, known, fine)

  hold_refused :
      (p : ProductInventory) (t : Tables)
      → lookup p.product_id t.inventory_items ≡ some p
      → item_checks (add_hold p) ≡ false
      → (update_product db p.product_id (returning_nil add_hold) t).0 ≡ t
  unfolding update_product run_update_item add_hold
  hold_refused p t known refused = ground (arith, known, refused)

  -- A grant over a product that the tables have, under a new id.
  module _ (p : ProductInventory) (user_id : Text) (now : Time) (s : Service Tables)
      (known : lookup p.product_id s.repo.inventory_items ≡ some p) where
    abbrev hold : Reservation
    hold = new_reservation p.product_id user_id now s

    module _ (absent : lookup hold.reservation_id s.repo.reservations ≡ none)
        (fine : reservation_checks (as_row to_column hold) ≡ true) where
      granted_row :
          (grant (postgres db) p.product_id user_id now s).1.repo.reservations
          ≡ insert hold.reservation_id (as_row to_column hold) s.repo.reservations
      granted_row =
          (grant_table db p.product_id user_id now s).1
          ∙ ap (λ t. t.reservations) (save_new hold p s.repo absent known fine)

      counted :
          item_checks (add_hold p) ≡ true
          → (grant (postgres db) p.product_id user_id now s).1.repo.inventory_items
            ≡ insert p.product_id (add_hold p) s.repo.inventory_items
      unfolding add_hold
      counted room =
          grant_items db p.product_id user_id now s
          ∙ ap (λ t. (update_product db p.product_id (returning_nil add_hold) t).0.inventory_items)
              (save_new hold p s.repo absent known fine)
          ∙ ap (λ t. t.inventory_items)
              (hold_written p (put_reservation (as_row to_column hold) s.repo) known room)

      uncounted :
          item_checks (add_hold p) ≡ false
          → (grant (postgres db) p.product_id user_id now s).1.repo.inventory_items
            ≡ s.repo.inventory_items
      uncounted full =
          grant_items db p.product_id user_id now s
          ∙ ap (λ t. (update_product db p.product_id (returning_nil add_hold) t).0.inventory_items)
              (save_new hold p s.repo absent known fine)
          ∙ ap (λ t. t.inventory_items)
              (hold_refused p (put_reservation (as_row to_column hold) s.repo) known full)

  -- One unit of a product is left. Two processes read it, and then each of them, with new ids that
  -- differ, goes on with ReserveItem, one after the other. Both answer with a reservation, both
  -- rows are stored as active ones, and the product counts one of them only: the CHECK refuses the
  -- second increment, and the reservation is there already.
  pub two_holds_one_unit :
      (p : ProductInventory) (user_a user_b : Text) (now_a now_b : Time) (a b : Service Tables)
      → item_checks p ≡ true
      → p.confirmed_count + p.active_reservation_count + 1 ≡ p.total_stock
      → lookup p.product_id a.repo.inventory_items ≡ some p
      → let hold_a = new_reservation p.product_id user_a now_a a in
        let hold_b = new_reservation p.product_id user_b now_b b in
        hold_a.reservation_id ≢ hold_b.reservation_id
        → lookup hold_a.reservation_id a.repo.reservations ≡ none
        → lookup hold_b.reservation_id a.repo.reservations ≡ none
        → reservation_checks (as_row to_column hold_a) ≡ true
        → reservation_checks (as_row to_column hold_b) ≡ true
        → let (answer_a, a') = reserve_checked (postgres db) p.product_id user_a now_a (some p) a in
          let (answer_b, b') =
            reserve_checked (postgres db) p.product_id user_b now_b (some p) (set_repo a'.repo b) in
          (answer_a ≡ ok hold_a)
          × (answer_b ≡ ok hold_b)
          × (lookup hold_a.reservation_id b'.repo.reservations ≡ some (as_row to_column hold_a))
          × (lookup hold_b.reservation_id b'.repo.reservations ≡ some (as_row to_column hold_b))
          × (lookup p.product_id b'.repo.inventory_items ≡ some (add_hold p))
  unfolding reserve_checked add_hold
  two_holds_one_unit p user_a user_b now_a now_b a b fine one_left known differ absent_a absent_b
        fine_a fine_b =
      let hold_a = new_reservation p.product_id user_a now_a a in
      let hold_b = new_reservation p.product_id user_b now_b b in
      let id_a = hold_a.reservation_id in
      let id_b = hold_b.reservation_id in
      let s_a = (grant (postgres db) p.product_id user_a now_a a).1 in
      let row_a = granted_row p user_a now_a a known absent_a fine_a in
      let items_a = counted p user_a now_a a known absent_a fine_a (hold_fits p fine one_left) in
      let known_b : lookup p.product_id s_a.repo.inventory_items ≡ some (add_hold p) =
        ap (lookup p.product_id) items_a
        ∙ lookup-insert_self p.product_id (add_hold p) a.repo.inventory_items in
      let still_absent : lookup id_b s_a.repo.reservations ≡ none =
        ap (lookup id_b) row_a
        ∙ lookup-insert_ne id_a id_b (as_row to_column hold_a) a.repo.reservations differ
        ∙ absent_b in
      let row_b =
        granted_row (add_hold p) user_b now_b (set_repo s_a.repo b) known_b still_absent fine_b in
      let items_b =
        uncounted (add_hold p) user_b now_b (set_repo s_a.repo b) known_b still_absent fine_b
          (second_hold_refused p fine one_left) in
      rw (one_available p fine one_left) (
        (grant_table db p.product_id user_a now_a a).0,
        (grant_table db p.product_id user_b now_b (set_repo s_a.repo b)).0,
        ap (lookup id_a) row_b
            ∙ lookup-insert_ne id_b id_a (as_row to_column hold_b) s_a.repo.reservations
                (λ e. differ (sym e))
            ∙ ap (lookup id_a) row_a
            ∙ lookup-insert_self id_a (as_row to_column hold_a) a.repo.reservations,
        ap (lookup id_b) row_b
            ∙ lookup-insert_self id_b (as_row to_column hold_b) s_a.repo.reservations,
        ap (lookup p.product_id) items_b ∙ known_b,
      )
