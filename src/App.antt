-- ===== src/App.antt =====
-- cmd/app/main.go: one user reserves the only unit, another one tries, and the first one confirms. The
-- readings of the clock are arguments, and what is printed is what the calls return.
use inventory_reservation_sy.Base.{
  ℕ, ◌+◌, ◌*◌, ◌<◌, ◌≡◌, refl, sym, ap, List, [], ◌∷◌, none, arith, length, All, length-perm,
  All-perm, select,
}
use inventory_reservation_sy.Base.Text.{Text, codes, text_eq, decimal}
use inventory_reservation_sy.Base.Time.{Time, pos, minute}
use inventory_reservation_sy.Base.Map.{MapOrder, lookup, insert, values}
use inventory_reservation_sy.Domain.Inventory.{available_stock}
use inventory_reservation_sy.Domain.Reservation.{active, Reservation}
use inventory_reservation_sy.Domain.Errors.{err_out_of_stock, Result, ok, err}
use inventory_reservation_sy.Infrastructure.InMemory.{
  in_memory, get_product, active_reservations_by_product, handed_reservation, get_reservation,
  append_event, update_product, save_reservation, update_reservation,
}
use inventory_reservation_sy.Application.State.{
  format_id, res_prefix, mark_confirmed, add_hold, sell_hold,
}
use inventory_reservation_sy.Application.Service.{
  reserve_item, reserve_checked, expire_for_product_locked, expire_stale, confirm_reservation,
  confirm_locked, confirm_active, get_available_stock, grant, reject,
}
use inventory_reservation_sy.Application.History.{start, add_seeds}

pub record Printed : Type 0 where
  pub alice_reserve : Result Reservation
  pub bob_reserve : Result Reservation
  pub confirm_alice : Result Reservation
  pub available : Result ℕ

-- `r1.ReservationID`, of the zero value if there was an error.
abbrev id_or_empty : Result Reservation → Text
id_or_empty (ok r) = r.reservation_id
id_or_empty (err e) = []

abbrev product : Text
product = codes "sku-1"

unfoldable pub app_main : MapOrder Reservation → Time → Time → Time → Printed
app_main order at_alice at_bob at_confirm =
    let svc = start ((product, 1) ∷ []) (pos (2 * minute)) in
    let (r₁, s₁) = reserve_item (in_memory order) product (codes "alice") at_alice svc in
    let (r₂, s₂) = reserve_item (in_memory order) product (codes "bob") at_bob s₁ in
    let (r₃, s₃) = confirm_reservation (in_memory order) (id_or_empty r₁) at_confirm s₂ in
    record {
      alice_reserve = r₁;
      bob_reserve = r₂;
      confirm_alice = r₃;
      available = get_available_stock (in_memory order) product s₃;
    }

-- What alice holds.
abbrev pub alice_holds : Time → Reservation
alice_holds at = record {
  reservation_id = format_id res_prefix 1;
  product_id = product;
  user_id = codes "alice";
  state = active;
  created_at = at;
  expires_at = at + 2 * minute;
  confirmed_at = none;
  cancelled_at = none;
  expired_at = none;
}

-- There is one order of a list of none and of one.
one_only :
    (x : Reservation) (xs : List Reservation) → length xs ≡ 1 → All (λ z. z ≡ x) xs → xs ≡ x ∷ []
one_only x [] l a = absurd (cc)
one_only x (y ∷ []) l a = ap (λ z. z ∷ []) a.0
one_only x (y ∷ z ∷ xs) l a = absurd (omega (arith, l))

none_only : (xs : List Reservation) → length xs ≡ 0 → xs ≡ []
none_only [] l = refl
none_only (y ∷ xs) l = absurd (cc)

arrange_none : (order : MapOrder Reservation) → order.arrange [] ≡ []
arrange_none order = none_only (order.arrange []) (sym (length-perm (order.arrange-perm [])))

arrange_one : (order : MapOrder Reservation) (r : Reservation) → order.arrange (r ∷ []) ≡ r ∷ []
arrange_one order r =
    one_only r (order.arrange (r ∷ [])) (sym (length-perm (order.arrange-perm (r ∷ []))))
      (All-perm (λ z. z ≡ r) (order.arrange-perm (r ∷ [])) (refl, tt))

-- If bob tries and alice confirms before two minutes are over, the program prints what it expects:
-- alice's hold, out of stock for bob, alice's confirmed reservation, and no stock left.
pub app_as_expected :
    (order : MapOrder Reservation) (at_alice at_bob at_confirm : Time)
    → at_bob < at_alice + 2 * minute
    → at_confirm < at_alice + 2 * minute
    → app_main order at_alice at_bob at_confirm ≡ record {
      alice_reserve = ok (alice_holds at_alice);
      bob_reserve = err err_out_of_stock;
      confirm_alice = ok (mark_confirmed at_confirm (alice_holds at_alice));
      available = ok 0;
    }
unfolding app_main lookup insert values select text_eq decimal format_id add_seeds start get_product
    handed_reservation get_reservation update_product update_reservation save_reservation
    append_event active_reservations_by_product available_stock add_hold sell_hold mark_confirmed
    reserve_item reserve_checked expire_for_product_locked expire_stale grant reject
    confirm_reservation confirm_locked confirm_active get_available_stock
app_as_expected order at_alice at_bob at_confirm in_time confirmed_in_time = ground (
  arith,
  arrange_none order,
  arrange_one order (alice_holds at_alice),
  in_time,
  confirmed_in_time,
)
