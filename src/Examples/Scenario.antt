-- ===== src/Examples/Scenario.antt =====
-- The states and calls of the examples: one product with two units.
use mathlib.Core.List.{Permᴰ}
use mathlib.Core.List.Permᴰ
use inventory_reservation_sy.Base.{
  ℕ, ◌≡◌, refl, List, [], ◌∷◌, none, some, All, ◌+◌, ◌*◌, select, arith,
}
use inventory_reservation_sy.Base.Text.{Text, codes, text_eq, decimal}
use inventory_reservation_sy.Base.Map.{MapOrder, lookup, insert, values}
use inventory_reservation_sy.Base.Time.{Duration, pos, minute}
use inventory_reservation_sy.Domain.Inventory.{ProductInventory, available_stock}
use inventory_reservation_sy.Domain.Reservation.{active, Reservation}
use inventory_reservation_sy.Infrastructure.InMemory.{
  InMemoryRepository, get_product, active_reservations_by_product, handed_reservation,
  get_reservation, append_event, update_product, save_reservation, update_reservation,
}
use inventory_reservation_sy.Application.State.{
  Service, format_id, res_prefix, mark_confirmed, sell_hold, add_hold,
}
use inventory_reservation_sy.Application.Service.{
  reserve_item, reserve_checked, expire_for_product_locked, expire_stale, confirm_reservation,
  confirm_locked, confirm_active, grant, reject,
}
use inventory_reservation_sy.Application.Invariant.{IsSound}
use inventory_reservation_sy.Application.History.{
  Call, reserve, confirm, perform, run, add_seeds, start,
}
use inventory_reservation_sy.Application.History.Stock.{FitsInt, start-IsSound, run-IsSound}

-- Go may visit a map in any order; here it is the order of insertion.
abbrev pub as_inserted : {A : Type 0} → MapOrder A
as_inserted = record { arrange = λ xs. xs; arrange-perm = λ xs. Permᴰ.refl xs }

-- The second entry first.
abbrev swap_two : {A : Type 0} → List A → List A
swap_two (a ∷ b ∷ xs) = b ∷ a ∷ xs
swap_two xs = xs

pub swap_two-perm : {A : Type 0} (xs : List A) → Permᴰ xs (swap_two xs)
swap_two-perm [] = Permᴰ.nil
swap_two-perm (a ∷ []) = Permᴰ.refl (a ∷ [])
swap_two-perm (a ∷ b ∷ xs) = Permᴰ.swap refl refl

abbrev pub last_first : {A : Type 0} → MapOrder A
last_first = record { arrange = λ xs. swap_two xs; arrange-perm = λ xs. swap_two-perm xs }

abbrev pub sku : Text
sku = codes "sku-1"

abbrev pub seeds : List (Text × ℕ)
seeds = (sku, 2) ∷ []

abbrev pub first_id : Text
first_id = format_id res_prefix 1

abbrev pub two_minutes : Duration
two_minutes = pos (2 * minute)

abbrev pub first_call : List Call
first_call = reserve as_inserted sku (codes "ann") 10 ∷ []

-- Of two units one is sold and one is held, and a third user is refused.
abbrev pub calls : List Call
calls =
    reserve as_inserted sku (codes "ann") 10
    ∷ confirm as_inserted first_id 20
    ∷ reserve as_inserted sku (codes "ben") 30
    ∷ reserve as_inserted sku (codes "cy") 40
    ∷ []

abbrev pub fresh : Service InMemoryRepository
fresh = start seeds two_minutes

abbrev pub held_once : Service InMemoryRepository
held_once = run first_call fresh

abbrev pub after : Service InMemoryRepository
after = run calls fresh

pub seeds-FitsInt : All FitsInt seeds
seeds-FitsInt = (omega arith, tt)

pub fresh-IsSound : IsSound 0 fresh
fresh-IsSound = start-IsSound seeds two_minutes seeds-FitsInt

pub held_once-IsSound : IsSound 3 held_once
held_once-IsSound = run-IsSound first_call 0 fresh (omega arith) fresh-IsSound

pub after-IsSound : IsSound 12 after
after-IsSound = run-IsSound calls 0 fresh (omega arith) fresh-IsSound

abbrev pub half_sold : ProductInventory
half_sold = record {
  product_id = sku;
  total_stock = 2;
  confirmed_count = 1;
  active_reservation_count = 1;
}

pub after_product : get_product sku after.repo ≡ some half_sold
unfolding get_product lookup run perform reserve_item reserve_checked expire_for_product_locked
    expire_stale active_reservations_by_product select start add_seeds confirm_reservation
    confirm_locked confirm_active handed_reservation get_reservation grant insert values text_eq
    available_stock append_event update_product save_reservation format_id decimal
    update_reservation mark_confirmed sell_hold add_hold reject
after_product = refl

abbrev pub first_hold : Reservation
first_hold = record {
  reservation_id = first_id;
  product_id = sku;
  user_id = codes "ann";
  state = active;
  created_at = 10;
  expires_at = 10 + 2 * minute;
  confirmed_at = none;
  cancelled_at = none;
  expired_at = none;
}

pub first_stored : lookup first_id held_once.repo.reservations ≡ some first_hold
unfolding get_product lookup run perform reserve_item reserve_checked expire_for_product_locked
    expire_stale active_reservations_by_product select start add_seeds confirm_reservation
    confirm_locked confirm_active handed_reservation get_reservation grant insert values text_eq
    available_stock append_event update_product save_reservation format_id decimal
    update_reservation mark_confirmed sell_hold add_hold reject
first_stored = refl
