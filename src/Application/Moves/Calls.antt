-- ===== src/Application/Moves/Calls.antt =====
-- The calls of internal/application/reservation_service.go as sequences of moves.
use inventory_reservation_sy.Base.{
  ℕ, ◌+◌, ◌<◌, ◌≡◌, refl, subst, sym, true, false, List, [], ◌∷◌, some, arith, inl, inr, Bool-cases,
  Option-cases, All, Apart,
}
use inventory_reservation_sy.Base.Text.{Text}
use inventory_reservation_sy.Base.Int64.{word, is_nonpositive}
use inventory_reservation_sy.Base.Map.{MapOrder, lookup}
use inventory_reservation_sy.Base.Time.{Time, before}
use inventory_reservation_sy.Domain.Inventory.{available_stock}
use inventory_reservation_sy.Domain.Reservation.{Reservation, is_active}
use inventory_reservation_sy.Infrastructure.InMemory.{
  InMemoryRepository, in_memory, get_product, get_reservation, active_reservations_by_product,
}
use inventory_reservation_sy.Application.State.{Service}
use inventory_reservation_sy.Application.Service.{
  expire_reservation_locked, expire_stale, expire_for_product_locked, reserve_checked, reserve_item,
  confirm_locked, confirm_reservation, cancel_locked, cancel_reservation,
}
use inventory_reservation_sy.Application.Effects.{
  expire-written, confirm-written, cancel-written, grant-granted, reject-rejected,
}
use inventory_reservation_sy.Application.Sweep.{expire_group, expire_reservations}
use inventory_reservation_sy.Application.Sweep.Due.{IsDueId, Differ, expired_state, others-IsDueId}
use inventory_reservation_sy.Application.Sweep.Totals.{
  swept, swept-IsDueId, swept-Apart, expire_reservations-flat,
}
use inventory_reservation_sy.Application.Invariant.{IsValid, IsSound}
use inventory_reservation_sy.Application.Invariant.Operations.{expire-IsSound, unused}
use inventory_reservation_sy.Application.Invariant.Snapshot.{
  IsSnapshot, others-IsListed, by_product-IsSnapshot, expire_for_product-IsSound,
}
use inventory_reservation_sy.Application.Moves.{
  IsHeld, Move, expires, confirms, cancels, grants, rejects, Moves, here, then, Moves-trans,
}

abbrev State : Type 0
State = Service InMemoryRepository

-- Under the invariant the product of an active reservation exists.
IsHeld-of_found :
    (s : State) (v : IsValid s) (id : Text) (r : Reservation)
    (found : lookup id s.repo.reservations ≡ some r) (active : is_active r ≡ true)
    → IsHeld s id r (v.filed id r found).owner
IsHeld-of_found s v id r found active = record {
  found = found;
  active = active;
  owned = (v.filed id r found).known;
}

module _ (order : MapOrder Reservation) (now : Time) where
  expire-Move :
      (s : State) (v : IsValid s) (id : Text) (r : Reservation)
      → lookup id s.repo.reservations ≡ some r
      → is_active r ≡ true
      → before now r.expires_at ≡ false
      → Move s (expire_reservation_locked (in_memory order) id now s)
  expire-Move s v id r found active late =
      let h = IsHeld-of_found s v id r found active in
      rw (expire-written order id now s r found _ h.owned) (expires id r _ now h late)

  expire_stale-Moves :
      (todo : List Reservation) (s : State) (b : ℕ)
      → b < word
      → IsSound b s
      → IsSnapshot s.repo.reservations todo
      → Moves s (expire_stale (in_memory order) now todo s)
  unfolding expire_stale
  expire_stale-Moves [] s b few v t = here
  expire_stale-Moves (r ∷ rest) s b few v t = elim (Bool-cases (before now r.expires_at)) [
    | inl early ↦
        rw early
          (expire_stale-Moves rest s b few v (record { listed = t.listed.1; apart = t.apart.1 }))
    | inr late ↦ rw late (
        then (expire-Move s v.valid r.reservation_id r t.listed.0.stored t.listed.0.active late) (
          expire_stale-Moves rest _ b few
            (expire-IsSound s b v few r.reservation_id r t.listed.0.stored t.listed.0.active order
              now)
            (record {
              listed =
                  others-IsListed order now s r v.valid t.listed.0.stored rest t.apart.0 t.listed.1;
              apart = t.apart.1;
            })))
  ]

  -- Lazy expiry only expires.
  pub expire_for_product-Moves :
      (product_id : Text) (s : State) (b : ℕ)
      → b < word
      → IsSound b s
      → Moves s (expire_for_product_locked (in_memory order) product_id now s)
  unfolding expire_for_product_locked
  expire_for_product-Moves product_id s b few v =
      expire_stale-Moves (active_reservations_by_product order product_id s.repo) s b few v
        (by_product-IsSnapshot v.valid order product_id s.repo refl)

  reserve_checked-Moves :
      (product_id user_id : Text) (s : State) (b : ℕ)
      → b + 3 < word
      → IsSound b s
      → Moves s
          (reserve_checked
            (in_memory order)
            product_id
            user_id
            now
            (lookup product_id s.repo.products)
            s).1
  unfolding reserve_checked
  reserve_checked-Moves product_id user_id s b few v =
      elim (Option-cases (lookup product_id s.repo.products)) [
        | inl missing ↦ rw missing here
        | inr (p, known) ↦ rw known (elim (Bool-cases (is_nonpositive (available_stock p))) [
          | inl out ↦
              rw (out, reject-rejected order product_id user_id now s p)
                (then (rejects product_id user_id p now known out) here)
          | inr left ↦
              rw (left, grant-granted order product_id user_id now s p known)
                (then
                  (grants product_id user_id p now known left
                    (unused s b v few order product_id user_id now p known left))
                  here)
        ])
      ]

  -- A reservation lazily expires stale holds, and then grants, rejects, or does nothing.
  pub reserve_item-Moves :
      (product_id user_id : Text) (s : State) (b : ℕ)
      → b + 3 < word
      → IsSound b s
      → Moves s (reserve_item (in_memory order) product_id user_id now s).1
  unfolding reserve_item get_product
  reserve_item-Moves product_id user_id s b few v =
      Moves-trans (expire_for_product-Moves product_id s b (omega arith) v) (
        reserve_checked-Moves product_id user_id
          (expire_for_product_locked (in_memory order) product_id now s) b few
          (expire_for_product-IsSound order now product_id s b (omega arith) v))

  module _ (s : State) (v : IsValid s) (id : Text) where
    confirm_locked-Moves :
        (r : Reservation)
        → lookup id s.repo.reservations ≡ some r
        → Moves s (confirm_locked (in_memory order) id now s).1
    unfolding confirm_locked get_reservation
    confirm_locked-Moves r found = rw found (elim (Bool-cases (is_active r)) [
      | inl active ↦
          let h = IsHeld-of_found s v id r found active in
          rw active (elim (Bool-cases (before now r.expires_at)) [
            | inl early ↦
                rw (early, confirm-written order id now s r found _ h.owned)
                  (then (confirms id r _ now h early) here)
            | inr late ↦ rw late (
                then
                  (expire-Move s v r.reservation_id r
                    (subst (λ k. lookup k s.repo.reservations ≡ some r)
                      (sym (v.filed id r found).named) found)
                    active late)
                  here)
          ])
      | inr ended ↦ rw ended here
    ])

    pub confirm_reservation-Moves : Moves s (confirm_reservation (in_memory order) id now s).1
    unfolding confirm_reservation get_reservation
    confirm_reservation-Moves = elim (Option-cases (lookup id s.repo.reservations)) [
      | inl missing ↦ rw (missing, confirm_reservation) here
      | inr (r, found) ↦ rw (found, confirm_reservation) (confirm_locked-Moves r found)
    ]

    cancel_locked-Moves :
        (r : Reservation)
        → lookup id s.repo.reservations ≡ some r
        → Moves s (cancel_locked (in_memory order) id now s).1
    unfolding cancel_locked get_reservation
    cancel_locked-Moves r found = rw found (elim (Bool-cases (is_active r)) [
      | inl active ↦
          let h = IsHeld-of_found s v id r found active in
          rw (active, cancel-written order id now s r found _ h.owned)
            (then (cancels id r _ now h) here)
      | inr ended ↦ rw ended here
    ])

    pub cancel_reservation-Moves : Moves s (cancel_reservation (in_memory order) id now s).1
    unfolding cancel_reservation get_reservation
    cancel_reservation-Moves = elim (Option-cases (lookup id s.repo.reservations)) [
      | inl missing ↦ rw (missing, cancel_reservation) here
      | inr (r, found) ↦ rw (found, cancel_reservation) (cancel_locked-Moves r found)
    ]

  expire_group-Moves :
      (ids : List Text) (n b : ℕ) (s : State)
      → b < word
      → IsSound b s
      → All (IsDueId now s.repo.reservations) ids
      → Apart Differ ids
      → Moves s (expire_group (in_memory order) now ids (n, s)).1
  unfolding expire_group
  expire_group-Moves [] n b s few v d a = here
  expire_group-Moves (id ∷ ids) n b s few v d a =
      then
        (expire-Move s v.valid id d.0.reservation d.0.stored d.0.active (ground (arith, d.0.late)))
        (expire_group-Moves ids (n + 1) b (expired_state order now id s) few
          (expire-IsSound s b v few id d.0.reservation d.0.stored d.0.active order now)
          (others-IsDueId order now s v.valid id d.0 ids a.0 d.1) a.1)

  -- A sweep only expires.
  pub expire_reservations-Moves :
      (groups : MapOrder (Text × List Text)) (s : State) (b : ℕ)
      → b < word
      → IsSound b s
      → Moves s (expire_reservations (in_memory order) groups now s).1
  expire_reservations-Moves groups s b few v = rw (expire_reservations-flat order groups now s) (
      expire_group-Moves (swept order groups now s) 0 b s few v
        (swept-IsDueId order groups now s v.valid) (swept-Apart order groups now s v.valid))
