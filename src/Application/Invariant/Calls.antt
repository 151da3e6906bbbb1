-- ===== src/Application/Invariant/Calls.antt =====
-- internal/application/reservation_service.go, each call of the service on each branch, and the
-- invariant.
use inventory_reservation_sy.Base.{
  ℕ, ◌+◌, ◌≤◌, ◌<◌, ◌≡◌, sym, subst, some, arith, inl, inr, Bool-cases, Option-cases,
}
use inventory_reservation_sy.Base.Text.{Text}
use inventory_reservation_sy.Base.Int64.{word, is_nonpositive}
use inventory_reservation_sy.Base.Time.{Time, before}
use inventory_reservation_sy.Base.Map.{MapOrder, lookup}
use inventory_reservation_sy.Domain.Inventory.{available_stock}
use inventory_reservation_sy.Domain.Reservation.{Reservation, is_active}
use inventory_reservation_sy.Infrastructure.InMemory.{
  InMemoryRepository, in_memory, get_product, get_reservation,
}
use inventory_reservation_sy.Application.State.{Service}
use inventory_reservation_sy.Application.Service.{
  expire_for_product_locked, reserve_checked, reserve_item, confirm_locked, confirm_reservation,
  cancel_locked, cancel_reservation,
}
use inventory_reservation_sy.Application.Invariant.Defs.{IsSound}
use inventory_reservation_sy.Application.Invariant.Operations.{
  expire-IsSound, confirm_active-IsSound, cancel_active-IsSound, reject-IsSound, grant-IsSound,
}
use inventory_reservation_sy.Application.Invariant.Snapshot.{expire_for_product-IsSound}

pub IsSound-mono : {s : Service InMemoryRepository} (a b : ℕ) → a ≤ b → IsSound a s → IsSound b s
IsSound-mono a b h v = record { valid = v.valid; spent = omega (arith, v.spent) }

module _ (order : MapOrder Reservation) (b : ℕ) (now : Time) where
  module _ (product_id user_id : Text) (few : b + 3 < word) where
    reserve_checked-IsSound :
        (s : Service InMemoryRepository)
        → IsSound b s
        → IsSound
            (b + 3)
            (reserve_checked
              (in_memory order)
              product_id
              user_id
              now
              (lookup product_id s.repo.products)
              s).1
    unfolding reserve_checked
    reserve_checked-IsSound s v = elim (Option-cases (lookup product_id s.repo.products)) [
      | inl missing ↦ rw missing (IsSound-mono b (b + 3) (omega arith) v)
      | inr (p, known) ↦ rw known (elim (Bool-cases (is_nonpositive (available_stock p))) [
        | inl out ↦ rw out (reject-IsSound s b v few order product_id user_id now p)
        | inr left ↦ rw left (grant-IsSound s b v few order product_id user_id now p known left)
      ])
    ]

    pub reserve_item-IsSound :
        (s : Service InMemoryRepository)
        → IsSound b s
        → IsSound (b + 3) (reserve_item (in_memory order) product_id user_id now s).1
    unfolding reserve_item get_product
    reserve_item-IsSound s v =
        reserve_checked-IsSound (expire_for_product_locked (in_memory order) product_id now s)
          (expire_for_product-IsSound order now product_id s b (omega arith) v)

  module _ (s : Service InMemoryRepository) (v : IsSound b s) (few : b < word) (id : Text)
      (r : Reservation) (found : lookup id s.repo.reservations ≡ some r) where
    stored_self : lookup r.reservation_id s.repo.reservations ≡ some r
    stored_self =
        subst (λ k. lookup k s.repo.reservations ≡ some r) (sym (v.valid.filed id r found).named)
          found

    pub confirm_locked-IsSound : IsSound b (confirm_locked (in_memory order) id now s).1
    unfolding confirm_locked get_reservation
    confirm_locked-IsSound = rw found (elim (Bool-cases (is_active r)) [
      | inl active ↦ rw active (elim (Bool-cases (before now r.expires_at)) [
        | inl early ↦ rw early (confirm_active-IsSound s b v few id r found active order now)
        | inr due ↦
            rw due (expire-IsSound s b v few r.reservation_id r stored_self active order now)
      ])
      | inr ended ↦ rw ended v
    ])

    pub cancel_locked-IsSound : IsSound b (cancel_locked (in_memory order) id now s).1
    unfolding cancel_locked get_reservation
    cancel_locked-IsSound = rw found (elim (Bool-cases (is_active r)) [
      | inl active ↦ rw active (cancel_active-IsSound s b v few id r found active order now)
      | inr ended ↦ rw ended v
    ])

  module _ (s : Service InMemoryRepository) (v : IsSound b s) (few : b < word) (id : Text) where
    pub confirm_reservation-IsSound : IsSound b (confirm_reservation (in_memory order) id now s).1
    unfolding confirm_reservation get_reservation
    confirm_reservation-IsSound = elim (Option-cases (lookup id s.repo.reservations)) [
      | inl missing ↦ rw (missing, confirm_reservation) v
      | inr (r, found) ↦ rw (found, confirm_reservation) (confirm_locked-IsSound s v few id r found)
    ]

    pub cancel_reservation-IsSound : IsSound b (cancel_reservation (in_memory order) id now s).1
    unfolding cancel_reservation get_reservation
    cancel_reservation-IsSound = elim (Option-cases (lookup id s.repo.reservations)) [
      | inl missing ↦ rw (missing, cancel_reservation) v
      | inr (r, found) ↦ rw (found, cancel_reservation) (cancel_locked-IsSound s v few id r found)
    ]
