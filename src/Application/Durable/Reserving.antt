-- ===== src/Application/Durable/Reserving.antt =====
-- expireForProductLocked and ReserveItem of internal/application/reservation_service.go over an
-- undisturbed database, next to the same calls over the in-memory repository.
use inventory_reservation_sy.Base.{
  ℕ, ◌+◌, ◌<◌, ◌≡◌, refl, sym, subst, true, List, [], ◌∷◌, arith, inl, inr, Bool-cases,
  Option-cases,
}
use inventory_reservation_sy.Base.Text.{Text}
use inventory_reservation_sy.Base.Int64.{word, is_nonpositive}
use inventory_reservation_sy.Base.Time.{Time, Duration, before, add_time}
use inventory_reservation_sy.Base.Map.{MapOrder, lookup}
use inventory_reservation_sy.Domain.Inventory.{available_stock}
use inventory_reservation_sy.Domain.Reservation.{Reservation}
use inventory_reservation_sy.Domain.Errors.{Error}
use inventory_reservation_sy.Infrastructure.InMemory
use inventory_reservation_sy.Infrastructure.InMemory.{InMemoryRepository, in_memory}
use inventory_reservation_sy.Infrastructure.Postgres
use inventory_reservation_sy.Infrastructure.Postgres.{Statement, Driver, undisturbed, postgres}
use inventory_reservation_sy.Application.State.{Service}
use inventory_reservation_sy.Application.Service.{
  expire_reservation_locked, expire_stale, expire_for_product_locked, reserve_checked, reserve_item,
}
use inventory_reservation_sy.Application.Effects.{grant-granted, reject-rejected}
use inventory_reservation_sy.Application.Invariant.{IsSound}
use inventory_reservation_sy.Application.Invariant.Operations.{expire-IsSound}
use inventory_reservation_sy.Application.Invariant.Snapshot.{
  IsSnapshot, others-IsListed, by_product-IsSnapshot, expire_for_product-IsSound,
}
use inventory_reservation_sy.Application.Durable.{over, IsStorable}
use inventory_reservation_sy.Application.Durable.Calls.{Mirrors, MirrorsCall, expire-Mirrors}
use inventory_reservation_sy.Application.Durable.Opening.{
  grant-over, reject-over, granted-IsStorable, rejected-IsStorable,
}

module _ (order : MapOrder Reservation) (violation : Statement → Error) (to_column : Time → Time)
    (hold_for : Duration) (now : Time) (whole : to_column now ≡ now) where
  abbrev db : Driver
  db = undisturbed order violation to_column

  expire_stale-Mirrors :
      (todo : List Reservation) (s : Service InMemoryRepository) (b : ℕ)
      → b < word
      → IsSound b s
      → IsSnapshot s.repo.reservations todo
      → IsStorable to_column s
      → s.hold_for ≡ hold_for
      → Mirrors to_column hold_for
          (expire_stale (postgres db) now todo (over s))
          (expire_stale (in_memory order) now todo s)
  unfolding expire_stale
  expire_stale-Mirrors [] s b few v t h held = record { same = refl; storable = h; holds = held }
  expire_stale-Mirrors (r ∷ rest) s b few v t h held = elim (Bool-cases (before now r.expires_at)) [
    | inl early ↦ rw early (
        expire_stale-Mirrors rest s b few v (record { listed = t.listed.1; apart = t.apart.1 }) h
          held)
    | inr late ↦
        let m =
          expire-Mirrors order violation to_column hold_for now whole s b few v h held
            r.reservation_id r t.listed.0.stored t.listed.0.active in
        rw (late, m.same)
          (expire_stale-Mirrors rest
            (expire_reservation_locked (in_memory order) r.reservation_id now s) b few
            (expire-IsSound s b v few r.reservation_id r t.listed.0.stored t.listed.0.active order
              now)
            (record {
              listed =
                  others-IsListed order now s r v.valid t.listed.0.stored rest t.apart.0 t.listed.1;
              apart = t.apart.1;
            })
            m.storable m.holds)
  ]

  expire_for_product-Mirrors :
      (k : Text) (s : Service InMemoryRepository) (b : ℕ)
      → b < word
      → IsSound b s
      → IsStorable to_column s
      → s.hold_for ≡ hold_for
      → Mirrors to_column hold_for
          (expire_for_product_locked (postgres db) k now (over s))
          (expire_for_product_locked (in_memory order) k now s)
  unfolding expire_for_product_locked Postgres.active_reservations_by_product
      InMemory.active_reservations_by_product
  expire_for_product-Mirrors k s b few v h held =
      expire_stale-Mirrors (InMemory.active_reservations_by_product order k s.repo) s b few v
        (by_product-IsSnapshot v.valid order k s.repo refl) h held

  -- What a new hold needs of the columns.
  module _ (lasting : before now (add_time now hold_for) ≡ true)
      (whole_end : to_column (add_time now hold_for) ≡ add_time now hold_for)
      (k user_id : Text) where
    reserve_checked-MirrorsCall :
        (s : Service InMemoryRepository) (b : ℕ)
        → b + 3 < word
        → IsSound b s
        → IsStorable to_column s
        → s.hold_for ≡ hold_for
        → MirrorsCall to_column hold_for
            (reserve_checked (postgres db) k user_id now (lookup k s.repo.products) (over s))
            (reserve_checked (in_memory order) k user_id now (lookup k s.repo.products) s)
    unfolding reserve_checked
    reserve_checked-MirrorsCall s b few v h held = elim (Option-cases (lookup k s.repo.products)) [
      | inl missing ↦
          rw missing
            (record { answer = refl; state = record { same = refl; storable = h; holds = held } })
      | inr (p, known) ↦ rw known (elim (Bool-cases (is_nonpositive (available_stock p))) [
        | inl out ↦
            rw
              (
                out,
                reject-over order violation to_column now whole s b few v h k user_id p,
                reject-rejected order k user_id now s p,
              )
              (record {
                answer = refl;
                state = record {
                  same = refl;
                  storable =
                      rejected-IsStorable order violation to_column now whole s b few v h k user_id
                        p;
                  holds = held;
                };
              })
        | inr left ↦
            let lasting' = subst (λ d. before now (add_time now d) ≡ true) (sym held) lasting in
            let whole' =
              subst (λ d. to_column (add_time now d) ≡ add_time now d) (sym held) whole_end in
            rw
              (
                left,
                grant-over order violation to_column now whole s b few v h k user_id p known left
                    lasting' whole',
                grant-granted order k user_id now s p known,
              )
              (record {
                answer = refl;
                state = record {
                  same = refl;
                  storable =
                      granted-IsStorable order violation to_column now whole s b few v h k user_id p
                        known left lasting' whole';
                  holds = held;
                };
              })
      ])
    ]

    pub reserve_item-MirrorsCall :
        (s : Service InMemoryRepository) (b : ℕ)
        → b + 3 < word
        → IsSound b s
        → IsStorable to_column s
        → s.hold_for ≡ hold_for
        → MirrorsCall to_column hold_for
            (reserve_item (postgres db) k user_id now (over s))
            (reserve_item (in_memory order) k user_id now s)
    unfolding reserve_item Postgres.get_product InMemory.get_product
    reserve_item-MirrorsCall s b few v h held =
        let m = expire_for_product-Mirrors k s b (omega arith) v h held in
        rw m.same (
          reserve_checked-MirrorsCall (expire_for_product_locked (in_memory order) k now s) b few
            (expire_for_product-IsSound order now k s b (omega arith) v) m.storable m.holds)
