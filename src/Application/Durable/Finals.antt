-- ===== src/Application/Durable/Finals.antt =====
-- ConfirmReservation, CancelReservation and ExpireReservations of
-- internal/application/reservation_service.go over an undisturbed database.
use inventory_reservation_sy.Base.{
  ℕ, ◌+◌, ◌<◌, ◌≡◌, refl, sym, subst, List, [], ◌∷◌, some, inl, inr, All, Apart, Bool-cases,
  Option-cases,
}
use inventory_reservation_sy.Base.Text.{Text}
use inventory_reservation_sy.Base.Int64.{word}
use inventory_reservation_sy.Base.Time.{Time, Duration, before}
use inventory_reservation_sy.Base.Map.{MapOrder, lookup}
use inventory_reservation_sy.Domain.Reservation.{Reservation, is_active}
use inventory_reservation_sy.Domain.Errors.{Error}
use inventory_reservation_sy.Infrastructure.InMemory
use inventory_reservation_sy.Infrastructure.InMemory.{InMemoryRepository, in_memory}
use inventory_reservation_sy.Infrastructure.Postgres
use inventory_reservation_sy.Infrastructure.Postgres.{Statement, Driver, undisturbed, postgres}
use inventory_reservation_sy.Application.State.{Service}
use inventory_reservation_sy.Application.Service.{
  confirm_locked, confirm_reservation, cancel_locked, cancel_reservation,
}
use inventory_reservation_sy.Application.Sweep.{expire_group, expire_reservations, group_due}
use inventory_reservation_sy.Application.Sweep.Due.{IsDueId, Differ, expired_state, others-IsDueId}
use inventory_reservation_sy.Application.Sweep.Totals.{
  swept, swept-IsDueId, swept-Apart, expire_reservations-flat, expire_groups-flat,
}
use inventory_reservation_sy.Application.Invariant.{IsSound}
use inventory_reservation_sy.Application.Invariant.Operations.{expire-IsSound}
use inventory_reservation_sy.Application.Durable.{over, IsStorable}
use inventory_reservation_sy.Application.Durable.Calls.{
  Mirrors, MirrorsCall, expire-Mirrors, confirm_active-MirrorsCall, cancel_active-MirrorsCall,
}

module _ (order : MapOrder Reservation) (violation : Statement → Error) (to_column : Time → Time)
    (hold_for : Duration) (now : Time) (whole : to_column now ≡ now) where
  abbrev db : Driver
  db = undisturbed order violation to_column

  module _ (s : Service InMemoryRepository) (b : ℕ) (few : b < word) (v : IsSound b s)
      (h : IsStorable to_column s) (held : s.hold_for ≡ hold_for) where
    unchanged : Mirrors to_column hold_for (over s) s
    unchanged = record { same = refl; storable = h; holds = held }

    module _ (id : Text) (r : Reservation) (found : lookup id s.repo.reservations ≡ some r) where
      stored_self : lookup r.reservation_id s.repo.reservations ≡ some r
      stored_self =
          subst (λ k. lookup k s.repo.reservations ≡ some r) (sym (v.valid.filed id r found).named)
            found

      confirm_locked-MirrorsCall :
          MirrorsCall to_column hold_for
            (confirm_locked (postgres db) id now (over s))
            (confirm_locked (in_memory order) id now s)
      unfolding confirm_locked Postgres.get_reservation InMemory.get_reservation
      confirm_locked-MirrorsCall = rw found (elim (Bool-cases (is_active r)) [
        | inl active ↦ rw active (elim (Bool-cases (before now r.expires_at)) [
          | inl early ↦ rw early (
              confirm_active-MirrorsCall order violation to_column hold_for now whole s b few v h
                held id r found active)
          | inr due ↦ rw due (record {
            answer = refl;
            state =
                expire-Mirrors order violation to_column hold_for now whole s b few v h held
                  r.reservation_id r stored_self active;
          })
        ])
        | inr ended ↦ rw ended (record { answer = refl; state = unchanged })
      ])

      cancel_locked-MirrorsCall :
          MirrorsCall to_column hold_for
            (cancel_locked (postgres db) id now (over s))
            (cancel_locked (in_memory order) id now s)
      unfolding cancel_locked Postgres.get_reservation InMemory.get_reservation
      cancel_locked-MirrorsCall = rw found (elim (Bool-cases (is_active r)) [
        | inl active ↦ rw active (
            cancel_active-MirrorsCall order violation to_column hold_for now whole s b few v h held
              id r found active)
        | inr ended ↦ rw ended (record { answer = refl; state = unchanged })
      ])

    pub confirm_reservation-MirrorsCall :
        (id : Text)
        → MirrorsCall to_column hold_for
            (confirm_reservation (postgres db) id now (over s))
            (confirm_reservation (in_memory order) id now s)
    unfolding confirm_reservation Postgres.get_reservation InMemory.get_reservation
    confirm_reservation-MirrorsCall id = elim (Option-cases (lookup id s.repo.reservations)) [
      | inl missing ↦
          rw (missing, confirm_reservation) (record { answer = refl; state = unchanged })
      | inr (r, found) ↦ rw (found, confirm_reservation) (confirm_locked-MirrorsCall id r found)
    ]

    pub cancel_reservation-MirrorsCall :
        (id : Text)
        → MirrorsCall to_column hold_for
            (cancel_reservation (postgres db) id now (over s))
            (cancel_reservation (in_memory order) id now s)
    unfolding cancel_reservation Postgres.get_reservation InMemory.get_reservation
    cancel_reservation-MirrorsCall id = elim (Option-cases (lookup id s.repo.reservations)) [
      | inl missing ↦ rw (missing, cancel_reservation) (record { answer = refl; state = unchanged })
      | inr (r, found) ↦ rw (found, cancel_reservation) (cancel_locked-MirrorsCall id r found)
    ]

  expire_group-MirrorsCall :
      (ids : List Text) (n b : ℕ) (s : Service InMemoryRepository)
      → b < word
      → IsSound b s
      → IsStorable to_column s
      → s.hold_for ≡ hold_for
      → All (IsDueId now s.repo.reservations) ids
      → Apart Differ ids
      → MirrorsCall to_column hold_for
          (expire_group (postgres db) now ids (n, over s))
          (expire_group (in_memory order) now ids (n, s))
  unfolding expire_group
  expire_group-MirrorsCall [] n b s few v h held d a = record {
    answer = refl;
    state = record { same = refl; storable = h; holds = held };
  }
  expire_group-MirrorsCall (id ∷ ids) n b s few v h held d a =
      let m =
        expire-Mirrors order violation to_column hold_for now whole s b few v h held id
          d.0.reservation d.0.stored d.0.active in
      rw m.same (
        expire_group-MirrorsCall ids (n + 1) b (expired_state order now id s) few
          (expire-IsSound s b v few id d.0.reservation d.0.stored d.0.active order now) m.storable
          m.holds (others-IsDueId order now s v.valid id d.0 ids a.0 d.1) a.1)

  pub expire_reservations-MirrorsCall :
      (groups : MapOrder (Text × List Text)) (s : Service InMemoryRepository) (b : ℕ)
      → b < word
      → IsSound b s
      → IsStorable to_column s
      → s.hold_for ≡ hold_for
      → MirrorsCall to_column hold_for
          (expire_reservations (postgres db) groups now (over s))
          (expire_reservations (in_memory order) groups now s)
  expire_reservations-MirrorsCall groups s b few v h held =
      rw (same_groups, expire_reservations-flat order groups now s)
        (expire_group-MirrorsCall (swept order groups now s) 0 b s few v h held
          (swept-IsDueId order groups now s v.valid) (swept-Apart order groups now s v.valid))
    where
      same_groups :
          expire_reservations (postgres db) groups now (over s)
          ≡ expire_group (postgres db) now (swept order groups now s) (0, over s)
      same_groups =
          unfold expire_reservations Postgres.all_active_reservations
            InMemory.all_active_reservations in
          expire_groups-flat (postgres db) now
            (groups.arrange (group_due now (InMemory.all_active_reservations order s.repo) []))
            (0, over s)
