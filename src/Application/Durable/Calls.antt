-- ===== src/Application/Durable/Calls.antt =====
-- The transitions of internal/application/reservation_service.go over an undisturbed database, next
-- to the same ones over the in-memory repository.
use inventory_reservation_sy.Base.{ℕ, ◌<◌, ◌≡◌, refl, true, some}
use inventory_reservation_sy.Base.Text.{Text}
use inventory_reservation_sy.Base.Int64.{word}
use inventory_reservation_sy.Base.Time.{Time, Duration}
use inventory_reservation_sy.Base.Map.{MapOrder, lookup}
use inventory_reservation_sy.Domain.Reservation.{Reservation, is_active}
use inventory_reservation_sy.Domain.Errors.{Error}
use inventory_reservation_sy.Infrastructure.InMemory.{InMemoryRepository, in_memory}
use inventory_reservation_sy.Infrastructure.Tables.{Tables}
use inventory_reservation_sy.Infrastructure.Postgres.{Statement, Driver, undisturbed, postgres}
use inventory_reservation_sy.Application.State.{
  Service, mark_confirmed, mark_cancelled, mark_expired, release_hold, sell_hold,
}
use inventory_reservation_sy.Application.Service.{
  expire_reservation_locked, confirm_active, cancel_active,
}
use inventory_reservation_sy.Application.Effects.{expire-written, confirm-written, cancel-written}
use inventory_reservation_sy.Application.Shadow.{shadow_expired, shadow_confirmed, shadow_cancelled}
use inventory_reservation_sy.Domain.Event.{event_expired, event_confirmed, event_cancelled}
use inventory_reservation_sy.Application.Invariant.{IsSound}
use inventory_reservation_sy.Application.Durable.{over, IsStorable}
use inventory_reservation_sy.Application.Durable.Steps.{
  expire-over, confirm_active-over, cancel_active-over, settled-IsStorable, expired-IsKept,
  confirmed-IsKept, cancelled-IsKept, expired-Transitions, confirmed-Transitions,
  cancelled-Transitions,
}

-- A state over the tables is the one in memory, which the tables can keep.
pub record Mirrors (to_column : Time → Time) (hold_for : Duration) (u : Service Tables)
    (t : Service InMemoryRepository) : Type 0 where
  pub same : u ≡ over t
  pub storable : IsStorable to_column t
  pub holds : t.hold_for ≡ hold_for

-- So for a call, with its answer.
pub record MirrorsCall (to_column : Time → Time) (hold_for : Duration) {A : Type 0}
    (c : A × Service Tables) (d : A × Service InMemoryRepository) : Type 0 where
  pub answer : c.0 ≡ d.0
  pub state : Mirrors to_column hold_for c.1 d.1

module _ (order : MapOrder Reservation) (violation : Statement → Error) (to_column : Time → Time)
    (hold_for : Duration) (now : Time) (whole : to_column now ≡ now) where
  abbrev db : Driver
  db = undisturbed order violation to_column

  module _ (s : Service InMemoryRepository) (b : ℕ) (few : b < word) (v : IsSound b s)
      (h : IsStorable to_column s) (held : s.hold_for ≡ hold_for) (id : Text) (r : Reservation)
      (found : lookup id s.repo.reservations ≡ some r) (active : is_active r ≡ true) where
    pub expire-Mirrors :
        Mirrors to_column hold_for
          (expire_reservation_locked (postgres db) id now (over s))
          (expire_reservation_locked (in_memory order) id now s)
    unfolding mark_expired release_hold
    expire-Mirrors =
        let f = v.valid.filed id r found in
        rw
          (
            expire-over order violation to_column now whole s b few v h id r found active,
            expire-written order id now s r found f.owner f.known,
          )
          (record {
            same = refl;
            storable =
                settled-IsStorable order violation to_column now whole s b few v h id r found active
                  shadow_expired (mark_expired now) release_hold event_expired
                  (expired-Transitions order violation to_column now whole s b few v h id r found
                    active)
                  (expired-IsKept order violation to_column now whole s b few v h id r found active)
                  refl;
            holds = held;
          })

    pub confirm_active-MirrorsCall :
        MirrorsCall to_column hold_for
          (confirm_active (postgres db) id r now (over s))
          (confirm_active (in_memory order) id r now s)
    unfolding mark_confirmed sell_hold
    confirm_active-MirrorsCall =
        let f = v.valid.filed id r found in
        rw
          (
            confirm_active-over order violation to_column now whole s b few v h id r found active,
            confirm-written order id now s r found f.owner f.known,
          )
          (record {
            answer = refl;
            state = record {
              same = refl;
              storable =
                  settled-IsStorable order violation to_column now whole s b few v h id r found
                    active shadow_confirmed (mark_confirmed now) sell_hold event_confirmed
                    (confirmed-Transitions order violation to_column now whole s b few v h id r
                      found active)
                    (confirmed-IsKept order violation to_column now whole s b few v h id r found
                      active)
                    refl;
              holds = held;
            };
          })

    pub cancel_active-MirrorsCall :
        MirrorsCall to_column hold_for
          (cancel_active (postgres db) id r now (over s))
          (cancel_active (in_memory order) id r now s)
    unfolding mark_cancelled release_hold
    cancel_active-MirrorsCall =
        let f = v.valid.filed id r found in
        rw
          (
            cancel_active-over order violation to_column now whole s b few v h id r found active,
            cancel-written order id now s r found f.owner f.known,
          )
          (record {
            answer = refl;
            state = record {
              same = refl;
              storable =
                  settled-IsStorable order violation to_column now whole s b few v h id r found
                    active shadow_cancelled (mark_cancelled now) release_hold event_cancelled
                    (cancelled-Transitions order violation to_column now whole s b few v h id r
                      found active)
                    (cancelled-IsKept order violation to_column now whole s b few v h id r found
                      active)
                    refl;
              holds = held;
            };
          })
