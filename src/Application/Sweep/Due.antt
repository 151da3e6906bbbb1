-- ===== src/Application/Sweep/Due.antt =====
-- internal/application/reservation_service.go, ExpireReservations: the reservations that are due, and one
-- round of its inner loop.
use inventory_reservation_sy.Base.{
  ℕ, ◌+◌, ◌≡◌, ◌≢◌, ap, ◌∙◌, true, ◌&&◌, List, [], ◌∷◌, some, to_num, arith, All, sum_of,
}
use inventory_reservation_sy.Base.Text.{Text}
use inventory_reservation_sy.Base.Time.{Time}
use inventory_reservation_sy.Base.Map.{
  Map, MapOrder, lookup, insert, values, sum_of-insert_old, lookup-insert_ne,
}
use inventory_reservation_sy.Domain.Reservation.{Reservation, is_active}
use inventory_reservation_sy.Infrastructure.InMemory.{InMemoryRepository, in_memory}
use inventory_reservation_sy.Application.State.{Service, mark_expired}
use inventory_reservation_sy.Application.Service.{expire_reservation_locked}
use inventory_reservation_sy.Application.Sweep.Groups.{is_due}
use inventory_reservation_sy.Application.Effects.{expire-written}
use inventory_reservation_sy.Application.Invariant.{IsValid}

-- The reservations that a sweep at `now` is to expire, counted.
abbrev pub due : Time → Reservation → ℕ
due now r = to_num (is_active r && is_due now r)

abbrev pub due_total : Time → Map Reservation → ℕ
due_total now rs = sum_of (due now) (values rs)

-- An id whose reservation is stored, active and due.
pub record IsDueId (now : Time) (rs : Map Reservation) (id : Text) : Type 0 where
  pub reservation : Reservation
  pub stored : lookup id rs ≡ some reservation
  pub active : is_active reservation ≡ true
  pub late : is_due now reservation ≡ true

abbrev pub Differ : Text → Text → Type 0
Differ a b = a ≢ b

module _ (order : MapOrder Reservation) (now : Time) where
  abbrev pub expired_state : Text → Service InMemoryRepository → Service InMemoryRepository
  expired_state id s = expire_reservation_locked (in_memory order) id now s

  module _ (s : Service InMemoryRepository) (v : IsValid s) (id : Text)
      (d : IsDueId now s.repo.reservations id) where
    pub expired_reservations :
        (expired_state id s).repo.reservations
        ≡ insert id (mark_expired now d.reservation) s.repo.reservations
    expired_reservations =
        let f = v.filed id d.reservation d.stored in
        ap (λ (t : Service InMemoryRepository). t.repo.reservations)
          (expire-written order id now s d.reservation d.stored f.owner f.known)

    pub due_total-expire :
        due_total now (expired_state id s).repo.reservations + 1 ≡ due_total now s.repo.reservations
    unfolding mark_expired
    due_total-expire = rw expired_reservations (
        ground (
          arith,
          sum_of-insert_old (due now) id (mark_expired now d.reservation) d.reservation
              s.repo.reservations d.stored,
          d,
        ))

    pub others-IsDueId :
        (ids : List Text)
        → All (Differ id) ids
        → All (IsDueId now s.repo.reservations) ids
        → All (IsDueId now (expired_state id s).repo.reservations) ids
    others-IsDueId [] differ h = tt
    others-IsDueId (j ∷ ids) differ h = (
      record {
        reservation = h.0.reservation;
        stored =
            rw expired_reservations
              (lookup-insert_ne id j _ s.repo.reservations differ.0 ∙ h.0.stored);
        active = h.0.active;
        late = h.0.late;
      },
      others-IsDueId ids differ.1 h.1,
    )
