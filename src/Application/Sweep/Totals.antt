-- ===== src/Application/Sweep/Totals.antt =====
-- internal/application/reservation_service.go, ExpireReservations as a whole: its total, and what
-- is left.
use mathlib.Core.List.{Permᴰ}
use inventory_reservation_sy.Base.{
  ℕ, ◌+◌, ◌<◌, ◌≡◌, refl, sym, ◌∙◌, subst, List, [], ◌∷◌, ◌++◌, map, append-nil, arith, All,
  All-perm, All-select_of, All-of_map, Apart-of_map, Apart, Apart-perm, Apart-select, select,
  length, length-perm, length-map, sum_of, sum_of-perm,
}
use inventory_reservation_sy.Base.Text.{Text}
use inventory_reservation_sy.Base.Int64.{word}
use inventory_reservation_sy.Base.Time.{Time}
use inventory_reservation_sy.Base.Map.{Map, MapOrder, values}
use inventory_reservation_sy.Domain.Reservation.{Reservation, is_active}
use inventory_reservation_sy.Infrastructure.InMemory.{
  InMemoryRepository, in_memory, all_active_reservations,
}
use inventory_reservation_sy.Infrastructure.Repository.{Repository}
use inventory_reservation_sy.Application.State.{Service}
use inventory_reservation_sy.Application.Service.{expire_reservation_locked}
use inventory_reservation_sy.Application.Sweep.{
  group_due, expire_group, expire_groups, expire_reservations,
}
use inventory_reservation_sy.Application.Sweep.Groups.{
  ids_of, is_due, id_of, group_due-perm, ids_of-perm,
}
use inventory_reservation_sy.Application.Sweep.Due.{
  due, due_total, IsDueId, Differ, expired_state, due_total-expire, others-IsDueId,
}
use inventory_reservation_sy.Application.Invariant.{IsValid, IsSound}
use inventory_reservation_sy.Application.Invariant.Operations.{expire-IsSound}
use inventory_reservation_sy.Application.Invariant.Snapshot.{
  IsListed, IsSnapshot, IdsDiffer, all-IsSnapshot,
}

-- The effect of a loop that expires `count` due reservations, from `(n, s)` to `t`.
pub record Expires (now : Time) (b count n : ℕ) (s : Service InMemoryRepository)
    (t : ℕ × Service InMemoryRepository) : Type 0 where
  pub sound : IsSound b t.1
  pub total : t.0 ≡ n + count
  pub fewer : due_total now t.1.repo.reservations + count ≡ due_total now s.repo.reservations

-- Over any repository, group by group or in one go.
module _ {R : Type 0} (repository : Repository R) (now : Time) where
  expire_group-append :
      (xs ys : List Text) (n : ℕ) (s : Service R)
      → expire_group repository now (xs ++ ys) (n, s)
        ≡ expire_group repository now ys (expire_group repository now xs (n, s))
  unfolding expire_group
  expire_group-append [] ys n s = refl
  expire_group-append (x ∷ xs) ys n s =
      expire_group-append xs ys (n + 1) (expire_reservation_locked repository x now s)

  pub expire_groups-flat :
      (m : Map (List Text)) (t : ℕ × Service R)
      → expire_groups repository now m t ≡ expire_group repository now (ids_of m) t
  unfolding expire_groups ids_of expire_group
  expire_groups-flat [] t = refl
  expire_groups-flat ((k, ids) ∷ m) t =
      expire_groups-flat m (expire_group repository now ids t)
      ∙ sym (expire_group-append ids (ids_of m) t.0 t.1)

module _ (order : MapOrder Reservation) (now : Time) where
  abbrev State : Type 0
  State = Service InMemoryRepository

  expire_group-Expires :
      (ids : List Text) (n b : ℕ) (s : State)
      → b < word
      → IsSound b s
      → All (IsDueId now s.repo.reservations) ids
      → Apart Differ ids
      → Expires now b (length ids) n s (expire_group (in_memory order) now ids (n, s))
  unfolding expire_group
  expire_group-Expires [] n b s few v d a = record {
    sound = v;
    total = omega arith;
    fewer = omega arith;
  }
  expire_group-Expires (id ∷ ids) n b s few v d a =
      let next : State = expired_state order now id s in
      let rest : Expires now b (length ids) (n + 1) next
          (expire_group (in_memory order) now ids (n + 1, next)) =
        expire_group-Expires ids (n + 1) b next few
          (expire-IsSound s b v few id d.0.reservation d.0.stored d.0.active order now)
          (others-IsDueId order now s v.valid id d.0 ids a.0 d.1) a.1 in
      record {
        sound = rest.sound;
        total = omega (arith, rest.total);
        fewer = omega (arith, rest.fewer, due_total-expire order now s v.valid id d.0);
      }

due_count :
    (now : Time) (xs : List Reservation)
    → length (select (is_due now) (select is_active xs)) ≡ sum_of (due now) xs
unfolding select sum_of
due_count now [] = refl
due_count now (r ∷ xs) = ground (arith, due_count now xs)

-- The ids that a sweep collects.
abbrev pub swept :
    MapOrder Reservation
    → MapOrder (Text × List Text)
    → Time
    → Service InMemoryRepository
    → List Text
swept order groups now s =
    ids_of (groups.arrange (group_due now (all_active_reservations order s.repo) []))

module _ (order : MapOrder Reservation) (groups : MapOrder (Text × List Text)) (now : Time)
    (s : Service InMemoryRepository) where
  abbrev snapshot : List Reservation
  snapshot = all_active_reservations order s.repo

  -- Group by group or in one go, the sweep expires the ids that it collected.
  pub expire_reservations-flat :
      expire_reservations (in_memory order) groups now s
      ≡ expire_group (in_memory order) now (swept order groups now s) (0, s)
  unfolding expire_reservations
  expire_reservations-flat =
      expire_groups-flat (in_memory order) now (groups.arrange (group_due now snapshot [])) (0, s)

  swept-perm : Permᴰ (map id_of (select (is_due now) snapshot)) (swept order groups now s)
  unfolding ids_of
  swept-perm =
      Permᴰ.trans
        (subst (λ ids. Permᴰ ids (ids_of (group_due now snapshot []))) (append-nil _)
          (group_due-perm now snapshot []))
        (ids_of-perm (groups.arrange-perm (group_due now snapshot [])))

  swept_count : length (swept order groups now s) ≡ due_total now s.repo.reservations
  unfolding all_active_reservations
  swept_count =
      sym (length-perm swept-perm)
      ∙ length-map id_of (select (is_due now) snapshot)
      ∙ due_count now (order.arrange (values s.repo.reservations))
      ∙ sym (sum_of-perm (due now) (order.arrange-perm (values s.repo.reservations)))

  module _ (v : IsValid s) where
    taken : IsSnapshot s.repo.reservations snapshot
    taken = all-IsSnapshot v order s.repo refl

    pub swept-IsDueId : All (IsDueId now s.repo.reservations) (swept order groups now s)
    swept-IsDueId = All-perm _ swept-perm (
        All-of_map (IsDueId now s.repo.reservations) id_of (select (is_due now) snapshot) (
          All-select_of (IsListed s.repo.reservations) _ (is_due now) snapshot
            (λ r late l. record {
              reservation = r;
              stored = l.stored;
              active = l.active;
              late = late;
            })
            taken.listed))

    pub swept-Apart : Apart Differ (swept order groups now s)
    swept-Apart =
        Apart-perm (λ a b h e. h (sym e)) swept-perm
          (Apart-of_map Differ id_of (select (is_due now) snapshot)
            (Apart-select IdsDiffer (is_due now) snapshot taken.apart))

  -- The whole sweep.
  pub expire_reservations-Expires :
      (b : ℕ)
      → b < word
      → IsSound b s
      → Expires now b
          (due_total now s.repo.reservations)
          0
          s
          (expire_reservations (in_memory order) groups now s)
  expire_reservations-Expires b few v =
      subst (λ n. Expires now b n 0 s (expire_reservations (in_memory order) groups now s))
        swept_count
        (rw expire_reservations-flat (
          expire_group-Expires order now (swept order groups now s) 0 b s few v
            (swept-IsDueId v.valid) (swept-Apart v.valid)))

-- From a sound state and while ids last, in whatever orders the maps are visited: a sweep returns
-- the number of active reservations that are due, afterwards none is due, and a second sweep at the
-- same time returns 0.
pub sweep_complete :
    (order order' : MapOrder Reservation) (groups groups' : MapOrder (Text × List Text))
    (now : Time) (s : Service InMemoryRepository) (b : ℕ)
    → b < word
    → IsSound b s
    → let t = expire_reservations (in_memory order) groups now s in
      (t.0 ≡ due_total now s.repo.reservations)
      × (due_total now t.1.repo.reservations ≡ 0)
      × ((expire_reservations (in_memory order') groups' now t.1).0 ≡ 0)
sweep_complete order order' groups groups' now s b few v =
    let e = expire_reservations-Expires order groups now s b few v in
    let t = (expire_reservations (in_memory order) groups now s).1 in
    let f = expire_reservations-Expires order' groups' now t b few e.sound in
    (omega (arith, e.total), omega (arith, e.fewer), omega (arith, f.total, e.fewer))
