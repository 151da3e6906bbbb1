-- ===== src/Application/Sweep/Reference.antt =====
-- internal/application/reservation_service.go, ExpireReservations next to a description of its
-- result that knows neither groups nor orders.
use inventory_reservation_sy.Base.{
  ℕ, ◌+◌, ◌<◌, ◌≡◌, refl, sym, ◌∙◌, true, ◌&&◌, if◌then◌else◌, List, [], ◌∷◌, none, some, arith,
  All, Apart, inl, inr, ◌⊎◌, Bool-cases, Option-cases, subst,
}
use inventory_reservation_sy.Base.Text.{Text, text_eq, eq_iff}
use inventory_reservation_sy.Base.Int64.{word}
use inventory_reservation_sy.Base.Time.{Time}
use inventory_reservation_sy.Base.Map.{
  Map, MapOrder, lookup, insert, lookup-insert, lookup-insert_self, sum_of-ge,
}
use inventory_reservation_sy.Base.Entries.{
  keys, map_values, map_option, lookup-map_values, keys-map_values, keys-insert_old, same_entries,
}
use inventory_reservation_sy.Domain.Inventory.{ProductInventory}
use inventory_reservation_sy.Domain.Reservation.{Reservation, is_active}
use inventory_reservation_sy.Infrastructure.InMemory.{InMemoryRepository, in_memory}
use inventory_reservation_sy.Application.State.{Service, mark_expired}
use inventory_reservation_sy.Application.Sweep.{expire_group, expire_reservations}
use inventory_reservation_sy.Application.Sweep.Groups.{is_due}
use inventory_reservation_sy.Application.Sweep.Due.{
  due, due_total, IsDueId, Differ, expired_state, expired_reservations, others-IsDueId,
}
use inventory_reservation_sy.Application.Sweep.Totals.{
  swept, expire_reservations-flat, expire_reservations-Expires, swept-IsDueId, swept-Apart,
  sweep_complete,
}
use inventory_reservation_sy.Application.Invariant.{IsSound, Agrees}
use inventory_reservation_sy.Application.Moves.Lifecycle.{stock_in, Moves-stock}
use inventory_reservation_sy.Application.Moves.Calls.{expire_reservations-Moves}
use inventory_reservation_sy.Application.Invariant.Operations.{expire-IsSound}

-- What a sweep makes of one reservation.
abbrev pub settled : Time → Reservation → Reservation
settled now r = if is_active r && is_due now r then mark_expired now r else r

-- A reservation is as it was, or was due and has expired.
abbrev IsSettled : Time → Text → Reservation → Map Reservation → Type 0
IsSettled now id r rs =
    (lookup id rs ≡ some r)
    ⊎ ((is_active r ≡ true) × (is_due now r ≡ true) × (lookup id rs ≡ some (mark_expired now r)))

record Settling (now : Time) (ids : List Text) (rs rs' : Map Reservation) : Type 0 where
  same_keys : keys rs' ≡ keys rs
  untouched : (id : Text) → All (Differ id) ids → lookup id rs' ≡ lookup id rs
  each : (id : Text) (r : Reservation) → lookup id rs ≡ some r → IsSettled now id r rs'
  absent : (id : Text) → lookup id rs ≡ none → lookup id rs' ≡ none

module _ (order : MapOrder Reservation) (now : Time) where
  -- One id, and then the others.
  Settling-cons :
      (id : Text) (r : Reservation) (ids : List Text) (rs rs' : Map Reservation)
      → lookup id rs ≡ some r
      → is_active r ≡ true
      → is_due now r ≡ true
      → All (Differ id) ids
      → Settling now ids (insert id (mark_expired now r) rs) rs'
      → Settling now (id ∷ ids) rs rs'
  Settling-cons id r ids rs rs' stored active late apart w = record {
    same_keys = w.same_keys ∙ keys-insert_old id (mark_expired now r) r rs stored;
    untouched = λ i differ.
        w.untouched i differ.1
        ∙ ground (arith, lookup-insert id i (mark_expired now r) rs, eq_iff id i, differ.0);
    each = λ i t found. elim (Bool-cases (text_eq id i)) [
      | inl same ↦
          let here : id ≡ i = (eq_iff id i).0 same in
          let this : r ≡ t = ground (arith, stored, found, here) in
          inr (
            subst (λ q. is_active q ≡ true) this active,
            subst (λ q. is_due now q ≡ true) this late,
            rw (← this, ← here)
                (w.untouched id apart ∙ lookup-insert_self id (mark_expired now r) rs),
          )
      | inr differ ↦
          w.each i t (ground (arith, lookup-insert id i (mark_expired now r) rs, differ, found))
    ];
    absent = λ i none_there. w.absent i (
        ground
          (arith, lookup-insert id i (mark_expired now r) rs, eq_iff id i, stored, none_there));
  }

  expire_group-Settling :
      (ids : List Text) (n b : ℕ) (s : Service InMemoryRepository)
      → b < word
      → IsSound b s
      → All (IsDueId now s.repo.reservations) ids
      → Apart Differ ids
      → Settling now ids s.repo.reservations
          (expire_group (in_memory order) now ids (n, s)).1.repo.reservations
  unfolding expire_group
  expire_group-Settling [] n b s few v d a = record {
    same_keys = refl;
    untouched = λ id differ. refl;
    each = λ id r found. inl found;
    absent = λ id none_there. none_there;
  }
  expire_group-Settling (id ∷ ids) n b s few v d a =
      let next = expired_state order now id s in
      let rest =
        expire_group-Settling ids (n + 1) b next few
          (expire-IsSound s b v few id d.0.reservation d.0.stored d.0.active order now)
          (others-IsDueId order now s v.valid id d.0 ids a.0 d.1) a.1 in
      Settling-cons id d.0.reservation ids s.repo.reservations _ d.0.stored d.0.active d.0.late a.0
        (subst
          (λ rs.
            Settling now ids rs
              (expire_group (in_memory order) now ids (n + 1, next)).1.repo.reservations)
          (expired_reservations order now s v.valid id d.0) rest)

-- Nothing due is left, so what was due has expired.
lookup-settled :
    (now : Time) (id : Text) (rs rs' : Map Reservation)
    → due_total now rs' ≡ 0
    → ((i : Text) (r : Reservation) → lookup i rs ≡ some r → IsSettled now i r rs')
    → ((i : Text) → lookup i rs ≡ none → lookup i rs' ≡ none)
    → lookup id rs' ≡ lookup id (map_values (settled now) rs)
lookup-settled now id rs rs' left each absent =
    lookup_now (Option-cases (lookup id rs)) ∙ sym (lookup-map_values (settled now) id rs)
  where
    lookup_now :
        (lookup id rs ≡ none) ⊎ ((r : Reservation) × (lookup id rs ≡ some r))
        → lookup id rs' ≡ map_option (settled now) (lookup id rs)
    lookup_now (inl missing) = absent id missing ∙ ground (arith, missing)
    lookup_now (inr (r, found)) = elim (each id r found) [
      | inl same ↦ ground (arith, same, found, left, sum_of-ge (due now) id r rs' same)
      | inr (active, late, expired) ↦ ground (arith, active, late, expired, found)
    ]

-- From a sound state and while ids last, in whatever orders the maps are visited: a sweep leaves the
-- reservations in their places, marks those as expired that are active and due, and changes no other one.
pub sweep_reference :
    (order : MapOrder Reservation) (groups : MapOrder (Text × List Text)) (now : Time)
    (s : Service InMemoryRepository) (b : ℕ)
    → b < word
    → IsSound b s
    → (expire_reservations (in_memory order) groups now s).1.repo.reservations
      ≡ map_values (settled now) s.repo.reservations
sweep_reference order groups now s b few v =
    let t = expire_reservations (in_memory order) groups now s in
    let settling : Settling now (swept order groups now s) s.repo.reservations
        t.1.repo.reservations =
      rw (expire_reservations-flat order groups now s) (
        expire_group-Settling order now (swept order groups now s) 0 b s few v
          (swept-IsDueId order groups now s v.valid) (swept-Apart order groups now s v.valid)) in
    let (counted, left, again) = sweep_complete order order groups groups now s b few v in
    let e = expire_reservations-Expires order groups now s b few v in
    same_entries t.1.repo.reservations (map_values (settled now) s.repo.reservations)
      (settling.same_keys ∙ sym (keys-map_values (settled now) s.repo.reservations))
      e.sound.valid.distinct
      (λ id.
        lookup-settled now id s.repo.reservations t.1.repo.reservations left settling.each
          settling.absent)

-- The reservations and the total stock give the counters of a product.
same_product :
    (k : Text) (ps qs : Map ProductInventory) (rs rs' : Map Reservation)
    → rs ≡ rs'
    → stock_in k ps ≡ stock_in k qs
    → ((p : ProductInventory) → lookup k ps ≡ some p → Agrees k p rs)
    → ((q : ProductInventory) → lookup k qs ≡ some q → Agrees k q rs')
    → lookup k ps ≡ lookup k qs
same_product k ps qs rs rs' same stock agrees agrees' = elim (Option-cases (lookup k ps)) [
  | inl missing ↦ elim (Option-cases (lookup k qs)) [
    | inl missing' ↦ missing ∙ sym missing'
    | inr (q, found') ↦ absurd (ground (arith, missing, found', stock))
  ]
  | inr (p, found) ↦ elim (Option-cases (lookup k qs)) [
    | inl missing' ↦ absurd (ground (arith, found, missing', stock))
    | inr (q, found') ↦
        let a = agrees p found in
        let a' = agrees' q found' in
        let a'' : Agrees k q rs = subst (λ m. Agrees k q m) (sym same) a' in
        ground (
          arith, found, found', stock, a.named, a''.named, a.holds_counted, a''.holds_counted,
          a.sales_counted, a''.sales_counted,
        )
  ]
]

-- From a sound state and while ids last: two sweeps at the same time that visit the maps in different
-- orders return the same number, and leave the same reservations and the same product under each id.
pub sweep_any_order :
    (order order' : MapOrder Reservation) (groups groups' : MapOrder (Text × List Text))
    (now : Time) (s : Service InMemoryRepository) (b : ℕ)
    → b < word
    → IsSound b s
    → let (n, t) = expire_reservations (in_memory order) groups now s in
      let (n', t') = expire_reservations (in_memory order') groups' now s in
      (n ≡ n')
      × (t.repo.reservations ≡ t'.repo.reservations)
      × ((k : Text) → lookup k t.repo.products ≡ lookup k t'.repo.products)
sweep_any_order order order' groups groups' now s b few v =
    let same_rows =
      sweep_reference order groups now s b few v
      ∙ sym (sweep_reference order' groups' now s b few v) in
    (
      (sweep_complete order order groups groups now s b few v).0
          ∙ sym (sweep_complete order' order' groups' groups' now s b few v).0,
      same_rows,
      λ k.
          same_product k _ _ _ _ same_rows
            (Moves-stock (expire_reservations-Moves order now groups s b few v) k
              ∙ sym (Moves-stock (expire_reservations-Moves order' now groups' s b few v) k))
            ((expire_reservations-Expires order groups now s b few v).sound.valid.agrees k)
            ((expire_reservations-Expires order' groups' now s b few v).sound.valid.agrees k),
    )
