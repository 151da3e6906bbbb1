-- ===== src/Application/Preserved.antt =====
-- internal/application/reservation_service.go over any repository: which reservations the calls
-- write to. A property that the repository's other writes keep, and so do writes to the
-- reservations of some ids, is kept by every call, if the ids of the active reservations that it
-- reads or lists, and the id of the one that it adds, are among those.
use inventory_reservation_sy.Base.{
  ◌≡◌, refl, sym, subst, ℕ, arith, true, List, [], ◌∷◌, none, map, select, Option, some,
  Option-cases, Bool-cases, inl, inr, All, All-perm, All-append, All-select, All-of_map,
}
use inventory_reservation_sy.Base.Text.{Text}
use inventory_reservation_sy.Base.Time.{Time, before}
use inventory_reservation_sy.Base.Map.{MapOrder}
use inventory_reservation_sy.Domain.Inventory.{ProductInventory, available_stock}
use inventory_reservation_sy.Domain.Reservation.{Reservation, or_zero, is_active}
use inventory_reservation_sy.Domain.Event.{
  InventoryEvent, event_reserved, event_confirmed, event_cancelled, event_expired,
}
use inventory_reservation_sy.Domain.Errors.{Error}
use inventory_reservation_sy.Infrastructure.Repository.{Repository}
use inventory_reservation_sy.Application.Shadow.{
  ShadowAction, shadow_reserved, shadow_confirmed, shadow_cancelled, shadow_expired,
}
use inventory_reservation_sy.Application.State.{
  Service, next_id, event_of, captured, returning_nil, mark_confirmed, mark_cancelled, mark_expired,
  add_hold, release_hold, sell_hold, res_prefix, set_repo, rejection,
}
use inventory_reservation_sy.Application.Effects.{new_reservation}
use inventory_reservation_sy.Base.Int64.{is_nonpositive}
use inventory_reservation_sy.Application.Service.{
  append_event, record_shadow, change_reservation, change_product, expire_reservation_locked,
  expire_stale, expire_for_product_locked, reject, grant, reserve_checked, reserve_item,
  confirm_active, confirm_locked, confirm_reservation, cancel_active, cancel_locked,
  cancel_reservation,
}
use inventory_reservation_sy.Application.Sweep.{group_due, expire_group, expire_reservations}
use inventory_reservation_sy.Application.Sweep.Groups.{
  ids_of, is_due, id_of, group_due-perm, ids_of-perm,
}
use inventory_reservation_sy.Application.Sweep.Totals.{expire_groups-flat}

-- The recorder is handed copies.
pub record_shadow-repo :
    {R : Type 0} (repository : Repository R) (action : ShadowAction) (r : Reservation)
    (e : InventoryEvent) (s : Service R)
    → (record_shadow repository action r e s).repo ≡ s.repo
unfolding record_shadow
record_shadow-repo repository action r e s = ground arith

-- A property of the repository's state that its writes keep, if a reservation is written to under an id
-- that is free to change; an active reservation that is read has such an id.
pub record KeptBy {R : Type 0} (repository : Repository R) (P : R → Type 0) (IsFree : Text → Type 0)
    : Type 0 where
  pub by_append : (e : InventoryEvent) (t : R) → P t → P (repository.append_event e t)
  pub by_save :
      (x : Reservation) (t : R)
      → IsFree x.reservation_id
      → P t
      → P (repository.save_reservation x t)
  pub by_product :
      (id : Text) (fn : ProductInventory → ProductInventory × Option Error) (t : R)
      → P t
      → P (repository.update_product id fn t).0
  pub by_reservation :
      (id : Text) (f : Reservation → Reservation) (t : R)
      → IsFree id
      → ((x : Reservation) → (f x).reservation_id ≡ x.reservation_id)
      → P t
      → P (repository.update_reservation id (returning_nil f) t).0
  pub by_reading :
      (id : Text) (x : Reservation) (t : R)
      → P t
      → repository.get_reservation id t ≡ some x
      → is_active x ≡ true
      → IsFree id × IsFree x.reservation_id

module _ {R : Type 0} (repository : Repository R) (P : R → Type 0) (IsFree : Text → Type 0)
    (kept : KeptBy repository P IsFree) where
  -- The property, of a service.
  pub record Holds (s : Service R) : Type 0 where
    pub here : P s.repo

  append-Kept :
      (e : InventoryEvent) (s : Service R) → Holds s → Holds (append_event repository e s).1
  unfolding append_event next_id
  append-Kept e s h = record { here = kept.by_append _ s.repo h.here }

  shadow-Kept :
      (action : ShadowAction) (r : Reservation) (e : InventoryEvent) (s : Service R)
      → Holds s
      → Holds (record_shadow repository action r e s)
  shadow-Kept action r e s h = record {
    here = subst P (sym (record_shadow-repo repository action r e s)) h.here;
  }

  -- The writes of the end of a hold, whatever is recorded of them.
  ended-Kept :
      (id k : Text) (f : Reservation → Reservation) (g : ProductInventory → ProductInventory)
      (e : InventoryEvent) (s : Service R)
      → IsFree id
      → ((x : Reservation) → (f x).reservation_id ≡ x.reservation_id)
      → Holds s
      → Holds
          (append_event repository e
            (change_product repository k g (change_reservation repository id f s))).1
  unfolding change_product change_reservation
  ended-Kept id k f g e s free same h =
      append-Kept e _
        (record { here = kept.by_product k _ _ (kept.by_reservation id f s.repo free same h.here) })

  expire-Kept :
      (id : Text) (now : Time) (s : Service R)
      → IsFree id
      → Holds s
      → Holds (expire_reservation_locked repository id now s)
  unfolding expire_reservation_locked mark_expired
  expire-Kept id now s free h =
      let current = or_zero (repository.get_reservation id s.repo) in
      let e = event_of event_expired current now in
      let written = append_event repository e (
        change_product repository current.product_id release_hold
          (change_reservation repository id (mark_expired now) s)) in
      shadow-Kept shadow_expired (or_zero (repository.get_reservation id written.1.repo)) written.0
        written.1
        (ended-Kept id current.product_id (mark_expired now) release_hold e s free (λ x. refl) h)

  stale-Kept :
      (now : Time) (todo : List Reservation) (s : Service R)
      → All (λ x. IsFree (id_of x)) todo
      → Holds s
      → Holds (expire_stale repository now todo s)
  unfolding expire_stale
  stale-Kept now [] s free h = h
  stale-Kept now (r ∷ rest) s free h = elim (Bool-cases (before now r.expires_at)) [
    | inl early ↦ rw (expire_stale, early) (stale-Kept now rest s free.1 h)
    | inr late ↦
        rw (expire_stale, late)
          (stale-Kept now rest _ free.1 (expire-Kept r.reservation_id now s free.0 h))
  ]

  grant-Kept :
      (k user_id : Text) (now : Time) (s : Service R)
      → IsFree (new_reservation k user_id now s).reservation_id
      → Holds s
      → Holds (grant repository k user_id now s).1
  unfolding grant next_id change_product
  grant-Kept k user_id now s free h =
      let (id, drawn) = next_id res_prefix s in
      let r = new_reservation k user_id now s in
      let saved = set_repo (repository.save_reservation r drawn.repo) drawn in
      let e = event_of event_reserved r now in
      let written = append_event repository e (change_product repository k add_hold saved) in
      shadow-Kept shadow_reserved r written.0 written.1 (
        append-Kept e (change_product repository k add_hold saved)
          (record { here = kept.by_product k _ _ (kept.by_save r s.repo free h.here) }))

  checked-Kept :
      (k user_id : Text) (now : Time) (found : Option ProductInventory) (s : Service R)
      → IsFree (new_reservation k user_id now s).reservation_id
      → Holds s
      → Holds (reserve_checked repository k user_id now found s).1
  unfolding reserve_checked reject
  checked-Kept k user_id now none s free h = h
  checked-Kept k user_id now (some p) s free h =
      elim (Bool-cases (is_nonpositive (available_stock p))) [
        | inl out ↦ rw out (append-Kept (rejection k user_id now) s h)
        | inr left ↦ rw left (grant-Kept k user_id now s free h)
      ]

  pub reserve_item-Kept :
      (k user_id : Text) (now : Time) (s : Service R)
      → All (λ x. IsFree (id_of x)) (repository.active_reservations_by_product k s.repo)
      → IsFree
          (new_reservation k user_id now
            (expire_for_product_locked repository k now s)).reservation_id
      → Holds s
      → Holds (reserve_item repository k user_id now s).1
  unfolding reserve_item expire_for_product_locked
  reserve_item-Kept k user_id now s listed free h =
      checked-Kept k user_id now _ _ free (stale-Kept now _ s listed h)

  module _ (id : Text) (now : Time) (s : Service R) (h : Holds s) (r : Reservation)
      (found : repository.get_reservation id s.repo ≡ some r) where
    confirm_found-Kept : Holds (confirm_locked repository id now s).1
    unfolding confirm_locked confirm_active mark_confirmed
    confirm_found-Kept =
        let result = captured (mark_confirmed now) (repository.handed_reservation id s.repo) in
        let e = event_of event_confirmed r now in
        let written = append_event repository e (
          change_product repository r.product_id sell_hold
            (change_reservation repository id (mark_confirmed now) s)) in
        elim (Bool-cases (is_active r)) [
          | inl active ↦
              let free = kept.by_reading id r s.repo h.here found active in
              elim (Bool-cases (before now r.expires_at)) [
                | inl early ↦
                    rw (found, active, early)
                      (shadow-Kept shadow_confirmed result written.0 written.1 (
                        ended-Kept id r.product_id (mark_confirmed now) sell_hold e s free.0
                          (λ x. refl) h))
                | inr late ↦ rw (found, active, late) (expire-Kept r.reservation_id now s free.1 h)
              ]
          | inr ended ↦ rw (found, ended) h
        ]

    cancel_found-Kept : Holds (cancel_locked repository id now s).1
    unfolding cancel_locked cancel_active mark_cancelled
    cancel_found-Kept =
        let result = captured (mark_cancelled now) (repository.handed_reservation id s.repo) in
        let e = event_of event_cancelled r now in
        let written = append_event repository e (
          change_product repository r.product_id release_hold
            (change_reservation repository id (mark_cancelled now) s)) in
        elim (Bool-cases (is_active r)) [
          | inl active ↦
              let free = kept.by_reading id r s.repo h.here found active in
              rw (found, active)
                (shadow-Kept shadow_cancelled result written.0 written.1 (
                  ended-Kept id r.product_id (mark_cancelled now) release_hold e s free.0
                    (λ x. refl) h))
          | inr ended ↦ rw (found, ended) h
        ]

  pub confirm_reservation-Kept :
      (id : Text) (now : Time) (s : Service R)
      → Holds s
      → Holds (confirm_reservation repository id now s).1
  unfolding confirm_reservation
  confirm_reservation-Kept id now s h = elim (Option-cases (repository.get_reservation id s.repo)) [
    | inl missing ↦ rw (confirm_reservation, missing) h
    | inr (r, found) ↦ rw (confirm_reservation, found) (confirm_found-Kept id now s h r found)
  ]

  pub cancel_reservation-Kept :
      (id : Text) (now : Time) (s : Service R)
      → Holds s
      → Holds (cancel_reservation repository id now s).1
  unfolding cancel_reservation
  cancel_reservation-Kept id now s h = elim (Option-cases (repository.get_reservation id s.repo)) [
    | inl missing ↦ rw (cancel_reservation, missing) h
    | inr (r, found) ↦ rw (cancel_reservation, found) (cancel_found-Kept id now s h r found)
  ]

  group-Kept :
      (now : Time) (ids : List Text) (t : ℕ × Service R)
      → All IsFree ids
      → Holds t.1
      → Holds (expire_group repository now ids t).1
  unfolding expire_group
  group-Kept now [] (n, s) free h = h
  group-Kept now (id ∷ rest) (n, s) free h =
      group-Kept now rest _ free.1 (expire-Kept id now s free.0 h)

  pub expire_reservations-Kept :
      (groups : MapOrder (Text × List Text)) (now : Time) (s : Service R)
      → All (λ x. IsFree (id_of x)) (repository.all_active_reservations s.repo)
      → Holds s
      → Holds (expire_reservations repository groups now s).1
  unfolding expire_reservations ids_of
  expire_reservations-Kept groups now s free h =
      let listed = repository.all_active_reservations s.repo in
      let by_product = group_due now listed [] in
      let due_ids : All IsFree (map id_of (select (is_due now) listed)) =
        All-of_map IsFree id_of _ (All-select (λ x. IsFree (id_of x)) (is_due now) listed free) in
      let grouped : All IsFree (ids_of (groups.arrange by_product)) =
        All-perm IsFree (ids_of-perm (groups.arrange-perm by_product)) (
          All-perm IsFree (group_due-perm now listed [])
            (All-append IsFree (map id_of (select (is_due now) listed)) [] due_ids tt)) in
      rw (expire_groups-flat repository now (groups.arrange by_product) (0, s))
        (group-Kept now _ (0, s) grouped h)
