-- ===== src/Application/Invariant/Snapshot.antt =====
-- The lists that the queries of internal/infrastructure/in_memory_repository.go return, and the loops of
-- the service that expire some of their members.
use mathlib.Core.List.{Permᴰ}
use inventory_reservation_sy.Base.{
  ℕ, ◌<◌, ◌≡◌, ◌≢◌, Bool, true, List, [], ◌∷◌, some, arith, inl, inr, Bool-cases, All, All-perm,
  Apart, Apart-perm, Apart-select, All-select_of, select, sym, ◌∙◌, refl,
}
use inventory_reservation_sy.Base.Text.{Text}
use inventory_reservation_sy.Base.Int64.{word}
use inventory_reservation_sy.Base.Time.{Time, before}
use inventory_reservation_sy.Base.Map.{
  Map, MapOrder, lookup, values, values-Stored, values-Apart, lookup-insert_ne,
}
use inventory_reservation_sy.Domain.Inventory.{ProductInventory}
use inventory_reservation_sy.Domain.Reservation.{Reservation, is_active}
use inventory_reservation_sy.Infrastructure.InMemory.{
  InMemoryRepository, in_memory, active_reservations_by_product, all_active_reservations,
}
use inventory_reservation_sy.Application.State.{Service, mark_expired}
use inventory_reservation_sy.Application.Service.{
  expire_reservation_locked, expire_stale, expire_for_product_locked,
}
use inventory_reservation_sy.Application.Effects.{expire-written}
use inventory_reservation_sy.Application.Invariant.Defs.{IsConsistent, IsValid, IsSound}
use inventory_reservation_sy.Application.Invariant.Operations.{expire-IsSound}

-- The reservation is stored as it was listed, and is active.
pub record IsListed (rs : Map Reservation) (r : Reservation) : Type 0 where
  pub stored : lookup r.reservation_id rs ≡ some r
  pub active : is_active r ≡ true

abbrev pub IdsDiffer : Reservation → Reservation → Type 0
IdsDiffer r t = r.reservation_id ≢ t.reservation_id

pub record IsSnapshot (rs : Map Reservation) (todo : List Reservation) : Type 0 where
  pub listed : All (IsListed rs) todo
  pub apart : Apart IdsDiffer todo

module _ {ps : Map ProductInventory} {rs : Map Reservation} {n : ℕ} (c : IsConsistent ps rs n) where
  All-Stored : All (λ r. lookup r.reservation_id rs ≡ some r) (values rs)
  All-Stored = values-Stored (λ r. r.reservation_id) rs c.distinct (λ k r e. (c.filed k r e).named)

  all-Apart : Apart IdsDiffer (values rs)
  all-Apart = values-Apart (λ r. r.reservation_id) rs c.distinct (λ k r e. (c.filed k r e).named)

  -- A selection of active ones from any order of the values is a snapshot.
  select-IsSnapshot :
      (order : MapOrder Reservation) (p : Reservation → Bool)
      → ((r : Reservation) → p r ≡ true → is_active r ≡ true)
      → IsSnapshot rs (select p (order.arrange (values rs)))
  select-IsSnapshot order p only = record {
    listed = selected (order.arrange (values rs)) (All-perm _ arranged All-Stored);
    apart =
        Apart-select IdsDiffer p (order.arrange (values rs))
          (Apart-perm (λ a b h e. h (sym e)) arranged all-Apart);
  }
    where
      arranged : Permᴰ (values rs) (order.arrange (values rs))
      arranged = order.arrange-perm (values rs)

      selected :
          (xs : List Reservation)
          → All (λ r. lookup r.reservation_id rs ≡ some r) xs
          → All (IsListed rs) (select p xs)
      selected xs h =
          All-select_of _ (IsListed rs) p xs (λ r e f. record { stored = f; active = only r e }) h

  pub by_product-IsSnapshot :
      (order : MapOrder Reservation) (product_id : Text) (r : InMemoryRepository)
      → r.reservations ≡ rs
      → IsSnapshot rs (active_reservations_by_product order product_id r)
  unfolding active_reservations_by_product
  by_product-IsSnapshot order product_id r e =
      rw e (select-IsSnapshot order _ (λ t h. ground arith))

  pub all-IsSnapshot :
      (order : MapOrder Reservation) (r : InMemoryRepository)
      → r.reservations ≡ rs
      → IsSnapshot rs (all_active_reservations order r)
  unfolding all_active_reservations
  all-IsSnapshot order r e = rw e (select-IsSnapshot order _ (λ t h. h))

module _ (order : MapOrder Reservation) (now : Time) where
  module _ (s : Service InMemoryRepository) (r : Reservation) (v : IsValid s)
      (stored : lookup r.reservation_id s.repo.reservations ≡ some r) where
    lookup-expire_ne :
        (id : Text)
        → r.reservation_id ≢ id
        → lookup id
            (expire_reservation_locked (in_memory order) r.reservation_id now s).repo.reservations
          ≡ lookup id s.repo.reservations
    lookup-expire_ne id differ =
        let f = v.filed r.reservation_id r stored in
        rw (expire-written order r.reservation_id now s r stored f.owner f.known)
          (lookup-insert_ne r.reservation_id id (mark_expired now r) s.repo.reservations differ)

    pub others-IsListed :
        (todo : List Reservation)
        → All (IdsDiffer r) todo
        → All (IsListed s.repo.reservations) todo
        → All
            (IsListed
              (expire_reservation_locked
                (in_memory order)
                r.reservation_id
                now
                s).repo.reservations)
            todo
    others-IsListed [] differ listed = tt
    others-IsListed (t ∷ rest) differ listed = (
      record {
        stored = lookup-expire_ne t.reservation_id differ.0 ∙ listed.0.stored;
        active = listed.0.active;
      },
      others-IsListed rest differ.1 listed.1,
    )

  pub expire_stale-IsSound :
      (todo : List Reservation) (s : Service InMemoryRepository) (b : ℕ)
      → b < word
      → IsSound b s
      → IsSnapshot s.repo.reservations todo
      → IsSound b (expire_stale (in_memory order) now todo s)
  unfolding expire_stale
  expire_stale-IsSound [] s b few v t = v
  expire_stale-IsSound (r ∷ rest) s b few v t = elim (Bool-cases (before now r.expires_at)) [
    | inl early ↦
        rw early
          (expire_stale-IsSound rest s b few v (record { listed = t.listed.1; apart = t.apart.1 }))
    | inr due ↦ rw due (
        expire_stale-IsSound rest _ b few
          (expire-IsSound s b v few r.reservation_id r t.listed.0.stored t.listed.0.active order
            now)
          (record {
            listed = others-IsListed s r v.valid t.listed.0.stored rest t.apart.0 t.listed.1;
            apart = t.apart.1;
          }))
  ]

  -- Lazy expiry before a reservation keeps the invariant, whatever order the map is visited in.
  pub expire_for_product-IsSound :
      (product_id : Text) (s : Service InMemoryRepository) (b : ℕ)
      → b < word
      → IsSound b s
      → IsSound b (expire_for_product_locked (in_memory order) product_id now s)
  unfolding expire_for_product_locked
  expire_for_product-IsSound product_id s b few v =
      expire_stale-IsSound (active_reservations_by_product order product_id s.repo) s b few v
        (by_product-IsSnapshot v.valid order product_id s.repo refl)
