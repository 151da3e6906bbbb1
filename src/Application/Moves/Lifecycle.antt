-- ===== src/Application/Moves/Lifecycle.antt =====
-- Moves at one reservation, and at a product's stock: specs/02-reservation-lifecycle.md, and SF-R4 of
-- specs/01-stock-formula.md.
use inventory_reservation_sy.Base.{
  ℕ, ◌≡◌, refl, subst, ◌∙◌, Bool-cases, ◌⊎◌, inl, inr, true, false, Option, none, some, arith,
}
use inventory_reservation_sy.Base.Text.{Text, text_eq, eq_iff}
use inventory_reservation_sy.Base.Map.{Map, lookup, insert, lookup-insert}
use inventory_reservation_sy.Base.Time.{Time}
use inventory_reservation_sy.Domain.Inventory.{ProductInventory}
use inventory_reservation_sy.Domain.Reservation.{Reservation, is_active}
use inventory_reservation_sy.Infrastructure.InMemory.{InMemoryRepository}
use inventory_reservation_sy.Application.State.{
  Service, mark_confirmed, mark_cancelled, mark_expired, add_hold, release_hold, sell_hold,
}
use inventory_reservation_sy.Application.Effects.{new_reservation}
use inventory_reservation_sy.Application.Moves.{
  IsHeld, Move, expires, confirms, cancels, grants, rejects, Moves, here, then,
}

-- The reservation was active and is not any more; who holds what until when is as it was.
pub record HasEnded (r t : Reservation) : Type 0 where
  pub before : is_active r ≡ true
  pub after : is_active t ≡ false
  pub same_id : t.reservation_id ≡ r.reservation_id
  pub same_product : t.product_id ≡ r.product_id
  pub same_user : t.user_id ≡ r.user_id
  pub same_creation : t.created_at ≡ r.created_at
  pub same_expiry : t.expires_at ≡ r.expires_at

-- A reservation stays as it is, or ends.
abbrev pub Evolves : Reservation → Reservation → Type 0
Evolves r t = (t ≡ r) ⊎ HasEnded r t

-- The reservation under an id is still there, as it was or ended.
abbrev pub Follows : Text → Reservation → Map Reservation → Type 0
Follows id r rs = (t : Reservation) × (lookup id rs ≡ some t) × Evolves r t

Evolves-trans : (r t u : Reservation) → Evolves r t → Evolves t u → Evolves r u
Evolves-trans r t u (inl e) (inl f) = inl (f ∙ e)
Evolves-trans r t u (inl e) (inr f) = inr (rw (← e) f)
Evolves-trans r t u (inr e) (inl f) = inr (rw f e)
Evolves-trans r t u (inr e) (inr f) = absurd (cc (e.after, f.before))

module _ (rs : Map Reservation) (id : Text) (r : Reservation) (found : lookup id rs ≡ some r) where
  -- The write of an ended reservation.
  settle-Follows :
      (j : Text) (t t' : Reservation)
      → lookup j rs ≡ some t
      → HasEnded t t'
      → Follows id r (insert j t' rs)
  settle-Follows j t t' known e = elim (Bool-cases (text_eq j id)) [
    | inl same ↦
        let one : t ≡ r = ground (arith, eq_iff j id) in
        (t', ground (arith, lookup-insert j id t' rs), inr (subst (λ x. HasEnded x t') one e))
    | inr differ ↦ (r, ground (arith, lookup-insert j id t' rs), inl refl)
  ]

  -- The write under an id that is not in use.
  open-Follows : (j : Text) (t : Reservation) → lookup j rs ≡ none → Follows id r (insert j t rs)
  open-Follows j t unused = (r, ground (arith, lookup-insert j id t rs, eq_iff j id), inl refl)

ended :
    (j : Text) (t : Reservation) (p : ProductInventory) (now : Time)
    (s : Service InMemoryRepository)
    → IsHeld s j t p
    → HasEnded t (mark_expired now t)
      × HasEnded t (mark_confirmed now t)
      × HasEnded t (mark_cancelled now t)
unfolding mark_expired mark_confirmed mark_cancelled
ended j t p now s h = ground (arith, h.active)

-- One move.
Move-Follows :
    {s t : Service InMemoryRepository}
    → Move s t
    → (id : Text) (r : Reservation) → lookup id s.repo.reservations ≡ some r
    → Follows id r t.repo.reservations
Move-Follows {s} (expires j t p now h late) id r found =
    settle-Follows s.repo.reservations id r found j t (mark_expired now t) h.found
      (ended j t p now s h).0
Move-Follows {s} (confirms j t p now h early) id r found =
    settle-Follows s.repo.reservations id r found j t (mark_confirmed now t) h.found
      (ended j t p now s h).1
Move-Follows {s} (cancels j t p now h) id r found =
    settle-Follows s.repo.reservations id r found j t (mark_cancelled now t) h.found
      (ended j t p now s h).2
Move-Follows {s} (grants k u p now known left unused) id r found =
    open-Follows s.repo.reservations id r found _ (new_reservation k u now s) unused
Move-Follows (rejects k u p now known out) id r found = (r, found, inl refl)

-- However many moves are made, a reservation is never deleted, its product, user and times stay, and it
-- changes at most once: from active to a terminal state.
pub Moves-Follows :
    {s t : Service InMemoryRepository}
    → Moves s t
    → (id : Text) (r : Reservation) → lookup id s.repo.reservations ≡ some r
    → Follows id r t.repo.reservations
Moves-Follows here id r found = (r, found, inl refl)
Moves-Follows (then m ms) id r found =
    let (t, e, first) = Move-Follows m id r found in
    let (u, f, later) = Moves-Follows ms id t e in (u, f, Evolves-trans r t u first later)

abbrev pub stock_in : Text → Map ProductInventory → Option ℕ
stock_in k ps = elim (lookup k ps) [ none ↦ none | some p ↦ some p.total_stock ]

stock_in-insert :
    (k j : Text) (p p' : ProductInventory) (ps : Map ProductInventory)
    → lookup j ps ≡ some p
    → p'.total_stock ≡ p.total_stock
    → stock_in k (insert j p' ps) ≡ stock_in k ps
stock_in-insert k j p p' ps known e = ground (arith, lookup-insert j k p' ps, eq_iff j k)

Move-stock :
    {s t : Service InMemoryRepository}
    → Move s t
    → (k : Text) → stock_in k t.repo.products ≡ stock_in k s.repo.products
unfolding release_hold sell_hold add_hold mark_expired mark_confirmed mark_cancelled
Move-stock {s} (expires j t p now h late) k =
    stock_in-insert k t.product_id p (release_hold p) s.repo.products h.owned refl
Move-stock {s} (confirms j t p now h early) k =
    stock_in-insert k t.product_id p (sell_hold p) s.repo.products h.owned refl
Move-stock {s} (cancels j t p now h) k =
    stock_in-insert k t.product_id p (release_hold p) s.repo.products h.owned refl
Move-stock {s} (grants j u p now known left unused) k =
    stock_in-insert k j p (add_hold p) s.repo.products known refl
Move-stock (rejects j u p now known out) k = refl

-- No move changes which products there are, or the total stock of one.
pub Moves-stock :
    {s t : Service InMemoryRepository}
    → Moves s t
    → (k : Text) → stock_in k t.repo.products ≡ stock_in k s.repo.products
Moves-stock here k = refl
Moves-stock (then m ms) k = Moves-stock ms k ∙ Move-stock m k
