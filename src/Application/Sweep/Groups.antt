-- ===== src/Application/Sweep/Groups.antt =====
-- internal/application/reservation_service.go, ExpireReservations: the ids in the groups by product.
use mathlib.Core.List.Permᴰ
use mathlib.Core.List.{Permᴰ}
use mathlib.Core.Path.{subst₂}
use inventory_reservation_sy.Base.{
  Bool, ◌≡◌, refl, subst, List, [], ◌∷◌, ◌++◌, map, append_assoc, arith, inl, inr, not, Bool-cases,
  select,
}
use inventory_reservation_sy.Base.Text.{Text, text_eq}
use inventory_reservation_sy.Base.Map.{Map, lookup, insert}
use inventory_reservation_sy.Base.Time.{Time, before}
use inventory_reservation_sy.Domain.Reservation.{Reservation}
use inventory_reservation_sy.Application.Sweep.{or_empty, add_to_group, group_due}

-- The ids of all groups.
unfoldable pub ids_of : Map (List Text) → List Text
ids_of [] = []
ids_of ((k, ids) ∷ m) = ids ++ ids_of m

abbrev pub is_due : Time → Reservation → Bool
is_due now r = not (before now r.expires_at)

abbrev pub id_of : Reservation → Text
id_of r = r.reservation_id

insert-perm :
    (k id : Text) (m : Map (List Text)) (old : List Text)
    → or_empty (lookup k m) ≡ old
    → Permᴰ (id ∷ ids_of m) (ids_of (insert k (old ++ id ∷ []) m))
unfolding ids_of lookup insert
insert-perm k id [] old e =
    subst (λ o. Permᴰ (id ∷ []) ((o ++ id ∷ []) ++ [])) e (Permᴰ.refl (id ∷ []))
insert-perm k id ((j, ids) ∷ m) old e = elim (Bool-cases (text_eq j k)) [
  | inl same ↦
      let first : ids ≡ old = ground arith in
      rw (same, ← first, append_assoc ids (id ∷ []) (ids_of m))
        (Permᴰ.symm (Permᴰ.middle id ids (ids_of m)))
  | inr differ ↦ rw differ (
      Permᴰ.trans (Permᴰ.symm (Permᴰ.middle id ids (ids_of m)))
        (Permᴰ.append_left ids (insert-perm k id m old (ground arith))))
]

add_to_group-perm :
    (k id : Text) (m : Map (List Text)) → Permᴰ (id ∷ ids_of m) (ids_of (add_to_group k id m))
unfolding add_to_group
add_to_group-perm k id m = insert-perm k id m (or_empty (lookup k m)) refl

pub group_due-perm :
    (now : Time) (rs : List Reservation) (m : Map (List Text))
    → Permᴰ (map id_of (select (is_due now) rs) ++ ids_of m) (ids_of (group_due now rs m))
unfolding group_due select
group_due-perm now [] m = Permᴰ.refl (ids_of m)
group_due-perm now (r ∷ rs) m = elim (Bool-cases (before now r.expires_at)) [
  | inl early ↦ rw early (group_due-perm now rs m)
  | inr due ↦ rw due (
      Permᴰ.trans
        (Permᴰ.symm (Permᴰ.middle (id_of r) (map id_of (select (is_due now) rs)) (ids_of m)))
        (Permᴰ.trans
          (Permᴰ.append_left (map id_of (select (is_due now) rs))
            (add_to_group-perm r.product_id r.reservation_id m))
          (group_due-perm now rs (add_to_group r.product_id r.reservation_id m))))
]

swap_blocks : (a b c : List Text) → Permᴰ (a ++ (b ++ c)) (b ++ (a ++ c))
swap_blocks a b c =
    rw (← append_assoc a b c, ← append_assoc b a c) (Permᴰ.append_right c (Permᴰ.append_comm a b))

-- Visiting the groups in another order lists the same ids.
pub ids_of-perm : {m m' : Map (List Text)} → Permᴰ m m' → Permᴰ (ids_of m) (ids_of m')
unfolding ids_of
ids_of-perm Permᴰ.nil = Permᴰ.nil
ids_of-perm (Permᴰ.cons {a = a} {l₁ = l'} {l₂ = l} e p) =
    subst (λ (t : Text × List Text). Permᴰ (a.1 ++ ids_of l') (t.1 ++ ids_of l)) e
      (Permᴰ.append_left a.1 (ids_of-perm p))
ids_of-perm (Permᴰ.swap {a = a} {b = b} {l = l} e f) =
    subst₂ (λ (t u : Text × List Text). Permᴰ (a.1 ++ (b.1 ++ ids_of l)) (u.1 ++ (t.1 ++ ids_of l)))
      e f (swap_blocks a.1 b.1 (ids_of l))
ids_of-perm (Permᴰ.trans p q) = Permᴰ.trans (ids_of-perm p) (ids_of-perm q)
