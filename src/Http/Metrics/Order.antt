-- ===== src/Http/Metrics/Order.antt =====
-- internal/interface/http/metrics.go, the sort in Metrics.render: it hides the order of the map.
use mathlib.Core.List.{Permᴰ}
use inventory_reservation_sy.Base.{◌≡◌, refl, sym, ap, ◌∙◌, true, false, List, [], ◌∷◌, map, arith}
use inventory_reservation_sy.Base.Text.{eq_iff}
use inventory_reservation_sy.Base.Strings.{text_lt_asym, text_lt_total, text_lt_trans}
use inventory_reservation_sy.Base.Map.{MapOrder}
use inventory_reservation_sy.Http.Metrics.{Float64, MetricKey, RequestStats, Metrics}
use inventory_reservation_sy.Http.Metrics.Render.{
  key_less, insert_key, sort_keys, render_keys, render,
}

key_less_asym : (k j : MetricKey) → key_less k j ≡ true → key_less j k ≡ false
unfolding key_less
key_less_asym k j h = ground (
  arith,
  eq_iff k.route j.route,
  eq_iff j.route k.route,
  eq_iff k.method j.method,
  eq_iff j.method k.method,
  text_lt_asym k.route j.route,
  text_lt_asym k.method j.method,
  text_lt_asym k.status j.status,
)

key_less_total : (k j : MetricKey) → key_less k j ≡ false → key_less j k ≡ false → k ≡ j
unfolding key_less
key_less_total k j h g = ground (
  arith,
  eq_iff k.route j.route,
  eq_iff j.route k.route,
  eq_iff k.method j.method,
  eq_iff j.method k.method,
  text_lt_total k.route j.route,
  text_lt_total k.method j.method,
  text_lt_total k.status j.status,
)

key_less_trans :
    (k j i : MetricKey) → key_less k j ≡ true → key_less j i ≡ true → key_less k i ≡ true
unfolding key_less
key_less_trans k j i h g = ground (
  arith,
  eq_iff k.route j.route,
  eq_iff j.route i.route,
  eq_iff k.route i.route,
  eq_iff k.method j.method,
  eq_iff j.method i.method,
  eq_iff k.method i.method,
  text_lt_trans k.route j.route i.route,
  text_lt_trans k.method j.method i.method,
  text_lt_trans k.status j.status i.status,
  text_lt_asym k.route j.route,
  text_lt_asym k.method j.method,
)

-- Two insertions commute.
insert_key_comm :
    (k j : MetricKey) (keys : List MetricKey)
    → insert_key k (insert_key j keys) ≡ insert_key j (insert_key k keys)
unfolding insert_key
insert_key_comm k j [] = ground (arith, key_less_asym k j, key_less_total k j)
insert_key_comm k j (i ∷ keys) = ground (
  arith,
  insert_key_comm k j keys,
  key_less_asym k j,
  key_less_total k j,
  key_less_trans k j i,
  key_less_trans j k i,
  key_less_asym k i,
  key_less_asym j i,
)

sort_keys-perm : {ks js : List MetricKey} → Permᴰ ks js → sort_keys ks ≡ sort_keys js
unfolding sort_keys
sort_keys-perm Permᴰ.nil = refl
sort_keys-perm (Permᴰ.cons e p) = rw e (ap (insert_key _) (sort_keys-perm p))
sort_keys-perm (Permᴰ.swap e f) = rw (e, f) (insert_key_comm _ _ _)
sort_keys-perm (Permᴰ.trans p q) = sort_keys-perm p ∙ sort_keys-perm q

map-perm : {A B : Type 0} (f : A → B) {xs ys : List A} → Permᴰ xs ys → Permᴰ (map f xs) (map f ys)
map-perm f Permᴰ.nil = Permᴰ.nil
map-perm f (Permᴰ.cons e p) = Permᴰ.cons (ap f e) (map-perm f p)
map-perm f (Permᴰ.swap e g) = Permᴰ.swap (ap f e) (ap f g)
map-perm f (Permᴰ.trans p q) = Permᴰ.trans (map-perm f p) (map-perm f q)

module _ {F : Type 0} (float : Float64 F) where
  -- Whatever the order in which Go visits the map, the text is the same.
  pub render_same :
      (order other : MapOrder (MetricKey × RequestStats F)) (m : Metrics F)
      → render float order m ≡ render float other m
  unfolding render
  render_same order other m = ap (render_keys float m) (
      sym (sort_keys-perm (map-perm (λ entry. entry.0) (order.arrange-perm m.stats)))
      ∙ sort_keys-perm (map-perm (λ entry. entry.0) (other.arrange-perm m.stats)))
