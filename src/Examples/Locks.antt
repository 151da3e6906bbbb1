-- ===== src/Examples/Locks.antt =====
-- The theorems on the lock manager, at a concrete interleaving.
use inventory_reservation_sy.Base.{ℕ, ◌≤◌, some, map, length, ◌≡◌, ◌≢◌, refl, List, [], ◌∷◌, arith}
use inventory_reservation_sy.Base.Text.{codes, text_eq}
use inventory_reservation_sy.Base.Map.{lookup, insert}
use inventory_reservation_sy.Infrastructure.LockManager.{
  idle, at_lock, in_section, set_at, new_lock_manager, Action, call, advance, act, act_all,
  take_manager, look_up, store_new, take_lock,
}
use inventory_reservation_sy.Infrastructure.LockManager.Progress.{
  awaits, entry_possible, keys_independent,
}
use inventory_reservation_sy.Infrastructure.LockManager.Exclusion.{mutual_exclusion}

-- Threads 0 and 1 want key "a", and thread 2 wants key "b"; 0 and 2 get in, and 1 waits.
abbrev interleaving : List Action
interleaving =
    call 0 (codes "a")
    ∷ call 1 (codes "a")
    ∷ advance 0
    ∷ advance 1
    ∷ call 2 (codes "b")
    ∷ advance 0
    ∷ advance 0
    ∷ advance 1
    ∷ advance 1
    ∷ advance 0
    ∷ advance 1
    ∷ advance 1
    ∷ advance 2
    ∷ advance 2
    ∷ advance 2
    ∷ advance 2
    ∷ []

first_in : (act_all interleaving new_lock_manager).phase 0 ≡ in_section (codes "a") 0
unfolding act_all act take_manager look_up store_new take_lock lookup insert text_eq
first_in = refl

third_in : (act_all interleaving new_lock_manager).phase 2 ≡ in_section (codes "b") 1
unfolding act_all act take_manager look_up store_new take_lock lookup insert text_eq
third_in = refl

mutual_exclusion_example :
    (act_all interleaving new_lock_manager).phase 1 ≢ in_section (codes "a") 0
mutual_exclusion_example = mutual_exclusion interleaving 0 1 (codes "a") 0 0 (ground arith) first_in

-- Before the others move, thread 2 takes its mutex, and 0 is at its own.
abbrev two_keys : List Action
two_keys =
    call 2 (codes "b")
    ∷ advance 2
    ∷ advance 2
    ∷ advance 2
    ∷ advance 2
    ∷ call 0 (codes "a")
    ∷ advance 0
    ∷ advance 0
    ∷ advance 0
    ∷ []

b_taken : (act_all two_keys new_lock_manager).phase 2 ≡ in_section (codes "b") 0
unfolding act_all act take_manager look_up store_new take_lock lookup insert text_eq
b_taken = refl

at_a : (act_all two_keys new_lock_manager).phase 0 ≡ at_lock (codes "a") 1
unfolding act_all act take_manager look_up store_new take_lock lookup insert text_eq
at_a = refl

phases_then :
    (u : ℕ)
    → (act_all two_keys new_lock_manager).phase u
      ≡ set_at 0 (at_lock (codes "a") 1) (set_at 2 (in_section (codes "b") 0) (λ t. idle)) u
unfolding act_all act take_manager look_up store_new take_lock lookup insert text_eq
phases_then u = ground arith

nobody_in_a : (u m : ℕ) → (act_all two_keys new_lock_manager).phase u ≢ in_section (codes "a") m
nobody_in_a u m = rw (phases_then u) (ground arith)

keys_independent_example :
    (act (advance 0) (act_all two_keys new_lock_manager)).phase 0 ≡ in_section (codes "a") 1
keys_independent_example = keys_independent two_keys 0 (codes "a") 1 at_a nobody_in_a

second_waits : awaits ((act_all interleaving new_lock_manager).phase 1) ≡ some (codes "a")
unfolding act_all act take_manager look_up store_new take_lock lookup insert text_eq
second_waits = refl

entry_possible_example :
    (todo : List ℕ) × (l : ℕ) × (length todo ≤ 7)
    × ((act_all (map advance todo) (act_all interleaving new_lock_manager)).phase 1
        ≡ in_section (codes "a") l)
entry_possible_example = entry_possible interleaving 1 (codes "a") second_waits
