-- ===== src/Infrastructure/LockManager/Progress.antt =====
-- internal/infrastructure/lock_manager.go, all interleavings of its threads: who waits for whom.
use inventory_reservation_sy.Base.{
  ℕ, ◌+◌, ◌≤◌, ◌≡◌, ◌≢◌, ◌==◌, refl, ap, ◌∙◌, subst, sym, Bool, true, false, List, [], ◌∷◌, map,
  length, Option, none, some, Option-cases, inl, inr, ◌⊎◌, arith,
}
use inventory_reservation_sy.Base.Text.{Text}
use inventory_reservation_sy.Base.Map.{lookup}
use inventory_reservation_sy.Infrastructure.LockManager.{
  Phase, idle, at_manager, looking, storing, at_lock, in_section, LockState, new_lock_manager,
  Action, call, advance, take_manager, look_up, store_new, take_lock, release, advance_from,
  call_from, act, act_all,
}
use inventory_reservation_sy.Infrastructure.LockManager.Exclusion.{
  IsExclusive, act_all-IsExclusive, new-IsExclusive,
}

-- Between `mu.Lock()` and its unlock; and in the section that a mutex guards.
abbrev is_managing : Phase → Bool
is_managing (looking k) = true
is_managing (storing k) = true
is_managing _ = false

abbrev is_inside : ℕ → Phase → Bool
is_inside l (in_section k m) = l == m
is_inside l _ = false

-- Whoever holds `mu` or a mutex is at work.
record IsLive (s : LockState) : Type 0 where
  managing : (u : ℕ) → s.manager_owner ≡ some u → is_managing (s.phase u) ≡ true
  owning : (l u : ℕ) → s.owner l ≡ some u → is_inside l (s.phase u) ≡ true

module _ (s : LockState) (v : IsLive s) (t : ℕ) where
  advance_from-IsLive : (p : Phase) → s.phase t ≡ p → IsLive (advance_from p t s)
  unfolding take_manager look_up store_new take_lock release
  advance_from-IsLive idle e = v
  advance_from-IsLive (at_manager k) e = record {
    managing = λ u h. ground (arith, v.managing u);
    owning = λ l u h. ground (arith, v.owning l u);
  }
  advance_from-IsLive (looking k) e = record {
    managing = λ u h. ground (arith, v.managing u);
    owning = λ l u h. ground (arith, v.owning l u);
  }
  advance_from-IsLive (storing k) e = record {
    managing = λ u h. ground (arith, v.managing u);
    owning = λ l u h. ground (arith, v.owning l u);
  }
  advance_from-IsLive (at_lock k m) e = record {
    managing = λ u h. ground (arith, v.managing u);
    owning = λ l u h. ground (arith, v.owning l u);
  }
  advance_from-IsLive (in_section k m) e = record {
    managing = λ u h. ground (arith, v.managing u);
    owning = λ l u h. ground (arith, v.owning l u);
  }

  call_from-IsLive : (p : Phase) (k : Text) → s.phase t ≡ p → IsLive (call_from p t k s)
  call_from-IsLive idle k e = record {
    managing = λ u h. ground (arith, v.managing u);
    owning = λ l u h. ground (arith, v.owning l u);
  }
  call_from-IsLive (at_manager j) k e = v
  call_from-IsLive (looking j) k e = v
  call_from-IsLive (storing j) k e = v
  call_from-IsLive (at_lock j l) k e = v
  call_from-IsLive (in_section j l) k e = v

act-IsLive : (a : Action) (s : LockState) → IsLive s → IsLive (act a s)
unfolding act
act-IsLive (call t k) s v = call_from-IsLive s v t (s.phase t) k refl
act-IsLive (advance t) s v = advance_from-IsLive s v t (s.phase t) refl

act_all-IsLive : (actions : List Action) (s : LockState) → IsLive s → IsLive (act_all actions s)
unfolding act_all
act_all-IsLive [] s v = v
act_all-IsLive (a ∷ rest) s v = act_all-IsLive rest (act a s) (act-IsLive a s v)

new-IsLive : IsLive new_lock_manager
new-IsLive = record { managing = λ u h. absurd (cc); owning = λ l u h. absurd (cc) }

-- What the tests tell of a phase.
section_of : (l : ℕ) (p : Phase) → is_inside l p ≡ true → (k : Text) × (p ≡ in_section k l)
section_of l idle h = absurd (cc)
section_of l (at_manager k) h = absurd (cc)
section_of l (looking k) h = absurd (cc)
section_of l (storing k) h = absurd (cc)
section_of l (at_lock k m) h = absurd (cc)
section_of l (in_section k m) h = (k, ground arith)

managing_of :
    (p : Phase)
    → is_managing p ≡ true
    → ((k : Text) × (p ≡ looking k)) ⊎ ((k : Text) × (p ≡ storing k))
managing_of idle h = absurd (cc)
managing_of (at_manager k) h = absurd (cc)
managing_of (looking k) h = inl (k, refl)
managing_of (storing k) h = inr (k, refl)
managing_of (at_lock k m) h = absurd (cc)
managing_of (in_section k m) h = absurd (cc)

-- Within `n` steps of threads that are under way, thread `t` can be in the section of its key.
abbrev CanEnter : ℕ → ℕ → Text → LockState → Type 0
CanEnter n t k s =
    (todo : List ℕ) × (l : ℕ) × (length todo ≤ n)
    × ((act_all (map advance todo) s).phase t ≡ in_section k l)

module _ (t : ℕ) (k : Text) where
  -- One step first, of a thread whose phase is known.
  step_first :
      (n u : ℕ) (p : Phase) (s : LockState)
      → s.phase u ≡ p
      → CanEnter n t k (advance_from p u s)
      → CanEnter (n + 1) t k s
  unfolding act_all act
  step_first n u p s e (todo, l, short, entered) = (
    u ∷ todo,
    l,
    omega (arith, short),
    subst (λ q. (act_all (map advance todo) (advance_from q u s)).phase t ≡ in_section k l) (sym e)
        entered,
  )

  -- A bound that is larger.
  sooner : (n m : ℕ) (s : LockState) → n ≤ m → CanEnter n t k s → CanEnter m t k s
  sooner n m s more (todo, l, short, entered) = (todo, l, omega arith, entered)

  from_free_lock :
      (l : ℕ) (s : LockState) → s.phase t ≡ at_lock k l → s.owner l ≡ none → CanEnter 1 t k s
  unfolding act_all act take_lock
  from_free_lock l s e free = (t ∷ [], l, omega arith, ground (arith, e, free))

  from_lock : (l : ℕ) (s : LockState) → IsLive s → s.phase t ≡ at_lock k l → CanEnter 2 t k s
  unfolding release
  from_lock l s v e = elim (Option-cases (s.owner l)) [
    | inl free ↦ sooner 1 2 s (omega arith) (from_free_lock l s e free)
    | inr (u, taken) ↦
        let (j, at) = section_of l (s.phase u) (v.owning l u taken) in
        step_first 1 u (in_section j l) s at
          (from_free_lock l (release u l s) (ground (arith, e, at)) (ground arith))
  ]

  from_storing : (s : LockState) → IsLive s → s.phase t ≡ storing k → CanEnter 3 t k s
  unfolding store_new
  from_storing s v e = step_first 2 t (storing k) s e (
      from_lock s.allocated (store_new t k s) (advance_from-IsLive s v t (storing k) e)
        (ground arith))

  from_looking : (s : LockState) → IsLive s → s.phase t ≡ looking k → CanEnter 4 t k s
  unfolding look_up
  from_looking s v e =
      let v' = advance_from-IsLive s v t (looking k) e in
      elim (Option-cases (lookup k s.locks)) [
        | inl miss ↦
            step_first 3 t (looking k) s e (from_storing (look_up t k s) v' (ground (arith, miss)))
        | inr (l, hit) ↦ step_first 3 t (looking k) s e (
            sooner 2 3 (look_up t k s) (omega arith)
              (from_lock l (look_up t k s) v' (ground (arith, hit))))
      ]

  from_free_manager :
      (s : LockState)
      → IsLive s
      → s.phase t ≡ at_manager k
      → s.manager_owner ≡ none
      → CanEnter 5 t k s
  unfolding take_manager
  from_free_manager s v e free = step_first 4 t (at_manager k) s e (
      from_looking (take_manager t k s) (advance_from-IsLive s v t (at_manager k) e)
        (ground (arith, free)))

  behind_storing :
      (s : LockState) (u : ℕ) (j : Text)
      → IsLive s
      → s.phase t ≡ at_manager k
      → s.phase u ≡ storing j
      → CanEnter 6 t k s
  unfolding store_new
  behind_storing s u j v e at = step_first 5 u (storing j) s at (
      from_free_manager (store_new u j s) (advance_from-IsLive s v u (storing j) at)
        (ground (arith, e, at)) (ground arith))

  behind_looking :
      (s : LockState) (u : ℕ) (j : Text)
      → IsLive s
      → s.phase t ≡ at_manager k
      → s.phase u ≡ looking j
      → CanEnter 7 t k s
  unfolding look_up
  behind_looking s u j v e at =
      let v' = advance_from-IsLive s v u (looking j) at in
      elim (Option-cases (lookup j s.locks)) [
        | inl miss ↦ step_first 6 u (looking j) s at (
            behind_storing (look_up u j s) u j v' (ground (arith, e, at, miss))
              (ground (arith, miss)))
        | inr (l, hit) ↦ step_first 6 u (looking j) s at (
            sooner 5 6 (look_up u j s) (omega arith) (
              from_free_manager (look_up u j s) v' (ground (arith, e, at, hit))
                (ground (arith, hit))))
      ]

  from_manager : (s : LockState) → IsLive s → s.phase t ≡ at_manager k → CanEnter 7 t k s
  from_manager s v e = elim (Option-cases s.manager_owner) [
    | inl free ↦ sooner 5 7 s (omega arith) (from_free_manager s v e free)
    | inr (u, taken) ↦ elim (managing_of (s.phase u) (v.managing u taken)) [
      | inl (j, at) ↦ behind_looking s u j v e at
      | inr (j, at) ↦ sooner 6 7 s (omega arith) (behind_storing s u j v e at)
    ]
  ]

-- The key that a thread has called `With` with and whose section it is not in yet.
abbrev pub awaits : Phase → Option Text
awaits idle = none
awaits (at_manager k) = some k
awaits (looking k) = some k
awaits (storing k) = some k
awaits (at_lock k l) = some k
awaits (in_section k l) = none

can_enter :
    (t : ℕ) (k : Text) (s : LockState) (p : Phase)
    → IsLive s
    → s.phase t ≡ p
    → awaits p ≡ some k
    → CanEnter 7 t k s
can_enter t k s idle v e w = absurd (cc)
can_enter t k s (at_manager j) v e w = from_manager t k s v (cc)
can_enter t k s (looking j) v e w = sooner t k 4 7 s (omega arith) (from_looking t k s v (cc))
can_enter t k s (storing j) v e w = sooner t k 3 7 s (omega arith) (from_storing t k s v (cc))
can_enter t k s (at_lock j l) v e w = sooner t k 2 7 s (omega arith) (from_lock t k l s v (cc))
can_enter t k s (in_section j l) v e w = absurd (cc)

-- From a new lock manager, however the threads interleave: there is no deadlock. For a thread that has
-- called With and is not in its section, at most seven steps of threads that are under way, each of which
-- the lock manager allows, take it there.
pub entry_possible :
    (actions : List Action) (t : ℕ) (k : Text)
    → awaits ((act_all actions new_lock_manager).phase t) ≡ some k
    → (todo : List ℕ) × (l : ℕ) × (length todo ≤ 7)
      × ((act_all (map advance todo) (act_all actions new_lock_manager)).phase t ≡ in_section k l)
entry_possible actions t k w =
    can_enter t k (act_all actions new_lock_manager) ((act_all actions new_lock_manager).phase t)
      (act_all-IsLive actions new_lock_manager new-IsLive) refl w

-- A mutex that is in use is that of the key whose section its owner is in.
take_lock-enters :
    (s : LockState) (t : ℕ) (k : Text) (l : ℕ)
    → IsExclusive s
    → IsLive s
    → s.phase t ≡ at_lock k l
    → ((u m : ℕ) → s.phase u ≢ in_section k m)
    → (take_lock t k l s).phase t ≡ in_section k l
unfolding take_lock
take_lock-enters s t k l v w e nobody = elim (Option-cases (s.owner l)) [
  | inl free ↦ ground (arith, free)
  | inr (u, taken) ↦
      let (j, at) = section_of l (s.phase u) (w.owning l u taken) in
      let same : j ≡ k = v.apart j k l (v.bound u j l at) (v.found t k l e) in
      absurd (nobody u l (at ∙ ap (λ q. in_section q l) same))
]

-- From a new lock manager, however the threads interleave: a thread that is at the mutex of a key whose
-- section nobody is in enters the section at its next step, whoever is in the sections of other keys.
pub keys_independent :
    (actions : List Action) (t : ℕ) (k : Text) (l : ℕ)
    → let s = act_all actions new_lock_manager in
      s.phase t ≡ at_lock k l
      → ((u m : ℕ) → s.phase u ≢ in_section k m)
      → (act (advance t) s).phase t ≡ in_section k l
unfolding act
keys_independent actions t k l waits nobody =
    let s = act_all actions new_lock_manager in
    rw (waits) (
      take_lock-enters s t k l (act_all-IsExclusive actions new_lock_manager new-IsExclusive)
        (act_all-IsLive actions new_lock_manager new-IsLive) waits nobody)
