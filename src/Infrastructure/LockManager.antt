-- ===== src/Infrastructure/LockManager.antt =====
-- internal/infrastructure/lock_manager.go, step by step. Threads are numbered, and so are the product
-- mutexes, in the order in which they are allocated. Each access to shared memory is a step: a thread
-- takes `mu`, looks its key up, stores a new mutex if there is none, gives `mu` back, takes the mutex,
-- runs its critical section and releases the mutex. A thread whose mutex is taken stays where it is.
pub mod Exclusion
pub mod Progress
use inventory_reservation_sy.Base.{
  ℕ, ◌+◌, ◌==◌, if◌then◌else◌, Bool, true, false, List, [], ◌∷◌, Option, none, some,
}
use inventory_reservation_sy.Base.Text.{Text}
use inventory_reservation_sy.Base.Map.{Map, lookup, insert}

-- Where a thread stands: outside, at `mu.Lock()`, at the lookup in `lockFor`, at the store of a new
-- mutex, at `l.Lock()`, or in `fn`.
pub data Phase : Type 0 where
  idle : Phase
  at_manager looking storing : Text → Phase
  at_lock in_section : Text → ℕ → Phase

pub record LockState : Type 0 where
  pub manager_owner : Option ℕ
  pub locks : Map ℕ
  pub allocated : ℕ
  pub owner : ℕ → Option ℕ
  pub phase : ℕ → Phase

abbrev pub set_at : {A : Type 0} → ℕ → A → (ℕ → A) → ℕ → A
set_at i x f j = if i == j then x else f j

abbrev pub is_free : Option ℕ → Bool
is_free none = true
is_free (some t) = false

abbrev pub new_lock_manager : LockState
new_lock_manager = record {
  manager_owner = none;
  locks = [];
  allocated = 0;
  owner = λ l. none;
  phase = λ t. idle;
}

unfoldable pub take_manager : ℕ → Text → LockState → LockState
take_manager t key s =
    if is_free s.manager_owner
    then record s { manager_owner = some t; phase = set_at t (looking key) s.phase }
    else s

-- `l, ok := lm.locks[key]`; if it is there, `mu` is given back.
unfoldable pub look_up : ℕ → Text → LockState → LockState
look_up t key s = elim (lookup key s.locks) [
  | none ↦ record s { phase = set_at t (storing key) s.phase }
  | some l ↦ record s { manager_owner = none; phase = set_at t (at_lock key l) s.phase }
]

-- `l = &sync.Mutex{}; lm.locks[key] = l`, and `mu` is given back.
unfoldable pub store_new : ℕ → Text → LockState → LockState
store_new t key s = record s {
  manager_owner = none;
  locks = insert key s.allocated s.locks;
  allocated = s.allocated + 1;
  phase = set_at t (at_lock key s.allocated) s.phase;
}

unfoldable pub take_lock : ℕ → Text → ℕ → LockState → LockState
take_lock t key l s =
    if is_free (s.owner l)
    then record s { owner = set_at l (some t) s.owner; phase = set_at t (in_section key l) s.phase }
    else s

unfoldable pub release : ℕ → ℕ → LockState → LockState
release t l s = record s { owner = set_at l none s.owner; phase = set_at t idle s.phase }

abbrev pub advance_from : Phase → ℕ → LockState → LockState
advance_from idle t s = s
advance_from (at_manager key) t s = take_manager t key s
advance_from (looking key) t s = look_up t key s
advance_from (storing key) t s = store_new t key s
advance_from (at_lock key l) t s = take_lock t key l s
advance_from (in_section key l) t s = release t l s

-- A thread calls `With` with a key, or goes one step on.
pub data Action : Type 0 where
  call : ℕ → Text → Action
  advance : ℕ → Action

abbrev pub call_from : Phase → ℕ → Text → LockState → LockState
call_from idle t key s = record s { phase = set_at t (at_manager key) s.phase }
call_from _ t key s = s

unfoldable pub act : Action → LockState → LockState
act (call t key) s = call_from (s.phase t) t key s
act (advance t) s = advance_from (s.phase t) t s

unfoldable pub act_all : List Action → LockState → LockState
act_all [] s = s
act_all (a ∷ rest) s = act_all rest (act a s)
