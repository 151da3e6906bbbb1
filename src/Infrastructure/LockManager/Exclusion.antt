-- ===== src/Infrastructure/LockManager/Exclusion.antt =====
-- internal/infrastructure/lock_manager.go, all interleavings of its threads: who is in a critical
-- section.
use inventory_reservation_sy.Base.{
  ℕ, ◌<◌, ◌≡◌, ◌≢◌, refl, List, [], ◌∷◌, Option, none, some, Option-cases, inl, inr, arith,
  if◌then◌else◌,
}
use inventory_reservation_sy.Base.Text.{Text, eq_iff}
use inventory_reservation_sy.Base.Map.{lookup, lookup-insert}
use inventory_reservation_sy.Infrastructure.LockManager.{
  Phase, idle, at_manager, looking, storing, at_lock, in_section, LockState, new_lock_manager,
  Action, call, advance, take_manager, look_up, store_new, take_lock, release, advance_from,
  call_from, act, act_all, set_at, is_free,
}

-- What the steps keep. A mutex that is in use is held by the thread in its section; a key is bound to one
-- mutex for good, and no two keys share one; only the holder of `mu` looks up and stores.
pub record IsExclusive (s : LockState) : Type 0 where
  held : (t : ℕ) (k : Text) (l : ℕ) → s.phase t ≡ in_section k l → s.owner l ≡ some t
  pub bound : (t : ℕ) (k : Text) (l : ℕ) → s.phase t ≡ in_section k l → lookup k s.locks ≡ some l
  pub found : (t : ℕ) (k : Text) (l : ℕ) → s.phase t ≡ at_lock k l → lookup k s.locks ≡ some l
  drawn : (k : Text) (l : ℕ) → lookup k s.locks ≡ some l → l < s.allocated
  pub apart : (k j : Text) (l : ℕ) → lookup k s.locks ≡ some l → lookup j s.locks ≡ some l → k ≡ j
  reads : (t : ℕ) (k : Text) → s.phase t ≡ looking k → s.manager_owner ≡ some t
  writes : (t : ℕ) (k : Text) → s.phase t ≡ storing k → s.manager_owner ≡ some t
  misses : (t : ℕ) (k : Text) → s.phase t ≡ storing k → lookup k s.locks ≡ none

-- Both branches of a test keep a property.
if_both :
    (P : LockState → Type 0) (o : Option ℕ) (s t : LockState)
    → (o ≡ none → P s)
    → P t
    → P (if is_free o then s else t)
if_both P none s t one other = one refl
if_both P (some u) s t one other = other

module _ (s : LockState) (v : IsExclusive s) (t : ℕ) where
  take_manager-IsExclusive :
      (k : Text) → s.phase t ≡ at_manager k → IsExclusive (take_manager t k s)
  unfolding take_manager
  take_manager-IsExclusive k e =
      if_both IsExclusive s.manager_owner _ s
        (λ free. record {
          held = λ t' k' l' h. ground (arith, v.held t' k' l');
          bound = λ t' k' l' h. ground (arith, v.bound t' k' l');
          found = λ t' k' l' h. ground (arith, v.found t' k' l');
          drawn = v.drawn;
          apart = v.apart;
          reads = λ t' k' h. ground (arith, v.reads t' k');
          writes = λ t' k' h. ground (arith, v.writes t' k');
          misses = λ t' k' h. ground (arith, v.misses t' k');
        })
        v

  look_up_hit-IsExclusive :
      (k : Text) (l : ℕ)
      → s.phase t ≡ looking k
      → lookup k s.locks ≡ some l
      → IsExclusive (record s { manager_owner = none; phase = set_at t (at_lock k l) s.phase })
  look_up_hit-IsExclusive k l e hit = record {
    held = λ t' k' l' h. ground (arith, v.held t' k' l');
    bound = λ t' k' l' h. ground (arith, v.bound t' k' l');
    found = λ t' k' l' h. ground (arith, v.found t' k' l');
    drawn = v.drawn;
    apart = v.apart;
    reads = λ t' k' h. ground (arith, v.reads t' k', v.reads t k);
    writes = λ t' k' h. ground (arith, v.writes t' k', v.reads t k);
    misses = λ t' k' h. ground (arith, v.misses t' k');
  }

  look_up_miss-IsExclusive :
      (k : Text)
      → s.phase t ≡ looking k
      → lookup k s.locks ≡ none
      → IsExclusive (record s { phase = set_at t (storing k) s.phase })
  look_up_miss-IsExclusive k e miss = record {
    held = λ t' k' l' h. ground (arith, v.held t' k' l');
    bound = λ t' k' l' h. ground (arith, v.bound t' k' l');
    found = λ t' k' l' h. ground (arith, v.found t' k' l');
    drawn = v.drawn;
    apart = v.apart;
    reads = λ t' k' h. ground (arith, v.reads t' k');
    writes = λ t' k' h. ground (arith, v.writes t' k', v.reads t k);
    misses = λ t' k' h. ground (arith, v.misses t' k');
  }

  store_new-IsExclusive : (k : Text) → s.phase t ≡ storing k → IsExclusive (store_new t k s)
  unfolding store_new
  store_new-IsExclusive k e = record {
    held = λ t' k' l' h. ground (arith, v.held t' k' l');
    bound = λ t' k' l' h. ground (
      arith,
      v.bound t' k' l',
      v.misses t k e,
      lookup-insert k k' s.allocated s.locks,
      eq_iff k k',
    );
    found = λ t' k' l' h. ground (
      arith,
      v.found t' k' l',
      v.misses t k e,
      lookup-insert k k' s.allocated s.locks,
      eq_iff k k',
    );
    drawn = λ k' l' h. ground (arith, v.drawn k' l', lookup-insert k k' s.allocated s.locks);
    apart = λ k' j' l' h g. ground (
      arith,
      v.apart k' j' l',
      v.drawn k' l',
      v.drawn j' l',
      eq_iff k k',
      eq_iff k j',
      lookup-insert k k' s.allocated s.locks,
      lookup-insert k j' s.allocated s.locks,
    );
    reads = λ t' k' h. ground (arith, v.reads t' k', v.writes t k);
    writes = λ t' k' h. ground (arith, v.writes t' k', v.writes t k);
    misses = λ t' k' h. ground (arith, v.writes t' k', v.writes t k);
  }

  take_lock-IsExclusive :
      (k : Text) (l : ℕ) → s.phase t ≡ at_lock k l → IsExclusive (take_lock t k l s)
  unfolding take_lock
  take_lock-IsExclusive k l e =
      if_both IsExclusive (s.owner l) _ s
        (λ free. record {
          held = λ t' k' l' h. ground (arith, v.held t' k' l');
          bound = λ t' k' l' h. ground (arith, v.bound t' k' l', v.found t k l);
          found = λ t' k' l' h. ground (arith, v.found t' k' l');
          drawn = v.drawn;
          apart = v.apart;
          reads = λ t' k' h. ground (arith, v.reads t' k');
          writes = λ t' k' h. ground (arith, v.writes t' k');
          misses = λ t' k' h. ground (arith, v.misses t' k');
        })
        v

  release-IsExclusive :
      (k : Text) (l : ℕ) → s.phase t ≡ in_section k l → IsExclusive (release t l s)
  unfolding release
  release-IsExclusive k l e = record {
    held = λ t' k' l' h. ground (arith, v.held t' k' l', v.held t k l);
    bound = λ t' k' l' h. ground (arith, v.bound t' k' l');
    found = λ t' k' l' h. ground (arith, v.found t' k' l');
    drawn = v.drawn;
    apart = v.apart;
    reads = λ t' k' h. ground (arith, v.reads t' k');
    writes = λ t' k' h. ground (arith, v.writes t' k');
    misses = λ t' k' h. ground (arith, v.misses t' k');
  }

  call-IsExclusive :
      (k : Text)
      → s.phase t ≡ idle
      → IsExclusive (record s { phase = set_at t (at_manager k) s.phase })
  call-IsExclusive k e = record {
    held = λ t' k' l' h. ground (arith, v.held t' k' l');
    bound = λ t' k' l' h. ground (arith, v.bound t' k' l');
    found = λ t' k' l' h. ground (arith, v.found t' k' l');
    drawn = v.drawn;
    apart = v.apart;
    reads = λ t' k' h. ground (arith, v.reads t' k');
    writes = λ t' k' h. ground (arith, v.writes t' k');
    misses = λ t' k' h. ground (arith, v.misses t' k');
  }

  advance_from-IsExclusive : (p : Phase) → s.phase t ≡ p → IsExclusive (advance_from p t s)
  unfolding look_up
  advance_from-IsExclusive idle e = v
  advance_from-IsExclusive (at_manager k) e = take_manager-IsExclusive k e
  advance_from-IsExclusive (looking k) e = elim (Option-cases (lookup k s.locks)) [
    | inl miss ↦ rw (look_up, miss) (look_up_miss-IsExclusive k e miss)
    | inr (l, hit) ↦ rw (look_up, hit) (look_up_hit-IsExclusive k l e hit)
  ]
  advance_from-IsExclusive (storing k) e = store_new-IsExclusive k e
  advance_from-IsExclusive (at_lock k l) e = take_lock-IsExclusive k l e
  advance_from-IsExclusive (in_section k l) e = release-IsExclusive k l e

  call_from-IsExclusive : (p : Phase) (k : Text) → s.phase t ≡ p → IsExclusive (call_from p t k s)
  call_from-IsExclusive idle k e = call-IsExclusive k e
  call_from-IsExclusive (at_manager j) k e = v
  call_from-IsExclusive (looking j) k e = v
  call_from-IsExclusive (storing j) k e = v
  call_from-IsExclusive (at_lock j l) k e = v
  call_from-IsExclusive (in_section j l) k e = v

act-IsExclusive : (a : Action) (s : LockState) → IsExclusive s → IsExclusive (act a s)
unfolding act
act-IsExclusive (call t k) s v = call_from-IsExclusive s v t (s.phase t) k refl
act-IsExclusive (advance t) s v = advance_from-IsExclusive s v t (s.phase t) refl

pub act_all-IsExclusive :
    (actions : List Action) (s : LockState) → IsExclusive s → IsExclusive (act_all actions s)
unfolding act_all
act_all-IsExclusive [] s v = v
act_all-IsExclusive (a ∷ rest) s v = act_all-IsExclusive rest (act a s) (act-IsExclusive a s v)

pub new-IsExclusive : IsExclusive new_lock_manager
unfolding lookup
new-IsExclusive = record {
  held = λ t k l h. absurd (cc);
  bound = λ t k l h. absurd (cc);
  found = λ t k l h. absurd (cc);
  drawn = λ k l h. absurd (cc);
  apart = λ k j l h g. absurd (cc);
  reads = λ t k h. absurd (cc);
  writes = λ t k h. absurd (cc);
  misses = λ t k h. absurd (cc);
}

-- From a new lock manager, however the threads interleave: while a thread is in the critical section of a
-- key, no other thread is in a critical section of that key.
pub mutual_exclusion :
    (actions : List Action) (t u : ℕ) (k : Text) (l m : ℕ)
    → t ≢ u
    → (act_all actions new_lock_manager).phase t ≡ in_section k l
    → (act_all actions new_lock_manager).phase u ≢ in_section k m
mutual_exclusion actions t u k l m differ in_t in_u =
    let v = act_all-IsExclusive actions new_lock_manager new-IsExclusive in
    ground (arith, v.held t k l in_t, v.held u k m in_u, v.bound t k l in_t, v.bound u k m in_u)
