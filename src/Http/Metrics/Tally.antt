-- ===== src/Http/Metrics/Tally.antt =====
-- internal/interface/http/metrics.go, Metrics.record over a whole run of requests.
use inventory_reservation_sy.Base.{
  ℕ, ◌+◌, ◌≤◌, ◌<◌, ◌≡◌, ◌↔◌, refl, Bool, true, List, [], ◌∷◌, map, select, length, arith,
  if◌then◌else◌, Bool-cases, inl, inr, some,
}
use inventory_reservation_sy.Base.Text.{eq_iff}
use inventory_reservation_sy.Base.Int64.{word}
use inventory_reservation_sy.Http.Metrics.{
  Float64, MetricKey, RequestStats, Metrics, Observation, key_eq, find_stats, put_stats, key_of,
  is_server_error, default_duration_buckets, fresh_stats, or_fresh, fill_buckets, add_request,
  record_request, record_all,
}

pub key_eq_iff : (k j : MetricKey) → (key_eq k j ≡ true) ↔ (k ≡ j)
unfolding key_eq
key_eq_iff k j =
    ground (arith, eq_iff k.method j.method, eq_iff k.route j.route, eq_iff k.status j.status)

pub find-put :
    {F : Type 0} (key wanted : MetricKey) (v : RequestStats F)
    (m : List (MetricKey × RequestStats F))
    → find_stats wanted (put_stats key v m)
      ≡ (if key_eq key wanted then some v else find_stats wanted m)
unfolding find_stats put_stats
find-put key wanted v [] = refl
find-put key wanted v ((first, old) ∷ rest) = ground (
  arith,
  find-put key wanted v rest,
  key_eq_iff first wanted,
  key_eq_iff first key,
  key_eq_iff key wanted,
)

length-select_le : {A : Type 0} (p : A → Bool) (xs : List A) → length (select p xs) ≤ length xs
unfolding select
length-select_le p [] = omega arith
length-select_le p (x ∷ xs) = ground (arith, length-select_le p xs)

length-select_mono :
    {A : Type 0} (p q : A → Bool) (xs : List A)
    → ((x : A) → p x ≡ true → q x ≡ true)
    → length (select p xs) ≤ length (select q xs)
unfolding select
length-select_mono p q [] h = omega arith
length-select_mono p q (x ∷ xs) h = ground (arith, h x, length-select_mono p q xs h)

module _ {F : Type 0} (float : Float64 F) where
  open float use {zero_seconds, plus, at_most, seconds}

  abbrev sum_up : List Observation → F
  sum_up [] = zero_seconds
  sum_up (o ∷ earlier) = plus (sum_up earlier) (seconds o.duration)

  abbrev within : F → Observation → Bool
  within boundary o = at_most (seconds o.duration) boundary

  -- What the numbers of a label set stand for, from its requests.
  abbrev pub tally : List F → List Observation → RequestStats F
  tally boundaries run = record {
    count = length run;
    errors = length (select is_server_error run);
    sum = sum_up run;
    buckets = map (λ boundary. length (select (within boundary) run)) boundaries;
  }

  abbrev pub requests_of : MetricKey → List Observation → List Observation
  requests_of key run = select (λ o. key_eq (key_of o) key) run

  tally_none : (boundaries : List F) → fresh_stats float boundaries ≡ tally boundaries []
  unfolding select
  tally_none boundaries = refl

  fill_one_more :
      (o : Observation) (run : List Observation) (boundaries : List F)
      → length run + 1 < word
      → fill_buckets float (seconds o.duration) boundaries (tally boundaries run).buckets
        ≡ (tally boundaries (o ∷ run)).buckets
  unfolding fill_buckets select
  fill_one_more o run [] few = refl
  fill_one_more o run (b ∷ rest) few =
      ground (arith, fill_one_more o run rest few, length-select_le (within b) run)

  add_one_more :
      (o : Observation) (run : List Observation) (boundaries : List F)
      → length run + 1 < word
      → add_request float boundaries o (tally boundaries run) ≡ tally boundaries (o ∷ run)
  unfolding add_request select
  add_one_more o run boundaries few =
      ground (arith, fill_one_more o run boundaries few, length-select_le is_server_error run)

  boundaries_kept :
      (run : List Observation) → (record_all float run).boundaries ≡ default_duration_buckets float
  unfolding record_all record_request
  boundaries_kept [] = refl
  boundaries_kept (o ∷ earlier) = boundaries_kept earlier

  -- One more request of a run that the numbers match.
  recorded_tally :
      (m : Metrics F) (o : Observation) (run : List Observation) (key : MetricKey)
      → ((k : MetricKey)
          → or_fresh float m.boundaries (find_stats k m.stats)
            ≡ tally m.boundaries (requests_of k run))
      → length run + 1 < word
      → or_fresh float m.boundaries (find_stats key (record_request float o m).stats)
        ≡ tally m.boundaries (requests_of key (o ∷ run))
  unfolding record_request select
  recorded_tally m o run key matched few =
      let stats = or_fresh float m.boundaries (find_stats (key_of o) m.stats) in
      rw (find-put (key_of o) key (add_request float m.boundaries o stats) m.stats)
        (elim (Bool-cases (key_eq (key_of o) key)) [
          | inl same ↦ rw same (
              rw (matched (key_of o)) (
                rw ((key_eq_iff (key_of o) key).0 same) (
                  add_one_more o (requests_of key run) m.boundaries
                    (omega (arith, length-select_le (λ e. key_eq (key_of e) key) run)))))
          | inr differ ↦ rw differ (matched key)
        ])

  -- After fewer than 2 ^ 64 requests, the numbers kept for each label set are those of its requests: how
  -- many there were, how many of them had a status of 500 or more, how many lasted no longer than each
  -- boundary, and the sum of their durations in the order in which they came.
  pub stats_tally :
      (run : List Observation) (key : MetricKey)
      → length run < word
      → let m = record_all float run in
        or_fresh float m.boundaries (find_stats key m.stats)
        ≡ tally m.boundaries (requests_of key run)
  unfolding record_all find_stats select record_request
  stats_tally [] key few = tally_none (default_duration_buckets float)
  stats_tally (o ∷ earlier) key few =
      recorded_tally (record_all float earlier) o earlier key
        (λ k. stats_tally earlier k (omega arith)) (omega arith)

  -- Boundaries that rise: what is within one is within the next.
  abbrev pub Rising : List F → Type 0
  Rising [] = Unit
  Rising (b ∷ []) = Unit
  Rising (b ∷ c ∷ rest) = ((x : F) → at_most x b ≡ true → at_most x c ≡ true) × Rising (c ∷ rest)

  -- Numbers that rise up to a last one.
  abbrev pub RisingTo : ℕ → List ℕ → Type 0
  RisingTo last [] = Unit
  RisingTo last (n ∷ []) = n ≤ last
  RisingTo last (n ∷ k ∷ rest) = (n ≤ k) × RisingTo last (k ∷ rest)

  tally-RisingTo :
      (run : List Observation) (boundaries : List F)
      → Rising boundaries
      → RisingTo (length run) (tally boundaries run).buckets
  tally-RisingTo run [] rising = tt
  tally-RisingTo run (b ∷ []) rising = length-select_le (within b) run
  tally-RisingTo run (b ∷ c ∷ rest) rising = (
    length-select_mono (within b) (within c) run (λ o. rising.0 (seconds o.duration)),
    tally-RisingTo run (c ∷ rest) rising.1,
  )

  -- If the boundaries rise, then after fewer than 2 ^ 64 requests the buckets of each label set rise
  -- up to its count, as a Prometheus histogram has it, and its errors are no more than its count.
  pub buckets_cumulative :
      (run : List Observation) (key : MetricKey)
      → length run < word
      → Rising (default_duration_buckets float)
      → let m = record_all float run in
        let stats = or_fresh float m.boundaries (find_stats key m.stats) in
        RisingTo stats.count stats.buckets × (stats.errors ≤ stats.count)
  buckets_cumulative run key few rising = rw (stats_tally run key few) (
      rw (boundaries_kept run) (
        tally-RisingTo (requests_of key run) (default_duration_buckets float) rising,
        length-select_le is_server_error (requests_of key run),
      ))
