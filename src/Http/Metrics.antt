-- ===== src/Http/Metrics.antt =====
-- internal/interface/http/metrics.go: the counters of requests and sweeps, and their text. Float64 is a
-- parameter: no value of it is written out. The mutex keeps no data; each method is one step.
pub mod Render
pub mod Tally
pub mod Order
pub mod Routes
use inventory_reservation_sy.Base.{
  ℕ, leb, if◌then◌else◌, Bool, true, false, ◌&&◌, ◌||◌, List, [], ◌∷◌, map, Option, none, some,
}
use inventory_reservation_sy.Base.Text.{Text, codes, text_eq, decimal}
use inventory_reservation_sy.Base.Int64.{add_int, is_positive}
use inventory_reservation_sy.Base.Time.{Duration}

-- What the code uses of float64: `+=`, `<=`, the constants with three decimals, Duration.Seconds,
-- FormatFloat(v, 'f', -1, 64) and the verb %.9f.
pub record Float64 (F : Type 0) : Type 0 where
  pub zero_seconds : F
  pub plus : F → F → F
  pub at_most : F → F → Bool
  pub thousandths : ℕ → F
  pub seconds : Duration → F
  pub format_float : F → Text
  pub nine_decimals : F → Text

pub record MetricKey : Type 0 where
  pub method : Text
  pub route : Text
  pub status : Text

pub record RequestStats (F : Type 0) : Type 0 where
  pub count : ℕ
  pub errors : ℕ
  pub sum : F
  pub buckets : List ℕ

-- The map `stats` is a list of entries, as every map.
pub record Metrics (F : Type 0) : Type 0 where
  pub boundaries : List F
  pub stats : List (MetricKey × RequestStats F)
  pub expiry_sweeps : ℕ
  pub expired_reservations : ℕ

-- One request, as `record` is told of it.
pub record Observation : Type 0 where
  pub method : Text
  pub route : Text
  pub status : ℕ
  pub duration : Duration

unfoldable pub key_eq : MetricKey → MetricKey → Bool
key_eq k j = text_eq k.method j.method && (text_eq k.route j.route && text_eq k.status j.status)

unfoldable pub find_stats :
    {F : Type 0} → MetricKey → List (MetricKey × RequestStats F) → Option (RequestStats F)
find_stats key [] = none
find_stats key ((first, stats) ∷ rest) =
    if key_eq first key then some stats else find_stats key rest

unfoldable pub put_stats :
    {F : Type 0}
    → MetricKey
    → RequestStats F
    → List (MetricKey × RequestStats F)
    → List (MetricKey × RequestStats F)
put_stats key stats [] = (key, stats) ∷ []
put_stats key stats ((first, old) ∷ rest) =
    if key_eq first key then (key, stats) ∷ rest else (first, old) ∷ put_stats key stats rest

-- strconv.Itoa on a status, which is not negative.
abbrev pub key_of : Observation → MetricKey
key_of o = record { method = o.method; route = o.route; status = decimal o.status }

abbrev pub is_server_error : Observation → Bool
is_server_error o = leb 500 o.status

-- `expired` is an int.
unfoldable pub record_expiry_sweep : {F : Type 0} → ℕ → Metrics F → Metrics F
record_expiry_sweep expired m = record m {
  expiry_sweeps = add_int m.expiry_sweeps 1;
  expired_reservations =
      if is_positive expired
      then add_int m.expired_reservations expired
      else m.expired_reservations;
}

-- The first WriteHeader of a handler is passed on; the recorder keeps the last one.
unfoldable pub recorded_status : ℕ → List ℕ → ℕ
recorded_status status [] = status
recorded_status status (written ∷ rest) = recorded_status written rest

module _ {F : Type 0} (float : Float64 F) where
  open float use {zero_seconds, plus, at_most, thousandths, seconds}

  abbrev pub default_duration_buckets : List F
  default_duration_buckets =
      map thousandths (5 ∷ 10 ∷ 25 ∷ 50 ∷ 100 ∷ 250 ∷ 500 ∷ 1_000 ∷ 2_500 ∷ 5_000 ∷ [])

  abbrev pub new_metrics : Metrics F
  new_metrics = record {
    boundaries = default_duration_buckets;
    stats = [];
    expiry_sweeps = 0;
    expired_reservations = 0;
  }

  abbrev pub fresh_stats : List F → RequestStats F
  fresh_stats boundaries = record {
    count = 0;
    errors = 0;
    sum = zero_seconds;
    buckets = map (λ b. 0) boundaries;
  }

  abbrev pub or_fresh : List F → Option (RequestStats F) → RequestStats F
  or_fresh boundaries none = fresh_stats boundaries
  or_fresh boundaries (some stats) = stats

  unfoldable pub fill_buckets : F → List F → List ℕ → List ℕ
  fill_buckets x [] counts = counts
  fill_buckets x (boundary ∷ rest) [] = []
  fill_buckets x (boundary ∷ rest) (n ∷ counts) =
      (if at_most x boundary then add_int n 1 else n) ∷ fill_buckets x rest counts

  unfoldable pub add_request : List F → Observation → RequestStats F → RequestStats F
  add_request boundaries o stats = record {
    count = add_int stats.count 1;
    errors = if is_server_error o then add_int stats.errors 1 else stats.errors;
    sum = plus stats.sum (seconds o.duration);
    buckets = fill_buckets (seconds o.duration) boundaries stats.buckets;
  }

  unfoldable pub record_request : Observation → Metrics F → Metrics F
  unfolding add_request
  record_request o m =
      let stats = or_fresh m.boundaries (find_stats (key_of o) m.stats) in
      record m { stats = put_stats (key_of o) (add_request m.boundaries o stats) m.stats }

  -- The requests of a run, the last one first.
  unfoldable pub record_all : List Observation → Metrics F
  record_all [] = new_metrics
  record_all (o ∷ earlier) = record_request o (record_all earlier)
