-- ===== src/Http/Metrics/Render.antt =====
-- internal/interface/http/metrics.go, Metrics.render: the text that Prometheus reads. sort.Slice is
-- written out as an insertion sort. The verb %q is written out for ASCII: a method is a token of
-- HTTP, a route is one of the constants of routeLabel and a status is a number, and no other byte
-- comes in.
use inventory_reservation_sy.Base.{
  ℕ, ◌+◌, ◌/◌, ◌%◌, ◌==◌, ltb, if◌then◌else◌, Bool, ◌||◌, List, [], ◌∷◌, ◌++◌, map,
}
use inventory_reservation_sy.Base.Text.{Text, codes, text_eq, decimal}
use inventory_reservation_sy.Base.Strings.{text_lt}
use inventory_reservation_sy.Base.Map.{MapOrder}
use inventory_reservation_sy.Http.Metrics.{
  Float64, MetricKey, RequestStats, Metrics, find_stats, or_fresh,
}

-- The comparison that sort.Slice is given.
unfoldable pub key_less : MetricKey → MetricKey → Bool
key_less k j =
    if text_eq k.route j.route
    then (if text_eq k.method j.method
        then text_lt k.status j.status
        else text_lt k.method j.method)
    else text_lt k.route j.route

unfoldable pub insert_key : MetricKey → List MetricKey → List MetricKey
insert_key k [] = k ∷ []
insert_key k (j ∷ rest) =
    let below = insert_key k rest in if key_less k j then k ∷ j ∷ rest else j ∷ below

unfoldable pub sort_keys : List MetricKey → List MetricKey
sort_keys [] = []
sort_keys (k ∷ rest) = insert_key k (sort_keys rest)

-- strings.ReplaceAll of one byte.
unfoldable pub replace_all : ℕ → Text → Text → Text
replace_all byte by [] = []
replace_all byte by (c ∷ t) =
    let rest = replace_all byte by t in if c == byte then by ++ rest else c ∷ rest

abbrev pub backslash : ℕ
backslash = 92

abbrev pub double_quote : ℕ
double_quote = 34

abbrev pub newline : ℕ
newline = 10

unfoldable pub escape_label : Text → Text
unfolding replace_all
escape_label value = replace_all double_quote (backslash ∷ double_quote ∷ []) (
    replace_all newline (backslash ∷ codes "n")
      (replace_all backslash (backslash ∷ backslash ∷ []) value))

-- The verb %q: a quotation mark and a backslash are escaped, and so are the control characters, seven of
-- them by a letter, the others by two hexadecimal digits.
abbrev hex_digit : ℕ → ℕ
hex_digit n = if ltb n 10 then 48 + n else 87 + n

unfoldable pub quoted_byte : ℕ → Text
quoted_byte c =
    if (c == double_quote) || (c == backslash)
    then backslash ∷ c ∷ []
    else if c == 7
    then backslash ∷ codes "a"
    else if c == 8
    then backslash ∷ codes "b"
    else if c == 9
    then backslash ∷ codes "t"
    else if c == newline
    then backslash ∷ codes "n"
    else if c == 11
    then backslash ∷ codes "v"
    else if c == 12
    then backslash ∷ codes "f"
    else if c == 13
    then backslash ∷ codes "r"
    else if ltb c 32 || (c == 127)
    then backslash ∷ codes "x" ++ hex_digit (c / 16) ∷ hex_digit (c % 16) ∷ []
    else c ∷ []

unfoldable pub quote_bytes : Text → Text
quote_bytes [] = double_quote ∷ []
quote_bytes (c ∷ t) = quoted_byte c ++ quote_bytes t

unfoldable pub quote : Text → Text
unfolding quote_bytes
quote t = double_quote ∷ quote_bytes t

unfoldable pub labels : MetricKey → Text
unfolding escape_label quote
labels k =
    codes "method="
    ++ quote (escape_label k.method)
    ++ codes ",route="
    ++ quote (escape_label k.route)
    ++ codes ",status="
    ++ quote (escape_label k.status)

abbrev header_lines : Text → Text → Text → Text
header_lines name help kind =
    codes "# HELP "
    ++ name
    ++ codes " "
    ++ help
    ++ newline ∷ codes "# TYPE "
    ++ name
    ++ codes " "
    ++ kind
    ++ newline ∷ []

-- One sample: its name, what stands between the braces, and its value.
abbrev sample : Text → Text → Text → Text
sample name inside value = name ++ codes "{" ++ inside ++ codes "} " ++ value ++ newline ∷ []

abbrev plain_sample : Text → Text → Text
plain_sample name value = name ++ codes " " ++ value ++ newline ∷ []

abbrev requests_total : Text
requests_total = codes "inventory_http_requests_total"

abbrev errors_total : Text
errors_total = codes "inventory_http_request_errors_total"

abbrev duration_seconds : Text
duration_seconds = codes "inventory_http_request_duration_seconds"

abbrev sweeps_total : Text
sweeps_total = codes "inventory_expiry_sweeps_total"

abbrev expired_total : Text
expired_total = codes "inventory_expired_reservations_total"

-- A loop that writes a text for each key.
unfoldable pub write_each : (MetricKey → Text) → List MetricKey → Text
write_each f [] = []
write_each f (k ∷ rest) = f k ++ write_each f rest

module _ {F : Type 0} (float : Float64 F) where
  open float use {format_float, nine_decimals}

  unfoldable pub bucket_lines : MetricKey → List F → List ℕ → Text
  unfolding labels
  bucket_lines k [] counts = []
  bucket_lines k (boundary ∷ rest) [] = []
  bucket_lines k (boundary ∷ rest) (n ∷ counts) =
      sample (duration_seconds ++ codes "_bucket")
        (labels k ++ codes ",le=" ++ quote (format_float boundary)) (decimal n)
      ++ bucket_lines k rest counts

  unfoldable pub histogram_lines : List F → MetricKey → RequestStats F → Text
  unfolding bucket_lines
  histogram_lines boundaries k stats =
      bucket_lines k boundaries stats.buckets
      ++ sample (duration_seconds ++ codes "_bucket")
          (labels k ++ codes ",le=" ++ double_quote ∷ codes "+Inf" ++ double_quote ∷ [])
          (decimal stats.count)
      ++ sample (duration_seconds ++ codes "_sum") (labels k) (nine_decimals stats.sum)
      ++ sample (duration_seconds ++ codes "_count") (labels k) (decimal stats.count)

  -- What is written once the keys are sorted. Each of them is in the map.
  unfoldable pub render_keys : Metrics F → List MetricKey → Text
  unfolding write_each histogram_lines
  render_keys m keys =
      let stats_of : MetricKey → RequestStats F =
        λ k. or_fresh float m.boundaries (find_stats k m.stats) in
      header_lines sweeps_total (codes "Explicit expiry sweeps run by the background worker.")
        (codes "counter")
      ++ plain_sample sweeps_total (decimal m.expiry_sweeps)
      ++ header_lines expired_total (codes "Reservations expired by explicit sweeps.")
          (codes "counter")
      ++ plain_sample expired_total (decimal m.expired_reservations)
      ++ header_lines requests_total (codes "Total HTTP requests handled by the inventory service.")
          (codes "counter")
      ++ write_each (λ k. sample requests_total (labels k) (decimal (stats_of k).count)) keys
      ++ header_lines errors_total (codes "HTTP requests that returned 5xx responses.")
          (codes "counter")
      ++ write_each (λ k. sample errors_total (labels k) (decimal (stats_of k).errors)) keys
      ++ header_lines duration_seconds (codes "HTTP request duration in seconds.")
          (codes "histogram")
      ++ write_each (λ k. histogram_lines m.boundaries k (stats_of k)) keys

  -- `order` is the order in which the loop over the map meets its entries.
  unfoldable pub render : MapOrder (MetricKey × RequestStats F) → Metrics F → Text
  unfolding render_keys sort_keys
  render order m = render_keys m (sort_keys (map (λ entry. entry.0) (order.arrange m.stats)))
