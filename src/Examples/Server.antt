-- ===== src/Examples/Server.antt =====
-- The theorems on the server's helpers, at concrete inputs.
use inventory_reservation_sy.Base.{◌≡◌, refl, List, [], ◌∷◌, ℕ, All, arith}
use inventory_reservation_sy.Base.Text.{Text, codes, text_eq, number}
use inventory_reservation_sy.Domain.Errors.{ok}
use inventory_reservation_sy.Http.ExternalId.{is_space, trim_space}
use inventory_reservation_sy.Application.Invariant.{IsSound}
use inventory_reservation_sy.Application.History.{start}
use inventory_reservation_sy.Server.Seed.{
  split_on, split_two, all_digits, atoi, parse_entry, parse_parts, parse_seed, IsSeed,
  parse_seed-IsSound,
}
use inventory_reservation_sy.Server.Seed.RoundTrip.{
  written_seeds, IsWritable, parse_seed-written_seeds,
}
use inventory_reservation_sy.Examples.Scenario.{sku, two_minutes}

abbrev two_seeds : List (Text × ℕ)
two_seeds = (sku, 2) ∷ (codes "b", 30) ∷ []

two_parsed : parse_seed (codes "sku-1:2, b : 30") ≡ ok two_seeds
unfolding parse_seed trim_space text_eq split_on parse_parts parse_entry split_two atoi all_digits
    number
two_parsed = refl

parse_seed-IsSound_example : All IsSeed two_seeds × IsSound 0 (start two_seeds two_minutes)
parse_seed-IsSound_example =
    parse_seed-IsSound (codes "sku-1:2, b : 30") two_minutes two_seeds two_parsed

two_seeds-IsWritable : All IsWritable two_seeds
unfolding is_space text_eq
two_seeds-IsWritable = ground arith

parse_seed-written_seeds_example : parse_seed (written_seeds two_seeds) ≡ ok two_seeds
parse_seed-written_seeds_example =
    parse_seed-written_seeds (sku, 2) ((codes "b", 30) ∷ []) two_seeds-IsWritable
