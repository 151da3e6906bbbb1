-- ===== src/Server/Health.antt =====
-- cmd/server/main.go, healthzHandler. A dependency that is not configured is `none`; one that is gives
-- what its ping returned, an error's text or nothing. The map of checks is the list of its entries.
use mathlib.Core.Option
use inventory_reservation_sy.Base.{
  ℕ, Bool, true, false, if◌then◌else◌, List, [], ◌∷◌, ◌++◌, Option, none, some,
}
use inventory_reservation_sy.Base.Text.{Text, codes}

-- The result of a ping.
abbrev pub Ping : Type 0
Ping = Option Text

pub record Health : Type 0 where
  pub code : ℕ
  pub status : Text
  pub checks : List (Text × Text)

abbrev report : Text → Ping → Text
report failure none = codes "ok"
report failure (some e) = failure ++ e

abbrev check : Text → Text → Option Ping → List (Text × Text)
check name failure none = []
check name failure (some ping) = (name, report failure ping) ∷ []

-- allOK: only Postgres is looked at.
unfoldable pub all_ok : Option Ping → Bool
all_ok (some (some e)) = false
all_ok _ = true

unfoldable pub healthz : Option Ping → Option Ping → Health
unfolding all_ok
healthz db rdb = record {
  code = if all_ok db then 200 else 503;
  status = if all_ok db then codes "ok" else codes "degraded";
  checks =
      check (codes "postgres") (codes "fail: ") db
      ++ check (codes "redis") (codes "degraded: ") rdb;
}
