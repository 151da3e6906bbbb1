-- ===== src/Examples/Startup.antt =====
-- The theorems on the migrations and on cmd/app, at concrete files and times.
use inventory_reservation_sy.Base.{
  ◌≡◌, refl, false, true, if◌then◌else◌, Bool, [], ◌∷◌, ◌++◌, Option, none, some, select, arith,
}
use inventory_reservation_sy.Base.Text.{Text, codes, text_eq}
use inventory_reservation_sy.Base.Strings.{has_suffix, text_lt}
use inventory_reservation_sy.Domain.Errors.{Error, other, err_out_of_stock, ok, err}
use inventory_reservation_sy.Http.ExternalId.{trim_space}
use inventory_reservation_sy.Application.State.{mark_confirmed}
use inventory_reservation_sy.Infrastructure.Migrations.{
  Migration, EmbeddedFiles, Database, MigrationStatement, record_name, MigrationDriver, has_name,
  all, read_all, read_sql, sort_strings, insert_name, without_suffix, run_all, run_pending, run_one,
  wrap,
}
use inventory_reservation_sy.Infrastructure.Migrations.Rerun.{rerun_unchanged, unrecorded_stuck}
use inventory_reservation_sy.App.{app_main, alice_holds, app_as_expected}
use inventory_reservation_sy.Examples.Scenario.{as_inserted}

-- The directory has one migration, and its contents are named by letters.
abbrev schema_name : Text
schema_name = codes "0001_shadow_persistence.sql"

abbrev rollback_name : Text
rollback_name = codes "0001_shadow_persistence.down.sql"

abbrev embedded : EmbeddedFiles
embedded = record {
  read_dir = ok ((rollback_name, false) ∷ (schema_name, false) ∷ []);
  read_file = λ name. ok (if text_eq name schema_name then codes " up" else codes "down");
}

abbrev shadow : Migration
shadow = record { name = schema_name; up = codes "up"; down = codes "down" }

-- CREATE TABLE fails where the tables are there.
abbrev create_once : Text → Bool → Bool × Option Error
create_once sql there = if there then (true, some (other (codes "exists"))) else (true, none)

abbrev steady : MigrationDriver Bool
steady = record {
  run_sql = λ sql there. create_once sql there;
  refuses = λ st db. none;
  violation = other (codes "no row");
}

abbrev refuses_names : MigrationStatement → Option Error
refuses_names (record_name name) = some (other (codes "lost"))
refuses_names _ = none

abbrev flaky : MigrationDriver Bool
flaky = record steady { refuses = λ st db. refuses_names st }

abbrev empty_database : Database Bool
empty_database = record { applied = none; schema = false }

abbrev migrated : Database Bool
migrated = record { applied = some (schema_name ∷ []); schema = true }

listed : all embedded ≡ ok (shadow ∷ [])
unfolding all read_all read_sql sort_strings insert_name without_suffix select text_eq has_suffix
    text_lt trim_space
listed = refl

first_run : run_all steady embedded empty_database ≡ (migrated, none)
unfolding run_all run_pending run_one all read_all read_sql sort_strings insert_name without_suffix
    select text_eq has_suffix text_lt trim_space has_name
first_run = refl

rerun_unchanged_example : run_all steady embedded migrated ≡ (migrated, none)
rerun_unchanged_example =
    rerun_unchanged steady embedded empty_database migrated first_run refl (λ name. refl)

abbrev tracked_only : Database Bool
tracked_only = record { applied = some []; schema = false }

not_there : has_name schema_name [] ≡ false
unfolding has_name
not_there = refl

unrecorded_stuck_example :
    let half_done : Database Bool = record tracked_only { schema = true } in
    (run_all flaky embedded tracked_only ≡ (
      half_done,
      some (wrap (codes "record " ++ schema_name ++ codes ": ") (other (codes "lost"))),
    ))
    × (run_all steady embedded half_done ≡ (
      half_done,
      some (wrap (codes "apply " ++ schema_name ++ codes ": ") (other (codes "exists"))),
    ))
unrecorded_stuck_example =
    unrecorded_stuck flaky steady (λ st db. refl) embedded shadow [] tracked_only [] true
      (other (codes "lost")) (other (codes "exists")) listed refl not_there refl refl refl refl refl
      refl

app_as_expected_example : app_main as_inserted 10 20 30 ≡ record {
  alice_reserve = ok (alice_holds 10);
  bob_reserve = err err_out_of_stock;
  confirm_alice = ok (mark_confirmed 30 (alice_holds 10));
  available = ok 0;
}
app_as_expected_example = app_as_expected as_inserted 10 20 30 (omega arith) (omega arith)
