-- ===== src/Infrastructure/Migrations.antt =====
-- internal/infrastructure/postgres/migrations: migrations.go and run.go. The embedded files and
-- PostgreSQL are parameters. A database is the list of the names in schema_migrations, `none`
-- before there is such a table, and the rest of it, which only the migrations' own SQL changes. The
-- column applied_at is left out.
pub mod Rerun
use inventory_reservation_sy.Base.{
  ℕ, ltb, if◌then◌else◌, Bool, true, false, not, ◌||◌, List, [], ◌∷◌, ◌++◌, select, length, map,
  Option, none, some,
}
use inventory_reservation_sy.Base.Text.{Text, codes, text_eq}
use inventory_reservation_sy.Base.Strings.{has_suffix, text_lt}
use inventory_reservation_sy.Http.ExternalId.{trim_space}
use inventory_reservation_sy.Domain.Errors.{Error, other, message, Result, ok, err}

pub record Migration : Type 0 where
  pub name : Text
  pub up : Text
  pub down : Text

-- embed.FS: what ReadDir(".") and ReadFile return.
pub record EmbeddedFiles : Type 0 where
  pub read_dir : Result (List (Text × Bool))
  pub read_file : Text → Result Text

-- fmt.Errorf("... %w", ..., err)
abbrev pub wrap : Text → Error → Error
wrap prefix e = other (prefix ++ message e)

abbrev trimmed : Text → Result Text → Result Text
trimmed name (ok contents) = ok (trim_space contents)
trimmed name (err e) = err (wrap (codes "read migration " ++ name ++ codes ": ") e)

-- The name and whether it is a directory.
abbrev is_up_file : Text × Bool → Bool
is_up_file (name, is_dir) =
    not (is_dir || has_suffix name (codes ".down.sql") || not (has_suffix name (codes ".sql")))

-- sort.Strings, as an insertion sort.
unfoldable pub insert_name : Text → List Text → List Text
insert_name a [] = a ∷ []
insert_name a (b ∷ rest) =
    let below = insert_name a rest in if text_lt a b then a ∷ b ∷ rest else b ∷ below

unfoldable pub sort_strings : List Text → List Text
sort_strings [] = []
sort_strings (a ∷ rest) = insert_name a (sort_strings rest)

-- strings.TrimSuffix(name, ".sql") + ".down.sql"
unfoldable pub without_suffix : Text → Text → Text
without_suffix suffix [] = []
without_suffix suffix (c ∷ t) =
    let rest = without_suffix suffix t in if text_eq (c ∷ t) suffix then [] else c ∷ rest

abbrev pub down_name : Text → Text
down_name name = without_suffix (codes ".sql") name ++ codes ".down.sql"

abbrev with_migration : Text → Text → Text → Result (List Migration) → Result (List Migration)
with_migration name up down (err e) = err e
with_migration name up down (ok rest) = ok ((record { name = name; up = up; down = down }) ∷ rest)

module _ (files : EmbeddedFiles) where
  unfoldable pub read_sql : Text → Result Text
  read_sql name = trimmed name (files.read_file name)

  -- One round of the loop: the first error ends it.
  abbrev read_one :
      Text → Result Text → Result Text → Result (List Migration) → Result (List Migration)
  read_one name (err e) down rest = err e
  read_one name (ok up) (err e) rest = err e
  read_one name (ok up) (ok down) rest = with_migration name up down rest

  unfoldable pub read_all : List Text → Result (List Migration)
  read_all [] = ok []
  read_all (name ∷ rest) = read_one name (read_sql name) (read_sql (down_name name)) (read_all rest)

  abbrev all_of : Result (List (Text × Bool)) → Result (List Migration)
  all_of (err e) = err e
  all_of (ok entries) = read_all (sort_strings (map (λ entry. entry.0) (select is_up_file entries)))

  unfoldable pub all : Result (List Migration)
  unfolding read_all sort_strings
  all = all_of files.read_dir

pub record Database (S : Type 0) : Type 0 where
  pub applied : Option (List Text)
  pub schema : S

pub data MigrationStatement : Type 0 where
  create_table : MigrationStatement
  apply_up count_name record_name : Text → MigrationStatement

-- PostgreSQL: what the SQL of a migration does, the errors with which it refuses a statement,
-- without having applied it, and the error of an INSERT of a name that is there or without the
-- table.
pub record MigrationDriver (S : Type 0) : Type 0 where
  pub run_sql : Text → S → S × Option Error
  pub refuses : MigrationStatement → Database S → Option Error
  pub violation : Error

unfoldable pub has_name : Text → List Text → Bool
has_name name [] = false
has_name name (a ∷ rest) = text_eq a name || has_name name rest

module _ {S : Type 0} where
  -- `if err != nil`: the rest is not reached.
  abbrev pub and_then :
      Text
      → Database S × Option Error
      → (Database S → Database S × Option Error)
      → Database S × Option Error
  and_then prefix (db, none) next = next db
  and_then prefix (db, some e) next = (db, some (wrap prefix e))

  abbrev pub stop_at :
      Database S × Option Error
      → (Database S → Database S × Option Error)
      → Database S × Option Error
  stop_at (db, none) next = next db
  stop_at (db, some e) next = (db, some e)

module _ {S : Type 0} (driver : MigrationDriver S) where
  -- A statement that the database may refuse.
  abbrev pub attempt :
      MigrationStatement
      → (Database S → Database S × Option Error)
      → Database S
      → Database S × Option Error
  attempt st run db = elim (driver.refuses st db) [ none ↦ run db | some e ↦ (db, some e) ]

  abbrev pub create_if_missing : Database S → Database S × Option Error
  create_if_missing db = elim db.applied [
    | none ↦ (record db { applied = some [] }, none)
    | some names ↦ (db, none)
  ]

  -- SELECT COUNT(*), whose error is dropped.
  abbrev pub is_applied : Text → Database S → Bool
  is_applied name db = elim (driver.refuses (count_name name) db) [
    | none ↦ elim db.applied [ none ↦ false | some names ↦ has_name name names ]
    | some e ↦ false
  ]

  abbrev run_up : Text → Database S → Database S × Option Error
  run_up up db =
      let (schema', failed) = driver.run_sql up db.schema in
      (record db { schema = schema' }, failed)

  abbrev insert_row : Text → Database S → Database S × Option Error
  insert_row name db = elim db.applied [
    | none ↦ (db, some driver.violation)
    | some names ↦
        if has_name name names
        then (db, some driver.violation)
        else (record db { applied = some (names ++ name ∷ []) }, none)
  ]

  unfoldable pub run_one : Migration → Database S → Database S × Option Error
  run_one m db =
      and_then (codes "apply " ++ m.name ++ codes ": ") (attempt (apply_up m.up) (run_up m.up) db)
        (λ db'.
          and_then (codes "record " ++ m.name ++ codes ": ")
            (attempt (record_name m.name) (insert_row m.name) db') (λ db''. (db'', none)))

  unfoldable pub run_pending : List Migration → Database S → Database S × Option Error
  run_pending [] db = (db, none)
  run_pending (m ∷ rest) db =
      stop_at (if is_applied m.name db then (db, none) else run_one m db) (run_pending rest)

  abbrev pub run_listed : Result (List Migration) → Database S → Database S × Option Error
  run_listed (err e) db = (db, some e)
  run_listed (ok migrations) db = run_pending migrations db

  unfoldable pub run_all : EmbeddedFiles → Database S → Database S × Option Error
  unfolding run_pending
  run_all files db =
      and_then (codes "create schema_migrations: ") (attempt create_table create_if_missing db)
        (run_listed (all files))
