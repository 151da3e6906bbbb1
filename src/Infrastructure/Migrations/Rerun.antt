-- ===== src/Infrastructure/Migrations/Rerun.antt =====
-- internal/infrastructure/postgres/migrations/run.go, RunAll on every start of the server.
use inventory_reservation_sy.Base.{
  ◌≡◌, refl, ap, sym, ◌∙◌, if◌then◌else◌, true, false, ◌||◌, List, [], ◌∷◌, ◌++◌, Option, none,
  some, Bool-cases, Option-cases, inl, inr, All, arith, subst,
}
use inventory_reservation_sy.Base.Text.{Text, text_eq_self, codes}
use inventory_reservation_sy.Domain.Errors.{Error, Result, ok, err}
use inventory_reservation_sy.Infrastructure.Migrations.{
  Migration, EmbeddedFiles, create_table, count_name, and_then, attempt, create_if_missing,
  run_listed, all, Database, MigrationStatement, apply_up, record_name, MigrationDriver, has_name,
  is_applied, run_one, stop_at, run_pending, run_all, wrap,
}

has_name-append :
    (x y : Text) (names : List Text)
    → has_name x (names ++ y ∷ []) ≡ (has_name x names || has_name x (y ∷ []))
unfolding has_name
has_name-append x y [] = ground arith
has_name-append x y (a ∷ names) = ground (arith, has_name-append x y names)

has_name_self : (x : Text) → has_name x (x ∷ []) ≡ true
unfolding has_name
has_name_self x = ground (arith, text_eq_self x)

-- Names that stay recorded, with those of the migrations.
record Records {S : Type 0} (before : List Text) (migrations : List Migration) (db : Database S)
    : Type 0 where
  names : List Text
  recorded : db.applied ≡ some names
  kept : (x : Text) → has_name x before ≡ true → has_name x names ≡ true
  there : All (λ m. has_name m.name names ≡ true) migrations

-- A step that ended without an error, and what came after it.
stop_done :
    {S : Type 0} (r : Database S × Option Error) (next : Database S → Database S × Option Error)
    (db : Database S)
    → stop_at r next ≡ (db, none)
    → (r.1 ≡ none) × (next r.0 ≡ (db, none))
stop_done (db', none) next db h = (refl, h)
stop_done (db', some e) next db h = absurd (cc)

then_done :
    {S : Type 0} (prefix : Text) (r : Database S × Option Error)
    (next : Database S → Database S × Option Error) (db : Database S)
    → and_then prefix r next ≡ (db, none)
    → (r.1 ≡ none) × (next r.0 ≡ (db, none))
then_done prefix (db', none) next db h = (refl, h)
then_done prefix (db', some e) next db h = absurd (cc)

module _ {S : Type 0} (driver : MigrationDriver S) where
  abbrev step : Migration → Database S → Database S × Option Error
  step m db = if is_applied driver m.name db then (db, none) else run_one driver m db

  one_recorded :
      (m : Migration) (db : Database S) (names : List Text)
      → db.applied ≡ some names
      → (run_one driver m db).1 ≡ none
      → (run_one driver m db).0.applied ≡ some (names ++ m.name ∷ [])
  unfolding run_one
  one_recorded m db names e done = ground (arith, e, done)

  step_recorded :
      (m : Migration) (db : Database S) (names : List Text)
      → db.applied ≡ some names
      → (step m db).1 ≡ none
      → Records names (m ∷ []) (step m db).0
  step_recorded m db names e done = elim (Bool-cases (is_applied driver m.name db)) [
    | inl there ↦ rw there (record {
      names = names;
      recorded = e;
      kept = λ x h. h;
      there = (ground (arith, e, there), tt);
    })
    | inr missing ↦ rw missing (record {
      names = names ++ m.name ∷ [];
      recorded =
          one_recorded m db names e
            (subst (λ b. (if b then (db, none) else run_one driver m db).1 ≡ none) missing done);
      kept = λ x h. ground (arith, h, has_name-append x m.name names);
      there = (ground (arith, has_name-append m.name m.name names, has_name_self m.name), tt);
    })
  ]

  pending_recorded :
      (migrations : List Migration) (db db' : Database S) (names : List Text)
      → db.applied ≡ some names
      → run_pending driver migrations db ≡ (db', none)
      → Records names migrations db'
  unfolding run_pending
  pending_recorded [] db db' names e done = record {
    names = names;
    recorded = sym (ap (λ (r : Database S × Option Error). r.0.applied) done) ∙ e;
    kept = λ x h. h;
    there = tt;
  }
  pending_recorded (m ∷ rest) db db' names e done =
      let (clean, onward) = stop_done (step m db) (run_pending driver rest) db' done in
      let here = step_recorded m db names e clean in
      let later = pending_recorded rest (step m db).0 db' here.names here.recorded onward in
      record {
        names = later.names;
        recorded = later.recorded;
        kept = λ x h. later.kept x (here.kept x h);
        there = (later.kept m.name here.there.0, later.there);
      }

  -- The database counts names without an error.
  abbrev Counts : Database S → Type 0
  Counts db = (name : Text) → driver.refuses (count_name name) db ≡ none

  rerun_pending :
      (migrations : List Migration) (db : Database S) (names : List Text)
      → Counts db
      → db.applied ≡ some names
      → All (λ m. has_name m.name names ≡ true) migrations
      → run_pending driver migrations db ≡ (db, none)
  unfolding run_pending
  rerun_pending [] db names counts e there = refl
  rerun_pending (m ∷ rest) db names counts e there =
      ground (arith, counts m.name, e, there.0, rerun_pending rest db names counts e there.1)

  -- After the CREATE TABLE there is a table.
  table_there :
      (db : Database S)
      → (attempt driver create_table (create_if_missing driver) db).1 ≡ none
      → (names : List Text) × ((attempt driver create_table (create_if_missing driver) db).0.applied
          ≡ some names)
  table_there db done = elim (Option-cases (driver.refuses create_table db)) [
    | inl taken ↦ elim (Option-cases db.applied) [
      | inl missing ↦ ([], ground (arith, taken, missing))
      | inr (names, e) ↦ (names, ground (arith, taken, e))
    ]
    | inr (e, refused) ↦ absurd (ground (arith, refused, done))
  ]

  rerun_listed :
      (listed : Result (List Migration)) (db db' : Database S) (names : List Text)
      → Counts db'
      → db.applied ≡ some names
      → run_listed driver listed db ≡ (db', none)
      → ((names' : List Text) × (db'.applied ≡ some names'))
        × (run_listed driver listed db' ≡ (db', none))
  rerun_listed (err e) db db' names counts tracked ran = absurd (cc)
  rerun_listed (ok migrations) db db' names counts tracked ran =
      let r = pending_recorded migrations db db' names tracked ran in
      ((r.names, r.recorded), rerun_pending migrations db' r.names counts r.recorded r.there)

  -- RunAll has returned without an error, and the database that it has left takes CREATE TABLE IF
  -- NOT EXISTS and counts names without an error. Then RunAll once more returns without an error
  -- and leaves the database as it is, whatever the SQL of the migrations would do.
  pub rerun_unchanged :
      (files : EmbeddedFiles) (db db' : Database S)
      → run_all driver files db ≡ (db', none)
      → driver.refuses create_table db' ≡ none
      → ((name : Text) → driver.refuses (count_name name) db' ≡ none)
      → run_all driver files db' ≡ (db', none)
  unfolding run_all
  rerun_unchanged files db db' done creates counts =
      let begun = attempt driver create_table (create_if_missing driver) db in
      let (created, ran) =
        then_done (codes "create schema_migrations: ") begun (run_listed driver (all files)) db'
          done in
      let (names, tracked) = table_there db created in
      let (recorded, again) = rerun_listed (all files) begun.0 db' names counts tracked ran in
      ground (arith, creates, recorded.1, again)

module _ {S : Type 0} (flaky steady : MigrationDriver S)
    (reliable : (st : MigrationStatement) (db : Database S) → steady.refuses st db ≡ none) where
  -- The SQL of the first migration succeeds, and the database refuses the statement that records
  -- its name. Then RunAll returns that error. If the SQL fails on the schema that it has made
  -- itself, then from there on RunAll returns its error, though the database refuses nothing any
  -- more.
  pub unrecorded_stuck :
      (files : EmbeddedFiles) (m : Migration) (rest : List Migration) (db : Database S)
      (names : List Text) (made : S) (refusal failure : Error)
      → all files ≡ ok (m ∷ rest)
      → db.applied ≡ some names
      → has_name m.name names ≡ false
      → flaky.refuses create_table db ≡ none
      → flaky.refuses (count_name m.name) db ≡ none
      → flaky.refuses (apply_up m.up) db ≡ none
      → flaky.run_sql m.up db.schema ≡ (made, none)
      → flaky.refuses (record_name m.name) (record db { schema = made }) ≡ some refusal
      → steady.run_sql m.up made ≡ (made, some failure)
      → let half_done = record db { schema = made } in
        (run_all flaky files db
          ≡ (half_done, some (wrap (codes "record " ++ m.name ++ codes ": ") refusal)))
        × (run_all steady files half_done
            ≡ (half_done, some (wrap (codes "apply " ++ m.name ++ codes ": ") failure)))
  unfolding run_all run_pending run_one
  unrecorded_stuck files m rest db names made refusal failure listed tracked missing creates counts
        applies runs refused fails =
      let half_done : Database S = record db { schema = made } in
      (
        ground (arith, listed, tracked, missing, creates, counts, applies, runs, refused),
        ground (
          arith,
          listed,
          tracked,
          missing,
          fails,
          reliable create_table half_done,
          reliable (count_name m.name) half_done,
          reliable (apply_up m.up) half_done,
        ),
      )
