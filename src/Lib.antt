-- ===== src/Lib.antt =====
-- A verification library for the inventory reservation service: a Go program in which users hold
-- one unit of a product for a limited time, and confirm, cancel or lose that hold.
--
-- The program's parts, and the files that model them:
--
--   * internal/domain (inventory.go, reservation.go, event.go, errors.go): product counters,
--     reservations, log events, sentinel errors. Domain/Inventory, Domain/Reservation,
--     Domain/Event, Domain/Errors.
--   * internal/infrastructure/repository.go: the persistence contract. Infrastructure/Repository is
--     a record of operations over a state; the service takes it as a parameter.
--   * internal/infrastructure/in_memory_repository.go: the contract over two maps and a log.
--     Infrastructure/InMemory.
--   * internal/infrastructure/postgres_repository.go: the contract over the tables of
--     migrations/0001_shadow_persistence.sql. Infrastructure/Tables has the tables and constraints,
--     Infrastructure/Statements the statements and the database, Infrastructure/Postgres the
--     operations, and Application/Durable is about the service over them: next to the in-memory one, after a restart, in two processes, and under errors.
--     Application/Preserved is about which reservations the calls write to, over any repository.
--   * internal/infrastructure/postgres/migrations (migrations.go, run.go): Infrastructure/Migrations.
--   * internal/infrastructure/clock.go: Infrastructure/Clock.
--   * internal/infrastructure/lock_manager.go: Infrastructure/LockManager, the steps of its threads.
--   * internal/application/reservation_service.go: ReserveItem, ConfirmReservation,
--     CancelReservation, the lazy expiry and the queries in Application/Service, over the state and
--     the field updates of Application/State; ExpireReservations in Application/Sweep.
--   * internal/application/shadow_recorder.go: Application/Shadow.
--   * cmd/contention-demo/main.go: Demo. cmd/app/main.go: App.
--   * cmd/server/main.go: parseSeed in Server/Seed, healthzHandler in Server/Health, runExpirySweeper in
--     Server/Sweeper, the seed loop
--     and the construction of the service in Application/History.
--   * internal/interface/http/handler.go: validExternalID in Http/ExternalId, the handlers and the
--     mapping of errors to statuses in Http/Handler.
--   * internal/interface/http/metrics.go: the counters in Http/Metrics, the text in
--     Http/Metrics/Render, routeLabel, the middleware and the routed requests in Http/Metrics/Routes.
--
-- A handler calls the service, the service calls its repository under the lock of one product. The
-- state is passed explicitly, and an operation returns the pair of what the Go function returns and
-- the new state. Application/Effects describes the state after each transition over the in-memory
-- repository; Application/Invariant is about the invariant of that state; Application/Moves is the
-- specification, a step relation made from specs/02-reservation-lifecycle.md to specs/05-expiry.md;
-- Application/Outcomes is about what each call answers; Application/History has whole histories of
-- calls. Examples has concrete runs.
--
-- How the code is represented:
--
--   * A Go int or uint64 is its 64-bit pattern, a natural number below 2 ^ 64; addition, subtraction
--     and the id counter wrap. A stock fits if it is below 2 ^ 63.
--   * A string is its list of bytes. strings.TrimSpace is modelled on the ASCII spaces. In an
--     id of a request any other byte is refused by the character test in any case; a seed is taken
--     to have no other spaces at its ends.
--   * A time.Time counts nanoseconds from Go's zero time, a time.Duration is signed.
--   * A Go map is an association list in which a write replaces the entry. Go may range over a map in
--     any order: MapOrder is a parameter, a choice of a permutation for each list, and each call may
--     have another one.
--   * The clock's reading is an argument of each operation that reads it.
--   * The mutex of the in-memory repository keeps no data. Infrastructure/LockManager interleaves the
--     accesses to shared memory of the threads that take product locks; everywhere else a critical
--     section is one step, and a history is the list of calls in the order in which they take their locks.
--     Confirm and Cancel read the reservation once more before the lock, only to learn the product,
--     which never changes. The order inside a call matters in the gap between the listing of a sweep and
--     its locks, Application/History/Race; for processes that share a database, Application/Durable/Replicas;
--     and for the order of what calls on different products append to the log and hand to the shadow recorder:
--     a product's lock covers both, so that the two agree for each product, but not across products.
--   * PostgreSQL and its driver are a parameter, the record Driver: it may refuse any statement, with
--     or without having applied it; it gives an error for each violated constraint, rounds timestamps, and
--     hands the rows of a SELECT over in some order, all of them or not. `undisturbed` is the driver that
--     refuses nothing and drops nothing. What the statements do to the rows is written out. Columns that
--     are never read back (updated_at, payload, the publication columns of the outbox) are left
--     out, and so are idempotency_keys, which no code uses. A transaction is one step: it locks the row
--     that it reads.
--   * Float64 is a parameter of the metrics, the record of what the code uses of it. The verb %q is
--     written out for ASCII: what is quoted is the method of a request, a route of routeLabel, a status
--     or a boundary. sort.Slice and sort.Strings are insertion sorts.
--   * The embedded files of the migrations are a parameter, what ReadDir and ReadFile return; what the SQL
--     of a migration does to the rest of the database is one, too.
--   * UpdateReservation's callback also writes to a variable of its caller. The contract has what it hands
--     to the callback, handed_reservation, which is nothing if the transaction does not get that far.
--   * A tick of the sweeper comes with what the other goroutines have done to the service since the tick
--     before; in the histories these are whole calls.
--   * The shadow recorder is an observer: the state keeps the list of the records it was given.
--   * The JSON decoder and encoder are the boundary: a request body comes as what the two Decode
--     calls made of it, and a response is the status and the value that is encoded.
--
-- Bounds: a state is sound (IsSound) at a budget of ids if the invariant holds and the ids drawn, with
-- one more for each active reservation, which its end will draw, are within the budget. Ids last while
-- the budget, with three more for each call to come, is below 2 ^ 64, so that the counter of ids has
-- not wrapped. The decimal numerals of Base/Text run on fuel, one more than the number, which has fewer
-- digits than that; all other loops run over lists.
--
-- Not modelled: what PostgreSQL does inside a statement beyond the constraints of the schema, the rest of
-- the server's wiring (flags, environment, Redis, the listener, shutdown), the routing of the HTTP mux, the
-- system clock, and the printed output of the commands.
pub mod Base
pub mod Domain
pub mod Infrastructure
pub mod Application
pub mod App
pub mod Demo
pub mod Server
pub mod Http
pub mod Examples
