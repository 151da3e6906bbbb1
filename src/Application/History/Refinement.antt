-- ===== src/Application/History/Refinement.antt =====
-- internal/application/reservation_service.go, histories of calls against the moves of
-- `Application.Moves`.
use inventory_reservation_sy.Base.{
  ℕ, ◌+◌, ◌*◌, ◌<◌, ◌≡◌, refl, sym, ap, List, [], ◌∷◌, ◌++◌, some, All, length, map, select, sum_of,
  arith,
}
use inventory_reservation_sy.Base.Text.{Text, text_eq}
use inventory_reservation_sy.Base.Int64.{word}
use inventory_reservation_sy.Base.Map.{lookup, values}
use inventory_reservation_sy.Base.Time.{Duration}
use inventory_reservation_sy.Domain.Inventory.{ProductInventory}
use inventory_reservation_sy.Domain.Reservation.{Reservation}
use inventory_reservation_sy.Domain.Event.{InventoryEvent}
use inventory_reservation_sy.Infrastructure.InMemory.{
  InMemoryRepository, new_in_memory_repository, get_product,
}
use inventory_reservation_sy.Application.State.{Service}
use inventory_reservation_sy.Application.Invariant.{Agrees, IsSound}
use inventory_reservation_sy.Application.Moves.{Moves, here, Moves-trans}
use inventory_reservation_sy.Application.Moves.Calls.{
  reserve_item-Moves, confirm_reservation-Moves, cancel_reservation-Moves,
  expire_reservations-Moves,
}
use inventory_reservation_sy.Application.Moves.Lifecycle.{
  Follows, Moves-Follows, stock_in, Moves-stock,
}
use inventory_reservation_sy.Application.Moves.Records.{
  IsRecorded, IsCoherent, concerns_reservation, Moves-IsRecorded,
}
use inventory_reservation_sy.Application.Moves.Audit.{
  opens, closes, sells, logged, Tallies, Moves-IsAudited, Moves-appends,
}
use inventory_reservation_sy.Application.History.{
  Call, reserve, confirm, cancel, sweep, perform, run, add_seeds, start,
}
use inventory_reservation_sy.Application.History.Stock.{
  FitsInt, perform-IsSound, run-IsSound, start-IsSound, reservations-add_seeds,
}

perform-Moves :
    (c : Call) (b : ℕ) (s : Service InMemoryRepository)
    → b + 3 < word
    → IsSound b s
    → Moves s (perform c s)
unfolding perform
perform-Moves (reserve order product_id user_id now) b s few v =
    reserve_item-Moves order now product_id user_id s b few v
perform-Moves (confirm order id now) b s few v = confirm_reservation-Moves order now s v.valid id
perform-Moves (cancel order id now) b s few v = cancel_reservation-Moves order now s v.valid id
perform-Moves (sweep order groups now) b s few v =
    expire_reservations-Moves order now groups s b (omega arith) v

-- From a sound state, whatever calls are made while ids last, the service only makes the moves of the
-- specification: each call is a sequence of expiries, confirmations, cancellations, grants and
-- rejections, each under its own condition and with its own effect on every part of the state.
pub run-Moves :
    (calls : List Call) (b : ℕ) (s : Service InMemoryRepository)
    → b + 3 * length calls < word
    → IsSound b s
    → Moves s (run calls s)
unfolding run
run-Moves [] b s few v = here
run-Moves (c ∷ calls) b s few v =
    Moves-trans (perform-Moves c b s (omega arith) v)
      (run-Moves calls (b + 3) (perform c s) (omega arith) (perform-IsSound c b s (omega arith) v))

-- From a sound state and while ids last, whatever calls are made, a reservation that exists is never
-- deleted: it keeps its id, product, user, creation and expiry times, and it is either unchanged or was
-- active and has ended. So a terminal reservation never changes.
pub lifecycle :
    (calls : List Call) (b : ℕ) (s : Service InMemoryRepository)
    → b + 3 * length calls < word
    → IsSound b s
    → (id : Text) (r : Reservation) → lookup id s.repo.reservations ≡ some r
    → Follows id r (run calls s).repo.reservations
lifecycle calls b s few v = Moves-Follows (run-Moves calls b s few v)

-- From a sound state and while ids last, no call adds or removes a product or changes a total stock, and
-- the event log after the calls is the log before them with events added at its end.
pub stock_and_log :
    (calls : List Call) (b : ℕ) (s : Service InMemoryRepository)
    → b + 3 * length calls < word
    → IsSound b s
    → ((k : Text) → stock_in k (run calls s).repo.products ≡ stock_in k s.repo.products)
      × ((es : List InventoryEvent) × ((run calls s).repo.events ≡ s.repo.events ++ es))
stock_and_log calls b s few v =
    let ms = run-Moves calls b s few v in (Moves-stock ms, Moves-appends ms)

pub events-add_seeds :
    (seeds : List (Text × ℕ)) (repo : InMemoryRepository)
    → (add_seeds seeds repo).events ≡ repo.events
unfolding add_seeds
events-add_seeds [] repo = refl
events-add_seeds ((id, stock) ∷ seeds) repo = events-add_seeds seeds _

start-IsAudited :
    (seeds : List (Text × ℕ)) (hold_for : Duration) (k : Text)
    → Tallies k (start seeds hold_for).repo.reservations (start seeds hold_for).repo.events
unfolding start values sum_of
start-IsAudited seeds hold_for k =
    rw
      (
        reservations-add_seeds seeds new_in_memory_repository,
        events-add_seeds seeds new_in_memory_repository,
      )
      (record { holds_logged = refl; sales_logged = refl })

start-IsRecorded :
    (seeds : List (Text × ℕ)) (hold_for : Duration) → IsRecorded (start seeds hold_for)
unfolding start select
start-IsRecorded seeds hold_for = record {
  events =
      ap (select (λ e. concerns_reservation e.kind))
        (sym (events-add_seeds seeds new_in_memory_repository));
  coherent = tt;
}

-- From a seeded start whose stocks fit an `int`, after any calls, fewer than a third of 2 ^ 64, the
-- event log alone gives a product's counters: its active count is the number of Reserved events
-- less the Confirmed, Cancelled and Expired ones, and its confirmed count is the number of
-- Confirmed events.
pub log_gives_counters :
    (seeds : List (Text × ℕ)) (hold_for : Duration) (calls : List Call)
    → All FitsInt seeds
    → 3 * length calls < word
    → (k : Text) (p : ProductInventory)
    → get_product k (run calls (start seeds hold_for)).repo ≡ some p
    → let es = (run calls (start seeds hold_for)).repo.events in
      (p.active_reservation_count + logged closes k es ≡ logged opens k es)
      × (p.confirmed_count ≡ logged sells k es)
unfolding get_product
log_gives_counters seeds hold_for calls fits few k p known =
    let s₀ = start seeds hold_for in
    let v : IsSound 0 s₀ = start-IsSound seeds hold_for fits in
    let s = run calls s₀ in
    let a : Agrees k p s.repo.reservations =
      (run-IsSound calls 0 s₀ (omega arith) v).valid.agrees k p known in
    let t : Tallies k s.repo.reservations s.repo.events =
      Moves-IsAudited (run-Moves calls 0 s₀ (omega arith) v) k (start-IsAudited seeds hold_for k) in
    (omega (arith, a, t), omega (arith, a, t))

-- From a seeded start whose stocks fit an `int`, after any calls, fewer than a third of 2 ^ 64, one
-- after the other: for each product, the events that the shadow recorder has been handed are those
-- of the log that concern a reservation, each once and in the order in which the log has the events
-- of that product. Each record has the action of its event's kind, the reservation that the event
-- is about, in the state of that action, and the event's product and user.
pub shadow_follows_log :
    (seeds : List (Text × ℕ)) (hold_for : Duration) (calls : List Call)
    → All FitsInt seeds
    → 3 * length calls < word
    → let s = run calls (start seeds hold_for) in
      ((k : Text)
        → select (λ e. text_eq k e.product_id) (map (λ r. r.event) s.shadow_recorder)
          ≡ select
              (λ e. text_eq k e.product_id)
              (select (λ e. concerns_reservation e.kind) s.repo.events))
      × All IsCoherent s.shadow_recorder
shadow_follows_log seeds hold_for calls fits few =
    let s₀ = start seeds hold_for in
    let recorded =
      Moves-IsRecorded (run-Moves calls 0 s₀ (omega arith) (start-IsSound seeds hold_for fits))
        (start-IsRecorded seeds hold_for) in
    ((λ k. ap (select (λ e. text_eq k e.product_id)) recorded.events), recorded.coherent)
