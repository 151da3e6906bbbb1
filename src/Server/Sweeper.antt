-- ===== src/Server/Sweeper.antt =====
-- cmd/server/main.go, runExpirySweeper: each tick of the ticker sweeps, and reports to the metrics.
-- A run is the list of its ticks, until the context is done; a tick has what the other goroutines
-- have done to the service since the tick before, the time that it carries, and the order in which
-- the sweep visits its groups. In the histories of the in-memory service, the others have made
-- calls.
use inventory_reservation_sy.Base.{
  ℕ, ◌+◌, ◌*◌, ◌%◌, ◌<◌, ◌≤◌, ◌≡◌, refl, List, [], ◌∷◌, length, map, All, sum_of, length-map, arith,
}
use inventory_reservation_sy.Base.Text.{Text}
use inventory_reservation_sy.Base.Int64.{word, sign}
use inventory_reservation_sy.Base.Time.{Time, Duration}
use inventory_reservation_sy.Base.Map.{MapOrder, values}
use inventory_reservation_sy.Domain.Reservation.{Reservation}
use inventory_reservation_sy.Infrastructure.Repository.{Repository}
use inventory_reservation_sy.Infrastructure.InMemory.{InMemoryRepository, in_memory}
use inventory_reservation_sy.Application.State.{Service}
use inventory_reservation_sy.Application.Sweep.{expire_reservations}
use inventory_reservation_sy.Application.Sweep.Due.{due, due_total}
use inventory_reservation_sy.Application.Sweep.Totals.{expire_reservations-Expires}
use inventory_reservation_sy.Application.Invariant.{IsSound, live}
use inventory_reservation_sy.Application.History.{Call, run, start}
use inventory_reservation_sy.Application.History.Stock.{FitsInt, run-IsSound, start-IsSound}
use inventory_reservation_sy.Http.Metrics.{Float64, Metrics, record_expiry_sweep, new_metrics}

pub record Tick (R : Type 0) : Type 0 where
  pub meanwhile : Service R → Service R
  pub groups : MapOrder (Text × List Text)
  pub now : Time

-- A tick of the in-memory server, and the calls of the handlers since the tick before.
pub record Beat : Type 0 where
  pub calls : List Call
  pub groups : MapOrder (Text × List Text)
  pub now : Time

abbrev pub tick_of : Beat → Tick InMemoryRepository
tick_of beat = record { meanwhile = λ s. run beat.calls s; groups = beat.groups; now = beat.now }

abbrev pub calls_before : Beat → ℕ
calls_before beat = length beat.calls

unfoldable pub run_expiry_sweeper :
    {R F : Type 0} → Repository R → List (Tick R) → Service R × Metrics F → Service R × Metrics F
run_expiry_sweeper repository [] (s, m) = (s, m)
run_expiry_sweeper repository (tick ∷ rest) (s, m) =
    let (n, s') = expire_reservations repository tick.groups tick.now (tick.meanwhile s) in
    run_expiry_sweeper repository rest (s', record_expiry_sweep n m)

due_le_live : (now : Time) (rs : List Reservation) → sum_of (due now) rs ≤ sum_of live rs
unfolding sum_of
due_le_live now [] = omega arith
due_le_live now (r ∷ rs) = ground (arith, due_le_live now rs)

module _ (order : MapOrder Reservation) where
  -- What is due when each tick sweeps.
  unfoldable pub due_at_ticks : List (Tick InMemoryRepository) → Service InMemoryRepository → ℕ
  due_at_ticks [] s = 0
  due_at_ticks (tick ∷ rest) s =
      due_total tick.now (tick.meanwhile s).repo.reservations
      + due_at_ticks rest
          (expire_reservations (in_memory order) tick.groups tick.now (tick.meanwhile s)).1

  -- A sweep that found `n`, reported.
  reported :
      {F : Type 0} (n : ℕ) (m : Metrics F)
      → n < sign
      → m.expired_reservations < word
      → (record_expiry_sweep n m).expired_reservations ≡ (m.expired_reservations + n) % word
  unfolding record_expiry_sweep
  reported n m small = ground arith

  counted_sweep :
      {F : Type 0} (n : ℕ) (m : Metrics F)
      → (record_expiry_sweep n m).expiry_sweeps ≡ (m.expiry_sweeps + 1) % word
  unfolding record_expiry_sweep
  counted_sweep n m = refl

  sweeper_adds :
      {F : Type 0} (beats : List Beat) (s : Service InMemoryRepository) (m : Metrics F) (b : ℕ)
      → b + 3 * sum_of calls_before beats < sign
      → IsSound b s
      → m.expired_reservations < word
      → m.expiry_sweeps < word
      → let m' = (run_expiry_sweeper (in_memory order) (map tick_of beats) (s, m)).1 in
        (m'.expiry_sweeps ≡ (m.expiry_sweeps + length beats) % word)
        × (m'.expired_reservations
            ≡ (m.expired_reservations + due_at_ticks (map tick_of beats) s) % word)
  unfolding run_expiry_sweeper due_at_ticks sum_of
  sweeper_adds [] s m b few v below swept = (omega arith, omega arith)
  sweeper_adds (beat ∷ rest) s m b few v below swept =
      let s' = run beat.calls s in
      let b' = b + 3 * length beat.calls in
      let v' : IsSound b' s' = run-IsSound beat.calls b s (omega (arith, few)) v in
      let e =
        expire_reservations-Expires order beat.groups beat.now s' b' (omega (arith, few)) v' in
      let t = expire_reservations (in_memory order) beat.groups beat.now s' in
      let few_due : t.0 < sign =
        omega (arith, e.total, v'.spent, few, due_le_live beat.now (values s'.repo.reservations)) in
      let more = reported t.0 m few_due below in
      let one = counted_sweep t.0 m in
      let later =
        sweeper_adds rest t.1 (record_expiry_sweep t.0 m) b' (omega (arith, few)) e.sound
          (omega (arith, more)) (omega (arith, one)) in
      (omega (arith, later.0, one), omega (arith, later.1, more, e.total))

  -- From a seeded start whose stocks fit an `int`, with the metrics new: whatever calls are made
  -- before each tick, fewer than a third of 2 ^ 63 in all and each of them whole, the metrics have
  -- the number of ticks and the sum of what was due when each tick swept, modulo 2 ^ 64.
  pub sweeper_metrics :
      {F : Type 0} (float : Float64 F) (seeds : List (Text × ℕ)) (hold_for : Duration)
      (beats : List Beat)
      → All FitsInt seeds
      → 3 * sum_of calls_before beats < sign
      → let ticks = map tick_of beats in
        let s = start seeds hold_for in
        let m = (run_expiry_sweeper (in_memory order) ticks (s, new_metrics float)).1 in
        (m.expiry_sweeps ≡ length ticks % word)
        × (m.expired_reservations ≡ due_at_ticks ticks s % word)
  sweeper_metrics float seeds hold_for beats fits few =
      let h =
        sweeper_adds beats (start seeds hold_for) (new_metrics float) 0 (omega (arith, few))
          (start-IsSound seeds hold_for fits) (omega arith) (omega arith) in
      (omega (arith, h.0, length-map tick_of beats), omega (arith, h.1))
