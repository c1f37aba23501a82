-- ===== src/Executor/Workers/Samples.antt =====
-- Two workers with three units.
use auto_agent.Shared.{
  ℕ, ◌+◌, ◌≤◌, ◌≡◌, refl, map, max, false, none, some, List, [], ◌∷◌, length, arith, All,
}
use auto_agent.Shared.Keys.{text}
use auto_agent.Runtime.Value.{Value, null, end}
use auto_agent.Executor.{UnitResult, max_parallelism}
use auto_agent.Executor.Limits.{Under}
use auto_agent.Executor.Workers.{
  returned, Happening, goes, ends, cancelled, act_at, act, take_unit, go_round, leave, run, start,
  new_workers,
}
use auto_agent.Executor.Workers.Counts.{running, failed, errors, held, finished, waiting_units}
use auto_agent.Executor.Workers.Bounds.{after, after-Bounded}
use auto_agent.Executor.Workers.Taken.{one_at, Succeeded, after-Taken, after-Complete}

abbrev three_units : List (ℕ × Value)
three_units = (0, null) ∷ (1, null) ∷ (2, null) ∷ []

abbrev good : UnitResult
good = record { index = 0; output = null; error = none; attempts = []; retry_backoff_ns = 0 }

abbrev bad : UnitResult
bad = record good {
  error = some (record { code = text "E"; message = text "failed"; detail = end });
}

-- The second worker is quicker, and runs the units 1 and 2.
abbrev smoothly : List (ℕ × Happening)
smoothly = (0, goes) ∷ (1, goes) ∷ (1, ends good) ∷ (1, ends good) ∷ (0, ends good) ∷ []

-- The first unit fails, and the second worker is cancelled with its unit.
abbrev badly : List (ℕ × Happening)
badly = (0, goes) ∷ (1, goes) ∷ (0, ends bad) ∷ (1, cancelled) ∷ []

program : Unit {0}
unfolding act_at act take_unit go_round leave run start new_workers
program = tt

in_order : (after 2 three_units smoothly).0 ≡ returned false ∷ returned false ∷ []
unfolding program
in_order = refl

finishing_order : map (λ r. r.index) (after 2 three_units smoothly).1.results ≡ 1 ∷ 2 ∷ 0 ∷ []
unfolding program
finishing_order = refl

after-Bounded_example :
    let (places, s) =
      after (max_parallelism 8 (some 2) none (length three_units)) three_units badly in
    (s.active ≡ running places)
    × (s.active ≤ s.peak_parallelism)
    × (s.peak_parallelism ≤ length three_units)
    × (s.peak_parallelism ≤ max 1 8)
    × Under s.peak_parallelism (some 2)
    × Under s.peak_parallelism none
after-Bounded_example = after-Bounded three_units 8 (some 2) none badly

after-Taken_example :
    (finished (one_at 1) (after 2 three_units badly).1.results
        + held (one_at 1) (after 2 three_units badly).0
        + waiting_units (one_at 1) (after 2 three_units badly).1.left
      ≡ waiting_units (one_at 1) three_units)
    × (errors (after 2 three_units badly).1.results ≡ failed (after 2 three_units badly).0)
after-Taken_example = after-Taken 2 three_units badly 1

smoothly-Succeeded : All Succeeded (after 2 three_units smoothly).0
unfolding program
smoothly-Succeeded = (refl, (refl, tt))

after-Complete_example :
    ((index : ℕ)
      → finished (one_at index) (after 2 three_units smoothly).1.results
        ≡ waiting_units (one_at index) three_units)
    × (errors (after 2 three_units smoothly).1.results ≡ 0)
    × ((after 2 three_units smoothly).1.active ≡ 0)
after-Complete_example = after-Complete 2 three_units smoothly (omega arith) smoothly-Succeeded
