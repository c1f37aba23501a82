-- ===== src/Executor/Workers.antt =====
-- autoagent/core/executor/node_executor.py: the workers of `_execute_units`, which run the units of one node.
-- A worker is a task, and between two of its awaits no other task runs: `act` is what it does from one
-- await to the next. The order in which the workers go on, the results of their units, and which tasks
-- are cancelled when, are a list of events: the function itself cancels the workers that are left once
-- one has returned with an error, and its caller may have it cancelled at any time.
pub mod Counts
pub mod Sound
pub mod Bounds
pub mod Taken
pub mod Samples
use auto_agent.Shared.{
  ℕ, zero, suc, ◌+◌, ◌-◌, min, max, Bool, true, false, Option, none, some, List, [], ◌∷◌, ◌++◌,
  is_some, length,
}
use auto_agent.Runtime.Value.{Value}
use auto_agent.Executor.{UnitResult}

-- Where a worker stands. `raised` and `stopped` keep the unit that it had.
pub data Place : Type 0 where
  waiting : Place  -- created, at the head of its loop
  busy : ℕ → Place  -- awaits `_execute_unit`
  returned : Bool → Place
  raised : ℕ → Place
  stopped : Option ℕ → Place

-- what the workers share
pub record Pool : Type 0 where
  pub left : List (ℕ × Value)
  pub active : ℕ
  pub peak_parallelism : ℕ
  pub results : List UnitResult

pub data Happening : Type 0 where
  goes : Happening
  ends : UnitResult → Happening
  fails cancelled : Happening

-- `next(unit_iterator)`, up to the await of the unit
unfoldable pub take_unit : List (ℕ × Value) → Pool → Place × Pool
take_unit [] s = (returned false, s)
take_unit (unit ∷ rest) s = (
  busy unit.0,
  record s {
    left = rest;
    active = s.active + 1;
    peak_parallelism = max s.peak_parallelism (s.active + 1);
  },
)

-- `active -= 1`
unfoldable pub leave : Pool → Pool
leave s = record s { active = s.active - 1 }

abbrev pub keep_result : ℕ → UnitResult → Pool → Pool
keep_result index result s = record s {
  results = s.results ++ record result { index = index } ∷ [];
}

-- after a unit: return where it has an error, and else go on with the next one
unfoldable pub go_round : Bool → Pool → Place × Pool
unfolding take_unit
go_round true s = (returned true, s)
go_round false s = take_unit s.left s

unfoldable pub act : Happening → Place → Pool → Place × Pool
unfolding take_unit leave go_round
act goes waiting s = take_unit s.left s
act (ends result) (busy index) s =
    go_round (is_some result.error) (keep_result index result (leave s))
act fails (busy index) s = (raised index, leave s)
act cancelled (busy index) s = (stopped (some index), leave s)
act cancelled waiting s = (stopped none, s)
act _ place s = (place, s)

-- one event of the worker with number `i`
unfoldable pub act_at : ℕ → Happening → List Place → Pool → List Place × Pool
unfolding act
act_at i what [] s = ([], s)
act_at zero what (place ∷ rest) s = let (place', s') = act what place s in (place' ∷ rest, s')
act_at (suc i) what (place ∷ rest) s = let (rest', s') = act_at i what rest s in (place ∷ rest', s')

unfoldable pub run : List (ℕ × Happening) → List Place × Pool → List Place × Pool
unfolding act_at
run [] (places, s) = (places, s)
run ((i, what) ∷ rest) (places, s) = run rest (act_at i what places s)

unfoldable pub new_workers : ℕ → List Place
new_workers zero = []
new_workers (suc n) = waiting ∷ new_workers n

-- `_execute_units` up to its first await
unfoldable pub start : ℕ → List (ℕ × Value) → List Place × Pool
unfolding new_workers
start max_parallelism units = (
  new_workers (min max_parallelism (length units)),
  record { left = units; active = 0; peak_parallelism = 0; results = [] },
)
