-- ===== src/Executor/Workers/Counts.antt =====
-- The workers and the units, counted.
use auto_agent.Shared.{
  ℕ, ◌+◌, ◌≤◌, ◌≡◌, Bool, true, false, some, List, [], ◌∷◌, ◌++◌, is_some, length, arith,
}
use auto_agent.Runtime.Value.{Value}
use auto_agent.Executor.{UnitResult}
use auto_agent.Executor.Workers.{Place, waiting, busy, returned, raised, stopped}

abbrev pub is_busy : Place → ℕ
is_busy (busy index) = 1
is_busy _ = 0

abbrev pub running : List Place → ℕ
running [] = 0
running (p ∷ ps) = is_busy p + running ps

-- the workers that returned because of an error
abbrev pub is_failed : Place → ℕ
is_failed (returned true) = 1
is_failed _ = 0

abbrev pub failed : List Place → ℕ
failed [] = 0
failed (p ∷ ps) = is_failed p + failed ps

abbrev pub error_count : Bool → ℕ
error_count true = 1
error_count false = 0

abbrev pub errors : List UnitResult → ℕ
errors [] = 0
errors (r ∷ rs) = error_count (is_some r.error) + errors rs

module _ (weight : ℕ → ℕ) where
  -- the unit that a worker has, or had when it was cut off
  abbrev pub held_by : Place → ℕ
  held_by (busy index) = weight index
  held_by (raised index) = weight index
  held_by (stopped (some index)) = weight index
  held_by _ = 0

  abbrev pub held : List Place → ℕ
  held [] = 0
  held (p ∷ ps) = held_by p + held ps

  abbrev pub finished : List UnitResult → ℕ
  finished [] = 0
  finished (r ∷ rs) = weight r.index + finished rs

  abbrev pub waiting_units : List (ℕ × Value) → ℕ
  waiting_units [] = 0
  waiting_units (unit ∷ units) = weight unit.0 + waiting_units units

  pub finished-append_one :
      (rs : List UnitResult) (r : UnitResult)
      → finished (rs ++ r ∷ []) ≡ finished rs + weight r.index
  finished-append_one [] r = omega arith
  finished-append_one (x ∷ rs) r = omega (arith, finished-append_one rs r)

pub errors-append_one :
    (rs : List UnitResult) (r : UnitResult)
    → errors (rs ++ r ∷ []) ≡ errors rs + error_count (is_some r.error)
errors-append_one [] r = omega arith
errors-append_one (x ∷ rs) r = omega (arith, errors-append_one rs r)

pub running-length : (ps : List Place) → running ps ≤ length ps
running-length [] = omega arith
running-length (waiting ∷ ps) = omega (arith, running-length ps)
running-length (busy index ∷ ps) = omega (arith, running-length ps)
running-length (returned b ∷ ps) = omega (arith, running-length ps)
running-length (raised index ∷ ps) = omega (arith, running-length ps)
running-length (stopped o ∷ ps) = omega (arith, running-length ps)
