-- ===== src/Executor/Samples.antt =====
-- A unit with two operators, of which the first one fails.
use auto_agent.Shared.{
  ℕ, zero, suc, ◌≡◌, ◌≤◌, ◌⊎◌, refl, true, false, none, some, Option, or_else, if◌then◌else◌, ltb,
  [], ◌∷◌, arith,
}
use auto_agent.Shared.Keys.{text}
use auto_agent.Shared.Exec.{Result, ok, err}
use auto_agent.Runtime.Value.{null, atom, end}
use auto_agent.Runtime.Execution.{no_usage}
use auto_agent.Operators.{Operator, pos}
use auto_agent.Executor.{
  Calls, UnitResult, Answer, Job, CallEnd, returned, raised, execute_unit, consume, next_call,
  failed_with, completed_with, try_operator, try_operators,
}
use auto_agent.Executor.Plan.{Follows, Verdict, Stops, signatures, plan, execute_unit-Verdict}
use auto_agent.Executor.Budget.{Keeps, Shares, consume_refused, consume_paid, execute_unit-Keeps}

abbrev two_operators : Job Unit
two_operators = record {
  node_id = text "search";
  operators =
      record {
        id = text "a";
        capability_id = none;
        priority = pos 0;
        enabled = true;
        contract = tt;
      }
      ∷ record {
        id = text "b";
        capability_id = none;
        priority = pos 0;
        enabled = true;
        contract = tt;
      }
      ∷ [];
  max_attempts = 2;
  recovery = false;
}

abbrev refused_call : CallEnd
refused_call = raised (record { code = text "OPERATOR_FAILED"; message = []; detail = end })

-- The calls up to number 7 fail.
abbrev ending : ℕ → CallEnd
ending n = if ltb n 8 then refused_call else returned (atom 4)

abbrev answers : Operator Unit → ℕ → Answer
answers operator n = record {
  attempt_id = n;
  started_at_ms = n;
  ended_at_ms = n;
  resource_usage = no_usage;
  streaming = false;
  stream_chunk_count = 0;
  slept_ns = 3;
  result = ending n;
}

-- Another unit makes a call of its own each time.
abbrev one_other : ℕ → Calls → Calls
one_other n calls = record { remaining = (consume calls).1.remaining; current = suc calls.current }

abbrev ten_calls : Calls
ten_calls = record { remaining = some 10; current = 3 }

execute_unit-Verdict_example :
    (r : UnitResult) × ((execute_unit two_operators 0 null answers one_other ten_calls).0 ≡ ok r)
    × Follows (plan false 2 0 two_operators.operators) r.attempts
    × Verdict r
    × (Stops (text "search") r ⊎ (signatures r.attempts ≡ plan false 2 0 two_operators.operators))
execute_unit-Verdict_example =
    execute_unit-Verdict two_operators 0 null answers one_other ten_calls (λ e. ground (arith, e))
      (omega arith)

one_other-spends :
    (calls : Calls) (left : ℕ)
    → calls.remaining ≡ some left
    → (less : ℕ) × ((consume calls).1.remaining ≡ some less) × (less ≤ left)
one_other-spends calls zero e = (0, (consume_refused calls e).1, omega arith)
one_other-spends calls (suc n) e = (n, (consume_paid calls n e).1, omega arith)

one_other-Shares : (n : ℕ) → Shares (one_other n)
one_other-Shares n = record { spends = one_other-spends; counts = λ calls. omega arith }

abbrev result_of : Result UnitResult → Option UnitResult
result_of (ok r) = some r
result_of (err fault) = none

abbrev unit_found : UnitResult
unit_found =
    or_else (result_of (execute_unit two_operators 0 null answers one_other ten_calls).0)
      (record { index = 0; output = null; error = none; attempts = []; retry_backoff_ns = 0 })

execute_unit-Keeps_example :
    Keeps 3 10 (execute_unit two_operators 0 null answers one_other ten_calls).1 unit_found.attempts
unfolding execute_unit try_operators try_operator consume next_call failed_with completed_with
execute_unit-Keeps_example =
    execute_unit-Keeps two_operators 0 null answers one_other one_other-Shares ten_calls 10
      unit_found refl refl
