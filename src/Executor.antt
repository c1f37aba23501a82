-- ===== src/Executor.antt =====
-- autoagent/core/executor/node_executor.py: the calls of operators for one unit of a node, with retries and
-- fallbacks. The state `Calls` is shared by the units of the node, which run as tasks of one event loop:
-- `meanwhile n` is what the other units do to it while call number `n` of this unit, or the sleep
-- after it, is awaited. What a call returns is `answer`, by the operator and the number of the call.
-- Progress events and a task that is cancelled, which ends without a result, are not modelled.
use auto_agent.Shared.{
  ℕ, zero, suc, ◌+◌, ◌-◌, Bool, true, false, Option, none, some, List, [], ◌∷◌, ◌++◌, ltb,
  if◌then◌else◌, min, max,
}
use auto_agent.Shared.Keys.{Text, text}
use auto_agent.Shared.Exec.{Result, ok, err, Fault}
use auto_agent.Runtime.Value.{Value, null, chars, end, field}
use auto_agent.Runtime.Execution.{
  RuntimeErrorInfo, ResourceUsage, no_usage, OperatorState, AttemptReason, DirectOperatorExecution,
  complete_attempt, fail_attempt,
}
use auto_agent.Operators.{Operator}
pub mod Plan
pub mod Budget
pub mod Limits
pub mod Workers
pub mod Samples

-- _CallBudget and _CallSequence
pub record Calls : Type 0 where
  pub remaining : Option ℕ
  pub current : ℕ

unfoldable pub consume : Calls → Bool × Calls
consume calls = elim calls.remaining [
  | none ↦ (true, calls)
  | some zero ↦ (false, calls)
  | some (suc n) ↦ (true, record calls { remaining = some n })
]

unfoldable pub next_call : Calls → ℕ × Calls
next_call calls = (suc calls.current, record calls { current = suc calls.current })

pub record UnitResult : Type 0 where
  pub index : ℕ
  pub output : Value
  pub error : Option RuntimeErrorInfo
  pub attempts : List DirectOperatorExecution
  pub retry_backoff_ns : ℕ

-- What an awaited call ends with: the output that its contracts accept, or the error made of the exception.
pub data CallEnd : Type 0 where
  returned : Value → CallEnd
  raised : RuntimeErrorInfo → CallEnd

pub record Answer : Type 0 where
  pub attempt_id : ℕ
  pub started_at_ms : ℕ
  pub ended_at_ms : ℕ
  pub resource_usage : ResourceUsage
  pub streaming : Bool
  pub stream_chunk_count : ℕ
  pub slept_ns : ℕ
  pub result : CallEnd

unfoldable pub attempt_reason : ℕ → ℕ → Bool → AttemptReason
attempt_reason operator_index (suc attempt_index) recovery = AttemptReason.retry
attempt_reason (suc operator_index) zero recovery = AttemptReason.fallback
attempt_reason zero zero true = AttemptReason.recovery
attempt_reason zero zero false = AttemptReason.normal

unfoldable pub operator_budget_error : Text → RuntimeErrorInfo
operator_budget_error node_id = record {
  code = text "RESOURCE_LIMIT_EXCEEDED";
  message = text "Operator attempt limit exceeded.";
  detail =
      field (text "node_id") (chars node_id)
        (field (text "resource") (chars (text "operator_executions")) end);
}

-- What a unit carries from one attempt to the next.
pub record Progress : Type 0 where
  pub calls : Calls
  pub attempts : List DirectOperatorExecution
  pub retry_backoff_ns : ℕ

-- The loops of a unit end with a `return`, or run out of attempts.
pub data Tried : Type 0 where
  finished : UnitResult → Calls → Tried
  exhausted : Progress → Tried

-- A `return` leaves the outer loop too.
abbrev pub then_next : Tried → (Progress → Tried) → Tried
then_next (finished result calls) next = finished result calls
then_next (exhausted p) next = next p

pub record Job (Contract : Type 0) : Type 0 where
  pub node_id : Text
  pub operators : List (Operator Contract)
  pub max_attempts : ℕ
  pub recovery : Bool

abbrev pub last_of {ℓ} : {A : Type ℓ} → List A → Option A
last_of [] = none
last_of (x ∷ []) = some x
last_of (x ∷ y ∷ xs) = last_of (y ∷ xs)

module _ {Contract : Type 0} (job : Job Contract) (unit_index : ℕ) (unit_input : Value)
    (answer : Operator Contract → ℕ → Answer) (meanwhile : ℕ → Calls → Calls) where
  unfoldable pub started : ℕ → ℕ → Operator Contract → ℕ → DirectOperatorExecution
  started operator_index attempt_index operator sequence =
      let a = answer operator sequence in
      record {
        operator_id = operator.id;
        sequence = sequence;
        reason = attempt_reason operator_index attempt_index job.recovery;
        id = a.attempt_id;
        state = OperatorState.running;
        input = unit_input;
        output = null;
        error = none;
        resource_usage = a.resource_usage;
        started_at_ms = a.started_at_ms;
        ended_at_ms = none;
        streaming = a.streaming;
        stream_chunk_count = a.stream_chunk_count;
      }

  unfoldable pub completed_with :
      Value → Answer → DirectOperatorExecution → Calls → Progress → Tried
  completed_with output a attempt calls p =
      finished
        (record {
          index = unit_index;
          output = output;
          error = none;
          attempts = p.attempts ++ complete_attempt a.ended_at_ms output attempt ∷ [];
          retry_backoff_ns = p.retry_backoff_ns;
        })
        calls

  -- the attempt that failed, and the sleep when another one with this operator is to follow
  unfoldable pub failed_with :
      RuntimeErrorInfo → Answer → Bool → DirectOperatorExecution → Calls → Progress → Progress
  failed_with error a again attempt calls p = record {
    calls = calls;
    attempts = p.attempts ++ fail_attempt a.ended_at_ms error attempt ∷ [];
    retry_backoff_ns = if again then p.retry_backoff_ns + a.slept_ns else p.retry_backoff_ns;
  }

  unfoldable pub out_of_budget : Calls → Progress → Tried
  out_of_budget calls p =
      finished
        (record {
          index = unit_index;
          output = null;
          error = some (operator_budget_error job.node_id);
          attempts = p.attempts;
          retry_backoff_ns = p.retry_backoff_ns;
        })
        calls

  unfoldable pub more_to_come : ℕ → Bool
  more_to_come zero = false
  more_to_come (suc left) = true

  -- `for attempt_index in range(max_attempts)`, with `left` attempts to go
  unfoldable pub try_operator : ℕ → ℕ → ℕ → Operator Contract → Progress → Tried
  try_operator operator_index attempt_index zero operator p = exhausted p
  try_operator operator_index attempt_index (suc left) operator p =
      let (allowed, paid) = consume p.calls in
      elim allowed [
        | false ↦ out_of_budget paid p
        | true ↦
            let (sequence, numbered) = next_call paid in
            let a = answer operator sequence in
            let attempt = started operator_index attempt_index operator sequence in
            let after = meanwhile sequence numbered in
            elim a.result [
              | returned output ↦ completed_with output a attempt after p
              | raised error ↦
                  try_operator operator_index (suc attempt_index) left operator
                    (failed_with error a (more_to_come left) attempt after p)
            ]
      ]

  -- `for operator_index, operator in enumerate(job.operators)`
  unfoldable pub try_operators : ℕ → List (Operator Contract) → Progress → Tried
  try_operators operator_index [] p = exhausted p
  try_operators operator_index (operator ∷ rest) p =
      then_next (try_operator operator_index 0 job.max_attempts operator p)
        (try_operators (suc operator_index) rest)

  abbrev pub failed_result : Progress → DirectOperatorExecution → UnitResult
  failed_result p attempt = record {
    index = unit_index;
    output = null;
    error = attempt.error;
    attempts = p.attempts;
    retry_backoff_ns = p.retry_backoff_ns;
  }

  abbrev pub all_failed : Progress → Option DirectOperatorExecution → Result UnitResult
  all_failed p none = err Fault.no_attempts
  all_failed p (some attempt) = ok (failed_result p attempt)

  abbrev pub unit_end : Tried → Result UnitResult × Calls
  unit_end (finished result left) = (ok result, left)
  unit_end (exhausted p) = (all_failed p (last_of p.attempts), p.calls)

  -- the result, or the IndexError of `attempts[-1]` where there was no attempt at all
  unfoldable pub execute_unit : Calls → Result UnitResult × Calls
  execute_unit calls = unit_end (
      try_operators 0 job.operators (record { calls = calls; attempts = []; retry_backoff_ns = 0 }))

-- An optional limit, taken into a minimum.
unfoldable pub at_most : Option ℕ → ℕ → ℕ
at_most none n = n
at_most (some limit) n = min n limit

-- The limits are those of the executor, of the map policy and of the replication policy.
unfoldable pub max_parallelism : ℕ → Option ℕ → Option ℕ → ℕ → ℕ
max_parallelism max_parallel_units map_limit replication_limit unit_count =
    max 1
      (at_most replication_limit (at_most map_limit (min (max 1 unit_count) max_parallel_units)))
