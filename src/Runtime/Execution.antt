-- ===== src/Runtime/Execution.antt =====
-- autoagent/core/runtime/execution.py: what the runtime keeps about one execution of a node. A method
-- returns the changed object; `now` is the reading of the clock in milliseconds that the method makes,
-- and ids made by `uuid4` are arguments. The conversions to and from stored records are not modelled.
use auto_agent.Shared.{ℕ, ◌+◌, ◌/◌, Bool, Option, none, some, List, [], ◌∷◌, ◌++◌, map, or_else}
use auto_agent.Shared.Keys.{Text, text}
use auto_agent.Runtime.Value.{Value, Fields, end}
use auto_agent.Runtime.Scope.{ExecutionScope}
use auto_agent.Runtime.Cursor.{EdgeActivation, NodeState}

pub record RuntimeErrorInfo : Type 0 where
  pub code : Text
  pub message : Text
  pub detail : Fields

pub record ResourceUsage : Type 0 where
  pub duration_ns : ℕ
  pub execution_ns : ℕ
  pub concurrency_wait_ns : ℕ
  pub thread_pool_queue_ns : ℕ
  pub retry_backoff_ns : ℕ
  pub stream_consumption_ns : ℕ
  pub stream_reduction_ns : ℕ

abbrev pub no_usage : ResourceUsage
no_usage = record {
  duration_ns = 0;
  execution_ns = 0;
  concurrency_wait_ns = 0;
  thread_pool_queue_ns = 0;
  retry_backoff_ns = 0;
  stream_consumption_ns = 0;
  stream_reduction_ns = 0;
}

unfoldable pub duration_ms : ResourceUsage → ℕ
duration_ms usage = usage.duration_ns / 1_000_000

-- `usage.add(...)`, the increments as one record
unfoldable pub add_usage : ResourceUsage → ResourceUsage → ResourceUsage
add_usage by usage = record {
  duration_ns = usage.duration_ns + by.duration_ns;
  execution_ns = usage.execution_ns + by.execution_ns;
  concurrency_wait_ns = usage.concurrency_wait_ns + by.concurrency_wait_ns;
  thread_pool_queue_ns = usage.thread_pool_queue_ns + by.thread_pool_queue_ns;
  retry_backoff_ns = usage.retry_backoff_ns + by.retry_backoff_ns;
  stream_consumption_ns = usage.stream_consumption_ns + by.stream_consumption_ns;
  stream_reduction_ns = usage.stream_reduction_ns + by.stream_reduction_ns;
}

-- runtime/status.py: OperatorExecutionStateValue
pub data OperatorState : Type 0 where
  running completed failed interrupted : OperatorState

-- runtime/status.py: DirectOperatorExecutionReason
pub data AttemptReason : Type 0 where
  normal retry fallback recovery : AttemptReason

pub record DirectOperatorExecution : Type 0 where
  pub operator_id : Text
  pub sequence : ℕ
  pub reason : AttemptReason
  pub id : ℕ
  pub state : OperatorState
  pub input : Value
  pub output : Value
  pub error : Option RuntimeErrorInfo
  pub resource_usage : ResourceUsage
  pub started_at_ms : ℕ
  pub ended_at_ms : Option ℕ
  pub streaming : Bool
  pub stream_chunk_count : ℕ

unfoldable pub complete_attempt : ℕ → Value → DirectOperatorExecution → DirectOperatorExecution
complete_attempt now output attempt = record attempt {
  state = OperatorState.completed;
  output = output;
  error = none;
  ended_at_ms = some now;
}

unfoldable pub fail_attempt :
    ℕ → RuntimeErrorInfo → DirectOperatorExecution → DirectOperatorExecution
fail_attempt now error attempt = record attempt {
  state = OperatorState.failed;
  error = some error;
  ended_at_ms = some now;
}

pub record ParallelExecutionSummary : Type 0 where
  pub call_count : ℕ
  pub attempt_count : ℕ
  pub success_count : ℕ
  pub failure_count : ℕ
  pub cancelled_count : ℕ
  pub retry_count : ℕ
  pub fallback_count : ℕ
  pub total_duration_ns : ℕ
  pub min_duration_ns : Option ℕ
  pub max_duration_ns : Option ℕ
  pub peak_parallelism : ℕ
  pub streaming_call_count : ℕ
  pub stream_chunk_count : ℕ
  pub stream_consumption_ns : ℕ
  pub stream_reduction_ns : ℕ
  pub failure_samples : List Fields

pub data ParallelKind : Type 0 where
  map_items replication : ParallelKind

pub record ParallelOperatorExecution : Type 0 where
  pub kind : ParallelKind
  pub summary : ParallelExecutionSummary
  pub operator_ids : List Text
  pub id : ℕ
  pub state : OperatorState
  pub error : Option RuntimeErrorInfo
  pub started_at_ms : ℕ
  pub ended_at_ms : Option ℕ

pub data OperatorExecution : Type 0 where
  direct : DirectOperatorExecution → OperatorExecution
  parallel : ParallelOperatorExecution → OperatorExecution

unfoldable pub attempt_count : OperatorExecution → ℕ
attempt_count (direct execution) = 1
attempt_count (parallel execution) = execution.summary.attempt_count

abbrev pub operator_state : OperatorExecution → OperatorState
operator_state (direct execution) = execution.state
operator_state (parallel execution) = execution.state

-- the body of the loops over `operator_executions` in `mark_cancelled` and `mark_interrupted`
abbrev pub interrupted_as :
    OperatorState → ℕ → Option RuntimeErrorInfo → OperatorExecution → OperatorExecution
interrupted_as OperatorState.running now error (direct execution) =
    direct (record execution {
      state = OperatorState.interrupted;
      error = error;
      ended_at_ms = some now;
    })
interrupted_as OperatorState.running now error (parallel execution) =
    parallel (record execution {
      state = OperatorState.interrupted;
      error = error;
      ended_at_ms = some now;
    })
interrupted_as state now error execution = execution

unfoldable pub interrupt_running :
    ℕ → Option RuntimeErrorInfo → OperatorExecution → OperatorExecution
interrupt_running now error execution =
    interrupted_as (operator_state execution) now error execution

-- runtime/status.py: EdgeEvaluationStateValue
pub data EvaluationState : Type 0 where
  selected skipped failed : EvaluationState

pub record EdgeEvaluation : Type 0 where
  pub id : ℕ
  pub edge_id : Text
  pub target_node_id : Text
  pub state : EvaluationState
  pub selected : Bool
  pub reason : Option Text
  pub elapsed_ns : Option ℕ
  pub created_at_ms : ℕ
  pub updated_at_ms : ℕ
  pub started_at_monotonic_ns : ℕ

pub record NodeExecution : Type 0 where
  pub node_id : Text
  pub sequence : ℕ
  pub id : ℕ
  pub state : NodeState
  pub input : Value
  pub output : Value
  pub error : Option RuntimeErrorInfo
  pub idempotency_key : Option Text
  pub recovery_of_execution_id : Option ℕ
  pub recovery_attempt : ℕ
  pub base_invocation_context_revision : ℕ
  pub base_session_context_revision : ℕ
  pub incoming_activations : List EdgeActivation
  pub execution_scope : ExecutionScope
  pub operator_executions : List OperatorExecution
  pub edge_evaluations : List EdgeEvaluation
  pub resource_usage : ResourceUsage
  pub started_at_ms : Option ℕ
  pub ended_at_ms : Option ℕ
  pub created_at_ms : ℕ
  pub updated_at_ms : ℕ

unfoldable pub mark_ready : ℕ → NodeExecution → NodeExecution
mark_ready now execution = record execution { state = NodeState.ready; updated_at_ms = now }

-- The reading of the monotonic clock that the method also keeps is left out: nothing stored holds it.
unfoldable pub mark_running : ℕ → Value → NodeExecution → NodeExecution
mark_running now input execution = record execution {
  state = NodeState.running;
  input = input;
  started_at_ms = some now;
  updated_at_ms = now;
}

abbrev pub waiting_error : Option Text → Option RuntimeErrorInfo → Option RuntimeErrorInfo
waiting_error none error = error
waiting_error (some []) error = error
waiting_error (some (c ∷ reason)) error =
    some (record { code = text "NODE_WAITING"; message = c ∷ reason; detail = end })

unfoldable pub mark_waiting : ℕ → Option Text → NodeExecution → NodeExecution
mark_waiting now reason execution = record execution {
  state = NodeState.waiting;
  error = waiting_error reason execution.error;
  updated_at_ms = now;
}

unfoldable pub mark_completed : ℕ → Value → NodeExecution → NodeExecution
mark_completed now output execution = record execution {
  state = NodeState.completed;
  output = output;
  error = none;
  ended_at_ms = some now;
  updated_at_ms = now;
}

unfoldable pub mark_failed : ℕ → RuntimeErrorInfo → NodeExecution → NodeExecution
mark_failed now error execution = record execution {
  state = NodeState.failed;
  error = some error;
  ended_at_ms = some now;
  updated_at_ms = now;
}

unfoldable pub mark_cancelled : ℕ → Option RuntimeErrorInfo → NodeExecution → NodeExecution
unfolding interrupt_running
mark_cancelled now error execution = record execution {
  state = NodeState.cancelled;
  error = error;
  ended_at_ms = some now;
  updated_at_ms = now;
  operator_executions = map (interrupt_running now error) execution.operator_executions;
}

abbrev pub node_interrupted : RuntimeErrorInfo
node_interrupted = record {
  code = text "NODE_INTERRUPTED";
  message = text "Node execution was interrupted before completion.";
  detail = end;
}

unfoldable pub mark_interrupted : ℕ → Option RuntimeErrorInfo → NodeExecution → NodeExecution
unfolding interrupt_running
mark_interrupted now error execution =
    let reason = some (or_else error node_interrupted) in
    record execution {
      state = NodeState.interrupted;
      error = reason;
      ended_at_ms = some now;
      updated_at_ms = now;
      operator_executions = map (interrupt_running now reason) execution.operator_executions;
    }

unfoldable pub add_edge_evaluation : EdgeEvaluation → NodeExecution → NodeExecution
add_edge_evaluation evaluation execution = record execution {
  edge_evaluations = execution.edge_evaluations ++ evaluation ∷ [];
  updated_at_ms = evaluation.created_at_ms;
}
