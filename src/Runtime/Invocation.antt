-- ===== src/Runtime/Invocation.antt =====
-- autoagent/core/runtime/invocation.py: one invocation and the operations through which the executor
-- changes it. Methods that may raise are actions on the invocation; `now` is the reading of the clock.
-- The mailbox of running tasks is process-local and no part of this state; the conversions to and from
-- stored records are not modelled.
pub mod Waits
pub mod Terminal
use auto_agent.Shared.{
  ℕ, suc, ◌+◌, ◌-◌, Bool, true, false, ◌||◌, Option, none, some, List, [], ◌∷◌, ◌++◌, map,
  if◌then◌else◌, eqb, length, first_match, reversed, keep, or_else, max, is_some,
}
use auto_agent.Shared.Keys.{Text, text, ◌==◌, nat_eq, text_eq}
use auto_agent.Shared.Dict.{Dict}
use auto_agent.Shared.Exec.{
  Fault, Result, ok, err, Exec, pure, raise, asks, modify, from_option, unknown_execution,
  bad_terminal_state, ◌>>=◌, ◌>>◌,
}
use auto_agent.Runtime.Value.{Value, Fields, null, end}
use auto_agent.Runtime.Scope.{ExecutionScope}
use auto_agent.Runtime.Cursor.{
  EdgeActivation, NodeExecutionRequest, WaitingExecution, NodeExecutionTransition, NodeState,
  SchedulerContext, enqueue_ready, enqueue_transition, add_waiting_execution,
  remove_waiting_execution,
}
use auto_agent.Runtime.Execution.{
  RuntimeErrorInfo, ResourceUsage, no_usage, duration_ms, attempt_count, OperatorExecution,
  NodeExecution, mark_ready, mark_running, mark_waiting, mark_completed, mark_failed,
  mark_cancelled, mark_interrupted,
}
use auto_agent.Runtime.Output
use auto_agent.Runtime.Output.{OutputIndex}

-- runtime/status.py: InvocationStateValue
pub data InvocationState : Type 0 where
  created running waiting completed failed cancelled interrupted : InvocationState

pub data ExecutionMode : Type 0 where
  normal recovery : ExecutionMode

pub data EventMode : Type 0 where
  minimal standard full : EventMode

-- runtime/context.py: the fields of `RuntimeContext`
pub record RuntimeContext : Type 0 where
  pub user_data : Fields
  pub metadata : Fields
  pub revision : ℕ
  pub path_revisions : Dict Text ℕ

pub record Invocation : Type 0 where
  pub id : ℕ
  pub workflow_id : Text
  pub workflow_revision_id : Text
  pub workflow_version : Option Text
  pub workflow_definition_hash : Option Text
  pub entry_node_id : Text
  pub state : InvocationState
  pub input : Fields
  pub context : RuntimeContext
  pub result : Option Value
  pub scheduler : SchedulerContext
  pub node_executions : List NodeExecution
  pub output_index : OutputIndex
  pub execution_mode : ExecutionMode
  pub event_mode : EventMode
  pub event_sequence : ℕ
  pub error : Option RuntimeErrorInfo
  pub deferred_error : Option RuntimeErrorInfo
  pub deferred_terminal_state : Option InvocationState
  pub created_at_ms : ℕ
  pub updated_at_ms : ℕ

-- `if initialize_entry and not self.node_executions and not self.scheduler.ready_queue`
unfoldable pub initialize_entry : Invocation → Invocation
unfolding enqueue_ready
initialize_entry inv = go inv.node_executions inv.scheduler.ready_queue
  where
    go : List NodeExecution → List NodeExecutionRequest → Invocation
    go [] [] = record inv {
      scheduler =
          enqueue_ready
            (record {
              node_id = inv.entry_node_id;
              activations = [];
              execution_scope = [];
              idempotency_key = none;
              recovery_of_execution_id = none;
              recovery_attempt = 0;
            })
            inv.scheduler;
    }
    go _ _ = inv

unfoldable pub set_running : ℕ → Invocation → Invocation
set_running now inv = record inv { state = InvocationState.running; updated_at_ms = now }

unfoldable pub next_event_sequence : Invocation → ℕ × Invocation
next_event_sequence inv =
    (inv.event_sequence + 1, record inv { event_sequence = inv.event_sequence + 1 })

unfoldable pub set_waiting : ℕ → Invocation → Invocation
set_waiting now inv = record inv { state = InvocationState.waiting; updated_at_ms = now }

unfoldable pub set_completed : ℕ → Option Value → Invocation → Invocation
set_completed now result inv = record inv {
  state = InvocationState.completed;
  result = result;
  error = none;
  deferred_error = none;
  deferred_terminal_state = none;
  updated_at_ms = now;
}

unfoldable pub set_failed : ℕ → RuntimeErrorInfo → Invocation → Invocation
set_failed now error inv = record inv {
  state = InvocationState.failed;
  error = some error;
  deferred_error = none;
  deferred_terminal_state = none;
  updated_at_ms = now;
}

unfoldable pub set_cancelled : ℕ → Invocation → Invocation
set_cancelled now inv = record inv {
  state = InvocationState.cancelled;
  deferred_error = none;
  deferred_terminal_state = none;
  updated_at_ms = now;
}

abbrev pub invocation_interrupted : RuntimeErrorInfo
invocation_interrupted = record {
  code = text "INVOCATION_INTERRUPTED";
  message = text "Invocation could not be recovered after process loss.";
  detail = end;
}

unfoldable pub set_interrupted : ℕ → Option RuntimeErrorInfo → Invocation → Invocation
set_interrupted now error inv = record inv {
  state = InvocationState.interrupted;
  error = some (or_else error invocation_interrupted);
  deferred_error = none;
  deferred_terminal_state = none;
  updated_at_ms = now;
}

abbrev pub can_defer : InvocationState → Bool
can_defer InvocationState.failed = true
can_defer InvocationState.interrupted = true
can_defer _ = false

unfoldable pub defer_terminal : ℕ → RuntimeErrorInfo → InvocationState → Exec Invocation Unit
defer_terminal now error state inv =
    if can_defer state
    then (
      ok tt,
      record inv {
        deferred_error = some error;
        deferred_terminal_state = some state;
        updated_at_ms = now;
      },
    )
    else (err bad_terminal_state, inv)

-- The object that `create_node_execution` makes from a ready request.
abbrev pub fresh_execution : ℕ → ℕ → ℕ → Value → NodeExecutionRequest → NodeExecution
fresh_execution now id sequence input request = record {
  node_id = request.node_id;
  sequence = sequence;
  id = id;
  state = NodeState.created;
  input = input;
  output = null;
  error = none;
  idempotency_key = request.idempotency_key;
  recovery_of_execution_id = request.recovery_of_execution_id;
  recovery_attempt = request.recovery_attempt;
  base_invocation_context_revision = 0;
  base_session_context_revision = 0;
  incoming_activations = request.activations;
  execution_scope = request.execution_scope;
  operator_executions = [];
  edge_evaluations = [];
  resource_usage = no_usage;
  started_at_ms = none;
  ended_at_ms = none;
  created_at_ms = now;
  updated_at_ms = now;
}

unfoldable pub create_node_execution :
    ℕ → ℕ → Value → NodeExecutionRequest → Invocation → NodeExecution × Invocation
unfolding mark_ready
create_node_execution now id input request inv =
    let execution =
      mark_ready now (fresh_execution now id (length inv.node_executions + 1) input request) in
    (
      execution,
      record inv { node_executions = inv.node_executions ++ execution ∷ []; updated_at_ms = now },
    )

abbrev pub has_id : ℕ → NodeExecution → Bool
has_id execution_id execution = execution.id == execution_id

abbrev pub has_node : Text → NodeExecution → Bool
has_node node_id execution = execution.node_id == node_id

unfoldable pub get_node_execution : ℕ → Invocation → Option NodeExecution
get_node_execution execution_id inv = first_match (has_id execution_id) inv.node_executions

unfoldable pub latest_node_execution : Text → Invocation → Option NodeExecution
latest_node_execution node_id inv = first_match (has_node node_id) (reversed inv.node_executions)

unfoldable pub count_node_executions : Text → Invocation → ℕ
count_node_executions node_id inv = length (keep (has_node node_id) inv.node_executions)

sum_attempts : List OperatorExecution → ℕ
unfolding attempt_count
sum_attempts [] = 0
sum_attempts (execution ∷ rest) = attempt_count execution + sum_attempts rest

sum_node_attempts : List NodeExecution → ℕ
unfolding sum_attempts
sum_node_attempts [] = 0
sum_node_attempts (execution ∷ rest) =
    sum_attempts execution.operator_executions + sum_node_attempts rest

unfoldable pub count_operator_attempts : Text → Invocation → ℕ
unfolding sum_node_attempts
count_operator_attempts node_id inv =
    sum_node_attempts (keep (has_node node_id) inv.node_executions)

-- The part of one execution in `sum_node_runtime_ms`; `-` stops at 0, as `max(0, ...)` does.
runtime_ms : NodeExecution → ℕ
unfolding duration_ms
runtime_ms execution =
    if eqb (duration_ms execution.resource_usage) 0
    then span execution.started_at_ms execution.ended_at_ms
    else duration_ms execution.resource_usage
  where
    span : Option ℕ → Option ℕ → ℕ
    span (some started) (some ended) = ended - started
    span _ _ = 0

sum_runtime : List NodeExecution → ℕ
unfolding runtime_ms
sum_runtime [] = 0
sum_runtime (execution ∷ rest) = runtime_ms execution + sum_runtime rest

unfoldable pub sum_node_runtime_ms : Text → Invocation → ℕ
unfolding sum_runtime
sum_node_runtime_ms node_id inv = sum_runtime (keep (has_node node_id) inv.node_executions)

-- An execution is an object of the list: a change shows at its place, which `id` finds.
abbrev pub update_first :
    ℕ → (NodeExecution → NodeExecution) → List NodeExecution → List NodeExecution
update_first execution_id f [] = []
update_first execution_id f (x ∷ xs) =
    if has_id execution_id x then f x ∷ xs else x ∷ update_first execution_id f xs

abbrev pub update_execution : ℕ → (NodeExecution → NodeExecution) → Invocation → Invocation
update_execution execution_id f inv = record inv {
  node_executions = update_first execution_id f inv.node_executions;
}

unfoldable pub require_node_execution : ℕ → Exec Invocation NodeExecution
require_node_execution execution_id inv =
    (from_option unknown_execution (get_node_execution execution_id inv), inv)

abbrev transition_of : NodeExecution → NodeExecutionTransition
transition_of execution = record {
  node_execution_id = execution.id;
  node_id = execution.node_id;
  state = execution.state;
}

-- `self.scheduler.enqueue_transition(...)`, then `self.updated_at_ms = now`
abbrev publish : ℕ → NodeExecution → Invocation → Invocation
publish now execution inv = record inv {
  scheduler = enqueue_transition (transition_of execution) inv.scheduler;
  updated_at_ms = now;
}

unfoldable pub mark_node_running : ℕ → ℕ → Value → Exec Invocation Unit
unfolding require_node_execution mark_running set_running
mark_node_running now execution_id input = do
  require_node_execution execution_id
  modify (update_execution execution_id (mark_running now input))
  modify (set_running now)

unfoldable pub mark_node_completed : ℕ → ℕ → Value → Exec Invocation Unit
unfolding require_node_execution mark_completed enqueue_transition Output.add
mark_node_completed now execution_id output = do
  execution ← require_node_execution execution_id
  let done = mark_completed now output execution
  modify (update_execution execution_id (mark_completed now output))
  modify (λ inv. record inv { output_index = Output.add done inv.output_index })
  modify (publish now done)

unfoldable pub mark_node_failed : ℕ → ℕ → RuntimeErrorInfo → Exec Invocation Unit
unfolding require_node_execution mark_failed enqueue_transition
mark_node_failed now execution_id error = do
  execution ← require_node_execution execution_id
  modify (update_execution execution_id (mark_failed now error))
  modify (publish now (mark_failed now error execution))

-- An action on the cursor, as an action on its invocation.
abbrev pub on_cursor : {A : Type 0} → Exec SchedulerContext A → Exec Invocation A
on_cursor m inv = let (r, cursor) = m inv.scheduler in (r, record inv { scheduler = cursor })

unfoldable pub mark_node_waiting :
    ℕ → ℕ → Text → Option Text → Fields → Option Text → Value → Exec Invocation Unit
unfolding require_node_execution mark_waiting enqueue_transition add_waiting_execution
mark_node_waiting now execution_id wait_key wait_type payload reason pending_output = do
  execution ← require_node_execution execution_id
  let pause = λ (x : NodeExecution). mark_waiting now reason (record x { output = pending_output })
  modify (update_execution execution_id pause)
  on_cursor (
      add_waiting_execution (record {
        wait_key = wait_key;
        node_execution_id = execution.id;
        node_id = execution.node_id;
        wait_type = wait_type;
        payload = payload;
      }))
  modify (publish now (pause execution))

abbrev pub is_empty {ℓ} : {A : Type ℓ} → List A → Bool
is_empty [] = true
is_empty (x ∷ xs) = false

unfoldable pub resume_waiting_node : ℕ → Text → Value → Exec Invocation Unit
unfolding require_node_execution mark_completed enqueue_transition remove_waiting_execution
    set_running
resume_waiting_node now wait_key output = do
  entry ← on_cursor (remove_waiting_execution wait_key)
  execution ← require_node_execution entry.node_execution_id
  modify (update_execution entry.node_execution_id (mark_completed now output))
  modify (λ inv. record inv {
    scheduler =
        enqueue_transition (transition_of (mark_completed now output execution)) inv.scheduler;
  })
  modify (λ inv. if is_empty inv.scheduler.waiting_executions then set_running now inv else inv)

abbrev pub is_running : NodeState → Bool
is_running NodeState.running = true
is_running _ = false

abbrev pub worker_lost : RuntimeErrorInfo
worker_lost = record {
  code = text "WORKER_LOST";
  message = text "Node execution was running when runtime recovery started.";
  detail = end;
}

abbrev interrupt_if_running : ℕ → NodeExecution → NodeExecution
interrupt_if_running now execution =
    if is_running execution.state
    then mark_interrupted now (some worker_lost) execution
    else execution

-- The list of the interrupted executions, and the invocation after.
unfoldable pub recover_interrupted_executions : ℕ → Invocation → List NodeExecution × Invocation
unfolding mark_interrupted
recover_interrupted_executions now inv =
    let interrupted =
      map (interrupt_if_running now) (keep (λ x. is_running x.state) inv.node_executions) in
    let inv' = record inv {
      node_executions = map (interrupt_if_running now) inv.node_executions;
    } in
    (
      interrupted,
      if is_empty interrupted
          then inv'
          else record inv' { state = InvocationState.interrupted; updated_at_ms = now },
    )

-- `execution.state in {"created", "ready", "running", "waiting"}`
abbrev pub is_active : NodeState → Bool
is_active NodeState.created = true
is_active NodeState.ready = true
is_active NodeState.running = true
is_active NodeState.waiting = true
is_active _ = false

abbrev clear_queues : SchedulerContext → SchedulerContext
clear_queues cursor = record cursor {
  ready_queue = [];
  waiting_executions = [];
  transition_queue = [];
}

abbrev pub finish_if_active : (NodeExecution → NodeExecution) → NodeExecution → NodeExecution
finish_if_active f execution = if is_active execution.state then f execution else execution

unfoldable pub cancel_active_node_executions : ℕ → RuntimeErrorInfo → Invocation → Invocation
unfolding mark_cancelled
cancel_active_node_executions now reason inv = record inv {
  node_executions = map (finish_if_active (mark_cancelled now (some reason))) inv.node_executions;
  scheduler = clear_queues inv.scheduler;
  updated_at_ms = now;
}

unfoldable pub interrupt_active_node_executions : ℕ → RuntimeErrorInfo → Invocation → Invocation
unfolding mark_interrupted
interrupt_active_node_executions now reason inv = record inv {
  node_executions = map (finish_if_active (mark_interrupted now (some reason))) inv.node_executions;
  scheduler = clear_queues inv.scheduler;
  updated_at_ms = now;
}
