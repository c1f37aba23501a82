-- ===== src/Scheduler.antt =====
-- autoagent/core/scheduler/scheduler.py: `Scheduler.next`, `initialize` and `skip_ready_request`, with the
-- handlers that they call. `Env` holds what comes from outside: the clock, `uuid4`, the order in which
-- Python iterates over a set, the user's condition hooks, and the argument `on_edge_evaluated` of `next`,
-- for which the executor gives `Events.record_edge_event`.
-- `steps` and `depth` are the fuel of the loops of Scheduler/Advance.
pub mod Scopes
pub mod Decision
pub mod Advance
pub mod Moves
pub mod History
pub mod Fresh
pub mod Frame
pub mod Samples
use auto_agent.Shared.{
  ℕ, zero, suc, Bool, true, false, ◌&&◌, Option, none, some, List, [], ◌∷◌, ◌++◌, if◌then◌else◌,
  or_else,
}
use auto_agent.Shared.Keys.{Text, text, decimal, ◌==◌, text_eq}
use auto_agent.Shared.Exec.{
  Result, ok, err, Exec, pure, lift, gets, modify, then_result, ◌>>=◌, ◌>>◌, for_each,
}
use auto_agent.Runtime.Value.{Value, Fields, null, chars, end, field}
use auto_agent.Runtime.Scope.{LoopIteration, ExecutionScope, node_instance_key}
use auto_agent.Runtime.Cursor.{
  EdgeActivation, ResolutionState, selected, skipped, NodeState, NodeExecutionRequest,
  NodeExecutionTransition, SchedulerContext, drain_ready, enqueue_ready,
}
use auto_agent.Runtime.Execution.{
  RuntimeErrorInfo, EdgeEvaluation, EvaluationState, NodeExecution, add_edge_evaluation,
}
use auto_agent.Runtime.Output
use auto_agent.Runtime.Output.{OutputView}
use auto_agent.Runtime.Invocation.{
  Invocation, InvocationState, RuntimeContext, set_failed, defer_terminal, get_node_execution,
  update_execution,
}
use auto_agent.Ir.{
  EdgeIr, Condition, always, expression, hook, uncallable, WorkflowIr, FailureMode, fail_fast,
  continue_active_branches, LoopRegionIr,
}
use auto_agent.Scheduler.Scopes.{Target, initial_scope, loop_instance_key, outgoing}
use auto_agent.Scheduler.Advance.{
  Boundary, is_failed, set_cursor, add_entered, request_for, schedule, enter_loops, find_edge,
  route, finalize_all, skip_node_instance, resolve_node_instances, finalize,
}

-- runtime/context.py: `ConditionContext`
pub record ConditionContext : Type 0 where
  pub invocation_input : Fields
  pub invocation_context : RuntimeContext
  pub session_context : RuntimeContext
  pub outputs : OutputView
  pub edge_id : Text
  pub source_node_id : Text
  pub target_node_id : Text
  pub source_output : Value

-- A condition hook returns a truth value or raises; both with the time that it took.
pub data HookOutcome : Type 0 where
  returned : Bool → ℕ → HookOutcome
  raised : Text → ℕ → HookOutcome

pub record Env : Type 0 where
  pub now : ℕ
  pub steps : ℕ
  pub depth : ℕ
  pub new_id : Invocation → ℕ
  pub set_order : List Boundary → List Boundary
  pub run_condition : ℕ → ConditionContext → HookOutcome
  pub on_edge_evaluated : ℕ → EdgeEvaluation → Exec Invocation Unit
  pub session_context : RuntimeContext

-- `selected` is `none` where the condition raised.
pub record EvaluatedEdge : Type 0 where
  pub selected : Option Bool
  pub reason : Option Text
  pub elapsed_ns : Option ℕ

abbrev outcome_of : HookOutcome → EvaluatedEdge
outcome_of (returned b elapsed) = record {
  selected = some b;
  reason = none;
  elapsed_ns = some elapsed;
}
outcome_of (raised why elapsed) = record {
  selected = none;
  reason = some why;
  elapsed_ns = some elapsed;
}

-- a string or `None`, as a value
abbrev optional_text : Option Text → Value
optional_text none = null
optional_text (some reason) = chars reason

-- `local_name or name`
abbrev or_text : Option Text → Text → Text
or_text none name = name
or_text (some []) name = name
or_text (some (c ∷ rest)) name = c ∷ rest

module _ (env : Env) (ir : WorkflowIr) where
  abbrev pub nested : LoopRegionIr → ExecutionScope → Exec Invocation Unit
  nested = finalize env.now ir env.set_order env.steps env.depth

  condition_context : EdgeIr → Value → Invocation → ConditionContext
  condition_context edge source_output inv = record {
    invocation_input = inv.input;
    invocation_context = inv.context;
    session_context = env.session_context;
    outputs = Output.scoped edge.scope_node_ids (Output.view inv.output_index);
    edge_id = or_text edge.local_id edge.id;
    source_node_id = or_text edge.local_from_node edge.from_node;
    target_node_id = or_text edge.local_to_node edge.to_node;
    source_output = source_output;
  }

  -- _evaluate_edge, of the condition of the edge
  unfoldable pub evaluate_condition : Condition → EdgeIr → Value → Invocation → EvaluatedEdge
  unfolding condition_context
  evaluate_condition always edge source_output inv = record {
    selected = some true;
    reason = none;
    elapsed_ns = none;
  }
  evaluate_condition (expression e) edge source_output inv = record {
    selected = some false;
    reason = some (text "String edge conditions are not supported at runtime yet.");
    elapsed_ns = none;
  }
  evaluate_condition uncallable edge source_output inv = record {
    selected = some false;
    reason = some (text "Edge condition is not callable.");
    elapsed_ns = none;
  }
  evaluate_condition (hook h) edge source_output inv =
      outcome_of (env.run_condition h (condition_context edge source_output inv))

  unfoldable pub evaluate_edge : EdgeIr → Value → Invocation → EvaluatedEdge
  unfolding evaluate_condition
  evaluate_edge edge = evaluate_condition edge.condition edge

  abbrev pub evaluation_for :
      EdgeIr → EvaluationState → Bool → Option Text → Option ℕ → Invocation → EdgeEvaluation
  evaluation_for edge state chosen reason elapsed_ns inv = record {
    id = env.new_id inv;
    edge_id = edge.id;
    target_node_id = edge.to_node;
    state = state;
    selected = chosen;
    reason = reason;
    elapsed_ns = elapsed_ns;
    created_at_ms = env.now;
    updated_at_ms = env.now;
    started_at_monotonic_ns = 0;
  }

  -- `execution.add_edge_evaluation(...)`: the evaluation that it returns
  unfoldable pub evaluate_into :
      ℕ → EdgeIr → EvaluationState → Bool → Option Text → Option ℕ → Exec Invocation EdgeEvaluation
  evaluate_into execution_id edge state chosen reason elapsed_ns = do
    evaluation ← gets (evaluation_for edge state chosen reason elapsed_ns)
    modify (update_execution execution_id (add_edge_evaluation evaluation))
    pure evaluation

  abbrev pub resolution_state : Bool → ResolutionState
  resolution_state true = selected
  resolution_state false = skipped

  abbrev pub evaluation_state : Bool → EvaluationState
  evaluation_state true = EvaluationState.selected
  evaluation_state false = EvaluationState.skipped

  abbrev pub activation_for : EdgeIr → ℕ → Bool → Option EdgeActivation
  activation_for edge execution_id true = some (record {
    edge_id = edge.id;
    source_node_id = edge.from_node;
    source_execution_id = execution_id;
  })
  activation_for edge execution_id false = none

  abbrev pub edge_condition_failed : Text → Option Text → RuntimeErrorInfo
  edge_condition_failed edge_id reason = record {
    code = text "EDGE_CONDITION_FAILED";
    message = text "Edge condition failed: " ++ edge_id;
    detail =
        field (text "edge_id") (chars edge_id) (field (text "reason") (optional_text reason) end);
  }

  -- One outgoing edge of a completed execution: `none` is the early return of a failed condition.
  unfoldable pub complete_edge :
      NodeExecution
      → EdgeIr
      → EvaluatedEdge
      → Option Bool
      → List Target × List Boundary
      → Exec Invocation (Option (List Target × List Boundary))
  complete_edge source edge found none acc = do
    evaluation ←
        evaluate_into source.id edge EvaluationState.failed false found.reason found.elapsed_ns
    env.on_edge_evaluated source.id evaluation
    modify (set_failed env.now (edge_condition_failed edge.id found.reason))
    pure none
  complete_edge source edge found (some chosen) acc = do
    evaluation ←
        evaluate_into source.id edge (evaluation_state chosen) chosen found.reason found.elapsed_ns
    acc' ←
        route env.now ir env.set_order nested edge source.execution_scope (resolution_state chosen)
          (activation_for edge source.id chosen) acc
    env.on_edge_evaluated source.id evaluation
    pure (some acc')

  unfoldable pub go_on :
      Option (List Target × List Boundary)
      → (List Target × List Boundary → Exec Invocation (Option (List Target × List Boundary)))
      → Exec Invocation (Option (List Target × List Boundary))
  go_on none rest = pure none
  go_on (some acc) rest = rest acc

  unfoldable pub complete_edges :
      NodeExecution
      → List Text
      → List Target × List Boundary
      → Exec Invocation (Option (List Target × List Boundary))
  complete_edges source [] acc = pure (some acc)
  complete_edges source (edge_id ∷ rest) acc = do
    edge ← find_edge env.now ir env.set_order nested edge_id
    found ← gets (evaluate_edge edge source.output)
    next ← complete_edge source edge found found.selected acc
    go_on next (complete_edges source rest)

  -- `self._resolve_node_instances(targets)` and the loop over the boundaries
  unfoldable pub settle_targets : List Target × List Boundary → Exec Invocation Unit
  settle_targets (targets, boundaries) = do
    resolve_node_instances env.now ir env.set_order nested env.steps targets
    finalize_all env.now ir env.set_order nested boundaries

  unfoldable pub settle_if : Option (List Target × List Boundary) → Exec Invocation Unit
  settle_if none = pure tt
  settle_if (some acc) = settle_targets acc

  abbrev pub unknown_execution_error : ℕ → RuntimeErrorInfo
  unknown_execution_error execution_id = record {
    code = text "SCHEDULER_UNKNOWN_EXECUTION";
    message = text "Transition references an unknown node execution.";
    detail = field (text "node_execution_id") (chars (decimal execution_id)) end;
  }

  -- _advance_completed, of the id of the execution and what the invocation has under it
  unfoldable pub advance_completed : ℕ → Option NodeExecution → Exec Invocation Unit
  advance_completed execution_id none =
      modify (set_failed env.now (unknown_execution_error execution_id))
  advance_completed execution_id (some source) = do
    next ← complete_edges source (outgoing ir source.node_id) ([], [])
    settle_if next

  unfoldable pub block_edges :
      NodeExecution
      → Text
      → List Text
      → List Target × List Boundary
      → Exec Invocation (List Target × List Boundary)
  block_edges source reason [] acc = pure acc
  block_edges source reason (edge_id ∷ rest) acc = do
    edge ← find_edge env.now ir env.set_order nested edge_id
    evaluate_into source.id edge EvaluationState.skipped false (some reason) none
    acc' ← route env.now ir env.set_order nested edge source.execution_scope skipped none acc
    block_edges source reason rest acc'

  -- _advance_blocked_execution
  unfoldable pub advance_blocked_execution : NodeExecution → Text → Exec Invocation Unit
  advance_blocked_execution source reason = do
    acc ← block_edges source reason (outgoing ir source.node_id) ([], [])
    settle_targets acc

  abbrev pub node_execution_failed : NodeExecutionTransition → RuntimeErrorInfo
  node_execution_failed transition = record {
    code = text "NODE_EXECUTION_FAILED";
    message = text "Node failed: " ++ transition.node_id;
    detail =
        field (text "node_id") (chars transition.node_id)
          (field (text "node_execution_id") (chars (decimal transition.node_execution_id)) end);
  }

  abbrev pub failure_of : NodeExecutionTransition → Option NodeExecution → RuntimeErrorInfo
  failure_of transition none = node_execution_failed transition
  failure_of transition (some execution) =
      or_else execution.error (node_execution_failed transition)

  unfoldable pub block_if : Option NodeExecution → Text → Exec Invocation Unit
  block_if none reason = pure tt
  block_if (some execution) reason = advance_blocked_execution execution reason

  -- a failed transition, by the failure mode of the workflow
  unfoldable pub advance_failed :
      FailureMode → NodeExecutionTransition → Option NodeExecution → Exec Invocation Unit
  advance_failed fail_fast transition found =
      modify (set_failed env.now (failure_of transition found))
  advance_failed continue_active_branches transition found = do
    defer_terminal env.now (failure_of transition found) InvocationState.failed
    block_if found (failure_of transition found).code

  unfoldable pub advance_transition : NodeState → NodeExecutionTransition → Exec Invocation Unit
  advance_transition NodeState.completed transition = do
    source ← gets (get_node_execution transition.node_execution_id)
    advance_completed transition.node_execution_id source
  advance_transition NodeState.failed transition = do
    found ← gets (get_node_execution transition.node_execution_id)
    advance_failed ir.failure_mode transition found
  advance_transition _ transition = pure tt

  -- Scheduler.next
  unfoldable pub next : List NodeExecutionTransition → Exec Invocation Unit
  next [] = pure tt
  next (transition ∷ rest) = do
    failed ← gets (λ inv. is_failed inv.state)
    if failed then pure tt else do advance_transition transition.state transition; next rest

  -- Scheduler.skip_ready_request
  unfoldable pub skip_ready_request : NodeExecutionRequest → Exec Invocation Unit
  skip_ready_request request = do
    targets ←
        skip_node_instance env.now ir env.set_order nested request.node_id request.execution_scope
    resolve_node_instances env.now ir env.set_order nested env.steps targets

  abbrev activations_of : List NodeExecutionRequest → List EdgeActivation
  activations_of [] = []
  activations_of (existing ∷ rest) = existing.activations

  -- the first writes of `initialize`: the entry request is queued again, in its loop scope
  unfoldable pub requeue_entry : Invocation → Invocation
  unfolding drain_ready schedule
  requeue_entry inv =
      let cursor = record (inv.scheduler) { entry_paths_initialized = true } in
      let (existing, drained) = drain_ready none cursor in
      record inv {
        scheduler =
            schedule inv.entry_node_id (initial_scope ir inv.entry_node_id)
              (activations_of existing) drained;
      }

  unfoldable pub skip_other_entries : Text → List Text → Exec Invocation Unit
  skip_other_entries entry_node_id entries = for_each entries λ node_id.
      (if node_id == entry_node_id
        then pure tt
        else skip_node_instance env.now ir env.set_order nested node_id (initial_scope ir node_id)
          >>= λ _. pure tt)

  -- Scheduler.initialize
  unfoldable pub initialize : Exec Invocation Unit
  initialize = do
    known ← gets (λ inv. inv.scheduler.entry_paths_initialized)
    if known then pure tt else do
      entry ← gets (λ inv. inv.entry_node_id)
      modify requeue_entry
      enter_loops (initial_scope ir entry) (initial_scope ir entry)
      skip_other_entries entry ir.entry_node_ids
