-- ===== src/Scheduler/Moves.antt =====
-- The handlers of `Scheduler.next` and `skip_ready_request` change the invocation by the writes of
-- Scheduler/Advance, by edge evaluations, by the deferred error, and by what the listener does.
use auto_agent.Shared.{ℕ, Bool, Option, none, some, List, [], ◌∷◌}
use auto_agent.Shared.Keys.{Text, ◌==◌, text_eq}
use auto_agent.Shared.Exec.{Exec}
use auto_agent.Shared.Moves.{
  Moves, Moves-pure, Moves-lift, Moves-gets, Moves-bind, Moves-if, Moves-for_each,
}
use auto_agent.Runtime.Cursor.{skipped, NodeState, NodeExecutionRequest, NodeExecutionTransition}
use auto_agent.Runtime.Execution.{
  RuntimeErrorInfo, EdgeEvaluation, EvaluationState, NodeExecution, add_edge_evaluation,
}
use auto_agent.Runtime.Invocation.{Invocation, InvocationState, defer_terminal, update_execution}
use auto_agent.Ir.{EdgeIr, WorkflowIr, FailureMode, fail_fast, continue_active_branches}
use auto_agent.Scheduler.Scopes.{Target, outgoing, initial_scope}
use auto_agent.Scheduler.Advance.{Boundary, find_edge}
use auto_agent.Scheduler.Advance.Moves.{
  Writes, route-Moves, finalize_all-Moves, skip_node_instance-Moves, resolve_node_instances-Moves,
  finalize-Moves, enter_loops-Moves,
}
use auto_agent.Scheduler.{
  Env, EvaluatedEdge, nested, evaluate_into, complete_edge, go_on, complete_edges, settle_targets,
  settle_if, advance_completed, block_edges, advance_blocked_execution, block_if, advance_failed,
  advance_transition, next, skip_ready_request, requeue_entry, skip_other_entries, initialize,
}

pub record HandlerWrites (env : Env) (ir : WorkflowIr) (R : Invocation → Invocation → Type 0)
    : Type 0 where
  pub advances : Writes env.now ir R
  pub evaluates :
      (execution_id : ℕ) (evaluation : EdgeEvaluation) (s : Invocation)
      → R s (update_execution execution_id (add_edge_evaluation evaluation) s)
  pub defers :
      (e : RuntimeErrorInfo) (state : InvocationState) (s : Invocation)
      → R s (defer_terminal env.now e state s).1
  pub listens :
      (execution_id : ℕ) (evaluation : EdgeEvaluation)
      → Moves R (env.on_edge_evaluated execution_id evaluation)

module _ {env : Env} {ir : WorkflowIr} {R : Invocation → Invocation → Type 0}
    (w : HandlerWrites env ir R) where
  open w use {advances, advances.{preorder}}

  evaluate_into-Moves :
      (execution_id : ℕ) (edge : EdgeIr) (state : EvaluationState) (chosen : Bool)
      (reason : Option Text) (elapsed_ns : Option ℕ)
      → Moves R (evaluate_into env ir execution_id edge state chosen reason elapsed_ns)
  unfolding evaluate_into
  evaluate_into-Moves execution_id edge state chosen reason elapsed_ns =
      Moves-bind preorder (Moves-gets preorder _) λ evaluation.
        Moves-bind preorder (record { at = w.evaluates execution_id evaluation })
          λ _. Moves-pure preorder evaluation

  complete_edge-Moves :
      (source : NodeExecution) (edge : EdgeIr) (found : EvaluatedEdge) (chosen : Option Bool)
      (acc : List Target × List Boundary)
      → Moves R (complete_edge env ir source edge found chosen acc)
  unfolding complete_edge
  complete_edge-Moves source edge found none acc =
      Moves-bind preorder (evaluate_into-Moves _ edge _ _ _ _) λ evaluation.
        Moves-bind preorder (w.listens source.id evaluation)
          λ _. Moves-bind preorder (record { at = advances.fails _ }) λ _. Moves-pure preorder none
  complete_edge-Moves source edge found (some chosen) acc =
      Moves-bind preorder (evaluate_into-Moves _ edge _ _ _ _) λ evaluation.
        Moves-bind preorder
          (route-Moves advances env.set_order (nested env ir)
            (finalize-Moves advances env.set_order env.steps env.depth) edge _ _ _ acc)
          λ acc'.
            Moves-bind preorder (w.listens source.id evaluation)
              λ _. Moves-pure preorder (some acc')

  go_on-Moves :
      (found : Option (List Target × List Boundary))
      (rest : List Target × List Boundary → Exec Invocation (Option (List Target × List Boundary)))
      → ((acc : List Target × List Boundary) → Moves R (rest acc))
      → Moves R (go_on env ir found rest)
  unfolding go_on
  go_on-Moves none rest k = Moves-pure preorder none
  go_on-Moves (some acc) rest k = k acc

  complete_edges-Moves :
      (source : NodeExecution) (edge_ids : List Text) (acc : List Target × List Boundary)
      → Moves R (complete_edges env ir source edge_ids acc)
  unfolding complete_edges find_edge
  complete_edges-Moves source [] acc = Moves-pure preorder (some acc)
  complete_edges-Moves source (edge_id ∷ rest) acc =
      Moves-bind preorder (Moves-lift preorder _) λ edge.
        Moves-bind preorder (Moves-gets preorder _) λ found.
          Moves-bind preorder (complete_edge-Moves source edge found found.selected acc) λ step.
            go_on-Moves step (complete_edges env ir source rest) (complete_edges-Moves source rest)

  settle_targets-Moves : (acc : List Target × List Boundary) → Moves R (settle_targets env ir acc)
  unfolding settle_targets
  settle_targets-Moves (targets, boundaries) =
      Moves-bind preorder
        (resolve_node_instances-Moves advances env.set_order (nested env ir)
          (finalize-Moves advances env.set_order env.steps env.depth) env.steps targets)
        λ _.
          finalize_all-Moves advances env.set_order (nested env ir)
            (finalize-Moves advances env.set_order env.steps env.depth) boundaries

  settle_if-Moves :
      (found : Option (List Target × List Boundary)) → Moves R (settle_if env ir found)
  unfolding settle_if
  settle_if-Moves none = Moves-pure preorder tt
  settle_if-Moves (some acc) = settle_targets-Moves acc

  pub advance_completed-Moves :
      (execution_id : ℕ) (found : Option NodeExecution)
      → Moves R (advance_completed env ir execution_id found)
  unfolding advance_completed
  advance_completed-Moves execution_id none = record { at = advances.fails _ }
  advance_completed-Moves execution_id (some source) =
      Moves-bind preorder (complete_edges-Moves source (outgoing ir source.node_id) ([], []))
        settle_if-Moves

  block_edges-Moves :
      (source : NodeExecution) (reason : Text) (edge_ids : List Text)
      (acc : List Target × List Boundary)
      → Moves R (block_edges env ir source reason edge_ids acc)
  unfolding block_edges find_edge
  block_edges-Moves source reason [] acc = Moves-pure preorder acc
  block_edges-Moves source reason (edge_id ∷ rest) acc =
      Moves-bind preorder (Moves-lift preorder _) λ edge.
        Moves-bind preorder (evaluate_into-Moves _ edge _ _ _ _) λ _.
          Moves-bind preorder
            (route-Moves advances env.set_order (nested env ir)
              (finalize-Moves advances env.set_order env.steps env.depth) edge _ skipped none acc)
            λ acc'. block_edges-Moves source reason rest acc'

  block_if-Moves :
      (found : Option NodeExecution) (reason : Text) → Moves R (block_if env ir found reason)
  unfolding block_if advance_blocked_execution
  block_if-Moves none reason = Moves-pure preorder tt
  block_if-Moves (some execution) reason =
      Moves-bind preorder (block_edges-Moves execution reason _ ([], [])) settle_targets-Moves

  advance_failed-Moves :
      (mode : FailureMode) (transition : NodeExecutionTransition) (found : Option NodeExecution)
      → Moves R (advance_failed env ir mode transition found)
  unfolding advance_failed
  advance_failed-Moves fail_fast transition found = record { at = advances.fails _ }
  advance_failed-Moves continue_active_branches transition found =
      Moves-bind preorder (record { at = w.defers _ InvocationState.failed })
        λ _. block_if-Moves found _

  advance_transition-Moves :
      (state : NodeState) (transition : NodeExecutionTransition)
      → Moves R (advance_transition env ir state transition)
  unfolding advance_transition
  advance_transition-Moves NodeState.completed transition =
      Moves-bind preorder (Moves-gets preorder _)
        (advance_completed-Moves transition.node_execution_id)
  advance_transition-Moves NodeState.failed transition =
      Moves-bind preorder (Moves-gets preorder _) (advance_failed-Moves ir.failure_mode transition)
  advance_transition-Moves _ transition = Moves-pure preorder tt

  pub next-Moves : (transitions : List NodeExecutionTransition) → Moves R (next env ir transitions)
  unfolding next
  next-Moves [] = Moves-pure preorder tt
  next-Moves (transition ∷ rest) = Moves-bind preorder (Moves-gets preorder _) λ failed.
      Moves-if preorder failed (Moves-pure preorder tt) (
        Moves-bind preorder (advance_transition-Moves transition.state transition)
          λ _. next-Moves rest)

  pub skip_ready_request-Moves :
      (request : NodeExecutionRequest) → Moves R (skip_ready_request env ir request)
  unfolding skip_ready_request
  skip_ready_request-Moves request =
      Moves-bind preorder
        (skip_node_instance-Moves advances env.set_order (nested env ir)
          (finalize-Moves advances env.set_order env.steps env.depth) request.node_id
          request.execution_scope)
        λ targets.
          resolve_node_instances-Moves advances env.set_order (nested env ir)
            (finalize-Moves advances env.set_order env.steps env.depth) env.steps targets

module _ (env : Env) {ir : WorkflowIr} {R : Invocation → Invocation → Type 0}
    (advances : Writes env.now ir R) where
  open advances use {preorder}

  skip_other_entries-Moves :
      (entry_node_id : Text) (entries : List Text)
      → Moves R (skip_other_entries env ir entry_node_id entries)
  unfolding skip_other_entries
  skip_other_entries-Moves entry_node_id entries = Moves-for_each preorder entries _ λ node_id.
      Moves-if preorder (node_id == entry_node_id) (Moves-pure preorder tt) (
        Moves-bind preorder
          (skip_node_instance-Moves advances env.set_order (nested env ir)
            (finalize-Moves advances env.set_order env.steps env.depth) node_id
            (initial_scope ir node_id))
          λ _. Moves-pure preorder tt)

  -- `initialize` queues the entry again, and otherwise writes as the handlers do.
  pub initialize-Moves :
      ((s : Invocation) → R s (requeue_entry env ir s)) → Moves R (initialize env ir)
  unfolding initialize
  initialize-Moves requeues = Moves-bind preorder (Moves-gets preorder _) λ known.
      Moves-if preorder known (Moves-pure preorder tt) (
        Moves-bind preorder (Moves-gets preorder _) λ entry.
          Moves-bind preorder (record { at = requeues })
            λ _.
              Moves-bind preorder (enter_loops-Moves advances _ _)
                λ _. skip_other_entries-Moves entry ir.entry_node_ids)
