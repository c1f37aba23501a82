-- ===== src/Scheduler/Samples.antt =====
-- Small workflows, and what the scheduler does on them.
use auto_agent.Shared.{ℕ, ◌+◌, ◌≡◌, refl, none, List, [], ◌∷◌, map}
use auto_agent.Shared.Keys.{Text, text, ◌==◌, nat_eq}
use auto_agent.Shared.Dict
use auto_agent.Shared.Exec.{Result, ok, ◌>>=◌, for_each}
use auto_agent.Runtime.Value.{null, end}
use auto_agent.Runtime.Cursor.{
  NodeState, NodeExecutionRequest, NodeExecutionTransition, empty_cursor, drain_ready,
  drain_transitions, resolve_edge, settle,
}
use auto_agent.Runtime.Output.{empty_index}
use auto_agent.Runtime.Invocation.{
  Invocation, InvocationState, ExecutionMode, EventMode, RuntimeContext, initialize_entry,
  create_node_execution, mark_node_running, mark_node_completed, get_node_execution,
  require_node_execution, next_event_sequence,
}
use auto_agent.Ir.{EdgeIr, Condition, always, WorkflowIr, fail_fast}
use auto_agent.Runtime.Scope.{ExecutionScope, node_instance_key, edge_occurrence_key}
use auto_agent.Scheduler.Scopes.{
  incoming_edges_for_instance, target_scope, loop_stack, header_region, find_header, initial_scope,
  boundary_owner, frame_of, ordered_targets, loop_instance_key,
}
use auto_agent.Scheduler.Scopes.Stacks.{regions_of, target_scope-regions, target_scope_self}
use auto_agent.Scheduler.Decision.{decide, decide_edges, skip_kind}
use auto_agent.Events.{
  record_edge_event, record_event, event_identity, starts_with, is_silent, take_sequence,
}
use auto_agent.Events.Listening.{record_edge_event-Moves}
use auto_agent.Scheduler.History.{
  Recorded, Recorded-refl, next-Recorded, skip_ready_request-Recorded,
}
use auto_agent.Scheduler.Fresh.{Appends, Appends-refl, next-Appends, skip_ready_request-Appends}
use auto_agent.Scheduler.Frame.{heard_by, next-LeavesAlone, initialize-LeavesAlone}
use auto_agent.Scheduler.Frame.Relation.{LeavesAlone, SameEvents, RisingEvents}
use auto_agent.Scheduler.Advance.{
  skip_node_instance, skip_edges, find_edge, route, route_to, finalize_all, resolve_node_instances,
  resolve_loop, visit, perform, act, schedule, request_for,
}
use auto_agent.Scheduler.{
  Env, returned, initialize, next, skip_ready_request, requeue_entry, skip_other_entries,
  advance_transition, advance_completed, complete_edges, complete_edge, evaluate_edge,
  evaluate_condition, evaluate_into, go_on, settle_if, settle_targets,
}

abbrev no_context : RuntimeContext
no_context = record { user_data = end; metadata = end; revision = 0; path_revisions = [] }

-- a store that takes every event
abbrev takes_all : Invocation → ℕ → Result (Unit {0})
takes_all inv sequence = ok tt

-- Hook 1 says yes, every other hook no; the listener is the program's own.
abbrev pub quiet : Env
quiet = record {
  now = 5;
  steps = 20;
  depth = 5;
  new_id = λ inv. 100;
  set_order = λ l. l;
  run_condition = λ h c. returned (h == 1) 3;
  on_edge_evaluated = record_edge_event takes_all;
  session_context = no_context;
}

abbrev edge : Text → Text → Text → Condition → EdgeIr
edge id source target condition = record {
  id = id;
  local_id = none;
  local_from_node = none;
  local_to_node = none;
  scope_node_ids = [];
  from_node = source;
  to_node = target;
  condition = condition;
  order = 0;
}

-- Entries `a` and `b`, with a → j, b → x and x → j.
abbrev pub two_entries : WorkflowIr
two_entries = record {
  nodes = text "a" ∷ text "b" ∷ text "x" ∷ text "j" ∷ [];
  edges =
      (text "aj", edge (text "aj") (text "a") (text "j") always)
      ∷ (text "bx", edge (text "bx") (text "b") (text "x") always)
      ∷ (text "xj", edge (text "xj") (text "x") (text "j") always)
      ∷ [];
  graph = record {
    outgoing_edges =
        (text "a", text "aj" ∷ [])
        ∷ (text "b", text "bx" ∷ [])
        ∷ (text "x", text "xj" ∷ [])
        ∷ (text "j", [])
        ∷ [];
    incoming_edges =
        (text "a", [])
        ∷ (text "b", [])
        ∷ (text "x", text "bx" ∷ [])
        ∷ (text "j", text "aj" ∷ text "xj" ∷ [])
        ∷ [];
    predecessors = [];
    successors = [];
    loop_regions = [];
    node_loop_stacks = [];
  };
  entry_node_ids = text "a" ∷ text "b" ∷ [];
  exit_node_ids = text "j" ∷ [];
  failure_mode = fail_fast;
}

abbrev blank : Text → Invocation
blank entry = record {
  id = 1;
  workflow_id = text "w";
  workflow_revision_id = text "r";
  workflow_version = none;
  workflow_definition_hash = none;
  entry_node_id = entry;
  state = InvocationState.created;
  input = end;
  context = no_context;
  result = none;
  scheduler = empty_cursor;
  node_executions = [];
  output_index = empty_index;
  execution_mode = ExecutionMode.normal;
  event_mode = EventMode.standard;
  event_sequence = 0;
  error = none;
  deferred_error = none;
  deferred_terminal_state = none;
  created_at_ms = 0;
  updated_at_ms = 0;
}

ready_nodes : Invocation → List Text
ready_nodes inv = map (λ r. r.node_id) inv.scheduler.ready_queue

start : WorkflowIr → Text → Invocation
unfolding initialize_entry initialize
start ir entry = (initialize quiet ir (initialize_entry (blank entry))).1

-- The executor's part of one round: every ready request becomes an execution, with ids from `id` on,
-- which completes with no output.
run_all : ℕ → List NodeExecutionRequest → Invocation → Invocation
unfolding create_node_execution mark_node_running mark_node_completed ◌>>=◌
run_all id [] inv = inv
run_all id (request ∷ rest) inv =
    let (execution, inv') = create_node_execution 5 id null request inv in
    let running = (mark_node_running 5 id null inv').1 in
    run_all (id + 1) rest (mark_node_completed 5 id null running).1

-- One round: run what is ready, then advance over the transitions.
round : WorkflowIr → ℕ → Invocation → Invocation
unfolding run_all next drain_ready drain_transitions
round ir id inv =
    let (requests, cursor) = drain_ready none inv.scheduler in
    let ended = run_all id requests (record inv { scheduler = cursor }) in
    let (transitions, cursor') = drain_transitions none ended.scheduler in
    (next quiet ir transitions (record ended { scheduler = cursor' })).1

-- what the two rounds below run through
program : Unit {0}
unfolding Dict.get Dict.put Dict.remove Dict.contains Dict.add for_each ready_nodes start round
    run_all initial_scope skip_other_entries skip_node_instance requeue_entry skip_edges find_edge
    route route_to boundary_owner resolve_edge settle finalize_all get_node_execution
    require_node_execution advance_transition advance_completed complete_edges complete_edge
    evaluate_edge evaluate_condition evaluate_into go_on settle_if settle_targets
    resolve_node_instances resolve_loop visit perform act decide decide_edges skip_kind
    incoming_edges_for_instance header_region find_header frame_of ordered_targets target_scope
    schedule loop_instance_key edge_occurrence_key node_instance_key record_edge_event record_event
    event_identity starts_with is_silent take_sequence next_event_sequence
program = tt

-- Entering at `b` runs `b`, and then `x`.
round-b : ready_nodes (round two_entries 10 (start two_entries (text "b"))) ≡ text "x" ∷ []
unfolding program
round-b = refl

-- Entering at `a` skips `b` and goes no further: `x` is not skipped, so `j` waits for it for ever and
-- nothing is left to run, though `a` has completed.
round-a :
    (ready_nodes (round two_entries 10 (start two_entries (text "a"))) ≡ [])
    × ((round two_entries 10 (start two_entries (text "a"))).scheduler.skipped_node_instances
        ≡ text "b" ∷ [])
unfolding program
round-a = (refl, refl)

-- An execution of `b` that has completed.
abbrev completed_b : NodeExecutionTransition
completed_b = record { node_execution_id = 10; node_id = text "b"; state = NodeState.completed }

running_b : Invocation
unfolding start run_all
running_b =
    run_all 10 (start two_entries (text "b")).scheduler.ready_queue (start two_entries (text "b"))

next-Appends_example :
    Appends two_entries running_b.scheduler
      (next quiet two_entries (completed_b ∷ []) running_b).1.scheduler
next-Appends_example =
    next-Appends quiet two_entries
      (λ execution_id evaluation.
        record_edge_event-Moves takes_all execution_id evaluation
          (λ s. Appends-refl two_entries s.scheduler)
          (λ s heard. Appends-refl two_entries s.scheduler))
      (completed_b ∷ []) running_b

next-Recorded_example :
    Recorded running_b.scheduler (next quiet two_entries (completed_b ∷ []) running_b).1.scheduler
next-Recorded_example =
    next-Recorded quiet two_entries
      (λ execution_id evaluation.
        record_edge_event-Moves takes_all execution_id evaluation (λ s. Recorded-refl s.scheduler)
          (λ s heard. Recorded-refl s.scheduler))
      (completed_b ∷ []) running_b

skip_ready_request-Appends_example :
    Appends two_entries running_b.scheduler
      (skip_ready_request quiet two_entries (request_for (text "x") [] []) running_b).1.scheduler
skip_ready_request-Appends_example =
    skip_ready_request-Appends quiet two_entries
      (λ execution_id evaluation.
        record_edge_event-Moves takes_all execution_id evaluation
          (λ s. Appends-refl two_entries s.scheduler)
          (λ s heard. Appends-refl two_entries s.scheduler))
      (request_for (text "x") [] []) running_b

initialize-LeavesAlone_example :
    LeavesAlone SameEvents (blank (text "b")) (initialize quiet two_entries (blank (text "b"))).1
initialize-LeavesAlone_example = initialize-LeavesAlone quiet two_entries (blank (text "b"))

skip_ready_request-Recorded_example :
    Recorded running_b.scheduler
      (skip_ready_request quiet two_entries (request_for (text "x") [] []) running_b).1.scheduler
skip_ready_request-Recorded_example =
    skip_ready_request-Recorded quiet two_entries
      (λ execution_id evaluation.
        record_edge_event-Moves takes_all execution_id evaluation (λ s. Recorded-refl s.scheduler)
          (λ s heard. Recorded-refl s.scheduler))
      (request_for (text "x") [] []) running_b

next-LeavesAlone_example :
    LeavesAlone RisingEvents running_b
      (next (heard_by takes_all quiet) two_entries (completed_b ∷ []) running_b).1
next-LeavesAlone_example = next-LeavesAlone quiet two_entries takes_all (completed_b ∷ []) running_b

-- The edge from `b` is evaluated, and its event takes the number 1.
counts-b :
    (next (heard_by takes_all quiet) two_entries (completed_b ∷ []) running_b).1.event_sequence ≡ 1
unfolding program running_b
counts-b = refl

-- the frame of a loop around `j`, in its third iteration
abbrev third : ExecutionScope
third = record { loop_region_id = text "l"; iteration = 2 } ∷ []

abbrev looped : WorkflowIr
looped = record two_entries {
  graph = record (two_entries.graph) {
    node_loop_stacks = (text "x", text "l" ∷ []) ∷ (text "j", text "l" ∷ []) ∷ [];
  };
}

abbrev to_j : EdgeIr
to_j = edge (text "xj") (text "x") (text "j") always

target_scope-regions_example :
    regions_of (target_scope looped to_j []) ≡ loop_stack looped (text "j")
target_scope-regions_example = target_scope-regions looped to_j []

same_loops : loop_stack looped (text "j") ≡ regions_of third
unfolding Dict.get
same_loops = refl

target_scope_self_example : target_scope looped to_j third ≡ third
target_scope_self_example = target_scope_self looped to_j third same_loops
