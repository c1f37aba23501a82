-- ===== src/Runtime/Samples.antt =====
-- One small invocation, with a request, a wait, an edge and an output.
use auto_agent.Shared.{
  ◌<◌, All, ◌≡◌, ◌≢◌, refl, none, some, [], ◌∷◌, ◌++◌, length, min, drop, arith,
}
use auto_agent.Shared.Keys.{Text, text, text_eq}
use auto_agent.Shared.Dict
use auto_agent.Shared.Dict.{Dict}
use auto_agent.Shared.Exec.{ok}
use auto_agent.Runtime.Value.{null, end}
use auto_agent.Runtime.Scope.{edge_occurrence_key}
use auto_agent.Runtime.Cursor.{
  EdgeActivation, EdgeResolution, selected, NodeState, NodeExecutionRequest, WaitingExecution,
  SchedulerContext, empty_cursor, drain_ready, enqueue_ready, resolve_edge, settle,
  add_waiting_execution, remove_waiting_execution,
}
use auto_agent.Runtime.Cursor.Drain.{drain_ready-fifo, drain_ready-enqueue_ready}
use auto_agent.Runtime.Cursor.Resolution.{Grows, resolve_edge-Grows, resolve_edge-stored}
use auto_agent.Runtime.Cursor.Waiting.{remove_waiting_execution-add_waiting_execution}
use auto_agent.Runtime.Execution.{NodeExecution}
use auto_agent.Runtime.Output
use auto_agent.Runtime.Output.{OutputIndex, empty_index, entry_of, entries_at}
use auto_agent.Runtime.Output.Views.{latest-view-add, latest-view-add_later}
use auto_agent.Runtime.Invocation.{
  Invocation, InvocationState, ExecutionMode, EventMode, RuntimeContext, fresh_execution,
  get_node_execution, mark_node_completed, resume_waiting_node, create_node_execution,
  cancel_active_node_executions, interrupt_active_node_executions, worker_lost,
}
use auto_agent.Runtime.Invocation.Waits.{
  Resumed, resume_waiting_node-Resumed, mark_node_completed-latest,
}
use auto_agent.Runtime.Invocation.Terminal.{
  AllEnded, NumberedFrom, cancel_active_node_executions-ends, interrupt_active_node_executions-ends,
  create_node_execution-NumberedFrom,
}

abbrev request_at : Text → NodeExecutionRequest
request_at node_id = record {
  node_id = node_id;
  activations = [];
  execution_scope = [];
  idempotency_key = none;
  recovery_of_execution_id = none;
  recovery_attempt = 0;
}

abbrev approval : WaitingExecution
approval = record {
  wait_key = text "approval";
  node_execution_id = 7;
  node_id = text "a";
  wait_type = none;
  payload = end;
}

abbrev taken : EdgeActivation
taken = record { edge_id = text "ab"; source_node_id = text "a"; source_execution_id = 7 }

abbrev resolved : EdgeResolution
resolved = record { edge_id = text "ab"; state = selected; activation = some taken; scope = [] }

abbrev two_ready : SchedulerContext
two_ready = record empty_cursor { ready_queue = request_at (text "a") ∷ request_at (text "b") ∷ [] }

-- execution 7 is the first, execution 8 the second
abbrev first_run : NodeExecution
first_run = fresh_execution 5 7 1 null (request_at (text "a"))

abbrev second_run : NodeExecution
second_run = fresh_execution 5 8 2 null (request_at (text "b"))

abbrev second_indexed : OutputIndex
second_indexed = record {
  timeline = entry_of second_run ∷ [];
  by_node_id = (text "b", entry_of second_run ∷ []) ∷ [];
}

abbrev no_context : RuntimeContext
no_context = record { user_data = end; metadata = end; revision = 0; path_revisions = [] }

abbrev paused : Invocation
paused = record {
  id = 1;
  workflow_id = text "w";
  workflow_revision_id = text "r";
  workflow_version = none;
  workflow_definition_hash = none;
  entry_node_id = text "a";
  state = InvocationState.waiting;
  input = end;
  context = no_context;
  result = none;
  scheduler = record two_ready { waiting_executions = (text "approval", approval) ∷ [] };
  node_executions = first_run ∷ [];
  output_index = empty_index;
  execution_mode = ExecutionMode.normal;
  event_mode = EventMode.standard;
  event_sequence = 0;
  error = none;
  deferred_error = none;
  deferred_terminal_state = none;
  created_at_ms = 0;
  updated_at_ms = 0;
}

resolve_edge-Grows_example :
    (d' : Dict Text EdgeResolution) × ((resolve_edge
        (text "ab")
        selected
        (some taken)
        []
        two_ready).1
      ≡ record two_ready { edge_resolutions = d' })
    × Grows two_ready.edge_resolutions d'
resolve_edge-Grows_example = resolve_edge-Grows (text "ab") selected (some taken) [] two_ready

resolve_edge-returns : (resolve_edge (text "ab") selected (some taken) [] two_ready).0 ≡ ok resolved
unfolding resolve_edge settle Dict.get
resolve_edge-returns = refl

resolve_edge-stored_example :
    (Dict.get
        (edge_occurrence_key (text "ab") [])
        (resolve_edge (text "ab") selected (some taken) [] two_ready).1.edge_resolutions
      ≡ some resolved)
    × (resolved.state ≡ selected)
    × (resolved.activation ≡ some taken)
resolve_edge-stored_example =
    resolve_edge-stored (text "ab") selected (some taken) [] two_ready resolved resolve_edge-returns

drain_ready-fifo_example :
    ((drain_ready (some 1) two_ready).0 ++ (drain_ready (some 1) two_ready).1.ready_queue
      ≡ two_ready.ready_queue)
    × (length (drain_ready (some 1) two_ready).0 ≡ min 1 (length two_ready.ready_queue))
    × ((drain_ready (some 1) two_ready).1
        ≡ record two_ready { ready_queue = drop 1 two_ready.ready_queue })
drain_ready-fifo_example = drain_ready-fifo 1 two_ready

drain_ready-enqueue_ready_example :
    drain_ready none (enqueue_ready (request_at (text "c")) two_ready)
    ≡ (two_ready.ready_queue ++ request_at (text "c") ∷ [], record two_ready { ready_queue = [] })
drain_ready-enqueue_ready_example = drain_ready-enqueue_ready two_ready (request_at (text "c"))

approval_is_free : Dict.get (text "approval") two_ready.waiting_executions ≡ none
unfolding Dict.get
approval_is_free = refl

remove_waiting_execution-add_waiting_execution_example :
    ((add_waiting_execution approval two_ready).0 ≡ ok approval)
    × ((remove_waiting_execution (text "approval") (add_waiting_execution approval two_ready).1).0
        ≡ ok approval)
    × ((j : Text)
        → Dict.get j
            (remove_waiting_execution
              (text "approval")
              (add_waiting_execution approval two_ready).1).1.waiting_executions
          ≡ Dict.get j two_ready.waiting_executions)
remove_waiting_execution-add_waiting_execution_example =
    remove_waiting_execution-add_waiting_execution approval two_ready approval_is_free

latest-view-add_example :
    Output.latest (Output.view (Output.add first_run second_indexed)) (text "a") ≡ some null
latest-view-add_example = latest-view-add first_run second_indexed

a-ne-b : text "a" ≢ text "b"
a-ne-b e = ground arith

only_later :
    All (λ entry. first_run.sequence < entry.sequence) (entries_at (text "b") second_indexed)
unfolding Dict.get
only_later = (ground arith, tt)

latest-view-add_later_example :
    Output.latest (Output.view (Output.add first_run second_indexed)) (text "b") ≡ none
latest-view-add_later_example =
    latest-view-add_later first_run second_indexed (text "b") a-ne-b only_later

first_is_known : get_node_execution 7 paused ≡ some first_run
unfolding get_node_execution
first_is_known = refl

approval_is_stored : Dict.get (text "approval") paused.scheduler.waiting_executions ≡ some approval
unfolding Dict.get
approval_is_stored = refl

resume_waiting_node-Resumed_example :
    ((resume_waiting_node 9 (text "approval") null paused).0 ≡ ok tt)
    × Resumed 9
        (text "approval")
        null
        approval
        first_run
        paused
        (resume_waiting_node 9 (text "approval") null paused).1
resume_waiting_node-Resumed_example =
    resume_waiting_node-Resumed 9 (text "approval") null paused approval first_run
      approval_is_stored first_is_known

mark_node_completed-latest_example :
    ((mark_node_completed 9 7 null paused).0 ≡ ok tt)
    × (Output.latest (Output.view (mark_node_completed 9 7 null paused).1.output_index) (text "a")
        ≡ some null)
mark_node_completed-latest_example =
    mark_node_completed-latest 9 7 null paused first_run first_is_known

cancel_active_node_executions-ends_example :
    AllEnded NodeState.cancelled paused.node_executions
      (cancel_active_node_executions 9 worker_lost paused).node_executions
    × ((cancel_active_node_executions 9 worker_lost paused).scheduler.ready_queue ≡ [])
    × ((cancel_active_node_executions 9 worker_lost paused).scheduler.waiting_executions ≡ [])
    × ((cancel_active_node_executions 9 worker_lost paused).scheduler.transition_queue ≡ [])
cancel_active_node_executions-ends_example = cancel_active_node_executions-ends 9 worker_lost paused

interrupt_active_node_executions-ends_example :
    AllEnded NodeState.interrupted paused.node_executions
      (interrupt_active_node_executions 9 worker_lost paused).node_executions
    × ((interrupt_active_node_executions 9 worker_lost paused).scheduler.ready_queue ≡ [])
    × ((interrupt_active_node_executions 9 worker_lost paused).scheduler.waiting_executions ≡ [])
    × ((interrupt_active_node_executions 9 worker_lost paused).scheduler.transition_queue ≡ [])
interrupt_active_node_executions-ends_example =
    interrupt_active_node_executions-ends 9 worker_lost paused

create_node_execution-NumberedFrom_example :
    NumberedFrom 1 (create_node_execution 9 8 null (request_at (text "b")) paused).1.node_executions
    × ((create_node_execution 9 8 null (request_at (text "b")) paused).1.node_executions
        ≡ paused.node_executions
          ++ (create_node_execution 9 8 null (request_at (text "b")) paused).0 ∷ [])
    × ((create_node_execution 9 8 null (request_at (text "b")) paused).0.state ≡ NodeState.ready)
create_node_execution-NumberedFrom_example =
    create_node_execution-NumberedFrom 9 8 null (request_at (text "b")) paused (refl, tt)
