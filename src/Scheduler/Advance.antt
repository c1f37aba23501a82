-- ===== src/Scheduler/Advance.antt =====
-- autoagent/core/scheduler/scheduler.py: the methods that change the cursor. They are actions on the
-- invocation. The source lets `_resolve_node_instances`, `_skip_node_instance`,
-- `_propagate_finalized_boundary_edge` and `_finalize_loop_boundary` call one another; here the nested
-- call of `_finalize_loop_boundary` is an argument, and `finalize` closes the circle on fuel.
pub mod Moves
use auto_agent.Shared.{
  ℕ, zero, suc, ◌+◌, Bool, true, false, ◌&&◌, ◌||◌, not, Option, none, some, List, [], ◌∷◌, ◌++◌,
  map, if◌then◌else◌, any_of, keep, take, init_of, reversed, first_match,
}
use auto_agent.Shared.Keys.{Text, text, ◌==◌, nat_eq, text_eq}
use auto_agent.Shared.Dict
use auto_agent.Shared.Dict.{contains}
use auto_agent.Shared.Exec.{
  Fault, Result, ok, err, Exec, pure, raise, lift, gets, asks, modify, from_option, then_result,
  unknown_edge, unknown_region, out_of_fuel, ◌>>=◌, ◌>>◌, for_each,
}
use auto_agent.Runtime.Value.{Items, nil, cons, arr, chars, end, field}
use auto_agent.Runtime.Scope.{LoopIteration, ExecutionScope, execution_scope_key, node_instance_key}
use auto_agent.Runtime.Cursor.{
  EdgeActivation, EdgeResolution, ResolutionState, selected, skipped, NodeExecutionRequest,
  SchedulerContext, enqueue_ready, resolve_edge, resolve_loop_boundary, boundary_key,
  resolution_state_beq,
}
use auto_agent.Runtime.Execution.{RuntimeErrorInfo}
use auto_agent.Runtime.Invocation.{Invocation, InvocationState, set_failed, on_cursor, is_empty}
use auto_agent.Ir.{LoopRegionIr, EdgeIr, WorkflowIr}
use auto_agent.Scheduler.Scopes.{
  Target, target_beq, find_region, frame_of, loop_scope, loop_instance_key, boundary_owner,
  target_scope, scope_for_node, ordered_targets, outgoing, owns,
}
use auto_agent.Scheduler.Decision.{
  Decision, settled, blocked, runnable, inactive_loop, inactive_node, decide,
}

-- A loop region (by its id) and the scope of one of its iterations.
abbrev pub Boundary : Type 0
Boundary = Text × ExecutionScope

-- `boundaries.add(...)`
abbrev pub add_boundary : Boundary → List Boundary → List Boundary
add_boundary b [] = b ∷ []
add_boundary b (c ∷ cs) = if target_beq b c then c ∷ cs else c ∷ add_boundary b cs

abbrev pub is_failed : InvocationState → Bool
is_failed InvocationState.failed = true
is_failed _ = false

abbrev pub set_cursor : (SchedulerContext → SchedulerContext) → Exec Invocation Unit
set_cursor f = modify (λ inv. record inv { scheduler = f inv.scheduler })

abbrev pub add_skipped : Text → SchedulerContext → SchedulerContext
add_skipped key cursor = record cursor {
  skipped_node_instances = Dict.add key cursor.skipped_node_instances;
}

abbrev pub add_exited : Text → SchedulerContext → SchedulerContext
add_exited key cursor = record cursor {
  exited_loop_instances = Dict.add key cursor.exited_loop_instances;
}

abbrev pub add_entered : Text → SchedulerContext → SchedulerContext
add_entered key cursor = record cursor {
  entered_loop_instances = Dict.add key cursor.entered_loop_instances;
}

abbrev pub request_for : Text → ExecutionScope → List EdgeActivation → NodeExecutionRequest
request_for node_id scope activations = record {
  node_id = node_id;
  activations = activations;
  execution_scope = scope;
  idempotency_key = none;
  recovery_of_execution_id = none;
  recovery_attempt = 0;
}

-- `scheduled_node_instances.add(...)` and `enqueue_ready(...)`
unfoldable pub schedule :
    Text → ExecutionScope → List EdgeActivation → SchedulerContext → SchedulerContext
unfolding enqueue_ready
schedule node_id scope activations cursor =
    enqueue_ready (request_for node_id scope activations) (record cursor {
      scheduled_node_instances =
          Dict.add (node_instance_key node_id scope) cursor.scheduled_node_instances;
    })

-- `for frame in scope: entered_loop_instances.add(...)`
abbrev pub enter_loops : ExecutionScope → ExecutionScope → Exec Invocation Unit
enter_loops scope frames = for_each frames λ frame.
    asks (λ _. loop_instance_key scope frame.loop_region_id) >>= λ key. set_cursor (add_entered key)

-- `[item.edge_id for item in items]`
abbrev pub edge_ids_of : List EdgeResolution → Items
edge_ids_of [] = nil
edge_ids_of (item ∷ items) = cons (chars item.edge_id) (edge_ids_of items)

abbrev pub loop_continue_exit_conflict :
    LoopRegionIr → ExecutionScope → List EdgeResolution → List EdgeResolution → RuntimeErrorInfo
loop_continue_exit_conflict region scope selected_back selected_exit = record {
  code = text "LOOP_CONTINUE_EXIT_CONFLICT";
  message = text "One loop iteration cannot select both a back edge and an exit edge.";
  detail = field (text "loop_region_id") (chars region.id) (
      field (text "loop_scope") (chars (execution_scope_key scope)) (
        field (text "back_edge_ids") (arr (edge_ids_of selected_back))
          (field (text "exit_edge_ids") (arr (edge_ids_of selected_exit)) end)));
}

abbrev pub loop_dead_end : LoopRegionIr → ExecutionScope → RuntimeErrorInfo
loop_dead_end region scope = record {
  code = text "LOOP_DEAD_END";
  message = text "Loop iteration selected neither a back edge nor an exit edge.";
  detail =
      field (text "loop_region_id") (chars region.id)
        (field (text "loop_scope") (chars (execution_scope_key scope)) end);
}

abbrev pub is_selected : EdgeResolution → Bool
is_selected item = resolution_state_beq item.state selected

-- The resolutions of the boundary edges of an iteration, or `none` while one is missing.
abbrev pub boundary_resolutions :
    LoopRegionIr → ExecutionScope → SchedulerContext → List Text → Option (List EdgeResolution)
boundary_resolutions region scope cursor [] = some []
boundary_resolutions region scope cursor (edge_id ∷ rest) =
    elim (Dict.get (boundary_key region.id scope edge_id) cursor.loop_boundary_resolutions) [
      | none ↦ none
      | some item ↦ elim (boundary_resolutions region scope cursor rest) [
        | none ↦ none
        | some items ↦ some (item ∷ items)
      ]
    ]

-- `next(item for item in resolutions if item.edge_id == edge_id)`
abbrev pub resolution_for : Text → List EdgeResolution → Result EdgeResolution
resolution_for edge_id items =
    from_option unknown_edge (first_match (λ item. item.edge_id == edge_id) items)

module _ (now : ℕ) (ir : WorkflowIr) (set_order : List Boundary → List Boundary)
    (nested : LoopRegionIr → ExecutionScope → Exec Invocation Unit) where
  unfoldable pub find_edge : Text → Exec Invocation EdgeIr
  find_edge edge_id = lift (from_option unknown_edge (Dict.get edge_id ir.edges))

  -- Resolves one outgoing edge: at the boundary of the loop that it leaves, or in the scope of its
  -- target. The lists take the new boundary or target.
  unfoldable pub route_to :
      Option LoopRegionIr
      → EdgeIr
      → ExecutionScope
      → ResolutionState
      → Option EdgeActivation
      → List Target × List Boundary
      → Exec Invocation (List Target × List Boundary)
  route_to (some region) edge scope state activation (targets, boundaries) = do
    inner ← lift (loop_scope scope region.id)
    on_cursor (resolve_loop_boundary region.id inner edge.id state activation)
    pure (targets, add_boundary (region.id, inner) boundaries)
  route_to none edge scope state activation (targets, boundaries) = do
    on_cursor (resolve_edge edge.id state activation (target_scope ir edge scope))
    pure (targets ++ (edge.to_node, target_scope ir edge scope) ∷ [], boundaries)

  unfoldable pub route :
      EdgeIr
      → ExecutionScope
      → ResolutionState
      → Option EdgeActivation
      → List Target × List Boundary
      → Exec Invocation (List Target × List Boundary)
  route edge scope state activation acc = do
    owner ← lift (boundary_owner ir edge scope)
    route_to owner edge scope state activation acc

  -- `for loop_region_id, loop_scope in boundaries: self._finalize_loop_boundary(...)`
  unfoldable pub finalize_all : List Boundary → Exec Invocation Unit
  finalize_all boundaries =
      for_each (set_order boundaries)
        λ boundary. lift (find_region ir boundary.0) >>= λ region. nested region boundary.1

  unfoldable pub skip_edges :
      ExecutionScope
      → List Text
      → List Target × List Boundary
      → Exec Invocation (List Target × List Boundary)
  skip_edges scope [] acc = pure acc
  skip_edges scope (edge_id ∷ rest) acc = do
    edge ← find_edge edge_id
    acc' ← route edge scope skipped none acc
    skip_edges scope rest acc'

  -- _skip_node_instance
  unfoldable pub skip_node_instance : Text → ExecutionScope → Exec Invocation (List Target)
  skip_node_instance node_id scope = do
    known ←
        gets
          (λ inv. contains (node_instance_key node_id scope) inv.scheduler.skipped_node_instances)
    if known then pure [] else do
      set_cursor (add_skipped (node_instance_key node_id scope))
      acc ← skip_edges scope (outgoing ir node_id) ([], [])
      finalize_all acc.1
      pure acc.0

  -- _propagate_finalized_boundary_edge: `outer` is the innermost enclosing loop that the edge leaves too
  unfoldable pub propagate_to :
      Option LoopRegionIr → ExecutionScope → EdgeIr → EdgeResolution → Exec Invocation (List Target)
  propagate_to (some region) scope edge resolution = do
    owner_scope ← lift (loop_scope (init_of scope) region.id)
    on_cursor
        (resolve_loop_boundary region.id owner_scope edge.id resolution.state resolution.activation)
    nested region owner_scope
    pure []
  propagate_to none scope edge resolution = do
    on_cursor
        (resolve_edge edge.id resolution.state resolution.activation (target_scope ir edge scope))
    pure ((edge.to_node, target_scope ir edge scope) ∷ [])

  unfoldable pub propagate :
      ExecutionScope → EdgeIr → EdgeResolution → Exec Invocation (List Target)
  propagate scope edge resolution = do
    outer ← lift (boundary_owner ir edge (init_of scope))
    propagate_to outer scope edge resolution

  unfoldable pub propagate_all :
      ExecutionScope
      → (Text → Result EdgeResolution)
      → List Text
      → List Target
      → Exec Invocation (List Target)
  propagate_all scope resolution_at [] targets = pure targets
  propagate_all scope resolution_at (edge_id ∷ rest) targets = do
    edge ← find_edge edge_id
    resolution ← lift (resolution_at edge_id)
    more ← propagate scope edge resolution
    propagate_all scope resolution_at rest (targets ++ more)

  unfoldable pub skipped_in : ExecutionScope → Text → Result EdgeResolution
  skipped_in scope edge_id =
      ok (record { edge_id = edge_id; state = skipped; activation = none; scope = scope })

  -- _skip_inactive_loop
  unfoldable pub skip_inactive_loop : LoopRegionIr → ExecutionScope → Exec Invocation (List Target)
  skip_inactive_loop region scope = do
    for_each region.node_ids λ node_id.
        set_cursor (add_skipped (node_instance_key node_id (scope_for_node ir node_id scope)))
    key ← lift (loop_instance_key scope region.id)
    set_cursor (add_exited key)
    propagate_all scope (skipped_in scope) region.exit_edge_ids []

  -- what one round of `while pending` does after it has read the cursor
  unfoldable pub act : Text → ExecutionScope → Decision → Exec Invocation (List Target)
  act node_id scope settled = pure []
  act node_id scope blocked = pure []
  act node_id scope (runnable activations) =
      set_cursor (schedule node_id scope activations) >>= λ _.
      enter_loops scope scope >>= λ _. pure []
  act node_id scope (inactive_loop region) =
      skip_inactive_loop region (take (region.depth + 1) scope)
  act node_id scope inactive_node = skip_node_instance node_id scope

  unfoldable pub perform : Text → ExecutionScope → Result Decision → Exec Invocation (List Target)
  perform node_id scope (err c) = raise c
  perform node_id scope (ok d) = act node_id scope d

  -- One round of `while pending`: the targets that it appends.
  unfoldable pub visit : Text → ExecutionScope → Exec Invocation (List Target)
  visit node_id scope inv = perform node_id scope (decide ir node_id scope inv.scheduler) inv

  -- `while pending and invocation.state != "failed"`, for at most `steps` rounds
  unfoldable pub resolve_loop : ℕ → List Target → Exec Invocation Unit
  resolve_loop steps [] = pure tt
  resolve_loop zero (target ∷ pending) = raise out_of_fuel
  resolve_loop (suc steps) ((node_id, scope) ∷ pending) = do
    failed ← gets (λ inv. is_failed inv.state)
    if failed then pure tt else do more ← visit node_id scope; resolve_loop steps (pending ++ more)

  -- _resolve_node_instances
  unfoldable pub resolve_node_instances : ℕ → List Target → Exec Invocation Unit
  resolve_node_instances steps targets = do
    pending ← lift (ordered_targets ir targets)
    resolve_loop steps pending

  -- the edges of `edge_ids` that are selected in an iteration
  abbrev pub selected_among : List Text → List EdgeResolution → List EdgeResolution
  selected_among edge_ids = keep (λ item. contains item.edge_id edge_ids && is_selected item)

  -- `for edge_id in back_edge_ids: ... resolve_edge(edge_id, ..., scope=next_scope)`
  unfoldable pub carry_back :
      ExecutionScope → List EdgeResolution → List Text → Exec Invocation Unit
  carry_back next_scope items edge_ids = for_each edge_ids λ edge_id.
      lift (resolution_for edge_id items) >>= λ item.
      on_cursor (resolve_edge edge_id item.state item.activation next_scope) >>= λ _. pure tt

  -- _finalize_loop_boundary, once every boundary edge of the iteration is resolved
  unfoldable pub conclude :
      ℕ → LoopRegionIr → ExecutionScope → List EdgeResolution → Bool → Bool → Exec Invocation Unit
  conclude steps region scope items true true = modify (
      set_failed now (
        loop_continue_exit_conflict region scope (selected_among region.back_edge_ids items)
          (selected_among region.exit_edge_ids items)))
  conclude steps region scope items true false = lift (frame_of scope region.id) >>= λ current.
      (let next_scope : ExecutionScope =
          init_of scope
          ++ record { loop_region_id = region.id; iteration = current.iteration + 1 } ∷ [] in
        carry_back next_scope items region.back_edge_ids >>= λ _.
        resolve_node_instances steps ((region.header_node_id, next_scope) ∷ []))
  conclude steps region scope items false true = lift (loop_instance_key scope region.id) >>= λ key.
      set_cursor (add_exited key) >>= λ _.
      propagate_all scope (λ edge_id. resolution_for edge_id items) region.exit_edge_ids []
      >>= λ targets. resolve_node_instances steps targets
  conclude steps region scope items false false =
      modify (set_failed now (loop_dead_end region scope))

  unfoldable pub finalize_found :
      ℕ → LoopRegionIr → ExecutionScope → Option (List EdgeResolution) → Exec Invocation Unit
  finalize_found steps region scope none = pure tt
  finalize_found steps region scope (some items) =
      conclude steps region scope items (not (is_empty (selected_among region.back_edge_ids items)))
        (not (is_empty (selected_among region.exit_edge_ids items)))

  -- _finalize_loop_boundary
  unfoldable pub finalize_boundary : ℕ → LoopRegionIr → ExecutionScope → Exec Invocation Unit
  finalize_boundary steps region scope =
      gets (λ inv.
        boundary_resolutions region scope inv.scheduler
          (region.back_edge_ids ++ region.exit_edge_ids))
      >>= λ found. finalize_found steps region scope found

-- `depth` bounds the nesting of the calls.
unfoldable pub finalize :
    ℕ
    → WorkflowIr
    → (List Boundary → List Boundary)
    → ℕ
    → ℕ
    → LoopRegionIr
    → ExecutionScope
    → Exec Invocation Unit
unfolding finalize_boundary
finalize now ir set_order steps zero region scope = raise out_of_fuel
finalize now ir set_order steps (suc depth) region scope =
    finalize_boundary now ir set_order (finalize now ir set_order steps depth) steps region scope
