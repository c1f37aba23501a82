-- ===== src/Scheduler/Decision.antt =====
-- One round of the loop of `_resolve_node_instances` of autoagent/core/scheduler/scheduler.py, up to its
-- first write: what the cursor says of one node instance.
pub mod FanIn
use auto_agent.Shared.{
  ℕ, Bool, true, false, ◌||◌, Option, none, some, List, [], ◌∷◌, map, if◌then◌else◌, any_of, not,
  is_some,
}
use auto_agent.Shared.Keys.{Text, ◌==◌, nat_eq, text_eq}
use auto_agent.Shared.Dict
use auto_agent.Shared.Dict.{contains}
use auto_agent.Shared.Exec.{Result, ok, err, then_result}
use auto_agent.Runtime.Scope.{ExecutionScope, node_instance_key, edge_occurrence_key}
use auto_agent.Runtime.Cursor.{
  EdgeActivation, EdgeResolution, ResolutionState, selected, skipped, SchedulerContext,
}
use auto_agent.Runtime.Invocation.{is_empty}
use auto_agent.Ir.{LoopRegionIr, WorkflowIr}
use auto_agent.Scheduler.Scopes.{incoming_edges_for_instance, header_region, frame_of}

-- settled: scheduled or skipped before; blocked: an incoming edge is open; runnable: all are resolved
-- and some are selected; inactive_loop and inactive_node: all are resolved and none is selected.
pub data Decision : Type 0 where
  settled blocked : Decision
  runnable : List EdgeActivation → Decision
  inactive_loop : LoopRegionIr → Decision
  inactive_node : Decision

abbrev pub is_settled : SchedulerContext → Text → Bool
is_settled cursor instance_key =
    contains instance_key cursor.scheduled_node_instances
    || contains instance_key cursor.skipped_node_instances

-- `edge_resolutions.get(edge_occurrence_key(edge_id, scope)) for edge_id in incoming_edge_ids`
abbrev pub resolutions_of :
    SchedulerContext → ExecutionScope → List Text → List (Option EdgeResolution)
resolutions_of cursor scope [] = []
resolutions_of cursor scope (edge_id ∷ rest) =
    Dict.get (edge_occurrence_key edge_id scope) cursor.edge_resolutions
    ∷ resolutions_of cursor scope rest

-- the activation of a selected resolution
abbrev pub activation_of : ResolutionState → Option EdgeActivation → Option EdgeActivation
activation_of selected activation = activation
activation_of skipped activation = none

abbrev pub push : Option EdgeActivation → List EdgeActivation → List EdgeActivation
push none rest = rest
push (some activation) rest = activation ∷ rest

abbrev pub selected_activations : List (Option EdgeResolution) → List EdgeActivation
selected_activations [] = []
selected_activations (none ∷ rest) = selected_activations rest
selected_activations (some item ∷ rest) =
    push (activation_of item.state item.activation) (selected_activations rest)

abbrev pub is_open : Option EdgeResolution → Bool
is_open none = true
is_open (some item) = false

-- what to do with an instance none of whose incoming edges is selected
unfoldable pub skip_kind : WorkflowIr → Text → ExecutionScope → Result Decision
skip_kind ir node_id scope = then_result (header_region ir node_id) λ found. elim found [
  | none ↦ ok inactive_node
  | some region ↦
      then_result (frame_of scope region.id)
        (λ frame. ok (if frame.iteration == 0 then inactive_loop region else inactive_node))
]

abbrev pub runnable_or : List EdgeActivation → Result Decision → Result Decision
runnable_or [] otherwise = otherwise
runnable_or (activation ∷ rest) otherwise = ok (runnable (activation ∷ rest))

unfoldable pub decide_edges :
    WorkflowIr → Text → ExecutionScope → SchedulerContext → List Text → Result Decision
decide_edges ir node_id scope cursor edge_ids =
    let resolutions = resolutions_of cursor scope edge_ids in
    if is_empty edge_ids || any_of is_open resolutions
    then ok blocked
    else runnable_or (selected_activations resolutions) (skip_kind ir node_id scope)

unfoldable pub decide : WorkflowIr → Text → ExecutionScope → SchedulerContext → Result Decision
decide ir node_id scope cursor =
    if is_settled cursor (node_instance_key node_id scope)
    then ok settled
    else then_result (incoming_edges_for_instance ir node_id scope)
        (decide_edges ir node_id scope cursor)
