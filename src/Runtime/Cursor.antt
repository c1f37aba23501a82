-- ===== src/Runtime/Cursor.antt =====
-- autoagent/core/runtime/scheduler.py: `SchedulerContext`, the scheduling cursor of one invocation.
-- A method is an action on the cursor. Execution ids (UUIDs) are numbers. The conversions to and
-- from stored records are not modelled.
pub mod Drain
pub mod Resolution
pub mod Waiting
use auto_agent.Shared.{
  ℕ, zero, suc, ◌≡◌, refl, Bool, true, false, ◌&&◌, not, ◌↔◌, Option, none, some, List, [], ◌∷◌,
  ◌++◌, arith, if◌then◌else◌, ltb, length, or_else, is_some,
}
use auto_agent.Shared.Keys.{Text, ◌==◌, ==_iff, nat_eq, text_eq}
use auto_agent.Shared.Dict
use auto_agent.Shared.Dict.{Dict}
use auto_agent.Shared.Exec.{
  Fault, edge_conflict, boundary_conflict, missing_activation, unexpected_activation,
  duplicate_wait_key, unknown_wait_key, Result, ok, err, Exec,
}
use auto_agent.Runtime.Value.{Fields, end}
use auto_agent.Runtime.Scope.{ExecutionScope, execution_scope_key, edge_occurrence_key}

pub record EdgeActivation : Type 0 where
  pub edge_id : Text
  pub source_node_id : Text
  pub source_execution_id : ℕ

pub data ResolutionState : Type 0 where
  selected skipped : ResolutionState

pub record EdgeResolution : Type 0 where
  pub edge_id : Text
  pub state : ResolutionState
  pub activation : Option EdgeActivation
  pub scope : ExecutionScope

pub record NodeExecutionRequest : Type 0 where
  pub node_id : Text
  pub activations : List EdgeActivation
  pub execution_scope : ExecutionScope
  pub idempotency_key : Option Text
  pub recovery_of_execution_id : Option ℕ
  pub recovery_attempt : ℕ

pub record WaitingExecution : Type 0 where
  pub wait_key : Text
  pub node_execution_id : ℕ
  pub node_id : Text
  pub wait_type : Option Text
  pub payload : Fields

-- runtime/status.py: NodeExecutionStateValue
pub data NodeState : Type 0 where
  created ready running waiting completed failed skipped cancelled interrupted : NodeState

pub record NodeExecutionTransition : Type 0 where
  pub node_execution_id : ℕ
  pub node_id : Text
  pub state : NodeState

pub record SchedulerContext : Type 0 where
  pub ready_queue : List NodeExecutionRequest
  pub waiting_executions : Dict Text WaitingExecution
  pub transition_queue : List NodeExecutionTransition
  pub edge_resolutions : Dict Text EdgeResolution
  pub loop_boundary_resolutions : Dict Text EdgeResolution
  pub scheduled_node_instances : List Text
  pub skipped_node_instances : List Text
  pub entered_loop_instances : List Text
  pub exited_loop_instances : List Text
  pub entry_paths_initialized : Bool

abbrev pub empty_cursor : SchedulerContext
empty_cursor = record {
  ready_queue = [];
  waiting_executions = [];
  transition_queue = [];
  edge_resolutions = [];
  loop_boundary_resolutions = [];
  scheduled_node_instances = [];
  skipped_node_instances = [];
  entered_loop_instances = [];
  exited_loop_instances = [];
  entry_paths_initialized = false;
}

-- The dataclass comparisons `==` and `!=` that the cursor makes.
abbrev pub activation_beq : EdgeActivation → EdgeActivation → Bool
activation_beq a b =
    a.edge_id == b.edge_id
    && (a.source_node_id == b.source_node_id && a.source_execution_id == b.source_execution_id)

pub activation_beq_iff : (a b : EdgeActivation) → (activation_beq a b ≡ true) ↔ (a ≡ b)
activation_beq_iff a b = (
  λ h. ground (
    arith,
    ==_iff a.edge_id b.edge_id,
    ==_iff a.source_node_id b.source_node_id,
    ==_iff a.source_execution_id b.source_execution_id,
  ),
  λ e. ground (
    arith,
    ==_iff a.edge_id b.edge_id,
    ==_iff a.source_node_id b.source_node_id,
    ==_iff a.source_execution_id b.source_execution_id,
  ),
)

abbrev pub optional_activation_beq : Option EdgeActivation → Option EdgeActivation → Bool
optional_activation_beq none none = true
optional_activation_beq none (some b) = false
optional_activation_beq (some a) none = false
optional_activation_beq (some a) (some b) = activation_beq a b

abbrev pub resolution_state_beq : ResolutionState → ResolutionState → Bool
resolution_state_beq selected selected = true
resolution_state_beq skipped skipped = true
resolution_state_beq _ _ = false

unfoldable pub enqueue_ready : NodeExecutionRequest → SchedulerContext → SchedulerContext
enqueue_ready request cursor = record cursor { ready_queue = cursor.ready_queue ++ request ∷ [] }

-- The common part of `resolve_edge` and `resolve_loop_boundary`: a table takes one resolution for a
-- key, and a second one only if it says the same.
unfoldable pub settle :
    Fault
    → Text
    → EdgeResolution
    → Dict Text EdgeResolution
    → Result (EdgeResolution × Dict Text EdgeResolution)
settle conflict key resolution table = elim (Dict.get key table) [
  | some existing ↦
      if resolution_state_beq existing.state resolution.state
        && optional_activation_beq existing.activation resolution.activation
      then ok (existing, table)
      else err conflict
  | none ↦ elim resolution.state [
    | selected ↦
        if is_some resolution.activation
        then ok (resolution, Dict.put key resolution table)
        else err missing_activation
    | skipped ↦
        if is_some resolution.activation
        then err unexpected_activation
        else ok (resolution, Dict.put key resolution table)
  ]
]

abbrev pub commit_edges :
    Result (EdgeResolution × Dict Text EdgeResolution) → Exec SchedulerContext EdgeResolution
commit_edges (ok (resolution, table)) cursor =
    (ok resolution, record cursor { edge_resolutions = table })
commit_edges (err c) cursor = (err c, cursor)

abbrev pub commit_boundaries :
    Result (EdgeResolution × Dict Text EdgeResolution) → Exec SchedulerContext EdgeResolution
commit_boundaries (ok (resolution, table)) cursor =
    (ok resolution, record cursor { loop_boundary_resolutions = table })
commit_boundaries (err c) cursor = (err c, cursor)

unfoldable pub resolve_edge :
    Text
    → ResolutionState
    → Option EdgeActivation
    → ExecutionScope
    → Exec SchedulerContext EdgeResolution
resolve_edge edge_id state activation scope cursor =
    commit_edges
      (settle edge_conflict (edge_occurrence_key edge_id scope)
        (record { edge_id = edge_id; state = state; activation = activation; scope = scope })
        cursor.edge_resolutions)
      cursor

unfoldable pub boundary_key : Text → ExecutionScope → Text → Text
boundary_key loop_region_id loop_scope edge_id =
    loop_region_id ++ (b'@' ∷ (execution_scope_key loop_scope ++ (b':' ∷ edge_id)))

unfoldable pub resolve_loop_boundary :
    Text
    → ExecutionScope
    → Text
    → ResolutionState
    → Option EdgeActivation
    → Exec SchedulerContext EdgeResolution
resolve_loop_boundary loop_region_id loop_scope edge_id state activation cursor =
    commit_boundaries
      (settle boundary_conflict (boundary_key loop_region_id loop_scope edge_id)
        (record { edge_id = edge_id; state = state; activation = activation; scope = loop_scope })
        cursor.loop_boundary_resolutions)
      cursor

unfoldable pub pop_ready : SchedulerContext → Option NodeExecutionRequest × SchedulerContext
pop_ready cursor = elim cursor.ready_queue [
  | [] ↦ (none, cursor)
  | request ∷ rest ↦ (some request, record cursor { ready_queue = rest })
]

-- `limit is None or count < limit`
abbrev pub below_limit : Option ℕ → ℕ → Bool
below_limit none count = true
below_limit (some limit) count = ltb count limit

-- `while queue and (limit is None or len(items) < limit): items.append(queue.popleft())`
unfoldable pub drain_loop {ℓ} : {A : Type ℓ} → Option ℕ → List A → List A → List A × List A
drain_loop limit items [] = (items, [])
drain_loop limit items (x ∷ queue) =
    let more = drain_loop limit (items ++ x ∷ []) queue in
    if below_limit limit (length items) then more else (items, x ∷ queue)

unfoldable pub drain_ready :
    Option ℕ → SchedulerContext → List NodeExecutionRequest × SchedulerContext
unfolding drain_loop
drain_ready limit cursor =
    let (requests, queue) = drain_loop limit [] cursor.ready_queue in
    (requests, record cursor { ready_queue = queue })

unfoldable pub add_waiting_execution : WaitingExecution → Exec SchedulerContext WaitingExecution
add_waiting_execution entry cursor =
    if is_some (Dict.get entry.wait_key cursor.waiting_executions)
    then (err duplicate_wait_key, cursor)
    else (
      ok entry,
      record cursor {
        waiting_executions = Dict.put entry.wait_key entry cursor.waiting_executions;
      },
    )

unfoldable pub remove_waiting_execution : Text → Exec SchedulerContext WaitingExecution
remove_waiting_execution wait_key cursor = elim (Dict.get wait_key cursor.waiting_executions) [
  | none ↦ (err unknown_wait_key, cursor)
  | some entry ↦ (
    ok entry,
    record cursor { waiting_executions = Dict.remove wait_key cursor.waiting_executions },
  )
]

unfoldable pub enqueue_transition : NodeExecutionTransition → SchedulerContext → SchedulerContext
enqueue_transition transition cursor = record cursor {
  transition_queue = cursor.transition_queue ++ transition ∷ [];
}

unfoldable pub pop_transition : SchedulerContext → Option NodeExecutionTransition × SchedulerContext
pop_transition cursor = elim cursor.transition_queue [
  | [] ↦ (none, cursor)
  | transition ∷ rest ↦ (some transition, record cursor { transition_queue = rest })
]

unfoldable pub drain_transitions :
    Option ℕ → SchedulerContext → List NodeExecutionTransition × SchedulerContext
unfolding drain_loop
drain_transitions limit cursor =
    let (transitions, queue) = drain_loop limit [] cursor.transition_queue in
    (transitions, record cursor { transition_queue = queue })
