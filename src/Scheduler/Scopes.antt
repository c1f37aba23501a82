-- ===== src/Scheduler/Scopes.antt =====
-- The helpers of autoagent/core/scheduler/scheduler.py that read the compiled graph: which loop an
-- edge leaves, in which scope its target stands, and the order of the targets. A missing dictionary
-- key is a fault, as the `KeyError` in the source.
pub mod Stacks
use auto_agent.Shared.{
  ℕ, zero, suc, ◌+◌, Bool, true, false, ◌&&◌, ◌||◌, Option, none, some, List, [], ◌∷◌, ◌++◌, map,
  if◌then◌else◌, eqb, ltb, take, drop, length, reversed, or_else,
}
use auto_agent.Shared.Keys.{Text, text, text_le, Key, ◌==◌, ==_iff, nat_eq, text_eq}
use auto_agent.Shared.Dict
use auto_agent.Shared.Dict.{Dict, contains}
use auto_agent.Shared.Exec.{
  Result, ok, err, then_result, from_option, unknown_region, unknown_frame, unknown_node,
}
use auto_agent.Runtime.Scope.{LoopIteration, ExecutionScope, execution_scope_key, scope_beq}
use auto_agent.Ir.{LoopRegionIr, GraphIr, EdgeIr, WorkflowIr}

abbrev pub Target : Type 0
Target = Text × ExecutionScope

abbrev pub loop_stack : WorkflowIr → Text → List Text
loop_stack ir node_id = or_else (Dict.get node_id ir.graph.node_loop_stacks) []

abbrev pub outgoing : WorkflowIr → Text → List Text
outgoing ir node_id = or_else (Dict.get node_id ir.graph.outgoing_edges) []

abbrev pub find_region : WorkflowIr → Text → Result LoopRegionIr
find_region ir loop_region_id =
    from_option unknown_region (Dict.get loop_region_id ir.graph.loop_regions)

-- _frame
unfoldable pub frame_of : ExecutionScope → Text → Result LoopIteration
frame_of [] loop_region_id = err unknown_frame
frame_of (frame ∷ scope) loop_region_id =
    if frame.loop_region_id == loop_region_id then ok frame else frame_of scope loop_region_id

-- _loop_scope
unfoldable pub loop_scope : ExecutionScope → Text → Result ExecutionScope
loop_scope [] loop_region_id = err unknown_frame
loop_scope (frame ∷ scope) loop_region_id =
    if frame.loop_region_id == loop_region_id
    then ok (frame ∷ [])
    else then_result (loop_scope scope loop_region_id) (λ prefix. ok (frame ∷ prefix))

-- _loop_instance_key
unfoldable pub loop_instance_key : ExecutionScope → Text → Result Text
unfolding loop_scope execution_scope_key
loop_instance_key scope loop_region_id =
    then_result (loop_scope scope loop_region_id)
      (λ prefix. ok (loop_region_id ++ (b'@' ∷ execution_scope_key prefix)))

-- _header_region, the loop over the reversed stack
unfoldable pub find_header : WorkflowIr → Text → List Text → Result (Option LoopRegionIr)
find_header ir node_id [] = ok none
find_header ir node_id (loop_region_id ∷ stack) =
    then_result (find_region ir loop_region_id) (λ region.
      if region.header_node_id == node_id then ok (some region) else find_header ir node_id stack)

unfoldable pub header_region : WorkflowIr → Text → Result (Option LoopRegionIr)
unfolding find_header
header_region ir node_id = find_header ir node_id (reversed (loop_stack ir node_id))

-- `edge.id in region.back_edge_ids or edge.id in region.exit_edge_ids`
abbrev pub owns : LoopRegionIr → Text → Bool
owns region edge_id = contains edge_id region.back_edge_ids || contains edge_id region.exit_edge_ids

-- _boundary_owner, the loop over the reversed scope
unfoldable pub find_owner : WorkflowIr → Text → ExecutionScope → Result (Option LoopRegionIr)
find_owner ir edge_id [] = ok none
find_owner ir edge_id (frame ∷ frames) =
    then_result (find_region ir frame.loop_region_id)
      (λ region. if owns region edge_id then ok (some region) else find_owner ir edge_id frames)

unfoldable pub boundary_owner : WorkflowIr → EdgeIr → ExecutionScope → Result (Option LoopRegionIr)
unfolding find_owner
boundary_owner ir edge source_scope = find_owner ir edge.id (reversed source_scope)

-- the fresh frames `LoopIteration(loop_region_id, 0)`
abbrev pub entered_frames : List Text → ExecutionScope
entered_frames = map (λ loop_region_id. record { loop_region_id = loop_region_id; iteration = 0 })

-- the `while common < ...` loop of _target_scope
unfoldable pub common_depth : ExecutionScope → List Text → ℕ
common_depth [] stack = 0
common_depth (frame ∷ scope) [] = 0
common_depth (frame ∷ scope) (loop_region_id ∷ stack) =
    let deeper = common_depth scope stack in
    if frame.loop_region_id == loop_region_id then suc deeper else 0

-- _target_scope, of the loop stack of the target
unfoldable pub scope_in_stack : ExecutionScope → List Text → ExecutionScope
unfolding common_depth
scope_in_stack source_scope stack =
    take (common_depth source_scope stack) source_scope
    ++ entered_frames (drop (common_depth source_scope stack) stack)

unfoldable pub target_scope : WorkflowIr → EdgeIr → ExecutionScope → ExecutionScope
unfolding scope_in_stack
target_scope ir edge source_scope = scope_in_stack source_scope (loop_stack ir edge.to_node)

-- _initial_scope
unfoldable pub initial_scope : WorkflowIr → Text → ExecutionScope
initial_scope ir node_id = entered_frames (loop_stack ir node_id)

-- _scope_for_node
unfoldable pub scope_for_node : WorkflowIr → Text → ExecutionScope → ExecutionScope
scope_for_node ir node_id available =
    let stack = loop_stack ir node_id in
    let scope = take (length stack) available in scope ++ entered_frames (drop (length scope) stack)

-- _incoming_edges_for_instance
unfoldable pub incoming_edges_for_instance : WorkflowIr → Text → ExecutionScope → Result (List Text)
unfolding header_region frame_of
incoming_edges_for_instance ir node_id scope = then_result (header_region ir node_id) λ found.
    elim found [
      | none ↦ ok (or_else (Dict.get node_id ir.graph.incoming_edges) [])
      | some region ↦ then_result (frame_of scope region.id) (λ frame.
          ok
            (if frame.iteration == 0 then region.external_entry_edge_ids else region.back_edge_ids))
    ]

abbrev pub target_beq : Target → Target → Bool
target_beq (m, s) (n, t) = m == n && scope_beq s t

-- `{(node_id, scope) for ...}`: the first occurrences
drop_equal : Target → List Target → List Target
drop_equal t [] = []
drop_equal t (u ∷ us) = let more = drop_equal t us in if target_beq t u then more else u ∷ more

unfoldable pub unique_targets : List Target → List Target
unfolding drop_equal
unique_targets [] = []
unique_targets (target ∷ rest) = target ∷ drop_equal target (unique_targets rest)

-- node_order[node_id]
unfoldable pub node_index : Text → List Text → Result ℕ
node_index node_id [] = err unknown_node
node_index node_id (n ∷ nodes) =
    if n == node_id then ok 0 else then_result (node_index node_id nodes) (λ i. ok (suc i))

-- a target with its sorting key
pub record Keyed : Type 0 where
  pub order : ℕ
  pub key : Text
  pub target : Target

abbrev keyed_le : Keyed → Keyed → Bool
keyed_le a b = ltb a.order b.order || (a.order == b.order && text_le a.key b.key)

insert_keyed : Keyed → List Keyed → List Keyed
insert_keyed x [] = x ∷ []
insert_keyed x (y ∷ ys) = if keyed_le x y then x ∷ y ∷ ys else y ∷ insert_keyed x ys

sort_keyed : List Keyed → List Keyed
unfolding insert_keyed
sort_keyed [] = []
sort_keyed (x ∷ xs) = insert_keyed x (sort_keyed xs)

key_targets : WorkflowIr → List Target → Result (List Keyed)
unfolding node_index execution_scope_key
key_targets ir [] = ok []
key_targets ir ((node_id, scope) ∷ rest) = then_result (node_index node_id ir.nodes) λ i.
    then_result (key_targets ir rest) λ keyed.
      ok (record { order = i; key = execution_scope_key scope; target = (node_id, scope) } ∷ keyed)

-- _ordered_targets
unfoldable pub ordered_targets : WorkflowIr → List Target → Result (List Target)
unfolding key_targets sort_keyed unique_targets
ordered_targets ir targets =
    then_result (key_targets ir (unique_targets targets))
      (λ keyed. ok (map (λ x. x.target) (sort_keyed keyed)))
