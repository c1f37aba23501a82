-- ===== src/Scheduler/Scopes/Stacks.antt =====
-- The loops that a scope stands for: `Scopes.target_scope`.
use auto_agent.Shared.{◌≡◌, refl, ap, List, [], ◌∷◌, map, Bool-cases, inl, inr}
use auto_agent.Shared.Keys.{Text, ◌==◌, ==_iff, text_eq}
use auto_agent.Runtime.Scope.{ExecutionScope}
use auto_agent.Ir.{EdgeIr, WorkflowIr}
use auto_agent.Scheduler.Scopes.{loop_stack, entered_frames, scope_in_stack, target_scope}

abbrev pub regions_of : ExecutionScope → List Text
regions_of = map (λ frame. frame.loop_region_id)

pub regions_of-entered_frames : (stack : List Text) → regions_of (entered_frames stack) ≡ stack
regions_of-entered_frames [] = refl
regions_of-entered_frames (r ∷ rest) = ap (λ l. r ∷ l) (regions_of-entered_frames rest)

pub regions_of-scope_in_stack :
    (source : ExecutionScope) (stack : List Text) → regions_of (scope_in_stack source stack) ≡ stack
unfolding scope_in_stack
regions_of-scope_in_stack [] stack = regions_of-entered_frames stack
regions_of-scope_in_stack (frame ∷ scope) [] = refl
regions_of-scope_in_stack (frame ∷ scope) (r ∷ stack) =
    elim (Bool-cases (frame.loop_region_id == r)) [
      | inl same ↦
          let e : frame.loop_region_id ≡ r = (==_iff frame.loop_region_id r).0 same in
          rw same (cc (e, regions_of-scope_in_stack scope stack))
      | inr other ↦ rw other (ap (λ l. r ∷ l) (regions_of-entered_frames stack))
    ]

pub scope_in_stack_self :
    (source : ExecutionScope) → scope_in_stack source (regions_of source) ≡ source
unfolding scope_in_stack
scope_in_stack_self [] = refl
scope_in_stack_self (frame ∷ scope) =
    rw ((==_iff frame.loop_region_id frame.loop_region_id).1 refl)
      (ap (λ l. frame ∷ l) (scope_in_stack_self scope))

-- The target of an edge gets a scope whose loops are those that contain it, outermost first, whatever
-- the scope of the source.
pub target_scope-regions :
    (ir : WorkflowIr) (edge : EdgeIr) (source : ExecutionScope)
    → regions_of (target_scope ir edge source) ≡ loop_stack ir edge.to_node
unfolding target_scope
target_scope-regions ir edge source = regions_of-scope_in_stack source (loop_stack ir edge.to_node)

-- Where the loops that contain the target are those of the scope of the source, the target runs in the
-- very same iterations as the source.
pub target_scope_self :
    (ir : WorkflowIr) (edge : EdgeIr) (source : ExecutionScope)
    → loop_stack ir edge.to_node ≡ regions_of source
    → target_scope ir edge source ≡ source
unfolding target_scope
target_scope_self ir edge source same = rw same (scope_in_stack_self source)
