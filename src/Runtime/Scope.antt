-- ===== src/Runtime/Scope.antt =====
-- autoagent/core/runtime/scheduler.py, the first part: loop iterations, scopes, and the texts under
-- which the cursor files an occurrence of a node or of an edge.
use auto_agent.Shared.{ℕ, ◌≡◌, List, [], ◌∷◌, ◌++◌, Bool, true, false, ◌&&◌, ◌↔◌, arith}
use auto_agent.Shared.Keys.{Text, text, decimal, Key, ◌==◌, ==_iff, nat_eq, text_eq}

pub record LoopIteration : Type 0 where
  pub loop_region_id : Text
  pub iteration : ℕ

abbrev pub ExecutionScope : Type 0
ExecutionScope = List LoopIteration

unfoldable pub frame_key : LoopIteration → Text
frame_key frame = frame.loop_region_id ++ (b':' ∷ decimal frame.iteration)

-- "/".join(...)
unfoldable pub join_frames : ExecutionScope → Text
join_frames [] = []
join_frames (frame ∷ []) = frame_key frame
join_frames (frame ∷ next ∷ rest) = frame_key frame ++ (b'/' ∷ join_frames (next ∷ rest))

unfoldable pub execution_scope_key : ExecutionScope → Text
unfolding join_frames frame_key decimal
execution_scope_key [] = text "root"
execution_scope_key (frame ∷ rest) = join_frames (frame ∷ rest)

unfoldable pub node_instance_key : Text → ExecutionScope → Text
unfolding execution_scope_key
node_instance_key node_id [] = node_id
node_instance_key node_id (frame ∷ rest) = node_id ++ (b'@' ∷ execution_scope_key (frame ∷ rest))

unfoldable pub edge_occurrence_key : Text → ExecutionScope → Text
unfolding execution_scope_key
edge_occurrence_key edge_id [] = edge_id
edge_occurrence_key edge_id (frame ∷ rest) = edge_id ++ (b'@' ∷ execution_scope_key (frame ∷ rest))

abbrev pub iteration_beq : LoopIteration → LoopIteration → Bool
iteration_beq a b = a.loop_region_id == b.loop_region_id && a.iteration == b.iteration

pub iteration_beq_iff : (a b : LoopIteration) → (iteration_beq a b ≡ true) ↔ (a ≡ b)
iteration_beq_iff a b = (
  λ h. ground (arith, ==_iff a.loop_region_id b.loop_region_id, ==_iff a.iteration b.iteration),
  λ e. ground (arith, ==_iff a.loop_region_id b.loop_region_id, ==_iff a.iteration b.iteration),
)

instance abbrev pub iteration_eq : Key LoopIteration
iteration_eq = record { same = iteration_beq; same_iff = λ {k} {j}. iteration_beq_iff k j }

abbrev pub scope_beq : ExecutionScope → ExecutionScope → Bool
scope_beq [] [] = true
scope_beq [] (b ∷ t) = false
scope_beq (a ∷ s) [] = false
scope_beq (a ∷ s) (b ∷ t) = a == b && scope_beq s t
