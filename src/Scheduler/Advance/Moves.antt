-- ===== src/Scheduler/Advance/Moves.antt =====
-- The methods of Scheduler/Advance change the invocation by a few primitive writes only: a preorder on
-- invocations that these writes keep is kept by every method, whatever the compiled graph.
use auto_agent.Shared.{
  ℕ, zero, suc, ◌+◌, Bool, true, false, Option, none, some, List, [], ◌∷◌, ◌++◌, take, ◌≡◌, refl,
}
use auto_agent.Shared.Keys.{Text}
use auto_agent.Shared.Exec.{Result, ok, err, Exec, ◌>>=◌, out_of_fuel}
use auto_agent.Shared.Moves.{
  Preorder, Moves, Moves-pure, Moves-raise, Moves-lift, Moves-gets, Moves-bind, Moves-if,
  Moves-for_each,
}
use auto_agent.Runtime.Scope.{ExecutionScope}
use auto_agent.Runtime.Cursor.{
  EdgeActivation, EdgeResolution, ResolutionState, skipped, SchedulerContext, resolve_edge,
  resolve_loop_boundary,
}
use auto_agent.Runtime.Execution.{RuntimeErrorInfo}
use auto_agent.Runtime.Invocation.{Invocation, set_failed, on_cursor}
use auto_agent.Ir.{LoopRegionIr, EdgeIr, WorkflowIr}
use auto_agent.Scheduler.Scopes.{Target, outgoing}
use auto_agent.Scheduler.Decision.{
  Decision, settled, blocked, runnable, inactive_loop, inactive_node, decide,
}
use auto_agent.Scheduler.Advance.{
  Boundary, add_skipped, add_exited, add_entered, schedule, enter_loops, find_edge, route_to, route,
  finalize_all, skip_edges, skip_node_instance, propagate_to, propagate, propagate_all,
  skip_inactive_loop, act, perform, visit, resolve_loop, resolve_node_instances, carry_back,
  conclude, finalize_found, finalize_boundary, finalize,
}

abbrev pub with_cursor : (SchedulerContext → SchedulerContext) → Invocation → Invocation
with_cursor f inv = record inv { scheduler = f inv.scheduler }

-- The writes, each related by `R`; an instance is scheduled only where `decide` said so.
pub record Writes (now : ℕ) (ir : WorkflowIr) (R : Invocation → Invocation → Type 0) : Type 0 where
  pub preorder : Preorder R
  pub fails : (e : RuntimeErrorInfo) (s : Invocation) → R s (set_failed now e s)
  pub edges :
      (edge_id : Text) (state : ResolutionState) (activation : Option EdgeActivation)
      (scope : ExecutionScope) (s : Invocation)
      → R s (with_cursor (λ c. (resolve_edge edge_id state activation scope c).1) s)
  pub boundaries :
      (region_id : Text) (scope : ExecutionScope) (edge_id : Text) (state : ResolutionState)
      (activation : Option EdgeActivation) (s : Invocation)
      → R s (
          with_cursor (λ c. (resolve_loop_boundary region_id scope edge_id state activation c).1) s)
  pub skips : (key : Text) (s : Invocation) → R s (with_cursor (add_skipped key) s)
  pub exits : (key : Text) (s : Invocation) → R s (with_cursor (add_exited key) s)
  pub enters : (key : Text) (s : Invocation) → R s (with_cursor (add_entered key) s)
  pub schedules :
      (node_id : Text) (scope : ExecutionScope) (activations : List EdgeActivation) (s : Invocation)
      → decide ir node_id scope s.scheduler ≡ ok (runnable activations)
      → R s (with_cursor (schedule node_id scope activations) s)

module _ {now : ℕ} {ir : WorkflowIr} {R : Invocation → Invocation → Type 0}
    (w : Writes now ir R) where
  open w use {preorder}

  pub resolve_edge-Moves :
      (edge_id : Text) (state : ResolutionState) (activation : Option EdgeActivation)
      (scope : ExecutionScope)
      → Moves R (on_cursor (resolve_edge edge_id state activation scope))
  resolve_edge-Moves edge_id state activation scope = record {
    at = w.edges edge_id state activation scope;
  }

  resolve_loop_boundary-Moves :
      (region_id : Text) (scope : ExecutionScope) (edge_id : Text) (state : ResolutionState)
      (activation : Option EdgeActivation)
      → Moves R (on_cursor (resolve_loop_boundary region_id scope edge_id state activation))
  resolve_loop_boundary-Moves region_id scope edge_id state activation = record {
    at = w.boundaries region_id scope edge_id state activation;
  }

  pub enter_loops-Moves : (scope frames : ExecutionScope) → Moves R (enter_loops scope frames)
  enter_loops-Moves scope frames =
      Moves-for_each preorder frames _
        λ frame. Moves-bind preorder (Moves-lift preorder _) λ key. record { at = w.enters key }

  module _ (set_order : List Boundary → List Boundary)
      (nested : LoopRegionIr → ExecutionScope → Exec Invocation Unit)
      (inner : (region : LoopRegionIr) (scope : ExecutionScope)
        → Moves R (nested region scope)) where
    route_to-Moves :
        (owner : Option LoopRegionIr) (edge : EdgeIr) (scope : ExecutionScope)
        (state : ResolutionState) (activation : Option EdgeActivation)
        (acc : List Target × List Boundary)
        → Moves R (route_to now ir set_order nested owner edge scope state activation acc)
    unfolding route_to
    route_to-Moves (some region) edge scope state activation (targets, boundaries) =
        Moves-bind preorder (Moves-lift preorder _) λ found.
          Moves-bind preorder (resolve_loop_boundary-Moves _ _ _ _ _) λ _. Moves-pure preorder _
    route_to-Moves none edge scope state activation (targets, boundaries) =
        Moves-bind preorder (resolve_edge-Moves _ _ _ _) λ _. Moves-pure preorder _

    pub route-Moves :
        (edge : EdgeIr) (scope : ExecutionScope) (state : ResolutionState)
        (activation : Option EdgeActivation) (acc : List Target × List Boundary)
        → Moves R (route now ir set_order nested edge scope state activation acc)
    unfolding route
    route-Moves edge scope state activation acc =
        Moves-bind preorder (Moves-lift preorder _)
          λ owner. route_to-Moves owner edge scope state activation acc

    pub finalize_all-Moves :
        (boundaries : List Boundary) → Moves R (finalize_all now ir set_order nested boundaries)
    unfolding finalize_all
    finalize_all-Moves boundaries =
        Moves-for_each preorder (set_order boundaries) _
          λ boundary. Moves-bind preorder (Moves-lift preorder _) λ region. inner region boundary.1

    skip_edges-Moves :
        (scope : ExecutionScope) (edge_ids : List Text) (acc : List Target × List Boundary)
        → Moves R (skip_edges now ir set_order nested scope edge_ids acc)
    unfolding skip_edges find_edge
    skip_edges-Moves scope [] acc = Moves-pure preorder acc
    skip_edges-Moves scope (edge_id ∷ rest) acc =
        Moves-bind preorder (Moves-lift preorder _) λ edge.
          Moves-bind preorder (route-Moves edge scope skipped none acc)
            λ acc'. skip_edges-Moves scope rest acc'

    pub skip_node_instance-Moves :
        (node_id : Text) (scope : ExecutionScope)
        → Moves R (skip_node_instance now ir set_order nested node_id scope)
    unfolding skip_node_instance
    skip_node_instance-Moves node_id scope = Moves-bind preorder (Moves-gets preorder _) λ known.
        Moves-if preorder known (Moves-pure preorder []) (
          Moves-bind preorder (record { at = w.skips _ })
            λ _.
              Moves-bind preorder (skip_edges-Moves scope (outgoing ir node_id) ([], []))
                λ acc. Moves-bind preorder (finalize_all-Moves acc.1) λ _. Moves-pure preorder _)

    propagate_to-Moves :
        (outer : Option LoopRegionIr) (scope : ExecutionScope) (edge : EdgeIr)
        (resolution : EdgeResolution)
        → Moves R (propagate_to now ir set_order nested outer scope edge resolution)
    unfolding propagate_to
    propagate_to-Moves (some region) scope edge resolution =
        Moves-bind preorder (Moves-lift preorder _) λ owner_scope.
          Moves-bind preorder (resolve_loop_boundary-Moves _ _ _ _ _)
            λ _. Moves-bind preorder (inner region owner_scope) λ _. Moves-pure preorder _
    propagate_to-Moves none scope edge resolution =
        Moves-bind preorder (resolve_edge-Moves _ _ _ _) λ _. Moves-pure preorder _

    propagate-Moves :
        (scope : ExecutionScope) (edge : EdgeIr) (resolution : EdgeResolution)
        → Moves R (propagate now ir set_order nested scope edge resolution)
    unfolding propagate
    propagate-Moves scope edge resolution =
        Moves-bind preorder (Moves-lift preorder _)
          λ outer. propagate_to-Moves outer scope edge resolution

    propagate_all-Moves :
        (scope : ExecutionScope) (resolution_at : Text → Result EdgeResolution)
        (edge_ids : List Text) (targets : List Target)
        → Moves R (propagate_all now ir set_order nested scope resolution_at edge_ids targets)
    unfolding propagate_all find_edge
    propagate_all-Moves scope resolution_at [] targets = Moves-pure preorder targets
    propagate_all-Moves scope resolution_at (edge_id ∷ rest) targets =
        Moves-bind preorder (Moves-lift preorder _) λ edge.
          Moves-bind preorder (Moves-lift preorder _) λ resolution.
            Moves-bind preorder (propagate-Moves scope edge resolution)
              λ more. propagate_all-Moves scope resolution_at rest _

    skip_inactive_loop-Moves :
        (region : LoopRegionIr) (scope : ExecutionScope)
        → Moves R (skip_inactive_loop now ir set_order nested region scope)
    unfolding skip_inactive_loop
    skip_inactive_loop-Moves region scope =
        Moves-bind preorder
          (Moves-for_each preorder region.node_ids _ λ node_id. record { at = w.skips _ })
          λ _. Moves-bind preorder (Moves-lift preorder _) λ key.
            Moves-bind preorder (record { at = w.exits key })
              λ _. propagate_all-Moves scope _ region.exit_edge_ids []

    -- the writes of `act`, at a state where `decide` gave this decision
    act-related :
        (node_id : Text) (scope : ExecutionScope) (d : Decision) (s : Invocation)
        → decide ir node_id scope s.scheduler ≡ ok d
        → R s (act now ir set_order nested node_id scope d s).1
    unfolding act ◌>>=◌
    act-related node_id scope settled s e = preorder.reflexive s
    act-related node_id scope blocked s e = preorder.reflexive s
    act-related node_id scope (runnable activations) s e =
        preorder.transitive s _ _ (w.schedules node_id scope activations s e) (
          (Moves-bind preorder (enter_loops-Moves scope scope)
              λ _. Moves-pure preorder {A = List Target} []).at
            (with_cursor (schedule node_id scope activations) s))
    act-related node_id scope (inactive_loop region) s e =
        (skip_inactive_loop-Moves region (take (region.depth + 1) scope)).at s
    act-related node_id scope inactive_node s e = (skip_node_instance-Moves node_id scope).at s

    perform-related :
        (node_id : Text) (scope : ExecutionScope) (d : Result Decision) (s : Invocation)
        → decide ir node_id scope s.scheduler ≡ d
        → R s (perform now ir set_order nested node_id scope d s).1
    unfolding perform
    perform-related node_id scope (err c) s e = preorder.reflexive s
    perform-related node_id scope (ok d) s e = act-related node_id scope d s e

    visit-Moves :
        (node_id : Text) (scope : ExecutionScope)
        → Moves R (visit now ir set_order nested node_id scope)
    unfolding visit
    visit-Moves node_id scope = record { at = λ s. perform-related node_id scope _ s refl }

    resolve_loop-Moves :
        (steps : ℕ) (pending : List Target)
        → Moves R (resolve_loop now ir set_order nested steps pending)
    unfolding resolve_loop
    resolve_loop-Moves zero [] = Moves-pure preorder tt
    resolve_loop-Moves (suc steps) [] = Moves-pure preorder tt
    resolve_loop-Moves zero (target ∷ pending) = Moves-raise preorder out_of_fuel
    resolve_loop-Moves (suc steps) ((node_id, scope) ∷ pending) =
        Moves-bind preorder (Moves-gets preorder _) λ failed.
          Moves-if preorder failed (Moves-pure preorder tt) (
            Moves-bind preorder (visit-Moves node_id scope)
              λ more. resolve_loop-Moves steps (pending ++ more))

    pub resolve_node_instances-Moves :
        (steps : ℕ) (targets : List Target)
        → Moves R (resolve_node_instances now ir set_order nested steps targets)
    unfolding resolve_node_instances
    resolve_node_instances-Moves steps targets =
        Moves-bind preorder (Moves-lift preorder _) λ pending. resolve_loop-Moves steps pending

    carry_back-Moves :
        (next_scope : ExecutionScope) (items : List EdgeResolution) (edge_ids : List Text)
        → Moves R (carry_back now ir set_order nested next_scope items edge_ids)
    unfolding carry_back
    carry_back-Moves next_scope items edge_ids = Moves-for_each preorder edge_ids _ λ edge_id.
        Moves-bind preorder (Moves-lift preorder _)
          λ item. Moves-bind preorder (resolve_edge-Moves _ _ _ _) λ _. Moves-pure preorder tt

    conclude-Moves :
        (steps : ℕ) (region : LoopRegionIr) (scope : ExecutionScope) (items : List EdgeResolution)
        (back exit : Bool)
        → Moves R (conclude now ir set_order nested steps region scope items back exit)
    unfolding conclude
    conclude-Moves steps region scope items true true = record { at = w.fails _ }
    conclude-Moves steps region scope items true false =
        Moves-bind preorder (Moves-lift preorder _) λ current.
          Moves-bind preorder (carry_back-Moves _ items region.back_edge_ids)
            λ _. resolve_node_instances-Moves steps _
    conclude-Moves steps region scope items false true =
        Moves-bind preorder (Moves-lift preorder _) λ key.
          Moves-bind preorder (record { at = w.exits key })
            λ _.
              Moves-bind preorder (propagate_all-Moves scope _ region.exit_edge_ids [])
                λ targets. resolve_node_instances-Moves steps targets
    conclude-Moves steps region scope items false false = record { at = w.fails _ }

    finalize_found-Moves :
        (steps : ℕ) (region : LoopRegionIr) (scope : ExecutionScope)
        (found : Option (List EdgeResolution))
        → Moves R (finalize_found now ir set_order nested steps region scope found)
    unfolding finalize_found
    finalize_found-Moves steps region scope none = Moves-pure preorder tt
    finalize_found-Moves steps region scope (some items) =
        conclude-Moves steps region scope items _ _

    finalize_boundary-Moves :
        (steps : ℕ) (region : LoopRegionIr) (scope : ExecutionScope)
        → Moves R (finalize_boundary now ir set_order nested steps region scope)
    unfolding finalize_boundary
    finalize_boundary-Moves steps region scope =
        Moves-bind preorder (Moves-gets preorder _)
          λ found. finalize_found-Moves steps region scope found

  pub finalize-Moves :
      (set_order : List Boundary → List Boundary) (steps depth : ℕ) (region : LoopRegionIr)
      (scope : ExecutionScope)
      → Moves R (finalize now ir set_order steps depth region scope)
  unfolding finalize
  finalize-Moves set_order steps zero region scope = Moves-raise preorder out_of_fuel
  finalize-Moves set_order steps (suc depth) region scope =
      finalize_boundary-Moves set_order (finalize now ir set_order steps depth)
        (finalize-Moves set_order steps depth) steps region scope
