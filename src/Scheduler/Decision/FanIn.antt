-- ===== src/Scheduler/Decision/FanIn.antt =====
-- What a decision to run an instance rests on: `Decision.decide`.
use auto_agent.Shared.{
  ◌≡◌, ◌≢◌, refl, ap, true, false, ◌||◌, some, List, [], ◌∷◌, arith, Bool-cases, inl, inr, any_of,
  Option-cases,
}
use auto_agent.Shared.Keys.{Text, text_eq}
use auto_agent.Shared.Dict
use auto_agent.Shared.Exec.{Result, ok, err, then_result}
use auto_agent.Runtime.Scope.{ExecutionScope, node_instance_key, edge_occurrence_key}
use auto_agent.Runtime.Cursor.{EdgeActivation, SchedulerContext}
use auto_agent.Runtime.Cursor.Resolution.{Extends}
use auto_agent.Runtime.Invocation.{is_empty}
use auto_agent.Ir.{WorkflowIr}
use auto_agent.Scheduler.Scopes.{incoming_edges_for_instance}
use auto_agent.Scheduler.Decision.{
  Decision, runnable, is_settled, resolutions_of, selected_activations, is_open, runnable_or,
  skip_kind, decide_edges, decide,
}

-- All incoming edges of the instance are resolved, and `activations` are those of the selected ones, of
-- which there is one at least.
pub record FanIn (ir : WorkflowIr) (cursor : SchedulerContext) (node_id : Text)
    (scope : ExecutionScope) (activations : List EdgeActivation) : Type 0 where
  pub edge_ids : List Text
  pub incoming : incoming_edges_for_instance ir node_id scope ≡ ok edge_ids
  pub closed : any_of is_open (resolutions_of cursor scope edge_ids) ≡ false
  pub selected : selected_activations (resolutions_of cursor scope edge_ids) ≡ activations
  pub nonempty : activations ≢ []

resolutions_of-Extends :
    (c d : SchedulerContext) (scope : ExecutionScope) (edge_ids : List Text)
    → Extends c.edge_resolutions d.edge_resolutions
    → any_of is_open (resolutions_of c scope edge_ids) ≡ false
    → resolutions_of d scope edge_ids ≡ resolutions_of c scope edge_ids
resolutions_of-Extends c d scope [] h closed = refl
resolutions_of-Extends c d scope (edge_id ∷ rest) h closed =
    elim (Option-cases (Dict.get (edge_occurrence_key edge_id scope) c.edge_resolutions)) [
      | inl e ↦ let missing : true ≡ false = rw e at closed in cc missing
      | inr (r, e) ↦
          let closed' : any_of is_open (resolutions_of c scope rest) ≡ false = rw e at closed in
          rw (h _ r e, e) (ap (λ l. some r ∷ l) (resolutions_of-Extends c d scope rest h closed'))
    ]

pub FanIn-Extends :
    (ir : WorkflowIr) (c d : SchedulerContext) (node_id : Text) (scope : ExecutionScope)
    (activations : List EdgeActivation)
    → Extends c.edge_resolutions d.edge_resolutions
    → FanIn ir c node_id scope activations
    → FanIn ir d node_id scope activations
FanIn-Extends ir c d node_id scope activations h f =
    let same = resolutions_of-Extends c d scope f.edge_ids h f.closed in
    record {
      edge_ids = f.edge_ids;
      incoming = f.incoming;
      closed = rw same f.closed;
      selected = rw same f.selected;
      nonempty = f.nonempty;
    }

skip_kind-ne-runnable :
    (ir : WorkflowIr) (node_id : Text) (scope : ExecutionScope) (activations : List EdgeActivation)
    → skip_kind ir node_id scope ≢ ok (runnable activations)
unfolding skip_kind
skip_kind-ne-runnable ir node_id scope activations e = ground arith

runnable_or-cases :
    (found : List EdgeActivation) (otherwise : Result Decision) (activations : List EdgeActivation)
    → otherwise ≢ ok (runnable activations)
    → runnable_or found otherwise ≡ ok (runnable activations)
    → (found ≡ activations) × (activations ≢ [])
runnable_or-cases [] otherwise activations never e = absurd (never e)
runnable_or-cases (a ∷ rest) otherwise activations never e = (cc e, λ nil. cc (e, nil))

decide_edges-FanIn :
    (ir : WorkflowIr) (node_id : Text) (scope : ExecutionScope) (cursor : SchedulerContext)
    (edge_ids : List Text) (activations : List EdgeActivation)
    → decide_edges ir node_id scope cursor edge_ids ≡ ok (runnable activations)
    → (any_of is_open (resolutions_of cursor scope edge_ids) ≡ false)
      × (selected_activations (resolutions_of cursor scope edge_ids) ≡ activations)
      × (activations ≢ [])
unfolding decide_edges
decide_edges-FanIn ir node_id scope cursor edge_ids activations h =
    let resolutions = resolutions_of cursor scope edge_ids in
    elim (Bool-cases (is_empty edge_ids || any_of is_open resolutions)) [
      | inl stop ↦ ground arith
      | inr go ↦
          let (fit, some_selected) =
            runnable_or-cases (selected_activations resolutions) _ activations
              (skip_kind-ne-runnable ir node_id scope activations) (rw go at h) in
          (ground arith, fit, some_selected)
    ]

-- An instance runs only if it was neither scheduled nor skipped, and its fan-in is complete.
pub decide-FanIn :
    (ir : WorkflowIr) (node_id : Text) (scope : ExecutionScope) (cursor : SchedulerContext)
    (activations : List EdgeActivation)
    → decide ir node_id scope cursor ≡ ok (runnable activations)
    → (is_settled cursor (node_instance_key node_id scope) ≡ false)
      × FanIn ir cursor node_id scope activations
unfolding decide
decide-FanIn ir node_id scope cursor activations h =
    elim (Bool-cases (is_settled cursor (node_instance_key node_id scope))) [
      | inl known ↦ ground arith
      | inr fresh ↦
          (fresh, found-FanIn (incoming_edges_for_instance ir node_id scope) refl (rw fresh at h))
    ]
  where
    found-FanIn :
        (found : Result (List Text))
        → incoming_edges_for_instance ir node_id scope ≡ found
        → then_result found (decide_edges ir node_id scope cursor) ≡ ok (runnable activations)
        → FanIn ir cursor node_id scope activations
    found-FanIn (err c) e k = cc k
    found-FanIn (ok edge_ids) e k =
        let (closed, fit, some_selected) =
          decide_edges-FanIn ir node_id scope cursor edge_ids activations k in
        record {
          edge_ids = edge_ids;
          incoming = e;
          closed = closed;
          selected = fit;
          nonempty = some_selected;
        }
