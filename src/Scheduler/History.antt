-- ===== src/Scheduler/History.antt =====
-- What a handler of autoagent/core/scheduler/scheduler.py does to the tables of resolutions, as a relation
-- between the cursors before and after it.
use auto_agent.Shared.{ℕ, ◌≡◌, refl, Option, List, Bool-cases, inl, inr}
use auto_agent.Shared.Keys.{Text}
use auto_agent.Shared.Moves.{Preorder, Moves}
use auto_agent.Runtime.Scope.{ExecutionScope}
use auto_agent.Runtime.Cursor.{
  EdgeActivation, ResolutionState, NodeExecutionRequest, NodeExecutionTransition, SchedulerContext,
  resolve_edge, resolve_loop_boundary, enqueue_ready,
}
use auto_agent.Runtime.Cursor.Resolution.{
  Grows, Grows-refl, Extends-trans, resolve_edge-Grows, resolve_loop_boundary-Grows,
}
use auto_agent.Runtime.Execution.{RuntimeErrorInfo, EdgeEvaluation}
use auto_agent.Runtime.Invocation.{
  Invocation, InvocationState, set_failed, defer_terminal, can_defer,
}
use auto_agent.Ir.{WorkflowIr}
use auto_agent.Scheduler.Advance.{schedule}
use auto_agent.Scheduler.Advance.Moves.{Writes}
use auto_agent.Scheduler.Moves.{HandlerWrites, next-Moves, skip_ready_request-Moves}
use auto_agent.Scheduler.{Env, next, skip_ready_request}

pub record Recorded (before after : SchedulerContext) : Type 0 where
  pub edges : Grows before.edge_resolutions after.edge_resolutions
  pub boundaries : Grows before.loop_boundary_resolutions after.loop_boundary_resolutions

pub Recorded-refl : (c : SchedulerContext) → Recorded c c
Recorded-refl c = record {
  edges = Grows-refl c.edge_resolutions;
  boundaries = Grows-refl c.loop_boundary_resolutions;
}

Recorded-same :
    (c d : SchedulerContext)
    → d.edge_resolutions ≡ c.edge_resolutions
    → d.loop_boundary_resolutions ≡ c.loop_boundary_resolutions
    → Recorded c d
Recorded-same c d e f = record {
  edges = rw e (Grows-refl c.edge_resolutions);
  boundaries = rw f (Grows-refl c.loop_boundary_resolutions);
}

abbrev pub Keeps : Invocation → Invocation → Type 0
Keeps s t = Recorded s.scheduler t.scheduler

Recorded-preorder : Preorder Keeps
Recorded-preorder = record {
  reflexive = λ s. Recorded-refl s.scheduler;
  transitive = λ s t u h k. record {
    edges = record {
      extends = Extends-trans _ _ _ h.edges.extends k.edges.extends;
      consistent = λ x. k.edges.consistent (h.edges.consistent x);
    };
    boundaries = record {
      extends = Extends-trans _ _ _ h.boundaries.extends k.boundaries.extends;
      consistent = λ x. k.boundaries.consistent (h.boundaries.consistent x);
    };
  };
}

pub resolve_edge-Recorded :
    (edge_id : Text) (state : ResolutionState) (activation : Option EdgeActivation)
    (scope : ExecutionScope) (c : SchedulerContext)
    → Recorded c (resolve_edge edge_id state activation scope c).1
resolve_edge-Recorded edge_id state activation scope c =
    let (d, e, grown) = resolve_edge-Grows edge_id state activation scope c in
    rw e (record { edges = grown; boundaries = Grows-refl c.loop_boundary_resolutions })

pub resolve_loop_boundary-Recorded :
    (region_id : Text) (scope : ExecutionScope) (edge_id : Text) (state : ResolutionState)
    (activation : Option EdgeActivation) (c : SchedulerContext)
    → Recorded c (resolve_loop_boundary region_id scope edge_id state activation c).1
resolve_loop_boundary-Recorded region_id scope edge_id state activation c =
    let (d, e, grown) = resolve_loop_boundary-Grows edge_id state activation scope c region_id in
    rw e (record { edges = Grows-refl c.edge_resolutions; boundaries = grown })

module _ (env : Env) (ir : WorkflowIr) where
  recorded_writes : Writes env.now ir Keeps
  unfolding set_failed schedule enqueue_ready
  recorded_writes = record {
    preorder = Recorded-preorder;
    fails = λ e s. Recorded-refl s.scheduler;
    edges = λ edge_id state activation scope s.
        resolve_edge-Recorded edge_id state activation scope s.scheduler;
    boundaries = λ region_id scope edge_id state activation s.
        resolve_loop_boundary-Recorded region_id scope edge_id state activation s.scheduler;
    skips = λ key s. Recorded-same s.scheduler _ refl refl;
    exits = λ key s. Recorded-same s.scheduler _ refl refl;
    enters = λ key s. Recorded-same s.scheduler _ refl refl;
    schedules = λ node_id scope activations s e. Recorded-same s.scheduler _ refl refl;
  }

  defer_terminal-Recorded :
      (e : RuntimeErrorInfo) (state : InvocationState) (s : Invocation)
      → Keeps s (defer_terminal env.now e state s).1
  unfolding defer_terminal
  defer_terminal-Recorded e state s = elim (Bool-cases (can_defer state)) [
    | inl known ↦ rw known (Recorded-refl s.scheduler)
    | inr other ↦ rw other (Recorded-refl s.scheduler)
  ]

  recorded_handlers :
      ((execution_id : ℕ) (evaluation : EdgeEvaluation)
        → Moves Keeps (env.on_edge_evaluated execution_id evaluation))
      → HandlerWrites env ir Keeps
  recorded_handlers listens = record {
    advances = recorded_writes;
    evaluates = λ execution_id evaluation s. Recorded-refl s.scheduler;
    defers = defer_terminal-Recorded;
    listens = listens;
  }

  -- With a listener that keeps the resolutions, `next`, whatever the transitions and the graph, and
  -- whether it returns or raises, leaves every recorded resolution of an edge occurrence and of a loop
  -- boundary as it is; and where each selected resolution has an activation and each skipped one none,
  -- this holds afterwards too.
  pub next-Recorded :
      ((execution_id : ℕ) (evaluation : EdgeEvaluation)
        → Moves Keeps (env.on_edge_evaluated execution_id evaluation))
      → (transitions : List NodeExecutionTransition) (inv : Invocation)
      → Recorded inv.scheduler (next env ir transitions inv).1.scheduler
  next-Recorded listens transitions inv =
      (next-Moves (recorded_handlers listens) transitions).at inv

  -- The same of `skip_ready_request`, by which recovery blocks a node.
  pub skip_ready_request-Recorded :
      ((execution_id : ℕ) (evaluation : EdgeEvaluation)
        → Moves Keeps (env.on_edge_evaluated execution_id evaluation))
      → (request : NodeExecutionRequest) (inv : Invocation)
      → Recorded inv.scheduler (skip_ready_request env ir request inv).1.scheduler
  skip_ready_request-Recorded listens request inv =
      (skip_ready_request-Moves (recorded_handlers listens) request).at inv
