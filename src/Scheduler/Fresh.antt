-- ===== src/Scheduler/Fresh.antt =====
-- What a handler of autoagent/core/scheduler/scheduler.py appends to the ready queue, as a relation between
-- the cursors before and after it.
use auto_agent.Shared.{
  ℕ, ◌≡◌, ◌≢◌, refl, sym, ap, ◌∙◌, true, false, Option, List, [], ◌∷◌, ◌++◌, append_assoc,
  append-nil, arith, All, All-append, All-map, Bool-cases, inl, inr,
}
use auto_agent.Shared.Keys.{Text, text_eq, ==_iff}
use auto_agent.Shared.Dict.{contains-add}
use auto_agent.Shared.Exec.{ok}
use auto_agent.Shared.Moves.{Moves}
use auto_agent.Runtime.Scope.{ExecutionScope, node_instance_key}
use auto_agent.Runtime.Cursor.{
  EdgeActivation, ResolutionState, NodeExecutionRequest, NodeExecutionTransition, SchedulerContext,
  resolve_edge, resolve_loop_boundary, enqueue_ready,
}
use auto_agent.Runtime.Cursor.Resolution.{resolve_edge-Grows, resolve_loop_boundary-Grows, Extends}
use auto_agent.Runtime.Execution.{RuntimeErrorInfo, EdgeEvaluation}
use auto_agent.Runtime.Invocation.{
  Invocation, InvocationState, set_failed, defer_terminal, can_defer,
}
use auto_agent.Ir.{WorkflowIr}
use auto_agent.Scheduler.Decision.{decide, runnable, is_settled}
use auto_agent.Scheduler.Decision.FanIn.{FanIn, FanIn-Extends, decide-FanIn}
use auto_agent.Scheduler.Advance.{schedule, request_for, add_skipped}
use auto_agent.Scheduler.Advance.Moves.{Writes}
use auto_agent.Scheduler.Moves.{HandlerWrites, next-Moves, skip_ready_request-Moves}
use auto_agent.Scheduler.{Env, next, skip_ready_request}

abbrev pub instance_of : NodeExecutionRequest → Text
instance_of request = node_instance_key request.node_id request.execution_scope

abbrev pub Distinct : List NodeExecutionRequest → Type 0
Distinct [] = Unit
Distinct (r ∷ rs) = All (λ q. instance_of r ≢ instance_of q) rs × Distinct rs

-- Between two cursors: what was appended to the ready queue, and what is true of it.
pub record Appends (ir : WorkflowIr) (c d : SchedulerContext) : Type 0 where
  pub added : List NodeExecutionRequest
  pub queue : d.ready_queue ≡ c.ready_queue ++ added
  pub resolved : Extends c.edge_resolutions d.edge_resolutions
  pub settled : (k : Text) → is_settled c k ≡ true → is_settled d k ≡ true
  pub fresh : All (λ r. is_settled c (instance_of r) ≡ false) added
  pub distinct : Distinct added
  pub marked : All (λ r. is_settled d (instance_of r) ≡ true) added
  pub fan_in : All (λ r. FanIn ir d r.node_id r.execution_scope r.activations) added

module _ (P : NodeExecutionRequest → NodeExecutionRequest → Type 0) where
  All-pairs :
      {Q T : NodeExecutionRequest → Type 0} (xs ys : List NodeExecutionRequest)
      → ((x y : NodeExecutionRequest) → Q x → T y → P x y)
      → All Q xs
      → All T ys
      → All (λ x. All (λ y. P x y) ys) xs
  All-pairs [] ys f q t = tt
  All-pairs (x ∷ xs) ys f q t =
      (All-map _ (λ y. P x y) ys (λ y. f x y q.0) t, All-pairs xs ys f q.1 t)

Distinct-append :
    (xs ys : List NodeExecutionRequest)
    → Distinct xs
    → Distinct ys
    → All (λ x. All (λ y. instance_of x ≢ instance_of y) ys) xs
    → Distinct (xs ++ ys)
Distinct-append [] ys d e f = e
Distinct-append (x ∷ xs) ys d e f = (All-append _ xs ys d.0 f.0, Distinct-append xs ys d.1 e f.1)

module _ (ir : WorkflowIr) where
  Appends-none :
      (c d : SchedulerContext)
      → d.ready_queue ≡ c.ready_queue
      → Extends c.edge_resolutions d.edge_resolutions
      → ((k : Text) → is_settled c k ≡ true → is_settled d k ≡ true)
      → Appends ir c d
  Appends-none c d e h k = record {
    added = [];
    queue = rw append-nil e;
    resolved = h;
    settled = k;
    fresh = tt;
    distinct = tt;
    marked = tt;
    fan_in = tt;
  }

  unsettled_before :
      (c d : SchedulerContext) (k : Text)
      → (is_settled c k ≡ true → is_settled d k ≡ true)
      → is_settled d k ≡ false
      → is_settled c k ≡ false
  unsettled_before c d k h e = elim (Bool-cases (is_settled c k)) [
    | inl known ↦ cc (h known)
    | inr new ↦ new
  ]

  Appends-trans : (c d e : SchedulerContext) → Appends ir c d → Appends ir d e → Appends ir c e
  Appends-trans c d e h k = record {
    added = h.added ++ k.added;
    queue = rw (k.queue, h.queue, append_assoc);
    resolved = λ key r x. k.resolved key r (h.resolved key r x);
    settled = λ key x. k.settled key (h.settled key x);
    fresh =
        All-append _ h.added k.added h.fresh
          (All-map _ _ k.added (λ r. unsettled_before c d (instance_of r) (h.settled _)) k.fresh);
    distinct = Distinct-append h.added k.added h.distinct k.distinct (
        All-pairs _ h.added k.added
          (λ x y m f same. cc (sym m ∙ ap (λ (t : Text). is_settled d t) same ∙ f)) h.marked
          k.fresh);
    marked =
        All-append _ h.added k.added (All-map _ _ h.added (λ r. k.settled _) h.marked) k.marked;
    fan_in =
        All-append _ h.added k.added
          (All-map _ _ h.added
            (λ r. FanIn-Extends ir d e r.node_id r.execution_scope r.activations k.resolved)
            h.fan_in)
          k.fan_in;
  }

abbrev pub Queues : WorkflowIr → Invocation → Invocation → Type 0
Queues ir s t = Appends ir s.scheduler t.scheduler

module _ (ir : WorkflowIr) where
  pub Appends-refl : (c : SchedulerContext) → Appends ir c c
  Appends-refl c = Appends-none ir c c refl (λ k r h. h) (λ k h. h)

  add_skipped-Appends : (key : Text) (c : SchedulerContext) → Appends ir c (add_skipped key c)
  add_skipped-Appends key c =
      Appends-none ir c (add_skipped key c) refl (λ k r h. h)
        (λ k h. rw contains-add (ground arith))

  resolve_edge-Appends :
      (edge_id : Text) (state : ResolutionState) (activation : Option EdgeActivation)
      (scope : ExecutionScope) (c : SchedulerContext)
      → Appends ir c (resolve_edge edge_id state activation scope c).1
  resolve_edge-Appends edge_id state activation scope c =
      let (d, e, grown) = resolve_edge-Grows edge_id state activation scope c in
      rw e (Appends-none ir c _ refl grown.extends (λ k h. h))

  resolve_loop_boundary-Appends :
      (region_id : Text) (scope : ExecutionScope) (edge_id : Text) (state : ResolutionState)
      (activation : Option EdgeActivation) (c : SchedulerContext)
      → Appends ir c (resolve_loop_boundary region_id scope edge_id state activation c).1
  resolve_loop_boundary-Appends region_id scope edge_id state activation c =
      let (d, e, grown) = resolve_loop_boundary-Grows edge_id state activation scope c region_id in
      rw e (Appends-none ir c _ refl (λ k r h. h) (λ k h. h))

  schedule-Appends :
      (node_id : Text) (scope : ExecutionScope) (activations : List EdgeActivation)
      (c : SchedulerContext)
      → decide ir node_id scope c ≡ ok (runnable activations)
      → Appends ir c (schedule node_id scope activations c)
  unfolding schedule enqueue_ready
  schedule-Appends node_id scope activations c e =
      let (new, complete) = decide-FanIn ir node_id scope c activations e in
      record {
        added = request_for node_id scope activations ∷ [];
        queue = refl;
        resolved = λ k r h. h;
        settled = λ k h. rw contains-add (ground arith);
        fresh = (new, tt);
        distinct = (tt, tt);
        marked = (rw (contains-add, (==_iff (node_instance_key node_id scope) _).1 refl), tt);
        fan_in = (FanIn-Extends ir c _ node_id scope activations (λ k r h. h) complete, tt);
      }

module _ (env : Env) (ir : WorkflowIr) where
  queue_writes : Writes env.now ir (Queues ir)
  unfolding set_failed
  queue_writes = record {
    preorder = record {
      reflexive = λ s. Appends-refl ir s.scheduler;
      transitive = λ s t u. Appends-trans ir s.scheduler t.scheduler u.scheduler;
    };
    fails = λ e s. Appends-refl ir s.scheduler;
    edges = λ edge_id state activation scope s.
        resolve_edge-Appends ir edge_id state activation scope s.scheduler;
    boundaries = λ region_id scope edge_id state activation s.
        resolve_loop_boundary-Appends ir region_id scope edge_id state activation s.scheduler;
    skips = λ key s. add_skipped-Appends ir key s.scheduler;
    exits = λ key s. Appends-none ir s.scheduler _ refl (λ k r h. h) (λ k h. h);
    enters = λ key s. Appends-none ir s.scheduler _ refl (λ k r h. h) (λ k h. h);
    schedules = λ node_id scope activations s e.
        schedule-Appends ir node_id scope activations s.scheduler e;
  }

  defer_terminal-Appends :
      (e : RuntimeErrorInfo) (state : InvocationState) (s : Invocation)
      → Queues ir s (defer_terminal env.now e state s).1
  unfolding defer_terminal
  defer_terminal-Appends e state s = elim (Bool-cases (can_defer state)) [
    | inl known ↦ rw known (Appends-refl ir s.scheduler)
    | inr other ↦ rw other (Appends-refl ir s.scheduler)
  ]

  queue_handlers :
      ((execution_id : ℕ) (evaluation : EdgeEvaluation)
        → Moves (Queues ir) (env.on_edge_evaluated execution_id evaluation))
      → HandlerWrites env ir (Queues ir)
  queue_handlers listens = record {
    advances = queue_writes;
    evaluates = λ execution_id evaluation s. Appends-refl ir s.scheduler;
    defers = defer_terminal-Appends;
    listens = listens;
  }

  -- With a listener that satisfies the same, `next`, whatever the transitions and the graph, and whether
  -- it returns or raises, keeps the ready queue and appends requests to it such that: no instance among
  -- them was scheduled or skipped before; no two of them are for one instance; each is scheduled or
  -- skipped now; and each has its fan-in complete: its incoming edges are all resolved, and its
  -- activations are those of the selected ones, one at least.
  pub next-Appends :
      ((execution_id : ℕ) (evaluation : EdgeEvaluation)
        → Moves (Queues ir) (env.on_edge_evaluated execution_id evaluation))
      → (transitions : List NodeExecutionTransition) (inv : Invocation)
      → Appends ir inv.scheduler (next env ir transitions inv).1.scheduler
  next-Appends listens transitions inv = (next-Moves (queue_handlers listens) transitions).at inv

  -- The same of `skip_ready_request`, by which recovery blocks a node.
  pub skip_ready_request-Appends :
      ((execution_id : ℕ) (evaluation : EdgeEvaluation)
        → Moves (Queues ir) (env.on_edge_evaluated execution_id evaluation))
      → (request : NodeExecutionRequest) (inv : Invocation)
      → Appends ir inv.scheduler (skip_ready_request env ir request inv).1.scheduler
  skip_ready_request-Appends listens request inv =
      (skip_ready_request-Moves (queue_handlers listens) request).at inv
