-- ===== src/Scheduler/Frame.antt =====
-- What the scheduler leaves alone.
pub mod Relation
use auto_agent.Shared.{
  ℕ, ◌+◌, ◌≤◌, ◌≢◌, arith, ◌≡◌, refl, ap, ◌∙◌, List, [], ◌∷◌, map, Bool-cases, inl, inr,
}
use auto_agent.Shared.Keys.{nat_eq}
use auto_agent.Shared.Moves.{Preorder, Moves}
use auto_agent.Shared.Exec.{Result}
use auto_agent.Events.{record_edge_event}
use auto_agent.Events.Listening.{record_edge_event-Moves}
use auto_agent.Runtime.Cursor.{
  NodeExecutionTransition, SchedulerContext, enqueue_ready, drain_ready,
}
use auto_agent.Runtime.Cursor.Resolution.{resolve_edge-Grows, resolve_loop_boundary-Grows}
use auto_agent.Runtime.Execution.{
  RuntimeErrorInfo, EdgeEvaluation, NodeExecution, add_edge_evaluation,
}
use auto_agent.Runtime.Invocation.{
  minimal, Invocation, InvocationState, set_failed, defer_terminal, can_defer, update_first, has_id,
}
use auto_agent.Ir.{WorkflowIr}
use auto_agent.Scheduler.Advance.{schedule}
use auto_agent.Scheduler.Advance.Moves.{Writes}
use auto_agent.Scheduler.Moves.{HandlerWrites, next-Moves, initialize-Moves}
use auto_agent.Scheduler.{Env, next, requeue_entry, initialize}
use auto_agent.Scheduler.Frame.Relation.{
  settled_part, SameEvents, RisingEvents, LeavesAlone, CountsEvents, SameEvents-CountsEvents,
  RisingEvents-CountsEvents, LeavesAlone-trans, cursor-LeavesAlone, LeavesAlone-refl,
  set_failed-LeavesAlone,
}

update_first-settled_part :
    (execution_id : ℕ) (evaluation : EdgeEvaluation) (xs : List NodeExecution)
    → map settled_part (update_first execution_id (add_edge_evaluation evaluation) xs)
      ≡ map settled_part xs
unfolding add_edge_evaluation
update_first-settled_part execution_id evaluation [] = refl
update_first-settled_part execution_id evaluation (x ∷ xs) =
    elim (Bool-cases (has_id execution_id x)) [
      | inl here ↦ rw here refl
      | inr later ↦
          rw later
            (ap (λ l. settled_part x ∷ l) (update_first-settled_part execution_id evaluation xs))
    ]

module _ {Events : Invocation → Invocation → Type 0} (n : CountsEvents Events) (env : Env)
    (ir : WorkflowIr) where
  frame_writes : Writes env.now ir (LeavesAlone Events)
  unfolding schedule enqueue_ready
  frame_writes = record {
    preorder = record { reflexive = LeavesAlone-refl n; transitive = LeavesAlone-trans n };
    fails = set_failed-LeavesAlone n env.now;
    edges = λ edge_id state activation scope s.
        let (d, e, grown) = resolve_edge-Grows edge_id state activation scope s.scheduler in
        cursor-LeavesAlone n s _ (rw e) (rw e);
    boundaries = λ region_id scope edge_id state activation s.
        let (d, e, grown) =
          resolve_loop_boundary-Grows edge_id state activation scope s.scheduler region_id in
        cursor-LeavesAlone n s _ (rw e) (rw e);
    skips = λ key s. cursor-LeavesAlone n s _ refl refl;
    exits = λ key s. cursor-LeavesAlone n s _ refl refl;
    enters = λ key s. cursor-LeavesAlone n s _ refl refl;
    schedules = λ node_id scope activations s e. cursor-LeavesAlone n s _ refl refl;
  }

  frame_handlers :
      ((execution_id : ℕ) (evaluation : EdgeEvaluation)
        → Moves (LeavesAlone Events) (env.on_edge_evaluated execution_id evaluation))
      → HandlerWrites env ir (LeavesAlone Events)
  unfolding defer_terminal
  frame_handlers listens = record {
    advances = frame_writes;
    evaluates = λ execution_id evaluation s. record {
      executions = update_first-settled_part execution_id evaluation s.node_executions;
      outputs = refl;
      context = refl;
      result = refl;
      events = n.same s _ (record { mode = refl; sequence = refl });
      waits = refl;
      transitions = refl;
      failure = λ h. h;
      states = λ g. refl;
    };
    defers = λ e state s. elim (Bool-cases (can_defer state)) [
      | inl known ↦ rw known (record {
        executions = refl;
        outputs = refl;
        context = refl;
        result = refl;
        events = n.same s _ (record { mode = refl; sequence = refl });
        waits = refl;
        transitions = refl;
        failure = λ h. h;
        states = λ g. refl;
      })
      | inr other ↦ rw other (cursor-LeavesAlone n s s.scheduler refl refl)
    ];
    listens = listens;
  }

-- The scheduler with the listener that WorkflowExecutor hands to it.
abbrev pub heard_by : (Invocation → ℕ → Result (Unit {0})) → Env → Env
heard_by accepts env = record env { on_edge_evaluated = record_edge_event accepts }

counted-LeavesAlone :
    (s : Invocation)
    → s.event_mode ≢ minimal
    → LeavesAlone RisingEvents s (record s { event_sequence = s.event_sequence + 1 })
counted-LeavesAlone s heard = record {
  executions = refl;
  outputs = refl;
  context = refl;
  result = refl;
  events = record { mode = refl; sequence = omega arith; silent = λ m. absurd (heard m) };
  waits = refl;
  transitions = refl;
  failure = λ h. h;
  states = λ g. refl;
}

-- `next` with the program's own listener, whatever the transitions, the graph and the answers of the
-- store, and whether it returns or raises, changes no execution but in its edge evaluations and its time
-- of change, adds and drops none, and leaves the outputs, the context, the result, the waits and the
-- queued transitions as they are; the event mode stays, and the event counter is never lowered, and in
-- minimal mode stays too; a failed invocation stays failed, and one that has not failed has the state
-- that it had.
pub next-LeavesAlone :
    (env : Env) (ir : WorkflowIr) (accepts : Invocation → ℕ → Result (Unit {0}))
    (transitions : List NodeExecutionTransition) (inv : Invocation)
    → LeavesAlone RisingEvents inv (next (heard_by accepts env) ir transitions inv).1
next-LeavesAlone env ir accepts transitions inv =
    (next-Moves
        (frame_handlers RisingEvents-CountsEvents (heard_by accepts env) ir
          (λ execution_id evaluation.
            record_edge_event-Moves accepts execution_id evaluation
              (LeavesAlone-refl RisingEvents-CountsEvents) counted-LeavesAlone))
        transitions).at
      inv

module _ (env : Env) (ir : WorkflowIr) where
  requeue_entry-LeavesAlone : (s : Invocation) → LeavesAlone SameEvents s (requeue_entry env ir s)
  unfolding requeue_entry drain_ready schedule enqueue_ready
  requeue_entry-LeavesAlone s = cursor-LeavesAlone SameEvents-CountsEvents s _ refl refl

  -- `initialize`, whatever the graph and the entry, and also where it raises, changes no execution but in
  -- its edge evaluations and its time of change, and leaves the outputs, the context, the result, the event
  -- mode and counter, the waits and the queued transitions as they are; a failed invocation stays failed, and one
  -- that has not failed has the state that it had.
  pub initialize-LeavesAlone :
      (inv : Invocation) → LeavesAlone SameEvents inv (initialize env ir inv).1
  initialize-LeavesAlone inv =
      (initialize-Moves env (frame_writes SameEvents-CountsEvents env ir)
          requeue_entry-LeavesAlone).at
        inv
