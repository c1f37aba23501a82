-- ===== src/Scheduler/Frame/Relation.antt =====
-- The relation between the invocation before and after that `Frame` is about, and the writes that keep it.
use auto_agent.Shared.{ℕ, ◌≤◌, arith, ◌≡◌, refl, ◌∙◌, [], map}
use auto_agent.Shared.Keys.{nat_eq}
use auto_agent.Shared.Moves.{Preorder}
use auto_agent.Runtime.Cursor.{SchedulerContext}
use auto_agent.Runtime.Execution.{RuntimeErrorInfo, NodeExecution}
use auto_agent.Runtime.Invocation.{minimal, Invocation, InvocationState, set_failed}

-- An execution without its edge evaluations and the time of its last change.
abbrev pub settled_part : NodeExecution → NodeExecution
settled_part execution = record execution { edge_evaluations = []; updated_at_ms = 0 }

-- The event mode and the event counter stay.
pub record SameEvents (s t : Invocation) : Type 0 where
  pub mode : t.event_mode ≡ s.event_mode
  pub sequence : t.event_sequence ≡ s.event_sequence

-- The event mode stays, and the event counter is not lowered, and not touched in minimal mode.
pub record RisingEvents (s t : Invocation) : Type 0 where
  pub mode : t.event_mode ≡ s.event_mode
  pub sequence : s.event_sequence ≤ t.event_sequence
  pub silent : s.event_mode ≡ minimal → t.event_sequence ≡ s.event_sequence

SameEvents-preorder : Preorder SameEvents
SameEvents-preorder = record {
  reflexive = λ s. record { mode = refl; sequence = refl };
  transitive = λ s t u h k. record { mode = k.mode ∙ h.mode; sequence = k.sequence ∙ h.sequence };
}

RisingEvents-as : (s t : Invocation) → SameEvents s t → RisingEvents s t
RisingEvents-as s t h = record {
  mode = h.mode;
  sequence = omega (arith, h.sequence);
  silent = λ m. h.sequence;
}

RisingEvents-trans : (s t u : Invocation) → RisingEvents s t → RisingEvents t u → RisingEvents s u
RisingEvents-trans s t u h k = record {
  mode = k.mode ∙ h.mode;
  sequence = omega (arith, h.sequence, k.sequence);
  silent = λ m. k.silent (h.mode ∙ m) ∙ h.silent m;
}

-- What is left alone; `Events` says what becomes of the event counter.
pub record LeavesAlone (Events : Invocation → Invocation → Type 0) (s t : Invocation) : Type 0 where
  pub executions : map settled_part t.node_executions ≡ map settled_part s.node_executions
  pub outputs : t.output_index ≡ s.output_index
  pub context : t.context ≡ s.context
  pub result : t.result ≡ s.result
  pub events : Events s t
  pub waits : t.scheduler.waiting_executions ≡ s.scheduler.waiting_executions
  pub transitions : t.scheduler.transition_queue ≡ s.scheduler.transition_queue
  pub failure : s.state ≡ InvocationState.failed → t.state ≡ InvocationState.failed
  pub states : (t.state ≡ InvocationState.failed → ⊥) → t.state ≡ s.state

-- A relation that holds where the event mode and the event counter stay
pub record CountsEvents (Events : Invocation → Invocation → Type 0) : Type 0 where
  pub order : Preorder Events
  pub same : (s t : Invocation) → SameEvents s t → Events s t

pub SameEvents-CountsEvents : CountsEvents SameEvents
SameEvents-CountsEvents = record { order = SameEvents-preorder; same = λ s t h. h }

pub RisingEvents-CountsEvents : CountsEvents RisingEvents
RisingEvents-CountsEvents = record {
  order = record {
    reflexive = λ s. RisingEvents-as s s (SameEvents-preorder.reflexive s);
    transitive = RisingEvents-trans;
  };
  same = RisingEvents-as;
}

module _ {Events : Invocation → Invocation → Type 0} (n : CountsEvents Events) where
  pub LeavesAlone-trans :
      (s t u : Invocation)
      → LeavesAlone Events s t
      → LeavesAlone Events t u
      → LeavesAlone Events s u
  LeavesAlone-trans s t u h k = record {
    executions = k.executions ∙ h.executions;
    outputs = k.outputs ∙ h.outputs;
    context = k.context ∙ h.context;
    result = k.result ∙ h.result;
    events = n.order.transitive s t u h.events k.events;
    waits = k.waits ∙ h.waits;
    transitions = k.transitions ∙ h.transitions;
    failure = λ f. k.failure (h.failure f);
    states = λ g. k.states g ∙ h.states (λ f. g (k.failure f));
  }

  -- A change of the cursor that keeps the waits and the transitions.
  pub cursor-LeavesAlone :
      (s : Invocation) (c : SchedulerContext)
      → c.waiting_executions ≡ s.scheduler.waiting_executions
      → c.transition_queue ≡ s.scheduler.transition_queue
      → LeavesAlone Events s (record s { scheduler = c })
  cursor-LeavesAlone s c e f = record {
    executions = refl;
    outputs = refl;
    context = refl;
    result = refl;
    events = n.same s _ (record { mode = refl; sequence = refl });
    waits = e;
    transitions = f;
    failure = λ h. h;
    states = λ g. refl;
  }

  pub LeavesAlone-refl : (s : Invocation) → LeavesAlone Events s s
  LeavesAlone-refl s = cursor-LeavesAlone s s.scheduler refl refl

  pub set_failed-LeavesAlone :
      (now : ℕ) (e : RuntimeErrorInfo) (s : Invocation) → LeavesAlone Events s (set_failed now e s)
  unfolding set_failed
  set_failed-LeavesAlone now e s = record {
    executions = refl;
    outputs = refl;
    context = refl;
    result = refl;
    events = n.same s _ (record { mode = refl; sequence = refl });
    waits = refl;
    transitions = refl;
    failure = λ h. refl;
    states = λ g. absurd (g refl);
  }
