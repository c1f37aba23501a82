-- ===== src/Runtime/Invocation/Waits.antt =====
-- Completing a node by the executor, `mark_node_completed`, and by an external signal, `resume_waiting_node`.
use auto_agent.Shared.{
  ℕ, ◌≡◌, ◌≢◌, refl, ap, ◌∙◌, Bool, Option, true, false, none, some, List, [], ◌∷◌, ◌++◌, arith,
  Bool-cases, inl, inr, if◌then◌else◌, first_match,
}
use auto_agent.Shared.Keys.{Text, ◌==◌, ==_iff, nat_eq, text_eq}
use auto_agent.Shared.Dict
use auto_agent.Shared.Dict.{Dict, get-remove}
use auto_agent.Shared.Exec.{ok, ◌>>=◌, from_option}
use auto_agent.Runtime.Value.{Value}
use auto_agent.Runtime.Cursor.{WaitingExecution, NodeState, enqueue_transition}
use auto_agent.Runtime.Cursor.Waiting.{remove_found}
use auto_agent.Runtime.Execution.{NodeExecution, mark_completed}
use auto_agent.Runtime.Output
use auto_agent.Runtime.Invocation.{
  Invocation, InvocationState, get_node_execution, require_node_execution, has_id, update_first,
  mark_node_completed, resume_waiting_node, set_running, is_empty,
}

pick_here :
    (c a b : Bool) (fy fx y : NodeExecution) (rest : Option NodeExecution)
    → a ≡ c
    → b ≡ c
    → fy ≡ fx
    → (if a then some fy else rest) ≡ (if c then some fx else if b then some y else rest)
pick_here true a b fy fx y rest e g same = rw e (ap (λ z. some z) same)
pick_here false a b fy fx y rest e g same = rw (e, g) refl

pick_later :
    (b c : Bool) (fx y : NodeExecution) (rest left : Option NodeExecution)
    → (b ≡ true → c ≡ false)
    → left ≡ (if c then some fx else rest)
    → (if b then some y else left) ≡ (if c then some fx else if b then some y else rest)
pick_later false c fx y rest left apart e = e
pick_later true c fx y rest left apart e = rw (apart refl) refl

-- `update_first` with a function that keeps the ids changes what is found under its own id only.
first_match-update_first :
    (execution_id other : ℕ) (f : NodeExecution → NodeExecution) (xs : List NodeExecution)
    (x : NodeExecution)
    → ((y : NodeExecution) → (f y).id ≡ y.id)
    → first_match (has_id execution_id) xs ≡ some x
    → first_match (has_id other) (update_first execution_id f xs)
      ≡ (if execution_id == other then some (f x) else first_match (has_id other) xs)
first_match-update_first execution_id other f [] x keeps found = cc found
first_match-update_first execution_id other f (y ∷ ys) x keeps found =
    elim (Bool-cases (has_id execution_id y)) [
      | inl here ↦
          let same : y ≡ x = let e : some y ≡ some x = rw here at found in cc e in
          let known : y.id ≡ execution_id = (==_iff y.id execution_id).0 here in
          rw here (
            pick_here (execution_id == other) (has_id other (f y)) (has_id other y) (f y) (f x) y
              (first_match (has_id other) ys) (ap (λ n. n == other) (keeps y ∙ known))
              (ap (λ n. n == other) known) (ap f same))
      | inr later ↦ rw later (
          pick_later (has_id other y) (execution_id == other) (f x) y
            (first_match (has_id other) ys) _
            (ground (
              arith,
              ==_iff y.id execution_id,
              ==_iff y.id other,
              ==_iff execution_id other,
              later,
            ))
            (first_match-update_first execution_id other f ys x keeps (rw later at found)))
    ]

-- `t` is `s` after the wait `entry` of `execution` has ended with `output`.
pub record Resumed (now : ℕ) (wait_key : Text) (output : Value) (entry : WaitingExecution)
    (execution : NodeExecution) (s t : Invocation) : Type 0 where
  pub executions :
      (other : ℕ)
      → get_node_execution other t ≡ (
          if entry.node_execution_id == other
          then some (mark_completed now output execution)
          else get_node_execution other s)
  pub transitions :
      t.scheduler.transition_queue
      ≡ s.scheduler.transition_queue
        ++ record {
          node_execution_id = execution.id;
          node_id = execution.node_id;
          state = NodeState.completed;
        }
          ∷ []
  pub waits :
      (key : Text)
      → Dict.get key t.scheduler.waiting_executions
        ≡ (if wait_key == key then none else Dict.get key s.scheduler.waiting_executions)
  pub last_wait : t.scheduler.waiting_executions ≡ [] → t.state ≡ InvocationState.running
  pub more_waits : t.scheduler.waiting_executions ≢ [] → t.state ≡ s.state
  pub ready : t.scheduler.ready_queue ≡ s.scheduler.ready_queue
  pub outputs : t.output_index ≡ s.output_index

-- `mark_node_completed` of a known execution returns, and the output shows as the latest of its node.
pub mark_node_completed-latest :
    (now execution_id : ℕ) (output : Value) (inv : Invocation) (execution : NodeExecution)
    → get_node_execution execution_id inv ≡ some execution
    → ((mark_node_completed now execution_id output inv).0 ≡ ok tt)
      × (Output.latest
            (Output.view (mark_node_completed now execution_id output inv).1.output_index)
            execution.node_id
          ≡ some output)
unfolding mark_node_completed ◌>>=◌
mark_node_completed-latest now execution_id output inv execution found = (
  rw (found, from_option) refl,
  rw (found, from_option)
      (Output.Views.latest-view-add (mark_completed now output execution) inv.output_index),
)

empty_nil : (d : Dict Text WaitingExecution) → is_empty d ≡ true → d ≡ []
empty_nil [] e = refl
empty_nil (x ∷ d) e = cc e

-- what the invocation is before the last line
abbrev ended_wait : ℕ → Text → Value → WaitingExecution → NodeExecution → Invocation → Invocation
ended_wait now wait_key output entry execution inv = record inv {
  node_executions =
      update_first entry.node_execution_id (mark_completed now output) inv.node_executions;
  scheduler =
      enqueue_transition
        (record {
          node_execution_id = execution.id;
          node_id = execution.node_id;
          state = NodeState.completed;
        })
        (record (inv.scheduler) {
          waiting_executions = Dict.remove wait_key inv.scheduler.waiting_executions;
        });
}

run_if : Bool → ℕ → Invocation → Invocation
unfolding set_running
run_if b now inv = if b then set_running now inv else inv

resume_waiting_node_lem :
    (now : ℕ) (wait_key : Text) (output : Value) (inv : Invocation) (entry : WaitingExecution)
    (execution : NodeExecution)
    → Dict.get wait_key inv.scheduler.waiting_executions ≡ some entry
    → get_node_execution entry.node_execution_id inv ≡ some execution
    → resume_waiting_node now wait_key output inv ≡ (
      ok tt,
      run_if
          (is_empty (Dict.remove wait_key inv.scheduler.waiting_executions))
          now
          (ended_wait now wait_key output entry execution inv),
    )
unfolding resume_waiting_node ◌>>=◌ require_node_execution get_node_execution mark_completed
    enqueue_transition run_if
resume_waiting_node_lem now wait_key output inv entry execution waits known =
    rw (remove_found wait_key entry inv.scheduler waits, known) refl

Resumed-run_if :
    (b : Bool) (now : ℕ) (wait_key : Text) (output : Value) (inv : Invocation)
    (entry : WaitingExecution) (execution : NodeExecution)
    → get_node_execution entry.node_execution_id inv ≡ some execution
    → is_empty (Dict.remove wait_key inv.scheduler.waiting_executions) ≡ b
    → Resumed now wait_key output entry execution inv
        (run_if b now (ended_wait now wait_key output entry execution inv))
unfolding run_if get_node_execution enqueue_transition mark_completed set_running
Resumed-run_if true now wait_key output inv entry execution known empty = record {
  executions = λ other.
      first_match-update_first entry.node_execution_id other _ inv.node_executions execution
        (λ y. refl) known;
  transitions = refl;
  waits = λ key. get-remove wait_key key inv.scheduler.waiting_executions;
  last_wait = λ e. refl;
  more_waits = λ e. absurd (e (empty_nil _ empty));
  ready = refl;
  outputs = refl;
}
Resumed-run_if false now wait_key output inv entry execution known more = record {
  executions = λ other.
      first_match-update_first entry.node_execution_id other _ inv.node_executions execution
        (λ y. refl) known;
  transitions = refl;
  waits = λ key. get-remove wait_key key inv.scheduler.waiting_executions;
  last_wait = λ e. let h : true ≡ false = rw e at more in cc h;
  more_waits = λ e. refl;
  ready = refl;
  outputs = refl;
}

-- `resume_waiting_node` of a stored wait of a known execution returns: the execution is then completed
-- with the output of the signal and all others are as they were, its completion is the last queued
-- transition, the wait is gone and the other waits are as they were, the invocation runs where no
-- wait is left and else has the state that it had, and the ready queue and the index of outputs are
-- as they were.
pub resume_waiting_node-Resumed :
    (now : ℕ) (wait_key : Text) (output : Value) (inv : Invocation) (entry : WaitingExecution)
    (execution : NodeExecution)
    → Dict.get wait_key inv.scheduler.waiting_executions ≡ some entry
    → get_node_execution entry.node_execution_id inv ≡ some execution
    → ((resume_waiting_node now wait_key output inv).0 ≡ ok tt)
      × Resumed now wait_key output entry execution inv
          (resume_waiting_node now wait_key output inv).1
resume_waiting_node-Resumed now wait_key output inv entry execution waits known =
    rw (resume_waiting_node_lem now wait_key output inv entry execution waits known)
      (refl, Resumed-run_if _ now wait_key output inv entry execution known refl)
