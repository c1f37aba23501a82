-- ===== src/Events.antt =====
-- autoagent/core/executor/workflow_executor.py: the recording of runtime events, as far as it touches the
-- invocation, and the listener for edge evaluations that `_drive` hands to the scheduler. `accepts` says
-- whether the runtime store takes the event with a number, or raises; the store reads the invocation
-- and writes nothing to it. The content of the event is not modelled.
pub mod Listening
use auto_agent.Shared.{ℕ, Bool, true, false, ◌||◌, ◌&&◌, List, [], ◌∷◌, if◌then◌else◌}
use auto_agent.Shared.Keys.{Text, text, ◌==◌, nat_eq, text_eq}
use auto_agent.Shared.Exec.{Result, Exec, pure, gets, asks, ◌>>=◌}
use auto_agent.Runtime.Execution.{EdgeEvaluation}
use auto_agent.Runtime.Invocation.{
  Invocation, EventMode, minimal, standard, full, next_event_sequence,
}

-- RuntimeEventType
pub data EventType : Type 0 where
  state_change recovery wait routing operator_call phase : EventType

unfoldable pub starts_with : Text → Text → Bool
starts_with [] name = true
starts_with (c ∷ rest) [] = false
starts_with (c ∷ rest) (d ∷ name) = c == d && starts_with rest name

-- _event_identity, without the name, which is handed back as it is
unfoldable pub event_identity : Text → EventType
unfolding starts_with
event_identity name =
    if starts_with (text "invocation.") name
    then state_change
    else if starts_with (text "recovery.") name
    then recovery
    else if starts_with (text "wait.") name
    then wait
    else if starts_with (text "edge.") name || starts_with (text "routing.") name
    then routing
    else if starts_with (text "operator_call.") name
    then operator_call
    else if starts_with (text "node.") name
    then state_change
    else phase

-- the modes and types for which no event is made
unfoldable pub is_silent : EventMode → EventType → Bool
is_silent minimal _ = true
is_silent standard phase = true
is_silent standard _ = false
is_silent full _ = false

-- `invocation.next_event_sequence()`
unfoldable pub take_sequence : Exec Invocation ℕ
unfolding next_event_sequence
take_sequence inv = let (sequence, inv') = next_event_sequence inv in (Result.ok sequence, inv')

module _ (accepts : Invocation → ℕ → Result (Unit {0})) where
  -- WorkflowExecutor._record_event
  unfoldable pub record_event : Text → Exec Invocation Unit
  unfolding event_identity is_silent take_sequence
  record_event name = do
    silent ← gets (λ inv. is_silent inv.event_mode (event_identity name))
    if silent then pure tt else do sequence ← take_sequence; asks (λ inv. accepts inv sequence)

  -- WorkflowExecutor._record_edge_event
  unfoldable pub record_edge_event : ℕ → EdgeEvaluation → Exec Invocation Unit
  unfolding record_event
  record_edge_event execution_id evaluation = record_event (text "edge.evaluated")
