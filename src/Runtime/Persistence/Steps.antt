-- ===== src/Runtime/Persistence/Steps.antt =====
-- The runs of a coordinator: every operation that changes it is a step, and a raise leaves the state that it
-- had reached. `uuid4` gives each envelope an id that no outstanding envelope has.
use auto_agent.Shared.{ℕ, ◌≡◌, Option, none}
use auto_agent.Shared.Keys.{Text, nat_eq}
use auto_agent.Shared.Dict
use auto_agent.Runtime.Persistence.{
  BackendState, PersistenceEnvelope, PersistenceFailure, PersistencePolicy, PersistenceReservation,
  PersistenceCoordinator, empty_coordinator, bind_consumer, admission_paused, try_reserve,
  adjust_size, publish, cancel, set_health, mark_healthy,
}
use auto_agent.Runtime.Persistence.Delivery.{
  take, discard, remember_durable, remember_user_events_durable, remember_admission_durable,
  mark_durable, mark_user_events_durable, mark_admission_durable, release_invocation_tracking,
  fail_invocation, degrade_invocation, degrade_user_events,
}

pub data Step (policy : PersistencePolicy)
    : PersistenceCoordinator → PersistenceCoordinator → Type 0 where
  binds : (wake : ℕ) (c : PersistenceCoordinator) → Step policy c (bind_consumer wake c).1
  asks_admission : (c : PersistenceCoordinator) → Step policy c (admission_paused policy c).1
  reserves :
      (envelope : PersistenceEnvelope) (c : PersistenceCoordinator)
      → Dict.get envelope.id c.outstanding_bytes ≡ none
      → Step policy c (try_reserve policy envelope c).1
  publishes :
      (now : ℕ) (failure : Option Text) (reservation : PersistenceReservation)
      (envelope : PersistenceEnvelope) (c : PersistenceCoordinator)
      → Step policy c (publish now failure reservation envelope c).1
  cancels :
      (reservation : PersistenceReservation) (c : PersistenceCoordinator)
      → Step policy c (cancel reservation c)
  takes : (limit : ℕ) (c : PersistenceCoordinator) → Step policy c (take limit c).1
  adjusts :
      (envelope_id exact_bytes : ℕ) (c : PersistenceCoordinator)
      → Step policy c (adjust_size envelope_id exact_bytes c)
  discards : (envelope_id : ℕ) (c : PersistenceCoordinator) → Step policy c (discard envelope_id c)
  marks_durable :
      (envelope_id invocation_id sequence : ℕ) (c : PersistenceCoordinator)
      → Step policy c (mark_durable envelope_id invocation_id sequence c)
  marks_user_events :
      (envelope_id invocation_id sequence : ℕ) (c : PersistenceCoordinator)
      → Step policy c (mark_user_events_durable envelope_id invocation_id sequence c)
  marks_admission :
      (envelope_id invocation_id : ℕ) (c : PersistenceCoordinator)
      → Step policy c (mark_admission_durable envelope_id invocation_id c)
  remembers :
      (invocation_id sequence : ℕ) (c : PersistenceCoordinator)
      → Step policy c (remember_durable invocation_id sequence c)
  remembers_user_events :
      (invocation_id sequence : ℕ) (c : PersistenceCoordinator)
      → Step policy c (remember_user_events_durable invocation_id sequence c)
  remembers_admission :
      (invocation_id : ℕ) (c : PersistenceCoordinator)
      → Step policy c (remember_admission_durable invocation_id c)
  releases :
      (invocation_id : ℕ) (c : PersistenceCoordinator)
      → Step policy c (release_invocation_tracking invocation_id c).1
  fails :
      (invocation_id sequence : ℕ) (message : Text) (c : PersistenceCoordinator)
      → Step policy c (fail_invocation invocation_id sequence message c)
  degrades :
      (failure : PersistenceFailure) (c : PersistenceCoordinator)
      → Step policy c (degrade_invocation failure c)
  degrades_user_events :
      (failure : PersistenceFailure) (c : PersistenceCoordinator)
      → Step policy c (degrade_user_events failure c)
  reports :
      (now : ℕ) (state : BackendState) (message : Text) (c : PersistenceCoordinator)
      → Step policy c (set_health now state message c)
  recovers : (now : ℕ) (c : PersistenceCoordinator) → Step policy c (mark_healthy now c)

-- what a new coordinator can become
pub data Reachable (policy : PersistencePolicy) : PersistenceCoordinator → Type 0 where
  fresh : Reachable policy empty_coordinator
  later : (c d : PersistenceCoordinator) → Reachable policy c → Step policy c d → Reachable policy d
