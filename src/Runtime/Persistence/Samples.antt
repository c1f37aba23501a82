-- ===== src/Runtime/Persistence/Samples.antt =====
-- One envelope on its way through the coordinator.
use auto_agent.Shared.{◌≤◌, ◌≡◌, refl, none, some, [], ◌∷◌, arith, max}
use auto_agent.Shared.Keys.{text, nat_eq, text_eq}
use auto_agent.Shared.Dict
use auto_agent.Shared.Dict.{contains}
use auto_agent.Runtime.Persistence.{
  PersistenceEnvelope, event, PersistencePolicy, PersistenceCoordinator, empty_coordinator,
  try_reserve,
}
use auto_agent.Runtime.Persistence.Delivery.{take, mark_durable, durable_sequence}
use auto_agent.Runtime.Persistence.Steps.{Step, Reachable}
use auto_agent.Runtime.Persistence.Accounting.{IsAccounted, Reachable-IsAccounted, try_reserve-hard}
use auto_agent.Runtime.Persistence.Taking.{IsQueued, Returns, take-Returns}
use auto_agent.Runtime.Persistence.Durability.{durable_sequence-mark_durable}

abbrev small : PersistencePolicy
small = record {
  queue_high_watermark_bytes = 1_000;
  queue_low_watermark_bytes = 500;
  queue_hard_watermark_bytes = 2_000;
}

abbrev first_event : PersistenceEnvelope
first_event = record {
  kind = event;
  session_id = some 1;
  invocation_id = some 7;
  estimated_bytes = 300;
  recovery_snapshot = none;
  recovery_snapshot_estimated_bytes = 0;
  id = 40;
}

reserved : PersistenceCoordinator
reserved = (try_reserve small first_event empty_coordinator).1

is_new : Dict.get 40 empty_coordinator.outstanding_bytes ≡ none
unfolding Dict.get
is_new = refl

is_reached : Reachable small (mark_durable 40 7 1 reserved)
unfolding reserved
is_reached =
    Reachable.later _ _
      (Reachable.later _ _ Reachable.fresh (Step.reserves first_event empty_coordinator is_new))
      (Step.marks_durable 40 7 1 reserved)

Reachable-IsAccounted_example : IsAccounted (mark_durable 40 7 1 reserved)
Reachable-IsAccounted_example =
    Reachable-IsAccounted small (mark_durable 40 7 1 reserved) is_reached

try_reserve-hard_example :
    (try_reserve small first_event empty_coordinator).1.pending_bytes
    ≤ small.queue_hard_watermark_bytes
try_reserve-hard_example = try_reserve-hard small first_event empty_coordinator (omega arith)

durable_sequence-mark_durable_example :
    durable_sequence 7 (mark_durable 40 7 1 reserved) ≡ max (durable_sequence 7 reserved) 1
durable_sequence-mark_durable_example = durable_sequence-mark_durable 40 7 1 7 reserved

-- one ready session with two envelopes
abbrev two_queued : PersistenceCoordinator
two_queued = record empty_coordinator {
  incoming = (text "1", first_event ∷ record first_event { id = 41 } ∷ []) ∷ [];
  ready_sessions = text "1" ∷ [];
  ready_set = text "1" ∷ [];
}

two_queued-IsQueued : IsQueued two_queued
unfolding Dict.get
two_queued-IsQueued = record {
  served = ((first_event, record first_event { id = 41 } ∷ [], refl), tt);
  different = (tt, tt);
  unique = (refl, tt);
}

take-Returns_example : Returns 1 (take 1 two_queued)
take-Returns_example = take-Returns 1 two_queued two_queued-IsQueued
