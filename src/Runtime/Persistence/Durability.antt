-- ===== src/Runtime/Persistence/Durability.antt =====
-- What the sink has confirmed: the durable sequence of an invocation.
use auto_agent.Shared.{ℕ, ◌≡◌, arith, if◌then◌else◌, max}
use auto_agent.Shared.Keys.{◌==◌, ==_iff, nat_eq}
use auto_agent.Shared.Dict.{get-put}
use auto_agent.Runtime.Persistence.{PersistenceCoordinator, remove_outstanding}
use auto_agent.Runtime.Persistence.Delivery.{mark_durable, remember_durable, durable_sequence}

-- A confirmed sequence raises the durable sequence of its invocation, unless it was confirmed before that
-- a later one is durable, and leaves those of the others: confirmations may come in any order.
pub durable_sequence-mark_durable :
    (envelope_id invocation_id sequence other : ℕ) (c : PersistenceCoordinator)
    → durable_sequence other (mark_durable envelope_id invocation_id sequence c) ≡ (
        if invocation_id == other
        then max (durable_sequence other c) sequence
        else durable_sequence other c)
unfolding durable_sequence mark_durable remember_durable remove_outstanding
durable_sequence-mark_durable envelope_id invocation_id sequence other c =
    rw get-put (ground (arith, ==_iff invocation_id other))
