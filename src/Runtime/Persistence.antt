-- ===== src/Runtime/Persistence.antt =====
-- autoagent/core/runtime/persistence.py: `PersistenceCoordinator`, the bounded queue between the runtime and
-- a durable sink. Ids (UUIDs) are numbers. A recovery snapshot is given by the estimate of its state, and
-- an envelope has the fields that the coordinator reads. The wait for admission, `flush`, which only
-- polls, and the listeners, which are advisory, are not modelled.
pub mod Delivery
pub mod Steps
pub mod Accounting
pub mod Durability
pub mod Taking
pub mod Samples
use auto_agent.Shared.{
  ℕ, zero, suc, ◌+◌, ◌-◌, max, Bool, true, false, ◌&&◌, ◌||◌, not, Option, none, some, List, [],
  ◌∷◌, ◌++◌, map, if◌then◌else◌, ltb, leb, eqb, any_of, keep, length, or_else, is_some, first_match,
  reversed,
}
use auto_agent.Shared.Keys.{Text, text, decimal, ◌==◌, nat_eq, text_eq}
use auto_agent.Shared.Dict
use auto_agent.Shared.Dict.{Dict, contains}
use auto_agent.Shared.Exec.{
  Result, ok, err, Exec, out_of_fuel, unknown_reservation, records_outstanding, missing_queue,
  other_consumer,
}

pub data PersistenceKind : Type 0 where
  workflow_version admission invocation_state event user_event_batch : PersistenceKind

abbrev pub is_event : PersistenceKind → Bool
is_event event = true
is_event _ = false

abbrev pub is_user_events : PersistenceKind → Bool
is_user_events user_event_batch = true
is_user_events _ = false

pub data BackendState : Type 0 where
  healthy retrying unavailable : BackendState

pub record PersistenceHealth : Type 0 where
  pub state : BackendState
  pub last_error : Option Text
  pub changed_at_ms : Option ℕ
  pub last_success_at_ms : Option ℕ

-- the checked watermarks
pub record PersistencePolicy : Type 0 where
  pub queue_high_watermark_bytes : ℕ
  pub queue_low_watermark_bytes : ℕ
  pub queue_hard_watermark_bytes : ℕ

pub record PersistenceEnvelope : Type 0 where
  pub kind : PersistenceKind
  pub session_id : Option ℕ
  pub invocation_id : Option ℕ
  pub estimated_bytes : ℕ
  pub recovery_snapshot : Option ℕ
  pub recovery_snapshot_estimated_bytes : ℕ
  pub id : ℕ

pub record PersistenceReservation : Type 0 where
  pub id : ℕ
  pub invocation_id : Option ℕ
  pub estimated_bytes : ℕ

-- an error or a gap of one invocation
pub record PersistenceFailure : Type 0 where
  pub invocation_id : ℕ
  pub sequence : ℕ
  pub message : Text

pub record PersistenceCoordinator : Type 0 where
  pub incoming : Dict Text (List PersistenceEnvelope)
  pub ready_sessions : List Text
  pub ready_set : List Text
  pub reservations : Dict ℕ PersistenceReservation
  pub outstanding_bytes : Dict ℕ ℕ
  pub outstanding_invocations : Dict ℕ (Option ℕ)
  pub outstanding_kinds : Dict ℕ PersistenceKind
  pub pending_bytes : ℕ
  pub durable_sequences : Dict ℕ ℕ
  pub durable_admissions : List ℕ
  pub invocation_errors : Dict ℕ PersistenceFailure
  pub invocation_gaps : Dict ℕ PersistenceFailure
  pub user_event_gaps : Dict ℕ PersistenceFailure
  pub durable_user_event_sequences : Dict ℕ ℕ
  pub health : PersistenceHealth
  pub admission_pressure : Bool
  pub consumer : Option ℕ

abbrev pub empty_coordinator : PersistenceCoordinator
empty_coordinator = record {
  incoming = [];
  ready_sessions = [];
  ready_set = [];
  reservations = [];
  outstanding_bytes = [];
  outstanding_invocations = [];
  outstanding_kinds = [];
  pending_bytes = 0;
  durable_sequences = [];
  durable_admissions = [];
  invocation_errors = [];
  invocation_gaps = [];
  user_event_gaps = [];
  durable_user_event_sequences = [];
  health = record {
    state = healthy;
    last_error = none;
    changed_at_ms = none;
    last_success_at_ms = none;
  };
  admission_pressure = false;
  consumer = none;
}

-- `wake` tells the callables apart. Another consumer than the bound one is refused.
unfoldable pub bind_consumer : ℕ → Exec PersistenceCoordinator Unit
bind_consumer wake c =
    let bound = record c { consumer = some wake } in
    elim c.consumer [
      | none ↦ (ok tt, bound)
      | some other ↦ if other == wake then (ok tt, bound) else (err other_consumer, c)
    ]

-- The property `admission_paused` also remembers its answer.
unfoldable pub admission_paused :
    PersistencePolicy → PersistenceCoordinator → Bool × PersistenceCoordinator
admission_paused policy c =
    let pressure =
      if leb policy.queue_high_watermark_bytes c.pending_bytes
      then true
      else if c.admission_pressure && leb c.pending_bytes policy.queue_low_watermark_bytes
      then false
      else c.admission_pressure in
    (pressure, record c { admission_pressure = pressure })

abbrev pub known_in : {V : Type 0} → Option ℕ → Dict ℕ V → Bool
known_in none table = false
known_in (some invocation_id) table = is_some (Dict.get invocation_id table)

abbrev pub refused : PersistencePolicy → PersistenceEnvelope → PersistenceCoordinator → Bool
refused policy envelope c =
    (not (is_user_events envelope.kind)
      && (known_in envelope.invocation_id c.invocation_errors
          || known_in envelope.invocation_id c.invocation_gaps))
    || ltb policy.queue_hard_watermark_bytes (c.pending_bytes + envelope.estimated_bytes)

abbrev pub reservation_for : PersistenceEnvelope → PersistenceReservation
reservation_for envelope = record {
  id = envelope.id;
  invocation_id = envelope.invocation_id;
  estimated_bytes = envelope.estimated_bytes;
}

unfoldable pub try_reserve :
    PersistencePolicy
    → PersistenceEnvelope
    → PersistenceCoordinator
    → Option PersistenceReservation × PersistenceCoordinator
try_reserve policy envelope c = if refused policy envelope c then (none, c) else (
  some (reservation_for envelope),
  record c {
    reservations = Dict.put envelope.id (reservation_for envelope) c.reservations;
    outstanding_bytes = Dict.put envelope.id envelope.estimated_bytes c.outstanding_bytes;
    outstanding_invocations = Dict.put envelope.id envelope.invocation_id c.outstanding_invocations;
    outstanding_kinds = Dict.put envelope.id envelope.kind c.outstanding_kinds;
    pending_bytes = c.pending_bytes + envelope.estimated_bytes;
  },
)

-- The change of one outstanding size: `adjust_size`, and the end of the coalescing.
unfoldable pub adjust_size : ℕ → ℕ → PersistenceCoordinator → PersistenceCoordinator
adjust_size envelope_id exact_bytes c = elim (Dict.get envelope_id c.outstanding_bytes) [
  | none ↦ c
  | some previous ↦ record c {
    outstanding_bytes = Dict.put envelope_id exact_bytes c.outstanding_bytes;
    pending_bytes = c.pending_bytes + exact_bytes - previous;
  }
]

unfoldable pub remove_outstanding : ℕ → PersistenceCoordinator → PersistenceCoordinator
remove_outstanding envelope_id c = record c {
  outstanding_bytes = Dict.remove envelope_id c.outstanding_bytes;
  outstanding_invocations = Dict.remove envelope_id c.outstanding_invocations;
  outstanding_kinds = Dict.remove envelope_id c.outstanding_kinds;
  pending_bytes = c.pending_bytes - or_else (Dict.get envelope_id c.outstanding_bytes) 0;
}

abbrev pub belongs_to : ℕ → Option ℕ → Bool
belongs_to invocation_id none = false
belongs_to invocation_id (some other) = other == invocation_id

abbrev pub carries_recovery : ℕ → PersistenceEnvelope → Bool
carries_recovery invocation_id envelope =
    belongs_to invocation_id envelope.invocation_id && is_some envelope.recovery_snapshot

abbrev pub removed_bytes : PersistenceEnvelope → ℕ
removed_bytes previous =
    if eqb previous.recovery_snapshot_estimated_bytes 0
    then or_else previous.recovery_snapshot 0
    else previous.recovery_snapshot_estimated_bytes

abbrev pub without_recovery : PersistenceEnvelope → PersistenceEnvelope
without_recovery previous = record previous {
  estimated_bytes = max 256 (previous.estimated_bytes - removed_bytes previous);
  recovery_snapshot = none;
  recovery_snapshot_estimated_bytes = 0;
}

-- the queue with its newest recovery state of the invocation taken off
abbrev pub strip_newest : ℕ → List PersistenceEnvelope → List PersistenceEnvelope
strip_newest invocation_id [] = []
strip_newest invocation_id (x ∷ queue) =
    let rest = strip_newest invocation_id queue in
    if any_of (carries_recovery invocation_id) queue
    then x ∷ rest
    else if carries_recovery invocation_id x
    then without_recovery x ∷ queue
    else x ∷ queue

abbrev pub shrink_newest :
    Option PersistenceEnvelope → PersistenceCoordinator → PersistenceCoordinator
shrink_newest none c = c
shrink_newest (some previous) c =
    adjust_size previous.id (without_recovery previous).estimated_bytes c

-- _coalesce_queued_recovery_state
unfoldable pub coalesce :
    ℕ
    → List PersistenceEnvelope
    → PersistenceCoordinator
    → List PersistenceEnvelope × PersistenceCoordinator
coalesce invocation_id queue c = (
  strip_newest invocation_id queue,
  shrink_newest (first_match (carries_recovery invocation_id) (reversed queue)) c,
)

abbrev pub coalesce_if :
    Bool
    → Option ℕ
    → List PersistenceEnvelope
    → PersistenceCoordinator
    → List PersistenceEnvelope × PersistenceCoordinator
coalesce_if true (some invocation_id) queue c = coalesce invocation_id queue c
coalesce_if _ _ queue c = (queue, c)

abbrev pub queue_key : Option ℕ → Text
queue_key none = text "__control__"
queue_key (some session_id) = decimal session_id

abbrev pub optional_beq : Option ℕ → Option ℕ → Bool
optional_beq none none = true
optional_beq (some a) (some b) = a == b
optional_beq _ _ = false

-- `known == reservation and envelope.id == reservation.id`
abbrev pub reservation_fits :
    Option PersistenceReservation → PersistenceReservation → PersistenceEnvelope → Bool
reservation_fits none reservation envelope = false
reservation_fits (some known) reservation envelope =
    (known.id == reservation.id
      && (optional_beq known.invocation_id reservation.invocation_id
          && known.estimated_bytes == reservation.estimated_bytes))
    && envelope.id == reservation.id

-- `queue.append(envelope)`, and the session becomes ready
unfoldable pub enqueue : PersistenceEnvelope → PersistenceCoordinator → PersistenceCoordinator
enqueue envelope c =
    let key = queue_key envelope.session_id in
    let (queue, c') =
      coalesce_if (is_event envelope.kind && is_some envelope.recovery_snapshot)
        envelope.invocation_id (or_else (Dict.get key c.incoming) []) c in
    record c' {
      incoming = Dict.put key (queue ++ envelope ∷ []) c.incoming;
      ready_sessions =
          if contains key c.ready_set then c.ready_sessions else c.ready_sessions ++ key ∷ [];
      ready_set = Dict.add key c.ready_set;
    }

-- _set_health
unfoldable pub set_health :
    ℕ → BackendState → Text → PersistenceCoordinator → PersistenceCoordinator
set_health now state message c = record c {
  health = record {
    state = state;
    last_error = some message;
    changed_at_ms = some now;
    last_success_at_ms = c.health.last_success_at_ms;
  };
}

unfoldable pub mark_unavailable : ℕ → Text → PersistenceCoordinator → PersistenceCoordinator
unfolding set_health
mark_unavailable now message =
    set_health now unavailable (text "Runtime persistence backend is unavailable: " ++ message)

unfoldable pub mark_healthy : ℕ → PersistenceCoordinator → PersistenceCoordinator
mark_healthy now c = record c {
  health = record {
    state = healthy;
    last_error = none;
    changed_at_ms = some now;
    last_success_at_ms = some now;
  };
}

-- `wake()`, which may raise with a message
abbrev pub wake_consumer :
    ℕ → Option Text → Bool → Bool → PersistenceCoordinator → PersistenceCoordinator
wake_consumer now failure false should_wake c =
    mark_unavailable now (text "Persistence consumer is not initialized.") c
wake_consumer now failure true false c = c
wake_consumer now none true true c = c
wake_consumer now (some message) true true c = mark_unavailable now message c

abbrev pub no_sessions : List Text → Bool
no_sessions [] = true
no_sessions (key ∷ keys) = false

-- `failure` is what a call of the consumer's wake-up would raise.
unfoldable pub publish :
    ℕ
    → Option Text
    → PersistenceReservation
    → PersistenceEnvelope
    → Exec PersistenceCoordinator Unit
unfolding enqueue
publish now failure reservation envelope c =
    let known = Dict.get reservation.id c.reservations in
    let c' = record c { reservations = Dict.remove reservation.id c.reservations } in
    if reservation_fits known reservation envelope
    then (
      ok tt,
      wake_consumer now failure (is_some c.consumer) (no_sessions c.ready_sessions)
          (enqueue envelope c'),
    )
    else (err unknown_reservation, c')

unfoldable pub cancel : PersistenceReservation → PersistenceCoordinator → PersistenceCoordinator
unfolding remove_outstanding
cancel reservation c =
    remove_outstanding reservation.id
      (record c { reservations = Dict.remove reservation.id c.reservations })
