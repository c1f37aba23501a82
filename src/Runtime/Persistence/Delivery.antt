-- ===== src/Runtime/Persistence/Delivery.antt =====
-- autoagent/core/runtime/persistence.py: the operations of the coordinator that the durable sink calls, and
-- the status of an invocation.
use auto_agent.Shared.{
  ℕ, zero, suc, ◌+◌, max, Bool, true, false, ◌&&◌, not, Option, none, some, List, [], ◌∷◌, ◌++◌,
  if◌then◌else◌, ltb, leb, any_of, keep, length, or_else, is_some,
}
use auto_agent.Shared.Keys.{Text, nat_eq, text_eq}
use auto_agent.Shared.Dict
use auto_agent.Shared.Dict.{Dict, contains}
use auto_agent.Shared.Exec.{Result, ok, err, Exec, out_of_fuel, records_outstanding, missing_queue}
use auto_agent.Runtime.Persistence.{
  PersistenceKind, is_user_events, BackendState, unavailable, PersistenceEnvelope,
  PersistenceFailure, PersistenceCoordinator, remove_outstanding, known_in, belongs_to,
}

abbrev pub is_nonempty {ℓ} : {A : Type ℓ} → List A → Bool
is_nonempty [] = false
is_nonempty (x ∷ xs) = true

-- `queue` is what is left of the queue of the session.
abbrev pub put_back :
    Text → List PersistenceEnvelope → List Text → PersistenceCoordinator → PersistenceCoordinator
put_back session_id [] sessions c = record c {
  incoming = Dict.remove session_id c.incoming;
  ready_sessions = sessions;
  ready_set = Dict.remove_key session_id c.ready_set;
}
put_back session_id (x ∷ queue) sessions c = record c {
  incoming = Dict.put session_id (x ∷ queue) c.incoming;
  ready_sessions = sessions ++ session_id ∷ [];
  ready_set = Dict.add session_id (Dict.remove_key session_id c.ready_set);
}

abbrev pub is_dead : PersistenceEnvelope → PersistenceCoordinator → Bool
is_dead envelope c =
    not (is_user_events envelope.kind) && known_in envelope.invocation_id c.invocation_errors

-- One round of the loop of `take`: the envelopes so far, and the coordinator.
abbrev pub take_from :
    Text
    → List Text
    → Option (List PersistenceEnvelope)
    → List PersistenceEnvelope
    → PersistenceCoordinator
    → Result (List PersistenceEnvelope) × PersistenceCoordinator
take_from session_id sessions none values c = (
  err missing_queue,
  record c { ready_sessions = sessions; ready_set = Dict.remove_key session_id c.ready_set },
)
take_from session_id sessions (some []) values c = (
  err missing_queue,
  record c { ready_sessions = sessions; ready_set = Dict.remove_key session_id c.ready_set },
)
take_from session_id sessions (some (envelope ∷ queue)) values c =
    if is_dead envelope c
    then (ok values, remove_outstanding envelope.id (put_back session_id queue sessions c))
    else (ok (values ++ envelope ∷ []), put_back session_id queue sessions c)

abbrev pub take_on :
    (List PersistenceEnvelope
      → PersistenceCoordinator
      → Result (List PersistenceEnvelope) × PersistenceCoordinator)
    → Result (List PersistenceEnvelope) × PersistenceCoordinator
    → Result (List PersistenceEnvelope) × PersistenceCoordinator
take_on go (ok values, c) = go values c
take_on go (err fault, c) = (err fault, c)

-- `while self._ready_sessions and len(values) < limit`, for at most `rounds` rounds
unfoldable pub take_loop :
    ℕ
    → ℕ
    → List Text
    → List PersistenceEnvelope
    → PersistenceCoordinator
    → Result (List PersistenceEnvelope) × PersistenceCoordinator
take_loop rounds limit [] values c = (ok values, c)
take_loop zero limit (session_id ∷ sessions) values c =
    if ltb (length values) limit then (err out_of_fuel, c) else (ok values, c)
take_loop (suc rounds) limit (session_id ∷ sessions) values c =
    let rest =
      take_on (λ more c'. take_loop rounds limit c'.ready_sessions more c')
        (take_from session_id sessions (Dict.get session_id c.incoming) values c) in
    if ltb (length values) limit then rest else (ok values, c)

unfoldable pub queued : Dict Text (List PersistenceEnvelope) → ℕ
queued [] = 0
queued ((session_id, queue) ∷ incoming) = length queue + queued incoming

unfoldable pub take : ℕ → Exec PersistenceCoordinator (List PersistenceEnvelope)
unfolding queued
take limit c = take_loop (queued c.incoming) limit c.ready_sessions [] c

unfoldable pub discard : ℕ → PersistenceCoordinator → PersistenceCoordinator
unfolding remove_outstanding
discard envelope_id c = remove_outstanding envelope_id c

-- `max(sequences.get(invocation_id, 0), sequence)`
abbrev pub raise_to : ℕ → ℕ → Dict ℕ ℕ → Dict ℕ ℕ
raise_to invocation_id sequence sequences =
    Dict.put invocation_id (max (or_else (Dict.get invocation_id sequences) 0) sequence) sequences

unfoldable pub remember_durable : ℕ → ℕ → PersistenceCoordinator → PersistenceCoordinator
remember_durable invocation_id sequence c = record c {
  durable_sequences = raise_to invocation_id sequence c.durable_sequences;
}

unfoldable pub remember_user_events_durable :
    ℕ → ℕ → PersistenceCoordinator → PersistenceCoordinator
remember_user_events_durable invocation_id sequence c = record c {
  durable_user_event_sequences = raise_to invocation_id sequence c.durable_user_event_sequences;
}

unfoldable pub remember_admission_durable : ℕ → PersistenceCoordinator → PersistenceCoordinator
remember_admission_durable invocation_id c = record c {
  durable_admissions = Dict.add invocation_id c.durable_admissions;
}

unfoldable pub mark_durable : ℕ → ℕ → ℕ → PersistenceCoordinator → PersistenceCoordinator
unfolding remember_durable remove_outstanding
mark_durable envelope_id invocation_id sequence c =
    remember_durable invocation_id sequence (remove_outstanding envelope_id c)

unfoldable pub mark_user_events_durable :
    ℕ → ℕ → ℕ → PersistenceCoordinator → PersistenceCoordinator
unfolding remember_user_events_durable remove_outstanding
mark_user_events_durable envelope_id invocation_id sequence c =
    remember_user_events_durable invocation_id sequence (remove_outstanding envelope_id c)

unfoldable pub mark_admission_durable : ℕ → ℕ → PersistenceCoordinator → PersistenceCoordinator
unfolding remember_admission_durable remove_outstanding
mark_admission_durable envelope_id invocation_id c =
    remember_admission_durable invocation_id (remove_outstanding envelope_id c)

unfoldable pub release_invocation_tracking : ℕ → Exec PersistenceCoordinator Unit
release_invocation_tracking invocation_id c =
    if any_of (λ entry. belongs_to invocation_id entry.1) c.outstanding_invocations
    then (err records_outstanding, c)
    else (
      ok tt,
      record c {
        durable_sequences = Dict.remove invocation_id c.durable_sequences;
        durable_user_event_sequences = Dict.remove invocation_id c.durable_user_event_sequences;
        durable_admissions = Dict.remove_key invocation_id c.durable_admissions;
        invocation_errors = Dict.remove invocation_id c.invocation_errors;
        invocation_gaps = Dict.remove invocation_id c.invocation_gaps;
        user_event_gaps = Dict.remove invocation_id c.user_event_gaps;
      },
    )

-- table.setdefault(failure.invocation_id, failure)
abbrev pub set_default : PersistenceFailure → Dict ℕ PersistenceFailure → Dict ℕ PersistenceFailure
set_default failure table =
    if is_some (Dict.get failure.invocation_id table)
    then table
    else Dict.put failure.invocation_id failure table

abbrev pub fails_with : ℕ → PersistenceEnvelope → Bool
fails_with invocation_id envelope =
    belongs_to invocation_id envelope.invocation_id && not (is_user_events envelope.kind)

-- `retained`: the queues without the envelopes of the invocation, the empty ones left out
abbrev pub retained :
    ℕ → Dict Text (List PersistenceEnvelope) → Dict Text (List PersistenceEnvelope)
retained invocation_id [] = []
retained invocation_id ((session_id, queue) ∷ incoming) =
    let kept = keep (λ envelope. not (fails_with invocation_id envelope)) queue in
    let rest = retained invocation_id incoming in
    if is_nonempty kept then (session_id, kept) ∷ rest else rest

-- the envelopes of the invocation, queue by queue
abbrev pub failed_envelopes : ℕ → Dict Text (List PersistenceEnvelope) → List PersistenceEnvelope
failed_envelopes invocation_id [] = []
failed_envelopes invocation_id ((session_id, queue) ∷ incoming) =
    keep (fails_with invocation_id) queue ++ failed_envelopes invocation_id incoming

unfoldable pub remove_all :
    List PersistenceEnvelope → PersistenceCoordinator → PersistenceCoordinator
unfolding remove_outstanding
remove_all [] c = c
remove_all (envelope ∷ rest) c = remove_all rest (remove_outstanding envelope.id c)

abbrev pub keep_retained :
    Dict Text (List PersistenceEnvelope) → PersistenceCoordinator → PersistenceCoordinator
keep_retained queues c =
    let sessions = keep (λ session_id. is_some (Dict.get session_id queues)) c.ready_sessions in
    record c { incoming = queues; ready_sessions = sessions; ready_set = sessions }

unfoldable pub fail_invocation : ℕ → ℕ → Text → PersistenceCoordinator → PersistenceCoordinator
unfolding remove_all
fail_invocation invocation_id sequence message c =
    let failure : PersistenceFailure = record {
      invocation_id = invocation_id;
      sequence = sequence;
      message = message;
    } in
    keep_retained (retained invocation_id c.incoming) (
      remove_all (failed_envelopes invocation_id c.incoming)
        (record c { invocation_errors = set_default failure c.invocation_errors }))

unfoldable pub degrade_invocation :
    PersistenceFailure → PersistenceCoordinator → PersistenceCoordinator
degrade_invocation failure c = record c { invocation_gaps = set_default failure c.invocation_gaps }

unfoldable pub degrade_user_events :
    PersistenceFailure → PersistenceCoordinator → PersistenceCoordinator
degrade_user_events failure c = record c { user_event_gaps = set_default failure c.user_event_gaps }

unfoldable pub durable_sequence : ℕ → PersistenceCoordinator → ℕ
durable_sequence invocation_id c = or_else (Dict.get invocation_id c.durable_sequences) 0

unfoldable pub durable_user_event_sequence : ℕ → PersistenceCoordinator → ℕ
durable_user_event_sequence invocation_id c =
    or_else (Dict.get invocation_id c.durable_user_event_sequences) 0

pub data PersistenceStatus : Type 0 where
  memory_only pending durable degraded unserializable : PersistenceStatus

abbrev bool_beq : Bool → Bool → Bool
bool_beq true b = b
bool_beq false b = not b

abbrev user_kind : Option PersistenceKind → Bool
user_kind none = false
user_kind (some kind) = is_user_events kind

-- Has the invocation an outstanding envelope that is, or is not, a batch of user events?
abbrev pub has_outstanding : Bool → ℕ → PersistenceCoordinator → Bool
has_outstanding of_user invocation_id c =
    any_of
      (λ entry.
        belongs_to invocation_id entry.1
        && bool_beq of_user (user_kind (Dict.get entry.0 c.outstanding_kinds)))
      c.outstanding_invocations

abbrev pub unless_unavailable : BackendState → PersistenceStatus
unless_unavailable unavailable = degraded
unless_unavailable _ = pending

unfoldable pub status : ℕ → ℕ → PersistenceCoordinator → PersistenceStatus
unfolding durable_sequence
status invocation_id expected_sequence c =
    if is_some (Dict.get invocation_id c.invocation_errors)
    then unserializable
    else if is_some (Dict.get invocation_id c.invocation_gaps)
    then degraded
    else if contains invocation_id c.durable_admissions
        && leb expected_sequence (durable_sequence invocation_id c)
        && not (has_outstanding false invocation_id c)
    then durable
    else unless_unavailable c.health.state

unfoldable pub user_event_status : ℕ → ℕ → PersistenceCoordinator → PersistenceStatus
unfolding durable_user_event_sequence
user_event_status invocation_id expected_sequence c =
    if is_some (Dict.get invocation_id c.user_event_gaps)
    then degraded
    else if leb expected_sequence (durable_user_event_sequence invocation_id c)
        && not (has_outstanding true invocation_id c)
    then durable
    else unless_unavailable c.health.state
