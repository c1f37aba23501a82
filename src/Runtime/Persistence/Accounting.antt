-- ===== src/Runtime/Persistence/Accounting.antt =====
-- The byte count of the persistence queue against the sizes of the outstanding envelopes.
use auto_agent.Shared.{
  ℕ, zero, suc, ◌+◌, ◌≤◌, ◌≡◌, refl, sym, ap, ◌∙◌, Bool, true, false, Option, none, some, List, [],
  ◌∷◌, arith, Bool-cases, Option-cases, inl, inr, or_else, length, ltb, any_of,
}
use auto_agent.Shared.Keys.{Text, nat_eq, text_eq}
use auto_agent.Shared.Dict
use auto_agent.Shared.Dict.{
  Dict, IsUnique, total, put-IsUnique, remove-IsUnique, total-put, total-remove,
}
use auto_agent.Shared.Exec.{Result, ok, err}
use auto_agent.Runtime.Persistence.{
  PersistenceEnvelope, PersistenceFailure, PersistencePolicy, PersistenceReservation,
  PersistenceCoordinator, bind_consumer, admission_paused, try_reserve, refused, adjust_size,
  remove_outstanding, shrink_newest, coalesce, coalesce_if, enqueue, set_health, mark_unavailable,
  mark_healthy, wake_consumer, reservation_fits, publish, cancel, belongs_to,
}
use auto_agent.Runtime.Persistence.Delivery.{
  put_back, take_from, take_on, take_loop, is_dead, take, set_default, failed_envelopes, discard,
  remember_durable, remember_user_events_durable, remember_admission_durable, mark_durable,
  mark_user_events_durable, mark_admission_durable, release_invocation_tracking, remove_all,
  fail_invocation, degrade_invocation, degrade_user_events,
}
use auto_agent.Runtime.Persistence.Steps.{Step, Reachable}

pub record IsAccounted (c : PersistenceCoordinator) : Type 0 where
  pub unique : IsUnique c.outstanding_bytes
  pub exact : c.pending_bytes ≡ total c.outstanding_bytes

-- The sizes and their count are all that matters.
IsAccounted-as :
    (c d : PersistenceCoordinator)
    → d.outstanding_bytes ≡ c.outstanding_bytes
    → d.pending_bytes ≡ c.pending_bytes
    → IsAccounted c
    → IsAccounted d
IsAccounted-as c d e f h = record { unique = rw e h.unique; exact = f ∙ h.exact ∙ ap total (sym e) }

remove_outstanding-IsAccounted :
    (envelope_id : ℕ) (c : PersistenceCoordinator)
    → IsAccounted c
    → IsAccounted (remove_outstanding envelope_id c)
unfolding remove_outstanding
remove_outstanding-IsAccounted envelope_id c h = record {
  unique = remove-IsUnique envelope_id c.outstanding_bytes h.unique;
  exact = omega (arith, h.exact, total-remove envelope_id c.outstanding_bytes h.unique);
}

total-put_as :
    (k n old : ℕ) (d : Dict ℕ ℕ)
    → or_else (Dict.get k d) 0 ≡ old
    → total (Dict.put k n d) + old ≡ total d + n
total-put_as k n old d e = ap (λ m. total (Dict.put k n d) + m) (sym e) ∙ total-put k n d

adjust_size-IsAccounted :
    (envelope_id exact_bytes : ℕ) (c : PersistenceCoordinator)
    → IsAccounted c
    → IsAccounted (adjust_size envelope_id exact_bytes c)
unfolding adjust_size
adjust_size-IsAccounted envelope_id exact_bytes c h =
    elim (Option-cases (Dict.get envelope_id c.outstanding_bytes)) [
      | inl missing ↦ rw (missing, adjust_size) h
      | inr (previous, found) ↦
          let sum : total (Dict.put envelope_id exact_bytes c.outstanding_bytes) + previous
              ≡ total c.outstanding_bytes + exact_bytes =
            total-put_as envelope_id exact_bytes previous c.outstanding_bytes
              (ap (λ o. or_else o 0) found) in
          rw (found, adjust_size)
            (record {
              unique = put-IsUnique envelope_id exact_bytes c.outstanding_bytes h.unique;
              exact = omega (arith, h.exact, sum);
            })
    ]

try_reserve-IsAccounted :
    (policy : PersistencePolicy) (envelope : PersistenceEnvelope) (c : PersistenceCoordinator)
    → Dict.get envelope.id c.outstanding_bytes ≡ none
    → IsAccounted c
    → IsAccounted (try_reserve policy envelope c).1
unfolding try_reserve
try_reserve-IsAccounted policy envelope c new h = elim (Bool-cases (refused policy envelope c)) [
  | inl refusal ↦ rw refusal h
  | inr room ↦
      let sum : total (Dict.put envelope.id envelope.estimated_bytes c.outstanding_bytes) + 0
          ≡ total c.outstanding_bytes + envelope.estimated_bytes =
        total-put_as envelope.id envelope.estimated_bytes 0 c.outstanding_bytes
          (ap (λ o. or_else o 0) new) in
      rw room (record {
        unique = put-IsUnique envelope.id envelope.estimated_bytes c.outstanding_bytes h.unique;
        exact = omega (arith, h.exact, sum);
      })
]

put_back-IsAccounted :
    (session_id : Text) (queue : List PersistenceEnvelope) (sessions : List Text)
    (c : PersistenceCoordinator)
    → IsAccounted c
    → IsAccounted (put_back session_id queue sessions c)
put_back-IsAccounted session_id [] sessions c h = IsAccounted-as c _ refl refl h
put_back-IsAccounted session_id (x ∷ queue) sessions c h = IsAccounted-as c _ refl refl h

take_from-IsAccounted :
    (session_id : Text) (sessions : List Text) (found : Option (List PersistenceEnvelope))
    (values : List PersistenceEnvelope) (c : PersistenceCoordinator)
    → IsAccounted c
    → IsAccounted (take_from session_id sessions found values c).1
take_from-IsAccounted session_id sessions none values c h = IsAccounted-as c _ refl refl h
take_from-IsAccounted session_id sessions (some []) values c h = IsAccounted-as c _ refl refl h
take_from-IsAccounted session_id sessions (some (envelope ∷ queue)) values c h =
    let back = put_back-IsAccounted session_id queue sessions c h in
    elim (Bool-cases (is_dead envelope c)) [
      | inl dead ↦ rw dead (remove_outstanding-IsAccounted envelope.id _ back)
      | inr alive ↦ rw alive back
    ]

take_on-IsAccounted :
    (go : List PersistenceEnvelope
      → PersistenceCoordinator
      → Result (List PersistenceEnvelope) × PersistenceCoordinator)
    (found : Result (List PersistenceEnvelope) × PersistenceCoordinator)
    → ((more : List PersistenceEnvelope) (c : PersistenceCoordinator)
        → IsAccounted c
        → IsAccounted (go more c).1)
    → IsAccounted found.1
    → IsAccounted (take_on go found).1
take_on-IsAccounted go (ok more, c) k h = k more c h
take_on-IsAccounted go (err fault, c) k h = h

take_loop-IsAccounted :
    (rounds limit : ℕ) (sessions : List Text) (values : List PersistenceEnvelope)
    (c : PersistenceCoordinator)
    → IsAccounted c
    → IsAccounted (take_loop rounds limit sessions values c).1
unfolding take_loop
take_loop-IsAccounted rounds limit [] values c h = h
take_loop-IsAccounted zero limit (session_id ∷ sessions) values c h =
    elim (Bool-cases (ltb (length values) limit)) [ inl more ↦ rw more h | inr full ↦ rw full h ]
take_loop-IsAccounted (suc rounds) limit (session_id ∷ sessions) values c h =
    elim (Bool-cases (ltb (length values) limit)) [
      | inl more ↦ rw more (
          take_on-IsAccounted _ _
            (λ next d. take_loop-IsAccounted rounds limit d.ready_sessions next d)
            (take_from-IsAccounted session_id sessions _ values c h))
      | inr full ↦ rw full h
    ]

remove_all-IsAccounted :
    (envelopes : List PersistenceEnvelope) (c : PersistenceCoordinator)
    → IsAccounted c
    → IsAccounted (remove_all envelopes c)
unfolding remove_all
remove_all-IsAccounted [] c h = h
remove_all-IsAccounted (envelope ∷ rest) c h =
    remove_all-IsAccounted rest _ (remove_outstanding-IsAccounted envelope.id c h)

fail_invocation-IsAccounted :
    (invocation_id sequence : ℕ) (message : Text) (c : PersistenceCoordinator)
    → IsAccounted c
    → IsAccounted (fail_invocation invocation_id sequence message c)
unfolding fail_invocation
fail_invocation-IsAccounted invocation_id sequence message c h =
    let failure : PersistenceFailure = record {
      invocation_id = invocation_id;
      sequence = sequence;
      message = message;
    } in
    let noted : PersistenceCoordinator = record c {
      invocation_errors = set_default failure c.invocation_errors;
    } in
    IsAccounted-as (remove_all (failed_envelopes invocation_id c.incoming) noted) _ refl refl (
      remove_all-IsAccounted (failed_envelopes invocation_id c.incoming) noted
        (IsAccounted-as c noted refl refl h))

shrink_newest-IsAccounted :
    (found : Option PersistenceEnvelope) (c : PersistenceCoordinator)
    → IsAccounted c
    → IsAccounted (shrink_newest found c)
shrink_newest-IsAccounted none c h = h
shrink_newest-IsAccounted (some previous) c h = adjust_size-IsAccounted previous.id _ c h

coalesce_if-IsAccounted :
    (wanted : Bool) (invocation_id : Option ℕ) (queue : List PersistenceEnvelope)
    (c : PersistenceCoordinator)
    → IsAccounted c
    → IsAccounted (coalesce_if wanted invocation_id queue c).1
unfolding coalesce
coalesce_if-IsAccounted true (some invocation_id) queue c h = shrink_newest-IsAccounted _ c h
coalesce_if-IsAccounted true none queue c h = h
coalesce_if-IsAccounted false (some invocation_id) queue c h = h
coalesce_if-IsAccounted false none queue c h = h

enqueue-IsAccounted :
    (envelope : PersistenceEnvelope) (c : PersistenceCoordinator)
    → IsAccounted c
    → IsAccounted (enqueue envelope c)
unfolding enqueue
enqueue-IsAccounted envelope c h =
    IsAccounted-as _ _ refl refl (coalesce_if-IsAccounted _ envelope.invocation_id _ c h)

wake_consumer-IsAccounted :
    (now : ℕ) (failure : Option Text) (bound should_wake : Bool) (c : PersistenceCoordinator)
    → IsAccounted c
    → IsAccounted (wake_consumer now failure bound should_wake c)
unfolding mark_unavailable
wake_consumer-IsAccounted now none false should_wake c h = IsAccounted-as c _ refl refl h
wake_consumer-IsAccounted now (some m) false should_wake c h = IsAccounted-as c _ refl refl h
wake_consumer-IsAccounted now none true false c h = h
wake_consumer-IsAccounted now (some m) true false c h = h
wake_consumer-IsAccounted now none true true c h = h
wake_consumer-IsAccounted now (some m) true true c h = IsAccounted-as c _ refl refl h

publish-IsAccounted :
    (now : ℕ) (failure : Option Text) (reservation : PersistenceReservation)
    (envelope : PersistenceEnvelope) (c : PersistenceCoordinator)
    → IsAccounted c
    → IsAccounted (publish now failure reservation envelope c).1
unfolding publish
publish-IsAccounted now failure reservation envelope c h =
    let without : IsAccounted
        (record c { reservations = Dict.remove reservation.id c.reservations }) =
      IsAccounted-as c _ refl refl h in
    elim (Bool-cases
      (reservation_fits (Dict.get reservation.id c.reservations) reservation envelope)) [
        | inl fits ↦
            rw fits
              (wake_consumer-IsAccounted now failure _ _ _ (enqueue-IsAccounted envelope _ without))
        | inr unknown ↦ rw unknown without
      ]

release-IsAccounted :
    (invocation_id : ℕ) (c : PersistenceCoordinator)
    → IsAccounted c
    → IsAccounted (release_invocation_tracking invocation_id c).1
unfolding release_invocation_tracking
release-IsAccounted invocation_id c h =
    elim (Bool-cases
      (any_of (λ entry. belongs_to invocation_id entry.1) c.outstanding_invocations)) [
        | inl outstanding ↦ rw outstanding h
        | inr nothing ↦ rw nothing (IsAccounted-as c _ refl refl h)
      ]

bind_consumer-IsAccounted :
    (wake : ℕ) (c : PersistenceCoordinator) → IsAccounted c → IsAccounted (bind_consumer wake c).1
unfolding bind_consumer
bind_consumer-IsAccounted wake c h = IsAccounted-as c _ (ground arith) (ground arith) h

Step-IsAccounted :
    (policy : PersistencePolicy) (c d : PersistenceCoordinator)
    → Step policy c d
    → IsAccounted c
    → IsAccounted d
unfolding bind_consumer admission_paused cancel take discard mark_durable remember_durable
    mark_user_events_durable remember_user_events_durable mark_admission_durable
    remember_admission_durable degrade_invocation degrade_user_events set_health mark_healthy
Step-IsAccounted policy _ _ (Step.binds wake c) h = bind_consumer-IsAccounted wake c h
Step-IsAccounted policy _ _ (Step.asks_admission c) h = IsAccounted-as c _ refl refl h
Step-IsAccounted policy _ _ (Step.reserves envelope c new) h =
    try_reserve-IsAccounted policy envelope c new h
Step-IsAccounted policy _ _ (Step.publishes now failure reservation envelope c) h =
    publish-IsAccounted now failure reservation envelope c h
Step-IsAccounted policy _ _ (Step.cancels reservation c) h =
    remove_outstanding-IsAccounted reservation.id _ (IsAccounted-as c _ refl refl h)
Step-IsAccounted policy _ _ (Step.takes limit c) h =
    take_loop-IsAccounted _ limit c.ready_sessions [] c h
Step-IsAccounted policy _ _ (Step.adjusts envelope_id exact_bytes c) h =
    adjust_size-IsAccounted envelope_id exact_bytes c h
Step-IsAccounted policy _ _ (Step.discards envelope_id c) h =
    remove_outstanding-IsAccounted envelope_id c h
Step-IsAccounted policy _ _ (Step.marks_durable envelope_id invocation_id sequence c) h =
    IsAccounted-as _ _ refl refl (remove_outstanding-IsAccounted envelope_id c h)
Step-IsAccounted policy _ _ (Step.marks_user_events envelope_id invocation_id sequence c) h =
    IsAccounted-as _ _ refl refl (remove_outstanding-IsAccounted envelope_id c h)
Step-IsAccounted policy _ _ (Step.marks_admission envelope_id invocation_id c) h =
    IsAccounted-as _ _ refl refl (remove_outstanding-IsAccounted envelope_id c h)
Step-IsAccounted policy _ _ (Step.remembers invocation_id sequence c) h =
    IsAccounted-as c _ refl refl h
Step-IsAccounted policy _ _ (Step.remembers_user_events invocation_id sequence c) h =
    IsAccounted-as c _ refl refl h
Step-IsAccounted policy _ _ (Step.remembers_admission invocation_id c) h =
    IsAccounted-as c _ refl refl h
Step-IsAccounted policy _ _ (Step.releases invocation_id c) h =
    release-IsAccounted invocation_id c h
Step-IsAccounted policy _ _ (Step.fails invocation_id sequence message c) h =
    fail_invocation-IsAccounted invocation_id sequence message c h
Step-IsAccounted policy _ _ (Step.degrades failure c) h = IsAccounted-as c _ refl refl h
Step-IsAccounted policy _ _ (Step.degrades_user_events failure c) h = IsAccounted-as c _ refl refl h
Step-IsAccounted policy _ _ (Step.reports now state message c) h = IsAccounted-as c _ refl refl h
Step-IsAccounted policy _ _ (Step.recovers now c) h = IsAccounted-as c _ refl refl h

-- Whatever operations a new coordinator goes through, in whatever order, and also where one raises, its byte
-- count is the sum of the sizes of the outstanding envelopes, if each reserved envelope has an id that no
-- outstanding one has.
pub Reachable-IsAccounted :
    (policy : PersistencePolicy) (c : PersistenceCoordinator) → Reachable policy c → IsAccounted c
Reachable-IsAccounted policy _ Reachable.fresh = record { unique = tt; exact = refl }
Reachable-IsAccounted policy _ (Reachable.later b c reached step) =
    Step-IsAccounted policy b c step (Reachable-IsAccounted policy b reached)

-- `try_reserve` does not take the byte count over the hard watermark: under it before, it is so after.
pub try_reserve-hard :
    (policy : PersistencePolicy) (envelope : PersistenceEnvelope) (c : PersistenceCoordinator)
    → c.pending_bytes ≤ policy.queue_hard_watermark_bytes
    → (try_reserve policy envelope c).1.pending_bytes ≤ policy.queue_hard_watermark_bytes
unfolding try_reserve
try_reserve-hard policy envelope c h = elim (Bool-cases (refused policy envelope c)) [
  | inl refusal ↦ rw refusal h
  | inr room ↦ rw room (ground arith)
]
