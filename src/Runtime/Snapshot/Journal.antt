-- ===== src/Runtime/Snapshot/Journal.antt =====
-- The rebuilding of a state from a journal.
use auto_agent.Shared.{
  ℕ, suc, ◌≤◌, ◌<◌, ◌≡◌, refl, sym, ◌∙◌, false, Option, List, [], ◌∷◌, arith, Bool-cases, inl, inr,
  eqb, All, ◌⊎◌, ◌≢◌, subst, eqb_iff,
}
use auto_agent.Shared.Sorting.{sort, All-sort, All-sort_back}
use auto_agent.Shared.Exec.{ok}
use auto_agent.Runtime.Value.{Value}
use auto_agent.Runtime.Snapshot.{
  RuntimeEvent, ExecutionSnapshot, past, reduce_execution_state, event_le,
}
use auto_agent.Runtime.Snapshot.Replay.{
  Replay, nothing, applied, Covered, sort-Ordered, reduce_events-Replay,
}

abbrev pub Member : RuntimeEvent → List RuntimeEvent → Type 0
Member event [] = ⊥
Member event (d ∷ events) = (event ≡ d) ⊎ Member event events

All-Member :
    (events whole : List RuntimeEvent)
    → ((d : RuntimeEvent) → Member d events → Member d whole)
    → All (λ d. Member d whole) events
All-Member [] whole h = tt
All-Member (d ∷ events) whole h =
    (h d (inl refl), All-Member events whole (λ e there. h e (inr there)))

-- Whatever the order in which the events come, a state that is rebuilt is the one of the snapshot with the
-- operations of events of the journal applied, each once, in the order of their numbers and without a gap,
-- up to a last one; every event of the journal is at most the last one, or past the limit.
pub reduce_execution_state-Replay :
    (snapshot : ExecutionSnapshot) (events : List RuntimeEvent) (limit : Option ℕ) (final : Value)
    → reduce_execution_state snapshot events limit ≡ ok final
    → (last : ℕ) × (snapshot.through_sequence ≤ last)
      × Replay
          (λ d. Member d events)
          snapshot.invocation_id
          snapshot.through_sequence
          last
          snapshot.state
          final
      × All (Covered limit last) events
unfolding reduce_execution_state
reduce_execution_state-Replay snapshot events limit final e =
    let member = All-Member events events (λ d there. there) in
    let (last, le, replay, covered) =
      reduce_events-Replay (λ d. Member d events) snapshot.invocation_id limit
        snapshot.through_sequence (sort event_le events) snapshot.state final
        (All-sort _ event_le events member) (sort-Ordered events) e in
    (last, le, replay, All-sort_back _ event_le events covered)

Replay-covers :
    (P : RuntimeEvent → Type 0) (i n last m : ℕ) (state final : Value)
    → Replay P i n last state final
    → n < m
    → m ≤ last
    → (event : RuntimeEvent) × P event × (event.sequence ≡ m)
Replay-covers P i n last m state final nothing lt le = ground (arith, lt, le)
Replay-covers P i n last m state final (applied event operations p number same there changed rest)
      lt le =
    elim (Bool-cases (eqb m (suc n))) [
      | inl here ↦ (event, p, number ∙ sym ((eqb_iff m (suc n)).0 here))
      | inr later ↦
          let beyond : suc n < m = ground (arith, later, lt) in
          Replay-covers P i (suc n) last m _ final rest beyond le
    ]

below_limit :
    (limit : Option ℕ) (last : ℕ) (event : RuntimeEvent)
    → past limit event.sequence ≡ false
    → Covered limit last event
    → event.sequence ≤ last
below_limit limit last event asked (inl beyond) = ground (arith, asked, beyond)
below_limit limit last event asked (inr le) = le

All_at :
    (Q : RuntimeEvent → Type 0) (event : RuntimeEvent) (events : List RuntimeEvent)
    → Member event events
    → All Q events
    → Q event
All_at Q event [] there h = elim there [ ]
All_at Q event (d ∷ events) (inl e) h = subst Q (sym e) h.0
All_at Q event (d ∷ events) (inr there) h = All_at Q event events there h.1

-- A number that is missing in the journal below one that is asked for makes the rebuilding raise.
pub reduce_execution_state-gap :
    (snapshot : ExecutionSnapshot) (events : List RuntimeEvent) (limit : Option ℕ)
    (event : RuntimeEvent) (m : ℕ) (final : Value)
    → Member event events
    → past limit event.sequence ≡ false
    → snapshot.through_sequence < m
    → m < event.sequence
    → All (λ d. d.sequence ≢ m) events
    → reduce_execution_state snapshot events limit ≢ ok final
reduce_execution_state-gap snapshot events limit event m final there asked above below gap e =
    let (last, le, replay, covered) = reduce_execution_state-Replay snapshot events limit final e in
    let reached : event.sequence ≤ last =
      below_limit limit last event asked (All_at _ event events there covered) in
    let (d, member, number) =
      Replay-covers (λ x. Member x events) snapshot.invocation_id snapshot.through_sequence last m
        snapshot.state final replay above (omega (arith, below, reached)) in
    All_at _ d events member gap number
