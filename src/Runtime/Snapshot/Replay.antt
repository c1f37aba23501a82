-- ===== src/Runtime/Snapshot/Replay.antt =====
-- The loop over the events of a journal in the order of their numbers.
use auto_agent.Shared.{
  ℕ, suc, ◌≤◌, ◌≡◌, refl, sym, ◌∙◌, true, false, Option, none, some, List, [], ◌∷◌, arith,
  Bool-cases, inl, inr, leb, eqb, All, All-map, ◌⊎◌, subst, eqb_iff,
}
use auto_agent.Shared.Sorting.{sort, insert, All-insert}
use auto_agent.Shared.Exec.{Result, ok, err, Fault, then_result}
use auto_agent.Shared.Outcomes.{err_ok, then_result-ok, from_option-ok, ok-injective}
use auto_agent.Runtime.Value.{Value}
use auto_agent.Runtime.Snapshot.{
  StateOperation, RuntimeEvent, past, accept, reduce_events, apply_state_operations, event_le,
}

-- The state after the events with the numbers `suc n` to `last`, each applied to the state that the one
-- before it left; each event is of the invocation, and has the property `P`.
pub data Replay (P : RuntimeEvent → Type 0) (invocation_id : ℕ)
    : ℕ → ℕ → Value → Value → Type 0 where
  nothing : {n : ℕ} {state : Value} → Replay P invocation_id n n state state
  applied :
      {n last : ℕ} {state after final : Value} (event : RuntimeEvent)
      (operations : List StateOperation)
      → P event
      → event.sequence ≡ suc n
      → event.invocation_id ≡ invocation_id
      → event.operations ≡ some operations
      → apply_state_operations operations state ≡ ok after
      → Replay P invocation_id (suc n) last after final
      → Replay P invocation_id n last state final

-- An event that is past the limit, or at most the last one.
abbrev pub Covered : Option ℕ → ℕ → RuntimeEvent → Type 0
Covered limit last event = (past limit event.sequence ≡ true) ⊎ (event.sequence ≤ last)

abbrev Ordered : List RuntimeEvent → Type 0
Ordered [] = Unit
Ordered (e ∷ events) = All (λ d. e.sequence ≤ d.sequence) events × Ordered events

insert-Ordered :
    (e : RuntimeEvent) (events : List RuntimeEvent)
    → Ordered events
    → Ordered (insert event_le e events)
insert-Ordered e [] h = (tt, tt)
insert-Ordered e (d ∷ events) h = elim (Bool-cases (event_le e d)) [
  | inl before ↦
      let le : e.sequence ≤ d.sequence = ground (arith, before) in
      rw before ((le, All-map _ _ events (λ x more. omega (arith, le, more)) h.0), h)
  | inr after ↦
      let le : d.sequence ≤ e.sequence = ground (arith, after) in
      rw after (All-insert _ event_le e events le h.0, insert-Ordered e events h.1)
]

pub sort-Ordered : (events : List RuntimeEvent) → Ordered (sort event_le events)
sort-Ordered [] = tt
sort-Ordered (e ∷ events) = insert-Ordered e (sort event_le events) (sort-Ordered events)

accept-ok :
    (invocation_id cursor : ℕ) (event : RuntimeEvent) (operations : List StateOperation)
    → accept invocation_id cursor event ≡ ok operations
    → (event.sequence ≡ suc cursor)
      × (event.invocation_id ≡ invocation_id)
      × (event.operations ≡ some operations)
unfolding accept
accept-ok invocation_id cursor event operations e =
    elim (Bool-cases (eqb event.sequence (suc cursor))) [
      | inr gap ↦
          let no : err Fault.journal_gap ≡ ok operations = rw gap at e in elim (err_ok no) [ ]
      | inl next ↦ elim (Bool-cases (eqb event.invocation_id invocation_id)) [
        | inr other ↦
            let no : err Fault.wrong_invocation ≡ ok operations = rw (next, other) at e in
            elim (err_ok no) [ ]
        | inl same ↦ (
          (eqb_iff _ _).0 next,
          (eqb_iff _ _).0 same,
          from_option-ok Fault.no_operations event.operations operations (rw (next, same) at e),
        )
      ]
    ]

past_mono : (limit : Option ℕ) (a b : ℕ) → a ≤ b → past limit a ≡ true → past limit b ≡ true
past_mono none a b le e = e
past_mono (some l) a b le e = ground (arith, le, e)

-- The rest of the loop once an event has been accepted.
abbrev after_event :
    ℕ → Option ℕ → RuntimeEvent → List RuntimeEvent → Value → List StateOperation → Result Value
after_event i limit event events state operations =
    then_result (apply_state_operations operations state)
      (reduce_events i limit event.sequence events)

reduce_old :
    (i : ℕ) (limit : Option ℕ) (n : ℕ) (event : RuntimeEvent) (events : List RuntimeEvent)
    (state : Value)
    → leb event.sequence n ≡ true
    → reduce_events i limit n (event ∷ events) state ≡ reduce_events i limit n events state
unfolding reduce_events
reduce_old i limit n event events state old = rw old refl

reduce_beyond :
    (i : ℕ) (limit : Option ℕ) (n : ℕ) (event : RuntimeEvent) (events : List RuntimeEvent)
    (state : Value)
    → leb event.sequence n ≡ false
    → past limit event.sequence ≡ true
    → reduce_events i limit n (event ∷ events) state ≡ ok state
unfolding reduce_events
reduce_beyond i limit n event events state new beyond = rw (new, beyond) refl

reduce_next :
    (i : ℕ) (limit : Option ℕ) (n : ℕ) (event : RuntimeEvent) (events : List RuntimeEvent)
    (state : Value)
    → leb event.sequence n ≡ false
    → past limit event.sequence ≡ false
    → reduce_events i limit n (event ∷ events) state
      ≡ then_result (accept i n event) (after_event i limit event events state)
unfolding reduce_events
reduce_next i limit n event events state new within = rw (new, within) refl

reduce_nil :
    (i : ℕ) (limit : Option ℕ) (n : ℕ) (state : Value) → reduce_events i limit n [] state ≡ ok state
unfolding reduce_events
reduce_nil i limit n state = refl

abbrev Replays :
    (RuntimeEvent → Type 0) → ℕ → Option ℕ → ℕ → List RuntimeEvent → Value → Value → Type 0
Replays P i limit n events state final =
    (last : ℕ) × (n ≤ last) × Replay P i n last state final × All (Covered limit last) events

module _ (P : RuntimeEvent → Type 0) (i : ℕ) (limit : Option ℕ) where
  pub stop :
      (n : ℕ) (events : List RuntimeEvent) (state final : Value)
      → ok state ≡ ok final
      → All (Covered limit n) events
      → Replays P i limit n events state final
  stop n events state final e covered =
      (n, omega arith, subst (Replay P i n n state) (ok-injective e) nothing, covered)

  pub one_more :
      (n : ℕ) (event : RuntimeEvent) (events : List RuntimeEvent) (state final : Value)
      → P event
      → then_result (accept i n event) (after_event i limit event events state) ≡ ok final
      → ((after : Value)
          → reduce_events i limit event.sequence events after ≡ ok final
          → Replays P i limit event.sequence events after final)
      → Replays P i limit n (event ∷ events) state final
  one_more n event events state final p e continue =
      let (operations, accepted, after_ok) =
        then_result-ok (accept i n event) (after_event i limit event events state) final e in
      let (after, changed, rest) =
        then_result-ok (apply_state_operations operations state)
          (reduce_events i limit event.sequence events) final after_ok in
      let (number, same, there) = accept-ok i n event operations accepted in
      let (last, le, replay, covered) = continue after rest in
      let onward : Replay P i (suc n) last after final =
        subst (λ m. Replay P i m last after final) number replay in
      (
        last,
        omega (arith, le, number),
        applied event operations p number same there changed onward,
        (inr le, covered),
      )

  pub reduce_events-Replay :
      (n : ℕ) (events : List RuntimeEvent) (state final : Value)
      → All P events
      → Ordered events
      → reduce_events i limit n events state ≡ ok final
      → Replays P i limit n events state final
  reduce_events-Replay n [] state final ps os e =
      stop n [] state final (sym (reduce_nil i limit n state) ∙ e) tt
  reduce_events-Replay n (event ∷ events) state final ps os e =
      elim (Bool-cases (leb event.sequence n)) [
        | inl old ↦
            let (last, le, replay, covered) =
              reduce_events-Replay n events state final ps.1 os.1
                (sym (reduce_old i limit n event events state old) ∙ e) in
            let before : event.sequence ≤ last = ground (arith, old, le) in
            (last, le, replay, (inr before, covered))
        | inr new ↦ elim (Bool-cases (past limit event.sequence)) [
          | inl beyond ↦
              stop n (event ∷ events) state final
                (sym (reduce_beyond i limit n event events state new beyond) ∙ e)
                (
                  inl beyond,
                  All-map _ _ events
                      (λ d later. inl (past_mono limit event.sequence d.sequence later beyond))
                      os.0,
                )
          | inr within ↦
              one_more n event events state final ps.0
                (sym (reduce_next i limit n event events state new within) ∙ e)
                (λ after rest.
                  reduce_events-Replay event.sequence events after final ps.1 os.1 rest)
        ]
      ]
