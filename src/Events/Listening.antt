-- ===== src/Events/Listening.antt =====
-- What the listener for edge evaluations does to the invocation.
use auto_agent.Shared.{ℕ, ◌+◌, ◌≡◌, ◌≢◌, ◌⊎◌, inl, inr, refl, sym, subst}
use auto_agent.Shared.Exec.{Result, ◌>>=◌}
use auto_agent.Shared.Moves.{Moves}
use auto_agent.Runtime.Execution.{EdgeEvaluation}
use auto_agent.Runtime.Invocation.{
  Invocation, EventMode, minimal, standard, full, next_event_sequence,
}
use auto_agent.Events.{
  record_event, record_edge_event, event_identity, starts_with, is_silent, take_sequence,
}

abbrev counted : Invocation → Invocation
counted s = record s { event_sequence = s.event_sequence + 1 }

module _ (accepts : Invocation → ℕ → Result (Unit {0})) where
  -- in the mode `mode`
  in_mode :
      (mode : EventMode) (execution_id : ℕ) (evaluation : EdgeEvaluation) (s : Invocation)
      → s.event_mode ≡ mode
      → ((record_edge_event accepts execution_id evaluation s).1 ≡ s)
        ⊎ ((mode ≢ minimal) × ((record_edge_event accepts execution_id evaluation s).1 ≡ counted s))
  unfolding record_edge_event record_event event_identity starts_with is_silent take_sequence
      next_event_sequence ◌>>=◌
  in_mode minimal execution_id evaluation s e = inl (rw e refl)
  in_mode standard execution_id evaluation s e = inr (λ h. cc h, rw e refl)
  in_mode full execution_id evaluation s e = inr (λ h. cc h, rw e refl)

  -- It changes nothing, or it takes the next event number, and the latter not in minimal mode.
  pub record_edge_event-cases :
      (execution_id : ℕ) (evaluation : EdgeEvaluation) (s : Invocation)
      → ((record_edge_event accepts execution_id evaluation s).1 ≡ s)
        ⊎ ((s.event_mode ≢ minimal)
            × ((record_edge_event accepts execution_id evaluation s).1 ≡ counted s))
  record_edge_event-cases execution_id evaluation s =
      in_mode s.event_mode execution_id evaluation s refl

  -- So a relation that holds between `s` and itself and between `s` and `counted s` holds for it.
  pub record_edge_event-Moves :
      {R : Invocation → Invocation → Type 0} (execution_id : ℕ) (evaluation : EdgeEvaluation)
      → ((s : Invocation) → R s s)
      → ((s : Invocation)
          → s.event_mode ≢ minimal
          → R s (record s { event_sequence = s.event_sequence + 1 }))
      → Moves R (record_edge_event accepts execution_id evaluation)
  record_edge_event-Moves {R} execution_id evaluation same count = record {
    at = λ s. elim (record_edge_event-cases execution_id evaluation s) [
      | inl e ↦ subst (λ t. R s t) (sym e) (same s)
      | inr (heard, e) ↦ subst (λ t. R s t) (sym e) (count s heard)
    ];
  }
