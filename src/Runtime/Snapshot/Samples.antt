-- ===== src/Runtime/Snapshot/Samples.antt =====
-- Two small states, and a journal of three events.
use auto_agent.Shared.{
  ℕ, ◌≤◌, ◌≡◌, ◌≢◌, refl, true, false, none, some, List, [], ◌∷◌, arith, All, inl, inr,
}
use auto_agent.Shared.Keys.{Text, text, text_eq, ◌==◌}
use auto_agent.Shared.Dict
use auto_agent.Shared.Exec.{ok}
use auto_agent.Runtime.Value.{
  Value, null, atom, arr, obj, Fields, end, field, items_of, lookup, value_eq,
}
use auto_agent.Runtime.Snapshot.{
  key, at, RuntimeEvent, ExecutionSnapshot, diff, common, removals, additions, appended, extends,
  add_at, replace_at, remove_at, apply_state_operations, apply_operation, apply_at, edit,
  replace_changed_fields, accept, reduce_events, reduce_execution_state,
}
use auto_agent.Runtime.Snapshot.Reads.{SameAt}
use auto_agent.Runtime.Snapshot.Changes.{Tidy}
use auto_agent.Runtime.Snapshot.Sections.{
  Once, Has, apply_state_operations-diff, replace_changed_fields-diff,
}
use auto_agent.Runtime.Snapshot.Journal.{
  Member, reduce_execution_state-Replay, reduce_execution_state-gap,
}
use auto_agent.Runtime.Snapshot.Replay.{Replay, Covered}

abbrev before : Fields
before = field (text "a") (atom 1) (
    field (text "b") (arr (items_of (atom 1 ∷ [])))
      (field (text "c") (obj (field (text "x") (atom 1) (field (text "y") (atom 2) end))) end))

abbrev after : Fields
after = field (text "c") (obj (field (text "x") (atom 5) end)) (
    field (text "b") (arr (items_of (atom 1 ∷ atom 2 ∷ [])))
      (field (text "d") null (field (text "a") (atom 1) end)))

abbrev state : Fields
state = field (text "session") (atom 9) (field (text "invocation") (obj before) end)

before-Tidy : Tidy (obj before)
unfolding Dict.get
before-Tidy = ((refl, (refl, (refl, tt))), (tt, (tt, (((refl, (refl, tt)), (tt, (tt, tt))), tt))))

after-Tidy : Tidy (obj after)
unfolding Dict.get
after-Tidy = ((refl, (refl, (refl, (refl, tt)))), (((refl, tt), (tt, tt)), (tt, (tt, (tt, tt)))))

-- The operations of this difference, in order.
difference :
    diff (key (text "r") ∷ []) (obj before) (obj after)
    ≡ add_at (key (text "r") ∷ key (text "d") ∷ []) null
      ∷ add_at (key (text "r") ∷ key (text "b") ∷ at 1 ∷ []) (atom 2)
      ∷ remove_at (key (text "r") ∷ key (text "c") ∷ key (text "y") ∷ [])
      ∷ replace_at (key (text "r") ∷ key (text "c") ∷ key (text "x") ∷ []) (atom 5)
      ∷ []
unfolding diff common removals additions appended extends value_eq Dict.get
difference = refl

here : lookup (text "invocation") state ≡ some (obj before)
unfolding Dict.get
here = refl

apply_state_operations-diff_example :
    (changed : Fields) × (apply_state_operations
        (diff (key (text "invocation") ∷ []) (obj before) (obj after))
        (obj state)
      ≡ ok (obj changed))
    × SameAt (lookup (text "invocation") changed) (some (obj after))
    × ((j : Text) → (text "invocation" == j) ≡ false → lookup j changed ≡ lookup j state)
apply_state_operations-diff_example =
    apply_state_operations-diff (text "invocation") state (obj before) (obj after) here before-Tidy
      after-Tidy

abbrev names : List Text
names = text "b" ∷ text "c" ∷ []

names-Once : Once names
unfolding Dict.contains
names-Once = (refl, (refl, tt))

names-Has : All (Has before after) names
unfolding Dict.get
names-Has = ((refl, refl), ((refl, refl), tt))

replace_changed_fields-diff_example :
    (changed record_after : Fields) × (apply_state_operations
        (replace_changed_fields (key (text "invocation") ∷ []) before after names)
        (obj state)
      ≡ ok (obj changed))
    × (lookup (text "invocation") changed ≡ some (obj record_after))
    × ((k : Text) → Dict.contains k names ≡ true → SameAt (lookup k record_after) (lookup k after))
    × ((k : Text) → Dict.contains k names ≡ false → lookup k record_after ≡ lookup k before)
    × ((j : Text) → (text "invocation" == j) ≡ false → lookup j changed ≡ lookup j state)
replace_changed_fields-diff_example =
    replace_changed_fields-diff (text "invocation") state before after names here before-Tidy
      after-Tidy names-Once names-Has

abbrev event : ℕ → RuntimeEvent
event n = record {
  invocation_id = 7;
  sequence = n;
  operations = some (add_at (key (text "n") ∷ []) (atom n) ∷ []);
}

abbrev snapshot : ExecutionSnapshot
snapshot = record { invocation_id = 7; through_sequence = 4; state = obj end }

abbrev rebuilt : Value
rebuilt = obj (field (text "n") (atom 6) end)

abbrev journal : List RuntimeEvent
journal = event 6 ∷ event 4 ∷ event 5 ∷ event 7 ∷ []

rebuilding : reduce_execution_state snapshot journal (some 6) ≡ ok rebuilt
unfolding reduce_execution_state reduce_events accept apply_state_operations apply_operation
    apply_at edit Dict.put
rebuilding = refl

reduce_execution_state-Replay_example :
    (last : ℕ) × (4 ≤ last)
    × Replay (λ d. Member d journal) 7 4 last (obj end) rebuilt
    × All (Covered (some 6) last) journal
reduce_execution_state-Replay_example =
    reduce_execution_state-Replay snapshot journal (some 6) rebuilt rebuilding

abbrev broken : List RuntimeEvent
broken = event 5 ∷ event 7 ∷ []

reduce_execution_state-gap_example : reduce_execution_state snapshot broken none ≢ ok rebuilt
reduce_execution_state-gap_example =
    reduce_execution_state-gap snapshot broken none (event 7) 6 rebuilt (inr (inl refl)) refl
      (omega arith) (omega arith) ((λ e. ground (arith, e)), ((λ e. ground (arith, e)), tt))
