-- ===== src/Runtime/Output/Views.antt =====
-- What a view of the outputs shows: `OutputIndex.view` and `OutputView.latest`.
use auto_agent.Shared.{
  ◌<◌, ◌≡◌, ◌≢◌, refl, ap, Bool, true, false, none, some, List, [], ◌∷◌, ◌++◌, arith, Bool-cases,
  inl, inr, if◌then◌else◌, first_match, reversed, All,
}
use auto_agent.Shared.Keys.{Text, text_eq, ◌==◌, ==_iff}
use auto_agent.Shared.Dict
use auto_agent.Shared.Dict.{get-put}
use auto_agent.Runtime.Execution.{NodeExecution}
use auto_agent.Runtime.Output.{
  OutputEntry, OutputIndex, OutputView, entry_of, entries_at, add, view, visible, latest,
  last_sequence,
}

reversed-append_one : {A : Type 0} (xs : List A) (x : A) → reversed (xs ++ x ∷ []) ≡ x ∷ reversed xs
reversed-append_one [] x = refl
reversed-append_one (y ∷ ys) x = ap (λ l. l ++ y ∷ []) (reversed-append_one ys x)

last_sequence-append_one :
    (xs : List OutputEntry) (x : OutputEntry) → last_sequence (xs ++ x ∷ []) ≡ x.sequence
unfolding last_sequence
last_sequence-append_one [] x = refl
last_sequence-append_one (y ∷ []) x = refl
last_sequence-append_one (y ∷ z ∷ rest) x = last_sequence-append_one (z ∷ rest) x

through-add :
    (execution : NodeExecution) (index : OutputIndex)
    → (view (add execution index)).through_sequence ≡ execution.sequence
unfolding view add
through-add execution index = last_sequence-append_one index.timeline (entry_of execution)

entries_at-add :
    (execution : NodeExecution) (index : OutputIndex) (node_id : Text)
    → entries_at node_id (add execution index) ≡ (
        if execution.node_id == node_id
        then entries_at node_id index ++ entry_of execution ∷ []
        else entries_at node_id index)
unfolding add
entries_at-add execution index node_id =
    rw get-put (elim (Bool-cases (execution.node_id == node_id)) [
      | inl same ↦
          let e : execution.node_id ≡ node_id = (==_iff execution.node_id node_id).0 same in
          rw (same, e) refl
      | inr other ↦ rw other refl
    ])

-- `latest`, with the view spelt out
latest-view :
    (index : OutputIndex) (node_id : Text)
    → latest (view index) node_id
      ≡ (elim (first_match (visible (view index)) (reversed (entries_at node_id index))) [
        | none ↦ none
        | some entry ↦ some entry.value
      ])
unfolding latest view Dict.get
latest-view index node_id = refl

first_match-append_one :
    {A : Type 0} (p : A → Bool) (xs : List A) (x : A)
    → first_match p xs ≡ none
    → p x ≡ false
    → first_match p (xs ++ x ∷ []) ≡ none
first_match-append_one p [] x h e = rw e refl
first_match-append_one p (y ∷ ys) x h e = elim (Bool-cases (p y)) [
  | inl yes_y ↦ let found : some y ≡ none = rw yes_y at h in cc found
  | inr no_y ↦
      let rest : first_match p ys ≡ none = rw no_y at h in
      rw no_y (first_match-append_one p ys x rest e)
]

none-visible :
    (v : OutputView) (xs : List OutputEntry)
    → All (λ x. v.through_sequence < x.sequence) xs
    → first_match (visible v) (reversed xs) ≡ none
none-visible v [] h = refl
none-visible v (x ∷ xs) h =
    first_match-append_one (visible v) (reversed xs) x (none-visible v xs h.1) (ground arith)

-- The output of the execution that completed last is what `latest` shows for its node.
pub latest-view-add :
    (execution : NodeExecution) (index : OutputIndex)
    → latest (view (add execution index)) execution.node_id ≡ some execution.output
latest-view-add execution index =
    let shown : visible (view (add execution index)) (entry_of execution) ≡ true =
      rw through-add (ground arith) in
    rw (
      latest-view,
      entries_at-add,
      (==_iff execution.node_id execution.node_id).1 refl,
      reversed-append_one,
      shown,
    )

-- The outputs of another node are hidden by the completion of an execution whose sequence number is below
-- those of all of that node's outputs: branches that end in another order than they began do this.
pub latest-view-add_later :
    (execution : NodeExecution) (index : OutputIndex) (node_id : Text)
    → execution.node_id ≢ node_id
    → All (λ entry. execution.sequence < entry.sequence) (entries_at node_id index)
    → latest (view (add execution index)) node_id ≡ none
latest-view-add_later execution index node_id other later =
    let differ : (execution.node_id == node_id) ≡ false =
      ground (arith, ==_iff execution.node_id node_id) in
    let hidden : All (λ entry. (view (add execution index)).through_sequence < entry.sequence)
        (entries_at node_id index) =
      rw through-add later in
    rw (
      latest-view,
      entries_at-add,
      differ,
      none-visible (view (add execution index)) (entries_at node_id index) hidden,
    )
