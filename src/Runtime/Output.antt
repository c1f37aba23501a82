-- ===== src/Runtime/Output.antt =====
-- autoagent/core/runtime/output.py: the index of completed outputs and the views that hooks read.
-- Values are immutable here, so the copies that the source makes are not modelled.
pub mod Views
use auto_agent.Shared.{
  ℕ, Bool, true, false, ◌&&◌, Option, none, some, List, [], ◌∷◌, ◌++◌, map, if◌then◌else◌, leb,
  keep, first_match, reversed, or_else,
}
use auto_agent.Shared.Keys.{Text, text_eq}
use auto_agent.Shared.Dict
use auto_agent.Shared.Dict.{Dict}
use auto_agent.Runtime.Value.{Value}
use auto_agent.Runtime.Scope.{ExecutionScope}
use auto_agent.Runtime.Cursor.{NodeState}
use auto_agent.Runtime.Execution.{NodeExecution}

pub record OutputEntry : Type 0 where
  pub node_execution_id : ℕ
  pub node_id : Text
  pub sequence : ℕ
  pub execution_scope : ExecutionScope
  pub value : Value

pub record OutputIndex : Type 0 where
  pub timeline : List OutputEntry
  pub by_node_id : Dict Text (List OutputEntry)

abbrev pub empty_index : OutputIndex
empty_index = record { timeline = []; by_node_id = [] }

abbrev pub entry_of : NodeExecution → OutputEntry
entry_of execution = record {
  node_execution_id = execution.id;
  node_id = execution.node_id;
  sequence = execution.sequence;
  execution_scope = execution.execution_scope;
  value = execution.output;
}

abbrev pub entries_at : Text → OutputIndex → List OutputEntry
entries_at node_id index = or_else (Dict.get node_id index.by_node_id) []

unfoldable pub add : NodeExecution → OutputIndex → OutputIndex
add execution index = record {
  timeline = index.timeline ++ entry_of execution ∷ [];
  by_node_id =
      Dict.put execution.node_id (entries_at execution.node_id index ++ entry_of execution ∷ [])
        index.by_node_id;
}

abbrev pub is_completed : NodeState → Bool
is_completed NodeState.completed = true
is_completed _ = false

-- `sorted(executions, key=lambda item: item.sequence)`: a stable insertion sort
insert_by_sequence : NodeExecution → List NodeExecution → List NodeExecution
insert_by_sequence x [] = x ∷ []
insert_by_sequence x (y ∷ ys) =
    if leb x.sequence y.sequence then x ∷ y ∷ ys else y ∷ insert_by_sequence x ys

unfoldable pub sort_by_sequence : List NodeExecution → List NodeExecution
unfolding insert_by_sequence
sort_by_sequence [] = []
sort_by_sequence (x ∷ xs) = insert_by_sequence x (sort_by_sequence xs)

add_completed : List NodeExecution → OutputIndex → OutputIndex
unfolding add
add_completed [] index = index
add_completed (execution ∷ rest) index =
    add_completed rest (if is_completed execution.state then add execution index else index)

-- `OutputIndex(executions)`
unfoldable pub build : List NodeExecution → OutputIndex
unfolding add_completed sort_by_sequence
build executions = add_completed (sort_by_sequence executions) empty_index

pub record OutputView : Type 0 where
  pub index : OutputIndex
  pub through_sequence : ℕ
  pub node_id_aliases : Dict Text Text

last_sequence : List OutputEntry → ℕ
last_sequence [] = 0
last_sequence (entry ∷ []) = entry.sequence
last_sequence (entry ∷ next ∷ rest) = last_sequence (next ∷ rest)

unfoldable pub view : OutputIndex → OutputView
unfolding last_sequence
view index = record {
  index = index;
  through_sequence = last_sequence index.timeline;
  node_id_aliases = [];
}

unfoldable pub resolve_node_id : OutputView → Text → Text
resolve_node_id view node_id = or_else (Dict.get node_id view.node_id_aliases) node_id

abbrev pub visible : OutputView → OutputEntry → Bool
visible view entry = leb entry.sequence view.through_sequence

unfoldable pub latest_entry : OutputView → Text → Option OutputEntry
unfolding resolve_node_id
latest_entry view node_id =
    first_match (visible view) (reversed (entries_at (resolve_node_id view node_id) view.index))

-- `latest(node_id)`: `none` is the `KeyError`
unfoldable pub latest : OutputView → Text → Option Value
unfolding latest_entry
latest view node_id = elim (latest_entry view node_id) [
  | none ↦ none
  | some entry ↦ some entry.value
]

unfoldable pub all : OutputView → Text → List Value
unfolding resolve_node_id
all view node_id =
    map (λ entry. entry.value)
      (keep (visible view) (entries_at (resolve_node_id view node_id) view.index))

update_aliases : Dict Text Text → Dict Text Text → Dict Text Text
update_aliases aliases [] = aliases
update_aliases aliases ((k, v) ∷ more) = update_aliases (Dict.put k v aliases) more

unfoldable pub scoped : Dict Text Text → OutputView → OutputView
unfolding update_aliases
scoped [] view = view
scoped (alias ∷ aliases) view = record view {
  node_id_aliases = update_aliases view.node_id_aliases (alias ∷ aliases);
}
