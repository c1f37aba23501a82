-- ===== src/Runtime/Snapshot.antt =====
-- autoagent/core/runtime/snapshot.py: the difference of two runtime states as a list of operations, the
-- application of operations, and the rebuilding of a state from a journal of events. The state is
-- a tree of values, so that the copies that the source makes of shared containers change nothing here. A
-- key that is not a text has no place in a dictionary, and none but a number in a list: both raise.
use auto_agent.Shared.{
  ℕ, zero, suc, ◌+◌, Bool, true, false, not, Option, none, some, List, [], ◌∷◌, ◌++◌, if◌then◌else◌,
  eqb, ltb, leb, is_some, or_else, length, take, drop, keep, map,
}
use auto_agent.Shared.Keys.{Text, text_eq, text_le}
use auto_agent.Shared.Dict
use auto_agent.Shared.Dict.{Dict, keys}
use auto_agent.Shared.Sorting.{sort}
use auto_agent.Shared.Exec.{Result, ok, err, Fault, then_result, from_option}
use auto_agent.Runtime.Value.{
  Value, null, atom, chars, arr, obj, Items, nil, cons, Fields, end, field, items_of, listed,
  fields_of, entries, lookup, value_eq, items_eq,
}
pub mod Reads
pub mod Prefix
pub mod Blocks
pub mod Stages
pub mod Dictionaries
pub mod Changes
pub mod RoundTrip
pub mod Sections
pub mod Replay
pub mod Journal
pub mod Samples

pub data Segment : Type 0 where
  key : Text → Segment
  at : ℕ → Segment

pub data OperationKind : Type 0 where
  op_add op_replace op_remove : OperationKind

pub record StateOperation : Type 0 where
  pub op : OperationKind
  pub path : List Segment
  pub value : Value

abbrev pub remove_at : List Segment → StateOperation
remove_at path = record { op = op_remove; path = path; value = null }

abbrev pub add_at : List Segment → Value → StateOperation
add_at path value = record { op = op_add; path = path; value = value }

abbrev pub replace_at : List Segment → Value → StateOperation
replace_at path value = record { op = op_replace; path = path; value = value }

-- The operations on one key of a dictionary.
abbrev pub Block : Type 0
Block = Text × List StateOperation

abbrev pub block_le : Block → Block → Bool
block_le b c = text_le b.0 c.0

abbrev pub operations_of : List Block → List StateOperation
operations_of [] = []
operations_of ((k, operations) ∷ blocks) = operations ++ operations_of blocks

-- `sorted(set(previous) - set(current))`, each with its removal
unfoldable pub removals : List Segment → Fields → Fields → List Block
removals path end g = []
removals path (field k v f) g =
    let rest = removals path f g in
    if is_some (lookup k g) then rest else (k, remove_at (path ++ key k ∷ []) ∷ []) ∷ rest

-- `sorted(set(current) - set(previous))`, each with its addition
unfoldable pub additions : List Segment → Fields → Fields → List Block
additions path f end = []
additions path f (field k w g) =
    let rest = additions path f g in
    if is_some (lookup k f) then rest else (k, add_at (path ++ key k ∷ []) w ∷ []) ∷ rest

-- an addition for each of the values, from the index on
unfoldable pub appended : List Segment → ℕ → List Value → List StateOperation
appended path index [] = []
appended path index (v ∷ vs) = add_at (path ++ at index ∷ []) v ∷ appended path (suc index) vs

unfoldable pub extends : Items → Items → Bool
extends xs ys =
    let n = length (listed xs) in
    if leb n (length (listed ys)) then items_eq (items_of (take n (listed ys))) xs else false

-- _diff_state_value; `common` has the blocks of the keys that both dictionaries have.
unfoldable mutual
  pub diff : List Segment → Value → Value → List StateOperation
  diff path (obj f) (obj g) =
      let both = common path f g in
      if value_eq (obj f) (obj g)
      then []
      else operations_of (sort block_le (removals path f g))
        ++ operations_of (sort block_le (additions path f g))
        ++ operations_of (sort block_le both)
  diff path (arr xs) (arr ys) =
      let n = length (listed xs) in
      if value_eq (arr xs) (arr ys)
      then []
      else if extends xs ys
      then appended path n (drop n (listed ys))
      else replace_at path (arr ys) ∷ []
  diff path v w = if value_eq v w then [] else replace_at path w ∷ []

  pub common : List Segment → Fields → Fields → List Block
  common path end g = []
  common path (field k v f) g =
      let rest = common path f g in
      let inner = diff (path ++ key k ∷ []) v (or_else (lookup k g) null) in
      if is_some (lookup k g) then (k, inner) ∷ rest else rest

-- The list with the item at an index set, or put before it; `insert` past the end appends.
abbrev set_item : ℕ → Value → List Value → Option (List Value)
set_item n v [] = none
set_item zero v (x ∷ xs) = some (v ∷ xs)
set_item (suc n) v (x ∷ xs) = elim (set_item n v xs) [ none ↦ none | some ys ↦ some (x ∷ ys) ]

abbrev pub insert_item : ℕ → Value → List Value → List Value
insert_item zero v xs = v ∷ xs
insert_item (suc n) v [] = v ∷ []
insert_item (suc n) v (x ∷ xs) = x ∷ insert_item n v xs

abbrev pop_item : ℕ → List Value → Option (List Value)
pop_item n [] = none
pop_item zero (x ∷ xs) = some xs
pop_item (suc n) (x ∷ xs) = elim (pop_item n xs) [ none ↦ none | some ys ↦ some (x ∷ ys) ]

abbrev pub nth : ℕ → List Value → Option Value
nth n [] = none
nth zero (x ∷ xs) = some x
nth (suc n) (x ∷ xs) = nth n xs

abbrev list_or_fault : Option (List Value) → Result Value
list_or_fault none = err Fault.bad_path
list_or_fault (some xs) = ok (arr (items_of xs))

abbrev delete_key : Text → Fields → Result Value
delete_key k f =
    if is_some (lookup k f)
    then ok (obj (fields_of (Dict.remove k (entries f))))
    else err Fault.bad_path

abbrev pub assign_key : Text → Value → Fields → Fields
assign_key k v f = fields_of (Dict.put k v (entries f))

-- _apply_operation_to_parent
unfoldable pub edit : OperationKind → Segment → Value → Value → Result Value
edit op_remove (key k) new (obj f) = delete_key k f
edit op_add (key k) new (obj f) = ok (obj (assign_key k new f))
edit op_replace (key k) new (obj f) = ok (obj (assign_key k new f))
edit op_remove (at n) new (arr xs) = list_or_fault (pop_item n (listed xs))
edit op_add (at n) new (arr xs) = ok (arr (items_of (insert_item n new (listed xs))))
edit op_replace (at n) new (arr xs) = list_or_fault (set_item n new (listed xs))
edit op segment new parent = err Fault.bad_path

-- `parent[segment]`
unfoldable pub child : Segment → Value → Option Value
child (key k) (obj f) = lookup k f
child (at n) (arr xs) = nth n (listed xs)
child segment parent = none

-- _copy_on_write_parent, and what the operation then does to the parent that it found
unfoldable pub apply_at : OperationKind → Value → Segment → List Segment → Value → Result Value
apply_at op new segment [] parent = edit op segment new parent
apply_at op new segment (next ∷ path) parent =
    then_result (from_option Fault.bad_path (child segment parent)) (λ inner.
      then_result (apply_at op new next path inner)
        (λ changed. edit op_replace segment changed parent))

-- _apply_operation, where an operation without a path is on the root
unfoldable pub apply_operation : StateOperation → Value → Result Value
apply_operation operation root = elim operation.path [
  | [] ↦ (elim operation.op [
    | op_remove ↦ ok (obj end)
    | _ ↦ (elim operation.value [ obj f ↦ ok (obj f) | _ ↦ err Fault.bad_path ])
  ])
  | segment ∷ path ↦ apply_at operation.op operation.value segment path root
]

unfoldable pub apply_state_operations : List StateOperation → Value → Result Value
apply_state_operations [] state = ok state
apply_state_operations (operation ∷ rest) state =
    then_result (apply_operation operation state) (apply_state_operations rest)

-- _replace_changed_fields, where a field that a record does not have counts as `None`
unfoldable pub replace_changed_fields :
    List Segment → Fields → Fields → List Text → List StateOperation
replace_changed_fields prefix previous current [] = []
replace_changed_fields prefix previous current (name ∷ names) =
    diff (prefix ++ key name ∷ []) (or_else (lookup name previous) null)
      (or_else (lookup name current) null)
    ++ replace_changed_fields prefix previous current names

pub record RuntimeEvent : Type 0 where
  pub invocation_id : ℕ
  pub sequence : ℕ
  pub operations : Option (List StateOperation)

pub record ExecutionSnapshot : Type 0 where
  pub invocation_id : ℕ
  pub through_sequence : ℕ
  pub state : Value

abbrev pub event_le : RuntimeEvent → RuntimeEvent → Bool
event_le a b = leb a.sequence b.sequence

abbrev pub past : Option ℕ → ℕ → Bool
past none sequence = false
past (some limit) sequence = ltb limit sequence

-- The checks of one event that is to be applied, and its operations.
unfoldable pub accept : ℕ → ℕ → RuntimeEvent → Result (List StateOperation)
accept invocation_id cursor event =
    if not (eqb event.sequence (suc cursor))
    then err Fault.journal_gap
    else if not (eqb event.invocation_id invocation_id)
    then err Fault.wrong_invocation
    else from_option Fault.no_operations event.operations

-- the loop of reduce_execution_state over the sorted events
unfoldable pub reduce_events : ℕ → Option ℕ → ℕ → List RuntimeEvent → Value → Result Value
reduce_events invocation_id limit cursor [] state = ok state
reduce_events invocation_id limit cursor (event ∷ events) state =
    let skipped = reduce_events invocation_id limit cursor events state in
    let after =
      λ (changed : Value). reduce_events invocation_id limit event.sequence events changed in
    if leb event.sequence cursor
    then skipped
    else if past limit event.sequence
    then ok state
    else then_result (accept invocation_id cursor event)
        (λ operations. then_result (apply_state_operations operations state) after)

-- reduce_execution_state, without the reading of the records of the state that it ends with
unfoldable pub reduce_execution_state :
    ExecutionSnapshot → List RuntimeEvent → Option ℕ → Result Value
reduce_execution_state snapshot events through_sequence =
    reduce_events snapshot.invocation_id through_sequence snapshot.through_sequence
      (sort event_le events) snapshot.state
