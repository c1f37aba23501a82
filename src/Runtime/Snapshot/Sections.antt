-- ===== src/Runtime/Snapshot/Sections.antt =====
-- The difference of two records, applied to a state that has the first one under the name of a section.
use auto_agent.Shared.{
  ◌≡◌, refl, sym, ap, ◌∙◌, subst, true, false, Option, none, some, List, [], ◌∷◌, is_some, or_else,
  arith, Bool-cases, inl, inr, if◌then◌else◌, All,
}
use auto_agent.Shared.Keys.{Text, text_eq, ◌==◌, ==_iff}
use auto_agent.Shared.Dict
use auto_agent.Shared.Dict.{IsUnique}
use auto_agent.Shared.Exec.{ok, err}
use auto_agent.Shared.Outcomes.{no_value, some-injective, Result-cases}
use auto_agent.Runtime.Value.{Value, null, obj, Fields, lookup}
use auto_agent.Runtime.Snapshot.{
  Segment, key, StateOperation, Block, operations_of, diff, apply_at, apply_operation,
  apply_state_operations, replace_changed_fields,
}
use auto_agent.Runtime.Snapshot.Reads.{SameAt, found}
use auto_agent.Runtime.Snapshot.Prefix.{all_under, diff-under, all_under-append}
use auto_agent.Runtime.Snapshot.Blocks.{apply_all, apply_path, key_run}
use auto_agent.Runtime.Snapshot.Stages.{Works, run_blocks}
use auto_agent.Runtime.Snapshot.RoundTrip.{diff-Returns, TidyFields-lookup}
use auto_agent.Runtime.Snapshot.Changes.{Tidy, changed-Works}

-- On a state, operations below a key do what they do on any dictionary.
apply_state_operations-under :
    (k : Text) (os : List StateOperation) (v r : Value)
    → apply_all (all_under (key k) os) v ≡ ok r
    → apply_state_operations (all_under (key k) os) v ≡ ok r
unfolding apply_all apply_path apply_state_operations apply_operation
apply_state_operations-under k [] v r e = e
apply_state_operations-under k (o ∷ os) v r e =
    elim (Result-cases (apply_at o.op o.value (key k) o.path v)) [
      | inr (fault, bad) ↦ let no : err fault ≡ ok r = rw bad at e in ground (arith, no)
      | inl (u, good) ↦ rw good (apply_state_operations-under k os u r (rw good at e))
    ]

-- The difference of two values, applied below the key that has the first one, leaves a state that reads like
-- the second one there, and has at all other keys what it had.
pub apply_state_operations-diff :
    (k : Text) (f : Fields) (v w : Value)
    → lookup k f ≡ some v
    → Tidy v
    → Tidy w
    → (changed : Fields) × (apply_state_operations (diff (key k ∷ []) v w) (obj f)
        ≡ ok (obj changed))
      × SameAt (lookup k changed) (some w)
      × ((j : Text) → (k == j) ≡ false → lookup j changed ≡ lookup j f)
apply_state_operations-diff k f v w here tv tw =
    let (r, runs, agree) = diff-Returns v w tv tw in
    let (changed, run, result, others) = key_run (diff [] v w) k f v r here runs in
    (
      changed,
      rw (diff-under (key k) [] v w)
          (apply_state_operations-under k (diff [] v w) (obj f) (obj changed) run),
      λ path. ap (found path) result ∙ agree path,
      others,
    )

abbrev pub Once : List Text → Type 0
Once [] = Unit
Once (name ∷ names) = (Dict.contains name names ≡ false) × Once names

-- Both records have the field.
abbrev pub Has : Fields → Fields → Text → Type 0
Has previous current name =
    (is_some (lookup name previous) ≡ true) × (is_some (lookup name current) ≡ true)

abbrev change_of : Fields → Fields → Text → List StateOperation
change_of previous current name =
    diff (key name ∷ []) (or_else (lookup name previous) null) (or_else (lookup name current) null)

abbrev field_blocks : Fields → Fields → List Text → List Block
field_blocks previous current [] = []
field_blocks previous current (name ∷ names) =
    (name, change_of previous current name) ∷ field_blocks previous current names

operations_of-field_blocks :
    (s : Segment) (previous current : Fields) (names : List Text)
    → replace_changed_fields (s ∷ []) previous current names
      ≡ all_under s (operations_of (field_blocks previous current names))
unfolding replace_changed_fields
operations_of-field_blocks s previous current [] = refl
operations_of-field_blocks s previous current (name ∷ names) =
    rw
      (
        operations_of-field_blocks s previous current names,
        all_under-append,
        diff-under s (key name ∷ []) (or_else (lookup name previous) null)
            (or_else (lookup name current) null),
      )
      refl

get-field_blocks :
    (k : Text) (previous current : Fields) (names : List Text)
    → Dict.get k (field_blocks previous current names)
      ≡ (if Dict.contains k names then some (change_of previous current k) else none)
unfolding Dict.get Dict.contains
get-field_blocks k previous current [] = refl
get-field_blocks k previous current (name ∷ names) = elim (Bool-cases (name == k)) [
  | inl same ↦
      let e : name ≡ k = (==_iff name k).0 same in
      rw same (ap (λ n. some (change_of previous current n)) e)
  | inr other ↦ rw other (get-field_blocks k previous current names)
]

field_blocks-IsUnique :
    (previous current : Fields) (names : List Text)
    → Once names
    → IsUnique (field_blocks previous current names)
field_blocks-IsUnique previous current [] once = tt
field_blocks-IsUnique previous current (name ∷ names) once = (
  get-field_blocks name previous current names ∙ rw once.0 refl,
  field_blocks-IsUnique previous current names once.1,
)

Has-contained :
    (k : Text) (previous current : Fields) (names : List Text)
    → All (Has previous current) names
    → Dict.contains k names ≡ true
    → Has previous current k
unfolding Dict.contains
Has-contained k previous current [] has there = ground (arith, there)
Has-contained k previous current (name ∷ names) has there = elim (Bool-cases (name == k)) [
  | inl same ↦ subst (Has previous current) ((==_iff name k).0 same) has.0
  | inr other ↦ Has-contained k previous current names has.1 (rw other at there)
]

block_known :
    (k : Text) (os : List StateOperation) (previous current : Fields) (names : List Text)
    → Dict.get k (field_blocks previous current names) ≡ some os
    → (Dict.contains k names ≡ true) × (change_of previous current k ≡ os)
block_known k os previous current names e = elim (Bool-cases (Dict.contains k names)) [
  | inl there ↦
      let known : Dict.get k (field_blocks previous current names)
          ≡ some (change_of previous current k) =
        get-field_blocks k previous current names ∙ rw there refl in
      (there, some-injective (sym known ∙ e))
  | inr gone ↦
      let missing : Dict.get k (field_blocks previous current names) ≡ none =
        get-field_blocks k previous current names ∙ rw gone refl in
      elim (no_value (sym missing ∙ e)) [ ]
]

value_there : (o : Option Value) → is_some o ≡ true → (v : Value) × (o ≡ some v)
value_there none e = ground (arith, e)
value_there (some v) e = (v, refl)

field-Works :
    (k : Text) (previous current : Fields)
    → Tidy (obj previous)
    → Tidy (obj current)
    → Has previous current k
    → Works previous current k (change_of previous current k)
field-Works k previous current tp tc has =
    let (v, here) = value_there (lookup k previous) has.0 in
    let (w, there) = value_there (lookup k current) has.1 in
    let tv = TidyFields-lookup k previous v tp.1 here in
    let tw = TidyFields-lookup k current w tc.1 there in
    let works = changed-Works k v w previous current here there (diff-Returns v w tv tw) in
    let same : diff (key k ∷ []) v w ≡ change_of previous current k = rw (here, there) refl in
    subst (λ os. Works previous current k os) same works

-- The fields of one section that are compared read afterwards like those of the current record, and the
-- others of it, and the other sections, are what they were.
pub replace_changed_fields-diff :
    (section : Text) (state previous current : Fields) (names : List Text)
    → lookup section state ≡ some (obj previous)
    → Tidy (obj previous)
    → Tidy (obj current)
    → Once names
    → All (Has previous current) names
    → (changed record_after : Fields) × (apply_state_operations
          (replace_changed_fields (key section ∷ []) previous current names)
          (obj state)
        ≡ ok (obj changed))
      × (lookup section changed ≡ some (obj record_after))
      × ((k : Text)
          → Dict.contains k names ≡ true
          → SameAt (lookup k record_after) (lookup k current))
      × ((k : Text) → Dict.contains k names ≡ false → lookup k record_after ≡ lookup k previous)
      × ((j : Text) → (section == j) ≡ false → lookup j changed ≡ lookup j state)
replace_changed_fields-diff section state previous current names here tp tc once has =
    let blocks = field_blocks previous current names in
    let (after, runs, agree, others) =
      run_blocks previous current blocks previous
        (field_blocks-IsUnique previous current names once)
        (λ k os e.
          let (known, e_os) = block_known k os previous current names e in
          subst (λ x. Works previous current k x) e_os
            (field-Works k previous current tp tc
              (Has-contained k previous current names has known)))
        (λ k os e. refl) in
    let (changed, run, result, rest) =
      key_run (operations_of blocks) section state (obj previous) (obj after) here runs in
    (
      changed,
      after,
      rw (operations_of-field_blocks (key section) previous current names) (
          apply_state_operations-under section (operations_of blocks) (obj state) (obj changed)
            run),
      result,
      λ k there.
          agree k (change_of previous current k)
            (get-field_blocks k previous current names ∙ rw there refl),
      λ k gone. others k (get-field_blocks k previous current names ∙ rw gone refl),
      rest,
    )
