-- ===== src/Runtime/Snapshot/Blocks.antt =====
-- Operations on one key of a dictionary after another.
use auto_agent.Shared.{
  ◌≡◌, refl, ap, ◌∙◌, false, some, List, [], ◌∷◌, arith, inl, inr, if◌then◌else◌,
}
use auto_agent.Shared.Keys.{Text, text_eq, ◌==◌, ==_iff}
use auto_agent.Shared.Dict.{get-put}
use auto_agent.Shared.Exec.{Result, ok, err, Fault, then_result}
use auto_agent.Shared.Outcomes.{Result-cases, ok-injective}
use auto_agent.Runtime.Value.{Value, obj, Fields, lookup, entries, entries-fields_of}
use auto_agent.Runtime.Snapshot.{
  Segment, key, OperationKind, op_add, op_replace, op_remove, StateOperation, edit, child, apply_at,
  assign_key,
}
use auto_agent.Runtime.Snapshot.Prefix.{all_under}

pub lookup-assign_key :
    (k j : Text) (v : Value) (f : Fields)
    → lookup j (assign_key k v f) ≡ (if k == j then some v else lookup j f)
lookup-assign_key k j v f = rw entries-fields_of (get-put k j v (entries f))

-- An operation on a value that is itself a child: without a path it takes the place of the value.
abbrev place : OperationKind → Value → Result Value
place op_remove new = err Fault.bad_path
place op_add new = ok new
place op_replace new = ok new

unfoldable pub apply_path : OperationKind → Value → List Segment → Value → Result Value
apply_path op new [] v = place op new
apply_path op new (segment ∷ path) v = apply_at op new segment path v

unfoldable pub apply_all : List StateOperation → Value → Result Value
apply_all [] v = ok v
apply_all (o ∷ os) v = then_result (apply_path o.op o.value o.path v) (apply_all os)

place-key :
    (op : OperationKind) (new r : Value) (k : Text) (f : Fields)
    → place op new ≡ ok r
    → edit op (key k) new (obj f) ≡ ok (obj (assign_key k r f))
unfolding edit
place-key op_remove new r k f e = ground (arith, e)
place-key op_add new r k f e = ap (λ t. ok (obj (assign_key k t f))) (ok-injective e)
place-key op_replace new r k f e = ap (λ t. ok (obj (assign_key k t f))) (ok-injective e)

path-key :
    (op : OperationKind) (new : Value) (path : List Segment) (k : Text) (f : Fields) (v r : Value)
    → lookup k f ≡ some v
    → apply_path op new path v ≡ ok r
    → apply_at op new (key k) path (obj f) ≡ ok (obj (assign_key k r f))
unfolding apply_path apply_at child edit
path-key op new [] k f v r here e = place-key op new r k f e
path-key op new (segment ∷ path) k f v r here e = rw (apply_at, here, e) refl

-- What the operations on the value of a key do to it, they do to the dictionary at that key.
pub key_run :
    (os : List StateOperation) (k : Text) (f : Fields) (v r : Value)
    → lookup k f ≡ some v
    → apply_all os v ≡ ok r
    → (f' : Fields) × (apply_all (all_under (key k) os) (obj f) ≡ ok (obj f'))
      × (lookup k f' ≡ some r)
      × ((j : Text) → (k == j) ≡ false → lookup j f' ≡ lookup j f)
unfolding apply_all apply_path
key_run [] k f v r here e = (f, refl, here ∙ ap some (ok-injective e), λ j other. refl)
key_run (o ∷ os) k f v r here e = elim (Result-cases (apply_path o.op o.value o.path v)) [
  | inr (fault, bad) ↦ let no : err fault ≡ ok r = rw bad at e in ground (arith, no)
  | inl (u, good) ↦
      let now : lookup k (assign_key k u f) ≡ some u =
        rw (lookup-assign_key, (==_iff k k).1 refl) refl in
      let left : apply_all os u ≡ ok r = rw good at e in
      let (f', runs, there, others) = key_run os k (assign_key k u f) u r now left in
      (
        f',
        rw (path-key o.op o.value o.path k f v u here good) runs,
        there,
        λ j other. others j other ∙ rw (lookup-assign_key, other) refl,
      )
]
