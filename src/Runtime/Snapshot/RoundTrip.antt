-- ===== src/Runtime/Snapshot/RoundTrip.antt =====
-- A difference, applied to the value that it was taken from.
use auto_agent.Shared.{
  ℕ, suc, ◌≡◌, refl, sym, ap, ◌∙◌, subst, true, Option, none, some, List, [], ◌∷◌, ◌++◌, arith,
  Bool-cases, inl, inr, Option-cases, if◌then◌else◌, length, take, drop, take-append-drop,
  length-append, append-nil, append_assoc,
}
use auto_agent.Shared.Keys.{Text, text_eq, ◌==◌}
use auto_agent.Shared.Dict
use auto_agent.Shared.Dict.{IsUnique, get-remove, remove-IsUnique}
use auto_agent.Shared.Sorting.{sort}
use auto_agent.Shared.Exec.{ok}
use auto_agent.Shared.Outcomes.{no_value, some-injective}
use auto_agent.Runtime.Value.{
  Value, null, atom, chars, arr, obj, Items, Fields, end, field, lookup, listed, items_of, value_eq,
  items_eq, listed-items_of, items_of-listed,
}
use auto_agent.Runtime.Snapshot.{
  block_le, operations_of, removals, additions, common, appended, extends, diff, replace_at,
  apply_at, edit, insert_item,
}
use auto_agent.Runtime.Snapshot.Reads.{
  Agree-refl, found, value_eq-Agree, items_eq-AllAgree, arr-Agree, obj-Agree, AllAgree,
  AllAgree-append, AllAgree-sym,
}
use auto_agent.Runtime.Snapshot.Blocks.{apply_all, apply_path}
use auto_agent.Runtime.Snapshot.Stages.{run_blocks, operations_of-append}
use auto_agent.Runtime.Snapshot.Dictionaries.{
  expected, all_blocks, get-all_blocks, all_blocks-IsUnique,
}
use auto_agent.Runtime.Snapshot.Changes.{Tidy, TidyFields, Returns, block-Works}

insert_item-end : (v : Value) (xs : List Value) → insert_item (length xs) v xs ≡ xs ++ v ∷ []
insert_item-end v [] = refl
insert_item-end v (x ∷ xs) = ap (λ l. x ∷ l) (insert_item-end v xs)

-- The additions past the end of a list append the values in order.
appended-run :
    (vs xs : List Value) (n : ℕ)
    → n ≡ length xs
    → apply_all (appended [] n vs) (arr (items_of xs)) ≡ ok (arr (items_of (xs ++ vs)))
unfolding apply_all apply_path apply_at edit appended
appended-run [] xs n e = rw append-nil refl
appended-run (v ∷ vs) xs n e =
    let next = appended-run vs (xs ++ v ∷ []) (suc (length xs)) (rw length-append (omega arith)) in
    rw (e, listed-items_of, insert_item-end)
      (next ∙ ap (λ l. ok (arr (items_of l))) (append_assoc xs (v ∷ []) vs))

pub TidyFields-lookup :
    (k : Text) (f : Fields) (v : Value) → TidyFields f → lookup k f ≡ some v → Tidy v
unfolding Dict.get
TidyFields-lookup k end v h e = elim (no_value e) [ ]
TidyFields-lookup k (field j u f) v h e = elim (Bool-cases (j == k)) [
  | inl same ↦ subst Tidy (some-injective (rw same at e)) h.0
  | inr other ↦ TidyFields-lookup k f v h.1 (rw other at e)
]

extends-AllAgree :
    (xs ys : Items)
    → extends xs ys ≡ true
    → AllAgree (listed xs) (take (length (listed xs)) (listed ys))
unfolding extends
extends-AllAgree xs ys h =
    let start = items_of (take (length (listed xs)) (listed ys)) in
    let equal : items_eq start xs ≡ true = ground (arith, h) in
    AllAgree-sym _ (listed xs) (rw listed-items_of at (items_eq-AllAgree start xs equal))

extended-Returns :
    (xs ys : Items)
    → extends xs ys ≡ true
    → Returns
        (appended [] (length (listed xs)) (drop (length (listed xs)) (listed ys)))
        (arr xs)
        (arr ys)
extended-Returns xs ys longer =
    let n = length (listed xs) in
    let rest = drop n (listed ys) in
    let runs = appended-run rest (listed xs) n refl in
    let agree : AllAgree (listed xs ++ rest) (take n (listed ys) ++ rest) =
      AllAgree-append (listed xs) (take n (listed ys)) rest (extends-AllAgree xs ys longer) in
    (
      arr (items_of (listed xs ++ rest)),
      rw items_of-listed at runs,
      arr-Agree _ ys (rw listed-items_of (rw take-append-drop at agree)),
    )

list-Returns : (xs ys : Items) → Returns (diff [] (arr xs) (arr ys)) (arr xs) (arr ys)
unfolding diff apply_all apply_path
list-Returns xs ys = elim (Bool-cases (value_eq (arr xs) (arr ys))) [
  | inl equal ↦ rw equal (arr xs, refl, value_eq-Agree (arr xs) (arr ys) equal)
  | inr different ↦ rw different (elim (Bool-cases (extends xs ys)) [
    | inl longer ↦ rw longer (extended-Returns xs ys longer)
    | inr other ↦ rw other (arr ys, refl, Agree-refl (arr ys))
  ])
]

expected-none : (k : Text) (o p : Option Value) → expected k o p ≡ none → (o ≡ none) × (p ≡ none)
expected-none k none none e = (refl, refl)
expected-none k none (some w) e = elim (no_value (sym e)) [ ]
expected-none k (some v) none e = elim (no_value (sym e)) [ ]
expected-none k (some v) (some w) e = elim (no_value (sym e)) [ ]

operations_of-all_blocks :
    (f g : Fields)
    → operations_of (all_blocks f g)
      ≡ operations_of (sort block_le (removals [] f g))
        ++ operations_of (sort block_le (additions [] f g))
        ++ operations_of (sort block_le (common [] f g))
operations_of-all_blocks f g = rw (operations_of-append, operations_of-append) refl

blocks-Returns :
    (f g : Fields)
    → Tidy (obj f)
    → Tidy (obj g)
    → ((k : Text) (v w : Value)
        → lookup k f ≡ some v
        → lookup k g ≡ some w
        → Returns (diff [] v w) v w)
    → Returns (operations_of (all_blocks f g)) (obj f) (obj g)
blocks-Returns f g tf tg inner =
    let at_key = λ (k : Text). get-all_blocks k f g tf.0 tg.0 in
    let (changed, runs, agree, others) =
      run_blocks f g (all_blocks f g) f (all_blocks-IsUnique f g tf.0 tg.0)
        (λ k os e.
          block-Works k (lookup k f) (lookup k g) os f g refl refl (inner k) (sym (at_key k) ∙ e))
        (λ k os e. refl) in
    (
      obj changed,
      runs,
      obj-Agree changed g (λ k. elim (Option-cases (Dict.get k (all_blocks f g))) [
        | inr (os, e) ↦ agree k os e
        | inl e ↦
            let (ef, eg) = expected-none k (lookup k f) (lookup k g) (sym (at_key k) ∙ e) in
            λ path. ap (found path) (others k e ∙ ef ∙ sym eg)
      ]),
    )

dictionary-Returns :
    (f g : Fields)
    → Tidy (obj f)
    → Tidy (obj g)
    → ((k : Text) (v w : Value)
        → lookup k f ≡ some v
        → lookup k g ≡ some w
        → Returns (diff [] v w) v w)
    → Returns (diff [] (obj f) (obj g)) (obj f) (obj g)
unfolding diff apply_all
dictionary-Returns f g tf tg inner = elim (Bool-cases (value_eq (obj f) (obj g))) [
  | inl equal ↦ rw equal (obj f, refl, value_eq-Agree (obj f) (obj g) equal)
  | inr different ↦
      rw different (rw⁻¹ (operations_of-all_blocks f g) (blocks-Returns f g tf tg inner))
]

-- Any other difference is one replacement, or nothing.
other-Returns : (v w : Value) → Returns (if value_eq v w then [] else replace_at [] w ∷ []) v w
unfolding apply_all apply_path
other-Returns v w = elim (Bool-cases (value_eq v w)) [
  | inl equal ↦ rw equal (v, refl, value_eq-Agree v w equal)
  | inr different ↦ rw different (w, refl, Agree-refl w)
]

mutual
  unfolding diff Dict.get

  pub diff-Returns : (v w : Value) → Tidy v → Tidy w → Returns (diff [] v w) v w
  diff-Returns (obj f) (obj g) tv tw =
      dictionary-Returns f g tv tw
        (λ k v w here there. fields-Return f k v w tv.1 (TidyFields-lookup k g w tw.1 there) here)
  diff-Returns (arr xs) (arr ys) tv tw = list-Returns xs ys
  diff-Returns null w tv tw = other-Returns null w
  diff-Returns (atom a) w tv tw = other-Returns (atom a) w
  diff-Returns (chars t) w tv tw = other-Returns (chars t) w
  diff-Returns (arr xs) null tv tw = other-Returns (arr xs) null
  diff-Returns (arr xs) (atom a) tv tw = other-Returns (arr xs) (atom a)
  diff-Returns (arr xs) (chars t) tv tw = other-Returns (arr xs) (chars t)
  diff-Returns (arr xs) (obj g) tv tw = other-Returns (arr xs) (obj g)
  diff-Returns (obj f) null tv tw = other-Returns (obj f) null
  diff-Returns (obj f) (atom a) tv tw = other-Returns (obj f) (atom a)
  diff-Returns (obj f) (chars t) tv tw = other-Returns (obj f) (chars t)
  diff-Returns (obj f) (arr ys) tv tw = other-Returns (obj f) (arr ys)

  fields-Return :
      (f : Fields) (k : Text) (v w : Value)
      → TidyFields f
      → Tidy w
      → lookup k f ≡ some v
      → Returns (diff [] v w) v w
  fields-Return end k v w tf tw e = elim (no_value e) [ ]
  fields-Return (field j u f) k v w tf tw e = elim (Bool-cases (j == k)) [
    | inl same ↦
        subst (λ x. Returns (diff [] x w) x w) (some-injective (rw same at e))
          (diff-Returns u w tf.0 tw)
    | inr other ↦ fields-Return f k v w tf.1 tw (rw other at e)
  ]
