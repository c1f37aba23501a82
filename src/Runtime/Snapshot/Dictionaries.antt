-- ===== src/Runtime/Snapshot/Dictionaries.antt =====
-- What the difference of two dictionaries has for each key.
use auto_agent.Shared.{
  ◌≡◌, refl, ◌∙◌, Bool, true, false, Option, none, some, List, [], ◌∷◌, ◌++◌, is_some, or_else,
  arith, Bool-cases, inl, inr, Option-cases, if◌then◌else◌,
}
use auto_agent.Shared.Keys.{Text, text_eq, ==_iff}
use auto_agent.Shared.Dict
use auto_agent.Shared.Dict.{IsUnique, get-remove, remove-IsUnique}
use auto_agent.Shared.Sorting.{sort}
use auto_agent.Runtime.Value.{Value, null, Fields, end, field, entries, lookup}
use auto_agent.Runtime.Snapshot.{
  key, StateOperation, Block, block_le, removals, additions, common, diff, remove_at, add_at,
}
use auto_agent.Runtime.Snapshot.Stages.{get-sort, get-append, append-IsUnique}

-- What a difference has for a key, by what the two dictionaries have there.
abbrev pub expected : Text → Option Value → Option Value → Option (List StateOperation)
expected k none none = none
expected k none (some w) = some (add_at (key k ∷ []) w ∷ [])
expected k (some v) none = some (remove_at (key k ∷ []) ∷ [])
expected k (some v) (some w) = some (diff (key k ∷ []) v w)

abbrev block_of : Bool → List StateOperation → Option (List StateOperation)
block_of true os = some os
block_of false os = none

abbrev not_in : Option Value → Bool
not_in none = true
not_in (some v) = false

get-removals :
    (j : Text) (f g : Fields)
    → Dict.get j (removals [] f g) ≡ (
        if is_some (lookup j f)
        then block_of (not_in (lookup j g)) (remove_at (key j ∷ []) ∷ [])
        else none)
unfolding Dict.get removals
get-removals j end g = refl
get-removals j (field k v f) g = elim (Option-cases (lookup k g)) [
  | inl gone ↦ rw gone (ground (arith, ==_iff k j, get-removals j f g, gone))
  | inr (w, there) ↦ rw there (ground (arith, ==_iff k j, get-removals j f g, there))
]

removals-IsUnique : (f g : Fields) → IsUnique (entries f) → IsUnique (removals [] f g)
unfolding removals
removals-IsUnique end g h = tt
removals-IsUnique (field k v f) g h = elim (Bool-cases (is_some (lookup k g))) [
  | inl there ↦ rw there (removals-IsUnique f g h.1)
  | inr gone ↦ rw gone (get-removals k f g ∙ rw h.0 refl, removals-IsUnique f g h.1)
]

abbrev added : Text → Option Value → Option (List StateOperation)
added k none = none
added k (some w) = some (add_at (key k ∷ []) w ∷ [])

get-additions :
    (j : Text) (f g : Fields)
    → Dict.get j (additions [] f g) ≡ (if is_some (lookup j f) then none else added j (lookup j g))
unfolding Dict.get additions
get-additions j f end = ground arith
get-additions j f (field k w g) = elim (Option-cases (lookup k f)) [
  | inl new ↦ rw new (ground (arith, ==_iff k j, get-additions j f g, new))
  | inr (v, there) ↦ rw there (ground (arith, ==_iff k j, get-additions j f g, there))
]

additions-IsUnique : (f g : Fields) → IsUnique (entries g) → IsUnique (additions [] f g)
unfolding additions
additions-IsUnique f end h = tt
additions-IsUnique f (field k w g) h = elim (Bool-cases (is_some (lookup k f))) [
  | inl there ↦ rw there (additions-IsUnique f g h.1)
  | inr new ↦ rw new (get-additions k f g ∙ rw (h.0, new) refl, additions-IsUnique f g h.1)
]

abbrev kept : Text → Option Value → Option Value → Option (List StateOperation)
kept k none o = none
kept k (some v) none = none
kept k (some v) (some w) = some (diff (key k ∷ []) v w)

common-field :
    (k : Text) (v : Value) (f g : Fields)
    → common [] (field k v f) g ≡ (
        if is_some (lookup k g)
        then (k, diff (key k ∷ []) v (or_else (lookup k g) null)) ∷ common [] f g
        else common [] f g)
unfolding common
common-field k v f g = refl

common-end : (j : Text) (g : Fields) → Dict.get j (common [] end g) ≡ none
unfolding common Dict.get
common-end j g = refl

get-common :
    (j : Text) (f g : Fields) → Dict.get j (common [] f g) ≡ kept j (lookup j f) (lookup j g)
unfolding Dict.get
get-common j end g = common-end j g
get-common j (field k v f) g = elim (Option-cases (lookup k g)) [
  | inl gone ↦ rw (common-field, gone) (ground (arith, ==_iff k j, get-common j f g, gone))
  | inr (w, there) ↦ rw (common-field, there) (ground (arith, ==_iff k j, get-common j f g, there))
]

common_end-IsUnique : (g : Fields) → IsUnique (common [] end g)
unfolding common
common_end-IsUnique g = tt

common-IsUnique : (f g : Fields) → IsUnique (entries f) → IsUnique (common [] f g)
common-IsUnique end g h = common_end-IsUnique g
common-IsUnique (field k v f) g h = elim (Bool-cases (is_some (lookup k g))) [
  | inl there ↦ rw (common-field, there) (get-common k f g ∙ rw h.0 refl, common-IsUnique f g h.1)
  | inr gone ↦ rw (common-field, gone) (common-IsUnique f g h.1)
]

abbrev pub all_blocks : Fields → Fields → List Block
all_blocks f g =
    sort block_le (removals [] f g)
    ++ sort block_le (additions [] f g)
    ++ sort block_le (common [] f g)

get_all_cases :
    (k : Text) (o p : Option Value) (x y z : Option (List StateOperation))
    → x ≡ (if is_some o then block_of (not_in p) (remove_at (key k ∷ []) ∷ []) else none)
    → y ≡ (if is_some o then none else added k p)
    → z ≡ kept k o p
    → (if is_some (if is_some x then x else y) then (if is_some x then x else y) else z)
      ≡ expected k o p
get_all_cases k none none x y z ex ey ez = rw (ex, ey, ez) refl
get_all_cases k none (some w) x y z ex ey ez = rw (ex, ey) refl
get_all_cases k (some v) none x y z ex ey ez = rw ex refl
get_all_cases k (some v) (some w) x y z ex ey ez = rw (ex, ey, ez) refl

pub get-all_blocks :
    (k : Text) (f g : Fields)
    → IsUnique (entries f)
    → IsUnique (entries g)
    → Dict.get k (all_blocks f g) ≡ expected k (lookup k f) (lookup k g)
get-all_blocks k f g uf ug =
    let (_, r) = get-sort (removals [] f g) (removals-IsUnique f g uf) in
    let (_, a) = get-sort (additions [] f g) (additions-IsUnique f g ug) in
    let (_, c) = get-sort (common [] f g) (common-IsUnique f g uf) in
    rw (get-append, get-append)
      (get_all_cases k (lookup k f) (lookup k g) _ _ _ (r k ∙ get-removals k f g)
        (a k ∙ get-additions k f g) (c k ∙ get-common k f g))

apart_first :
    (k : Text) (o p : Option Value) (x y : Option (List StateOperation))
    → x ≡ (if is_some o then block_of (not_in p) (remove_at (key k ∷ []) ∷ []) else none)
    → y ≡ (if is_some o then none else added k p)
    → is_some x ≡ true
    → y ≡ none
apart_first k none p x y ex ey there = ground (arith, ex, there)
apart_first k (some v) p x y ex ey there = ey

apart_second :
    (k : Text) (o p : Option Value) (x y z : Option (List StateOperation))
    → x ≡ (if is_some o then block_of (not_in p) (remove_at (key k ∷ []) ∷ []) else none)
    → y ≡ (if is_some o then none else added k p)
    → z ≡ kept k o p
    → is_some (if is_some x then x else y) ≡ true
    → z ≡ none
apart_second k none p x y z ex ey ez there = ez
apart_second k (some v) none x y z ex ey ez there = ez
apart_second k (some v) (some w) x y z ex ey ez there = ground (arith, ex, ey, there)

pub all_blocks-IsUnique :
    (f g : Fields) → IsUnique (entries f) → IsUnique (entries g) → IsUnique (all_blocks f g)
all_blocks-IsUnique f g uf ug =
    let (ur, r) = get-sort (removals [] f g) (removals-IsUnique f g uf) in
    let (ua, a) = get-sort (additions [] f g) (additions-IsUnique f g ug) in
    let (uc, c) = get-sort (common [] f g) (common-IsUnique f g uf) in
    append-IsUnique _ _
      (append-IsUnique _ _ ur ua (λ k there.
        apart_first k (lookup k f) (lookup k g) _ _ (r k ∙ get-removals k f g)
          (a k ∙ get-additions k f g) there))
      uc
      (λ k there.
        apart_second k (lookup k f) (lookup k g) _ _ _ (r k ∙ get-removals k f g)
          (a k ∙ get-additions k f g) (c k ∙ get-common k f g) (rw get-append at there))
