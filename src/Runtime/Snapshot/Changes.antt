-- ===== src/Runtime/Snapshot/Changes.antt =====
-- What each block of a difference of dictionaries does to its key.
use auto_agent.Shared.{◌≡◌, refl, sym, ap, ◌∙◌, subst, Option, none, some, List, [], ◌∷◌}
use auto_agent.Shared.Keys.{Text, text_eq, ==_iff}
use auto_agent.Shared.Dict
use auto_agent.Shared.Dict.{IsUnique, get-remove, remove-IsUnique}
use auto_agent.Shared.Exec.{ok}
use auto_agent.Shared.Outcomes.{no_value, some-injective}
use auto_agent.Runtime.Value.{
  Value, obj, Fields, end, field, entries, fields_of, lookup, entries-fields_of,
}
use auto_agent.Runtime.Snapshot.{
  key, StateOperation, diff, remove_at, add_at, apply_at, edit, assign_key,
}
use auto_agent.Runtime.Snapshot.Reads.{Agree, found}
use auto_agent.Runtime.Snapshot.Prefix.{diff-under}
use auto_agent.Runtime.Snapshot.Blocks.{apply_all, apply_path, key_run, lookup-assign_key}
use auto_agent.Runtime.Snapshot.Stages.{Works}
use auto_agent.Runtime.Snapshot.Dictionaries.{expected}

-- The dictionaries that are reached through dictionaries have one field for each key.
abbrev mutual
  pub Tidy : Value → Type 0
  Tidy (obj f) = IsUnique (entries f) × TidyFields f
  Tidy v = Unit

  pub TidyFields : Fields → Type 0
  TidyFields end = Unit
  TidyFields (field k v f) = Tidy v × TidyFields f

abbrev pub Returns : List StateOperation → Value → Value → Type 0
Returns os v w = (r : Value) × (apply_all os v ≡ ok r) × Agree r w

added-Works :
    (k : Text) (w : Value) (f g : Fields)
    → lookup k g ≡ some w
    → Works f g k (add_at (key k ∷ []) w ∷ [])
unfolding apply_all apply_path apply_at edit
added-Works k w f g there now at_start = (
  assign_key k w now,
  refl,
  λ path. ap (found path) (lookup-assign_key k k w now ∙ rw ((==_iff k k).1 refl) (sym there)),
  λ j other. lookup-assign_key k j w now ∙ rw other refl,
)

removed-Works :
    (k : Text) (v : Value) (f g : Fields)
    → lookup k f ≡ some v
    → lookup k g ≡ none
    → Works f g k (remove_at (key k ∷ []) ∷ [])
unfolding apply_all apply_path apply_at edit
removed-Works k v f g here gone now at_start =
    let known : lookup k now ≡ some v = at_start ∙ here in
    let removed = Dict.remove k (entries now) in
    (
      fields_of removed,
      rw known refl,
      λ path. ap (found path) (
          ap (Dict.get k) (entries-fields_of removed)
          ∙ get-remove k k (entries now)
          ∙ rw ((==_iff k k).1 refl) (sym gone)),
      λ j other.
          ap (Dict.get j) (entries-fields_of removed)
          ∙ get-remove k j (entries now)
          ∙ rw other refl,
    )

pub changed-Works :
    (k : Text) (v w : Value) (f g : Fields)
    → lookup k f ≡ some v
    → lookup k g ≡ some w
    → Returns (diff [] v w) v w
    → Works f g k (diff (key k ∷ []) v w)
changed-Works k v w f g here there (r, runs, agree) now at_start =
    let (changed, run, result, others) = key_run (diff [] v w) k now v r (at_start ∙ here) runs in
    (
      changed,
      rw (diff-under (key k) [] v w) run,
      λ path. ap (found path) result ∙ agree path ∙ ap (found path) (sym there),
      others,
    )

pub block-Works :
    (k : Text) (o p : Option Value) (os : List StateOperation) (f g : Fields)
    → lookup k f ≡ o
    → lookup k g ≡ p
    → ((v w : Value) → o ≡ some v → p ≡ some w → Returns (diff [] v w) v w)
    → expected k o p ≡ some os
    → Works f g k os
block-Works k none none os f g ef eg inner e = elim (no_value e) [ ]
block-Works k none (some w) os f g ef eg inner e =
    subst (λ x. Works f g k x) (some-injective e) (added-Works k w f g eg)
block-Works k (some v) none os f g ef eg inner e =
    subst (λ x. Works f g k x) (some-injective e) (removed-Works k v f g ef eg)
block-Works k (some v) (some w) os f g ef eg inner e =
    subst (λ x. Works f g k x) (some-injective e)
      (changed-Works k v w f g ef eg (inner v w refl refl))
