-- ===== src/Runtime/Snapshot/Prefix.antt =====
-- The operations of a difference, against the path at which it is taken.
use auto_agent.Shared.{
  ℕ, suc, ◌≡◌, refl, ap, Bool, true, false, List, [], ◌∷◌, ◌++◌, if◌then◌else◌, is_some, or_else,
  length, drop, Bool-cases, inl, inr,
}
use auto_agent.Shared.Keys.{Text, text_eq}
use auto_agent.Shared.Sorting.{insert, sort}
use auto_agent.Runtime.Value.{
  Value, null, atom, chars, arr, obj, Fields, end, field, listed, lookup, value_eq,
}
use auto_agent.Runtime.Snapshot.{
  Segment, key, at, StateOperation, Block, block_le, operations_of, removals, additions, appended,
  extends, diff, common, add_at, remove_at, replace_at,
}

abbrev pub under : Segment → StateOperation → StateOperation
under segment operation = record operation { path = segment ∷ operation.path }

abbrev pub all_under : Segment → List StateOperation → List StateOperation
all_under segment [] = []
all_under segment (o ∷ os) = under segment o ∷ all_under segment os

abbrev blocks_under : Segment → List Block → List Block
blocks_under segment [] = []
blocks_under segment ((k, os) ∷ blocks) = (k, all_under segment os) ∷ blocks_under segment blocks

pub all_under-append :
    (s : Segment) (xs ys : List StateOperation)
    → all_under s (xs ++ ys) ≡ all_under s xs ++ all_under s ys
all_under-append s [] ys = refl
all_under-append s (x ∷ xs) ys = ap (λ l. under s x ∷ l) (all_under-append s xs ys)

operations_of-blocks_under :
    (s : Segment) (bs : List Block)
    → operations_of (blocks_under s bs) ≡ all_under s (operations_of bs)
operations_of-blocks_under s [] = refl
operations_of-blocks_under s ((k, os) ∷ bs) =
    rw (all_under-append, operations_of-blocks_under s bs) refl

insert-blocks_under :
    (s : Segment) (k : Text) (os : List StateOperation) (bs : List Block)
    → insert block_le (k, all_under s os) (blocks_under s bs)
      ≡ blocks_under s (insert block_le (k, os) bs)
insert-blocks_under s k os [] = refl
insert-blocks_under s k os ((j, ps) ∷ bs) = elim (Bool-cases (block_le (k, os) (j, ps))) [
  | inl before ↦ rw before refl
  | inr after ↦ rw after (ap (λ l. (j, all_under s ps) ∷ l) (insert-blocks_under s k os bs))
]

sort-blocks_under :
    (s : Segment) (bs : List Block)
    → sort block_le (blocks_under s bs) ≡ blocks_under s (sort block_le bs)
sort-blocks_under s [] = refl
sort-blocks_under s ((k, os) ∷ bs) =
    rw (sort-blocks_under s bs) (insert-blocks_under s k os (sort block_le bs))

removals-under :
    (s : Segment) (p : List Segment) (f g : Fields)
    → removals (s ∷ p) f g ≡ blocks_under s (removals p f g)
unfolding removals
removals-under s p end g = refl
removals-under s p (field k v f) g = elim (Bool-cases (is_some (lookup k g))) [
  | inl there ↦ rw there (removals-under s p f g)
  | inr gone ↦
      rw gone (ap (λ l. (k, remove_at (s ∷ p ++ key k ∷ []) ∷ []) ∷ l) (removals-under s p f g))
]

additions-under :
    (s : Segment) (p : List Segment) (f g : Fields)
    → additions (s ∷ p) f g ≡ blocks_under s (additions p f g)
unfolding additions
additions-under s p f end = refl
additions-under s p f (field k w g) = elim (Bool-cases (is_some (lookup k f))) [
  | inl there ↦ rw there (additions-under s p f g)
  | inr new ↦
      rw new (ap (λ l. (k, add_at (s ∷ p ++ key k ∷ []) w ∷ []) ∷ l) (additions-under s p f g))
]

appended-under :
    (s : Segment) (p : List Segment) (n : ℕ) (vs : List Value)
    → appended (s ∷ p) n vs ≡ all_under s (appended p n vs)
unfolding appended
appended-under s p n [] = refl
appended-under s p n (v ∷ vs) =
    ap (λ l. add_at (s ∷ p ++ at n ∷ []) v ∷ l) (appended-under s p (suc n) vs)

stage-under :
    (s : Segment) (bs cs : List Block)
    → bs ≡ blocks_under s cs
    → operations_of (sort block_le bs) ≡ all_under s (operations_of (sort block_le cs))
stage-under s bs cs e =
    rw (e, sort-blocks_under s cs) (operations_of-blocks_under s (sort block_le cs))

stages-under :
    (s : Segment) (xs ys zs us vs ws : List StateOperation)
    → xs ≡ all_under s us
    → ys ≡ all_under s vs
    → zs ≡ all_under s ws
    → xs ++ ys ++ zs ≡ all_under s (us ++ vs ++ ws)
stages-under s xs ys zs us vs ws ex ey ez =
    rw (ex, ey, ez, all_under-append s (us ++ vs) ws, all_under-append s us vs) refl

replaced-under :
    (s : Segment) (p : List Segment) (equal : Bool) (w : Value)
    → (if equal then [] else replace_at (s ∷ p) w ∷ [])
      ≡ all_under s (if equal then [] else replace_at p w ∷ [])
replaced-under s p true w = refl
replaced-under s p false w = refl

list-under :
    (s : Segment) (p : List Segment) (equal longer : Bool) (n : ℕ) (vs : List Value) (w : Value)
    → (if equal then [] else if longer then appended (s ∷ p) n vs else replace_at (s ∷ p) w ∷ [])
      ≡ all_under s (if equal then [] else if longer then appended p n vs else replace_at p w ∷ [])
list-under s p true longer n vs w = refl
list-under s p false true n vs w = appended-under s p n vs
list-under s p false false n vs w = refl

mutual
  unfolding diff common

  pub diff-under :
      (s : Segment) (p : List Segment) (v w : Value) → diff (s ∷ p) v w ≡ all_under s (diff p v w)
  diff-under s p (obj f) (obj g) = elim (Bool-cases (value_eq (obj f) (obj g))) [
    | inl equal ↦ rw equal refl
    | inr different ↦ rw different (
        stages-under s _ _ _ _ _ _ (stage-under s _ _ (removals-under s p f g))
          (stage-under s _ _ (additions-under s p f g)) (stage-under s _ _ (common-under s p f g)))
  ]
  diff-under s p (arr xs) (arr ys) =
      let n = length (listed xs) in
      list-under s p (value_eq (arr xs) (arr ys)) (extends xs ys) n (drop n (listed ys)) (arr ys)
  diff-under s p null w = replaced-under s p (value_eq null w) w
  diff-under s p (atom a) w = replaced-under s p (value_eq (atom a) w) w
  diff-under s p (chars t) w = replaced-under s p (value_eq (chars t) w) w
  diff-under s p (arr xs) null = replaced-under s p (value_eq (arr xs) null) null
  diff-under s p (arr xs) (atom a) = replaced-under s p (value_eq (arr xs) (atom a)) (atom a)
  diff-under s p (arr xs) (chars t) = replaced-under s p (value_eq (arr xs) (chars t)) (chars t)
  diff-under s p (arr xs) (obj g) = replaced-under s p (value_eq (arr xs) (obj g)) (obj g)
  diff-under s p (obj f) null = replaced-under s p (value_eq (obj f) null) null
  diff-under s p (obj f) (atom a) = replaced-under s p (value_eq (obj f) (atom a)) (atom a)
  diff-under s p (obj f) (chars t) = replaced-under s p (value_eq (obj f) (chars t)) (chars t)
  diff-under s p (obj f) (arr ys) = replaced-under s p (value_eq (obj f) (arr ys)) (arr ys)

  common-under :
      (s : Segment) (p : List Segment) (f g : Fields)
      → common (s ∷ p) f g ≡ blocks_under s (common p f g)
  common-under s p end g = refl
  common-under s p (field k v f) g = elim (Bool-cases (is_some (lookup k g))) [
    | inl there ↦ rw there (
        rw (diff-under s (p ++ key k ∷ []) v (or_else (lookup k g) null), common-under s p f g)
          refl)
    | inr gone ↦ rw gone (common-under s p f g)
  ]
