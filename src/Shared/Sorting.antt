-- ===== src/Shared/Sorting.antt =====
-- Python's stable `sort`, by the test `le` that says that the first of two does not come after the second.
use mathlib.Core.Logic.{inl, inr}
use mathlib.Core.Bool.{Bool}
use mathlib.Core.List.{List, [], ◌∷◌}
use auto_agent.Shared.Tests.{if◌then◌else◌, Bool-cases}
use auto_agent.Shared.Lists.{All}

module _ {ℓ} {A : Type ℓ} where
  abbrev pub insert : (A → A → Bool) → A → List A → List A
  insert le x [] = x ∷ []
  insert le x (y ∷ ys) = let rest = insert le x ys in if le x y then x ∷ y ∷ ys else y ∷ rest

  abbrev pub sort : (A → A → Bool) → List A → List A
  sort le [] = []
  sort le (x ∷ xs) = insert le x (sort le xs)

  pub All-insert {κ} :
      (P : A → Type κ) (le : A → A → Bool) (x : A) (xs : List A)
      → P x
      → All P xs
      → All P (insert le x xs)
  All-insert P le x [] h k = (h, tt)
  All-insert P le x (y ∷ ys) h k = elim (Bool-cases (le x y)) [
    | inl before ↦ rw before (h, k)
    | inr after ↦ rw after (k.0, All-insert P le x ys h k.1)
  ]

  pub All-sort {κ} :
      (P : A → Type κ) (le : A → A → Bool) (xs : List A) → All P xs → All P (sort le xs)
  All-sort P le [] k = tt
  All-sort P le (x ∷ xs) k = All-insert P le x (sort le xs) k.0 (All-sort P le xs k.1)

  All-insert_back {κ} :
      (P : A → Type κ) (le : A → A → Bool) (x : A) (xs : List A)
      → All P (insert le x xs)
      → P x × All P xs
  All-insert_back P le x [] h = h
  All-insert_back P le x (y ∷ ys) h = elim (Bool-cases (le x y)) [
    | inl before ↦ rw before at h
    | inr after ↦
        let later : P y × All P (insert le x ys) = rw after at h in
        let (first, rest) = All-insert_back P le x ys later.1 in (first, (later.0, rest))
  ]

  pub All-sort_back {κ} :
      (P : A → Type κ) (le : A → A → Bool) (xs : List A) → All P (sort le xs) → All P xs
  All-sort_back P le [] h = tt
  All-sort_back P le (x ∷ xs) h =
      let (first, rest) = All-insert_back P le x (sort le xs) h in
      (first, All-sort_back P le xs rest)
