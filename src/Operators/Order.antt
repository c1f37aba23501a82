-- ===== src/Operators/Order.antt =====
-- The ids of the operators in the lists that the resolver makes, against the ids of the candidates.
use auto_agent.Shared.{
  ◌≡◌, refl, sym, ap, ◌∙◌, Bool, true, false, ◌&&◌, ◌||◌, not, Option, none, some, List, [], ◌∷◌,
  ◌++◌, keep, arith, Bool-cases, inl, inr, &&-parts,
}
use auto_agent.Shared.Booleans.{and_or, absorb}
use auto_agent.Shared.Keys.{Text, text_eq, ◌==◌, ==_iff}
use auto_agent.Shared.Dict
use auto_agent.Shared.Dict.{Dict}
use auto_agent.Shared.Sorting.{insert, sort}
use auto_agent.Operators.{Operator}
use auto_agent.Operators.Selector.{
  CapabilitySelectionPolicy, SelectionMode, by_default, by_priority, first_available, ids_of,
  without, preferred_among, usable, default_then_rest, order_by_default, order_by, is_empty,
  priority_le,
}

-- Whether an id is among those of the operators.
abbrev pub has : {C : Type 0} → Text → List (Operator C) → Bool
has j os = Dict.contains j (ids_of os)

module _ {C : Type 0} where
  pub filled : (os : List (Operator C)) (j : Text) → has j os ≡ true → is_empty os ≡ false
  unfolding Dict.contains
  filled [] j e = ground (arith, e)
  filled (o ∷ os) j e = refl

  has-append : (j : Text) (xs ys : List (Operator C)) → has j (xs ++ ys) ≡ (has j xs || has j ys)
  unfolding Dict.contains
  has-append j [] ys = refl
  has-append j (x ∷ xs) ys = ground (arith, has-append j xs ys)

  has-insert :
      (le : Operator C → Operator C → Bool) (j : Text) (x : Operator C) (xs : List (Operator C))
      → has j (insert le x xs) ≡ (x.id == j || has j xs)
  unfolding Dict.contains
  has-insert le j x [] = refl
  has-insert le j x (y ∷ ys) = elim (Bool-cases (le x y)) [
    | inl before ↦ rw before refl
    | inr after ↦ rw after (ground (arith, has-insert le j x ys))
  ]

  has-sort :
      (le : Operator C → Operator C → Bool) (j : Text) (xs : List (Operator C))
      → has j (sort le xs) ≡ has j xs
  unfolding Dict.contains
  has-sort le j [] = refl
  has-sort le j (x ∷ xs) =
      has-insert le j x (sort le xs) ∙ ap (λ b. x.id == j || b) (has-sort le j xs)

  pub has-without :
      (j : Text) (ids : List Text) (xs : List (Operator C))
      → has j (without ids xs) ≡ (not (Dict.contains j ids) && has j xs)
  unfolding Dict.contains
  has-without j ids [] = ground arith
  has-without j ids (x ∷ xs) = elim (Bool-cases (Dict.contains x.id ids)) [
    | inl skipped ↦ rw skipped (ground (arith, ==_iff x.id j, has-without j ids xs, skipped))
    | inr kept ↦ rw kept (ground (arith, ==_iff x.id j, has-without j ids xs, kept))
  ]

  has-keep_id :
      (j id : Text) (xs : List (Operator C))
      → has j (keep (λ o. o.id == id) xs) ≡ (id == j && has j xs)
  unfolding Dict.contains
  has-keep_id j id [] = ground arith
  has-keep_id j id (x ∷ xs) =
      ground (arith, ==_iff x.id id, ==_iff x.id j, ==_iff id j, has-keep_id j id xs)

  has-preferred_among :
      (j : Text) (ids : List Text) (xs : List (Operator C))
      → has j (preferred_among ids xs) ≡ (Dict.contains j ids && has j xs)
  unfolding preferred_among Dict.contains
  has-preferred_among j [] xs = refl
  has-preferred_among j (id ∷ ids) xs =
      has-append j (keep (λ o. o.id == id) xs) (preferred_among ids xs)
      ∙ rw (has-keep_id j id xs, has-preferred_among j ids xs)
          (and_or (id == j) (Dict.contains j ids) (has j xs))

  has_first :
      (j : Text) (o : Operator C) (sorted rest : List (Operator C))
      → has o.id rest ≡ true
      → has j sorted ≡ (not (Dict.contains j (o.id ∷ [])) && has j rest)
      → has j (o ∷ sorted) ≡ has j rest
  unfolding Dict.contains
  has_first j o sorted rest inside e = elim (Bool-cases (o.id == j)) [
    | inl same ↦
        let eq : o.id ≡ j = (==_iff o.id j).0 same in
        let there : has j rest ≡ true = rw eq at inside in rw (same, there) refl
    | inr other ↦ rw other (e ∙ rw other refl)
  ]

  pub usable-some :
      (skipped : List Text) (d : Option (Operator C)) (o : Operator C)
      → usable skipped d ≡ some o
      → (d ≡ some o) × (o.enabled ≡ true) × (Dict.contains o.id skipped ≡ false)
  unfolding usable
  usable-some skipped none o e = ground (arith, e)
  usable-some skipped (some p) o e =
      elim (Bool-cases (p.enabled && not (Dict.contains p.id skipped))) [
        | inl may ↦
            let here : some p ≡ some o = rw may at e in
            let same : p ≡ o = cc here in
            let (on, free) = &&-parts p.enabled _ may in
            let out : Dict.contains p.id skipped ≡ false = ground (arith, free) in
            (
              here,
              ap (λ x. x.enabled) (sym same) ∙ on,
              ap (λ x. Dict.contains x.id skipped) (sym same) ∙ out,
            )
        | inr may_not ↦ let no : none ≡ some o = rw may_not at e in ground (arith, no)
      ]

  has-default_then_rest :
      (j : Text) (d : Option (Operator C)) (rest : List (Operator C))
      → ((o : Operator C) → d ≡ some o → has o.id rest ≡ true)
      → has j (default_then_rest d rest) ≡ has j rest
  has-default_then_rest j none rest inside = has-sort priority_le j rest
  has-default_then_rest j (some o) rest inside =
      has_first j o (sort priority_le (without (o.id ∷ []) rest)) rest (inside o refl)
        (has-sort priority_le j (without (o.id ∷ []) rest) ∙ has-without j (o.id ∷ []) rest)

  has-order_by_default :
      (j : Text) (policy : CapabilitySelectionPolicy) (d : Option (Operator C))
      (candidates : List (Operator C))
      → ((o : Operator C)
          → usable policy.excluded_operator_ids d ≡ some o
          → has o.id candidates ≡ true)
      → has j (order_by_default policy d candidates) ≡ has j candidates
  unfolding order_by_default
  has-order_by_default j policy d candidates inside =
      let preferred = preferred_among policy.preferred_operator_ids candidates in
      elim (Bool-cases (is_empty preferred)) [
        | inl none_there ↦ rw none_there (has-default_then_rest j _ candidates inside)
        | inr some_there ↦ rw some_there (
            has-append j preferred _
            ∙ ap (λ b. has j preferred || b)
                (has-default_then_rest j _ (without (ids_of preferred) candidates) (λ o e.
                  let (there, on, out) = usable-some (ids_of preferred) _ o e in
                  has-without o.id (ids_of preferred) candidates ∙ rw (out, inside o there) refl))
            ∙ rw (has-without, has-preferred_among)
                (absorb (Dict.contains j policy.preferred_operator_ids) (has j candidates)))
      ]

  pub has-order_by :
      (j : Text) (mode : SelectionMode) (policy : CapabilitySelectionPolicy)
      (d : Option (Operator C)) (candidates : List (Operator C))
      → ((o : Operator C)
          → usable policy.excluded_operator_ids d ≡ some o
          → has o.id candidates ≡ true)
      → has j (order_by mode policy d candidates) ≡ has j candidates
  has-order_by j by_priority policy d candidates inside = has-sort _ j candidates
  has-order_by j first_available policy d candidates inside = has-sort _ j candidates
  has-order_by j by_default policy d candidates inside =
      has-order_by_default j policy d candidates inside
