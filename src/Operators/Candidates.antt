-- ===== src/Operators/Candidates.antt =====
-- The operators that are tried for a capability, against those that are registered for it.
use auto_agent.Shared.{
  ◌≡◌, refl, sym, ap, ◌∙◌, subst, Bool, true, false, ◌&&◌, ◌||◌, not, Option, none, some, List, [],
  ◌∷◌, is_some, keep, arith, Bool-cases, inl, inr, Option-cases, &&-parts, ◌↔◌,
}
use auto_agent.Shared.Booleans.{or_true, and_false}
use auto_agent.Shared.Keys.{Text, text_eq, ◌==◌, ==_iff}
use auto_agent.Shared.Dict
use auto_agent.Shared.Dict.{Dict}
use auto_agent.Shared.Exec.{ok}
use auto_agent.Operators.{Operator}
use auto_agent.Operators.Registry.{
  Registries, listed_ids, operators_at, is_enabled, for_capability, default_for_capability,
}
use auto_agent.Operators.Selector.{
  CapabilitySelectionPolicy, ids_of, without, usable, order_by, order, resolve_candidates,
  capability_ref,
}
use auto_agent.Operators.Index.{IsIndexed}
use auto_agent.Operators.Order.{has, filled, has-without, usable-some, has-order_by}

module _ {C : Type 0} where
  -- The operator is stored and enabled.
  abbrev on_at : Option (Operator C) → Bool
  on_at none = false
  on_at (some o) = o.enabled

  has_one_more :
      (r : Registries C) (o : Operator C) (id j : Text) (os : List (Operator C)) (listed : Bool)
      → o.id ≡ id
      → Dict.get id r.items ≡ some o
      → has j (keep is_enabled os) ≡ (listed && on_at (Dict.get j r.items))
      → has j (keep is_enabled (o ∷ os)) ≡ ((id == j || listed) && on_at (Dict.get j r.items))
  unfolding Dict.contains
  has_one_more r o id j os listed keyed there e = elim (Bool-cases (id == j)) [
    | inl same ↦
        let here : Dict.get j r.items ≡ some o =
          subst (λ k. Dict.get k r.items ≡ some o) ((==_iff id j).0 same) there in
        let this : (o.id == j) ≡ true = ap (λ k. k == j) keyed ∙ same in
        let rest : has j (keep is_enabled os) ≡ (listed && o.enabled) = rw here at e in
        rw (same, here)
          (elim (Bool-cases o.enabled) [
            | inl on ↦ rw (on, this) refl
            | inr off ↦ rw off (rw off at rest ∙ and_false listed)
          ])
    | inr other ↦
        let not_this : (o.id == j) ≡ false = ap (λ k. k == j) keyed ∙ other in
        rw other (elim (Bool-cases o.enabled) [ inl on ↦ rw (on, not_this) e | inr off ↦ rw off e ])
  ]

  -- The ids of the index are looked up without a fault.
  operators_at-has :
      (r : Registries C) (ids : List Text)
      → ((id : Text) (o : Operator C) → Dict.get id r.items ≡ some o → o.id ≡ id)
      → ((id : Text)
          → Dict.contains id ids ≡ true
          → (o : Operator C) × (Dict.get id r.items ≡ some o))
      → (os : List (Operator C)) × (operators_at r.items ids ≡ ok os)
        × ((j : Text)
            → has j (keep is_enabled os) ≡ (Dict.contains j ids && on_at (Dict.get j r.items)))
  unfolding operators_at Dict.contains
  operators_at-has r [] keyed stored = ([], refl, λ j. refl)
  operators_at-has r (id ∷ ids) keyed stored =
      let (o, there) = stored id (rw ((==_iff id id).1 refl) refl) in
      let (os, runs, same) =
        operators_at-has r ids keyed (λ k e. stored k (or_true (id == k) _ e)) in
      (
        o ∷ os,
        rw (there, runs) refl,
        λ j. has_one_more r o id j os (Dict.contains j ids) (keyed id o there) there (same j),
      )

  -- An operator of the capability that is registered, enabled and not excluded.
  abbrev pub Offered : Registries C → Text → List Text → Text → Type 0
  Offered r capability_id excluded id =
      (o : Operator C) × (Dict.get id r.items ≡ some o)
      × (o.capability_id ≡ some capability_id)
      × (o.enabled ≡ true)
      × (Dict.contains id excluded ≡ false)

  module _ (r : Registries C) (indexed : IsIndexed r) (c : Text) where
    for_capability-has :
        (os : List (Operator C)) × (for_capability c false r ≡ ok os)
        × ((j : Text) → has j os ≡ (Dict.contains j (listed_ids r c) && on_at (Dict.get j r.items)))
    unfolding for_capability
    for_capability-has =
        let (os, runs, same) =
          operators_at-has r (listed_ids r c) indexed.keyed
            (λ id e. let (o, there, names) = indexed.known c id e in (o, there)) in
        (keep is_enabled os, rw runs refl, same)

    Offered-has :
        (excluded : List Text) (j : Text)
        → Offered r c excluded j
        → (not (Dict.contains j excluded)
            && (Dict.contains j (listed_ids r c) && on_at (Dict.get j r.items)))
          ≡ true
    Offered-has excluded j (o, there, names, on, allowed) =
        rw (allowed, indexed.listed c j o there names, there, on) refl

    has-Offered :
        (excluded : List Text) (j : Text)
        → (not (Dict.contains j excluded)
            && (Dict.contains j (listed_ids r c) && on_at (Dict.get j r.items)))
          ≡ true
        → Offered r c excluded j
    has-Offered excluded j e =
        let (allowed, both) = &&-parts (not (Dict.contains j excluded)) _ e in
        let (there, on) = &&-parts (Dict.contains j (listed_ids r c)) _ both in
        let (o, stored, names) = indexed.known c j there in
        (o, stored, names, rw stored at on, ground (arith, allowed))

    default-inside :
        (excluded : List Text) (candidates : List (Operator C))
        → ((j : Text)
            → has j candidates ≡ (
                not (Dict.contains j excluded)
                && (Dict.contains j (listed_ids r c) && on_at (Dict.get j r.items))))
        → (o : Operator C) → usable excluded (default_for_capability c r) ≡ some o
        → has o.id candidates ≡ true
    unfolding default_for_capability usable
    default-inside excluded candidates same o e =
        elim (Option-cases (Dict.get c r.default_by_capability)) [
          | inl missing ↦ let no : none ≡ some o = rw missing at e in ground (arith, no)
          | inr (i, named) ↦
              let (there, on, allowed) =
                usable-some excluded (Dict.get i r.items) o (rw named at e) in
              let keyed : o.id ≡ i = indexed.keyed i o there in
              let offer : Offered r c excluded i =
                let (p, stored, names) = indexed.known c i (indexed.default c i named) in
                let same_one : some p ≡ some o = sym stored ∙ there in
                (
                  p,
                  stored,
                  names,
                  ap on_at same_one ∙ on,
                  ap (λ k. Dict.contains k excluded) (sym keyed) ∙ allowed,
                ) in
              subst (λ k. has k candidates ≡ true) (sym keyed)
                (same i ∙ Offered-has excluded i offer)
        ]

    -- Where the registries are indexed, the capability is registered, and some operator of it is enabled and
    -- not excluded, a policy with fallback gets a list of operators: those of the capability that are
    -- registered, enabled and not excluded, and no others.
    pub resolve_candidates-Offered :
        (policy : CapabilitySelectionPolicy) (id : Text)
        → is_some (Dict.get c r.capabilities) ≡ true
        → policy.allow_fallback ≡ true
        → Offered r c policy.excluded_operator_ids id
        → (os : List (Operator C)) × (resolve_candidates (capability_ref c) (some policy) r ≡ ok os)
          × ((j : Text)
              → (Dict.contains j (ids_of os) ≡ true) ↔ Offered r c policy.excluded_operator_ids j)
    unfolding resolve_candidates order
    resolve_candidates-Offered policy id registered fallback offered =
        let (found, runs, same) = for_capability-has in
        let excluded = policy.excluded_operator_ids in
        let allowed = without excluded found in
        let ordered = order_by policy.mode policy (default_for_capability c r) allowed in
        let same_allowed = λ (j : Text).
          has-without j excluded found ∙ ap (λ b. not (Dict.contains j excluded) && b) (same j) in
        let inside : has id allowed ≡ true = same_allowed id ∙ Offered-has excluded id offered in
        let there : has id found ≡ true =
          (&&-parts (not (Dict.contains id excluded)) _
            (sym (has-without id excluded found) ∙ inside)).1 in
        let has_ordered = λ (j : Text).
          has-order_by j policy.mode policy (default_for_capability c r) allowed
            (default-inside excluded allowed same_allowed)
          ∙ same_allowed j in
        (
          ordered,
          rw (registered, runs, filled found id there, filled allowed id inside, fallback) refl,
          λ j. (
            λ e. has-Offered excluded j (sym (has_ordered j) ∙ e),
            λ offer. has_ordered j ∙ Offered-has excluded j offer,
          ),
        )
