-- ===== src/Operators/Selector.antt =====
-- autoagent/core/operators/selector.py: the operators that a node may call, in the order in which they are tried.
use auto_agent.Shared.{
  ℕ, suc, Bool, true, false, ◌&&◌, not, Option, none, some, List, [], ◌∷◌, ◌++◌, if◌then◌else◌,
  is_some, or_else, keep, ltb, take,
}
use auto_agent.Shared.Keys.{Text, text_eq, text_le, ◌==◌}
use auto_agent.Shared.Dict
use auto_agent.Shared.Dict.{Dict}
use auto_agent.Shared.Sorting.{sort}
use auto_agent.Shared.Exec.{Result, ok, err, Fault, then_result}
use auto_agent.Operators.{Operator, int_le}
use auto_agent.Operators.Registry.{Registries, for_capability, default_for_capability}

-- The modes of the selection policy, in the order default, priority, first_available.
pub data SelectionMode : Type 0 where
  by_default by_priority first_available : SelectionMode

pub record CapabilitySelectionPolicy : Type 0 where
  pub mode : SelectionMode
  pub allow_fallback : Bool
  pub preferred_operator_ids : List Text
  pub excluded_operator_ids : List Text

abbrev default_policy : CapabilitySelectionPolicy
default_policy = record {
  mode = by_default;
  allow_fallback = true;
  preferred_operator_ids = [];
  excluded_operator_ids = [];
}

-- The compiled binding of a node. A callable that is bound directly comes with the operator made of it.
pub data Binding (C : Type 0) : Type 0 where
  operator : Operator C → Binding C
  callable : Operator C → Binding C
  operator_ref : Text → Binding C
  capability_ref : Text → Binding C
  system_command : Text → Binding C
  other : Binding C

-- `{operator_id: index for index, operator_id in enumerate(ids)}`: of an id that comes twice the last index
unfoldable pub indexes : ℕ → List Text → Dict Text ℕ → Dict Text ℕ
indexes n [] d = d
indexes n (id ∷ ids) d = indexes (suc n) ids (Dict.put id n d)

-- The next part of a tuple counts only where the parts before it are equal.
abbrev lexicographic : Bool → Bool → Bool → Bool
lexicographic before after rest = if before then true else if after then false else rest

-- the key `(id not in preferred, preferred.get(id, 0))`, before what follows it
abbrev preferred_first : Option ℕ → Option ℕ → Bool → Bool
preferred_first none none rest = rest
preferred_first none (some j) rest = false
preferred_first (some i) none rest = true
preferred_first (some i) (some j) rest = lexicographic (ltb i j) (ltb j i) rest

abbrev pub is_empty {ℓ} : {A : Type ℓ} → List A → Bool
is_empty [] = true
is_empty (x ∷ xs) = false

module _ {C : Type 0} where
  -- the key `(-priority, id)`
  unfoldable pub priority_le : Operator C → Operator C → Bool
  priority_le a b =
      lexicographic (not (int_le a.priority b.priority)) (not (int_le b.priority a.priority))
        (text_le a.id b.id)

  unfoldable pub preferred_le :
      Dict Text ℕ → (Operator C → Operator C → Bool) → Operator C → Operator C → Bool
  preferred_le order le a b = preferred_first (Dict.get a.id order) (Dict.get b.id order) (le a b)

  abbrev id_le : Operator C → Operator C → Bool
  id_le a b = text_le a.id b.id

  abbrev pub ids_of : List (Operator C) → List Text
  ids_of [] = []
  ids_of (o ∷ os) = o.id ∷ ids_of os

  abbrev pub without : List Text → List (Operator C) → List (Operator C)
  without ids = keep (λ o. not (Dict.contains o.id ids))

  -- the candidates that are preferred, in the order of the preferences
  unfoldable pub preferred_among : List Text → List (Operator C) → List (Operator C)
  preferred_among [] candidates = []
  preferred_among (id ∷ ids) candidates =
      keep (λ o. o.id == id) candidates ++ preferred_among ids candidates

  -- the default operator, if it may be used
  unfoldable pub usable : List Text → Option (Operator C) → Option (Operator C)
  usable skipped none = none
  usable skipped (some o) = if o.enabled && not (Dict.contains o.id skipped) then some o else none

  abbrev pub default_then_rest : Option (Operator C) → List (Operator C) → List (Operator C)
  default_then_rest none rest = sort priority_le rest
  default_then_rest (some o) rest = o ∷ sort priority_le (without (o.id ∷ []) rest)

  unfoldable pub order_by_default :
      CapabilitySelectionPolicy → Option (Operator C) → List (Operator C) → List (Operator C)
  order_by_default policy default candidates =
      let preferred = preferred_among policy.preferred_operator_ids candidates in
      let ids = ids_of preferred in
      if is_empty preferred
      then default_then_rest (usable policy.excluded_operator_ids default) candidates
      else preferred
        ++ default_then_rest (usable ids (usable policy.excluded_operator_ids default))
            (without ids candidates)

  abbrev pub order_by :
      SelectionMode
      → CapabilitySelectionPolicy
      → Option (Operator C)
      → List (Operator C)
      → List (Operator C)
  order_by by_priority policy default candidates =
      sort (preferred_le (indexes 0 policy.preferred_operator_ids []) priority_le) candidates
  order_by first_available policy default candidates =
      sort (preferred_le (indexes 0 policy.preferred_operator_ids []) id_le) candidates
  order_by by_default policy default candidates = order_by_default policy default candidates

  -- OperatorResolver._order
  unfoldable pub order :
      Text
      → List (Operator C)
      → CapabilitySelectionPolicy
      → Registries C
      → Result (List (Operator C))
  order capability_id candidates policy r =
      let allowed = without policy.excluded_operator_ids candidates in
      if is_empty allowed
      then err Fault.capability_unavailable
      else ok (order_by policy.mode policy (default_for_capability capability_id r) allowed)

  abbrev if_enabled : Operator C → Result (List (Operator C))
  if_enabled o = if o.enabled then ok (o ∷ []) else err Fault.operator_unavailable

  abbrev registered : Option (Operator C) → Result (List (Operator C))
  registered none = err Fault.operator_not_registered
  registered (some o) = if_enabled o

  abbrev pub fallbacks : Bool → List (Operator C) → List (Operator C)
  fallbacks true ordered = ordered
  fallbacks false ordered = take 1 ordered

  -- OperatorResolver.resolve_candidates
  unfoldable pub resolve_candidates :
      Binding C → Option CapabilitySelectionPolicy → Registries C → Result (List (Operator C))
  resolve_candidates (operator o) policy r = if_enabled o
  resolve_candidates (callable o) policy r = ok (o ∷ [])
  resolve_candidates (operator_ref id) policy r = registered (Dict.get id r.items)
  resolve_candidates (capability_ref id) policy r =
      let effective = or_else policy default_policy in
      if not (is_some (Dict.get id r.capabilities))
      then err Fault.capability_not_registered
      else then_result (for_capability id false r) (λ candidates.
        if is_empty candidates
        then err Fault.capability_unavailable
        else then_result (order id candidates effective r)
            (λ ordered. ok (fallbacks effective.allow_fallback ordered)))
  resolve_candidates (system_command id) policy r = err Fault.system_command_unsupported
  resolve_candidates other policy r = err Fault.unsupported_capability
