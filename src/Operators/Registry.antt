-- ===== src/Operators/Registry.antt =====
-- autoagent/core/operators/registry.py: the capabilities and the operators of an application. `mismatch` says
-- whether the comparison of two contracts finds an error; its warnings are only printed.
use auto_agent.Shared.{
  Bool, true, false, Option, none, some, List, [], ◌∷◌, ◌++◌, if◌then◌else◌, is_some, or_else, keep,
}
use auto_agent.Shared.Keys.{Text, text_eq}
use auto_agent.Shared.Dict
use auto_agent.Shared.Dict.{Dict, get-put}
use auto_agent.Shared.Exec.{
  Result, ok, Fault, Exec, then_result, from_option, ◌>>=◌, ◌>>◌, pure, raise, modify, gets,
}
use auto_agent.Operators.{Operator, Capability}

pub record Registries (C : Type 0) : Type 0 where
  pub capabilities : Dict Text (Capability C)
  pub items : Dict Text (Operator C)
  pub by_capability : Dict Text (List Text)
  pub default_by_capability : Dict Text Text

abbrev pub empty_registries : {C : Type 0} → Registries C
empty_registries = record {
  capabilities = [];
  items = [];
  by_capability = [];
  default_by_capability = [];
}

abbrev pub store_default : Bool → Text → Text → Dict Text Text → Dict Text Text
store_default false capability_id id defaults = defaults
store_default true capability_id id defaults = Dict.put capability_id id defaults

module _ {C : Type 0} where
  -- CapabilityRegistry.register
  unfoldable pub register_capability : Capability C → Exec (Registries C) Unit
  register_capability capability =
      gets (λ r. is_some (Dict.get capability.id r.capabilities)) >>= λ known.
      if known
      then raise Fault.already_registered
      else modify
          (λ r. record r { capabilities = Dict.put capability.id capability r.capabilities })

  -- `_bind_contract` of the capability that is found
  abbrev bind_found : C → Option (Capability C) → Exec (Registries C) Unit
  bind_found contract none = raise Fault.unknown_capability
  bind_found contract (some capability) =
      if is_some capability.contract
      then raise Fault.contract_bound
      else modify (λ r. record r {
        capabilities =
            Dict.put capability.id (record capability { contract = some contract }) r.capabilities;
      })

  -- CapabilityRegistry.bind_contract
  unfoldable pub bind_contract : Text → C → Exec (Registries C) Unit
  bind_contract capability_id contract =
      gets (λ r. Dict.get capability_id r.capabilities) >>= bind_found contract

  -- The ids that the index has for a capability.
  abbrev pub listed_ids : Registries C → Text → List Text
  listed_ids r capability_id = or_else (Dict.get capability_id r.by_capability) []

  abbrev pub store_item : Operator C → Registries C → Registries C
  store_item operator r = record r { items = Dict.put operator.id operator r.items }

  abbrev pub index_item : Operator C → Bool → Option Text → Registries C → Registries C
  index_item operator default none r = r
  index_item operator default (some capability_id) r = record r {
    by_capability =
        Dict.put capability_id (listed_ids r capability_id ++ operator.id ∷ []) r.by_capability;
    default_by_capability = store_default default capability_id operator.id r.default_by_capability;
  }

  abbrev pub store : Operator C → Bool → Registries C → Registries C
  store operator default r =
      index_item operator default operator.capability_id (store_item operator r)

  module _ (mismatch : C → C → Bool) where
    -- the contract of the capability is bound by its first operator, and asked of the others
    abbrev agree_on_contract : Operator C → Capability C → Option C → Exec (Registries C) Unit
    agree_on_contract operator capability none = bind_contract capability.id operator.contract
    agree_on_contract operator capability (some contract) =
        if mismatch contract operator.contract then raise Fault.contract_mismatch else pure tt

    abbrev check_capability : Operator C → Option Text → Exec (Registries C) (Option (Capability C))
    check_capability operator none = pure none
    check_capability operator (some capability_id) =
        gets (λ r. Dict.get capability_id r.capabilities) >>= λ found.
        if is_some found then pure found else raise Fault.unknown_capability

    abbrev check_default : Bool → Option Text → Exec (Registries C) Unit
    check_default false capability_id = pure tt
    check_default true none = raise Fault.default_standalone
    check_default true (some capability_id) =
        gets (λ r. is_some (Dict.get capability_id r.default_by_capability)) >>= λ taken.
        if taken then raise Fault.default_taken else pure tt

    abbrev check_contract : Operator C → Option (Capability C) → Exec (Registries C) Unit
    check_contract operator none = pure tt
    check_contract operator (some capability) =
        agree_on_contract operator capability capability.contract

    abbrev pub checks : Operator C → Bool → Exec (Registries C) Unit
    checks operator default = check_capability operator operator.capability_id >>= λ capability.
        (check_default default operator.capability_id >> check_contract operator capability)

    -- OperatorRegistry.register
    unfoldable pub register_operator : Operator C → Bool → Exec (Registries C) Unit
    register_operator operator default =
        gets (λ r. is_some (Dict.get operator.id r.items)) >>= λ known.
        if known
        then raise Fault.already_registered
        else checks operator default >> modify (store operator default)

  -- `self._items[operator_id] for operator_id in ...`
  unfoldable pub operators_at : Dict Text (Operator C) → List Text → Result (List (Operator C))
  operators_at items [] = ok []
  operators_at items (id ∷ ids) =
      then_result (from_option Fault.operator_not_registered (Dict.get id items))
        (λ operator. then_result (operators_at items ids) (λ rest. ok (operator ∷ rest)))

  abbrev pub is_enabled : Operator C → Bool
  is_enabled operator = operator.enabled

  -- OperatorRegistry.for_capability
  unfoldable pub for_capability : Text → Bool → Registries C → Result (List (Operator C))
  for_capability capability_id include_disabled r =
      then_result (operators_at r.items (listed_ids r capability_id))
        (λ operators. ok (if include_disabled then operators else keep is_enabled operators))

  abbrev default_item : Dict Text (Operator C) → Option Text → Option (Operator C)
  default_item items none = none
  default_item items (some id) = Dict.get id items

  -- OperatorRegistry.default_for_capability
  unfoldable pub default_for_capability : Text → Registries C → Option (Operator C)
  default_for_capability capability_id r =
      default_item r.items (Dict.get capability_id r.default_by_capability)
