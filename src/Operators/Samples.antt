-- ===== src/Operators/Samples.antt =====
-- A capability with two operators, and a third operator whose registration raises.
use auto_agent.Shared.{◌≡◌, refl, Bool, true, false, none, some, List, [], ◌∷◌, ◌↔◌, is_some}
use auto_agent.Shared.Keys.{Text, text, text_eq}
use auto_agent.Shared.Dict
use auto_agent.Shared.Exec.{ok, ◌>>=◌}
use auto_agent.Operators.{pos, Operator}
use auto_agent.Operators.Registry.{
  Registries, empty_registries, register_capability, register_operator, bind_contract,
  for_capability, operators_at, default_for_capability,
}
use auto_agent.Operators.Selector.{
  CapabilitySelectionPolicy, by_default, capability_ref, resolve_candidates, ids_of, order,
  order_by_default, preferred_among, usable, priority_le,
}
use auto_agent.Operators.Index.{
  IsIndexed, Registration, capability, operator, after_all, after_all-IsIndexed,
}
use auto_agent.Operators.Candidates.{Offered, resolve_candidates-Offered}

abbrev op : Text → Operator Bool
op id = record {
  id = id;
  capability_id = some (text "search");
  priority = pos 1;
  enabled = true;
  contract = true;
}

abbrev differ : Bool → Bool → Bool
differ true true = false
differ a b = true

abbrev calls : List (Registration Bool)
calls =
    capability (record { id = text "search"; contract = none })
    ∷ operator (op (text "b")) false
    ∷ operator (op (text "a")) true
    ∷ operator (record (op (text "c")) { contract = false }) false
    ∷ []

abbrev registries : Registries Bool
registries = after_all differ calls empty_registries

after_all-IsIndexed_example : IsIndexed registries
after_all-IsIndexed_example = after_all-IsIndexed differ calls

abbrev policy : CapabilitySelectionPolicy
policy = record {
  mode = by_default;
  allow_fallback = true;
  preferred_operator_ids = [];
  excluded_operator_ids = text "a" ∷ [];
}

b-Offered : Offered registries (text "search") (text "a" ∷ []) (text "b")
unfolding register_capability register_operator bind_contract ◌>>=◌ Dict.get Dict.put Dict.contains
b-Offered = (op (text "b"), refl, refl, refl, refl)

known : is_some (Dict.get (text "search") registries.capabilities) ≡ true
unfolding register_capability register_operator bind_contract ◌>>=◌ Dict.get Dict.put
known = refl

resolve_candidates-Offered_example :
    (os : List (Operator Bool)) × (resolve_candidates
        (capability_ref (text "search"))
        (some policy)
        registries
      ≡ ok os)
    × ((j : Text)
        → (Dict.contains j (ids_of os) ≡ true)
          ↔ Offered registries (text "search") (text "a" ∷ []) j)
resolve_candidates-Offered_example =
    resolve_candidates-Offered registries (after_all-IsIndexed differ calls) (text "search") policy
      (text "b") known refl b-Offered

-- The default operator comes first.
default_first :
    resolve_candidates (capability_ref (text "search")) none registries
    ≡ ok (op (text "a") ∷ op (text "b") ∷ [])
unfolding resolve_candidates order order_by_default preferred_among usable for_capability
    operators_at priority_le default_for_capability register_capability register_operator
    bind_contract ◌>>=◌ Dict.get Dict.put Dict.contains
default_first = refl

-- An id that is preferred twice comes twice.
preferred_twice :
    resolve_candidates
      (capability_ref (text "search"))
      (some (record policy {
        preferred_operator_ids = text "b" ∷ text "b" ∷ [];
        excluded_operator_ids = [];
      }))
      registries
    ≡ ok (op (text "b") ∷ op (text "b") ∷ op (text "a") ∷ [])
unfolding resolve_candidates order order_by_default preferred_among usable for_capability
    operators_at priority_le default_for_capability register_capability register_operator
    bind_contract ◌>>=◌ Dict.get Dict.put Dict.contains
preferred_twice = refl
