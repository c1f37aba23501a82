-- ===== src/Operators/Index.antt =====
-- The index of operators by capability, against the operators that are registered.
use auto_agent.Shared.{
  ◌≡◌, refl, sym, ap, ◌∙◌, subst, Bool, true, false, ◌||◌, none, some, List, [], ◌∷◌, ◌++◌, is_some,
  or_else, arith, Bool-cases, inl, inr, ◌⊎◌, ◌&&◌, &&-parts, Option-cases,
}
use auto_agent.Shared.Booleans.{or_true}
use auto_agent.Shared.Keys.{Text, text_eq, ◌==◌, ==_iff}
use auto_agent.Shared.Dict
use auto_agent.Shared.Dict.{Dict, get-put, contains-append_one}
use auto_agent.Shared.Exec.{Result, ok, err, ◌>>=◌, continue, modify}
use auto_agent.Operators.{Operator, Capability}
use auto_agent.Operators.Registry.{
  Registries, empty_registries, register_capability, register_operator, bind_contract, listed_ids,
  store, store_item, store_default, index_item, checks,
}

-- The index has for each capability the operators that name it, and among them the default one.
pub record IsIndexed {C : Type 0} (r : Registries C) : Type 0 where
  pub keyed : (id : Text) (o : Operator C) → Dict.get id r.items ≡ some o → o.id ≡ id
  pub known :
      (capability_id id : Text)
      → Dict.contains id (listed_ids r capability_id) ≡ true
      → (o : Operator C) × (Dict.get id r.items ≡ some o) × (o.capability_id ≡ some capability_id)
  pub listed :
      (capability_id id : Text) (o : Operator C)
      → Dict.get id r.items ≡ some o
      → o.capability_id ≡ some capability_id
      → Dict.contains id (listed_ids r capability_id) ≡ true
  pub default :
      (capability_id id : Text)
      → Dict.get capability_id r.default_by_capability ≡ some id
      → Dict.contains id (listed_ids r capability_id) ≡ true

empty-IsIndexed : {C : Type 0} → IsIndexed (empty_registries {C = C})
unfolding Dict.get Dict.contains
empty-IsIndexed = record {
  keyed = λ id o e. ground (arith, e);
  known = λ capability_id id e. ground (arith, e);
  listed = λ capability_id id o e k. ground (arith, e);
  default = λ capability_id id e. ground (arith, e);
}

-- Only the capabilities may differ.
abbrev SameItems : {C : Type 0} → Registries C → Registries C → Type 0
SameItems r s =
    (r.items ≡ s.items)
    × (r.by_capability ≡ s.by_capability)
    × (r.default_by_capability ≡ s.default_by_capability)

SameItems-IsIndexed : {C : Type 0} (r s : Registries C) → SameItems r s → IsIndexed r → IsIndexed s
SameItems-IsIndexed r s (ei, eb, ed) h = record {
  keyed = λ id o e. h.keyed id o (rw ei e);
  known = λ capability_id id e.
      let (o, there, names) = h.known capability_id id (rw eb e) in (o, rw⁻¹ ei there, names);
  listed = λ capability_id id o e names. rw⁻¹ eb (h.listed capability_id id o (rw ei e) names);
  default = λ capability_id id e. rw⁻¹ eb (h.default capability_id id (rw ed e));
}

module _ {C : Type 0} (mismatch : C → C → Bool) where
  register_capability-SameItems :
      (capability : Capability C) (r : Registries C)
      → SameItems r (register_capability capability r).1
  unfolding register_capability ◌>>=◌
  register_capability-SameItems capability r =
      elim (Bool-cases (is_some (Dict.get capability.id r.capabilities))) [
        | inl taken ↦ rw taken (refl, refl, refl)
        | inr free ↦ rw free (refl, refl, refl)
      ]

  checks-SameItems :
      (o : Operator C) (default : Bool) (r : Registries C)
      → SameItems r (checks mismatch o default r).1
  unfolding ◌>>=◌ bind_contract
  checks-SameItems o default r = ground arith

-- What the items have after a new one is stored.
abbrev Stored : {C : Type 0} → Operator C → Dict Text (Operator C) → Text → Operator C → Type 0
Stored o items id p = ((p ≡ o) × (o.id ≡ id)) ⊎ (Dict.get id items ≡ some p)

Stored-cases :
    {C : Type 0} (o : Operator C) (items : Dict Text (Operator C)) (id : Text) (p : Operator C)
    → Dict.get id (Dict.put o.id o items) ≡ some p
    → Stored o items id p
Stored-cases o items id p e = elim (Bool-cases (o.id == id)) [
  | inl same ↦
      let here : some o ≡ some p = rw (get-put, same) at e in inl (cc here, (==_iff o.id id).0 same)
  | inr other ↦ inr (rw (get-put, other) at e)
]

stored_new :
    {C : Type 0} (o : Operator C) (items : Dict Text (Operator C))
    → Dict.get o.id (Dict.put o.id o items) ≡ some o
stored_new o items = get-put o.id o.id o items ∙ rw ((==_iff o.id o.id).1 refl) refl

stored_kept :
    {C : Type 0} (o : Operator C) (items : Dict Text (Operator C)) (id : Text) (p : Operator C)
    → Dict.get o.id items ≡ none
    → Dict.get id items ≡ some p
    → Dict.get id (Dict.put o.id o items) ≡ some p
stored_kept o items id p fresh e = elim (Bool-cases (o.id == id)) [
  | inl same ↦
      let eq : o.id ≡ id = (==_iff o.id id).0 same in
      let missing : Dict.get id items ≡ none = rw eq at fresh in ground (arith, missing, e)
  | inr other ↦ get-put o.id id o items ∙ rw other e
]

-- The ids of a capability after one is added to those of `c`.
abbrev ids_after : Text → Text → Text → Dict Text (List Text) → List Text
ids_after c id d index =
    or_else (Dict.get d (Dict.put c (or_else (Dict.get c index) [] ++ id ∷ []) index)) []

contains-ids_after :
    (c id d j : Text) (index : Dict Text (List Text))
    → Dict.contains j (ids_after c id d index)
      ≡ ((c == d && id == j) || Dict.contains j (or_else (Dict.get d index) []))
contains-ids_after c id d j index = elim (Bool-cases (c == d)) [
  | inl same ↦
      let eq : c ≡ d = (==_iff c d).0 same in
      rw (get-put, same)
        (contains-append_one id j (or_else (Dict.get c index) [])
          ∙ ap (λ x. (id == j) || Dict.contains j (or_else (Dict.get x index) [])) eq)
  | inr other ↦ rw (get-put, other) refl
]

module _ {C : Type 0} (o : Operator C) (r : Registries C) (fresh : Dict.get o.id r.items ≡ none)
    (h : IsIndexed r) where
  standalone-IsIndexed : o.capability_id ≡ none → IsIndexed (store_item o r)
  standalone-IsIndexed alone = record {
    keyed = λ id p e. elim (Stored-cases o r.items id p e) [
      | inl (same, eq) ↦ ap (λ x. x.id) same ∙ eq
      | inr old ↦ h.keyed id p old
    ];
    known = λ c id e.
        let (p, there, names) = h.known c id e in
        (p, stored_kept o r.items id p fresh there, names);
    listed = λ c id p e names. elim (Stored-cases o r.items id p e) [
      | inl (same, eq) ↦
          let no : none ≡ some c = sym alone ∙ ap (λ x. x.capability_id) (sym same) ∙ names in
          ground (arith, no)
      | inr old ↦ h.listed c id p old names
    ];
    default = h.default;
  }

  default_kept :
      (default : Bool) (capability_id c id : Text) (defaults : Dict Text Text)
      → defaults ≡ r.default_by_capability
      → Dict.get c (store_default default capability_id o.id defaults) ≡ some id
      → ((capability_id == c && o.id == id) || Dict.contains id (listed_ids r c)) ≡ true
  default_kept false capability_id c id defaults same e =
      or_true (capability_id == c && o.id == id) _ (h.default c id (rw same at e))
  default_kept true capability_id c id defaults same e = elim (Bool-cases (capability_id == c)) [
    | inl this ↦
        let eq : some o.id ≡ some id = rw (get-put, this) at e in
        let hit : (o.id == id) ≡ true = (==_iff o.id id).1 (cc eq) in rw (this, hit) refl
    | inr other ↦
        let old : Dict.get c defaults ≡ some id = rw (get-put, other) at e in
        or_true (capability_id == c && o.id == id) _ (h.default c id (rw same at old))
  ]

  index_item-IsIndexed :
      (default : Bool) (capability_id : Text)
      → o.capability_id ≡ some capability_id
      → IsIndexed (index_item o default (some capability_id) (store_item o r))
  index_item-IsIndexed default capability_id names = record {
    keyed = λ id p e. elim (Stored-cases o r.items id p e) [
      | inl (same, eq) ↦ ap (λ x. x.id) same ∙ eq
      | inr old ↦ h.keyed id p old
    ];
    known = λ c id e. elim (Bool-cases (capability_id == c && o.id == id)) [
      | inl both ↦
          let (this, same) = &&-parts (capability_id == c) (o.id == id) both in
          (
            o,
            subst (λ x. Dict.get x (Dict.put o.id o r.items) ≡ some o) ((==_iff o.id id).0 same)
                (stored_new o r.items),
            names ∙ ap some ((==_iff capability_id c).0 this),
          )
      | inr neither ↦
          let old : Dict.contains id (listed_ids r c) ≡ true =
            rw neither at (sym (contains-ids_after capability_id o.id c id r.by_capability) ∙ e) in
          let (p, there, its) = h.known c id old in (p, stored_kept o r.items id p fresh there, its)
    ];
    listed = λ c id p e its.
        contains-ids_after capability_id o.id c id r.by_capability
        ∙ elim (Stored-cases o r.items id p e) [
          | inl (same, eq) ↦
              let this : some capability_id ≡ some c =
                sym names ∙ ap (λ x. x.capability_id) (sym same) ∙ its in
              let both : (capability_id == c && o.id == id) ≡ true =
                ground (arith, ==_iff capability_id c, ==_iff o.id id, this, eq) in
              rw both refl
          | inr old ↦ or_true (capability_id == c && o.id == id) _ (h.listed c id p old its)
        ];
    default = λ c id e.
        contains-ids_after capability_id o.id c id r.by_capability
        ∙ default_kept default capability_id c id r.default_by_capability refl e;
  }

  store-IsIndexed : (default : Bool) → IsIndexed (store o default r)
  store-IsIndexed default = elim (Option-cases o.capability_id) [
    | inl alone ↦
        subst (λ c. IsIndexed (index_item o default c (store_item o r))) (sym alone)
          (standalone-IsIndexed alone)
    | inr (capability_id, names) ↦
        subst (λ c. IsIndexed (index_item o default c (store_item o r))) (sym names)
          (index_item-IsIndexed default capability_id names)
  ]

module _ {C : Type 0} (mismatch : C → C → Bool) where
  stored-IsIndexed :
      (o : Operator C) (default : Bool) (r s : Registries C) (checked : Result Unit)
      → Dict.get o.id r.items ≡ none
      → SameItems r s
      → IsIndexed r
      → IsIndexed (continue checked (λ _. modify (store o default)) s).1
  stored-IsIndexed o default r s (err fault) fresh same h = SameItems-IsIndexed r s same h
  stored-IsIndexed o default r s (ok done) fresh same h =
      let still : Dict.get o.id s.items ≡ none =
        subst (λ items. Dict.get o.id items ≡ none) same.0 fresh in
      store-IsIndexed o s still (SameItems-IsIndexed r s same h) default

  -- Registering an operator keeps the index, also where it raises.
  register_operator-IsIndexed :
      (o : Operator C) (default : Bool) (r : Registries C)
      → IsIndexed r
      → IsIndexed (register_operator mismatch o default r).1
  unfolding register_operator ◌>>=◌
  register_operator-IsIndexed o default r h = elim (Option-cases (Dict.get o.id r.items)) [
    | inr (p, taken) ↦ rw taken h
    | inl fresh ↦ rw fresh (
        stored-IsIndexed o default r (checks mismatch o default r).1 (checks mismatch o default r).0
          fresh (checks-SameItems mismatch o default r) h)
  ]

  register_capability-IsIndexed :
      (capability : Capability C) (r : Registries C)
      → IsIndexed r
      → IsIndexed (register_capability capability r).1
  register_capability-IsIndexed capability r h =
      SameItems-IsIndexed r _ (register_capability-SameItems mismatch capability r) h

-- A registration, of a capability or of an operator, as default or not.
pub data Registration (C : Type 0) : Type 0 where
  capability : Capability C → Registration C
  operator : Operator C → Bool → Registration C

-- The registries after some registrations, each of which may have raised.
abbrev pub after_all :
    {C : Type 0} → (C → C → Bool) → List (Registration C) → Registries C → Registries C
after_all mismatch [] r = r
after_all mismatch (capability c ∷ rest) r = after_all mismatch rest (register_capability c r).1
after_all mismatch (operator o default ∷ rest) r =
    after_all mismatch rest (register_operator mismatch o default r).1

after_all-kept :
    {C : Type 0} (mismatch : C → C → Bool) (calls : List (Registration C)) (r : Registries C)
    → IsIndexed r
    → IsIndexed (after_all mismatch calls r)
after_all-kept mismatch [] r h = h
after_all-kept mismatch (capability c ∷ rest) r h =
    after_all-kept mismatch rest _ (register_capability-IsIndexed mismatch c r h)
after_all-kept mismatch (operator o default ∷ rest) r h =
    after_all-kept mismatch rest _ (register_operator-IsIndexed mismatch o default r h)

-- Whatever is registered in new registries, also where a registration raises, the index has for each
-- capability the ids of exactly the registered operators that name it, each operator is stored
-- under its id, and the default operator of a capability is one of those that the index has for it.
pub after_all-IsIndexed :
    {C : Type 0} (mismatch : C → C → Bool) (calls : List (Registration C))
    → IsIndexed (after_all mismatch calls empty_registries)
after_all-IsIndexed mismatch calls = after_all-kept mismatch calls empty_registries empty-IsIndexed
