-- ===== src/Compiler/Leads.antt =====
-- The nodes that expansion.py finds behind the entry of a workflow, against the edges of its definition.
use auto_agent.Shared.{
  ◌≡◌, refl, sym, ap, ◌∙◌, subst, Bool, true, false, ◌&&◌, ◌||◌, Option, none, some, List, [], ◌∷◌,
  arith, Bool-cases, inl, inr, ◌↔◌, is_some, any_of, Option-cases,
}
use auto_agent.Shared.Booleans.{or_false, or_none}
use auto_agent.Shared.Keys.{Text, text_eq, ◌==◌, ==_iff}
use auto_agent.Shared.Dict
use auto_agent.Shared.Dict.{Dict, get-put, contains-append_one}
use auto_agent.Shared.Exec.{ok}
use auto_agent.Compiler.{
  Edge, without_edges, successors_of, add_successor, successors_in, reachable_node_ids,
}
use auto_agent.Compiler.Reach.{Reaches, start, step, reachable_from-Reaches}
use auto_agent.Compiler.Filling.{Table, get-without_edges, listed_at-without_edges}

abbrev joins : Option Text → Option Text → Text → Text → Bool
joins none to n m = false
joins (some a) none n m = false
joins (some a) (some b) n m = a == n && b == m

-- The edge has both ends as ids, and goes from the one node to the other.
abbrev pub leads : Text → Text → Edge → Bool
leads n m edge = joins edge.from_node edge.to_node n m

-- A path of edges leads from the entry to the node; only nodes of the workflow are left.
pub data Leads (entry : Text) (nodes : List Text) (edges : List Edge) : Text → Type 0 where
  entered : Leads entry nodes edges entry
  followed :
      (n m : Text)
      → Leads entry nodes edges n
      → Dict.contains n nodes ≡ true
      → any_of (leads n m) edges ≡ true
      → Leads entry nodes edges m

known-add_successor :
    (from to : Option Text) (d : Table) (n : Text)
    → is_some (Dict.get n (add_successor from to d)) ≡ is_some (Dict.get n d)
known-add_successor none to d n = refl
known-add_successor (some a) none d n = refl
known-add_successor (some a) (some b) d n = elim (Option-cases (Dict.get a d)) [
  | inl gone ↦ rw gone refl
  | inr (ns, there) ↦ rw there (elim (Bool-cases (a == n)) [
    | inl same ↦
        let here : Dict.get n d ≡ some ns =
          subst (λ k. Dict.get k d ≡ some ns) ((==_iff a n).0 same) there in
        rw (get-put, same, here) refl
    | inr other ↦ rw (get-put, other) refl
  ])
]

contains-add_successor :
    (from to : Option Text) (d : Table) (n m : Text)
    → is_some (Dict.get n d) ≡ true
    → Dict.contains m (successors_of (add_successor from to d) n)
      ≡ (joins from to n m || Dict.contains m (successors_of d n))
contains-add_successor none to d n m known = refl
contains-add_successor (some a) none d n m known = refl
contains-add_successor (some a) (some b) d n m known = elim (Bool-cases (a == n)) [
  | inl same ↦
      let e : n ≡ a = sym ((==_iff a n).0 same) in
      let known_a : is_some (Dict.get a d) ≡ true =
        subst (λ k. is_some (Dict.get k d) ≡ true) e known in
      elim (Option-cases (Dict.get a d)) [
        | inl gone ↦
            let no : is_some (Dict.get a d) ≡ false = rw gone refl in ground (arith, no, known_a)
        | inr (ns, there) ↦
            let here : Dict.get n d ≡ some ns = subst (λ k. Dict.get k d ≡ some ns) (sym e) there in
            rw (there, get-put, same, here) (contains-append_one b m ns)
      ]
  | inr other ↦ elim (Option-cases (Dict.get a d)) [
    | inl gone ↦ rw (gone, other) refl
    | inr (ns, there) ↦ rw (there, get-put, other) refl
  ]
]

contains-successors_in :
    (edges : List Edge) (d : Table) (n m : Text)
    → is_some (Dict.get n d) ≡ true
    → Dict.contains m (successors_of (successors_in edges d) n)
      ≡ (any_of (leads n m) edges || Dict.contains m (successors_of d n))
unfolding successors_in
contains-successors_in [] d n m known = refl
contains-successors_in (edge ∷ edges) d n m known =
    let next = add_successor edge.from_node edge.to_node d in
    contains-successors_in edges next n m
      (known-add_successor edge.from_node edge.to_node d n ∙ known)
    ∙ ap (λ b. any_of (leads n m) edges || b)
        (contains-add_successor edge.from_node edge.to_node d n m known)
    ∙ or_turn (any_of (leads n m) edges) (leads n m edge) (Dict.contains m (successors_of d n))
  where
    or_turn : (a b c : Bool) → (a || (b || c)) ≡ ((b || a) || c)
    or_turn true true c = refl
    or_turn true false c = refl
    or_turn false true c = refl
    or_turn false false c = refl

known-successors_in :
    (edges : List Edge) (d : Table) (n : Text)
    → is_some (Dict.get n (successors_in edges d)) ≡ is_some (Dict.get n d)
unfolding successors_in
known-successors_in [] d n = refl
known-successors_in (edge ∷ edges) d n =
    known-successors_in edges (add_successor edge.from_node edge.to_node d) n
    ∙ known-add_successor edge.from_node edge.to_node d n

module _ (entry : Text) (nodes : List Text) (edges : List Edge) where
  table : Table
  table = successors_in edges (without_edges nodes)

  contains-table :
      (n m : Text)
      → Dict.contains n nodes ≡ true
      → Dict.contains m (successors_of table n) ≡ any_of (leads n m) edges
  unfolding table Dict.contains
  contains-table n m there =
      contains-successors_in edges (without_edges nodes) n m
        (ap is_some (get-without_edges n nodes) ∙ rw there refl)
      ∙ rw listed_at-without_edges (sym (or_none (any_of (leads n m) edges)))

  node-table :
      (n m : Text) → Dict.contains m (successors_of table n) ≡ true → Dict.contains n nodes ≡ true
  unfolding table Dict.contains
  node-table n m e =
      let known : is_some (Dict.get n table) ≡ is_some (Dict.get n (without_edges nodes)) =
        known-successors_in edges (without_edges nodes) n in
      elim (Bool-cases (Dict.contains n nodes)) [
        | inl there ↦ there
        | inr gone ↦ elim (Option-cases (Dict.get n table)) [
          | inl missing ↦
              let no : Dict.contains m (successors_of table n) ≡ false = rw missing refl in
              ground (arith, no, e)
          | inr (ns, here) ↦
              let off : is_some (Dict.get n table) ≡ false =
                known ∙ ap is_some (get-without_edges n nodes) ∙ rw gone refl in
              ground (arith, off, here)
        ]
      ]

  Reaches-Leads : (n : Text) → Reaches table (entry ∷ []) n → Leads entry nodes edges n
  unfolding Dict.contains
  Reaches-Leads n (start _ h) =
      let e : entry ≡ n = (==_iff entry n).0 (or_false (entry == n) h) in
      subst (Leads entry nodes edges) e entered
  Reaches-Leads m (step n _ path e) =
      let there = node-table n m e in
      followed n m (Reaches-Leads n path) there (sym (contains-table n m there) ∙ e)

  Leads-Reaches : (n : Text) → Leads entry nodes edges n → Reaches table (entry ∷ []) n
  unfolding Dict.contains
  Leads-Reaches n entered = start entry (rw ((==_iff entry entry).1 refl) refl)
  Leads-Reaches m (followed n _ path there e) =
      step n m (Leads-Reaches n path) (contains-table n m there ∙ e)

  -- The search returns, and finds exactly the nodes that a path of edges whose ends are ids leads to from
  -- the entry, where the path leaves only nodes of the workflow.
  pub reachable_node_ids-Leads :
      (found : List Text) × (reachable_node_ids entry nodes edges ≡ ok found)
      × ((n : Text) → (Dict.contains n found ≡ true) ↔ Leads entry nodes edges n)
  unfolding reachable_node_ids table
  reachable_node_ids-Leads =
      let (found, runs, same) = reachable_from-Reaches table (entry ∷ []) in
      (
        found,
        runs,
        λ n. (λ e. Reaches-Leads n ((same n).0 e), λ path. (same n).1 (Leads-Reaches n path)),
      )
