-- ===== src/Compiler/Samples.antt =====
-- Three nodes, of which the first one leads to the second one twice.
use auto_agent.Shared.{◌≡◌, refl, true, none, some, List, [], ◌∷◌, ◌↔◌, All, keep}
use auto_agent.Shared.Keys.{Text, text, text_eq}
use auto_agent.Shared.Dict
use auto_agent.Shared.Dict.{Dict}
use auto_agent.Shared.Exec.{ok}
use auto_agent.Ir.{EdgeIr, GraphIr, always}
use auto_agent.Compiler.{
  build_graph, infer_entry_node_ids, infer_exit_node_ids, reachable_from, search, Edge,
  reachable_node_ids, successors_in, without_edges,
}
use auto_agent.Compiler.Reach.{Reaches, reachable_from-Reaches}
use auto_agent.Compiler.Graph.{IsGraphOf, build_graph-IsGraphOf, untouched, infer_ends-untouched}
use auto_agent.Compiler.Leads.{Leads, reachable_node_ids-Leads}
use auto_agent.Compiler.Filling.{to_of, from_of}

abbrev edge : Text → Text → Text → EdgeIr
edge id from to = record {
  id = id;
  local_id = none;
  local_from_node = none;
  local_to_node = none;
  scope_node_ids = [];
  from_node = from;
  to_node = to;
  condition = always;
  order = 0;
}

abbrev nodes : List Text
nodes = text "a" ∷ text "b" ∷ text "c" ∷ []

abbrev edges : Dict Text EdgeIr
edges =
    (text "1", edge (text "1") (text "a") (text "b"))
    ∷ (text "2", edge (text "2") (text "a") (text "b"))
    ∷ (text "3", edge (text "3") (text "b") (text "a"))
    ∷ []

ends :
    All
      (λ entry.
        (Dict.contains entry.1.from_node nodes ≡ true)
        × (Dict.contains entry.1.to_node nodes ≡ true))
      edges
unfolding Dict.contains
ends = ((refl, refl), ((refl, refl), ((refl, refl), tt)))

build_graph-IsGraphOf_example :
    (graph : GraphIr) × (build_graph nodes edges ≡ ok graph) × IsGraphOf edges graph
build_graph-IsGraphOf_example = build_graph-IsGraphOf nodes edges ends

abbrev successors : Dict Text (List Text)
successors = (text "a", text "b" ∷ []) ∷ (text "b", text "a" ∷ []) ∷ (text "c", text "a" ∷ []) ∷ []

reachable_from-Reaches_example :
    (found : List Text) × (reachable_from successors (text "a" ∷ []) ≡ ok found)
    × ((n : Text) → (Dict.contains n found ≡ true) ↔ Reaches successors (text "a" ∷ []) n)
reachable_from-Reaches_example = reachable_from-Reaches successors (text "a" ∷ [])

a_loop : reachable_from successors (text "a" ∷ []) ≡ ok (text "a" ∷ text "b" ∷ [])
unfolding reachable_from search Dict.contains Dict.add Dict.get
a_loop = refl

infer_ends-untouched_example :
    let graph = (build_graph-IsGraphOf nodes edges ends).0 in
    (infer_entry_node_ids nodes graph ≡ keep (untouched to_of edges) nodes)
    × (infer_exit_node_ids nodes graph ≡ keep (untouched from_of edges) nodes)
infer_ends-untouched_example =
    infer_ends-untouched nodes edges (build_graph-IsGraphOf nodes edges ends).0
      (build_graph-IsGraphOf nodes edges ends).2

-- The second edge has an end that is a node and no id.
abbrev written : List Edge
written =
    record { from_node = some (text "a"); to_node = some (text "b") }
    ∷ record { from_node = some (text "b"); to_node = none }
    ∷ record { from_node = some (text "c"); to_node = some (text "a") }
    ∷ []

reachable_node_ids-Leads_example :
    (found : List Text) × (reachable_node_ids (text "a") nodes written ≡ ok found)
    × ((n : Text) → (Dict.contains n found ≡ true) ↔ Leads (text "a") nodes written n)
reachable_node_ids-Leads_example = reachable_node_ids-Leads (text "a") nodes written

behind_a : reachable_node_ids (text "a") nodes written ≡ ok (text "a" ∷ text "b" ∷ [])
unfolding reachable_node_ids reachable_from successors_in without_edges search Dict.contains
    Dict.add Dict.get Dict.put
behind_a = refl
