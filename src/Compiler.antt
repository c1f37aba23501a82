-- ===== src/Compiler.antt =====
-- autoagent/core/compiler/compiler.py and expansion.py: the graph of a workflow, its entries and exits, and the
-- nodes that can be reached from some of them. A stack of pending nodes is kept with its end first.
use auto_agent.Shared.{
  ℕ, zero, suc, ◌+◌, Bool, true, false, Option, none, some, List, [], ◌∷◌, ◌++◌, if◌then◌else◌,
  or_else, is_some, keep, length, reversed,
}
use auto_agent.Shared.Keys.{Text, text_eq, ◌==◌}
use auto_agent.Shared.Dict
use auto_agent.Shared.Dict.{Dict}
use auto_agent.Shared.Exec.{Result, ok, err, Fault, then_result, from_option}
use auto_agent.Ir.{EdgeIr, GraphIr}
pub mod Reach
pub mod Leads
pub mod Filling
pub mod Graph
pub mod Samples

-- d[k].append(x), which raises where the key is missing
unfoldable pub append_at : Text → Text → Dict Text (List Text) → Result (Dict Text (List Text))
append_at k x d =
    then_result (from_option Fault.unknown_node (Dict.get k d))
      (λ xs. ok (Dict.put k (xs ++ x ∷ []) d))

-- `{node_id: [] for node_id in nodes}`
unfoldable pub without_edges : List Text → Dict Text (List Text)
without_edges [] = []
without_edges (n ∷ ns) = (n, []) ∷ without_edges ns

-- `tuple(dict.fromkeys(xs))`: each once, where it comes first
unfoldable pub once_each : List Text → List Text → List Text
once_each seen [] = seen
once_each seen (x ∷ xs) = once_each (Dict.add x seen) xs

unfoldable pub all_once : Dict Text (List Text) → Dict Text (List Text)
all_once [] = []
all_once ((k, xs) ∷ d) = (k, once_each [] xs) ∷ all_once d

-- The four tables that are filled edge by edge.
pub record Tables : Type 0 where
  pub outgoing : Dict Text (List Text)
  pub incoming : Dict Text (List Text)
  pub following : Dict Text (List Text)
  pub preceding : Dict Text (List Text)

unfoldable pub add_edge : Text → EdgeIr → Tables → Result Tables
add_edge edge_id edge t = then_result (append_at edge.from_node edge_id t.outgoing) (λ outgoing.
    then_result (append_at edge.to_node edge_id t.incoming) (λ incoming.
      then_result (append_at edge.from_node edge.to_node t.following) (λ following.
        then_result (append_at edge.to_node edge.from_node t.preceding) (λ preceding. ok (record {
          outgoing = outgoing;
          incoming = incoming;
          following = following;
          preceding = preceding;
        })))))

unfoldable pub add_edges : Dict Text EdgeIr → Tables → Result Tables
add_edges [] t = ok t
add_edges ((edge_id, edge) ∷ edges) t = then_result (add_edge edge_id edge t) (add_edges edges)

abbrev pub graph_of : Tables → GraphIr
graph_of t = record {
  outgoing_edges = t.outgoing;
  incoming_edges = t.incoming;
  predecessors = all_once t.preceding;
  successors = all_once t.following;
  loop_regions = [];
  node_loop_stacks = [];
}

-- _build_graph
unfoldable pub build_graph : List Text → Dict Text EdgeIr → Result GraphIr
build_graph nodes edges =
    let empty = without_edges nodes in
    then_result
      (add_edges edges
        (record { outgoing = empty; incoming = empty; following = empty; preceding = empty }))
      (λ t. ok (graph_of t))

abbrev pub is_none_listed : List Text → Bool
is_none_listed [] = true
is_none_listed (x ∷ xs) = false

abbrev pub lists_none : Dict Text (List Text) → Text → Bool
lists_none d n = is_none_listed (or_else (Dict.get n d) [])

-- _infer_entry_node_ids, without its diagnostics, and _infer_exit_node_ids
unfoldable pub infer_entry_node_ids : List Text → GraphIr → List Text
infer_entry_node_ids nodes graph = keep (lists_none graph.incoming_edges) nodes

unfoldable pub infer_exit_node_ids : List Text → GraphIr → List Text
infer_exit_node_ids nodes graph = keep (lists_none graph.outgoing_edges) nodes

abbrev pub successors_of : Dict Text (List Text) → Text → List Text
successors_of successors n = or_else (Dict.get n successors) []

-- `while pending`
unfoldable pub search : Dict Text (List Text) → ℕ → List Text → List Text → Result (List Text)
search successors zero [] reachable = ok reachable
search successors zero (n ∷ pending) reachable = err Fault.out_of_fuel
search successors (suc fuel) [] reachable = ok reachable
search successors (suc fuel) (n ∷ pending) reachable =
    let skipped = search successors fuel pending reachable in
    let visited =
      search successors fuel (reversed (successors_of successors n) ++ pending)
        (Dict.add n reachable) in
    if Dict.contains n reachable then skipped else visited

-- The successors of the nodes that have not been reached, counted.
abbrev pub weight : List Text → Dict Text (List Text) → ℕ
weight reachable [] = 0
weight reachable ((n, ns) ∷ d) =
    (if Dict.contains n reachable then 0 else length ns) + weight reachable d

-- the loop in _compile_loop_regions, with a round for each entry and each edge
unfoldable pub reachable_from : Dict Text (List Text) → List Text → Result (List Text)
reachable_from successors entries =
    search successors (length entries + weight [] successors) (reversed entries) []

-- The edge of a definition, with the ends that are ids and not nodes.
pub record Edge : Type 0 where
  pub from_node : Option Text
  pub to_node : Option Text

abbrev pub put_successor :
    Text → Text → Dict Text (List Text) → Option (List Text) → Dict Text (List Text)
put_successor from to d none = d
put_successor from to d (some ns) = Dict.put from (ns ++ to ∷ []) d

abbrev pub add_successor : Option Text → Option Text → Dict Text (List Text) → Dict Text (List Text)
add_successor none to d = d
add_successor (some from) none d = d
add_successor (some from) (some to) d = put_successor from to d (Dict.get from d)

unfoldable pub successors_in : List Edge → Dict Text (List Text) → Dict Text (List Text)
successors_in [] d = d
successors_in (edge ∷ edges) d = successors_in edges (add_successor edge.from_node edge.to_node d)

-- _reachable_node_ids of expansion.py
unfoldable pub reachable_node_ids : Text → List Text → List Edge → Result (List Text)
reachable_node_ids entry_node_id nodes edges =
    reachable_from (successors_in edges (without_edges nodes)) (entry_node_id ∷ [])
