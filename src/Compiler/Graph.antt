-- ===== src/Compiler/Graph.antt =====
-- The tables of a graph, against the edges that it was built from.
use auto_agent.Shared.{
  ◌≡◌, refl, ap, ◌∙◌, Bool, true, List, [], ◌∷◌, ◌++◌, Bool-cases, inl, inr, All, keep, any_of, not,
}
use auto_agent.Shared.Keys.{Text, text_eq, ◌==◌}
use auto_agent.Shared.Dict
use auto_agent.Shared.Dict.{Dict, get-put, contains-add}
use auto_agent.Shared.Exec.{ok}
use auto_agent.Ir.{EdgeIr, GraphIr}
use auto_agent.Compiler.{
  without_edges, all_once, Tables, build_graph, graph_of, is_none_listed, lists_none,
  infer_entry_node_ids, infer_exit_node_ids,
}
use auto_agent.Compiler.Filling.{
  Table, listed_at, Known, picks, from_of, to_of, id_of, source_of, target_of, Grown, IsKnown,
  add_edges-IsGrown, get-without_edges, listed_at-without_edges, listed_at-all_once,
  contains-once_each,
}

pub record IsGraphOf (edges : Dict Text EdgeIr) (graph : GraphIr) : Type 0 where
  pub outgoing : (n : Text) → listed_at graph.outgoing_edges n ≡ picks from_of id_of n edges
  pub incoming : (n : Text) → listed_at graph.incoming_edges n ≡ picks to_of id_of n edges
  pub successors :
      (n m : Text)
      → Dict.contains m (listed_at graph.successors n)
        ≡ Dict.contains m (picks from_of target_of n edges)
  pub predecessors :
      (n m : Text)
      → Dict.contains m (listed_at graph.predecessors n)
        ≡ Dict.contains m (picks to_of source_of n edges)

module _ (nodes : List Text) (edges : Dict Text EdgeIr) where
  empty_tables : Tables
  empty_tables = record {
    outgoing = without_edges nodes;
    incoming = without_edges nodes;
    following = without_edges nodes;
    preceding = without_edges nodes;
  }

  without_edges-Known : Known nodes (without_edges nodes)
  without_edges-Known n there = ([], get-without_edges n nodes ∙ rw there refl)

  from_nothing :
      (more : Text → List Text) (after : Table)
      → Grown nodes (without_edges nodes) more after
      → (n : Text) → listed_at after n ≡ more n
  from_nothing more after grown n =
      grown.1 n ∙ ap (λ xs. xs ++ more n) (listed_at-without_edges n nodes)

  once_only :
      (more : Text → List Text) (after : Table)
      → Grown nodes (without_edges nodes) more after
      → (n m : Text) → Dict.contains m (listed_at (all_once after) n) ≡ Dict.contains m (more n)
  unfolding Dict.contains
  once_only more after grown n m =
      ap (Dict.contains m) (listed_at-all_once n after)
      ∙ contains-once_each m [] (listed_at after n)
      ∙ ap (Dict.contains m) (from_nothing more after grown n)

  -- Where both ends of each edge are nodes, the graph is built, and has at each node the ids of the edges
  -- that leave it and of those that enter it, in the order of the edges, and as successors and
  -- predecessors the nodes at the other ends.
  pub build_graph-IsGraphOf :
      All
        (λ entry.
          (Dict.contains entry.1.from_node nodes ≡ true)
          × (Dict.contains entry.1.to_node nodes ≡ true))
        edges
      → (graph : GraphIr) × (build_graph nodes edges ≡ ok graph) × IsGraphOf edges graph
  unfolding build_graph empty_tables
  build_graph-IsGraphOf ends =
      let known : IsKnown nodes empty_tables = record {
        outgoing = without_edges-Known;
        incoming = without_edges-Known;
        following = without_edges-Known;
        preceding = without_edges-Known;
      } in
      let (t, runs, grown) = add_edges-IsGrown nodes edges empty_tables known ends in
      (
        graph_of t,
        rw runs refl,
        record {
          outgoing = from_nothing _ t.outgoing grown.outgoing;
          incoming = from_nothing _ t.incoming grown.incoming;
          successors = once_only _ t.following grown.following;
          predecessors = once_only _ t.preceding grown.preceding;
        },
      )

-- No edge has the node at that end.
abbrev pub untouched : (EdgeIr → Text) → Dict Text EdgeIr → Text → Bool
untouched end edges n = not (any_of (λ entry. end entry.1 == n) edges)

picks-untouched :
    (end : EdgeIr → Text) (said : Text → EdgeIr → Text) (n : Text) (edges : Dict Text EdgeIr)
    → is_none_listed (picks end said n edges) ≡ untouched end edges n
picks-untouched end said n [] = refl
picks-untouched end said n ((edge_id, edge) ∷ edges) = elim (Bool-cases (end edge == n)) [
  | inl touches ↦ rw touches refl
  | inr other ↦ rw other (picks-untouched end said n edges)
]

keep_same : (p q : Text → Bool) (ns : List Text) → ((n : Text) → p n ≡ q n) → keep p ns ≡ keep q ns
keep_same p q [] same = refl
keep_same p q (n ∷ ns) same = rw (same n, keep_same p q ns same) refl

-- The entries of a graph are the nodes that no edge enters, and its exits those that no edge leaves, in
-- the order of the nodes.
pub infer_ends-untouched :
    (nodes : List Text) (edges : Dict Text EdgeIr) (graph : GraphIr)
    → IsGraphOf edges graph
    → (infer_entry_node_ids nodes graph ≡ keep (untouched to_of edges) nodes)
      × (infer_exit_node_ids nodes graph ≡ keep (untouched from_of edges) nodes)
unfolding infer_entry_node_ids infer_exit_node_ids
infer_ends-untouched nodes edges graph h = (
  keep_same (lists_none graph.incoming_edges) (untouched to_of edges) nodes
      (λ n. ap is_none_listed (h.incoming n) ∙ picks-untouched to_of id_of n edges),
  keep_same (lists_none graph.outgoing_edges) (untouched from_of edges) nodes
      (λ n. ap is_none_listed (h.outgoing n) ∙ picks-untouched from_of id_of n edges),
)
