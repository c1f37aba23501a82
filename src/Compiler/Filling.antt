-- ===== src/Compiler/Filling.antt =====
-- The filling of the tables of a graph, edge by edge.
use auto_agent.Shared.{
  ◌≡◌, refl, ◌∙◌, subst, Bool, true, false, ◌||◌, List, [], ◌∷◌, ◌++◌, arith, Bool-cases, inl, inr,
  if◌then◌else◌, or_else, none, some, All, append_assoc, append-nil,
}
use auto_agent.Shared.Booleans.{or_none, or_swap}
use auto_agent.Shared.Keys.{Text, text_eq, ◌==◌, ==_iff}
use auto_agent.Shared.Dict
use auto_agent.Shared.Dict.{Dict, get-put, contains-add}
use auto_agent.Shared.Exec.{ok}
use auto_agent.Ir.{EdgeIr}
use auto_agent.Compiler.{append_at, without_edges, once_each, all_once, Tables, add_edge, add_edges}

abbrev pub Table : Type 0
Table = Dict Text (List Text)

-- What a table has for a node.
abbrev pub listed_at : Table → Text → List Text
listed_at d n = or_else (Dict.get n d) []

-- Each of the nodes has a list.
abbrev pub Known : List Text → Table → Type 0
Known nodes d =
    (n : Text) → Dict.contains n nodes ≡ true → (xs : List Text) × (Dict.get n d ≡ some xs)

abbrev one_if : Bool → Text → List Text
one_if true x = x ∷ []
one_if false x = []

-- What the edges with the node at one end have to say, in order.
abbrev pub picks : (EdgeIr → Text) → (Text → EdgeIr → Text) → Text → Dict Text EdgeIr → List Text
picks end said n [] = []
picks end said n ((edge_id, edge) ∷ edges) =
    one_if (end edge == n) (said edge_id edge) ++ picks end said n edges

abbrev pub from_of : EdgeIr → Text
from_of edge = edge.from_node

abbrev pub to_of : EdgeIr → Text
to_of edge = edge.to_node

abbrev pub id_of : Text → EdgeIr → Text
id_of edge_id edge = edge_id

abbrev pub source_of : Text → EdgeIr → Text
source_of edge_id edge = edge.from_node

abbrev pub target_of : Text → EdgeIr → Text
target_of edge_id edge = edge.to_node

-- A table after one more entry, or after some.
abbrev pub Grown : List Text → Table → (Text → List Text) → Table → Type 0
Grown nodes d more after =
    Known nodes after × ((n : Text) → listed_at after n ≡ listed_at d n ++ more n)

append_at-Grown :
    (nodes : List Text) (k x : Text) (d : Table)
    → Known nodes d
    → Dict.contains k nodes ≡ true
    → (after : Table) × (append_at k x d ≡ ok after) × Grown nodes d (λ n. one_if (k == n) x) after
unfolding append_at
append_at-Grown nodes k x d known there =
    let (xs, here) = known k there in
    (
      Dict.put k (xs ++ x ∷ []) d,
      rw here refl,
      (
        (λ n e. elim (Bool-cases (k == n)) [
          | inl same ↦ (xs ++ x ∷ [], get-put k n (xs ++ x ∷ []) d ∙ rw same refl)
          | inr other ↦
              let (ys, old) = known n e in (ys, get-put k n (xs ++ x ∷ []) d ∙ rw other old)
        ]),
        λ n. elim (Bool-cases (k == n)) [
          | inl same ↦
              let now : Dict.get n d ≡ some xs =
                subst (λ j. Dict.get j d ≡ some xs) ((==_iff k n).0 same) here in
              rw (get-put, same, now) refl
          | inr other ↦ rw (get-put, other, append-nil) refl
        ],
      ),
    )

abbrev pub Ends : List Text → EdgeIr → Type 0
Ends nodes edge =
    (Dict.contains edge.from_node nodes ≡ true) × (Dict.contains edge.to_node nodes ≡ true)

abbrev EdgeIn : List Text → Text × EdgeIr → Type 0
EdgeIn nodes entry = Ends nodes entry.1

pub record IsGrown (nodes : List Text) (t : Tables) (edges : Dict Text EdgeIr) (after : Tables)
    : Type 0 where
  pub outgoing : Grown nodes t.outgoing (λ n. picks from_of id_of n edges) after.outgoing
  pub incoming : Grown nodes t.incoming (λ n. picks to_of id_of n edges) after.incoming
  pub following : Grown nodes t.following (λ n. picks from_of target_of n edges) after.following
  pub preceding : Grown nodes t.preceding (λ n. picks to_of source_of n edges) after.preceding

pub record IsKnown (nodes : List Text) (t : Tables) : Type 0 where
  pub outgoing : Known nodes t.outgoing
  pub incoming : Known nodes t.incoming
  pub following : Known nodes t.following
  pub preceding : Known nodes t.preceding

Grown-then :
    (nodes : List Text) (d e f : Table) (more rest : Text → List Text)
    → Grown nodes d more e
    → Grown nodes e rest f
    → Grown nodes d (λ n. more n ++ rest n) f
Grown-then nodes d e f more rest g h =
    (h.0, λ n. h.1 n ∙ rw (g.1 n) (append_assoc (listed_at d n) (more n) (rest n)))

pub add_edges-IsGrown :
    (nodes : List Text) (edges : Dict Text EdgeIr) (t : Tables)
    → IsKnown nodes t
    → All (EdgeIn nodes) edges
    → (after : Tables) × (add_edges edges t ≡ ok after) × IsGrown nodes t edges after
unfolding add_edges add_edge
add_edges-IsGrown nodes [] t known ends = (
  t,
  refl,
  record {
    outgoing = (known.outgoing, λ n. rw append-nil refl);
    incoming = (known.incoming, λ n. rw append-nil refl);
    following = (known.following, λ n. rw append-nil refl);
    preceding = (known.preceding, λ n. rw append-nil refl);
  },
)
add_edges-IsGrown nodes ((edge_id, edge) ∷ edges) t known ends =
    let (from_there, to_there) = ends.0 in
    let (outgoing, o, og) =
      append_at-Grown nodes edge.from_node edge_id t.outgoing known.outgoing from_there in
    let (incoming, i, ig) =
      append_at-Grown nodes edge.to_node edge_id t.incoming known.incoming to_there in
    let (following, f, fg) =
      append_at-Grown nodes edge.from_node edge.to_node t.following known.following from_there in
    let (preceding, p, pg) =
      append_at-Grown nodes edge.to_node edge.from_node t.preceding known.preceding to_there in
    let one : Tables = record {
      outgoing = outgoing;
      incoming = incoming;
      following = following;
      preceding = preceding;
    } in
    let one_known : IsKnown nodes one = record {
      outgoing = og.0;
      incoming = ig.0;
      following = fg.0;
      preceding = pg.0;
    } in
    let (after, runs, grown) = add_edges-IsGrown nodes edges one one_known ends.1 in
    (
      after,
      rw (o, i, f, p) runs,
      record {
        outgoing = Grown-then nodes _ _ _ _ _ og grown.outgoing;
        incoming = Grown-then nodes _ _ _ _ _ ig grown.incoming;
        following = Grown-then nodes _ _ _ _ _ fg grown.following;
        preceding = Grown-then nodes _ _ _ _ _ pg grown.preceding;
      },
    )

pub get-without_edges :
    (n : Text) (nodes : List Text)
    → Dict.get n (without_edges nodes) ≡ (if Dict.contains n nodes then some [] else none)
unfolding Dict.get Dict.contains without_edges
get-without_edges n [] = refl
get-without_edges n (m ∷ nodes) = ground (arith, get-without_edges n nodes)

pub listed_at-without_edges :
    (n : Text) (nodes : List Text) → listed_at (without_edges nodes) n ≡ []
listed_at-without_edges n nodes = elim (Bool-cases (Dict.contains n nodes)) [
  | inl there ↦ rw (get-without_edges, there) refl
  | inr gone ↦ rw (get-without_edges, gone) refl
]

pub listed_at-all_once :
    (n : Text) (d : Table) → listed_at (all_once d) n ≡ once_each [] (listed_at d n)
unfolding Dict.get all_once once_each
listed_at-all_once n [] = refl
listed_at-all_once n ((k, xs) ∷ d) = elim (Bool-cases (k == n)) [
  | inl same ↦ rw same refl
  | inr other ↦ rw other (listed_at-all_once n d)
]

pub contains-once_each :
    (m : Text) (seen xs : List Text)
    → Dict.contains m (once_each seen xs) ≡ (Dict.contains m seen || Dict.contains m xs)
unfolding once_each Dict.contains
contains-once_each m seen [] = or_none (Dict.contains m seen)
contains-once_each m seen (x ∷ xs) =
    contains-once_each m (Dict.add x seen) xs
    ∙ rw contains-add (or_swap (x == m) (Dict.contains m seen) (Dict.contains m xs))
