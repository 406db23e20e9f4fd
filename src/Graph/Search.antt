-- ===== src/Graph/Search.antt =====
-- The queries of `InMemoryGraphStore` of backend/app/graph/store.py: neighbors, find_nodes and
-- counts. A set of edge ids is visited in the
-- order of its list.
pub mod Walks
pub mod Passes
pub mod Reach
mod Tests
use research_mind_ai.Prelude.{
  ℕ, zero, suc, ◌+◌, max, Text, codes, strip, is_space, join, Bool, true, false, not, ◌&&◌, ◌||◌,
  Option, none, some, List, [], ◌∷◌, ◌++◌, length, take, keep_if, contains, ◌==◌, nat_eq, list_eq,
  if◌then◌else◌, and_then, leb,
}
use research_mind_ai.Prelude.Sort.{sort_by}
use research_mind_ai.Llm.Gateway.{occurs_in}
use research_mind_ai.Prelude.Dict.{Dict, get, put, values}
use research_mind_ai.Graph.Schema.{normalize_key}
use research_mind_ai.Graph.Store.{GraphNode, GraphRelationship, node_uid, Store, members}

pub data Direction : Type 0 where
  outward inward : Direction

pub record NeighborHit : Type 0 where
  pub node : GraphNode
  pub relationship : Text
  pub direction : Direction
  pub distance : ℕ

-- `seen` with its ids in the order in which they were added, the next frontier, and the hits.
pub record Frontier : Type 0 where
  pub seen : List Text
  pub next : List Text
  pub hits : List NeighborHit

abbrev pub far : Direction → GraphRelationship → GraphNode
far outward e = e.end
far inward e = e.start

-- self._out or self._in, at a node
abbrev pub edges_at : Direction → Text → Store → List Text
edges_at outward uid g = members uid g.outgoing
edges_at inward uid g = members uid g.incoming

abbrev pub none_wanted : List Text → Bool
none_wanted [] = true
none_wanted (w ∷ ws) = false

abbrev pub passes : List Text → GraphRelationship → Bool
passes wanted e = none_wanted wanted || contains e.kind wanted

abbrev pub add_hit : Direction → ℕ → GraphRelationship → Frontier → Frontier
add_hit direction distance e s = record {
  seen = s.seen ++ (node_uid (far direction e) ∷ []);
  next = s.next ++ (node_uid (far direction e) ∷ []);
  hits =
      s.hits
      ++ (record {
        node = far direction e;
        relationship = e.kind;
        direction = direction;
        distance = distance;
      }
          ∷ []);
}

unfoldable pub visit_edge : List Text → Direction → ℕ → GraphRelationship → Frontier → Frontier
visit_edge wanted direction distance e s =
    if not (passes wanted e) || contains (node_uid (far direction e)) s.seen
    then s
    else add_hit direction distance e s

module _ (g : Store) (wanted : List Text) where
  -- The loop over a set of edge ids; `none` is the KeyError of an id without an edge.
  unfoldable pub visit_edges : Direction → ℕ → List Text → Frontier → Option Frontier
  unfolding visit_edge
  visit_edges direction distance [] s = some s
  visit_edges direction distance (k ∷ ks) s =
      and_then (get k g.edges)
        λ e. visit_edges direction distance ks (visit_edge wanted direction distance e s)

  unfoldable pub expand_node : ℕ → Text → Frontier → Option Frontier
  unfolding visit_edges
  expand_node distance uid s =
      and_then (visit_edges outward distance (edges_at outward uid g) s)
        λ t. visit_edges inward distance (edges_at inward uid g) t

  unfoldable pub expand_frontier : ℕ → List Text → Frontier → Option Frontier
  unfolding expand_node
  expand_frontier distance [] s = some s
  expand_frontier distance (u ∷ us) s =
      and_then (expand_node distance u s) λ t. expand_frontier distance us t

  -- The loop over the distances that are left; an empty frontier ends it.
  unfoldable pub levels : ℕ → ℕ → Frontier → Option (List NeighborHit)
  unfolding expand_frontier
  levels zero distance s = some s.hits
  levels (suc left) distance s =
      and_then
        (expand_frontier distance s.next (record { seen = s.seen; next = []; hits = s.hits }))
        λ t. if none_wanted t.next then some t.hits else levels left (distance + 1) t

  abbrev pub search_from : Text → ℕ → Option (List NeighborHit)
  search_from start depth =
      levels (max depth 1) 1 (record { seen = start ∷ []; next = start ∷ []; hits = [] })

unfoldable pub neighbors :
    (Text → Text) → Text → Text → ℕ → List Text → ℕ → Store → Option (List NeighborHit)
unfolding levels normalize_key
neighbors lower label key depth wanted limit g =
    let start = label ++ (codes ":" ++ normalize_key lower key) in
    elim (get start g.nodes) [
      | none ↦ some []
      | some n ↦ and_then (search_from g wanted start depth) λ hits. some (take limit hits)
    ]

-- x <= y of two strings
unfoldable pub text_leb : Text → Text → Bool
text_leb [] ys = true
text_leb (x ∷ xs) [] = false
text_leb (x ∷ xs) (y ∷ ys) = if x == y then text_leb xs ys else leb x y

abbrev pub holds_needle : Text → Text → Bool
holds_needle [] key = true
holds_needle (c ∷ cs) key = occurs_in (c ∷ cs) key

unfoldable pub find_nodes : (Text → Text) → Text → Option Text → ℕ → Store → List GraphNode
unfolding text_leb
find_nodes lower label contained limit g =
    let needle : Text = elim contained [ none ↦ [] | some t ↦ strip is_space (lower t) ] in
    take limit (
      sort_by (λ (a : GraphNode) (b : GraphNode). text_leb a.key b.key)
        (keep_if (λ (n : GraphNode). n.label == label && holds_needle needle n.key)
          (values g.nodes)))

abbrev pub or_none_yet : Option ℕ → ℕ
or_none_yet none = 0
or_none_yet (some n) = n

unfoldable pub count_labels : List GraphNode → Dict Text ℕ → Dict Text ℕ
count_labels [] d = d
count_labels (n ∷ ns) d = count_labels ns (put n.label (or_none_yet (get n.label d) + 1) d)

unfoldable pub counts : Store → Dict Text ℕ
unfolding count_labels
counts g = put (codes "_relationships") (length (values g.edges)) (count_labels (values g.nodes) [])
