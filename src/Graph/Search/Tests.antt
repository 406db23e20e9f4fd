-- ===== src/Graph/Search/Tests.antt =====
-- Searching, and saving, a small graph.
use research_mind_ai.Prelude.{
  Text, codes, ◌≡◌, refl, none, some, List, [], ◌∷◌, take, nat_eq, list_eq, strip, join, is_space,
}
use research_mind_ai.Prelude.Dict.{get}
use research_mind_ai.Graph.Store.{GraphNode, GraphRelationship, Store, node_uid, edge_uid, members}
use research_mind_ai.Graph.Store.Linked.{IsLinked}
use research_mind_ai.Graph.Schema.{make_node, make_relationship, normalize_key}
use research_mind_ai.Graph.Saved.{payload_of, load}
use research_mind_ai.Graph.Saved.RoundTrip.{IsStored, load-payload_of}
use research_mind_ai.Graph.Search.{outward, NeighborHit, neighbors}
use research_mind_ai.Graph.Search.Walks.{Found}
use research_mind_ai.Graph.Search.Reach.{IsNeighborhood, neighbors_walks}

abbrev same : Text → Text
same t = t

abbrev paper : Text → GraphNode
paper k = record { label = codes "Paper"; key = k; properties = [] }

abbrev cites : Text → Text → GraphRelationship
cites a b = record { kind = codes "CITES"; start = paper a; end = paper b; properties = [] }

abbrev graph : Store
graph = record {
  nodes =
      (codes "Paper:a", paper (codes "a"))
      ∷ (codes "Paper:b", paper (codes "b"))
      ∷ (codes "Paper:c", paper (codes "c"))
      ∷ [];
  edges =
      (codes "Paper:a-[CITES]->Paper:b", cites (codes "a") (codes "b"))
      ∷ (codes "Paper:b-[CITES]->Paper:c", cites (codes "b") (codes "c"))
      ∷ [];
  outgoing =
      (codes "Paper:a", codes "Paper:a-[CITES]->Paper:b" ∷ [])
      ∷ (codes "Paper:b", codes "Paper:b-[CITES]->Paper:c" ∷ [])
      ∷ [];
  incoming =
      (codes "Paper:b", codes "Paper:a-[CITES]->Paper:b" ∷ [])
      ∷ (codes "Paper:c", codes "Paper:b-[CITES]->Paper:c" ∷ [])
      ∷ [];
}

neighbors_walks_example :
    (get (codes "Paper:a") graph.nodes ≡ none
      → neighbors same (codes "Paper") (codes " a ") 2 [] 50 graph ≡ some [])
    × ((n : GraphNode)
        → get (codes "Paper:a") graph.nodes ≡ some n
        → Found graph []
            (λ hits.
              (all : List NeighborHit) × IsNeighborhood graph [] (codes "Paper:a") 2 all
              × (hits ≡ take 50 all))
            (neighbors same (codes "Paper") (codes " a ") 2 [] 50 graph))
unfolding normalize_key strip join is_space
neighbors_walks_example = neighbors_walks same (codes "Paper") (codes " a ") 2 [] 50 graph

two_hits :
    neighbors same (codes "Paper") (codes "a") 2 [] 50 graph
    ≡ some (
        record {
          node = paper (codes "b");
          relationship = codes "CITES";
          direction = outward;
          distance = 1;
        }
        ∷ record {
          node = paper (codes "c");
          relationship = codes "CITES";
          direction = outward;
          distance = 2;
        }
        ∷ [])
unfolding neighbors get strip join is_space members node_uid
two_hits = refl

graph-IsStored : IsStored same graph
unfolding node_uid edge_uid make_node make_relationship get normalize_key strip join is_space
graph-IsStored = record {
  nodes_made = ((refl, refl), ((refl, refl), ((refl, refl), tt)));
  edges_made = (
    (refl, paper (codes "a"), paper (codes "b"), refl, refl, refl, refl),
    ((refl, paper (codes "b"), paper (codes "c"), refl, refl, refl, refl), tt),
  );
}

load-payload_of_example :
    (h : Store) × (load same (payload_of graph) ≡ some h)
    × (h.nodes ≡ graph.nodes)
    × (h.edges ≡ graph.edges)
    × IsLinked h
unfolding get node_uid
load-payload_of_example =
    load-payload_of same graph (refl, (refl, (refl, tt))) (refl, (refl, tt)) graph-IsStored
