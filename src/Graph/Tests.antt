-- ===== src/Graph/Tests.antt =====
-- The graph store on a small graph.
use research_mind_ai.Prelude.{Text, codes, ◌≡◌, refl, List, [], ◌∷◌, nat_eq, list_eq}
use research_mind_ai.Prelude.Dict.{get, put}
use research_mind_ai.Graph.Store.{
  GraphNode, GraphRelationship, Store, empty_store, node_uid, edge_uid, delete_paper,
  upsert_relationships, upsert_nodes,
}
use research_mind_ai.Graph.Store.Linked.{IsLinked}
use research_mind_ai.Graph.Store.Requests.{
  Request, put_nodes, put_relationships, drop_paper, serve_requests, requests-IsLinked,
}

abbrev same : Text → Text
same t = t

abbrev node : Text → Text → GraphNode
node l k = record { label = l; key = k; properties = [] }

abbrev cites : Text → Text → GraphRelationship
cites a b = record {
  kind = codes "CITES";
  start = node (codes "Paper") a;
  end = node (codes "Paper") b;
  properties = [];
}

abbrev requests : List Request
requests =
    put_nodes (node (codes "Paper") (codes "a") ∷ [])
    ∷ put_relationships (cites (codes "a") (codes "b") ∷ cites (codes "b") (codes "c") ∷ [])
    ∷ []

requests-IsLinked_example :
    IsLinked (serve_requests same (drop_paper (codes "d") ∷ requests) empty_store)
requests-IsLinked_example = requests-IsLinked same (drop_paper (codes "d") ∷ requests)

abbrev graph : Store
graph = serve_requests same requests empty_store

deleted_rows : (delete_paper same (codes "b") graph).1 ≡ 3
unfolding delete_paper get serve_requests upsert_relationships upsert_nodes put node_uid edge_uid
deleted_rows = refl
