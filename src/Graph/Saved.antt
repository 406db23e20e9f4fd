-- ===== src/Graph/Saved.antt =====
-- The file of the graph store: _flush and _load of backend/app/graph/store.py. The payload stands
-- for its JSON text; `none` is the ValueError of a node or relationship that the schema refuses.
pub mod RoundTrip
use research_mind_ai.Prelude.{
  Text, Option, none, some, List, [], ◌∷◌, map, nat_eq, list_eq, and_then,
}
use research_mind_ai.Prelude.Dict.{Dict, get, put, values}
use research_mind_ai.Retrieval.Filters.{Metadata}
use research_mind_ai.Graph.Schema.{make_node, make_relationship}
use research_mind_ai.Graph.Store.{
  GraphNode, GraphRelationship, node_uid, Store, register_edge, empty_store,
}

pub record RawNode : Type 0 where
  pub label : Text
  pub key : Text
  pub properties : Metadata

pub record RawEdge : Type 0 where
  pub kind : Text
  pub start : Text
  pub end : Text
  pub properties : Metadata

pub record Payload : Type 0 where
  pub nodes : List RawNode
  pub edges : List RawEdge

abbrev pub raw_node : GraphNode → RawNode
raw_node n = record { label = n.label; key = n.key; properties = n.properties }

abbrev pub raw_edge : GraphRelationship → RawEdge
raw_edge e = record {
  kind = e.kind;
  start = node_uid e.start;
  end = node_uid e.end;
  properties = e.properties;
}

-- What _flush writes.
unfoldable pub payload_of : Store → Payload
payload_of g = record {
  nodes = map raw_node (values g.nodes);
  edges = map raw_edge (values g.edges);
}

module _ (lower : Text → Text) where
  unfoldable pub load_nodes : List RawNode → Dict Text GraphNode → Option (Dict Text GraphNode)
  load_nodes [] nodes = some nodes
  load_nodes (r ∷ rs) nodes =
      and_then (make_node lower r.label r.key r.properties)
        λ n. load_nodes rs (put (node_uid n) n nodes)

  -- An edge, between the nodes that were loaded; one without both is left out.
  abbrev pub load_edge : RawEdge → Option GraphNode → Option GraphNode → Store → Option Store
  load_edge r none end g = some g
  load_edge r (some a) none g = some g
  load_edge r (some a) (some b) g =
      and_then (make_relationship r.kind a b r.properties) λ e. some (register_edge e g)

  unfoldable pub load_edges : List RawEdge → Store → Option Store
  load_edges [] g = some g
  load_edges (r ∷ rs) g =
      and_then (load_edge r (get r.start g.nodes) (get r.end g.nodes) g) λ h. load_edges rs h

  -- _load, of a file that can be read, in a new store.
  unfoldable pub load : Payload → Option Store
  unfolding load_nodes load_edges
  load p =
      and_then (load_nodes p.nodes [])
        λ nodes. load_edges p.edges (record empty_store { nodes = nodes })
