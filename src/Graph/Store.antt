-- ===== src/Graph/Store.antt =====
-- `InMemoryGraphStore` of backend/app/graph/store.py without its file. A set of edge ids is a list
-- without repetitions. Keys of nodes are normalized; str.lower is a parameter.
pub mod Linked
pub mod Deletion
pub mod Requests
use research_mind_ai.Prelude.{
  ℕ, ◌+◌, Text, codes, Bool, not, Option, none, some, List, [], ◌∷◌, ◌++◌, length, keep_if,
  contains, ◌==◌, EqOps, nat_eq, list_eq, if◌then◌else◌,
}
use research_mind_ai.Prelude.Dict.{Dict, get, put, remove, update}
use research_mind_ai.Retrieval.Filters.{Metadata}

pub record GraphNode : Type 0 where
  pub label : Text
  pub key : Text
  pub properties : Metadata

pub record GraphRelationship : Type 0 where
  pub kind : Text
  pub start : GraphNode
  pub end : GraphNode
  pub properties : Metadata

unfoldable pub node_uid : GraphNode → Text
node_uid n = n.label ++ (codes ":" ++ n.key)

unfoldable pub edge_uid : GraphRelationship → Text
edge_uid e = node_uid e.start ++ (codes "-[" ++ (e.kind ++ (codes "]->" ++ node_uid e.end)))

-- A defaultdict(set).
abbrev pub Sets : Type 0 → Type 0
Sets K = Dict K (List K)

module _ {K : Type 0} ⦃e : EqOps K⦄ where
  abbrev pub or_nothing : Option (List K) → List K
  or_nothing none = []
  or_nothing (some xs) = xs

  unfoldable pub members : K → Sets K → List K
  members k d = or_nothing (get k d)

  -- d[k].add(x)
  unfoldable pub add_member : K → K → Sets K → Sets K
  unfolding members
  add_member k x d = put k (if contains x (members k d) then members k d else x ∷ members k d) d

  -- d[k].discard(x)
  unfoldable pub discard : K → K → Sets K → Sets K
  unfolding members
  discard k x d = put k (keep_if (λ y. not (y == x)) (members k d)) d

pub record Store : Type 0 where
  pub nodes : Dict Text GraphNode
  pub edges : Dict Text GraphRelationship
  pub outgoing : Sets Text
  pub incoming : Sets Text

abbrev pub empty_store : Store
empty_store = record { nodes = []; edges = []; outgoing = []; incoming = [] }

unfoldable pub register_edge : GraphRelationship → Store → Store
unfolding add_member
register_edge e g = record g {
  edges = put (edge_uid e) e g.edges;
  outgoing = add_member (node_uid e.start) (edge_uid e) g.outgoing;
  incoming = add_member (node_uid e.end) (edge_uid e) g.incoming;
}

-- self._nodes.setdefault(node.uid, node)
abbrev pub set_default : GraphNode → Dict Text GraphNode → Dict Text GraphNode
set_default n nodes = elim (get (node_uid n) nodes) [
  | none ↦ put (node_uid n) n nodes
  | some m ↦ nodes
]

abbrev pub merge_node : GraphNode → Dict Text GraphNode → Dict Text GraphNode
merge_node n nodes = elim (get (node_uid n) nodes) [
  | none ↦ put (node_uid n) n nodes
  | some m ↦ put (node_uid n) (record m { properties = update m.properties n.properties }) nodes
]

unfoldable pub upsert_nodes : List GraphNode → Store → Store
upsert_nodes [] g = g
upsert_nodes (n ∷ ns) g = upsert_nodes ns (record g { nodes = merge_node n g.nodes })

unfoldable pub upsert_relationships : List GraphRelationship → Store → Store
unfolding register_edge
upsert_relationships [] g = g
upsert_relationships (e ∷ es) g =
    upsert_relationships es
      (register_edge e (record g { nodes = set_default e.end (set_default e.start g.nodes) }))

unfoldable pub drop_edge : Text → GraphRelationship → Store → Store
unfolding discard
drop_edge k e g = record g {
  edges = remove k g.edges;
  outgoing = discard (node_uid e.start) k g.outgoing;
  incoming = discard (node_uid e.end) k g.incoming;
}

-- self._edges.pop(edge_uid, None), and the rest of the body for an edge that is there
unfoldable pub detach_one : Text → Store → Store
unfolding drop_edge
detach_one k g = elim (get k g.edges) [ none ↦ g | some e ↦ drop_edge k e g ]

-- The loop over the attached edges.
unfoldable pub detach : List Text → Store → Store
unfolding detach_one
detach [] g = g
detach (k ∷ ks) g = detach ks (detach_one k g)

abbrev pub union : List Text → List Text → List Text
union xs ys = xs ++ keep_if (λ y. not (contains y xs)) ys

abbrev pub attached : Text → Store → List Text
attached uid g = union (members uid g.outgoing) (members uid g.incoming)

abbrev pub without_node : Text → Store → Store
without_node uid g = record g { nodes = remove uid g.nodes }

abbrev pub unlink : Text → Store → Store
unlink uid g = record g { outgoing = remove uid g.outgoing; incoming = remove uid g.incoming }

abbrev pub paper_uid : (Text → Text) → Text → Text
paper_uid lower paper_id = codes "Paper:" ++ lower paper_id

unfoldable pub delete_paper : (Text → Text) → Text → Store → Store × ℕ
unfolding detach members
delete_paper lower paper_id g = elim (get (paper_uid lower paper_id) g.nodes) [
  | none ↦ (g, 0)
  | some n ↦ (
    without_node (paper_uid lower paper_id)
        (detach (attached (paper_uid lower paper_id) g) (unlink (paper_uid lower paper_id) g)),
    length (attached (paper_uid lower paper_id) g) + 1,
  )
]
