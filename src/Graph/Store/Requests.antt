-- ===== src/Graph/Store/Requests.antt =====
-- Any sequence of requests to the graph store (backend/app/graph/store.py).
use research_mind_ai.Prelude.{
  Text, ◌≡◌, sym, ap, ◌∙◌, ◌⊎◌, inl, inr, true, Bool-cases, Option, none, some, List, [], ◌∷◌,
  contains, ◌==◌, nat_eq, list_eq, ==_iff, arith,
}
use research_mind_ai.Prelude.Dict.{Dict, get, put, Distinct, get-put, put-Distinct, update}
use research_mind_ai.Graph.Store.{
  GraphNode, GraphRelationship, node_uid, edge_uid, Sets, Store, empty_store, members, add_member,
  register_edge, set_default, merge_node, upsert_nodes, upsert_relationships, delete_paper,
}
use research_mind_ai.Graph.Store.Linked.{IsLinked, contains-add_member}
use research_mind_ai.Graph.Store.Deletion.{delete-IsLinked}

-- Whether a node is there or not, what is stored in its place keeps the keys distinct.
placed-Distinct :
    (k : Text) (fresh : GraphNode) (old : GraphNode → Dict Text GraphNode)
    (nodes : Dict Text GraphNode) (o : Option GraphNode)
    → Distinct nodes
    → ((m : GraphNode) → Distinct (old m))
    → Distinct (elim o as (λ _. Dict Text GraphNode) [ none ↦ put k fresh nodes | some m ↦ old m ])
placed-Distinct k fresh old nodes none h f = put-Distinct k fresh nodes h
placed-Distinct k fresh old nodes (some m) h f = f m

set_default-Distinct :
    (n : GraphNode) (nodes : Dict Text GraphNode) → Distinct nodes → Distinct (set_default n nodes)
set_default-Distinct n nodes h =
    placed-Distinct (node_uid n) n (λ m. nodes) nodes (get (node_uid n) nodes) h (λ m. h)

abbrev merged : GraphNode → GraphNode → GraphNode
merged n m = record m { properties = update m.properties n.properties }

merge_node-Distinct :
    (n : GraphNode) (nodes : Dict Text GraphNode) → Distinct nodes → Distinct (merge_node n nodes)
merge_node-Distinct n nodes h =
    placed-Distinct (node_uid n) n (λ m. put (node_uid n) (merged n m) nodes) nodes
      (get (node_uid n) nodes) h (λ m. put-Distinct (node_uid n) (merged n m) nodes h)

with_nodes-IsLinked :
    (nodes : Dict Text GraphNode) (g : Store)
    → Distinct nodes
    → IsLinked g
    → IsLinked (record g { nodes = nodes })
with_nodes-IsLinked nodes g d v = record {
  edges_distinct = v.edges_distinct;
  outgoing_distinct = v.outgoing_distinct;
  incoming_distinct = v.incoming_distinct;
  nodes_distinct = d;
  starts = v.starts;
  ends = v.ends;
}

upsert_nodes-IsLinked :
    (ns : List GraphNode) (g : Store) → IsLinked g → IsLinked (upsert_nodes ns g)
unfolding upsert_nodes
upsert_nodes-IsLinked [] g v = v
upsert_nodes-IsLinked (n ∷ ns) g v =
    upsert_nodes-IsLinked ns (record g { nodes = merge_node n g.nodes })
      (with_nodes-IsLinked (merge_node n g.nodes) g (merge_node-Distinct n g.nodes v.nodes_distinct)
        v)

-- An edge that is registered, or was in its sets, is in its sets.
module _ (k x : Text) (d : Sets Text) (j y : Text) where
  added : (k ≡ j) → (x ≡ y) → contains y (members j (add_member k x d)) ≡ true
  added p q = contains-add_member k x d j y ∙ ground (arith, (==_iff k j).1 p, (==_iff x y).1 q)

  kept : contains y (members j d) ≡ true → contains y (members j (add_member k x d)) ≡ true
  kept h = contains-add_member k x d j y ∙ ground (arith, h)

put-cases :
    (j k : Text) (e f : GraphRelationship) (d : Dict Text GraphRelationship)
    → get k (put j e d) ≡ some f
    → ((j ≡ k) × (e ≡ f)) ⊎ (get k d ≡ some f)
put-cases j k e f d h =
    let r = sym (get-put j k e d) ∙ h in
    elim (Bool-cases (j == k)) [
      | inl p ↦ inl ((==_iff j k).0 p, some-inj e f (rw p at r))
      | inr p ↦ inr (rw p at r)
    ]
  where
    some-inj : (e f : GraphRelationship) → some e ≡ some f → e ≡ f
    some-inj e f q = cc q

pub register_edge-IsLinked :
    (e : GraphRelationship) (g : Store) → IsLinked g → IsLinked (register_edge e g)
unfolding register_edge
register_edge-IsLinked e g v = record {
  edges_distinct = put-Distinct (edge_uid e) e g.edges v.edges_distinct;
  outgoing_distinct =
      unfold add_member in put-Distinct (node_uid e.start) _ g.outgoing v.outgoing_distinct;
  incoming_distinct =
      unfold add_member in put-Distinct (node_uid e.end) _ g.incoming v.incoming_distinct;
  nodes_distinct = v.nodes_distinct;
  starts = λ k f h. elim (put-cases (edge_uid e) k e f g.edges h) [
    | inl (at_key, same) ↦
        added (node_uid e.start) (edge_uid e) g.outgoing (node_uid f.start) k
          (ap (λ (r : GraphRelationship). node_uid r.start) same) at_key
    | inr old ↦
        kept (node_uid e.start) (edge_uid e) g.outgoing (node_uid f.start) k (v.starts k f old)
  ];
  ends = λ k f h. elim (put-cases (edge_uid e) k e f g.edges h) [
    | inl (at_key, same) ↦
        added (node_uid e.end) (edge_uid e) g.incoming (node_uid f.end) k
          (ap (λ (r : GraphRelationship). node_uid r.end) same) at_key
    | inr old ↦ kept (node_uid e.end) (edge_uid e) g.incoming (node_uid f.end) k (v.ends k f old)
  ];
}

upsert_relationships-IsLinked :
    (es : List GraphRelationship) (g : Store) → IsLinked g → IsLinked (upsert_relationships es g)
unfolding upsert_relationships
upsert_relationships-IsLinked [] g v = v
upsert_relationships-IsLinked (e ∷ es) g v =
    let nodes = set_default e.end (set_default e.start g.nodes) in
    upsert_relationships-IsLinked es (register_edge e (record g { nodes = nodes })) (
      register_edge-IsLinked e (record g { nodes = nodes })
        (with_nodes-IsLinked nodes g
          (set_default-Distinct e.end (set_default e.start g.nodes)
            (set_default-Distinct e.start g.nodes v.nodes_distinct))
          v))

-- A request to the store; `serve_requests` makes them in turn.
pub data Request : Type 0 where
  put_nodes : List GraphNode → Request
  put_relationships : List GraphRelationship → Request
  drop_paper : Text → Request

unfoldable pub serve_requests : (Text → Text) → List Request → Store → Store
serve_requests lower [] g = g
serve_requests lower (put_nodes ns ∷ rs) g = serve_requests lower rs (upsert_nodes ns g)
serve_requests lower (put_relationships es ∷ rs) g =
    serve_requests lower rs (upsert_relationships es g)
serve_requests lower (drop_paper p ∷ rs) g = serve_requests lower rs (delete_paper lower p g).0

empty-IsLinked : IsLinked empty_store
unfolding get
empty-IsLinked = record {
  edges_distinct = tt;
  outgoing_distinct = tt;
  incoming_distinct = tt;
  nodes_distinct = tt;
  starts = λ k e h. absurd (cc h);
  ends = λ k e h. absurd (cc h);
}

served-IsLinked :
    (lower : Text → Text) (rs : List Request) (g : Store)
    → IsLinked g
    → IsLinked (serve_requests lower rs g)
unfolding serve_requests
served-IsLinked lower [] g v = v
served-IsLinked lower (put_nodes ns ∷ rs) g v =
    served-IsLinked lower rs (upsert_nodes ns g) (upsert_nodes-IsLinked ns g v)
served-IsLinked lower (put_relationships es ∷ rs) g v =
    served-IsLinked lower rs (upsert_relationships es g) (upsert_relationships-IsLinked es g v)
served-IsLinked lower (drop_paper p ∷ rs) g v =
    served-IsLinked lower rs (delete_paper lower p g).0 (delete-IsLinked lower p g v)

-- After any requests to an empty store, the keys of each table are distinct and every edge stands
-- in the outgoing set of its start and in the incoming set of its end.
pub requests-IsLinked :
    (lower : Text → Text) (rs : List Request) → IsLinked (serve_requests lower rs empty_store)
requests-IsLinked lower rs = served-IsLinked lower rs empty_store empty-IsLinked
