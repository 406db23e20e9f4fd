-- ===== src/Graph/Saved/RoundTrip.antt =====
-- What is saved by the graph store (backend/app/graph/store.py) is loaded again.
use research_mind_ai.Prelude.{
  Text, ◌≡◌, ◌≢◌, refl, sym, ap, ◌∙◌, false, Option, none, some, List, [], ◌∷◌, ◌++◌, append_assoc,
  append-nil, map, contains, ==_iff, nat_eq, list_eq, arith, All, All-append_right, NoRepeat,
}
use mathlib.Core.Path.{subst}
use research_mind_ai.Prelude.Dict.{
  Dict, get, put, keys, values, Distinct, keys-NoRepeat, put-new, keys-append,
}
use research_mind_ai.Graph.Schema.{make_node, make_relationship}
use research_mind_ai.Graph.Store.{
  GraphNode, GraphRelationship, node_uid, edge_uid, Store, empty_store, register_edge,
}
use research_mind_ai.Graph.Store.Linked.{IsLinked}
use research_mind_ai.Graph.Store.Requests.{register_edge-IsLinked}
use research_mind_ai.Graph.Saved.{raw_node, raw_edge, payload_of, load_nodes, load_edges, load}

-- In a list without repetitions, what stands after is not before.
middle-new : (k : Text) (xs ys : List Text) → NoRepeat (xs ++ (k ∷ ys)) → contains k xs ≡ false
middle-new k [] ys h = refl
middle-new k (x ∷ xs) ys h =
    let apart = All-append_right (λ y. x ≢ y) xs (k ∷ ys) h.0 in
    ground (arith, apart.0, ==_iff x k, middle-new k xs ys h.1)

abbrev pub NodeMade : (Text → Text) → Text × GraphNode → Type 0
NodeMade lower (k, n) = (k ≡ node_uid n) × (make_node lower n.label n.key n.properties ≡ some n)

abbrev pub EdgeMade : Dict Text GraphNode → Text × GraphRelationship → Type 0
EdgeMade nodes (k, e) =
    (k ≡ edge_uid e)
    × (a : GraphNode) × (b : GraphNode) × (get (node_uid e.start) nodes ≡ some a)
    × (get (node_uid e.end) nodes ≡ some b)
    × (make_relationship e.kind a b e.properties ≡ some (record e { start = a; end = b }))
    × (edge_uid (record e { start = a; end = b }) ≡ edge_uid e)

-- Every node is one that its constructor gives back, under its own id; so is every edge, between
-- the nodes that the store has for its two ends.
pub record IsStored (lower : Text → Text) (g : Store) : Type 0 where
  pub nodes_made : All (NodeMade lower) g.nodes
  pub edges_made : All (EdgeMade g.nodes) g.edges

module _ (lower : Text → Text) where
  load_nodes-back :
      (d rest : Dict Text GraphNode)
      → NoRepeat (keys d ++ keys rest)
      → All (NodeMade lower) rest
      → load_nodes lower (map raw_node (values rest)) d ≡ some (d ++ rest)
  unfolding load_nodes
  load_nodes-back d [] h made = ap some (sym (append-nil d))
  load_nodes-back d ((k, n) ∷ rest) h made =
      let (at, same) = made.0 in
      let new = put-new k n d (middle-new k (keys d) (keys rest) h) in
      let step : put (node_uid n) n d ≡ d ++ ((k, n) ∷ []) = ap (λ u. put u n d) (sym at) ∙ new in
      let grown : NoRepeat (keys (d ++ ((k, n) ∷ [])) ++ keys rest) =
        subst NoRepeat
          (sym (
            ap (λ x. x ++ keys rest) (keys-append d ((k, n) ∷ []))
            ∙ append_assoc (keys d) (k ∷ []) (keys rest)))
          h in
      rw (same, load_nodes)
        (ap (λ x. load_nodes lower (map raw_node (values rest)) x) step
          ∙ (load_nodes-back (d ++ ((k, n) ∷ [])) rest grown made.1
              ∙ ap some (append_assoc d ((k, n) ∷ []) rest)))

abbrev pub or_node : GraphNode → Option GraphNode → GraphNode
or_node n none = n
or_node n (some m) = m

-- The edge between the nodes that are stored for its ends.
abbrev pub relink : Dict Text GraphNode → GraphRelationship → GraphRelationship
relink nodes e = record e {
  start = or_node e.start (get (node_uid e.start) nodes);
  end = or_node e.end (get (node_uid e.end) nodes);
}

abbrev pub relinked :
    Dict Text GraphNode → Dict Text GraphRelationship → Dict Text GraphRelationship
relinked nodes [] = []
relinked nodes ((k, e) ∷ es) = (k, relink nodes e) ∷ relinked nodes es

module _ (lower : Text → Text) where
  abbrev Reloaded : Dict Text GraphRelationship → Store → Store → Type 0
  Reloaded rest g h =
      (h.edges ≡ g.edges ++ relinked g.nodes rest) × (h.nodes ≡ g.nodes) × (IsLinked g → IsLinked h)

  load_edges-back :
      (g : Store) (rest : Dict Text GraphRelationship)
      → NoRepeat (keys g.edges ++ keys rest)
      → All (EdgeMade g.nodes) rest
      → (h : Store) × (load_edges lower (map raw_edge (values rest)) g ≡ some h) × Reloaded rest g h
  unfolding load_edges register_edge
  load_edges-back g [] h made = (g, refl, (sym (append-nil g.edges), refl, λ v. v))
  load_edges-back g ((k, e) ∷ rest) h made =
      let (at, a, b, from, to, same, uid) = made.0 in
      let f : GraphRelationship = record e { start = a; end = b } in
      let placed : put (edge_uid f) f g.edges ≡ g.edges ++ ((k, f) ∷ []) =
        ap (λ u. put u f g.edges) (uid ∙ sym at)
        ∙ put-new k f g.edges (middle-new k (keys g.edges) (keys rest) h) in
      let grown : NoRepeat (keys (register_edge f g).edges ++ keys rest) =
        subst NoRepeat
          (sym (
            ap (λ x. keys x ++ keys rest) placed
            ∙ (ap (λ x. x ++ keys rest) (keys-append g.edges ((k, f) ∷ []))
                ∙ append_assoc (keys g.edges) (k ∷ []) (keys rest))))
          h in
      let (z, loaded, (edges, nodes, linked)) =
        load_edges-back (register_edge f g) rest grown made.1 in
      let there : relink g.nodes e ≡ f = rw (from, to) refl in
      (
        z,
        rw (from, to, same, load_edges) loaded,
        (
          edges
              ∙ (ap (λ x. x ++ relinked g.nodes rest) placed
                  ∙ (append_assoc g.edges ((k, f) ∷ []) (relinked g.nodes rest)
                      ∙ ap (λ x. g.edges ++ ((k, x) ∷ relinked g.nodes rest)) (sym there))),
          nodes,
          λ v. linked (register_edge-IsLinked f g v),
        ),
      )

  loaded_nodes-IsLinked :
      (nodes : Dict Text GraphNode)
      → Distinct nodes
      → IsLinked (record empty_store { nodes = nodes })
  unfolding get
  loaded_nodes-IsLinked nodes d = record {
    edges_distinct = tt;
    outgoing_distinct = tt;
    incoming_distinct = tt;
    nodes_distinct = d;
    starts = λ k e h. absurd (cc h);
    ends = λ k e h. absurd (cc h);
  }

  -- A well-formed store that is saved and loaded again: loading does not raise, gives the same nodes
  -- and the same edges, in their order and each between the nodes that are stored for its ends, and
  -- every edge stands in the sets of its two ends. For that each node and each edge is one that its
  -- constructor gives back under its own id, and the ends of the edges are in the store.
  pub load-payload_of :
      (g : Store)
      → Distinct g.nodes
      → Distinct g.edges
      → IsStored lower g
      → (h : Store) × (load lower (payload_of g) ≡ some h)
        × (h.nodes ≡ g.nodes)
        × (h.edges ≡ relinked g.nodes g.edges)
        × IsLinked h
  unfolding load payload_of
  load-payload_of g dn de v =
      let nodes = load_nodes-back lower [] g.nodes (keys-NoRepeat g.nodes dn) v.nodes_made in
      let start : Store = record empty_store { nodes = g.nodes } in
      let (h, loaded, (edges, same, linked)) =
        load_edges-back start g.edges (keys-NoRepeat g.edges de) v.edges_made in
      (h, rw (nodes, load) loaded, same, edges, linked (loaded_nodes-IsLinked g.nodes dn))
