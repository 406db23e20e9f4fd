-- ===== src/Graph/Store/Deletion.antt =====
-- Deleting a paper from the graph store, and any requests to it (backend/app/graph/store.py).
use research_mind_ai.Prelude.{
  Text, ◌≡◌, refl, sym, ap, ◌∙◌, inl, inr, true, false, Bool-cases, Option-cases, none, some, List,
  [], ◌∷◌, contains, ◌==◌, nat_eq, list_eq, ==_iff, ne_of_false, if◌then◌else◌, arith,
}
use mathlib.Core.Path.{subst}
use research_mind_ai.Prelude.Dict.{get, remove, Distinct, get-remove, put-Distinct, remove-Distinct}
use research_mind_ai.Graph.Store.{
  GraphNode, GraphRelationship, node_uid, Sets, Store, members, discard, drop_edge, detach_one,
  detach, attached, or_nothing, without_node, unlink, paper_uid, delete_paper,
}
use research_mind_ai.Graph.Store.Linked.{
  IsLinked, contains-union, edges-detach, sets-detach, detach_one-none, detach_one-some,
}

-- All but the contents: what each round of the loop keeps.
record IsSound (g : Store) : Type 0 where
  edges : Distinct g.edges
  outgoing : Distinct g.outgoing
  incoming : Distinct g.incoming
  nodes : Distinct g.nodes

detach_one-IsSound : (k : Text) (g : Store) → IsSound g → IsSound (detach_one k g)
unfolding drop_edge discard
detach_one-IsSound k g h = elim (Option-cases (get k g.edges)) [
  | inl out ↦ subst IsSound (sym (detach_one-none k g out)) h
  | inr (e, here) ↦ subst IsSound (sym (detach_one-some k e g here)) (record {
    edges = remove-Distinct k g.edges h.edges;
    outgoing = put-Distinct (node_uid e.start) _ g.outgoing h.outgoing;
    incoming = put-Distinct (node_uid e.end) _ g.incoming h.incoming;
    nodes = h.nodes;
  })
]

detach-IsSound : (ks : List Text) (g : Store) → IsSound g → IsSound (detach ks g)
unfolding detach
detach-IsSound [] g h = h
detach-IsSound (k ∷ ks) g h = detach-IsSound ks (detach_one k g) (detach_one-IsSound k g h)

unlink-IsSound : (uid : Text) (g : Store) → IsLinked g → IsSound (unlink uid g)
unlink-IsSound uid g v = record {
  edges = v.edges_distinct;
  outgoing = remove-Distinct uid g.outgoing v.outgoing_distinct;
  incoming = remove-Distinct uid g.incoming v.incoming_distinct;
  nodes = v.nodes_distinct;
}

abbrev left : Text → Store → Store
left uid g = detach (attached uid g) (unlink uid g)

module _ (uid : Text) (g : Store) (v : IsLinked g) where
  -- An edge that the loop leaves was there and has its ends elsewhere.
  left_edge :
      (k : Text) (e : GraphRelationship)
      → get k (left uid g).edges ≡ some e
      → (get k g.edges ≡ some e)
        × ((node_uid e.start == uid) ≡ false)
        × ((node_uid e.end == uid) ≡ false)
  left_edge k e h =
      let (here, out) = edges-detach (attached uid g) (unlink uid g) k e v.edges_distinct h in
      let none_of =
        sym (contains-union k (members uid g.outgoing) (members uid g.incoming)) ∙ out in
      (
        here,
        elim (Bool-cases (node_uid e.start == uid)) [
          | inr p ↦ p
          | inl p ↦
              let s : contains k (members uid g.outgoing) ≡ true =
                subst (λ u. contains k (members u g.outgoing) ≡ true)
                  ((==_iff (node_uid e.start) uid).0 p) (v.starts k e here) in
              absurd (ground (arith, s, none_of))
        ],
        elim (Bool-cases (node_uid e.end == uid)) [
          | inr p ↦ p
          | inl p ↦
              let s : contains k (members uid g.incoming) ≡ true =
                subst (λ u. contains k (members u g.incoming) ≡ true)
                  ((==_iff (node_uid e.end) uid).0 p) (v.ends k e here) in
              absurd (ground (arith, s, none_of))
        ],
      )

members-remove :
    (uid j : Text) (d : Sets Text)
    → Distinct d
    → (j == uid) ≡ false
    → members j (remove uid d) ≡ members j d
unfolding members
members-remove uid j d h other = elim (Bool-cases (uid == j)) [
  | inl p ↦ absurd (ne_of_false j uid other (sym ((==_iff uid j).0 p)))
  | inr p ↦ ap or_nothing (get-remove uid j d h ∙ ap (λ b. if b then none else get j d) p)
]

left-IsLinked : (uid : Text) (g : Store) → IsLinked g → IsLinked (left uid g)
left-IsLinked uid g v =
    let s = detach-IsSound (attached uid g) (unlink uid g) (unlink-IsSound uid g v) in
    record {
      edges_distinct = s.edges;
      outgoing_distinct = s.outgoing;
      incoming_distinct = s.incoming;
      nodes_distinct = s.nodes;
      starts = λ k e h.
          let (here, p, q) = left_edge uid g v k e h in
          let (_, out) = edges-detach (attached uid g) (unlink uid g) k e v.edges_distinct h in
          (sets-detach (attached uid g) (unlink uid g) (node_uid e.start) k out).0
          ∙ (ap (contains k)
                (members-remove uid (node_uid e.start) g.outgoing v.outgoing_distinct p)
              ∙ v.starts k e here);
      ends = λ k e h.
          let (here, p, q) = left_edge uid g v k e h in
          let (_, out) = edges-detach (attached uid g) (unlink uid g) k e v.edges_distinct h in
          (sets-detach (attached uid g) (unlink uid g) (node_uid e.end) k out).1
          ∙ (ap (contains k) (members-remove uid (node_uid e.end) g.incoming v.incoming_distinct q)
              ∙ v.ends k e here);
    }

without_node-IsLinked : (uid : Text) (g : Store) → IsLinked g → IsLinked (without_node uid g)
without_node-IsLinked uid g v = record {
  edges_distinct = v.edges_distinct;
  outgoing_distinct = v.outgoing_distinct;
  incoming_distinct = v.incoming_distinct;
  nodes_distinct = remove-Distinct uid g.nodes v.nodes_distinct;
  starts = v.starts;
  ends = v.ends;
}

delete-present :
    (lower : Text → Text) (paper_id : Text) (g : Store) (n : GraphNode)
    → get (paper_uid lower paper_id) g.nodes ≡ some n
    → (delete_paper lower paper_id g).0
      ≡ without_node (paper_uid lower paper_id) (left (paper_uid lower paper_id) g)
unfolding delete_paper
delete-present lower paper_id g n h = rw (h, delete_paper) refl

delete-absent :
    (lower : Text → Text) (paper_id : Text) (g : Store)
    → get (paper_uid lower paper_id) g.nodes ≡ none
    → (delete_paper lower paper_id g).0 ≡ g
unfolding delete_paper
delete-absent lower paper_id g h = rw (h, delete_paper) refl

pub delete-IsLinked :
    (lower : Text → Text) (paper_id : Text) (g : Store)
    → IsLinked g
    → IsLinked (delete_paper lower paper_id g).0
delete-IsLinked lower paper_id g v =
    let uid = paper_uid lower paper_id in
    elim (Option-cases (get uid g.nodes)) [
      | inl out ↦ subst IsLinked (sym (delete-absent lower paper_id g out)) v
      | inr (n, here) ↦
          subst IsLinked (sym (delete-present lower paper_id g n here))
            (without_node-IsLinked uid (left uid g) (left-IsLinked uid g v))
    ]
