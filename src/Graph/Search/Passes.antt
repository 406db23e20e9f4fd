-- ===== src/Graph/Search/Passes.antt =====
-- A frontier of `neighbors` (backend/app/graph/store.py) is expanded node by node.
use research_mind_ai.Prelude.{
  ℕ, ◌+◌, Text, ◌≡◌, refl, sym, ap, ◌∙◌, inl, inr, true, Bool-cases, Option, none, some, List, [],
  ◌∷◌, contains, ◌==◌, ==_iff, nat_eq, list_eq, and_then, arith, All, In,
}
use mathlib.Core.Path.{subst}
use research_mind_ai.Prelude.Dict.{get}
use research_mind_ai.Graph.Store.{GraphRelationship, node_uid, Store}
use research_mind_ai.Graph.Search.{
  Direction, outward, inward, Frontier, far, edges_at, passes, visit_edge, visit_edges, expand_node,
  expand_frontier,
}
use research_mind_ai.Graph.Search.Walks.{
  Walk, Found, and_then-Found, Closed, Grows, Grows-refl, Grows-trans, IsSearch, Visited,
  visit_edge-Visited,
}

module _ (g : Store) (wanted : List Text) (start : Text) where
  visit_edges-Visited :
      (d : Direction) (m : ℕ) (u : Text) (ks : List Text) (s : Frontier)
      → Walk g wanted start m u
      → ((k : Text) → contains k ks ≡ true → contains k (edges_at d u g) ≡ true)
      → IsSearch g wanted start (m + 1) s
      → Found g wanted (Visited g wanted start d (m + 1) ks s) (visit_edges g wanted d (m + 1) ks s)
  unfolding visit_edges
  visit_edges-Visited d m u [] s w named v = (v, Grows-refl g wanted s, λ k e h. absurd (cc h))
  visit_edges-Visited d m u (k ∷ ks) s w named v =
      go (get k g.edges) refl
        (λ t. visit_edges-Visited d m u ks t w (λ j h. named j (ground (arith, h, ==_iff k j))))
    where
      some-inj : (x y : GraphRelationship) → some x ≡ some y → x ≡ y
      some-inj x y q = cc q

      onward :
          (t : Frontier) (r : GraphRelationship)
          → get k g.edges ≡ some r
          → Grows g wanted s t
          → (passes wanted r ≡ true → In (node_uid (far d r)) t.seen)
          → (o : Option Frontier) → Found g wanted (Visited g wanted start d (m + 1) ks t) o
          → Found g wanted (Visited g wanted start d (m + 1) (k ∷ ks) s) o
      onward t r e grows seen none f = f
      onward t r e grows seen (some z) (valid, more, done) = (
        valid,
        Grows-trans g wanted s t z grows more,
        λ j q h found ok. elim (Bool-cases (k == j)) [
          | inl same ↦
              let here_too : r ≡ q =
                some-inj r q (sym e ∙ (ap (λ x. get x g.edges) ((==_iff k j).0 same) ∙ found)) in
              more.seen_kept (node_uid (far d q)) (
                subst (λ x. passes wanted x ≡ true → In (node_uid (far d x)) t.seen) here_too seen
                  ok)
          | inr other ↦ done j q (rw other at h) found ok
        ],
      )

      go :
          (o : Option GraphRelationship)
          → get k g.edges ≡ o
          → ((t : Frontier)
              → IsSearch g wanted start (m + 1) t
              → Found g wanted
                  (Visited g wanted start d (m + 1) ks t)
                  (visit_edges g wanted d (m + 1) ks t))
          → Found g wanted (Visited g wanted start d (m + 1) (k ∷ ks) s) (
              and_then o (λ e. visit_edges g wanted d (m + 1) ks (visit_edge wanted d (m + 1) e s)))
      go none e rest = (d, u, k, named k (ground (arith, ==_iff k k)), e)
      go (some r) e rest =
          let t = visit_edge wanted d (m + 1) r s in
          let (valid, grows, seen) =
            visit_edge-Visited g wanted start d m u k r s w (named k (ground (arith, ==_iff k k))) e
              v in
          onward t r e grows seen (visit_edges g wanted d (m + 1) ks t) (rest t valid)

  -- What a node, or the nodes of a frontier, add to a search.
  abbrev pub Expanded : ℕ → List Text → Frontier → Frontier → Type 0
  Expanded n us s t =
      IsSearch g wanted start n t
      × Grows g wanted s t
      × ((u : Text) → In u us → Closed g wanted u t)

  expand_node-Expanded :
      (m : ℕ) (u : Text) (s : Frontier)
      → Walk g wanted start m u
      → IsSearch g wanted start (m + 1) s
      → Found g wanted (Expanded (m + 1) (u ∷ []) s) (expand_node g wanted (m + 1) u s)
  unfolding expand_node
  expand_node-Expanded m u s w v =
      and_then-Found g wanted (Visited g wanted start outward (m + 1) (edges_at outward u g) s)
        (Expanded (m + 1) (u ∷ []) s) _ _
        (visit_edges-Visited outward m u (edges_at outward u g) s w (λ k h. h) v)
        (λ t (valid, grows, done).
          finish t valid grows done (visit_edges g wanted inward (m + 1) (edges_at inward u g) t)
            (visit_edges-Visited inward m u (edges_at inward u g) t w (λ k h. h) valid))
    where
      finish :
          (t : Frontier)
          → IsSearch g wanted start (m + 1) t
          → Grows g wanted s t
          → ((k : Text) (e : GraphRelationship)
              → contains k (edges_at outward u g) ≡ true
              → get k g.edges ≡ some e
              → passes wanted e ≡ true
              → In (node_uid (far outward e)) t.seen)
          → (o : Option Frontier)
          → Found g wanted (Visited g wanted start inward (m + 1) (edges_at inward u g) t) o
          → Found g wanted (Expanded (m + 1) (u ∷ []) s) o
      finish t valid grows done none f = f
      finish t valid grows done (some z) (good, more, back) =
          (good, Grows-trans g wanted s t z grows more, λ x i d y l. closed x i d y l)
        where
          closed : (x : Text) → In x (u ∷ []) → Closed g wanted x z
          closed x (inl same) outward y (k, e, named, found, ok, at) =
              rw at
                (more.seen_kept (node_uid (far outward e)) (done k e (rw same at named) found ok))
          closed x (inl same) inward y (k, e, named, found, ok, at) =
              rw at (back k e (rw same at named) found ok)
          closed x (inr i) d y l = absurd i

  pub expand_frontier-Expanded :
      (m : ℕ) (us : List Text) (s : Frontier)
      → All (Walk g wanted start m) us
      → IsSearch g wanted start (m + 1) s
      → Found g wanted (Expanded (m + 1) us s) (expand_frontier g wanted (m + 1) us s)
  unfolding expand_frontier
  expand_frontier-Expanded m [] s w v = (v, Grows-refl g wanted s, λ u i. absurd i)
  expand_frontier-Expanded m (u ∷ us) s w v =
      and_then-Found g wanted (Expanded (m + 1) (u ∷ []) s) (Expanded (m + 1) (u ∷ us) s) _ _
        (expand_node-Expanded m u s w.0 v)
        (λ t (valid, grows, closed).
          onward t grows closed (expand_frontier g wanted (m + 1) us t)
            (expand_frontier-Expanded m us t w.1 valid))
    where
      onward :
          (t : Frontier)
          → Grows g wanted s t
          → ((x : Text) → In x (u ∷ []) → Closed g wanted x t)
          → (o : Option Frontier) → Found g wanted (Expanded (m + 1) us t) o
          → Found g wanted (Expanded (m + 1) (u ∷ us) s) o
      onward t grows closed none f = f
      onward t grows closed (some z) (good, more, rest) = (
        good,
        Grows-trans g wanted s t z grows more,
        λ x i d y l. elim i [
          | inl same ↦ more.seen_kept y (closed x (inl same) d y l)
          | inr later ↦ rest x later d y l
        ],
      )
