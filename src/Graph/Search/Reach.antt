-- ===== src/Graph/Search/Reach.antt =====
-- `neighbors` of backend/app/graph/store.py finds what walks of the graph reach.
use research_mind_ai.Prelude.{
  ℕ, zero, suc, ◌+◌, ◌≤◌, max, Text, codes, ◌≡◌, refl, ◌⊎◌, inl, inr, true, Bool-cases, none, some,
  List, [], ◌∷◌, ◌++◌, map, take, nat_eq, list_eq, arith, All, In, NoRepeat,
}
use mathlib.Core.Path.{subst}
use research_mind_ai.Prelude.Dict.{get}
use research_mind_ai.Graph.Store.{GraphNode, Store}
use research_mind_ai.Graph.Search.{
  NeighborHit, Frontier, none_wanted, levels, search_from, neighbors,
}
use research_mind_ai.Graph.Schema.{normalize_key}
use research_mind_ai.Graph.Search.Walks.{
  hit_uid, Walk, here, step, Found, and_then-Found, Closed, Grows, IsHit, IsSearch,
}
use research_mind_ai.Graph.Search.Passes.{Expanded, expand_frontier-Expanded}

module _ (g : Store) (wanted : List Text) (start : Text) where
  -- The hits are distinct nodes other than the start, each reached by a walk of its distance, which
  -- is from 1 to n; and the nodes that walks of at most n links reach are the start and the hits.
  abbrev pub IsNeighborhood : ℕ → List NeighborHit → Type 0
  IsNeighborhood n hits =
      NoRepeat (start ∷ map hit_uid hits)
      × All (IsHit g wanted start n) hits
      × ((i : ℕ) (v : Text) → Walk g wanted start i v → i ≤ n → In v (start ∷ map hit_uid hits))

  abbrev Covers : ℕ → Frontier → Type 0
  Covers n s = (i : ℕ) (v : Text) → Walk g wanted start i v → i ≤ n → In v s.seen

  abbrev Pending : Frontier → Type 0
  Pending s = (v : Text) → In v s.seen → In v s.next ⊎ Closed g wanted v s

  hits-later :
      (n m : ℕ) (hits : List NeighborHit)
      → n ≤ m
      → All (IsHit g wanted start n) hits
      → All (IsHit g wanted start m) hits
  hits-later n m [] le a = tt
  hits-later n m (h ∷ hits) le a =
      ((a.0.0, a.0.1, omega (arith, a.0.2)), hits-later n m hits le a.1)

  -- A state of which every node is closed has seen all that walks reach.
  all-Closed :
      (t : Frontier)
      → In start t.seen
      → ((v : Text) → In v t.seen → Closed g wanted v t)
      → (i : ℕ) (v : Text) → Walk g wanted start i v
      → In v t.seen
  all-Closed t s closed i v here = s
  all-Closed t s closed i v (step {n} {u} w d l) = closed u (all-Closed t s closed n u w) d v l

  start_seen : (n : ℕ) (s : Frontier) → IsSearch g wanted start n s → In start s.seen
  start_seen n s v = rw v.seen_hits (inl refl)

  result :
      (n : ℕ) (s : Frontier) → IsSearch g wanted start n s → Covers n s → IsNeighborhood n s.hits
  result n s v covers =
      (rw v.seen_hits at v.fresh, v.walked, λ i x w le. rw v.seen_hits at covers i x w le)

  Covers-step :
      (m : ℕ) (s t : Frontier)
      → In start s.seen
      → Covers m s
      → Pending s
      → Grows g wanted (record { seen = s.seen; next = []; hits = s.hits }) t
      → ((u : Text) → In u s.next → Closed g wanted u t)
      → Covers (m + 1) t
  Covers-step m s t at covers pending grows closed i v here le = grows.seen_kept start at
  Covers-step m s t at covers pending grows closed i v (step {n} {u} w d l) le =
      elim (pending u (covers n u w (omega arith))) [
        | inl fresh ↦ closed u fresh d v l
        | inr old ↦ grows.seen_kept v (old d v l)
      ]

  Pending-step :
      (s t : Frontier)
      → Pending s
      → Grows g wanted (record { seen = s.seen; next = []; hits = s.hits }) t
      → ((u : Text) → In u s.next → Closed g wanted u t)
      → Pending t
  Pending-step s t pending grows closed v i = elim (grows.new_next v i) [
    | inl old ↦ elim (pending v old) [
      | inl fresh ↦ inr (closed v fresh)
      | inr done ↦ inr (λ d y l. grows.seen_kept y (done d y l))
    ]
    | inr new ↦ inl new
  ]

  nothing_next : (xs : List Text) (v : Text) → none_wanted xs ≡ true → In v xs → ⊥
  nothing_next [] v e i = i
  nothing_next (x ∷ xs) v e i = absurd (cc e)

  levels-IsNeighborhood :
      (left m : ℕ) (s : Frontier)
      → IsSearch g wanted start m s
      → Pending s
      → Covers m s
      → Found g wanted (IsNeighborhood (m + left)) (levels g wanted left (m + 1) s)
  unfolding levels
  levels-IsNeighborhood zero m s v pending covers =
      subst (λ n. IsNeighborhood n s.hits) (omega arith) (result m s v covers)
  levels-IsNeighborhood (suc left) m s v pending covers =
      let r : Frontier = record { seen = s.seen; next = []; hits = s.hits } in
      and_then-Found g wanted (Expanded g wanted start (m + 1) s.next r)
        (IsNeighborhood (m + suc left)) _ _
        (expand_frontier-Expanded g wanted start m s.next r v.reached (record {
          seen_hits = v.seen_hits;
          fresh = v.fresh;
          walked = hits-later m (m + 1) s.hits (omega arith) v.walked;
          reached = tt;
        }))
        (λ t (valid, grows, closed).
          let covered = Covers-step m s t (start_seen m s v) covers pending grows closed in
          let waiting = Pending-step s t pending grows closed in
          elim (Bool-cases (none_wanted t.next)) [
            | inl stop ↦ rw stop (
                subst (λ n. IsNeighborhood n t.hits) (omega arith)
                  (stopped left m t valid stop waiting))
            | inr go ↦ rw go (
                subst
                  (λ n. Found g wanted (IsNeighborhood n) (levels g wanted left ((m + 1) + 1) t))
                  (omega arith) (levels-IsNeighborhood left (m + 1) t valid waiting covered))
          ])
    where
      stopped :
          (left m : ℕ) (t : Frontier)
          → IsSearch g wanted start (m + 1) t
          → none_wanted t.next ≡ true
          → Pending t
          → IsNeighborhood ((m + 1) + left) t.hits
      stopped left m t valid stop waiting = (
        rw valid.seen_hits at valid.fresh,
        hits-later (m + 1) ((m + 1) + left) t.hits (omega arith) valid.walked,
        λ i x w le. rw valid.seen_hits at (
            all-Closed t (start_seen (m + 1) t valid)
              (λ v j. elim (waiting v j) [
                | inl next ↦ absurd (nothing_next t.next v stop next)
                | inr done ↦ done
              ])
              i x w),
      )

  search_from-IsNeighborhood :
      (depth : ℕ) → Found g wanted (IsNeighborhood (max depth 1)) (search_from g wanted start depth)
  search_from-IsNeighborhood depth =
      subst (λ n. Found g wanted (IsNeighborhood n) (search_from g wanted start depth))
        (omega arith)
        (levels-IsNeighborhood (max depth 1) 0
          (record { seen = start ∷ []; next = start ∷ []; hits = [] })
          (record { seen_hits = refl; fresh = (tt, tt); walked = tt; reached = (here, tt) })
          (λ v i. inl i) (λ i v w le. at_start i v w le))
    where
      at_start : (i : ℕ) (v : Text) → Walk g wanted start i v → i ≤ 0 → In v (start ∷ [])
      at_start i v here le = inl refl
      at_start i v (step {n} {u} w d l) le = absurd (omega arith)

module _ (lower : Text → Text) (label key : Text) (depth : ℕ) (wanted : List Text) (limit : ℕ)
    (g : Store) where
  abbrev pub start_uid : Text
  start_uid = label ++ (codes ":" ++ normalize_key lower key)

  -- A search for a node that is not there has no hits. For a node that is there, it either raises
  -- a KeyError, since a set names an edge that is not in the store, or returns the first `limit`
  -- of the hits, which are exactly the other nodes that walks of at
  -- most max(depth, 1) links of the wanted kinds reach, each once and at the end of a walk of its
  -- distance.
  pub neighbors_walks :
      (get start_uid g.nodes ≡ none → neighbors lower label key depth wanted limit g ≡ some [])
      × ((n : GraphNode)
          → get start_uid g.nodes ≡ some n
          → Found g wanted
              (λ hits.
                (all : List NeighborHit) × IsNeighborhood g wanted start_uid (max depth 1) all
                × (hits ≡ take limit all))
              (neighbors lower label key depth wanted limit g))
  unfolding neighbors
  neighbors_walks = (
    λ e. rw (e, neighbors) refl,
    λ n e.
        rw (e, neighbors)
          (and_then-Found g wanted (IsNeighborhood g wanted start_uid (max depth 1))
            (λ hits.
              (all : List NeighborHit) × IsNeighborhood g wanted start_uid (max depth 1) all
              × (hits ≡ take limit all))
            (search_from g wanted start_uid depth) _
            (search_from-IsNeighborhood g wanted start_uid depth) (λ all good. (all, good, refl))),
  )
