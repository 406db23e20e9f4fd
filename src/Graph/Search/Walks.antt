-- ===== src/Graph/Search/Walks.antt =====
-- One pass of `neighbors` (backend/app/graph/store.py) over a frontier, against the walks of the graph.
use research_mind_ai.Prelude.{
  ℕ, ◌+◌, ◌≤◌, Text, ◌≡◌, refl, sym, ap, ◌∙◌, ◌⊎◌, inl, inr, true, false, Bool-cases, Option, none,
  some, List, [], ◌∷◌, ◌++◌, map, contains, nat_eq, list_eq, and_then, arith, All, All-append, In,
  In-append_left, In-append_right, In-append_cases, In-contains, NoRepeat, NoRepeat-snoc,
}
use research_mind_ai.Prelude.Dict.{get}
use research_mind_ai.Graph.Store.{GraphRelationship, node_uid, Store}
use research_mind_ai.Graph.Search.{
  Direction, NeighborHit, Frontier, far, edges_at, passes, add_hit, visit_edge,
}

map-append : {A B : Type 0} (f : A → B) (xs ys : List A) → map f (xs ++ ys) ≡ map f xs ++ map f ys
map-append f [] ys = refl
map-append f (x ∷ xs) ys = ap (◌∷◌ (f x)) (map-append f xs ys)

abbrev pub hit_uid : NeighborHit → Text
hit_uid h = node_uid h.node

module _ (g : Store) (wanted : List Text) where
  -- An edge of a wanted kind leads from one node to another, along it or against it.
  abbrev pub Link : Direction → Text → Text → Type 0
  Link d u v =
      (k : Text) × (e : GraphRelationship) × (contains k (edges_at d u g) ≡ true)
      × (get k g.edges ≡ some e)
      × (passes wanted e ≡ true)
      × (v ≡ node_uid (far d e))

  pub data Walk (start : Text) : ℕ → Text → Type 0 where
    here : Walk start 0 start
    step :
        {n : ℕ} {u v : Text} → Walk start n u → (d : Direction) → Link d u v → Walk start (n + 1) v

  -- A set names an edge that the store does not have.
  abbrev pub Dangling : Type 0
  Dangling =
      (d : Direction) × (u : Text) × (k : Text) × (contains k (edges_at d u g) ≡ true)
      × (get k g.edges ≡ none)

  abbrev pub Found : {A : Type 0} → (A → Type 0) → Option A → Type 0
  Found P none = Dangling
  Found P (some a) = P a

  pub and_then-Found :
      {A B : Type 0} (P : A → Type 0) (Q : B → Type 0) (o : Option A) (f : A → Option B)
      → Found P o
      → ((a : A) → P a → Found Q (f a))
      → Found Q (and_then o f)
  and_then-Found P Q none f h k = h
  and_then-Found P Q (some a) f h k = k a h

  abbrev pub Closed : Text → Frontier → Type 0
  Closed u t = (d : Direction) (v : Text) → Link d u v → In v t.seen

  -- What a later state keeps of an earlier one.
  pub record Grows (s t : Frontier) : Type 0 where
    pub seen_kept : (v : Text) → In v s.seen → In v t.seen
    pub next_kept : (v : Text) → In v s.next → In v t.next
    pub new_next : (v : Text) → In v t.seen → In v s.seen ⊎ In v t.next

  pub Grows-refl : (s : Frontier) → Grows s s
  Grows-refl s = record { seen_kept = λ v h. h; next_kept = λ v h. h; new_next = λ v h. inl h }

  pub Grows-trans : (s t u : Frontier) → Grows s t → Grows t u → Grows s u
  Grows-trans s t u a b = record {
    seen_kept = λ v h. b.seen_kept v (a.seen_kept v h);
    next_kept = λ v h. b.next_kept v (a.next_kept v h);
    new_next = λ v h. elim (b.new_next v h) [
      | inl i ↦ elim (a.new_next v i) [ inl j ↦ inl j | inr j ↦ inr (b.next_kept v j) ]
      | inr i ↦ inr i
    ];
  }

  module _ (start : Text) where
    abbrev pub IsHit : ℕ → NeighborHit → Type 0
    IsHit n h = Walk start h.distance (hit_uid h) × (1 ≤ h.distance) × (h.distance ≤ n)

    pub record IsSearch (n : ℕ) (s : Frontier) : Type 0 where
      pub seen_hits : s.seen ≡ start ∷ map hit_uid s.hits
      pub fresh : NoRepeat s.seen
      pub walked : All (IsHit n) s.hits
      pub reached : All (λ u. Walk start n u) s.next

    add_hit-IsSearch :
        (d : Direction) (m : ℕ) (u : Text) (e : GraphRelationship) (s : Frontier)
        → Walk start m u
        → Link d u (node_uid (far d e))
        → contains (node_uid (far d e)) s.seen ≡ false
        → IsSearch (m + 1) s
        → IsSearch (m + 1) (add_hit d (m + 1) e s)
    add_hit-IsSearch d m u e s w l new v =
        let there = step w d l in
        record {
          seen_hits =
              ap (λ xs. xs ++ (node_uid (far d e) ∷ [])) v.seen_hits
              ∙ ap (◌∷◌ start) (sym (map-append hit_uid s.hits _));
          fresh = NoRepeat-snoc (node_uid (far d e)) s.seen v.fresh new;
          walked =
              All-append (IsHit (m + 1)) s.hits _ v.walked ((there, omega arith, omega arith), tt);
          reached = All-append (λ x. Walk start (m + 1) x) s.next _ v.reached (there, tt);
        }

    add_hit-Grows :
        (d : Direction) (n : ℕ) (e : GraphRelationship) (s : Frontier) → Grows s (add_hit d n e s)
    add_hit-Grows d n e s = record {
      seen_kept = λ v h. In-append_left v s.seen _ h;
      next_kept = λ v h. In-append_left v s.next _ h;
      new_next = λ v h. elim (In-append_cases v s.seen _ h) [
        | inl i ↦ inl i
        | inr i ↦ inr (In-append_right v s.next _ i)
      ];
    }

    abbrev pub Visited : Direction → ℕ → List Text → Frontier → Frontier → Type 0
    Visited d n ks s t =
        IsSearch n t
        × Grows s t
        × ((k : Text) (e : GraphRelationship)
            → contains k ks ≡ true
            → get k g.edges ≡ some e
            → passes wanted e ≡ true
            → In (node_uid (far d e)) t.seen)

    pub visit_edge-Visited :
        (d : Direction) (m : ℕ) (u k : Text) (e : GraphRelationship) (s : Frontier)
        → Walk start m u
        → contains k (edges_at d u g) ≡ true
        → get k g.edges ≡ some e
        → IsSearch (m + 1) s
        → IsSearch (m + 1) (visit_edge wanted d (m + 1) e s)
          × Grows s (visit_edge wanted d (m + 1) e s)
          × (passes wanted e ≡ true
              → In (node_uid (far d e)) (visit_edge wanted d (m + 1) e s).seen)
    unfolding visit_edge
    visit_edge-Visited d m u k e s w named found v = elim (Bool-cases (passes wanted e)) [
      | inr p ↦ rw (p, visit_edge) (v, Grows-refl s, λ q. absurd (cc q))
      | inl p ↦ elim (Bool-cases (contains (node_uid (far d e)) s.seen)) [
        | inl q ↦
            rw (p, q, visit_edge) (v, Grows-refl s, λ r. In-contains (node_uid (far d e)) s.seen q)
        | inr q ↦
            rw (p, q, visit_edge)
              (
                add_hit-IsSearch d m u e s w (k, e, named, found, p, refl) q v,
                add_hit-Grows d (m + 1) e s,
                λ r. In-append_right (node_uid (far d e)) s.seen _ (inl refl),
              )
      ]
    ]
