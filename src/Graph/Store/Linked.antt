-- ===== src/Graph/Store/Linked.antt =====
-- The indices of the graph store (backend/app/graph/store.py) name every edge at both ends.
use research_mind_ai.Prelude.{
  Text, ◌≡◌, refl, sym, ap, ◌∙◌, inl, inr, Bool, true, false, not, ◌||◌, ◌&&◌, Bool-cases,
  Option-cases, none, some, List, [], ◌∷◌, ◌++◌, keep_if, contains, ◌==◌, EqOps, nat_eq, list_eq,
  ==_iff, ==_refl, ne_of_false, if◌then◌else◌, arith,
}
use mathlib.Core.Path.{subst}
use research_mind_ai.Prelude.Dict.{get, Distinct, get-put, get-remove, remove-Distinct}
use research_mind_ai.Graph.Store.{
  GraphRelationship, node_uid, Sets, Store, members, add_member, discard, drop_edge, detach_one,
  detach,
}

module _ {K : Type 0} ⦃e : EqOps K⦄ where
  pub contains-add_member :
      (k x : K) (d : Sets K) (j y : K)
      → contains y (members j (add_member k x d)) ≡ (contains y (members j d) || (k == j && x == y))
  unfolding members add_member
  contains-add_member k x d j y = ground (
    arith,
    get-put k j (if contains x (members k d) then members k d else x ∷ members k d) d,
    ==_iff k j,
    ==_iff x y,
  )

  contains-keep :
      (x y : K) (xs : List K)
      → contains y (keep_if (λ z. not (z == x)) xs) ≡ (contains y xs && not (y == x))
  contains-keep x y [] = refl
  contains-keep x y (z ∷ zs) =
      ground (arith, ==_iff z y, ==_iff z x, ==_iff y x, contains-keep x y zs)

  contains-discard :
      (k x : K) (d : Sets K) (j y : K)
      → contains y (members j (discard k x d))
        ≡ (contains y (members j d) && not (k == j && y == x))
  unfolding members discard
  contains-discard k x d j y = ground (
    arith,
    get-put k j (keep_if (λ y. not (y == x)) (members k d)) d,
    ==_iff k j,
    contains-keep x y (members k d),
  )

-- Each edge stands in the sets of its two ends.
pub record IsLinked (g : Store) : Type 0 where
  pub edges_distinct : Distinct g.edges
  pub outgoing_distinct : Distinct g.outgoing
  pub incoming_distinct : Distinct g.incoming
  pub nodes_distinct : Distinct g.nodes
  pub starts :
      (k : Text) (e : GraphRelationship)
      → get k g.edges ≡ some e
      → contains k (members (node_uid e.start) g.outgoing) ≡ true
  pub ends :
      (k : Text) (e : GraphRelationship)
      → get k g.edges ≡ some e
      → contains k (members (node_uid e.end) g.incoming) ≡ true

module _ {K : Type 0} ⦃e : EqOps K⦄ where
  contains-append :
      (x : K) (xs ys : List K) → contains x (xs ++ ys) ≡ (contains x xs || contains x ys)
  contains-append x [] ys = refl
  contains-append x (z ∷ zs) ys = ground (arith, contains-append x zs ys)

  contains-new :
      (x : K) (xs ys : List K)
      → contains x (keep_if (λ y. not (contains y xs)) ys) ≡ (contains x ys && not (contains x xs))
  contains-new x xs [] = refl
  contains-new x xs (z ∷ zs) = elim (Bool-cases (z == x)) [
    | inl p ↦
        let q : z ≡ x = (==_iff z x).0 p in
        rw (q, ==_refl) (ground (arith, ==_refl x, contains-new x xs zs))
    | inr p ↦ ground (arith, contains-new x xs zs)
  ]

  pub contains-union :
      (x : K) (xs ys : List K)
      → contains x (xs ++ keep_if (λ y. not (contains y xs)) ys) ≡ (contains x xs || contains x ys)
  contains-union x xs ys =
      ground
        (arith, contains-append x xs (keep_if (λ y. not (contains y xs)) ys), contains-new x xs ys)

untouched : (b c : Bool) {d : Bool} → d ≡ false → (b && not (c && d)) ≡ b
untouched b c h = ground arith

pub detach_one-none : (k : Text) (g : Store) → get k g.edges ≡ none → detach_one k g ≡ g
unfolding detach_one
detach_one-none k g h = rw (h, detach_one) refl

pub detach_one-some :
    (k : Text) (e : GraphRelationship) (g : Store)
    → get k g.edges ≡ some e
    → detach_one k g ≡ drop_edge k e g
unfolding detach_one
detach_one-some k e g h = rw (h, detach_one) refl

keeps_absent :
    (k j : Text) (g : Store)
    → get k g.edges ≡ none
    → get j g.edges ≡ (if k == j then none else get j g.edges)
keeps_absent k j g out = elim (Bool-cases (k == j)) [
  | inl p ↦
      ap (λ i. get i g.edges) (sym ((==_iff k j).0 p))
      ∙ (out ∙ ap (λ b. if b then none else get j g.edges) (sym p))
  | inr p ↦ ap (λ b. if b then none else get j g.edges) (sym p)
]

edges-detach_one :
    (k j : Text) (g : Store)
    → Distinct g.edges
    → get j (detach_one k g).edges ≡ (if k == j then none else get j g.edges)
unfolding drop_edge
edges-detach_one k j g h = elim (Option-cases (get k g.edges)) [
  | inl out ↦ rw (detach_one-none k g out) (keeps_absent k j g out)
  | inr (e, here) ↦ rw (detach_one-some k e g here) (get-remove k j g.edges h)
]

pub edges-detach_one-Distinct :
    (k : Text) (g : Store) → Distinct g.edges → Distinct (detach_one k g).edges
unfolding drop_edge
edges-detach_one-Distinct k g h = elim (Option-cases (get k g.edges)) [
  | inl out ↦ subst (λ x. Distinct x.edges) (sym (detach_one-none k g out)) h
  | inr (e, here) ↦
      subst (λ x. Distinct x.edges) (sym (detach_one-some k e g here)) (remove-Distinct k g.edges h)
]

outgoing-detach_one :
    (k u y : Text) (g : Store)
    → (y == k) ≡ false
    → contains y (members u (detach_one k g).outgoing) ≡ contains y (members u g.outgoing)
unfolding drop_edge
outgoing-detach_one k u y g h = elim (Option-cases (get k g.edges)) [
  | inl out ↦ ap (λ x. contains y (members u x.outgoing)) (detach_one-none k g out)
  | inr (e, here) ↦
      ap (λ x. contains y (members u x.outgoing)) (detach_one-some k e g here)
      ∙ (contains-discard (node_uid e.start) k g.outgoing u y
          ∙ untouched (contains y (members u g.outgoing)) (node_uid e.start == u) h)
]

incoming-detach_one :
    (k u y : Text) (g : Store)
    → (y == k) ≡ false
    → contains y (members u (detach_one k g).incoming) ≡ contains y (members u g.incoming)
unfolding drop_edge
incoming-detach_one k u y g h = elim (Option-cases (get k g.edges)) [
  | inl out ↦ ap (λ x. contains y (members u x.incoming)) (detach_one-none k g out)
  | inr (e, here) ↦
      ap (λ x. contains y (members u x.incoming)) (detach_one-some k e g here)
      ∙ (contains-discard (node_uid e.end) k g.incoming u y
          ∙ untouched (contains y (members u g.incoming)) (node_uid e.end == u) h)
]

-- What detaching leaves: the edges that are not named, still in the sets of their ends.
pub edges-detach :
    (ks : List Text) (g : Store) (j : Text) (e : GraphRelationship)
    → Distinct g.edges
    → get j (detach ks g).edges ≡ some e
    → (get j g.edges ≡ some e) × (contains j ks ≡ false)
unfolding detach
edges-detach [] g j e h p = (p, refl)
edges-detach (k ∷ ks) g j e h p =
    let (q, out) = edges-detach ks (detach_one k g) j e (edges-detach_one-Distinct k g h) p in
    let r = sym (edges-detach_one k j g h) ∙ q in
    elim (Bool-cases (k == j)) [
      | inl same ↦ absurd (cc (rw same at r))
      | inr other ↦ (rw other at r, rw other out)
    ]

pub sets-detach :
    (ks : List Text) (g : Store) (u y : Text)
    → contains y ks ≡ false
    → (contains y (members u (detach ks g).outgoing) ≡ contains y (members u g.outgoing))
      × (contains y (members u (detach ks g).incoming) ≡ contains y (members u g.incoming))
unfolding detach
sets-detach [] g u y h = (refl, refl)
sets-detach (k ∷ ks) g u y h =
    let other = or_left (k == y) (contains y ks) h in
    let (p, q) = sets-detach ks (detach_one k g) u y (or_right (k == y) (contains y ks) h) in
    (
      p ∙ outgoing-detach_one k u y g (flip k y other),
      q ∙ incoming-detach_one k u y g (flip k y other),
    )
  where
    or_left : (a b : Bool) → (a || b) ≡ false → a ≡ false
    or_left true b h = h
    or_left false b h = refl

    or_right : (a b : Bool) → (a || b) ≡ false → b ≡ false
    or_right true b h = absurd (cc h)
    or_right false b h = h

    flip : (a b : Text) → (a == b) ≡ false → (b == a) ≡ false
    flip a b h = elim (Bool-cases (b == a)) [
      | inl p ↦ absurd (ne_of_false a b h (sym ((==_iff b a).0 p)))
      | inr p ↦ p
    ]
