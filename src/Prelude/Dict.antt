-- ===== src/Prelude/Dict.antt =====
-- Python's dict: an association list in insertion order. A key that is set again keeps its place.
use mathlib.Core.Path.{◌≡◌, refl, subst, sym, ap}
use mathlib.Core.Logic.{◌≢◌, inl, inr}
use mathlib.Core.Option.{Option, none, some}
use mathlib.Core.Bool.{false}
use mathlib.Core.List.{List, [], ◌∷◌, ◌++◌}
use native.Mathlib.Omega.{arith}
use research_mind_ai.Prelude.Tests.{if◌then◌else◌, or_else, Bool-cases}
use research_mind_ai.Prelude.Lists.{All, In}
use research_mind_ai.Prelude.Eq.{EqOps, ◌==◌, contains, NoRepeat}

abbrev pub Dict {ℓ κ} : Type ℓ → Type κ → Type (ℓ ⊔ κ)
Dict K V = List (K × V)

module _ {ℓ κ} {K : Type ℓ} {V : Type κ} where
  abbrev pub keys : Dict K V → List K
  keys [] = []
  keys ((j, v) ∷ d) = j ∷ keys d

  abbrev pub values : Dict K V → List V
  values [] = []
  values ((j, v) ∷ d) = v ∷ values d

module _ {ℓ κ} {K : Type ℓ} {V : Type κ} ⦃e : EqOps K⦄ where
  -- d.get(k)
  unfoldable pub get : K → Dict K V → Option V
  get k [] = none
  get k ((j, v) ∷ d) = if j == k then some v else get k d

  -- d[k] = v
  unfoldable pub put : K → V → Dict K V → Dict K V
  put k v [] = (k, v) ∷ []
  put k v ((j, w) ∷ d) = if j == k then (j, v) ∷ d else (j, w) ∷ put k v d

  -- d.pop(k, None)
  unfoldable pub remove : K → Dict K V → Dict K V
  remove k [] = []
  remove k ((j, w) ∷ d) = if j == k then d else (j, w) ∷ remove k d

  -- No key twice.
  abbrev pub Fresh : K → Dict K V → Type κ
  Fresh k d = get k d ≡ none

  abbrev pub Distinct : Dict K V → Type κ
  Distinct [] = Unit
  Distinct ((j, v) ∷ d) = Fresh j d × Distinct d

  pub get-put :
      (k j : K) (v : V) (d : Dict K V) → get j (put k v d) ≡ (if k == j then some v else get j d)
  unfolding get put
  get-put k j v [] = refl
  get-put k j v ((i, w) ∷ d) =
      ground (arith, e.same_iff k j, e.same_iff i k, e.same_iff i j, get-put k j v d)

  pub get-remove :
      (k j : K) (d : Dict K V)
      → Distinct d
      → get j (remove k d) ≡ (if k == j then none else get j d)
  unfolding get remove
  get-remove k j [] h = ground arith
  get-remove k j ((i, w) ∷ d) h =
      ground (arith, e.same_iff k j, e.same_iff i k, e.same_iff i j, get-remove k j d)

  pub put-Distinct : (k : K) (v : V) (d : Dict K V) → Distinct d → Distinct (put k v d)
  unfolding get put
  put-Distinct k v [] h = (refl, tt)
  put-Distinct k v ((i, w) ∷ d) h =
      ground (arith, e.same_iff i k, e.same_iff k i, get-put k i v d, put-Distinct k v d)

  pub remove-Distinct : (k : K) (d : Dict K V) → Distinct d → Distinct (remove k d)
  unfolding get remove
  remove-Distinct k [] h = tt
  remove-Distinct k ((i, w) ∷ d) h = ground (arith, get-remove k i d, remove-Distinct k d)

module _ {ℓ κ} {K : Type ℓ} {V : Type κ} ⦃e : EqOps K⦄ where
  -- d.update(other), and {**d, **other}
  unfoldable pub update : Dict K V → Dict K V → Dict K V
  update d [] = d
  update d ((j, v) ∷ other) = update (put j v d) other

  pub get-update :
      (k : K) (d other : Dict K V)
      → Distinct other
      → get k (update d other) ≡ or_else (get k other) (get k d)
  unfolding update get
  get-update k d [] h = refl
  get-update k d ((j, v) ∷ other) h =
      ground (arith, e.same_iff j k, get-put j k v d, get-update k (put j v d) other h.1)

  pub update-Distinct : (d other : Dict K V) → Distinct d → Distinct (update d other)
  unfolding update
  update-Distinct d [] h = h
  update-Distinct d ((j, v) ∷ other) h = update-Distinct (put j v d) other (put-Distinct j v d h)

module _ {K V : Type 0} ⦃e : EqOps K⦄ where
  -- With no key twice, every entry is the one that its key finds.
  pub get_of_In : (k : K) (v : V) (d : Dict K V) → Distinct d → In (k, v) d → get k d ≡ some v
  unfolding get
  get_of_In k v [] h i = absurd i
  get_of_In k v ((j, w) ∷ d) h (inl p) = ground (arith, e.same_iff j k)
  get_of_In k v ((j, w) ∷ d) h (inr i) = ground (arith, e.same_iff j k, get_of_In k v d h.1 i)

  pub In-get : (k : K) (v : V) (d : Dict K V) → get k d ≡ some v → In (k, v) d
  unfolding get
  In-get k v [] h = cc
  In-get k v ((j, w) ∷ d) h = ground (arith, e.same_iff j k, In-get k v d)

-- A property of all values.
module _ {ℓ κ} {K : Type ℓ} {V : Type 0} ⦃e : EqOps K⦄ (P : V → Type κ) where
  abbrev pub AllValues : Dict K V → Type κ
  AllValues [] = Unit
  AllValues ((j, v) ∷ d) = P v × AllValues d

  pub put-AllValues : (k : K) (v : V) (d : Dict K V) → P v → AllValues d → AllValues (put k v d)
  unfolding put
  put-AllValues k v [] p h = (p, tt)
  put-AllValues k v ((j, w) ∷ d) p h = elim (Bool-cases (j == k)) [
    | inl q ↦ rw q (p, h.1)
    | inr q ↦ rw q (h.0, put-AllValues k v d p h.1)
  ]

  pub get-AllValues : (k : K) (v : V) (d : Dict K V) → AllValues d → get k d ≡ some v → P v
  unfolding get
  get-AllValues k v [] h g = cc
  get-AllValues k v ((j, w) ∷ d) h g = elim (Bool-cases (j == k)) [
    | inl q ↦ let same : w ≡ v = ground arith in subst P same h.0
    | inr q ↦ get-AllValues k v d h.1 (rw q at g)
  ]

  pub values-All : (d : Dict K V) → AllValues d → All P (values d)
  values-All [] h = tt
  values-All ((j, v) ∷ d) h = (h.0, values-All d h.1)

module _ {K V : Type 0} ⦃e : EqOps K⦄ (P : V → Type 0) where
  pub In→AllValues : (d : Dict K V) → ((k : K) (v : V) → In (k, v) d → P v) → AllValues P d
  In→AllValues [] h = tt
  In→AllValues ((j, v) ∷ d) h = (h j v (inl refl), In→AllValues d (λ k w i. h k w (inr i)))

-- A dict is built again from its entries, in their order.
module _ {K : Type 0} ⦃e : EqOps K⦄ where
  fresh-All : (k : K) (ks : List K) → contains k ks ≡ false → All (λ j. k ≢ j) ks
  fresh-All k [] h = tt
  fresh-All k (j ∷ ks) h = (ground (arith, e.same_iff j k, h), fresh-All k ks (ground (arith, h)))

module _ {K V : Type 0} ⦃e : EqOps K⦄ where
  get-none : (k : K) (d : Dict K V) → get k d ≡ none → contains k (keys d) ≡ false
  unfolding get
  get-none k [] h = refl
  get-none k ((j, v) ∷ d) h = ground (arith, e.same_iff j k, get-none k d)

  pub keys-NoRepeat : (d : Dict K V) → Distinct d → NoRepeat (keys d)
  keys-NoRepeat [] h = tt
  keys-NoRepeat ((j, v) ∷ d) h = (fresh-All j (keys d) (get-none j d h.0), keys-NoRepeat d h.1)

  pub put-new :
      (k : K) (v : V) (d : Dict K V) → contains k (keys d) ≡ false → put k v d ≡ d ++ ((k, v) ∷ [])
  unfolding put
  put-new k v [] h = refl
  put-new k v ((j, w) ∷ d) h = ground (arith, put-new k v d)

  pub keys-append : (d f : Dict K V) → keys (d ++ f) ≡ keys d ++ keys f
  keys-append [] f = refl
  keys-append ((j, v) ∷ d) f = ap (◌∷◌ j) (keys-append d f)

  pub put-All :
      (Q : K × V → Type 0) (k : K) (v : V) (d : Dict K V) → Q (k, v) → All Q d → All Q (put k v d)
  unfolding put
  put-All Q k v [] q h = (q, tt)
  put-All Q k v ((j, w) ∷ d) q h = elim (Bool-cases (j == k)) [
    | inl p ↦ rw p (subst (λ x. Q (x, v)) (sym ((e.same_iff j k).0 p)) q, h.1)
    | inr p ↦ rw p (h.0, put-All Q k v d q h.1)
  ]
