-- ===== src/Prelude/Sort.antt =====
-- Python's stable sort. `before x y` says that `x` may stand in front of `y`; equals keep their order.
use Prim.Native.Nat.{ℕ, zero, suc, ◌+◌}
use mathlib.Core.Path.{◌≡◌, refl}
use mathlib.Core.Logic.{◌⊎◌, inl, inr}
use mathlib.Core.Bool.{Bool, true, false}
use mathlib.Core.List.{List, [], ◌∷◌, map, Perm}
use mathlib.Core.List.Perm
use native.Mathlib.Omega.{arith}
use research_mind_ai.Prelude.Tests.{if◌then◌else◌, Bool-cases}
use research_mind_ai.Prelude.Lists.{All, In, length, take, All-take}

module _ {ℓ} {A : Type ℓ} (before : A → A → Bool) where
  unfoldable pub insert_sorted : A → List A → List A
  insert_sorted x [] = x ∷ []
  insert_sorted x (y ∷ ys) = if before x y then x ∷ y ∷ ys else y ∷ insert_sorted x ys

  unfoldable pub sort_by : List A → List A
  unfolding insert_sorted
  sort_by [] = []
  sort_by (x ∷ xs) = insert_sorted x (sort_by xs)

  -- Every element may stand in front of all that follow it.
  abbrev pub IsSorted : List A → Type 0
  IsSorted [] = Unit
  IsSorted (x ∷ xs) = All (λ y. before x y ≡ true) xs × IsSorted xs

  insert_sorted-perm : (x : A) (ys : List A) → Perm (insert_sorted x ys) (x ∷ ys)
  unfolding insert_sorted
  insert_sorted-perm x [] = Perm.refl (x ∷ [])
  insert_sorted-perm x (y ∷ ys) = elim (Bool-cases (before x y)) [
    | inl e ↦ rw e (Perm.refl (x ∷ y ∷ ys))
    | inr e ↦ rw e (Perm.trans (Perm.cons y (insert_sorted-perm x ys)) (Perm.swap x y ys))
  ]

  pub sort_by-perm : (xs : List A) → Perm (sort_by xs) xs
  unfolding sort_by
  sort_by-perm [] = Perm.refl []
  sort_by-perm (x ∷ xs) =
      Perm.trans (insert_sorted-perm x (sort_by xs)) (Perm.cons x (sort_by-perm xs))

  -- Sorting permutes what a function reads off the elements.
  module _ {B : Type 0} (f : A → B) where
    insert_sorted-map-perm :
        (x : A) (ys : List A) → Perm (map f (insert_sorted x ys)) (f x ∷ map f ys)
    unfolding insert_sorted
    insert_sorted-map-perm x [] = Perm.refl (f x ∷ [])
    insert_sorted-map-perm x (y ∷ ys) = elim (Bool-cases (before x y)) [
      | inl e ↦ rw e (Perm.refl (f x ∷ f y ∷ map f ys))
      | inr e ↦ rw e (
          Perm.trans (Perm.cons (f y) (insert_sorted-map-perm x ys))
            (Perm.swap (f x) (f y) (map f ys)))
    ]

    pub sort_by-map-perm : (xs : List A) → Perm (map f (sort_by xs)) (map f xs)
    unfolding sort_by
    sort_by-map-perm [] = Perm.refl []
    sort_by-map-perm (x ∷ xs) =
        Perm.trans (insert_sorted-map-perm x (sort_by xs)) (Perm.cons (f x) (sort_by-map-perm xs))

  module _ {κ} (P : A → Type κ) where
    pub insert_sorted-All : (x : A) (ys : List A) → P x → All P ys → All P (insert_sorted x ys)
    unfolding insert_sorted
    insert_sorted-All x [] p h = (p, tt)
    insert_sorted-All x (y ∷ ys) p h = elim (Bool-cases (before x y)) [
      | inl e ↦ rw e (p, h)
      | inr e ↦ rw e (h.0, insert_sorted-All x ys p h.1)
    ]

    pub sort_by-All : (xs : List A) → All P xs → All P (sort_by xs)
    unfolding sort_by
    sort_by-All [] h = tt
    sort_by-All (x ∷ xs) h = insert_sorted-All x (sort_by xs) h.0 (sort_by-All xs h.1)

  pub IsSorted-take : (n : ℕ) (xs : List A) → IsSorted xs → IsSorted (take n xs)
  IsSorted-take zero xs h = tt
  IsSorted-take (suc n) [] h = tt
  IsSorted-take (suc n) (x ∷ xs) h =
      (All-take (λ y. before x y ≡ true) n xs h.0, IsSorted-take n xs h.1)

  pub length-sort_by : (xs : List A) → length (sort_by xs) ≡ length xs
  unfolding sort_by
  length-sort_by [] = refl
  length-sort_by (x ∷ xs) = omega (arith, length-insert x (sort_by xs), length-sort_by xs)
    where
      length-insert : (x : A) (ys : List A) → length (insert_sorted x ys) ≡ length ys + 1
      length-insert x [] = refl
      length-insert x (y ∷ ys) = ground (arith, length-insert x ys)

  module _ (total : (x y : A) → before x y ≡ false → before y x ≡ true)
      (trans : (x y z : A) → before x y ≡ true → before y z ≡ true → before x z ≡ true) where
    All-trans :
        (x y : A) (zs : List A)
        → before x y ≡ true
        → All (λ z. before y z ≡ true) zs
        → All (λ z. before x z ≡ true) zs
    All-trans x y [] e h = tt
    All-trans x y (z ∷ zs) e h = (trans x y z e h.0, All-trans x y zs e h.1)

    insert_sorted-IsSorted : (x : A) (ys : List A) → IsSorted ys → IsSorted (insert_sorted x ys)
    unfolding insert_sorted
    insert_sorted-IsSorted x [] h = (tt, tt)
    insert_sorted-IsSorted x (y ∷ ys) h = elim (Bool-cases (before x y)) [
      | inl e ↦ rw e ((e, All-trans x y ys e h.0), h)
      | inr e ↦ rw e (
        insert_sorted-All (λ z. before y z ≡ true) x ys (total x y e) h.0,
        insert_sorted-IsSorted x ys h.1,
      )
    ]

    pub sort_by-IsSorted : (xs : List A) → IsSorted (sort_by xs)
    unfolding sort_by
    sort_by-IsSorted [] = tt
    sort_by-IsSorted (x ∷ xs) = insert_sorted-IsSorted x (sort_by xs) (sort_by-IsSorted xs)

-- Sorting loses no element.
module _ {A : Type 0} (before : A → A → Bool) (a : A) where
  insert_sorted-In : (x : A) (ys : List A) → (a ≡ x) ⊎ In a ys → In a (insert_sorted before x ys)
  unfolding insert_sorted
  insert_sorted-In x [] h = h
  insert_sorted-In x (y ∷ ys) (inl p) = ground (arith, insert_sorted-In x ys (inl p))
  insert_sorted-In x (y ∷ ys) (inr (inl p)) = ground arith
  insert_sorted-In x (y ∷ ys) (inr (inr i)) = ground (arith, insert_sorted-In x ys (inr i))

  pub sort_by-In : (xs : List A) → In a xs → In a (sort_by before xs)
  unfolding sort_by
  sort_by-In [] h = h
  sort_by-In (x ∷ xs) (inl e) = insert_sorted-In x (sort_by before xs) (inl e)
  sort_by-In (x ∷ xs) (inr i) = insert_sorted-In x (sort_by before xs) (inr (sort_by-In xs i))
