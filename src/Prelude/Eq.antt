-- ===== src/Prelude/Eq.antt =====
-- Equality tests as an interface, with numbers, lists and pairs as instances.
use Prim.Native.Nat.{ℕ}
use mathlib.Core.Path.{◌≡◌, refl}
use mathlib.Core.Logic.{◌↔◌, ◌≢◌}
use mathlib.Core.Bool.{Bool, true, false, ◌&&◌, ◌||◌}
use mathlib.Core.List.{List, [], ◌∷◌, ◌++◌}
use native.Mathlib.Omega.{arith}
use research_mind_ai.Prelude.Lists.{In, All, All-append}
use research_mind_ai.Prelude.Tests.{nat_beq, nat_beq_iff}

pub record EqOps {ℓ} (A : Type ℓ) : Type ℓ where
  pub same : A → A → Bool
  pub same_iff : (x y : A) → (same x y ≡ true) ↔ (x ≡ y)

-- The test of the instance, for the types of keys and labels.
module _ {ℓ} {K : Type ℓ} ⦃e : EqOps K⦄ where
  infix 50 ◌==◌
  abbrev pub ◌==◌ : K → K → Bool
  x == y = e.same x y

module _ {ℓ} {A : Type ℓ} ⦃e : EqOps A⦄ where
  pub ==_iff : (a b : A) → ((a == b) ≡ true) ↔ (a ≡ b)
  ==_iff a b = e.same_iff a b

  pub ==_refl : (a : A) → (a == a) ≡ true
  ==_refl a = (e.same_iff a a).1 refl

  pub ne_of_false : (a b : A) → (a == b) ≡ false → a ≢ b
  ne_of_false a b h p = cc (h, (e.same_iff a b).1 p)

  abbrev pub contains : A → List A → Bool
  contains a [] = false
  contains a (x ∷ xs) = x == a || contains a xs

  abbrev pub list_beq : List A → List A → Bool
  list_beq [] [] = true
  list_beq [] (y ∷ ys) = false
  list_beq (x ∷ xs) [] = false
  list_beq (x ∷ xs) (y ∷ ys) = x == y && list_beq xs ys

  pub list_beq_sound : (xs ys : List A) → list_beq xs ys ≡ true → xs ≡ ys
  list_beq_sound [] [] h = refl
  list_beq_sound [] (y ∷ ys) h = cc
  list_beq_sound (x ∷ xs) [] h = cc
  list_beq_sound (x ∷ xs) (y ∷ ys) h = ground (arith, e.same_iff x y, list_beq_sound xs ys)

  list_beq_refl : (xs : List A) → list_beq xs xs ≡ true
  list_beq_refl [] = refl
  list_beq_refl (x ∷ xs) = ground (arith, ==_refl x, list_beq_refl xs)

  pub list_beq_iff : (xs ys : List A) → (list_beq xs ys ≡ true) ↔ (xs ≡ ys)
  list_beq_iff xs ys = (list_beq_sound xs ys, λ p. rw p (list_beq_refl ys))

  instance abbrev pub list_eq : EqOps (List A)
  list_eq = record { same = list_beq; same_iff = list_beq_iff }

instance abbrev pub nat_eq : EqOps ℕ
nat_eq = record { same = nat_beq; same_iff = nat_beq_iff }

module _ {ℓ κ} {A : Type ℓ} {B : Type κ} ⦃e : EqOps A⦄ ⦃f : EqOps B⦄ where
  abbrev pub pair_beq : A × B → A × B → Bool
  pair_beq p q = p.0 == q.0 && p.1 == q.1

  pub pair_beq_iff : (p q : A × B) → (pair_beq p q ≡ true) ↔ (p ≡ q)
  pair_beq_iff (a, b) (c, d) = (
    λ h. ground (arith, e.same_iff a c, f.same_iff b d),
    λ h. ground (arith, e.same_iff a c, f.same_iff b d),
  )

  instance abbrev pub pair_eq : EqOps (A × B)
  pair_eq = record { same = pair_beq; same_iff = pair_beq_iff }

module _ {A : Type 0} ⦃e : EqOps A⦄ where
  pub In-contains : (a : A) (xs : List A) → contains a xs ≡ true → In a xs
  In-contains a [] h = cc
  In-contains a (x ∷ xs) h = ground (arith, e.same_iff x a, In-contains a xs)

  pub contains_of_In : (a : A) (xs : List A) → In a xs → contains a xs ≡ true
  contains_of_In a [] h = absurd h
  contains_of_In a (x ∷ xs) h = ground (arith, e.same_iff x a, contains_of_In a xs)

  abbrev pub NoRepeat : List A → Type 0
  NoRepeat [] = Unit
  NoRepeat (x ∷ xs) = All (λ y. x ≢ y) xs × NoRepeat xs

  pub NoRepeat-snoc :
      (n : A) (xs : List A) → NoRepeat xs → contains n xs ≡ false → NoRepeat (xs ++ (n ∷ []))
  NoRepeat-snoc n [] h fresh = (tt, tt)
  NoRepeat-snoc n (x ∷ xs) h fresh = (
    All-append (λ y. x ≢ y) xs (n ∷ []) h.0 (ground (arith, e.same_iff x n), tt),
    NoRepeat-snoc n xs h.1 (ground arith),
  )
