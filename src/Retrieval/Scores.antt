-- ===== src/Retrieval/Scores.antt =====
-- Floating-point scores. The arithmetic is the platform's, so it is a parameter; of the comparison
-- the sorts rely on two laws, which hold of floats that are not NaN.
use research_mind_ai.Prelude.{ℕ, ◌≡◌, Bool, true, false, not, arith, ltb}
use research_mind_ai.Prelude.Sort.{sort_by, IsSorted, sort_by-IsSorted}
use research_mind_ai.Prelude.{List, ◌+◌, ◌-◌, ◌*◌, ◌/◌}

pub record Floats : Type 1 where
  pub F : Type 0
  pub of_ℕ : ℕ → F
  pub add : F → F → F
  pub sub : F → F → F
  pub mul : F → F → F
  pub div : F → F → F
  pub log : F → F
  pub half : F
  pub lt : F → F → Bool
  pub lt_asym : (x y : F) → lt x y ≡ true → lt y x ≡ false
  pub ge_trans : (x y z : F) → lt x y ≡ false → lt y z ≡ false → lt x z ≡ false

module _ (fl : Floats) {A : Type 0} (score : A → fl.F) where
  -- The order of `sort(key=score, reverse=True)`: equal scores keep their order.
  abbrev pub by_score : A → A → Bool
  by_score x y = not (fl.lt (score x) (score y))

  unfoldable pub sort_by_score : List A → List A
  sort_by_score xs = sort_by by_score xs

  pub sort_by_score-IsSorted : (xs : List A) → IsSorted by_score (sort_by_score xs)
  unfolding sort_by_score
  sort_by_score-IsSorted xs =
      sort_by-IsSorted by_score (λ x y h. ground (arith, fl.lt_asym (score x) (score y)))
        (λ x y z h k. ground (arith, fl.ge_trans (score x) (score y) (score z))) xs

-- Natural numbers as scores: an instance to run the definitions on.
pub nat_asym : (x y : ℕ) → ltb x y ≡ true → ltb y x ≡ false
nat_asym x y h = ground arith

pub nat_trans : (x y z : ℕ) → ltb x y ≡ false → ltb y z ≡ false → ltb x z ≡ false
nat_trans x y z h k = ground arith

abbrev pub nat_floats : Floats
nat_floats = record {
  F = ℕ;
  of_ℕ = λ n. n;
  add = λ a b. a + b;
  sub = λ a b. a - b;
  mul = λ a b. a * b;
  div = λ a b. a / b;
  log = λ a. a;
  half = 1;
  lt = ltb;
  lt_asym = nat_asym;
  ge_trans = nat_trans;
}
