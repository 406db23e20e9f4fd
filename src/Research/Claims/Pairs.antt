-- ===== src/Research/Claims/Pairs.antt =====
-- The pairs of claims that backend/app/research/contradictions.py compares.
use research_mind_ai.Prelude.{
  ℕ, ◌≤◌, Text, ◌≢◌, sym, List, [], ◌∷◌, map, length, length-map, length-take-le, take, keep_if,
  nat_eq, list_eq, arith, All, All-append, All-map, All-take, In→All, In, In-map, In-keep_if,
  NoRepeat,
}
use mathlib.Core.Path.{subst}
use research_mind_ai.Prelude.Dict.{Dict, keys, Distinct, keys-NoRepeat}
use research_mind_ai.Prelude.Sort.{sort_by, sort_by-All}
use research_mind_ai.Research.Claims.{
  Candidates, Scored, is_topical, score_pair, pairs_of_claims, pairs_with, scored_pairs,
  more_topical, candidate_pairs,
}

-- Each claim of the pair is one of its paper, and the papers are different.
abbrev pub IsPair : Dict Text (List Text) → Candidates → Type 0
IsPair d c =
    (ls : List Text) × (rs : List Text) × In (c.left_paper, ls) d
    × In c.left_claim ls
    × In (c.right_paper, rs) d
    × In c.right_claim rs
    × (c.left_paper ≢ c.right_paper)

module _ (lower : Text → Text) (d : Dict Text (List Text)) where
  abbrev IsScored : Scored lower → Type 0
  IsScored s = IsPair d s.1

  pairs_of_claims-All :
      (left : Text) (ls : List Text) (all : List Text) (right : Text) (rs : List Text)
      → In (left, all) d
      → All (λ c. In c all) ls
      → In (right, rs) d
      → left ≢ right
      → All IsScored (pairs_of_claims lower left ls right rs)
  unfolding pairs_of_claims
  pairs_of_claims-All left [] all right rs i a j apart = tt
  pairs_of_claims-All left (c ∷ cs) all right rs i a j apart =
      let made = map (score_pair lower left c right) rs in
      All-append IsScored (keep_if (is_topical lower) made) _
        (In→All IsScored (keep_if (is_topical lower) made) (λ s k.
          let (l, _) = In-keep_if (is_topical lower) s made k in
          let (r, m, e) = In-map (score_pair lower left c right) s rs l in
          subst IsScored (sym e) (all, rs, i, a.0, j, m, apart)))
        (pairs_of_claims-All left cs all right rs i a.1 j apart)

  pairs_with-All :
      (left : Text) (ls : List Text) (rest : Dict Text (List Text))
      → In (left, ls) d
      → All (λ e. In e d) rest
      → All (λ k. left ≢ k) (keys rest)
      → All IsScored (pairs_with lower left ls rest)
  unfolding pairs_with
  pairs_with-All left ls [] i a apart = tt
  pairs_with-All left ls ((right, rs) ∷ rest) i a apart =
      All-append IsScored (pairs_of_claims lower left ls right rs) _
        (pairs_of_claims-All left ls ls right rs i (In→All (λ c. In c ls) ls (λ c k. k)) a.0
          apart.0)
        (pairs_with-All left ls rest i a.1 apart.1)

  scored_pairs-All :
      (part : Dict Text (List Text))
      → All (λ e. In e d) part
      → NoRepeat (keys part)
      → All IsScored (scored_pairs lower part)
  unfolding scored_pairs
  scored_pairs-All [] a n = tt
  scored_pairs-All ((left, ls) ∷ rest) a n =
      All-append IsScored (pairs_with lower left ls rest) _
        (pairs_with-All left ls rest a.0 a.1 n.0) (scored_pairs-All rest a.1 n.1)

  pub candidate_pairs-All :
      (max_pairs : ℕ)
      → Distinct d
      → All (IsPair d) (candidate_pairs lower d max_pairs)
        × (length (candidate_pairs lower d max_pairs) ≤ max_pairs)
  unfolding candidate_pairs
  candidate_pairs-All max_pairs distinct_titles =
      let sorted = sort_by (more_topical lower) (scored_pairs lower d) in
      let good = sort_by-All (more_topical lower) IsScored (scored_pairs lower d) (
        scored_pairs-All d (In→All (λ e. In e d) d (λ e i. i)) (keys-NoRepeat d distinct_titles)) in
      (
        All-map (IsPair d) (λ (s : Scored lower). s.1) (take max_pairs sorted)
            (All-take IsScored max_pairs sorted good),
        omega (
          arith,
          length-map (λ (s : Scored lower). s.1) (take max_pairs sorted),
          length-take-le max_pairs sorted,
        ),
      )
