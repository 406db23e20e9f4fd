-- ===== src/Research/Claims/Judged.antt =====
-- What compare_claims of backend/app/research/contradictions.py returns.
use research_mind_ai.Prelude.{
  ℕ, ◌+◌, ◌≤◌, Text, codes, ◌≡◌, refl, sym, inl, inr, false, Bool-cases, Option, none, some, List,
  [], ◌∷◌, length, keep_if, ltb, ◌==◌, ==_iff, nat_eq, list_eq, if◌then◌else◌, arith, All, All→In,
  In→All, In-keep_if,
}
use research_mind_ai.Prelude.Dict.{Dict, get, Distinct, put-Distinct}
use research_mind_ai.Prelude.Sort.{sort_by-All, length-sort_by}
use research_mind_ai.Retrieval.Scores.{Floats, sort_by_score, by_score}
use research_mind_ai.Retrieval.Indexer.{DocumentChunk}
use research_mind_ai.Llm.Gateway.{Completion, Result, ok, raise}
use research_mind_ai.Llm.Json.{JsonReader, load_json_object}
use research_mind_ai.Research.Claims.{Candidates, candidate_pairs}
use research_mind_ai.Research.Claims.Pairs.{IsPair, candidate_pairs-All}
use research_mind_ai.Research.Claims.Compare.{
  ClaimPaper, ClaimPair, paper_label, find_claim_paper, clamped, clamp_float, clamp_confidence,
  judgement_of, parse_judgement, judged_pair, judge, judge_all, claims_of, add_claims,
  gather_claims, related_as, compare_claims,
}

module _ (fl : Floats) {V : Type 0} (reader : JsonReader fl.F V) (lower : Text → Text) where
  open fl use {F, lt, of_ℕ}

  gather_claims-Distinct :
      (papers : List ClaimPaper) (chunks : List DocumentChunk) (ids : List ℕ)
      (d : Dict Text (List Text))
      → Distinct d
      → Distinct (gather_claims fl reader lower papers chunks ids d)
  unfolding gather_claims
  gather_claims-Distinct papers chunks [] d h = h
  gather_claims-Distinct papers chunks (pid ∷ pids) d h =
      gather_claims-Distinct papers chunks pids _
        (added (find_claim_paper pid papers) (claims_of fl reader lower pid chunks))
    where
      added :
          (o : Option ClaimPaper) (found : List Text)
          → Distinct (add_claims fl reader lower o found d)
      added none found = h
      added (some p) [] = h
      added (some p) (c ∷ cs) = put-Distinct (paper_label p) (c ∷ cs) d h

  -- Where 1 is not less than 0.
  abbrev pub InUnit : F → Type 0
  InUnit x = (lt x (of_ℕ 0) ≡ false) × (lt (of_ℕ 1) x ≡ false)

  module _ (order : lt (of_ℕ 1) (of_ℕ 0) ≡ false) where
    lt_self : (x : F) → lt x x ≡ false
    lt_self x = elim (Bool-cases (lt x x)) [ inl e ↦ absurd (cc (e, fl.lt_asym x x e)) | inr e ↦ e ]

    floor-InUnit : (x : F) → lt (of_ℕ 1) x ≡ false → InUnit (if lt (of_ℕ 0) x then x else of_ℕ 0)
    floor-InUnit x h = elim (Bool-cases (lt (of_ℕ 0) x)) [
      | inl e ↦ rw e (fl.lt_asym (of_ℕ 0) x e, h)
      | inr e ↦ rw e (lt_self (of_ℕ 0), order)
    ]

    clamped-InUnit : (x : F) → InUnit (clamped fl reader lower x)
    clamped-InUnit x = elim (Bool-cases (lt x (of_ℕ 1))) [
      | inl e ↦ rw e (floor-InUnit x (fl.lt_asym x (of_ℕ 1) e))
      | inr e ↦ rw e (floor-InUnit (of_ℕ 1) (lt_self (of_ℕ 1)))
    ]

    clamp_confidence-InUnit : (o : Option V) → InUnit (clamp_confidence fl reader lower o (of_ℕ 0))
    unfolding clamp_confidence
    clamp_confidence-InUnit none = (lt_self (of_ℕ 0), order)
    clamp_confidence-InUnit (some v) = go (reader.to_float v)
      where
        go : (o : Option F) → InUnit (clamp_float fl reader lower (of_ℕ 0) o)
        go none = (lt_self (of_ℕ 0), order)
        go (some x) = clamped-InUnit x

    parse_judgement-InUnit : (raw : Text) → InUnit (parse_judgement fl reader lower raw).1.0
    unfolding parse_judgement
    parse_judgement-InUnit raw = go (load_json_object reader raw)
      where
        go : (o : Option (Dict Text V)) → InUnit (judgement_of fl reader lower o).1.0
        go none = (lt_self (of_ℕ 0), order)
        go (some d) = clamp_confidence-InUnit (get (codes "confidence") d)

    module _ (ask : Candidates → Result Completion) (P : Candidates → Type 0) where
      abbrev Judged : ClaimPair F → Type 0
      Judged p = P p.pair × InUnit p.confidence

      judge_all-Judged :
          (cs : List Candidates)
          → All P cs
          → All Judged (judge_all fl reader lower ask cs)
            × (length (judge_all fl reader lower ask cs) ≤ length cs)
      unfolding judge_all judge
      judge_all-Judged [] a = (tt, omega arith)
      judge_all-Judged (c ∷ cs) a = let (good, few) = judge_all-Judged cs a.1 in go (ask c) good few
        where
          kept :
              (j : Text × (F × Text)) (ps : List (ClaimPair F))
              → InUnit j.1.0
              → All Judged ps
              → length ps ≤ length cs
              → All Judged (elim (judged_pair fl reader lower c j) as (λ _. List (ClaimPair F)) [
                | none ↦ ps
                | some p ↦ p ∷ ps
              ])
                × (length (elim (judged_pair fl reader lower c j) as (λ _. List (ClaimPair F)) [
                  | none ↦ ps
                  | some p ↦ p ∷ ps
                ])
                    ≤ length (c ∷ cs))
          kept (relation, (confidence, reason)) ps u good few =
              elim (Bool-cases (relation == codes "unrelated")) [
                | inl e ↦ rw e (good, omega arith)
                | inr e ↦ rw e (((a.0, u), good), omega arith)
              ]

          go :
              (r : Result Completion)
              → All Judged (judge_all fl reader lower ask cs)
              → length (judge_all fl reader lower ask cs) ≤ length cs
              → All Judged
                  (elim (elim r as (λ _. Option (ClaimPair F)) [
                    | raise e ↦ none
                    | ok x ↦ judged_pair fl reader lower c (parse_judgement fl reader lower x.text)
                  ])
                    as (λ _. List (ClaimPair F)) [
                      | none ↦ judge_all fl reader lower ask cs
                      | some p ↦ p ∷ judge_all fl reader lower ask cs
                    ])
                × (length
                      (elim (elim r as (λ _. Option (ClaimPair F)) [
                        | raise e ↦ none
                        | ok x ↦
                            judged_pair fl reader lower c (parse_judgement fl reader lower x.text)
                      ])
                        as (λ _. List (ClaimPair F)) [
                          | none ↦ judge_all fl reader lower ask cs
                          | some p ↦ p ∷ judge_all fl reader lower ask cs
                        ])
                    ≤ length (c ∷ cs))
          go (raise e) good few = (good, omega arith)
          go (ok x) good few =
              kept (parse_judgement fl reader lower x.text) (judge_all fl reader lower ask cs)
                (parse_judgement-InUnit x.text) good few

    -- Two different relations split the judged pairs.
    length-two_relations :
        (a b : Text) (ps : List (ClaimPair F))
        → (a == b) ≡ false
        → length (keep_if (λ (p : ClaimPair F). p.relation == a) ps)
            + length (keep_if (λ (p : ClaimPair F). p.relation == b) ps)
          ≤ length ps
    length-two_relations a b [] d = omega arith
    length-two_relations a b (p ∷ ps) d = elim (Bool-cases (p.relation == a)) [
      | inl e ↦
          let other : (p.relation == b) ≡ false = rw (sym ((==_iff p.relation a).0 e)) at d in
          rw (e, other) (omega (arith, length-two_relations a b ps d))
      | inr e ↦ elim (Bool-cases (p.relation == b)) [
        | inl f ↦ rw (e, f) (omega (arith, length-two_relations a b ps d))
        | inr f ↦ rw (e, f) (omega (arith, length-two_relations a b ps d))
      ]
    ]

    -- The pair has the relation, its claims are of two different papers, and its confidence is from
    -- 0 to 1.
    abbrev pub IsJudgement : Dict Text (List Text) → Text → ClaimPair F → Type 0
    IsJudgement d relation p = (p.relation ≡ relation) × IsPair d p.pair × InUnit p.confidence

    related_as-All :
        (d : Dict Text (List Text)) (relation : Text) (ps : List (ClaimPair F))
        → All (λ (p : ClaimPair F). IsPair d p.pair × InUnit p.confidence) ps
        → All (IsJudgement d relation) (related_as fl reader lower relation ps)
    unfolding sort_by_score
    related_as-All d relation ps a =
        let wanted = λ (p : ClaimPair F). p.relation == relation in
        sort_by-All (by_score fl (λ (p : ClaimPair F). p.confidence)) (IsJudgement d relation)
          (keep_if wanted ps)
          (In→All (IsJudgement d relation) (keep_if wanted ps) (λ p i.
            let (j, e) = In-keep_if wanted p ps i in
            let good =
              All→In (λ (q : ClaimPair F). IsPair d q.pair × InUnit q.confidence) ps a p j in
            ((==_iff p.relation relation).0 e, good.0, good.1)))

    length-related_as :
        (relation : Text) (ps : List (ClaimPair F))
        → length (related_as fl reader lower relation ps)
          ≡ length (keep_if (λ (p : ClaimPair F). p.relation == relation) ps)
    unfolding sort_by_score
    length-related_as relation ps =
        length-sort_by (by_score fl (λ (p : ClaimPair F). p.confidence))
          (keep_if (λ (p : ClaimPair F). p.relation == relation) ps)

    -- Where 1 is not less than 0, whatever the model answers or raises for a pair: comparing claims
    -- returns at most max_pairs contradictions and agreements together; each has its relation and a
    -- confidence from 0 to 1, and pairs a claim of one paper with a claim of another, under the
    -- titles that the claims are gathered by.
    pub compare_claims_judged :
        (ask : Candidates → Result Completion) (papers : List ClaimPaper)
        (chunks : List DocumentChunk) (ids : List ℕ) (max_pairs : ℕ)
        → let d = gather_claims fl reader lower papers chunks ids [] in
          let out = compare_claims fl reader lower ask papers chunks ids max_pairs in
          All (IsJudgement d (codes "contradiction")) out.0
          × All (IsJudgement d (codes "agreement")) out.1
          × (length out.0 + length out.1 ≤ max_pairs)
    unfolding compare_claims
    compare_claims_judged ask papers chunks ids max_pairs =
        let d = gather_claims fl reader lower papers chunks ids [] in
        let (fine, few) =
          candidate_pairs-All lower d max_pairs (gather_claims-Distinct papers chunks ids [] tt) in
        let pairs = candidate_pairs lower d max_pairs in
        let found = judge_all fl reader lower ask pairs in
        let (good, fewer) = judge_all-Judged ask (IsPair d) pairs fine in
        elim (Bool-cases (ltb (length ids) 2)) [
          | inl e ↦ rw (e, compare_claims) (tt, tt, omega arith)
          | inr e ↦
              rw (e, compare_claims)
                (
                  related_as-All d (codes "contradiction") found good,
                  related_as-All d (codes "agreement") found good,
                  omega (
                    arith,
                    length-related_as (codes "contradiction") found,
                    length-related_as (codes "agreement") found,
                    length-two_relations (codes "contradiction") (codes "agreement") found refl,
                  ),
                )
        ]
