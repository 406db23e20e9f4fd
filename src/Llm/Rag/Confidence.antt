-- ===== src/Llm/Rag/Confidence.antt =====
-- RagAnswer.confidence of backend/app/llm/rag.py.
use research_mind_ai.Prelude.{◌≡◌, refl, inl, inr, true, false, Bool-cases, Option, none, some}
use research_mind_ai.Retrieval.Scores.{Floats}
use research_mind_ai.Retrieval.Service.{is_empty}
use research_mind_ai.Llm.Rag.{
  Verification, RagAnswer, Outside, rag_confidence, base_confidence, smaller, hundredths, judged,
}

module _ (fl : Floats) {V : Type 0} (out : Outside fl.F V) where
  open fl use {F, lt, of_ℕ}

  lt_irrefl : (x : F) → lt x x ≡ false
  lt_irrefl x = elim (Bool-cases (lt x x)) [ inl e ↦ absurd (cc (e, fl.lt_asym x x e)) | inr e ↦ e ]

  -- Python's min is above neither of the two.
  smaller_right : (a c : F) → lt c (smaller fl out a c) ≡ false
  smaller_right a c = elim (Bool-cases (lt c a)) [ inl e ↦ rw e (lt_irrefl c) | inr e ↦ rw e e ]

  smaller_left : (a c d : F) → lt c d ≡ false → lt d a ≡ false → lt d (smaller fl out a c) ≡ false
  smaller_left a c d h k = elim (Bool-cases (lt c a)) [
    | inl e ↦ absurd (cc (e, fl.ge_trans c d a h k))
    | inr e ↦ rw e k
  ]

  judged_capped :
      (v : Verification F V) (score : F)
      → v.supported ≡ false
      → lt (hundredths fl out 35) (judged fl out (some v) score) ≡ false
  judged_capped v score e = rw e (smaller_right score (hundredths fl out 35))

  -- Where 1 is not less than 0.35: an answer without sources has confidence 0; any other has the
  -- rounding of a number that is at most 1, and at most 0.35 if the verifier found the answer
  -- unsupported, whatever the grade, the citations and the verifier's own confidence are.
  pub rag_confidence_capped :
      (r : RagAnswer F V)
      → lt (of_ℕ 1) (hundredths fl out 35) ≡ false
      → (is_empty r.sources ≡ true → rag_confidence fl out r ≡ of_ℕ 0)
        × (is_empty r.sources ≡ false
            → (x : F) × (rag_confidence fl out r ≡ out.round x)
              × (lt (of_ℕ 1) x ≡ false)
              × ((v : Verification F V)
                  → r.verification ≡ some v
                  → v.supported ≡ false
                  → lt (hundredths fl out 35) x ≡ false))
  unfolding rag_confidence
  rag_confidence_capped r order = (
    λ e. rw (e, rag_confidence) refl,
    λ e. (
      smaller fl out (judged fl out r.verification (base_confidence fl out r)) (of_ℕ 1),
      rw (e, rag_confidence) refl,
      smaller_right (judged fl out r.verification (base_confidence fl out r)) (of_ℕ 1),
      λ v q unsupported.
          smaller_left (judged fl out r.verification (base_confidence fl out r)) (of_ℕ 1)
            (hundredths fl out 35) order
            (capped r.verification v (base_confidence fl out r) q unsupported),
    ),
  )
    where
      capped :
          (o : Option (Verification F V)) (v : Verification F V) (score : F)
          → o ≡ some v
          → v.supported ≡ false
          → lt (hundredths fl out 35) (judged fl out o score) ≡ false
      capped none v score q unsupported = absurd (cc q)
      capped (some w) v score q unsupported =
          let same : w ≡ v = cc q in rw same (judged_capped v score unsupported)
