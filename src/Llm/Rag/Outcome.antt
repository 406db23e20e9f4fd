-- ===== src/Llm/Rag/Outcome.antt =====
-- Calls of backend/app/llm/rag.py that return or raise, and packing under a property of passages.
use research_mind_ai.Prelude.{
  ℕ, ◌+◌, codes, ◌-◌, Text, ◌≡◌, refl, ◌⊎◌, inl, inr, Bool-cases, Option-cases, Option, none, some,
  List, [], ◌∷◌, nat_eq, list_eq, All, All-append, leb, ltb,
}
use research_mind_ai.Prelude.Dict.{Dict, get}
use research_mind_ai.Retrieval.Scores.{Floats}
use research_mind_ai.Retrieval.Service.{RetrievedChunk}
use research_mind_ai.Llm.Context.{
  Passages, PackedContext, pack_context, pack_from, pack_one, estimate_tokens, shrink_by_extraction,
  reduced_to,
}
use research_mind_ai.Llm.Gateway.{Usage, Completion, Failure, Result, ok, raise}
use research_mind_ai.Llm.Rag.{
  Verification, Request, Outside, on_success, verify_answer, verification_of, float_of, list_of,
  parse_json_response,
}

-- Packing keeps a property of passages that a change of the text keeps.
module _ {C : Type 0} (passages : Passages C) (lower : Text → Text) (query : Text) (P : C → Type 0)
    (stable : (t : Text) (c : C) → P c → P (passages.with_content t c)) where
  reduced_to-P :
      (c : C) (ts : List Text) (d : C) → P c → reduced_to passages lower query c ts ≡ some d → P d
  reduced_to-P c [] d p h = absurd (cc h)
  reduced_to-P c (s ∷ ss) d p h = carry h (stable _ c p)
    where
      carry : {x y : C} → some x ≡ some y → P x → P y
      carry {x} {y} e p = let q : x ≡ y = cc e in rw q at p

  pack_one-All :
      (budget : ℕ) (c : C) (p : PackedContext C)
      → P c
      → All P p.chunks
      → All P (pack_one passages lower query budget c p).chunks
  unfolding pack_one shrink_by_extraction
  pack_one-All budget c p good a =
      elim (Bool-cases (leb (p.used_tokens + estimate_tokens (passages.content c)) budget)) [
        | inl q ↦ rw (q, pack_one) (All-append P p.chunks (c ∷ []) a (good, tt))
        | inr q ↦ elim (Bool-cases (ltb (budget - p.used_tokens) 40)) [
          | inl r ↦ rw (q, r, pack_one) a
          | inr r ↦
              elim (Option-cases
                (shrink_by_extraction passages lower query c (budget - p.used_tokens))) [
                  | inl s ↦ rw (q, r, s, pack_one) a
                  | inr (d, s) ↦
                      rw (q, r, s, pack_one)
                        (All-append P p.chunks (d ∷ []) a (reduced_to-P c _ d good s, tt))
                ]
        ]
      ]

  pack_from-All :
      (budget : ℕ) (cs : List C) (p : PackedContext C)
      → All P cs
      → All P p.chunks
      → All P (pack_from passages lower query budget cs p).chunks
  unfolding pack_from
  pack_from-All budget [] p good a = a
  pack_from-All budget (c ∷ cs) p good a =
      pack_from-All budget cs (pack_one passages lower query budget c p) good.1
        (pack_one-All budget c p good.0 a)

  pub pack_context-All :
      (cs : List C) (max_tokens reserved : ℕ)
      → All P cs
      → All P (pack_context passages lower query cs max_tokens reserved).chunks
  unfolding pack_context
  pack_context-All cs max_tokens reserved good = pack_from-All (max_tokens - reserved) cs _ good tt

module _ {F V : Type 0} (out : Outside F V) where
  -- The exception is one that the model's call or a coercion raised.
  abbrev pub IsFromModel : Failure → Type 0
  IsFromModel e =
      ((q : Request F) × (out.ask q ≡ raise e))
      ⊎ (((v : V) × (out.to_float v ≡ raise e)) ⊎ ((v : V) × (out.to_list v ≡ raise e)))

  -- It returns what has the property, or raises what the model or a coercion did.
  abbrev pub Outcome : {A : Type 0} → (A → Type 0) → Result A → Type 0
  Outcome P (ok a) = P a
  Outcome P (raise e) = IsFromModel e

  pub on_success-Outcome :
      {A B : Type 0} (P : A → Type 0) (Q : B → Type 0) (r : Result A) (f : A → Result B)
      → Outcome P r
      → ((a : A) → P a → Outcome Q (f a))
      → Outcome Q (on_success r f)
  on_success-Outcome P Q (ok a) f h g = g a h
  on_success-Outcome P Q (raise e) f h g = h

  abbrev pub Any : {A : Type 0} → A → Type 0
  Any a = Unit

  pub ask-Outcome :
      (P : Completion → Type 0) (q : Request F)
      → ((c : Completion) → out.ask q ≡ ok c → P c)
      → Outcome P (out.ask q)
  ask-Outcome P q h = go (out.ask q) refl
    where
      go : (r : Result Completion) → out.ask q ≡ r → Outcome P r
      go (ok c) e = h c e
      go (raise f) e = inl (q, e)

module _ (fl : Floats) {V : Type 0} (out : Outside fl.F V) where
  open fl use {F}

  float_of-Outcome : (o : Option V) → Outcome out (Any out) (float_of fl out o)
  float_of-Outcome none = tt
  float_of-Outcome (some v) = go (out.to_float v) refl
    where
      go : (r : Result F) → out.to_float v ≡ r → Outcome out (Any out) r
      go (ok x) e = tt
      go (raise f) e = inr (inl (v, e))

  list_of-Outcome : (o : Option V) → Outcome out (Any out) (list_of fl out o)
  list_of-Outcome none = tt
  list_of-Outcome (some v) = elim (Bool-cases (out.truthy v)) [
    | inl t ↦ rw t (go (out.to_list v) refl)
    | inr t ↦ rw t tt
  ]
    where
      go : (r : Result (List V)) → out.to_list v ≡ r → Outcome out (Any out) r
      go (ok x) e = tt
      go (raise f) e = inr (inr (v, e))

  pub verification_of-Outcome : (d : Dict Text V) → Outcome out (Any out) (verification_of fl out d)
  verification_of-Outcome [] = tt
  verification_of-Outcome (e ∷ d) =
      let x = get (codes "confidence") (e ∷ d) in
      let xs = get (codes "unsupported_claims") (e ∷ d) in
      on_success-Outcome out {A = F} {B = Verification F V} (Any out) (Any out) (float_of fl out x)
        _ (float_of-Outcome x)
        (λ y h.
          on_success-Outcome out {A = List V} {B = Verification F V} (Any out) (Any out)
            (list_of fl out xs) _ (list_of-Outcome xs) (λ ys k. tt))

  pub verify_answer-Outcome :
      (question answer : Text) (sources : List (RetrievedChunk F))
      → Outcome out (Any out) (verify_answer fl out question answer sources)
  unfolding verify_answer
  verify_answer-Outcome question answer sources =
      on_success-Outcome out {A = Completion} {B = Verification F V × Usage} (Any out) (Any out) _ _
        (ask-Outcome out (Any out) _ (λ r q. tt))
        (λ r h.
          on_success-Outcome out {A = Verification F V} {B = Verification F V × Usage} (Any out)
            (Any out) (verification_of fl out (parse_json_response fl out r.text)) _
            (verification_of-Outcome (parse_json_response fl out r.text)) (λ v k. tt))
