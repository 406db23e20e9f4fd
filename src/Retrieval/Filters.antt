-- ===== src/Retrieval/Filters.antt =====
-- Metadata filters: `_matches` of backend/app/retrieval/vector_store.py.
use research_mind_ai.Prelude.{
  ℕ, Text, ◌≡◌, refl, ◌↔◌, Bool, true, false, none, some, List, [], ◌∷◌, arith, EqOps, ◌==◌, nat_eq,
  list_eq, contains, nat_beq_iff, ==_iff, ◌&&◌,
}
use research_mind_ai.Prelude.Dict.{Dict, get}

-- A value of a metadata dict; `null` is Python's None.
pub data Value : Type 0 where
  null : Value
  num : ℕ → Value
  text : Text → Value

abbrev value_beq : Value → Value → Bool
value_beq null null = true
value_beq (num a) (num b) = a == b
value_beq (text s) (text t) = s == t
value_beq _ _ = false

pub value_beq_iff : (a b : Value) → (value_beq a b ≡ true) ↔ (a ≡ b)
value_beq_iff null null = (λ _. refl, λ _. refl)
value_beq_iff (num a) (num b) =
    (λ h. ground (arith, nat_beq_iff a b), λ h. ground (arith, nat_beq_iff a b))
value_beq_iff (text s) (text t) = (λ h. ground (arith, ==_iff s t), λ h. ground (arith, ==_iff s t))
value_beq_iff _ _ = (λ h. cc, λ h. cc)

instance abbrev pub value_eq : EqOps Value
value_eq = record { same = value_beq; same_iff = value_beq_iff }

abbrev pub Metadata : Type 0
Metadata = Dict Text Value

-- A list, tuple or set means "any of"; anything else is compared.
pub data Expected : Type 0 where
  any_of : List Value → Expected
  exactly : Value → Expected

abbrev pub Filters : Type 0
Filters = Dict Text Expected

-- metadata.get(key), None for a missing key
unfoldable pub lookup_value : Text → Metadata → Value
unfolding get
lookup_value key m = elim (get key m) [ none ↦ null | some v ↦ v ]

unfoldable pub meets : Value → Expected → Bool
meets actual (any_of vs) = contains actual vs
meets actual (exactly v) = actual == v

-- The loop over `filters.items()`; no filters, or None, is the empty dict.
unfoldable pub matches : Metadata → Filters → Bool
unfolding lookup_value meets
matches m [] = true
matches m ((key, expected) ∷ rest) = meets (lookup_value key m) expected && matches m rest
