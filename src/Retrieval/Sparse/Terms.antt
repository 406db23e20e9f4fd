-- ===== src/Retrieval/Sparse/Terms.antt =====
-- Term statistics of backend/app/retrieval/sparse.py: Counters of terms, and how the loops of
-- `add` and `_remove_unlocked` change the document frequencies.
use research_mind_ai.Prelude.{
  ℕ, zero, suc, ◌+◌, ◌-◌, Text, ◌≡◌, refl, Option, none, some, List, [], ◌∷◌, arith, ◌==◌, nat_eq,
  list_eq, ==_iff, leb, if◌then◌else◌,
}
use research_mind_ai.Prelude.Dict.{
  Dict, get, put, remove, Distinct, get-put, get-remove, put-Distinct, remove-Distinct,
}

-- counter[term], 0 for a missing term
unfoldable pub count_of : Text → Dict Text ℕ → ℕ
count_of t d = elim (get t d) [ none ↦ 0 | some n ↦ n ]

-- counter[term] += 1
unfoldable pub increment : Text → Dict Text ℕ → Dict Text ℕ
unfolding count_of
increment t d = put t (count_of t d + 1) d

unfoldable pub count_from : Dict Text ℕ → List Text → Dict Text ℕ
count_from d [] = d
count_from d (t ∷ ts) = count_from (increment t d) ts

-- Counter(tokens)
unfoldable pub counter : List Text → Dict Text ℕ
unfolding count_from increment
counter tokens = count_from [] tokens

-- `counter[term] -= 1`, and the entry is deleted at 0 or below. A Counter reads a missing term as
-- 0, which would go to -1 and be deleted too, so that stopping at 0 changes nothing.
unfoldable pub decrement : Text → Dict Text ℕ → Dict Text ℕ
unfolding count_of
decrement t d =
    let n = count_of t d - 1 in let d' = put t n d in if leb n 0 then remove t d' else d'

-- for term in frequencies: document_frequency[term] += 1
unfoldable pub add_terms : Dict Text ℕ → Dict Text ℕ → Dict Text ℕ
unfolding increment
add_terms [] df = df
add_terms ((t, n) ∷ tf) df = add_terms tf (increment t df)

-- for term in existing.term_frequencies: …
unfoldable pub drop_terms : Dict Text ℕ → Dict Text ℕ → Dict Text ℕ
unfolding decrement
drop_terms [] df = df
drop_terms ((t, n) ∷ tf) df = drop_terms tf (decrement t df)

count_from-Distinct : (ts : List Text) (d : Dict Text ℕ) → Distinct d → Distinct (count_from d ts)
unfolding count_from increment
count_from-Distinct [] d h = h
count_from-Distinct (t ∷ ts) d h =
    count_from-Distinct ts (put t (count_of t d + 1) d) (put-Distinct t (count_of t d + 1) d h)

pub counter-Distinct : (ts : List Text) → Distinct (counter ts)
unfolding counter
counter-Distinct ts = count_from-Distinct ts [] tt

-- What one more document holding a term does to the entry of the term, and one less.
abbrev pub raise_entry : Option ℕ → Option ℕ
raise_entry none = some 1
raise_entry (some n) = some (n + 1)

abbrev pub lower_entry : Option ℕ → Option ℕ
lower_entry none = none
lower_entry (some zero) = none
lower_entry (some (suc zero)) = none
lower_entry (some (suc (suc n))) = some (suc n)

-- The first argument is the entry of the term in the document.
abbrev pub after_add : Option ℕ → Option ℕ → Option ℕ
after_add none o = o
after_add (some n) o = raise_entry o

abbrev pub after_drop : Option ℕ → Option ℕ → Option ℕ
after_drop none o = o
after_drop (some n) o = lower_entry o

get-increment :
    (t j : Text) (d : Dict Text ℕ)
    → get j (increment t d) ≡ (if t == j then raise_entry (get j d) else get j d)
unfolding increment count_of
get-increment t j d = ground (arith, ==_iff t j, get-put t j (count_of t d + 1) d)

decrement-Distinct : (t : Text) (d : Dict Text ℕ) → Distinct d → Distinct (decrement t d)
unfolding decrement
decrement-Distinct t d h =
    ground
      (arith, put-Distinct t (count_of t d - 1) d h, remove-Distinct t (put t (count_of t d - 1) d))

get-decrement :
    (t j : Text) (d : Dict Text ℕ)
    → Distinct d
    → get j (decrement t d) ≡ (if t == j then lower_entry (get j d) else get j d)
unfolding decrement count_of
get-decrement t j d h =
    let n = count_of t d - 1 in
    ground (arith, ==_iff t j, get-put t j n d, get-remove t j (put t n d), put-Distinct t n d h)

pub add_terms-Distinct : (tf df : Dict Text ℕ) → Distinct df → Distinct (add_terms tf df)
unfolding add_terms increment
add_terms-Distinct [] df h = h
add_terms-Distinct ((t, n) ∷ tf) df h =
    add_terms-Distinct tf (increment t df) (put-Distinct t (count_of t df + 1) df h)

pub drop_terms-Distinct : (tf df : Dict Text ℕ) → Distinct df → Distinct (drop_terms tf df)
unfolding drop_terms
drop_terms-Distinct [] df h = h
drop_terms-Distinct ((t, n) ∷ tf) df h =
    drop_terms-Distinct tf (decrement t df) (decrement-Distinct t df h)

-- One entry of the document frequencies after the loop of `add`.
pub get-add_terms :
    (j : Text) (tf df : Dict Text ℕ)
    → Distinct tf
    → get j (add_terms tf df) ≡ after_add (get j tf) (get j df)
unfolding add_terms get
get-add_terms j [] df h = refl
get-add_terms j ((t, n) ∷ tf) df h =
    ground (arith, ==_iff t j, get-increment t j df, get-add_terms j tf (increment t df))

-- One entry of the document frequencies after the loop of `_remove_unlocked`.
pub get-drop_terms :
    (j : Text) (tf df : Dict Text ℕ)
    → Distinct tf
    → Distinct df
    → get j (drop_terms tf df) ≡ after_drop (get j tf) (get j df)
unfolding drop_terms get
get-drop_terms j [] df h k = refl
get-drop_terms j ((t, n) ∷ tf) df h k = ground (
  arith,
  ==_iff t j,
  get-decrement t j df k,
  decrement-Distinct t df k,
  get-drop_terms j tf (decrement t df),
)
