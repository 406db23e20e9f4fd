-- ===== src/Llm/Citations.antt =====
-- `extract_citations` of backend/app/llm/rag.py. `digit` is the value of a decimal digit: \d and int
-- read those of every script, and the closing bracket is none.
use research_mind_ai.Prelude.{
  ℕ, zero, suc, ◌+◌, ◌-◌, ◌*◌, ◌≤◌, Text, codes, is_digit, ◌≡◌, refl, ◌↔◌, ◌⊎◌, inl, inr, Bool,
  true, false, not, ◌&&◌, Option, none, some, List, [], ◌∷◌, ◌++◌, arith, ◌==◌, nat_eq, ==_iff,
  contains, leb, if◌then◌else◌, In, In-append_cases, In-append_left, In-append_right, All,
  In-contains, Bool-cases, All→In, In→All,
}
use research_mind_ai.Prelude.Sort.{sort_by, sort_by-In, sort_by-All, sort_by-IsSorted, IsSorted}
pub mod Laws

unfoldable pub collect_cited : ℕ → List ℕ → List ℕ → List ℕ
collect_cited source_count cited [] = cited
collect_cited source_count cited (n ∷ ns) =
    collect_cited source_count
      (if (leb 1 n && leb n source_count) && not (contains n cited)
        then cited ++ (n ∷ [])
        else cited)
      ns

module _ (digit : ℕ → Option ℕ) where
  -- After one digit and the value of the next character.
  abbrev pub second_digit : ℕ → Option ℕ → Text → Option ℕ
  second_digit a none rest = none
  second_digit a (some b) [] = none
  second_digit a (some b) (c ∷ rest) = if c == b']' then some (a * 10 + b) else none

  abbrev pub first_digit : Option ℕ → Text → Option ℕ
  first_digit none rest = none
  first_digit (some a) [] = none
  first_digit (some a) (b ∷ rest) = if b == b']' then some a else second_digit a (digit b) rest

  -- A match of \[(\d{1,2})\] at the front of a text: its number.
  unfoldable pub marker_at : Text → Option ℕ
  marker_at (o ∷ a ∷ rest) = if o == b'[' then first_digit (digit a) rest else none
  marker_at _ = none

  -- The numbers of the matches of `finditer`, left to right. No match begins within another.
  unfoldable pub markers : Text → List ℕ
  unfolding marker_at
  markers [] = []
  markers (c ∷ cs) =
      let rest = markers cs in elim (marker_at (c ∷ cs)) [ none ↦ rest | some n ↦ n ∷ rest ]

  unfoldable pub extract_citations : Text → ℕ → List ℕ
  unfolding markers collect_cited
  extract_citations answer source_count =
      sort_by leb (collect_cited source_count [] (markers answer))
