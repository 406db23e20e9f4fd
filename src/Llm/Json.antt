-- ===== src/Llm/Json.antt =====
-- Reading JSON from a model's reply: backend/app/llm/json_output.py. json.loads and the coercions of
-- its values are parameters.
use research_mind_ai.Prelude.{
  ℕ, zero, suc, Text, codes, strip, is_space, Bool, false, ◌&&◌, ◌||◌, Option, none, some, [], ◌∷◌,
  drop, ◌==◌, nat_eq, list_eq, if◌then◌else◌,
}
use research_mind_ai.Prelude.Dict.{Dict}
use research_mind_ai.Llm.Gateway.{is_prefix}
use research_mind_ai.Llm.Rag.{up_to_last}

-- `parse` has no value where json.loads raises or reads null; `as_object` is isinstance(_, dict),
-- and `to_float` has no value where float raises.
pub record JsonReader (F V : Type 0) : Type 0 where
  pub parse : Text → Option V
  pub as_object : V → Option (Dict Text V)
  pub to_text : V → Text
  pub to_float : V → Option F

-- "json", in any case
unfoldable pub begins_json : Text → Bool
begins_json (j ∷ s ∷ o ∷ n ∷ rest) =
    (j == b'j' || j == b'J')
    && ((s == b's' || s == b'S' || s == 383)
        && ((o == b'o' || o == b'O') && (n == b'n' || n == b'N')))
begins_json _ = false

-- FENCE_PATTERN.sub(""), with the number of characters of a fence that are left to drop.
unfoldable pub drop_fences : ℕ → Text → Text
unfolding begins_json
drop_fences left [] = []
drop_fences (suc left) (c ∷ cs) = drop_fences left cs
drop_fences zero (c ∷ cs) =
    let kept = drop_fences 0 cs in
    let short = drop_fences 2 cs in
    let long = drop_fences 6 cs in
    if is_prefix (codes "```") (c ∷ cs)
    then (if begins_json (drop 3 (c ∷ cs)) then long else short)
    else c ∷ kept

-- text[start : end + 1], from the first opening brace to the last closing brace.
unfoldable pub braces : Text → Option Text
unfolding up_to_last
braces [] = none
braces (c ∷ cs) =
    let later = braces cs in
    if c == b'{' then (elim (up_to_last cs) [ none ↦ none | some r ↦ some (c ∷ r) ]) else later

module _ {F V : Type 0} (reader : JsonReader F V) where
  abbrev pub parse_braces : Option Text → Option V
  parse_braces none = none
  parse_braces (some t) = reader.parse t

  abbrev pub or_braces : Text → Option V → Option V
  or_braces t none = parse_braces (braces t)
  or_braces t (some v) = some v

  abbrev pub object_of : Option V → Option (Dict Text V)
  object_of none = none
  object_of (some v) = reader.as_object v

  abbrev pub parse_text : Text → Option (Dict Text V)
  parse_text [] = none
  parse_text (c ∷ cs) = object_of (or_braces (c ∷ cs) (reader.parse (c ∷ cs)))

  unfoldable pub load_json_object : Text → Option (Dict Text V)
  unfolding drop_fences braces
  load_json_object raw =
      parse_text (strip is_space (strip (λ c. c == 96) (strip is_space (drop_fences 0 raw))))
