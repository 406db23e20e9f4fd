-- ===== src/Graph/Schema.antt =====
-- Nodes and relationships of the graph: backend/app/graph/schema.py. `none` is the ValueError of a
-- constructor; str.lower is a parameter.
use research_mind_ai.Prelude.{
  Text, codes, strip, is_space, join, Bool, ◌&&◌, Option, none, some, List, [], ◌∷◌, ◌++◌, contains,
  ◌==◌, nat_eq, list_eq, if◌then◌else◌,
}
use research_mind_ai.Prelude.Dict.{Dict, get}
use research_mind_ai.Retrieval.Filters.{Metadata}
use research_mind_ai.Graph.Store.{GraphNode, GraphRelationship}

-- str.split(), for a word that has been read so far
unfoldable pub words_from : Text → Text → List Text
words_from [] [] = []
words_from (w ∷ ws) [] = (w ∷ ws) ∷ []
words_from word (c ∷ cs) =
    let next = words_from (word ++ (c ∷ [])) cs in
    let rest = words_from [] cs in
    if is_space c then (elim word [ [] ↦ rest | w ∷ ws ↦ (w ∷ ws) ∷ rest ]) else next

abbrev pub key_edges : Text
key_edges = codes " .,;:()[]{}\"'"

unfoldable pub normalize_key : (Text → Text) → Text → Text
unfolding words_from
normalize_key lower value =
    strip (λ c. contains c key_edges) (join (32 ∷ []) (words_from [] (lower value)))

abbrev pub node_labels : List Text
node_labels =
    codes "Paper"
    ∷ codes "Author"
    ∷ codes "Institution"
    ∷ codes "Dataset"
    ∷ codes "Model"
    ∷ codes "Task"
    ∷ codes "Metric"
    ∷ codes "Method"
    ∷ codes "Benchmark"
    ∷ codes "Venue"
    ∷ []

abbrev pub allowed_edges : Dict Text (Text × Text)
allowed_edges =
    (codes "AUTHORED_BY", (codes "Paper", codes "Author"))
    ∷ (codes "AFFILIATED_WITH", (codes "Author", codes "Institution"))
    ∷ (codes "CITES", (codes "Paper", codes "Paper"))
    ∷ (codes "EVALUATES_ON", (codes "Paper", codes "Benchmark"))
    ∷ (codes "USES_DATASET", (codes "Paper", codes "Dataset"))
    ∷ (codes "PROPOSES", (codes "Paper", codes "Model"))
    ∷ (codes "USES_METHOD", (codes "Paper", codes "Method"))
    ∷ (codes "REPORTS", (codes "Paper", codes "Metric"))
    ∷ (codes "ADDRESSES", (codes "Paper", codes "Task"))
    ∷ (codes "PUBLISHED_IN", (codes "Paper", codes "Venue"))
    ∷ (codes "COMPARES_TO", (codes "Model", codes "Model"))
    ∷ []

abbrev pub with_key : Text → Metadata → Text → Option GraphNode
with_key label properties [] = none
with_key label properties (c ∷ cs) =
    some (record { label = label; key = c ∷ cs; properties = properties })

-- GraphNode(label, key, properties)
unfoldable pub make_node : (Text → Text) → Text → Text → Metadata → Option GraphNode
unfolding normalize_key
make_node lower label key properties =
    if contains label node_labels then with_key label properties (normalize_key lower key) else none

abbrev pub joins : Text × Text → GraphNode → GraphNode → Bool
joins expected start end = start.label == expected.0 && end.label == expected.1

-- GraphRelationship(type, start, end, properties)
unfoldable pub make_relationship :
    Text → GraphNode → GraphNode → Metadata → Option GraphRelationship
make_relationship kind start end properties = elim (get kind allowed_edges) [
  | none ↦ none
  | some expected ↦
      if joins expected start end
      then some (record { kind = kind; start = start; end = end; properties = properties })
      else none
]
