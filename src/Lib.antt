-- ===== src/Lib.antt =====
-- A verification library for ResearchMind-AI: the retrieval, answering and agent core of the
-- backend (backend/app), its graph of papers, and the checks on papers and answers.
--
-- The program answers questions over a library of papers. Papers are cut into chunks, which the
-- indexer writes to a BM25 index and a vector store. A question goes through the retrieval
-- pipeline: both indexes are searched under filters on the papers that the user may see, the two
-- rankings are fused by reciprocal rank, the chunk rows are loaded, a reranker reorders them and
-- sentences are picked as support. The passages are packed into a token budget, and a language
-- model answers through the gateway: either in one round with one corrective retry (rag.py), or in
-- a graph of agents that plans, retrieves and drafts, lets a critic and a reflector revise the
-- draft, and ends with a verifier, a citation agent and a summarizer. Entities and papers form a
-- graph that finds related papers; results and claims of papers are compared for conflicts; answers
-- are scored by lexical metrics.
--
-- The parts and their files:
--   Prelude          lists, texts as lists of code points, Python's dict as an association list
--                    in insertion order (Prelude/Dict), its stable sort (Prelude/Sort)
--   Retrieval/Scores floating-point scores as a parameter with two laws of the comparison
--   Retrieval/Filters, Retrieval/Vectors  _matches and InMemoryVectorStore of
--                    backend/app/retrieval/vector_store.py
--   Retrieval/Sparse tokenize and BM25Index of backend/app/retrieval/sparse.py; the state is the
--                    record Index, and add, remove_paper, clear and search are its operations
--   Retrieval/Fusion reciprocal_rank_fusion of backend/app/retrieval/fusion.py
--   Retrieval/Rerank, Retrieval/Sentences  Reranker.rerank and extract_supporting_sentences of
--                    backend/app/retrieval/reranker.py
--   Retrieval/Indexer  index_paper and remove_paper_from_index of backend/app/retrieval/indexer.py;
--                    the state is the record Library: the chunk rows and the two stores
--   Retrieval/Service  backend/app/retrieval/service.py; the database is three lists of rows, and
--                    the two retrievers are an interface that Service/Stores fills with the
--                    vector store and the BM25 index; Service/Sample is a library for the tests.
--                    Its rebuild_sparse_index is in Retrieval/Indexer/Rebuild
--   Llm/Context      pack_context and, in Context/Compress, compress_context of
--                    backend/app/llm/context.py
--   Llm/Gateway      _HttpProvider.complete and LLMGateway.complete of backend/app/llm/gateway.py
--   Llm/Citations, Llm/Rag  extract_citations, and the rest of backend/app/llm/rag.py: grading,
--                    rewriting and verifying, answer_question (Rag/Answer), stream_answer
--                    (Rag/Stream) and the confidence of an answer (Rag/Confidence)
--   Llm/Json         load_json_object of backend/app/llm/json_output.py
--   Library          Library/Papers: upload_paper, get_paper and delete_paper of
--                    backend/app/services/paper_service.py, over a table of papers and the storage
--                    of backend/app/core/storage.py as a dict; Library/Filename: sanitize_filename
--                    of backend/app/core/validation.py
--   Ingestion/Chunks chunk_document of backend/app/ingestion/chunking.py
--   Graph/Schema     normalize_key and the constructors of backend/app/graph/schema.py
--   Graph/Store      InMemoryGraphStore of backend/app/graph/store.py: nodes, edges and the sets of
--                    edge ids at each end are dicts, and the operations are functions on Store;
--                    Graph/Saved has _flush and _load, Graph/Search has neighbors, find_nodes and
--                    counts
--   Graph/Expand     backend/app/graph/retrieval.py, the papers related to a question
--   Agents           state.py, agents.py and graph.py of backend/app/agents
--   Research         find_numeric_conflicts (Conflicts), compare_claims (Claims) and
--                    analyze_consistency (Report) of backend/app/research/contradictions.py, with
--                    clamp_confidence of backend/app/llm/json_output.py in Claims/Compare
--   Eval/Metrics     backend/app/eval/metrics.py
-- The Tests modules run the definitions and apply the theorems to concrete inputs.
--
-- Numbers are natural numbers: ids, lengths, token counts, ranks and limits (a negative limit is
-- not modelled). Scores are an abstract type with the platform's arithmetic. An exception is the
-- value none, or raise in the gateway. An operation that holds a lock is one step. A request to
-- the network, the reply of a model, the parsed JSON of a reply, str.lower, the database's ILIKE,
-- the matches of the heading pattern, the values of decimal digits, the printing of an id, NFKC,
-- SHA-256 and the suffix of a path are parameters.
--
-- The loops over lists are structural recursion and the retry loop counts down its three rounds.
-- The loop that cuts a long sentence has the sentence's length as fuel, of which a round uses one
-- and at least one character; the loop over batches has the number of items, of which a round takes
-- at least one. The search of neighbors counts down its depth, as the source does. The research
-- graph runs on fuel too, one for a visit of a node, which stands for LangGraph's recursion limit
-- (25 by default): six nodes up to the first draft, at most three visits of the critic and two of
-- the reflector, and three nodes to finish make 14, where the calls for these two do not raise and
-- the critic's replies can be read.
--
-- Not modelled: the stores on FAISS, Qdrant and Neo4j, the file of the vector store, the providers'
-- request and response formats and their streaming, the building and the analysis of the graph of
-- papers, the rest of ingestion, the other research analyses, the evaluation runner and grading by
-- a model, the HTTP API, the worker and the frontend: they are glue over libraries and services, or
-- not reached yet.
pub mod Prelude
pub mod Retrieval
pub mod Llm
pub mod Agents
pub mod Ingestion
pub mod Graph
pub mod Eval
pub mod Research
pub mod Library
