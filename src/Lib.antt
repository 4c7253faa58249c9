-- ===== src/Lib.antt =====
-- The Context Broker keeps conversations in Postgres and prepares, for each participant, a context
-- window that fits a token budget: the live messages (tier 1), summaries of older chunks (tier 2)
-- and an archival summary (tier 3). This library models the storing of messages, the assembly of a
-- window, its retrieval, the operations on conversations and windows and the arithmetic of the
-- budgets, as functions on an explicit database.
--
-- Files, with the code that they model (AE stands for
-- packages/context-broker-ae/src/context_broker_ae):
--   Prelude: Boolean tests on the native ℕ, lists, texts. `Prelude/Text` has Python's `len`, `join`
--     and truth of a string, and the estimate of four characters a token.
--   Budget, Budget/Snap: app/budget.py, `snap_budget` over the list of buckets.
--   TokenBudget, TokenBudget/Priority: app/token_budget.py, `resolve_token_budget`. The HTTP request
--     is the parameter `get_models`.
--   Floats: Python's floats, a parameter with the operations that the code uses; `FloatLaws` says
--     that rounding is monotone, the one fact about floats that a theorem here uses.
--   Tiers, Tiers/Ceiling: AE/build_types/tier_scaling.py.
--   Config: app/config.py, `get_build_type_config` and `get_tuning`, on a record of the sections that
--     are read. Reading and caching of files is not modelled.
--   Locks: app/utils.py, `stable_lock_id`, and Postgres' advisory locks as the list of the held keys.
--   Store, Store/Query, Store/Order: the tables of postgres/init.sql as lists of rows, the queries
--     that the flows share, and the order of sequence numbers. An id is a number. A flow is a function
--     from the database to an outcome, which is a value or an exception, and the database after it.
--   Pipeline: AE/message_pipeline.py, `store_message`, with its classification of tool errors
--     (Roles) and its transaction and retry (Ingest). Proofs: the ends of a call (Effects, Outcomes),
--     the test for a repetition (Sameness), Counters and Repeats.
--   Assembly: AE/build_types/standard_tiered.py, the assembly graph: its state (State), the nodes in
--     order (Load, Partition, Compact, Archive, Graph), and the proofs about the split into tiers
--     (Live), the summaries (Guard, Compacted), the archive (Once, Retained) and the lock (Locking,
--     Locking/Run).
--   Retrieval: the retrieval graph of the same file: its state (State), the nodes that load (Load) and
--     the one that assembles the context (Context), and the proofs about the live messages (Recent),
--     the context (Budget) and the wait for an assembly (Wait).
--   Passthrough: AE/build_types/passthrough.py, the assembly graph (Assembly) and the retrieval graph
--     (Retrieval) of the second build type, with the proofs about a run (Laws), its foreign keys
--     (References) and its rows (Newest).
--   Enriched: AE/build_types/knowledge_enriched.py, the retrieval graph (Graph) with the proofs about the
--     context (Laws) and the live messages (Live).
--   Embedding: AE/embed_pipeline.py, the graph that embeds one message, with the proofs about its text
--     (Again), a run that stores a vector (Stored) and the ends of a run (Settled).
--   Registry, Registry/Caching: app/flows/build_type_registry.py, the builders by name and the cache of
--     the graphs, on the association lists of Dict.
--   Conversations: AE/conversation_ops_flow.py: the creation of conversations (Create) and windows with
--     the search for windows (Windows), the history (History), deletion, renaming and listing (Admin),
--     and get_context (Context). Proofs: the order of a history (Chronology), repeated requests
--     (Reuse), foreign keys (Integrity, References, GetContext, Requests), what a deletion
--     leaves (Deletion), filters (Searching).
--   Workers: app/workers/db_worker.py, one step of each loop: Embedding, Extraction, Assembling and
--     Logging; the proofs about progress (Embedding/Progress), locks and retries (Extraction/Retries,
--     Extraction/Failing) and the count of failures (Logging/Counting).
--   Imperator, Imperator/Resume: app/imperator/state_manager.py, with the state file as a text.
--   Filters, Filters/Alignment: the WHERE clauses with numbered placeholders that several flows build.
--   Search: AE/search_flow.py, its queries (Queries) and the reranking (Rerank), and the queries on the
--     system log of AE/conversation_ops_flow.py (Logs); the proofs about placeholders (Bindings) and
--     about the ranked rows (Ranked).
--   Mcp: app/routes/mcp.py: the sessions as a list of events drives them (Sessions) and the answer to a
--     call (Call). Proofs: the eviction (Eviction) and updates of the table (Tables), the counter of
--     replies (Accounting, Drift), the answers (Answers). `Prelude/Int` has the integers of the counter.
--   Migrations, Migrations/Resume: app/migrations.py, the registry and the run of what is pending.
--   Quality: AE/memory/quality_wrapper.py, the write side (Wrapper), the clean-up and the search
--     (Expiry), and of AE/cea_extraction_flow.py the dispatch of an extraction (Dispatch, Counting).
--     Proofs: unique keys (Laws), what the clean-up takes away (Expired) and leaves (Kept).
--   Tests: the theorems at concrete inputs.
--
-- What lies outside the repository is a parameter: the parser of UUIDs, SHA-256, the prompts, the LLM
-- and the clean-up of text by regular expressions are fields of `External`. So are the moments at
-- which other sessions interfere: `conflicts` says which attempts of `store_message` lose the race for
-- a sequence number, `rival` which summaries another assembler inserts first. A statement of SQL
-- succeeds, except where the code handles its failure. The database says whether the
-- pool resets the sessions that it takes back, as asyncpg's does: if so, an advisory lock ends with
-- the statement of the pool that took it, else it is held until its release.
--
-- Fuel: `run` takes one unit a node, and `invoke_assembly` gives eight, the length of the longest
-- way through the graph. `chunks_of` takes the length of its list, of which each round takes at least
-- one element when the chunk size is positive; the code raises where it is zero. `wait_loop` takes one
-- unit for each time that the code finds the clock before its deadline.
--
-- The graphs that get_context invokes are fields of `ContextGraphs`, so it does not matter which build
-- type they belong to; the theorems say what they assume of them.
--
-- Not modelled: vector and full-text search in Postgres; the decay of a memory's score and the penalty
-- for old messages, which are powers of floats; the agent and its tools, an LLM and I/O; the dispatch
-- of tool names to compiled graphs and the scan for packages, which load code at run time; the HTTP
-- routes but the MCP endpoint, and the services beside the program.
pub mod Prelude
pub mod Budget
pub mod Floats
pub mod Tiers
pub mod TokenBudget
pub mod Store
pub mod Dict
pub mod Registry
pub mod Locks
pub mod Config
pub mod Pipeline
pub mod Assembly
pub mod Retrieval
pub mod Migrations
pub mod Mcp
pub mod Passthrough
pub mod Quality
pub mod Enriched
pub mod Embedding
pub mod Conversations
pub mod Workers
pub mod Imperator
pub mod Filters
pub mod Search
pub mod Tests
