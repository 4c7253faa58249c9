-- ===== src/Retrieval/State.antt =====
-- standard_tiered.py: the state of the retrieval graph, and what lies outside of it.
use context_broker.Prelude.{ℕ, Bool, Option, List, String}
use context_broker.Store.{Message, Window, Db}
use context_broker.Tiers.{BuildTypeConfig}
use context_broker.Config.{Config, BuildTypeError}

pub record RetrievalExternal (F : Type 0) : Type 0 where
  -- `uuid.UUID` and `str` of a UUID
  pub parse_uuid : String → Option ℕ
  pub show_uuid : ℕ → String
  -- The first 8 bytes of SHA-256.
  pub digest : String → ℕ
  pub describe : BuildTypeError F → String
  -- Whether `get_pg_pool` raises the RuntimeError that the wait catches.
  pub pool_missing : Bool
  -- How often the loop finds the clock before its deadline.
  pub polls : ℕ
  -- Whether the n-th request for the lock raises an error that the code catches.
  pub poll_fails : ℕ → Bool
  -- What other sessions do while the n-th poll sleeps.
  pub meanwhile : ℕ → Db → Db

pub data AssemblyStatus : Type 0 where
  unset : AssemblyStatus
  ready : AssemblyStatus
  timeout : AssemblyStatus
  error_status : AssemblyStatus

-- A message of the context, in the format of the OpenAI API.
pub record ContextMessage : Type 0 where
  pub role : String
  pub content : String
  pub tool_calls : Option String
  pub tool_call_id : Option String
  pub name : Option String

-- The tiers that the context was made of; the two RAG layers of this build type are empty.
pub record ContextTiers : Type 0 where
  pub archival_summary : Option String
  pub chunk_summaries : List String
  pub recent_messages : List Message

pub record RetrievalState (F : Type 0) : Type 0 where
  pub context_window_id : String
  pub config : Config F
  pub window : Option Window
  pub build_type_config : Option (BuildTypeConfig F)
  pub conversation_id : String
  pub max_token_budget : ℕ
  pub tier3_summary : Option String
  pub tier2_summaries : List String
  pub recent_messages : List Message
  pub assembly_status : AssemblyStatus
  pub context_messages : Option (List ContextMessage)
  pub context_tiers : Option ContextTiers
  pub total_tokens_used : ℕ
  pub warnings : List String
  pub error : Option String
