-- ===== src/Assembly/State.antt =====
-- standard_tiered.py: the state of the assembly graph, and what lies outside the repository or is
-- not modelled: the parser of ids, the hash, the prompts, the model behind the LLM and the clean-up
-- of text by regular expressions.
use context_broker.Prelude.{ℕ, Bool, false, Option, none, List, [], String}
use context_broker.Store.{Exception, Message, Window}
use context_broker.Tiers.{BuildTypeConfig}
use context_broker.Config.{Config, BuildTypeError}

-- `async_load_prompt` gives a prompt, or raises a RuntimeError with a text.
pub data Prompt : Type 0 where
  prompt : String → Prompt
  missing : String → Prompt

pub record External (F : Type 0) : Type 0 where
  -- `uuid.UUID`
  pub parse_uuid : String → Option ℕ
  -- The first 8 bytes of SHA-256.
  pub digest : String → ℕ
  -- `str(uuid.uuid4())`
  pub fresh_token : String
  -- The text of the error where the request for the lock raises one that the code catches.
  pub lock_failure : Option String
  -- Whether the release of the lock raises an error, which the code catches.
  pub unlock_fails : Bool
  -- `str(exc)` of a ValueError of `get_build_type_config`.
  pub describe : BuildTypeError F → String
  pub load_prompt : String → Prompt
  pub clean_for_compaction : String → String
  -- The n-th answer of the LLM in a node to a system prompt and a text; none where it raises one of
  -- the errors that the code catches.
  pub chat : ℕ → String → String → Option String
  -- The summary of the n-th chunk that another assembler commits between the check for duplicates
  -- and the INSERT, if one does.
  pub rival : ℕ → Option String
  -- The round of the loop over the chunks whose extraction, if it is called, raises an exception that
  -- is none of ImportError, RuntimeError, ValueError and OSError, with the exception.
  pub escaping_extraction : Option (ℕ × Exception)

pub record AssemblyState (F : Type 0) : Type 0 where
  pub context_window_id : String
  pub conversation_id : String
  pub config : Config F
  pub window : Option Window
  pub build_type_config : Option (BuildTypeConfig F)
  pub max_token_budget : Option ℕ
  pub all_messages : List Message
  pub tier1_messages : List Message
  pub older_messages : List Message
  pub chunks : List (List Message)
  pub tier2_summaries : List String
  pub tier3_summary : Option String
  pub tier2_at_max : Bool
  pub lock_key : String
  pub lock_token : Option String
  pub lock_acquired : Bool
  pub had_errors : Bool
  pub assembly_start_time : Option ℕ
  pub error : Option String

-- The dictionary with which the workers call the graph.
abbrev pub initial : {F : Type 0} → String → String → Config F → AssemblyState F
initial window_id conv_id config = record {
  context_window_id = window_id;
  conversation_id = conv_id;
  config = config;
  window = none;
  build_type_config = none;
  max_token_budget = none;
  all_messages = [];
  tier1_messages = [];
  older_messages = [];
  chunks = [];
  tier2_summaries = [];
  tier3_summary = none;
  tier2_at_max = false;
  lock_key = "";
  lock_token = none;
  lock_acquired = false;
  had_errors = false;
  assembly_start_time = none;
  error = none;
}

-- `state.get("build_type_config") or {}`
abbrev pub empty_config : {F : Type 0} → BuildTypeConfig F
empty_config = record {
  tier1_floor_pct = none;
  tier2_chunk_pct = none;
  tier2_min_chunks = none;
  tier2_max_chunks = none;
  tier3_pct = none;
  tier3_header_pct = none;
  effective_utilization = none;
  semantic_retrieval_pct = none;
  knowledge_graph_pct = none;
  initial_lookback_multiplier = none;
  max_lookback_tokens = none;
  llm = none;
}
