-- ===== src/Passthrough/Retrieval.antt =====
-- passthrough.py, the retrieval graph: the newest messages that fit into the budget.
use context_broker.Prelude.{
  ℕ, Option, none, some, List, [], ◌∷◌, String, if◌then◌else◌, is_some, map, total, cat,
}
use context_broker.Floats.{Floats}
use context_broker.Store.{Message, Window, Flow, pure, gets, modify, or_value_error, ◌>>=◌, ◌>>◌}
use context_broker.Store.Query.{fetch_recent, find_window, message_tokens}
use context_broker.Config.{Config, get_tuning}
use context_broker.Tiers.{share}
use context_broker.Assembly.Partition.{fill_tier1}
use context_broker.Retrieval.Load.{mark_accessed}
use context_broker.Retrieval.Context.{non_empty}

-- A message of the context; a content that is null stays null.
pub record PassthroughMessage : Type 0 where
  pub role : String
  pub content : Option String
  pub tool_calls : Option String
  pub tool_call_id : Option String
  pub name : Option String

abbrev pub passthrough_message : Message → PassthroughMessage
passthrough_message m = record {
  role = m.role;
  content = m.content;
  tool_calls = non_empty m.tool_calls;
  tool_call_id = non_empty m.tool_call_id;
  name = non_empty (some m.sender);
}

pub record PassthroughRetrieval (F : Type 0) : Type 0 where
  pub context_window_id : String
  pub config : Config F
  pub window : Option Window
  pub conversation_id : String
  pub max_token_budget : ℕ
  pub context_messages : Option (List PassthroughMessage)
  -- context_tiers["recent_messages"]; the other tiers are empty.
  pub recent_messages : Option (List Message)
  pub total_tokens_used : ℕ
  pub error : Option String

module _ (f : Floats) (parse_uuid : String → Option ℕ) (show_uuid : ℕ → String) where
  open f use {Float, decimal}

  unfoldable pub pt_found :
      ℕ → PassthroughRetrieval Float → Option Window → Flow (PassthroughRetrieval Float)
  pt_found id s none = pure (record s {
    error = some (cat ("Context window " ∷ s.context_window_id ∷ " not found" ∷ []));
  })
  pt_found id s (some window) = do
    modify (mark_accessed id)
    pure (record s {
      window = some window;
      conversation_id = show_uuid window.conversation_id;
      max_token_budget = share f window.max_token_budget (decimal 85 2);
    })

  unfoldable pub pt_load : Option ℕ → PassthroughRetrieval Float → Flow (PassthroughRetrieval Float)
  unfolding pt_found
  pt_load none s = pure (record s { error = some "Invalid UUID in retrieval input" })
  pt_load (some id) s = do window ← gets (λ db. find_window id db.windows); pt_found id s window

  unfoldable pub pt_load_window : PassthroughRetrieval Float → Flow (PassthroughRetrieval Float)
  unfolding pt_load
  pt_load_window s = pt_load (parse_uuid s.context_window_id) s

  -- The loop over the rows, newest first, and what is made of the messages that it keeps.
  unfoldable pub pt_with_rows :
      PassthroughRetrieval Float → List Message → PassthroughRetrieval Float
  unfolding fill_tier1
  pt_with_rows s rows =
      let messages = fill_tier1 s.max_token_budget 0 [] rows in
      record s {
        context_messages = some (map passthrough_message messages);
        recent_messages = some messages;
        total_tokens_used = total message_tokens messages;
      }

  abbrev pub max_messages : PassthroughRetrieval Float → ℕ
  max_messages s = get_tuning s.config "max_messages_to_load" 1000

  unfoldable pub pt_load_recent : PassthroughRetrieval Float → Flow (PassthroughRetrieval Float)
  unfolding pt_with_rows
  pt_load_recent s = do
    conversation ← or_value_error (parse_uuid s.conversation_id)
    rows ← gets (λ db. fetch_recent conversation (max_messages s) db.messages)
    pure (pt_with_rows s rows)

  unfoldable pub pt_after_load : PassthroughRetrieval Float → Flow (PassthroughRetrieval Float)
  unfolding pt_load_recent
  pt_after_load s = if is_some s.error then pure s else pt_load_recent s

  abbrev pub pt_initial_retrieval : String → Config Float → PassthroughRetrieval Float
  pt_initial_retrieval window_id config = record {
    context_window_id = window_id;
    config = config;
    window = none;
    conversation_id = "";
    max_token_budget = 0;
    context_messages = none;
    recent_messages = none;
    total_tokens_used = 0;
    error = none;
  }

  -- `build_passthrough_retrieval().ainvoke`
  unfoldable pub retrieve_passthrough : String → Config Float → Flow (PassthroughRetrieval Float)
  unfolding pt_load_window pt_after_load
  retrieve_passthrough window_id config = do
    s ← pt_load_window (pt_initial_retrieval window_id config)
    pt_after_load s
