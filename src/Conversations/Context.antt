-- ===== src/Conversations/Context.antt =====
-- conversation_ops_flow.py, the get_context flow. The assembly and the retrieval graphs of a build
-- type, with their look-up in the registry, are parameters: they return or raise, and may change the
-- database.
use context_broker.Prelude.{
  ℕ, ◌+◌, Bool, ◌&&◌, Option, none, some, String, ◌==◌, if◌then◌else◌, find?, head?, str_eq,
  update_where, estimate_tokens,
}
use context_broker.Floats.{Floats}
use context_broker.Store.{Message, Window, Db, Outcome, returned, Flow, pure, or_value_error, ◌>>=◌}
use context_broker.Store.Query.{newest_first}
use context_broker.Budget.{snap_budget}
use context_broker.Config.{
  Config, Checked, accepted, rejected, BuildTypeError, get_build_type_config,
}
use context_broker.Pipeline.Ingest.{NewMessage, insert_message, is_repeat}
use context_broker.Conversations.Create.{has_conversation, insert_conversation}
use context_broker.Conversations.Windows.{present, insert_window, find_identity}

-- The inputs of GetContextState. The model of the caller is a text of its configuration.
pub record ContextInput (F : Type 0) : Type 0 where
  pub build_type : String
  pub budget : ℕ
  pub conversation_id : Option String
  pub config : Config F
  pub user_prompt : Option String
  pub model : Option String
  pub domain_context : Option String

-- `get_assembly_graph(build_type)` and its `ainvoke` on a window and a conversation, and the same of
-- the retrieval, on a window. `prompt_fails` says that the transaction of the prompt fails.
pub record ContextGraphs (F R : Type 0) : Type 0 where
  pub assemble : String → Config F → String → String → Flow Unit
  pub retrieve : ContextInput F → String → Flow R
  pub prompt_fails : Bool

-- What `find_or_create_window_node` returns: an error or a window.
pub data Located : Type 0 where
  not_located : String → Located
  located : String → Located

-- The final state: an error, or the window and what the retrieval returns.
pub data ContextResult (R : Type 0) : Type 0 where
  no_context : String → ContextResult R
  context : String → String → R → ContextResult R

-- SELECT id FROM context_windows WHERE conversation_id = … AND participant_id = 'auto' AND build_type
-- = … LIMIT 1; of several the first of the table.
abbrev pub is_auto : ℕ → String → Window → Bool
is_auto conversation build_type w =
    w.conversation_id == conversation
    && str_eq w.participant_id "auto"
    && str_eq w.build_type build_type

abbrev pub find_auto : ℕ → String → Db → Option Window
find_auto conversation build_type db = find? (is_auto conversation build_type) db.windows

-- The columns of the prompt's row.
abbrev pub prompt_row : ℕ → String → NewMessage
prompt_row conversation prompt = record {
  conversation_id = conversation;
  role = "user";
  sender = "user";
  recipient = "assistant";
  content = some prompt;
  priority = 1;
  token_count = estimate_tokens prompt;
  model_name = none;
  tool_calls = none;
  tool_call_id = none;
}

-- `repeat_count + 1` in SQL.
abbrev pub one_more : Option ℕ → Option ℕ
one_more none = none
one_more (some n) = some (n + 1)

abbrev pub repeat_prompt : Message → Db → Db
repeat_prompt last db = record db {
  messages =
      update_where (λ m. m.id == last.id) (λ m. record m { repeat_count = one_more m.repeat_count })
        db.messages;
}

-- The row of a conversation that is missing would break the foreign key, and the code passes over it.
unfoldable pub insert_prompt : ℕ → String → Db → Db
unfolding insert_message
insert_prompt conversation prompt db =
    if has_conversation conversation db
    then insert_message (prompt_row conversation prompt) db
    else db

-- The transaction after it has read the newest message.
unfoldable pub store_prompt_after : ℕ → String → Option Message → Db → Db
unfolding insert_prompt
store_prompt_after conversation prompt none db = insert_prompt conversation prompt db
store_prompt_after conversation prompt (some last) db =
    if is_repeat (some last) "user" (some prompt)
    then repeat_prompt last db
    else insert_prompt conversation prompt db

unfoldable pub store_prompt : ℕ → String → Db → Db
unfolding store_prompt_after newest_first
store_prompt conversation prompt db =
    store_prompt_after conversation prompt (head? (newest_first conversation db.messages)) db

module _ (f : Floats) (parse_uuid : String → Option ℕ) (show_uuid : ℕ → String)
    (describe : BuildTypeError (f.Float) → String) {R : Type 0}
    (graphs : ContextGraphs (f.Float) R) where
  open f use {Float}

  -- `ensure_conversation_node`
  unfoldable pub ensure_conversation : Option String → Flow String
  unfolding insert_conversation
  ensure_conversation none db =
      (returned (show_uuid db.next_id), insert_conversation db.next_id none none none db)
  ensure_conversation (some text) db = (returned text, db)

  -- The inline assembly: `except Exception` passes over its failure.
  unfoldable pub assemble_inline : ContextInput Float → String → String → Flow Located
  assemble_inline input conversation window db = (
    returned (located window),
    (graphs.assemble input.build_type input.config window conversation db).1,
  )

  unfoldable pub after_insert : ContextInput Float → ℕ → ℕ × Bool × Db → Outcome Located × Db
  unfolding assemble_inline
  after_insert input conversation (id, is_new, db) =
      if is_new
      then assemble_inline input (show_uuid conversation) (show_uuid id) db
      else (returned (located (show_uuid id)), db)

  -- INSERT INTO context_windows, in a database that has the conversation.
  unfoldable pub make_window : ContextInput Float → ℕ → ℕ → Flow Located
  unfolding after_insert insert_window
  make_window input budget conversation db = after_insert input conversation (
      insert_window conversation "auto" input.build_type budget
        (find_identity conversation input.build_type budget db) db)

  unfoldable pub reuse_or_make : ContextInput Float → ℕ → ℕ → Option Window → Flow Located
  unfolding make_window insert_conversation
  reuse_or_make input budget conversation (some w) db = (returned (located (show_uuid w.id)), db)
  reuse_or_make input budget conversation none db = make_window input budget conversation (
      insert_conversation conversation (some "Recovered conversation") (some "auto") (some "system")
        db)

  unfoldable pub find_checked : ContextInput Float → ℕ → ℕ → Checked Float → Flow Located
  unfolding reuse_or_make
  find_checked input budget conversation (rejected e) db = (returned (not_located (describe e)), db)
  find_checked input budget conversation (accepted c) db =
      reuse_or_make input budget conversation (find_auto conversation input.build_type db) db

  -- `find_or_create_window_node`, with the snapped budget.
  unfoldable pub find_or_create_window : ContextInput Float → ℕ → String → Flow Located
  unfolding find_checked
  find_or_create_window input budget text = do
    conversation ← or_value_error (parse_uuid text)
    find_checked input budget conversation (get_build_type_config f input.config input.build_type)

  -- `if user_prompt and state.get("conversation_id")`, and the exceptions that are passed over.
  unfoldable pub keep_prompt : Option String → Option ℕ → Db → Db
  unfolding store_prompt
  keep_prompt none conversation db = db
  keep_prompt (some prompt) none db = db
  keep_prompt (some prompt) (some conversation) db =
      if graphs.prompt_fails then db else store_prompt conversation prompt db

  -- `route_after_window` and `retrieve_context_node`.
  unfoldable pub retrieve_context : ContextInput Float → String → Located → Flow (ContextResult R)
  unfolding keep_prompt
  retrieve_context input conversation (not_located e) db = (returned (no_context e), db)
  retrieve_context input conversation (located window) db =
      (do result ← graphs.retrieve input window; pure (context conversation window result))
        (keep_prompt (present input.user_prompt) (parse_uuid conversation) db)

  -- The graph of `build_get_context_flow`.
  unfoldable pub get_context : ContextInput Float → Flow (ContextResult R)
  unfolding ensure_conversation find_or_create_window retrieve_context
  get_context input = do
    conversation ← ensure_conversation (present input.conversation_id)
    window ← find_or_create_window input (snap_budget input.budget) conversation
    retrieve_context input conversation window
