-- ===== src/Pipeline/Ingest.antt =====
-- message_pipeline.py, `store_message`: the conversation of the message, the transaction with its
-- collapse of a repeated message, and the retry after a conflict of sequence numbers.
use context_broker.Prelude.{
  ℕ, ◌+◌, Bool, true, false, ◌&&◌, Option, none, some, List, [], ◌∷◌, ◌++◌, String, ◌==◌,
  if◌then◌else◌, is_some, str_eq, opt_eq, truthy, cat, head?, update_where, estimate_tokens,
}
use context_broker.Store.{
  Conversation, Message, Window, Db, unique_violation, Outcome, returned, raised, Flow, pure, gets,
  or_value_error, ◌>>=◌,
}
use context_broker.Store.Query.{
  messages_of, newest_first, max_sequence, find_conversation, find_window,
}
use context_broker.Pipeline.Roles.{detect_tool_error_role, role_priority, resolve_recipient}

-- The inputs of MessagePipelineState.
pub record MessageInput : Type 0 where
  pub context_window_id : Option String
  pub conversation_id_input : Option String
  pub role : String
  pub sender : String
  pub recipient : Option String
  pub content : Option String
  pub model_name : Option String
  pub tool_calls : Option (List String)
  pub tool_call_id : Option String

-- The dictionary that the node returns: an error, or what was stored. A sequence number is absent
-- where the message was collapsed.
pub data StoreResult : Type 0 where
  failed : String → StoreResult
  stored : ℕ → String → Option ℕ → Bool → StoreResult

-- `max(1, len(content) // 4) if content else 0`
abbrev pub effective_token_count : Option String → ℕ
effective_token_count none = 0
effective_token_count (some s) = if truthy s then estimate_tokens s else 0

-- `(prev_msg["repeat_count"] or 1) + 1`
abbrev pub next_repeat : Option ℕ → ℕ
next_repeat none = 2
next_repeat (some n) = if n == 0 then 2 else n + 1

-- The test of the collapse: the newest message has this sender and this content, which is not null.
abbrev pub is_repeat : Option Message → String → Option String → Bool
is_repeat none sender content = false
is_repeat (some prev) sender content =
    str_eq prev.sender sender && opt_eq prev.content content && is_some content

-- The columns of the row that the transaction inserts, as the node derives them.
pub record NewMessage : Type 0 where
  pub conversation_id : ℕ
  pub role : String
  pub sender : String
  pub recipient : String
  pub content : Option String
  pub priority : ℕ
  pub token_count : ℕ
  pub model_name : Option String
  pub tool_calls : Option String
  pub tool_call_id : Option String

-- UPDATE conversation_messages SET repeat_count, and UPDATE conversations SET updated_at.
unfoldable pub collapse : ℕ → Message → Db → Db
collapse conv prev db = record db {
  messages =
      update_where (λ m. m.id == prev.id)
        (λ m. record m { repeat_count = some (next_repeat prev.repeat_count) }) db.messages;
  conversations =
      update_where (λ c. c.id == conv) (λ c. record c { updated_at = db.clock }) db.conversations;
}

abbrev pub new_row : NewMessage → Db → Message
new_row n db = record {
  id = db.next_id;
  conversation_id = n.conversation_id;
  role = n.role;
  sender = n.sender;
  recipient = n.recipient;
  content = n.content;
  tool_calls = n.tool_calls;
  tool_call_id = n.tool_call_id;
  token_count = some n.token_count;
  model_name = n.model_name;
  priority = n.priority;
  repeat_count = some 1;
  embedding = none;
  sequence_number = max_sequence (messages_of n.conversation_id db.messages) + 1;
  memory_extracted = some false;
  created_at = db.clock;
}

-- INSERT INTO conversation_messages with the next sequence number, and the counters' UPDATE.
unfoldable pub insert_message : NewMessage → Db → Db
insert_message n db = record db {
  messages = db.messages ++ new_row n db ∷ [];
  conversations =
      update_where (λ c. c.id == n.conversation_id)
        (λ c. record c {
          total_messages = c.total_messages + 1;
          estimated_token_count = c.estimated_token_count + n.token_count;
          updated_at = db.clock;
        })
        db.conversations;
  next_id = db.next_id + 1;
}

-- The INSERT branch. `conflict` says that it meets the unique index, since another session committed
-- the same sequence number; then nothing of the transaction stays.
unfoldable pub insert_new : Bool → String → NewMessage → Flow StoreResult
unfolding insert_message
insert_new conflict conversation_id n db = if conflict then (raised unique_violation, db) else (
  returned (stored db.next_id conversation_id (some (new_row n db).sequence_number) false),
  insert_message n db,
)

-- The body of the transaction, after the newest message was read.
unfoldable pub collapse_or_insert : Option Message → Bool → String → NewMessage → Flow StoreResult
unfolding collapse insert_new
collapse_or_insert none conflict conversation_id n db = insert_new conflict conversation_id n db
collapse_or_insert (some prev) conflict conversation_id n db =
    if is_repeat (some prev) n.sender n.content
    then (returned (stored prev.id conversation_id none true), collapse n.conversation_id prev db)
    else insert_new conflict conversation_id n db

unfoldable pub transaction : Bool → String → NewMessage → Flow StoreResult
unfolding collapse_or_insert newest_first
transaction conflict conversation_id n db =
    collapse_or_insert (head? (newest_first n.conversation_id db.messages)) conflict conversation_id
      n db

-- The second attempt, after a conflict of the first; a conflict of both is an error.
unfoldable pub after_second : String → Outcome StoreResult × Db → Outcome StoreResult × Db
after_second conversation_id (raised unique_violation, db) = (
  returned
      (failed (cat ("Failed to assign sequence number for conversation " ∷ conversation_id ∷ []))),
  db,
)
after_second conversation_id r = r

unfoldable pub after_first :
    Bool → String → NewMessage → Outcome StoreResult × Db → Outcome StoreResult × Db
unfolding transaction after_second
after_first conflict conversation_id n (raised unique_violation, db) =
    after_second conversation_id (transaction conflict conversation_id n db)
after_first conflict conversation_id n r = r

-- `for _attempt in range(2)`: the n-th attempt meets a conflict where `conflicts n` says so.
unfoldable pub store_attempts : (ℕ → Bool) → String → NewMessage → Flow StoreResult
unfolding after_first
store_attempts conflicts conversation_id n db =
    after_first (conflicts 1) conversation_id n (transaction (conflicts 0) conversation_id n db)

-- `if cw_id: … elif conv_id_input: … else: …`
pub data Target : Type 0 where
  by_window : String → Target
  by_conversation : String → Target
  unspecified : Target

abbrev pub given : Option String → Target → (String → Target) → Target
given none other use_it = other
given (some text) other use_it = if truthy text then use_it text else other

unfoldable pub target_of : MessageInput → Target
target_of input =
    given input.context_window_id (given input.conversation_id_input unspecified by_conversation)
      by_window

-- Either the error of the node or the id of the conversation, as a text.
pub data Resolution : Type 0 where
  unresolved : String → Resolution
  resolved : String → Resolution

-- `json.dumps(state["tool_calls"]) if state.get("tool_calls") else None`
abbrev pub dump_calls : (List String → String) → Option (List String) → Option String
dump_calls dumps none = none
dump_calls dumps (some []) = none
dump_calls dumps (some (call ∷ calls)) = some (dumps (call ∷ calls))

-- The columns of the new row, for an existing conversation.
unfoldable pub derive : (List String → String) → ℕ → MessageInput → NewMessage
derive dumps conv_uuid input =
    let role = detect_tool_error_role input.content input.role in
    record {
      conversation_id = conv_uuid;
      role = role;
      sender = input.sender;
      recipient = resolve_recipient input.recipient role;
      content = input.content;
      priority = role_priority role;
      token_count = effective_token_count input.content;
      model_name = input.model_name;
      tool_calls = dump_calls dumps input.tool_calls;
      tool_call_id = input.tool_call_id;
    }

-- The library's functions on ids and JSON are parameters.
module _ (parse_uuid : String → Option ℕ) (show_uuid : ℕ → String)
    (dumps : List String → String) where
  unfoldable pub window_conversation : String → Option Window → Resolution
  window_conversation cw_id none = unresolved (cat ("Context window " ∷ cw_id ∷ " not found" ∷ []))
  window_conversation cw_id (some row) = resolved (show_uuid row.conversation_id)

  unfoldable pub resolve_conversation : Target → Flow Resolution
  unfolding window_conversation
  resolve_conversation (by_window cw_id) = do
    id ← or_value_error (parse_uuid cw_id)
    gets (λ db. window_conversation cw_id (find_window id db.windows))
  resolve_conversation (by_conversation conv_id) = pure (resolved conv_id)
  resolve_conversation unspecified =
      pure (unresolved "At least one of context_window_id or conversation_id must be provided")

  unfoldable pub store_in :
      (ℕ → Bool) → MessageInput → String → ℕ → Option Conversation → Flow StoreResult
  unfolding store_attempts derive
  store_in conflicts input conversation_id conv_uuid none =
      pure (failed (cat ("Conversation " ∷ conversation_id ∷ " not found" ∷ [])))
  store_in conflicts input conversation_id conv_uuid (some row) =
      store_attempts conflicts conversation_id (derive dumps conv_uuid input)

  unfoldable pub store_resolved : (ℕ → Bool) → MessageInput → Resolution → Flow StoreResult
  unfolding store_in
  store_resolved conflicts input (unresolved error) = pure (failed error)
  store_resolved conflicts input (resolved conversation_id) = do
    conv_uuid ← or_value_error (parse_uuid conversation_id)
    conversation ← gets (λ db. find_conversation conv_uuid db.conversations)
    store_in conflicts input conversation_id conv_uuid conversation

  unfoldable pub store_message : (ℕ → Bool) → MessageInput → Flow StoreResult
  unfolding target_of resolve_conversation store_resolved
  store_message conflicts input = do
    resolution ← resolve_conversation (target_of input)
    store_resolved conflicts input resolution
