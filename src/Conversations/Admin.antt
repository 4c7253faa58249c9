-- ===== src/Conversations/Admin.antt =====
-- conversation_ops_flow.py: the deletion, the renaming and the listing of conversations.
use context_broker.Prelude.{
  ℕ, Bool, not, ◌&&◌, ◌||◌, Option, none, some, List, [], ◌∷◌, String, ◌==◌, leb, if◌then◌else◌,
  any, keep, take, drop, map, length, sort_by, str_eq, cat,
}
use context_broker.Store.{
  Conversation, Message, Window, Summary, Db, foreign_key_violation, returned, raised, Flow,
}
use context_broker.Store.Query.{messages_of}
use context_broker.Conversations.Windows.{present}

-- An error, or whether exactly one row was changed (the results DELETE 1 and UPDATE 1).
pub data Changed : Type 0 where
  invalid : String → Changed
  changed : Bool → Changed

-- context_window_id IN (SELECT id FROM context_windows WHERE conversation_id = …)
abbrev pub in_windows_of : ℕ → List Window → Summary → Bool
in_windows_of conversation windows s =
    any (λ w. w.conversation_id == conversation && w.id == s.context_window_id) windows

-- The four DELETE statements of the transaction.
unfoldable pub delete_rows : ℕ → Db → Db
delete_rows id db = record db {
  summaries = keep (λ s. not (in_windows_of id db.windows s)) db.summaries;
  windows = keep (λ w. not (w.conversation_id == id)) db.windows;
  messages = keep (λ m. not (m.conversation_id == id)) db.messages;
  conversations = keep (λ c. not (c.id == id)) db.conversations;
}

-- UPDATE conversations SET title = … WHERE id = …
abbrev pub retitle : ℕ → String → Conversation → Conversation
retitle id title c = if c.id == id then record c { title = some title } else c

-- How many rows a condition on the id selects is 1.
abbrev pub is_one_row : ℕ → List Conversation → Bool
is_one_row id conversations = length (keep (λ c. c.id == id) conversations) == 1

abbrev pub invalid_id : String → Changed
invalid_id text = invalid (cat ("Invalid conversation_id: " ∷ text ∷ []))

-- A row of cea_quality_metadata refers to a conversation without ON DELETE, so the last of the four
-- statements raises, and the transaction is rolled back.
abbrev pub is_referred : ℕ → Db → Bool
is_referred id db =
    any (λ c. c == id) db.quality_conversations && any (λ c. c.id == id) db.conversations

unfoldable pub delete_read : String → Option ℕ → Flow Changed
unfolding delete_rows
delete_read text none db = (returned (invalid_id text), db)
delete_read text (some id) db =
    if is_referred id db
    then (raised foreign_key_violation, db)
    else (returned (changed (is_one_row id db.conversations)), delete_rows id db)

unfoldable pub rename_read : String → String → Option ℕ → Flow Changed
rename_read text title none db = (returned (invalid_id text), db)
rename_read text title (some id) db = (
  returned (changed (is_one_row id db.conversations)),
  record db { conversations = map (retitle id title) db.conversations },
)

unfoldable pub delete_conversation : (String → Option ℕ) → String → Flow Changed
unfolding delete_read
delete_conversation parse_uuid text = delete_read text (parse_uuid text)

unfoldable pub rename_conversation : (String → Option ℕ) → String → String → Flow Changed
unfolding rename_read
rename_conversation parse_uuid text title = rename_read text title (parse_uuid text)

-- A row of the listing: the conversation and its number of messages.
pub record Listed : Type 0 where
  pub conversation : Conversation
  pub message_count : ℕ

-- EXISTS (SELECT 1 FROM conversation_messages …)
abbrev pub takes_part : String → List Message → Conversation → Bool
takes_part participant messages c =
    any
      (λ m.
        m.conversation_id == c.id
        && (str_eq m.sender participant || str_eq m.recipient participant))
      messages

-- ORDER BY created_at DESC
abbrev pub created_later : Conversation → Conversation → Bool
created_later a b = leb b.created_at a.created_at

abbrev pub with_count : List Message → Conversation → Listed
with_count messages c = record {
  conversation = c;
  message_count = length (messages_of c.id messages);
}

-- The conversations of a listing in its order, before LIMIT and OFFSET.
unfoldable pub listing : Option String → Db → List Listed
listing none db = map (with_count db.messages) (sort_by created_later db.conversations)
listing (some participant) db =
    map (with_count db.messages)
      (sort_by created_later (keep (takes_part participant db.messages) db.conversations))

-- LIMIT … OFFSET …
unfoldable pub list_conversations : Option String → ℕ → ℕ → Flow (List Listed)
unfolding listing
list_conversations participant limit offset db =
    (returned (take limit (drop offset (listing (present participant) db))), db)
