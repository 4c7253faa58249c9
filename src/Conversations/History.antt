-- ===== src/Conversations/History.antt =====
-- conversation_ops_flow.py, `load_conversation_and_messages`.
use context_broker.Prelude.{
  ℕ, zero, suc, Bool, Option, none, some, List, [], ◌∷◌, String, leb, take, sort_by, cat,
}
use context_broker.Store.{Conversation, Message, returned, Flow, or_value_error, ◌>>=◌}
use context_broker.Store.Query.{find_conversation, messages_of, newest_first}

-- The error, or the conversation with its messages.
pub data History : Type 0 where
  not_found : String → History
  history : Conversation → List Message → History

-- ORDER BY sequence_number ASC
abbrev pub older : Message → Message → Bool
older a b = leb a.sequence_number b.sequence_number

abbrev pub oldest_first : List Message → List Message
oldest_first rows = sort_by older rows

-- The two queries: `if limit:` holds for a limit that is there and not 0.
unfoldable pub history_rows : Option ℕ → ℕ → List Message → List Message
history_rows none conversation messages = oldest_first (messages_of conversation messages)
history_rows (some zero) conversation messages = oldest_first (messages_of conversation messages)
history_rows (some (suc n)) conversation messages =
    oldest_first (take (suc n) (newest_first conversation messages))

module _ (parse_uuid : String → Option ℕ) where
  unfoldable pub history_of : String → Option ℕ → ℕ → Option Conversation → Flow History
  unfolding history_rows
  history_of text limit id none db =
      (returned (not_found (cat ("Conversation " ∷ text ∷ " not found" ∷ []))), db)
  history_of text limit id (some row) db =
      (returned (history row (history_rows limit id db.messages)), db)

  unfoldable pub load_conversation_and_messages : String → Option ℕ → Flow History
  unfolding history_of
  load_conversation_and_messages text limit = do
    id ← or_value_error (parse_uuid text)
    λ db. history_of text limit id (find_conversation id db.conversations) db
