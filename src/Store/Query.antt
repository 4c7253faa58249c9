-- ===== src/Store/Query.antt =====
-- The queries that several flows share.
use context_broker.Prelude.{
  ℕ, max, Bool, Option, none, some, List, [], ◌∷◌, leb, ◌==◌, if◌then◌else◌, take, keep, find?,
  sort_by, or_empty, estimate_tokens,
}
use context_broker.Store.{Message, Window, Conversation}

abbrev pub in_conversation : ℕ → Message → Bool
in_conversation c m = m.conversation_id == c

-- WHERE conversation_id = $1
abbrev pub messages_of : ℕ → List Message → List Message
messages_of c = keep (in_conversation c)

-- ORDER BY sequence_number DESC
abbrev pub newer : Message → Message → Bool
newer a b = leb b.sequence_number a.sequence_number

-- WHERE conversation_id = $1 ORDER BY sequence_number DESC
unfoldable pub newest_first : ℕ → List Message → List Message
newest_first c messages = sort_by newer (messages_of c messages)

-- WHERE conversation_id = $1 ORDER BY sequence_number DESC LIMIT $2
unfoldable pub fetch_recent : ℕ → ℕ → List Message → List Message
unfolding newest_first
fetch_recent c limit messages = take limit (newest_first c messages)

-- COALESCE(MAX(sequence_number), 0)
abbrev pub max_sequence : List Message → ℕ
max_sequence [] = 0
max_sequence (m ∷ ms) = max m.sequence_number (max_sequence ms)

abbrev pub find_conversation : ℕ → List Conversation → Option Conversation
find_conversation c = find? (λ r. r.id == c)

abbrev pub find_window : ℕ → List Window → Option Window
find_window w = find? (λ r. r.id == w)

-- `msg.get("token_count") or max(1, len(msg.get("content") or "") // 4)`
unfoldable pub message_tokens : Message → ℕ
message_tokens m = elim m.token_count [
  | none ↦ estimate_tokens (or_empty m.content)
  | some n ↦ if n == 0 then estimate_tokens (or_empty m.content) else n
]
