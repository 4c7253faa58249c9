-- ===== src/Pipeline/Outcomes.antt =====
-- The ways in which a call of `store_message` can end, for the conversation that it is about.
use context_broker.Prelude.{ℕ, ◌+◌, ◌≡◌, ◌⊎◌, false, true, Option, none, some, List, String, head?}
use context_broker.Store.{Conversation, Message, Db, value_error, Outcome, returned, raised}
use context_broker.Store.Query.{newest_first, messages_of, find_conversation, max_sequence}
use context_broker.Pipeline.Ingest.{
  MessageInput, NewMessage, StoreResult, failed, stored, collapse, insert_message,
}
use context_broker.Pipeline.Effects.{IsAddressed}
use context_broker.Pipeline.Sameness.{IsSame}

-- The newest row, if there is one, is not the same message.
abbrev pub IsNew : Option Message → String → Option String → Type 0
IsNew none sender content = Unit
IsNew (some prev) sender content = ¬ IsSame prev sender content

module _ (parse_uuid : String → Option ℕ) (show_uuid : ℕ → String)
    (dumps : List String → String) where
  -- A refusal or a ValueError that changes nothing; a repetition of the newest message of the
  -- conversation that the input is about, which counts it up; or a new row of that conversation.
  abbrev pub Settles : MessageInput → Db → Outcome StoreResult × Db → Type 0
  Settles input db r =
      (((e : String) × (r ≡ (returned (failed e), db))) ⊎ (r ≡ (raised value_error, db)))
      ⊎ (((conv : ℕ) × (prev : Message) × (cid : String) × IsAddressed parse_uuid show_uuid dumps
              input db conv
            × (head? (newest_first conv db.messages) ≡ some prev)
            × IsSame prev input.sender input.content
            × (r ≡ (returned (stored prev.id cid none true), collapse conv prev db)))
          ⊎ ((n : NewMessage) × (cid : String) × (row : Conversation) × IsAddressed parse_uuid
                show_uuid dumps input db n.conversation_id
              × (find_conversation n.conversation_id db.conversations ≡ some row)
              × (n.sender ≡ input.sender)
              × (n.content ≡ input.content)
              × IsNew (head? (newest_first n.conversation_id db.messages)) input.sender
                  input.content
              × (r ≡ (
                returned (
                    stored db.next_id cid
                      (some (max_sequence (messages_of n.conversation_id db.messages) + 1)) false),
                insert_message n db,
              ))))
