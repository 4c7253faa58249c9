-- ===== src/Conversations/Create.antt =====
-- conversation_ops_flow.py, `create_conversation_node`.
use context_broker.Prelude.{
  ℕ, ◌+◌, max, Bool, Option, none, some, [], ◌∷◌, ◌++◌, String, ◌==◌, if◌then◌else◌, any, truthy,
  cat,
}
use context_broker.Store.{Conversation, Db, returned, Flow}

-- The inputs of CreateConversationState.
pub record CreateInput : Type 0 where
  pub conversation_id : Option String
  pub title : Option String
  pub flow_id : Option String
  pub user_id : Option String

-- An error, or the id in the dictionary that the node returns.
pub data Created : Type 0 where
  refused : String → Created
  created : String → Created

abbrev pub has_conversation : ℕ → Db → Bool
has_conversation id db = any (λ c. c.id == id) db.conversations

abbrev pub new_conversation : ℕ → Option String → Option String → Option String → Db → Conversation
new_conversation id title flow_id user_id db = record {
  id = id;
  title = title;
  flow_id = flow_id;
  user_id = user_id;
  created_at = db.clock;
  total_messages = 0;
  estimated_token_count = 0;
  updated_at = db.clock;
}

-- INSERT INTO conversations … ON CONFLICT (id) DO NOTHING. An id of the caller counts as given, so a
-- later fresh one differs from it.
unfoldable pub insert_conversation : ℕ → Option String → Option String → Option String → Db → Db
insert_conversation id title flow_id user_id db = if has_conversation id db then db else record db {
  conversations = db.conversations ++ new_conversation id title flow_id user_id db ∷ [];
  next_id = max db.next_id (id + 1);
}

module _ (parse_uuid : String → Option ℕ) (show_uuid : ℕ → String) where
  unfoldable pub create_as : CreateInput → String → Option ℕ → Flow Created
  unfolding insert_conversation
  create_as input text none db =
      (returned (refused (cat ("Invalid conversation_id format: " ∷ text ∷ []))), db)
  create_as input text (some id) db = (
    returned (created (show_uuid id)),
    insert_conversation id input.title input.flow_id input.user_id db,
  )

  -- `new_id` where the caller gives an id, or none.
  unfoldable pub create_given : CreateInput → Option String → Flow Created
  unfolding create_as
  create_given input none db = create_as input "" (some db.next_id) db
  create_given input (some text) db =
      if truthy text
      then create_as input text (parse_uuid text) db
      else create_as input text (some db.next_id) db

  unfoldable pub create_conversation : CreateInput → Flow Created
  unfolding create_given
  create_conversation input = create_given input input.conversation_id
