-- ===== src/Tests/Messages.antt =====
-- Messages that are stored in a conversation with one message, with ids that are written in decimal.
use context_broker.Prelude.{
  ℕ, ◌≡◌, refl, Bool, true, false, Option, none, some, List, [], ◌∷◌, String, arith, str_eq,
  if◌then◌else◌, ◌==◌,
}
use context_broker.Store.{Message, Window, LockTable, Db, returned}
use context_broker.Store.Query.{messages_of}
use context_broker.Pipeline.Ingest.{MessageInput, store_message, stored}
use context_broker.Pipeline.Counters.{IsConsistent, store_message-IsConsistent}
use context_broker.Pipeline.Repeats.{HasNoRepeat, store_message-HasNoRepeat}

abbrev pub parse_id : String → Option ℕ
parse_id s = if str_eq s "1" then some 1 else if str_eq s "7" then some 7 else none

abbrev pub show_id : ℕ → String
show_id n = if n == 1 then "1" else "7"

abbrev pub dump : List String → String
dump calls = "[]"

abbrev pub no_conflict : ℕ → Bool
no_conflict n = false

abbrev pub greeting : Message
greeting = record {
  id = 10;
  conversation_id = 1;
  role = "user";
  sender = "ann";
  recipient = "assistant";
  content = some "hello there";
  tool_calls = none;
  tool_call_id = none;
  token_count = some 2;
  model_name = none;
  priority = 1;
  repeat_count = some 1;
  embedding = none;
  sequence_number = 1;
  memory_extracted = some false;
  created_at = 5;
}

abbrev pub window : Window
window = record {
  id = 7;
  conversation_id = 1;
  participant_id = "ann";
  build_type = "standard-tiered";
  max_token_budget = 8192;
  last_assembled_at = none;
  last_accessed_at = none;
  created_at = 4;
}

abbrev pub no_locks : LockTable
no_locks = record { keys = []; pool_resets = true }

abbrev pub one_message : Db
one_message = record {
  conversations =
      record {
        id = 1;
        title = none;
        flow_id = none;
        user_id = none;
        created_at = 4;
        total_messages = 1;
        estimated_token_count = 2;
        updated_at = 5;
      }
      ∷ [];
  messages = greeting ∷ [];
  windows = window ∷ [];
  summaries = [];
  locks = no_locks;
  quality_conversations = [];
  clock = 6;
  next_id = 11;
}

abbrev pub input_of : String → MessageInput
input_of text = record {
  context_window_id = some "7";
  conversation_id_input = none;
  role = "user";
  sender = "ann";
  recipient = none;
  content = some text;
  model_name = none;
  tool_calls = none;
  tool_call_id = none;
}

one_message-IsConsistent : IsConsistent one_message
one_message-IsConsistent = record { counted = ((refl, refl), tt); numbered = λ c. ground arith }

one_message-IsRepeatFree : (c : ℕ) → HasNoRepeat (messages_of c one_message.messages)
one_message-IsRepeatFree c = ground arith

-- A second message gets the number 2.
stores_next :
    (store_message parse_id show_id dump no_conflict (input_of "how are you") one_message).0
    ≡ returned (stored 11 "1" (some 2) false)
unfolding store_message
stores_next = refl

-- The same message again is collapsed.
collapses :
    (store_message parse_id show_id dump no_conflict (input_of "hello there") one_message).0
    ≡ returned (stored 10 "1" none true)
unfolding store_message
collapses = refl

store_message-IsConsistent_example :
    IsConsistent
      (store_message parse_id show_id dump no_conflict (input_of "how are you") one_message).1
store_message-IsConsistent_example =
    store_message-IsConsistent parse_id show_id dump no_conflict (input_of "how are you")
      one_message one_message-IsConsistent

store_message-HasNoRepeat_example :
    let r = store_message parse_id show_id dump no_conflict (input_of "how are you") one_message in
    HasNoRepeat (messages_of 1 r.1.messages)
store_message-HasNoRepeat_example =
    store_message-HasNoRepeat parse_id show_id dump no_conflict (input_of "how are you") one_message
      one_message-IsConsistent one_message-IsRepeatFree 1
