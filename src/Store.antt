-- ===== src/Store.antt =====
-- The Postgres tables of postgres/init.sql that the flows read and write, as lists of rows in the
-- order of insertion, with the advisory locks that are held and the server's clock. Ids are numbers:
-- a fresh one is larger than those given before, as gen_random_uuid() gives an id that is not taken.
-- A flow is a function on the database that returns or raises; a statement of SQL succeeds, except
-- where the code handles its failure.
pub mod Query
pub mod Order
pub mod Running
use context_broker.Prelude.{ℕ, Bool, Option, none, some, List, [], String}

-- conversations
pub record Conversation : Type 0 where
  pub id : ℕ
  pub title : Option String
  pub flow_id : Option String
  pub user_id : Option String
  pub created_at : ℕ
  pub total_messages : ℕ
  pub estimated_token_count : ℕ
  pub updated_at : ℕ

-- conversation_messages
pub record Message : Type 0 where
  pub id : ℕ
  pub conversation_id : ℕ
  pub role : String
  pub sender : String
  pub recipient : String
  pub content : Option String
  pub tool_calls : Option String
  pub tool_call_id : Option String
  pub token_count : Option ℕ
  pub model_name : Option String
  pub priority : ℕ
  pub repeat_count : Option ℕ
  -- The vector as the text that is stored.
  pub embedding : Option String
  pub sequence_number : ℕ
  pub memory_extracted : Option Bool
  pub created_at : ℕ

-- context_windows
pub record Window : Type 0 where
  pub id : ℕ
  pub conversation_id : ℕ
  pub participant_id : String
  pub build_type : String
  pub max_token_budget : ℕ
  pub last_assembled_at : Option ℕ
  pub last_accessed_at : Option ℕ
  pub created_at : ℕ

-- conversation_summaries
pub record Summary : Type 0 where
  pub id : ℕ
  pub conversation_id : ℕ
  pub context_window_id : ℕ
  pub summary_text : String
  pub tier : ℕ
  pub summarizes_from_seq : ℕ
  pub summarizes_to_seq : ℕ
  pub message_count : Option ℕ
  pub original_token_count : Option ℕ
  pub summary_token_count : Option ℕ
  pub summarized_by_model : String
  pub is_active : Bool

-- The advisory locks that are held, by their keys, and whether the pool resets a session that it
-- takes back, which frees the locks of the session; asyncpg's pool does, by default.
pub record LockTable : Type 0 where
  pub keys : List ℕ
  pub pool_resets : Bool

pub record Db : Type 0 where
  pub conversations : List Conversation
  pub messages : List Message
  pub windows : List Window
  pub summaries : List Summary
  pub locks : LockTable
  -- The conversations that rows of cea_quality_metadata refer to.
  pub quality_conversations : List ℕ
  pub clock : ℕ
  pub next_id : ℕ

-- The exceptions that the flows tell apart.
pub data Exception : Type 0 where
  value_error : Exception
  zero_division : Exception
  unique_violation : Exception
  type_error : Exception
  overflow_error : Exception
  attribute_error : Exception
  index_error : Exception
  foreign_key_violation : Exception
  -- Another asyncpg.PostgresError.
  postgres_error : Exception
  -- An exception of the LLM's or the vector model's client.
  api_error : Exception

pub data Outcome (A : Type 0) : Type 0 where
  returned : A → Outcome A
  raised : Exception → Outcome A

abbrev pub Flow : Type 0 → Type 0
Flow A = Db → Outcome A × Db

abbrev pub pure : {A : Type 0} → A → Flow A
pure a db = (returned a, db)

abbrev pub raise : {A : Type 0} → Exception → Flow A
raise e db = (raised e, db)

infixl 5 ◌>>=◌ ◌>>◌
abbrev pub ◌>>=◌ : {A B : Type 0} → Flow A → (A → Flow B) → Flow B
◌>>=◌ m f db = let (r, db') = m db in elim r [ returned a ↦ f a db' | raised e ↦ (raised e, db') ]

abbrev pub ◌>>◌ : {A B : Type 0} → Flow A → Flow B → Flow B
m >> k = m >>= λ _. k

abbrev pub gets : {A : Type 0} → (Db → A) → Flow A
gets f db = (returned (f db), db)

abbrev pub modify : (Db → Db) → Flow (Unit {0})
modify f db = (returned tt, f db)

-- `uuid.UUID(text)`, by the parser of the library, raises a ValueError where it cannot read the text.
abbrev pub or_value_error : {A : Type 0} → Option A → Flow A
or_value_error none db = (raised value_error, db)
or_value_error (some a) db = (returned a, db)
