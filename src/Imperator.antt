-- ===== src/Imperator.antt =====
-- app/imperator/state_manager.py: the conversation of the Imperator, which a file keeps over restarts.
pub mod Resume
use context_broker.Prelude.{ℕ, Bool, Option, none, some, String, if◌then◌else◌, truthy}
use context_broker.Store.{Db}
use context_broker.Conversations.Create.{has_conversation, insert_conversation}

-- What `json.load` makes of the file: it raises a ValueError; or gives a value that is no object; or
-- an object, whose field "conversation_id" is false or absent, a text, or a value of another type.
pub data Loaded : Type 0 where
  no_json : Loaded
  no_object : Loaded
  no_id : Loaded
  id_text : String → Loaded
  other_id : Loaded

-- What `_read_state_file` does: it returns an id or None, or an AttributeError leaves it.
pub data StateRead : Type 0 where
  read : Option ℕ → StateRead
  attribute_error : StateRead

-- What lies outside: ids, JSON and the file system.
pub record StateFiles : Type 0 where
  pub parse_uuid : String → Option ℕ
  pub show_uuid : ℕ → String
  -- json.dumps({"conversation_id": …})
  pub dumps : String → String
  pub loads : String → Loaded
  pub read_fails : Bool
  pub write_fails : Bool

-- The database and the file are there when the process starts again; `conversation_id` is not.
pub record Manager : Type 0 where
  pub db : Db
  pub file : Option String
  pub conversation_id : Option ℕ

module _ (ext : StateFiles) where
  -- `data.get` of a value that is no object, and `uuid.UUID` of a value that is no text, raise an
  -- AttributeError, which is not caught.
  unfoldable pub read_id : Loaded → StateRead
  read_id no_json = read none
  read_id no_object = attribute_error
  read_id no_id = read none
  read_id (id_text text) = read (if truthy text then ext.parse_uuid text else none)
  read_id other_id = attribute_error

  unfoldable pub read_state_file : Option String → StateRead
  unfolding read_id
  read_state_file none = read none
  read_state_file (some text) = if ext.read_fails then read none else read_id (ext.loads text)

  unfoldable pub write_state_file : ℕ → Option String → Option String
  write_state_file id file = if ext.write_fails then file else some (ext.dumps (ext.show_uuid id))

  -- `_create_imperator_conversation`, and the file.
  unfoldable pub create_imperator_conversation : Manager → Manager
  unfolding insert_conversation write_state_file
  create_imperator_conversation m = record {
    db =
        insert_conversation m.db.next_id (some "Imperator — System Conversation") (some "imperator")
          (some "system") m.db;
    file = write_state_file m.db.next_id m.file;
    conversation_id = some m.db.next_id;
  }

  unfoldable pub resume : Option ℕ → Manager → Manager
  unfolding create_imperator_conversation
  resume none m = create_imperator_conversation m
  resume (some id) m =
      if has_conversation id m.db
      then record m { conversation_id = some id }
      else create_imperator_conversation m

  abbrev pub after_read : StateRead → Manager → Option Manager
  after_read (read o) m = some (resume o m)
  after_read attribute_error m = none

  -- none where the AttributeError leaves it
  unfoldable pub initialize : Manager → Option Manager
  unfolding resume read_state_file
  initialize m = after_read (read_state_file m.file) m

  unfoldable pub check_conversation : Option ℕ → Manager → Manager
  unfolding create_imperator_conversation
  check_conversation none m = m
  check_conversation (some id) m =
      if has_conversation id m.db then m else create_imperator_conversation m

  -- The id that is returned is that of the manager after the call.
  unfoldable pub get_conversation_id : Manager → Option ℕ × Manager
  unfolding check_conversation
  get_conversation_id m =
      let m' = check_conversation m.conversation_id m in (m'.conversation_id, m')

-- A new process, with the database and the file of the one before.
abbrev pub restart : Manager → Manager
restart m = record m { conversation_id = none }
