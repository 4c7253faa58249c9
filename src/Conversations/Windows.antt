-- ===== src/Conversations/Windows.antt =====
-- conversation_ops_flow.py: the creation of a context window and the search for windows.
use context_broker.Prelude.{
  ℕ, ◌+◌, min, Bool, true, false, ◌&&◌, Option, none, some, List, [], ◌∷◌, ◌++◌, String, leb, ◌==◌,
  if◌then◌else◌, find?, keep, take, sort_by, str_eq, truthy, cat,
}
use context_broker.Floats.{Floats}
use context_broker.Store.{
  Conversation, Window, Db, returned, Flow, pure, gets, or_value_error, ◌>>=◌,
}
use context_broker.Store.Query.{find_conversation, find_window}
use context_broker.Config.{
  Config, Checked, accepted, rejected, BuildTypeError, get_build_type_config,
}
use context_broker.TokenBudget.{BudgetSettings, Provider, ModelInfo, resolve_token_budget}
use context_broker.Conversations.Create.{Created, refused, created}

-- The inputs of CreateContextWindowState. The budget's settings and the provider are parts of the
-- configuration.
pub record WindowInput (F : Type 0) : Type 0 where
  pub conversation_id : String
  pub participant_id : String
  pub build_type : String
  pub max_tokens_override : Option ℕ
  pub config : Config F
  pub provider : Provider
  pub settings : BudgetSettings

-- The columns of the unique index idx_context_windows_identity.
abbrev pub has_identity : ℕ → String → ℕ → Window → Bool
has_identity conversation build_type budget w =
    w.conversation_id == conversation
    && str_eq w.build_type build_type
    && w.max_token_budget == budget

abbrev pub new_window : ℕ → String → String → ℕ → Db → Window
new_window conversation participant build_type budget db = record {
  id = db.next_id;
  conversation_id = conversation;
  participant_id = participant;
  build_type = build_type;
  max_token_budget = budget;
  last_assembled_at = none;
  last_accessed_at = none;
  created_at = db.clock;
}

abbrev pub add_window : Window → Db → Db
add_window w db = record db { windows = db.windows ++ w ∷ []; next_id = db.next_id + 1 }

-- INSERT INTO context_windows … ON CONFLICT DO NOTHING, and the SELECT of the row that is there: the
-- id of the window, whether it is new, and the database.
unfoldable pub insert_window : ℕ → String → String → ℕ → Option Window → Db → ℕ × Bool × Db
insert_window conversation participant build_type budget (some w) db = (w.id, false, db)
insert_window conversation participant build_type budget none db =
    (db.next_id, true, add_window (new_window conversation participant build_type budget db) db)

abbrev pub find_identity : ℕ → String → ℕ → Db → Option Window
find_identity conversation build_type budget db =
    find? (has_identity conversation build_type budget) db.windows

module _ (f : Floats) (parse_uuid : String → Option ℕ) (show_uuid : ℕ → String)
    (describe : BuildTypeError (f.Float) → String)
    (get_models : String → Option String → Option (List ModelInfo)) where
  open f use {Float}

  -- `create_context_window_node`, with the budget and the conversation's row.
  unfoldable pub window_in : WindowInput Float → ℕ → ℕ → Option Conversation → Flow Created
  unfolding insert_window
  window_in input budget conversation none db =
      (returned (refused (cat ("Conversation " ∷ input.conversation_id ∷ " not found" ∷ []))), db)
  window_in input budget conversation (some row) db =
      let (id, is_new, db') =
        insert_window conversation input.participant_id input.build_type budget
          (find_identity conversation input.build_type budget db) db in
      (returned (created (show_uuid id)), db')

  unfoldable pub create_with : WindowInput Float → Checked Float → Flow Created
  unfolding window_in
  create_with input (rejected e) = pure (refused (describe e))
  create_with input (accepted c) = do
    id ← or_value_error (parse_uuid input.conversation_id)
    row ← gets (λ db. find_conversation id db.conversations)
    window_in input
        (resolve_token_budget get_models input.provider input.settings input.max_tokens_override) id
        row

  -- `resolve_token_budget_node`, the routing and `create_context_window_node`.
  unfoldable pub create_context_window : WindowInput Float → Flow Created
  unfolding create_with
  create_context_window input =
      create_with input (get_build_type_config f input.config input.build_type)

-- The inputs of SearchContextWindowsState.
pub record SearchInput : Type 0 where
  pub context_window_id : Option String
  pub conversation_id : Option String
  pub participant_id : Option String
  pub build_type : Option String
  pub limit : ℕ

-- `if state.get(key):`
abbrev pub present : Option String → Option String
present none = none
present (some text) = if truthy text then some text else none

-- A condition on a column that is there only if the filter is.
abbrev pub matches_text : Option String → String → Bool
matches_text none column = true
matches_text (some text) column = str_eq column text

abbrev pub matches_id : Option ℕ → ℕ → Bool
matches_id none column = true
matches_id (some id) column = column == id

-- WHERE with the conditions that are there.
abbrev pub matches_window : Option ℕ → Option String → Option String → Window → Bool
matches_window conversation participant build_type w =
    matches_id conversation w.conversation_id
    && matches_text participant w.participant_id
    && matches_text build_type w.build_type

-- ORDER BY created_at DESC
abbrev pub later_window : Window → Window → Bool
later_window a b = leb b.created_at a.created_at

unfoldable pub select_windows :
    Option ℕ → Option String → Option String → ℕ → List Window → List Window
select_windows conversation participant build_type limit windows =
    take (min limit 100)
      (sort_by later_window (keep (matches_window conversation participant build_type) windows))

abbrev pub as_list {ℓ} : {A : Type ℓ} → Option A → List A
as_list none = []
as_list (some a) = a ∷ []

module _ (parse_uuid : String → Option ℕ) where
  -- `uuid.UUID(state["conversation_id"])` of a filter that is there.
  unfoldable pub read_filter : Option String → Flow (Option ℕ)
  read_filter none = pure none
  read_filter (some text) = do id ← or_value_error (parse_uuid text); pure (some id)

  unfoldable pub search_by : SearchInput → Option String → Flow (List Window)
  unfolding read_filter select_windows
  search_by input (some text) = do
    id ← or_value_error (parse_uuid text)
    gets (λ db. as_list (find_window id db.windows))
  search_by input none = do
    conversation ← read_filter (present input.conversation_id)
    gets (λ db.
        select_windows conversation (present input.participant_id) (present input.build_type)
          input.limit db.windows)

  unfoldable pub search_context_windows : SearchInput → Flow (List Window)
  unfolding search_by
  search_context_windows input = search_by input (present input.context_window_id)
