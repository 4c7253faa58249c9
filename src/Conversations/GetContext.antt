-- ===== src/Conversations/GetContext.antt =====
-- The requests that write, of conversation_ops_flow.py and message_pipeline.py, one after the other.
use context_broker.Prelude.{
  ℕ, ◌≡◌, refl, arith, ◌&&◌, any, List, [], ◌∷◌, ◌++◌, Bool, true, false, inl, inr, Option, none,
  some, String, Bool-cases, Option-cases, head?, ◌==◌,
}
use context_broker.Floats.{Floats}
use context_broker.Store.{Message, Window, Db, pure, ◌>>=◌}
use context_broker.Store.Query.{newest_first}
use context_broker.Config.{
  Config, Checked, accepted, rejected, BuildTypeError, get_build_type_config,
}
use context_broker.Budget.{snap_budget}
use context_broker.Pipeline.Ingest.{is_repeat}
use context_broker.Conversations.Create.{has_conversation, insert_conversation}
use context_broker.Conversations.Windows.{find_identity, present, insert_window, new_window}
use context_broker.Conversations.Reuse.{insert_conversation-has}
use context_broker.Conversations.Integrity.{
  IsReferential, insert_conversation-IsReferential, insert_window-IsReferential, All-update,
}
use context_broker.Conversations.Context.{
  ContextInput, ContextGraphs, Located, context, located, not_located, find_auto,
  ensure_conversation, assemble_inline, after_insert, make_window, reuse_or_make, find_checked,
  find_or_create_window, keep_prompt, store_prompt, store_prompt_after, insert_prompt, prompt_row,
  repeat_prompt, retrieve_context, get_context,
}
use context_broker.Conversations.References.{
  KeepsReferences, bind-KeepsReferences, insert_message-IsReferential,
}

-- A window with this id that belongs to this conversation.
abbrev pub is_pair : ℕ → ℕ → Window → Bool
is_pair window conversation w = w.id == window && w.conversation_id == conversation

any-append_last {ℓ} :
    {A : Type ℓ} (p : A → Bool) (xs : List A) (x : A) → p x ≡ true → any p (xs ++ x ∷ []) ≡ true
any-append_last p [] x h = rw h refl
any-append_last p (y ∷ ys) x h = ground (arith, any-append_last p ys x h)

-- A window that is new is there, with its conversation.
insert_window-is_pair :
    (c : ℕ) (participant build_type : String) (budget : ℕ) (o : Option Window) (db : Db)
    → (insert_window c participant build_type budget o db).1 ≡ true
    → any
        (is_pair (insert_window c participant build_type budget o db).0 c)
        (insert_window c participant build_type budget o db).2.windows
      ≡ true
unfolding insert_window
insert_window-is_pair c participant build_type budget (some w) db h = absurd (cc h)
insert_window-is_pair c participant build_type budget none db h =
    any-append_last (is_pair db.next_id c) db.windows
      (new_window c participant build_type budget db) (ground arith)

-- The graphs of the build types write no row without the rows that it refers to.
-- An assembly is run for a window and its conversation, as get_context does.
pub record GraphsKeepReferences {F R : Type 0} (show_uuid : ℕ → String) (graphs : ContextGraphs F R)
    : Type 0 where
  pub assembling :
      (build_type : String) (config : Config F) (window conversation : ℕ) (db : Db)
      → any (is_pair window conversation) db.windows ≡ true
      → IsReferential db
      → IsReferential
          (graphs.assemble build_type config (show_uuid window) (show_uuid conversation) db).1
  pub retrieving :
      (input : ContextInput F) (window : String) → KeepsReferences (graphs.retrieve input window)

insert_prompt-IsReferential :
    (id : ℕ) (prompt : String) (db : Db)
    → IsReferential db
    → IsReferential (insert_prompt id prompt db)
unfolding insert_prompt
insert_prompt-IsReferential id prompt db h = elim (Bool-cases (has_conversation id db)) [
  | inl there ↦ rw there (insert_message-IsReferential (prompt_row id prompt) db there h)
  | inr missing ↦ rw missing h
]

repeat_prompt-IsReferential :
    (last : Message) (db : Db) → IsReferential db → IsReferential (repeat_prompt last db)
repeat_prompt-IsReferential last db h = record {
  messages = All-update _ (λ m. m.id == last.id) _ db.messages (λ m old. old) h.messages;
  windows = h.windows;
  summaries = h.summaries;
}

store_prompt_after-IsReferential :
    (id : ℕ) (prompt : String) (o : Option Message) (db : Db)
    → IsReferential db
    → IsReferential (store_prompt_after id prompt o db)
unfolding store_prompt_after
store_prompt_after-IsReferential id prompt none db h = insert_prompt-IsReferential id prompt db h
store_prompt_after-IsReferential id prompt (some last) db h =
    elim (Bool-cases (is_repeat (some last) "user" (some prompt))) [
      | inl same ↦ rw same (repeat_prompt-IsReferential last db h)
      | inr other ↦ rw other (insert_prompt-IsReferential id prompt db h)
    ]

module _ (f : Floats) (parse_uuid : String → Option ℕ) (show_uuid : ℕ → String)
    (describe : BuildTypeError (f.Float) → String) {R : Type 0} (graphs : ContextGraphs (f.Float) R)
    (laws : GraphsKeepReferences show_uuid graphs) where
  open f use {Float}

  keep_prompt-IsReferential :
      (prompt : Option String) (o : Option ℕ) (db : Db)
      → IsReferential db
      → IsReferential (keep_prompt f parse_uuid show_uuid describe graphs prompt o db)
  unfolding keep_prompt store_prompt
  keep_prompt-IsReferential none o db h = h
  keep_prompt-IsReferential (some prompt) none db h = h
  keep_prompt-IsReferential (some prompt) (some id) db h = elim (Bool-cases graphs.prompt_fails) [
    | inl fails ↦ rw fails h
    | inr works ↦
        rw works
          (store_prompt_after-IsReferential id prompt (head? (newest_first id db.messages)) db h)
  ]

  after_insert-IsReferential :
      (input : ContextInput Float) (id : ℕ) (t : ℕ × Bool × Db)
      → (t.1 ≡ true → any (is_pair t.0 id) t.2.windows ≡ true)
      → IsReferential t.2
      → IsReferential (after_insert f parse_uuid show_uuid describe graphs input id t).1
  unfolding after_insert assemble_inline
  after_insert-IsReferential input id (w, true, db) pair h =
      laws.assembling input.build_type input.config w id db (pair refl) h
  after_insert-IsReferential input id (w, false, db) pair h = h

  reuse_or_make-KeepsReferences :
      (input : ContextInput Float) (budget id : ℕ) (o : Option Window)
      → KeepsReferences (reuse_or_make f parse_uuid show_uuid describe graphs input budget id o)
  unfolding reuse_or_make make_window
  reuse_or_make-KeepsReferences input budget id (some w) db h = h
  reuse_or_make-KeepsReferences input budget id none db h =
      let title = some "Recovered conversation" in
      let d = insert_conversation id title (some "auto") (some "system") db in
      let o = find_identity id input.build_type budget d in
      after_insert-IsReferential input id (insert_window id "auto" input.build_type budget o d)
        (insert_window-is_pair id "auto" input.build_type budget o d)
        (insert_window-IsReferential id "auto" input.build_type budget o d
          (insert_conversation-has id title (some "auto") (some "system") db)
          (insert_conversation-IsReferential id title (some "auto") (some "system") db h))

  find_checked-KeepsReferences :
      (input : ContextInput Float) (budget id : ℕ) (checked : Checked Float)
      → KeepsReferences
          (find_checked f parse_uuid show_uuid describe graphs input budget id checked)
  unfolding find_checked
  find_checked-KeepsReferences input budget id (rejected e) db h = h
  find_checked-KeepsReferences input budget id (accepted c) db h =
      reuse_or_make-KeepsReferences input budget id (find_auto id input.build_type db) db h

  retrieve_context-KeepsReferences :
      (input : ContextInput Float) (text : String) (l : Located)
      → KeepsReferences (retrieve_context f parse_uuid show_uuid describe graphs input text l)
  unfolding retrieve_context
  retrieve_context-KeepsReferences input text (not_located e) db h = h
  retrieve_context-KeepsReferences input text (located w) db h =
      bind-KeepsReferences (graphs.retrieve input w) (λ r. pure (context text w r))
        (laws.retrieving input w) (λ r db h. h) _
        (keep_prompt-IsReferential (present input.user_prompt) (parse_uuid text) db h)

  ensure_conversation-KeepsReferences :
      (o : Option String)
      → KeepsReferences (ensure_conversation f parse_uuid show_uuid describe graphs o)
  unfolding ensure_conversation
  ensure_conversation-KeepsReferences none db h =
      insert_conversation-IsReferential db.next_id none none none db h
  ensure_conversation-KeepsReferences (some text) db h = h

  find_or_create_window-KeepsReferences :
      (input : ContextInput Float) (budget : ℕ) (text : String)
      → KeepsReferences
          (find_or_create_window f parse_uuid show_uuid describe graphs input budget text)
  unfolding find_or_create_window
  find_or_create_window-KeepsReferences input budget text db h =
      elim (Option-cases (parse_uuid text)) [
        | inl bad ↦ rw bad h
        | inr (id, good) ↦ rw good (
            find_checked-KeepsReferences input budget id
              (get_build_type_config f input.config input.build_type) db h)
      ]

  pub get_context-KeepsReferences :
      (input : ContextInput Float)
      → KeepsReferences (get_context f parse_uuid show_uuid describe graphs input)
  unfolding get_context
  get_context-KeepsReferences input =
      let find =
        find_or_create_window f parse_uuid show_uuid describe graphs input
          (snap_budget input.budget) in
      let retrieve = retrieve_context f parse_uuid show_uuid describe graphs input in
      bind-KeepsReferences
        (ensure_conversation f parse_uuid show_uuid describe graphs (present input.conversation_id))
        (λ text. find text >>= retrieve text)
        (ensure_conversation-KeepsReferences (present input.conversation_id))
        λ text.
          bind-KeepsReferences (find text) (retrieve text)
            (find_or_create_window-KeepsReferences input (snap_budget input.budget) text)
            (retrieve_context-KeepsReferences input text)
