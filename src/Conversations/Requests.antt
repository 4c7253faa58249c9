-- ===== src/Conversations/Requests.antt =====
-- The requests that write, of conversation_ops_flow.py and message_pipeline.py, one after the other.
use context_broker.Prelude.{ℕ, Bool, Option, List, [], ◌∷◌, String}
use context_broker.Floats.{Floats}
use context_broker.Store.{Db}
use context_broker.Config.{BuildTypeError}
use context_broker.TokenBudget.{ModelInfo}
use context_broker.Pipeline.Ingest.{MessageInput, store_message}
use context_broker.Pipeline.Effects.{store_message-Effect}
use context_broker.Conversations.Create.{CreateInput, create_conversation}
use context_broker.Conversations.Windows.{WindowInput, create_context_window}
use context_broker.Conversations.Admin.{delete_conversation, rename_conversation}
use context_broker.Conversations.Context.{ContextInput, ContextGraphs, get_context}
use context_broker.Conversations.Integrity.{IsReferential}
use context_broker.Conversations.References.{
  Effect-IsReferential, rename_read-KeepsReferences, delete_read-KeepsReferences,
  create_conversation-KeepsReferences, create_context_window-KeepsReferences,
}
use context_broker.Conversations.GetContext.{GraphsKeepReferences, get_context-KeepsReferences}

-- A request, and for a message which attempts meet a conflict.
pub data Request (F : Type 0) : Type 0 where
  creating : CreateInput → Request F
  creating_window : WindowInput F → Request F
  getting_context : ContextInput F → Request F
  storing : (ℕ → Bool) → MessageInput → Request F
  renaming : String → String → Request F
  deleting : String → Request F

module _ (f : Floats) (parse_uuid : String → Option ℕ) (show_uuid : ℕ → String)
    (dumps : List String → String) (describe : BuildTypeError (f.Float) → String)
    (get_models : String → Option String → Option (List ModelInfo)) {R : Type 0}
    (graphs : ContextGraphs (f.Float) R) where
  open f use {Float}

  -- The database after a request.
  abbrev pub serve : Request Float → Db → Db
  serve (creating input) db = (create_conversation parse_uuid show_uuid input db).1
  serve (creating_window input) db =
      (create_context_window f parse_uuid show_uuid describe get_models input db).1
  serve (getting_context input) db = (get_context f parse_uuid show_uuid describe graphs input db).1
  serve (storing conflicts input) db =
      (store_message parse_uuid show_uuid dumps conflicts input db).1
  serve (renaming text title) db = (rename_conversation parse_uuid text title db).1
  serve (deleting text) db = (delete_conversation parse_uuid text db).1

  abbrev pub serve_all : List (Request Float) → Db → Db
  serve_all [] db = db
  serve_all (r ∷ rs) db = serve_all rs (serve r db)

  module _ (laws : GraphsKeepReferences show_uuid graphs) where
    serve-IsReferential :
        (r : Request Float) (db : Db) → IsReferential db → IsReferential (serve r db)
    unfolding rename_conversation delete_conversation
    serve-IsReferential (creating input) db h =
        create_conversation-KeepsReferences parse_uuid show_uuid input db h
    serve-IsReferential (creating_window input) db h =
        create_context_window-KeepsReferences parse_uuid show_uuid f describe get_models input db h
    serve-IsReferential (getting_context input) db h =
        get_context-KeepsReferences f parse_uuid show_uuid describe graphs laws input db h
    serve-IsReferential (storing conflicts input) db h =
        Effect-IsReferential input.sender input.content db _
          (store_message-Effect parse_uuid show_uuid dumps conflicts input db) h
    serve-IsReferential (renaming text title) db h =
        rename_read-KeepsReferences text title (parse_uuid text) db h
    serve-IsReferential (deleting text) db h =
        delete_read-KeepsReferences text (parse_uuid text) db h

    -- Whatever requests create conversations and windows, get contexts, store messages, rename and
    -- delete conversations, in whatever order, with whatever arguments and results: every message
    -- and every window keeps a conversation that is there, and every summary a window of its
    -- conversation, if the graphs of the build types keep them where an assembly is run for a window and
    -- its conversation.
    pub serve_all-IsReferential :
        (rs : List (Request Float)) (db : Db) → IsReferential db → IsReferential (serve_all rs db)
    serve_all-IsReferential [] db h = h
    serve_all-IsReferential (r ∷ rs) db h =
        serve_all-IsReferential rs (serve r db) (serve-IsReferential r db h)
