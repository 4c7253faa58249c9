-- ===== src/Conversations/References.antt =====
-- The foreign keys under the writes of messages and the combination of flows.
use context_broker.Prelude.{
  ℕ, ◌≡◌, refl, ◌∙◌, true, inl, inr, Option, none, some, List, [], ◌∷◌, String, truthy, arith,
  Bool-cases, Option-cases, All-map, All-append, any, map, ◌==◌,
}
use context_broker.Floats.{Floats}
use context_broker.Store.{Conversation, Message, Db, Outcome, returned, raised, Flow, ◌>>=◌}
use context_broker.Store.Query.{find_conversation}
use context_broker.Config.{Checked, accepted, rejected, BuildTypeError, get_build_type_config}
use context_broker.TokenBudget.{ModelInfo, resolve_token_budget}
use context_broker.Pipeline.Ingest.{NewMessage, StoreResult, insert_message, collapse, new_row}
use context_broker.Pipeline.Effects.{Effect, refused, aborted, repeated, appended}
use context_broker.Conversations.Create.{
  CreateInput, has_conversation, create_conversation, create_given, create_as,
}
use context_broker.Conversations.Windows.{
  WindowInput, find_identity, window_in, create_with, create_context_window,
}
use context_broker.Conversations.Admin.{is_referred, delete_read, rename_read, retitle}
use context_broker.Conversations.Integrity.{
  IsReferential, insert_conversation-IsReferential, insert_window-IsReferential, find?-any,
  any-update, All-update, delete_rows-IsReferential,
}

-- A flow that keeps the references, however it ends.
abbrev pub KeepsReferences : {A : Type 0} → Flow A → Type 0
KeepsReferences m = (db : Db) → IsReferential db → IsReferential (m db).1

go_on-IsReferential :
    {A B : Type 0} (f : A → Flow B) (r : Outcome A × Db)
    → ((a : A) → KeepsReferences (f a))
    → IsReferential r.1
    → IsReferential
        (elim r.0 as (λ _. Outcome B × Db) [ returned a ↦ f a r.1 | raised e ↦ (raised e, r.1) ]).1
go_on-IsReferential f (returned a, db) hf h = hf a db h
go_on-IsReferential f (raised e, db) hf h = h

pub bind-KeepsReferences :
    {A B : Type 0} (m : Flow A) (f : A → Flow B)
    → KeepsReferences m
    → ((a : A) → KeepsReferences (f a))
    → KeepsReferences (m >>= f)
bind-KeepsReferences m f hm hf db h = go_on-IsReferential f (m db) hf (hm db h)

pub insert_message-IsReferential :
    (n : NewMessage) (db : Db)
    → has_conversation n.conversation_id db ≡ true
    → IsReferential db
    → IsReferential (insert_message n db)
unfolding insert_message
insert_message-IsReferential n db there h =
    let same : (k : ℕ) → has_conversation k (insert_message n db) ≡ has_conversation k db =
      λ k. any-update k (λ c. c.id == n.conversation_id) _ db.conversations (λ c. refl) in
    record {
      messages =
          All-append _ db.messages (new_row n db ∷ [])
            (All-map _ _ db.messages (λ m old. same m.conversation_id ∙ old) h.messages)
            (same n.conversation_id ∙ there, tt);
      windows = All-map _ _ db.windows (λ w old. same w.conversation_id ∙ old) h.windows;
      summaries = h.summaries;
    }

collapse-IsReferential :
    (conv : ℕ) (prev : Message) (db : Db) → IsReferential db → IsReferential (collapse conv prev db)
unfolding collapse
collapse-IsReferential conv prev db h =
    let same : (k : ℕ) → has_conversation k (collapse conv prev db) ≡ has_conversation k db =
      λ k. any-update k (λ c. c.id == conv) _ db.conversations (λ c. refl) in
    record {
      messages =
          All-update _ (λ m. m.id == prev.id) _ db.messages (λ m old. old)
            (All-map _ _ db.messages (λ m old. same m.conversation_id ∙ old) h.messages);
      windows = All-map _ _ db.windows (λ w old. same w.conversation_id ∙ old) h.windows;
      summaries = h.summaries;
    }

pub Effect-IsReferential :
    {At : ℕ → Type 0} (sender : String) (content : Option String) (db : Db)
    (r : Outcome StoreResult × Db)
    → Effect At sender content db r
    → IsReferential db
    → IsReferential r.1
Effect-IsReferential sender content db r (refused x e) h = rw e h
Effect-IsReferential sender content db r (aborted e) h = rw e h
Effect-IsReferential sender content db r (repeated c prev i a p q e) h =
    rw e (collapse-IsReferential c prev db h)
Effect-IsReferential sender content db r (appended n i row a t p q s e) h = rw e (
    insert_message-IsReferential n db
      (find?-any (λ c. c.id == n.conversation_id) db.conversations row t) h)

any-map :
    (k : ℕ) (g : Conversation → Conversation) (cs : List Conversation)
    → ((c : Conversation) → (g c).id ≡ c.id)
    → any (λ c. c.id == k) (map g cs) ≡ any (λ c. c.id == k) cs
any-map k g [] h = refl
any-map k g (c ∷ cs) h = rw (h c) (ground (arith, any-map k g cs h))

retitle-id : (id : ℕ) (title : String) (c : Conversation) → (retitle id title c).id ≡ c.id
retitle-id id title c = elim (Bool-cases (c.id == id)) [ inl e ↦ rw e refl | inr e ↦ rw e refl ]

pub rename_read-KeepsReferences :
    (text title : String) (o : Option ℕ) → KeepsReferences (rename_read text title o)
unfolding rename_read
rename_read-KeepsReferences text title none db h = h
rename_read-KeepsReferences text title (some id) db h =
    let same : (k : ℕ)
        → any (λ c. c.id == k) (map (retitle id title) db.conversations) ≡ has_conversation k db =
      λ k. any-map k (retitle id title) db.conversations (retitle-id id title) in
    record {
      messages = All-map _ _ db.messages (λ m old. same m.conversation_id ∙ old) h.messages;
      windows = All-map _ _ db.windows (λ w old. same w.conversation_id ∙ old) h.windows;
      summaries = h.summaries;
    }

pub delete_read-KeepsReferences :
    (text : String) (o : Option ℕ) → KeepsReferences (delete_read text o)
unfolding delete_read
delete_read-KeepsReferences text none db h = h
delete_read-KeepsReferences text (some id) db h = elim (Bool-cases (is_referred id db)) [
  | inl blocked ↦ rw blocked h
  | inr free ↦ rw free (delete_rows-IsReferential id db h)
]

module _ (parse_uuid : String → Option ℕ) (show_uuid : ℕ → String) where
  create_as-KeepsReferences :
      (input : CreateInput) (text : String) (o : Option ℕ)
      → KeepsReferences (create_as parse_uuid show_uuid input text o)
  unfolding create_as
  create_as-KeepsReferences input text none db h = h
  create_as-KeepsReferences input text (some id) db h =
      insert_conversation-IsReferential id input.title input.flow_id input.user_id db h

  create_given-KeepsReferences :
      (input : CreateInput) (o : Option String)
      → KeepsReferences (create_given parse_uuid show_uuid input o)
  unfolding create_given
  create_given-KeepsReferences input none db h =
      create_as-KeepsReferences input "" (some db.next_id) db h
  create_given-KeepsReferences input (some text) db h = elim (Bool-cases (truthy text)) [
    | inl t ↦ rw t (create_as-KeepsReferences input text (parse_uuid text) db h)
    | inr t ↦ rw t (create_as-KeepsReferences input text (some db.next_id) db h)
  ]

  pub create_conversation-KeepsReferences :
      (input : CreateInput) → KeepsReferences (create_conversation parse_uuid show_uuid input)
  unfolding create_conversation
  create_conversation-KeepsReferences input =
      create_given-KeepsReferences input input.conversation_id

  module _ (f : Floats) (describe : BuildTypeError (f.Float) → String)
      (get_models : String → Option String → Option (List ModelInfo)) where
    open f use {Float}

    window_in-IsReferential :
        (input : WindowInput Float) (budget id : ℕ) (row : Option Conversation) (db : Db)
        → find_conversation id db.conversations ≡ row
        → IsReferential db
        → IsReferential
            (window_in f parse_uuid show_uuid describe get_models input budget id row db).1
    unfolding window_in
    window_in-IsReferential input budget id none db e h = h
    window_in-IsReferential input budget id (some row) db e h =
        insert_window-IsReferential id input.participant_id input.build_type budget
          (find_identity id input.build_type budget db) db
          (find?-any (λ c. c.id == id) db.conversations row e) h

    create_with-KeepsReferences :
        (input : WindowInput Float) (checked : Checked Float)
        → KeepsReferences (create_with f parse_uuid show_uuid describe get_models input checked)
    unfolding create_with
    create_with-KeepsReferences input (rejected e) db h = h
    create_with-KeepsReferences input (accepted c) db h =
        elim (Option-cases (parse_uuid input.conversation_id)) [
          | inl bad ↦ rw bad h
          | inr (id, good) ↦ rw good (
              window_in-IsReferential input
                (resolve_token_budget get_models input.provider input.settings
                  input.max_tokens_override)
                id (find_conversation id db.conversations) db refl h)
        ]

    pub create_context_window-KeepsReferences :
        (input : WindowInput Float)
        → KeepsReferences (create_context_window f parse_uuid show_uuid describe get_models input)
    unfolding create_context_window
    create_context_window-KeepsReferences input =
        create_with-KeepsReferences input (get_build_type_config f input.config input.build_type)
