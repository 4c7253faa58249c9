-- ===== src/Embedding/Settled.antt =====
-- The ends of a run of the embedding graph, and a run after it.
use context_broker.Prelude.{
  ℕ, ◌≡◌, refl, sym, ap, ap₂, subst, ◌∙◌, true, false, ◌⊎◌, inl, inr, Bool-cases, Option, none,
  some, Option-cases, [], ◌∷◌, cat, String, truthy, or_empty,
}
use Prim.Native.String
use text.Mathlib.TextLemmas.{cons-append}
use context_broker.Store.{Message, Db, Exception, Outcome, value_error, returned, raised, ◌>>=◌}
use context_broker.Store.Running.{bind_returned, bind_raised}
use context_broker.Workers.Embedding.{Vector, vec_str}
use context_broker.Embedding.{
  EmbedPipelineState, VectorReply, vector, refused, is_caught, find_message, embed_text,
  fetch_message, embed_content, after_vector, route_after_fetch, route_after_embed,
  enqueue_context_assembly, invoke_embed_pipeline,
}
use context_broker.Embedding.Again.{
  set_embedding_again, find-set_embedding, embed_text-reads, embed_text_again,
}
use context_broker.Embedding.Stored.{stored, IsEmbedded, fetch_found, goes_on, invoke_stored}

abbrev Outcome-cases :
    {A : Type 0} (o : Outcome A) → ((a : A) × (o ≡ returned a)) ⊎ ((e : Exception) × (o ≡ raised e))
Outcome-cases (returned a) = inl (a, refl)
Outcome-cases (raised e) = inr (e, refl)

abbrev Reply-cases :
    (r : VectorReply)
    → ((v : Vector) × (r ≡ vector v)) ⊎ ((e : Exception) × (why : String) × (r ≡ refused e why))
Reply-cases (vector v) = inl (v, refl)
Reply-cases (refused e why) = inr (e, why, refl)

truthy-append : (s t : String) → truthy s ≡ true → truthy (String.◌++◌ s t) ≡ true
truthy-append String.[] t h = absurd (cc h)
truthy-append (String.◌∷◌ c s) t h = rw cons-append refl

module _ {F : Type 0} (parse_uuid : String → Option ℕ) (aembed_query : String → VectorReply) where
  abbrev NoVector : Outcome (EmbedPipelineState F) → Type 0
  NoVector (raised e) = Unit
  NoVector (returned s) = s.embedding ≡ none

  abbrev IsUnwritten : Db → Outcome (EmbedPipelineState F) × Db → Type 0
  IsUnwritten db r = (r.1 ≡ db) × NoVector r.0

  route_none :
      (s : EmbedPipelineState F) (db : Db)
      → s.embedding ≡ none
      → IsUnwritten db (route_after_embed parse_uuid aembed_query s db)
  unfolding route_after_embed enqueue_context_assembly
  route_none s db blank = elim (Bool-cases (truthy (or_empty s.error))) [
    | inl stops ↦ rw stops (refl, blank)
    | inr on ↦ rw on (rw blank (refl, blank))
  ]

  vector_refused :
      (s : EmbedPipelineState F) (e : Exception) (why : String) (db : Db)
      → s.embedding ≡ none
      → IsUnwritten db
          ((after_vector (refused e why) s >>= route_after_embed parse_uuid aembed_query) db)
  unfolding after_vector
  vector_refused s e why db blank = elim (Bool-cases (is_caught e)) [
    | inl caught ↦ rw caught (route_none _ db blank)
    | inr thrown ↦ rw thrown (refl, tt)
  ]

  abbrev prepare : EmbedPipelineState F → Message → Db → Outcome String
  prepare s m db =
      (embed_text parse_uuid s.config s.embeddings s.conversation_id m (or_empty m.content) db).0

  embed_ends :
      (s : EmbedPipelineState F) (m : Message) (db : Db)
      → s.embedding ≡ none
      → ((v : Vector) × (text : String) × (prepare s m db ≡ returned text)
          × (aembed_query text ≡ vector v))
        ⊎ IsUnwritten db (
            (embed_content parse_uuid aembed_query m (or_empty m.content) s
                >>= route_after_embed parse_uuid aembed_query)
              db)
  unfolding embed_content
  embed_ends s m db blank =
      let content = or_empty m.content in
      let asked = embed_text parse_uuid s.config s.embeddings s.conversation_id m content in
      let same = embed_text-reads parse_uuid s.config s.embeddings s.conversation_id m content db in
      let route = route_after_embed parse_uuid aembed_query in
      elim (Outcome-cases (prepare s m db)) [
        | inr (e, raises) ↦ inr (
            subst (λ r. IsUnwritten db (((λ _. r) >>= route) db))
              (sym (
                bind_raised asked (λ t. after_vector (aembed_query t) s) e db db
                  (ap₂ (λ o d. (o, d)) raises same)))
              (refl, tt))
        | inl (text, ready) ↦ elim (Reply-cases (aembed_query text)) [
          | inl (v, answered) ↦ inl (v, text, ready, answered)
          | inr (e, why, answered) ↦ inr (
              subst (λ r. IsUnwritten db (((λ _. r) >>= route) db))
                (sym (
                  bind_returned asked (λ t. after_vector (aembed_query t) s) text db db
                    (ap₂ (λ o d. (o, d)) ready same)
                  ∙ ap (λ a. after_vector a s db) answered))
                (vector_refused s e why db blank))
        ]
      ]

  fetch_unread :
      (s : EmbedPipelineState F) (db : Db)
      → parse_uuid s.message_id ≡ none
      → fetch_message parse_uuid s db ≡ (raised value_error, db)
  unfolding fetch_message
  fetch_unread s db unread = rw unread refl

  abbrev not_found : EmbedPipelineState F → EmbedPipelineState F
  not_found s = record s { error = some (cat ("Message " ∷ s.message_id ∷ " not found" ∷ [])) }

  fetch_missing :
      (s : EmbedPipelineState F) (id : ℕ) (db : Db)
      → parse_uuid s.message_id ≡ some id
      → find_message id db.messages ≡ none
      → fetch_message parse_uuid s db ≡ (returned (not_found s), db)
  unfolding fetch_message
  fetch_missing s id db read missing = rw (read, missing) refl

  route_error :
      (s : EmbedPipelineState F) (db : Db)
      → s.embedding ≡ none
      → IsUnwritten db (route_after_fetch parse_uuid aembed_query (not_found s) db)
  unfolding route_after_fetch
  route_error s db blank =
      let said = truthy-append "Message " (cat (s.message_id ∷ " not found" ∷ [])) refl in
      rw said (refl, blank)

  found_cases :
      (s : EmbedPipelineState F) (m : Message) (db : Db)
      → s.error ≡ none
      → s.embedding ≡ none
      → ((truthy (or_empty m.content) ≡ true)
          × (v : Vector) × (text : String) × (prepare s m db ≡ returned text)
          × (aembed_query text ≡ vector v))
        ⊎ IsUnwritten db
            (route_after_fetch parse_uuid aembed_query (record s { message = some m }) db)
  found_cases s m db clean blank =
      let s' = record s { message = some m } in
      let goes = goes_on parse_uuid aembed_query s m in
      elim (Bool-cases (truthy (or_empty m.content))) [
        | inr empty ↦ inr (
            subst (IsUnwritten db) (sym (goes false db clean empty))
              (route_none (record s' { embedding = none }) db refl))
        | inl filled ↦ elim (embed_ends s' m db blank) [
          | inl (v, text, ready, answered) ↦ inl (filled, v, text, ready, answered)
          | inr unwritten ↦ inr (subst (IsUnwritten db) (sym (goes true db clean filled)) unwritten)
        ]
      ]

  invoke_cases :
      (s : EmbedPipelineState F) (db : Db)
      → s.error ≡ none
      → s.embedding ≡ none
      → ((id : ℕ) × (v : Vector) × IsEmbedded parse_uuid aembed_query s id v db)
        ⊎ IsUnwritten db (invoke_embed_pipeline parse_uuid aembed_query s db)
  unfolding invoke_embed_pipeline
  invoke_cases s db clean blank =
      let fetch = fetch_message parse_uuid s in
      let route = route_after_fetch parse_uuid aembed_query in
      elim (Option-cases (parse_uuid s.message_id)) [
        | inl unread ↦ inr (
            subst (IsUnwritten db)
              (sym (bind_raised fetch route value_error db db (fetch_unread s db unread)))
              (refl, tt))
        | inr (id, read) ↦ elim (Option-cases (find_message id db.messages)) [
          | inl missing ↦ inr (
              subst (IsUnwritten db)
                (sym (
                  bind_returned fetch route (not_found s) db db
                    (fetch_missing s id db read missing)))
                (route_error s db blank))
          | inr (m, found) ↦ elim (found_cases s m db clean blank) [
            | inl (filled, v, text, ready, answered) ↦ inl (
              id,
              v,
              record {
                m = m;
                text = text;
                id_read = read;
                found = found;
                filled = filled;
                prepared = ready;
                answered = answered;
              },
            )
            | inr unwritten ↦ inr (
                subst (IsUnwritten db)
                  (sym (
                    bind_returned fetch route (record s { message = some m }) db db
                      (fetch_found parse_uuid aembed_query s id m db read found)))
                  unwritten)
          ]
        ]
      ]

  -- Where the run returns a vector, the database differs in the vectors of the rows with that id.
  abbrev pub IsWritten : EmbedPipelineState F → Db → Outcome (EmbedPipelineState F) × Db → Type 0
  IsWritten s db (raised e, db') = db' ≡ db
  IsWritten s db (returned s', db') = elim s'.embedding [
    | none ↦ db' ≡ db
    | some v ↦ (id : ℕ) × (parse_uuid s.message_id ≡ some id) × (db' ≡ stored id v db)
  ]

  unwritten-IsWritten :
      (s : EmbedPipelineState F) (db : Db) (r : Outcome (EmbedPipelineState F) × Db)
      → IsUnwritten db r
      → IsWritten s db r
  unwritten-IsWritten s db (raised e, db') h = h.0
  unwritten-IsWritten s db (returned s', db') h = rw h.1 h.0

  -- From a state without an error and a vector, whatever the ids, the configuration, the database and
  -- the embedding model's answers: a run that returns a vector has stored it in the row of the
  -- message's id and changed nothing else, and every other run, also one that raises, leaves the
  -- database as it is.
  pub invoke_embed_pipeline-IsWritten :
      (s : EmbedPipelineState F) (db : Db)
      → s.error ≡ none
      → s.embedding ≡ none
      → IsWritten s db (invoke_embed_pipeline parse_uuid aembed_query s db)
  invoke_embed_pipeline-IsWritten s db clean blank = elim (invoke_cases s db clean blank) [
    | inl (id, v, h) ↦
        subst (IsWritten s db) (sym (invoke_stored parse_uuid aembed_query s id v db clean h))
          (id, h.id_read, refl)
    | inr unwritten ↦ unwritten-IsWritten s db _ unwritten
  ]

  stored-IsEmbedded :
      (s : EmbedPipelineState F) (id : ℕ) (v : Vector) (db : Db)
      → IsEmbedded parse_uuid aembed_query s id v db
      → IsEmbedded parse_uuid aembed_query s id v (stored id v db)
  stored-IsEmbedded s id v db h = record {
    m = record h.m { embedding = some (vec_str v) };
    text = h.text;
    id_read = h.id_read;
    found = find-set_embedding id (vec_str v) h.m db.messages h.found;
    filled = h.filled;
    prepared =
        embed_text_again parse_uuid s.config s.embeddings s.conversation_id h.m
          (or_empty h.m.content) id (vec_str v) db
        ∙ h.prepared;
    answered = h.answered;
  }

  -- From a state without an error and a vector: embedding a message a second time, with a model that
  -- answers by the text alone, leaves the database as the first run left it, since a vector that is
  -- stored does not change the text that is embedded.
  pub invoke_embed_pipeline_again :
      (s : EmbedPipelineState F) (db : Db)
      → s.error ≡ none
      → s.embedding ≡ none
      → let run = invoke_embed_pipeline parse_uuid aembed_query s in (run (run db).1).1 ≡ (run db).1
  invoke_embed_pipeline_again s db clean blank =
      let run = invoke_embed_pipeline parse_uuid aembed_query s in
      elim (invoke_cases s db clean blank) [
        | inr unwritten ↦ ap (λ d. (run d).1) unwritten.0
        | inl (id, v, h) ↦
            let first = ap (λ r. r.1) (invoke_stored parse_uuid aembed_query s id v db clean h) in
            let second =
              invoke_stored parse_uuid aembed_query s id v (stored id v db) clean
                (stored-IsEmbedded s id v db h) in
            ap (λ d. (run d).1) first
            ∙ ap (λ r. r.1) second
            ∙ ap (λ ms. record db { messages = ms })
                (set_embedding_again id (vec_str v) db.messages)
            ∙ sym first
      ]
