-- ===== src/Embedding/Stored.antt =====
-- What a run of the embedding graph leaves in the database.
use context_broker.Prelude.{
  ℕ, ◌≡◌, refl, ap₂, ◌∙◌, Bool, true, Option, none, some, [], String, if◌then◌else◌, truthy,
  or_empty,
}
use context_broker.Store.{Message, Db, returned, pure, ◌>>=◌}
use context_broker.Store.Running.{bind_returned}
use context_broker.Workers.Embedding.{Vector, vec_str, set_embedding}
use context_broker.Embedding.{
  EmbedPipelineState, VectorReply, vector, find_message, embed_text, fetch_message,
  generate_embedding, embed_content, after_vector, route_after_fetch, route_after_embed,
  store_embedding, enqueue_context_assembly, invoke_embed_pipeline,
}
use context_broker.Embedding.Again.{embed_text-reads}

abbrev pub stored : ℕ → Vector → Db → Db
stored id v db = record db { messages = set_embedding id (vec_str v) db.messages }

module _ {F : Type 0} (parse_uuid : String → Option ℕ) (aembed_query : String → VectorReply) where
  -- The message is there, with a content whose text the model embeds.
  pub record IsEmbedded (s : EmbedPipelineState F) (id : ℕ) (v : Vector) (db : Db) : Type 0 where
    pub m : Message
    pub text : String
    pub id_read : parse_uuid s.message_id ≡ some id
    pub found : find_message id db.messages ≡ some m
    pub filled : truthy (or_empty m.content) ≡ true
    pub prepared :
        (embed_text parse_uuid s.config s.embeddings s.conversation_id m (or_empty m.content) db).0
        ≡ returned text
    pub answered : aembed_query text ≡ vector v

  pub fetch_found :
      (s : EmbedPipelineState F) (id : ℕ) (m : Message) (db : Db)
      → parse_uuid s.message_id ≡ some id
      → find_message id db.messages ≡ some m
      → fetch_message parse_uuid s db ≡ (returned (record s { message = some m }), db)
  unfolding fetch_message
  fetch_found s id m db id_read found = rw (id_read, found) refl

  embed_answered :
      (s : EmbedPipelineState F) (m : Message) (content text : String) (v : Vector) (db : Db)
      → (embed_text parse_uuid s.config s.embeddings s.conversation_id m content db).0
        ≡ returned text
      → aembed_query text ≡ vector v
      → embed_content parse_uuid aembed_query m content s db
        ≡ (returned (record s { embedding = some v }), db)
  unfolding embed_content after_vector
  embed_answered s m content text v db prepared answered =
      bind_returned (embed_text parse_uuid s.config s.embeddings s.conversation_id m content)
        (λ text. after_vector (aembed_query text) s) text db db
        (ap₂ (λ o d. (o, d)) prepared
          (embed_text-reads parse_uuid s.config s.embeddings s.conversation_id m content db))
      ∙ rw answered refl

  route_vector :
      (s : EmbedPipelineState F) (id : ℕ) (v : Vector) (db : Db)
      → s.error ≡ none
      → parse_uuid s.message_id ≡ some id
      → route_after_embed parse_uuid aembed_query (record s { embedding = some v }) db
        ≡ (returned (record s { embedding = some v; assembly_jobs_queued = [] }), stored id v db)
  unfolding route_after_embed store_embedding enqueue_context_assembly
  route_vector s id v db clean id_read = rw (clean, id_read) refl

  -- With a message, the graph goes on as its content asks for.
  pub goes_on :
      (s : EmbedPipelineState F) (m : Message) (filled : Bool) (db : Db)
      → s.error ≡ none
      → truthy (or_empty m.content) ≡ filled
      → let s' = record s { message = some m } in
        route_after_fetch parse_uuid aembed_query s' db
        ≡ ((if filled
                then embed_content parse_uuid aembed_query m (or_empty m.content) s'
                else pure (record s' { embedding = none }))
              >>= route_after_embed parse_uuid aembed_query)
            db
  unfolding route_after_fetch generate_embedding
  goes_on s m filled db clean content =
      let s' = record s { message = some m } in
      let rest = embed_content parse_uuid aembed_query m (or_empty m.content) s' in
      ap₂
        (λ e b.
          (if truthy (or_empty e)
              then pure s'
              else ((if b then rest else pure (record s' { embedding = none }))
                  >>= route_after_embed parse_uuid aembed_query))
            db)
        clean content

  pub invoke_stored :
      (s : EmbedPipelineState F) (id : ℕ) (v : Vector) (db : Db)
      → s.error ≡ none
      → (h : IsEmbedded s id v db)
      → invoke_embed_pipeline parse_uuid aembed_query s db ≡ (
        returned (record s { message = some h.m; embedding = some v; assembly_jobs_queued = [] }),
        stored id v db,
      )
  unfolding invoke_embed_pipeline
  invoke_stored s id v db clean h =
      let s' = record s { message = some h.m } in
      bind_returned (fetch_message parse_uuid s) (route_after_fetch parse_uuid aembed_query) s' db
        db (fetch_found s id h.m db h.id_read h.found)
      ∙ goes_on s h.m true db clean h.filled
      ∙ bind_returned (embed_content parse_uuid aembed_query h.m (or_empty h.m.content) s')
          (route_after_embed parse_uuid aembed_query) (record s' { embedding = some v }) db db
          (embed_answered s' h.m (or_empty h.m.content) h.text v db h.prepared h.answered)
      ∙ route_vector s' id v db clean h.id_read
