-- ===== src/Embedding.antt =====
-- embed_pipeline.py: the graph that embeds one stored message with its context. Where a size is not
-- positive the source takes no context, as the model does for 0. The embedding model is a parameter,
-- a function of the text.
pub mod Again
pub mod Stored
pub mod Settled
use context_broker.Prelude.{
  ℕ, Bool, true, false, ◌&&◌, Option, none, some, List, [], ◌∷◌, String, if◌then◌else◌, is_some,
  map, reverse, take, keep, find?, ◌==◌, sort_by, ltb, cat, join, truthy, or_empty,
}
use context_broker.Store.{
  Message, Db, Exception, value_error, type_error, api_error, Outcome, returned, raised, Flow, pure,
  raise, gets, modify, or_value_error, ◌>>=◌, ◌>>◌,
}
use context_broker.Store.Query.{in_conversation, newer}
use context_broker.Tiers.{get_or}
use context_broker.Config.{Config, get_tuning, lookup}
use context_broker.Enriched.Graph.{text_prefix}
use context_broker.Workers.Embedding.{Vector, vec_str, set_embedding}

pub record EmbedPipelineState (F : Type 0) : Type 0 where
  pub message_id : String
  pub conversation_id : String
  pub config : Config F
  -- config["embeddings"]
  pub embeddings : List (String × ℕ)
  pub message : Option Message
  pub embedding : Option Vector
  pub assembly_jobs_queued : List String
  pub error : Option String

-- What becomes of a request to the embedding model: a vector, or an exception with its text.
pub data VectorReply : Type 0 where
  vector : Vector → VectorReply
  refused : Exception → String → VectorReply

-- except (openai.APIError, httpx.HTTPError, ValueError)
abbrev pub is_caught : Exception → Bool
is_caught api_error = true
is_caught value_error = true
is_caught _ = false

-- SELECT * FROM conversation_messages WHERE id = $1
abbrev pub find_message : ℕ → List Message → Option Message
find_message id = find? (λ m. m.id == id)

-- WHERE conversation_id = $1 AND sequence_number < $2
abbrev pub is_prior : ℕ → ℕ → Message → Bool
is_prior c n m = in_conversation c m && ltb m.sequence_number n

-- … ORDER BY sequence_number DESC LIMIT $3
unfoldable pub fetch_prior : ℕ → ℕ → ℕ → List Message → List Message
fetch_prior c n limit messages = take limit (sort_by newer (keep (is_prior c n) messages))

-- f"[{r['role']}] {(r.get('content') or '')[:n]}"
abbrev pub prior_line : ℕ → Message → String
prior_line n m = cat ("[" ∷ m.role ∷ "] " ∷ text_prefix n (or_empty m.content) ∷ [])

-- The text with the rows that are given newest first, if there are any.
abbrev pub contextual : ℕ → String → List Message → String
contextual n content [] = content
contextual n content (row ∷ rows) = cat (
    "[Context]\n"
    ∷ join "\n" (map (prior_line n) (reverse (row ∷ rows)))
    ∷ "\n[Current]\n"
    ∷ content
    ∷ [])

module _ {F : Type 0} (parse_uuid : String → Option ℕ) where
  unfoldable pub fetch_message : EmbedPipelineState F → Flow (EmbedPipelineState F)
  fetch_message s = or_value_error (parse_uuid s.message_id) >>= λ id.
      gets (λ db. find_message id db.messages) >>= λ row. elim row [
        | none ↦
            pure (record s { error = some (cat ("Message " ∷ s.message_id ∷ " not found" ∷ [])) })
        | some m ↦ pure (record s { message = some m })
      ]

  -- The text that is embedded for a content.
  unfoldable pub embed_text : Config F → List (String × ℕ) → String → Message → String → Flow String
  unfolding fetch_prior
  embed_text config embeddings conversation_id m content =
      let size = get_or (lookup "context_window_size" embeddings) 3 in
      let chars = get_tuning config "content_truncation_chars" 500 in
      if ltb 0 size
      then (or_value_error (parse_uuid conversation_id) >>= λ c.
          gets (λ db. contextual chars content (fetch_prior c m.sequence_number size db.messages)))
      else pure content

  unfoldable pub store_embedding : Vector → EmbedPipelineState F → Flow (EmbedPipelineState F)
  store_embedding embedding s = or_value_error (parse_uuid s.message_id) >>= λ id.
      modify (λ db. record db { messages = set_embedding id (vec_str embedding) db.messages })
      >> pure s

module _ {F : Type 0} where
  unfoldable pub enqueue_context_assembly : EmbedPipelineState F → Flow (EmbedPipelineState F)
  enqueue_context_assembly s = pure (record s { assembly_jobs_queued = [] })

  unfoldable pub after_vector : VectorReply → EmbedPipelineState F → Flow (EmbedPipelineState F)
  after_vector (vector v) s = pure (record s { embedding = some v })
  after_vector (refused e text) s =
      if is_caught e
      then pure (record s { error = some (cat ("Embedding failed: " ∷ text ∷ [])) })
      else raise e

module _ {F : Type 0} (parse_uuid : String → Option ℕ) (aembed_query : String → VectorReply) where
  unfoldable pub embed_content :
      Message → String → EmbedPipelineState F → Flow (EmbedPipelineState F)
  unfolding embed_text after_vector
  embed_content m content s =
      embed_text parse_uuid s.config s.embeddings s.conversation_id m content >>= λ text.
      after_vector (aembed_query text) s

  unfoldable pub generate_embedding : Message → EmbedPipelineState F → Flow (EmbedPipelineState F)
  unfolding embed_content
  generate_embedding m s =
      if truthy (or_empty m.content)
      then embed_content m (or_empty m.content) s
      else pure (record s { embedding = none })

  -- `route_after_embed` with the nodes that it leads to.
  unfoldable pub route_after_embed : EmbedPipelineState F → Flow (EmbedPipelineState F)
  unfolding store_embedding enqueue_context_assembly
  route_after_embed s = if truthy (or_empty s.error) then pure s else elim s.embedding [
    | none ↦ enqueue_context_assembly s
    | some v ↦ store_embedding parse_uuid v s >>= enqueue_context_assembly
  ]

  -- `route_after_fetch` with the rest of the graph; without an error the message is there.
  unfoldable pub route_after_fetch : EmbedPipelineState F → Flow (EmbedPipelineState F)
  unfolding generate_embedding route_after_embed
  route_after_fetch s = if truthy (or_empty s.error) then pure s else elim s.message [
    | none ↦ raise type_error
    | some m ↦ generate_embedding m s >>= route_after_embed
  ]

  unfoldable pub invoke_embed_pipeline : EmbedPipelineState F → Flow (EmbedPipelineState F)
  unfolding fetch_message route_after_fetch
  invoke_embed_pipeline s = fetch_message parse_uuid s >>= route_after_fetch
