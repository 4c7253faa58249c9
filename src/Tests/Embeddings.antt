-- ===== src/Tests/Embeddings.antt =====
-- Runs of the embedding graph on a conversation with three messages.
use context_broker.Prelude.{
  ℕ, ◌≡◌, refl, Option, str_eq, if◌then◌else◌, map, none, some, [], ◌∷◌, String,
}
use context_broker.Store.{Db, api_error, returned}
use context_broker.Embedding.{
  EmbedPipelineState, VectorReply, vector, refused, fetch_prior, invoke_embed_pipeline,
}
use context_broker.Embedding.Settled.{
  IsWritten, invoke_embed_pipeline-IsWritten, invoke_embed_pipeline_again,
}
use context_broker.Config.{get_tuning}
use context_broker.Tests.Assemblies.{numbered, settings, three_messages}

abbrev request : EmbedPipelineState ℕ
request = record {
  message_id = "3";
  conversation_id = "1";
  config = settings;
  embeddings = ("context_window_size", 1) ∷ [];
  message = none;
  embedding = none;
  assembly_jobs_queued = [];
  error = none;
}

abbrev parse : String → Option ℕ
parse s = if str_eq s "1" then some 1 else if str_eq s "3" then some 3 else none

abbrev emptied : Db
emptied = record three_messages { messages = [] }

abbrev echo : String → VectorReply
echo text = vector (text ∷ [])

-- The vector of the third message, whose text has the message before it as its context.
with_context :
    map (λ m. m.embedding) (invoke_embed_pipeline parse echo request three_messages).1.messages
    ≡ none ∷ none ∷ some "[[Context]\n[user] hello there\n[Current]\nhello there]" ∷ []
unfolding invoke_embed_pipeline fetch_prior get_tuning
with_context = refl

-- A message of another id, and an exception of the model's client.
not_there :
    invoke_embed_pipeline parse echo (record request { message_id = "1" }) emptied
    ≡ (returned (record request { message_id = "1"; error = some "Message 1 not found" }), emptied)
unfolding invoke_embed_pipeline
not_there = refl

failing :
    invoke_embed_pipeline parse (λ text. refused api_error "timeout") request three_messages ≡ (
      returned (record request {
        message = some (numbered 3);
        error = some "Embedding failed: timeout";
      }),
      three_messages,
    )
unfolding invoke_embed_pipeline fetch_prior get_tuning
failing = refl

invoke_embed_pipeline-IsWritten_example :
    IsWritten parse echo request three_messages
      (invoke_embed_pipeline parse echo request three_messages)
invoke_embed_pipeline-IsWritten_example =
    invoke_embed_pipeline-IsWritten parse echo request three_messages refl refl

invoke_embed_pipeline_again_example :
    let run = invoke_embed_pipeline parse echo request in
    (run (run three_messages).1).1 ≡ (run three_messages).1
invoke_embed_pipeline_again_example =
    invoke_embed_pipeline_again parse echo request three_messages refl refl
