-- ===== src/Workers/Embedding.antt =====
-- db_worker.py, `_embedding_worker`.
pub mod Progress
use context_broker.Prelude.{
  ℕ, zero, suc, ◌+◌, Bool, true, false, ◌&&◌, ◌||◌, Option, none, some, List, [], ◌∷◌, String, ◌==◌,
  ltb, leb, not, if◌then◌else◌, is_some, keep, map, take, sort_by, update_where, cat, join,
}
use context_broker.Store.{Message, Db}

-- embedding IS NULL AND content IS NOT NULL
abbrev pub is_unembedded : Message → Bool
is_unembedded m = not (is_some m.embedding) && is_some m.content

-- ORDER BY priority DESC, created_at ASC
abbrev pub more_urgent : Message → Message → Bool
more_urgent a b =
    ltb b.priority a.priority || (a.priority == b.priority && leb a.created_at b.created_at)

unfoldable pub embedding_batch : ℕ → List Message → List Message
embedding_batch batch_size messages =
    take batch_size (sort_by more_urgent (keep is_unembedded messages))

-- A vector by its components, as `str` writes them.
abbrev pub Vector : Type 0
Vector = List String

-- "[" + ",".join(…) + "]"
abbrev pub vec_str : Vector → String
vec_str v = cat ("[" ∷ join "," v ∷ "]" ∷ [])

abbrev pub zeros : ℕ → Vector
zeros zero = []
zeros (suc n) = "0" ∷ zeros n

-- UPDATE conversation_messages SET embedding = … WHERE id = …
abbrev pub set_embedding : ℕ → String → List Message → List Message
set_embedding id text = update_where (λ m. m.id == id) (λ m. record m { embedding = some text })

-- `for row, vector in zip(rows, vectors)`
unfoldable pub store_vectors : List Message → List Vector → List Message → List Message
store_vectors [] vectors messages = messages
store_vectors (row ∷ rows) [] messages = messages
store_vectors (row ∷ rows) (v ∷ vs) messages =
    store_vectors rows vs (set_embedding row.id (vec_str v) messages)

-- `for row in rows` with the zero vector.
unfoldable pub store_zeros : ℕ → List Message → List Message → List Message
store_zeros dims [] messages = messages
store_zeros dims (row ∷ rows) messages =
    store_zeros dims rows (set_embedding row.id (vec_str (zeros dims)) messages)

-- What becomes of the request for the vectors: they are there, it takes too long, it raises one of the
-- exceptions of the inner `except`, or something else in the body raises one of the outer one, after
-- the first of the vectors were stored.
pub data Answer : Type 0 where
  embedded : List Vector → Answer
  timed_out : Answer
  failed : Answer
  broken : List Vector → Answer

pub record EmbeddingWorker : Type 0 where
  pub messages : List Message
  pub consecutive_failures : ℕ

-- The branch of a failure: from the fifth on, the batch is given up.
unfoldable pub after_failure : ℕ → List Message → EmbeddingWorker → EmbeddingWorker
unfolding store_zeros
after_failure dims rows s =
    if leb 5 (s.consecutive_failures + 1)
    then record { messages = store_zeros dims rows s.messages; consecutive_failures = 0 }
    else record s { consecutive_failures = s.consecutive_failures + 1 }

-- The body of the loop with its batch; with no rows it only waits.
unfoldable pub embed_batch : ℕ → List Message → Answer → EmbeddingWorker → EmbeddingWorker
unfolding store_vectors after_failure
embed_batch dims [] answer s = s
embed_batch dims (row ∷ rows) (embedded vectors) s = record {
  messages = store_vectors (row ∷ rows) vectors s.messages;
  consecutive_failures = 0;
}
embed_batch dims (row ∷ rows) timed_out s = record s {
  consecutive_failures = s.consecutive_failures + 1;
}
embed_batch dims (row ∷ rows) failed s = after_failure dims (row ∷ rows) s
embed_batch dims (row ∷ rows) (broken vectors) s = record {
  messages = store_vectors (row ∷ rows) vectors s.messages;
  consecutive_failures = s.consecutive_failures + 1;
}

unfoldable pub embedding_step : ℕ → ℕ → Answer → EmbeddingWorker → EmbeddingWorker
unfolding embed_batch embedding_batch
embedding_step batch_size dims answer s =
    embed_batch dims (embedding_batch batch_size s.messages) answer s

-- The loop, for the answers of its rounds.
unfoldable pub embedding_loop : ℕ → ℕ → List Answer → EmbeddingWorker → EmbeddingWorker
unfolding embedding_step
embedding_loop batch_size dims [] s = s
embedding_loop batch_size dims (answer ∷ answers) s =
    embedding_loop batch_size dims answers (embedding_step batch_size dims answer s)
