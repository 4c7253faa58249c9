-- ===== src/Workers/Embedding/Progress.antt =====
-- How far the loop of `_embedding_worker` gets.
use context_broker.Prelude.{
  ℕ, ◌*◌, ◌-◌, ◌≤◌, ◌<◌, min, ◌≡◌, Bool, true, false, ◌&&◌, List, [], ◌∷◌, String, arith, ◌==◌,
  keep, sort_by, length, any, All, All-map, All-keep_cons, All-sort_by, All-take, length-take,
  length-sort_by, ap, ◌∙◌,
}
use context_broker.Store.{Message}
use context_broker.Workers.Embedding.{
  is_unembedded, more_urgent, embedding_batch, Vector, vec_str, zeros, set_embedding, store_vectors,
  store_zeros, Answer, embedded, timed_out, failed, broken, EmbeddingWorker, after_failure,
  embed_batch, embedding_step, embedding_loop,
}

abbrev pub pending : List Message → ℕ
pending ms = length (keep is_unembedded ms)

-- An id that a row without a vector has.
abbrev is_pending_id : ℕ → List Message → Bool
is_pending_id id = any (λ m. is_unembedded m && m.id == id)

set_embedding_le :
    (id : ℕ) (text : String) (ms : List Message) → pending (set_embedding id text ms) ≤ pending ms
set_embedding_le id text [] = omega arith
set_embedding_le id text (m ∷ ms) = ground (arith, set_embedding_le id text ms)

set_embedding_lt :
    (id : ℕ) (text : String) (ms : List Message)
    → is_pending_id id ms ≡ true
    → pending (set_embedding id text ms) < pending ms
set_embedding_lt id text [] h = absurd (cc h)
set_embedding_lt id text (m ∷ ms) h =
    ground (arith, set_embedding_lt id text ms, set_embedding_le id text ms)

store_vectors_le :
    (rows : List Message) (vs : List Vector) (ms : List Message)
    → pending (store_vectors rows vs ms) ≤ pending ms
unfolding store_vectors
store_vectors_le [] vs ms = omega arith
store_vectors_le (row ∷ rows) [] ms = omega arith
store_vectors_le (row ∷ rows) (v ∷ vs) ms =
    let ms' = set_embedding row.id (vec_str v) ms in
    omega (arith, store_vectors_le rows vs ms', set_embedding_le row.id (vec_str v) ms)

store_zeros_le :
    (dims : ℕ) (rows : List Message) (ms : List Message)
    → pending (store_zeros dims rows ms) ≤ pending ms
unfolding store_zeros
store_zeros_le dims [] ms = omega arith
store_zeros_le dims (row ∷ rows) ms =
    let ms' = set_embedding row.id (vec_str (zeros dims)) ms in
    omega (arith, store_zeros_le dims rows ms', set_embedding_le row.id (vec_str (zeros dims)) ms)

pending_ids : (ms : List Message) → All (λ m. is_pending_id m.id ms ≡ true) (keep is_unembedded ms)
pending_ids [] = tt
pending_ids (m ∷ ms) =
    let rest : All (λ n. is_pending_id n.id (m ∷ ms) ≡ true) (keep is_unembedded ms) =
      All-map _ _ (keep is_unembedded ms) (λ n h. ground (arith, h)) (pending_ids ms) in
    All-keep_cons _ is_unembedded m ms (λ new. ground arith) rest

batch_ids :
    (n : ℕ) (ms : List Message) → All (λ m. is_pending_id m.id ms ≡ true) (embedding_batch n ms)
unfolding embedding_batch
batch_ids n ms =
    All-take _ n (sort_by more_urgent (keep is_unembedded ms))
      (All-sort_by _ more_urgent (keep is_unembedded ms) (pending_ids ms))

length-embedding_batch :
    (n : ℕ) (ms : List Message) → length (embedding_batch n ms) ≡ min n (pending ms)
unfolding embedding_batch
length-embedding_batch n ms =
    length-take n (sort_by more_urgent (keep is_unembedded ms))
    ∙ ap (min n) (length-sort_by more_urgent (keep is_unembedded ms))

-- A request that gives vectors, or that fails with an exception of its own.
abbrev pub is_helpful : Answer → Bool
is_helpful (embedded []) = false
is_helpful (embedded (v ∷ vs)) = true
is_helpful timed_out = false
is_helpful failed = true
is_helpful (broken vectors) = false

-- How many rounds are needed at most.
abbrev rounds_left : EmbeddingWorker → ℕ
rounds_left s = 5 * pending s.messages - min 4 s.consecutive_failures

embed_batch_progress :
    (n dims : ℕ) (rows : List Message) (answer : Answer) (s : EmbeddingWorker)
    → 0 < n
    → length rows ≡ min n (pending s.messages)
    → All (λ m. is_pending_id m.id s.messages ≡ true) rows
    → is_helpful answer ≡ true
    → rounds_left (embed_batch dims rows answer s) ≤ rounds_left s - 1
unfolding embed_batch store_vectors after_failure store_zeros
embed_batch_progress n dims [] answer s pos len ids h = omega (arith, len)
embed_batch_progress n dims (row ∷ rows) (embedded []) s pos len ids h = absurd (cc h)
embed_batch_progress n dims (row ∷ rows) (embedded (v ∷ vs)) s pos len ids h =
    let ms' = set_embedding row.id (vec_str v) s.messages in
    omega
      (arith, store_vectors_le rows vs ms', set_embedding_lt row.id (vec_str v) s.messages ids.0)
embed_batch_progress n dims (row ∷ rows) timed_out s pos len ids h = absurd (cc h)
embed_batch_progress n dims (row ∷ rows) failed s pos len ids h =
    let ms' = set_embedding row.id (vec_str (zeros dims)) s.messages in
    let le = store_zeros_le dims rows ms' in
    let lt = set_embedding_lt row.id (vec_str (zeros dims)) s.messages ids.0 in
    ground (arith, le, lt, len)
embed_batch_progress n dims (row ∷ rows) (broken vectors) s pos len ids h = absurd (cc h)

embedding_step_progress :
    (n dims : ℕ) (answer : Answer) (s : EmbeddingWorker)
    → 0 < n
    → is_helpful answer ≡ true
    → rounds_left (embedding_step n dims answer s) ≤ rounds_left s - 1
unfolding embedding_step
embedding_step_progress n dims answer s pos h =
    embed_batch_progress n dims (embedding_batch n s.messages) answer s pos
      (length-embedding_batch n s.messages) (batch_ids n s.messages) h

embedding_loop_progress :
    (n dims : ℕ) (answers : List Answer) (s : EmbeddingWorker)
    → 0 < n
    → All (λ a. is_helpful a ≡ true) answers
    → rounds_left (embedding_loop n dims answers s) ≤ rounds_left s - length answers
unfolding embedding_loop
embedding_loop_progress n dims [] s pos h = omega arith
embedding_loop_progress n dims (answer ∷ answers) s pos h =
    let s' = embedding_step n dims answer s in
    omega (
      arith,
      embedding_loop_progress n dims answers s' pos h.1,
      embedding_step_progress n dims answer s pos h.0,
    )

-- The loop makes progress where each request for vectors gives at least one or fails with an exception
-- of its own, in any mixture: whatever the count of failures at the beginning, after five rounds for
-- each message without a vector every message with a content has one, if the batch size is positive.
-- A batch that keeps failing gets zero vectors.
pub embedding_loop_drains :
    (batch_size dims : ℕ) (answers : List Answer) (s : EmbeddingWorker)
    → 0 < batch_size
    → All (λ a. is_helpful a ≡ true) answers
    → 5 * pending s.messages ≤ length answers
    → pending (embedding_loop batch_size dims answers s).messages ≡ 0
embedding_loop_drains batch_size dims answers s pos h enough =
    omega (arith, embedding_loop_progress batch_size dims answers s pos h)
