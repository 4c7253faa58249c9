-- ===== src/Workers/Extraction.antt =====
-- db_worker.py, `_extraction_worker`: the pass over the conversations with messages that are not
-- extracted. The extraction flow, where it is registered, is a parameter.
pub mod Retries
pub mod Failing
use context_broker.Prelude.{
  ℕ, zero, suc, ◌+◌, Bool, true, false, Option, none, some, List, [], ◌∷◌, ◌++◌, String, ◌==◌, leb,
  not, if◌then◌else◌, any, keep, update_where, ◌&&◌,
}
use context_broker.Dict.{get, put, remove}
use context_broker.Store.{Message, Db}
use context_broker.Tiers.{get_or}
use context_broker.Locks.{stable_lock_id, try_advisory_lock, advisory_unlock}

-- memory_extracted IS NOT TRUE
abbrev pub is_unextracted : Message → Bool
is_unextracted m = elim m.memory_extracted [ none ↦ true | some done ↦ not done ]

-- SELECT DISTINCT conversation_id …
abbrev pub add_new : ℕ → List ℕ → List ℕ
add_new id ids = if any (λ i. i == id) ids then ids else id ∷ ids

abbrev pub conversations_of : List Message → List ℕ
conversations_of [] = []
conversations_of (m ∷ ms) = add_new m.conversation_id (conversations_of ms)

unfoldable pub unextracted_conversations : List Message → List ℕ
unextracted_conversations messages = conversations_of (keep is_unextracted messages)

-- UPDATE conversation_messages SET memory_extracted = TRUE WHERE conversation_id = …
abbrev pub mark_extracted : ℕ → Db → Db
mark_extracted id db = record db {
  messages =
      update_where (λ m. m.conversation_id == id && is_unextracted m)
        (λ m. record m { memory_extracted = some true }) db.messages;
}

-- How a run of the flow ends: without an error, with one in its state, too late, or with an exception
-- that only the loop's own `except` catches.
pub data ExtractionResult : Type 0 where
  succeeded : ExtractionResult
  with_error : ExtractionResult
  late : ExtractionResult
  crashed : ExtractionResult

-- `_conv_failures` is a dict by the conversation's id.
pub record ExtractionWorker : Type 0 where
  pub db : Db
  pub conv_failures : List (ℕ × ℕ)

-- Whether the pass goes on with the next conversation.
pub data Pass : Type 0 where
  next : ExtractionWorker → Pass
  aborted : ExtractionWorker → Pass

abbrev pub max_conv_retries : ℕ
max_conv_retries = 3

abbrev pub failures_of : ℕ → ExtractionWorker → ℕ
failures_of id s = get_or (get ◌==◌ id s.conv_failures) 0

abbrev pub count_failure : ℕ → ExtractionWorker → ExtractionWorker
count_failure id s = record s { conv_failures = put ◌==◌ id (failures_of id s + 1) s.conv_failures }

abbrev pub unlock : ℕ → ExtractionWorker → ExtractionWorker
unlock key s = record s { db = advisory_unlock key s.db }

abbrev pub give_up : ℕ → ExtractionWorker → ExtractionWorker
give_up id s = record {
  db = mark_extracted id s.db;
  conv_failures = put ◌==◌ id (max_conv_retries + 1) s.conv_failures;
}

abbrev pub worker_of : Pass → ExtractionWorker
worker_of (next s) = s
worker_of (aborted s) = s

module _ (digest : String → ℕ) (show_uuid : ℕ → String)
    (flow : Option (ℕ → Db → ExtractionResult × Db)) where
  abbrev pub extraction_lock : ℕ → ℕ
  extraction_lock id = stable_lock_id digest (show_uuid id)

  -- After the flow, and `finally`.
  unfoldable pub after_extraction : ℕ → ExtractionResult → ExtractionWorker → Pass
  after_extraction id succeeded s =
      next
        (unlock (extraction_lock id) (record s { conv_failures = remove ◌==◌ id s.conv_failures }))
  after_extraction id with_error s = next (unlock (extraction_lock id) (count_failure id s))
  after_extraction id late s = next (unlock (extraction_lock id) (count_failure id s))
  after_extraction id crashed s = aborted (unlock (extraction_lock id) s)

  unfoldable pub extract_locked :
      Option (ℕ → Db → ExtractionResult × Db) → ℕ → ExtractionWorker → Pass
  unfolding after_extraction
  extract_locked none id s =
      next (unlock (extraction_lock id) (record s { db = mark_extracted id s.db }))
  extract_locked (some run) id s =
      let (result, db') = run id s.db in after_extraction id result (record s { db = db' })

  unfoldable pub extract_if_locked : ℕ → ExtractionWorker → Bool × Db → Pass
  unfolding extract_locked
  extract_if_locked id s (true, db) = extract_locked flow id (record s { db = db })
  extract_if_locked id s (false, db) = next s

  -- The body of the pass for a conversation.
  unfoldable pub extract_conversation : ℕ → ExtractionWorker → Pass
  unfolding extract_if_locked
  extract_conversation id s =
      if leb max_conv_retries (failures_of id s)
      then (if failures_of id s == max_conv_retries then next (give_up id s) else next s)
      else extract_if_locked id s (try_advisory_lock (extraction_lock id) s.db)

  unfoldable pub extract_each : List ℕ → Pass → Pass
  unfolding extract_conversation
  extract_each [] p = p
  extract_each (id ∷ ids) (aborted s) = aborted s
  extract_each (id ∷ ids) (next s) = extract_each ids (extract_conversation id s)

  -- One round of the loop, up to the clean-up of expired memories.
  unfoldable pub extraction_step : ExtractionWorker → Pass
  unfolding extract_each unextracted_conversations
  extraction_step s = extract_each (unextracted_conversations s.db.messages) (next s)

  -- Rounds of the loop, one after the other; the loop's own `except` ends a round that is aborted.
  unfoldable pub extraction_loop : ℕ → ExtractionWorker → ExtractionWorker
  unfolding extraction_step
  extraction_loop zero s = s
  extraction_loop (suc n) s = extraction_loop n (worker_of (extraction_step s))
