-- ===== src/Tests/Workers.antt =====
-- Rounds of the background workers on a few messages.
use context_broker.Prelude.{ℕ, ◌≡◌, refl, inl, none, some, List, [], ◌∷◌, arith, len}
use context_broker.Store.{Db}
use context_broker.Workers.Embedding.{Answer, embedded, failed, EmbeddingWorker, embedding_loop}
use context_broker.Workers.Embedding.Progress.{pending, embedding_loop_drains}
use context_broker.Workers.Extraction.{
  ExtractionResult, with_error, crashed, ExtractionWorker, extraction_step, extraction_loop,
  worker_of, unextracted_conversations,
}
use context_broker.Workers.Extraction.Retries.{extraction_step-locks}
use context_broker.Workers.Extraction.Failing.{GaveUp, extraction_loop-GaveUp}
use context_broker.Workers.Logging.{LogEntry, LogWorker}
use context_broker.Tests.Messages.{no_locks, show_id, greeting, one_message}

-- A batch that failed twice, and a third round with a vector.
abbrev worker : EmbeddingWorker
worker = record { messages = greeting ∷ []; consecutive_failures = 2 }

abbrev answers : List Answer
answers = failed ∷ failed ∷ embedded (("0.5" ∷ "0.25" ∷ []) ∷ []) ∷ failed ∷ failed ∷ []

embedding_loop_drains_example : pending (embedding_loop 50 2 answers worker).messages ≡ 0
embedding_loop_drains_example =
    embedding_loop_drains 50 2 answers worker (omega arith)
      (refl, (refl, (refl, (refl, (refl, tt))))) (omega arith)

abbrev extractor : ExtractionWorker
extractor = record { db = one_message; conv_failures = (1, 1) ∷ [] }

abbrev crashing : ℕ → Db → ExtractionResult × Db
crashing id db = (crashed, db)

extraction_step-locks_example :
    (worker_of (extraction_step len show_id (some crashing) extractor)).db.locks ≡ no_locks
extraction_step-locks_example =
    extraction_step-locks len show_id (some crashing) extractor (λ id db. refl)

abbrev erring : ℕ → Db → ExtractionResult × Db
erring id db = (with_error, db)

extractor_only : unextracted_conversations extractor.db.messages ≡ (1 ∷ [])
unfolding unextracted_conversations
extractor_only = refl

-- With one failure on the record three rounds are enough.
extraction_loop-GaveUp_example :
    GaveUp len show_id erring 1 extractor (extraction_loop len show_id (some erring) 3 extractor)
extraction_loop-GaveUp_example =
    extraction_loop-GaveUp len show_id erring 1 3 extractor (λ db. inl refl) extractor_only
      (omega arith) refl (omega arith)

abbrev entry : ℕ → LogEntry
entry n = record { ctid = n; log_timestamp = n; message = some "started"; embedding = none }

-- Four failures on the record.
abbrev logger : LogWorker
logger = record { entries = entry 1 ∷ entry 2 ∷ entry 3 ∷ []; consecutive_failures = 4 }

abbrev one_success : List Answer
one_success = embedded (("0.5" ∷ []) ∷ []) ∷ []
