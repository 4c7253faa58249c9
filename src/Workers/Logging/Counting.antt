-- ===== src/Workers/Logging/Counting.antt =====
-- The count of failures of `_log_embedding_worker`.
use context_broker.Prelude.{Bool, true, false}
use context_broker.Workers.Embedding.{Answer, embedded, timed_out, failed, broken}

abbrev pub is_success : Answer → Bool
is_success (embedded vectors) = true
is_success timed_out = false
is_success failed = false
is_success (broken vectors) = false
