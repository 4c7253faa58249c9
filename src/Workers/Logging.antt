-- ===== src/Workers/Logging.antt =====
-- db_worker.py, `_log_embedding_worker`, where log_embeddings is configured; else it only waits.
pub mod Counting
use context_broker.Prelude.{
  ℕ, ◌+◌, ◌≡◌, refl, ap, ◌∙◌, Bool, true, false, not, ◌&&◌, Option, none, some, List, [], ◌∷◌,
  String, ◌==◌, leb, if◌then◌else◌, is_some, keep, take, sort_by, update_where, All,
}
use context_broker.Workers.Embedding.{Vector, vec_str, Answer, embedded, timed_out, failed, broken}

-- system_logs, as far as the worker reads and writes it.
pub record LogEntry : Type 0 where
  pub ctid : ℕ
  pub log_timestamp : ℕ
  pub message : Option String
  pub embedding : Option String

pub record LogWorker : Type 0 where
  pub entries : List LogEntry
  pub consecutive_failures : ℕ

abbrev pub awaits_embedding : LogEntry → Bool
awaits_embedding e = not (is_some e.embedding) && is_some e.message

-- ORDER BY log_timestamp DESC
abbrev pub logged_later : LogEntry → LogEntry → Bool
logged_later a b = leb b.log_timestamp a.log_timestamp

unfoldable pub log_batch : ℕ → List LogEntry → List LogEntry
log_batch batch_size entries =
    take batch_size (sort_by logged_later (keep awaits_embedding entries))

unfoldable pub store_log_vectors : List LogEntry → List Vector → List LogEntry → List LogEntry
store_log_vectors [] vectors entries = entries
store_log_vectors (row ∷ rows) [] entries = entries
store_log_vectors (row ∷ rows) (v ∷ vs) entries = store_log_vectors rows vs (
    update_where (λ e. e.ctid == row.ctid) (λ e. record e { embedding = some (vec_str v) }) entries)

-- DELETE FROM system_logs WHERE ctid = …, for each row.
unfoldable pub delete_entries : List LogEntry → List LogEntry → List LogEntry
delete_entries [] entries = entries
delete_entries (row ∷ rows) entries =
    delete_entries rows (keep (λ e. not (e.ctid == row.ctid)) entries)

unfoldable pub after_log_failure : List LogEntry → LogWorker → LogWorker
unfolding delete_entries
after_log_failure rows s =
    if leb 5 (s.consecutive_failures + 1)
    then record { entries = delete_entries rows s.entries; consecutive_failures = 0 }
    else record s { consecutive_failures = s.consecutive_failures + 1 }

-- The body of the loop with its batch. The code sets no time limit; a TimeoutError is an OSError, so it
-- is caught as one.
unfoldable pub embed_logs : List LogEntry → Answer → LogWorker → LogWorker
unfolding store_log_vectors after_log_failure
embed_logs [] answer s = s
embed_logs (row ∷ rows) (embedded vectors) s = record s {
  entries = store_log_vectors (row ∷ rows) vectors s.entries;
}
embed_logs (row ∷ rows) timed_out s = after_log_failure (row ∷ rows) s
embed_logs (row ∷ rows) failed s = after_log_failure (row ∷ rows) s
embed_logs (row ∷ rows) (broken vectors) s = record s {
  entries = store_log_vectors (row ∷ rows) vectors s.entries;
}

unfoldable pub log_step : ℕ → Answer → LogWorker → LogWorker
unfolding embed_logs log_batch
log_step batch_size answer s = embed_logs (log_batch batch_size s.entries) answer s

unfoldable pub log_loop : ℕ → List Answer → LogWorker → LogWorker
unfolding log_step
log_loop batch_size [] s = s
log_loop batch_size (answer ∷ answers) s =
    log_loop batch_size answers (log_step batch_size answer s)
