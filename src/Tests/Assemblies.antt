-- ===== src/Tests/Assemblies.antt =====
-- Runs of the assembly of one window, with an LLM that answers each request with the same text.
use context_broker.Prelude.{
  ℕ, ◌<◌, ◌≤◌, ◌≡◌, refl, true, false, none, some, [], ◌∷◌, arith, All, length, flatten, len,
}
use context_broker.Store.{Message, Summary, Db, returned}
use context_broker.Config.{Config, get_build_type_config, get_tuning}
use context_broker.Store.Query.{fetch_recent, message_tokens}
use context_broker.Locks.{stable_lock_id, try_advisory_lock, advisory_unlock}
use context_broker.Tiers.{calculate_tier1_ceiling, extract_deadband_config}
use context_broker.Assembly.State.{AssemblyState, External, prompt, initial, empty_config}
use context_broker.Assembly.Partition.{partition, unsummarized, max_to_seq}
use context_broker.Assembly.Live.{IsSplit, partition_complete}
use context_broker.Assembly.Compact.{compact_tier1, scope_of, budget_of}
use context_broker.Assembly.Compacted.{IsCompacted, compact_tier1-IsCompacted}
use context_broker.Assembly.Archive.{run_full_compaction}
use context_broker.Assembly.Once.{IsIdle, run_full_compaction_once}
use context_broker.Assembly.Graph.{invoke_assembly}
use context_broker.Assembly.Locking.Run.{
  EndsFreed, invoke_assembly-EndsFreed, invoke_assembly-excluded,
}
use context_broker.Tests.Budgets.{decimals}
use context_broker.Tests.Messages.{no_locks, parse_id, greeting, window, one_message}

abbrev outside : External ℕ
outside = record {
  parse_uuid = parse_id;
  digest = len;
  fresh_token = "token";
  lock_failure = none;
  unlock_fails = false;
  describe = λ e. "bad build type";
  load_prompt = λ name. prompt "Summarize.";
  clean_for_compaction = λ text. text;
  chat = λ n system text. some "a summary";
  rival = λ n. none;
  escaping_extraction = none;
}

-- One message a chunk.
abbrev pub settings : Config ℕ
settings = record {
  build_types = ("standard-tiered", empty_config) ∷ [];
  tuning = ("chunk_size", 1) ∷ [];
  workers = [];
  locks = [];
  llm = none;
  summarization = [];
}

abbrev pub numbered : ℕ → Message
numbered n = record greeting { id = n; sequence_number = n; token_count = some 60 }

abbrev pub three_messages : Db
three_messages = record one_message {
  messages = numbered 1 ∷ numbered 2 ∷ numbered 3 ∷ [];
  windows = record window { max_token_budget = 120 } ∷ [];
}

-- A chunk of tier 2 for the message with this number.
abbrev pub chunk : ℕ → Summary
chunk n = record {
  id = n;
  conversation_id = 1;
  context_window_id = 7;
  summary_text = "a chunk";
  tier = 2;
  summarizes_from_seq = n;
  summarizes_to_seq = n;
  message_count = some 1;
  original_token_count = some 60;
  summary_token_count = some 2;
  summarized_by_model = "unknown";
  is_active = true;
}

abbrev four_chunks : Db
four_chunks = record three_messages { summaries = chunk 1 ∷ chunk 2 ∷ chunk 3 ∷ chunk 4 ∷ [] }

abbrev begin : AssemblyState ℕ
begin = initial "7" "1" settings

abbrev pending : AssemblyState ℕ
pending = record begin {
  max_token_budget = some 8192;
  chunks = (numbered 1 ∷ []) ∷ (numbered 2 ∷ []) ∷ [];
}

-- The run of a window with three messages writes two summaries and gives the lock back.
two_summaries :
    length (invoke_assembly decimals outside "7" "1" settings three_messages).1.summaries ≡ 2
unfolding invoke_assembly try_advisory_lock get_build_type_config get_tuning fetch_recent
    calculate_tier1_ceiling extract_deadband_config message_tokens advisory_unlock
two_summaries = refl

partition_complete_example :
    let messages = three_messages.messages in
    let p = partition 60 1 6 (chunk 1 ∷ []) messages in
    IsSplit 60 messages p.older_messages p.tier1_messages
    × (flatten p.chunks ≡ unsummarized (max_to_seq (chunk 1 ∷ [])) p.older_messages)
    × All (λ c. (0 < length c) × (length c ≤ 1)) p.chunks
partition_complete_example =
    partition_complete 60 1 6 0 (chunk 1 ∷ []) three_messages.messages (omega arith)
      (omega arith, (omega arith, (omega arith, tt)))

compact_tier1-IsCompacted_example :
    IsCompacted none
      (scope_of decimals outside 7 1 pending)
      (budget_of decimals outside pending)
      []
      (compact_tier1 decimals outside pending three_messages)
compact_tier1-IsCompacted_example =
    compact_tier1-IsCompacted decimals outside 7 1 pending three_messages refl refl tt

abbrev archived_db : Db
archived_db = (run_full_compaction decimals outside begin four_chunks).1

run_full_compaction_once_example :
    let r = run_full_compaction decimals outside begin archived_db in
    (r.1 ≡ archived_db) × IsIdle r.0
unfolding run_full_compaction extract_deadband_config
run_full_compaction_once_example =
    run_full_compaction_once decimals outside 7 begin begin
      (record begin { tier3_summary = some "a summary\n\na summary" }) "a summary\n\na summary"
      four_chunks archived_db refl refl refl refl

invoke_assembly-EndsFreed_example :
    EndsFreed
      (stable_lock_id len "7")
      no_locks
      (invoke_assembly decimals outside "7" "1" settings three_messages)
invoke_assembly-EndsFreed_example =
    invoke_assembly-EndsFreed decimals outside "7" "1" settings three_messages refl

abbrev busy : Db
busy = record three_messages { locks = record { keys = 1 ∷ []; pool_resets = true } }

invoke_assembly-excluded_example :
    (t : AssemblyState ℕ) × (invoke_assembly decimals outside "7" "1" settings busy
      ≡ (returned (some t), busy))
    × (t.lock_acquired ≡ false)
unfolding stable_lock_id
invoke_assembly-excluded_example =
    invoke_assembly-excluded decimals outside "7" "1" settings busy refl

-- The window of four chunks after an earlier full compaction left its header.
abbrev archived_before : Db
archived_before = record four_chunks {
  summaries =
      record (chunk 9) {
        tier = 3;
        summarizes_from_seq = 0;
        summarizes_to_seq = 0;
        is_active = false;
      }
      ∷ four_chunks.summaries;
}
