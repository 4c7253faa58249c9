-- ===== src/Assembly/Partition.antt =====
-- standard_tiered.py, `calculate_compaction_state`: the live messages of tier 1, the older ones, and
-- the chunks of those that no summary covers yet.
use context_broker.Prelude.{
  ℕ, zero, suc, ◌+◌, max, Bool, false, ◌&&◌, none, some, List, [], ◌∷◌, ltb, leb, ◌==◌,
  if◌then◌else◌, get_last?, keep, length, reverse, take, drop,
}
use context_broker.Floats.{Floats}
use context_broker.Store.{
  Message, Summary, value_error, Flow, pure, raise, gets, or_value_error, ◌>>=◌,
}
use context_broker.Store.Query.{message_tokens}
use context_broker.Config.{get_tuning}
use context_broker.Tiers.{get_or, extract_deadband_config, calculate_tier1_ceiling}
use context_broker.Assembly.State.{AssemblyState, External, empty_config}

-- WHERE context_window_id = $1 AND tier = $2 AND is_active = TRUE
abbrev pub is_active_tier : ℕ → ℕ → Summary → Bool
is_active_tier window tier r = r.context_window_id == window && r.tier == tier && r.is_active

abbrev pub active_tier : ℕ → ℕ → List Summary → List Summary
active_tier window tier = keep (is_active_tier window tier)

-- ORDER BY summarizes_to_seq DESC LIMIT 1, and 0 where there is no row.
abbrev pub max_to_seq : List Summary → ℕ
max_to_seq [] = 0
max_to_seq (r ∷ rs) = max r.summarizes_to_seq (max_to_seq rs)

-- The loop that fills tier 1, over the messages from the newest to the oldest.
unfoldable pub fill_tier1 : ℕ → ℕ → List Message → List Message → List Message
fill_tier1 ceiling used kept [] = kept
fill_tier1 ceiling used kept (m ∷ ms) =
    let rest = fill_tier1 ceiling (used + message_tokens m) (m ∷ kept) ms in
    if leb (used + message_tokens m) ceiling then rest else kept

-- tier1_start_seq: that of the oldest live message, or one more than that of the newest message.
unfoldable pub start_seq : List Message → List Message → ℕ
start_seq messages (m ∷ tier1) = m.sequence_number
start_seq messages [] = elim (get_last? messages) [ none ↦ 0 | some m ↦ m.sequence_number + 1 ]

-- `[xs[i : i + size] for i in range(0, len(xs), size)]`, with a fuel of the list's length.
unfoldable pub chunks_of {ℓ} : {A : Type ℓ} → ℕ → ℕ → List A → List (List A)
chunks_of zero size xs = []
chunks_of (suc fuel) size [] = []
chunks_of (suc fuel) size (x ∷ xs) = take size (x ∷ xs) ∷ chunks_of fuel size (drop size (x ∷ xs))

-- The older messages that no active tier 2 summary covers.
unfoldable pub unsummarized : ℕ → List Message → List Message
unsummarized max_summarized_seq = keep (λ m. ltb max_summarized_seq m.sequence_number)

-- The result of the node for its three ways to end: the tiers and the chunks.
pub record Partition : Type 0 where
  pub tier1_messages : List Message
  pub older_messages : List Message
  pub chunks : List (List Message)
  pub tier2_at_max : Bool

-- The node after the split: without older messages there is nothing to summarize.
unfoldable pub with_older : ℕ → ℕ → List Summary → List Message → List Message → Partition
unfolding chunks_of unsummarized
with_older chunk_size max_chunks tier2 tier1 [] = record {
  tier1_messages = tier1;
  older_messages = [];
  chunks = [];
  tier2_at_max = false;
}
with_older chunk_size max_chunks tier2 tier1 (m ∷ ms) =
    let pending = unsummarized (max_to_seq tier2) (m ∷ ms) in
    record {
      tier1_messages = tier1;
      older_messages = m ∷ ms;
      chunks = chunks_of (length pending) chunk_size pending;
      tier2_at_max = leb max_chunks (length tier2);
    }

-- What the node makes of the messages, for a ceiling of tier 1, a chunk size, the largest number of
-- chunks and the window's active summaries of tier 2.
unfoldable pub partition : ℕ → ℕ → ℕ → List Summary → List Message → Partition
unfolding fill_tier1 start_seq with_older
partition ceiling chunk_size max_chunks tier2 messages =
    let tier1 = fill_tier1 ceiling 0 [] (reverse messages) in
    let start = start_seq messages tier1 in
    with_older chunk_size max_chunks tier2 tier1 (keep (λ m. ltb m.sequence_number start) messages)

module _ (f : Floats) (ext : External (f.Float)) where
  open f use {Float}

  abbrev pub with_partition : AssemblyState Float → Partition → AssemblyState Float
  with_partition s p = record s {
    tier1_messages = p.tier1_messages;
    older_messages = p.older_messages;
    chunks = p.chunks;
    tier2_at_max = p.tier2_at_max;
  }

  -- The partition for the state's settings and a window's summaries.
  unfoldable pub partition_for : AssemblyState Float → List Summary → Partition
  unfolding partition
  partition_for s tier2 =
      let db = extract_deadband_config f (get_or s.build_type_config empty_config) in
      let budget = get_or s.max_token_budget 0 in
      partition (calculate_tier1_ceiling f budget db (some (length tier2)))
        (get_tuning s.config "chunk_size" 20) db.tier2_max_chunks tier2 s.all_messages

  -- `range(0, n, 0)` raises a ValueError; it is reached only with older messages.
  unfoldable pub check_chunk_size : AssemblyState Float → Partition → Flow (AssemblyState Float)
  check_chunk_size s p =
      if get_tuning s.config "chunk_size" 20 == 0 && ltb 0 (length p.older_messages)
      then raise value_error
      else pure (with_partition s p)

  -- Without messages the node returns before any query.
  unfoldable pub calculate_compaction_state : AssemblyState Float → Flow (AssemblyState Float)
  unfolding partition_for check_chunk_size
  calculate_compaction_state s =
      if length s.all_messages == 0
      then pure (record s { tier1_messages = []; older_messages = []; chunks = [] })
      else (do
        id ← or_value_error (ext.parse_uuid s.context_window_id)
        tier2 ← gets (λ db. active_tier id 2 db.summaries)
        check_chunk_size s (partition_for s tier2))
