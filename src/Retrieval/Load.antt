-- ===== src/Retrieval/Load.antt =====
-- standard_tiered.py, the first four nodes of the retrieval: the window, the wait for an assembly
-- that is running, the summaries and the recent messages.
use context_broker.Prelude.{
  ℕ, zero, suc, ◌+◌, ◌-◌, ◌/◌, min, max, Bool, true, false, ◌&&◌, Option, none, some, List, [], ◌∷◌,
  ◌++◌, String, ltb, leb, ◌==◌, if◌then◌else◌, keep, total, map, length, take, sort_by,
  update_where, cat, len, or_empty,
}
use context_broker.Floats.{Floats}
use context_broker.Store.{
  Message, Summary, Window, Db, Outcome, returned, Flow, pure, gets, modify, or_value_error, ◌>>=◌,
  ◌>>◌,
}
use context_broker.Store.Query.{newest_first, find_window, message_tokens}
use context_broker.Locks.{stable_lock_id, try_advisory_lock, advisory_unlock}
use context_broker.Config.{Checked, accepted, rejected, get_build_type_config, get_tuning}
use context_broker.Tiers.{get_or, share, extract_deadband_config, calculate_tier1_ceiling}
use context_broker.Assembly.State.{empty_config}
use context_broker.Assembly.Load.{nonzero}
use context_broker.Assembly.Partition.{active_tier, max_to_seq, fill_tier1}
use context_broker.Retrieval.State.{RetrievalState, RetrievalExternal, ready, timeout, error_status}

-- UPDATE context_windows SET last_accessed_at = NOW() WHERE id = $1
abbrev pub mark_accessed : ℕ → Db → Db
mark_accessed id db = record db {
  windows =
      update_where (λ w. w.id == id) (λ w. record w { last_accessed_at = some db.clock })
        db.windows;
}

-- ORDER BY tier ASC, summarizes_from_seq ASC
abbrev pub tier_order : Summary → Summary → Bool
tier_order a b =
    if a.tier == b.tier then leb a.summarizes_from_seq b.summarizes_from_seq else ltb a.tier b.tier

abbrev pub active_rows : ℕ → List Summary → List Summary
active_rows window rows =
    sort_by tier_order (keep (λ r. r.context_window_id == window && r.is_active) rows)

-- The loop over the rows: the last one of tier 3 stays.
abbrev pub last_tier3 : Option String → List Summary → Option String
last_tier3 found [] = found
last_tier3 found (r ∷ rows) = last_tier3 (if r.tier == 3 then some r.summary_text else found) rows

abbrev pub tier2_texts : List Summary → List String
tier2_texts rows = map (λ r. r.summary_text) (keep (λ r. r.tier == 2) rows)

-- The tokens of the summaries: a quarter of the length, without the minimum of 1.
abbrev pub summary_tokens : Option String → List String → ℕ
summary_tokens tier3 tier2 = len (or_empty tier3) / 4 + total (λ s. len s / 4) tier2

-- The window's messages after its summaries, newest first, up to a limit.
abbrev pub unsummarized_recent : ℕ → ℕ → ℕ → List Message → List Message
unsummarized_recent conversation highest limit messages =
    take limit (keep (λ m. ltb highest m.sequence_number) (newest_first conversation messages))

module _ (f : Floats) (ext : RetrievalExternal (f.Float)) where
  open f use {Float, decimal}

  unfoldable pub use_retrieval_config :
      RetrievalState Float → Window → Checked Float → RetrievalState Float
  use_retrieval_config s window (rejected e) = record s {
    error = some (ext.describe e);
    assembly_status = error_status;
  }
  use_retrieval_config s window (accepted c) = record s {
    window = some window;
    build_type_config = some c;
    conversation_id = ext.show_uuid window.conversation_id;
    max_token_budget =
        share f window.max_token_budget (get_or c.effective_utilization (decimal 85 2));
  }

  unfoldable pub found_window :
      ℕ → RetrievalState Float → Option Window → Flow (RetrievalState Float)
  unfolding use_retrieval_config
  found_window id s none = pure (record s {
    error = some (cat ("Context window " ∷ s.context_window_id ∷ " not found" ∷ []));
    assembly_status = error_status;
  })
  found_window id s (some window) = do
    modify (mark_accessed id)
    pure (use_retrieval_config s window (get_build_type_config f s.config window.build_type))

  unfoldable pub with_window_id : Option ℕ → RetrievalState Float → Flow (RetrievalState Float)
  unfolding found_window
  with_window_id none s =
      pure (record s {
        error = some "Invalid UUID in retrieval input";
        assembly_status = error_status;
      })
  with_window_id (some id) s = do
    window ← gets (λ db. find_window id db.windows)
    found_window id s window

  unfoldable pub ret_load_window : RetrievalState Float → Flow (RetrievalState Float)
  unfolding with_window_id
  ret_load_window s = with_window_id (ext.parse_uuid s.context_window_id) s

  -- After the n-th request for the lock: `go_on` is the loop after the sleep.
  unfoldable pub after_poll :
      ℕ
      → RetrievalState Float
      → Flow (RetrievalState Float)
      → Bool × Db
      → Outcome (RetrievalState Float) × Db
  unfolding advisory_unlock
  after_poll key s go_on (true, db) =
      (returned (record s { assembly_status = ready }), advisory_unlock key db)
  after_poll key s go_on (false, db) = go_on db

  -- The loop, with the rounds that are left before the deadline.
  unfoldable pub wait_loop : ℕ → ℕ → RetrievalState Float → Flow (RetrievalState Float)
  unfolding after_poll
  wait_loop zero i s db = (
    returned (record s {
      assembly_status = timeout;
      warnings =
          s.warnings
          ++ "Context assembly was still in progress at retrieval time; context may be stale." ∷ [];
    }),
    db,
  )
  wait_loop (suc left) i s db =
      let key = stable_lock_id ext.digest s.context_window_id in
      if ext.poll_fails i
      then (returned (record s { assembly_status = ready }), db)
      else after_poll key s (λ d. wait_loop left (i + 1) s (ext.meanwhile i d))
          (try_advisory_lock key db)

  unfoldable pub ret_wait_for_assembly : RetrievalState Float → Flow (RetrievalState Float)
  unfolding wait_loop
  ret_wait_for_assembly s =
      if ext.pool_missing
      then pure (record s { assembly_status = ready })
      else wait_loop ext.polls 0 s

  unfoldable pub ret_load_summaries : RetrievalState Float → Flow (RetrievalState Float)
  ret_load_summaries s = do
    id ← or_value_error (ext.parse_uuid s.context_window_id)
    rows ← gets (λ db. active_rows id db.summaries)
    pure (record s { tier3_summary = last_tier3 none rows; tier2_summaries = tier2_texts rows })

  abbrev pub live_ceiling : RetrievalState Float → ℕ
  live_ceiling s =
      calculate_tier1_ceiling f s.max_token_budget
        (extract_deadband_config f (get_or s.build_type_config empty_config))
        (some (length s.tier2_summaries))

  -- max(0, min(tier1_ceiling_tokens, max_budget - summary_tokens))
  abbrev pub remaining_budget : RetrievalState Float → ℕ
  remaining_budget s =
      min (live_ceiling s) (s.max_token_budget - summary_tokens s.tier3_summary s.tier2_summaries)

  abbrev pub with_recent_messages : RetrievalState Float → List Message → RetrievalState Float
  with_recent_messages s rows =
      let recent = fill_tier1 (remaining_budget s) 0 [] rows in
      record s {
        recent_messages = recent;
        total_tokens_used =
            summary_tokens s.tier3_summary s.tier2_summaries + total message_tokens recent;
      }

  -- The steps of `ret_load_recent_messages`, from the last to the first.
  unfoldable pub load_rows : RetrievalState Float → ℕ → ℕ → ℕ → Flow (RetrievalState Float)
  unfolding fill_tier1
  load_rows s highest per_message conversation db = (
    returned (
        with_recent_messages s (
          unsummarized_recent conversation highest (max 50 (live_ceiling s / per_message))
            db.messages)),
    db,
  )

  unfoldable pub load_limited : RetrievalState Float → ℕ → ℕ → Flow (RetrievalState Float)
  unfolding load_rows
  load_limited s highest per_message =
      or_value_error (ext.parse_uuid s.conversation_id) >>= load_rows s highest per_message

  unfoldable pub load_after : RetrievalState Float → ℕ → Flow (RetrievalState Float)
  unfolding load_limited
  load_after s highest =
      nonzero (get_tuning s.config "tokens_per_message_estimate" 150) >>= load_limited s highest

  unfoldable pub load_for : RetrievalState Float → ℕ → Flow (RetrievalState Float)
  unfolding load_after
  load_for s id = gets (λ db. max_to_seq (active_tier id 2 db.summaries)) >>= load_after s

  unfoldable pub ret_load_recent_messages : RetrievalState Float → Flow (RetrievalState Float)
  unfolding load_for
  ret_load_recent_messages s = or_value_error (ext.parse_uuid s.context_window_id) >>= load_for s
