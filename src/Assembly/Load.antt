-- ===== src/Assembly/Load.antt =====
-- standard_tiered.py: the nodes that take the lock and load the window and its messages.
use context_broker.Prelude.{
  ℕ, ◌*◌, ◌/◌, min, max, Bool, true, false, ◌&&◌, Option, none, some, List, [], ◌∷◌, String, ◌==◌,
  if◌then◌else◌, is_some, truthy, cat, keep, length, reverse,
}
use context_broker.Floats.{Floats}
use context_broker.Store.{
  Window, Summary, Db, zero_division, Outcome, returned, Flow, pure, raise, gets, or_value_error,
  ◌>>=◌,
}
use context_broker.Store.Query.{fetch_recent, find_window}
use context_broker.Locks.{stable_lock_id, try_advisory_lock}
use context_broker.Config.{get_tuning, get_build_type_config, Checked, accepted, rejected}
use context_broker.Tiers.{
  BuildTypeConfig, get_or, share, extract_deadband_config, calculate_tier1_ceiling,
}
use context_broker.Assembly.State.{AssemblyState, External, empty_config}

-- A division by `n` raises where n is 0.
abbrev pub nonzero : ℕ → Flow ℕ
nonzero n = if n == 0 then raise zero_division else pure n

module _ (f : Floats) (ext : External (f.Float)) where
  open f use {Float, decimal}

  abbrev pub lock_of : AssemblyState Float → ℕ
  lock_of s = stable_lock_id ext.digest s.context_window_id

  -- After pg_try_advisory_lock: the lock is held by this run, or the window is skipped.
  unfoldable pub after_try : AssemblyState Float → Bool × Db → Outcome (AssemblyState Float) × Db
  after_try s (false, db) = (
    returned (record s {
      lock_key = cat ("assembly_in_progress:" ∷ s.context_window_id ∷ []);
      lock_token = none;
      lock_acquired = false;
    }),
    db,
  )
  after_try s (true, db) = (
    returned (record s {
      lock_key = cat ("assembly_in_progress:" ∷ s.context_window_id ∷ []);
      lock_token = some ext.fresh_token;
      lock_acquired = true;
      assembly_start_time = some db.clock;
    }),
    db,
  )

  -- The lock's statement, or the failure of the pool that the code catches.
  unfoldable pub request_lock : Option String → AssemblyState Float → Flow (AssemblyState Float)
  unfolding after_try
  request_lock none s db = after_try s (try_advisory_lock (lock_of s) db)
  request_lock (some exc) s db = (
    returned (record s {
      lock_key = cat ("assembly_in_progress:" ∷ s.context_window_id ∷ []);
      lock_token = none;
      lock_acquired = false;
      error = some (cat ("Lock unavailable: " ∷ exc ∷ []));
    }),
    db,
  )

  unfoldable pub acquire_assembly_lock : AssemblyState Float → Flow (AssemblyState Float)
  unfolding request_lock
  acquire_assembly_lock s db =
      if is_some (ext.parse_uuid s.context_window_id) && is_some (ext.parse_uuid s.conversation_id)
      then request_lock ext.lock_failure s db
      else (
        returned
            (record s { error = some "Invalid UUID in assembly input"; lock_acquired = false }),
        db,
      )

  -- int(raw_budget * utilization)
  unfoldable pub effective_budget : Window → BuildTypeConfig Float → ℕ
  effective_budget window c =
      share f window.max_token_budget (get_or c.effective_utilization (decimal 85 2))

  unfoldable pub use_config : AssemblyState Float → Window → Checked Float → AssemblyState Float
  unfolding effective_budget
  use_config s window (rejected e) = record s { error = some (ext.describe e) }
  use_config s window (accepted c) = record s {
    window = some window;
    build_type_config = some c;
    max_token_budget = some (effective_budget window c);
  }

  unfoldable pub use_window : AssemblyState Float → Option Window → AssemblyState Float
  unfolding use_config
  use_window s none = record s {
    error = some (cat ("Context window " ∷ s.context_window_id ∷ " not found" ∷ []));
  }
  use_window s (some window) =
      use_config s window (get_build_type_config f s.config window.build_type)

  unfoldable pub load_window_config : AssemblyState Float → Flow (AssemblyState Float)
  unfolding use_window
  load_window_config s = do
    id ← or_value_error (ext.parse_uuid s.context_window_id)
    gets (λ db. use_window s (find_window id db.windows))

  -- `uuid.UUID(str(window_id))` of the state's window id, or of the loaded window where it is empty;
  -- none where there is neither.
  abbrev pub window_id_of : AssemblyState Float → Flow (Option ℕ)
  window_id_of s =
      if truthy s.context_window_id
      then (do id ← or_value_error (ext.parse_uuid s.context_window_id); pure (some id))
      else pure (elim s.window [ none ↦ none | some w ↦ some w.id ])

  -- SELECT COUNT(*) FROM conversation_summaries WHERE context_window_id = $1
  abbrev pub count_summaries : ℕ → List Summary → ℕ
  count_summaries id rows = length (keep (λ r. r.context_window_id == id) rows)

  -- The limit of the first assembly, which looks back further.
  unfoldable pub initial_limit : BuildTypeConfig Float → ℕ → ℕ → ℕ → ℕ
  initial_limit c max_budget tokens_per_message adaptive_limit =
      let lookback_tokens = max_budget * get_or c.initial_lookback_multiplier 3 in
      let capped = min lookback_tokens (get_or c.max_lookback_tokens 400000) in
      max adaptive_limit (capped / tokens_per_message)

  unfoldable pub message_limit : BuildTypeConfig Float → ℕ → ℕ → Option ℕ → List Summary → ℕ
  unfolding initial_limit
  message_limit c max_budget tokens_per_message window_id summaries =
      let ceiling = calculate_tier1_ceiling f max_budget (extract_deadband_config f c) none in
      let adaptive_limit = max 50 (ceiling / tokens_per_message) in
      elim window_id [
        | none ↦ adaptive_limit
        | some id ↦
            if count_summaries id summaries == 0
            then initial_limit c max_budget tokens_per_message adaptive_limit
            else adaptive_limit
      ]

  unfoldable pub load_messages : AssemblyState Float → Flow (AssemblyState Float)
  unfolding message_limit
  load_messages s = do
    let c = get_or s.build_type_config empty_config
    let max_budget = get_or s.max_token_budget 8192
    let tokens_per_message = get_tuning s.config "tokens_per_message_estimate" 150
    tokens_per_message' ← nonzero tokens_per_message
    window_id ← window_id_of s
    conv ← or_value_error (ext.parse_uuid s.conversation_id)
    rows ← gets (λ db.
        fetch_recent conv (message_limit c max_budget tokens_per_message' window_id db.summaries)
          db.messages)
    pure (record s { all_messages = reverse rows })
