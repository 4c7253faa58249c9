-- ===== src/Retrieval/Context.antt =====
-- standard_tiered.py, `ret_assemble_context` and the run of the retrieval graph.
use context_broker.Prelude.{
  ℕ, ◌+◌, ◌-◌, Bool, false, Option, none, some, List, [], ◌∷◌, ◌++◌, String, ltb, ◌==◌,
  if◌then◌else◌, is_some, map, reverse, total, cat, join, truthy, or_empty, estimate_tokens,
}
use context_broker.Floats.{Floats}
use context_broker.Store.{Message, type_error, Flow, pure, raise, ◌>>=◌}
use context_broker.Config.{Config}
use context_broker.Retrieval.State.{RetrievalState, RetrievalExternal, ContextMessage, unset}
use context_broker.Retrieval.Load.{
  ret_load_window, ret_wait_for_assembly, ret_load_summaries, ret_load_recent_messages,
}

abbrev pub system_message : String → ContextMessage
system_message text = record {
  role = "system";
  content = text;
  tool_calls = none;
  tool_call_id = none;
  name = none;
}

-- The message of tier 3 and that of tier 2, each if there is something in it.
abbrev pub archival_part : Option String → List ContextMessage
archival_part tier3 =
    if truthy (or_empty tier3)
    then system_message (cat ("[Archival context]\n" ∷ or_empty tier3 ∷ [])) ∷ []
    else []

abbrev pub summaries_part : List String → List ContextMessage
summaries_part [] = []
summaries_part (s ∷ ss) =
    system_message (cat ("[Recent summaries]\n" ∷ join "\n\n" (s ∷ ss) ∷ [])) ∷ []

abbrev pub context_tokens : List ContextMessage → ℕ
context_tokens = total (λ m. estimate_tokens m.content)

-- A text that is there and not empty.
abbrev pub non_empty : Option String → Option String
non_empty none = none
non_empty (some s) = if truthy s then some s else none

abbrev pub context_message : Message → ContextMessage
context_message m = record {
  role = m.role;
  content = or_empty m.content;
  tool_calls = non_empty m.tool_calls;
  tool_call_id = non_empty m.tool_call_id;
  name = non_empty (some m.sender);
}

-- `max(0, max_budget - cumulative_tokens) if max_budget else float("inf")`; none is the infinite one.
abbrev pub remaining_for : ℕ → ℕ → Option ℕ
remaining_for max_budget used = if max_budget == 0 then none else some (max_budget - used)

abbrev pub exceeds : ℕ → Option ℕ → Bool
exceeds n none = false
exceeds n (some limit) = ltb limit n

abbrev pub content_tokens : Message → ℕ
content_tokens m = estimate_tokens (or_empty m.content)

-- The loop over the recent messages, newest first. none: a content that is null has no length, so
-- the estimate of its tokens raises a TypeError.
unfoldable pub fit_recent : Option ℕ → ℕ → List Message → List Message → Option (List Message)
fit_recent remaining used kept [] = some kept
fit_recent remaining used kept (m ∷ ms) =
    let rest = fit_recent remaining (used + content_tokens m) (m ∷ kept) ms in
    if is_some m.content
    then if exceeds (used + content_tokens m) remaining then some kept else rest
    else none

-- The messages of the two upper tiers.
abbrev pub summary_messages : Option String → List String → List ContextMessage
summary_messages tier3 tier2 = archival_part tier3 ++ summaries_part tier2

module _ (f : Floats) (ext : RetrievalExternal (f.Float)) where
  open f use {Float}

  unfoldable pub with_context :
      RetrievalState Float
      → List ContextMessage
      → Option (List Message)
      → Flow (RetrievalState Float)
  with_context s front none = raise type_error
  with_context s front (some kept) = pure (record s {
    context_messages = some (front ++ map context_message kept);
    context_tiers = some (record {
      archival_summary = s.tier3_summary;
      chunk_summaries = s.tier2_summaries;
      recent_messages = kept;
    });
  })

  unfoldable pub ret_assemble_context : RetrievalState Float → Flow (RetrievalState Float)
  unfolding fit_recent with_context
  ret_assemble_context s =
      let front = summary_messages s.tier3_summary s.tier2_summaries in
      with_context s front (
        fit_recent (remaining_for s.max_token_budget (context_tokens front)) 0 []
          (reverse s.recent_messages))

  -- The nodes after the window was found.
  unfoldable pub after_window : RetrievalState Float → Flow (RetrievalState Float)
  unfolding ret_wait_for_assembly ret_load_summaries ret_load_recent_messages ret_assemble_context
  after_window s = if is_some s.error then pure s else (do
    waited ← ret_wait_for_assembly f ext s
    summarized ← ret_load_summaries f ext waited
    recent ← ret_load_recent_messages f ext summarized
    ret_assemble_context recent)

  abbrev pub initial_retrieval : String → Config Float → RetrievalState Float
  initial_retrieval window_id config = record {
    context_window_id = window_id;
    config = config;
    window = none;
    build_type_config = none;
    conversation_id = "";
    max_token_budget = 0;
    tier3_summary = none;
    tier2_summaries = [];
    recent_messages = [];
    assembly_status = unset;
    context_messages = none;
    context_tiers = none;
    total_tokens_used = 0;
    warnings = [];
    error = none;
  }

  -- `retrieval_graph.ainvoke`
  unfoldable pub invoke_retrieval : String → Config Float → Flow (RetrievalState Float)
  unfolding ret_load_window after_window
  invoke_retrieval window_id config = do
    s ← ret_load_window f ext (initial_retrieval window_id config)
    after_window s
