-- ===== src/Enriched/Live.antt =====
-- `ke_load_recent_messages` and the limits of the live messages.
use context_broker.Prelude.{
  ℕ, ◌+◌, ◌≤◌, ◌≡◌, refl, inl, inr, String, List, max, arith, Option-cases,
}
use context_broker.Floats.{Floats}
use context_broker.Store.{Message, Db, Outcome, returned, raised}
use context_broker.Tiers.{get_or, share}
use context_broker.Assembly.State.{empty_config}
use context_broker.Assembly.Live.{tokens}
use context_broker.Retrieval.State.{RetrievalState, RetrievalExternal}
use context_broker.Retrieval.Load.{summary_tokens, live_ceiling}
use context_broker.Retrieval.Recent.{fill_tier1-le}
use context_broker.Tiers.{calculate_tier1_ceiling, extract_deadband_config}
use context_broker.Enriched.Graph.{
  EnrichedState, CallerModel, LlmReply, floor_budget, with_newest, ke_load_recent_messages,
}

module _ (f : Floats) (ext : RetrievalExternal (f.Float)) (strip : String → String)
    (llm : CallerModel → String → LlmReply) where
  open f use {Float, decimal}

  -- `int(max_budget * tier1_floor_pct)`
  abbrev pub floor_of : RetrievalState Float → ℕ
  floor_of s =
      share f s.max_token_budget
        (get_or (get_or s.build_type_config empty_config).tier1_floor_pct (decimal 20 2))

  -- The node raised, or its live messages fit under the floor of tier 1, and together with the
  -- summaries into the budget, unless the summaries alone exceed it.
  abbrev pub IsFloored : EnrichedState Float → Outcome (EnrichedState Float) → Type 0
  IsFloored s (returned t) =
      let used = summary_tokens s.base.tier3_summary s.base.tier2_summaries in
      (tokens t.base.recent_messages ≤ floor_of s.base)
      × (t.base.total_tokens_used ≡ used + tokens t.base.recent_messages)
      × (t.base.total_tokens_used ≤ max s.base.max_token_budget used)
  IsFloored s (raised e) = Unit

  with_newest-IsFloored :
      (s : EnrichedState Float) (rows : List Message)
      → IsFloored s (returned (with_newest f ext strip llm s rows))
  unfolding with_newest
  with_newest-IsFloored s rows =
      let h = fill_tier1-le (floor_budget f ext strip llm s.base) rows in
      (omega (arith, h), refl, omega (arith, h))

  -- Whatever the database holds, where `ke_load_recent_messages` returns, its live messages fit under
  -- the floor of tier 1, which is not above the ceiling that the standard tiers fill; the reported
  -- tokens are those of the summaries and the live messages, no more than the budget, or than the
  -- summaries alone.
  ke_load_recent_messages-IsFloored :
      (s : EnrichedState Float) (db : Db)
      → (floor_of s.base ≤ live_ceiling f ext s.base)
        × IsFloored s (ke_load_recent_messages f ext strip llm s db).0
  unfolding ke_load_recent_messages calculate_tier1_ceiling extract_deadband_config
  ke_load_recent_messages-IsFloored s db = (omega arith, loaded)
    where
      loaded : IsFloored s (ke_load_recent_messages f ext strip llm s db).0
      loaded = elim (Option-cases (ext.parse_uuid s.base.context_window_id)) [
        | inl bad ↦ rw bad tt
        | inr (id, e) ↦ elim (Option-cases (ext.parse_uuid s.base.conversation_id)) [
          | inl bad ↦ rw (e, bad) tt
          | inr (c, e') ↦ rw (e, e') (with_newest-IsFloored s _)
        ]
      ]
