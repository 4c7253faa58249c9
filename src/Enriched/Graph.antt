-- ===== src/Enriched/Graph.antt =====
-- knowledge_enriched.py, the nodes and the run of the retrieval. Its first three nodes have the code
-- of the standard tiers' retrieval, so they are those functions on the part of the state that the two
-- graphs share.
use context_broker.Prelude.{
  ℕ, zero, suc, ◌+◌, ◌-◌, ◌*◌, min, Bool, ◌&&◌, Option, none, some, List, [], ◌∷◌, ◌++◌, String,
  if◌then◌else◌, is_some, map, reverse, total, keep, cat, join, truthy, or_empty, estimate_tokens,
}
use context_broker.Floats.{Floats}
use context_broker.Store.{
  Message, overflow_error, api_error, Flow, pure, raise, gets, or_value_error, type_error, ◌>>=◌,
}
use context_broker.Store.Query.{message_tokens}
use context_broker.Config.{Config, get_tuning}
use context_broker.Tiers.{get_or, share}
use context_broker.Assembly.State.{empty_config}
use context_broker.Assembly.Partition.{fill_tier1, active_tier, max_to_seq}
use context_broker.Retrieval.State.{RetrievalState, RetrievalExternal, ContextMessage}
use context_broker.Retrieval.Load.{
  ret_load_window, ret_wait_for_assembly, ret_load_summaries, summary_tokens, unsummarized_recent,
}
use context_broker.Retrieval.Context.{
  system_message, context_message, context_tokens, summary_messages, remaining_for, fit_recent,
  initial_retrieval,
}

-- The settings of the caller's LLM.
pub record CallerModel : Type 0 where
  pub base_url : Option String
  pub model : Option String
  pub api_key_env : Option String

pub record EnrichedTiers : Type 0 where
  pub archival_summary : Option String
  pub chunk_summaries : List String
  pub domain_context : Option String
  pub recent_messages : List Message

pub record EnrichedState (F : Type 0) : Type 0 where
  -- The keys that StandardTieredRetrievalState has too, but "context_tiers".
  pub base : RetrievalState F
  pub user_prompt : Option String
  -- none where the dictionary is missing or empty
  pub model : Option CallerModel
  pub domain_context : Option String
  pub context_tiers : Option EnrichedTiers

-- The answer of the caller's LLM: a text; an error that the code catches; or another one.
pub data LlmReply : Type 0 where
  text : String → LlmReply
  caught : LlmReply
  uncaught : LlmReply

-- `text[:n]`
abbrev pub text_prefix : ℕ → String → String
text_prefix zero s = ""
text_prefix (suc n) String.[] = ""
text_prefix (suc n) (String.◌∷◌ c s) = String.◌∷◌ c (text_prefix n s)

abbrev pub domain_message : String → ContextMessage
domain_message domain_text = system_message (cat ("[Domain knowledge]\n" ∷ domain_text ∷ []))

-- The part of the domain context that is left of the budget. none: the budget is zero, and
-- `int(float("inf") * 4)` raises an OverflowError.
unfoldable pub domain_part : Option String → Option ℕ → Option (List ContextMessage)
domain_part domain remaining =
    if truthy (or_empty domain)
    then elim remaining [
      | none ↦ none
      | some left ↦
          let domain_text = text_prefix (left * 4) (or_empty domain) in
          if truthy domain_text then some (domain_message domain_text ∷ []) else some []
    ]
    else some []

-- The contents that are not empty, one after the other.
abbrev pub raw_context : List ContextMessage → String
raw_context messages = join "\n\n" (map (λ m. m.content) (keep (λ m. truthy m.content) messages))

abbrev pub distillation_prompt : String → String → String
distillation_prompt user_prompt raw = cat (
    "You are a context distillation assistant. Given the following retrieval results, extract ONLY what is relevant to the user's current question. Be concise — summarize facts, not raw text. Skip irrelevant content.\n\nUser's question: "
    ∷ user_prompt
    ∷ "\n\nRetrieved context:\n"
    ∷ text_prefix 20000 raw
    ∷ "\n\nRelevant summary:"
    ∷ [])

module _ (f : Floats) (ext : RetrievalExternal (f.Float)) (strip : String → String)
    (llm : CallerModel → String → LlmReply) where
  open f use {Float, decimal}

  abbrev pub on_base :
      (RetrievalState Float → Flow (RetrievalState Float))
      → EnrichedState Float
      → Flow (EnrichedState Float)
  on_base node s = do base ← node s.base; pure (record s { base = base })

  unfoldable pub ke_load_window : EnrichedState Float → Flow (EnrichedState Float)
  unfolding ret_load_window
  ke_load_window = on_base (ret_load_window f ext)

  unfoldable pub ke_wait_for_assembly : EnrichedState Float → Flow (EnrichedState Float)
  unfolding ret_wait_for_assembly
  ke_wait_for_assembly = on_base (ret_wait_for_assembly f ext)

  unfoldable pub ke_load_summaries : EnrichedState Float → Flow (EnrichedState Float)
  unfolding ret_load_summaries
  ke_load_summaries = on_base (ret_load_summaries f ext)

  -- max(0, min(tier1_budget, max_budget - summary_tokens))
  abbrev pub floor_budget : RetrievalState Float → ℕ
  floor_budget s =
      let config = get_or s.build_type_config empty_config in
      min (share f s.max_token_budget (get_or config.tier1_floor_pct (decimal 20 2)))
        (s.max_token_budget - summary_tokens s.tier3_summary s.tier2_summaries)

  unfoldable pub with_newest : EnrichedState Float → List Message → EnrichedState Float
  unfolding fill_tier1
  with_newest s rows =
      let recent = fill_tier1 (floor_budget s.base) 0 [] rows in
      record s {
        base = record s.base {
          recent_messages = recent;
          total_tokens_used =
              summary_tokens s.base.tier3_summary s.base.tier2_summaries
              + total message_tokens recent;
        };
      }

  unfoldable pub ke_load_recent_messages : EnrichedState Float → Flow (EnrichedState Float)
  unfolding with_newest
  ke_load_recent_messages s = do
    id ← or_value_error (ext.parse_uuid s.base.context_window_id)
    highest ← gets (λ db. max_to_seq (active_tier id 2 db.summaries))
    conversation ← or_value_error (ext.parse_uuid s.base.conversation_id)
    rows ← gets (λ db.
        unsummarized_recent conversation highest
          (get_tuning s.base.config "max_messages_to_load" 1000) db.messages)
    pure (with_newest s rows)

  unfoldable pub with_kept :
      EnrichedState Float → List ContextMessage → Option (List Message) → Flow (EnrichedState Float)
  with_kept s front none = raise type_error
  with_kept s front (some kept) = pure (record s {
    base = record s.base { context_messages = some (front ++ map context_message kept) };
    context_tiers = some (record {
      archival_summary = s.base.tier3_summary;
      chunk_summaries = s.base.tier2_summaries;
      domain_context = s.domain_context;
      recent_messages = kept;
    });
  })

  unfoldable pub with_domain :
      EnrichedState Float
      → List ContextMessage
      → Option (List ContextMessage)
      → Flow (EnrichedState Float)
  unfolding with_kept fit_recent
  with_domain s front none = raise overflow_error
  with_domain s front (some domain) =
      let all = front ++ domain in
      with_kept s all (
        fit_recent (remaining_for s.base.max_token_budget (context_tokens all)) 0 []
          (reverse s.base.recent_messages))

  unfoldable pub ke_assemble_context : EnrichedState Float → Flow (EnrichedState Float)
  unfolding domain_part with_domain
  ke_assemble_context s =
      let front = summary_messages s.base.tier3_summary s.base.tier2_summaries in
      with_domain s front (
        domain_part s.domain_context (remaining_for s.base.max_token_budget (context_tokens front)))

  -- After `llm.ainvoke`.
  unfoldable pub distilled_by : EnrichedState Float → LlmReply → Flow (EnrichedState Float)
  distilled_by s (text answer) =
      let distilled = strip answer in
      pure (
        if truthy distilled
        then record s {
          base = record s.base {
            context_messages = some (
                record {
                  role = "assistant";
                  content = distilled;
                  tool_calls = none;
                  tool_call_id = none;
                  name = none;
                }
                ∷ []);
            total_tokens_used = estimate_tokens distilled;
          };
        }
        else s)
  distilled_by s caught = pure s
  distilled_by s uncaught = raise api_error

  unfoldable pub distill_with :
      EnrichedState Float → Option CallerModel → Option String → Flow (EnrichedState Float)
  unfolding distilled_by
  distill_with s none prompt = pure s
  distill_with s (some model) none = pure s
  distill_with s (some model) (some prompt) =
      let raw = raw_context (get_or s.base.context_messages []) in
      if truthy prompt && truthy (strip raw)
      then distilled_by s (llm model (distillation_prompt prompt raw))
      else pure s

  unfoldable pub ke_distill_context : EnrichedState Float → Flow (EnrichedState Float)
  unfolding distill_with
  ke_distill_context s = distill_with s s.model s.user_prompt

  unfoldable pub ke_route_after_assembly : EnrichedState Float → Bool
  ke_route_after_assembly s = is_some s.model && truthy (or_empty s.user_prompt)

  -- The nodes after the window was found.
  unfoldable pub ke_after_window : EnrichedState Float → Flow (EnrichedState Float)
  unfolding ke_wait_for_assembly ke_load_summaries ke_load_recent_messages ke_assemble_context
      ke_route_after_assembly ke_distill_context
  ke_after_window s = if is_some s.base.error then pure s else (do
    waited ← ke_wait_for_assembly s
    summarized ← ke_load_summaries waited
    recent ← ke_load_recent_messages summarized
    assembled ← ke_assemble_context recent
    if ke_route_after_assembly assembled then ke_distill_context assembled else pure assembled)

  unfoldable pub invoke_enriched :
      String
      → Config Float
      → Option String
      → Option CallerModel
      → Option String
      → Flow (EnrichedState Float)
  unfolding ke_load_window ke_after_window
  invoke_enriched window_id config user_prompt model domain_context = do
    s ← ke_load_window (record {
      base = initial_retrieval f ext window_id config;
      user_prompt = user_prompt;
      model = model;
      domain_context = domain_context;
      context_tiers = none;
    })
    ke_after_window s
