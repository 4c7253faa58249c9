-- ===== src/Tests/Retrievals.antt =====
-- Retrievals of a window with three messages.
use context_broker.Prelude.{
  true, ℕ, ◌≡◌, refl, false, Option, length, none, some, [], ◌∷◌, arith, len,
}
use context_broker.Store.{Message, Db, Outcome, returned, raised}
use context_broker.Store.Query.{message_tokens, newest_first}
use context_broker.Config.{get_build_type_config, get_tuning}
use context_broker.Tiers.{calculate_tier1_ceiling, extract_deadband_config}
use context_broker.Locks.{try_advisory_lock}
use context_broker.Retrieval.State.{RetrievalState, RetrievalExternal}
use context_broker.Retrieval.Context.{initial_retrieval, ret_assemble_context, invoke_retrieval}
use context_broker.Retrieval.Budget.{IsAssembled, ret_assemble_context-IsAssembled}
use context_broker.Tests.Budgets.{decimals}
use context_broker.Tests.Messages.{parse_id, show_id, greeting}
use context_broker.Tests.Assemblies.{settings, three_messages, numbered}

abbrev pub around : RetrievalExternal ℕ
around = record {
  parse_uuid = parse_id;
  show_uuid = show_id;
  digest = len;
  describe = λ e. "bad build type";
  pool_missing = false;
  polls = 3;
  poll_fails = λ n. false;
  meanwhile = λ n db. db;
}

abbrev pub fresh : RetrievalState ℕ
fresh = initial_retrieval decimals around "7" settings

abbrev pub loaded : RetrievalState ℕ
loaded = record fresh {
  conversation_id = "1";
  max_token_budget = 102;
  tier2_summaries = "a summary" ∷ [];
  recent_messages = numbered 2 ∷ numbered 3 ∷ [];
}

abbrev tool_call : Message
tool_call = record greeting { content = none; tool_calls = some "[{}]" }

abbrev with_call : RetrievalState ℕ
with_call = record loaded { recent_messages = tool_call ∷ [] }

abbrev busy : Db
busy = record three_messages { locks = record { keys = 1 ∷ []; pool_resets = true } }

ret_assemble_context-IsAssembled_example :
    IsAssembled loaded (ret_assemble_context decimals around loaded three_messages)
ret_assemble_context-IsAssembled_example =
    ret_assemble_context-IsAssembled decimals around loaded three_messages (omega arith)
      (refl, (refl, tt))

-- The messages of the context that a retrieval returned.
abbrev context_size : Outcome (RetrievalState ℕ) → Option ℕ
context_size (returned t) = elim t.context_messages [
  | none ↦ none
  | some messages ↦ some (length messages)
]
context_size (raised e) = none

-- In a window of 120 tokens, the newest of three messages of 60 tokens each fits under the ceiling.
retrieves_newest :
    context_size (invoke_retrieval decimals around "7" settings three_messages).0 ≡ some 1
unfolding invoke_retrieval get_build_type_config try_advisory_lock get_tuning newest_first
    message_tokens calculate_tier1_ceiling extract_deadband_config
retrieves_newest = refl
