-- ===== src/Tests/Enrichments.antt =====
-- Retrievals of the build type "knowledge-enriched", of the window of `Tests.Retrievals`.
use context_broker.Prelude.{ℕ, refl, none, some, String, arith}
use context_broker.Enriched.Graph.{EnrichedState, CallerModel, LlmReply, text, ke_assemble_context}
use context_broker.Enriched.Laws.{IsEnriched, ke_assemble_context-IsEnriched}
use context_broker.Tests.Budgets.{decimals}
use context_broker.Tests.Assemblies.{three_messages}
use context_broker.Tests.Retrievals.{around, loaded}

abbrev trim : String → String
trim s = s

abbrev distiller : CallerModel → String → LlmReply
distiller model prompt = text "a summary"

abbrev with_domain_text : EnrichedState ℕ
with_domain_text = record {
  base = loaded;
  user_prompt = none;
  model = none;
  domain_context = some "The library closes at noon.";
  context_tiers = none;
}

abbrev plain : EnrichedState ℕ
plain = record with_domain_text { domain_context = none }

abbrev without_budget : EnrichedState ℕ
without_budget = record with_domain_text { base = record loaded { max_token_budget = 0 } }

ke_assemble_context-IsEnriched_example :
    IsEnriched with_domain_text
      (ke_assemble_context decimals around trim distiller with_domain_text three_messages)
ke_assemble_context-IsEnriched_example =
    ke_assemble_context-IsEnriched decimals around trim distiller with_domain_text three_messages
      (omega arith) (refl, (refl, tt))
