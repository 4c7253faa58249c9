-- ===== src/TokenBudget.antt =====
-- app/token_budget.py: which of the caller, the build type, the provider and the fallback decides
-- the token budget of a window. The HTTP client is a parameter: it answers a request for the model
-- list with the list, or with none where it raises an error that the code catches.
pub mod Priority
use Prim.Native.Char.{code}
use context_broker.Prelude.{
  ℕ, not, ◌||◌, Option, none, some, List, [], ◌∷◌, String, ltb, ◌==◌, if◌then◌else◌, truthy, cat,
  opt_eq,
}
use context_broker.Tiers.{get_or}

-- What stands at "max_context_tokens": "auto", an int (0 for one that is not positive), or another
-- value. An absent key reads as "auto".
pub data ContextTokens : Type 0 where
  auto : ContextTokens
  tokens : ℕ → ContextTokens
  unrecognized : ContextTokens

-- The keys of a build type that the resolution reads.
pub record BudgetSettings : Type 0 where
  pub max_context_tokens : Option ContextTokens
  pub fallback_tokens : Option ℕ

-- The section config["llm"], with the API key that `get_api_key` found for it.
pub record Provider : Type 0 where
  pub base_url : Option String
  pub model : Option String
  pub api_key : String

-- One entry of the provider's model list; `context_length` is present where it is an int.
pub record ModelInfo : Type 0 where
  pub id : Option String
  pub context_length : Option ℕ

-- `text.rstrip("/")`
rstrip : String → String
rstrip String.[] = String.[]
rstrip (String.◌∷◌ c s) =
    let r = rstrip s in
    if code c == b'/' then (if truthy r then String.◌∷◌ c r else String.[]) else String.◌∷◌ c r

abbrev pub text_or : Option String → String → String
text_or none d = d
text_or (some s) d = s

-- `if isinstance(context_length, int) and context_length > 0: return context_length`
abbrev pub positive_or : Option ℕ → ℕ → ℕ
positive_or none rest = rest
positive_or (some n) rest = if ltb 0 n then n else rest

-- The loop over the model list: a match without a usable length does not end it.
pub find_context_length : String → List ModelInfo → ℕ → ℕ
find_context_length model [] fallback = fallback
find_context_length model (info ∷ infos) fallback =
    let rest = find_context_length model infos fallback in
    if opt_eq info.id (some model) then positive_or info.context_length rest else rest

-- The header of the request: present where there is a key.
abbrev pub authorization : String → Option String
authorization api_key = if truthy api_key then some (cat ("Bearer " ∷ api_key ∷ [])) else none

-- The rest of the `try` block, and its `except` clauses.
abbrev pub read_reply : String → ℕ → Option (List ModelInfo) → ℕ
unfolding find_context_length
read_reply model fallback none = fallback
read_reply model fallback (some models) = find_context_length model models fallback

module _ (get_models : String → Option String → Option (List ModelInfo)) where
  pub query_provider_context_length : Provider → ℕ → ℕ
  unfolding rstrip
  query_provider_context_length llm_config fallback =
      let base_url = text_or llm_config.base_url "" in
      let model = text_or llm_config.model "" in
      if not (truthy base_url) || not (truthy model)
      then fallback
      else read_reply model fallback
          (get_models (cat (rstrip base_url ∷ "/models" ∷ [])) (authorization llm_config.api_key))

  pub resolve_configured : Provider → ContextTokens → ℕ → ℕ
  resolve_configured provider auto fallback = query_provider_context_length provider fallback
  resolve_configured provider (tokens n) fallback = if ltb 0 n then n else fallback
  resolve_configured provider unrecognized fallback = fallback

  pub resolve_default : Provider → BudgetSettings → ℕ
  unfolding resolve_configured
  resolve_default provider settings =
      resolve_configured provider (get_or settings.max_context_tokens auto)
        (get_or settings.fallback_tokens 8192)

  pub resolve_token_budget : Provider → BudgetSettings → Option ℕ → ℕ
  unfolding resolve_default
  resolve_token_budget provider settings none = resolve_default provider settings
  resolve_token_budget provider settings (some n) =
      if ltb 0 n then n else resolve_default provider settings
