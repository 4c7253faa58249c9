-- ===== src/TokenBudget/Priority.antt =====
-- The order of precedence of app/token_budget.py.
use context_broker.Prelude.{
  ℕ, suc, ◌<◌, ◌≡◌, ◌⊎◌, Bool, true, false, Option, none, some, List, [], ◌∷◌, String, arith,
  if◌then◌else◌,
}
use context_broker.Tiers.{get_or}
use context_broker.TokenBudget.{
  ContextTokens, auto, tokens, unrecognized, BudgetSettings, Provider, ModelInfo,
  find_context_length, read_reply, query_provider_context_length, resolve_configured,
  resolve_default, resolve_token_budget,
}

find_context_length-pos :
    (model : String) (infos : List ModelInfo) (fallback : ℕ)
    → 0 < fallback
    → 0 < find_context_length model infos fallback
unfolding find_context_length
find_context_length-pos model [] fallback h = h
find_context_length-pos model (info ∷ infos) fallback h =
    ground (arith, find_context_length-pos model infos fallback h)

read_reply-pos :
    (model : String) (fallback : ℕ) (reply : Option (List ModelInfo))
    → 0 < fallback
    → 0 < read_reply model fallback reply
unfolding find_context_length
read_reply-pos model fallback none h = h
read_reply-pos model fallback (some models) h = find_context_length-pos model models fallback h

if-pos : (b : Bool) (x y : ℕ) → 0 < x → 0 < y → 0 < (if b then x else y)
if-pos true x y hx hy = hx
if-pos false x y hx hy = hy

module _ (get_models : String → Option String → Option (List ModelInfo)) where
  query-pos :
      (p : Provider) (fallback : ℕ)
      → 0 < fallback
      → 0 < query_provider_context_length get_models p fallback
  unfolding query_provider_context_length
  query-pos p fallback h = if-pos _ fallback _ h (read_reply-pos _ fallback _ h)

  configured-pos :
      (p : Provider) (c : ContextTokens) (fallback : ℕ)
      → 0 < fallback
      → 0 < resolve_configured get_models p c fallback
  unfolding resolve_configured
  configured-pos p auto fallback h = query-pos p fallback h
  configured-pos p (tokens n) fallback h = ground arith
  configured-pos p unrecognized fallback h = h

  -- Whatever the caller, the configuration and the provider say, and whatever request fails, the
  -- budget is positive, if the configured fallback is (an absent one is 8192).
  resolve_token_budget_pos :
      (p : Provider) (s : BudgetSettings) (caller : Option ℕ)
      → 0 < get_or s.fallback_tokens 8192
      → 0 < resolve_token_budget get_models p s caller
  unfolding resolve_token_budget
  resolve_token_budget_pos p s none h = configured-pos p (get_or s.max_context_tokens auto) _ h
  resolve_token_budget_pos p s (some n) h =
      ground (arith, configured-pos p (get_or s.max_context_tokens auto) _ h)

  -- A positive budget of the caller is taken as it is; else a positive one of the build type is;
  -- neither of them depends on the provider or the fallback.
  resolve_token_budget_explicit :
      (p : Provider) (s : BudgetSettings) (caller : Option ℕ) (n : ℕ)
      → (caller ≡ some (suc n))
        ⊎ (((caller ≡ none) ⊎ (caller ≡ some 0)) × (s.max_context_tokens ≡ some (tokens (suc n))))
      → resolve_token_budget get_models p s caller ≡ suc n
  unfolding resolve_token_budget resolve_default resolve_configured
  resolve_token_budget_explicit p s caller n h = ground arith
