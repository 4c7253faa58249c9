-- ===== src/Tests/Budgets.antt =====
-- Token budgets and tiers: floats are stood for by decimal fractions with four places.
use context_broker.Prelude.{
  ℕ, ◌*◌, ◌/◌, ◌+◌, ◌-◌, ◌^◌, ◌≤◌, Option, none, some, List, [], ◌∷◌, String, arith, ltb,
}
use native.Mathlib.Nat.{mul-le-mul_left}
use context_broker.Budget.{budget_buckets, snap_budget}
use context_broker.Budget.Snap.{IsLeast, In, snap_budget-IsLeast}
use context_broker.Floats.{Floats, FloatLaws}
use context_broker.Tiers.{DeadbandConfig, extract_deadband_config}
use context_broker.TokenBudget.{BudgetSettings, Provider, ModelInfo, auto, tokens}
use context_broker.Assembly.State.{empty_config}

-- Decimal fractions with four places, cut off.
abbrev pub decimals : Floats
decimals = record {
  Float = ℕ;
  decimal = λ digits places. digits * 10 ^ (4 - places);
  of_int = λ n. n * 10000;
  add = λ x y. x + y;
  mul = λ x y. x * y / 10000;
  gt = λ x y. ltb y x;
  trunc = λ x. x / 10000;
}

cut_mono : (a b : ℕ) → a ≤ b → a / 10000 / 10000 ≤ b / 10000 / 10000
cut_mono a b h = omega arith

decimals_laws : FloatLaws decimals
decimals_laws = record {
  share_mono = λ b n m p h.
      let x = b * 10000 * p / 10000 in
      cut_mono (x * (n * 10000)) (x * (m * 10000)) (mul-le-mul_left x (omega arith));
}

snap_budget-IsLeast_example :
    (5000 ≤ snap_budget 5000)
    × In (snap_budget 5000) budget_buckets
    × IsLeast (snap_budget 5000) 5000 budget_buckets
snap_budget-IsLeast_example = snap_budget-IsLeast 5000 (omega arith)

-- The settings where the build type has none.
abbrev deadband : DeadbandConfig ℕ
deadband = extract_deadband_config decimals empty_config

-- A provider that knows one model.
abbrev pub models : String → Option String → Option (List ModelInfo)
models url key = some (record { id = some "m"; context_length = some 32000 } ∷ [])

abbrev pub provider : Provider
provider = record { base_url = some "http://llm/"; model = some "m"; api_key = "" }

abbrev automatic : BudgetSettings
automatic = record { max_context_tokens = some auto; fallback_tokens = none }

abbrev pub fixed : BudgetSettings
fixed = record { max_context_tokens = some (tokens 4096); fallback_tokens = none }
