-- ===== src/Tiers.antt =====
-- build_types/tier_scaling.py: the deadband settings of a build type and the ceiling of tier 1.
-- A configuration is a record of the keys that the code reads, each one absent or present.
pub mod Ceiling
use context_broker.Prelude.{ℕ, ◌-◌, max, String, Bool, Option, none, some, List, ltb}
use context_broker.Floats.{Floats}

-- The keys of one entry of config["build_types"]. The shares are floats, the counts are ints.
pub record BuildTypeConfig (F : Type 0) : Type 0 where
  pub tier1_floor_pct : Option F
  pub tier2_chunk_pct : Option F
  pub tier2_min_chunks : Option ℕ
  pub tier2_max_chunks : Option ℕ
  pub tier3_pct : Option F
  pub tier3_header_pct : Option F
  pub effective_utilization : Option F
  pub semantic_retrieval_pct : Option F
  pub knowledge_graph_pct : Option F
  pub initial_lookback_multiplier : Option ℕ
  pub max_lookback_tokens : Option ℕ
  -- The section "llm": a dictionary of texts.
  pub llm : Option (List (String × String))

pub record DeadbandConfig (F : Type 0) : Type 0 where
  pub tier1_floor_pct : F
  pub tier2_chunk_pct : F
  pub tier2_min_chunks : ℕ
  pub tier2_max_chunks : ℕ
  pub tier3_pct : F
  pub tier3_header_pct : F
  pub effective_utilization : F

-- `d.get(key, default)`
abbrev pub get_or {ℓ} : {A : Type ℓ} → Option A → A → A
get_or none d = d
get_or (some a) d = a

module _ (f : Floats) where
  open f use {Float, decimal, of_int, mul, trunc}

  unfoldable pub extract_deadband_config : BuildTypeConfig Float → DeadbandConfig Float
  extract_deadband_config c = record {
    tier1_floor_pct = get_or c.tier1_floor_pct (decimal 20 2);
    tier2_chunk_pct = get_or c.tier2_chunk_pct (decimal 2 2);
    tier2_min_chunks = get_or c.tier2_min_chunks 3;
    tier2_max_chunks = get_or c.tier2_max_chunks 6;
    tier3_pct = get_or c.tier3_pct (decimal 2 2);
    tier3_header_pct = get_or c.tier3_header_pct (decimal 25 4);
    effective_utilization = get_or c.effective_utilization (decimal 85 2);
  }

  -- `int(max_budget * pct)`
  abbrev pub share : ℕ → Float → ℕ
  share budget pct = trunc (mul (of_int budget) pct)

  -- `int(max_budget * pct * count)`
  abbrev pub shares : ℕ → Float → ℕ → ℕ
  shares budget pct count = trunc (mul (mul (of_int budget) pct) (of_int count))

  -- Where the difference is negative in Python, the floor is the larger one, as with 0 here.
  unfoldable pub calculate_tier1_ceiling : ℕ → DeadbandConfig Float → Option ℕ → ℕ
  calculate_tier1_ceiling max_budget db current_tier2_chunks =
      let tier3_tokens = share max_budget db.tier3_pct in
      let chunk_count = get_or current_tier2_chunks db.tier2_max_chunks in
      let tier2_tokens = shares max_budget db.tier2_chunk_pct chunk_count in
      let ceiling = share max_budget db.effective_utilization - tier2_tokens - tier3_tokens in
      let floor = share max_budget db.tier1_floor_pct in max ceiling floor

  unfoldable pub should_trigger_compaction : ℕ → ℕ → DeadbandConfig Float → Option ℕ → Bool
  unfolding calculate_tier1_ceiling
  should_trigger_compaction tier1_tokens max_budget db current =
      ltb (calculate_tier1_ceiling max_budget db current) tier1_tokens
