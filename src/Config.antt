-- ===== src/Config.antt =====
-- app/config.py: the parts of the configuration that the assembly and the retrieval read.
use context_broker.Prelude.{
  ℕ, Option, none, some, List, [], ◌∷◌, String, if◌then◌else◌, str_eq, map,
}
use context_broker.Floats.{Floats}
use context_broker.Tiers.{BuildTypeConfig, get_or}

-- The sections "tuning", "workers" and "locks" hold numbers under their keys; "llm" and
-- "inference.summarization" hold texts.
pub record Config (F : Type 0) : Type 0 where
  pub build_types : List (String × BuildTypeConfig F)
  pub tuning : List (String × ℕ)
  pub workers : List (String × ℕ)
  pub locks : List (String × ℕ)
  pub llm : Option (List (String × String))
  pub summarization : List (String × String)

-- `d.get(key)`
abbrev pub lookup {ℓ} : {A : Type ℓ} → String → List (String × A) → Option A
lookup key [] = none
lookup key ((k, a) ∷ d) = if str_eq k key then some a else lookup key d

abbrev pub or_else {ℓ} : {A : Type ℓ} → Option A → Option A → Option A
or_else none o = o
or_else (some a) o = some a

unfoldable pub get_tuning : {F : Type 0} → Config F → String → ℕ → ℕ
get_tuning config key default =
    get_or
      (or_else (lookup key config.tuning)
        (or_else (lookup key config.workers) (lookup key config.locks)))
      default

-- The ValueErrors of `get_build_type_config`: the name with the names that are there, or the name
-- with the sum of the allocations and the utilization that it exceeds.
pub data BuildTypeError (F : Type 0) : Type 0 where
  not_found : String → List String → BuildTypeError F
  over_allocated : String → F → F → BuildTypeError F

pub data Checked (F : Type 0) : Type 0 where
  accepted : BuildTypeConfig F → Checked F
  rejected : BuildTypeError F → Checked F

module _ (f : Floats) where
  open f use {Float, decimal, of_int, add, mul, gt}

  -- floor + tier2_chunk * max_chunks + tier3 + RAG layers
  unfoldable pub total_allocation : BuildTypeConfig Float → Float
  total_allocation c =
      let floor = get_or c.tier1_floor_pct (decimal 20 2) in
      let tier2_max =
        mul (get_or c.tier2_chunk_pct (decimal 2 2)) (of_int (get_or c.tier2_max_chunks 6)) in
      let tier3 = get_or c.tier3_pct (decimal 2 2) in
      let rag =
        add (get_or c.semantic_retrieval_pct (of_int 0))
          (get_or c.knowledge_graph_pct (of_int 0)) in
      add (add (add floor tier2_max) tier3) rag

  unfoldable pub check_allocation :
      Config Float → String → Option (BuildTypeConfig Float) → Checked Float
  unfolding total_allocation
  check_allocation config name none = rejected (not_found name (map (λ e. e.0) config.build_types))
  check_allocation config name (some c) =
      let util = get_or c.effective_utilization (decimal 85 2) in
      if gt (total_allocation c) util
      then rejected (over_allocated name (total_allocation c) util)
      else accepted c

  unfoldable pub get_build_type_config : Config Float → String → Checked Float
  unfolding check_allocation
  get_build_type_config config name = check_allocation config name (lookup name config.build_types)
