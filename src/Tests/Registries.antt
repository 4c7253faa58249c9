-- ===== src/Tests/Registries.antt =====
-- The registry of build types, with builders that are numbers and graphs that are texts.
use context_broker.Prelude.{ℕ, ◌≡◌, refl, [], ◌∷◌, String, if◌then◌else◌, ◌==◌}
use context_broker.Registry.{Kind, assembly, retrieval, CacheKey, Registry, fetched, get_graph}
use context_broker.Registry.Caching.{registering, fetching, run_ops, get_graph_stale}

abbrev compile : ℕ → String
compile n = if n == 1 then "old" else "new"

abbrev key_of : Kind → CacheKey
key_of kind = record { name = "standard-tiered"; kind = kind }

-- One build type, whose assembly graph is cached.
abbrev cached : Registry ℕ String
cached = record {
  registry = ("standard-tiered", (1, 1)) ∷ [];
  compiled_cache = (key_of assembly, "old") ∷ [];
}

get_graph_stale_example :
    get_graph compile
      (λ s. s)
      (key_of assembly)
      (run_ops compile
        (registering "standard-tiered" 2 2 ∷ fetching (key_of retrieval) ∷ [])
        cached)
    ≡ (
      fetched "old",
      run_ops compile (registering "standard-tiered" 2 2 ∷ fetching (key_of retrieval) ∷ []) cached,
    )
get_graph_stale_example =
    get_graph_stale compile (λ s. s)
      (registering "standard-tiered" 2 2 ∷ fetching (key_of retrieval) ∷ []) (key_of assembly)
      cached "old" refl
