-- ===== src/Registry.antt =====
-- app/flows/build_type_registry.py: the builders of the build types, and the cache of the graphs that
-- they compiled. A builder is a value that `compile` turns into its graph. The locks make each of
-- the operations atomic; `others` is what other threads do between the check of the cache without
-- the lock and the part under the lock.
pub mod Caching
use context_broker.Prelude.{
  ◌≡◌, ◌↔◌, refl, Bool, true, false, ◌&&◌, Option, none, some, List, [], ◌∷◌, String, arith, str_eq,
  eq_iff,
}
use context_broker.Dict.{get, put, keys}

pub data Kind : Type 0 where
  assembly : Kind
  retrieval : Kind

abbrev pub kind_eq : Kind → Kind → Bool
kind_eq assembly assembly = true
kind_eq retrieval retrieval = true
kind_eq _ _ = false

-- (name, kind)
pub record CacheKey : Type 0 where
  pub name : String
  pub kind : Kind

abbrev pub key_eq : CacheKey → CacheKey → Bool
key_eq a b = str_eq a.name b.name && kind_eq a.kind b.kind

pub record Registry (B G : Type 0) : Type 0 where
  pub registry : List (String × (B × B))
  pub compiled_cache : List (CacheKey × G)

-- A graph, or the ValueError with the name and the names that are there.
pub data Fetched (G : Type 0) : Type 0 where
  fetched : G → Fetched G
  not_registered : String → List String → Fetched G

-- `_registry[name][idx]`
abbrev pub builder_of : {B : Type 0} → Kind → B × B → B
builder_of assembly builders = builders.0
builder_of retrieval builders = builders.1

module _ {B G : Type 0} where
  unfoldable pub register_build_type : String → B → B → Registry B G → Registry B G
  register_build_type name assembly_builder retrieval_builder s = record s {
    registry = put str_eq name (assembly_builder, retrieval_builder) s.registry;
  }

  unfoldable pub list_build_types : Registry B G → List String
  list_build_types s = keys s.registry

  unfoldable pub clear_compiled_cache : Registry B G → Registry B G
  clear_compiled_cache s = record s { compiled_cache = [] }

module _ {B G : Type 0} (compile : B → G) where
  -- Under the lock, where the cache has no graph.
  unfoldable pub compile_graph : CacheKey → Option (B × B) → Registry B G → Fetched G × Registry B G
  compile_graph key none s = (not_registered key.name (keys s.registry), s)
  compile_graph key (some builders) s =
      let graph = compile (builder_of key.kind builders) in
      (fetched graph, record s { compiled_cache = put key_eq key graph s.compiled_cache })

  unfoldable pub use_cache : CacheKey → Option G → Registry B G → Fetched G × Registry B G
  unfolding compile_graph
  use_cache key (some graph) s = (fetched graph, s)
  use_cache key none s = compile_graph key (get str_eq key.name s.registry) s

  -- `_get_graph_sync`
  unfoldable pub get_graph_sync : CacheKey → Registry B G → Fetched G × Registry B G
  unfolding use_cache
  get_graph_sync key s = use_cache key (get key_eq key s.compiled_cache) s

  -- After the check without the lock.
  unfoldable pub after_check :
      (Registry B G → Registry B G) → CacheKey → Option G → Registry B G → Fetched G × Registry B G
  unfolding get_graph_sync
  after_check others key (some graph) s = (fetched graph, s)
  after_check others key none s = get_graph_sync key (others s)

  -- `get_assembly_graph` and `get_retrieval_graph`
  unfoldable pub get_graph :
      (Registry B G → Registry B G) → CacheKey → Registry B G → Fetched G × Registry B G
  unfolding after_check
  get_graph others key s = after_check others key (get key_eq key s.compiled_cache) s
