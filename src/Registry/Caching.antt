-- ===== src/Registry/Caching.antt =====
-- What a caller of app/flows/build_type_registry.py can observe of the cache.
use context_broker.Prelude.{
  ◌≡◌, ◌↔◌, refl, inl, inr, true, Option, none, some, List, [], ◌∷◌, String, arith, str_eq, eq_iff,
  subst, Bool-cases,
}
use context_broker.Dict.{get, get-put}
use context_broker.Registry.{
  Kind, assembly, retrieval, kind_eq, CacheKey, key_eq, Registry, Fetched, fetched, not_registered,
  register_build_type, builder_of, compile_graph, use_cache, get_graph_sync, get_graph,
}

kind_eq_iff : (a b : Kind) → (kind_eq a b ≡ true) ↔ (a ≡ b)
kind_eq_iff assembly assembly = ground arith
kind_eq_iff assembly retrieval = ground arith
kind_eq_iff retrieval assembly = ground arith
kind_eq_iff retrieval retrieval = ground arith

key_eq_iff : (a b : CacheKey) → (key_eq a b ≡ true) ↔ (a ≡ b)
key_eq_iff a b = ground (arith, eq_iff a.name b.name, kind_eq_iff a.kind b.kind)

abbrev pub graph_of {ℓ} : {G : Type ℓ} → Option G → Option G → Option G
graph_of none d = d
graph_of (some g) d = some g

abbrev pub as_option : {G : Type 0} → Fetched G → Option G
as_option (fetched g) = some g
as_option (not_registered name names) = none

module _ {B G : Type 0} (compile : B → G) where
  abbrev compiled : Kind → Option (B × B) → Option G
  compiled kind none = none
  compiled kind (some builders) = some (compile (builder_of kind builders))

  -- The graph that the registry stands for, with no cache.
  abbrev pub registered : CacheKey → Registry B G → Option G
  registered key s = compiled key.kind (get str_eq key.name s.registry)

  -- The graph that a caller gets: the cached one, or that of the registry.
  abbrev pub view : CacheKey → Registry B G → Option G
  view key s = graph_of (get key_eq key s.compiled_cache) (registered key s)

  compile_graph-view :
      (key j : CacheKey) (o : Option (B × B)) (s : Registry B G)
      → get str_eq key.name s.registry ≡ o
      → get key_eq key s.compiled_cache ≡ none
      → (as_option (compile_graph compile key o s).0 ≡ view key s)
        × (view j (compile_graph compile key o s).1 ≡ view j s)
  unfolding compile_graph
  compile_graph-view key j none s e c = (rw (c, e) refl, refl)
  compile_graph-view key j (some builders) s e c = (
    rw (c, e) refl,
    elim (Bool-cases (key_eq key j)) [
      | inl same ↦
          let k : key ≡ j = (key_eq_iff key j).0 same in
          rw (get-put key_eq key_eq_iff key j) (rw same (rw (← k) (rw (c, e) refl)))
      | inr other ↦ rw (get-put key_eq key_eq_iff key j) (rw other refl)
    ],
  )

  use_cache-view :
      (key j : CacheKey) (o : Option G) (s : Registry B G)
      → get key_eq key s.compiled_cache ≡ o
      → (as_option (use_cache compile key o s).0 ≡ view key s)
        × (view j (use_cache compile key o s).1 ≡ view j s)
  unfolding use_cache
  use_cache-view key j none s c = compile_graph-view key j (get str_eq key.name s.registry) s refl c
  use_cache-view key j (some g) s c = (rw c refl, refl)

-- What the threads do with the registry between two calls of `clear_compiled_cache`.
pub data Op (B : Type 0) : Type 0 where
  registering : String → B → B → Op B
  fetching : CacheKey → Op B

module _ {B G : Type 0} (compile : B → G) where
  abbrev pub step_op : Op B → Registry B G → Registry B G
  step_op (registering name a r) s = register_build_type name a r s
  step_op (fetching key) s = (get_graph_sync compile key s).1

  abbrev pub run_ops : List (Op B) → Registry B G → Registry B G
  run_ops [] s = s
  run_ops (op ∷ ops) s = run_ops ops (step_op op s)

  compile_graph-cached :
      (key j : CacheKey) (o : Option (B × B)) (s : Registry B G) (g : G)
      → get key_eq key s.compiled_cache ≡ none
      → get key_eq j s.compiled_cache ≡ some g
      → get key_eq j (compile_graph compile key o s).1.compiled_cache ≡ some g
  unfolding compile_graph
  compile_graph-cached key j none s g new old = old
  compile_graph-cached key j (some builders) s g new old = elim (Bool-cases (key_eq key j)) [
    | inl same ↦
        let k : key ≡ j = (key_eq_iff key j).0 same in
        let new' : get key_eq j s.compiled_cache ≡ none =
          subst (λ x. get key_eq x s.compiled_cache ≡ none) k new in
        absurd (cc (new', old))
    | inr other ↦ rw (get-put key_eq key_eq_iff key j) (rw other old)
  ]

  use_cache-cached :
      (key j : CacheKey) (o : Option G) (s : Registry B G) (g : G)
      → get key_eq key s.compiled_cache ≡ o
      → get key_eq j s.compiled_cache ≡ some g
      → get key_eq j (use_cache compile key o s).1.compiled_cache ≡ some g
  unfolding use_cache
  use_cache-cached key j none s g c old =
      compile_graph-cached key j (get str_eq key.name s.registry) s g c old
  use_cache-cached key j (some h) s g c old = old

  step_op-cached :
      (op : Op B) (j : CacheKey) (s : Registry B G) (g : G)
      → get key_eq j s.compiled_cache ≡ some g
      → get key_eq j (step_op op s).compiled_cache ≡ some g
  unfolding register_build_type get_graph_sync
  step_op-cached (registering name a r) j s g old = old
  step_op-cached (fetching key) j s g old =
      use_cache-cached key j (get key_eq key s.compiled_cache) s g refl old

  run_ops-cached :
      (ops : List (Op B)) (j : CacheKey) (s : Registry B G) (g : G)
      → get key_eq j s.compiled_cache ≡ some g
      → get key_eq j (run_ops ops s).compiled_cache ≡ some g
  run_ops-cached [] j s g old = old
  run_ops-cached (op ∷ ops) j s g old =
      run_ops-cached ops j (step_op op s) g (step_op-cached op j s g old)

  -- A graph that is cached is what every later fetch of it gives, and the fetch changes nothing, until
  -- the cache is cleared: whatever is fetched and registered in between, the same name included.
  pub get_graph_stale :
      (others : Registry B G → Registry B G) (ops : List (Op B)) (key : CacheKey) (s : Registry B G)
      (g : G)
      → get key_eq key s.compiled_cache ≡ some g
      → get_graph compile others key (run_ops ops s) ≡ (fetched g, run_ops ops s)
  unfolding get_graph
  get_graph_stale others ops key s g cached = rw (run_ops-cached ops key s g cached) refl
