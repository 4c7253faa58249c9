-- ===== src/Dict.antt =====
-- Python's dict as an association list in the order of insertion: a key that is there keeps its place
-- when it gets another value.
use context_broker.Prelude.{
  ◌≡◌, ◌↔◌, refl, Bool, true, Option, none, some, List, [], ◌∷◌, arith, if◌then◌else◌, map,
}

module _ {ℓ κ} {K : Type ℓ} {V : Type κ} (eq : K → K → Bool) where
  -- `d.get(key)`
  abbrev pub get : K → List (K × V) → Option V
  get k [] = none
  get k ((j, v) ∷ d) = if eq j k then some v else get k d

  -- `d[key] = value`
  abbrev pub put : K → V → List (K × V) → List (K × V)
  put k v [] = (k, v) ∷ []
  put k v ((j, w) ∷ d) = if eq j k then (j, v) ∷ d else (j, w) ∷ put k v d

  -- `d.pop(key, None)`
  abbrev pub remove : K → List (K × V) → List (K × V)
  remove k [] = []
  remove k ((j, w) ∷ d) = if eq j k then d else (j, w) ∷ remove k d

  -- `d.update(other)`
  abbrev pub update : List (K × V) → List (K × V) → List (K × V)
  update [] d = d
  update ((k, v) ∷ other) d = update other (put k v d)

  module _ (eq_iff : (a b : K) → (eq a b ≡ true) ↔ (a ≡ b)) where
    pub get-put :
        (k j : K) (v : V) (d : List (K × V))
        → get j (put k v d) ≡ (if eq k j then some v else get j d)
    get-put k j v [] = refl
    get-put k j v ((i, w) ∷ d) = ground (arith, eq_iff k j, eq_iff i k, eq_iff i j, get-put k j v d)

-- `list(d.keys())`
abbrev pub keys {ℓ κ} : {K : Type ℓ} {V : Type κ} → List (K × V) → List K
keys d = map (λ e. e.0) d
