-- ===== src/Search/Ranked.antt =====
-- What the reranking makes of the candidates.
use context_broker.Prelude.{
  ℕ, zero, suc, ◌+◌, ◌-◌, ltb, sym, ap, any, not, true, false, ◌⊎◌, ◌≤◌, ◌≡◌, refl, ◌∙◌, Bool, inl,
  inr, List, [], ◌∷◌, String, arith, Bool-cases, keep, take, map, length, length-take, insert_by,
  sort_by, str_eq,
}
use context_broker.Prelude.Int.{ℤ, pos, negsuc}
use context_broker.Store.{index_error}
use context_broker.Tiers.{get_or}
use context_broker.Floats.{Floats}
use context_broker.Search.Rerank.{
  Scored, Item, Ranked, ranked, escaped, Answered, items_of, declined, malformed, set_score, set_at,
  and_then, apply_scores, better, unscored, rerank_items, rerank_by_api, rerank_results,
}

module _ {ℓ} {A : Type ℓ} where
  -- How many elements have a property.
  abbrev pub count : (A → Bool) → List A → ℕ
  count p xs = length (keep p xs)

  count-take : (p : A → Bool) (n : ℕ) (xs : List A) → count p (take n xs) ≤ count p xs
  count-take p zero xs = omega arith
  count-take p (suc n) [] = omega arith
  count-take p (suc n) (x ∷ xs) = ground (arith, count-take p n xs)

  count-insert_by :
      (p : A → Bool) (before : A → A → Bool) (x : A) (xs : List A)
      → count p (insert_by before x xs) ≡ count p (x ∷ xs)
  count-insert_by p before x [] = refl
  count-insert_by p before x (y ∷ ys) = ground (arith, count-insert_by p before x ys)

  count-cons :
      (p : A → Bool) (x : A) (xs ys : List A)
      → count p xs ≡ count p ys
      → count p (x ∷ xs) ≡ count p (x ∷ ys)
  count-cons p x xs ys h = ground (arith, h)

  count-sort_by :
      (p : A → Bool) (before : A → A → Bool) (xs : List A)
      → count p (sort_by before xs) ≡ count p xs
  count-sort_by p before [] = refl
  count-sort_by p before (x ∷ xs) =
      count-insert_by p before x (sort_by before xs)
      ∙ count-cons p x (sort_by before xs) xs (count-sort_by p before xs)

  any-later : (p : A → Bool) (x : A) (xs : List A) → any p xs ≡ true → any p (x ∷ xs) ≡ true
  any-later p x xs h = ground (arith, h)

  any-one : (p : A → Bool) (x : A) → p x ≡ true → any p (x ∷ []) ≡ true
  any-one p x h = rw h refl

  any-head : (p : A → Bool) (x : A) (xs : List A) → any p (x ∷ []) ≡ true → any p (x ∷ xs) ≡ true
  any-head p x xs h = ground (arith, h)

module _ {ℓ κ} {A : Type ℓ} {B : Type κ} where
  count-map :
      (p : B → Bool) (g : A → B) (xs : List A) → count p (map g xs) ≡ count (λ x. p (g x)) xs
  count-map p g [] = refl
  count-map p g (x ∷ xs) = ground (arith, count-map p g xs)

  length-map : (g : A → B) (xs : List A) → length (map g xs) ≡ length xs
  length-map g [] = refl
  length-map g (x ∷ xs) = ap suc (length-map g xs)

module _ (f : Floats) {R : Type 0} (p : R → Bool) where
  open f use {Float}

  -- How many rows have the property, whatever their scores.
  abbrev rows_with : List (Scored f R) → ℕ
  rows_with = count (λ c. p (c.row))

  set_score-rows :
      (idx : ℕ) (score : Float) (cs : List (Scored f R))
      → rows_with (set_score f idx score cs) ≡ rows_with cs
  set_score-rows idx score [] = refl
  set_score-rows zero score (c ∷ cs) = elim (Bool-cases (p c.row)) [
    | inl holds ↦ rw holds refl
    | inr fails ↦ rw fails refl
  ]
  set_score-rows (suc n) score (c ∷ cs) =
      count-cons (λ c. p (c.row)) c (set_score f n score cs) cs (set_score-rows n score cs)

  set_score-length :
      (idx : ℕ) (score : Float) (cs : List (Scored f R))
      → length (set_score f idx score cs) ≡ length cs
  set_score-length idx score [] = refl
  set_score-length zero score (c ∷ cs) = refl
  set_score-length (suc n) score (c ∷ cs) = ap suc (set_score-length n score cs)

  -- An index that counts from the end to before the first candidate.
  abbrev pub is_before : ℕ → ℤ → Bool
  is_before n (pos k) = false
  is_before n (negsuc k) = not (ltb k n)

  abbrev pub before_first : ℕ → Item f → Bool
  before_first n item = is_before n (get_or item.index (pos 0))

  -- As many rows as in `cs`, or an IndexError, for an index of the items.
  abbrev SameRows : List (Item f) → List (Scored f R) → Ranked (List (Scored f R)) → Type 0
  SameRows items cs (ranked scored) =
      (rows_with scored ≡ rows_with cs) × (length scored ≡ length cs)
  SameRows items cs (escaped e) = (e ≡ index_error) × (any (before_first (length cs)) items ≡ true)

  set_at-SameRows :
      (item : Item f) (idx : ℤ) (score : Float) (cs : List (Scored f R))
      → get_or item.index (pos 0) ≡ idx
      → SameRows (item ∷ []) cs (set_at f idx score cs)
  set_at-SameRows item (pos n) score cs e = (set_score-rows n score cs, set_score-length n score cs)
  set_at-SameRows item (negsuc n) score cs e = elim (Bool-cases (ltb n (length cs))) [
    | inl inside ↦
        let k = length cs - (n + 1) in
        rw inside (set_score-rows k score cs, set_score-length k score cs)
    | inr outside ↦ rw outside (
      refl,
      any-one (before_first (length cs)) item (ap (is_before (length cs)) e ∙ ap not outside),
    )
  ]

  SameRows-trans :
      (item : Item f) (items : List (Item f)) (cs ds : List (Scored f R))
      (o : Ranked (List (Scored f R)))
      → SameRows (item ∷ []) cs (ranked ds)
      → SameRows items ds o
      → SameRows (item ∷ items) cs o
  SameRows-trans item items cs ds (ranked scored) h g = (g.0 ∙ h.0, g.1 ∙ h.1)
  SameRows-trans item items cs ds (escaped e) h g = (
    g.0,
    any-later (before_first (length cs)) item items
        (ap (λ n. any (before_first n) items) (sym h.1) ∙ g.1),
  )

  SameRows-and_then :
      (item : Item f) (items : List (Item f)) (cs : List (Scored f R))
      (o : Ranked (List (Scored f R)))
      → SameRows (item ∷ []) cs o
      → ((scored : List (Scored f R)) → SameRows items scored (apply_scores f items scored))
      → SameRows (item ∷ items) cs (and_then o (apply_scores f items))
  SameRows-and_then item items cs (escaped e) h ih =
      (h.0, any-head (before_first (length cs)) item items h.1)
  SameRows-and_then item items cs (ranked ds) h ih =
      SameRows-trans item items cs ds (apply_scores f items ds) h (ih ds)

  apply_scores-rows :
      (items : List (Item f)) (cs : List (Scored f R)) → SameRows items cs (apply_scores f items cs)
  apply_scores-rows [] cs = (refl, refl)
  apply_scores-rows (item ∷ items) cs =
      SameRows-and_then item items cs _ (set_at-SameRows item _ _ cs refl) (apply_scores-rows items)

  -- At most `limit` results, with the property no more often than the candidates; or an exception,
  -- for an answer with other values or with an index that counts to before the first candidate.
  abbrev pub IsRanked : ℕ → Answered f → List R → Ranked (List R) → Type 0
  IsRanked limit answer candidates (ranked rows) =
      (length rows ≤ limit) × (count p rows ≤ count p candidates)
  IsRanked limit answer candidates (escaped e) =
      (answer ≡ malformed e)
      ⊎ ((items : List (Item f)) × (answer ≡ items_of items)
          × (e ≡ index_error)
          × (any (before_first (length candidates)) items ≡ true))

  take-IsRanked :
      (limit : ℕ) (answer : Answered f) (candidates rows : List R)
      → count p rows ≤ count p candidates
      → IsRanked limit answer candidates (ranked (take limit rows))
  take-IsRanked limit answer candidates rows h =
      (omega (arith, length-take limit rows), omega (arith, count-take p limit rows, h))

  scored-IsRanked :
      (limit top_n : ℕ) (items : List (Item f)) (candidates : List R)
      (o : Ranked (List (Scored f R)))
      → SameRows items (map (unscored f) candidates) o
      → IsRanked limit (items_of items) candidates (
          and_then
            (and_then o (λ scored. ranked (take top_n (sort_by (better f) scored))))
            (λ scored. ranked (take limit (map (λ c. c.row) scored))))
  scored-IsRanked limit top_n items candidates (escaped e) h = inr (
    items,
    refl,
    h.0,
    ap (λ n. any (before_first n) items) (sym (length-map (unscored f) candidates)) ∙ h.1,
  )
  scored-IsRanked limit top_n items candidates (ranked scored) h =
      let sorted = sort_by (better f) scored in
      take-IsRanked limit (items_of items) candidates (map (λ c. c.row) (take top_n sorted)) (
        omega (
          arith,
          h.0,
          count-map p (λ c. c.row) (take top_n sorted),
          count-take (λ c. p (c.row)) top_n sorted,
          count-sort_by (λ c. p (c.row)) (better f) scored,
          count-map (λ c. p (c.row)) (unscored f) candidates,
        ))

  rerank_by_api-IsRanked :
      (limit top_n : ℕ) (answer : Answered f) (candidates : List R)
      → IsRanked limit answer candidates (rerank_by_api f limit top_n answer candidates)
  unfolding rerank_by_api rerank_items
  rerank_by_api-IsRanked limit top_n declined candidates =
      take-IsRanked limit declined candidates candidates (omega arith)
  rerank_by_api-IsRanked limit top_n (malformed e) candidates = inl refl
  rerank_by_api-IsRanked limit top_n (items_of items) candidates =
      scored-IsRanked limit top_n items candidates
        (apply_scores f items (map (unscored f) candidates))
        (apply_scores-rows items (map (unscored f) candidates))

  -- Whatever the provider is and whatever the reranker answers, with indices out of range or below
  -- zero, several scores for a candidate or none: there are at most `limit` results, and for every property
  -- of rows no more of them have it than candidates do, so no row is made up or given twice. An
  -- exception leaves the node only where the answer has other values than items with two numbers, or
  -- an index that counts from the end to before the first candidate, which is an IndexError.
  pub rerank_results-rows :
      (provider : String) (limit top_n : ℕ) (answer : Answered f) (candidates : List R)
      → IsRanked limit answer candidates (rerank_results f provider limit top_n answer candidates)
  unfolding rerank_results
  rerank_results-rows provider limit top_n answer [] = (omega arith, omega arith)
  rerank_results-rows provider limit top_n answer (c ∷ cs) =
      elim (Bool-cases (str_eq provider "api")) [
        | inl api ↦ rw api (rerank_by_api-IsRanked limit top_n answer (c ∷ cs))
        | inr other ↦ rw other (take-IsRanked limit answer (c ∷ cs) (c ∷ cs) (omega arith))
      ]
