-- ===== src/Search/Rerank.antt =====
-- search_flow.py, `_rerank_via_api` and `rerank_results`.
use context_broker.Prelude.{
  ℕ, zero, suc, ◌+◌, ◌-◌, ltb, length, Bool, not, Option, none, some, List, [], ◌∷◌, String, str_eq,
  if◌then◌else◌, map, take, sort_by,
}
use context_broker.Prelude.Int.{ℤ, pos, negsuc}
use context_broker.Store.{Exception, index_error}
use context_broker.Floats.{Floats}
use context_broker.Tiers.{get_or}

-- A result, or an exception that leaves the node.
pub data Ranked (A : Type 0) : Type 0 where
  ranked : A → Ranked A
  escaped : Exception → Ranked A

abbrev pub and_then : {A B : Type 0} → Ranked A → (A → Ranked B) → Ranked B
and_then (ranked a) k = k a
and_then (escaped e) k = escaped e

module _ (f : Floats) where
  open f use {Float, of_int, gt}

  -- A candidate is a row of the search with the score of the reranker, once there is one.
  pub record Scored (R : Type 0) : Type 0 where
    pub row : R
    pub rerank_score : Option Float

  -- An item of the answer: `item.get("index", 0)` and `item.get("relevance_score", 0)`, two numbers.
  pub record Item : Type 0 where
    pub index : Option ℤ
    pub relevance_score : Option Float

  -- What comes of the request: the items of the answer; an HTTPError, KeyError or ValueError, which
  -- is caught; or an answer with other values, at which the code raises another exception.
  pub data Answered : Type 0 where
    items_of : List Item → Answered
    declined : Answered
    malformed : Exception → Answered

  module _ {R : Type 0} where
    -- `scored[idx]["rerank_score"] = score`, where the index is in range.
    abbrev pub set_score : ℕ → Float → List (Scored R) → List (Scored R)
    set_score idx score [] = []
    set_score zero score (c ∷ cs) = record c { rerank_score = some score } ∷ cs
    set_score (suc n) score (c ∷ cs) = c ∷ set_score n score cs

    -- An index below zero passes `idx < len(scored)` and counts from the end; one before the first
    -- candidate raises an IndexError.
    abbrev pub set_at : ℤ → Float → List (Scored R) → Ranked (List (Scored R))
    set_at (pos n) score scored = ranked (set_score n score scored)
    set_at (negsuc n) score scored =
        if ltb n (length scored)
        then ranked (set_score (length scored - (n + 1)) score scored)
        else escaped index_error

    abbrev pub apply_scores : List Item → List (Scored R) → Ranked (List (Scored R))
    apply_scores [] scored = ranked scored
    apply_scores (item ∷ items) scored =
        and_then
          (set_at (get_or item.index (pos 0)) (get_or item.relevance_score (of_int 0)) scored)
          (apply_scores items)

    abbrev pub score_of : Scored R → Float
    score_of c = get_or c.rerank_score (of_int 0)

    -- `sorted(…, reverse=True)` keeps the order of equal scores.
    abbrev pub better : Scored R → Scored R → Bool
    better a b = not (gt (score_of b) (score_of a))

    abbrev pub unscored : R → Scored R
    unscored row = record { row = row; rerank_score = none }

    -- `_rerank_via_api`, with the items of the answer.
    unfoldable pub rerank_items : ℕ → List Item → List R → Ranked (List (Scored R))
    rerank_items top_n items candidates =
        and_then (apply_scores items (map unscored candidates))
          (λ scored. ranked (take top_n (sort_by better scored)))

    unfoldable pub rerank_by_api : ℕ → ℕ → Answered → List R → Ranked (List R)
    unfolding rerank_items
    rerank_by_api limit top_n declined candidates = ranked (take limit candidates)
    rerank_by_api limit top_n (malformed e) candidates = escaped e
    rerank_by_api limit top_n (items_of items) candidates =
        and_then (rerank_items top_n items candidates)
          (λ scored. ranked (take limit (map (λ c. c.row) scored)))

    -- `rerank_results`, for the name of the provider.
    unfoldable pub rerank_results : String → ℕ → ℕ → Answered → List R → Ranked (List R)
    unfolding rerank_by_api
    rerank_results provider limit top_n answer [] = ranked []
    rerank_results provider limit top_n answer (c ∷ cs) =
        if str_eq provider "api"
        then rerank_by_api limit top_n answer (c ∷ cs)
        else ranked (take limit (c ∷ cs))
