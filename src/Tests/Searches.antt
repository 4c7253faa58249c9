-- ===== src/Tests/Searches.antt =====
-- A search for messages, and the reranking of three rows.
use context_broker.Prelude.{ℕ, ◌≡◌, refl, none, some, List, [], ◌∷◌, ◌==◌}
use context_broker.Workers.Embedding.{Vector}
use context_broker.Search.Queries.{MessageSearch}
use context_broker.Search.Rerank.{Item, items_of, ranked, rerank_results}
use context_broker.Search.Ranked.{IsRanked, rerank_results-rows}
use context_broker.Prelude.Int.{pos, negsuc}
use context_broker.Tests.Budgets.{decimals}

abbrev request : MessageSearch
request = record {
  query = "budget";
  sender = some "ann";
  role = none;
  limit = 10;
  rrf_k = 60;
  candidate_limit = 100;
}

abbrev vector : Vector
vector = "0.5" ∷ "0.25" ∷ []

-- An answer with a score for the third row and one for a row that is not there.
abbrev items : List (Item decimals)
items =
    record { index = some (negsuc 0); relevance_score = some 9000 }
    ∷ record { index = some (pos 7); relevance_score = some 8000 }
    ∷ []

abbrev rows : List ℕ
rows = 4 ∷ 5 ∷ 6 ∷ []

-- The index -1 is that of the last row.
last_first : rerank_results decimals "api" 2 10 (items_of items) rows ≡ ranked (6 ∷ 4 ∷ [])
unfolding rerank_results
last_first = refl

rerank_results-rows_example :
    IsRanked decimals
      (λ n. n == 6)
      2
      (items_of items)
      rows
      (rerank_results decimals "api" 2 10 (items_of items) rows)
rerank_results-rows_example =
    rerank_results-rows decimals (λ n. n == 6) "api" 2 10 (items_of items) rows
