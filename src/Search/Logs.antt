-- ===== src/Search/Logs.antt =====
-- conversation_ops_flow.py, `query_logs_node` and `search_logs_node`.
use context_broker.Prelude.{ℕ, Option, List, [], ◌∷◌, ◌++◌, String, cat}
use context_broker.Filters.{
  Arg, text, number, Condition, literal, Filter, optional, build_filters, when_given,
}
use context_broker.Workers.Embedding.{Vector, vec_str}

-- The WHERE clause, the number of the placeholder of LIMIT, and the arguments.
pub record LogQuery : Type 0 where
  pub conditions : List Condition
  pub limit_idx : ℕ
  pub args : List Arg

pub record LogRequest : Type 0 where
  pub container_name : Option String
  pub level : Option String
  pub since : Option String
  pub until : Option String
  pub keyword : Option String
  pub limit : ℕ

-- f"%{…}%"
abbrev pub containing : String → Arg
containing s = text (cat ("%" ∷ s ∷ "%" ∷ []))

-- `str.upper` is a parameter.
module _ (upper : String → String) where
  abbrev pub container_and_level : LogRequest → List Filter
  container_and_level r =
      optional "container_name ILIKE" (when_given containing r.container_name)
      ∷ optional "data->>'level' =" (when_given (λ s. text (upper s)) r.level)
      ∷ optional "log_timestamp >=" (when_given text r.since)
      ∷ []

  abbrev pub log_filters : LogRequest → List Filter
  log_filters r =
      container_and_level r
      ++ optional "log_timestamp <=" (when_given text r.until)
        ∷ optional "message ILIKE" (when_given containing r.keyword)
        ∷ []

  -- `if conditions else "1=1"`
  abbrev pub or_true : List Condition → List Condition
  or_true [] = literal "1=1" ∷ []
  or_true (c ∷ cs) = c ∷ cs

  unfoldable pub query_logs : LogRequest → LogQuery
  query_logs r =
      let (conditions, args, idx) = build_filters 1 (log_filters r) in
      record {
        conditions = or_true conditions;
        limit_idx = idx;
        args = args ++ number r.limit ∷ [];
      }

  -- The search by a vector: $1 is the vector.
  unfoldable pub search_logs : Vector → LogRequest → LogQuery
  search_logs query_vec r =
      let (conditions, args, idx) = build_filters 2 (container_and_level r) in
      record {
        conditions = literal "embedding IS NOT NULL" ∷ conditions;
        limit_idx = idx;
        args = text (vec_str query_vec) ∷ args ++ number r.limit ∷ [];
      }
