-- ===== src/Search/Bindings.antt =====
-- The placeholders of the queries and the arguments that they stand for.
use context_broker.Prelude.{
  ◌+◌, ◌≡◌, refl, ap, ◌∙◌, some, List, [], ◌∷◌, ◌++◌, String, map, length, arith,
}
use context_broker.Filters.{Arg, number, Condition, numbered, literal, build_filters}
use context_broker.Filters.Alignment.{
  get_arg, Bound, stating, bind_condition, asked, build_filters-asked, get_arg_later,
}
use context_broker.Search.Logs.{LogRequest, log_filters, or_true, query_logs}

-- The conditions without any filter.
abbrev or_stating : List Bound → List Bound
or_stating [] = stating "1=1" ∷ []
or_stating (b ∷ bs) = b ∷ bs

or_true-bound :
    (upper : String → String) (args : List Arg) (cs : List Condition)
    → map (bind_condition args) (or_true upper cs) ≡ or_stating (map (bind_condition args) cs)
or_true-bound upper args [] = refl
or_true-bound upper args (numbered c n ∷ cs) = refl
or_true-bound upper args (literal c ∷ cs) = refl

-- The same for the query on the system log, which has the condition 1=1 where no filter is given.
query_logs-asked :
    (upper : String → String) (r : LogRequest)
    → let q = query_logs upper r in
      (map (bind_condition q.args) q.conditions ≡ or_stating (asked (log_filters upper r)))
      × (get_arg q.limit_idx q.args ≡ some (number r.limit))
unfolding query_logs
query_logs-asked upper r =
    let filters = log_filters upper r in
    let (cs, args, end) = build_filters 1 filters in
    let later : List Arg = number r.limit ∷ [] in
    let (same, e) = build_filters-asked [] later 1 filters (omega arith) in
    (
      or_true-bound upper (args ++ later) cs ∙ ap or_stating same,
      ap (λ n. get_arg n (args ++ later)) {y = end + length {A = Arg} []} (omega arith)
          ∙ get_arg_later [] args [] [] (number r.limit) end e,
    )
