-- ===== src/Quality/Counting.antt =====
-- The counts that the dispatch of an extraction reports.
use context_broker.Prelude.{
  ℕ, ◌+◌, ◌≤◌, inl, inr, false, Option, none, some, List, [], ◌∷◌, String, str_eq, truthy, or_empty,
  length, arith, Bool-cases,
}
use context_broker.Tiers.{get_or}
use context_broker.Quality.Wrapper.{Quality, QualityExternal, Added}
use context_broker.Quality.Expiry.{add}
use context_broker.Quality.Dispatch.{
  ExtractedFact, Counts, DispatchExternal, count_relationship, dispatch_added, after_add,
  dispatch_fact, dispatch_facts, dispatch_extraction_results,
}

abbrev pub sum_counts : Counts → ℕ
sum_counts c = c.new + c.duplicate + c.supersedes + c.conflicts

module _ {F M : Type 0} (ext : QualityExternal M) (outer : DispatchExternal)
    (conversation_id : String) where
  abbrev AddsOne : Counts → Counts × Quality F M → Type 0
  AddsOne c r = sum_counts r.0 ≤ sum_counts c + 1

  count_relationship-le :
      (relationship : String) (fact : ExtractedFact F) (id : String) (c : Counts) (s : Quality F M)
      → AddsOne c (count_relationship ext outer conversation_id relationship fact id (c, s))
  unfolding count_relationship
  count_relationship-le relationship fact id c s = elim (Bool-cases (str_eq relationship "NEW")) [
    | inl new ↦ rw new (omega arith)
    | inr not_new ↦ elim (Bool-cases (str_eq relationship "SUPERSEDES")) [
      | inl sup ↦ rw (not_new, sup) (omega arith)
      | inr not_sup ↦ elim (Bool-cases (str_eq relationship "CONFLICTS")) [
        | inl con ↦ rw (not_new, not_sup, con) (omega arith)
        | inr other ↦ rw (not_new, not_sup, other) (omega arith)
      ]
    ]
  ]

  dispatch_added-le :
      (relationship : String) (fact : ExtractedFact F) (id : String) (ids : List String)
      (durability confidence : Option F) (c : Counts) (s : Quality F M)
      → AddsOne c (
          dispatch_added ext outer conversation_id relationship fact id ids durability confidence
            (c, s))
  unfolding dispatch_added
  dispatch_added-le relationship fact id ids (some d) (some k) c s =
      count_relationship-le relationship fact id c _
  dispatch_added-le relationship fact id ids (some d) none c s = omega arith
  dispatch_added-le relationship fact id ids none k c s = omega arith

  after_add-le :
      (relationship : String) (fact : ExtractedFact F) (c : Counts) (r : Added × Quality F M)
      → AddsOne c (after_add ext outer conversation_id relationship fact c r)
  unfolding after_add
  after_add-le relationship fact c (added, s) =
      elim (Bool-cases (truthy (or_empty added.memory_id))) [
        | inl there ↦ rw there (
            dispatch_added-le relationship fact (or_empty added.memory_id) added.relation_ids
              fact.durability fact.confidence c s)
        | inr none_given ↦ rw none_given (omega arith)
      ]

  dispatch_fact-le :
      (fact : ExtractedFact F) (c : Counts) (s : Quality F M)
      → AddsOne c (dispatch_fact ext outer conversation_id fact (c, s))
  unfolding dispatch_fact
  dispatch_fact-le fact c s =
      let relationship = outer.upper (get_or fact.relationship "NEW") in
      elim (Bool-cases (str_eq relationship "DUPLICATE")) [
        | inl dup ↦ rw dup (omega arith)
        | inr other ↦ elim (Bool-cases (truthy fact.content)) [
          | inl there ↦
              rw (other, there)
                (after_add-le relationship fact c (
                  add ext fact.content (get_or fact.user_id "unknown") conversation_id false
                    fact.original_utterance s))
          | inr empty ↦ rw (other, empty) (omega arith)
        ]
      ]

  dispatch_facts-le :
      (facts : List (ExtractedFact F)) (r : Counts × Quality F M)
      → sum_counts (dispatch_facts ext outer conversation_id facts r).0
        ≤ sum_counts r.0 + length facts
  unfolding dispatch_facts
  dispatch_facts-le [] r = omega arith
  dispatch_facts-le (fact ∷ facts) (c, s) = omega (
    arith,
    dispatch_facts-le facts (dispatch_fact ext outer conversation_id fact (c, s)),
    dispatch_fact-le fact c s,
  )

  -- However mem0 answers, the four counts that the dispatch reports make up no more than the facts of
  -- the extraction: no fact is counted twice.
  dispatch_extraction_results-le :
      (facts : List (ExtractedFact F)) (s : Quality F M)
      → sum_counts (dispatch_extraction_results ext outer conversation_id facts s).0 ≤ length facts
  unfolding dispatch_extraction_results
  dispatch_extraction_results-le facts s = omega (
    arith,
    dispatch_facts-le facts (record { new = 0; duplicate = 0; supersedes = 0; conflicts = 0 }, s),
  )
