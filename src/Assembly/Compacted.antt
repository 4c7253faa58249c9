-- ===== src/Assembly/Compacted.antt =====
-- The node `compact_tier1` as a whole.
use context_broker.Prelude.{
  ℕ, ◌<◌, ◌≤◌, ◌≡◌, refl, sym, inl, inr, Option, none, some, ◌+◌, ltb, take, List, [], ◌++◌, String,
  arith, ◌==◌, Bool-cases, total, length, estimate_tokens, All, append-nil,
}
use context_broker.Floats.{Floats}
use context_broker.Store.{Exception, Message, Summary, Db, Outcome, returned, raised}
use context_broker.Assembly.State.{AssemblyState, External, Prompt, prompt, missing}
use context_broker.Assembly.Compact.{
  Scope, no_progress, compact_progress, compact_done, compact_rounds, scope_of, budget_of,
  answers_of, compact_with, compact_loaded, compact_tier1,
}
use context_broker.Assembly.Guard.{IsSound, IsUnique, IsChunkRow, insert_summaries-IsSound}

-- The rows that were there are followed by active ones of tier 2 of the window, under the unique
-- index.
abbrev pub Appends : Scope → List Summary → Db → Type 0
Appends scope start db =
    IsUnique db.summaries
    × (added : List Summary) × (db.summaries ≡ start ++ added)
    × All (IsChunkRow scope) added

-- The summaries of the state that the node returned fit together into the budget, if there is one;
-- or an exception left an extraction. In both cases it only appended rows.
abbrev pub IsCompacted :
    {F : Type 0}
    → Option (ℕ × Exception)
    → Scope
    → ℕ
    → List Summary
    → Outcome (AssemblyState F) × Db
    → Type 0
IsCompacted x scope budget start (returned t, db) =
    (0 < budget → total estimate_tokens t.tier2_summaries ≤ budget) × Appends scope start db
IsCompacted x scope budget start (raised e, db) =
    (i : ℕ) × (x ≡ some (i, e)) × Appends scope start db

module _ (f : Floats) (ext : External (f.Float)) where
  open f use {Float}

  progress-IsSound :
      (answers : List (List Message × Option String)) (w c : ℕ) (s : AssemblyState Float) (db : Db)
      → IsUnique db.summaries
      → let r = compact_progress f ext answers w c s db in
        IsSound (scope_of f ext w c s) (budget_of f ext s) db.summaries r.0 r.1
  progress-IsSound answers w c s db u =
      insert_summaries-IsSound ext.rival (scope_of f ext w c s) (budget_of f ext s) 0 answers
        db.summaries no_progress db
        record {
          summed = refl;
          within = λ pos. omega arith;
          unique = u;
          added = [];
          rows = sym (append-nil db.summaries);
          kinds = tt;
        }

  compact_done-IsCompacted :
      (answers : List (List Message × Option String)) (x : Option (ℕ × Exception)) (w c : ℕ)
      (s : AssemblyState Float) (db : Db)
      → IsUnique db.summaries
      → IsCompacted x
          (scope_of f ext w c s)
          (budget_of f ext s)
          db.summaries
          (compact_done f ext answers w c s db)
  compact_done-IsCompacted answers x w c s db u =
      let h = progress-IsSound answers w c s db u in
      (λ pos. rw h.summed (h.within pos), (h.unique, h.added, h.rows, h.kinds))

  compact_rounds-IsCompacted :
      (x : Option (ℕ × Exception)) (answers : List (List Message × Option String)) (w c : ℕ)
      (s : AssemblyState Float) (db : Db)
      → IsUnique db.summaries
      → IsCompacted x
          (scope_of f ext w c s)
          (budget_of f ext s)
          db.summaries
          (compact_rounds f ext x answers w c s db)
  compact_rounds-IsCompacted none answers w c s db u =
      compact_done-IsCompacted answers none w c s db u
  compact_rounds-IsCompacted (some (i, e)) answers w c s db u =
      let before = compact_progress f ext (take i answers) w c s db in
      let after = compact_progress f ext (take (i + 1) answers) w c s db in
      let h = progress-IsSound (take (i + 1) answers) w c s db u in
      elim (Bool-cases (ltb (length before.0.extractions) (length after.0.extractions))) [
        | inl called ↦ rw called (i, refl, (h.unique, h.added, h.rows, h.kinds))
        | inr skipped ↦ rw skipped (compact_done-IsCompacted answers (some (i, e)) w c s db u)
      ]

  compact_with-IsCompacted :
      (p : String) (w c : ℕ) (s : AssemblyState Float) (db : Db)
      → IsUnique db.summaries
      → IsCompacted ext.escaping_extraction
          (scope_of f ext w c s)
          (budget_of f ext s)
          db.summaries
          (compact_with f ext p w c s db)
  unfolding compact_with
  compact_with-IsCompacted p w c s db u =
      compact_rounds-IsCompacted ext.escaping_extraction (answers_of f ext p s) w c s db u

  compact_loaded-IsCompacted :
      (w c : ℕ) (p : Prompt) (s : AssemblyState Float) (db : Db)
      → ext.parse_uuid s.context_window_id ≡ some w
      → ext.parse_uuid s.conversation_id ≡ some c
      → IsUnique db.summaries
      → IsCompacted ext.escaping_extraction
          (scope_of f ext w c s)
          (budget_of f ext s)
          db.summaries
          (compact_loaded f ext p s db)
  unfolding compact_loaded
  compact_loaded-IsCompacted w c (missing exc) s db id conv u =
      (λ pos. omega arith, (u, [], sym (append-nil db.summaries), tt))
  compact_loaded-IsCompacted w c (prompt p) s db id conv u =
      rw id (rw conv (compact_with-IsCompacted p w c s db u))

  -- The node `compact_tier1`, with ids that are UUIDs and rows that keep the unique index,
  -- returns, whatever the LLM answers and other assemblers insert, or raises an exception of the
  -- extraction flow that is none of the four kinds that it catches. The summaries of the state that it
  -- returns fit together into the budget of the upper tiers, if that is positive. In both cases it
  -- only appends rows, all of them active ones of tier 2 of its window; and the unique index holds.
  pub compact_tier1-IsCompacted :
      (w c : ℕ) (s : AssemblyState Float) (db : Db)
      → ext.parse_uuid s.context_window_id ≡ some w
      → ext.parse_uuid s.conversation_id ≡ some c
      → IsUnique db.summaries
      → IsCompacted ext.escaping_extraction
          (scope_of f ext w c s)
          (budget_of f ext s)
          db.summaries
          (compact_tier1 f ext s db)
  unfolding compact_tier1
  compact_tier1-IsCompacted w c s db id conv u = elim (Bool-cases (length s.chunks == 0)) [
    | inl empty ↦ rw empty (λ pos. omega arith, (u, [], sym (append-nil db.summaries), tt))
    | inr full ↦
        rw full
          (compact_loaded-IsCompacted w c (ext.load_prompt "chunk_summarization") s db id conv u)
  ]
