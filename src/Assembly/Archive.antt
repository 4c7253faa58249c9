-- ===== src/Assembly/Archive.antt =====
-- standard_tiered.py, `run_full_compaction`: the oldest chunks of tier 2 become an archival summary
-- of tier 3 and a historical header.
use context_broker.Prelude.{
  ℕ, ◌-◌, Bool, true, false, ◌&&◌, Option, none, some, List, [], ◌∷◌, String, ltb, leb, ◌==◌,
  if◌then◌else◌, head?, get_last?, any, take, total, map, length, sort_by, update_where, cat, join,
  truthy,
}
use context_broker.Floats.{Floats}
use context_broker.Store.{
  Summary, Db, unique_violation, Outcome, returned, raised, Flow, pure, or_value_error, ◌>>=◌, ◌>>◌,
}
use context_broker.Config.{lookup}
use context_broker.Tiers.{get_or, extract_deadband_config}
use context_broker.Assembly.State.{AssemblyState, External, Prompt, prompt, missing, empty_config}
use context_broker.Assembly.Partition.{active_tier, is_active_tier}
use context_broker.Assembly.Compact.{Scope, earlier, has_range, add_summary, resolve_llm_config}

-- ORDER BY summarizes_to_seq DESC
abbrev pub later : Summary → Summary → Bool
later a b = leb b.summarizes_to_seq a.summarizes_to_seq

-- The active chunks, oldest first.
abbrev pub active_chunks : ℕ → List Summary → List Summary
active_chunks window rows = sort_by earlier (active_tier window 2 rows)

-- `active_t2[:-keep_recent] if keep_recent > 0 else active_t2`
unfoldable pub consolidated : ℕ → List Summary → List Summary
consolidated keep_recent active =
    if ltb 0 keep_recent then take (length active - keep_recent) active else active

-- The newest active row of tier 3, if there is one.
abbrev pub existing_tier3 : ℕ → List Summary → Option Summary
existing_tier3 window rows = head? (sort_by later (active_tier window 3 rows))

abbrev pub header_prompt : String
header_prompt = cat (
    "You are maintaining a brief historical header for a long conversation. "
    ∷ "The header records: origin date, participants, major topics, key decisions. "
    ∷ "It should be very short — a few sentences at most. "
    ∷ "Update the header with any new major topics or decisions from the archived content. "
    ∷ "Do NOT reproduce the archived content — just update the header facts." ∷ [])

-- The text of the existing row, or no text.
abbrev pub header_text_of : Option Summary → String
header_text_of none = ""
header_text_of (some r) = r.summary_text

abbrev pub header_input : String → String → String
header_input existing_header recent_archival =
    if truthy existing_header
    then cat (
        "[Existing historical header]\n" ∷ existing_header ∷ "\n\n[New content being archived]\n"
        ∷ recent_archival ∷ [])
    else cat ("[First archival — create historical header]\n" ∷ recent_archival ∷ [])

abbrev pub consolidation_request : List Summary → String
consolidation_request to_consolidate = cat (
    "Consolidate these chunk summaries into a recent archival summary:\n\n"
    ∷ join "\n\n" (map (λ r. r.summary_text) to_consolidate)
    ∷ [])

-- A row of tier 3.
abbrev pub archive_row : Scope → String → ℕ → ℕ → ℕ → Db → Summary
archive_row scope text from upto count db = record {
  id = db.next_id;
  conversation_id = scope.conversation;
  context_window_id = scope.window;
  summary_text = text;
  tier = 3;
  summarizes_from_seq = from;
  summarizes_to_seq = upto;
  message_count = some count;
  original_token_count = none;
  summary_token_count = none;
  summarized_by_model = scope.model;
  is_active = true;
}

-- UPDATE … SET is_active = FALSE
abbrev pub deactivate : (Summary → Bool) → Db → Db
deactivate which db = record db {
  summaries = update_where which (λ r. record r { is_active = false }) db.summaries;
}

abbrev pub first_from : List Summary → ℕ
first_from rows = elim (head? rows) [ none ↦ 0 | some r ↦ r.summarizes_from_seq ]

abbrev pub last_to : List Summary → ℕ
last_to rows = elim (get_last? rows) [ none ↦ 0 | some r ↦ r.summarizes_to_seq ]

abbrev pub in_rows : List Summary → Summary → Bool
in_rows rows r = any (λ q. q.id == r.id) rows

-- The two UPDATEs of the transaction: the window's active rows of tier 3, and the chunks.
abbrev pub retired : Scope → List Summary → Db → Db
retired scope to_consolidate db =
    deactivate (in_rows to_consolidate) (deactivate (is_active_tier scope.window 3) db)

-- An INSERT that the unique index may refuse; `undo` is the database before the transaction.
unfoldable pub insert_archive :
    Db → Scope → String → ℕ → ℕ → ℕ → (Db → Outcome (Unit {0}) × Db) → Db → Outcome (Unit {0}) × Db
insert_archive undo scope text from upto count next db =
    if any (has_range scope.window 3 from upto) db.summaries
    then (raised unique_violation, undo)
    else next (add_summary (archive_row scope text from upto count db) db)

-- The transaction: nothing of it stays where an INSERT is refused.
unfoldable pub archive_transaction :
    Scope → List Summary → String → String → Db → Outcome (Unit {0}) × Db
unfolding insert_archive
archive_transaction scope to_consolidate header_text recent_archival db =
    insert_archive db scope header_text 0 0 0
      (insert_archive db scope recent_archival (first_from to_consolidate) (last_to to_consolidate)
        (total (λ r. get_or r.message_count 0) to_consolidate) (λ d. (returned tt, d)))
      (retired scope to_consolidate db)

module _ (f : Floats) (ext : External (f.Float)) where
  open f use {Float}

  unfoldable pub archived : AssemblyState Float → String → Flow (AssemblyState Float)
  archived s text = pure (record s { tier3_summary = some text })

  -- An error of the LLM that the code catches, or the ValueError of an id that is no UUID.
  abbrev pub archive_failed : AssemblyState Float → Flow (AssemblyState Float)
  archive_failed s = pure (record s { tier3_summary = none; had_errors = true })

  -- The transaction with its ids read: the conversation's is read in it only.
  unfoldable pub commit_archive :
      ℕ
      → String
      → List Summary
      → String
      → String
      → Option ℕ
      → AssemblyState Float
      → Flow (AssemblyState Float)
  unfolding archive_transaction archived
  commit_archive window model to_consolidate header_text recent_archival none s = archive_failed s
  commit_archive window model to_consolidate header_text recent_archival (some conversation) s = do
    archive_transaction (record { window = window; conversation = conversation; model = model })
        to_consolidate header_text recent_archival
    archived s (cat (header_text ∷ "\n\n" ∷ recent_archival ∷ []))

  -- The part of the node after both answers.
  unfoldable pub store_archive :
      ℕ → String → List Summary → String → String → AssemblyState Float → Flow (AssemblyState Float)
  unfolding commit_archive
  store_archive window model to_consolidate header_text recent_archival s =
      if truthy recent_archival && truthy header_text
      then commit_archive window model to_consolidate header_text recent_archival
          (ext.parse_uuid s.conversation_id) s
      else pure (record s { tier3_summary = none })

  unfoldable pub with_header :
      ℕ
      → String
      → List Summary
      → String
      → Option String
      → AssemblyState Float
      → Flow (AssemblyState Float)
  unfolding store_archive
  with_header window model to_consolidate recent_archival none s = archive_failed s
  with_header window model to_consolidate recent_archival (some header_text) s =
      store_archive window model to_consolidate header_text recent_archival s

  unfoldable pub with_recent :
      ℕ
      → String
      → List Summary
      → Option Summary
      → Option String
      → AssemblyState Float
      → Flow (AssemblyState Float)
  unfolding with_header
  with_recent window model to_consolidate existing none s = archive_failed s
  with_recent window model to_consolidate existing (some recent_archival) s =
      with_header window model to_consolidate recent_archival
        (ext.chat 1 header_prompt (header_input (header_text_of existing) recent_archival)) s

  unfoldable pub consolidate :
      ℕ
      → String
      → List Summary
      → Option Summary
      → Prompt
      → AssemblyState Float
      → Flow (AssemblyState Float)
  unfolding with_recent
  consolidate window model to_consolidate existing (missing exc) s =
      pure (record s {
        tier3_summary = none;
        error = some (cat ("Prompt loading failed: " ∷ exc ∷ []));
      })
  consolidate window model to_consolidate existing (prompt archival_prompt) s =
      with_recent window model to_consolidate existing
        (ext.chat 0 archival_prompt (consolidation_request to_consolidate)) s

  -- `min_chunks` is tier2_min_chunks; one fewer of the chunks are kept.
  unfoldable pub compact_chunks :
      ℕ
      → String
      → ℕ
      → List Summary
      → Option Summary
      → AssemblyState Float
      → Flow (AssemblyState Float)
  unfolding consolidate consolidated
  compact_chunks window model min_chunks active existing s =
      let keep_recent = min_chunks - 1 in
      if leb (length active) min_chunks
      then pure (record s { tier3_summary = none })
      else if leb (length active) keep_recent
      then pure (record s { tier3_summary = none })
      else consolidate window model (consolidated keep_recent active) existing
          (ext.load_prompt "archival_consolidation") s

  abbrev pub archive_model : AssemblyState Float → String
  archive_model s =
      get_or
        (lookup "model"
          (get_or (resolve_llm_config s.config (get_or s.build_type_config empty_config)) []))
        "unknown"

  -- The node with the window's id read.
  unfoldable pub archive_with : ℕ → AssemblyState Float → Flow (AssemblyState Float)
  unfolding compact_chunks resolve_llm_config
  archive_with window s db =
      compact_chunks window (archive_model s)
        (extract_deadband_config f (get_or s.build_type_config empty_config)).tier2_min_chunks
        (active_chunks window db.summaries) (existing_tier3 window db.summaries) s db

  unfoldable pub run_full_compaction : AssemblyState Float → Flow (AssemblyState Float)
  unfolding archive_with
  run_full_compaction s = do
    window ← or_value_error (ext.parse_uuid s.context_window_id)
    archive_with window s
