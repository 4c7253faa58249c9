-- ===== src/Assembly/Compact.antt =====
-- standard_tiered.py, `compact_tier1`: a summary of tier 2 for each chunk, under a budget guard.
-- The extraction flow, which the node calls for each new summary and is not modelled: what it is
-- called with is recorded, and an exception that it raises is a parameter, since the node catches only
-- four kinds.
use context_broker.Prelude.{
  take, ℕ, ◌+◌, ◌/◌, Bool, true, not, ◌&&◌, ◌||◌, Option, none, some, List, [], ◌∷◌, ◌++◌, String,
  ltb, leb, ◌==◌, if◌then◌else◌, is_some, head?, get_last?, keep, any, total, map, length, sort_by,
  cat, join, len, truthy, or_empty, estimate_tokens,
}
use context_broker.Floats.{Floats}
use context_broker.Store.{
  Exception, Message, Summary, Db, Outcome, Flow, pure, or_value_error, ◌>>=◌,
}
use context_broker.Store.Query.{message_tokens}
use context_broker.Config.{Config, lookup}
use context_broker.Tiers.{
  BuildTypeConfig, DeadbandConfig, get_or, share, shares, extract_deadband_config,
}
use context_broker.Assembly.State.{AssemblyState, External, Prompt, prompt, missing, empty_config}
use context_broker.Assembly.Partition.{active_tier}

-- The ids that every row of one call carries, and the model's name.
pub record Scope : Type 0 where
  pub window : ℕ
  pub conversation : ℕ
  pub model : String

-- What the extraction flow is called with.
pub record Extraction : Type 0 where
  pub content : String
  pub tier2_context : String
  pub tier3_context : String

-- The variables of the loop that outlive a round.
pub record Progress : Type 0 where
  pub new_summaries : List String
  pub cumulative_summary_tokens : ℕ
  pub extractions : List Extraction

-- chunk[0]["sequence_number"] and chunk[-1]["sequence_number"]; a chunk is never empty.
abbrev pub first_seq : List Message → ℕ
first_seq chunk = elim (head? chunk) [ none ↦ 0 | some m ↦ m.sequence_number ]

abbrev pub last_seq : List Message → ℕ
last_seq chunk = elim (get_last? chunk) [ none ↦ 0 | some m ↦ m.sequence_number ]

-- ORDER BY summarizes_from_seq
abbrev pub earlier : Summary → Summary → Bool
earlier a b = leb a.summarizes_from_seq b.summarizes_from_seq

-- The key of the unique index idx_summaries_window_tier_seq, which covers inactive rows too.
abbrev pub has_range : ℕ → ℕ → ℕ → ℕ → Summary → Bool
has_range window tier from upto r =
    r.context_window_id == window
    && r.tier == tier
    && r.summarizes_from_seq == from
    && r.summarizes_to_seq == upto

-- The text that is summarized: one line for each message.
abbrev pub chunk_line : Message → String
chunk_line m = cat ("[" ∷ m.role ∷ " | " ∷ m.sender ∷ "] " ∷ or_empty m.content ∷ [])

abbrev pub chunk_text : List Message → String
chunk_text chunk = join "\n" (map chunk_line chunk)

-- The text for the extraction: only messages with content.
abbrev pub extraction_text : List Message → String
extraction_text chunk = join "\n" (
    map (λ m. cat (m.role ∷ " (" ∷ m.sender ∷ "): " ∷ or_empty m.content ∷ []))
      (keep (λ m. truthy (or_empty m.content)) chunk))

-- The row of the INSERT.
unfoldable pub summary_row : Scope → List Message → String → Db → Summary
summary_row scope chunk text db = record {
  id = db.next_id;
  conversation_id = scope.conversation;
  context_window_id = scope.window;
  summary_text = text;
  tier = 2;
  summarizes_from_seq = first_seq chunk;
  summarizes_to_seq = last_seq chunk;
  message_count = some (length chunk);
  original_token_count = some (total message_tokens chunk);
  summary_token_count = some (len text / 4);
  summarized_by_model = scope.model;
  is_active = true;
}

abbrev pub add_summary : Summary → Db → Db
add_summary row db = record db { summaries = db.summaries ++ row ∷ []; next_id = db.next_id + 1 }

-- Whether the unique index has the range of the chunk, in an active or an inactive row.
abbrev pub is_taken : Scope → List Message → Db → Bool
is_taken scope chunk db =
    any (has_range scope.window 2 (first_seq chunk) (last_seq chunk)) db.summaries

-- Another assembler's INSERT of the same range, if it comes in between; it meets the same index.
unfoldable pub rival_insert : Option String → Scope → List Message → Db → Db
unfolding summary_row
rival_insert none scope chunk db = db
rival_insert (some text) scope chunk db =
    if is_taken scope chunk db then db else add_summary (summary_row scope chunk text db) db

-- The extraction for a new summary, with the tiers as they are after its INSERT.
unfoldable pub extract : Scope → List Message → Db → List Extraction
extract scope chunk db =
    let text = extraction_text chunk in
    if truthy text
    then record {
      content = text;
      tier2_context =
          join "\n\n"
            (map (λ r. r.summary_text) (sort_by earlier (active_tier scope.window 2 db.summaries)));
      tier3_context =
          join "\n\n"
            (map (λ r. r.summary_text) (sort_by earlier (active_tier scope.window 3 db.summaries)));
    }
      ∷ []
    else []

-- One round: the loop ends, or goes on with the variables and the database.
pub data Round : Type 0 where
  stop : Round
  go : Progress → Db → Round

-- The guard: with a budget, the summary must fit beside those that this call has written.
abbrev pub is_over : ℕ → Progress → String → Bool
is_over budget p text =
    ltb 0 budget && ltb budget (p.cumulative_summary_tokens + estimate_tokens text)

-- The INSERT, which the unique index refuses where any row, active or not, has the range.
unfoldable pub try_insert : Scope → List Message → String → Progress → Db → Round
unfolding summary_row extract
try_insert scope chunk text p db =
    if any (has_range scope.window 2 (first_seq chunk) (last_seq chunk)) db.summaries
    then go p db
    else let db' = add_summary (summary_row scope chunk text db) db in
      go
        (record {
          new_summaries = p.new_summaries ++ text ∷ [];
          cumulative_summary_tokens = p.cumulative_summary_tokens + estimate_tokens text;
          extractions = p.extractions ++ extract scope chunk db';
        })
        db'

unfoldable pub summarize_round :
    Scope → ℕ → Option String → List Message → Option String → Progress → Db → Round
unfolding try_insert rival_insert
summarize_round scope budget rival chunk none p db = go p db
summarize_round scope budget rival chunk (some text) p db =
    if is_over budget p text
    then stop
    else if any (λ r. has_range scope.window 2 (first_seq chunk) (last_seq chunk) r && r.is_active)
        db.summaries
    then go p db
    else try_insert scope chunk text p (rival_insert rival scope chunk db)

-- `for chunk, summary_text in llm_results`, the index counting the rounds.
unfoldable pub insert_summaries :
    (ℕ → Option String)
    → Scope
    → ℕ
    → ℕ
    → List (List Message × Option String)
    → Progress
    → Db
    → Progress × Db
unfolding summarize_round
insert_summaries rivals scope budget i [] p db = (p, db)
insert_summaries rivals scope budget i ((chunk, answer) ∷ rest) p db =
    elim (summarize_round scope budget (rivals i) chunk answer p db) [
      | stop ↦ (p, db)
      | go p' db' ↦ insert_summaries rivals scope budget (i + 1) rest p' db'
    ]

-- The answers of the LLM, which `asyncio.gather` returns in the order of the chunks.
unfoldable pub summarize_chunks :
    (ℕ → String → Option String)
    → (String → String)
    → ℕ
    → List (List Message)
    → List (List Message × Option String)
summarize_chunks chat clean i [] = []
summarize_chunks chat clean i (chunk ∷ chunks) =
    (chunk, chat i (clean (chunk_text chunk))) ∷ summarize_chunks chat clean (i + 1) chunks

abbrev pub is_failed : List Message × Option String → Bool
is_failed r = not (is_some r.1)

-- `bt_llm` where it is there and not empty, else the global section.
unfoldable pub choose_llm :
    Option (List (String × String))
    → Option (List (String × String))
    → Option (List (String × String))
choose_llm none global = global
choose_llm (some []) global = global
choose_llm (some (e ∷ es)) global = some (e ∷ es)

unfoldable pub resolve_llm_config :
    {F : Type 0} → Config F → BuildTypeConfig F → Option (List (String × String))
unfolding choose_llm
resolve_llm_config config c = choose_llm c.llm config.llm

abbrev pub no_progress : Progress
no_progress = record { new_summaries = []; cumulative_summary_tokens = 0; extractions = [] }

module _ (f : Floats) (ext : External (f.Float)) where
  open f use {Float}

  -- The share of the budget that tier 2 at its largest and tier 3 may take.
  unfoldable pub summary_budget : ℕ → DeadbandConfig Float → ℕ
  summary_budget max_budget db =
      shares f max_budget db.tier2_chunk_pct db.tier2_max_chunks + share f max_budget db.tier3_pct

  abbrev pub config_of : AssemblyState Float → BuildTypeConfig Float
  config_of s = get_or s.build_type_config empty_config

  abbrev pub scope_of : ℕ → ℕ → AssemblyState Float → Scope
  scope_of window conversation s = record {
    window = window;
    conversation = conversation;
    model =
        get_or
          (lookup "model"
            (get_or (resolve_llm_config s.config (config_of s)) s.config.summarization))
          "unknown";
  }

  abbrev pub answers_of : String → AssemblyState Float → List (List Message × Option String)
  answers_of chunk_prompt s =
      summarize_chunks (λ i. ext.chat i chunk_prompt) ext.clean_for_compaction 0 s.chunks

  abbrev pub budget_of : AssemblyState Float → ℕ
  budget_of s =
      summary_budget (get_or s.max_token_budget 0) (extract_deadband_config f (config_of s))

  -- The loop over these answers, with the ids read.
  abbrev pub compact_progress :
      List (List Message × Option String) → ℕ → ℕ → AssemblyState Float → Db → Progress × Db
  compact_progress answers window conversation s db =
      insert_summaries ext.rival (scope_of window conversation s) (budget_of s) 0 answers
        no_progress db

  -- The loop that ran to its end.
  abbrev pub compact_done :
      List (List Message × Option String) → ℕ → ℕ → AssemblyState Float → Flow (AssemblyState Float)
  compact_done answers window conversation s db =
      let (p, db') = compact_progress answers window conversation s db in
      (
        Outcome.returned (record s {
          tier2_summaries = p.new_summaries;
          had_errors = any is_failed answers || s.had_errors;
        }),
        db',
      )

  -- An exception that leaves the extraction of a round ends the node after that round's INSERT, if
  -- the round comes to its extraction.
  abbrev pub compact_rounds :
      Option (ℕ × Exception)
      → List (List Message × Option String)
      → ℕ
      → ℕ
      → AssemblyState Float
      → Flow (AssemblyState Float)
  compact_rounds none answers window conversation s db =
      compact_done answers window conversation s db
  compact_rounds (some (i, e)) answers window conversation s db =
      let before = compact_progress (take i answers) window conversation s db in
      let after = compact_progress (take (i + 1) answers) window conversation s db in
      if ltb (length before.0.extractions) (length after.0.extractions)
      then (Outcome.raised e, after.1)
      else compact_done answers window conversation s db

  -- The node after the prompt was loaded, with the ids read.
  unfoldable pub compact_with : String → ℕ → ℕ → AssemblyState Float → Flow (AssemblyState Float)
  unfolding summarize_chunks insert_summaries summary_budget resolve_llm_config
  compact_with chunk_prompt window conversation s =
      compact_rounds ext.escaping_extraction (answers_of chunk_prompt s) window conversation s

  unfoldable pub compact_loaded : Prompt → AssemblyState Float → Flow (AssemblyState Float)
  unfolding compact_with
  compact_loaded (missing exc) s =
      pure (record s {
        tier2_summaries = [];
        error = some (cat ("Prompt loading failed: " ∷ exc ∷ []));
      })
  compact_loaded (prompt chunk_prompt) s = do
    window ← or_value_error (ext.parse_uuid s.context_window_id)
    conversation ← or_value_error (ext.parse_uuid s.conversation_id)
    compact_with chunk_prompt window conversation s

  unfoldable pub compact_tier1 : AssemblyState Float → Flow (AssemblyState Float)
  unfolding compact_loaded
  compact_tier1 s =
      if length s.chunks == 0
      then pure (record s { tier2_summaries = [] })
      else compact_loaded (ext.load_prompt "chunk_summarization") s
