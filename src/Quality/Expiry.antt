-- ===== src/Quality/Expiry.antt =====
-- memory/quality_wrapper.py: the clean-up of expired facts, `add`, and what a search gives.
use context_broker.Prelude.{
  ℕ, ◌+◌, ◌-◌, Bool, true, false, ◌&&◌, not, Option, none, some, List, [], ◌∷◌, String, ltb, leb,
  str_eq, if◌then◌else◌, keep, find?, total, truthy, or_empty,
}
use context_broker.Quality.Wrapper.{
  Meta, FeedbackEvent, Quality, QualityExternal, Added, nothing_added, read_answer, has_target,
  apply_rejection_rules, is_duplicate,
}

module _ {F : Type 0} where
  -- `expires_at < now`, of a row that has a date
  abbrev pub is_expired : ℕ → Meta F → Bool
  is_expired now m = elim m.expires_at [ none ↦ false | some t ↦ ltb t now ]

  -- DELETE FROM cea_quality_metadata WHERE target_type = $1 AND target_id = $2
  abbrev pub delete_metadata : String → String → List (Meta F) → List (Meta F)
  delete_metadata type id rows = keep (λ m. not (has_target type id m)) rows

-- `uuid.UUID(conversation_id) if conversation_id else None`, or None where that fails
abbrev pub conversation_uuid : (String → Option ℕ) → String → Option ℕ
conversation_uuid parse_uuid text = if truthy text then parse_uuid text else none

module _ {F M : Type 0} (ext : QualityExternal M) where
  -- After `mem0.delete`: whether it succeeded, and the store.
  abbrev pub after_delete : Meta F → Bool × M → ℕ × Quality F M → ℕ × Quality F M
  after_delete row (false, mem0) (count, s) = (count, record s { mem0 = mem0 })
  after_delete row (true, mem0) (count, s) = (
    count + 1,
    record s { mem0 = mem0; metadata = delete_metadata row.target_type row.target_id s.metadata },
  )

  unfoldable pub clean_row : Meta F → ℕ × Quality F M → ℕ × Quality F M
  clean_row row (count, s) =
      if str_eq row.target_type "fact"
      then after_delete row (ext.mem0_delete row.target_id s.mem0) (count, s)
      else (count, record s { metadata = delete_metadata row.target_type row.target_id s.metadata })

  unfoldable pub clean_rows : List (Meta F) → ℕ × Quality F M → ℕ × Quality F M
  unfolding clean_row
  clean_rows [] r = r
  clean_rows (row ∷ rows) r = clean_rows rows (clean_row row r)

  -- The number of facts that were deleted, and the state.
  unfoldable pub cleanup_expired : Quality F M → ℕ × Quality F M
  unfolding clean_rows
  cleanup_expired s = clean_rows (keep (is_expired s.now) s.metadata) (0, s)

  unfoldable pub maybe_cleanup : Quality F M → Quality F M
  unfolding cleanup_expired
  maybe_cleanup s =
      if leb ext.cleanup_interval (s.monotonic - s.last_cleanup)
      then (cleanup_expired (record s { last_cleanup = s.monotonic })).1
      else s

  -- `add`: the content, the user, the conversation, whether the graph is skipped, and the utterance.
  unfoldable pub add : String → String → String → Bool → String → Quality F M → Added × Quality F M
  unfolding apply_rejection_rules is_duplicate maybe_cleanup read_answer
  add content user conversation skip_graph utterance s =
      if apply_rejection_rules ext content
      then (nothing_added, s)
      else if is_duplicate user (conversation_uuid ext.parse_uuid conversation) utterance
          (ext.md5 content) s.metadata
      then (nothing_added, s)
      else let t = maybe_cleanup s in
        let (answer, mem0) = ext.mem0_add content user skip_graph t.mem0 in
        (read_answer answer, record t { mem0 = mem0 })

-- A fact or a relation that mem0 or a global query finds, with the id under which its metadata is
-- stored.
pub record Found : Type 0 where
  pub id : Option String
  pub text : String

-- What other systems find: `mem0.search` for a user, and the global queries on its tables.
pub record Finder (M : Type 0) : Type 0 where
  pub mem0_search : String → String → ℕ → M → List Found × List Found
  pub global_vector_search : String → ℕ → M → List Found
  pub global_graph_search : String → ℕ → M → List Found

-- What is found, before the metadata: with a user that is given, or globally.
unfoldable pub found_by :
    {M : Type 0} → Finder M → String → Option String → ℕ → M → List Found × List Found
found_by finder query none limit mem0 =
    (finder.global_vector_search query limit mem0, finder.global_graph_search query limit mem0)
found_by finder query (some user) limit mem0 =
    if truthy user
    then finder.mem0_search query user limit mem0
    else (finder.global_vector_search query limit mem0, finder.global_graph_search query limit mem0)

-- Counts by event type: the groups of the query, and one more event.
abbrev pub count_event : String → List (String × ℕ) → List (String × ℕ)
count_event type [] = (type, 1) ∷ []
count_event type ((t, n) ∷ groups) =
    if str_eq t type then (t, n + 1) ∷ groups else (t, n) ∷ count_event type groups

abbrev pub group_events : List FeedbackEvent → List (String × ℕ)
group_events [] = []
group_events (e ∷ es) = count_event e.event_type (group_events es)

abbrev pub is_about : String → String → FeedbackEvent → Bool
is_about type id e = str_eq e.target_type type && str_eq e.target_id id

-- "total_events", and the counts by event type; none where there is no event.
pub record Usefulness : Type 0 where
  pub total_events : ℕ
  pub counts : List (String × ℕ)

unfoldable pub usefulness_of : String → String → List FeedbackEvent → Usefulness
usefulness_of type id events =
    let groups = group_events (keep (is_about type id) events) in
    record { total_events = total (λ g. g.1) groups; counts = groups }

pub record EnrichedFound (F : Type 0) : Type 0 where
  pub found : Found
  pub metadata : Option (Meta F)
  pub usefulness : Usefulness

module _ {F : Type 0} where
  -- The metadata of an id; an item without an id has none.
  unfoldable pub metadata_of : String → Option String → List (Meta F) → Option (Meta F)
  metadata_of type none rows = none
  metadata_of type (some id) rows = if truthy id then find? (has_target type id) rows else none

  abbrev pub has_expired : ℕ → Option (Meta F) → Bool
  has_expired now none = false
  has_expired now (some m) = is_expired now m

module _ {F M : Type 0} where
  abbrev pub enrich_one : String → Quality F M → Found → EnrichedFound F
  enrich_one type s f = record {
    found = f;
    metadata = metadata_of type f.id s.metadata;
    usefulness = usefulness_of type (or_empty f.id) s.events;
  }

  -- The loop over the facts, or over the relations.
  unfoldable pub enrich : String → Quality F M → List Found → List (EnrichedFound F)
  unfolding metadata_of usefulness_of
  enrich type s [] = []
  enrich type s (f ∷ fs) =
      if has_expired s.now (metadata_of type f.id s.metadata)
      then enrich type s fs
      else enrich_one type s f ∷ enrich type s fs

  -- {"vector_facts": …, "graph_relations": …}
  unfoldable pub search_facts :
      Finder M
      → String
      → Option String
      → ℕ
      → Quality F M
      → List (EnrichedFound F) × List (EnrichedFound F)
  unfolding found_by enrich
  search_facts finder query user limit s =
      let (facts, relations) = found_by finder query user limit s.mem0 in
      (enrich "fact" s facts, enrich "relation" s relations)
