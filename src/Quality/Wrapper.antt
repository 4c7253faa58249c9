-- ===== src/Quality/Wrapper.antt =====
-- memory/quality_wrapper.py, the write side: rejection, the natural key of a fact, the metadata of facts
-- and relations, and feedback. mem0 is a parameter that acts on its own store `M`; `F` are the floats
-- of the metadata. The tables of migrations 23 to 25 are lists of rows with their unique indexes.
use context_broker.Prelude.{
  ℕ, ◌*◌, ◌/◌, Bool, true, false, ◌&&◌, ◌||◌, Option, none, some, List, [], ◌∷◌, ◌++◌, String, ltb,
  ◌==◌, str_eq, opt_eq, if◌then◌else◌, any, find?, truthy, or_empty, is_some, len, cat,
}

-- cea_quality_metadata
pub record Meta (F : Type 0) : Type 0 where
  pub target_type : String
  pub target_id : String
  pub durability : F
  pub confidence : F
  pub source_type : String
  pub original_utterance : String
  pub extraction_model : String
  pub expires_at : Option ℕ
  pub user_id : String
  pub conversation_id : ℕ
  pub content_hash : Option String

-- cea_feedback_events
pub record FeedbackEvent : Type 0 where
  pub target_type : String
  pub target_id : String
  pub event_type : String
  pub agent_id : String
  pub context : Option String
  pub dedup_key : String

pub record Quality (F M : Type 0) : Type 0 where
  pub metadata : List (Meta F)
  pub events : List FeedbackEvent
  pub mem0 : M
  -- datetime.now() and time.monotonic(), in seconds, and `_last_cleanup`
  pub now : ℕ
  pub monotonic : ℕ
  pub last_cleanup : ℕ

-- The "relations" of an answer of mem0: none; the "added_entities" of a dictionary, or a list; each
-- item with its "relation_id", if it is a dictionary with one.
pub data Relations : Type 0 where
  no_relations : Relations
  added_entities : List (Option String) → Relations
  relation_items : List (Option String) → Relations

-- How `mem0.add` ends: it raises; a dictionary with the ids of its "results"; a list with its ids; or
-- a value of another type.
pub data Mem0Answer : Type 0 where
  add_failed : Mem0Answer
  added_dict : List (Option String) → Relations → Mem0Answer
  added_list : List (Option String) → Mem0Answer
  added_other : Mem0Answer

pub record QualityExternal (M : Type 0) : Type 0 where
  pub parse_uuid : String → Option ℕ
  pub md5 : String → String
  pub sha256 : String → String
  -- `str` of an int
  pub show : ℕ → String
  pub strip : String → String
  -- `re.search(pattern, content)`
  pub re_search : String → String → Bool
  -- cea.rejection_rules.min_fact_length, cea.rejection_rules.patterns, cea.expiration_cleanup_interval
  pub min_fact_length : ℕ
  pub patterns : List String
  pub cleanup_interval : ℕ
  -- `mem0.add(content, user_id, _skip_graph)`
  pub mem0_add : String → String → Bool → M → Mem0Answer × M
  -- Whether the INSERT of a feedback event raises a PostgresError.
  pub feedback_fails : Bool
  -- `mem0.delete(memory_id)`: false where it raises.
  pub mem0_delete : String → M → Bool × M

-- {"memory_id": …, "relation_ids": …}
pub record Added : Type 0 where
  pub memory_id : Option String
  pub relation_ids : List String

abbrev pub nothing_added : Added
nothing_added = record { memory_id = none; relation_ids = [] }

-- What is there and true.
abbrev pub present_ids : List (Option String) → List String
present_ids [] = []
present_ids (none ∷ ids) = present_ids ids
present_ids (some id ∷ ids) = if truthy id then id ∷ present_ids ids else present_ids ids

abbrev pub first_id : List (Option String) → Option String
first_id [] = none
first_id (id ∷ ids) = id

abbrev pub relation_ids_of : Relations → List String
relation_ids_of no_relations = []
relation_ids_of (added_entities ids) = present_ids ids
relation_ids_of (relation_items ids) = present_ids ids

unfoldable pub read_answer : Mem0Answer → Added
read_answer add_failed = nothing_added
read_answer (added_dict results relations) =
    if truthy (or_empty (first_id results))
    then record { memory_id = first_id results; relation_ids = relation_ids_of relations }
    else nothing_added
read_answer (added_list results) =
    if truthy (or_empty (first_id results))
    then record { memory_id = first_id results; relation_ids = [] }
    else nothing_added
read_answer added_other = nothing_added

-- UNIQUE (target_type, target_id)
abbrev pub has_target : {F : Type 0} → String → String → Meta F → Bool
has_target type id m = str_eq m.target_type type && str_eq m.target_id id

-- idx_cea_metadata_natural_dedup: both rows have an utterance and a hash, and the same key.
abbrev pub same_key : {F : Type 0} → Meta F → Meta F → Bool
same_key a b =
    truthy a.original_utterance
    && (is_some a.content_hash
        && (str_eq a.target_type b.target_type
            && (str_eq a.user_id b.user_id
                && (a.conversation_id == b.conversation_id
                    && (str_eq a.original_utterance b.original_utterance
                        && opt_eq a.content_hash b.content_hash)))))

-- INSERT … ON CONFLICT (target_type, target_id) DO NOTHING; a UniqueViolationError of the other index
-- is caught.
unfoldable pub insert_metadata : {F : Type 0} → Meta F → List (Meta F) → List (Meta F)
insert_metadata m rows =
    if any (has_target m.target_type m.target_id) rows
    then rows
    else if any (same_key m) rows
    then rows
    else rows ++ m ∷ []

-- `_timestamp_bucket`
unfoldable pub timestamp_bucket : ℕ → ℕ → ℕ
timestamp_bucket now bucket_seconds = (now / bucket_seconds) * bucket_seconds

-- SELECT target_id … WHERE user_id = … AND conversation_id = … AND original_utterance = … AND
-- content_hash = …; the first row's id, if it is not empty.
unfoldable pub is_duplicate :
    {F : Type 0} → String → Option ℕ → String → String → List (Meta F) → Bool
is_duplicate user none utterance hash rows = false
is_duplicate user (some conversation) utterance hash rows =
    truthy utterance
    && elim (find?
        (λ m.
          str_eq m.user_id user
          && (m.conversation_id == conversation
              && (str_eq m.original_utterance utterance && opt_eq m.content_hash (some hash))))
        rows) [ none ↦ false | some m ↦ truthy m.target_id ]

unfoldable pub write_metadata : {F M : Type 0} → Meta F → Option ℕ → Quality F M → Quality F M
unfolding insert_metadata
write_metadata m none s = s
write_metadata m (some conversation) s = record s {
  metadata = insert_metadata (record m { conversation_id = conversation }) s.metadata;
}

module _ {M : Type 0} (ext : QualityExternal M) where
  unfoldable pub apply_rejection_rules : String → Bool
  apply_rejection_rules content =
      ltb (len (ext.strip content)) ext.min_fact_length
      || any (λ pattern. ext.re_search pattern content) ext.patterns

  unfoldable pub event_dedup_key : String → String → String → ℕ → String
  unfolding timestamp_bucket
  event_dedup_key target_id event_type agent_id now = ext.sha256 (
      cat (
        target_id
        ∷ "|"
        ∷ event_type
        ∷ "|"
        ∷ agent_id
        ∷ "|"
        ∷ ext.show (timestamp_bucket now 60)
        ∷ []))

  -- INSERT … ON CONFLICT (dedup_key) DO NOTHING; whether the row was inserted. A
  -- PostgresError is caught.
  unfoldable pub record_feedback :
      {F : Type 0}
      → String
      → String
      → String
      → String
      → Option String
      → Quality F M
      → Bool × Quality F M
  unfolding event_dedup_key
  record_feedback target_type target_id event_type agent_id context s =
      let key = event_dedup_key target_id event_type agent_id s.now in
      if ext.feedback_fails
      then (false, s)
      else if any (λ e. str_eq e.dedup_key key) s.events
      then (false, s)
      else (
        true,
        record s {
          events =
              s.events
              ++ record {
                target_type = target_type;
                target_id = target_id;
                event_type = event_type;
                agent_id = agent_id;
                context = context;
                dedup_key = key;
              }
                ∷ [];
        },
      )
