-- ===== src/Quality/Dispatch.antt =====
-- cea_extraction_flow.py, `dispatch_extraction_results`: the facts of an extraction go to mem0, with
-- their metadata and feedback; and `resolve_temporal` of memory/quality_wrapper.py.
use context_broker.Prelude.{
  ℕ, ◌+◌, ◌*◌, ◌≡◌, ◌∙◌, refl, ap, true, false, Option, none, some, List, [], ◌∷◌, String, str_eq,
  if◌then◌else◌, any, truthy, or_empty, is_some,
}
use context_broker.Tiers.{get_or}
use context_broker.Quality.Wrapper.{
  Meta, Quality, QualityExternal, Added, has_target, write_metadata, record_feedback,
}
use context_broker.Quality.Expiry.{add}
use context_broker.Quality.Laws.{for_target, write_metadata-dropped}

-- One of the "facts" of the LLM; the floats are what `float(… or 0.5)` gives, none where it raises.
pub record ExtractedFact (F : Type 0) : Type 0 where
  pub relationship : Option String
  pub content : String
  pub user_id : Option String
  pub original_utterance : String
  pub expires_at : Option String
  pub durability : Option F
  pub confidence : Option F
  pub source_type : Option String
  pub related_fact_id : Option String

pub record Counts : Type 0 where
  pub new : ℕ
  pub duplicate : ℕ
  pub supersedes : ℕ
  pub conflicts : ℕ

pub record DispatchExternal : Type 0 where
  -- `relationship.upper()`
  pub upper : String → String
  -- `datetime.strptime(text, format)`, in seconds
  pub strptime : String → String → Option ℕ
  -- The amount and the unit of "in 3 days" and the like, by the regular expression.
  pub relative : String → Option (ℕ × String)
  -- The JSON of a feedback context with this key and id.
  pub dump_context : String → String → String
  pub extraction_model : String

abbrev pub day : ℕ
day = 86400

abbrev pub after_unit : ℕ → ℕ → String → Option ℕ
after_unit start amount unit =
    if str_eq unit "day"
    then some (start + amount * day)
    else if str_eq unit "week"
    then some (start + amount * (7 * day))
    else if str_eq unit "month"
    then some (start + amount * 30 * day)
    else if str_eq unit "year"
    then some (start + amount * 365 * day)
    else none

abbrev pub first_format : (String → String → Option ℕ) → String → List String → Option ℕ
first_format strptime text [] = none
first_format strptime text (f ∷ fs) = elim (strptime text f) [
  | some t ↦ some t
  | none ↦ first_format strptime text fs
]

abbrev pub resolve_given : DispatchExternal → String → ℕ → Option ℕ
resolve_given ext text start =
    if truthy text
    then elim (first_format ext.strptime text
        ("%Y-%m-%dT%H:%M:%S%z" ∷ "%Y-%m-%dT%H:%M:%SZ" ∷ "%Y-%m-%d" ∷ [])) [
          | some t ↦ some t
          | none ↦ elim (ext.relative text) [
            | none ↦ none
            | some (amount, unit) ↦ after_unit start amount unit
          ]
        ]
    else none

unfoldable pub resolve_temporal : DispatchExternal → Option String → ℕ → Option ℕ
resolve_temporal ext none start = none
resolve_temporal ext (some text) start = resolve_given ext text start

abbrev pub count_new : Counts → Counts
count_new c = record c { new = c.new + 1 }

abbrev pub count_duplicate : Counts → Counts
count_duplicate c = record c { duplicate = c.duplicate + 1 }

abbrev pub count_supersedes : Counts → Counts
count_supersedes c = record c { supersedes = c.supersedes + 1 }

abbrev pub count_conflicts : Counts → Counts
count_conflicts c = record c { conflicts = c.conflicts + 1 }

module _ {F M : Type 0} where
  -- The metadata of the relations that mem0 made of a fact.
  unfoldable pub write_relations : Meta F → Option ℕ → List String → Quality F M → Quality F M
  unfolding write_metadata
  write_relations m conversation [] s = s
  write_relations m conversation (id ∷ ids) s =
      write_relations m conversation ids (write_metadata (for_target id m) conversation s)

  -- Of the relations that one fact with an utterance has, only the first gets its metadata, if it has
  -- none yet: the others meet the unique index on user, conversation, utterance and content.
  pub write_relations_first :
      (m : Meta F) (conversation : ℕ) (id : String) (ids : List String) (s : Quality F M)
      → truthy m.original_utterance ≡ true
      → is_some m.content_hash ≡ true
      → any (has_target m.target_type id) s.metadata ≡ false
      → write_relations m (some conversation) (id ∷ ids) s
        ≡ write_metadata (for_target id m) (some conversation) s
  unfolding write_relations
  write_relations_first m conversation id [] s u h fresh = refl
  write_relations_first m conversation id (next ∷ ids) s u h fresh =
      ap (write_relations m (some conversation) ids)
        (write_metadata-dropped (for_target id m) next conversation s u h fresh)
      ∙ write_relations_first m conversation id ids s u h fresh

module _ {F M : Type 0} (ext : QualityExternal M) (outer : DispatchExternal)
    (conversation_id : String) where
  abbrev pub meta_of : ExtractedFact F → String → String → F → F → Quality F M → Meta F
  meta_of fact type id durability confidence s = record {
    target_type = type;
    target_id = id;
    durability = durability;
    confidence = confidence;
    source_type = get_or fact.source_type "observation";
    original_utterance = fact.original_utterance;
    extraction_model = outer.extraction_model;
    expires_at = resolve_temporal outer fact.expires_at s.now;
    user_id = get_or fact.user_id "unknown";
    conversation_id = 0;
    content_hash = some (ext.md5 fact.content);
  }

  abbrev feedback : String → String → String → String → Quality F M → Quality F M
  feedback id event key other s =
      (record_feedback ext "fact" id event "ceas" (some (outer.dump_context key other)) s).1

  -- The event on a fact that the new one replaces, and the two events of a conflict.
  unfoldable pub record_supersede : Option String → String → Quality F M → Quality F M
  record_supersede related memory_id s =
      if truthy (or_empty related)
      then feedback (or_empty related) "superseded" "replacement_id" memory_id s
      else s

  unfoldable pub record_conflict : Option String → String → Quality F M → Quality F M
  record_conflict related memory_id s =
      if truthy (or_empty related)
      then feedback memory_id "conflicted" "conflicting_id" (or_empty related)
          (feedback (or_empty related) "conflicted" "conflicting_id" memory_id s)
      else s

  unfoldable pub count_relationship :
      String → ExtractedFact F → String → Counts × Quality F M → Counts × Quality F M
  unfolding record_supersede record_conflict
  count_relationship relationship fact memory_id (c, s) =
      if str_eq relationship "NEW"
      then (count_new c, s)
      else if str_eq relationship "SUPERSEDES"
      then (count_supersedes c, record_supersede fact.related_fact_id memory_id s)
      else if str_eq relationship "CONFLICTS"
      then (count_conflicts c, record_conflict fact.related_fact_id memory_id s)
      else (c, s)

  -- After `add` returned an id: the floats, the metadata and the relationship.
  unfoldable pub dispatch_added :
      String
      → ExtractedFact F
      → String
      → List String
      → Option F
      → Option F
      → Counts × Quality F M
      → Counts × Quality F M
  unfolding write_relations count_relationship
  dispatch_added relationship fact memory_id relation_ids (some durability) (some confidence)
        (c, s) =
      let conversation = ext.parse_uuid conversation_id in
      let known =
        write_metadata (meta_of fact "fact" memory_id durability confidence s) conversation s in
      let related =
        write_relations (meta_of fact "relation" "" durability confidence s) conversation
          relation_ids known in
      count_relationship relationship fact memory_id (c, related)
  dispatch_added relationship fact memory_id relation_ids (some durability) none r = r
  dispatch_added relationship fact memory_id relation_ids none confidence r = r

  unfoldable pub after_add :
      String → ExtractedFact F → Counts → Added × Quality F M → Counts × Quality F M
  unfolding dispatch_added
  after_add relationship fact c (added, s) =
      if truthy (or_empty added.memory_id)
      then dispatch_added relationship fact (or_empty added.memory_id) added.relation_ids
          fact.durability fact.confidence (c, s)
      else (c, s)

  unfoldable pub dispatch_fact : ExtractedFact F → Counts × Quality F M → Counts × Quality F M
  unfolding after_add
  dispatch_fact fact (c, s) =
      let relationship = outer.upper (get_or fact.relationship "NEW") in
      if str_eq relationship "DUPLICATE"
      then (count_duplicate c, s)
      else if truthy fact.content
      then after_add relationship fact c (
          add ext fact.content (get_or fact.user_id "unknown") conversation_id false
            fact.original_utterance s)
      else (c, s)

  unfoldable pub dispatch_facts :
      List (ExtractedFact F) → Counts × Quality F M → Counts × Quality F M
  unfolding dispatch_fact
  dispatch_facts [] r = r
  dispatch_facts (fact ∷ facts) r = dispatch_facts facts (dispatch_fact fact r)

  -- The node, for the facts of an extraction that gave some output.
  unfoldable pub dispatch_extraction_results :
      List (ExtractedFact F) → Quality F M → Counts × Quality F M
  unfolding dispatch_facts
  dispatch_extraction_results facts s =
      dispatch_facts facts (record { new = 0; duplicate = 0; supersedes = 0; conflicts = 0 }, s)
