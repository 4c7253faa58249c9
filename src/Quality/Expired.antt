-- ===== src/Quality/Expired.antt =====
-- What becomes of expired facts and relations, and of the counts of feedback.
use context_broker.Prelude.{
  ℕ, ◌+◌, ◌≡◌, ◌∙◌, refl, ap, inl, inr, Bool, true, false, none, some, List, [], ◌∷◌, String,
  str_eq, eq_iff, any, keep, find?, map, total, length, truthy, arith, Bool-cases, Option-cases,
}
use context_broker.Quality.Wrapper.{Meta, FeedbackEvent, Quality, QualityExternal, has_target}
use context_broker.Quality.Expiry.{
  is_expired, delete_metadata, after_delete, clean_row, clean_rows, Found, count_event,
  group_events, is_about, usefulness_of, metadata_of, has_expired, enrich,
}

total-count_event :
    (type : String) (gs : List (String × ℕ))
    → total (λ g. g.1) (count_event type gs) ≡ total (λ g. g.1) gs + 1
total-count_event type [] = omega arith
total-count_event type ((t, n) ∷ gs) = ground (arith, total-count_event type gs)

total-group_events : (es : List FeedbackEvent) → total (λ g. g.1) (group_events es) ≡ length es
total-group_events [] = refl
total-group_events (e ∷ es) =
    omega (arith, total-count_event e.event_type (group_events es), total-group_events es)

-- The total of a target is the number of its events, whatever their types.
pub total_events_lem :
    (type id : String) (es : List FeedbackEvent)
    → (usefulness_of type id es).total_events ≡ length (keep (is_about type id) es)
unfolding usefulness_of
total_events_lem type id es = total-group_events (keep (is_about type id) es)

module _ {F : Type 0} (type id : String) where
  abbrev about : Meta F → Bool
  about = has_target type id

  find?-deleted : (rows : List (Meta F)) → find? about (delete_metadata type id rows) ≡ none
  find?-deleted [] = refl
  find?-deleted (m ∷ rows) = elim (Bool-cases (about m)) [
    | inl here ↦ rw here (find?-deleted rows)
    | inr other ↦ rw other (rw other (find?-deleted rows))
  ]

  -- A deletion for any target leaves a target without metadata as it is.
  find?-delete_none :
      (type' id' : String) (rows : List (Meta F))
      → find? about rows ≡ none
      → find? about (delete_metadata type' id' rows) ≡ none
  find?-delete_none type' id' [] h = refl
  find?-delete_none type' id' (m ∷ rows) h = elim (Bool-cases (about m)) [
    | inl here ↦ absurd (cc (rw here at h))
    | inr other ↦ elim (Bool-cases (has_target type' id' m)) [
      | inl gone ↦ rw gone (find?-delete_none type' id' rows (rw other at h))
      | inr kept ↦ rw kept (rw other (find?-delete_none type' id' rows (rw other at h)))
    ]
  ]

  any-keep_of_find? :
      (q : Meta F → Bool) (m : Meta F) (rows : List (Meta F))
      → find? about rows ≡ some m
      → q m ≡ true
      → any about (keep q rows) ≡ true
  any-keep_of_find? q m [] h e = absurd (cc h)
  any-keep_of_find? q m (r ∷ rows) h e = elim (Bool-cases (about r)) [
    | inl here ↦
        let same : r ≡ m = cc (rw here at h) in
        let fits : q r ≡ true = ap q same ∙ e in rw fits (rw here refl)
    | inr other ↦
        let later = any-keep_of_find? q m rows (rw other at h) e in
        elim (Bool-cases (q r)) [
          | inl fits ↦ rw fits (rw other later)
          | inr dropped ↦ rw dropped later
        ]
  ]

module _ {F M : Type 0} (ext : QualityExternal M) where
  clean_row-find_none :
      (type id : String) (row : Meta F) (r : ℕ × Quality F M)
      → find? (has_target type id) r.1.metadata ≡ none
      → find? (has_target type id) (clean_row ext row r).1.metadata ≡ none
  unfolding clean_row
  clean_row-find_none type id row (count, s) h =
      let gone = find?-delete_none type id row.target_type row.target_id s.metadata h in
      elim (Bool-cases (str_eq row.target_type "fact")) [
        | inr other ↦ rw other gone
        | inl fact ↦ rw fact (deleted (ext.mem0_delete row.target_id s.mem0) gone)
      ]
    where
      deleted :
          (d : Bool × M)
          → find? (has_target type id) (delete_metadata row.target_type row.target_id s.metadata)
            ≡ none
          → find? (has_target type id) (after_delete ext row d (count, s)).1.metadata ≡ none
      deleted (false, mem0) gone = h
      deleted (true, mem0) gone = gone

  clean_rows-find_none :
      (type id : String) (rows : List (Meta F)) (r : ℕ × Quality F M)
      → find? (has_target type id) r.1.metadata ≡ none
      → find? (has_target type id) (clean_rows ext rows r).1.metadata ≡ none
  unfolding clean_rows
  clean_rows-find_none type id [] r h = h
  clean_rows-find_none type id (row ∷ rows) r h =
      clean_rows-find_none type id rows (clean_row ext row r) (clean_row-find_none type id row r h)

  relation_row :
      (id : String) (row : Meta F)
      → has_target "relation" id row ≡ true
      → (str_eq row.target_type "fact" ≡ false)
        × (row.target_type ≡ "relation")
        × (row.target_id ≡ id)
  relation_row id row h =
      let type : row.target_type ≡ "relation" = ground (arith, eq_iff row.target_type "relation") in
      (rw type refl, type, ground (arith, eq_iff row.target_id id))

  clean_row_other :
      (row : Meta F) (count : ℕ) (s : Quality F M)
      → str_eq row.target_type "fact" ≡ false
      → clean_row ext row (count, s)
        ≡ (count, record s { metadata = delete_metadata row.target_type row.target_id s.metadata })
  unfolding clean_row
  clean_row_other row count s h = rw h refl

  clean_relations :
      (id : String) (rows : List (Meta F)) (r : ℕ × Quality F M)
      → any (has_target "relation" id) rows ≡ true
      → find? (has_target "relation" id) (clean_rows ext rows r).1.metadata ≡ none
  unfolding clean_rows
  clean_relations id [] r h = absurd (cc h)
  clean_relations id (row ∷ rows) (count, s) h = elim (Bool-cases (has_target "relation" id row)) [
    | inr other ↦ clean_relations id rows (clean_row ext row (count, s)) (rw other at h)
    | inl here ↦
        let (no_fact, type, target) = relation_row id row here in
        clean_rows-find_none "relation" id rows (clean_row ext row (count, s)) (
          ap (λ r. find? (has_target "relation" id) r.1.metadata)
            (clean_row_other row count s no_fact)
          ∙ rw (type, target) (find?-deleted "relation" id s.metadata))
  ]

  enrich_expired :
      (type : String) (s : Quality F M) (f : Found)
      → has_expired s.now (metadata_of type f.id s.metadata) ≡ true
      → enrich type s (f ∷ []) ≡ []
  unfolding enrich
  enrich_expired type s f h = rw h refl

  enrich_free :
      (type : String) (s : Quality F M) (f : Found)
      → metadata_of type f.id s.metadata ≡ none
      → map (λ e. e.found) (enrich type s (f ∷ [])) ≡ f ∷ []
  unfolding enrich
  enrich_free type s f h = rw h refl

  metadata_of-none :
      (type id : String) (rows : List (Meta F))
      → find? (has_target type id) rows ≡ none
      → metadata_of type (some id) rows ≡ none
  unfolding metadata_of
  metadata_of-none type id rows h = elim (Bool-cases (truthy id)) [
    | inl named ↦ rw (named, h) refl
    | inr empty ↦ rw empty refl
  ]

  expired_row :
      (type id : String) (now : ℕ) (rows : List (Meta F))
      → has_expired now (metadata_of type (some id) rows) ≡ true
      → any (has_target type id) (keep (is_expired now) rows) ≡ true
  unfolding metadata_of
  expired_row type id now rows h = elim (Bool-cases (truthy id)) [
    | inr empty ↦ absurd (cc (rw empty at h))
    | inl named ↦ elim (Option-cases (find? (has_target type id) rows)) [
      | inl nothing ↦ absurd (cc (rw (named, nothing) at h))
      | inr (m, there) ↦
          any-keep_of_find? type id (is_expired now) m rows there (rw (named, there) at h)
    ]
  ]
