-- ===== src/Quality/Kept.antt =====
-- What a clean-up of expired facts leaves, and how feedback counts.
use context_broker.Prelude.{
  ℕ, ◌+◌, ◌≡◌, ◌∙◌, refl, ap, sym, inl, inr, ◌⊎◌, Bool, true, false, ◌&&◌, Option, List, [], ◌∷◌,
  ◌++◌, String, str_eq, eq_iff, if◌then◌else◌, any, keep, keep-append, find?, length, length-append,
  arith, Bool-cases,
}
use context_broker.Quality.Wrapper.{
  Meta, FeedbackEvent, Quality, QualityExternal, has_target, record_feedback,
}
use context_broker.Quality.Expiry.{
  is_expired, delete_metadata, after_delete, clean_row, clean_rows, cleanup_expired, is_about,
  usefulness_of,
}
use context_broker.Quality.Laws.{record_feedback_added}
use context_broker.Quality.Expired.{total_events_lem}

module _ {F : Type 0} where
  not_target :
      (type id : String) (row m : Meta F)
      → has_target type id row ≡ false
      → has_target type id m ≡ true
      → has_target row.target_type row.target_id m ≡ false
  not_target type id row m other here = ground (
    arith,
    eq_iff m.target_type type,
    eq_iff m.target_id id,
    eq_iff m.target_type row.target_type,
    eq_iff m.target_id row.target_id,
    eq_iff row.target_type type,
    eq_iff row.target_id id,
  )

  find?-delete_other :
      (type id : String) (row : Meta F) (rows : List (Meta F))
      → has_target type id row ≡ false
      → find? (has_target type id) (delete_metadata row.target_type row.target_id rows)
        ≡ find? (has_target type id) rows
  find?-delete_other type id row [] other = refl
  find?-delete_other type id row (m ∷ rows) other = elim (Bool-cases (has_target type id m)) [
    | inl here ↦ rw (not_target type id row m other here) (rw here refl)
    | inr no_target ↦
        let rest = find?-delete_other type id row rows other in
        elim (Bool-cases (has_target row.target_type row.target_id m)) [
          | inl gone ↦ rw (gone, no_target) rest
          | inr kept ↦ rw kept (rw no_target rest)
        ]
  ]

one_event :
    (type id target_type target_id : String) (e : FeedbackEvent)
    → e.target_type ≡ target_type
    → e.target_id ≡ target_id
    → length (keep (is_about type id) (e ∷ []))
      ≡ (if str_eq target_type type && str_eq target_id id then 1 else 0)
one_event type id target_type target_id e same_type same_id =
    rw (same_type, same_id)
      (elim (Bool-cases (str_eq target_type type && str_eq target_id id)) [
        | inl about ↦ rw about refl
        | inr other ↦ rw other refl
      ])

module _ {F M : Type 0} (ext : QualityExternal M) where
  -- No row of the target is among these, or it is a fact that mem0 always refuses to delete.
  abbrev pub IsProtected : String → String → List (Meta F) → Type 0
  IsProtected type id rows =
      (any (has_target type id) rows ≡ false)
      ⊎ ((type ≡ "fact") × ((mem0 : M) → (ext.mem0_delete id mem0).0 ≡ false))

  after_delete_failed :
      (row : Meta F) (d : Bool × M) (r : ℕ × Quality F M)
      → d.0 ≡ false
      → (after_delete ext row d r).1.metadata ≡ r.1.metadata
  after_delete_failed row (false, mem0) (count, s) h = refl
  after_delete_failed row (true, mem0) (count, s) h = absurd (cc h)

  after_delete-kept :
      (type id : String) (row : Meta F) (d : Bool × M) (r : ℕ × Quality F M)
      → has_target type id row ≡ false
      → find? (has_target type id) (after_delete ext row d r).1.metadata
        ≡ find? (has_target type id) r.1.metadata
  after_delete-kept type id row (false, mem0) (count, s) other = refl
  after_delete-kept type id row (true, mem0) (count, s) other =
      find?-delete_other type id row s.metadata other

  clean_row-kept :
      (type id : String) (row : Meta F) (r : ℕ × Quality F M)
      → IsProtected type id (row ∷ [])
      → find? (has_target type id) (clean_row ext row r).1.metadata
        ≡ find? (has_target type id) r.1.metadata
  unfolding clean_row
  clean_row-kept type id row (count, s) safe = elim (Bool-cases (has_target type id row)) [
    | inr other ↦ elim (Bool-cases (str_eq row.target_type "fact")) [
      | inl fact ↦
          rw fact
            (after_delete-kept type id row (ext.mem0_delete row.target_id s.mem0) (count, s) other)
      | inr no_fact ↦ rw no_fact (find?-delete_other type id row s.metadata other)
    ]
    | inl here ↦ elim safe [
      | inl absent ↦ absurd (cc (rw here at absent))
      | inr (fact, fails) ↦
          let is_fact : row.target_type ≡ type = ground (arith, eq_iff row.target_type type) in
          let target : row.target_id ≡ id = ground (arith, eq_iff row.target_id id) in
          let e : str_eq row.target_type "fact" ≡ true = rw (is_fact, fact) refl in
          rw e (
            ap (find? (has_target type id)) (
              after_delete_failed row (ext.mem0_delete row.target_id s.mem0) (count, s)
                (ap (λ i. (ext.mem0_delete i s.mem0).0) target ∙ fails s.mem0)))
    ]
  ]

  IsProtected-cons :
      (type id : String) (row : Meta F) (rows : List (Meta F))
      → IsProtected type id (row ∷ rows)
      → IsProtected type id (row ∷ []) × IsProtected type id rows
  IsProtected-cons type id row rows (inr refused) = (inr refused, inr refused)
  IsProtected-cons type id row rows (inl absent) = (inl (ground arith), inl (ground arith))

  clean_rows-kept :
      (type id : String) (rows : List (Meta F)) (r : ℕ × Quality F M)
      → IsProtected type id rows
      → find? (has_target type id) (clean_rows ext rows r).1.metadata
        ≡ find? (has_target type id) r.1.metadata
  unfolding clean_rows
  clean_rows-kept type id [] r safe = refl
  clean_rows-kept type id (row ∷ rows) r safe =
      let (first, others) = IsProtected-cons type id row rows safe in
      clean_rows-kept type id rows (clean_row ext row r) others ∙ clean_row-kept type id row r first

  -- The clean-up leaves the metadata of every target without an expired row, and that of a fact that
  -- mem0 refuses to delete, as it is.
  pub cleanup_expired-kept :
      (type id : String) (s : Quality F M)
      → IsProtected type id (keep (is_expired s.now) s.metadata)
      → find? (has_target type id) (cleanup_expired ext s).1.metadata
        ≡ find? (has_target type id) s.metadata
  unfolding cleanup_expired
  cleanup_expired-kept type id s safe =
      clean_rows-kept type id (keep (is_expired s.now) s.metadata) (0, s) safe

  -- A feedback event that is recorded adds one to the total of its target, whatever its type, and
  -- nothing to that of any other target.
  pub record_feedback-counted :
      (target_type target_id event_type agent_id : String) (context : Option String)
      (s : Quality F M)
      → (record_feedback ext target_type target_id event_type agent_id context s).0 ≡ true
      → let t = (record_feedback ext target_type target_id event_type agent_id context s).1 in
        (type id : String)
        → (usefulness_of type id t.events).total_events
          ≡ (usefulness_of type id s.events).total_events
            + (if str_eq target_type type && str_eq target_id id then 1 else 0)
  record_feedback-counted target_type target_id event_type agent_id context s h type id =
      let (e, _, same_type, same_id, added) =
        record_feedback_added ext target_type target_id event_type agent_id context s h in
      let events =
        (record_feedback ext target_type target_id event_type agent_id context s).1.events in
      let counted : length (keep (is_about type id) (s.events ++ e ∷ []))
          ≡ length (keep (is_about type id) s.events)
            + (if str_eq target_type type && str_eq target_id id then 1 else 0) =
        rw keep-append (
          length-append (keep (is_about type id) s.events) (keep (is_about type id) (e ∷ []))
          ∙ ap (λ n. length (keep (is_about type id) s.events) + n)
              (one_event type id target_type target_id e same_type same_id)) in
      total_events_lem type id events
      ∙ ap (λ t. length (keep (is_about type id) t.events)) added
      ∙ counted
      ∙ ap (λ n. n + (if str_eq target_type type && str_eq target_id id then 1 else 0))
          (sym (total_events_lem type id s.events))
