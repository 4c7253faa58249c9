-- ===== src/Quality/Laws.antt =====
-- What the metadata, the feedback and the expiration of facts guarantee.
use context_broker.Prelude.{
  ℕ, ◌+◌, ◌*◌, ◌/◌, ◌∙◌, cat, ◌≡◌, refl, ap, inl, inr, Bool, true, false, Option, some, List, [],
  ◌∷◌, ◌++◌, String, str_eq, eq_refl, any, length, length-append, truthy, is_some, arith, ==_iff,
  Bool-cases, Option-cases,
}
use context_broker.Quality.Wrapper.{
  Meta, FeedbackEvent, Quality, QualityExternal, has_target, same_key, insert_metadata,
  write_metadata, timestamp_bucket, event_dedup_key, record_feedback,
}

any-append {ℓ} :
    {A : Type ℓ} (p : A → Bool) (xs ys : List A) → any p ys ≡ true → any p (xs ++ ys) ≡ true
any-append p [] ys h = h
any-append p (x ∷ xs) ys h = ground (arith, any-append p xs ys h)

module _ {F : Type 0} where
  -- The metadata of the same fact for another target.
  abbrev pub for_target : String → Meta F → Meta F
  for_target id m = record m { target_id = id }

  same_key_refl :
      (m : Meta F) (id : String)
      → truthy m.original_utterance ≡ true
      → is_some m.content_hash ≡ true
      → same_key (for_target id m) m ≡ true
  same_key_refl m id u h = elim (Option-cases m.content_hash) [
    | inl absent ↦ cc
    | inr (hash, e) ↦
        rw
          (
            u,
            h,
            e,
            eq_refl m.target_type,
            eq_refl m.user_id,
            (==_iff m.conversation_id m.conversation_id).1 refl,
            eq_refl m.original_utterance,
            eq_refl hash,
          )
          refl
  ]

  insert_metadata_known :
      (m : Meta F) (rows : List (Meta F))
      → any (same_key m) rows ≡ true
      → insert_metadata m rows ≡ rows
  unfolding insert_metadata
  insert_metadata_known m rows known =
      elim (Bool-cases (any (has_target m.target_type m.target_id) rows)) [
        | inl there ↦ rw there refl
        | inr absent ↦ rw (absent, known) refl
      ]

  insert_metadata-dropped :
      (m : Meta F) (id : String) (rows : List (Meta F))
      → truthy m.original_utterance ≡ true
      → is_some m.content_hash ≡ true
      → any (has_target m.target_type m.target_id) rows ≡ false
      → insert_metadata (for_target id m) (insert_metadata m rows) ≡ insert_metadata m rows
  unfolding insert_metadata
  insert_metadata-dropped m id rows u h fresh = elim (Bool-cases (any (same_key m) rows)) [
    | inl known ↦ rw (fresh, known) (insert_metadata_known (for_target id m) rows known)
    | inr new ↦
        rw (fresh, new)
          (insert_metadata_known (for_target id m) (rows ++ m ∷ []) (
            any-append (same_key (for_target id m)) rows (m ∷ [])
              (rw (same_key_refl m id u h) refl)))
  ]

  -- After the metadata of one target, that of another target of the same type, with the same user,
  -- conversation, utterance and content, is not written: it meets the unique index on these columns,
  -- and the error is caught.
  pub write_metadata-dropped :
      {M : Type 0} (m : Meta F) (id : String) (conversation : ℕ) (s : Quality F M)
      → truthy m.original_utterance ≡ true
      → is_some m.content_hash ≡ true
      → any (has_target m.target_type m.target_id) s.metadata ≡ false
      → let t = write_metadata m (some conversation) s in
        write_metadata (for_target id m) (some conversation) t ≡ t
  unfolding write_metadata
  write_metadata-dropped m id conversation s u h fresh =
      ap (λ rows. record s { metadata = rows })
        (insert_metadata-dropped (record m { conversation_id = conversation }) id s.metadata u h
          fresh)

module _ {M : Type 0} (ext : QualityExternal M) where
  same_minute :
      (target_id event_type agent_id : String) (now later : ℕ)
      → now / 60 ≡ later / 60
      → event_dedup_key ext target_id event_type agent_id now
        ≡ event_dedup_key ext target_id event_type agent_id later
  unfolding event_dedup_key timestamp_bucket
  same_minute target_id event_type agent_id now later h =
      ap
        (λ n.
          ext.sha256
            (cat (target_id ∷ "|" ∷ event_type ∷ "|" ∷ agent_id ∷ "|" ∷ ext.show (n * 60) ∷ [])))
        h

module _ {F M : Type 0} (ext : QualityExternal M) where
  record_feedback_known :
      (target_type target_id event_type agent_id : String) (context : Option String)
      (s : Quality F M)
      → any
          (λ e. str_eq e.dedup_key (event_dedup_key ext target_id event_type agent_id s.now))
          s.events
        ≡ true
      → record_feedback ext target_type target_id event_type agent_id context s ≡ (false, s)
  unfolding record_feedback
  record_feedback_known target_type target_id event_type agent_id context s known =
      elim (Bool-cases ext.feedback_fails) [
        | inl fails ↦ rw fails refl
        | inr works ↦ rw (works, known) refl
      ]

  pub record_feedback_added :
      (target_type target_id event_type agent_id : String) (context : Option String)
      (s : Quality F M)
      → (record_feedback ext target_type target_id event_type agent_id context s).0 ≡ true
      → (e : FeedbackEvent) × (e.dedup_key
          ≡ event_dedup_key ext target_id event_type agent_id s.now)
        × (e.target_type ≡ target_type)
        × (e.target_id ≡ target_id)
        × ((record_feedback ext target_type target_id event_type agent_id context s).1
            ≡ record s { events = s.events ++ e ∷ [] })
  unfolding record_feedback
  record_feedback_added target_type target_id event_type agent_id context s h =
      let key = event_dedup_key ext target_id event_type agent_id s.now in
      (
        record {
          target_type = target_type;
          target_id = target_id;
          event_type = event_type;
          agent_id = agent_id;
          context = context;
          dedup_key = key;
        },
        refl,
        refl,
        refl,
        elim (Bool-cases ext.feedback_fails) [
          | inl fails ↦ let h' = rw fails at h in absurd (cc h')
          | inr works ↦ elim (Bool-cases (any (λ e. str_eq e.dedup_key key) s.events)) [
            | inl known ↦ let h' = rw (works, known) at h in absurd (cc h')
            | inr fresh ↦ simp (works, fresh)
          ]
        ],
      )

  -- The same event of the same agent for the same target is recorded once in a minute of the clock,
  -- whatever its context and the target's type: after an event that was recorded, the second one, at
  -- any time of the same minute, adds nothing, and False is returned.
  pub record_feedback_again :
      (target_type target_type' target_id event_type agent_id : String)
      (context context' : Option String) (s : Quality F M) (later : ℕ)
      → (record_feedback ext target_type target_id event_type agent_id context s).0 ≡ true
      → s.now / 60 ≡ later / 60
      → let t = (record_feedback ext target_type target_id event_type agent_id context s).1 in
        let t' = record t { now = later } in
        (length t.events ≡ length s.events + 1)
        × (record_feedback ext target_type' target_id event_type agent_id context' t' ≡ (false, t'))
  record_feedback_again target_type target_type' target_id event_type agent_id context context' s
        later h minute =
      let (e, keyed, _, _, added) =
        record_feedback_added target_type target_id event_type agent_id context s h in
      let key = keyed ∙ same_minute ext target_id event_type agent_id s.now later minute in
      rw added (
        length-append s.events (e ∷ []),
        record_feedback_known target_type' target_id event_type agent_id context'
            (record s { events = s.events ++ e ∷ []; now = later })
            (any-append _ s.events (e ∷ []) (rw (key, eq_refl) refl)),
      )
