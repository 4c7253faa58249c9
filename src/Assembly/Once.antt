-- ===== src/Assembly/Once.antt =====
-- `run_full_compaction` and the unique index of the summaries, which covers inactive rows too.
use context_broker.Prelude.{
  ℕ, ◌-◌, ◌≡◌, ◌∙◌, refl, sym, inl, inr, Bool, true, false, ◌&&◌, Option, none, some, List, [], ◌∷◌,
  ◌++◌, leb, length, subst, ◌⊎◌, cat, String, arith, Bool-cases, any, update_where, truthy,
}
use context_broker.Floats.{Floats}
use context_broker.Tiers.{get_or, extract_deadband_config}
use context_broker.Store.{Summary, Db, unique_violation, Outcome, returned, raised}
use context_broker.Assembly.State.{AssemblyState, External, Prompt, prompt, missing, empty_config}
use context_broker.Assembly.Partition.{is_active_tier}
use context_broker.Assembly.Compact.{Scope, has_range}
use context_broker.Assembly.Archive.{
  archived, first_from, last_to, insert_archive, archive_transaction, archive_row, retired,
  commit_archive, store_archive, with_header, with_recent, consolidate, compact_chunks,
  archive_with, run_full_compaction, in_rows, consolidated, archive_model, active_chunks,
  existing_tier3,
}

-- Deactivating rows takes no key from the unique index.
any-update :
    (w tier a b : ℕ) (which : Summary → Bool) (rows : List Summary)
    → any (has_range w tier a b) (update_where which (λ r. record r { is_active = false }) rows)
      ≡ any (has_range w tier a b) rows
any-update w tier a b which [] = refl
any-update w tier a b which (r ∷ rows) = ground (arith, any-update w tier a b which rows)

-- Whether a row of the window, active or not, has the range of the historical header.
abbrev pub has_header : ℕ → Db → Bool
has_header w db = any (has_range w 3 0 0) db.summaries

-- The node archived nothing.
abbrev pub IsIdle : {F : Type 0} → Outcome (AssemblyState F) → Type 0
IsIdle (returned t) = t.tier3_summary ≡ none
IsIdle (raised e) = Unit

-- The node archived nothing and left the database alone, or wrote the window's first header.
abbrev ArchiveEffect : {F : Type 0} → ℕ → Db → Outcome (AssemblyState F) × Db → Type 0
ArchiveEffect w db r =
    ((r.1 ≡ db) × IsIdle r.0) ⊎ ((has_header w db ≡ false) × (has_header w r.1 ≡ true))

any-last :
    (q : Summary → Bool) (rows : List Summary) (r : Summary)
    → any q rows ≡ true
    → any q (rows ++ r ∷ []) ≡ true
any-last q [] r h = absurd (cc (h))
any-last q (x ∷ rows) r h = elim (Bool-cases (q x)) [
  | inl is_x ↦ rw is_x refl
  | inr not_x ↦ let h' : any q rows ≡ true = rw not_x at h in rw not_x (any-last q rows r h')
]

any-new :
    (q : Summary → Bool) (rows : List Summary) (r : Summary)
    → q r ≡ true
    → any q (rows ++ r ∷ []) ≡ true
any-new q [] r h = rw h refl
any-new q (x ∷ rows) r h = ground (arith, any-new q rows r h)

has_header-retired :
    (scope : Scope) (rows : List Summary) (db : Db)
    → has_header scope.window (retired scope rows db) ≡ has_header scope.window db
has_header-retired scope rows db =
    any-update scope.window 3 0 0 (in_rows rows) _
    ∙ any-update scope.window 3 0 0 (is_active_tier scope.window 3) db.summaries

-- The transaction is refused and leaves nothing, or is the first to write a header.
transaction-Effect :
    (scope : Scope) (rows : List Summary) (header recent : String) (db : Db)
    → (archive_transaction scope rows header recent db ≡ (raised unique_violation, db))
      ⊎ ((has_header scope.window db ≡ false)
          × (db' : Db) × (archive_transaction scope rows header recent db ≡ (returned tt, db'))
          × (has_header scope.window db' ≡ true))
unfolding archive_transaction insert_archive
transaction-Effect scope rows header recent db = elim (Bool-cases (has_header scope.window gone)) [
  | inl there ↦ rw there (inl refl)
  | inr new ↦ rw new (elim (Bool-cases (any recent_range with_header)) [
    | inl taken ↦ rw taken (inl refl)
    | inr free ↦ rw free (
        inr (
          sym (has_header-retired scope rows db) ∙ new,
          _,
          refl,
          any-last (has_range scope.window 3 0 0) with_header _
              (any-new (has_range scope.window 3 0 0) gone.summaries header_row (ground arith)),
        ))
  ])
]
  where
    gone : Db
    gone = retired scope rows db

    header_row : Summary
    header_row = archive_row scope header 0 0 0 gone

    with_header : List Summary
    with_header = gone.summaries ++ header_row ∷ []

    recent_range : Summary → Bool
    recent_range = has_range scope.window 3 (first_from rows) (last_to rows)

module _ (f : Floats) (ext : External (f.Float)) where
  open f use {Float}

  -- The node after the transaction.
  abbrev after :
      String → AssemblyState Float → Outcome (Unit {0}) × Db → Outcome (AssemblyState Float) × Db
  after text s r = elim r.0 [ returned u ↦ archived f ext s text r.1 | raised e ↦ (raised e, r.1) ]

  after-Effect :
      (w : ℕ) (text : String) (s : AssemblyState Float) (db : Db) (r : Outcome (Unit {0}) × Db)
      → (r ≡ (raised unique_violation, db))
        ⊎ ((has_header w db ≡ false)
            × (db' : Db) × (r ≡ (returned tt, db'))
            × (has_header w db' ≡ true))
      → ArchiveEffect w db (after text s r)
  unfolding archived
  after-Effect w text s db r (inl e) = rw e (inl (refl, tt))
  after-Effect w text s db r (inr (new, db', e, there)) = rw e (inr (new, there))

  commit-Effect :
      (w : ℕ) (m : String) (rows : List Summary) (a b : String) (c : Option ℕ)
      (s : AssemblyState Float) (db : Db)
      → ArchiveEffect w db (commit_archive f ext w m rows a b c s db)
  unfolding commit_archive
  commit-Effect w m rows a b none s db = inl (refl, refl)
  commit-Effect w m rows a b (some c) s db =
      let scope : Scope = record { window = w; conversation = c; model = m } in
      after-Effect w (cat (a ∷ "\n\n" ∷ b ∷ [])) s db (archive_transaction scope rows a b db)
        (transaction-Effect scope rows a b db)

  store-Effect :
      (w : ℕ) (m : String) (rows : List Summary) (a b : String) (s : AssemblyState Float) (db : Db)
      → ArchiveEffect w db (store_archive f ext w m rows a b s db)
  unfolding store_archive
  store-Effect w m rows a b s db = elim (Bool-cases (truthy b && truthy a)) [
    | inl full ↦ rw full (commit-Effect w m rows a b (ext.parse_uuid s.conversation_id) s db)
    | inr blank ↦ rw blank (inl (refl, refl))
  ]

  with_header-Effect :
      (w : ℕ) (m : String) (rows : List Summary) (a : String) (b : Option String)
      (s : AssemblyState Float) (db : Db)
      → ArchiveEffect w db (with_header f ext w m rows a b s db)
  with_header-Effect w m rows a none s db = unfold with_header in inl (refl, refl)
  with_header-Effect w m rows a (some b) s db = unfold with_header in store-Effect w m rows b a s db

  with_recent-Effect :
      (w : ℕ) (m : String) (rows : List Summary) (e : Option Summary) (a : Option String)
      (s : AssemblyState Float) (db : Db)
      → ArchiveEffect w db (with_recent f ext w m rows e a s db)
  with_recent-Effect w m rows e none s db = unfold with_recent in inl (refl, refl)
  with_recent-Effect w m rows e (some a) s db =
      unfold with_recent in with_header-Effect w m rows a _ s db

  consolidate-Effect :
      (w : ℕ) (m : String) (rows : List Summary) (e : Option Summary) (p : Prompt)
      (s : AssemblyState Float) (db : Db)
      → ArchiveEffect w db (consolidate f ext w m rows e p s db)
  consolidate-Effect w m rows e (missing x) s db = unfold consolidate in inl (refl, refl)
  consolidate-Effect w m rows e (prompt p) s db =
      unfold consolidate in with_recent-Effect w m rows e _ s db

  compact_chunks-Effect :
      (w : ℕ) (m : String) (n : ℕ) (active : List Summary) (e : Option Summary)
      (s : AssemblyState Float) (db : Db)
      → ArchiveEffect w db (compact_chunks f ext w m n active e s db)
  unfolding compact_chunks
  compact_chunks-Effect w m n active e s db = elim (Bool-cases (leb (length active) n)) [
    | inl few ↦ rw few (inl (refl, refl))
    | inr many ↦ rw many (elim (Bool-cases (leb (length active) (n - 1))) [
      | inl few ↦ rw few (inl (refl, refl))
      | inr more ↦ rw more (
          consolidate-Effect w m (consolidated (n - 1) active) e
            (ext.load_prompt "archival_consolidation") s db)
    ])
  ]

  archive-Effect :
      (w : ℕ) (s : AssemblyState Float) (db : Db)
      → ext.parse_uuid s.context_window_id ≡ some w
      → ArchiveEffect w db (run_full_compaction f ext s db)
  unfolding run_full_compaction archive_with
  archive-Effect w s db id = rw id (
      compact_chunks-Effect w (archive_model f ext s)
        (extract_deadband_config f (get_or s.build_type_config empty_config)).tier2_min_chunks
        (active_chunks w db.summaries) (existing_tier3 w db.summaries) s db)

  -- A full compaction of a window for which any row of tier 3, active or not, has the range of the
  -- historical header, 0 to 0, leaves the database as it is, and it raises or returns no summary.
  run_full_compaction-IsIdle :
      (w : ℕ) (s : AssemblyState Float) (db : Db)
      → ext.parse_uuid s.context_window_id ≡ some w
      → has_header w db ≡ true
      → let r = run_full_compaction f ext s db in (r.1 ≡ db) × IsIdle r.0
  run_full_compaction-IsIdle w s db id there = elim (archive-Effect w s db id) [
    | inl idle ↦ idle
    | inr (new, after) ↦ absurd (cc (there, new))
  ]

  -- A window is archived at most once: after a full compaction that returned a summary, every full
  -- compaction of that window, with whatever state and answers, leaves the database as it is, and it
  -- raises or returns no summary.
  pub run_full_compaction_once :
      (w : ℕ) (s s' t : AssemblyState Float) (text : String) (db db' : Db)
      → ext.parse_uuid s.context_window_id ≡ some w
      → ext.parse_uuid s'.context_window_id ≡ some w
      → run_full_compaction f ext s db ≡ (returned t, db')
      → t.tier3_summary ≡ some text
      → let r = run_full_compaction f ext s' db' in (r.1 ≡ db') × IsIdle r.0
  run_full_compaction_once w s s' t text db db' id id' first kept =
      elim (archive-Effect w s db id) [
        | inl idle ↦
            let nothing : t.tier3_summary ≡ none = subst (λ r. IsIdle r.0) first idle.1 in
            absurd (cc (nothing, kept))
        | inr (new, after) ↦
            run_full_compaction-IsIdle w s' db' id'
              (subst (λ r. has_header w r.1 ≡ true) first after)
      ]
