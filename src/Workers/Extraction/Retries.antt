-- ===== src/Workers/Extraction/Retries.antt =====
-- The locks of `_extraction_worker`.
use context_broker.Prelude.{
  ℕ, ◌≡◌, refl, ◌∙◌, inl, inr, Option, none, some, List, [], ◌∷◌, String, ◌==◌, leb, Bool-cases,
}
use context_broker.Store.{LockTable, Db}
use context_broker.Locks.{is_held, hold, erase, erase-hold, try_advisory_lock, advisory_unlock}
use context_broker.Workers.Extraction.{
  ExtractionResult, succeeded, with_error, late, crashed, ExtractionWorker, Pass, next, aborted,
  worker_of, max_conv_retries, failures_of, extraction_lock, after_extraction, extract_locked,
  extract_if_locked, extract_conversation, extract_each, extraction_step, unextracted_conversations,
}

module _ (digest : String → ℕ) (show_uuid : ℕ → String) where
  -- The flow leaves the locks as they are.
  abbrev pub KeepsLocks : Option (ℕ → Db → ExtractionResult × Db) → Type 0
  KeepsLocks none = Unit
  KeepsLocks (some run) = (id : ℕ) (db : Db) → (run id db).1.locks ≡ db.locks

  pub erase_first : (key : ℕ) (ls others : LockTable) → ls ≡ hold key others → erase key ls ≡ others
  erase_first key ls others e = rw e (erase-hold key others)

  module _ (flow : Option (ℕ → Db → ExtractionResult × Db)) where
    abbrev held_key : ℕ → ℕ
    held_key id = extraction_lock digest show_uuid flow id

    after_extraction-locks :
        (id : ℕ) (result : ExtractionResult) (s : ExtractionWorker) (others : LockTable)
        → s.db.locks ≡ hold (held_key id) others
        → (worker_of (after_extraction digest show_uuid flow id result s)).db.locks ≡ others
    unfolding after_extraction advisory_unlock
    after_extraction-locks id succeeded s others e = erase_first (held_key id) s.db.locks others e
    after_extraction-locks id with_error s others e = erase_first (held_key id) s.db.locks others e
    after_extraction-locks id late s others e = erase_first (held_key id) s.db.locks others e
    after_extraction-locks id crashed s others e = erase_first (held_key id) s.db.locks others e

    extract_locked-locks :
        (o : Option (ℕ → Db → ExtractionResult × Db)) (id : ℕ) (s : ExtractionWorker)
        (others : LockTable)
        → KeepsLocks o
        → s.db.locks ≡ hold (held_key id) others
        → (worker_of (extract_locked digest show_uuid flow o id s)).db.locks ≡ others
    unfolding extract_locked advisory_unlock
    extract_locked-locks none id s others keeps e = erase_first (held_key id) s.db.locks others e
    extract_locked-locks (some run) id s others keeps e =
        let (result, db') = run id s.db in
        after_extraction-locks id result (record s { db = db' }) others (keeps id s.db ∙ e)

    extract_conversation-locks :
        (id : ℕ) (s : ExtractionWorker)
        → KeepsLocks flow
        → (worker_of (extract_conversation digest show_uuid flow id s)).db.locks ≡ s.db.locks
    unfolding extract_conversation extract_if_locked try_advisory_lock
    extract_conversation-locks id s keeps =
        elim (Bool-cases (leb max_conv_retries (failures_of id s))) [
          | inl many ↦ elim (Bool-cases (failures_of id s == max_conv_retries)) [
            | inl last ↦ rw many (rw last refl)
            | inr given_up ↦ rw many (rw given_up refl)
          ]
          | inr few ↦ elim (Bool-cases (is_held (held_key id) s.db.locks)) [
            | inl held ↦ rw few (rw held refl)
            | inr free ↦ rw few (
                rw free (
                  extract_locked-locks flow id
                    (record s { db = record s.db { locks = hold (held_key id) s.db.locks } })
                    s.db.locks keeps refl))
          ]
        ]

    extract_each-locks :
        (ids : List ℕ) (p : Pass)
        → KeepsLocks flow
        → (worker_of (extract_each digest show_uuid flow ids p)).db.locks ≡ (worker_of p).db.locks
    unfolding extract_each
    extract_each-locks [] p keeps = refl
    extract_each-locks (id ∷ ids) (aborted s) keeps = refl
    extract_each-locks (id ∷ ids) (next s) keeps =
        extract_each-locks ids (extract_conversation digest show_uuid flow id s) keeps
        ∙ extract_conversation-locks id s keeps

    -- A round of the extraction worker gives back every lock that it takes, however the runs of the
    -- flow end, also by an exception that aborts the round, if the flow itself leaves the locks as
    -- they are or is not registered.
    pub extraction_step-locks :
        (s : ExtractionWorker)
        → KeepsLocks flow
        → (worker_of (extraction_step digest show_uuid flow s)).db.locks ≡ s.db.locks
    unfolding extraction_step
    extraction_step-locks s keeps =
        extract_each-locks (unextracted_conversations s.db.messages) (next s) keeps
