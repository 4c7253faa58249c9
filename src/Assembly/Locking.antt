-- ===== src/Assembly/Locking.antt =====
-- The nodes of the assembly graph and the advisory lock.
pub mod Run
use context_broker.Prelude.{
  ℕ, zero, suc, take, length, ltb, ◌+◌, ◌-◌, ◌≤◌, ◌≡◌, ◌∙◌, refl, sym, ap, subst, ◌⊎◌, inl, inr,
  Bool, true, false, ◌&&◌, Option, none, some, List, [], ◌∷◌, String, arith, ◌==◌, if◌then◌else◌,
  truthy, Bool-cases, Option-cases, cat, is_some,
}
use Prim.Native.String
use Prim.Native.String.append
use context_broker.Floats.{Floats}
use context_broker.Store.{
  Message, Summary, Window, Db, Exception, Outcome, returned, raised, Flow, pure, or_value_error,
  ◌>>=◌, ◌>>◌,
}
use context_broker.Locks.{stable_lock_id, is_held, erase, try_advisory_lock, advisory_unlock}
use context_broker.Config.{Config}
use context_broker.Tiers.{get_or, extract_deadband_config}
use context_broker.Assembly.State.{
  AssemblyState, External, Prompt, prompt, missing, initial, empty_config,
}
use context_broker.Assembly.Load.{
  acquire_assembly_lock, load_window_config, load_messages, lock_of, use_window, use_config,
  after_try, request_lock,
}
use context_broker.Assembly.Partition.{calculate_compaction_state}
use context_broker.Assembly.Compact.{
  no_progress, compact_progress, compact_rounds, compact_tier1, compact_with, compact_loaded,
  scope_of, budget_of, answers_of,
}
use context_broker.Assembly.Guard.{locks-insert_summaries}
use context_broker.Assembly.Archive.{
  archive_transaction, store_archive, commit_archive, with_header, with_recent, consolidate,
  compact_chunks, run_full_compaction, consolidated, archive_model, archive_with, active_chunks,
  existing_tier3,
}
use context_broker.Assembly.Graph.{
  Node, acquiring, loading_config, loading_messages, calculating, compacting, archiving, finalizing,
  releasing, end, finalize_assembly, release_assembly_lock, next_node, run_node, run,
  invoke_assembly, mark_assembled,
}

-- The two states agree on the lock.
abbrev pub SameLock : {F : Type 0} → AssemblyState F → AssemblyState F → Type 0
SameLock s t =
    (t.lock_key ≡ s.lock_key)
    × (t.lock_acquired ≡ s.lock_acquired)
    × (t.context_window_id ≡ s.context_window_id)

abbrev pub KeepsState : {F : Type 0} → AssemblyState F → Outcome (AssemblyState F) → Type 0
KeepsState s (returned t) = SameLock s t
KeepsState s (raised e) = Unit

-- A node that touches no lock.
abbrev pub KeepsLock : {F : Type 0} → AssemblyState F → Db → Outcome (AssemblyState F) × Db → Type 0
KeepsLock s db r = (r.1.locks ≡ db.locks) × KeepsState s r.0

-- A node between the request for the lock and the end.
abbrev pub is_inner : Node → Bool
is_inner acquiring = false
is_inner end = false
is_inner node = true

-- An id that is no UUID raises, and the rest of the node runs on the same database.
uuid-KeepsLock :
    {F : Type 0} (s : AssemblyState F) (db : Db) (o : Option ℕ) (g : ℕ → Flow (AssemblyState F))
    → ((id : ℕ) → KeepsLock s db (g id db))
    → KeepsLock s db ((or_value_error o >>= g) db)
uuid-KeepsLock s db none g h = (refl, tt)
uuid-KeepsLock s db (some id) g h = h id

module _ (f : Floats) (ext : External (f.Float)) where
  open f use {Float}

  use_window-SameLock :
      (s : AssemblyState Float) (o : Option Window) → SameLock s (use_window f ext s o)
  unfolding use_window
  use_window-SameLock s o = ground arith

  load_window_config-KeepsLock :
      (s : AssemblyState Float) (db : Db) → KeepsLock s db (load_window_config f ext s db)
  unfolding load_window_config
  load_window_config-KeepsLock s db = ground arith

  load_messages-KeepsLock :
      (s : AssemblyState Float) (db : Db) → KeepsLock s db (load_messages f ext s db)
  unfolding load_messages
  load_messages-KeepsLock s db = ground arith

  calculate-KeepsLock :
      (s : AssemblyState Float) (db : Db) → KeepsLock s db (calculate_compaction_state f ext s db)
  unfolding calculate_compaction_state
  calculate-KeepsLock s db = ground arith

  finalize-KeepsLock :
      (s : AssemblyState Float) (db : Db) → KeepsLock s db (finalize_assembly f ext s db)
  unfolding finalize_assembly
  finalize-KeepsLock s db = ground arith

  compact_progress-locks :
      (answers : List (List Message × Option String)) (w c : ℕ) (s : AssemblyState Float) (db : Db)
      → (compact_progress f ext answers w c s db).1.locks ≡ db.locks
  compact_progress-locks answers w c s db =
      locks-insert_summaries ext.rival (scope_of f ext w c s) (budget_of f ext s) 0 answers db.locks
        no_progress db refl

  compact_rounds-KeepsLock :
      (x : Option (ℕ × Exception)) (answers : List (List Message × Option String)) (w c : ℕ)
      (s : AssemblyState Float) (db : Db)
      → KeepsLock s db (compact_rounds f ext x answers w c s db)
  compact_rounds-KeepsLock none answers w c s db =
      (compact_progress-locks answers w c s db, (refl, refl, refl))
  compact_rounds-KeepsLock (some (i, e)) answers w c s db =
      let before = compact_progress f ext (take i answers) w c s db in
      let after = compact_progress f ext (take (i + 1) answers) w c s db in
      elim (Bool-cases (ltb (length before.0.extractions) (length after.0.extractions))) [
        | inl called ↦ rw called (compact_progress-locks (take (i + 1) answers) w c s db, tt)
        | inr skipped ↦ rw skipped (compact_progress-locks answers w c s db, (refl, refl, refl))
      ]

  compact_with-KeepsLock :
      (p : String) (window conversation : ℕ) (s : AssemblyState Float) (db : Db)
      → KeepsLock s db (compact_with f ext p window conversation s db)
  unfolding compact_with
  compact_with-KeepsLock p window conversation s db =
      compact_rounds-KeepsLock ext.escaping_extraction (answers_of f ext p s) window conversation s
        db

  compact_loaded-KeepsLock :
      (p : Prompt) (s : AssemblyState Float) (db : Db)
      → KeepsLock s db (compact_loaded f ext p s db)
  compact_loaded-KeepsLock (missing exc) s db = unfold compact_loaded in (refl, (refl, refl, refl))
  compact_loaded-KeepsLock (prompt p) s db =
      unfold compact_loaded in
      uuid-KeepsLock s db (ext.parse_uuid s.context_window_id)
        (λ w. or_value_error (ext.parse_uuid s.conversation_id) >>= λ c. compact_with f ext p w c s)
        (λ w.
          uuid-KeepsLock s db (ext.parse_uuid s.conversation_id) (λ c. compact_with f ext p w c s)
            (λ c. compact_with-KeepsLock p w c s db))

  compact_tier1-KeepsLock :
      (s : AssemblyState Float) (db : Db) → KeepsLock s db (compact_tier1 f ext s db)
  unfolding compact_tier1
  compact_tier1-KeepsLock s db =
      ground (arith, compact_loaded-KeepsLock (ext.load_prompt "chunk_summarization") s db)

  commit_archive-KeepsLock :
      (w : ℕ) (m : String) (rows : List Summary) (a b : String) (c : Option ℕ)
      (s : AssemblyState Float) (db : Db)
      → KeepsLock s db (commit_archive f ext w m rows a b c s db)
  unfolding commit_archive
  commit_archive-KeepsLock w m rows a b c s db = ground arith

  store_archive-KeepsLock :
      (w : ℕ) (m : String) (rows : List Summary) (a b : String) (s : AssemblyState Float) (db : Db)
      → KeepsLock s db (store_archive f ext w m rows a b s db)
  unfolding store_archive
  store_archive-KeepsLock w m rows a b s db =
      ground (arith, commit_archive-KeepsLock w m rows a b (ext.parse_uuid s.conversation_id) s db)

  with_header-KeepsLock :
      (w : ℕ) (m : String) (rows : List Summary) (a : String) (b : Option String)
      (s : AssemblyState Float) (db : Db)
      → KeepsLock s db (with_header f ext w m rows a b s db)
  with_header-KeepsLock w m rows a none s db = unfold with_header in (refl, (refl, refl, refl))
  with_header-KeepsLock w m rows a (some b) s db =
      unfold with_header in store_archive-KeepsLock w m rows b a s db

  with_recent-KeepsLock :
      (w : ℕ) (m : String) (rows : List Summary) (e : Option Summary) (a : Option String)
      (s : AssemblyState Float) (db : Db)
      → KeepsLock s db (with_recent f ext w m rows e a s db)
  with_recent-KeepsLock w m rows e none s db = unfold with_recent in (refl, (refl, refl, refl))
  with_recent-KeepsLock w m rows e (some a) s db =
      unfold with_recent in with_header-KeepsLock w m rows a _ s db

  consolidate-KeepsLock :
      (w : ℕ) (m : String) (rows : List Summary) (e : Option Summary) (p : Prompt)
      (s : AssemblyState Float) (db : Db)
      → KeepsLock s db (consolidate f ext w m rows e p s db)
  consolidate-KeepsLock w m rows e (missing x) s db =
      unfold consolidate in (refl, (refl, refl, refl))
  consolidate-KeepsLock w m rows e (prompt p) s db =
      unfold consolidate in with_recent-KeepsLock w m rows e _ s db

  compact_chunks-KeepsLock :
      (w : ℕ) (m : String) (n : ℕ) (active : List Summary) (e : Option Summary)
      (s : AssemblyState Float) (db : Db)
      → KeepsLock s db (compact_chunks f ext w m n active e s db)
  unfolding compact_chunks
  compact_chunks-KeepsLock w m n active e s db = ground (
    arith,
    consolidate-KeepsLock w m (consolidated (n - 1) active) e
        (ext.load_prompt "archival_consolidation") s db,
  )

  archive_with-KeepsLock :
      (w : ℕ) (s : AssemblyState Float) (db : Db) → KeepsLock s db (archive_with f ext w s db)
  unfolding archive_with
  archive_with-KeepsLock w s db =
      compact_chunks-KeepsLock w (archive_model f ext s)
        (extract_deadband_config f (get_or s.build_type_config empty_config)).tier2_min_chunks
        (active_chunks w db.summaries) (existing_tier3 w db.summaries) s db

  archive-KeepsLock :
      (s : AssemblyState Float) (db : Db) → KeepsLock s db (run_full_compaction f ext s db)
  archive-KeepsLock s db =
      unfold run_full_compaction in
      uuid-KeepsLock s db (ext.parse_uuid s.context_window_id) (λ w. archive_with f ext w s)
        (λ w. archive_with-KeepsLock w s db)

  -- Each inner node is the release or leaves the lock alone.
  pub node-KeepsLock :
      (node : Node) (s : AssemblyState Float) (db : Db)
      → is_inner node ≡ true
      → (node ≡ releasing) ⊎ KeepsLock s db (run_node f ext node s db)
  unfolding run_node
  node-KeepsLock acquiring s db h = absurd (cc (h))
  node-KeepsLock loading_config s db h = inr (load_window_config-KeepsLock s db)
  node-KeepsLock loading_messages s db h = inr (load_messages-KeepsLock s db)
  node-KeepsLock calculating s db h = inr (calculate-KeepsLock s db)
  node-KeepsLock compacting s db h = inr (compact_tier1-KeepsLock s db)
  node-KeepsLock archiving s db h = inr (archive-KeepsLock s db)
  node-KeepsLock finalizing s db h = inr (finalize-KeepsLock s db)
  node-KeepsLock releasing s db h = inl refl
  node-KeepsLock end s db h = absurd (cc (h))
