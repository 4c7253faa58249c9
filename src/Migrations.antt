-- ===== src/Migrations.antt =====
-- app/migrations.py: the registry of the migrations and the run that applies those that are pending.
-- What a migration does to the schema is SQL, a parameter that succeeds or fails.
pub mod Resume
use context_broker.Prelude.{
  ℕ, max, Bool, true, false, Option, none, some, List, [], ◌∷◌, ◌++◌, String, ltb, ◌==◌,
  if◌then◌else◌, keep, any,
}

pub record Migration : Type 0 where
  pub version : ℕ
  pub description : String

-- MIGRATIONS, without the functions
abbrev pub migrations : List Migration
migrations =
    record { version = 1; description = "Initial schema — created by postgres/init.sql" }
    ∷ record { version = 2; description = "Add participant_id index on context_windows" }
    ∷ record {
      version = 3;
      description = "Add unique constraint on (conversation_id, sequence_number)";
    }
    ∷ record { version = 4; description = "Add recipient_id column to conversation_messages" }
    ∷ record { version = 5; description = "Add flow_id, user_id to conversations" }
    ∷ record {
      version = 6;
      description = "Add content_type, priority, repeat_count to conversation_messages";
    }
    ∷ record {
      version = 7;
      description = "Unique index on summaries to prevent duplicate rows (M-08)";
    }
    ∷ record { version = 8; description = "Mem0 dedup index on mem0_memories (F-19)" }
    ∷ record { version = 9; description = "Deferred HNSW vector index (G5-41)" }
    ∷ record {
      version = 10;
      description =
          "Unique constraint on context_windows (conversation_id, participant_id, build_type) (G5-08)";
    }
    ∷ record { version = 11; description = "Add last_accessed_at to context_windows" }
    ∷ record {
      version = 12;
      description =
          "Schema alignment: renames, tool_calls, drops, constraints (ARCH-01/08/09/12/13)";
    }
    ∷ record {
      version = 13;
      description =
          "Update context_windows unique constraint: (conversation_id, build_type, max_token_budget) (D-03)";
    }
    ∷ record { version = 14; description = "Add system_logs table for Fluent Bit log collection" }
    ∷ record {
      version = 15;
      description = "Add stategraph_packages table for dynamic loading (REQ-001 §10)";
    }
    ∷ record {
      version = 16;
      description = "Add mem0_memories dedup index (hash+user_id) — from Rogers Fix 2";
    }
    ∷ record {
      version = 17;
      description = "Add embedding column to system_logs for log vectorization";
    }
    ∷ record {
      version = 18;
      description = "Add domain_information table for Imperator domain knowledge";
    }
    ∷ record {
      version = 19;
      description = "Add schedules and schedule_history tables for built-in scheduler";
    }
    ∷ record {
      version = 20;
      description = "Add last_fired_at to schedules for DB-based coordination";
    }
    ∷ record {
      version = 21;
      description = "Tier rename: archival tier 1→3, update check constraint (compaction v2)";
    }
    ∷ record {
      version = 22;
      description = "Create alert_instructions table for alerter sidecar tools";
    }
    ∷ record { version = 23; description = "CEA: quality metadata and feedback event tables" }
    ∷ record {
      version = 24;
      description = "CEA: natural-key dedup index and usefulness aggregation index";
    }
    ∷ record {
      version = 25;
      description = "CEA: fix natural-key dedup to allow multiple facts per utterance (#503)";
    }
    ∷ []

-- The schema, and the rows of schema_migrations; none where the table is not there. Whether the
-- advisory lock 1 is held.
pub record Database (S : Type 0) : Type 0 where
  pub schema : S
  pub schema_migrations : Option (List Migration)
  pub locked : Bool

-- How a run ends: nothing was pending; all pending ones were applied; or the RuntimeError for a
-- version.
pub data Ended : Type 0 where
  up_to_date : Ended
  completed : Ended
  failed : ℕ → Ended

-- COALESCE(MAX(version), 0)
abbrev pub max_version : List Migration → ℕ
max_version [] = 0
max_version (m ∷ ms) = max m.version (max_version ms)

unfoldable pub get_current_schema_version : {S : Type 0} → Database S → ℕ
get_current_schema_version db = elim db.schema_migrations [
  | none ↦ 0
  | some rows ↦ max_version rows
]

abbrev pub pending_migrations : ℕ → List Migration → List Migration
pending_migrations current = keep (λ m. ltb current m.version)

-- INSERT INTO schema_migrations … ON CONFLICT (version) DO NOTHING; none where the table is missing.
abbrev pub record_version : Migration → Option (List Migration) → Option (List Migration)
record_version m none = none
record_version m (some rows) =
    if any (λ r. r.version == m.version) rows then some rows else some (rows ++ m ∷ [])

module _ {S : Type 0} where
  abbrev pub with_row : Database S → S → Option (List Migration) → Option (Database S)
  with_row db schema none = none
  with_row db schema (some rows) =
      some (record db { schema = schema; schema_migrations = some rows })

  abbrev pub after_apply : Migration → Database S → Option S → Option (Database S)
  after_apply m db none = none
  after_apply m db (some schema) = with_row db schema (record_version m db.schema_migrations)

  -- After the transaction of a migration: the loop goes on, or the RuntimeError for its version.
  abbrev pub after_transaction :
      Migration
      → Database S
      → (Database S → Ended × Database S)
      → Option (Database S)
      → Ended × Database S
  after_transaction m db go_on none = (failed m.version, db)
  after_transaction m db go_on (some db') = go_on db'

module _ {S : Type 0} (apply : ℕ → S → Option S) where
  -- The transaction of one migration: the migration, then its row. none: it fails and is undone.
  unfoldable pub migrate_one : Migration → Database S → Option (Database S)
  migrate_one m db = after_apply m db (apply m.version db.schema)

  unfoldable pub apply_pending : List Migration → Database S → Ended × Database S
  unfolding migrate_one
  apply_pending [] db = (completed, db)
  apply_pending (m ∷ ms) db = after_transaction m db (apply_pending ms) (migrate_one m db)

  abbrev pub apply_if_any : List Migration → Database S → Ended × Database S
  apply_if_any [] db = (up_to_date, db)
  apply_if_any (m ∷ ms) db = apply_pending (m ∷ ms) db

  abbrev pub release_lock : Ended × Database S → Ended × Database S
  release_lock (e, db) = (e, record db { locked = false })

  -- `run_migrations`, once it has the lock: the `finally` gives it back.
  unfoldable pub run_migrations : Database S → Ended × Database S
  unfolding get_current_schema_version apply_pending
  run_migrations db =
      let locked = record db { locked = true } in
      release_lock
        (apply_if_any (pending_migrations (get_current_schema_version locked) migrations) locked)
