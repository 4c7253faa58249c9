-- ===== src/Tests/Upgrades.antt =====
-- Runs of the migrations on a schema that counts them.
use context_broker.Prelude.{
  ℕ, ◌+◌, ◌≡◌, refl, false, Option, none, some, List, [], ◌∷◌, ltb, if◌then◌else◌,
}
use context_broker.Migrations.{Migration, Database, failed, run_migrations}
use context_broker.Migrations.Resume.{IsRun, run_migrations-IsRun}

-- Migration 10 fails.
abbrev counting : ℕ → ℕ → Option ℕ
counting version schema = if ltb version 10 then some (schema + 1) else none

abbrev installed : List Migration
installed = record { version = 1; description = "Initial schema" } ∷ []

abbrev new : Database ℕ
new = record { schema = 0; schema_migrations = some installed; locked = false }

abbrev bare : Database ℕ
bare = record { schema = 0; schema_migrations = none; locked = false }

run_migrations-IsRun_example : IsRun counting installed new (run_migrations counting new)
run_migrations-IsRun_example = run_migrations-IsRun counting installed new refl

stops_at_ten : (run_migrations counting new).0 ≡ failed 10
unfolding run_migrations
stops_at_ten = refl
