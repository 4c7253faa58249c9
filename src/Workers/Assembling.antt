-- ===== src/Workers/Assembling.antt =====
-- db_worker.py, `_assembly_worker`: the windows with messages that are newer than their assembly.
use context_broker.Prelude.{
  ℕ, Bool, true, false, ◌&&◌, Option, none, some, List, [], ◌∷◌, String, ◌==◌, ltb, leb, any, keep,
  sort_by,
}
use context_broker.Store.{Message, Window, Db, Flow}

-- cw.last_assembled_at IS NULL OR cm.created_at > cw.last_assembled_at
abbrev pub is_newer : Option ℕ → ℕ → Bool
is_newer none created = true
is_newer (some assembled) created = ltb assembled created

-- EXISTS (SELECT 1 FROM conversation_messages …)
abbrev pub is_stale : List Message → Window → Bool
is_stale messages w =
    any (λ m. m.conversation_id == w.conversation_id && is_newer w.last_assembled_at m.created_at)
      messages

-- ORDER BY cw.last_assembled_at ASC NULLS FIRST
abbrev pub assembled_before : Option ℕ → Option ℕ → Bool
assembled_before none b = true
assembled_before (some a) none = false
assembled_before (some a) (some b) = leb a b

abbrev pub older_assembly : Window → Window → Bool
older_assembly v w = assembled_before v.last_assembled_at w.last_assembled_at

unfoldable pub stale_windows : Db → List Window
stale_windows db = sort_by older_assembly (keep (is_stale db.messages) db.windows)

-- `_run_assembly` for a window, its conversation and its build type: what the graph raises ends the
-- task, and is passed over.
module _ (show_uuid : ℕ → String) (assemble : String → String → String → Flow (Unit {0})) where
  unfoldable pub run_assembly : Window → Db → Db
  run_assembly w db = (assemble w.build_type (show_uuid w.id) (show_uuid w.conversation_id) db).1

  -- The tasks, in the order in which they end.
  unfoldable pub run_assemblies : List Window → Db → Db
  unfolding run_assembly
  run_assemblies [] db = db
  run_assemblies (w ∷ ws) db = run_assemblies ws (run_assembly w db)

  -- One round of the loop, where the tasks run one after the other.
  unfoldable pub assembly_step : Db → Db
  unfolding run_assemblies stale_windows
  assembly_step db = run_assemblies (stale_windows db) db
