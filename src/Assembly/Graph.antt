-- ===== src/Assembly/Graph.antt =====
-- standard_tiered.py, `build_standard_tiered_assembly`: the last two nodes, the routing functions and
-- the run of the graph. A run takes fuel, one unit a node; the longest way through has eight nodes.
use context_broker.Prelude.{
  ℕ, zero, suc, ◌&&◌, Option, none, some, String, ◌==◌, if◌then◌else◌, is_some, truthy, length,
  update_where,
}
use context_broker.Floats.{Floats}
use context_broker.Store.{Db, returned, raised, Flow, pure, modify, or_value_error, ◌>>=◌, ◌>>◌}
use context_broker.Locks.{advisory_unlock}
use context_broker.Config.{Config}
use context_broker.Assembly.State.{AssemblyState, External, initial}
use context_broker.Assembly.Load.{acquire_assembly_lock, load_window_config, load_messages, lock_of}
use context_broker.Assembly.Partition.{calculate_compaction_state}
use context_broker.Assembly.Compact.{compact_tier1}
use context_broker.Assembly.Archive.{run_full_compaction}

-- UPDATE context_windows SET last_assembled_at = NOW() WHERE id = $1
abbrev pub mark_assembled : ℕ → Db → Db
mark_assembled id db = record db {
  windows =
      update_where (λ w. w.id == id) (λ w. record w { last_assembled_at = some db.clock })
        db.windows;
}

pub data Node : Type 0 where
  acquiring : Node
  loading_config : Node
  loading_messages : Node
  calculating : Node
  compacting : Node
  archiving : Node
  finalizing : Node
  releasing : Node
  end : Node

module _ (f : Floats) (ext : External (f.Float)) where
  open f use {Float}

  unfoldable pub finalize_assembly : AssemblyState Float → Flow (AssemblyState Float)
  finalize_assembly s = if s.had_errors then pure s else (do
    id ← or_value_error (ext.parse_uuid s.context_window_id)
    modify (mark_assembled id)
    pure s)

  unfoldable pub release_assembly_lock : AssemblyState Float → Flow (AssemblyState Float)
  release_assembly_lock s db =
      if truthy s.lock_key && s.lock_acquired
      then (returned s, if ext.unlock_fails then db else advisory_unlock (lock_of f ext s) db)
      else (returned s, db)

  unfoldable pub route_after_lock : AssemblyState Float → Node
  route_after_lock s = if s.lock_acquired then loading_config else end

  unfoldable pub route_after_load_config : AssemblyState Float → Node
  route_after_load_config s = if is_some s.error then releasing else loading_messages

  unfoldable pub route_after_load_messages : AssemblyState Float → Node
  route_after_load_messages s =
      if is_some s.error
      then releasing
      else if length s.all_messages == 0
      then finalizing
      else calculating

  unfoldable pub route_after_compaction_state : AssemblyState Float → Node
  route_after_compaction_state s =
      if is_some s.error then releasing else if length s.chunks == 0 then archiving else compacting

  unfoldable pub route_after_compact_tier1 : AssemblyState Float → Node
  route_after_compact_tier1 s =
      if is_some s.error then releasing else if s.tier2_at_max then archiving else finalizing

  -- The edges of the graph.
  unfoldable pub next_node : Node → AssemblyState Float → Node
  unfolding route_after_lock route_after_load_config route_after_load_messages
      route_after_compaction_state route_after_compact_tier1
  next_node acquiring s = route_after_lock s
  next_node loading_config s = route_after_load_config s
  next_node loading_messages s = route_after_load_messages s
  next_node calculating s = route_after_compaction_state s
  next_node compacting s = route_after_compact_tier1 s
  next_node archiving s = finalizing
  next_node finalizing s = releasing
  next_node releasing s = end
  next_node end s = end

  -- The functions of the nodes.
  unfoldable pub run_node : Node → AssemblyState Float → Flow (AssemblyState Float)
  unfolding acquire_assembly_lock load_window_config load_messages calculate_compaction_state
      compact_tier1 run_full_compaction finalize_assembly release_assembly_lock
  run_node acquiring = acquire_assembly_lock f ext
  run_node loading_config = load_window_config f ext
  run_node loading_messages = load_messages f ext
  run_node calculating = calculate_compaction_state f ext
  run_node compacting = compact_tier1 f ext
  run_node archiving = run_full_compaction f ext
  run_node finalizing = finalize_assembly
  run_node releasing = release_assembly_lock
  run_node end = pure

  -- none: the fuel ran out. An exception of a node ends the run.
  unfoldable pub run : ℕ → Node → AssemblyState Float → Flow (Option (AssemblyState Float))
  unfolding run_node next_node
  run fuel end s db = (returned (some s), db)
  run zero node s db = (returned none, db)
  run (suc fuel) node s db = elim (run_node node s db).0 [
    | returned s' ↦ run fuel (next_node node s') s' (run_node node s db).1
    | raised e ↦ (raised e, (run_node node s db).1)
  ]

  -- `assembly_graph.ainvoke`
  unfoldable pub invoke_assembly :
      String → String → Config Float → Flow (Option (AssemblyState Float))
  unfolding run
  invoke_assembly window_id conv_id config = run 8 acquiring (initial window_id conv_id config)
