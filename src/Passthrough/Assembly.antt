-- ===== src/Passthrough/Assembly.antt =====
-- passthrough.py, the assembly graph: the lock is taken, the window is marked, the lock is given back.
use context_broker.Prelude.{
  ℕ, Bool, true, false, ◌&&◌, Option, none, some, [], ◌∷◌, String, if◌then◌else◌, is_some, truthy,
  cat,
}
use context_broker.Store.{Db, Exception, Outcome, returned, raised, Flow, ◌>>=◌}
use context_broker.Locks.{stable_lock_id, try_advisory_lock, advisory_unlock}
use context_broker.Assembly.Graph.{mark_assembled}

-- A RuntimeError, OSError, ValueError or ConnectionError, by its text; or another exception, such as an
-- asyncpg.PostgresError, which the code does not catch.
pub data Failure : Type 0 where
  caught : String → Failure
  escaping : Exception → Failure

-- What lies outside: ids, SHA-256, the conversions between numbers and texts, and the errors that the
-- code catches.
pub record PassthroughExternal : Type 0 where
  pub parse_uuid : String → Option ℕ
  pub digest : String → ℕ
  -- `str(n)` and `int(text)`
  pub show_int : ℕ → String
  pub read_int : String → Option ℕ
  -- The exception of the UPDATE in `pt_finalize`, if it raises one.
  pub finalize_failure : Option Failure
  -- `str(exc)` of the ValueError of an id that is no UUID.
  pub bad_uuid : String
  -- Whether the statement of `pt_release_lock` raises.
  pub unlock_fails : Bool

pub record PassthroughState : Type 0 where
  pub context_window_id : String
  pub conversation_id : String
  pub lock_key : String
  pub lock_token : Option String
  pub lock_acquired : Bool
  pub assembly_start_time : Option ℕ
  pub error : Option String

module _ (ext : PassthroughExternal) where
  abbrev pub lock_id_of : PassthroughState → ℕ
  lock_id_of s = stable_lock_id ext.digest s.context_window_id

  unfoldable pub pt_after_try : PassthroughState → Bool × Db → Outcome PassthroughState × Db
  pt_after_try s (false, db) = (
    returned (record s {
      lock_key = ext.show_int (lock_id_of s);
      lock_token = none;
      lock_acquired = false;
    }),
    db,
  )
  pt_after_try s (true, db) = (
    returned (record s {
      lock_key = ext.show_int (lock_id_of s);
      lock_token = some "pg_advisory";
      lock_acquired = true;
      assembly_start_time = some db.clock;
    }),
    db,
  )

  unfoldable pub pt_acquire_lock : PassthroughState → Flow PassthroughState
  unfolding pt_after_try
  pt_acquire_lock s db =
      if is_some (ext.parse_uuid s.context_window_id) && is_some (ext.parse_uuid s.conversation_id)
      then pt_after_try s (try_advisory_lock (lock_id_of s) db)
      else (
        returned
            (record s { error = some "Invalid UUID in assembly input"; lock_acquired = false }),
        db,
      )

  abbrev pub finalize_failed : String → PassthroughState → PassthroughState
  finalize_failed exc s = record s {
    error = some (cat ("Passthrough finalize failed: " ∷ exc ∷ []));
  }

  unfoldable pub finalize_window :
      Option Failure → Option ℕ → PassthroughState → Flow PassthroughState
  finalize_window failure none s db = (returned (finalize_failed ext.bad_uuid s), db)
  finalize_window none (some id) s db = (returned s, mark_assembled id db)
  finalize_window (some (caught exc)) (some id) s db = (returned (finalize_failed exc s), db)
  finalize_window (some (escaping e)) (some id) s db = (raised e, db)

  unfoldable pub pt_finalize : PassthroughState → Flow PassthroughState
  unfolding finalize_window
  pt_finalize s = finalize_window ext.finalize_failure (ext.parse_uuid s.context_window_id) s

  -- A text that is no number, or an error of the statement, is caught.
  unfoldable pub unlock_by : Option ℕ → Db → Db
  unlock_by none db = db
  unlock_by (some id) db = if ext.unlock_fails then db else advisory_unlock id db

  unfoldable pub pt_release_lock : PassthroughState → Flow PassthroughState
  unfolding unlock_by
  pt_release_lock s db =
      if truthy s.lock_key && s.lock_acquired
      then (returned s, unlock_by (ext.read_int s.lock_key) db)
      else (returned s, db)

  -- The edges after the first node: both of the other nodes, or the end.
  unfoldable pub pt_after_lock : PassthroughState → Flow PassthroughState
  unfolding pt_finalize pt_release_lock
  pt_after_lock s =
      if s.lock_acquired
      then (do finalized ← pt_finalize s; pt_release_lock finalized)
      else (λ db. (returned s, db))

  abbrev pub pt_initial : String → String → PassthroughState
  pt_initial window_id conv_id = record {
    context_window_id = window_id;
    conversation_id = conv_id;
    lock_key = "";
    lock_token = none;
    lock_acquired = false;
    assembly_start_time = none;
    error = none;
  }

  -- `build_passthrough_assembly().ainvoke`
  unfoldable pub invoke_passthrough : String → String → Flow PassthroughState
  unfolding pt_acquire_lock pt_after_lock
  invoke_passthrough window_id conv_id = do
    s ← pt_acquire_lock (pt_initial window_id conv_id)
    pt_after_lock s
