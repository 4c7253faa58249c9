-- ===== src/Retrieval/Wait.antt =====
-- `ret_wait_for_assembly` and the lock of the window.
use context_broker.Prelude.{ℕ, zero, suc, ◌+◌, ◌≡◌, refl, true, false, [], ◌∷◌, ◌++◌, arith}
use context_broker.Floats.{Floats}
use context_broker.Store.{Db, Outcome, returned, raised}
use context_broker.Locks.{stable_lock_id, is_held, try_advisory_lock, advisory_unlock}
use context_broker.Retrieval.State.{RetrievalState, RetrievalExternal, ready, timeout}
use context_broker.Retrieval.Load.{wait_loop, after_poll, ret_wait_for_assembly}

-- The wait ended by its deadline, with a warning.
abbrev pub IsTimeout : {F : Type 0} → RetrievalState F → Outcome (RetrievalState F) → Type 0
IsTimeout s (returned t) =
    (t.assembly_status ≡ timeout)
    × (t.warnings
        ≡ s.warnings
          ++ "Context assembly was still in progress at retrieval time; context may be stale." ∷ [])
IsTimeout s (raised e) = ⊥

module _ (f : Floats) (ext : RetrievalExternal (f.Float)) where
  open f use {Float}

  abbrev key_of : RetrievalState Float → ℕ
  key_of s = stable_lock_id ext.digest s.context_window_id

  -- Other sessions never give the lock back.
  abbrev pub StaysHeld : ℕ → Type 0
  StaysHeld key =
      (i : ℕ) (d : Db) → is_held key d.locks ≡ true → is_held key (ext.meanwhile i d).locks ≡ true

  wait_loop-IsTimeout :
      (left i : ℕ) (s : RetrievalState Float) (db : Db)
      → ((n : ℕ) → ext.poll_fails n ≡ false)
      → StaysHeld (key_of s)
      → is_held (key_of s) db.locks ≡ true
      → IsTimeout s (wait_loop f ext left i s db).0
  unfolding wait_loop try_advisory_lock after_poll
  wait_loop-IsTimeout zero i s db fine stays held = (refl, refl)
  wait_loop-IsTimeout (suc left) i s db fine stays held =
      rw (fine i, held)
        (wait_loop-IsTimeout left (i + 1) s (ext.meanwhile i db) fine stays (stays i db held))

  -- While the window's lock is held and no request fails, the retrieval waits until its deadline,
  -- however often it polls, and goes on with the status of a timeout and one more warning.
  ret_wait_for_assembly-IsTimeout :
      (s : RetrievalState Float) (db : Db)
      → ext.pool_missing ≡ false
      → ((n : ℕ) → ext.poll_fails n ≡ false)
      → StaysHeld (stable_lock_id ext.digest s.context_window_id)
      → is_held (stable_lock_id ext.digest s.context_window_id) db.locks ≡ true
      → IsTimeout s (ret_wait_for_assembly f ext s db).0
  unfolding ret_wait_for_assembly
  ret_wait_for_assembly-IsTimeout s db pool fine stays held =
      rw pool (wait_loop-IsTimeout ext.polls 0 s db fine stays held)

  -- Where the window's lock is free and there is time for a poll, the retrieval goes on at once with
  -- the status ready, and its own use of the lock leaves the database as it was.
  ret_wait_for_assembly_ready :
      (s : RetrievalState Float) (db : Db) (left : ℕ)
      → ext.polls ≡ suc left
      → is_held (stable_lock_id ext.digest s.context_window_id) db.locks ≡ false
      → ret_wait_for_assembly f ext s db ≡ (returned (record s { assembly_status = ready }), db)
  unfolding ret_wait_for_assembly wait_loop after_poll try_advisory_lock advisory_unlock
  ret_wait_for_assembly_ready s db left some_time free = ground arith
