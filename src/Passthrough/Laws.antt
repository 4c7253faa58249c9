-- ===== src/Passthrough/Laws.antt =====
-- What the two graphs of passthrough.py do, from their first node to their last.
use context_broker.Prelude.{
  ℕ, ◌≡◌, ◌∙◌, refl, ap, inl, inr, true, false, ◌&&◌, ◌⊎◌, Option, none, some, String,
  if◌then◌else◌, is_some, truthy, Bool-cases, subst,
}
use context_broker.Store.{Db, LockTable, Exception, Outcome, returned, raised, ◌>>=◌}
use context_broker.Locks.{
  stable_lock_id, is_held, hold, erase-hold, try_advisory_lock, advisory_unlock,
}
use context_broker.Assembly.Graph.{mark_assembled}
use context_broker.Passthrough.Assembly.{
  Failure, caught, escaping, PassthroughExternal, PassthroughState, lock_id_of, pt_after_try,
  pt_acquire_lock, finalize_window, pt_finalize, unlock_by, pt_release_lock, pt_after_lock,
  invoke_passthrough, pt_initial, finalize_failed,
}

-- A number that is written as a text is read back, and its text is not empty.
pub record ReadsInts (ext : PassthroughExternal) : Type 0 where
  pub read-show : (n : ℕ) → ext.read_int (ext.show_int n) ≡ some n
  pub show_truthy : (n : ℕ) → truthy (ext.show_int n) ≡ true

module _ (ext : PassthroughExternal) where
  release_lem :
      (laws : ReadsInts ext) (s : PassthroughState) (key : ℕ) (others : LockTable) (db : Db)
      → ext.unlock_fails ≡ false
      → s.lock_key ≡ ext.show_int key
      → s.lock_acquired ≡ true
      → pt_release_lock ext s (record db { locks = hold key others })
        ≡ (returned s, record db { locks = others })
  unfolding pt_release_lock unlock_by advisory_unlock
  release_lem laws s key others db ok k a = rw k (
      rw a (
        rw (laws.show_truthy key)
          (rw (laws.read-show key) (rw ok (rw (erase-hold key others) refl)))))

  -- The end of a run that got the lock, from the database with it; `before` is the one without.
  abbrev finished :
      Option Failure → Option ℕ → PassthroughState → ℕ → Db → Outcome PassthroughState × Db
  finished failure none s key before = (returned (finalize_failed ext ext.bad_uuid s), before)
  finished none (some id) s key before = (returned s, mark_assembled id before)
  finished (some (caught exc)) (some id) s key before =
      (returned (finalize_failed ext exc s), before)
  finished (some (escaping e)) (some id) s key before =
      (raised e, record before { locks = hold key before.locks })

  finalize_release :
      (laws : ReadsInts ext) (failure : Option Failure) (o : Option ℕ) (s : PassthroughState)
      (key : ℕ) (db : Db)
      → ext.unlock_fails ≡ false
      → s.lock_key ≡ ext.show_int key
      → s.lock_acquired ≡ true
      → (finalize_window ext failure o s >>= pt_release_lock ext)
          (record db { locks = hold key db.locks })
        ≡ finished failure o s key db
  unfolding finalize_window
  finalize_release laws failure none s key db ok k a =
      release_lem laws (finalize_failed ext ext.bad_uuid s) key db.locks db ok k a
  finalize_release laws none (some id) s key db ok k a =
      release_lem laws s key db.locks (mark_assembled id db) ok k a
  finalize_release laws (some (caught exc)) (some id) s key db ok k a =
      release_lem laws (finalize_failed ext exc s) key db.locks db ok k a
  finalize_release laws (some (escaping e)) (some id) s key db ok k a = refl

  -- What the first node comes to.
  abbrev Acquires : PassthroughState → Db → Outcome PassthroughState × Db → Type 0
  Acquires s db r =
      ((t : PassthroughState) × (r ≡ (returned t, db)) × (t.lock_acquired ≡ false))
      ⊎ ((t : PassthroughState) × (r
            ≡ (returned t, record db { locks = hold (lock_id_of ext s) db.locks }))
          × (t.lock_key ≡ ext.show_int (lock_id_of ext s))
          × (t.lock_acquired ≡ true)
          × (t.context_window_id ≡ s.context_window_id)
          × (t.error ≡ s.error))

  try-Acquires :
      (s : PassthroughState) (db : Db)
      → Acquires s db (pt_after_try ext s (try_advisory_lock (lock_id_of ext s) db))
  unfolding pt_after_try try_advisory_lock
  try-Acquires s db = elim (Bool-cases (is_held (lock_id_of ext s) db.locks)) [
    | inl held ↦ rw held (inl (_, refl, refl))
    | inr free ↦ rw free (inr (_, refl, refl, refl, refl, refl))
  ]

  acquire-Acquires : (s : PassthroughState) (db : Db) → Acquires s db (pt_acquire_lock ext s db)
  unfolding pt_acquire_lock
  acquire-Acquires s db =
      elim (Bool-cases (
        is_some (ext.parse_uuid s.context_window_id)
        && is_some (ext.parse_uuid s.conversation_id))) [
          | inl ids ↦ rw ids (try-Acquires s db)
          | inr no_ids ↦ rw no_ids (inl (_, refl, refl))
        ]

  -- A run after its first node.
  abbrev go_on : Outcome PassthroughState × Db → Outcome PassthroughState × Db
  go_on r = elim r.0 [ returned s ↦ pt_after_lock ext s r.1 | raised e ↦ (raised e, r.1) ]

  -- The ends of a run with this key: nothing changed; the window is marked; or the UPDATE raised an
  -- exception that is not caught, and the locks are as the request left them.
  abbrev pub Ends : ℕ → String → Db → Outcome PassthroughState × Db → Type 0
  Ends key window_id db r =
      ((t : PassthroughState) × (r ≡ (returned t, db)))
      ⊎ (((t : PassthroughState) × (id : ℕ) × (ext.parse_uuid window_id ≡ some id)
            × (t.error ≡ none)
            × (r ≡ (returned t, mark_assembled id db)))
          ⊎ ((e : Exception) × (ext.finalize_failure ≡ some (escaping e))
              × (r ≡ (raised e, record db { locks = hold key db.locks }))))

  finished-Ends :
      (failure : Option Failure) (o : Option ℕ) (s : PassthroughState) (key : ℕ) (db : Db)
      (r : Outcome PassthroughState × Db)
      → ext.finalize_failure ≡ failure
      → ext.parse_uuid s.context_window_id ≡ o
      → s.error ≡ none
      → r ≡ finished failure o s key db
      → Ends key s.context_window_id db r
  finished-Ends failure none s key db r f id ok e = inl (_, e)
  finished-Ends none (some n) s key db r f id ok e = inr (inl (s, n, id, ok, e))
  finished-Ends (some (caught exc)) (some n) s key db r f id ok e = inl (_, e)
  finished-Ends (some (escaping x)) (some n) s key db r f id ok e = inr (inr (x, f, e))

  locked_run :
      (t : PassthroughState) (db : Db)
      → t.lock_acquired ≡ true
      → pt_after_lock ext t db
        ≡ (finalize_window ext ext.finalize_failure (ext.parse_uuid t.context_window_id) t
              >>= pt_release_lock ext)
            db
  unfolding pt_after_lock pt_finalize
  locked_run t db acquired =
      ap
        (λ b.
          (if b
              then finalize_window ext ext.finalize_failure (ext.parse_uuid t.context_window_id) t
                >>= pt_release_lock ext
              else (λ d. (returned t, d)))
            db)
        acquired

  go_on-Ends :
      (s : PassthroughState) (db : Db) (r : Outcome PassthroughState × Db)
      → ReadsInts ext
      → ext.unlock_fails ≡ false
      → s.error ≡ none
      → Acquires s db r
      → Ends (lock_id_of ext s) s.context_window_id db (go_on r)
  unfolding pt_after_lock pt_finalize
  go_on-Ends s db r laws ok fresh (inl (t, e, refused)) = inl (t, rw e (rw refused refl))
  go_on-Ends s db r laws ok fresh (inr (t, e, key, acquired, same, clean)) =
      let n = lock_id_of ext s in
      let locked = record db { locks = hold n db.locks } in
      let o = ext.parse_uuid t.context_window_id in
      rw e (
        subst (λ id. Ends n id db (pt_after_lock ext t locked)) same
          (finished-Ends ext.finalize_failure o t n db _ refl refl (clean ∙ fresh) (
            locked_run t locked acquired
            ∙ finalize_release laws ext.finalize_failure o t n db ok key acquired)))

  -- A run of the assembly of passthrough.py, where an int is read back from its text and the release
  -- does not fail, ends in one of three ways: it returns and has changed nothing; it returns without
  -- an error and has marked the window as assembled, with the locks of before; or the UPDATE raises
  -- an exception that the code does not catch, and nothing has changed but the table of locks, which
  -- is as the request left it: that of before where the pool resets its sessions, and else the lock
  -- is left held.
  pub invoke_passthrough-Ends :
      (window_id conv_id : String) (db : Db)
      → ReadsInts ext
      → ext.unlock_fails ≡ false
      → Ends
          (stable_lock_id ext.digest window_id)
          window_id
          db
          (invoke_passthrough ext window_id conv_id db)
  invoke_passthrough-Ends window_id conv_id db laws ok =
      let s = pt_initial ext window_id conv_id in
      unfold invoke_passthrough in
      go_on-Ends s db (pt_acquire_lock ext s db) laws ok refl (acquire-Acquires s db)
