-- ===== src/Assembly/Locking/Run.antt =====
-- The advisory lock along a run of the assembly graph: from the request to the release.
use context_broker.Prelude.{
  ℕ, zero, suc, ◌≤◌, ◌≡◌, ◌∙◌, refl, sym, ap, subst, ◌⊎◌, inl, inr, true, false, ◌&&◌, Option, none,
  some, [], ◌∷◌, String, arith, truthy, Bool-cases, cat, is_some,
}
use Prim.Native.String
use Prim.Native.String.append
use context_broker.Floats.{Floats}
use context_broker.Store.{Db, LockTable, Outcome, returned, raised}
use context_broker.Locks.{
  stable_lock_id, is_held, hold, erase-hold, try_advisory_lock, advisory_unlock,
}
use context_broker.Config.{Config}
use context_broker.Assembly.State.{AssemblyState, External, initial}
use context_broker.Assembly.Load.{acquire_assembly_lock, lock_of, request_lock}
use context_broker.Assembly.Graph.{
  Node, acquiring, loading_config, loading_messages, calculating, compacting, archiving, finalizing,
  releasing, end, release_assembly_lock, next_node, run_node, run, invoke_assembly,
}
use context_broker.Assembly.Locking.{KeepsLock, is_inner, node-KeepsLock}

-- The nodes left on the longest way to the end.
abbrev rank : Node → ℕ
rank acquiring = 8
rank loading_config = 7
rank loading_messages = 6
rank calculating = 5
rank compacting = 4
rank archiving = 3
rank finalizing = 2
rank releasing = 1
rank end = 0

-- How a run that took the lock ends: it ran to the end and left the locks of before, or a node raised
-- and the table of locks is as the request left it.
abbrev pub EndsFreed :
    {F : Type 0} → ℕ → LockTable → Outcome (Option (AssemblyState F)) × Db → Type 0
EndsFreed key others (returned (some t), db) = db.locks ≡ others
EndsFreed key others (returned none, db) = ⊥
EndsFreed key others (raised e, db) = db.locks ≡ hold key others

truthy-append : (s t : String) → truthy s ≡ true → truthy (String.◌++◌ s t) ≡ true
truthy-append String.[] t h = cc
truthy-append (String.◌∷◌ c s) t h = rw (append.cons c s t) refl

lock_key_truthy : (id : String) → truthy (cat ("assembly_in_progress:" ∷ id ∷ [])) ≡ true
lock_key_truthy id = truthy-append "assembly_in_progress:" _ refl

module _ (f : Floats) (ext : External (f.Float)) where
  open f use {Float}

  next_node-is_inner :
      (node : Node)
      → is_inner node ≡ true
      → (node ≡ releasing)
        ⊎ ((s : AssemblyState Float)
            → (is_inner (next_node f ext node s) ≡ true)
              × (suc (rank (next_node f ext node s)) ≤ rank node))
  unfolding next_node
  next_node-is_inner acquiring h = absurd (cc (h))
  next_node-is_inner loading_config h = inr (λ s. ground arith)
  next_node-is_inner loading_messages h = inr (λ s. ground arith)
  next_node-is_inner calculating h = inr (λ s. ground arith)
  next_node-is_inner compacting h = inr (λ s. ground arith)
  next_node-is_inner archiving h = inr (λ s. ground arith)
  next_node-is_inner finalizing h = inr (λ s. ground arith)
  next_node-is_inner releasing h = inl refl
  next_node-is_inner end h = absurd (cc (h))

  -- The run holds the lock of its window, besides those in `others`.
  abbrev Holds : LockTable → AssemblyState Float → Db → Type 0
  Holds others s db =
      (truthy s.lock_key ≡ true)
      × (s.lock_acquired ≡ true)
      × (db.locks ≡ hold (lock_of f ext s) others)

  -- A run after the function of a node.
  abbrev continue :
      ℕ → Node → Outcome (AssemblyState Float) × Db → Outcome (Option (AssemblyState Float)) × Db
  continue fuel node r = elim r.0 [
    | returned s' ↦ run f ext fuel (next_node f ext node s') s' r.1
    | raised e ↦ (raised e, r.1)
  ]

  run_step :
      (fuel : ℕ) (node : Node) (s : AssemblyState Float) (db : Db)
      → is_inner node ≡ true
      → run f ext (suc fuel) node s db ≡ continue fuel node (run_node f ext node s db)
  unfolding run
  run_step fuel acquiring s db h = refl
  run_step fuel loading_config s db h = refl
  run_step fuel loading_messages s db h = refl
  run_step fuel calculating s db h = refl
  run_step fuel compacting s db h = refl
  run_step fuel archiving s db h = refl
  run_step fuel finalizing s db h = refl
  run_step fuel releasing s db h = refl
  run_step fuel end s db h = absurd (cc (h))

  continue-EndsFreed :
      (fuel : ℕ) (node : Node) (others : LockTable) (s : AssemblyState Float) (db : Db)
      (r : Outcome (AssemblyState Float) × Db)
      → Holds others s db
      → KeepsLock s db r
      → ((t : AssemblyState Float) (db' : Db)
          → Holds others t db'
          → EndsFreed (lock_of f ext t) others (run f ext fuel (next_node f ext node t) t db'))
      → EndsFreed (lock_of f ext s) others (continue fuel node r)
  continue-EndsFreed fuel node others s db (returned t, db') h (locks, same) ih =
      let key : lock_of f ext t ≡ lock_of f ext s = ap (stable_lock_id ext.digest) same.2 in
      let held : Holds others t db' =
        (rw same.0 h.0, same.1 ∙ h.1, locks ∙ h.2 ∙ ap (λ k. hold k others) (sym key)) in
      subst (λ k. EndsFreed k others (run f ext fuel (next_node f ext node t) t db')) key
        (ih t db' held)
  continue-EndsFreed fuel node others s db (raised e, db') h (locks, same) ih = locks ∙ h.2

  release-EndsFreed :
      (fuel : ℕ) (others : LockTable) (s : AssemblyState Float) (db : Db)
      → ext.unlock_fails ≡ false
      → Holds others s db
      → EndsFreed (lock_of f ext s) others (continue fuel releasing (run_node f ext releasing s db))
  unfolding run_node release_assembly_lock next_node run advisory_unlock
  release-EndsFreed fuel others s db ok h =
      rw h.0 (rw h.1 (rw ok (rw h.2 (erase-hold (lock_of f ext s) others))))

  rank_pos : (node : Node) → is_inner node ≡ true → 1 ≤ rank node
  rank_pos acquiring h = ground arith
  rank_pos loading_config h = ground arith
  rank_pos loading_messages h = ground arith
  rank_pos calculating h = ground arith
  rank_pos compacting h = ground arith
  rank_pos archiving h = ground arith
  rank_pos finalizing h = ground arith
  rank_pos releasing h = ground arith
  rank_pos end h = absurd (cc (h))

  -- A node's step, where runs from later nodes with `fuel` end well.
  step-EndsFreed :
      (fuel : ℕ) (node : Node) (others : LockTable) (s : AssemblyState Float) (db : Db)
      → ext.unlock_fails ≡ false
      → rank node ≤ suc fuel
      → Holds others s db
      → ((next : Node) (t : AssemblyState Float) (db' : Db)
          → is_inner next ≡ true
          → rank next ≤ fuel
          → Holds others t db'
          → EndsFreed (lock_of f ext t) others (run f ext fuel next t db'))
      → (node ≡ releasing) ⊎ KeepsLock s db (run_node f ext node s db)
      → (node ≡ releasing)
        ⊎ ((t : AssemblyState Float)
            → (is_inner (next_node f ext node t) ≡ true)
              × (suc (rank (next_node f ext node t)) ≤ rank node))
      → EndsFreed (lock_of f ext s) others (continue fuel node (run_node f ext node s db))
  step-EndsFreed fuel node others s db ok enough h ih (inl e) next =
      rw e (release-EndsFreed fuel others s db ok h)
  step-EndsFreed fuel node others s db ok enough h ih (inr keeps) (inl e) =
      rw e (release-EndsFreed fuel others s db ok h)
  step-EndsFreed fuel node others s db ok enough h ih (inr keeps) (inr next) =
      continue-EndsFreed fuel node others s db (run_node f ext node s db) h keeps (λ t db' held.
        ih (next_node f ext node t) t db' (next t).0 (omega (arith, (next t).1, enough)) held)

  inner-EndsFreed :
      (fuel : ℕ) (node : Node) (others : LockTable) (s : AssemblyState Float) (db : Db)
      → ext.unlock_fails ≡ false
      → is_inner node ≡ true
      → rank node ≤ fuel
      → Holds others s db
      → EndsFreed (lock_of f ext s) others (run f ext fuel node s db)
  inner-EndsFreed zero node others s db ok inner enough h =
      absurd (omega (arith, rank_pos node inner, enough))
  inner-EndsFreed (suc fuel) node others s db ok inner enough h =
      rw (run_step fuel node s db inner) (
        step-EndsFreed fuel node others s db ok enough h
          (λ next t db' i e held. inner-EndsFreed fuel next others t db' ok i e held)
          (node-KeepsLock f ext node s db inner) (next_node-is_inner node inner))

  -- What the first node comes to: the lock is not there to be had, or the run holds it now.
  abbrev Acquires : AssemblyState Float → Db → Outcome (AssemblyState Float) × Db → Type 0
  Acquires s db r =
      ((t : AssemblyState Float) × (r ≡ (returned t, db)) × (t.lock_acquired ≡ false))
      ⊎ ((t : AssemblyState Float) × (db' : Db) × (r ≡ (returned t, db'))
          × Holds db.locks t db'
          × (t.context_window_id ≡ s.context_window_id)
          × (is_held (lock_of f ext s) db.locks ≡ false))

  request_lock-Acquires :
      (s : AssemblyState Float) (db : Db) (failure : Option String)
      → Acquires s db (request_lock f ext failure s db)
  unfolding request_lock try_advisory_lock
  request_lock-Acquires s db (some exc) = inl (_, refl, refl)
  request_lock-Acquires s db none = elim (Bool-cases (is_held (lock_of f ext s) db.locks)) [
    | inl held ↦ rw held (inl (_, refl, refl))
    | inr free ↦
        rw free (inr (_, _, refl, (lock_key_truthy s.context_window_id, refl, refl), refl, refl))
  ]

  acquire-Acquires :
      (s : AssemblyState Float) (db : Db) → Acquires s db (acquire_assembly_lock f ext s db)
  unfolding acquire_assembly_lock
  acquire-Acquires s db =
      elim (Bool-cases (
        is_some (ext.parse_uuid s.context_window_id)
        && is_some (ext.parse_uuid s.conversation_id))) [
          | inl ids ↦ rw ids (request_lock-Acquires s db ext.lock_failure)
          | inr no_ids ↦ rw no_ids (inl (_, refl, refl))
        ]

  route_locked :
      (t : AssemblyState Float)
      → t.lock_acquired ≡ true
      → next_node f ext acquiring t ≡ loading_config
  unfolding next_node
  route_locked t locked = rw locked refl

  route_unlocked :
      (t : AssemblyState Float) → t.lock_acquired ≡ false → next_node f ext acquiring t ≡ end
  unfolding next_node
  route_unlocked t unlocked = rw unlocked refl

  acquired-EndsFreed :
      (s : AssemblyState Float) (db : Db) (r : Outcome (AssemblyState Float) × Db)
      → ext.unlock_fails ≡ false
      → Acquires s db r
      → EndsFreed (lock_of f ext s) db.locks (continue 7 acquiring r)
  unfolding run
  acquired-EndsFreed s db r ok (inl (t, e, unlocked)) = rw e (rw (route_unlocked t unlocked) refl)
  acquired-EndsFreed s db r ok (inr (t, db', e, held, same, free)) = rw e (
      rw (route_locked t held.1) (
        subst
          (λ id.
            EndsFreed (stable_lock_id ext.digest id) db.locks (run f ext 7 loading_config t db'))
          same (inner-EndsFreed 7 loading_config db.locks t db' ok refl (omega arith) held)))

  acquired-excluded :
      (s : AssemblyState Float) (db : Db) (r : Outcome (AssemblyState Float) × Db)
      → is_held (lock_of f ext s) db.locks ≡ true
      → Acquires s db r
      → (t : AssemblyState Float) × (continue 7 acquiring r ≡ (returned (some t), db))
        × (t.lock_acquired ≡ false)
  unfolding run
  acquired-excluded s db r held (inl (t, e, unlocked)) =
      (t, rw e (rw (route_unlocked t unlocked) refl), unlocked)
  acquired-excluded s db r held (inr (t, db', e, h, same, free)) = absurd (cc (held, free))

  -- A run of the assembly graph ends within its fuel, whatever the database, the LLM, the prompts and
  -- the configuration hold, if the release of a lock does not fail: it returns a state, and the locks
  -- are those of before; or a node raises, and the locks are those of before where the pool resets
  -- its sessions, and else those and the window's.
  pub invoke_assembly-EndsFreed :
      (window_id conv_id : String) (config : Config Float) (db : Db)
      → ext.unlock_fails ≡ false
      → EndsFreed
          (stable_lock_id ext.digest window_id)
          db.locks
          (invoke_assembly f ext window_id conv_id config db)
  invoke_assembly-EndsFreed window_id conv_id config db ok =
      let s = initial window_id conv_id config in
      unfold invoke_assembly in
      (unfold run in
        (acquired-EndsFreed s db (acquire_assembly_lock f ext s db) ok (acquire-Acquires s db)))

  -- While the window's lock is held, a run of its assembly changes nothing in the database and
  -- returns a state without the lock.
  pub invoke_assembly-excluded :
      (window_id conv_id : String) (config : Config Float) (db : Db)
      → is_held (stable_lock_id ext.digest window_id) db.locks ≡ true
      → (t : AssemblyState Float) × (invoke_assembly f ext window_id conv_id config db
          ≡ (returned (some t), db))
        × (t.lock_acquired ≡ false)
  invoke_assembly-excluded window_id conv_id config db held =
      let s = initial window_id conv_id config in
      unfold invoke_assembly in
      (unfold run in
        (acquired-excluded s db (acquire_assembly_lock f ext s db) held (acquire-Acquires s db)))
