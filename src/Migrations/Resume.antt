-- ===== src/Migrations/Resume.antt =====
-- What a run of the migrations leaves to the next one.
use context_broker.Prelude.{
  ℕ, ◌≤◌, ◌<◌, ◌≡◌, ◌∙◌, refl, ap, sym, subst, inl, inr, max, true, false, Option, none, some, List,
  [], ◌∷◌, ◌++◌, ltb, ◌==◌, lt→ltb, ltb→lt, keep-All, any, All, append-nil, append_assoc, arith,
  Bool-cases, Option-cases,
}
use context_broker.Migrations.{
  Migration, migrations, Database, Ended, up_to_date, completed, failed, max_version,
  get_current_schema_version, pending_migrations, migrate_one, apply_pending, after_transaction,
  apply_if_any, release_lock, run_migrations,
}

-- The versions rise, from above a number on.
abbrev AscendingFrom : ℕ → List Migration → Type 0
AscendingFrom v [] = Unit
AscendingFrom v (m ∷ ms) = (v < m.version) × AscendingFrom m.version ms

migrations-ascending : AscendingFrom 0 migrations
migrations-ascending = omega arith

AscendingFrom-All :
    (v w : ℕ) (ms : List Migration)
    → w ≤ v
    → AscendingFrom v ms
    → All (λ m. ltb w m.version ≡ true) ms
AscendingFrom-All v w [] h a = tt
AscendingFrom-All v w (m ∷ ms) h a =
    (lt→ltb w m.version (omega arith), AscendingFrom-All m.version w ms (omega arith) a.1)

AscendingFrom-pending_migrations :
    (v w : ℕ) (ms : List Migration) → AscendingFrom v ms → AscendingFrom w (pending_migrations w ms)
AscendingFrom-pending_migrations v w [] a = tt
AscendingFrom-pending_migrations v w (m ∷ ms) a = elim (Bool-cases (ltb w m.version)) [
  | inr old ↦ rw old (AscendingFrom-pending_migrations m.version w ms a.1)
  | inl new ↦ rw new (
    ltb→lt w m.version new,
    subst (AscendingFrom m.version)
        (sym (
          keep-All (λ x. ltb w x.version) ms
            (AscendingFrom-All m.version w ms (omega (arith, ltb→lt w m.version new)) a.1)))
        a.1,
  )
]

pending_migrations-twice :
    (v w : ℕ) (ms : List Migration)
    → v ≤ w
    → pending_migrations w (pending_migrations v ms) ≡ pending_migrations w ms
pending_migrations-twice v w [] h = refl
pending_migrations-twice v w (m ∷ ms) h = ground (arith, pending_migrations-twice v w ms h)

max_version-append :
    (xs ys : List Migration) → max_version (xs ++ ys) ≡ max (max_version xs) (max_version ys)
max_version-append [] ys = omega arith
max_version-append (x ∷ xs) ys = omega (arith, max_version-append xs ys)

not_recorded :
    (m : Migration) (rows : List Migration)
    → max_version rows < m.version
    → any (λ r. r.version == m.version) rows ≡ false
not_recorded m [] h = refl
not_recorded m (r ∷ rows) h = ground (arith, not_recorded m rows)

abbrev pub and_then : {S : Type 0} → (S → Option S) → Option S → Option S
and_then f none = none
and_then f (some s) = f s

module _ {S : Type 0} (apply : ℕ → S → Option S) where
  -- The schema after these migrations, one after the other.
  abbrev pub apply_all : List Migration → S → Option S
  apply_all [] schema = some schema
  apply_all (m ∷ ms) schema = and_then (apply_all ms) (apply m.version schema)

  -- How the run ended, where these migrations are left: none, or a first one that fails.
  abbrev pub LeftBy : Ended → List Migration → S → Type 0
  LeftBy (failed v) (m ∷ rest) schema = (v ≡ m.version) × (apply v schema ≡ none)
  LeftBy (failed v) [] schema = ⊥
  LeftBy completed [] schema = Unit
  LeftBy completed (m ∷ rest) schema = ⊥
  LeftBy up_to_date [] schema = Unit
  LeftBy up_to_date (m ∷ rest) schema = ⊥

  abbrev IsSplit : List Migration → List Migration → S → Ended × Database S → Type 0
  IsSplit ms rows schema (e, t) =
      (done rest : List Migration) × (ms ≡ done ++ rest)
      × (t.schema_migrations ≡ some (rows ++ done))
      × (apply_all done schema ≡ some t.schema)
      × (pending_migrations (max_version (rows ++ done)) ms ≡ rest)
      × LeftBy e rest t.schema

  migrate_one_fails :
      (m : Migration) (db : Database S)
      → apply m.version db.schema ≡ none
      → migrate_one apply m db ≡ none
  unfolding migrate_one
  migrate_one_fails m db h = rw h refl

  migrate_one_works :
      (m : Migration) (rows : List Migration) (db : Database S) (schema : S)
      → db.schema_migrations ≡ some rows
      → max_version rows < m.version
      → apply m.version db.schema ≡ some schema
      → migrate_one apply m db
        ≡ some (record db { schema = schema; schema_migrations = some (rows ++ m ∷ []) })
  unfolding migrate_one
  migrate_one_works m rows db schema table new h = rw (h, table) (rw (not_recorded m rows new) refl)

  apply_pending-IsSplit :
      (ms rows : List Migration) (db : Database S)
      → db.schema_migrations ≡ some rows
      → AscendingFrom (max_version rows) ms
      → IsSplit ms rows db.schema (apply_pending apply ms db)
  unfolding apply_pending
  apply_pending-IsSplit [] rows db table a =
      ([], [], refl, table ∙ ap some (sym (append-nil rows)), refl, refl, tt)
  apply_pending-IsSplit (m ∷ ms) rows db table a = elim (Option-cases (apply m.version db.schema)) [
    | inl fails ↦ rw (migrate_one_fails m db fails) (
      [],
      m ∷ ms,
      refl,
      table ∙ ap some (sym (append-nil rows)),
      refl,
      ap (λ l. pending_migrations (max_version l) (m ∷ ms)) (append-nil rows)
          ∙ keep-All (λ x. ltb (max_version rows) x.version) (m ∷ ms)
              (AscendingFrom-All (max_version rows) (max_version rows) (m ∷ ms) (omega arith) a),
      (refl, fails),
    )
    | inr (schema, works) ↦
        let longer : List Migration = rows ++ m ∷ [] in
        let last : m.version ≡ max_version longer =
          omega (arith, a.0, max_version-append rows (m ∷ [])) in
        let db' : Database S = record db { schema = schema; schema_migrations = some longer } in
        let (done, rest, e, table', all, left, ends) =
          apply_pending-IsSplit ms longer db' refl (subst (λ v. AscendingFrom v ms) last a.1) in
        let same = append_assoc rows (m ∷ []) done in
        let old : ltb (max_version (rows ++ m ∷ done)) m.version ≡ false =
          ground (arith, max_version-append rows (m ∷ done)) in
        rw (migrate_one_works m rows db schema table a.0 works) (
          m ∷ done,
          rest,
          ap (λ l. m ∷ l) e,
          table' ∙ ap some same,
          rw works all,
          rw old (ap (λ l. pending_migrations (max_version l) ms) (sym same) ∙ left),
          ends,
        )
  ]

  -- What a run leaves, from a table with these rows: it recorded a first part of the pending migrations
  -- and changed the schema by exactly these; the rest is what the next run finds pending: nothing, or
  -- first the migration whose version the RuntimeError names, which fails on the schema as it is. The
  -- lock is given back.
  abbrev pub IsRun : List Migration → Database S → Ended × Database S → Type 0
  IsRun rows db (e, t) =
      (done rest : List Migration) × (pending_migrations (get_current_schema_version db) migrations
        ≡ done ++ rest)
      × (t.schema_migrations ≡ some (rows ++ done))
      × (apply_all done db.schema ≡ some t.schema)
      × (pending_migrations (get_current_schema_version t) migrations ≡ rest)
      × LeftBy e rest t.schema
      × (t.locked ≡ false)

  current-eq :
      (rows : List Migration) (db : Database S)
      → db.schema_migrations ≡ some rows
      → get_current_schema_version db ≡ max_version rows
  unfolding get_current_schema_version
  current-eq rows db table = rw table refl

  apply_if_any-IsSplit :
      (ms rows : List Migration) (db : Database S)
      → db.schema_migrations ≡ some rows
      → AscendingFrom (max_version rows) ms
      → IsSplit ms rows db.schema (apply_if_any apply ms db)
  apply_if_any-IsSplit [] rows db table a =
      ([], [], refl, table ∙ ap some (sym (append-nil rows)), refl, refl, tt)
  apply_if_any-IsSplit (m ∷ ms) rows db table a = apply_pending-IsSplit (m ∷ ms) rows db table a

  unlocked-IsRun :
      (rows : List Migration) (db : Database S) (r : Ended × Database S)
      → db.schema_migrations ≡ some rows
      → IsSplit (pending_migrations (max_version rows) migrations) rows db.schema r
      → IsRun rows db (release_lock apply r)
  unlocked-IsRun rows db (e, t) table (done, rest, split, table', all, left, ends) =
      let older : max_version rows ≤ max_version (rows ++ done) =
        omega (arith, max_version-append rows done) in
      (
        done,
        rest,
        ap (λ v. pending_migrations v migrations) (current-eq rows db table) ∙ split,
        table',
        all,
        ap (λ v. pending_migrations v migrations)
              (current-eq (rows ++ done) (record t { locked = false }) table')
            ∙ sym (
                pending_migrations-twice (max_version rows) (max_version (rows ++ done)) migrations
                  older)
            ∙ left,
        ends,
        refl,
      )

  -- Whatever rows the table of versions has and whichever migrations fail: a run records a first part
  -- of the pending migrations and changes the schema by exactly these, in order; the rest is what the
  -- next run finds pending, which is nothing, or first the migration that the RuntimeError names and
  -- that fails on the schema as it is; and the lock is given back.
  pub run_migrations-IsRun :
      (rows : List Migration) (db : Database S)
      → db.schema_migrations ≡ some rows
      → IsRun rows db (run_migrations apply db)
  unfolding run_migrations
  run_migrations-IsRun rows db table =
      let locked : Database S = record db { locked = true } in
      let v = max_version rows in
      subst
        (λ n.
          IsRun rows db
            (release_lock apply (apply_if_any apply (pending_migrations n migrations) locked)))
        (sym (current-eq rows locked table))
        (unlocked-IsRun rows locked (apply_if_any apply (pending_migrations v migrations) locked)
          table
          (apply_if_any-IsSplit (pending_migrations v migrations) rows locked table
            (AscendingFrom-pending_migrations 0 v migrations migrations-ascending)))

  current_none : (db : Database S) → db.schema_migrations ≡ none → get_current_schema_version db ≡ 0
  unfolding get_current_schema_version
  current_none db table = rw table refl

  migrate_one_unrecorded :
      (m : Migration) (db : Database S)
      → db.schema_migrations ≡ none
      → migrate_one apply m db ≡ none
  unfolding migrate_one
  migrate_one_unrecorded m db table = elim (Option-cases (apply m.version db.schema)) [
    | inl fails ↦ rw fails refl
    | inr (schema, works) ↦ rw (works, table) refl
  ]

  abbrev first_fails : List Migration → Database S → Ended × Database S
  first_fails [] db = (up_to_date, db)
  first_fails (m ∷ ms) db = (failed m.version, db)

  apply_if_any_unrecorded :
      (ms : List Migration) (db : Database S)
      → db.schema_migrations ≡ none
      → apply_if_any apply ms db ≡ first_fails ms db
  unfolding apply_pending
  apply_if_any_unrecorded [] db table = refl
  apply_if_any_unrecorded (m ∷ ms) db table =
      ap (after_transaction m db (apply_pending apply ms)) (migrate_one_unrecorded m db table)

  -- Without the table of versions, no run gets past migration 1, which only records itself: it fails
  -- for it, whatever it does to the schema, and leaves the schema and the table as they are.
  run_migrations_fresh :
      (db : Database S)
      → db.schema_migrations ≡ none
      → run_migrations apply db ≡ (failed 1, record db { locked = false })
  unfolding run_migrations
  run_migrations_fresh db table =
      let locked : Database S = record db { locked = true } in
      let all : pending_migrations 0 migrations ≡ migrations =
        keep-All (λ m. ltb 0 m.version) migrations
          (AscendingFrom-All 0 0 migrations (omega arith) migrations-ascending) in
      ap (λ n. release_lock apply (apply_if_any apply (pending_migrations n migrations) locked))
        (current_none locked table)
      ∙ ap (λ ms. release_lock apply (apply_if_any apply ms locked)) all
      ∙ ap (release_lock apply) (apply_if_any_unrecorded migrations locked table)
