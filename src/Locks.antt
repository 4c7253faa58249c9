-- ===== src/Locks.antt =====
-- app/utils.py and the advisory locks of Postgres: the key of a lock, and the two statements on it.
-- The source runs both through the pool, on any of its sessions. Where the pool resets the sessions
-- that it takes back, a lock ends with the statement that took it; where it does not, a lock is
-- taken to be held until its release, whichever session runs it. A key that is held is refused.
use context_broker.Prelude.{
  ℕ, ◌%◌, ◌^◌, Bool, true, false, List, [], ◌∷◌, String, ◌==◌, if◌then◌else◌, any, ◌≡◌, arith,
}
use context_broker.Store.{Db, LockTable}

-- `digest` gives the first 8 bytes of the key's SHA-256, read as a big-endian number.
unfoldable pub stable_lock_id : (String → ℕ) → String → ℕ
stable_lock_id digest key = digest key % 2 ^ 63

abbrev pub is_held : ℕ → LockTable → Bool
is_held key locks = any (λ l. l == key) locks.keys

-- The table after a statement of the pool took the lock: the session goes back to the pool, which
-- frees the lock at once if it resets sessions.
abbrev pub hold : ℕ → LockTable → LockTable
hold key locks = if locks.pool_resets then locks else record locks { keys = key ∷ locks.keys }

abbrev erase_key : ℕ → List ℕ → List ℕ
erase_key key [] = []
erase_key key (l ∷ ls) = if l == key then ls else l ∷ erase_key key ls

-- A session that holds no lock gives none back.
abbrev pub erase : ℕ → LockTable → LockTable
erase key locks =
    if locks.pool_resets then locks else record locks { keys = erase_key key locks.keys }

-- `pool.fetchval("SELECT pg_try_advisory_lock($1)", …)`
unfoldable pub try_advisory_lock : ℕ → Db → Bool × Db
try_advisory_lock key db =
    if is_held key db.locks then (false, db) else (true, record db { locks = hold key db.locks })

-- `pool.execute("SELECT pg_advisory_unlock($1)", …)`
unfoldable pub advisory_unlock : ℕ → Db → Db
advisory_unlock key db = record db { locks = erase key db.locks }

pub erase-hold : (key : ℕ) (others : LockTable) → erase key (hold key others) ≡ others
erase-hold key others = ground arith
