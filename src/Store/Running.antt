-- ===== src/Store/Running.antt =====
-- How a flow goes on after one that returned, and that it ends after one that raised.
use context_broker.Prelude.{◌≡◌, ap}
use context_broker.Store.{Db, Exception, Outcome, returned, raised, Flow, ◌>>=◌}

module _ {A B : Type 0} (m : Flow A) (k : A → Flow B) where
  abbrev go_on : Outcome A × Db → Outcome B × Db
  go_on r = elim r.0 [ returned x ↦ k x r.1 | raised e ↦ (raised e, r.1) ]

  pub bind_returned : (a : A) (db db' : Db) → m db ≡ (returned a, db') → (m >>= k) db ≡ k a db'
  bind_returned a db db' h = ap go_on h

  pub bind_raised :
      (e : Exception) (db db' : Db) → m db ≡ (raised e, db') → (m >>= k) db ≡ (raised e, db')
  bind_raised e db db' h = ap go_on h
