-- ===== src/Passthrough/References.antt =====
-- The assembly of passthrough.py and the foreign keys.
use context_broker.Prelude.{
  ℕ, ◌≡◌, ◌∙◌, refl, sym, subst, inl, inr, false, some, List, [], ◌∷◌, String, any, update_where,
  All-map, ◌==◌, arith,
}
use context_broker.Store.{Window, Summary, Db}
use context_broker.Assembly.Graph.{mark_assembled}
use context_broker.Conversations.Integrity.{IsReferential, is_window_of, All-update}
use context_broker.Conversations.References.{KeepsReferences}
use context_broker.Passthrough.Assembly.{PassthroughExternal, invoke_passthrough}
use context_broker.Passthrough.Laws.{ReadsInts, invoke_passthrough-Ends}
use context_broker.Locks.{hold, stable_lock_id}

any-mark :
    (id clock : ℕ) (s : Summary) (ws : List Window)
    → any
        (is_window_of s)
        (update_where (λ w. w.id == id) (λ w. record w { last_assembled_at = some clock }) ws)
      ≡ any (is_window_of s) ws
any-mark id clock s [] = refl
any-mark id clock s (w ∷ ws) = ground (arith, any-mark id clock s ws)

mark-IsReferential : (id : ℕ) (db : Db) → IsReferential db → IsReferential (mark_assembled id db)
mark-IsReferential id db h = record {
  messages = h.messages;
  windows = All-update _ (λ w. w.id == id) _ db.windows (λ w old. old) h.windows;
  summaries =
      All-map _ _ db.summaries (λ s old. any-mark id db.clock s db.windows ∙ old) h.summaries;
}

module _ (ext : PassthroughExternal) where
  -- For every window and conversation, whatever the UPDATE raises: a run leaves rows that refer to rows
  -- that are there.
  pub invoke_passthrough-KeepsReferences :
      (window_id conv_id : String)
      → ReadsInts ext
      → ext.unlock_fails ≡ false
      → KeepsReferences (invoke_passthrough ext window_id conv_id)
  invoke_passthrough-KeepsReferences window_id conv_id laws ok db h =
      elim (invoke_passthrough-Ends ext window_id conv_id db laws ok) [
        | inl (t, e) ↦ subst (λ r. IsReferential r.1) (sym e) h
        | inr (inl (t, id, read, clean, e)) ↦
            subst (λ r. IsReferential r.1) (sym e) (mark-IsReferential id db h)
        | inr (inr (x, f, e)) ↦
            let same : IsReferential
                (record db { locks = hold (stable_lock_id ext.digest window_id) db.locks }) =
              record { messages = h.messages; windows = h.windows; summaries = h.summaries } in
            subst (λ r. IsReferential r.1) (sym e) same
      ]
