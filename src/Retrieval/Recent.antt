-- ===== src/Retrieval/Recent.antt =====
-- `ret_load_recent_messages` and the two limits of the live messages.
use context_broker.Prelude.{
  ℕ, ◌+◌, ◌≤◌, ◌≡◌, refl, max, List, [], arith, reverse, reverse-reverse, subst,
}
use context_broker.Floats.{Floats}
use context_broker.Store.{Message, Db, Outcome, returned, raised, Flow, gets, or_value_error, ◌>>=◌}
use context_broker.Config.{get_tuning}
use context_broker.Assembly.Load.{nonzero}
use context_broker.Assembly.Partition.{fill_tier1, active_tier, max_to_seq}
use context_broker.Assembly.Live.{tokens, fill_tier1-IsSplit}
use context_broker.Retrieval.State.{RetrievalState, RetrievalExternal}
use context_broker.Retrieval.Load.{
  summary_tokens, live_ceiling, remaining_budget, with_recent_messages, load_rows, load_limited,
  load_after, load_for, ret_load_recent_messages,
}

pub fill_tier1-le : (limit : ℕ) (rows : List Message) → tokens (fill_tier1 limit 0 [] rows) ≤ limit
fill_tier1-le limit rows =
    let h = fill_tier1-IsSplit limit (reverse rows) in
    subst (λ l. tokens (fill_tier1 limit 0 [] l) ≤ limit) (reverse-reverse rows) h.1.1

module _ (f : Floats) (ext : RetrievalExternal (f.Float)) where
  open f use {Float}

  -- The node raised, or its live messages fit under the ceiling of tier 1, and together with the
  -- summaries into the budget, unless the summaries alone exceed it.
  abbrev pub IsRecent : RetrievalState Float → Outcome (RetrievalState Float) → Type 0
  IsRecent s (returned t) =
      (tokens t.recent_messages ≤ live_ceiling f ext s)
      × (t.total_tokens_used
          ≡ summary_tokens s.tier3_summary s.tier2_summaries + tokens t.recent_messages)
      × (t.total_tokens_used
          ≤ max s.max_token_budget (summary_tokens s.tier3_summary s.tier2_summaries))
  IsRecent s (raised e) = Unit

  with_recent_messages-IsRecent :
      (s : RetrievalState Float) (rows : List Message)
      → IsRecent s (returned (with_recent_messages f ext s rows))
  with_recent_messages-IsRecent s rows =
      let h = fill_tier1-le (remaining_budget f ext s) rows in
      (omega (arith, h), refl, omega (arith, h))

  -- A step that may raise, before the rest of the node.
  bind-IsRecent :
      {A : Type 0} (s : RetrievalState Float) (db : Db) (m : Flow A)
      (g : A → Flow (RetrievalState Float))
      → ((a : A) (d : Db) → IsRecent s (g a d).0)
      → IsRecent s ((m >>= g) db).0
  bind-IsRecent {A = A} s db m g h = after (m db)
    where
      after :
          (r : Outcome A × Db)
          → IsRecent s
              (elim r.0 as (λ _. Outcome (RetrievalState Float) × Db) [
                | returned a ↦ g a r.1
                | raised e ↦ (raised e, r.1)
              ]).0
      after (returned a, d) = h a d
      after (raised e, d) = tt

  load_rows-IsRecent :
      (s : RetrievalState Float) (highest n conversation : ℕ) (db : Db)
      → IsRecent s (load_rows f ext s highest n conversation db).0
  load_rows-IsRecent s highest n conversation db =
      unfold load_rows in with_recent_messages-IsRecent s _

  load_limited-IsRecent :
      (s : RetrievalState Float) (highest n : ℕ) (db : Db)
      → IsRecent s (load_limited f ext s highest n db).0
  load_limited-IsRecent s highest n db =
      unfold load_limited in
      bind-IsRecent s db (or_value_error (ext.parse_uuid s.conversation_id))
        (load_rows f ext s highest n) (load_rows-IsRecent s highest n)

  load_after-IsRecent :
      (s : RetrievalState Float) (highest : ℕ) (db : Db)
      → IsRecent s (load_after f ext s highest db).0
  load_after-IsRecent s highest db =
      unfold load_after in
      bind-IsRecent s db (nonzero (get_tuning s.config "tokens_per_message_estimate" 150))
        (load_limited f ext s highest) (load_limited-IsRecent s highest)

  load_for-IsRecent :
      (s : RetrievalState Float) (id : ℕ) (db : Db) → IsRecent s (load_for f ext s id db).0
  load_for-IsRecent s id db =
      unfold load_for in
      bind-IsRecent s db (gets (λ d. max_to_seq (active_tier id 2 d.summaries)))
        (load_after f ext s) (load_after-IsRecent s)

  -- Whatever the database holds, where `ret_load_recent_messages` returns, its live messages fit under
  -- the ceiling of tier 1, the reported tokens are those of the summaries and the live messages, and
  -- they are no more than the budget, or than the summaries alone.
  ret_load_recent_messages-IsRecent :
      (s : RetrievalState Float) (db : Db) → IsRecent s (ret_load_recent_messages f ext s db).0
  ret_load_recent_messages-IsRecent s db =
      unfold ret_load_recent_messages in
      bind-IsRecent s db (or_value_error (ext.parse_uuid s.context_window_id)) (load_for f ext s)
        (load_for-IsRecent s)
