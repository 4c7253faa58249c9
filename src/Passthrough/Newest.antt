-- ===== src/Passthrough/Newest.antt =====
-- The messages that the retrieval of passthrough.py gives.
use context_broker.Prelude.{
  ℕ, ◌≡◌, refl, Option, some, List, [], String, map, reverse, reverse-reverse, subst,
}
use context_broker.Floats.{Floats}
use context_broker.Store.{Message, Db, returned}
use context_broker.Store.Query.{fetch_recent}
use context_broker.Assembly.Partition.{fill_tier1}
use context_broker.Assembly.Live.{tokens, IsSplit, fill_tier1-IsSplit}
use context_broker.Passthrough.Retrieval.{
  PassthroughRetrieval, passthrough_message, pt_with_rows, max_messages, pt_load_recent,
}

module _ (f : Floats) (parse_uuid : String → Option ℕ) (show_uuid : ℕ → String) where
  open f use {Float}

  -- The state has the newest of `rows` in their order, as many as fit into the budget.
  abbrev pub IsNewest :
      PassthroughRetrieval Float → List Message → PassthroughRetrieval Float → Type 0
  IsNewest s rows t =
      (older recent : List Message) × IsSplit s.max_token_budget rows older recent
      × (t.recent_messages ≡ some recent)
      × (t.context_messages ≡ some (map passthrough_message recent))
      × (t.total_tokens_used ≡ tokens recent)

  with_rows-IsNewest :
      (s : PassthroughRetrieval Float) (rows : List Message)
      → IsNewest s (reverse rows) (pt_with_rows f parse_uuid show_uuid s rows)
  unfolding pt_with_rows
  with_rows-IsNewest s rows =
      let (older, split) = fill_tier1-IsSplit s.max_token_budget (reverse rows) in
      let split' : IsSplit s.max_token_budget (reverse rows) older
          (fill_tier1 s.max_token_budget 0 [] rows) =
        subst
          (λ l.
            IsSplit s.max_token_budget (reverse rows) older (fill_tier1 s.max_token_budget 0 [] l))
          (reverse-reverse rows) split in
      (older, _, split', refl, refl, refl)

  -- With a conversation id that is a UUID, `pt_load_recent` returns and changes nothing; of the
  -- newest max_messages_to_load messages, in chronological order, it gives those of a last part that
  -- fits into the budget and would not with one more message.
  pt_load_recent-IsNewest :
      (c : ℕ) (s : PassthroughRetrieval Float) (db : Db)
      → parse_uuid s.conversation_id ≡ some c
      → (t : PassthroughRetrieval Float) × (pt_load_recent f parse_uuid show_uuid s db
          ≡ (returned t, db))
        × IsNewest s
            (reverse (fetch_recent c (max_messages f parse_uuid show_uuid s) db.messages))
            t
  unfolding pt_load_recent
  pt_load_recent-IsNewest c s db id =
      let rows = fetch_recent c (max_messages f parse_uuid show_uuid s) db.messages in
      (pt_with_rows f parse_uuid show_uuid s rows, rw id refl, with_rows-IsNewest s rows)
