-- ===== src/Conversations/Reuse.antt =====
-- Repeated creations of context windows, and the conversation after an insertion.
use context_broker.Prelude.{
  ℕ, ◌≡◌, Bool, true, Option, List, [], ◌∷◌, ◌++◌, String, arith, any, inl, inr, Bool-cases, ◌==◌,
}
use context_broker.Floats.{Floats}
use context_broker.Store.{Db}
use context_broker.Config.{BuildTypeError}
use context_broker.TokenBudget.{ModelInfo, resolve_token_budget}
use context_broker.Conversations.Create.{has_conversation, insert_conversation, new_conversation}
use context_broker.Conversations.Windows.{WindowInput}

any-append_new {ℓ} :
    {A : Type ℓ} (p : A → Bool) (xs : List A) (x : A) → p x ≡ true → any p (xs ++ x ∷ []) ≡ true
any-append_new p [] x h = ground arith
any-append_new p (y ∷ ys) x h = ground (arith, any-append_new p ys x h)

pub insert_conversation-has :
    (id : ℕ) (title flow_id user_id : Option String) (db : Db)
    → has_conversation id (insert_conversation id title flow_id user_id db) ≡ true
unfolding insert_conversation
insert_conversation-has id title flow_id user_id db = elim (Bool-cases (has_conversation id db)) [
  | inl h ↦ rw h h
  | inr h ↦ rw h (
      any-append_new (λ c. c.id == id) db.conversations
        (new_conversation id title flow_id user_id db) (ground arith))
]

module _ (f : Floats) (parse_uuid : String → Option ℕ) (show_uuid : ℕ → String)
    (describe : BuildTypeError (f.Float) → String)
    (get_models : String → Option String → Option (List ModelInfo)) where
  open f use {Float}

  abbrev resolved_budget : WindowInput Float → ℕ
  resolved_budget input =
      resolve_token_budget get_models input.provider input.settings input.max_tokens_override
