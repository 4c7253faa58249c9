-- ===== src/Conversations/Deletion.antt =====
-- What a deletion of conversation_ops_flow.py takes away and what it leaves.
use context_broker.Prelude.{
  ℕ, ◌≡◌, ◌⊎◌, refl, true, false, not, inl, inr, Option, none, some, List, [], ◌∷◌, String, arith,
  Bool-cases, All, any, keep, ◌==◌,
}
use context_broker.Store.{
  Conversation, Window, Summary, Db, foreign_key_violation, returned, raised,
}
use context_broker.Store.Query.{messages_of, find_conversation}
use context_broker.Conversations.Admin.{
  in_windows_of, is_one_row, is_referred, changed, delete_rows, delete_read, delete_conversation,
}
use context_broker.Conversations.Integrity.{IsReferential, is_window_of}

abbrev pub windows_of : ℕ → List Window → List Window
windows_of id = keep (λ w. w.conversation_id == id)

abbrev pub summaries_of : ℕ → List Summary → List Summary
summaries_of id = keep (λ s. s.conversation_id == id)

module _ {ℓ} {A : Type ℓ} where
  keep-not :
      (key : A → ℕ) (id : ℕ) (xs : List A)
      → keep (λ x. key x == id) (keep (λ x. not (key x == id)) xs) ≡ []
  keep-not key id [] = refl
  keep-not key id (x ∷ xs) = ground (arith, keep-not key id xs)

  keep_other :
      (key : A → ℕ) (id k : ℕ) (xs : List A)
      → (k == id) ≡ false
      → keep (λ x. key x == k) (keep (λ x. not (key x == id)) xs) ≡ keep (λ x. key x == k) xs
  keep_other key id k [] h = refl
  keep_other key id k (x ∷ xs) h = ground (arith, keep_other key id k xs h)

find_other :
    (id k : ℕ) (cs : List Conversation)
    → (k == id) ≡ false
    → find_conversation k (keep (λ c. not (c.id == id)) cs) ≡ find_conversation k cs
find_other id k [] h = refl
find_other id k (c ∷ cs) h = ground (arith, find_other id k cs h)

find_self :
    (id : ℕ) (cs : List Conversation)
    → find_conversation id (keep (λ c. not (c.id == id)) cs) ≡ none
find_self id [] = refl
find_self id (c ∷ cs) = ground (arith, find_self id cs)

-- A window of a summary of the conversation is one of the conversation's windows.
window_of_summary :
    (id : ℕ) (s : Summary) (ws : List Window)
    → (s.conversation_id == id) ≡ true
    → any (is_window_of s) ws ≡ true
    → in_windows_of id ws s ≡ true
window_of_summary id s [] e h = absurd (cc h)
window_of_summary id s (w ∷ ws) e h = ground (arith, window_of_summary id s ws e)

summaries_gone :
    (id : ℕ) (ws : List Window) (ss : List Summary)
    → All (λ s. any (is_window_of s) ws ≡ true) ss
    → summaries_of id (keep (λ s. not (in_windows_of id ws s)) ss) ≡ []
summaries_gone id ws [] h = refl
summaries_gone id ws (s ∷ ss) h = elim (Bool-cases (in_windows_of id ws s)) [
  | inl inside ↦ rw inside (summaries_gone id ws ss h.1)
  | inr outside ↦ elim (Bool-cases (s.conversation_id == id)) [
    | inl mine ↦ absurd (cc (outside, window_of_summary id s ws mine h.0))
    | inr other ↦ rw outside (rw other (summaries_gone id ws ss h.1))
  ]
]

-- Nothing of the conversation is left.
pub record IsGone (id : ℕ) (db : Db) : Type 0 where
  pub conversation : find_conversation id db.conversations ≡ none
  pub messages : messages_of id db.messages ≡ []
  pub windows : windows_of id db.windows ≡ []
  pub summaries : summaries_of id db.summaries ≡ []

-- The conversation k, its messages and its windows are as they were.
pub record IsKept (k : ℕ) (db db' : Db) : Type 0 where
  pub conversation : find_conversation k db'.conversations ≡ find_conversation k db.conversations
  pub messages : messages_of k db'.messages ≡ messages_of k db.messages
  pub windows : windows_of k db'.windows ≡ windows_of k db.windows

-- The deletion of a conversation by an id that can be read, in a database whose rows refer to rows
-- that are there. Where a row of the memory metadata refers to the conversation, it raises and the
-- database stays as it is. Else it returns, nothing of the conversation is left in the four tables,
-- and every other conversation keeps its row, its messages and its windows.
pub delete_conversation-IsGone :
    (parse_uuid : String → Option ℕ) (text : String) (id : ℕ) (db : Db)
    → parse_uuid text ≡ some id
    → IsReferential db
    → let (r, db') = delete_conversation parse_uuid text db in
      ((is_referred id db ≡ true) × (r ≡ raised foreign_key_violation) × (db' ≡ db))
      ⊎ ((is_referred id db ≡ false)
          × (r ≡ returned (changed (is_one_row id db.conversations)))
          × IsGone id db'
          × ((k : ℕ) → (k == id) ≡ false → IsKept k db db'))
unfolding delete_conversation delete_read delete_rows
delete_conversation-IsGone parse_uuid text id db p h = elim (Bool-cases (is_referred id db)) [
  | inl blocked ↦ rw p (rw blocked (inl (refl, refl, refl)))
  | inr free ↦ rw p (
      rw free (
        inr (
          refl,
          refl,
          record {
            conversation = find_self id db.conversations;
            messages = keep-not (λ m. m.conversation_id) id db.messages;
            windows = keep-not (λ w. w.conversation_id) id db.windows;
            summaries = summaries_gone id db.windows db.summaries h.summaries;
          },
          λ k other. record {
            conversation = find_other id k db.conversations other;
            messages = keep_other (λ m. m.conversation_id) id k db.messages other;
            windows = keep_other (λ w. w.conversation_id) id k db.windows other;
          },
        )))
]
