-- ===== src/Conversations/Integrity.antt =====
-- The foreign keys of the tables, under the operations of conversation_ops_flow.py.
use context_broker.Prelude.{
  ℕ, ◌≡◌, refl, ◌∙◌, Bool, true, false, ◌&&◌, not, inl, inr, Option, none, some, List, [], ◌∷◌,
  ◌++◌, String, arith, Bool-cases, All, All-map, All-append, any, keep, find?, update_where, ◌==◌,
}
use context_broker.Store.{Conversation, Window, Summary, Db}
use context_broker.Conversations.Create.{has_conversation, insert_conversation, new_conversation}
use context_broker.Conversations.Windows.{insert_window, new_window}
use context_broker.Conversations.Admin.{in_windows_of, delete_rows}

-- The window of a summary, in the conversation that the summary names.
abbrev pub is_window_of : Summary → Window → Bool
is_window_of s w = w.id == s.context_window_id && w.conversation_id == s.conversation_id

-- A message and a window name a conversation that is there, a summary a window of its conversation.
pub record IsReferential (db : Db) : Type 0 where
  pub messages : All (λ m. has_conversation m.conversation_id db ≡ true) db.messages
  pub windows : All (λ w. has_conversation w.conversation_id db ≡ true) db.windows
  pub summaries : All (λ s. any (is_window_of s) db.windows ≡ true) db.summaries

module _ {ℓ κ μ} {A : Type ℓ} where
  All-keep :
      (P : A → Type κ) (Q : A → Type μ) (p : A → Bool) (xs : List A)
      → ((x : A) → p x ≡ true → P x → Q x)
      → All P xs
      → All Q (keep p xs)
  All-keep P Q p [] f h = tt
  All-keep P Q p (x ∷ xs) f h = elim (Bool-cases (p x)) [
    | inl yes_p ↦ rw yes_p (f x yes_p h.0, All-keep P Q p xs f h.1)
    | inr no_p ↦ rw no_p (All-keep P Q p xs f h.1)
  ]

-- The conversations but one.
abbrev others : ℕ → List Conversation → List Conversation
others id = keep (λ c. not (c.id == id))

any-others :
    (id k : ℕ) (cs : List Conversation)
    → (k == id) ≡ false
    → any (λ c. c.id == k) (others id cs) ≡ any (λ c. c.id == k) cs
any-others id k [] h = refl
any-others id k (c ∷ cs) h = ground (arith, any-others id k cs h)

window_stays :
    (id : ℕ) (s : Summary) (ws : List Window)
    → in_windows_of id ws s ≡ false
    → any (is_window_of s) ws ≡ true
    → any (is_window_of s) (keep (λ w. not (w.conversation_id == id)) ws) ≡ true
window_stays id s [] out here = absurd (cc here)
window_stays id s (w ∷ ws) out here = ground (arith, window_stays id s ws)

-- The rows that a deletion leaves refer to no row that it takes away.
pub delete_rows-IsReferential :
    (id : ℕ) (db : Db) → IsReferential db → IsReferential (delete_rows id db)
unfolding delete_rows
delete_rows-IsReferential id db h = record {
  messages =
      All-keep _ _ (λ m. not (m.conversation_id == id)) db.messages
        (λ m kept old. any-others id m.conversation_id db.conversations (ground arith) ∙ old)
        h.messages;
  windows =
      All-keep _ _ (λ w. not (w.conversation_id == id)) db.windows
        (λ w kept old. any-others id w.conversation_id db.conversations (ground arith) ∙ old)
        h.windows;
  summaries =
      All-keep _ _ (λ s. not (in_windows_of id db.windows s)) db.summaries
        (λ s kept old. window_stays id s db.windows (ground arith) old) h.summaries;
}

any-append_old {ℓ} :
    {A : Type ℓ} (p : A → Bool) (xs ys : List A) → any p xs ≡ true → any p (xs ++ ys) ≡ true
any-append_old p [] ys h = absurd (cc h)
any-append_old p (x ∷ xs) ys h = ground (arith, any-append_old p xs ys)

pub insert_conversation-IsReferential :
    (id : ℕ) (title flow_id user_id : Option String) (db : Db)
    → IsReferential db
    → IsReferential (insert_conversation id title flow_id user_id db)
unfolding insert_conversation
insert_conversation-IsReferential id title flow_id user_id db h =
    elim (Bool-cases (has_conversation id db)) [
      | inl there ↦ rw there h
      | inr new ↦
          let grow : (k : ℕ)
              → has_conversation k db ≡ true
              → any (λ c. c.id == k)
                  (db.conversations ++ new_conversation id title flow_id user_id db ∷ [])
                ≡ true =
            λ k old. any-append_old (λ c. c.id == k) db.conversations _ old in
          rw new record {
            messages = All-map _ _ db.messages (λ m old. grow m.conversation_id old) h.messages;
            windows = All-map _ _ db.windows (λ w old. grow w.conversation_id old) h.windows;
            summaries = h.summaries;
          }
    ]

pub find?-any {ℓ} :
    {A : Type ℓ} (p : A → Bool) (xs : List A) (x : A) → find? p xs ≡ some x → any p xs ≡ true
find?-any p [] x h = absurd (cc h)
find?-any p (y ∷ ys) x h = ground (arith, find?-any p ys x)

pub insert_window-IsReferential :
    (c : ℕ) (participant build_type : String) (budget : ℕ) (o : Option Window) (db : Db)
    → has_conversation c db ≡ true
    → IsReferential db
    → IsReferential (insert_window c participant build_type budget o db).2
unfolding insert_window
insert_window-IsReferential c participant build_type budget (some w) db there h = h
insert_window-IsReferential c participant build_type budget none db there h =
    let w = new_window c participant build_type budget db in
    record {
      messages = h.messages;
      windows = All-append _ db.windows (w ∷ []) h.windows (there, tt);
      summaries =
          All-map _ _ db.summaries
            (λ s old. any-append_old (is_window_of s) db.windows (w ∷ []) old) h.summaries;
    }

-- An UPDATE that leaves the ids.
pub any-update :
    (k : ℕ) (p : Conversation → Bool) (g : Conversation → Conversation) (cs : List Conversation)
    → ((c : Conversation) → (g c).id ≡ c.id)
    → any (λ c. c.id == k) (update_where p g cs) ≡ any (λ c. c.id == k) cs
any-update k p g [] h = refl
any-update k p g (c ∷ cs) h = elim (Bool-cases (p c)) [
  | inl yes_p ↦ rw (yes_p, h c) (ground (arith, any-update k p g cs h))
  | inr no_p ↦ rw no_p (ground (arith, any-update k p g cs h))
]

pub All-update {ℓ κ} :
    {A : Type ℓ} (P : A → Type κ) (p : A → Bool) (g : A → A) (xs : List A)
    → ((x : A) → P x → P (g x))
    → All P xs
    → All P (update_where p g xs)
All-update P p g [] f h = tt
All-update P p g (x ∷ xs) f h = elim (Bool-cases (p x)) [
  | inl yes_p ↦ rw yes_p (f x h.0, All-update P p g xs f h.1)
  | inr no_p ↦ rw no_p (h.0, All-update P p g xs f h.1)
]
