-- ===== src/Pipeline/Effects.antt =====
-- The ways in which a call of `store_message` can end, and what each leaves in the database.
use context_broker.Prelude.{
  ℕ, ◌+◌, ◌≡◌, refl, ap, ◌∙◌, ◌⊎◌, truthy, or_empty, inl, inr, Bool, true, false, Option, none,
  some, List, String, head?, Bool-cases,
}
use context_broker.Store.{
  Conversation, Message, Window, Db, value_error, unique_violation, Outcome, returned, raised, Flow,
  gets, or_value_error, ◌>>=◌,
}
use context_broker.Store.Query.{
  newest_first, messages_of, find_conversation, find_window, max_sequence,
}
use context_broker.Pipeline.Ingest.{
  MessageInput, NewMessage, StoreResult, failed, stored, is_repeat, collapse, insert_message,
  insert_new, collapse_or_insert, transaction, after_first, after_second, store_attempts, store_in,
  store_resolved, resolve_conversation, window_conversation, store_message, derive, target_of,
  given, Target, by_window, by_conversation, unspecified, Resolution, resolved, unresolved,
}

-- How a call that began at `db` ended. It was refused with an error or raised a ValueError (an id
-- that is no UUID), and nothing changed; or the newest message of the conversation has the same
-- sender and content, and only that row's count changed; or the message is no such repetition, and
-- it was appended with the next number of its conversation, which is there. `At` says which
-- conversations the call may be about.
pub data Effect (At : ℕ → Type 0) (sender : String) (content : Option String) (db : Db)
    (r : Outcome StoreResult × Db) : Type 0 where
  refused : (e : String) → r ≡ (returned (failed e), db) → Effect At sender content db r
  aborted : r ≡ (raised value_error, db) → Effect At sender content db r
  repeated :
      (conv : ℕ) (prev : Message) (cid : String)
      → At conv
      → head? (newest_first conv db.messages) ≡ some prev
      → is_repeat (some prev) sender content ≡ true
      → r ≡ (returned (stored prev.id cid none true), collapse conv prev db)
      → Effect At sender content db r
  appended :
      (n : NewMessage) (cid : String) (row : Conversation)
      → At n.conversation_id
      → find_conversation n.conversation_id db.conversations ≡ some row
      → n.sender ≡ sender
      → n.content ≡ content
      → is_repeat (head? (newest_first n.conversation_id db.messages)) sender content ≡ false
      → r ≡ (
        returned (
            stored db.next_id cid
              (some (max_sequence (messages_of n.conversation_id db.messages) + 1))
              false),
        insert_message n db,
      )
      → Effect At sender content db r

-- The same of one transaction, which may also meet a conflict.
data Attempt (At : ℕ → Type 0) (n : NewMessage) (db : Db) (r : Outcome StoreResult × Db)
    : Type 0 where
  conflict : r ≡ (raised unique_violation, db) → Attempt At n db r
  settled : Effect At n.sender n.content db r → Attempt At n db r

collapse_or_insert-Attempt :
    (At : ℕ → Type 0) (prev : Option Message) (b : Bool) (cid : String) (n : NewMessage) (db : Db)
    (row : Conversation)
    → At n.conversation_id
    → find_conversation n.conversation_id db.conversations ≡ some row
    → head? (newest_first n.conversation_id db.messages) ≡ prev
    → Attempt At n db (collapse_or_insert prev b cid n db)
unfolding collapse_or_insert insert_new
collapse_or_insert-Attempt At none true cid n db row at t e = conflict refl
collapse_or_insert-Attempt At none false cid n db row at t e =
    settled (appended n cid row at t refl refl (rw e refl) refl)
collapse_or_insert-Attempt At (some m) b cid n db row at t e =
    elim (Bool-cases (is_repeat (some m) n.sender n.content)) [
      | inl same ↦ settled (repeated n.conversation_id m cid at e same (rw same refl))
      | inr other ↦ insertion b other
    ]
  where
    insertion :
        (b : Bool)
        → is_repeat (some m) n.sender n.content ≡ false
        → Attempt At n db (collapse_or_insert (some m) b cid n db)
    insertion true other = conflict (rw other refl)
    insertion false other = settled (appended n cid row at t refl refl (rw e other) (rw other refl))

after_second-Effect :
    (At : ℕ → Type 0) (cid : String) (n : NewMessage) (db : Db) (r : Outcome StoreResult × Db)
    → Attempt At n db r
    → Effect At n.sender n.content db (after_second cid r)
unfolding after_second
after_second-Effect At cid n db r (conflict e) = rw e (refused _ refl)
after_second-Effect At cid n db r (settled (refused x e)) = refused x (rw e refl)
after_second-Effect At cid n db r (settled (aborted e)) = aborted (rw e refl)
after_second-Effect At cid n db r (settled (repeated c p i a h q e)) =
    repeated c p i a h q (rw e refl)
after_second-Effect At cid n db r (settled (appended m i row' a x s p q e)) =
    appended m i row' a x s p q (rw e refl)

after_first-Effect :
    (At : ℕ → Type 0) (b : Bool) (cid : String) (n : NewMessage) (db : Db) (row : Conversation)
    (r : Outcome StoreResult × Db)
    → At n.conversation_id
    → find_conversation n.conversation_id db.conversations ≡ some row
    → Attempt At n db r
    → Effect At n.sender n.content db (after_first b cid n r)
unfolding after_first
after_first-Effect At b cid n db row r at t (conflict e) = rw e (
    after_second-Effect At cid n db _
      (unfold transaction in collapse_or_insert-Attempt At _ b cid n db row at t refl))
after_first-Effect At b cid n db row r at t (settled (refused x e)) = refused x (rw e refl)
after_first-Effect At b cid n db row r at t (settled (aborted e)) = aborted (rw e refl)
after_first-Effect At b cid n db row r at t (settled (repeated c p i a h q e)) =
    repeated c p i a h q (rw e refl)
after_first-Effect At b cid n db row r at t (settled (appended m i row' a x s p q e)) =
    appended m i row' a x s p q (rw e refl)

store_attempts-Effect :
    (At : ℕ → Type 0) (conflicts : ℕ → Bool) (cid : String) (n : NewMessage) (db : Db)
    (row : Conversation)
    → At n.conversation_id
    → find_conversation n.conversation_id db.conversations ≡ some row
    → Effect At n.sender n.content db (store_attempts conflicts cid n db)
unfolding store_attempts
store_attempts-Effect At conflicts cid n db row at t =
    after_first-Effect At (conflicts 1) cid n db row _ at t
      (unfold transaction in collapse_or_insert-Attempt At _ (conflicts 0) cid n db row at t refl)

Effect-map :
    {At At' : ℕ → Type 0} (sender : String) (content : Option String) (db : Db)
    (r : Outcome StoreResult × Db)
    → ((conv : ℕ) → At conv → At' conv)
    → Effect At sender content db r
    → Effect At' sender content db r
Effect-map sender content db r g (refused x e) = refused x e
Effect-map sender content db r g (aborted e) = aborted e
Effect-map sender content db r g (repeated c p i a h q e) = repeated c p i (g c a) h q e
Effect-map sender content db r g (appended n i row a x s p q e) =
    appended n i row (g n.conversation_id a) x s p q e

-- An id that is no UUID aborts the call.
uuid-Effect :
    (At : ℕ → Type 0) (sender : String) (content : Option String) (o : Option ℕ)
    (f : ℕ → Db → Outcome StoreResult × Db) (db : Db)
    → ((id : ℕ) → o ≡ some id → Effect At sender content db (f id db))
    → Effect At sender content db ((or_value_error o >>= f) db)
uuid-Effect At sender content none f db h = aborted refl
uuid-Effect At sender content (some id) f db h = h id refl

window_uuid-Effect :
    (At : ℕ → Type 0) (sender : String) (content : Option String) (o : Option ℕ)
    (g : ℕ → Flow Resolution) (f : Resolution → Flow StoreResult) (db : Db)
    → ((id : ℕ) → o ≡ some id → Effect At sender content db ((g id >>= f) db))
    → Effect At sender content db (((or_value_error o >>= g) >>= f) db)
window_uuid-Effect At sender content none g f db h = aborted refl
window_uuid-Effect At sender content (some id) g f db h = h id refl

abbrev text_of : Resolution → String
text_of (unresolved e) = e
text_of (resolved cid) = cid

module _ (parse_uuid : String → Option ℕ) (show_uuid : ℕ → String)
    (dumps : List String → String) where
  -- The id of a window was given, and this is the window's conversation; or there was none, and this
  -- is the id of a conversation that was given. An empty id is none.
  abbrev pub IsAddressed : MessageInput → Db → ℕ → Type 0
  IsAddressed input db conv =
      ((text : String) × (id : ℕ) × (row : Window) × (input.context_window_id ≡ some text)
        × (truthy text ≡ true)
        × (parse_uuid text ≡ some id)
        × (find_window id db.windows ≡ some row)
        × (parse_uuid (show_uuid row.conversation_id) ≡ some conv))
      ⊎ ((truthy (or_empty input.context_window_id) ≡ false)
          × (text : String) × (input.conversation_id_input ≡ some text)
          × (truthy text ≡ true)
          × (parse_uuid text ≡ some conv))

  -- The same of a target.
  abbrev IsTarget : Target → Db → ℕ → Type 0
  IsTarget (by_window text) db conv =
      (id : ℕ) × (row : Window) × (parse_uuid text ≡ some id)
      × (find_window id db.windows ≡ some row)
      × (parse_uuid (show_uuid row.conversation_id) ≡ some conv)
  IsTarget (by_conversation text) db conv = parse_uuid text ≡ some conv
  IsTarget unspecified db conv = ⊥

  given_conversation :
      (o : Option String) (db : Db) (conv : ℕ)
      → IsTarget (given o unspecified by_conversation) db conv
      → (text : String) × (o ≡ some text) × (truthy text ≡ true) × (parse_uuid text ≡ some conv)
  given_conversation none db conv h = absurd h
  given_conversation (some text) db conv h = elim (Bool-cases (truthy text)) [
    | inl full ↦ let h' = rw full at h in (text, refl, full, h')
    | inr empty ↦ let h' = rw empty at h in absurd h'
  ]

  given_window :
      (o p : Option String) (db : Db) (conv : ℕ)
      → IsTarget (given o (given p unspecified by_conversation) by_window) db conv
      → ((text : String) × (id : ℕ) × (row : Window) × (o ≡ some text)
          × (truthy text ≡ true)
          × (parse_uuid text ≡ some id)
          × (find_window id db.windows ≡ some row)
          × (parse_uuid (show_uuid row.conversation_id) ≡ some conv))
        ⊎ ((truthy (or_empty o) ≡ false)
            × (text : String) × (p ≡ some text)
            × (truthy text ≡ true)
            × (parse_uuid text ≡ some conv))
  given_window none p db conv h =
      let (text, e, full, read) = given_conversation p db conv h in inr (refl, text, e, full, read)
  given_window (some text) p db conv h = elim (Bool-cases (truthy text)) [
    | inl full ↦
        let (id, row, read, found, shown) = rw full at h in
        inl (text, id, row, refl, full, read, found, shown)
    | inr empty ↦
        let h' = rw empty at h in
        let (other, e, full, read) = given_conversation p db conv h' in
        inr (empty, other, e, full, read)
  ]

  store_in-Effect :
      (At : ℕ → Type 0) (conflicts : ℕ → Bool) (input : MessageInput) (cid : String) (conv : ℕ)
      (found : Option Conversation) (db : Db)
      → At conv
      → find_conversation conv db.conversations ≡ found
      → Effect At input.sender input.content db
          (store_in parse_uuid show_uuid dumps conflicts input cid conv found db)
  unfolding store_in
  store_in-Effect At conflicts input cid conv none db at e = refused _ refl
  store_in-Effect At conflicts input cid conv (some row) db at e =
      unfold derive in store_attempts-Effect At conflicts cid (derive dumps conv input) db row at e

  store_resolved-Effect :
      (At : ℕ → Type 0) (conflicts : ℕ → Bool) (input : MessageInput) (r : Resolution) (db : Db)
      → ((cid : String) (conv : ℕ) → r ≡ resolved cid → parse_uuid cid ≡ some conv → At conv)
      → Effect At input.sender input.content db
          (store_resolved parse_uuid show_uuid dumps conflicts input r db)
  unfolding store_resolved
  store_resolved-Effect At conflicts input (unresolved e) db at = refused e refl
  store_resolved-Effect At conflicts input (resolved cid) db at =
      uuid-Effect At input.sender input.content (parse_uuid cid)
        (λ conv d.
          store_in parse_uuid show_uuid dumps conflicts input cid conv
            (find_conversation conv d.conversations) d)
        db
        (λ conv read.
          store_in-Effect At conflicts input cid conv (find_conversation conv db.conversations) db
            (at cid conv refl read) refl)

  window_resolved :
      (cw_id cid : String) (o : Option Window)
      → window_conversation parse_uuid show_uuid dumps cw_id o ≡ resolved cid
      → (row : Window) × (o ≡ some row) × (show_uuid row.conversation_id ≡ cid)
  unfolding window_conversation
  window_resolved cw_id cid none e = absurd (cc e)
  window_resolved cw_id cid (some row) e = (row, refl, ap text_of e)

  target-Effect :
      (conflicts : ℕ → Bool) (input : MessageInput) (t : Target) (db : Db)
      → Effect (IsTarget t db) input.sender input.content db (
          (resolve_conversation parse_uuid show_uuid dumps t
              >>= store_resolved parse_uuid show_uuid dumps conflicts input)
            db)
  unfolding resolve_conversation
  target-Effect conflicts input (by_window cw_id) db =
      let At = IsTarget (by_window cw_id) db in
      window_uuid-Effect At input.sender input.content (parse_uuid cw_id)
        (λ id.
          gets
            (λ d. window_conversation parse_uuid show_uuid dumps cw_id (find_window id d.windows)))
        (store_resolved parse_uuid show_uuid dumps conflicts input) db
        (λ id read. store_resolved-Effect At conflicts input _ db (λ cid conv e shown.
          let (row, found, text) = window_resolved cw_id cid (find_window id db.windows) e in
          (id, row, read, found, ap parse_uuid text ∙ shown)))
  target-Effect conflicts input (by_conversation cid) db =
      store_resolved-Effect (IsTarget (by_conversation cid) db) conflicts input (resolved cid) db
        (λ text conv e read. ap (λ r. parse_uuid (text_of r)) e ∙ read)
  target-Effect conflicts input unspecified db =
      store_resolved-Effect (IsTarget unspecified db) conflicts input (unresolved _) db
        (λ text conv e read. absurd (cc e))

  -- Every call of `store_message`, whatever the input and whichever attempts meet a conflict, ends in
  -- one of the four ways of `Effect`.
  target_of-Effect :
      (conflicts : ℕ → Bool) (input : MessageInput) (db : Db)
      → Effect
          (IsTarget (target_of input) db)
          input.sender
          input.content
          db
          (store_message parse_uuid show_uuid dumps conflicts input db)
  unfolding store_message
  target_of-Effect conflicts input db = target-Effect conflicts input (target_of input) db

  pub store_message-Effect :
      (conflicts : ℕ → Bool) (input : MessageInput) (db : Db)
      → Effect
          (IsAddressed input db)
          input.sender
          input.content
          db
          (store_message parse_uuid show_uuid dumps conflicts input db)
  unfolding target_of
  store_message-Effect conflicts input db =
      Effect-map input.sender input.content db _
        (given_window input.context_window_id input.conversation_id_input db)
        (target_of-Effect conflicts input db)
