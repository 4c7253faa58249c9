-- ===== src/Pipeline/Repeats.antt =====
-- The collapse of message_pipeline.py and the rows of a conversation.
use context_broker.Prelude.{
  ℕ, ◌≡◌, ◌∙◌, ap, inl, inr, Bool, true, false, Option, some, List, [], ◌∷◌, ◌++◌, String, arith,
  Bool-cases, ◌==◌, ==_iff, head?, get_last?, head?-reverse,
}
use context_broker.Store.{Message, Db, Outcome}
use context_broker.Store.Query.{messages_of, newest_first}
use context_broker.Store.Order.{newest_first_lem, IsNumbered-IsChronological}
use context_broker.Pipeline.Ingest.{
  MessageInput, StoreResult, is_repeat, collapse, new_row, store_message,
}
use context_broker.Pipeline.Sameness.{IsSame, not-IsSame, is_repeat-other}
use context_broker.Pipeline.Effects.{
  Effect, refused, aborted, repeated, appended, store_message-Effect,
}
use context_broker.Pipeline.Counters.{
  IsConsistent, bump, messages_of-bump, messages_of-insert_self, messages_of-insert_ne,
}

-- No row has the sender and the text of the row before it.
abbrev pub HasNoRepeat : List Message → Type 0
HasNoRepeat [] = Unit
HasNoRepeat (m ∷ []) = Unit
HasNoRepeat (m ∷ n ∷ ms) = ¬ IsSame m n.sender n.content × HasNoRepeat (n ∷ ms)

-- The same by the test of the code.
abbrev IsRepeatFree : List Message → Type 0
IsRepeatFree [] = Unit
IsRepeatFree (m ∷ []) = Unit
IsRepeatFree (m ∷ n ∷ ms) = (is_repeat (some m) n.sender n.content ≡ false) × IsRepeatFree (n ∷ ms)

IsRepeatFree-append :
    (ms : List Message) (x : Message)
    → IsRepeatFree ms
    → is_repeat (get_last? ms) x.sender x.content ≡ false
    → IsRepeatFree (ms ++ x ∷ [])
IsRepeatFree-append [] x h e = tt
IsRepeatFree-append (m ∷ []) x h e = (e, tt)
IsRepeatFree-append (m ∷ n ∷ ms) x h e = (h.0, IsRepeatFree-append (n ∷ ms) x h.1 e)

IsRepeatFree-bump :
    (id : ℕ) (prev : Message) (ms : List Message) → IsRepeatFree ms → IsRepeatFree (bump id prev ms)
IsRepeatFree-bump id prev [] h = tt
IsRepeatFree-bump id prev (m ∷ []) h = tt
IsRepeatFree-bump id prev (m ∷ n ∷ ms) h =
    (ground (arith, h.0), IsRepeatFree-bump id prev (n ∷ ms) h.1)

newest_is_last :
    (db : Db) (c : ℕ)
    → IsConsistent db
    → head? (newest_first c db.messages) ≡ get_last? (messages_of c db.messages)
newest_is_last db c h =
    let rows = messages_of c db.messages in
    ap head? (newest_first_lem c 0 db.messages (IsNumbered-IsChronological 0 rows (h.numbered c)))
    ∙ head?-reverse rows

Effect-IsRepeatFree :
    {At : ℕ → Type 0} (sender : String) (content : Option String) (db : Db)
    (r : Outcome StoreResult × Db)
    → Effect At sender content db r
    → IsConsistent db
    → ((c : ℕ) → IsRepeatFree (messages_of c db.messages))
    → (c : ℕ) → IsRepeatFree (messages_of c r.1.messages)
Effect-IsRepeatFree sender content db r (refused x e) h free c = rw e (free c)
Effect-IsRepeatFree sender content db r (aborted e) h free c = rw e (free c)
Effect-IsRepeatFree sender content db r (repeated k prev i a p q e) h free c = rw e (
    unfold collapse in
    rw (messages_of-bump c prev.id prev db.messages)
      (IsRepeatFree-bump prev.id prev (messages_of c db.messages) (free c)))
Effect-IsRepeatFree sender content db r (appended n i row a t p q s e) h free c =
    rw e (elim (Bool-cases (n.conversation_id == c)) [
      | inl mine ↦
          rw (messages_of-insert_self c n db mine)
            (IsRepeatFree-append (messages_of c db.messages) (new_row n db) (free c) (fresh mine))
      | inr other ↦ rw (messages_of-insert_ne c n db other) (free c)
    ])
  where
    fresh :
        (n.conversation_id == c) ≡ true
        → is_repeat (get_last? (messages_of c db.messages)) n.sender n.content ≡ false
    fresh mine =
        let e' = (==_iff n.conversation_id c).0 mine in
        let s' = rw e' at s in rw (p, q, ← newest_is_last db c h) s'

IsRepeatFree-HasNoRepeat : (ms : List Message) → IsRepeatFree ms → HasNoRepeat ms
IsRepeatFree-HasNoRepeat [] h = tt
IsRepeatFree-HasNoRepeat (m ∷ []) h = tt
IsRepeatFree-HasNoRepeat (m ∷ n ∷ ms) h =
    (not-IsSame m n.sender n.content h.0, IsRepeatFree-HasNoRepeat (n ∷ ms) h.1)

HasNoRepeat-IsRepeatFree : (ms : List Message) → HasNoRepeat ms → IsRepeatFree ms
HasNoRepeat-IsRepeatFree [] h = tt
HasNoRepeat-IsRepeatFree (m ∷ []) h = tt
HasNoRepeat-IsRepeatFree (m ∷ n ∷ ms) h =
    (is_repeat-other m n.sender n.content h.0, HasNoRepeat-IsRepeatFree (n ∷ ms) h.1)

-- If no conversation of a consistent database holds two rows in a row with the same sender and the
-- same text as their content, then none does after a call of `store_message`.
pub store_message-HasNoRepeat :
    (parse_uuid : String → Option ℕ) (show_uuid : ℕ → String) (dumps : List String → String)
    (conflicts : ℕ → Bool) (input : MessageInput) (db : Db)
    → IsConsistent db
    → ((c : ℕ) → HasNoRepeat (messages_of c db.messages))
    → (c : ℕ)
    → HasNoRepeat
        (messages_of c (store_message parse_uuid show_uuid dumps conflicts input db).1.messages)
store_message-HasNoRepeat parse_uuid show_uuid dumps conflicts input db h free c =
    IsRepeatFree-HasNoRepeat _ (
      Effect-IsRepeatFree input.sender input.content db _
        (store_message-Effect parse_uuid show_uuid dumps conflicts input db) h
        (λ k. HasNoRepeat-IsRepeatFree (messages_of k db.messages) (free k)) c)
