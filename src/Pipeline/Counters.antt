-- ===== src/Pipeline/Counters.antt =====
-- `store_message` and the counters and numbers of a conversation.
use context_broker.Prelude.{
  ℕ, suc, ◌+◌, ◌≡◌, refl, inl, inr, Bool, true, false, Option, some, List, [], ◌∷◌, ◌++◌, String,
  All, total, length, keep-append, length-append, total-append, update_where, arith, append-nil,
  ◌∙◌, ◌==◌, ==_iff, Bool-cases, if◌then◌else◌,
}
use context_broker.Store.{Conversation, Message, Db, Outcome}
use context_broker.Store.Query.{messages_of, in_conversation}
use context_broker.Store.Order.{IsNumbered, IsNumbered-append, max_sequence-length}
use context_broker.Pipeline.Ingest.{
  MessageInput, NewMessage, StoreResult, collapse, insert_message, new_row, next_repeat,
  store_message,
}
use context_broker.Pipeline.Effects.{
  Effect, refused, aborted, repeated, appended, store_message-Effect,
}
use context_broker.Tiers.{get_or}

-- The tokens that a stored row counts for.
abbrev pub stored_tokens : Message → ℕ
stored_tokens m = get_or m.token_count 0

-- The counters of a conversation are the number of its rows and the sum of their tokens.
abbrev pub IsCounted : List Message → Conversation → Type 0
IsCounted messages c =
    (c.total_messages ≡ length (messages_of c.id messages))
    × (c.estimated_token_count ≡ total stored_tokens (messages_of c.id messages))

pub record IsConsistent (db : Db) : Type 0 where
  pub counted : All (IsCounted db.messages) db.conversations
  pub numbered : (c : ℕ) → IsNumbered 0 (messages_of c db.messages)

-- A new row joins the rows of its own conversation, at the end.
messages_of-insert :
    (c : ℕ) (n : NewMessage) (db : Db)
    → messages_of c (insert_message n db).messages
      ≡ messages_of c db.messages ++ (if n.conversation_id == c then new_row n db ∷ [] else [])
unfolding insert_message
messages_of-insert c n db = keep-append (in_conversation c) db.messages (new_row n db ∷ [])

pub messages_of-insert_ne :
    (c : ℕ) (n : NewMessage) (db : Db)
    → (n.conversation_id == c) ≡ false
    → messages_of c (insert_message n db).messages ≡ messages_of c db.messages
messages_of-insert_ne c n db h = messages_of-insert c n db ∙ rw h (append-nil _)

pub messages_of-insert_self :
    (c : ℕ) (n : NewMessage) (db : Db)
    → (n.conversation_id == c) ≡ true
    → messages_of c (insert_message n db).messages ≡ messages_of c db.messages ++ new_row n db ∷ []
messages_of-insert_self c n db h = messages_of-insert c n db ∙ rw h refl

==_comm : (a b : ℕ) (t : Bool) → (a == b) ≡ t → (b == a) ≡ t
==_comm a b t h = ground arith

-- The counters' UPDATE of one conversation.
abbrev add_to : NewMessage → ℕ → Conversation → Conversation
add_to n now c = record c {
  total_messages = c.total_messages + 1;
  estimated_token_count = c.estimated_token_count + n.token_count;
  updated_at = now;
}

IsCounted-insert_one :
    (n : NewMessage) (db : Db) (c : Conversation)
    → IsCounted db.messages c
    → IsCounted
        (insert_message n db).messages
        (if c.id == n.conversation_id then add_to n db.clock c else c)
IsCounted-insert_one n db c h = elim (Bool-cases (c.id == n.conversation_id)) [
  | inl mine ↦
      rw (mine, messages_of-insert c.id n db)
        (ground (
          arith,
          h,
          mine,
          length-append (messages_of c.id db.messages) (new_row n db ∷ []),
          total-append stored_tokens (messages_of c.id db.messages) (new_row n db ∷ []),
        ))
  | inr other ↦
      rw (other, messages_of-insert_ne c.id n db (==_comm c.id n.conversation_id false other)) h
]

IsCounted-insert :
    (n : NewMessage) (db : Db) (cs : List Conversation)
    → All (IsCounted db.messages) cs
    → All
        (IsCounted (insert_message n db).messages)
        (update_where (λ c. c.id == n.conversation_id) (add_to n db.clock) cs)
IsCounted-insert n db [] h = tt
IsCounted-insert n db (c ∷ cs) h = (IsCounted-insert_one n db c h.0, IsCounted-insert n db cs h.1)

numbered-insert :
    (n : NewMessage) (db : Db)
    → IsConsistent db
    → (c : ℕ) → IsNumbered 0 (messages_of c (insert_message n db).messages)
numbered-insert n db h c = elim (Bool-cases (n.conversation_id == c)) [
  | inl mine ↦ rw (messages_of-insert_self c n db mine) (
      IsNumbered-append 0 (messages_of c db.messages) (new_row n db) (h.numbered c)
        (number_of_new mine))
  | inr other ↦ rw (messages_of-insert_ne c n db other) (h.numbered c)
]
  where
    number_of_new :
        (n.conversation_id == c) ≡ true
        → (new_row n db).sequence_number ≡ suc (0 + length (messages_of c db.messages))
    number_of_new mine =
        let e = (==_iff n.conversation_id c).0 mine in
        rw e (omega (arith, max_sequence-length (messages_of c db.messages) (h.numbered c)))

insert_message-IsConsistent :
    (n : NewMessage) (db : Db) → IsConsistent db → IsConsistent (insert_message n db)
insert_message-IsConsistent n db h = record {
  counted = unfold insert_message in IsCounted-insert n db db.conversations h.counted;
  numbered = numbered-insert n db h;
}

-- The collapse changes no number, no token count and no row's conversation.
abbrev pub bump : ℕ → Message → List Message → List Message
bump id prev =
    update_where (λ m. m.id == id)
      (λ m. record m { repeat_count = some (next_repeat prev.repeat_count) })

pub messages_of-bump :
    (c id : ℕ) (prev : Message) (ms : List Message)
    → messages_of c (bump id prev ms) ≡ bump id prev (messages_of c ms)
messages_of-bump c id prev [] = refl
messages_of-bump c id prev (m ∷ ms) = ground (arith, messages_of-bump c id prev ms)

bump_same :
    (id : ℕ) (prev : Message) (ms : List Message)
    → (length (bump id prev ms) ≡ length ms)
      × (total stored_tokens (bump id prev ms) ≡ total stored_tokens ms)
bump_same id prev [] = (refl, refl)
bump_same id prev (m ∷ ms) = ground (arith, bump_same id prev ms)

bump-IsNumbered :
    (k id : ℕ) (prev : Message) (ms : List Message)
    → IsNumbered k ms
    → IsNumbered k (bump id prev ms)
bump-IsNumbered k id prev [] h = tt
bump-IsNumbered k id prev (m ∷ ms) h = ground (arith, bump-IsNumbered (suc k) id prev ms h.1)

-- Setting the time of an update changes no counter.
IsCounted-collapse :
    (conv now id : ℕ) (prev : Message) (ms : List Message) (cs : List Conversation)
    → All (IsCounted ms) cs
    → All
        (IsCounted (bump id prev ms))
        (update_where (λ c. c.id == conv) (λ c. record c { updated_at = now }) cs)
IsCounted-collapse conv now id prev ms [] h = tt
IsCounted-collapse conv now id prev ms (c ∷ cs) h = (
  ground (arith, messages_of-bump c.id id prev ms, bump_same id prev (messages_of c.id ms)),
  IsCounted-collapse conv now id prev ms cs h.1,
)

collapse-IsConsistent :
    (conv : ℕ) (prev : Message) (db : Db) → IsConsistent db → IsConsistent (collapse conv prev db)
unfolding collapse
collapse-IsConsistent conv prev db h = record {
  counted = IsCounted-collapse conv db.clock prev.id prev db.messages db.conversations h.counted;
  numbered = λ c.
      rw (messages_of-bump c prev.id prev db.messages)
        (bump-IsNumbered 0 prev.id prev (messages_of c db.messages) (h.numbered c));
}

Effect-IsConsistent :
    {At : ℕ → Type 0} (sender : String) (content : Option String) (db : Db)
    (r : Outcome StoreResult × Db)
    → Effect At sender content db r
    → IsConsistent db
    → IsConsistent r.1
Effect-IsConsistent sender content db r (refused x e) h = rw e h
Effect-IsConsistent sender content db r (aborted e) h = rw e h
Effect-IsConsistent sender content db r (repeated c prev i a p q e) h =
    rw e (collapse-IsConsistent c prev db h)
Effect-IsConsistent sender content db r (appended n i row a t p q s e) h =
    rw e (insert_message-IsConsistent n db h)

-- From a database whose counters agree with its rows and whose conversations are numbered 1, 2, …,
-- every call of `store_message` leads to such a database: the new message, if one is stored, has the
-- next number, and the counters follow it.
pub store_message-IsConsistent :
    (parse_uuid : String → Option ℕ) (show_uuid : ℕ → String) (dumps : List String → String)
    (conflicts : ℕ → Bool) (input : MessageInput) (db : Db)
    → IsConsistent db
    → IsConsistent (store_message parse_uuid show_uuid dumps conflicts input db).1
store_message-IsConsistent parse_uuid show_uuid dumps conflicts input db h =
    Effect-IsConsistent input.sender input.content db _
      (store_message-Effect parse_uuid show_uuid dumps conflicts input db) h
