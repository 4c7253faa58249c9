-- ===== src/Conversations/Chronology.antt =====
-- The order of the messages that `load_conversation_and_messages` gives.
use context_broker.Prelude.{
  ℕ, suc, zero, ◌-◌, ◌≤◌, ◌<◌, ◌≡◌, refl, sym, ap, ap₂, ◌∙◌, Option, none, some, List, [], ◌∷◌,
  ◌++◌, All, All-append, insert_by, take, drop, length, reverse, reverse-cons, reverse-reverse,
  length-append, All-reverse, All-take, String, arith,
}
use context_broker.Store.{Message, Conversation, Db, returned}
use context_broker.Store.Query.{messages_of, find_conversation}
use context_broker.Store.Order.{IsChronological, IsChronological-All, newest_first_lem}
use context_broker.Conversations.History.{
  older, oldest_first, history_rows, history, history_of, load_conversation_and_messages,
}

-- Each message is newer than those after it.
abbrev IsDescending : List Message → Type 0
IsDescending [] = Unit
IsDescending (m ∷ ms) = All (λ n. n.sequence_number < m.sequence_number) ms × IsDescending ms

IsDescending-append :
    (ms : List Message) (n : Message)
    → IsDescending ms
    → All (λ m. n.sequence_number < m.sequence_number) ms
    → IsDescending (ms ++ n ∷ [])
IsDescending-append [] n d h = (tt, tt)
IsDescending-append (m ∷ ms) n d h =
    (All-append _ ms (n ∷ []) d.0 (h.0, tt), IsDescending-append ms n d.1 h.1)

IsDescending-take : (n : ℕ) (ms : List Message) → IsDescending ms → IsDescending (take n ms)
IsDescending-take zero ms h = tt
IsDescending-take (suc n) [] h = tt
IsDescending-take (suc n) (m ∷ ms) h = (All-take _ n ms h.0, IsDescending-take n ms h.1)

insert_newest :
    (m : Message) (ms : List Message)
    → All (λ n. n.sequence_number < m.sequence_number) ms
    → insert_by older m ms ≡ ms ++ m ∷ []
insert_newest m [] h = refl
insert_newest m (n ∷ ms) h = ground (arith, insert_newest m ms h.1)

oldest_first_lem : (ms : List Message) → IsDescending ms → oldest_first ms ≡ reverse ms
oldest_first_lem [] h = refl
oldest_first_lem (m ∷ ms) h =
    ap (insert_by older m) (oldest_first_lem ms h.1)
    ∙ insert_newest m (reverse ms) (All-reverse _ ms h.0)
    ∙ sym (reverse-cons m ms)

reverse-IsDescending :
    (low : ℕ) (ms : List Message) → IsChronological low ms → IsDescending (reverse ms)
reverse-IsDescending low [] h = tt
reverse-IsDescending low (m ∷ ms) h = rw reverse-cons (
    IsDescending-append (reverse ms) m (reverse-IsDescending m.sequence_number ms h.1)
      (All-reverse _ ms (IsChronological-All m.sequence_number ms h.1)))

insert_older :
    (m : Message) (ms : List Message)
    → IsChronological m.sequence_number ms
    → insert_by older m ms ≡ m ∷ ms
insert_older m [] h = refl
insert_older m (n ∷ ms) h = ground (arith, h.0)

oldest_first_chronological :
    (low : ℕ) (ms : List Message) → IsChronological low ms → oldest_first ms ≡ ms
oldest_first_chronological low [] h = refl
oldest_first_chronological low (m ∷ ms) h =
    ap (insert_by older m) (oldest_first_chronological m.sequence_number ms h.1)
    ∙ insert_older m ms h.1

module _ {ℓ} {A : Type ℓ} where
  length-reverse : (xs : List A) → length (reverse xs) ≡ length xs
  length-reverse [] = refl
  length-reverse (x ∷ xs) =
      rw (reverse-cons x xs, length-append (reverse xs) (x ∷ [])) (omega (arith, length-reverse xs))

  drop_all : (n : ℕ) (xs : List A) → length xs ≤ n → drop n xs ≡ []
  drop_all zero [] h = refl
  drop_all zero (x ∷ xs) h = absurd (omega (arith, h))
  drop_all (suc n) [] h = refl
  drop_all (suc n) (x ∷ xs) h = drop_all n xs (omega (arith, h))

  drop-append : (n : ℕ) (xs ys : List A) → n ≤ length xs → drop n (xs ++ ys) ≡ drop n xs ++ ys
  drop-append zero xs ys h = refl
  drop-append (suc n) [] ys h = absurd (omega (arith, h))
  drop-append (suc n) (x ∷ xs) ys h = drop-append n xs ys (omega (arith, h))

  -- The first of a list, turned round, are the last of the reverse.
  reverse-take : (n : ℕ) (xs : List A) → reverse (take n xs) ≡ drop (length xs - n) (reverse xs)
  reverse-take zero xs =
      sym (drop_all (length xs - 0) (reverse xs) (omega (arith, length-reverse xs)))
  reverse-take (suc n) [] = sym (drop_all (0 - suc n) [] (omega arith))
  reverse-take (suc n) (x ∷ xs) =
      reverse-cons x (take n xs)
      ∙ ap (λ l. l ++ x ∷ []) (reverse-take n xs)
      ∙ sym (drop-append (length xs - n) (reverse xs) (x ∷ []) (omega (arith, length-reverse xs)))
      ∙ ap₂ drop (omega arith) (sym (reverse-cons x xs))

-- The last messages of a list, or all of them where the limit is absent or 0.
abbrev pub last_messages : Option ℕ → List Message → List Message
last_messages none ms = ms
last_messages (some zero) ms = ms
last_messages (some (suc n)) ms = drop (length ms - suc n) ms

history_rows_lem :
    (c low : ℕ) (limit : Option ℕ) (ms : List Message)
    → IsChronological low (messages_of c ms)
    → history_rows limit c ms ≡ last_messages limit (messages_of c ms)
unfolding history_rows
history_rows_lem c low none ms h = oldest_first_chronological low (messages_of c ms) h
history_rows_lem c low (some zero) ms h = oldest_first_chronological low (messages_of c ms) h
history_rows_lem c low (some (suc n)) ms h =
    let xs = messages_of c ms in
    let d = IsDescending-take (suc n) (reverse xs) (reverse-IsDescending low xs h) in
    ap (λ l. oldest_first (take (suc n) l)) (newest_first_lem c low ms h)
    ∙ oldest_first_lem (take (suc n) (reverse xs)) d
    ∙ reverse-take (suc n) (reverse xs)
    ∙ ap₂ (λ k l. drop (k - suc n) l) (length-reverse xs) (reverse-reverse xs)

-- The history of a conversation that is there and whose rows are stored in the order of their
-- sequence numbers: the conversation with its messages in this order, the last ones of them where a
-- limit is given, all of them where the limit is absent or 0. The database stays as it is.
pub load_conversation_and_messages_lem :
    (parse_uuid : String → Option ℕ) (text : String) (limit : Option ℕ) (id low : ℕ)
    (row : Conversation) (db : Db)
    → parse_uuid text ≡ some id
    → find_conversation id db.conversations ≡ some row
    → IsChronological low (messages_of id db.messages)
    → load_conversation_and_messages parse_uuid text limit db
      ≡ (returned (history row (last_messages limit (messages_of id db.messages))), db)
unfolding load_conversation_and_messages history_of
load_conversation_and_messages_lem parse_uuid text limit id low row db p c h =
    rw p (rw c (rw (history_rows_lem id low limit db.messages h) refl))
