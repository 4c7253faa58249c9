-- ===== src/Mcp/Tables.antt =====
-- The table of the sessions: how an update or a removal changes the number of replies and sessions.
use context_broker.Prelude.{
  ℕ, ◌+◌, ◌≤◌, ◌≡◌, refl, inl, inr, Bool, true, false, some, List, [], ◌∷◌, ◌++◌, String, arith,
  ◌==◌, length, length-append, keep, All, Bool-cases,
}
use context_broker.Mcp.Sessions.{
  Session, qsize, queued, has_session, queue_maxsize, full, update_session, find_session, pop_front,
  waiting, remove_session,
}

abbrev pub with_reply : String → Session → Session
with_reply reply s = record s { queue = s.queue ++ reply ∷ [] }

pub length-update_session :
    (id : ℕ) (f : Session → Session) (ss : List Session)
    → length (update_session id f ss) ≡ length ss
unfolding update_session
length-update_session id f [] = refl
length-update_session id f (s ∷ ss) = ground (arith, length-update_session id f ss)

pub queued-push :
    (id : ℕ) (reply : String) (ss : List Session)
    → has_session id ss ≡ true
    → queued (update_session id (with_reply reply) ss) ≡ queued ss + 1
unfolding update_session
queued-push id reply [] h = absurd (cc h)
queued-push id reply (s ∷ ss) h =
    ground (arith, queued-push id reply ss, length-append s.queue (reply ∷ []))

pub queued-pop :
    (id : ℕ) (ss : List Session)
    → waiting (find_session id ss) ≡ true
    → queued (update_session id pop_front ss) + 1 ≡ queued ss
unfolding update_session find_session
queued-pop id [] h = absurd (cc h)
queued-pop id (s ∷ ss) h = ground (arith, queued-pop id ss)

pub queued-remove :
    (id : ℕ) (ss : List Session) (x : Session)
    → find_session id ss ≡ some x
    → queued (remove_session id ss) + qsize x ≡ queued ss
unfolding remove_session find_session
queued-remove id [] x h = absurd (cc h)
queued-remove id (s ∷ ss) x h = ground (arith, queued-remove id ss x)

pub length-remove-le : (id : ℕ) (ss : List Session) → length (remove_session id ss) ≤ length ss
unfolding remove_session
length-remove-le id [] = omega arith
length-remove-le id (s ∷ ss) = ground (arith, length-remove-le id ss)

abbrev pub Fits : Session → Type 0
Fits s = qsize s ≤ queue_maxsize

pub Fits-push :
    (id : ℕ) (reply : String) (ss : List Session)
    → All Fits ss
    → full (find_session id ss) ≡ false
    → All Fits (update_session id (with_reply reply) ss)
unfolding update_session find_session
Fits-push id reply [] h room = tt
Fits-push id reply (s ∷ ss) h room = elim (Bool-cases (s.id == id)) [
  | inl same ↦
      let room' = rw same at room in
      rw same (ground (arith, length-append s.queue (reply ∷ [])), h.1)
  | inr other ↦ let room' = rw other at room in rw other (h.0, Fits-push id reply ss h.1 room')
]

Fits-pop_front : (s : Session) → Fits s → Fits (pop_front s)
Fits-pop_front s h = ground arith

pub Fits-pop :
    (id : ℕ) (ss : List Session) → All Fits ss → All Fits (update_session id pop_front ss)
unfolding update_session
Fits-pop id [] h = tt
Fits-pop id (s ∷ ss) h = elim (Bool-cases (s.id == id)) [
  | inl same ↦ rw same (Fits-pop_front s h.0, h.1)
  | inr other ↦ rw other (h.0, Fits-pop id ss h.1)
]

pub Fits-remove : (id : ℕ) (ss : List Session) → All Fits ss → All Fits (remove_session id ss)
unfolding remove_session
Fits-remove id [] h = tt
Fits-remove id (s ∷ ss) h = elim (Bool-cases (s.id == id)) [
  | inl same ↦ rw same h.1
  | inr other ↦ rw other (h.0, Fits-remove id ss h.1)
]

pub Fits-keep : (p : Session → Bool) (ss : List Session) → All Fits ss → All Fits (keep p ss)
Fits-keep p [] h = tt
Fits-keep p (s ∷ ss) h = elim (Bool-cases (p s)) [
  | inl kept ↦ rw kept (h.0, Fits-keep p ss h.1)
  | inr dropped ↦ rw dropped (Fits-keep p ss h.1)
]
