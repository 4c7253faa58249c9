-- ===== src/Mcp/Drift.antt =====
-- When the counter is the number of the replies that wait, and when it falls behind.
use context_broker.Prelude.{
  ℕ, ◌+◌, ◌∙◌, ◌≤◌, ◌≡◌, ap, inl, inr, true, false, not, List, [], ◌∷◌, String, arith, length,
  length-append, total-append, All, All-append, Bool-cases, Option-cases, All-kept,
}
use context_broker.Prelude.Int.{
  ℤ, pos, pos_part, neg_part, ◌+ℤ◌, ◌-ℤ◌, ◌≤ℤ◌, +ℤ_parts, at_least_zero, eq_of_parts,
}
use context_broker.Mcp.Sessions.{
  Session, Server, Limits, qsize, queued, is_outdated, evict_stale_sessions, mcp_sse_session,
  has_session, full, update_session, find_session, push_reply, pop_front, waiting, deliver,
  remove_session, close_removed, close_stream, Event, connect, post, turn, close, step, run_events,
}
use context_broker.Mcp.Eviction.{
  All-evict_stale_sessions, evict_stale_sessions-Tracks, evict_stale_sessions-le,
}
use context_broker.Mcp.Tables.{with_reply, queued-push, queued-pop, queued-remove}
use context_broker.Mcp.Accounting.{IsSound}

abbrev pub IsExact : Server → Type 0
IsExact s = s.total_queued ≡ pos (queued s.sessions)

-- The turn is not one of an evicted session whose queue has replies left.
abbrev pub IsTidy : Event → Server → Type 0
IsTidy (turn id) s = waiting (find_session id s.orphans) ≡ false
IsTidy (connect now) s = Unit
IsTidy (post id reply) s = Unit
IsTidy (close id) s = Unit

abbrev pub AllTidy : Limits → List Event → Server → Type 0
AllTidy l [] s = Unit
AllTidy l (e ∷ es) s = IsTidy e s × AllTidy l es (step l e s)

pos-sub : (q d q' : ℕ) → q' + d ≡ q → at_least_zero (pos q -ℤ pos d) ≡ pos q'
unfolding ◌-ℤ◌
pos-sub q d q' e = ground arith

exact-sub : (n : ℤ) (q d q' : ℕ) → n ≡ pos q → q' + d ≡ q → at_least_zero (n -ℤ pos d) ≡ pos q'
exact-sub n q d q' h e = ap (λ k. at_least_zero (k -ℤ pos d)) h ∙ pos-sub q d q' e

push_reply-IsExact :
    (id : ℕ) (reply : String) (s : Server) → IsExact s → IsExact (push_reply id reply s).1
unfolding push_reply
push_reply-IsExact id reply s h = elim (Bool-cases (has_session id s.sessions)) [
  | inr gone ↦ rw gone h
  | inl there ↦ elim (Bool-cases (full (find_session id s.sessions))) [
    | inl none_fits ↦ rw (there, none_fits) h
    | inr room ↦
        rw (there, room)
          (eq_of_parts (s.total_queued +ℤ pos 1)
            (pos (queued (update_session id (with_reply reply) s.sessions)))
            (omega (
              arith,
              ap pos_part h,
              ap neg_part h,
              queued-push id reply s.sessions there,
              +ℤ_parts s.total_queued (pos 1),
            )))
  ]
]

deliver-IsExact :
    (id : ℕ) (s : Server)
    → waiting (find_session id s.orphans) ≡ false
    → IsExact s
    → IsExact (deliver id s)
unfolding deliver
deliver-IsExact id s idle h = elim (Bool-cases (waiting (find_session id s.sessions))) [
  | inl live ↦ rw live (
      exact-sub s.total_queued (queued s.sessions) 1
        (queued (update_session id pop_front s.sessions)) h (queued-pop id s.sessions live))
  | inr nothing ↦ rw (nothing, idle) h
]

close_stream-IsExact : (id : ℕ) (s : Server) → IsExact s → IsExact (close_stream id s)
unfolding close_stream close_removed
close_stream-IsExact id s h = elim (Option-cases (find_session id s.sessions)) [
  | inl gone ↦ rw gone h
  | inr (x, there) ↦ rw there (
      exact-sub s.total_queued (queued s.sessions) (qsize x) (queued (remove_session id s.sessions))
        h (queued-remove id s.sessions x there))
]

step-IsExact : (l : Limits) (e : Event) (s : Server) → IsTidy e s → IsExact s → IsExact (step l e s)
unfolding step mcp_sse_session
step-IsExact l (connect now) s t h =
    let s' = evict_stale_sessions l now s in
    eq_of_parts s'.total_queued (pos (queued (mcp_sse_session l now s).sessions)) (
      omega (
        arith,
        ap pos_part h,
        ap neg_part h,
        evict_stale_sessions-Tracks l now s,
        total-append {0} qsize s'.sessions
            (record { id = s'.next_id; queue = []; created_at = now } ∷ []),
      ))
step-IsExact l (post id reply) s t h = push_reply-IsExact id reply s h
step-IsExact l (turn id) s t h = deliver-IsExact id s t h
step-IsExact l (close id) s t h = close_stream-IsExact id s h

-- As long as no event stream of an evicted session delivers a reply, the counter is exactly the
-- number of the replies that wait for the sessions, whatever requests and turns follow one another,
-- if it was so at the beginning.
pub run_events-IsExact :
    (l : Limits) (es : List Event) (s : Server)
    → AllTidy l es s
    → IsExact s
    → IsExact (run_events l es s)
unfolding run_events
run_events-IsExact l [] s t h = h
run_events-IsExact l (e ∷ es) s t h =
    run_events-IsExact l es (step l e s) t.1 (step-IsExact l e s t.0 h)

-- When a session is opened, the counter is within its cap, the older sessions are as many as there
-- may be at most, and none of them is older than the TTL, if the table was sound.
mcp_sse_session-IsEvicted :
    (l : Limits) (now : ℕ) (s : Server)
    → IsSound l s
    → let t = mcp_sse_session l now s in
      (t.total_queued ≤ℤ pos l.max_total_queued)
      × (length t.sessions ≤ l.max_sessions + 1)
      × All (λ x. not (is_outdated l.session_ttl now x) ≡ true) t.sessions
unfolding mcp_sse_session
mcp_sse_session-IsEvicted l now s h =
    let (few, within) = evict_stale_sessions-le l now s h.counted in
    let t = evict_stale_sessions l now s in
    let new : List Session = record { id = t.next_id; queue = []; created_at = now } ∷ [] in
    (
      within,
      omega (arith, few, length-append {0} t.sessions new),
      All-append (λ x. not (is_outdated l.session_ttl now x) ≡ true) t.sessions new
          (All-evict_stale_sessions (λ x. not (is_outdated l.session_ttl now x) ≡ true) l now s
            (All-kept (λ x. not (is_outdated l.session_ttl now x)) s.sessions))
          (ground arith, tt),
    )
