-- ===== src/Mcp/Accounting.antt =====
-- The counter of the replies that wait, over any sequence of events at the endpoint.
use context_broker.Prelude.{
  ℕ, ◌+◌, ◌≤◌, inl, inr, List, [], ◌∷◌, String, arith, length, length-append, total-append, All,
  All-append, Bool-cases, Option-cases,
}
use context_broker.Prelude.Int.{pos, ◌-ℤ◌, ◌≤ℤ◌, +ℤ_parts, -ℤ_parts, at_least_zero-le}
use context_broker.Mcp.Sessions.{
  Session, Server, Limits, qsize, queued, evict_stale_sessions, mcp_sse_session, has_session, full,
  update_session, find_session, push_reply, pop_front, waiting, deliver, remove_session,
  close_removed, close_stream, Event, connect, post, turn, close, step, run_events,
}
use context_broker.Mcp.Eviction.{
  All-evict_stale_sessions, evict_stale_sessions-Tracks, evict_stale_sessions-le,
}
use context_broker.Mcp.Tables.{
  with_reply, Fits, length-update_session, queued-push, queued-pop, queued-remove, length-remove-le,
  Fits-push, Fits-pop, Fits-remove, Fits-keep,
}

-- The counter is not above the number of the replies that wait for the sessions; no queue is longer
-- than its limit; and the sessions are at most one more than there may be.
pub record IsSound (l : Limits) (s : Server) : Type 0 where
  pub counted : s.total_queued ≤ℤ pos (queued s.sessions)
  pub small : All Fits s.sessions
  pub few : length s.sessions ≤ l.max_sessions + 1

mcp_sse_session-IsSound :
    (l : Limits) (now : ℕ) (s : Server) → IsSound l s → IsSound l (mcp_sse_session l now s)
unfolding mcp_sse_session
mcp_sse_session-IsSound l now s h =
    let t = evict_stale_sessions l now s in
    let new : List Session = record { id = t.next_id; queue = []; created_at = now } ∷ [] in
    record {
      counted = omega (
        arith,
        h.counted,
        evict_stale_sessions-Tracks l now s,
        total-append {0} qsize t.sessions new,
      );
      small =
          All-append Fits t.sessions new
            (All-evict_stale_sessions Fits l now s (Fits-keep _ s.sessions h.small))
            (omega arith, tt);
      few =
          omega (
            arith,
            (evict_stale_sessions-le l now s h.counted).0,
            length-append {0} t.sessions new,
          );
    }

push_reply-IsSound :
    (l : Limits) (id : ℕ) (reply : String) (s : Server)
    → IsSound l s
    → IsSound l (push_reply id reply s).1
unfolding push_reply
push_reply-IsSound l id reply s h = elim (Bool-cases (has_session id s.sessions)) [
  | inr gone ↦ rw gone h
  | inl there ↦ elim (Bool-cases (full (find_session id s.sessions))) [
    | inl none_fits ↦ rw (there, none_fits) h
    | inr room ↦
        rw (there, room)
          (record {
            counted = omega (
              arith,
              h.counted,
              queued-push id reply s.sessions there,
              +ℤ_parts s.total_queued (pos 1),
            );
            small = Fits-push id reply s.sessions h.small room;
            few = omega (arith, h.few, length-update_session id (with_reply reply) s.sessions);
          })
  ]
]

deliver-IsSound : (l : Limits) (id : ℕ) (s : Server) → IsSound l s → IsSound l (deliver id s)
unfolding deliver
deliver-IsSound l id s h =
    let fewer = -ℤ_parts s.total_queued (pos 1) in
    elim (Bool-cases (waiting (find_session id s.sessions))) [
      | inl live ↦ rw live (record {
        counted =
            at_least_zero-le (s.total_queued -ℤ pos 1)
              (queued (update_session id pop_front s.sessions))
              (omega (arith, h.counted, fewer, queued-pop id s.sessions live));
        small = Fits-pop id s.sessions h.small;
        few = omega (arith, h.few, length-update_session id pop_front s.sessions);
      })
      | inr idle ↦ elim (Bool-cases (waiting (find_session id s.orphans))) [
        | inl orphan ↦
            rw (idle, orphan)
              (record {
                counted =
                    at_least_zero-le (s.total_queued -ℤ pos 1) (queued s.sessions)
                      (omega (arith, h.counted, fewer));
                small = h.small;
                few = h.few;
              })
        | inr nothing ↦ rw (idle, nothing) h
      ]
    ]

close_stream-IsSound :
    (l : Limits) (id : ℕ) (s : Server) → IsSound l s → IsSound l (close_stream id s)
unfolding close_stream close_removed
close_stream-IsSound l id s h = elim (Option-cases (find_session id s.sessions)) [
  | inl gone ↦ rw gone (record { counted = h.counted; small = h.small; few = h.few })
  | inr (x, there) ↦ rw there (record {
    counted =
        at_least_zero-le (s.total_queued -ℤ pos (qsize x)) (queued (remove_session id s.sessions)) (
          omega (
            arith,
            h.counted,
            -ℤ_parts s.total_queued (pos (qsize x)),
            queued-remove id s.sessions x there,
          ));
    small = Fits-remove id s.sessions h.small;
    few = omega (arith, h.few, length-remove-le id s.sessions);
  })
]

step-IsSound : (l : Limits) (e : Event) (s : Server) → IsSound l s → IsSound l (step l e s)
unfolding step
step-IsSound l (connect now) s h = mcp_sse_session-IsSound l now s h
step-IsSound l (post id reply) s h = push_reply-IsSound l id reply s h
step-IsSound l (turn id) s h = deliver-IsSound l id s h
step-IsSound l (close id) s h = close_stream-IsSound l id s h

-- Whatever requests and turns of streams follow one another, from a table that is sound: the counter
-- is never above the number of replies that wait for the sessions, no queue holds more than its 100
-- replies, and there is at most one session more than the configuration allows.
pub run_events-IsSound :
    (l : Limits) (es : List Event) (s : Server) → IsSound l s → IsSound l (run_events l es s)
unfolding run_events
run_events-IsSound l [] s h = h
run_events-IsSound l (e ∷ es) s h = run_events-IsSound l es (step l e s) (step-IsSound l e s h)
