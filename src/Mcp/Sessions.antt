-- ===== src/Mcp/Sessions.antt =====
-- app/routes/mcp.py: the table of the sessions, the queues of their replies and the counter of the
-- replies that wait in them. The steps of the requests and of the event streams are interleaved as a
-- list of events says. An event stream keeps its queue when its session is evicted: such a session
-- goes to `orphans`. Ids are numbers: a fresh one is larger than those given before.
use context_broker.Prelude.{
  ℕ, ◌+◌, Bool, false, not, Option, none, some, List, [], ◌∷◌, ◌++◌, String, ltb, leb, ◌==◌,
  if◌then◌else◌, length, keep, any, total,
}
use context_broker.Prelude.Int.{ℤ, pos, ◌+ℤ◌, ◌-ℤ◌, ltb_ℤ, at_least_zero}

-- A session with its queue, the oldest reply first; times are in seconds.
pub record Session : Type 0 where
  pub id : ℕ
  pub queue : List String
  pub created_at : ℕ

pub record Server : Type 0 where
  -- _sessions, in the order of insertion
  pub sessions : List Session
  -- Sessions that were evicted while their event stream runs.
  pub orphans : List Session
  -- _total_queued_messages
  pub total_queued : ℤ
  pub next_id : ℕ

-- mcp_max_sessions, mcp_session_ttl_seconds, mcp_max_total_queued
pub record Limits : Type 0 where
  pub max_sessions : ℕ
  pub session_ttl : ℕ
  pub max_total_queued : ℕ

abbrev pub qsize : Session → ℕ
qsize s = length s.queue

abbrev pub queued : List Session → ℕ
queued = total qsize

-- `now - info["created_at"] > session_ttl`
abbrev pub is_outdated : ℕ → ℕ → Session → Bool
is_outdated ttl now s = ltb (s.created_at + ttl) now

-- Every session older than the TTL is removed, and its replies are taken off the counter.
unfoldable pub evict_stale : ℕ → ℕ → Server → Server
evict_stale ttl now s =
    let stale = keep (is_outdated ttl now) s.sessions in
    record s {
      sessions = keep (λ x. not (is_outdated ttl now x)) s.sessions;
      orphans = s.orphans ++ stale;
      total_queued = s.total_queued -ℤ pos (queued stale);
    }

-- `while len(_sessions) > max_sessions`: the sessions that stay, those that go, and the counter.
unfoldable pub evict_over : ℕ → List Session → List Session → ℤ → List Session × List Session × ℤ
evict_over max [] gone n = ([], gone, n)
evict_over max (s ∷ ss) gone n =
    let rest = evict_over max ss (gone ++ s ∷ []) (n -ℤ pos (qsize s)) in
    if ltb max (length (s ∷ ss)) then rest else (s ∷ ss, gone, n)

-- `while _total_queued_messages > max_total_queued and _sessions`
unfoldable pub evict_pressure :
    ℕ → List Session → List Session → ℤ → List Session × List Session × ℤ
evict_pressure cap [] gone n = ([], gone, n)
evict_pressure cap (s ∷ ss) gone n =
    let rest = evict_pressure cap ss (gone ++ s ∷ []) (n -ℤ pos (qsize s)) in
    if ltb_ℤ (pos cap) n then rest else (s ∷ ss, gone, n)

abbrev pub with_sessions : Server → List Session × List Session × ℤ → Server
with_sessions s (live, gone, n) = record s { sessions = live; orphans = gone; total_queued = n }

unfoldable pub evict_stale_sessions : Limits → ℕ → Server → Server
unfolding evict_stale evict_over evict_pressure
evict_stale_sessions l now s =
    let fresh = evict_stale l.session_ttl now s in
    let fitting =
      with_sessions fresh
        (evict_over l.max_sessions fresh.sessions fresh.orphans fresh.total_queued) in
    with_sessions fitting
      (evict_pressure l.max_total_queued fitting.sessions fitting.orphans fitting.total_queued)

-- `mcp_sse_session`, up to the response that streams.
unfoldable pub mcp_sse_session : Limits → ℕ → Server → Server
unfolding evict_stale_sessions
mcp_sse_session l now s =
    let t = evict_stale_sessions l now s in
    record t {
      sessions = t.sessions ++ record { id = t.next_id; queue = []; created_at = now } ∷ [];
      next_id = t.next_id + 1;
    }

abbrev pub has_session : ℕ → List Session → Bool
has_session id = any (λ s. s.id == id)

-- asyncio.Queue(maxsize=100)
abbrev pub queue_maxsize : ℕ
queue_maxsize = 100

pub data Pushed : Type 0 where
  queued_reply : Pushed
  not_found : Pushed
  disconnected : Pushed
  queue_full : Pushed

-- The first session with the id, replaced by what a function makes of it.
unfoldable pub update_session : ℕ → (Session → Session) → List Session → List Session
update_session id f [] = []
update_session id f (s ∷ ss) = if s.id == id then f s ∷ ss else s ∷ update_session id f ss

unfoldable pub find_session : ℕ → List Session → Option Session
find_session id [] = none
find_session id (s ∷ ss) = if s.id == id then some s else find_session id ss

abbrev pub full : Option Session → Bool
full none = false
full (some s) = leb queue_maxsize (qsize s)

-- Under the lock: the second look for the session, and the reply goes to its queue.
unfoldable pub push_reply : ℕ → String → Server → Pushed × Server
unfolding update_session find_session
push_reply id reply s =
    if not (has_session id s.sessions)
    then (disconnected, s)
    else if full (find_session id s.sessions)
    then (queue_full, s)
    else (
      queued_reply,
      record s {
        sessions = update_session id (λ x. record x { queue = x.queue ++ reply ∷ [] }) s.sessions;
        total_queued = s.total_queued +ℤ pos 1;
      },
    )

abbrev pub pop_front : Session → Session
pop_front s = record s { queue = elim s.queue [ [] ↦ [] | r ∷ rs ↦ rs ] }

abbrev pub waiting : Option Session → Bool
waiting none = false
waiting (some s) = ltb 0 (qsize s)

-- A turn of `event_stream` that gets a reply: it leaves the queue, and the counter falls, but not
-- below zero.
unfoldable pub deliver : ℕ → Server → Server
unfolding update_session find_session
deliver id s =
    let fewer = at_least_zero (s.total_queued -ℤ pos 1) in
    if waiting (find_session id s.sessions)
    then record s { sessions = update_session id pop_front s.sessions; total_queued = fewer }
    else if waiting (find_session id s.orphans)
    then record s { orphans = update_session id pop_front s.orphans; total_queued = fewer }
    else s

unfoldable pub remove_session : ℕ → List Session → List Session
remove_session id [] = []
remove_session id (s ∷ ss) = if s.id == id then ss else s ∷ remove_session id ss

-- After `_sessions.pop(session_id, None)`: the replies that are left are taken off the counter, but
-- not below zero.
unfoldable pub close_removed : ℕ → Option Session → Server → Server
unfolding remove_session
close_removed id none s = record s { orphans = remove_session id s.orphans }
close_removed id (some x) s = record s {
  sessions = remove_session id s.sessions;
  total_queued = at_least_zero (s.total_queued -ℤ pos (qsize x));
}

-- The `finally` of `event_stream`.
unfoldable pub close_stream : ℕ → Server → Server
unfolding close_removed find_session
close_stream id s = close_removed id (find_session id s.sessions) s

-- What happens at the endpoint, one event after another.
pub data Event : Type 0 where
  connect : ℕ → Event
  post : ℕ → String → Event
  turn : ℕ → Event
  close : ℕ → Event

unfoldable pub step : Limits → Event → Server → Server
unfolding mcp_sse_session push_reply deliver close_stream
step l (connect now) s = mcp_sse_session l now s
step l (post id reply) s = (push_reply id reply s).1
step l (turn id) s = deliver id s
step l (close id) s = close_stream id s

unfoldable pub run_events : Limits → List Event → Server → Server
unfolding step
run_events l [] s = s
run_events l (e ∷ es) s = run_events l es (step l e s)

abbrev pub started : Server
started = record { sessions = []; orphans = []; total_queued = pos 0; next_id = 1 }
