-- ===== src/Tests/Sessions.antt =====
-- Two clients of the MCP endpoint, with a TTL of ten seconds.
use context_broker.Prelude.{ℕ, ◌+◌, ◌≡◌, refl, none, some, List, [], ◌∷◌, arith}
use context_broker.Prelude.Int.{pos, ◌+ℤ◌, ◌-ℤ◌}
use context_broker.Mcp.Sessions.{
  Server, Limits, Event, connect, post, turn, close, run_events, started,
}
use context_broker.Mcp.Accounting.{IsSound, run_events-IsSound}
use context_broker.Mcp.Drift.{IsExact, run_events-IsExact}
use context_broker.Mcp.Call.{McpExternal, ToolCall, result, dumped}
use context_broker.Tests.Messages.{show_id}

abbrev limits : Limits
limits = record { max_sessions = 2; session_ttl = 10; max_total_queued = 5 }

started-IsSound : IsSound limits started
started-IsSound = record { counted = omega arith; small = tt; few = omega arith }

abbrev exchange : List Event
exchange = connect 1 ∷ post 1 "a" ∷ connect 2 ∷ post 2 "b" ∷ turn 1 ∷ close 2 ∷ []

run_events-IsSound_example : IsSound limits (run_events limits exchange started)
run_events-IsSound_example = run_events-IsSound limits exchange started started-IsSound

run_events-IsExact_example : IsExact (run_events limits exchange started)
unfolding run_events ◌-ℤ◌ ◌+ℤ◌
run_events-IsExact_example =
    run_events-IsExact limits exchange started (tt, (tt, (tt, (tt, (refl, (tt, tt)))))) refl

-- The first client's session is evicted with a reply in its queue; the second has one too.
abbrev evicted : Server
evicted = record {
  sessions = record { id = 2; queue = "b" ∷ []; created_at = 20 } ∷ [];
  orphans = record { id = 1; queue = "a" ∷ []; created_at = 1 } ∷ [];
  total_queued = pos 1;
  next_id = 3;
}

evicted_lem :
    run_events limits (connect 1 ∷ post 1 "a" ∷ connect 20 ∷ post 2 "b" ∷ []) started ≡ evicted
unfolding run_events ◌+ℤ◌ ◌-ℤ◌
evicted_lem = refl

-- A system that counts the calls of its tools.
abbrev counting : McpExternal ℕ
counting = record {
  config_error = none;
  dispatch_tool = λ name arguments calls. (result "stored", calls + 1);
  dump_result = λ r. dumped r;
  server_info = "context-broker 1.0.0";
  tool_list = "store_message";
  show_session = show_id;
  meanwhile = λ s. s;
}

abbrev storing : ToolCall
storing = record { id = some "1"; method = "tools/call"; name = "store_message"; arguments = "a" }
