-- ===== src/Mcp/Call.antt =====
-- app/routes/mcp.py, `mcp_tool_call`: how a POST is answered, with a session or without one. The
-- tools are a parameter that acts on the rest of the system, as `World`. The bodies of requests and
-- replies are opaque texts; a `sessionId` that is empty counts as absent, and one that is not the text
-- of a given id as the number of no session.
use context_broker.Prelude.{ℕ, not, Option, none, some, [], ◌∷◌, String, if◌then◌else◌, str_eq, cat}
use context_broker.Prelude.Int.{ℤ, negsuc}
use context_broker.Mcp.Sessions.{
  Server, has_session, Pushed, queued_reply, not_found, disconnected, queue_full, push_reply,
}

-- A request that MCPToolCall accepts.
pub record ToolCall : Type 0 where
  pub id : Option String
  pub method : String
  -- params.get("name", "unknown") and params.get("arguments", {})
  pub name : String
  pub arguments : String

-- What the body of a POST can be: no JSON; JSON that is no object; an object that is no request, with
-- its "id"; or a request.
pub data Body : Type 0 where
  not_json : Body
  not_object : Body
  invalid : Option String → Body
  call : ToolCall → Body

-- How `dispatch_tool` ends: with a result; a ValueError or ValidationError; a RuntimeError,
-- ConnectionError or OSError; or an exception that nothing catches.
pub data Dispatched : Type 0 where
  result : String → Dispatched
  rejected : String → Dispatched
  failed : String → Dispatched
  crashed : Dispatched

-- `json.dumps(result, default=_json_default)`, or `str` of a result that is no dictionary: a text; a
-- ValueError; or a TypeError, which nothing catches.
pub data Dumped : Type 0 where
  dumped : String → Dumped
  circular : String → Dumped
  no_json_value : Dumped

-- "result" or "error" of a JSON-RPC response; an error has its code.
pub data Content : Type 0 where
  answer : String → Content
  queued_ack : Content
  error : ℤ → String → Content

pub record Response : Type 0 where
  pub status : ℕ
  pub id : Option String
  pub content : Content

-- A response, or an exception that leaves the handler.
pub data Handled : Type 0 where
  responded : Response → Handled
  raised : Handled

abbrev pub respond : ℕ → Option String → Content → Handled
respond status id content = responded (record { status = status; id = id; content = content })

-- The codes: `negsuc n` is -(n + 1).
abbrev pub parse_error : ℤ
parse_error = negsuc 32699

abbrev pub invalid_request : ℤ
invalid_request = negsuc 32599

abbrev pub method_not_found : ℤ
method_not_found = negsuc 32600

abbrev pub invalid_params : ℤ
invalid_params = negsuc 32601

abbrev pub server_error : ℤ
server_error = negsuc 31999

abbrev pub no_session : ℤ
no_session = negsuc 32000

-- What lies outside of the handler.
pub record McpExternal (World : Type 0) : Type 0 where
  -- The error of `async_load_config`, if it raises one.
  pub config_error : Option String
  -- `dispatch_tool` with the name and the arguments.
  pub dispatch_tool : String → String → World → Dispatched × World
  pub dump_result : String → Dumped
  -- The results of the methods "initialize" and "tools/list".
  pub server_info : String
  pub tool_list : String
  pub show_session : ℕ → String
  -- What other requests do to the table while the handler waits for its lock.
  pub meanwhile : Server → Server

-- The response to a push to the queue of a session, whose id is a text.
abbrev pub after_push : Option String → String → Pushed × Server → Handled × Server
after_push id session (queued_reply, s) = (respond 200 id queued_ack, s)
after_push id session (not_found, s) =
    (respond 404 id (error no_session (cat ("Session not found: " ∷ session ∷ []))), s)
after_push id session (disconnected, s) =
    (respond 404 id (error no_session (cat ("Session disconnected: " ∷ session ∷ []))), s)
after_push id session (queue_full, s) = (
  respond 503 id
      (error server_error "Session queue full — client is not consuming events fast enough"),
  s,
)

module _ {World : Type 0} (ext : McpExternal World) where
  -- The reply goes to the queue of the session, or into the response.
  unfoldable pub hand_over : Option String → Option ℕ → String → Server → Handled × Server
  unfolding push_reply
  hand_over id none reply s = (respond 200 id (answer reply), s)
  hand_over id (some session) reply s =
      if not (has_session session s.sessions)
      then after_push id (ext.show_session session) (not_found, s)
      else after_push id (ext.show_session session) (push_reply session reply (ext.meanwhile s))

  unfoldable pub after_dump :
      Option String → Option ℕ → Dumped → World → Server → Handled × World × Server
  unfolding hand_over
  after_dump id session (dumped reply) w s =
      let (h, s') = hand_over id session reply s in (h, w, s')
  after_dump id session (circular e) w s = (respond 400 id (error invalid_params e), w, s)
  after_dump id session no_json_value w s = (raised, w, s)

  unfoldable pub after_dispatch :
      Option String → Option ℕ → Dispatched × World → Server → Handled × World × Server
  unfolding after_dump
  after_dispatch id session (result r, w) s = after_dump id session (ext.dump_result r) w s
  after_dispatch id session (rejected e, w) s = (respond 400 id (error invalid_params e), w, s)
  after_dispatch id session (failed e, w) s = (respond 500 id (error server_error e), w, s)
  after_dispatch id session (crashed, w) s = (raised, w, s)

  -- After `async_load_config`.
  unfoldable pub call_configured :
      Option String → ToolCall → Option ℕ → World → Server → Handled × World × Server
  unfolding after_dispatch
  call_configured (some e) c session w s =
      (respond 500 c.id (error server_error (cat ("Configuration unavailable: " ∷ e ∷ []))), w, s)
  call_configured none c session w s =
      after_dispatch c.id session (ext.dispatch_tool c.name c.arguments w) s

  unfoldable pub call_tool : ToolCall → Option ℕ → World → Server → Handled × World × Server
  unfolding call_configured
  call_tool c session w s = call_configured ext.config_error c session w s

  unfoldable pub mcp_tool_call : Body → Option ℕ → World → Server → Handled × World × Server
  unfolding call_tool
  mcp_tool_call not_json session w s = (respond 400 none (error parse_error "Parse error"), w, s)
  mcp_tool_call not_object session w s = (raised, w, s)
  mcp_tool_call (invalid id) session w s =
      (respond 400 id (error invalid_request "Invalid Request"), w, s)
  mcp_tool_call (call c) session w s =
      if str_eq c.method "initialize"
      then (respond 200 c.id (answer ext.server_info), w, s)
      else if str_eq c.method "tools/list"
      then (respond 200 c.id (answer ext.tool_list), w, s)
      else if not (str_eq c.method "tools/call")
      then (
        respond 400 c.id (error method_not_found (cat ("Method not found: " ∷ c.method ∷ []))),
        w,
        s,
      )
      else call_tool c session w s
