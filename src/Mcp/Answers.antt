-- ===== src/Mcp/Answers.antt =====
-- What a POST to the MCP endpoint is answered, on every path.
use context_broker.Prelude.{
  ℕ, ◌≡◌, refl, ◌⊎◌, Bool, true, false, not, Option, none, some, [], ◌∷◌, String, ◌==◌, cat,
}
use context_broker.Mcp.Sessions.{Server, has_session}
use context_broker.Mcp.Call.{
  ToolCall, Body, not_json, not_object, invalid, call, result, crashed, dumped, no_json_value,
  after_dump, Content, answer, queued_ack, error, Response, Handled, responded, raised, respond,
  no_session, McpExternal, hand_over, after_dispatch, call_configured, call_tool, mcp_tool_call,
}

abbrev pub is_error : Content → Bool
is_error (error code message) = true
is_error (answer text) = false
is_error queued_ack = false

-- The "id" of a body, as far as it can be read.
abbrev pub body_id : Body → Option String
body_id not_json = none
body_id not_object = none
body_id (invalid id) = id
body_id (call c) = c.id

-- The response has this id, and the status 200 exactly where it has no error.
abbrev Echoes : Option String → Response → Type 0
Echoes id r = (r.id ≡ id) × ((r.status == 200) ≡ not (is_error r.content))

module _ {World : Type 0} (ext : McpExternal World) where
  -- A response echoes the body's id; without one, the body was no object, the tool raised an exception
  -- that nothing catches, or its result has a value that is none of JSON.
  abbrev pub IsAnswered : Body → World → Handled → Type 0
  IsAnswered body w (responded r) = Echoes (body_id body) r
  IsAnswered body w raised =
      (body ≡ not_object)
      ⊎ ((c : ToolCall) × (body ≡ call c)
          × (((ext.dispatch_tool c.name c.arguments w).0 ≡ crashed)
              ⊎ ((r : String) × ((ext.dispatch_tool c.name c.arguments w).0 ≡ result r)
                  × (ext.dump_result r ≡ no_json_value))))

  -- A call of a tool for a session that is not there runs the tool before the session is looked up:
  -- the response is an error 404, and what the tool did to the system stays.
  mcp_tool_call-no_session :
      (c : ToolCall) (session : ℕ) (w : World) (s : Server) (r reply : String)
      → c.method ≡ "tools/call"
      → ext.config_error ≡ none
      → (ext.dispatch_tool c.name c.arguments w).0 ≡ result r
      → ext.dump_result r ≡ dumped reply
      → has_session session s.sessions ≡ false
      → mcp_tool_call ext (call c) (some session) w s ≡ (
        respond 404 c.id
            (error no_session (cat ("Session not found: " ∷ ext.show_session session ∷ []))),
        (ext.dispatch_tool c.name c.arguments w).1,
        s,
      )
  unfolding mcp_tool_call call_tool call_configured after_dispatch after_dump hand_over
  mcp_tool_call-no_session c session w s r reply m config d made gone =
      rw (m, config, d, made, gone) refl
